-- ===== src/FastQueue/Ring.antt =====
-- libsuc/FastQueue.h (the version that is compiled, without FASTQUEUE_USE_QUEUE). The buffer `pipe`
-- is a function from the index; an assertion that fails stops the simulator: `none`.
use sesc_src.Common.{
  ℕ, zero, suc, ◌+◌, ◌-◌, ◌%◌, ◌^◌, bit_and, Bool, not, Option, none, some, ◌==◌, ltb, leb, ◌&&◌,
  if◌then◌else◌,
}
use sesc_src.Common.Arrays.{update}

pub record FastQueue {ℓ} (A : Type ℓ) : Type ℓ where
  pub pipe : ℕ → A
  pub pipe_mask : ℕ
  pub start : ℕ
  pub end : ℕ
  pub n_elems : ℕ

-- `unsigned int`
abbrev pub uint : ℕ → ℕ
uint n = n % 2 ^ 32

-- `while(pipeMask & (pipeMask - 1)) pipeMask++;`, at most the first argument's rounds
unfoldable pub round_up : ℕ → ℕ → Option ℕ
round_up zero m = if bit_and m (uint (m + (2 ^ 32 - 1))) == 0 then some m else none
round_up (suc n) m =
    let rest = round_up n (uint (m + 1)) in
    if bit_and m (uint (m + (2 ^ 32 - 1))) == 0 then some m else rest

module _ {ℓ} {A : Type ℓ} where
  -- The constructor, on memory that `malloc` returned.
  unfoldable pub create : (ℕ → A) → ℕ → Option (FastQueue A)
  unfolding round_up
  create memory size =
      if ltb 0 size && ltb size (2 ^ 18)
      then elim (round_up size size) [
        | none ↦ none
        | some m ↦ some (record {
          pipe = memory;
          pipe_mask = uint (m + (2 ^ 32 - 1));
          start = 0;
          end = 0;
          n_elems = 0;
        })
      ]
      else none

  unfoldable pub push : FastQueue A → A → Option (FastQueue A)
  push q d =
      if leb q.n_elems q.pipe_mask && q.end == bit_and (uint (q.start + q.n_elems)) q.pipe_mask
      then some (record q {
        pipe = update q.pipe q.end d;
        end = bit_and (uint (q.end + 1)) q.pipe_mask;
        n_elems = uint (q.n_elems + 1);
      })
      else none

  unfoldable pub top : FastQueue A → Option A
  top q = if q.n_elems == 0 then none else some (q.pipe q.start)

  unfoldable pub pop : FastQueue A → FastQueue A
  pop q = record q {
    n_elems = uint (q.n_elems + (2 ^ 32 - 1));
    start = bit_and (uint (q.start + 1)) q.pipe_mask;
  }

  unfoldable pub get_id_from_top : FastQueue A → ℕ → Option ℕ
  get_id_from_top q i =
      if ltb i q.n_elems then some (bit_and (uint (q.start + i)) q.pipe_mask) else none

  abbrev pub get_next_id : FastQueue A → ℕ → ℕ
  get_next_id q id = bit_and (uint (id + 1)) q.pipe_mask

  abbrev pub is_end : FastQueue A → ℕ → Bool
  is_end q id = id == q.end

  unfoldable pub get_data : FastQueue A → ℕ → Option A
  get_data q id = if leb id q.pipe_mask && not (id == q.end) then some (q.pipe id) else none

  abbrev pub top_next : FastQueue A → Option A
  top_next q = elim (get_id_from_top q 1) [ none ↦ none | some id ↦ get_data q id ]

  abbrev pub empty : FastQueue A → Bool
  empty q = q.n_elems == 0
