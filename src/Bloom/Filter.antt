-- ===== src/Bloom/Filter.antt =====
-- libsuc/BloomFilter.h and BloomFilter.cpp. The masks of all vectors together have at most 31 bits, as
-- those of the registers have, so that an `int` holds each masked value.
use sesc_src.Common.{
  ℕ, zero, suc, ◌+◌, ◌-◌, ◌*◌, ◌/◌, ◌%◌, ◌^◌, bit_and, bit_or, Bool, true, not, Option, none, some,
  List, [], ◌∷◌, ◌==◌, ◌&&◌, if◌then◌else◌,
}
use sesc_src.Common.Arrays.{update}

-- A vector of counters, and the bits of the value that index it
pub record Vector : Type 0 where
  pub v_size : ℕ
  pub v_mask : ℕ
  pub r_shift : ℕ
  pub count_vec : ℕ → ℕ

-- `mask = mask | 1 << m`, for m below `vBits[i]`
unfoldable pub ones : ℕ → ℕ
ones zero = 0
ones (suc m) = bit_or (ones m) (2 ^ m)

-- The constructor with `initMasks`, from the bits and sizes of the vectors
unfoldable pub init_masks : ℕ → List (ℕ × ℕ) → List Vector
unfolding ones
init_masks tot_shift [] = []
init_masks tot_shift ((bits, size) ∷ vs) =
    record {
      v_size = size;
      v_mask = ones bits * 2 ^ tot_shift % 2 ^ 32;
      r_shift = tot_shift;
      count_vec = λ j. 0;
    }
    ∷ init_masks (tot_shift + bits) vs

unfoldable pub get_index : Vector → ℕ → ℕ
get_index v val = bit_and val v.v_mask / 2 ^ v.r_shift % v.v_size

unfoldable pub insert : ℕ → List Vector → List Vector
insert e [] = []
insert e (v ∷ vs) =
    let idx = get_index v e in
    record v { count_vec = update v.count_vec idx (v.count_vec idx + 1) } ∷ insert e vs

-- A counter that is 0 fails the assertion.
unfoldable pub remove : ℕ → List Vector → Option (List Vector)
remove e [] = some []
remove e (v ∷ vs) =
    let idx = get_index v e in
    let rest = remove e vs in
    if v.count_vec idx == 0 then none else elim rest [
      | none ↦ none
      | some vs' ↦
          some (record v { count_vec = update v.count_vec idx (v.count_vec idx - 1) } ∷ vs')
    ]

unfoldable pub may_exist : ℕ → List Vector → Bool
may_exist e [] = true
may_exist e (v ∷ vs) = not (v.count_vec (get_index v e) == 0) && may_exist e vs
