-- ===== src/Mshr/Accounts.antt =====
-- The entries of `FullMSHR` are accounted for: free, or taken by a request in its position.
use sesc_src.Common.{
  ℕ, suc, ◌+◌, ◌-◌, ◌/◌, ◌^◌, ◌<◌, ◌≡◌, refl, sym, ap, bit_and, bit_xor, Bool, true, false, not,
  List, [], ◌∷◌, ◌++◌, ◌==◌, ◌||◌, arith,
}
use sesc_src.Common.Arrays.{update, update-all}
use sesc_src.Common.Bits.{bit_and_mask_lt}
use sesc_src.Common.Sums.{
  is_empty, is_empty_snoc, length, length_append, total, total_none, total-update,
}
use sesc_src.Mshr.Types.{add, OverflowField}
use sesc_src.Mshr.Full.{FullMshr, create, calc_entry}
use native.Mathlib.Nat.{pow-suc}
use mathlib.Core.Path.{subst}

-- The requests that a position has below and waiting
abbrev pub weight : Bool → List ℕ → ℕ
weight false cs = 0
weight true cs = suc (length cs)

abbrev pub load : ℕ → (ℕ → Bool) → (ℕ → List ℕ) → ℕ
load size used cc = total size (λ i. weight (used i) (cc i))

-- Except for `d` entries that are taken and not used yet, and `e` that are both free and used, every
-- entry is free or used; entries wait only if none is free; what is not in use is empty, and what
-- is in use has an address.
pub record IsFull (bits d e : ℕ) (m : FullMshr) : Type 0 where
  pub mask : m.mshr_mask ≡ 2 ^ bits - 1
  pub flag : m.overflowing ≡ not (is_empty m.overflow)
  pub full : m.overflowing ≡ true → m.n_free_entries ≡ 0
  pub idle : (i : ℕ) → m.in_use i ≡ false → m.cc i ≡ []
  pub source : (i : ℕ) → m.in_use i ≡ true → (a : ℕ) × (calc_entry m a ≡ i)
  pub account : m.n_free_entries + load (2 ^ bits) m.in_use m.cc + d ≡ m.n_entries + e

pub calc_entry-lt :
    (bits : ℕ) (m : FullMshr) (paddr : ℕ)
    → m.mshr_mask ≡ 2 ^ bits - 1
    → calc_entry m paddr < 2 ^ bits
unfolding calc_entry
calc_entry-lt bits m paddr e =
    let p = paddr / 2 ^ m.log2_line_size in
    subst (λ k. bit_and (bit_xor p (p / 2 ^ 11)) k < 2 ^ bits) (sym e)
      (bit_and_mask_lt bits (bit_xor p (p / 2 ^ 11)))

module _ (bits d e : ℕ) (m : FullMshr) (v : IsFull bits d e m) (pos : ℕ)
    (inside : pos < 2 ^ bits) where
  -- A position that was not in use is taken.
  pub taken-IsFull :
      (paddr : ℕ)
      → calc_entry m paddr ≡ pos
      → m.in_use pos ≡ false
      → IsFull bits d (suc e) (record m { in_use = update m.in_use pos true })
  unfolding calc_entry
  taken-IsFull paddr here free =
      let empty = v.idle pos free in
      let changed = total-update (2 ^ bits) (λ j b. weight b (m.cc j)) m.in_use pos true inside in
      let before : weight (m.in_use pos) (m.cc pos) ≡ 0 = rw free refl in
      let after : weight true (m.cc pos) ≡ 1 = rw empty refl in
      let account = v.account in
      record {
        mask = v.mask;
        flag = v.flag;
        full = v.full;
        idle =
            update-all (λ i b. b ≡ false → m.cc i ≡ []) m.in_use pos true (λ t. absurd (cc))
              (λ j ne. v.idle j);
        source =
            update-all (λ i b. b ≡ true → (a : ℕ) × (calc_entry m a ≡ i)) m.in_use pos true
              (λ t. (paddr, here)) (λ j ne. v.source j);
        account = omega arith;
      }

  -- A request waits at a position in use.
  pub joined-IsFull :
      (c : ℕ)
      → m.in_use pos ≡ true
      → IsFull bits d (suc e) (record m { cc = update m.cc pos (add (m.cc pos) c) })
  unfolding calc_entry
  joined-IsFull c used =
      let changed =
        total-update (2 ^ bits) (λ j cs. weight (m.in_use j) cs) m.cc pos (add (m.cc pos) c)
          inside in
      let before : weight (m.in_use pos) (m.cc pos) ≡ suc (length (m.cc pos)) = rw used refl in
      let after : weight (m.in_use pos) (add (m.cc pos) c) ≡ suc (suc (length (m.cc pos))) =
        rw used (let longer = length_append (m.cc pos) (c ∷ []) in omega arith) in
      let account = v.account in
      record {
        mask = v.mask;
        flag = v.flag;
        full = v.full;
        idle =
            update-all (λ i cs. m.in_use i ≡ false → cs ≡ []) m.cc pos (add (m.cc pos) c)
              (λ f. absurd (cc)) (λ j ne. v.idle j);
        source = v.source;
        account = omega arith;
      }

-- One entry less is free.
pub spent-IsFull :
    (bits e : ℕ) (m : FullMshr)
    → IsFull bits 0 e m
    → 0 < m.n_free_entries
    → IsFull bits 1 e (record m { n_free_entries = m.n_free_entries - 1 })
unfolding calc_entry
spent-IsFull bits e m v some_free =
    let account = v.account in
    record {
      mask = v.mask;
      flag = v.flag;
      full = λ t. omega (arith, v.full t);
      idle = v.idle;
      source = v.source;
      account = omega arith;
    }

pub balanced-IsFull :
    (bits e : ℕ) (m : FullMshr) → IsFull bits (suc e) (suc e) m → IsFull bits 0 0 m
balanced-IsFull bits e m v =
    let account = v.account in
    record {
      mask = v.mask;
      flag = v.flag;
      full = v.full;
      idle = v.idle;
      source = v.source;
      account = omega arith;
    }

pub queued-IsFull :
    (bits : ℕ) (m : FullMshr) (f : OverflowField)
    → IsFull bits 0 0 m
    → (m.overflowing || m.n_free_entries == 0) ≡ true
    → IsFull bits 0 0 (record m { overflowing = true; overflow = m.overflow ++ f ∷ [] })
unfolding calc_entry
queued-IsFull bits m f v full =
    let none_free = v.full in
    record {
      mask = v.mask;
      flag = sym (ap not (is_empty_snoc m.overflow f));
      full = λ t. ground arith;
      idle = v.idle;
      source = v.source;
      account = v.account;
    }

-- The accounts of new registers are right, for a size that is rounded to a power of 2.
pub create-IsFull :
    (size bits log2_line_size : ℕ)
    → IsFull (suc (suc bits)) 0 0 (create size (2 ^ bits) log2_line_size)
create-IsFull size bits log2_line_size =
    let none_used = total_none (2 ^ suc (suc bits)) in
    let once = pow-suc 2 bits in
    let twice = pow-suc 2 (suc bits) in
    record {
      mask = omega arith;
      flag = refl;
      full = λ t. absurd (cc);
      idle = λ i f. refl;
      source = λ i t. absurd (cc);
      account = omega arith;
    }
