-- ===== src/Mshr/Drain.antt =====
-- Every request to `FullMSHR` is finished once the lower level answers.
use sesc_src.Common.{
  ℕ, zero, suc, ◌+◌, ◌^◌, ◌<◌, ◌≡◌, refl, sym, ap, ◌∙◌, inl, inr, Bool, true, false, not, some,
  List, [], ◌∷◌, ◌==◌, Bool-cases, arith,
}
use sesc_src.Common.Sums.{is_empty, length, total_zero, total_pos}
use sesc_src.Mshr.Types.{Event, OverflowField}
use sesc_src.Mshr.Full.{FullMshr, calc_entry, admit, release, serve, retire}
use sesc_src.Mshr.Accounts.{IsFull, weight, load}
use sesc_src.Mshr.Releases.{unfinished}
use sesc_src.Mshr.Retires.{retire-IsFull}
use mathlib.Core.Path.{subst}

-- `n` calls of `retire`, each of an address whose position is in use
pub data Run : ℕ → FullMshr → FullMshr → Type 0 where
  settled : {m : FullMshr} → Run zero m m
  retired :
      {n : ℕ} {m m1 m2 : FullMshr} (paddr : ℕ) (b : Bool) (es : List Event)
      → m.in_use (calc_entry m paddr) ≡ true
      → retire m paddr ≡ some (b, m1, es)
      → Run n m1 m2
      → Run (suc n) m m2

-- Nothing is below and nothing waits.
pub record IsIdle (bits : ℕ) (m : FullMshr) : Type 0 where
  pub free : m.n_free_entries ≡ m.n_entries
  pub queue : m.overflow ≡ []
  pub unused : (i : ℕ) → i < 2 ^ bits → m.in_use i ≡ false
  pub empty : (i : ℕ) → i < 2 ^ bits → m.cc i ≡ []

weight_zero : (b : Bool) (cs : List ℕ) → weight b cs ≡ 0 → b ≡ false
weight_zero false cs e = refl
weight_zero true cs e = absurd (omega arith)

weight_pos : (b : Bool) (cs : List ℕ) → 0 < weight b cs → b ≡ true
weight_pos false cs h = absurd (omega arith)
weight_pos true cs h = refl

length_zero : (fs : List OverflowField) → length fs ≡ 0 → fs ≡ []
length_zero [] e = refl
length_zero (f ∷ fs) e = absurd (omega arith)

finished-IsIdle :
    (bits : ℕ) (m : FullMshr) → IsFull bits 0 0 m → unfinished bits m ≡ 0 → IsIdle bits m
unfolding unfinished
finished-IsIdle bits m v e =
    let account = v.account in
    let unused : (i : ℕ) → i < 2 ^ bits → m.in_use i ≡ false = λ i l.
      weight_zero (m.in_use i) (m.cc i)
        (total_zero (2 ^ bits) i (λ i. weight (m.in_use i) (m.cc i)) (omega arith) l) in
    record {
      free = omega arith;
      queue = length_zero m.overflow (omega arith);
      unused = unused;
      empty = λ i l. v.idle i (unused i l);
    }

waiting_pos : (fs : List OverflowField) → 0 < length fs → not (is_empty fs) ≡ true
waiting_pos [] h = absurd (omega arith)
waiting_pos (f ∷ fs) h = refl

progress :
    (bits : ℕ) (m : FullMshr)
    → IsFull bits 0 0 m
    → 0 < m.n_entries
    → 0 < unfinished bits m
    → (paddr : ℕ) × (m.in_use (calc_entry m paddr) ≡ true)
unfolding unfinished
progress bits m v some_entry busy = elim (Bool-cases (load (2 ^ bits) m.in_use m.cc == 0)) [
  | inl none_used ↦
      let none_below : load (2 ^ bits) m.in_use m.cc ≡ 0 = ground arith in
      let over = v.flag ∙ waiting_pos m.overflow (omega arith) in
      let full = v.full over in let account = v.account in absurd (omega arith)
  | inr used ↦
      let (i, l, p) = total_pos (2 ^ bits) (λ i. weight (m.in_use i) (m.cc i)) (ground arith) in
      let on = weight_pos (m.in_use i) (m.cc i) p in
      let (a, at) = v.source i on in (a, subst (λ j. m.in_use j ≡ true) (sym at) on)
]

retire-n_entries :
    (m m' : FullMshr) (paddr : ℕ) (b : Bool) (es : List Event)
    → retire m paddr ≡ some (b, m', es)
    → m'.n_entries ≡ m.n_entries
unfolding retire release admit serve
retire-n_entries m m' paddr b es e = ground arith

pub Run-IsFull :
    (bits n : ℕ) (m m' : FullMshr)
    → IsFull bits 0 0 m
    → Run n m m'
    → IsFull bits 0 0 m'
      × (n + unfinished bits m' ≡ unfinished bits m)
      × (m'.n_entries ≡ m.n_entries)
Run-IsFull bits zero m m' v settled = (v, omega arith, refl)
Run-IsFull bits (suc n) m m' v (retired {m1 = m1} paddr b es used e more) =
    let (b1, m2, es1, e1, v1, less) = retire-IsFull bits m paddr v used in
    let same : m2 ≡ m1 = cc in
    let sizes = retire-n_entries m m1 paddr b es e in
    let one = ap (unfinished bits) same in
    let (v', rest, sizes') = Run-IsFull bits n m1 m' (subst (IsFull bits 0 0) same v1) more in
    (v', omega arith, sizes' ∙ sizes)

-- In a state where the accounts are right and that has entries, let `retire` be called for addresses
-- whose positions are in use, any number of times. Each call finishes one of the requests that are
-- below, wait at a position, or wait for an entry. As long as there is one of them, some position is in
-- use, so that the lower level has an answer to give; and when there is none, all entries are free, and
-- no callback waits at a position or in the overflow queue.
pub Run-IsIdle :
    (bits n : ℕ) (m m' : FullMshr)
    → IsFull bits 0 0 m
    → 0 < m.n_entries
    → Run n m m'
    → (n + unfinished bits m' ≡ unfinished bits m)
      × (0 < unfinished bits m' → (paddr : ℕ) × (m'.in_use (calc_entry m' paddr) ≡ true))
      × (n ≡ unfinished bits m → IsIdle bits m')
Run-IsIdle bits n m m' v some_entry r =
    let (v', count, sizes) = Run-IsFull bits n m m' v r in
    (
      count,
      λ busy. progress bits m' v' (omega arith) busy,
      λ all. finished-IsIdle bits m' v' (omega arith),
    )
