-- ===== src/FastQueue/Create.antt =====
-- The constructor of the ring: the capacity is the next power of 2, and the loop ends.
use sesc_src.Common.{
  ℕ, zero, suc, ◌+◌, ◌-◌, ◌*◌, ◌^◌, ◌≤◌, ◌<◌, ◌≡◌, ◌≢◌, refl, sym, ◌∙◌, inl, inr, bit_and, true,
  some, ◌==◌, ltb, Bool-cases, arith,
}
use sesc_src.Common.Bits.{bit_and_mask, power_of_two}
use sesc_src.FastQueue.Ring.{FastQueue, uint, round_up, create}
use native.Mathlib.Nat.{pow-suc, mod_self}
use mathlib.Core.Path.{subst}

-- There is a power of 2 between a number and its double.
next_power : (n : ℕ) → 0 < n → (k : ℕ) × (n ≤ 2 ^ k) × (2 ^ k < 2 * n)
next_power zero h = absurd (omega arith)
next_power (suc zero) h = (0, omega arith, omega arith)
next_power (suc (suc n)) h =
    let (k, low, high) = next_power (suc n) (omega arith) in
    elim (Bool-cases (ltb (2 ^ k) (suc (suc n)))) [
      | inl less ↦ (suc k, ground (arith, pow-suc 2 k), ground (arith, pow-suc 2 k))
      | inr enough ↦ (k, ground arith, ground arith)
    ]

-- The test of the loop at a power of 2
stops : (m k : ℕ) → m ≡ 2 ^ k → bit_and m (m - 1) ≡ 0
stops m k e = subst (λ x. bit_and x (x - 1) ≡ 0) (sym e) (bit_and_mask k (2 ^ k) ∙ mod_self (2 ^ k))

pred_uint : (m : ℕ) → 0 < m → m < 2 ^ 32 → uint (m + (2 ^ 32 - 1)) ≡ m - 1
pred_uint m p h = omega arith

-- Below a power of 2 the loop stops there or before.
round_up-some :
    (n m k : ℕ)
    → 0 < m
    → m ≤ 2 ^ k
    → 2 ^ k ≤ m + n
    → 2 ^ k < 2 ^ 32
    → (x : ℕ) × (round_up n m ≡ some x) × (m ≤ x) × (x ≤ 2 ^ k) × (bit_and x (x - 1) ≡ 0)
unfolding round_up
round_up-some zero m k pos low high fit =
    let at_power = stops m k (omega arith) in
    rw (pred_uint m pos (omega arith), at_power) (m, refl, omega arith, omega arith, at_power)
round_up-some (suc n) m k pos low high fit =
    let pred = pred_uint m pos (omega arith) in
    elim (Bool-cases (bit_and m (m - 1) == 0)) [
      | inl e ↦ rw (pred, e) (m, refl, omega arith, low, ground arith)
      | inr e ↦
          let short : m ≢ 2 ^ k = λ same. (let z = stops m k same in ground arith) in
          let next : uint (m + 1) ≡ m + 1 = omega arith in
          let (x, found, above, below, ok) =
            round_up-some n (m + 1) k (omega arith) (omega arith) (omega arith) fit in
          rw (pred, e, next) (x, found, omega arith, below, ok)
    ]

-- What the constructor promises: a mask of `k` ones where 2^k is the least power of 2 from `size` on,
-- and no element.
pub record IsNew {ℓ} {A : Type ℓ} (memory : ℕ → A) (size : ℕ) (q : FastQueue A) : Type ℓ where
  pub log : ℕ
  pub mask : q.pipe_mask ≡ 2 ^ log - 1
  pub holds : size ≤ 2 ^ log
  pub least : 2 ^ log < 2 * size
  pub small : 2 ^ log < 2 ^ 19
  pub first : q.start ≡ 0
  pub last : q.end ≡ 0
  pub none_in : q.n_elems ≡ 0

-- The constructor returns for every size from 1 to 2^18 - 1: `size` rounds of its loop are enough,
-- the capacity is the least power of 2 that is not below the size, and the ring is empty.
pub create-IsNew {ℓ} :
    {A : Type ℓ} (memory : ℕ → A) (size : ℕ)
    → 0 < size
    → size < 2 ^ 18
    → (q : FastQueue A) × (create memory size ≡ some q) × IsNew memory size q
unfolding create
create-IsNew memory size pos small =
    let (k, low, high) = next_power size pos in
    let (x, found, above, below, ok) =
      round_up-some size size k pos low (omega arith) (omega arith) in
    let (j, same) = power_of_two x (omega arith) ok in
    let pred = pred_uint x (omega arith) (omega arith) in
    let p : ltb 0 size ≡ true = ground arith in
    let s : ltb size (2 ^ 18) ≡ true = ground arith in
    rw (p, s, found, pred)
      (
        _,
        refl,
        record {
          log = j;
          mask = omega arith;
          holds = omega arith;
          least = omega arith;
          small = omega arith;
          first = refl;
          last = refl;
          none_in = refl;
        },
      )
