-- ===== src/Common/Sums.antt =====
-- Sums over the first entries of an array, and counts of a number in a list.
use Prim.Native.Nat.{ℕ, zero, suc, ◌+◌, ◌<◌}
use mathlib.Core.Path.{◌≡◌, refl, ap, ◌∙◌}
use mathlib.Core.Logic.{◌≢◌, inl, inr}
use mathlib.Core.Bool.{Bool, true, false}
use mathlib.Core.List.{List, [], ◌∷◌, ◌++◌}
use native.Mathlib.Omega.{arith}
use sesc_src.Common.Tests.{◌==◌, ltb, Bool-cases, if◌then◌else◌}
use sesc_src.Common.Arrays.{update, update_self, update_ne}

unfoldable pub total : ℕ → (ℕ → ℕ) → ℕ
total zero f = 0
total (suc n) f = total n f + f n

total_congr : (n : ℕ) (f g : ℕ → ℕ) → ((j : ℕ) → j < n → f j ≡ g j) → total n f ≡ total n g
unfolding total
total_congr zero f g h = refl
total_congr (suc n) f g h =
    let rest = total_congr n f g (λ j l. h j (omega arith)) in
    let last = h n (omega arith) in omega arith

-- Two arrays that agree but at `i`
pub total-change :
    (n i : ℕ) (f g : ℕ → ℕ)
    → i < n
    → ((j : ℕ) → i ≢ j → f j ≡ g j)
    → total n f + g i ≡ total n g + f i
unfolding total
total-change zero i f g h same = absurd (omega arith)
total-change (suc n) i f g h same = elim (Bool-cases (ltb i n)) [
  | inl below ↦
      let rest = total-change n i f g (ground arith) same in
      let last = same n (ground arith) in omega arith
  | inr not_below ↦
      let at : i ≡ n = ground arith in
      let rest = total_congr n f g (λ j l. same j (λ e. omega arith)) in ground arith
]

-- The sum after a write
pub total-update {ℓ} :
    {A : Type ℓ} (n : ℕ) (h : ℕ → A → ℕ) (f : ℕ → A) (i : ℕ) (a : A)
    → i < n
    → total n (λ j. h j (update f i a j)) + h i (f i) ≡ total n (λ j. h j (f j)) + h i a
total-update n h f i a l =
    let changed =
      total-change n i (λ j. h j (update f i a j)) (λ j. h j (f j)) l
        (λ j ne. ap (h j) (update_ne f i a j ne)) in
    changed ∙ ap (λ u. total n (λ j. h j (f j)) + h i u) (update_self f i a)

pub total_zero : (n i : ℕ) (f : ℕ → ℕ) → total n f ≡ 0 → i < n → f i ≡ 0
unfolding total
total_zero zero i f e h = absurd (omega arith)
total_zero (suc n) i f e h = elim (Bool-cases (ltb i n)) [
  | inl below ↦ total_zero n i f (omega arith) (ground arith)
  | inr last ↦ ground arith
]

pub total_none : (n : ℕ) → total n (λ j. 0) ≡ 0
unfolding total
total_none zero = refl
total_none (suc n) = let fewer = total_none n in omega arith

pub total_pos : (n : ℕ) (f : ℕ → ℕ) → 0 < total n f → (i : ℕ) × (i < n) × (0 < f i)
unfolding total
total_pos zero f h = absurd (omega arith)
total_pos (suc n) f h = elim (Bool-cases (f n == 0)) [
  | inl none_here ↦ let (i, l, p) = total_pos n f (ground arith) in (i, omega arith, p)
  | inr here ↦ (n, omega arith, ground arith)
]

-- How often `x` stands in the list
abbrev pub occurrences : ℕ → List ℕ → ℕ
occurrences x [] = 0
occurrences x (y ∷ ys) = (if x == y then 1 else 0) + occurrences x ys

pub occurrences_append :
    (x : ℕ) (ys zs : List ℕ) → occurrences x (ys ++ zs) ≡ occurrences x ys + occurrences x zs
occurrences_append x [] zs = omega arith
occurrences_append x (y ∷ ys) zs = let rest = occurrences_append x ys zs in omega arith

abbrev pub length {ℓ} : {A : Type ℓ} → List A → ℕ
length [] = 0
length (x ∷ xs) = suc (length xs)

pub length_append {ℓ} : {A : Type ℓ} (xs ys : List A) → length (xs ++ ys) ≡ length xs + length ys
length_append [] ys = omega arith
length_append (x ∷ xs) ys = let rest = length_append xs ys in omega arith

abbrev pub is_empty {ℓ} : {A : Type ℓ} → List A → Bool
is_empty [] = true
is_empty (x ∷ xs) = false

pub is_empty_snoc {ℓ} : {A : Type ℓ} (xs : List A) (x : A) → is_empty (xs ++ x ∷ []) ≡ false
is_empty_snoc [] x = refl
is_empty_snoc (y ∷ ys) x = refl
