-- ===== src/Common/Arrays.antt =====
-- An array that the code indexes by a number, as a function: reads apply it, and a write is `update`.
use Prim.Native.Nat.{ℕ, compare, Ordering}
use mathlib.Core.Path.{◌≡◌, sym, subst}
use mathlib.Core.Logic.{◌≢◌, inl, inr}
use native.Mathlib.Omega.{arith}
use sesc_src.Common.Tests.{◌==◌, Bool-cases, ==_iff, ==-false_iff}

-- `f` with `a` at index `i`.
abbrev pub update {ℓ} : {A : Type ℓ} → (ℕ → A) → ℕ → A → ℕ → A
update f i a j = elim (compare i j) [ Ordering.eq ↦ a | _ ↦ f j ]

module _ {ℓ} {A : Type ℓ} (f : ℕ → A) (i : ℕ) (a : A) where
  pub update_self : update f i a i ≡ a
  update_self = ground arith

  pub update_ne : (j : ℕ) → i ≢ j → update f i a j ≡ f j
  update_ne j h = ground arith

-- A property of every entry after a write, from the entry written and the others.
pub update-all {ℓ κ} :
    {A : Type ℓ} (P : ℕ → A → Type κ) (f : ℕ → A) (i : ℕ) (a : A)
    → P i a
    → ((j : ℕ) → i ≢ j → P j (f j))
    → (j : ℕ) → P j (update f i a j)
update-all P f i a here there j = elim (Bool-cases (i == j)) [
  | inl e ↦
      let same : i ≡ j = (==_iff i j).0 e in
      subst (λ u. P u (update f i a u)) same (subst (P i) (sym (update_self f i a)) here)
  | inr n ↦
      let apart : i ≢ j = (==-false_iff i j).0 n in
      subst (P j) (sym (update_ne f i a j apart)) (there j apart)
]

-- The same for two arrays that are written at one index.
pub update-all_both {ℓ κ μ} :
    {A : Type ℓ} {B : Type κ} (P : ℕ → A → B → Type μ) (f : ℕ → A) (g : ℕ → B) (i : ℕ) (a : A)
    (b : B)
    → P i a b
    → ((j : ℕ) → i ≢ j → P j (f j) (g j))
    → (j : ℕ) → P j (update f i a j) (update g i b j)
update-all_both P f g i a b here there =
    update-all (λ j x. P j x (update g i b j)) f i a (subst (P i a) (sym (update_self g i b)) here)
      (λ j ne. subst (P j (f j)) (sym (update_ne g i b j ne)) (there j ne))
