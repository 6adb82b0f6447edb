-- ===== src/Smp/Count.antt =====
-- How many of the first `n` caches have not answered yet.
use sesc_src.Common.{
  ℕ, zero, suc, ◌+◌, ◌-◌, ◌≤◌, ◌<◌, ◌≡◌, refl, inl, inr, not, ◌&&◌, ◌==◌, ltb, if◌then◌else◌,
  Bool-cases, arith,
}
use sesc_src.Common.Arrays.{update}
use sesc_src.Smp.System.{Snoop, quiet, asked}

abbrev pub open_at : Snoop → ℕ
open_at quiet = 0
open_at _ = 1

pub pending : ℕ → (ℕ → Snoop) → ℕ
pending zero f = 0
pending (suc n) f = pending n f + open_at (f n)

pending-update_of_le :
    (n : ℕ) (f : ℕ → Snoop) (i : ℕ) (a : Snoop) → n ≤ i → pending n (update f i a) ≡ pending n f
unfolding pending
pending-update_of_le zero f i a h = refl
pending-update_of_le (suc n) f i a h = ground (arith, pending-update_of_le n f i a)

pub pending-update :
    (n : ℕ) (f : ℕ → Snoop) (i : ℕ) (a : Snoop)
    → i < n
    → pending n (update f i a) + open_at (f i) ≡ pending n f + open_at a
unfolding pending
pending-update zero f i a h = absurd (omega arith)
pending-update (suc n) f i a h = elim (Bool-cases (ltb i n)) [
  | inl below ↦ ground (arith, pending-update n f i a)
  | inr last ↦ ground (arith, pending-update_of_le n f i a)
]

-- With nothing pending every cache has answered.
pub pending-zero : (n : ℕ) (f : ℕ → Snoop) (i : ℕ) → i < n → pending n f ≡ 0 → f i ≡ quiet
unfolding pending
pending-zero zero f i h e = absurd (omega arith)
pending-zero (suc n) f i h e = elim (Bool-cases (ltb i n)) [
  | inl below ↦ pending-zero n f i (ground arith) (omega arith)
  | inr last ↦ ground arith
]

-- Every cache but `r` is asked.
abbrev pub asked_all : ℕ → ℕ → ℕ → Snoop
asked_all n r j = if ltb j n && not (j == r) then asked else quiet

pending_asked : (k n r : ℕ) → k ≤ n → pending k (asked_all n r) ≡ (if ltb r k then k - 1 else k)
unfolding pending
pending_asked zero n r h = ground arith
pending_asked (suc k) n r h = ground (arith, pending_asked k n r)

pub pending-asked_all : (n r : ℕ) → r < n → pending n (asked_all n r) ≡ n - 1
pending-asked_all n r h = ground (arith, pending_asked n n r)
