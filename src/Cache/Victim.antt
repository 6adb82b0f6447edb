-- ===== src/Cache/Victim.antt =====
-- Which way `CacheAssoc::findLine2Replace` gives up when no way of the set has the tag.
use sesc_src.Common.{
  ℕ, zero, suc, ◌+◌, ◌≤◌, ◌<◌, ◌≡◌, refl, ◌≢◌, ◌⊎◌, inl, inr, true, false, Option, none, some, ◌==◌,
  Bool-cases, arith, ==_iff,
}
use mathlib.Core.Path.{subst}
use sesc_src.Cache.Line.{LineOps}
use sesc_src.Cache.Core.{Cache, tag_at, valid_at, locked_at, scan_set, next_free}

-- A property of all ways from `lo` on, from the way `lo` and those behind it.
from_next :
    (P : ℕ → Type 0) (lo hi : ℕ)
    → P lo
    → ((j : ℕ) → suc lo ≤ j → j < hi → P j)
    → (j : ℕ) → lo ≤ j
    → j < hi
    → P j
from_next P lo hi here rest j p q = elim (Bool-cases (lo == j)) [
  | inl e ↦ subst P ((==_iff lo j).0 e) here
  | inr ne ↦ rest j (ground arith) q
]

module _ {S : Type 0} (ops : LineOps S) (c : Cache S) where
  -- Every way from `lo` up to `hi` holds a valid and locked line.
  abbrev pub AllLocked : ℕ → ℕ → Type 0
  AllLocked lo hi =
      (j : ℕ) → lo ≤ j → j < hi → (valid_at ops c j ≡ true) × (locked_at ops c j ≡ true)

  -- `k` is the first way with an invalid line.
  abbrev pub IsFirstInvalid : ℕ → ℕ → ℕ → Type 0
  IsFirstInvalid lo hi k =
      (lo ≤ k)
      × (k < hi)
      × (valid_at ops c k ≡ false)
      × ((j : ℕ) → lo ≤ j → j < k → valid_at ops c j ≡ true)

  -- All lines are valid, and `k` is the least recently used way whose line is not locked.
  abbrev pub IsOldestUnlocked : ℕ → ℕ → ℕ → Type 0
  IsOldestUnlocked lo hi k =
      (lo ≤ k)
      × (k < hi)
      × (locked_at ops c k ≡ false)
      × ((j : ℕ) → lo ≤ j → j < hi → valid_at ops c j ≡ true)
      × ((j : ℕ) → k < j → j < hi → locked_at ops c j ≡ true)

  abbrev pub IsFree : ℕ → ℕ → Option ℕ → Type 0
  IsFree lo hi none = AllLocked lo hi
  IsFree lo hi (some k) = IsFirstInvalid lo hi k ⊎ IsOldestUnlocked lo hi k

  pub next_free-IsFree :
      (lo hi : ℕ) (free : Option ℕ)
      → lo < hi
      → IsFree (suc lo) hi free
      → IsFree lo hi (next_free ops c lo free)
  next_free-IsFree lo hi none h f = elim (Bool-cases (valid_at ops c lo)) [
    | inl v ↦ elim (Bool-cases (locked_at ops c lo)) [
      | inl l ↦
          rw (v, l)
            (from_next (λ j. (valid_at ops c j ≡ true) × (locked_at ops c j ≡ true)) lo hi (v, l) f)
      | inr u ↦
          rw (v, u)
            (inr (
              omega arith,
              h,
              u,
              from_next (λ j. valid_at ops c j ≡ true) lo hi v (λ j p q. (f j p q).0),
              λ j p q. (f j p q).1,
            ))
    ]
    | inr n ↦ rw n (inl (omega arith, h, n, λ j p q. absurd (omega arith)))
  ]
  next_free-IsFree lo hi (some k) h f = elim (Bool-cases (valid_at ops c lo)) [
    | inl v ↦ rw v (elim f [
      | inl (p, q, bad, before) ↦
          inl (omega arith, q, bad, from_next (λ j. valid_at ops c j ≡ true) lo k v before)
      | inr (p, q, open_, valid, after) ↦
          inr (omega arith, q, open_, from_next (λ j. valid_at ops c j ≡ true) lo hi v valid, after)
    ])
    | inr n ↦ rw n (inl (omega arith, h, n, λ j p q. absurd (omega arith)))
  ]

  pub scan_set-IsFree :
      (tag first n hi : ℕ) (free : Option ℕ)
      → first + n ≤ hi
      → IsFree (first + n) hi free
      → ((j : ℕ) → first ≤ j → j < first + n → tag_at ops c j ≢ tag)
      → ((scan_set ops c tag first n free).0 ≡ none)
        × IsFree first hi (scan_set ops c tag first n free).1
  unfolding scan_set
  scan_set-IsFree tag first zero hi free h f no_hit =
      let e : first + 0 ≡ first = omega arith in (refl, subst (λ a. IsFree a hi free) e f)
  scan_set-IsFree tag first (suc n) hi free h f no_hit =
      let miss : (tag_at ops c (first + n) == tag) ≡ false =
        ground (arith, no_hit (first + n) (omega arith) (omega arith)) in
      let e : first + suc n ≡ suc (first + n) = omega arith in
      rw miss (
        scan_set-IsFree tag first n hi (next_free ops c (first + n) free) (omega arith)
          (next_free-IsFree (first + n) hi free (omega arith) (subst (λ a. IsFree a hi free) e f))
          (λ j p q. no_hit j p (omega arith)))
