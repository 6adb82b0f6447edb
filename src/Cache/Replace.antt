-- ===== src/Cache/Replace.antt =====
-- `CacheAssoc::findLine2Replace` when no line of the set has the tag: the way that it takes, and
-- the order that it leaves.
use sesc_src.Common.{
  ℕ, suc, ◌+◌, ◌-◌, ◌%◌, ◌^◌, bit_and, ◌≤◌, ◌<◌, ◌≡◌, refl, sym, ap, ◌∙◌, ◌≢◌, ◌⊎◌, inl, inr, true,
  false, Option, none, some, ◌∷◌, ◌==◌, Bool-cases, arith,
}
use mathlib.Core.Path.{subst}
use native.Mathlib.Nat.{mod-lt, mod-eq_of_lt}
use sesc_src.Common.Bits.{bit_and_mask}
use sesc_src.Cache.Line.{LineOps}
use sesc_src.Cache.Geometry.{calc_tag, calc_index4tag}
use sesc_src.Cache.Order.{move_front_at}
use sesc_src.Cache.Core.{
  ReplacementPolicy, Cache, lru, random, tag_at, valid_at, scan_set, next_irand, choose, take_way,
  find_line2replace_assoc, after_scan,
}
use sesc_src.Cache.Ways.{ways, ways-suc, remove_at, ways-move_front}
use sesc_src.Cache.Victim.{AllLocked, IsFirstInvalid, IsOldestUnlocked, IsFree, scan_set-IsFree}

lru_or_random : (p : ReplacementPolicy) → (p ≡ lru) ⊎ (p ≡ random)
lru_or_random lru = inl refl
lru_or_random random = inr refl

module _ {S : Type 0} (ops : LineOps S) (c : Cache S) where
  -- The line of way `k` is returned and moves to the front; no line and no other set changes.
  abbrev pub Takes : ℕ → ℕ → ℕ → Option ℕ × Cache S → Type 0
  Takes first n k r =
      (r.0 ≡ some (c.content k))
      × (r.1.mem ≡ c.mem)
      × (r.1.geometry ≡ c.geometry)
      × (ways r.1.content first (suc n)
          ≡ c.content k ∷ remove_at (k - first) (ways c.content first (suc n)))
      × ((j : ℕ) → (j < first) ⊎ (first + suc n ≤ j) → r.1.content j ≡ c.content j)

  take_way-Takes :
      (first n k irand : ℕ)
      → first ≤ k
      → k < first + suc n
      → Takes first n k (take_way ops c first (k, irand))
  unfolding take_way
  take_way-Takes first n k irand lo hi = elim (Bool-cases (k == first)) [
    | inl e ↦
        let z : k - first ≡ 0 = ground arith in
        let h : k ≡ first = ground arith in
        rw (e, z) (refl, refl, refl, rw (ways-suc, h), λ j p. refl)
    | inr ne ↦ rw ne (
      refl,
      refl,
      refl,
      ways-move_front c.content n first k lo hi,
      λ j p. ground (arith, move_front_at c.content first k j),
    )
  ]

  module _ (addr n : ℕ) (e : c.geometry.assoc ≡ suc n) where
    abbrev pub first_way : ℕ
    first_way = calc_index4tag c.geometry (calc_tag c.geometry addr)

    -- The set of the address has no line with its tag.
    abbrev pub IsMiss : Type 0
    IsMiss =
        (j : ℕ) → first_way ≤ j → j < first_way + suc n → tag_at ops c j ≢ calc_tag c.geometry addr

    abbrev pub IsVictim : ℕ → Type 0
    IsVictim k =
        IsFirstInvalid ops c first_way (first_way + suc n) k
        ⊎ IsOldestUnlocked ops c first_way (first_way + suc n) k

    -- Without `ignoreLocked` a set of locked lines yields a null pointer.
    abbrev pub IsReplacement : Option ℕ × Cache S → Type 0
    IsReplacement r =
        (AllLocked ops c first_way (first_way + suc n) × (r ≡ (none, c)))
        ⊎ ((k : ℕ) × IsVictim k × Takes first_way n k r)

    -- Every way of the set holds a valid line.
    abbrev pub AllValid : Type 0
    AllValid = (j : ℕ) → first_way ≤ j → j < first_way + suc n → valid_at ops c j ≡ true

    -- Takes the way `k` and leaves `x` in `irand`.
    abbrev pub TakesWith : ℕ → ℕ → Option ℕ × Cache S → Type 0
    TakesWith k x r = Takes first_way n k r × (r.1.irand ≡ x)

    -- With it an invalid line goes first. If there is none, LRU takes the least recently used line
    -- that is not locked, or the last of all if all are locked; RANDOM takes the way `irand`, locked as
    -- it is, and `irand` goes round the ways.
    abbrev pub IsForcedReplacement : Option ℕ × Cache S → Type 0
    IsForcedReplacement r =
        ((k : ℕ) × IsFirstInvalid ops c first_way (first_way + suc n) k × TakesWith k c.irand r)
        ⊎ ((c.policy ≡ lru)
            × ((k : ℕ) × IsOldestUnlocked ops c first_way (first_way + suc n) k
                × TakesWith k c.irand r))
        ⊎ ((c.policy ≡ lru)
            × AllLocked ops c first_way (first_way + suc n)
            × TakesWith (first_way + n) c.irand r)
        ⊎ ((c.policy ≡ random)
            × AllValid
            × TakesWith (first_way + c.irand) ((c.irand + 1) % suc n) r)

    IsVictim-bounds : (k : ℕ) → IsVictim k → (first_way ≤ k) × (k < first_way + suc n)
    IsVictim-bounds k (inl v) = (v.0, v.1)
    IsVictim-bounds k (inr v) = (v.0, v.1)

    after_scan-IsReplacement :
        (free : Option ℕ)
        → IsFree ops c first_way (first_way + suc n) free
        → IsReplacement (after_scan ops c first_way false (none, free))
    unfolding choose
    after_scan-IsReplacement none f = inl (f, refl)
    after_scan-IsReplacement (some k) f =
        let (lo, hi) = IsVictim-bounds k f in inr (k, f, take_way-Takes first_way n k c.irand lo hi)

    take_way-TakesWith :
        (k x : ℕ)
        → first_way ≤ k
        → k < first_way + suc n
        → TakesWith k x (take_way ops c first_way (k, x))
    unfolding take_way
    take_way-TakesWith k x lo hi = (take_way-Takes first_way n k x lo hi, ground arith)

    choose_last : c.policy ≡ lru → choose ops c first_way true none ≡ some (first_way + n, c.irand)
    unfolding choose
    choose_last l = ground arith

    choose_random :
        c.policy ≡ random
        → choose ops c first_way true none ≡ some (first_way + c.irand, next_irand ops c)
    unfolding choose
    choose_random p = ground arith

    choose_free :
        (k : ℕ) → c.policy ≡ lru → choose ops c first_way true (some k) ≡ some (k, c.irand)
    unfolding choose
    choose_free k l = ground arith

    choose_invalid :
        (k : ℕ)
        → valid_at ops c k ≡ false
        → choose ops c first_way true (some k) ≡ some (k, c.irand)
    unfolding choose
    choose_invalid k i = ground arith

    choose_random_free :
        (k : ℕ)
        → c.policy ≡ random
        → valid_at ops c k ≡ true
        → choose ops c first_way true (some k) ≡ some (first_way + c.irand, next_irand ops c)
    unfolding choose
    choose_random_free k p v = ground arith

    -- The mask of a number of ways that is a power of two, and fits a `ushort`, goes round the ways.
    next_irand-mod :
        (b : ℕ)
        → suc n ≡ 2 ^ b
        → suc n ≤ 2 ^ 16
        → c.geometry.mask_assoc ≡ n
        → next_irand ops c ≡ (c.irand + 1) % suc n
    next_irand-mod b pow fits mask =
        let ones : c.geometry.mask_assoc ≡ 2 ^ b - 1 = omega arith in
        let low : bit_and (c.irand + 1) c.geometry.mask_assoc ≡ (c.irand + 1) % suc n =
          ap (bit_and (c.irand + 1)) ones
          ∙ bit_and_mask b (c.irand + 1)
          ∙ ap (λ m. (c.irand + 1) % m) (sym pow) in
        ap (λ x. x % 2 ^ 16) low
        ∙ mod-eq_of_lt {m = 2 ^ 16} (omega (arith, mod-lt (c.irand + 1) {m = suc n}))

    module _ (b : ℕ) (pow : suc n ≡ 2 ^ b) (fits : suc n ≤ 2 ^ 16)
        (mask : c.geometry.mask_assoc ≡ n) (inside : c.irand ≤ n) where
      takes_random :
          TakesWith
            (first_way + c.irand)
            ((c.irand + 1) % suc n)
            (take_way ops c first_way (first_way + c.irand, next_irand ops c))
      takes_random =
          subst
            (λ x.
              TakesWith (first_way + c.irand) x
                (take_way ops c first_way (first_way + c.irand, next_irand ops c)))
            (next_irand-mod b pow fits mask)
            (take_way-TakesWith (first_way + c.irand) (next_irand ops c) (omega arith)
              (omega arith))

      after_scan-IsForced :
          (free : Option ℕ)
          → IsFree ops c first_way (first_way + suc n) free
          → (c.policy ≡ lru) ⊎ (c.policy ≡ random)
          → IsForcedReplacement (after_scan ops c first_way true (none, free))
      after_scan-IsForced none f (inl l) =
          rw (choose_last l, after_scan)
            (inr (
              inr (
                inl
                  (l, f, take_way-TakesWith (first_way + n) c.irand (omega arith) (omega arith)))))
      after_scan-IsForced none f (inr p) =
          rw (choose_random p, after_scan)
            (inr (inr (inr (p, λ j lo hi. (f j lo hi).0, takes_random))))
      after_scan-IsForced (some k) (inl v) l =
          rw (choose_invalid k v.2, after_scan) (inl (k, v, take_way-TakesWith k c.irand v.0 v.1))
      after_scan-IsForced (some k) (inr v) (inl l) =
          rw (choose_free k l, after_scan)
            (inr (inl (l, (k, v, take_way-TakesWith k c.irand v.0 v.1))))
      after_scan-IsForced (some k) (inr v) (inr p) =
          rw (choose_random_free k p (v.3 k v.0 v.1), after_scan)
            (inr (inr (inr (p, v.3, takes_random))))

    abbrev scanned : Option ℕ × Option ℕ
    scanned = scan_set ops c (calc_tag c.geometry addr) first_way c.geometry.assoc none

    -- The backward loop finds no hit, and leaves the way to take.
    scan-IsFree : IsMiss → (scanned.0 ≡ none) × IsFree ops c first_way (first_way + suc n) scanned.1
    scan-IsFree miss =
        subst
          (λ m.
            let r = scan_set ops c (calc_tag c.geometry addr) first_way m none in
            (r.0 ≡ none) × IsFree ops c first_way (first_way + suc n) r.1)
          (sym e)
          (scan_set-IsFree ops c (calc_tag c.geometry addr) first_way (suc n) (first_way + suc n)
            none (omega arith) (λ j p q. absurd (omega arith)) miss)

    -- When no line of the set has the tag of the address, `findLine2Replace` takes the first way
    -- with an invalid line; if all lines are valid, the least recently used line that is not
    -- locked; and it returns a null pointer exactly if all lines are valid and locked. The line
    -- taken moves to the front of its set, the others keep their order, and no other set and no
    -- line changes.
    pub find_line2replace_assoc-IsReplacement :
        IsMiss → IsReplacement (find_line2replace_assoc ops c addr false)
    unfolding find_line2replace_assoc
    find_line2replace_assoc-IsReplacement miss =
        let at_first : (tag_at ops c first_way == calc_tag c.geometry addr) ≡ false =
          ground (arith, miss first_way (omega arith) (omega arith)) in
        let (nothing, free) = scan-IsFree miss in
        rw at_first (
          subst (λ h. IsReplacement (after_scan ops c first_way false (h, scanned.1))) (sym nothing)
            (after_scan-IsReplacement scanned.1 free))

    -- For a number of ways that is a power of two and fits a `ushort`, its mask, and `irand` the number
    -- of a way: when no line of the set has the tag of the address, `findLine2Replace` with
    -- `ignoreLocked` always takes a line. It takes the first way with an invalid line, and keeps
    -- `irand`. If all lines are valid, the policy names the line: LRU the least recently used line that
    -- is not locked, or the least recently used of all if all are locked, and keeps `irand`; RANDOM the
    -- line of the way `irand`, and `irand` goes on to the next way, from the last to the first. The line
    -- taken moves to the front of its set.
    pub find_line2replace_assoc-IsForced :
        (b : ℕ)
        → suc n ≡ 2 ^ b
        → suc n ≤ 2 ^ 16
        → c.geometry.mask_assoc ≡ n
        → c.irand ≤ n
        → IsMiss
        → IsForcedReplacement (find_line2replace_assoc ops c addr true)
    unfolding find_line2replace_assoc
    find_line2replace_assoc-IsForced b pow fits mask inside miss =
        let at_first : (tag_at ops c first_way == calc_tag c.geometry addr) ≡ false =
          ground (arith, miss first_way (omega arith) (omega arith)) in
        let (nothing, free) = scan-IsFree miss in
        rw at_first (
          subst (λ h. IsForcedReplacement (after_scan ops c first_way true (h, scanned.1)))
            (sym nothing)
            (after_scan-IsForced b pow fits mask inside scanned.1 free (lru_or_random c.policy)))
