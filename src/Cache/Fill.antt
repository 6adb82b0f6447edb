-- ===== src/Cache/Fill.antt =====
-- `CacheGeneric::fillLine` on an associative cache: it keeps the invariant, and the line it returns
-- is the line that a later search finds.
use sesc_src.Common.{
  ℕ, zero, suc, ◌+◌, ◌≤◌, ◌<◌, ◌≡◌, refl, sym, ap, ◌∙◌, ◌≢◌, ◌⊎◌, inl, inr, Option, none, some,
  false, ◌==◌, Bool-cases, arith,
}
use sesc_src.Cache.Line.{LineOps}
use sesc_src.Cache.Geometry.{calc_tag, calc_index4tag}
use sesc_src.Cache.Order.{move_front}
use sesc_src.Cache.Core.{
  Cache, tag_at, next_free, scan_set, choose, take_way, after_scan, find_line2replace_assoc,
}
use sesc_src.Cache.Rotation.{rotated, rotated_self, move_front-rotated}

module _ {S : Type 0} (ops : LineOps S) (c : Cache S) where
  -- The backward loop: a hit has the tag, and without one no way of the set has it.
  pub scan_set_hit :
      (tag first n : ℕ) (free : Option ℕ) (l : ℕ)
      → (scan_set ops c tag first n free).0 ≡ some l
      → (first ≤ l) × (l < first + n) × (tag_at ops c l ≡ tag)
  unfolding scan_set
  scan_set_hit tag first zero free l h = cc
  scan_set_hit tag first (suc n) free l h =
      ground (arith, scan_set_hit tag first n (next_free ops c (first + n) free) l)

  pub scan_set_miss :
      (tag first n : ℕ) (free : Option ℕ) (j : ℕ)
      → first ≤ j
      → j < first + n
      → (scan_set ops c tag first n free).0 ≡ none
      → tag_at ops c j ≢ tag
  unfolding scan_set
  scan_set_miss tag first zero free j p q h = absurd (omega arith)
  scan_set_miss tag first (suc n) free j p q h =
      ground (arith, scan_set_miss tag first n (next_free ops c (first + n) free) j)

  -- What `findLine2Replace` returns: a null pointer, the line of a hit where it is, or the line of
  -- some way of a set without a hit, after that way has moved to the front.
  abbrev pub IsReplaced : ℕ → ℕ → Option ℕ × Cache S → Type 0
  IsReplaced tag n r =
      let first = calc_index4tag c.geometry tag in
      (r ≡ (none, c))
      ⊎ ((k : ℕ) × (first ≤ k)
          × (k < first + n)
          × (tag_at ops c k ≡ tag)
          × (r ≡ (some (c.content k), c)))
      ⊎ ((k : ℕ) × (f : ℕ → ℕ) × (x : ℕ) × (first ≤ k)
          × (k < first + n)
          × ((j : ℕ) → first ≤ j → j < first + n → tag_at ops c j ≢ tag)
          × ((j : ℕ) → f j ≡ c.content (rotated first k j))
          × (r ≡ (some (c.content k), record c { content = f; irand = x })))

  scan_set_bounds :
      (tag first n hi : ℕ) (free : Option ℕ) (k : ℕ)
      → ((k' : ℕ) → free ≡ some k' → (first ≤ k') × (k' < hi))
      → first + n ≤ hi
      → (scan_set ops c tag first n free).1 ≡ some k
      → (first ≤ k) × (k < hi)
  unfolding scan_set
  scan_set_bounds tag first zero hi free k b fits h = b k h
  scan_set_bounds tag first (suc n) hi free k b fits h =
      elim (Bool-cases (tag_at ops c (first + n) == tag)) [
        | inl hit ↦ b k (ground arith)
        | inr miss ↦
            scan_set_bounds tag first n hi (next_free ops c (first + n) free) k (next_bounds free b)
              (omega arith) (ground arith)
      ]
    where
      next_bounds :
          (free : Option ℕ)
          → ((k' : ℕ) → free ≡ some k' → (first ≤ k') × (k' < hi))
          → (k' : ℕ) → next_free ops c (first + n) free ≡ some k'
          → (first ≤ k') × (k' < hi)
      next_bounds none b k' e = ground arith
      next_bounds (some x) b k' e = ground (arith, b x)

  take_way-IsReplaced :
      (tag n k : ℕ)
      → calc_index4tag c.geometry tag ≤ k
      → k < calc_index4tag c.geometry tag + n
      → ((j : ℕ)
          → calc_index4tag c.geometry tag ≤ j
          → j < calc_index4tag c.geometry tag + n
          → tag_at ops c j ≢ tag)
      → IsReplaced tag n (take_way ops c (calc_index4tag c.geometry tag) (k, c.irand))
  unfolding take_way
  take_way-IsReplaced tag n k lo hi miss =
      let first : ℕ = calc_index4tag c.geometry tag in
      elim (Bool-cases (k == first)) [
        | inl e ↦
            let same : k ≡ first = ground arith in
            rw e (
              inr (
                inr (
                  k,
                  c.content,
                  c.irand,
                  lo,
                  hi,
                  miss,
                  λ j.
                      ap c.content
                        (sym (rotated_self first j) ∙ ap (λ x. rotated first x j) (sym same)),
                  refl,
                )))
        | inr ne ↦ rw ne (
            inr (
              inr (
                k,
                move_front c.content first k,
                c.irand,
                lo,
                hi,
                miss,
                λ j. move_front-rotated c.content first k j lo,
                refl,
              )))
      ]

  after_scan-IsReplaced :
      (tag n : ℕ) (r : Option ℕ × Option ℕ)
      → ((l : ℕ)
          → r.0 ≡ some l
          → (calc_index4tag c.geometry tag ≤ l)
            × (l < calc_index4tag c.geometry tag + n)
            × (tag_at ops c l ≡ tag))
      → (r.0 ≡ none
          → (j : ℕ) → calc_index4tag c.geometry tag ≤ j
          → j < calc_index4tag c.geometry tag + n
          → tag_at ops c j ≢ tag)
      → ((k : ℕ)
          → r.1 ≡ some k
          → (calc_index4tag c.geometry tag ≤ k) × (k < calc_index4tag c.geometry tag + n))
      → IsReplaced tag n (after_scan ops c (calc_index4tag c.geometry tag) false r)
  unfolding choose
  after_scan-IsReplaced tag n (some l, free) hit miss bound =
      let (lo, hi, e) = hit l refl in inr (inl (l, lo, hi, e, refl))
  after_scan-IsReplaced tag n (none, none) hit miss bound = inl refl
  after_scan-IsReplaced tag n (none, some k) hit miss bound =
      let (lo, hi) = bound k refl in take_way-IsReplaced tag n k lo hi (miss refl)

  pub find_line2replace_assoc-IsReplaced :
      (addr : ℕ)
      → 0 < c.geometry.assoc
      → IsReplaced
          (calc_tag c.geometry addr)
          c.geometry.assoc
          (find_line2replace_assoc ops c addr false)
  unfolding find_line2replace_assoc
  find_line2replace_assoc-IsReplaced addr pos =
      let tag : ℕ = calc_tag c.geometry addr in
      let first : ℕ = calc_index4tag c.geometry tag in
      elim (Bool-cases (tag_at ops c first == tag)) [
        | inl hit ↦ rw hit (inr (inl (first, omega arith, omega arith, ground arith, refl)))
        | inr miss ↦ rw miss (
            after_scan-IsReplaced tag c.geometry.assoc
              (scan_set ops c tag first c.geometry.assoc none)
              (scan_set_hit tag first c.geometry.assoc none)
              (λ h j p q. scan_set_miss tag first c.geometry.assoc none j p q h)
              (λ k h.
                scan_set_bounds tag first c.geometry.assoc (first + c.geometry.assoc) none k
                  (λ k' e. absurd (ground arith)) (omega arith) h))
      ]
