-- ===== src/Cache/Unlocked.antt =====
-- A cache of lines that are never locked always has a line to fill.
use sesc_src.Common.{
  ℕ, zero, suc, ◌+◌, ◌-◌, ◌<◌, ◌≡◌, refl, sym, ◌≢◌, ◌⊎◌, inl, inr, false, Option, none, some, ◌==◌,
  Bool-cases, arith,
}
use mathlib.Core.Path.{subst}
use sesc_src.Cache.Line.{LineOps}
use sesc_src.Cache.Geometry.{calc_tag, calc_index4tag}
use sesc_src.Cache.Core.{
  Cache, tag_at, next_free, scan_set, choose, take_way, after_scan, find_line2replace_assoc,
  find_line2replace_dm, find_line2replace, fill_found, fill_line,
}

module _ {S : Type 0} (ops : LineOps S) (free_line : (s : S) → ops.is_locked s ≡ false)
    (c : Cache S) where
  next_free-some : (l : ℕ) (o : Option ℕ) → (k : ℕ) × (next_free ops c l o ≡ some k)
  next_free-some l none = let open_ = free_line (c.mem (c.content l)) in (l, ground arith)
  next_free-some l (some k) = elim (Bool-cases (ops.is_valid (c.mem (c.content l)))) [
    | inl v ↦ (k, rw v refl)
    | inr v ↦ (l, rw v refl)
  ]

  scan_set-some : (tag first n k : ℕ) → (j : ℕ) × ((scan_set ops c tag first n (some k)).1 ≡ some j)
  unfolding scan_set
  scan_set-some tag first zero k = (k, refl)
  scan_set-some tag first (suc n) k =
      let (m, next) = next_free-some (first + n) (some k) in
      let (j, rest) = scan_set-some tag first n m in
      elim (Bool-cases (tag_at ops c (first + n) == tag)) [
        | inl e ↦ (k, rw e refl)
        | inr e ↦ (j, rw e (subst (λ o. (scan_set ops c tag first n o).1 ≡ some j) (sym next) rest))
      ]

  -- The scan of one way or more finds a hit or a free way.
  scan_set-found :
      (tag first n : ℕ)
      → ((j : ℕ) × ((scan_set ops c tag first (suc n) none).0 ≡ some j))
        ⊎ ((j : ℕ) × ((scan_set ops c tag first (suc n) none).1 ≡ some j))
  unfolding scan_set
  scan_set-found tag first n =
      let (m, next) = next_free-some (first + n) none in
      let (j, rest) = scan_set-some tag first n m in
      elim (Bool-cases (tag_at ops c (first + n) == tag)) [
        | inl e ↦ inl (first + n, rw e refl)
        | inr e ↦
            inr (j, rw e (subst (λ o. (scan_set ops c tag first n o).1 ≡ some j) (sym next) rest))
      ]

  after_scan-some :
      (first : ℕ) (o : Option ℕ × Option ℕ)
      → ((j : ℕ) × (o.0 ≡ some j)) ⊎ ((j : ℕ) × (o.1 ≡ some j))
      → (after_scan ops c first false o).0 ≢ none
  unfolding choose take_way
  after_scan-some first (some l, o) h = ground arith
  after_scan-some first (none, some l) h = ground arith
  after_scan-some first (none, none) (inl h) = cc
  after_scan-some first (none, none) (inr h) = cc

  replace_assoc-ne-none :
      (addr : ℕ) → 0 < c.geometry.assoc → (find_line2replace_assoc ops c addr false).0 ≢ none
  unfolding find_line2replace_assoc
  replace_assoc-ne-none addr pos =
      let tag = calc_tag c.geometry addr in
      let first = calc_index4tag c.geometry tag in
      let more : c.geometry.assoc ≡ suc (c.geometry.assoc - 1) = omega arith in
      let found =
        after_scan-some first (scan_set ops c tag first (suc (c.geometry.assoc - 1)) none)
          (scan_set-found tag first (c.geometry.assoc - 1)) in
      elim (Bool-cases (tag_at ops c first == tag)) [
        | inl e ↦ rw e (cc)
        | inr e ↦ rw e (
            subst (λ n. (after_scan ops c first false (scan_set ops c tag first n none)).0 ≢ none)
              (sym more) found)
      ]

  replace_dm-ne-none : (addr : ℕ) → (find_line2replace_dm ops c addr false).0 ≢ none
  unfolding find_line2replace_dm
  replace_dm-ne-none addr =
      ground (
        arith,
        free_line (c.mem (c.content (calc_index4tag c.geometry (calc_tag c.geometry addr)))),
      )

  replace-ne-none :
      (addr : ℕ) → 0 < c.geometry.assoc → (find_line2replace ops c addr false).0 ≢ none
  unfolding find_line2replace
  replace-ne-none addr pos = ground (arith, replace_assoc-ne-none addr pos, replace_dm-ne-none addr)

  fill_found-some :
      (tag : ℕ) (o : Option ℕ × Cache S)
      → o.0 ≢ none
      → (line : ℕ) × ((fill_found ops tag o).0 ≡ some line)
  fill_found-some tag (none, c') h = absurd (h refl)
  fill_found-some tag (some line, c') h = (line, refl)

  -- `fillLine` of any address returns a line.
  pub fill_line-some :
      (addr : ℕ) → 0 < c.geometry.assoc → (line : ℕ) × ((fill_line ops c addr).0 ≡ some line)
  unfolding fill_line
  fill_line-some addr pos =
      fill_found-some (calc_tag c.geometry addr) (find_line2replace ops c addr false)
        (replace-ne-none addr pos)
