-- ===== src/Cache/RoundTrip.antt =====
-- The invariant under `fillLine`, and the search that follows it.
use sesc_src.Common.{
  ℕ, ◌+◌, ◌≤◌, ◌<◌, ◌≡◌, refl, sym, ap, ◌∙◌, ◌≢◌, ◌⊎◌, inl, inr, Option, none, some, false, arith,
}
use mathlib.Core.Path.{subst}
use sesc_src.Cache.Line.{LineOps, IsLawful}
use sesc_src.Cache.Geometry.{calc_tag, calc_index4tag}
use sesc_src.Cache.Sound.{assoc_pos, calc_index4tag_bounds}
use sesc_src.Cache.Core.{
  Cache, tag_at, find_line, find_line_tag, find_line2replace, fill_found, fill_line,
}
use sesc_src.Cache.Rotation.{rotated, rotated_first, rotated_bounds}
use sesc_src.Cache.Fill.{IsReplaced}
use sesc_src.Cache.WellFormed.{
  IsWellFormed, rotation-IsWellFormed, filled-IsWellFormed, tag_at-filled_self,
}
use sesc_src.Cache.Lookup.{
  IsCreated, IsSearched, find_line_tag-IsSearched, find_line2replace-IsReplaced,
}

module _ {S : Type 0} (ops : LineOps S) (law : IsLawful ops) where
  -- The state after the tag of an address was written into a way of its set.
  abbrev IsFilled : ℕ → Option ℕ × Cache S → Type 0
  IsFilled tag r =
      (r.0 ≡ none)
      ⊎ ((k : ℕ) × (calc_index4tag r.1.geometry tag ≤ k)
          × (k < calc_index4tag r.1.geometry tag + r.1.geometry.assoc)
          × (r.0 ≡ some (r.1.content k))
          × (tag_at ops r.1 k ≡ tag))

  -- After a miss no way of the array has the tag, wherever the lines have moved.
  alone :
      (c : Cache S) (tag k : ℕ) (f : ℕ → ℕ) (x : ℕ)
      → IsWellFormed ops c
      → calc_index4tag c.geometry tag ≤ k
      → k < calc_index4tag c.geometry tag + c.geometry.assoc
      → ((j : ℕ)
          → calc_index4tag c.geometry tag ≤ j
          → j < calc_index4tag c.geometry tag + c.geometry.assoc
          → tag_at ops c j ≢ tag)
      → ((j : ℕ) → f j ≡ c.content (rotated (calc_index4tag c.geometry tag) k j))
      → (j : ℕ) → j < c.geometry.num_lines
      → tag ≢ 0
      → ops.get_tag (c.mem (f j)) ≡ tag
      → ⊥
  alone c tag k f x v lo hi miss order j p nz same =
      let first : ℕ = calc_index4tag c.geometry tag in
      let v' : IsWellFormed ops (record c { content = f; irand = x }) =
        rotation-IsWellFormed ops v tag k lo hi f x order in
      let (a, b) : (first ≤ j) × (j < first + c.geometry.assoc) =
        subst
          (λ u.
            (calc_index4tag c.geometry u ≤ j)
            × (j < calc_index4tag c.geometry u + c.geometry.assoc))
          same (v'.home j p (λ z. nz (sym same ∙ z))) in
      let old : tag_at ops c (rotated first k j) ≡ tag =
        ap (λ l. ops.get_tag (c.mem l)) (sym (order j)) ∙ same in
      let inside : (first ≤ rotated first k j) × (rotated first k j < first + c.geometry.assoc) =
        omega (arith, rotated_bounds first k j c.geometry.assoc lo hi) in
      miss (rotated first k j) inside.0 inside.1 old

  fill_found-IsWellFormed :
      {c : Cache S} (tag : ℕ) (r : Option ℕ × Cache S)
      → IsWellFormed ops c
      → IsReplaced ops c tag c.geometry.assoc r
      → IsWellFormed ops (fill_found ops tag r).1 × IsFilled tag (fill_found ops tag r)
  fill_found-IsWellFormed {c} tag r v (inl e) =
      subst (λ x. IsWellFormed ops (fill_found ops tag x).1 × IsFilled tag (fill_found ops tag x))
        (sym e) (v, inl refl)
  fill_found-IsWellFormed {c} tag r v (inr (inl (k, lo, hi, hit, e))) =
      subst (λ x. IsWellFormed ops (fill_found ops tag x).1 × IsFilled tag (fill_found ops tag x))
        (sym e)
        (
          filled-IsWellFormed ops law v tag k lo hi (λ j p nz same.
              v.unique k j (omega (arith, (calc_index4tag_bounds v.sound tag).1)) p (hit ∙ sym same)
                (λ z. nz (sym hit ∙ z))),
          inr (k, lo, hi, refl, tag_at-filled_self ops law v tag k),
        )
  fill_found-IsWellFormed {c} tag r v (inr (inr (k, f, x, lo, hi, miss, order, e))) =
      let first : ℕ = calc_index4tag c.geometry tag in
      let v' : IsWellFormed ops (record c { content = f; irand = x }) =
        rotation-IsWellFormed ops v tag k lo hi f x order in
      let moved : f first ≡ c.content k = order first ∙ ap c.content (rotated_first first k) in
      let e' : r ≡ (some (f first), record c { content = f; irand = x }) =
        e ∙ ap (λ l. (some l, record c { content = f; irand = x })) (sym moved) in
      subst (λ x. IsWellFormed ops (fill_found ops tag x).1 × IsFilled tag (fill_found ops tag x))
        (sym e')
        (
          filled-IsWellFormed ops law v' tag first (omega arith) (omega (arith, assoc_pos v.sound))
              (λ j p nz same. absurd (alone c tag k f x v lo hi miss order j p nz same)),
          inr (
            first,
            omega arith,
            omega (arith, assoc_pos v.sound),
            refl,
            tag_at-filled_self ops law v' tag first,
          ),
        )

  -- For lines that obey the laws of `CacheLine`, in an associative or a direct-mapped cache,
  -- `fillLine` of an address whose tag is not 0 keeps the invariant of the cache: the pointer array
  -- holds each line once, every line whose tag is not 0 stands in the set that its tag selects, and no
  -- two lines have the same tag other than 0.
  pub fill_line-IsWellFormed :
      (c : Cache S) (addr : ℕ)
      → IsCreated ops c
      → IsWellFormed ops c
      → calc_tag c.geometry addr ≢ 0
      → IsWellFormed ops (fill_line ops c addr).1
  unfolding fill_line
  fill_line-IsWellFormed c addr made v nz =
      (fill_found-IsWellFormed (calc_tag c.geometry addr) (find_line2replace ops c addr false) v
        (find_line2replace-IsReplaced ops c addr made (assoc_pos v.sound))).0

  fill_line-IsFilled :
      (c : Cache S) (addr : ℕ)
      → IsCreated ops c
      → IsWellFormed ops c
      → IsFilled (calc_tag c.geometry addr) (fill_line ops c addr)
  unfolding fill_line
  fill_line-IsFilled c addr made v =
      (fill_found-IsWellFormed (calc_tag c.geometry addr) (find_line2replace ops c addr false) v
        (find_line2replace-IsReplaced ops c addr made (assoc_pos v.sound))).1

  KeepsShape : (c : Cache S) → Option ℕ × Cache S → Type 0
  KeepsShape c r = (r.1.geometry ≡ c.geometry) × (r.1.organisation ≡ c.organisation)

  fill_found-KeepsShape :
      {c : Cache S} (tag : ℕ) (r : Option ℕ × Cache S)
      → IsReplaced ops c tag c.geometry.assoc r
      → KeepsShape c (fill_found ops tag r)
  unfolding KeepsShape
  fill_found-KeepsShape {c} tag r (inl e) =
      subst (λ x. KeepsShape c (fill_found ops tag x)) (sym e) (refl, refl)
  fill_found-KeepsShape {c} tag r (inr (inl (k, lo, hi, hit, e))) =
      subst (λ x. KeepsShape c (fill_found ops tag x)) (sym e) (refl, refl)
  fill_found-KeepsShape {c} tag r (inr (inr (k, f, x, lo, hi, miss, order, e))) =
      subst (λ x. KeepsShape c (fill_found ops tag x)) (sym e) (refl, refl)

  pub fill_line-KeepsShape :
      (c : Cache S) (addr : ℕ)
      → IsCreated ops c
      → IsWellFormed ops c
      → ((fill_line ops c addr).1.geometry ≡ c.geometry)
        × ((fill_line ops c addr).1.organisation ≡ c.organisation)
  unfolding fill_line KeepsShape
  fill_line-KeepsShape c addr made v =
      fill_found-KeepsShape (calc_tag c.geometry addr) (find_line2replace ops c addr false)
        (find_line2replace-IsReplaced ops c addr made (assoc_pos v.sound))

  -- In a well-formed cache two ways with one tag, not 0, are one way.
  found_line :
      (c : Cache S) (tag line : ℕ) (o : Option ℕ)
      → IsWellFormed ops c
      → tag ≢ 0
      → IsSearched ops c tag o
      → IsFilled tag (some line, c)
      → o ≡ some line
  found_line c tag line o v nz s (inl f) = absurd (ground arith)
  found_line c tag line o v nz (inl (_, miss)) (inr (k, lo, hi, at, t)) = absurd (miss k lo hi t)
  found_line c tag line o v nz (inr (j, lo', hi', t', e)) (inr (k, lo, hi, at, t)) =
      let bound = (calc_index4tag_bounds v.sound tag).1 in
      let same : j ≡ k =
        v.unique j k (omega (arith, bound)) (omega (arith, bound)) (t' ∙ sym t)
          (λ z. nz (sym t' ∙ z)) in
      e ∙ ap (λ i. some (c.content i)) same ∙ sym at

  -- For lines that obey the laws of `CacheLine`, in an associative or a direct-mapped cache that meets
  -- the invariant: after `fillLine` has returned a line for an address whose tag is not 0, `findLine`
  -- of that address returns the same line.
  pub find_line-fill_line :
      (c : Cache S) (addr line : ℕ)
      → IsCreated ops c
      → IsWellFormed ops c
      → calc_tag c.geometry addr ≢ 0
      → (fill_line ops c addr).0 ≡ some line
      → (find_line ops (fill_line ops c addr).1 addr).0 ≡ some line
  unfolding find_line
  find_line-fill_line c addr line made v nz got =
      let c' : Cache S = (fill_line ops c addr).1 in
      let (shape, kind) = fill_line-KeepsShape c addr made v in
      let v' : IsWellFormed ops c' = fill_line-IsWellFormed c addr made v nz in
      let tag : ℕ = calc_tag c.geometry addr in
      let made' : IsCreated ops c' = λ e. ap (λ g. g.assoc) shape ∙ made (sym kind ∙ e) in
      let filled : IsFilled tag (some line, c') =
        subst (λ o. IsFilled tag (o, c')) got (fill_line-IsFilled c addr made v) in
      subst (λ g. (find_line_tag ops c' (calc_tag g addr)).0 ≡ some line) (sym shape)
        (found_line c' tag line (find_line_tag ops c' tag).0 v' nz
          (find_line_tag-IsSearched ops c' tag made' (assoc_pos v'.sound)) filled)
