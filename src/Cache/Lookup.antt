-- ===== src/Cache/Lookup.antt =====
-- `fillLine` and `findLine` together, for both classes of cache.
use sesc_src.Common.{
  ℕ, ◌+◌, ◌-◌, ◌≤◌, ◌<◌, ◌≡◌, refl, sym, ap, ◌≢◌, ◌⊎◌, inl, inr, Option, none, some, false, ◌==◌,
  Bool-cases, Option-cases, arith,
}
use mathlib.Core.Path.{subst}
use sesc_src.Cache.Line.{LineOps}
use sesc_src.Cache.Geometry.{calc_tag, calc_index4tag}
use sesc_src.Cache.Core.{
  Cache, Organisation-cases, cache_dm, cache_assoc, tag_at, find_hit, find_line_tag_assoc,
  find_line_tag_dm, find_line_tag, find_line2replace_dm, find_line2replace_assoc, find_line2replace,
}
use sesc_src.Cache.Rotation.{rotated_self}
use sesc_src.Cache.Find.{find_hit-some, find_hit-none}
use sesc_src.Cache.Fill.{IsReplaced, find_line2replace_assoc-IsReplaced}

module _ {S : Type 0} (ops : LineOps S) where
  -- `create` takes `CacheDM` only for one way.
  abbrev pub IsCreated : Cache S → Type 0
  IsCreated c = c.organisation ≡ cache_dm → c.geometry.assoc ≡ 1

  -- What a search for a tag returns: a line of its set that has it, or a null pointer if none has.
  abbrev pub IsSearched : Cache S → ℕ → Option ℕ → Type 0
  IsSearched c tag o =
      let first = calc_index4tag c.geometry tag in
      ((o ≡ none) × ((j : ℕ) → first ≤ j → j < first + c.geometry.assoc → tag_at ops c j ≢ tag))
      ⊎ ((j : ℕ) × (first ≤ j)
          × (j < first + c.geometry.assoc)
          × (tag_at ops c j ≡ tag)
          × (o ≡ some (c.content j)))

  find_line_tag_assoc-IsSearched :
      (c : Cache S) (tag : ℕ)
      → 0 < c.geometry.assoc
      → IsSearched c tag (find_line_tag_assoc ops c tag).0
  unfolding find_line_tag_assoc
  find_line_tag_assoc-IsSearched c tag pos =
      let first : ℕ = calc_index4tag c.geometry tag in
      let n : ℕ = c.geometry.assoc - 1 in
      elim (Bool-cases (tag_at ops c first == tag)) [
        | inl hit ↦ rw hit (inr (first, omega arith, omega arith, ground arith, refl))
        | inr miss ↦ elim (Option-cases (find_hit ops c tag n (first + 1))) [
          | inl absent ↦ rw (miss, absent) (inl (refl, λ j p q. elsewhere miss absent j p q))
          | inr (k, found) ↦
              let (lo, hi, e) = find_hit-some ops c tag n (first + 1) k found in
              rw (miss, found) (inr (k, omega arith, omega arith, e, refl))
        ]
      ]
    where
      elsewhere :
          (tag_at ops c (calc_index4tag c.geometry tag) == tag) ≡ false
          → find_hit ops c tag (c.geometry.assoc - 1) (calc_index4tag c.geometry tag + 1) ≡ none
          → (j : ℕ) → calc_index4tag c.geometry tag ≤ j
          → j < calc_index4tag c.geometry tag + c.geometry.assoc
          → tag_at ops c j ≢ tag
      elsewhere miss absent j p q = elim (Bool-cases (calc_index4tag c.geometry tag == j)) [
        | inl e ↦ ground arith
        | inr ne ↦
            find_hit-none ops c tag (c.geometry.assoc - 1) (calc_index4tag c.geometry tag + 1) j
              (ground arith) (omega arith) absent
      ]

  find_line_tag_dm-IsSearched :
      (c : Cache S) (tag : ℕ)
      → c.geometry.assoc ≡ 1
      → IsSearched c tag (find_line_tag_dm ops c tag).0
  unfolding find_line_tag_dm
  find_line_tag_dm-IsSearched c tag one =
      let first : ℕ = calc_index4tag c.geometry tag in
      elim (Bool-cases (tag_at ops c first == tag)) [
        | inl hit ↦ rw hit (inr (first, omega arith, omega arith, ground arith, refl))
        | inr miss ↦
            rw miss (inl (refl, λ j p q. let e : j ≡ first = omega arith in rw e (ground arith)))
      ]

  module _ (c : Cache S) where
    search_dm :
        (tag : ℕ) → c.organisation ≡ cache_dm → find_line_tag ops c tag ≡ find_line_tag_dm ops c tag
    unfolding find_line_tag
    search_dm tag e = ground arith

    search_assoc :
        (tag : ℕ)
        → c.organisation ≡ cache_assoc
        → find_line_tag ops c tag ≡ find_line_tag_assoc ops c tag
    unfolding find_line_tag
    search_assoc tag e = ground arith

    replace_dm :
        (addr : ℕ)
        → c.organisation ≡ cache_dm
        → find_line2replace ops c addr false ≡ find_line2replace_dm ops c addr false
    unfolding find_line2replace
    replace_dm addr e = ground arith

    replace_assoc :
        (addr : ℕ)
        → c.organisation ≡ cache_assoc
        → find_line2replace ops c addr false ≡ find_line2replace_assoc ops c addr false
    unfolding find_line2replace
    replace_assoc addr e = ground arith

  pub find_line_tag-IsSearched :
      (c : Cache S) (tag : ℕ)
      → IsCreated c
      → 0 < c.geometry.assoc
      → IsSearched c tag (find_line_tag ops c tag).0
  find_line_tag-IsSearched c tag made pos = elim (Organisation-cases c.organisation) [
    | inl e ↦
        subst (λ r. IsSearched c tag r.0) (sym (search_dm c tag e))
          (find_line_tag_dm-IsSearched c tag (made e))
    | inr e ↦
        subst (λ r. IsSearched c tag r.0) (sym (search_assoc c tag e))
          (find_line_tag_assoc-IsSearched c tag pos)
  ]

  find_line2replace_dm-IsReplaced :
      (c : Cache S) (addr : ℕ)
      → c.geometry.assoc ≡ 1
      → IsReplaced ops c
          (calc_tag c.geometry addr)
          c.geometry.assoc
          (find_line2replace_dm ops c addr false)
  unfolding find_line2replace_dm
  find_line2replace_dm-IsReplaced c addr one =
      let tag : ℕ = calc_tag c.geometry addr in
      let first : ℕ = calc_index4tag c.geometry tag in
      elim (Bool-cases (tag_at ops c first == tag)) [
        | inl hit ↦ rw hit (inr (inl (first, omega arith, omega arith, ground arith, refl)))
        | inr miss ↦ elim (Bool-cases (ops.is_locked (c.mem (c.content first)))) [
          | inl locked ↦ rw (miss, locked) (inl refl)
          | inr free ↦
              rw (miss, free)
                (inr (
                  inr (
                    first,
                    c.content,
                    c.irand,
                    omega arith,
                    omega arith,
                    λ j p q. let e : j ≡ first = omega arith in rw e (ground arith),
                    λ j. ap c.content (sym (rotated_self first j)),
                    refl,
                  )))
        ]
      ]

  pub find_line2replace-IsReplaced :
      (c : Cache S) (addr : ℕ)
      → IsCreated c
      → 0 < c.geometry.assoc
      → IsReplaced ops c
          (calc_tag c.geometry addr)
          c.geometry.assoc
          (find_line2replace ops c addr false)
  find_line2replace-IsReplaced c addr made pos =
      let P : Option ℕ × Cache S → Type 0 =
        IsReplaced ops c (calc_tag c.geometry addr) c.geometry.assoc in
      elim (Organisation-cases c.organisation) [
        | inl e ↦
            subst P (sym (replace_dm c addr e)) (find_line2replace_dm-IsReplaced c addr (made e))
        | inr e ↦
            subst P (sym (replace_assoc c addr e))
              (find_line2replace_assoc-IsReplaced ops c addr pos)
      ]
