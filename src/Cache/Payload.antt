-- ===== src/Cache/Payload.antt =====
-- A search reads the tags of the lines alone; it changes no line, and at most turns one set.
use sesc_src.Common.{
  ℕ, zero, suc, ◌+◌, ◌-◌, ◌≤◌, ◌≡◌, refl, sym, ap, ◌∙◌, inl, inr, some, ◌==◌, Bool-cases,
  Option-cases, arith,
}
use mathlib.Core.Path.{subst}
use sesc_src.Cache.Line.{LineOps}
use sesc_src.Cache.Geometry.{calc_tag, calc_index4tag}
use sesc_src.Cache.Rotation.{rotated, rotated_self, move_front-rotated}
use sesc_src.Cache.Core.{
  Cache, Organisation-cases, cache_dm, cache_assoc, tag_at, find_hit, find_in_set,
  find_line_tag_assoc, find_line_tag_dm, find_line_tag, find_line,
}
use sesc_src.Cache.Find.{find_hit-some, at_front, absent, behind}

module _ {S : Type 0} (ops : LineOps S) (c : Cache S) where
  find_in_set-mem : (tag first n : ℕ) → (find_in_set ops c tag first n).1.mem ≡ c.mem
  unfolding find_in_set
  find_in_set-mem tag first n = ground arith

  pub find_line-mem : (addr : ℕ) → (find_line ops c addr).1.mem ≡ c.mem
  unfolding find_line find_line_tag find_line_tag_assoc find_line_tag_dm
  find_line-mem addr = ground (
    arith,
    find_in_set-mem (calc_tag c.geometry addr)
        (calc_index4tag c.geometry (calc_tag c.geometry addr)) (c.geometry.assoc - 1),
  )

  find_in_set-tag :
      (tag first n line : ℕ)
      → (find_in_set ops c tag first n).0 ≡ some line
      → ops.get_tag (c.mem line) ≡ tag
  unfolding find_in_set
  find_in_set-tag tag first n line got = elim (Option-cases (find_hit ops c tag n (first + 1))) [
    | inl absent ↦ ground arith
    | inr (k, found) ↦ ground (arith, find_hit-some ops c tag n (first + 1) k found)
  ]

  -- The line that a search finds has the tag of the address.
  pub find_line-tag :
      (addr line : ℕ)
      → (find_line ops c addr).0 ≡ some line
      → ops.get_tag (c.mem line) ≡ calc_tag c.geometry addr
  unfolding find_line find_line_tag find_line_tag_assoc find_line_tag_dm
  find_line-tag addr line got = ground (
    arith,
    find_in_set-tag (calc_tag c.geometry addr)
        (calc_index4tag c.geometry (calc_tag c.geometry addr)) (c.geometry.assoc - 1) line,
  )

  -- The same cache but for the order of one set, of which the way `k` has come to the front and the
  -- ways before it have moved back by one.
  abbrev pub IsTurned : ℕ → ℕ → Cache S → Type 0
  IsTurned first k c' =
      (c'.geometry ≡ c.geometry)
      × (c'.organisation ≡ c.organisation)
      × (c'.mem ≡ c.mem)
      × (c'.irand ≡ c.irand)
      × (c'.policy ≡ c.policy)
      × ((j : ℕ) → c'.content j ≡ c.content (rotated first k j))

  -- One way of the set that starts at `first` has come to the front, which may be the first itself.
  abbrev pub IsOneTurned : ℕ → Cache S → Type 0
  IsOneTurned first c' =
      (k : ℕ) × (first ≤ k) × (k ≤ first + (c.geometry.assoc - 1)) × IsTurned first k c'

  pub unturned : (first : ℕ) → IsOneTurned first c
  unturned first = (
    first,
    omega arith,
    omega arith,
    (refl, refl, refl, refl, refl, λ j. ap c.content (sym (rotated_self first j))),
  )

  find_in_set-IsOneTurned :
      (tag first : ℕ) → IsOneTurned first (find_in_set ops c tag first (c.geometry.assoc - 1)).1
  find_in_set-IsOneTurned tag first = elim (Bool-cases (tag_at ops c first == tag)) [
    | inl hit ↦
        subst (λ r. IsOneTurned first r.1)
          (sym (at_front ops c tag first (c.geometry.assoc - 1) hit)) (unturned first)
    | inr miss ↦ elim (Option-cases (find_hit ops c tag (c.geometry.assoc - 1) (first + 1))) [
      | inl none_left ↦
          subst (λ r. IsOneTurned first r.1)
            (sym (absent ops c tag first (c.geometry.assoc - 1) miss none_left)) (unturned first)
      | inr (k, found) ↦
          let (lo, hi, _) = find_hit-some ops c tag (c.geometry.assoc - 1) (first + 1) k found in
          subst (λ r. IsOneTurned first r.1)
            (sym (behind ops c tag first (c.geometry.assoc - 1) k miss found))
            (
              k,
              omega arith,
              omega arith,
              (
                refl,
                refl,
                refl,
                refl,
                refl,
                λ j. move_front-rotated c.content first k j (omega arith),
              ),
            )
    ]
  ]

  find_line_tag_dm-same : (tag : ℕ) → (find_line_tag_dm ops c tag).1 ≡ c
  unfolding find_line_tag_dm
  find_line_tag_dm-same tag = ground arith

  find_line_eq_dm :
      (addr : ℕ)
      → c.organisation ≡ cache_dm
      → find_line ops c addr ≡ find_line_tag_dm ops c (calc_tag c.geometry addr)
  unfolding find_line find_line_tag
  find_line_eq_dm addr e = ground arith

  find_line_eq_assoc :
      (addr : ℕ)
      → c.organisation ≡ cache_assoc
      → find_line ops c addr
        ≡ find_in_set ops c
            (calc_tag c.geometry addr)
            (calc_index4tag c.geometry (calc_tag c.geometry addr))
            (c.geometry.assoc - 1)
  unfolding find_line find_line_tag find_line_tag_assoc
  find_line_eq_assoc addr e = ground arith

  -- `findLine` changes nothing but the order of the set of the address.
  pub find_line-IsOneTurned :
      (addr : ℕ)
      → IsOneTurned (calc_index4tag c.geometry (calc_tag c.geometry addr)) (find_line ops c addr).1
  find_line-IsOneTurned addr =
      let tag = calc_tag c.geometry addr in
      let first = calc_index4tag c.geometry tag in
      elim (Organisation-cases c.organisation) [
        | inl e ↦
            subst (IsOneTurned first)
              (sym (ap (λ r. r.1) (find_line_eq_dm addr e) ∙ find_line_tag_dm-same tag))
              (unturned first)
        | inr e ↦
            subst (λ r. IsOneTurned first r.1) (sym (find_line_eq_assoc addr e))
              (find_in_set-IsOneTurned tag first)
      ]

  module _ (mem' : ℕ → S) (same : (i : ℕ) → ops.get_tag (mem' i) ≡ ops.get_tag (c.mem i)) where
    find_hit-tags :
        (tag n l : ℕ) → find_hit ops (record c { mem = mem' }) tag n l ≡ find_hit ops c tag n l
    unfolding find_hit
    find_hit-tags tag zero l = refl
    find_hit-tags tag (suc n) l = rw (same (c.content l), find_hit-tags tag n (l + 1)) refl

    find_in_set-tags :
        (tag first n : ℕ)
        → (find_in_set ops (record c { mem = mem' }) tag first n).0
          ≡ (find_in_set ops c tag first n).0
    unfolding find_in_set
    find_in_set-tags tag first n =
        rw (same (c.content first), find_hit-tags tag n (first + 1)) (ground arith)

    -- Lines with other contents but the same tags are found in the same way.
    pub find_line-tags :
        (addr : ℕ) → (find_line ops (record c { mem = mem' }) addr).0 ≡ (find_line ops c addr).0
    unfolding find_line find_line_tag find_line_tag_assoc find_line_tag_dm
    find_line-tags addr =
        let tag = calc_tag c.geometry addr in
        let first = calc_index4tag c.geometry tag in
        ground (arith, find_in_set-tags tag first (c.geometry.assoc - 1), same (c.content first))
