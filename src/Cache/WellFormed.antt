-- ===== src/Cache/WellFormed.antt =====
-- The invariant of an associative cache: the pointer array holds each line once, a line whose tag is
-- not 0 stands in the set that its tag selects, and no two lines have the same tag other than 0.
use sesc_src.Common.{
  ℕ, ◌+◌, ◌*◌, ◌≤◌, ◌<◌, ◌≡◌, sym, ap, ◌∙◌, ◌≢◌, inl, inr, ◌==◌, Bool-cases, ==_iff, ==-false_iff,
  arith,
}
use mathlib.Core.Path.{subst}
use sesc_src.Common.Arrays.{update_self, update_ne}
use sesc_src.Cache.Line.{LineOps, IsLawful}
use sesc_src.Cache.Geometry.{calc_set4tag, calc_index4tag}
use sesc_src.Cache.Sound.{IsSound, calc_index4tag_bounds}
use sesc_src.Cache.Core.{Cache, tag_at, set_tag_of}
use sesc_src.Cache.Rotation.{rotated, rotated-injective, rotated_bounds, same_row}

module _ {S : Type 0} (ops : LineOps S) where
  pub record IsWellFormed (c : Cache S) : Type 0 where
    pub sound : IsSound c.geometry
    pub injective :
        (i j : ℕ)
        → i < c.geometry.num_lines
        → j < c.geometry.num_lines
        → c.content i ≡ c.content j
        → i ≡ j
    pub home :
        (i : ℕ)
        → i < c.geometry.num_lines
        → tag_at ops c i ≢ 0
        → (calc_index4tag c.geometry (tag_at ops c i) ≤ i)
          × (i < calc_index4tag c.geometry (tag_at ops c i) + c.geometry.assoc)
    pub unique :
        (i j : ℕ)
        → i < c.geometry.num_lines
        → j < c.geometry.num_lines
        → tag_at ops c i ≡ tag_at ops c j
        → tag_at ops c i ≢ 0
        → i ≡ j

  module _ {c : Cache S} (v : IsWellFormed c) (t k : ℕ) where
    abbrev first : ℕ
    first = calc_index4tag c.geometry t

    module _ (lo : first ≤ k) (hi : k < first + c.geometry.assoc) where
      in_array : (j : ℕ) → j < c.geometry.num_lines → rotated first k j < c.geometry.num_lines
      in_array j h = omega (
        arith,
        rotated_bounds first k j c.geometry.assoc lo hi,
        (calc_index4tag_bounds v.sound t).1,
      )

      -- Two sets that share a way are one.
      same_first :
          (u p : ℕ)
          → first ≤ p
          → p < first + c.geometry.assoc
          → calc_index4tag c.geometry u ≤ p
          → p < calc_index4tag c.geometry u + c.geometry.assoc
          → calc_index4tag c.geometry u ≡ first
      same_first u p a b a' b' =
          let e = (calc_index4tag_bounds v.sound t).0 in
          let e' = (calc_index4tag_bounds v.sound u).0 in
          e'
          ∙ ap (λ x. x * c.geometry.assoc)
              (same_row (calc_set4tag c.geometry u) (calc_set4tag c.geometry t) c.geometry.assoc p
                (omega (arith, e')) (omega (arith, e')) (omega (arith, e)) (omega (arith, e)))
          ∙ sym e

      stays_home :
          (j u : ℕ)
          → calc_index4tag c.geometry u ≤ rotated first k j
          → rotated first k j < calc_index4tag c.geometry u + c.geometry.assoc
          → (calc_index4tag c.geometry u ≤ j) × (j < calc_index4tag c.geometry u + c.geometry.assoc)
      stays_home j u a b = elim (rotated_bounds first k j c.geometry.assoc lo hi) [
        | inl (e, _) ↦ (omega arith, omega arith)
        | inr (inl (p, q, p', q')) ↦
            let e = same_first u (rotated first k j) p' q' a b in (omega arith, omega arith)
        | inr (inr e) ↦ (omega arith, omega arith)
      ]

      -- Moving a way of a set to its front keeps the invariant.
      pub rotation-IsWellFormed :
          (f : ℕ → ℕ) (irand : ℕ)
          → ((j : ℕ) → f j ≡ c.content (rotated first k j))
          → IsWellFormed (record c { content = f; irand = irand })
      rotation-IsWellFormed f irand order =
          let tags : (j : ℕ) → ops.get_tag (c.mem (f j)) ≡ tag_at ops c (rotated first k j) =
            λ j. ap (λ l. ops.get_tag (c.mem l)) (order j) in
          record {
            sound = v.sound;
            injective = λ i j p q e.
                rotated-injective first k i j lo
                  (v.injective _ _ (in_array i p) (in_array j q) (sym (order i) ∙ e ∙ order j));
            home = λ i p h.
                let (a, b) = v.home (rotated first k i) (in_array i p) (λ z. h (tags i ∙ z)) in
                subst
                  (λ u.
                    (calc_index4tag c.geometry u ≤ i)
                    × (i < calc_index4tag c.geometry u + c.geometry.assoc))
                  (sym (tags i)) (stays_home i (tag_at ops c (rotated first k i)) a b);
            unique = λ i j p q e h. rotated-injective first k i j lo (
                v.unique _ _ (in_array i p) (in_array j q) (sym (tags i) ∙ e ∙ tags j)
                  (λ z. h (tags i ∙ z)));
          }

  module _ (law : IsLawful ops) {c : Cache S} (v : IsWellFormed c) (t k : ℕ) where
    -- `t` is written into the line of way `k`.
    abbrev pub filled : Cache S
    filled = set_tag_of ops c (c.content k) t

    pub tag_at-filled_self : tag_at ops filled k ≡ t
    tag_at-filled_self =
        ap ops.get_tag (update_self c.mem (c.content k) (ops.set_tag t (c.mem (c.content k))))
        ∙ law.get_tag-set_tag t (c.mem (c.content k))

    tag_at-filled_ne :
        (j : ℕ)
        → k < c.geometry.num_lines
        → j < c.geometry.num_lines
        → k ≢ j
        → tag_at ops filled j ≡ tag_at ops c j
    tag_at-filled_ne j p q ne = ap ops.get_tag (
        update_ne c.mem (c.content k) (ops.set_tag t (c.mem (c.content k))) (c.content j)
          (λ e. ne (v.injective k j p q e)))

    -- The tag is written at home, and stands nowhere else.
    pub filled-IsWellFormed :
        calc_index4tag c.geometry t ≤ k
        → k < calc_index4tag c.geometry t + c.geometry.assoc
        → ((j : ℕ) → j < c.geometry.num_lines → t ≢ 0 → tag_at ops c j ≡ t → k ≡ j)
        → IsWellFormed filled
    filled-IsWellFormed lo hi only = record {
      sound = v.sound;
      injective = v.injective;
      home = home;
      unique = unique;
    }
      where
        inside : k < c.geometry.num_lines
        inside = omega (arith, (calc_index4tag_bounds v.sound t).1)

        home :
            (i : ℕ)
            → i < c.geometry.num_lines
            → tag_at ops filled i ≢ 0
            → (calc_index4tag c.geometry (tag_at ops filled i) ≤ i)
              × (i < calc_index4tag c.geometry (tag_at ops filled i) + c.geometry.assoc)
        home i p h = elim (Bool-cases (k == i)) [
          | inl e ↦
              let e' = (==_iff k i).0 e in
              subst
                (λ u.
                  (calc_index4tag c.geometry (tag_at ops filled u) ≤ u)
                  × (u < calc_index4tag c.geometry (tag_at ops filled u) + c.geometry.assoc))
                e' (rw tag_at-filled_self (lo, hi))
          | inr n ↦
              let same = tag_at-filled_ne i inside p ((==-false_iff k i).0 n) in
              subst
                (λ u.
                  (calc_index4tag c.geometry u ≤ i)
                  × (i < calc_index4tag c.geometry u + c.geometry.assoc))
                (sym same) (v.home i p (λ z. h (same ∙ z)))
        ]

        alone : (j : ℕ) → j < c.geometry.num_lines → tag_at ops filled j ≡ t → t ≢ 0 → k ≡ j
        alone j q e nz = elim (Bool-cases (k == j)) [
          | inl kj ↦ (==_iff k j).0 kj
          | inr nj ↦ only j q nz (sym (tag_at-filled_ne j inside q ((==-false_iff k j).0 nj)) ∙ e)
        ]

        unique :
            (i j : ℕ)
            → i < c.geometry.num_lines
            → j < c.geometry.num_lines
            → tag_at ops filled i ≡ tag_at ops filled j
            → tag_at ops filled i ≢ 0
            → i ≡ j
        unique i j p q e h = elim (Bool-cases (k == i)) [
          | inl ki ↦
              let same : k ≡ i = (==_iff k i).0 ki in
              let here : tag_at ops filled i ≡ t =
                subst (λ u. tag_at ops filled u ≡ t) same tag_at-filled_self in
              sym same ∙ alone j q (sym e ∙ here) (λ z. h (here ∙ z))
          | inr ni ↦ elim (Bool-cases (k == j)) [
            | inl kj ↦
                let same : k ≡ j = (==_iff k j).0 kj in
                let here : tag_at ops filled j ≡ t =
                  subst (λ u. tag_at ops filled u ≡ t) same tag_at-filled_self in
                sym (alone i p (e ∙ here) (λ z. h (e ∙ here ∙ z))) ∙ same
            | inr nj ↦
                let at_i = tag_at-filled_ne i inside p ((==-false_iff k i).0 ni) in
                let at_j = tag_at-filled_ne j inside q ((==-false_iff k j).0 nj) in
                v.unique i j p q (sym at_i ∙ e ∙ at_j) (λ z. h (at_i ∙ z))
          ]
        ]
