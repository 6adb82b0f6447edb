-- ===== src/Cache/Find.antt =====
-- What `CacheAssoc::findLineTag` does to the recency order of a set.
use sesc_src.Common.{
  ℕ, zero, suc, ◌+◌, ◌-◌, ◌≤◌, ◌<◌, ◌≡◌, refl, sym, ◌≢◌, ◌⊎◌, inl, inr, Bool, true, false, Option,
  none, some, ◌==◌, Bool-cases, Option-cases, arith,
}
use mathlib.Core.Option
use mathlib.Core.Path.{subst}
use sesc_src.Cache.Line.{LineOps}
use sesc_src.Cache.Geometry.{calc_index4tag}
use sesc_src.Cache.Order.{move_front}
use sesc_src.Cache.Core.{Cache, tag_at, find_hit, find_in_set, find_line_tag_assoc}
use sesc_src.Cache.Ways.{ways, ways-suc, extract, mru_find, remove_at, ways-move_front}
use sesc_src.Cache.Order.{move_front_at}

module _ {S : Type 0} (ops : LineOps S) (c : Cache S) (tag : ℕ) where
  -- Does this line have the tag that is looked for?
  abbrev pub has_tag : ℕ → Bool
  has_tag line = ops.get_tag (c.mem line) == tag

  pub find_hit-some :
      (n l k : ℕ) → find_hit ops c tag n l ≡ some k → (l ≤ k) × (k < l + n) × (tag_at ops c k ≡ tag)
  unfolding find_hit
  find_hit-some zero l k h = cc
  find_hit-some (suc n) l k h = ground (arith, find_hit-some n (l + 1) k)

  pub find_hit-none :
      (n l j : ℕ) → l ≤ j → j < l + n → find_hit ops c tag n l ≡ none → tag_at ops c j ≢ tag
  unfolding find_hit
  find_hit-none zero l j lo hi h = absurd (omega arith)
  find_hit-none (suc n) l j lo hi h = ground (arith, find_hit-none n (l + 1) j)

  -- The search loop finds the first line of the list that has the tag.
  extract-ways :
      (n l : ℕ)
      → extract has_tag (ways c.content l n)
        ≡ Option.map
            (λ k. (c.content k, remove_at (k - l) (ways c.content l n)))
            (find_hit ops c tag n l)
  unfolding find_hit ways
  extract-ways zero l = refl
  extract-ways (suc n) l = elim (Bool-cases (tag_at ops c l == tag)) [
    | inl hit ↦ let z : l - l ≡ 0 = omega arith in rw (hit, z)
    | inr miss ↦
        rw (miss, extract-ways n (l + 1))
          (elim (Option-cases (find_hit ops c tag n (l + 1))) [
            | inl absent ↦ rw absent
            | inr (k, found) ↦
                let e : k - l ≡ suc (k - (l + 1)) =
                  omega (arith, find_hit-some n (l + 1) k found) in
                rw (found, e)
          ])
  ]

  -- Which ways a search may change: those from `first` up to the one that it found.
  abbrev pub KeepsOutside : ℕ → ℕ → Cache S → Type 0
  KeepsOutside first n c' =
      (c'.mem ≡ c.mem)
      × (c'.geometry ≡ c.geometry)
      × ((j : ℕ) → (j < first) ⊎ (first + n ≤ j) → c'.content j ≡ c.content j)

  module _ (first n : ℕ) where
    pub at_front :
        (tag_at ops c first == tag) ≡ true
        → find_in_set ops c tag first n ≡ (some (c.content first), c)
    unfolding find_in_set
    at_front hit = rw hit

    pub absent :
        (tag_at ops c first == tag) ≡ false
        → find_hit ops c tag n (first + 1) ≡ none
        → find_in_set ops c tag first n ≡ (none, c)
    unfolding find_in_set
    absent miss h = rw (miss, h)

    pub behind :
        (k : ℕ)
        → (tag_at ops c first == tag) ≡ false
        → find_hit ops c tag n (first + 1) ≡ some k
        → find_in_set ops c tag first n
          ≡ (some (c.content k), record c { content = move_front c.content first k })
    unfolding find_in_set
    behind k miss h = rw (miss, h)

    -- What a search of the set leaves: the recency list's answer and order, and all else alone.
    abbrev pub IsMruStep : Option ℕ × Cache S → Type 0
    IsMruStep r =
        ((r.0, ways r.1.content first (suc n)) ≡ mru_find has_tag (ways c.content first (suc n)))
        × KeepsOutside first (suc n) r.1

    pub find_in_set-mru : IsMruStep (find_in_set ops c tag first n)
    find_in_set-mru = elim (Bool-cases (tag_at ops c first == tag)) [
      | inl hit ↦
          subst IsMruStep (sym (at_front hit)) (rw (ways-suc, hit), (refl, refl, λ j h. refl))
      | inr miss ↦ elim (Option-cases (find_hit ops c tag n (first + 1))) [
        | inl none_left ↦
            subst IsMruStep (sym (absent miss none_left)) (
              rw (ways-suc, miss, extract-ways n (first + 1), none_left),
              (refl, refl, λ j h. refl),
            )
        | inr (k, found) ↦
            let (lo, hi, _) = find_hit-some n (first + 1) k found in
            let e : k - first ≡ suc (k - (first + 1)) = omega arith in
            subst IsMruStep (sym (behind k miss found)) (
              rw (ways-move_front c.content n first k (omega arith) (omega arith), e)
                  (rw (ways-suc, miss, extract-ways n (first + 1), found)),
              (refl, refl, λ j h. ground (arith, move_front_at c.content first k j)),
            )
      ]
    ]

  -- `findLineTag` of a cache of n + 1 ways is the recency list of its set: it returns the first line
  -- of the set that has the tag, or a null pointer if none has, and the set's new order is the old
  -- one with the returned line moved to the front. No line and no other set changes.
  pub find_line_tag_assoc-mru :
      (n : ℕ)
      → c.geometry.assoc ≡ suc n
      → IsMruStep (calc_index4tag c.geometry tag) n (find_line_tag_assoc ops c tag)
  unfolding find_line_tag_assoc
  find_line_tag_assoc-mru n e =
      let rounds : c.geometry.assoc - 1 ≡ n = omega arith in
      subst
        (λ k.
          IsMruStep (calc_index4tag c.geometry tag) n
            (find_in_set ops c tag (calc_index4tag c.geometry tag) k))
        (sym rounds) (find_in_set-mru (calc_index4tag c.geometry tag) n)
