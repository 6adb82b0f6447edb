-- ===== src/Cache/Rotation.antt =====
-- Every operation of an associative cache leaves each set a rotation of what it was.
use sesc_src.Common.{
  ℕ, ◌+◌, ◌-◌, ◌*◌, ◌≤◌, ◌<◌, ◌≡◌, ◌⊎◌, ◌&&◌, ◌==◌, ltb, leb, if◌then◌else◌, arith,
}
use sesc_src.Cache.Order.{move_front, move_front_at}

-- Where the line now at `j` was before way `k` moved to the front of the set at `first`.
unfoldable pub rotated : ℕ → ℕ → ℕ → ℕ
rotated first k j = if j == first then k else if ltb first j && leb j k then j - 1 else j

pub move_front-rotated :
    (f : ℕ → ℕ) (first k j : ℕ) → first ≤ k → move_front f first k j ≡ f (rotated first k j)
unfolding rotated
move_front-rotated f first k j h = ground (arith, move_front_at f first k j h)

pub rotated_self : (first j : ℕ) → rotated first first j ≡ j
unfolding rotated
rotated_self first j = ground arith

pub rotated_first : (first k : ℕ) → rotated first k first ≡ k
unfolding rotated
rotated_first first k = ground arith

pub rotated-injective :
    (first k i j : ℕ) → first ≤ k → rotated first k i ≡ rotated first k j → i ≡ j
unfolding rotated
rotated-injective first k i j h e = ground arith

-- A rotation moves lines inside the set only.
pub rotated_bounds :
    (first k j a : ℕ)
    → first ≤ k
    → k < first + a
    → ((rotated first k j ≡ j) × ((j < first) ⊎ (first + a ≤ j)))
      ⊎ ((first ≤ j)
          × (j < first + a)
          × (first ≤ rotated first k j)
          × (rotated first k j < first + a))
      ⊎ ((rotated first k j ≡ j))
unfolding rotated
rotated_bounds first k j a lo hi = ground arith

-- Two sets of the array are the same or apart.
pub same_row : (x y a p : ℕ) → x * a ≤ p → p < x * a + a → y * a ≤ p → p < y * a + a → x ≡ y
same_row x y a p h h' k k' = grind arith
