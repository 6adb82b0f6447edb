-- ===== src/Cache/Ways.antt =====
-- A set of the cache as the list of its lines, most recently used first, and the recency list that
-- the search loop refines.
use sesc_src.Common.{
  ℕ, zero, suc, ◌+◌, ◌-◌, ◌≤◌, ◌<◌, ◌≡◌, refl, ap, ◌∙◌, ◌≢◌, inl, inr, Bool, Option, none, some,
  List, [], ◌∷◌, ◌==◌, if◌then◌else◌, Bool-cases, arith,
}
use mathlib.Core.Path.{ap₂}
use mathlib.Core.Option
use sesc_src.Cache.Order.{move_front, move_front_at}

-- The `n` pointers from `theSet` on.
unfoldable pub ways : (ℕ → ℕ) → ℕ → ℕ → List ℕ
ways f first zero = []
ways f first (suc n) = f first ∷ ways f (first + 1) n

pub ways-suc : (f : ℕ → ℕ) (first n : ℕ) → ways f first (suc n) ≡ f first ∷ ways f (first + 1) n
unfolding ways
ways-suc f first n = refl

-- The first element that passes the test, and the list without it.
abbrev pub extract : (ℕ → Bool) → List ℕ → Option (ℕ × List ℕ)
extract p [] = none
extract p (x ∷ xs) = if p x then some (x, xs) else Option.map (λ e. (e.0, x ∷ e.1)) (extract p xs)

-- A recency list that is asked for an element moves it to the front.
abbrev pub to_front : List ℕ → Option (ℕ × List ℕ) → Option ℕ × List ℕ
to_front xs none = (none, xs)
to_front xs (some (y, rest)) = (some y, y ∷ rest)

abbrev pub mru_find : (ℕ → Bool) → List ℕ → Option ℕ × List ℕ
mru_find p xs = to_front xs (extract p xs)

abbrev pub remove_at : ℕ → List ℕ → List ℕ
remove_at k [] = []
remove_at zero (x ∷ xs) = xs
remove_at (suc k) (x ∷ xs) = x ∷ remove_at k xs

pub ways_eq :
    (f g : ℕ → ℕ) (n first : ℕ)
    → ((j : ℕ) → first ≤ j → j < first + n → f j ≡ g j)
    → ways f first n ≡ ways g first n
unfolding ways
ways_eq f g zero first h = refl
ways_eq f g (suc n) first h =
    ap₂ ◌∷◌ (h first (omega arith) (omega arith))
      (ways_eq f g n (first + 1) (λ j p q. h j (omega arith) (omega arith)))

remove_at_pos : (k x : ℕ) (xs : List ℕ) → k ≢ 0 → remove_at k (x ∷ xs) ≡ x ∷ remove_at (k - 1) xs
remove_at_pos zero x xs h = absurd (h refl)
remove_at_pos (suc k) x xs h = ap (λ j. x ∷ remove_at j xs) (omega arith)

-- What stands behind the front after a move is the old list without the way that moved.
ways_shifted :
    (f g : ℕ → ℕ) (n first l : ℕ)
    → first ≤ l
    → l < first + suc n
    → ((j : ℕ) → first < j → j ≤ l → g j ≡ f (j - 1))
    → ((j : ℕ) → l < j → g j ≡ f j)
    → ways g (first + 1) n ≡ remove_at (l - first) (ways f first (suc n))
unfolding ways
ways_shifted f g zero first l lo hi low high = let z : l - first ≡ 0 = omega arith in rw z
ways_shifted f g (suc n) first l lo hi low high = elim (Bool-cases (l == first)) [
  | inl e ↦
      let z : l - first ≡ 0 = ground arith in
      rw z (ways_eq g f (suc n) (first + 1) (λ j p q. high j (ground arith)))
  | inr ne ↦
      let z : l - first ≢ 0 = ground arith in
      let back : first + 1 - 1 ≡ first = omega arith in
      let less : l - first - 1 ≡ l - (first + 1) = omega arith in
      rw (remove_at_pos (l - first) (f first) (ways f (first + 1) (suc n)) z, less)
        (ap₂ ◌∷◌ (low (first + 1) (omega arith) (ground arith) ∙ ap f back) (
          ways_shifted f g n (first + 1) l (ground arith) (omega arith)
            (λ j p q. low j (omega arith) q) high))
]

pub ways-move_front :
    (f : ℕ → ℕ) (n first l : ℕ)
    → first ≤ l
    → l < first + suc n
    → ways (move_front f first l) first (suc n) ≡ f l ∷ remove_at (l - first) (ways f first (suc n))
unfolding ways
ways-move_front f n first l lo hi = ap₂ ◌∷◌ (ground (arith, move_front_at f first l first lo)) (
    ways_shifted f (move_front f first l) n first l lo hi
      (λ j p q. ground (arith, move_front_at f first l j lo))
      (λ j p. ground (arith, move_front_at f first l j lo)))
