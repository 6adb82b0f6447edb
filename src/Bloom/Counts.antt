-- ===== src/Bloom/Counts.antt =====
-- The filter counts the values that are in it: none of them is reported absent.
use sesc_src.Common.{
  ℕ, ◌+◌, ◌-◌, ◌<◌, ◌≡◌, refl, ap, inl, inr, true, some, List, [], ◌∷◌, ◌==◌, if◌then◌else◌,
  Bool-cases, arith,
}
use sesc_src.Common.Arrays.{update}
use sesc_src.Common.Sums.{occurrences}
use sesc_src.Bloom.Filter.{Vector, init_masks, get_index, insert, remove, may_exist}

-- How many of the values index the counter `i`
abbrev pub hits : (ℕ → ℕ) → ℕ → List ℕ → ℕ
hits index i [] = 0
hits index i (x ∷ xs) = (if index x == i then 1 else 0) + hits index i xs

-- The values without the first `x`
abbrev pub erase : ℕ → List ℕ → List ℕ
erase x [] = []
erase x (y ∷ ys) = if x == y then ys else y ∷ erase x ys

-- Every counter of every vector is the number of the values that index it.
abbrev pub CountsOf : List ℕ → List Vector → Type 0
CountsOf xs [] = Unit {0}
CountsOf xs (v ∷ vs) = ((i : ℕ) → v.count_vec i ≡ hits (get_index v) i xs) × CountsOf xs vs

pub init_masks-CountsOf :
    (tot_shift : ℕ) (sizes : List (ℕ × ℕ)) → CountsOf [] (init_masks tot_shift sizes)
unfolding init_masks
init_masks-CountsOf tot_shift [] = tt
init_masks-CountsOf tot_shift ((bits, size) ∷ rest) =
    (λ i. refl, init_masks-CountsOf (tot_shift + bits) rest)

-- The filter of some values and one more
pub insert-CountsOf :
    (e : ℕ) (xs : List ℕ) (vs : List Vector) → CountsOf xs vs → CountsOf (e ∷ xs) (insert e vs)
unfolding insert get_index
insert-CountsOf e xs [] c = tt
insert-CountsOf e xs (v ∷ vs) (here, rest) =
    let at = here (get_index v e) in
    (λ i. let there = here i in ground arith, insert-CountsOf e xs vs rest)

hits-erase :
    (index : ℕ → ℕ) (i x : ℕ) (xs : List ℕ)
    → 0 < occurrences x xs
    → hits index i (erase x xs) + (if index x == i then 1 else 0) ≡ hits index i xs
hits-erase index i x [] h = absurd (omega arith)
hits-erase index i x (y ∷ ys) h = elim (Bool-cases (x == y)) [
  | inl same ↦ let at : x ≡ y = ground arith in let both = ap index at in ground arith
  | inr other ↦ let rest = hits-erase index i x ys in ground arith
]

hits_pos :
    (index : ℕ → ℕ) (x : ℕ) (xs : List ℕ) → 0 < occurrences x xs → 0 < hits index (index x) xs
hits_pos index x [] h = absurd (omega arith)
hits_pos index x (y ∷ ys) h = elim (Bool-cases (x == y)) [
  | inl same ↦ let at : x ≡ y = ground arith in let both = ap index at in ground arith
  | inr other ↦ let rest = hits_pos index x ys in ground arith
]

remove_eq :
    (e : ℕ) (v : Vector) (vs vs' : List Vector)
    → 0 < v.count_vec (get_index v e)
    → remove e vs ≡ some vs'
    → remove e (v ∷ vs)
      ≡ some (
          record v {
            count_vec = update v.count_vec (get_index v e) (v.count_vec (get_index v e) - 1);
          }
          ∷ vs')
unfolding remove
remove_eq e v vs vs' pos rest = ground arith

-- For a filter that counts some values of which `e` is one: `remove` of `e` returns, the assertion on
-- the counters holds, and the filter then counts the values without one `e`.
pub remove-CountsOf :
    (e : ℕ) (xs : List ℕ) (vs : List Vector)
    → CountsOf xs vs
    → 0 < occurrences e xs
    → (vs' : List Vector) × (remove e vs ≡ some vs') × CountsOf (erase e xs) vs'
unfolding remove get_index
remove-CountsOf e xs [] c h = ([], refl, tt)
remove-CountsOf e xs (v ∷ vs) (here, rest) h =
    let (vs', got, counts) = remove-CountsOf e xs vs rest h in
    let at = here (get_index v e) in
    let pos = hits_pos (get_index v) e xs h in
    (
      _,
      remove_eq e v vs vs' (omega arith) got,
      (
        λ i. let there = here i in let fewer = hits-erase (get_index v) i e xs h in ground arith,
        counts,
      ),
    )

-- For a filter that counts some values: of each of them, `mayExist` says that it may be there.
pub may_exist-CountsOf :
    (e : ℕ) (xs : List ℕ) (vs : List Vector)
    → CountsOf xs vs
    → 0 < occurrences e xs
    → may_exist e vs ≡ true
unfolding may_exist
may_exist-CountsOf e xs [] c h = refl
may_exist-CountsOf e xs (v ∷ vs) (here, rest) h =
    let at = here (get_index v e) in
    let pos = hits_pos (get_index v) e xs h in
    let others = may_exist-CountsOf e xs vs rest h in ground arith
