-- ===== src/Mshr/Sums.antt =====
-- Sums over the entries of the map of `SingleMSHR`.
use sesc_src.Common.{
  ℕ, ◌+◌, ◌<◌, ◌≡◌, refl, ap, ◌∙◌, inl, inr, none, some, List, [], ◌∷◌, ◌==◌, if◌then◌else◌,
  Bool-cases, arith,
}
use sesc_src.Common.Sums.{occurrences}
use sesc_src.Bloom.Filter.{Vector, get_index}
use sesc_src.Bloom.Counts
use sesc_src.Bloom.Counts.{hits, CountsOf}
use sesc_src.Mshr.Entry.{Entry}
use sesc_src.Mshr.Lines.{Lines, find, put, erase}
use mathlib.Core.Path.{subst}

unfoldable pub sum : (ℕ → Entry → ℕ) → Lines → ℕ
sum h [] = 0
sum h ((k, e) ∷ rest) = h k e + sum h rest

abbrev pub keys : Lines → List ℕ
keys [] = []
keys ((k, e) ∷ rest) = k ∷ keys rest

abbrev pub AllLines : (ℕ → Entry → Type 0) → Lines → Type 0
AllLines P [] = Unit {0}
AllLines P ((k, e) ∷ rest) = P k e × AllLines P rest

pub sum-put-none :
    (h : ℕ → Entry → ℕ) (line : ℕ) (e : Entry) (ms : Lines)
    → find line ms ≡ none
    → sum h (put line e ms) ≡ sum h ms + h line e
unfolding sum put find
sum-put-none h line e [] f = omega arith
sum-put-none h line e ((k, e') ∷ rest) f = elim (Bool-cases (line == k)) [
  | inl same ↦ ground arith
  | inr other ↦ let more = sum-put-none h line e rest in ground arith
]

pub sum-put-some :
    (h : ℕ → Entry → ℕ) (line : ℕ) (e e0 : Entry) (ms : Lines)
    → find line ms ≡ some e0
    → sum h (put line e ms) + h line e0 ≡ sum h ms + h line e
unfolding sum put find
sum-put-some h line e e0 [] f = absurd (cc)
sum-put-some h line e e0 ((k, e') ∷ rest) f = elim (Bool-cases (line == k)) [
  | inl same ↦
      let at : line ≡ k = ground arith in
      let new = ap (λ j. h j e) at in
      let old = ap (λ j. h j e0) at in
      let found : e' ≡ e0 = ground arith in let here = ap (h k) found in ground arith
  | inr other ↦ let more = sum-put-some h line e e0 rest in ground arith
]

pub sum-erase :
    (h : ℕ → Entry → ℕ) (line : ℕ) (e0 : Entry) (ms : Lines)
    → find line ms ≡ some e0
    → sum h (erase line ms) + h line e0 ≡ sum h ms
unfolding sum erase find
sum-erase h line e0 [] f = absurd (cc)
sum-erase h line e0 ((k, e') ∷ rest) f = elim (Bool-cases (line == k)) [
  | inl same ↦
      let at : line ≡ k = ground arith in
      let old = ap (λ j. h j e0) at in
      let found : e' ≡ e0 = ground arith in let here = ap (h k) found in ground arith
  | inr other ↦ let more = sum-erase h line e0 rest in ground arith
]

pub put-AllLines :
    (P : ℕ → Entry → Type 0) (line : ℕ) (e : Entry) (ms : Lines)
    → P line e
    → AllLines P ms
    → AllLines P (put line e ms)
unfolding put
put-AllLines P line e [] p all = (p, tt)
put-AllLines P line e ((k, e') ∷ rest) p (here, others) = elim (Bool-cases (line == k)) [
  | inl same ↦ let at : line ≡ k = ground arith in rw (same, put) (subst (λ j. P j e) at p, others)
  | inr other ↦ rw (other, put) (here, put-AllLines P line e rest p others)
]

pub erase-AllLines :
    (P : ℕ → Entry → Type 0) (line : ℕ) (ms : Lines) → AllLines P ms → AllLines P (erase line ms)
unfolding erase
erase-AllLines P line [] all = tt
erase-AllLines P line ((k, e') ∷ rest) (here, others) = elim (Bool-cases (line == k)) [
  | inl same ↦ rw (same, erase) others
  | inr other ↦ rw (other, erase) (here, erase-AllLines P line rest others)
]

pub find-AllLines :
    (P : ℕ → Entry → Type 0) (line : ℕ) (e : Entry) (ms : Lines)
    → AllLines P ms
    → find line ms ≡ some e
    → P line e
unfolding find
find-AllLines P line e [] all f = absurd (cc)
find-AllLines P line e ((k, e') ∷ rest) (here, others) f = elim (Bool-cases (line == k)) [
  | inl same ↦
      let at : k ≡ line = ground arith in
      let found : e' ≡ e = ground arith in subst (λ j. P j e) at (subst (P k) found here)
  | inr other ↦ find-AllLines P line e rest others (ground arith)
]

-- The filter of the lines: a value counts once for each line.
hits-keys :
    (index : ℕ → ℕ) (i : ℕ) (ms : Lines)
    → hits index i (keys ms) ≡ sum (λ k e. if index k == i then 1 else 0) ms
unfolding sum
hits-keys index i [] = refl
hits-keys index i ((k, e) ∷ rest) = let more = hits-keys index i rest in omega arith

CountsOf-same :
    (xs ys : List ℕ) (vs : List Vector)
    → ((index : ℕ → ℕ) (i : ℕ) → hits index i xs ≡ hits index i ys)
    → CountsOf xs vs
    → CountsOf ys vs
CountsOf-same xs ys [] same c = tt
CountsOf-same xs ys (v ∷ vs) same (here, rest) =
    (λ i. here i ∙ same (get_index v) i, CountsOf-same xs ys vs same rest)

pub put-CountsOf :
    (line : ℕ) (e : Entry) (ms : Lines) (vs : List Vector)
    → find line ms ≡ none
    → CountsOf (line ∷ keys ms) vs
    → CountsOf (keys (put line e ms)) vs
put-CountsOf line e ms vs f c =
    CountsOf-same (line ∷ keys ms) (keys (put line e ms)) vs
      (λ index i.
        let one = sum-put-none (λ k e. if index k == i then 1 else 0) line e ms f in
        let before = hits-keys index i ms in
        let after = hits-keys index i (put line e ms) in omega arith)
      c

pub put-some-keys :
    (line : ℕ) (e e0 : Entry) (ms : Lines) → find line ms ≡ some e0 → keys (put line e ms) ≡ keys ms
unfolding put find
put-some-keys line e e0 [] f = absurd (cc)
put-some-keys line e e0 ((k, e') ∷ rest) f = elim (Bool-cases (line == k)) [
  | inl same ↦ ground arith
  | inr other ↦ let more = put-some-keys line e e0 rest in ground arith
]

pub erase-keys : (line : ℕ) (ms : Lines) → keys (erase line ms) ≡ Counts.erase line (keys ms)
unfolding erase
erase-keys line [] = refl
erase-keys line ((k, e') ∷ rest) = elim (Bool-cases (line == k)) [
  | inl same ↦ ground arith
  | inr other ↦ let more = erase-keys line rest in ground arith
]

pub find-occurrences :
    (line : ℕ) (e : Entry) (ms : Lines) → find line ms ≡ some e → 0 < occurrences line (keys ms)
unfolding find
find-occurrences line e [] f = absurd (cc)
find-occurrences line e ((k, e') ∷ rest) f = elim (Bool-cases (line == k)) [
  | inl same ↦ ground arith
  | inr other ↦ let more = find-occurrences line e rest in ground arith
]
