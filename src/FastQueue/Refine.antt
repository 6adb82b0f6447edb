-- ===== src/FastQueue/Refine.antt =====
-- The ring refines a list: `push` appends, `pop` drops the head, and ids walk along the list.
use sesc_src.Common.{
  ℕ, zero, suc, ◌+◌, ◌-◌, ◌%◌, ◌^◌, ◌≤◌, ◌<◌, ◌≡◌, ◌≢◌, refl, sym, ap, ◌∙◌, inl, inr, bit_and, true,
  false, some, List, [], ◌∷◌, ◌++◌, ◌==◌, ltb, leb, Bool-cases, arith,
}
use sesc_src.Common.Arrays.{update, update_self, update_ne}
use sesc_src.Common.Bits.{bit_and_mask}
use sesc_src.FastQueue.Ring.{FastQueue, uint, push, top, pop, get_id_from_top, get_data}
use native.Mathlib.Nat.{mod-lt, mod-mod, mod-add-mod, mod-eq_of_lt, mod-eq-sub-mod, suc-mod}
use sesc_src.Common.Lists.{get_elem?}
use mathlib.Core.Path.{subst, ap₂}

pub record IsQueue {ℓ} {A : Type ℓ} (k : ℕ) (q : FastQueue A) : Type 0 where
  pub mask : q.pipe_mask ≡ 2 ^ k - 1
  pub small : 2 ^ k < 2 ^ 19
  pub first : q.start < 2 ^ k
  pub full : q.n_elems ≤ 2 ^ k
  pub last : q.end ≡ (q.start + q.n_elems) % 2 ^ k

-- Positions less than a turn apart are different.
apart : (size i d : ℕ) → 0 < d → d < size → (i + d) % size ≢ i % size
apart size i d p h e =
    let r : i % size < size = mod-lt i {m = size} (omega arith) in
    let moved : (i % size + d) % size ≡ i % size = mod-add-mod i size d ∙ e in
    elim (Bool-cases (ltb (i % size + d) size)) [
      | inl l ↦ let z = mod-eq_of_lt {n = i % size + d} {m = size} (ground arith) in omega arith
      | inr g ↦
          let over : size ≤ i % size + d = ground arith in
          let y = mod-eq-sub-mod {n = i % size + d} {m = size} over in
          let z = mod-eq_of_lt {n = i % size + d - size} {m = size} (omega arith) in omega arith
    ]

module _ {ℓ} {A : Type ℓ} where
  -- `n` elements from the position `i` on, around the ring
  unfoldable pub items : (ℕ → A) → ℕ → ℕ → ℕ → List A
  items pipe size i zero = []
  items pipe size i (suc n) = pipe (i % size) ∷ items pipe size (suc i) n

  -- The list that the ring stands for
  abbrev pub contents : ℕ → FastQueue A → List A
  contents k q = items q.pipe (2 ^ k) q.start q.n_elems

  items_snoc :
      (pipe : ℕ → A) (size i n : ℕ)
      → items pipe size i (suc n) ≡ items pipe size i n ++ (pipe ((i + n) % size) ∷ [])
  unfolding items
  items_snoc pipe size i zero = ap (λ j. pipe (j % size) ∷ []) (omega arith)
  items_snoc pipe size i (suc n) =
      ap (λ xs. pipe (i % size) ∷ xs)
        (items_snoc pipe size (suc i) n
          ∙ ap (λ j. items pipe size (suc i) n ++ (pipe (j % size) ∷ [])) (omega arith))

  items-update :
      (pipe : ℕ → A) (size i n : ℕ) (d : A)
      → n < size
      → (m j : ℕ) → j + m ≡ n
      → items (update pipe ((i + n) % size) d) size (i + j) m ≡ items pipe size (i + j) m
  unfolding items
  items-update pipe size i n d h zero j e = refl
  items-update pipe size i n d h (suc m) j e =
      let other : (i + n) % size ≢ (i + j) % size = λ same.
        apart size (i + j) (suc m) (omega arith) (omega arith)
          (ap (λ x. x % size) (omega arith) ∙ same) in
      let here = update_ne pipe ((i + n) % size) d ((i + j) % size) other in
      let next : suc (i + j) ≡ i + suc j = omega arith in
      let rest = items-update pipe size i n d h m (suc j) (omega arith) in
      rw (here, next) (ap (λ xs. pipe ((i + j) % size) ∷ xs) rest)

  items_write :
      (pipe : ℕ → A) (size i n : ℕ) (d : A)
      → n < size
      → items (update pipe ((i + n) % size) d) size i n ≡ items pipe size i n
  items_write pipe size i n d h =
      subst (λ x. items (update pipe ((i + n) % size) d) size x n ≡ items pipe size x n)
        (omega arith) (items-update pipe size i n d h n 0 (omega arith))

  items_head :
      (pipe : ℕ → A) (size i n : ℕ)
      → 0 < n
      → items pipe size i n ≡ pipe (i % size) ∷ items pipe size (suc i) (n - 1)
  unfolding items
  items_head pipe size i zero h = absurd (omega arith)
  items_head pipe size i (suc n) h =
      ap (λ m. pipe (i % size) ∷ items pipe size (suc i) m) (omega arith)

  items_mod :
      (pipe : ℕ → A) (size i j n : ℕ)
      → i % size ≡ j % size
      → items pipe size i n ≡ items pipe size j n
  unfolding items
  items_mod pipe size i j zero e = refl
  items_mod pipe size i j (suc n) e =
      let next : suc i % size ≡ suc j % size =
        suc-mod i size ∙ ap (λ x. suc x % size) e ∙ sym (suc-mod j size) in
      let rest = items_mod pipe size (suc i) (suc j) n next in rw (e, rest) refl

  items_at :
      (pipe : ℕ → A) (size i n j : ℕ)
      → j < n
      → get_elem? (items pipe size i n) j ≡ some (pipe ((i + j) % size))
  unfolding items
  items_at pipe size i zero j h = absurd (omega arith)
  items_at pipe size i (suc n) zero h = ap (λ x. some (pipe (x % size))) (omega arith)
  items_at pipe size i (suc n) (suc j) h =
      items_at pipe size (suc i) n j (omega arith) ∙ ap (λ x. some (pipe (x % size))) (omega arith)

  module _ (k : ℕ) (q : FastQueue A) (v : IsQueue k q) where
    -- An index computed by the code is a position on the ring.
    wrapped : (i : ℕ) → i < 2 ^ 32 → bit_and (uint i) q.pipe_mask ≡ i % 2 ^ k
    wrapped i h =
        subst (λ m. bit_and (uint i) m ≡ i % 2 ^ k) (sym v.mask)
          (ap (λ x. bit_and x (2 ^ k - 1)) (mod-eq_of_lt {n = i} h) ∙ bit_and_mask k i)

    -- While the ring is not full, `push` returns, keeps the ring well-formed, and appends the element
    -- to the list that the ring stands for.
    pub push-contents :
        (d : A)
        → q.n_elems < 2 ^ k
        → (q' : FastQueue A) × (push q d ≡ some q')
          × IsQueue k q'
          × (contents k q' ≡ contents k q ++ (d ∷ []))
    unfolding push
    push-contents d room =
        let lt = mod-lt (q.start + q.n_elems) {m = 2 ^ k} (omega arith) in
        let mask = v.mask in
        let here : leb q.n_elems q.pipe_mask ≡ true = ground arith in
        let at_end = wrapped (q.start + q.n_elems) (omega arith) in
        let ends : (q.end == bit_and (uint (q.start + q.n_elems)) q.pipe_mask) ≡ true =
          ground (arith, v.last) in
        let grown : uint (q.n_elems + 1) ≡ suc q.n_elems = omega arith in
        let more = wrapped (q.end + 1) (omega (arith, v.last)) in
        let next : bit_and (uint (q.end + 1)) q.pipe_mask ≡ (q.start + suc q.n_elems) % 2 ^ k =
          more
          ∙ ap (λ x. (x + 1) % 2 ^ k) v.last
          ∙ mod-add-mod (q.start + q.n_elems) (2 ^ k) 1
          ∙ ap (λ x. x % 2 ^ k) (omega arith) in
        let kept = items_write q.pipe (2 ^ k) q.start q.n_elems d room in
        rw (here, ends, grown)
          (
            _,
            refl,
            record {
              mask = v.mask;
              small = v.small;
              first = v.first;
              full = omega arith;
              last = next;
            },
            items_snoc (update q.pipe q.end d) (2 ^ k) q.start q.n_elems
                ∙ ap₂ (λ xs x. xs ++ (x ∷ []))
                    (ap (λ e. items (update q.pipe e d) (2 ^ k) q.start q.n_elems) v.last ∙ kept)
                    (subst (λ e. update q.pipe q.end d e ≡ d) v.last (update_self q.pipe q.end d)),
          )

    -- If the ring is not empty, `top` returns an element, `pop` keeps the ring well-formed, and the
    -- list that the ring stood for is that element followed by the list it stands for after `pop`.
    pub top-pop-contents :
        0 < q.n_elems
        → (x : A) × (top q ≡ some x) × IsQueue k (pop q) × (contents k q ≡ x ∷ contents k (pop q))
    unfolding top pop
    top-pop-contents some_in =
        let first = v.first in
        let full = v.full in
        let test : (q.n_elems == 0) ≡ false = ground arith in
        let fewer : uint (q.n_elems + (2 ^ 32 - 1)) ≡ q.n_elems - 1 = omega (arith, v.small) in
        let pos : 0 < 2 ^ k = omega arith in
        let next = wrapped (q.start + 1) (omega (arith, v.small)) in
        let lt = mod-lt (q.start + 1) {m = 2 ^ k} pos in
        let front : q.start % 2 ^ k ≡ q.start = mod-eq_of_lt {n = q.start} first in
        let same : suc q.start % 2 ^ k ≡ (q.start + 1) % 2 ^ k % 2 ^ k =
          ap (λ x. x % 2 ^ k) (omega arith) ∙ sym (mod-mod (q.start + 1) (2 ^ k)) in
        let end : q.end ≡ ((q.start + 1) % 2 ^ k + (q.n_elems - 1)) % 2 ^ k =
          v.last
          ∙ ap (λ x. x % 2 ^ k) (omega arith)
          ∙ sym (mod-add-mod (q.start + 1) (2 ^ k) (q.n_elems - 1)) in
        rw (test, fewer, next)
          (
            q.pipe q.start,
            refl,
            record { mask = v.mask; small = v.small; first = lt; full = omega arith; last = end },
            items_head q.pipe (2 ^ k) q.start q.n_elems some_in
                ∙ ap₂ ◌∷◌ (ap q.pipe front) (
                    items_mod q.pipe (2 ^ k) (suc q.start) ((q.start + 1) % 2 ^ k) (q.n_elems - 1)
                      same),
          )

    -- While the ring is not full, `getIdFromTop(i)` of an element that is there and `getData` return
    -- the element number `i` of the list that the ring stands for.
    pub get_data-get_id_from_top :
        (i : ℕ)
        → i < q.n_elems
        → q.n_elems < 2 ^ k
        → (id : ℕ) × (get_id_from_top q i ≡ some id) × (get_data q id ≡ get_elem? (contents k q) i)
    unfolding get_id_from_top get_data
    get_data-get_id_from_top i inside room =
        let mask = v.mask in
        let at_id = wrapped (q.start + i) (omega (arith, v.first)) in
        let lt = mod-lt (q.start + i) {m = 2 ^ k} (omega arith) in
        let not_last : (q.start + i) % 2 ^ k ≢ q.end = λ same.
          apart (2 ^ k) (q.start + i) (q.n_elems - i) (omega arith) (omega arith)
            (ap (λ x. x % 2 ^ k) (omega arith) ∙ sym v.last ∙ sym same) in
        let before : ltb i q.n_elems ≡ true = ground arith in
        let low : leb ((q.start + i) % 2 ^ k) q.pipe_mask ≡ true = ground arith in
        let other : ((q.start + i) % 2 ^ k == q.end) ≡ false = ground arith in
        rw (before, at_id)
          (_, refl, rw (low, other) (sym (items_at q.pipe (2 ^ k) q.start q.n_elems i inside)))
