-- ===== src/FastQueue/Tests.antt =====
-- Runs of the ring, and each theorem at a concrete ring.
use sesc_src.Common.{ℕ, ◌≡◌, refl, ◌++◌, [], ◌∷◌, true, ◌==◌, none, some, if◌then◌else◌, arith}
use sesc_src.Common.Lists.{get_elem?}
use sesc_src.FastQueue.Ring.{
  FastQueue, round_up, create, push, top, pop, get_id_from_top, get_data, is_end,
}
use sesc_src.FastQueue.Create.{IsNew, create-IsNew}
use sesc_src.FastQueue.Refine.{
  IsQueue, items, contents, push-contents, top-pop-contents, get_data-get_id_from_top,
}

program : Unit {0}
unfolding round_up create push top pop get_id_from_top get_data items
program = tt

-- Four places, three elements, around the end of the buffer
abbrev ring : FastQueue ℕ
ring = record {
  pipe = λ i. if i == 3 then 30 else (if i == 0 then 31 else 32);
  pipe_mask = 3;
  start = 3;
  end = 2;
  n_elems = 3;
}

ring-IsQueue : IsQueue 2 ring
ring-IsQueue = record {
  mask = refl;
  small = omega arith;
  first = omega arith;
  full = omega arith;
  last = refl;
}

stands_for : contents 2 ring ≡ 30 ∷ 31 ∷ 32 ∷ []
unfolding program
stands_for = refl

-- On a full ring the first id is already the end, and `getData` refuses it.
full_ring :
    (q : FastQueue ℕ) × (push ring 33 ≡ some q)
    × (get_id_from_top q 0 ≡ some 3)
    × (is_end q 3 ≡ true)
    × (get_data q 3 ≡ none)
unfolding program
full_ring = (_, refl, refl, refl, refl)

create-IsNew_example : (q : FastQueue ℕ) × (create (λ i. i) 5 ≡ some q) × IsNew (λ i. i) 5 q
create-IsNew_example = create-IsNew (λ i. i) 5 (omega arith) (omega arith)

push-contents_example :
    (q' : FastQueue ℕ) × (push ring 33 ≡ some q')
    × IsQueue 2 q'
    × (contents 2 q' ≡ contents 2 ring ++ (33 ∷ []))
push-contents_example = push-contents 2 ring ring-IsQueue 33 (omega arith)

top-pop-contents_example :
    (x : ℕ) × (top ring ≡ some x)
    × IsQueue 2 (pop ring)
    × (contents 2 ring ≡ x ∷ contents 2 (pop ring))
top-pop-contents_example = top-pop-contents 2 ring ring-IsQueue (omega arith)

get_data-get_id_from_top_example :
    (id : ℕ) × (get_id_from_top ring 1 ≡ some id)
    × (get_data ring id ≡ get_elem? (contents 2 ring) 1)
get_data-get_id_from_top_example =
    get_data-get_id_from_top 2 ring ring-IsQueue 1 (omega arith) (omega arith)
