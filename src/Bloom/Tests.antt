-- ===== src/Bloom/Tests.antt =====
-- Runs of the filter, and each theorem at the filter of the registers: vectors of 8, 6, 6 and 6 bits.
use sesc_src.Common.{◌≡◌, refl, true, false, some, List, [], ◌∷◌, arith}
use sesc_src.Bloom.Filter.{Vector, ones, init_masks, get_index, insert, remove, may_exist}
use sesc_src.Bloom.Counts.{
  CountsOf, erase, init_masks-CountsOf, insert-CountsOf, remove-CountsOf, may_exist-CountsOf,
}

program : Unit {0}
unfolding ones init_masks get_index insert remove may_exist
program = tt

abbrev clear : List Vector
clear = init_masks 0 ((8, 256) ∷ (6, 64) ∷ (6, 64) ∷ (6, 64) ∷ [])

abbrev lines : List Vector
lines = insert 0x1234 (insert 0x5678 clear)

absent : may_exist 0x1235 lines ≡ false
unfolding program
absent = refl

lines-CountsOf : CountsOf (0x1234 ∷ 0x5678 ∷ []) lines
lines-CountsOf = insert-CountsOf 0x1234 (0x5678 ∷ []) (insert 0x5678 clear) (
    insert-CountsOf 0x5678 [] clear
      (init_masks-CountsOf 0 ((8, 256) ∷ (6, 64) ∷ (6, 64) ∷ (6, 64) ∷ [])))

remove-CountsOf_example :
    (vs' : List Vector) × (remove 0x5678 lines ≡ some vs')
    × CountsOf (erase 0x5678 (0x1234 ∷ 0x5678 ∷ [])) vs'
remove-CountsOf_example =
    remove-CountsOf 0x5678 (0x1234 ∷ 0x5678 ∷ []) lines lines-CountsOf (omega arith)

may_exist-CountsOf_example : may_exist 0x5678 lines ≡ true
may_exist-CountsOf_example =
    may_exist-CountsOf 0x5678 (0x1234 ∷ 0x5678 ∷ []) lines lines-CountsOf (omega arith)
