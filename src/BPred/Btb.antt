-- ===== src/BPred/Btb.antt =====
-- libcore/BPred: `BPBTB`, the branch target buffer, a `CacheGeneric` whose lines hold a target, and
-- the end that the predictors share.
use sesc_src.Common.{ℕ, Bool, not, Option, none, some, ◌==◌, ◌||◌, if◌then◌else◌}
use sesc_src.Common.Arrays.{update}
use sesc_src.Cache.Line.{LineOps, StateGeneric, generic_ops}
use sesc_src.Cache.Geometry.{calc_tag}
use sesc_src.Cache.Core
use sesc_src.Cache.Core.{Cache}
use sesc_src.BPred.Types.{
  PredType, correct_prediction, no_btb_prediction, miss_prediction, Inst, differ, check,
}

-- `BTBState` is a `StateGeneric` with the target `inst`.
abbrev pub BtbCache : Type 0
BtbCache = Cache (StateGeneric ℕ)

abbrev pub btb_ops : LineOps (StateGeneric ℕ)
btb_ops = generic_ops

-- `data`, a null pointer for a perfect buffer
abbrev pub Btb : Type 0
Btb = Option BtbCache

-- `cl->inst = oracleID`
abbrev pub set_inst : BtbCache → ℕ → ℕ → BtbCache
set_inst c line oracle = record c {
  mem = update c.mem line (record (c.mem line) { payload = oracle });
}

-- `fillLine(key)`, the target that the line held, and the new target in it; `I(cl)`. `setTag` in
-- `fillLine` asserts that the tag is not 0.
unfoldable pub fill_target : BtbCache → ℕ → ℕ → Option (ℕ × BtbCache)
fill_target c key oracle =
    let (found, c') = Core.fill_line btb_ops c key in
    elim found [
      | none ↦ none
      | some line ↦
          check (not (calc_tag c.geometry key == 0))
            ((c'.mem line).payload, set_inst c' line oracle)
    ]

-- `updateOnly`
unfoldable pub update_only : Btb → Inst → ℕ → Option Btb
unfolding fill_target
update_only none inst oracle = some none
update_only (some c) inst oracle =
    if inst.next_inst_id == oracle
    then some (some c)
    else elim (fill_target c inst.addr oracle) [ none ↦ none | some (old, c') ↦ some (some c') ]

-- `readLine(key)`, which asserts that the line found is valid, and the comparison of its target
unfoldable pub read_target : BtbCache → ℕ → ℕ → Option (PredType × Btb)
read_target c key oracle =
    let (found, c') = Core.find_line btb_ops c key in
    elim found [
      | none ↦ some (no_btb_prediction, some c')
      | some line ↦ check (btb_ops.is_valid (c'.mem line)) (
        if (c'.mem line).payload == oracle then correct_prediction else no_btb_prediction,
        some c',
      )
    ]

-- `BPBTB::predict`
unfoldable pub predict_btb : Btb → Inst → ℕ → Bool → Option (PredType × Btb)
unfolding fill_target read_target
predict_btb none inst oracle do_update =
    check (not (oracle == 0))
      (if inst.next_inst_id == oracle then no_btb_prediction else correct_prediction, none)
predict_btb (some c) inst oracle do_update =
    if inst.next_inst_id == oracle || not do_update
    then read_target c inst.addr oracle
    else elim (fill_target c inst.addr oracle) [
      | none ↦ none
      | some (old, c') ↦
          some (if old == oracle then correct_prediction else no_btb_prediction, some c')
    ]

-- The end of a predictor: on a wrong direction the target is stored, on a right one the buffer is
-- asked if the branch is predicted taken.
unfoldable pub resolve : Btb → Inst → ℕ → Bool → Bool → Bool → Option (PredType × Btb)
unfolding update_only predict_btb
resolve b inst oracle do_update taken ptaken =
    if differ taken ptaken
    then (if do_update
        then elim (update_only b inst oracle) [ none ↦ none | some b' ↦ some (miss_prediction, b') ]
        else some (miss_prediction, b))
    else if ptaken
    then predict_btb b inst oracle do_update
    else some (correct_prediction, b)
