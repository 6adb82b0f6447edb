-- ===== src/BPred/Predictor.antt =====
-- libcore/BPred: the classes derived from `BPred` as one data type, their `predict` by clauses, and
-- `BPredictor`, which asks the return address stack first.
use sesc_src.Common.{ℕ, Bool, true, false, not, Option, none, some, ◌==◌, if◌then◌else◌}
use sesc_src.ScTable.Counters.{ScTable}
use sesc_src.BPred.Types.{
  PredType, correct_prediction, no_prediction, miss_prediction, Inst, calc_inst_id, access,
}
use sesc_src.BPred.Ras.{Ras, predict_ras}
use sesc_src.BPred.Btb.{Btb, predict_btb, resolve}
use sesc_src.BPred.TwoLevel.{TwoLevel, direction_two_level}
use sesc_src.BPred.Tournament.{Tournament, direction_hybrid, direction_a21264}
use sesc_src.BPred.Skew.{Skew, direction_skew}
use sesc_src.BPred.Yags.{Yags, direction_yags}

pub data Predictor : Type 0 where
  oracle always_taken never_taken static_guess : Predictor
  two_bit : ScTable → Predictor
  two_level : TwoLevel → Predictor
  hybrid : Tournament → Predictor
  a21264 : Tournament → Predictor
  skewed : Skew → Predictor
  yags : Yags → Predictor

-- `inst->calcNextInstID() != oracleID`
abbrev pub is_taken : Inst → ℕ → Bool
is_taken inst target = not (inst.next_inst_id == target)

-- The direction that a predictor with tables gives to a conditional branch, and its tables after it.
unfoldable pub direction : Predictor → Inst → ℕ → Bool → Option (Bool × Predictor)
unfolding access direction_two_level direction_hybrid direction_a21264 direction_skew direction_yags
    calc_inst_id
direction (two_bit t) inst target do_update =
    let (ptaken, t') = access t (calc_inst_id inst) (is_taken inst target) do_update in
    some (ptaken, two_bit t')
direction (two_level t) inst target do_update =
    let (ptaken, t') = direction_two_level t (calc_inst_id inst) (is_taken inst target) do_update in
    some (ptaken, two_level t')
direction (hybrid t) inst target do_update =
    let (ptaken, t') = direction_hybrid t inst (is_taken inst target) do_update in
    some (ptaken, hybrid t')
direction (a21264 t) inst target do_update =
    elim (direction_a21264 t inst (is_taken inst target) do_update) [
      | none ↦ none
      | some (ptaken, t') ↦ some (ptaken, a21264 t')
    ]
direction (skewed s) inst target do_update =
    let (ptaken, s') = direction_skew s (calc_inst_id inst) (is_taken inst target) do_update in
    some (ptaken, skewed s')
direction (yags y) inst target do_update =
    let (ptaken, y') = direction_yags y (calc_inst_id inst) (is_taken inst target) do_update in
    some (ptaken, yags y')
direction static_guess inst target do_update = some (inst.guess_as_taken, static_guess)
direction p inst target do_update = none

-- The buffer's answer with the predictor as it is
abbrev pub beside : Predictor → Option (PredType × Btb) → Option (PredType × Predictor × Btb)
beside p none = none
beside p (some (r, b)) = some (r, p, b)

-- A predictor with tables: a jump asks the buffer alone.
unfoldable pub conditional : Predictor → Btb → Inst → ℕ → Bool → Option (PredType × Predictor × Btb)
unfolding direction resolve
conditional p b inst target do_update = elim (direction p inst target do_update) [
  | none ↦ none
  | some (ptaken, p') ↦ beside p' (resolve b inst target do_update (is_taken inst target) ptaken)
]

unfoldable pub table_predict :
    Predictor → Btb → Inst → ℕ → Bool → Option (PredType × Predictor × Btb)
unfolding conditional predict_btb
table_predict p b inst target do_update =
    if inst.is_branch_taken
    then beside p (predict_btb b inst target do_update)
    else conditional p b inst target do_update

-- `predict` of the classes
unfoldable pub predict : Predictor → Btb → Inst → ℕ → Bool → Option (PredType × Predictor × Btb)
unfolding conditional table_predict predict_btb
predict oracle b inst target do_update =
    if is_taken inst target
    then beside oracle (predict_btb b inst target do_update)
    else some (correct_prediction, oracle, b)
predict always_taken b inst target do_update =
    if is_taken inst target
    then beside always_taken (predict_btb b inst target do_update)
    else some (miss_prediction, always_taken, b)
predict never_taken b inst target do_update =
    some (if is_taken inst target then miss_prediction else correct_prediction, never_taken, b)
predict static_guess b inst target do_update = conditional static_guess b inst target do_update
predict (two_bit t) b inst target do_update = table_predict (two_bit t) b inst target do_update
predict (two_level t) b inst target do_update = table_predict (two_level t) b inst target do_update
predict (hybrid t) b inst target do_update = table_predict (hybrid t) b inst target do_update
predict (a21264 t) b inst target do_update = table_predict (a21264 t) b inst target do_update
predict (skewed s) b inst target do_update = table_predict (skewed s) b inst target do_update
predict (yags y) b inst target do_update = table_predict (yags y) b inst target do_update

-- `BPredictor`: one predictor and its buffer, and the stack
pub record BPredictor : Type 0 where
  pub ras : Ras
  pub pred : Predictor
  pub btb : Btb

-- Does the stack leave the instruction to the predictor?
abbrev pub is_no_prediction : PredType → Bool
is_no_prediction no_prediction = true
is_no_prediction _ = false

-- `BPredictor::predict`; `I(inst->isBranch())`
unfoldable pub predict_branch : BPredictor → Inst → ℕ → Bool → Option (PredType × BPredictor)
unfolding predict predict_ras
predict_branch s inst target do_update =
    if not inst.is_branch then none else elim (predict_ras s.ras inst target do_update) [
      | none ↦ none
      | some (r, ras) ↦
          if is_no_prediction r
          then elim (predict s.pred s.btb inst target do_update) [
            | none ↦ none
            | some (r', pred, btb) ↦ some (r', record { ras = ras; pred = pred; btb = btb })
          ]
          else some (r, record s { ras = ras })
    ]
