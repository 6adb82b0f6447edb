-- ===== src/BPred/Tests.antt =====
-- Runs of the predictors, and each theorem at a concrete one: tables of 4 counters of 2 bits, and a
-- buffer of two sets of two ways.
use sesc_src.Common.{ℕ, ◌≡◌, ◌≢◌, refl, Bool, true, false, Option, none, some, arith}
use sesc_src.Cache.Geometry.{Geometry, calc_tag, calc_set4tag, calc_index4set, calc_index4tag}
use sesc_src.Cache.Order.{shift, move_front}
use sesc_src.Cache.Core
use sesc_src.Cache.Core.{lru, create}
use sesc_src.Cache.Sound.{IsSound}
use sesc_src.Cache.Init.{create-IsWellFormed}
use sesc_src.ScTable.Counters
use sesc_src.ScTable.Counters.{ScTable}
use sesc_src.ScTable.Range.{IsTable}
use sesc_src.BPred.Types.{PredType, correct_prediction, miss_prediction, Inst, calc_inst_id, access}
use sesc_src.BPred.Ras.{Ras, predict_ras}
use sesc_src.BPred.Btb.{
  BtbCache, Btb, btb_ops, fill_target, update_only, read_target, predict_btb, resolve,
}
use sesc_src.BPred.Tournament.{Tournament, choose, vote, direction_hybrid, direction_a21264}
use sesc_src.BPred.Predictor.{
  Predictor, two_bit, a21264, direction, conditional, table_predict, predict, BPredictor,
  predict_branch,
}
use sesc_src.BPred.Nested.{done, nested, run, run-IsPredicted}
use sesc_src.BPred.Target.{IsBuffer, predict_btb-predict_btb}
use sesc_src.BPred.Lookup.{SameLines}
use sesc_src.BPred.Pure.{predict_branch-pure}
use sesc_src.BPred.Learn.{predict_times, predict_times-ne-miss}

program : Unit {0}
unfolding predict_branch predict table_predict conditional direction direction_hybrid
    direction_a21264 vote choose access calc_inst_id resolve predict_btb read_target update_only
    fill_target predict_ras Counters.predict Counters.predict_and_update Core.find_line
    Core.fill_line Core.find_line_tag Core.find_line2replace Core.find_line_tag_assoc
    Core.find_line2replace_assoc Core.find_hit Core.scan_set Core.choose Core.take_way create
    move_front shift calc_tag calc_set4tag calc_index4set calc_index4tag run predict_times
program = tt

abbrev branch : Inst
branch = record {
  addr = 0x14;
  current_id = 5;
  next_inst_id = 0x18;
  is_branch = true;
  is_func_ret = false;
  is_func_call = false;
  is_branch_taken = false;
  guess_as_taken = false;
}

abbrev call : ℕ → Inst
call next = record branch { is_func_call = true; is_branch_taken = true; next_inst_id = next }

abbrev ret : Inst
ret = record branch { is_func_ret = true; is_branch_taken = true }

abbrev stack : Ras
stack = record { ras_size = 2; stack = λ i. 0; index = 1 }

-- Two calls, one in the other
run-IsPredicted_example :
    (r' : Ras) × (run (nested (call 8) (nested (call 24) done ret done) ret done) stack
      ≡ some (true, r'))
    × (r'.index ≡ 1)
run-IsPredicted_example =
    run-IsPredicted (nested (call 8) (nested (call 24) done ret done) ret done) stack
      (refl, refl, refl, λ e. ground arith, (refl, refl, refl, λ e. ground arith, tt, tt), tt)
      (omega arith) (omega arith)

-- Three calls that are open at once are one too many for two entries.
abbrev all_predicted : Option (Bool × Ras) → Bool
all_predicted none = true
all_predicted (some (b, r)) = b

overflow :
    all_predicted (
      run
        (nested (call 8) (nested (call 24) (nested (call 40) done ret done) ret done) ret done)
        stack)
    ≡ false
unfolding program
overflow = refl

abbrev small : Geometry
small = record {
  size = 16;
  line_size = 4;
  addr_unit = 1;
  assoc = 2;
  log2_assoc = 1;
  log2_addr_ls = 2;
  mask_assoc = 1;
  sets = 2;
  mask_sets = 1;
  num_lines = 4;
}

small-IsSound : IsSound small
small-IsSound = record {
  log2_sets = 1;
  sets_eq = refl;
  mask_eq = refl;
  assoc_eq = refl;
  lines_eq = refl;
  small = omega arith;
}

abbrev buffer : BtbCache
buffer = create btb_ops small lru (record { tag = 7; payload = 0 })

buffer-IsBuffer : IsBuffer buffer
buffer-IsBuffer =
    let (formed, created) =
      create-IsWellFormed btb_ops small lru (record { tag = 7; payload = 0 }) small-IsSound refl in
    record { formed = formed; created = created }

predict_btb-predict_btb_example :
    (r : PredType) × (b' : Btb) × (b'' : Btb) × (predict_btb (some buffer) branch 0x40 true
      ≡ some (r, b'))
    × (predict_btb b' branch 0x40 false ≡ some (correct_prediction, b''))
unfolding program
predict_btb-predict_btb_example =
    predict_btb-predict_btb buffer buffer-IsBuffer branch 0x40 (λ e. ground arith)
      (λ e. ground arith)

abbrev weak : ScTable
weak = record { size_mask = 3; saturate = 2; max_value = 3; table = λ i. 1 }

weak-IsTable : IsTable 2 1 weak
weak-IsTable = record {
  mask = refl;
  half = refl;
  top = refl;
  byte = omega arith;
  range = λ i l. omega arith;
}

abbrev tables : Tournament
tables = record {
  g_hist_mask = 3;
  l_hist_mask = 3;
  bht_mask = 7;
  m_mask = 3;
  ghr = 1;
  bht = λ i. 2;
  local_table = weak;
  global_table = weak;
  meta_table = weak;
}

abbrev alpha : BPredictor
alpha = record { ras = stack; pred = a21264 tables; btb = some buffer }

abbrev state_of : Option (PredType × BPredictor) → BPredictor
state_of none = alpha
state_of (some (r, s)) = s

predict_branch-pure_example :
    ((state_of (predict_branch alpha branch 0x40 false)).ras ≡ stack)
    × ((state_of (predict_branch alpha branch 0x40 false)).pred ≡ a21264 tables)
    × SameLines 0x14 (some buffer) (state_of (predict_branch alpha branch 0x40 false)).btb
unfolding program
predict_branch-pure_example =
    predict_branch-pure alpha (state_of (predict_branch alpha branch 0x40 false)) branch 0x40
      miss_prediction refl

-- Two taken branches train a weak counter.
abbrev left_by : Option (Predictor × Btb) → Predictor × Btb
left_by none = (two_bit weak, none)
left_by (some s) = s

abbrev told : Predictor × Btb → Option (PredType × Predictor × Btb) → PredType × Predictor × Btb
told s none = (miss_prediction, s.0, s.1)
told s (some a) = a

abbrev trained : Predictor × Btb
trained = left_by (predict_times 2 (two_bit weak) none branch 0x40)

abbrev asked : PredType × Predictor × Btb
asked = told trained (predict trained.0 trained.1 branch 0x40 false)

predict_times-ne-miss_example : asked.0 ≢ miss_prediction
unfolding program
predict_times-ne-miss_example =
    predict_times-ne-miss branch 0x40 refl 2 1 2 weak none trained.1 asked.2 trained.0 asked.1
      asked.0 weak-IsTable (omega arith) refl refl
