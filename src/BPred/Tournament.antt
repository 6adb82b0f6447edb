-- ===== src/BPred/Tournament.antt =====
-- libcore/BPred: `BPHybrid` and `BPA21264`, a global and a local predictor and the table that chooses
-- between them.
use sesc_src.Common.{
  ℕ, ◌*◌, ◌/◌, bit_and, bit_or, Bool, true, false, not, Option, none, some, leb, ◌&&◌,
  if◌then◌else◌,
}
use sesc_src.Common.Arrays.{update}
use sesc_src.ScTable.Counters
use sesc_src.ScTable.Counters.{ScTable}
use sesc_src.BPred.Types.{Inst, calc_inst_id, history, differ, bit, access}

pub record Tournament : Type 0 where
  pub g_hist_mask : ℕ
  pub l_hist_mask : ℕ
  pub bht_mask : ℕ
  pub m_mask : ℕ
  pub ghr : ℕ
  pub bht : ℕ → ℕ
  pub local_table : ScTable
  pub global_table : ScTable
  pub meta_table : ScTable

-- `(h << 1) | (taken ? 1 : 0)`
abbrev pub append : ℕ → Bool → ℕ
append h taken = bit_or (history (h * 2)) (bit taken)

-- `metaOut`: the table learns which of the two predictors was right where one was wrong.
unfoldable pub choose : ScTable → ℕ → Bool → Bool → Bool → Bool → Bool × ScTable
choose t cid do_update global_taken local_taken taken =
    if not do_update
    then (Counters.predict t cid, t)
    else if not (differ global_taken taken) && differ local_taken taken
    then Counters.predict_and_update t cid false
    else if differ global_taken taken && not (differ local_taken taken)
    then Counters.predict_and_update t cid true
    else (Counters.predict t cid, t)

-- The three tables at a branch, whose histories are already stored in `t`.
unfoldable pub vote : Tournament → ℕ → ℕ → ℕ → Bool → Bool → Bool × Tournament
unfolding access choose
vote t global_index local_index meta_index taken do_update =
    let (global_taken, global) = access t.global_table global_index taken do_update in
    let (local_taken, local) = access t.local_table local_index taken do_update in
    let (meta_out, chooser) =
      choose t.meta_table meta_index do_update global_taken local_taken taken in
    (
      if meta_out then local_taken else global_taken,
      record t { global_table = global; local_table = local; meta_table = chooser },
    )

-- `BPHybrid::predict` up to `ptaken`
unfoldable pub direction_hybrid : Tournament → Inst → Bool → Bool → Bool × Tournament
unfolding vote
direction_hybrid t inst taken do_update =
    let iid = inst.addr / 4 in
    let l1 = bit_and iid t.bht_mask in
    let l2 = bit_and (t.bht l1) t.l_hist_mask in
    let stored =
      if do_update
      then record t { ghr = append t.ghr taken; bht = update t.bht l1 (append (t.bht l1) taken) }
      else t in
    vote stored (bit_and t.ghr t.g_hist_mask) l2 (bit_and iid t.m_mask) taken do_update

-- `BPA21264::predict` up to `ptaken`; the write to `bht[localL2Index]` outside of the `bhtSize`
-- entries is undefined: `none`.
unfoldable pub direction_a21264 : Tournament → Inst → Bool → Bool → Option (Bool × Tournament)
unfolding vote calc_inst_id
direction_a21264 t inst taken do_update =
    let iid = calc_inst_id inst in
    let l2 = bit_and (t.bht (bit_and iid t.bht_mask)) t.l_hist_mask in
    let global_index = bit_and t.ghr t.g_hist_mask in
    let stored = record t {
      ghr = append t.ghr taken;
      bht = update t.bht l2 (append (t.bht l2) taken);
    } in
    if not do_update
    then some (vote t global_index l2 (bit_and iid t.m_mask) taken do_update)
    else if leb l2 t.bht_mask
    then some (vote stored global_index l2 (bit_and iid t.m_mask) taken do_update)
    else none
