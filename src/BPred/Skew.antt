-- ===== src/BPred/Skew.antt =====
-- libcore/BPred: `BP2BcgSkew`, a majority of three tables against the first of them alone.
use sesc_src.Common.{ℕ, ◌+◌, ◌*◌, ◌/◌, ◌^◌, bit_and, bit_or, bit_xor, Bool, not, leb, if◌then◌else◌}
use sesc_src.ScTable.Counters
use sesc_src.ScTable.Counters.{ScTable}
use sesc_src.BPred.Types.{history, differ, bit}

pub record Skew : Type 0 where
  pub bim : ScTable
  pub g0 : ScTable
  pub g0_history_size : ℕ
  pub g0_history_mask : ℕ
  pub g1 : ScTable
  pub g1_history_size : ℕ
  pub g1_history_mask : ℕ
  pub meta_table : ScTable
  pub meta_history_size : ℕ
  pub meta_history_mask : ℕ
  pub past : ℕ

-- `(key & mask) | iID<<size`
abbrev pub skew_index : ℕ → ℕ → ℕ → ℕ → ℕ
skew_index key mask size iid = bit_or (bit_and key mask) (history (iid * 2 ^ size))

abbrev pub meta_index : Skew → ℕ → ℕ
meta_index s iid = skew_index (bit_xor s.past iid) s.meta_history_mask s.meta_history_size iid

abbrev pub g0_index : Skew → ℕ → ℕ
g0_index s iid = skew_index (bit_xor s.past (iid / 4)) s.g0_history_mask s.g0_history_size iid

abbrev pub g1_index : Skew → ℕ → ℕ
g1_index s iid = skew_index (bit_xor s.past (iid / 16)) s.g1_history_mask s.g1_history_size iid

abbrev pub majority : Bool → Bool → Bool → Bool
majority a b c = leb 2 (bit a + bit b + bit c)

-- `table.predict(cid, taken)` under a condition
abbrev pub train_if : Bool → ScTable → ℕ → Bool → ScTable
train_if b t cid taken = if b then (Counters.predict_and_update t cid taken).1 else t

-- The tables after a wrong prediction: all learn, and the chooser learns whether the first is right.
unfoldable pub learn_miss : Skew → ℕ → Bool → Skew
learn_miss s iid taken =
    let bim = (Counters.predict_and_update s.bim iid taken).1 in
    let g0 = (Counters.predict_and_update s.g0 (g0_index s iid) taken).1 in
    let g1 = (Counters.predict_and_update s.g1 (g1_index s iid) taken).1 in
    let bim_out = Counters.predict bim iid in
    let gskew_out =
      majority (Counters.predict g0 (g0_index s iid)) (Counters.predict g1 (g1_index s iid))
        bim_out in
    record s {
      bim = bim;
      g0 = g0;
      g1 = g1;
      meta_table =
          if differ bim_out gskew_out
          then (Counters.predict_and_update s.meta_table (meta_index s iid)
              (not (differ bim_out taken))).1
          else Counters.reset s.meta_table (meta_index s iid) (not (differ bim_out taken));
    }

-- The tables after a right prediction: those that voted for it learn, and the history moves on.
unfoldable pub learn_hit : Skew → ℕ → Bool → Bool → Bool → Bool → Bool → Skew
learn_hit s iid taken meta_out bim_out g0_out g1_out = record s {
  bim =
      if meta_out
      then (Counters.predict_and_update s.bim iid taken).1
      else train_if (not (differ bim_out taken)) s.bim iid taken;
  g0 = if meta_out then s.g0 else train_if (not (differ g0_out taken)) s.g0 (g0_index s iid) taken;
  g1 = if meta_out then s.g1 else train_if (not (differ g1_out taken)) s.g1 (g1_index s iid) taken;
  meta_table =
      train_if (differ bim_out (majority g0_out g1_out bim_out)) s.meta_table (meta_index s iid)
        (not (differ bim_out taken));
  past = bit_or (history (s.past * 2)) (bit_xor (bit_and (iid / 4) 1) (bit taken));
}

-- `BP2BcgSkew::predict` without the target buffer: `ptaken`, and the tables after it.
unfoldable pub direction_skew : Skew → ℕ → Bool → Bool → Bool × Skew
unfolding learn_miss learn_hit
direction_skew s iid taken do_update =
    let meta_out = Counters.predict s.meta_table (meta_index s iid) in
    let bim_out = Counters.predict s.bim iid in
    let g0_out = Counters.predict s.g0 (g0_index s iid) in
    let g1_out = Counters.predict s.g1 (g1_index s iid) in
    let ptaken = if meta_out then bim_out else majority g0_out g1_out bim_out in
    (
      ptaken,
      if not do_update
          then s
          else if differ ptaken taken
          then learn_miss s iid taken
          else learn_hit s iid taken meta_out bim_out g0_out g1_out,
    )
