-- ===== src/BPred/TwoLevel.antt =====
-- libcore/BPred: `BP2level`, a table of local histories that index a table of counters.
use sesc_src.Common.{ℕ, ◌*◌, ◌/◌, ◌%◌, ◌^◌, bit_and, bit_or, bit_xor, Bool, if◌then◌else◌}
use sesc_src.Common.Arrays.{update}
use sesc_src.ScTable.Counters.{ScTable}
use sesc_src.BPred.Types.{history, bit, access}

pub record TwoLevel : Type 0 where
  pub l1_size_mask : ℕ
  pub history_size : ℕ
  pub history_mask : ℕ
  pub global_table : ScTable
  pub history_table : ℕ → ℕ

-- `l1Index`, a `ushort`
abbrev pub l1_index : TwoLevel → ℕ → ℕ
l1_index t iid = bit_and iid t.l1_size_mask % 2 ^ 16

-- The history after a branch
unfoldable pub shift_in : ℕ → ℕ → ℕ → Bool → ℕ
shift_in mask h iid taken =
    bit_and (bit_or (history (h * 2)) (bit_xor (bit_and (iid / 4) 1) (bit taken))) mask

-- `((l2Index ^ iID) & historyMask) | (iID<<historySize)`
abbrev pub mix : ℕ → ℕ → ℕ → ℕ → ℕ
mix size mask h iid = bit_or (bit_and (bit_xor h iid) mask) (history (iid * 2 ^ size))

-- `BP2level::predict` up to `ptaken`
unfoldable pub direction_two_level : TwoLevel → ℕ → Bool → Bool → Bool × TwoLevel
unfolding access shift_in
direction_two_level t iid taken do_update =
    let h = t.history_table (l1_index t iid) in
    let (ptaken, table) =
      access t.global_table (mix t.history_size t.history_mask h iid) taken do_update in
    (
      ptaken,
      record t {
        global_table = table;
        history_table =
            if do_update
            then update t.history_table (l1_index t iid) (shift_in t.history_mask h iid taken)
            else t.history_table;
      },
    )
