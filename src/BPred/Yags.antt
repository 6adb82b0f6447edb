-- ===== src/BPred/Yags.antt =====
-- libcore/BPred: `BPyags`, a table of choices, and two caches of the branches that go against it.
use sesc_src.Common.{ℕ, ◌%◌, ◌^◌, bit_and, Bool, true, false, not, ◌==◌, ◌&&◌, if◌then◌else◌}
use sesc_src.Common.Arrays.{update}
use sesc_src.ScTable.Counters
use sesc_src.ScTable.Counters.{ScTable}
use sesc_src.BPred.Types.{access}
use sesc_src.BPred.TwoLevel.{shift_in, mix}

-- A direction cache: its tags, their masks, and its counters
pub record Side : Type 0 where
  pub tags : ℕ → ℕ
  pub index_mask : ℕ
  pub tag_mask : ℕ
  pub ctable : ScTable

pub record Yags : Type 0 where
  pub history_size : ℕ
  pub history_mask : ℕ
  pub table : ScTable
  pub ghr : ℕ
  pub taken_side : Side
  pub not_taken_side : Side

-- A tag is a `uchar`.
abbrev pub put_tag : Side → ℕ → ℕ → Side
put_tag s index tag = record s { tags = update s.tags index (tag % 2 ^ 8) }

-- The search of one side. On a hit its counters override the choice; on a miss a branch that went
-- against the choice is entered and trained at `missed`.
unfoldable pub search_side : Side → ℕ → ℕ → ℕ → Bool → Bool → Bool → Bool × Side
unfolding access
search_side s index_hist iid missed choice taken do_update =
    let index = bit_and index_hist s.index_mask in
    let tag = bit_and iid s.tag_mask in
    let (out, hit_table) = access s.ctable index_hist taken do_update in
    if s.tags index == tag
    then (out, record (if do_update then put_tag s index tag else s) { ctable = hit_table })
    else if do_update && (if choice then not taken else taken)
    then (
      choice,
      record (put_tag s index tag) {
        ctable = (Counters.predict_and_update s.ctable missed taken).1;
      },
    )
    else (choice, s)

-- `BPyags::predict` up to `ptaken`
unfoldable pub direction_yags : Yags → ℕ → Bool → Bool → Bool × Yags
unfolding search_side access shift_in
direction_yags y iid taken do_update =
    let index_hist = mix y.history_size y.history_mask y.ghr iid in
    let (choice, table) = access y.table iid taken do_update in
    let ghr = if do_update then shift_in y.history_mask y.ghr iid taken else y.ghr in
    let against = search_side y.not_taken_side index_hist iid iid true taken do_update in
    let along = search_side y.taken_side index_hist iid index_hist false taken do_update in
    if choice
    then (against.0, record y { table = table; ghr = ghr; not_taken_side = against.1 })
    else (along.0, record y { table = table; ghr = ghr; taken_side = along.1 })
