-- ===== src/ScTable/Learning.antt =====
-- A counter learns the direction that it is trained with.
use sesc_src.Common.{
  ℕ, zero, suc, ◌+◌, ◌-◌, ◌*◌, ◌^◌, ◌≤◌, ◌<◌, ◌≡◌, sym, bit_and, Bool, true, false, min, arith,
}
use sesc_src.Common.Arrays.{update_self}
use sesc_src.Common.Bits.{bit_and_mask_lt}
use sesc_src.ScTable.Counters.{ScTable, slot, counted, train, predict}
use sesc_src.ScTable.Range.{IsTable, operations-IsTable}
use native.Mathlib.Nat.{one-le-pow}
use mathlib.Core.Path.{subst}

-- `update(cid, taken)` called `n` times
unfoldable pub train_times : ℕ → ScTable → ℕ → Bool → ScTable
train_times zero t cid taken = t
train_times (suc n) t cid taken = train_times n (train t cid taken) cid taken

-- The counter of a branch
abbrev pub counter : ScTable → ℕ → ℕ
counter t cid = t.table (slot t cid)

train-counter :
    (t : ScTable) (cid : ℕ) (taken : Bool)
    → counter (train t cid taken) cid ≡ counted t (counter t cid) taken
unfolding train
train-counter t cid taken = update_self t.table (slot t cid) (counted t (counter t cid) taken)

counter-le : (log b : ℕ) (t : ScTable) (cid : ℕ) → IsTable log b t → counter t cid ≤ t.max_value
counter-le log b t cid w =
    w.range (slot t cid)
      (subst (λ m. bit_and cid m < 2 ^ log) (sym w.mask) (bit_and_mask_lt log cid))

train_times-IsTable :
    (log b n : ℕ) (t : ScTable) (cid : ℕ) (taken : Bool)
    → IsTable log b t
    → IsTable log b (train_times n t cid taken)
unfolding train_times
train_times-IsTable log b zero t cid taken w = w
train_times-IsTable log b (suc n) t cid taken w =
    let (_, _, w', _) = operations-IsTable log b t cid taken w in
    train_times-IsTable log b n (train t cid taken) cid taken w'

train_times-taken :
    (log b n : ℕ) (t : ScTable) (cid : ℕ)
    → IsTable log b t
    → min (n + counter t cid) (2 * 2 ^ b - 1) ≤ counter (train_times n t cid true) cid
unfolding train_times
train_times-taken log b zero t cid w = omega arith
train_times-taken log b (suc n) t cid w =
    let (_, _, w', _) = operations-IsTable log b t cid true w in
    let one = train-counter t cid true in
    let le = counter-le log b t cid w in
    let top = w.top in
    let byte = w.byte in
    let rest = train_times-taken log b n (train t cid true) cid w' in ground arith

train_times-not_taken :
    (log b n : ℕ) (t : ScTable) (cid : ℕ)
    → IsTable log b t
    → counter (train_times n t cid false) cid ≤ counter t cid - n
unfolding train_times
train_times-not_taken log b zero t cid w = omega arith
train_times-not_taken log b (suc n) t cid w =
    let (_, _, w', _) = operations-IsTable log b t cid false w in
    let one = train-counter t cid false in
    let rest = train_times-not_taken log b n (train t cid false) cid w' in ground arith

-- In a table in range, whatever the counters hold, the counter of a branch that is trained 2^b times
-- or more in one direction, where a counter has b + 1 bits, predicts that direction.
pub train_times-predict :
    (log b n : ℕ) (t : ScTable) (cid : ℕ) (taken : Bool)
    → IsTable log b t
    → 2 ^ b ≤ n
    → predict (train_times n t cid taken) cid ≡ taken
unfolding predict
train_times-predict log b n t cid true w h =
    let up = train_times-taken log b n t cid w in
    let half = (train_times-IsTable log b n t cid true w).half in ground arith
train_times-predict log b n t cid false w h =
    let down = train_times-not_taken log b n t cid w in
    let le = counter-le log b t cid w in
    let top = w.top in
    let half = (train_times-IsTable log b n t cid false w).half in
    let pos = one-le-pow b 2 in ground arith
