-- ===== src/BPred/Types.antt =====
-- libcore/BPred.h: the outcome of a prediction, and what the predictors read of an instruction. A
-- `HistoryType` has 64 bits. The energy and hit counters are left out.
use sesc_src.Common.{ℕ, ◌%◌, ◌^◌, ◌/◌, Bool, true, false, bit_xor, Option, none, some}
use sesc_src.ScTable.Counters
use sesc_src.ScTable.Counters.{ScTable}

pub data PredType : Type 0 where
  correct_prediction no_prediction no_btb_prediction miss_prediction : PredType

-- The members of `Instruction` that the predictors call: `getAddr`, `currentID`, `calcNextInstID`,
-- `isBranch`, `isFuncRet`, `isFuncCall`, `isBranchTaken` (an unconditional jump), `guessAsTaken`.
pub record Inst : Type 0 where
  pub addr : ℕ
  pub current_id : ℕ
  pub next_inst_id : ℕ
  pub is_branch : Bool
  pub is_func_ret : Bool
  pub is_func_call : Bool
  pub is_branch_taken : Bool
  pub guess_as_taken : Bool

abbrev pub history : ℕ → ℕ
history n = n % 2 ^ 64

-- `calcInstID`
unfoldable pub calc_inst_id : Inst → ℕ
calc_inst_id i = bit_xor (i.current_id / 2 ^ 17) i.current_id

-- `a != b` and `a == b` on `bool`
abbrev pub differ : Bool → Bool → Bool
differ true true = false
differ true false = true
differ false true = true
differ false false = false

-- `I(b)`: an assertion that fails stops the simulator.
abbrev pub check {ℓ} : {A : Type ℓ} → Bool → A → Option A
check true a = some a
check false a = none

-- `taken?1:0`
abbrev pub bit : Bool → ℕ
bit true = 1
bit false = 0

-- `if (doUpdate) table.predict(cid, taken) else table.predict(cid)`
unfoldable pub access : ScTable → ℕ → Bool → Bool → Bool × ScTable
access t cid taken true = Counters.predict_and_update t cid taken
access t cid taken false = (Counters.predict t cid, t)
