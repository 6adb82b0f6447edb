-- ===== src/BPred/Ras.antt =====
-- libcore/BPred: `BPRas`, the return address stack, a ring that overwrites its oldest entry.
use sesc_src.Common.{ℕ, ◌+◌, ◌-◌, Bool, not, Option, some, ◌==◌, leb, ltb, ◌&&◌, if◌then◌else◌}
use sesc_src.Common.Arrays.{update}
use sesc_src.BPred.Types.{PredType, correct_prediction, no_prediction, miss_prediction, Inst, check}

-- `stack` is a null pointer exactly if `RasSize` is 0.
pub record Ras : Type 0 where
  pub ras_size : ℕ
  pub stack : ℕ → ℕ
  pub index : ℕ

-- `index--; if (index < 0) index = RasSize-1;`
abbrev pub pop_index : Ras → ℕ
pop_index r = if r.index == 0 then r.ras_size - 1 else r.index - 1

-- `stack[index] = inst->calcNextInstID(); index++; if (index >= RasSize) index = 0;`
abbrev pub push_call : Ras → ℕ → Ras
push_call r next = record r {
  stack = update r.stack r.index next;
  index = if leb r.ras_size (r.index + 1) then 0 else r.index + 1;
}

-- `BPRas::predict`; a read or a write of `stack[index]` outside of the stack is `none`, as a failing
-- assertion is.
unfoldable pub predict_ras : Ras → Inst → ℕ → Bool → Option (PredType × Ras)
predict_ras r inst oracle do_update =
    if inst.is_func_ret
    then (if r.ras_size == 0
        then some (correct_prediction, r)
        else let r' = if do_update then record r { index = pop_index r } else r in
          check (not (oracle == 0) && ltb r'.index r.ras_size)
            (if r'.stack r'.index == oracle then correct_prediction else miss_prediction, r'))
    else if inst.is_func_call && not (r.ras_size == 0) && do_update
    then check (ltb r.index r.ras_size) (no_prediction, push_call r inst.next_inst_id)
    else some (no_prediction, r)
