-- ===== src/Smp/Request.antt =====
-- libsmp/SMPMemRequest.h and .cpp: the request that travels on the bus. An object of the hierarchy
-- (`MemObj *`) is its number among the caches.
use sesc_src.Common.{ℕ, Bool, true, false, not, Option, none}
use sesc_src.Smp.State.{MesiState, invalid}

-- `enum MemOperation` (libcore/MemRequest.h)
pub data MemOp : Type 0 where
  mem_read mem_write mem_push mem_read_w : MemOp

-- `MemRequest::mutateWriteToRead` on the operation
abbrev pub mutate_write_to_read : MemOp → MemOp
mutate_write_to_read mem_write = mem_read_w
mutate_write_to_read op = op

abbrev pub is_push : MemOp → Bool
is_push mem_push = true
is_push _ = false

pub record Sreq : Type 0 where
  pub mem_op : MemOp
  pub state : MesiState
  pub requestor : ℕ
  pub supplier : Option ℕ
  pub found : Bool
  pub need_snoop : Bool
  pub need_data : Bool
  pub write_down : Bool

-- `create(mreq, reqCache, sendData)`
abbrev pub create : MemOp → ℕ → Bool → Sreq
create op req_cache send_data = record {
  mem_op = op;
  state = invalid;
  requestor = req_cache;
  supplier = none;
  found = false;
  need_snoop = not (is_push op);
  need_data = send_data;
  write_down = false;
}

-- `noSnoop`
abbrev pub no_snoop : Sreq → Sreq
no_snoop q = record q { need_snoop = false }
