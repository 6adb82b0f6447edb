-- ===== src/Smp/State.antt =====
-- libsmp/MESIProtocol.h and SMPCacheState.h: the states of a cache line, their encoding, and the
-- tests that read its bits; libsmp/MESIProtocol.cpp: `changeState` with its assertions.
use sesc_src.Common.{ℕ, Bool, not, Option, none, some, bit_and, ◌==◌, ◌&&◌, ◌||◌, if◌then◌else◌}

pub data MesiState : Type 0 where
  invalid trans_rd trans_rd_mem trans_wr trans_wr_mem trans_rsv trans_inv trans_inv_d : MesiState
  modified exclusive shared : MesiState

-- `enum MESIState_t`
abbrev pub encode : MesiState → ℕ
encode invalid = 0x00000000
encode trans_rd = 0x12000000
encode trans_rd_mem = 0x16000000
encode trans_wr = 0x13000000
encode trans_wr_mem = 0x17000000
encode trans_rsv = 0x14000000
encode trans_inv = 0x18000000
encode trans_inv_d = 0x18000001
encode modified = 0x00300001
encode exclusive = 0x00300010
encode shared = 0x00100100

-- `state & MASK`, as a condition
abbrev pub has_bit : MesiState → ℕ → Bool
has_bit s mask = not (bit_and (encode s) mask == 0)

abbrev pub is_valid : MesiState → Bool
is_valid s = not (encode s == 0)

abbrev pub is_locked : MesiState → Bool
is_locked s = has_bit s 0x10000000

abbrev pub is_dirty : MesiState → Bool
is_dirty s = has_bit s 0x00000001

abbrev pub can_be_read : MesiState → Bool
can_be_read s = has_bit s 0x00100000

abbrev pub can_be_written : MesiState → Bool
can_be_written s = has_bit s 0x00200000

-- The assertions `GI(currentstate == ..., newstate == ...)` of `changeState`, one row each, and
-- `I(newstate != MESI_INVALID)`. There is none for the two states of an invalidation.
abbrev pub legal : MesiState → MesiState → Bool
legal trans_inv new = not (encode new == 0)
legal trans_inv_d new = not (encode new == 0)
legal invalid new = encode new == encode trans_rsv
legal trans_rsv new = encode new == encode trans_rd || encode new == encode trans_wr
legal trans_rd new = encode new == encode shared || encode new == encode trans_rd_mem
legal trans_rd_mem new = encode new == encode exclusive
legal trans_wr new = encode new == encode modified || encode new == encode trans_wr_mem
legal trans_wr_mem new = encode new == encode modified
legal exclusive new =
    encode new == encode shared || encode new == encode modified || encode new == encode trans_inv
legal shared new =
    encode new == encode shared
    || encode new == encode modified
    || encode new == encode trans_inv
    || encode new == encode trans_wr
legal modified new = encode new == encode shared || encode new == encode trans_inv_d

-- `changeState`: the new state of the line, or `none` where an assertion stops the simulator.
abbrev pub change_state : MesiState → MesiState → Option MesiState
change_state l new = if legal l new then some new else none

-- `makeDirty`
abbrev pub make_dirty : MesiState → Option MesiState
make_dirty l = if is_valid l then change_state l modified else none

-- `preInvalidate`
abbrev pub pre_invalidate : MesiState → Option MesiState
pre_invalidate l =
    if is_valid l
    then (if is_dirty l then change_state l trans_inv_d else change_state l trans_inv)
    else none

-- `SMPCacheState::invalidate`: a locked line only at the end of an invalidation; the tag is
-- cleared, so the line is no longer found under its address.
abbrev pub may_invalidate : MesiState → Bool
may_invalidate l = not (is_locked l) || (has_bit l 0x10000000 && has_bit l 0x08000000)
