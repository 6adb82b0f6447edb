-- ===== src/Smp/Protocol.antt =====
-- libsmp/MESIProtocol.cpp and the parts of SMPCache.cpp that its handlers call, at one line. The
-- line of a cache is `none` when no line has the address's tag (`getLine` returns null). Where an
-- assertion of the source fails the simulator stops, and the result is `none`.
use sesc_src.Common.{ℕ, Bool, true, false, not, Option, none, some, ◌==◌, ◌&&◌, ◌||◌, if◌then◌else◌}
use sesc_src.Smp.State.{
  MesiState, invalid, trans_rd, trans_rd_mem, trans_wr, trans_wr_mem, trans_rsv, modified,
  exclusive, shared, trans_inv, trans_inv_d, encode, is_valid, is_locked, is_dirty, change_state,
  pre_invalidate, may_invalidate,
}
use sesc_src.Smp.Request.{
  MemOp, mem_read, mem_write, mem_push, mem_read_w, mutate_write_to_read, Sreq, create, no_snoop,
}

infixl 5 ◌>>=◌
abbrev pub ◌>>=◌ {ℓ κ} : {A : Type ℓ} {B : Type κ} → Option A → (A → Option B) → Option B
none >>= f = none
some a >>= f = f a

-- `I(b)`
abbrev pub check {ℓ} : {A : Type ℓ} → Bool → A → Option A
check true a = some a
check false a = none

abbrev pub is_some {ℓ} : {A : Type ℓ} → Option A → Bool
is_some none = false
is_some (some a) = true

-- `s == t` on states
abbrev pub is_state : MesiState → MesiState → Bool
is_state s t = encode s == encode t

-- `sreq->getSupplier() == pCache`
abbrev pub supplied_by : ℕ → Option ℕ → Bool
supplied_by id none = false
supplied_by id (some j) = j == id

-- `combineResponses`, at the cache `id`.
unfoldable pub combine_responses : ℕ → Sreq → MesiState → Option Sreq
combine_responses id q local =
    if is_state local invalid || is_locked local
    then some q
    else if is_state q.state exclusive || is_state q.state modified
    then none
    else if is_state local shared
    then some (if q.found then q else record q { found = true; supplier = some id; state = shared })
    else if is_state local exclusive
    then some (record q { found = true; supplier = some id; state = exclusive })
    else if is_state local modified
    then some (record q { found = true; supplier = some id; state = modified; write_down = true })
    else none

-- What a snooped cache does with a request: its line, the request, the write-backs that it sends,
-- and whether the answer goes to the bus now or after the invalidation of the upper levels.
pub record Reply : Type 0 where
  pub line : Option MesiState
  pub sreq : Sreq
  pub write_backs : ℕ
  pub answered : Bool

-- `respondBelow`: the supplier writes the line back if the protocol says so.
abbrev pub respond_below : ℕ → Option MesiState → Sreq → Reply
respond_below id l q = record {
  line = l;
  sreq = q;
  write_backs = if supplied_by id q.supplier && q.write_down then 1 else 0;
  answered = true;
}

-- `if(l && !l->isLocked())`
abbrev pub unlocked : Option MesiState → Option MesiState
unlocked none = none
unlocked (some s) = if is_locked s then none else some s

-- `readMissHandler`
unfoldable pub read_miss_handler : ℕ → Option MesiState → Sreq → Option Reply
unfolding combine_responses
read_miss_handler id l q = elim (unlocked l) [
  | none ↦ some (respond_below id l q)
  | some s ↦ do
    q' ← combine_responses id q s
    s' ← change_state s shared
    some (respond_below id (some s') q')
]

abbrev pub is_invalidating : MesiState → Bool
is_invalidating l = is_state l trans_inv || is_state l trans_inv_d

-- `invalidateLine` up to the call of the upper levels: `preInvalidate`. In the operations modelled
-- here `pendInvTable` has an entry for the line only from a `preInvalidate` until the upper levels have
-- answered, and all that time the line is in one of the two states of an invalidation. So
-- `I(pendInvTable.find(addr) == end)` holds if the line is in neither, which is what is checked.
abbrev pub invalidate_line : MesiState → Sreq → Option Reply
invalidate_line s q = if is_invalidating s then none else do
  s' ← pre_invalidate s
  some (record { line = some s'; sreq = q; write_backs = 0; answered = false })

-- The cache whose invalidation will write the line back clears the request's flag.
abbrev pub keep_one_write_back : ℕ → Sreq → Sreq
keep_one_write_back id q =
    if supplied_by id q.supplier && q.write_down then record q { write_down = false } else q

-- `writeMissHandler`; `invalidateHandler` differs in the callback only.
unfoldable pub write_miss_handler : ℕ → Option MesiState → Sreq → Option Reply
unfolding combine_responses
write_miss_handler id l q = elim (unlocked l) [
  | none ↦ some (respond_below id l q)
  | some s ↦ do q' ← combine_responses id q s; invalidate_line s (keep_one_write_back id q')
]

unfoldable pub invalidate_handler : ℕ → Option MesiState → Sreq → Option Reply
unfolding combine_responses
invalidate_handler id l q = elim (unlocked l) [
  | none ↦ some (respond_below id l q)
  | some s ↦ do q' ← combine_responses id q s; invalidate_line s (keep_one_write_back id q')
]

-- `realInvalidate`, when the upper levels have answered: a dirty line is written back.
unfoldable pub real_invalidate : Option MesiState → Option (Option MesiState × ℕ)
real_invalidate none = some (none, 0)
real_invalidate (some s) =
    check (is_valid s && may_invalidate s) (none, if is_dirty s then 1 else 0)

-- `SMPCache::doReceiveFromBelow`
unfoldable pub receive_from_below : ℕ → Option MesiState → Sreq → Option Reply
unfolding read_miss_handler write_miss_handler invalidate_handler
receive_from_below id l q = elim q.mem_op [
  | mem_read ↦ read_miss_handler id l q
  | mem_read_w ↦ if q.need_data then write_miss_handler id l q else invalidate_handler id l q
  | mem_write ↦ if q.need_data then none else invalidate_handler id l q
  | mem_push ↦ none
]

-- `read` with `doRead`, for a line that is not in the cache (`allocateLine` returned one) or is:
-- the state of the line, and the request sent below.
unfoldable pub read : ℕ → Option MesiState → Option (MesiState × Sreq)
read id none = do
  s ← change_state invalid trans_rsv
  s' ← change_state s trans_rd
  some (s', create mem_read id true)
read id (some l) = if is_locked l then none else do
  s ← change_state l trans_rsv
  s' ← change_state s trans_rd
  some (s', create mem_read id true)

-- `write` with `doWrite`.
unfoldable pub write : ℕ → MemOp → Option MesiState → Option (MesiState × Sreq)
write id op none = do
  s ← change_state invalid trans_rsv
  s' ← change_state s trans_wr
  some (s', create (mutate_write_to_read op) id true)
write id op (some l) =
    if is_locked l || not (is_state l shared)
    then none
    else do s ← change_state l trans_wr; some (s, create op id false)

-- What an acknowledgement at the requestor leads to.
pub data Outcome : Type 0 where
  to_memory : MesiState → Sreq → Outcome
  concluded : MesiState → Outcome

-- `readMissAckHandler`
unfoldable pub read_miss_ack_handler : Option MesiState → Sreq → Option Outcome
read_miss_ack_handler none q = none
read_miss_ack_handler (some l) q =
    if is_state q.state invalid && is_state l trans_rd
    then (if q.found
        then none
        else do s ← change_state l trans_rd_mem; some (to_memory s (no_snoop q)))
    else if is_state q.state invalid
    then (if is_state l trans_rd_mem
        then (do s ← change_state l exclusive; some (concluded s))
        else none)
    else if is_state l trans_rd
    then (do s ← change_state l shared; some (concluded s))
    else none

-- `writeMissAckHandler`
unfoldable pub write_miss_ack_handler : Option MesiState → Sreq → Option Outcome
write_miss_ack_handler none q = none
write_miss_ack_handler (some l) q =
    if not q.need_data
    then none
    else if is_state q.state invalid && is_state l trans_wr
    then (if q.found
        then none
        else do s ← change_state l trans_wr_mem; some (to_memory s (no_snoop q)))
    else if is_state l trans_wr || is_state l trans_wr_mem
    then (do s ← change_state l modified; some (concluded s))
    else none

-- `invalidateAckHandler`
unfoldable pub invalidate_ack_handler : Option MesiState → Sreq → Option Outcome
invalidate_ack_handler none q = none
invalidate_ack_handler (some l) q =
    if is_state l trans_wr && not q.need_data
    then (do s ← change_state l modified; some (concluded s))
    else none

-- `SMPCache::returnAccess` at the requestor
unfoldable pub return_access : Option MesiState → Sreq → Option Outcome
unfolding read_miss_ack_handler write_miss_ack_handler invalidate_ack_handler
return_access l q = elim q.mem_op [
  | mem_read ↦ read_miss_ack_handler l q
  | mem_read_w ↦ if q.need_data then write_miss_ack_handler l q else invalidate_ack_handler l q
  | mem_write ↦
      if q.need_data then none else if q.need_snoop then invalidate_ack_handler l q else none
  | mem_push ↦ none
]
