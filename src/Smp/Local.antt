-- ===== src/Smp/Local.antt =====
-- What each cache's copy of the line may be while a request is under way, as tests, and how the
-- handlers keep them.
use sesc_src.Common.{Bool, true, false, not, Option, none, some, ◌&&◌, ◌||◌, if◌then◌else◌}
use sesc_src.Smp.State.{
  MesiState, invalid, trans_rd, trans_rd_mem, trans_wr, trans_wr_mem, trans_inv, trans_inv_d,
  modified, exclusive, shared,
}
use sesc_src.Smp.Request.{mem_read, mem_write, mem_push, mem_read_w, Sreq}
use sesc_src.Smp.Protocol.{is_state, is_invalidating}
use sesc_src.Smp.System.{
  Snoop, quiet, asked, invalidating, acking, Stage, requested, snooping, from_memory, is_store,
}

-- The copy can be read.
abbrev pub holds : Option MesiState → Bool
holds (some shared) = true
holds (some exclusive) = true
holds (some modified) = true
holds _ = false

-- The copy can be written.
abbrev pub owns : Option MesiState → Bool
owns (some exclusive) = true
owns (some modified) = true
owns _ = false

-- No request of this cache is under way.
abbrev pub settled : Option MesiState → Bool
settled none = true
settled (some trans_inv) = true
settled (some trans_inv_d) = true
settled l = holds l

abbrev pub is_invalid : MesiState → Bool
is_invalid s = is_state s invalid

abbrev pub is_owner_state : MesiState → Bool
is_owner_state s = is_state s exclusive || is_state s modified

-- A copy that has answered: a store leaves none, a read leaves none that can be written, and none
-- at all if the answer is that nobody has the line.
abbrev pub done : Sreq → Option MesiState → Bool
done q l =
    settled l
    && (if is_store q.mem_op
        then not (holds l)
        else not (owns l) && not (is_invalid q.state && holds l))

abbrev pub in_invalidation : Option MesiState → Bool
in_invalidation none = false
in_invalidation (some l) = is_invalidating l

abbrev pub is_none : Option MesiState → Bool
is_none none = true
is_none (some _) = false

abbrev pub snoop_ok : Sreq → Snoop → Option MesiState → Bool
snoop_ok q quiet l = done q l
snoop_ok q asked l = settled l && not (is_owner_state q.state && holds l)
snoop_ok q invalidating l = is_store q.mem_op && in_invalidation l
snoop_ok q acking l = is_store q.mem_op && is_none l

-- A cache other than the requestor.
abbrev pub other_ok : Sreq → Stage → Snoop → Option MesiState → Bool
other_ok q snooping sn l = snoop_ok q sn l
other_ok q requested quiet l = settled l
other_ok q requested _ l = false
other_ok q _ quiet l = done q l
other_ok q _ _ l = false

-- The requestor's own copy.
abbrev pub owner_ok : Sreq → Stage → Option MesiState → Bool
owner_ok q st none = false
owner_ok q from_memory (some l) =
    if is_store q.mem_op then is_state l trans_wr_mem else is_state l trans_rd_mem
owner_ok q _ (some l) = if is_store q.mem_op then is_state l trans_wr else is_state l trans_rd

-- The request itself: found means that its state is that of some copy.
abbrev pub request_ok : Sreq → Bool
request_ok q =
    (if q.found then is_state q.state shared || is_owner_state q.state else is_invalid q.state)
    && elim q.mem_op [
      | mem_read ↦ q.need_data
      | mem_push ↦ false
      | mem_write ↦ not q.need_data
      | mem_read_w ↦ true
    ]

-- A new request wants to be snooped and has no answer yet; one back from the memory was found
-- nowhere.
abbrev pub asked_memory : Stage → Sreq → Bool
asked_memory requested q = q.need_snoop && is_invalid q.state
asked_memory from_memory q = is_invalid q.state && (if is_store q.mem_op then q.need_data else true)
asked_memory _ q = q.need_snoop
