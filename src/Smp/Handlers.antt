-- ===== src/Smp/Handlers.antt =====
-- How the handlers of libsmp/MESIProtocol.cpp change one cache's copy of the line, and the request.
use sesc_src.Common.{
  ℕ, Bool, true, false, not, Option, none, some, ◌≡◌, refl, ◌≢◌, ◌⊎◌, ◌&&◌, if◌then◌else◌, arith,
}
use sesc_src.Smp.State.{
  MesiState, trans_rd, trans_rd_mem, trans_wr, trans_wr_mem, trans_inv, trans_inv_d, modified,
  exclusive, shared,
}
use sesc_src.Smp.Request.{MemOp, Sreq, no_snoop}
use sesc_src.Smp.Protocol.{
  is_state, is_some, Reply, to_memory, concluded, receive_from_below, real_invalidate, read, write,
  return_access,
}
use sesc_src.Smp.System.{
  Snoop, quiet, asked, invalidating, acking, processes, Stage, requested, answered, from_memory,
  is_store, is_return,
}
use sesc_src.Smp.Local.{
  holds, owns, settled, is_invalid, done, in_invalidation, snoop_ok, owner_ok, request_ok,
  asked_memory,
}

-- A snooped copy comes out of the handler without the right to write, and readable only if it was.
pub receive-line :
    (j : ℕ) (l : Option MesiState) (q : Sreq) (r : Reply)
    → receive_from_below j l q ≡ some r
    → snoop_ok q asked l ≡ true
    → request_ok q ≡ true
    → (request_ok r.sreq ≡ true)
      × (r.sreq.mem_op ≡ q.mem_op)
      × (r.sreq.requestor ≡ q.requestor)
      × (r.sreq.need_snoop ≡ q.need_snoop)
      × (owns r.line ≡ false)
      × ((holds r.line ≡ true) → (holds l ≡ true))
      × ((if r.answered then done r.sreq r.line else is_store q.mem_op && in_invalidation r.line)
          ≡ true)
unfolding receive_from_below
receive-line j none q r e h k = ground arith
receive-line j (some shared) q r e h k = ground arith
receive-line j (some exclusive) q r e h k = ground arith
receive-line j (some modified) q r e h k = ground arith
receive-line j (some trans_inv) q r e h k = ground arith
receive-line j (some trans_inv_d) q r e h k = ground arith
receive-line j (some l) q r e h k = cc

-- The answer of one cache leaves what is known of another cache's copy true.
pub receive-others :
    (j : ℕ) (l l2 : Option MesiState) (sn : Snoop) (q : Sreq) (r : Reply)
    → receive_from_below j l q ≡ some r
    → snoop_ok q asked l ≡ true
    → request_ok q ≡ true
    → snoop_ok q sn l2 ≡ true
    → (owns l ≡ true → holds l2 ≡ false)
    → snoop_ok r.sreq sn l2 ≡ true
unfolding receive_from_below
receive-others j none l2 sn q r e h k o c = ground arith
receive-others j (some shared) l2 quiet q r e h k o c = ground arith
receive-others j (some shared) l2 asked q r e h k o c = ground arith
receive-others j (some shared) l2 sn q r e h k o c = ground arith
receive-others j (some exclusive) l2 sn q r e h k o c = ground arith
receive-others j (some modified) l2 sn q r e h k o c = ground arith
receive-others j (some trans_inv) l2 sn q r e h k o c = ground arith
receive-others j (some trans_inv_d) l2 sn q r e h k o c = ground arith
receive-others j (some l) l2 sn q r e h k o c = cc

-- No assertion fails when a cache is snooped.
receive-ne-none :
    (j : ℕ) (l : Option MesiState) (q : Sreq)
    → snoop_ok q asked l ≡ true
    → request_ok q ≡ true
    → receive_from_below j l q ≢ none
unfolding receive_from_below
receive-ne-none j none q h k e = ground arith
receive-ne-none j (some shared) q h k e = ground arith
receive-ne-none j (some exclusive) q h k e = ground arith
receive-ne-none j (some modified) q h k e = ground arith
receive-ne-none j (some trans_inv) q h k e = ground arith
receive-ne-none j (some trans_inv_d) q h k e = ground arith
receive-ne-none j (some l) q h k e = cc

-- An invalidation that has come to its end clears a line that may be cleared.
invalidate-ne-none :
    (l : Option MesiState) → in_invalidation l ≡ true → is_some (real_invalidate l) ≡ true
unfolding real_invalidate
invalidate-ne-none none h = cc
invalidate-ne-none (some trans_inv) h = refl
invalidate-ne-none (some trans_inv_d) h = refl
invalidate-ne-none (some l) h = cc

in_invalidation-of :
    (q : Sreq) (l : Option MesiState) → snoop_ok q invalidating l ≡ true → in_invalidation l ≡ true
in_invalidation-of q l h = ground arith

is_some-ne-none : {A : Type 0} (o : Option A) → o ≢ none → is_some o ≡ true
is_some-ne-none none h = absurd (h refl)
is_some-ne-none (some a) h = refl

-- The test for the cache's own place in the request lets it do its work.
pub ok-processes :
    (j : ℕ) (q : Sreq) (sn : Snoop) (l : Option MesiState)
    → (sn ≢ quiet → snoop_ok q sn l ≡ true)
    → request_ok q ≡ true
    → processes j q sn l ≡ true
unfolding processes
ok-processes j q quiet l h k = refl
ok-processes j q asked l h k =
    is_some-ne-none (receive_from_below j l q) (receive-ne-none j l q (h (λ z. cc)) k)
ok-processes j q invalidating l h k = invalidate-ne-none l (in_invalidation-of q l (h (λ z. cc)))
ok-processes j q acking l h k = refl

pub begin_read :
    (i : ℕ) (l : Option MesiState) (l' : MesiState) (q : Sreq)
    → read i l ≡ some (l', q)
    → settled l ≡ true
    → (l ≡ none)
      × (owner_ok q requested (some l') ≡ true)
      × (request_ok q ≡ true)
      × (q.requestor ≡ i)
      × (asked_memory requested q ≡ true)
      × (holds (some l') ≡ false)
unfolding read
begin_read i none l' q e h = ground arith
begin_read i (some shared) l' q e h = cc
begin_read i (some exclusive) l' q e h = cc
begin_read i (some l) l' q e h = cc

pub begin_write :
    (i : ℕ) (op : MemOp) (l : Option MesiState) (l' : MesiState) (q : Sreq)
    → write i op l ≡ some (l', q)
    → is_store op ≡ true
    → ((l ≡ none) ⊎ (l ≡ some shared))
      × (owner_ok q requested (some l') ≡ true)
      × (request_ok q ≡ true)
      × (q.requestor ≡ i)
      × (asked_memory requested q ≡ true)
      × (holds (some l') ≡ false)
unfolding write
begin_write i op none l' q e h = ground arith
begin_write i op (some shared) l' q e h = ground arith
begin_write i op (some l) l' q e h = cc

-- No assertion fails when the request is back at its requestor.
pub return-ne-none :
    (l : Option MesiState) (q : Sreq) (st : Stage)
    → owner_ok q st l ≡ true
    → request_ok q ≡ true
    → is_return st ≡ true
    → asked_memory st q ≡ true
    → return_access l q ≢ none
unfolding return_access
return-ne-none none q answered h k s m e = cc
return-ne-none none q st h k s m e = cc
return-ne-none (some trans_rd) q answered h k s m e = ground arith
return-ne-none (some trans_rd_mem) q from_memory h k s m e = ground arith
return-ne-none (some trans_wr) q answered h k s m e = ground arith
return-ne-none (some trans_wr_mem) q from_memory h k s m e = ground arith
return-ne-none (some l) q st h k s m e = ground arith

-- What the requestor's own copy becomes when the request ends.
pub return-concluded :
    (l : Option MesiState) (q : Sreq) (st : Stage) (l' : MesiState)
    → return_access l q ≡ some (concluded l')
    → owner_ok q st l ≡ true
    → (settled (some l') ≡ true)
      × ((l2 : Option MesiState)
          → done q l2 ≡ true
          → (owns (some l') ≡ true → holds l2 ≡ false) × (owns l2 ≡ true → holds (some l') ≡ false))
unfolding return_access
return-concluded none q answered l' e h = cc
return-concluded none q st l' e h = cc
return-concluded (some trans_rd) q st l' e h = (ground arith, λ l2 d. (ground arith, ground arith))
return-concluded (some trans_rd_mem) q st l' e h =
    (ground arith, λ l2 d. (ground arith, ground arith))
return-concluded (some trans_wr) q st l' e h = (ground arith, λ l2 d. (ground arith, ground arith))
return-concluded (some trans_wr_mem) q st l' e h =
    (ground arith, λ l2 d. (ground arith, ground arith))
return-concluded (some l) q st l' e h = (ground arith, λ l2 d. (ground arith, ground arith))

-- A request goes on to the memory from the two states of a miss, and says that nobody has the line.
abbrev pub from_miss : Option MesiState → Sreq → MesiState → Bool
from_miss (some trans_rd) q l' = not (is_store q.mem_op) && is_state l' trans_rd_mem
from_miss (some trans_wr) q l' = is_store q.mem_op && q.need_data && is_state l' trans_wr_mem
from_miss l q l' = false

pub to_memory-from :
    (l : Option MesiState) (q : Sreq) (l' : MesiState) (q' : Sreq)
    → return_access l q ≡ some (to_memory l' q')
    → (is_invalid q.state ≡ true) × (from_miss l q l' ≡ true)
unfolding return_access
to_memory-from none q l' q' e = ground arith
to_memory-from (some trans_rd) q l' q' e = ground arith
to_memory-from (some trans_wr) q l' q' e = ground arith
to_memory-from (some l) q l' q' e = ground arith

pub to_memory-request :
    (l : Option MesiState) (q : Sreq) (l' : MesiState) (q' : Sreq)
    → return_access l q ≡ some (to_memory l' q')
    → q' ≡ no_snoop q
unfolding return_access
to_memory-request none q l' q' e = ground arith
to_memory-request (some trans_rd) q l' q' e = ground arith
to_memory-request (some trans_wr) q l' q' e = ground arith
to_memory-request (some l) q l' q' e = ground arith
