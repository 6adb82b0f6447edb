-- ===== src/Smp/System.antt =====
-- The caches of libsmp on one SMPSystemBus, at one memory line: SMPSystemBus.cpp's counting of the
-- answers, and every event that changes the line somewhere, as a step. `mutExclBuffer`, the MSHR
-- that all caches share, lets one request for the line go below at a time: that is the slot `txn`.
use sesc_src.Common.{
  ℕ, ◌-◌, ◌<◌, ◌≡◌, ◌≢◌, Bool, true, false, not, Option, none, some, ◌==◌, ltb, ◌&&◌, if◌then◌else◌,
}
use sesc_src.Common.Arrays.{update}
use sesc_src.Smp.State.{MesiState, is_locked, is_dirty, can_be_written, make_dirty, pre_invalidate}
use sesc_src.Smp.Request.{MemOp, mem_write, mem_read_w, Sreq}
use sesc_src.Smp.Protocol.{
  is_some, Reply, Outcome, to_memory, concluded, receive_from_below, real_invalidate,
  is_invalidating, read, write, return_access,
}

-- Where a cache stands with the request that is being snooped.
pub data Snoop : Type 0 where
  quiet asked invalidating acking : Snoop

-- Where the request is: on its way to the bus, at the snooped caches, back at the requestor after
-- them, or back at the requestor after the memory.
pub data Stage : Type 0 where
  requested snooping answered from_memory : Stage

pub record System : Type 0 where
  pub line : ℕ → Option MesiState
  pub snoop : ℕ → Snoop
  pub txn : Option Sreq
  pub stage : Stage
  pub pend : ℕ

-- No cache has the line.
abbrev pub init : System
init = record { line = λ _. none; snoop = λ _. quiet; txn = none; stage = requested; pend = 0 }

-- The request is sent below by cache `i`.
abbrev pub begin : System → ℕ → MesiState → Sreq → System
begin s i l q = record s { line = update s.line i (some l); txn = some q; stage = requested }

-- `doRead` and `doWrite` of the bus, first call: `pendReqsTable[mreq]` counts the other caches, and
-- the request goes to each of them, or straight to `finalizeAccess` if there is none.
unfoldable pub bus_start : ℕ → Sreq → System → System
bus_start n q s = if n - 1 == 0 then record s { stage = answered } else record s {
  pend = n - 1;
  snoop = λ j. if ltb j n && not (j == q.requestor) then asked else quiet;
  stage = snooping;
}

-- The same functions when an answer comes in: the last one leads to `finalizeAccess`.
unfoldable pub bus_answer : System → System
bus_answer s =
    if s.pend - 1 == 0
    then record s { pend = s.pend - 1; stage = answered }
    else record s { pend = s.pend - 1 }

-- Cache `j` has processed the snoop.
unfoldable pub after_reply : ℕ → Reply → System → System
unfolding bus_answer
after_reply j r s =
    if r.answered
    then bus_answer (record s {
      line = update s.line j r.line;
      snoop = update s.snoop j quiet;
      txn = some r.sreq;
    })
    else record s {
      line = update s.line j r.line;
      snoop = update s.snoop j invalidating;
      txn = some r.sreq;
    }

-- `goToMem`, or the end of the request: `concludeAccess` frees the slot of `mutExclBuffer`.
unfoldable pub after_outcome : ℕ → Outcome → System → System
after_outcome i (to_memory l q) s = record s {
  line = update s.line i (some l);
  txn = some q;
  stage = from_memory;
}
after_outcome i (concluded l) s = record s { line = update s.line i (some l); txn = none }

-- `SMPCache::doWrite` on a hit
unfoldable pub write_hit : MesiState → Option MesiState
write_hit l = if can_be_written l then (if is_dirty l then some l else make_dirty l) else none

abbrev pub is_store : MemOp → Bool
is_store mem_write = true
is_store mem_read_w = true
is_store _ = false

abbrev pub is_return : Stage → Bool
is_return answered = true
is_return from_memory = true
is_return _ = false

-- What a cache has to do next for the request `q`, if anything, runs without a failing assertion:
-- a cache that was asked handles the snoop, one that waits for its upper levels invalidates.
unfoldable pub processes : ℕ → Sreq → Snoop → Option MesiState → Bool
processes j q quiet l = true
processes j q asked l = is_some (receive_from_below j l q)
processes j q invalidating l = is_some (real_invalidate l)
processes j q acking l = true

-- `n` caches. An event takes place only if no assertion of the code that it runs fails.
pub data Step (n : ℕ) (s : System) : System → Type 0 where
  start_read :
      (i : ℕ) (l : MesiState) (q : Sreq)
      → i < n
      → s.txn ≡ none
      → read i (s.line i) ≡ some (l, q)
      → Step n s (begin s i l q)
  start_write :
      (i : ℕ) (op : MemOp) (l : MesiState) (q : Sreq)
      → i < n
      → s.txn ≡ none
      → is_store op ≡ true
      → write i op (s.line i) ≡ some (l, q)
      → Step n s (begin s i l q)
  broadcast : (q : Sreq) → s.txn ≡ some q → s.stage ≡ requested → Step n s (bus_start n q s)
  snooped :
      (j : ℕ) (q : Sreq) (r : Reply)
      → j < n
      → s.txn ≡ some q
      → s.snoop j ≡ asked
      → receive_from_below j (s.line j) q ≡ some r
      → Step n s (after_reply j r s)
  invalidated :
      (j : ℕ) (l : Option MesiState) (w : ℕ)
      → s.snoop j ≡ invalidating
      → real_invalidate (s.line j) ≡ some (l, w)
      → Step n s (record s { line = update s.line j l; snoop = update s.snoop j acking })
  acked :
      (j : ℕ)
      → j < n
      → s.snoop j ≡ acking
      → Step n s (bus_answer (record s { snoop = update s.snoop j quiet }))
  returned :
      (q : Sreq) (o : Outcome)
      → s.txn ≡ some q
      → is_return s.stage ≡ true
      → return_access (s.line q.requestor) q ≡ some o
      → Step n s (after_outcome q.requestor o s)
  wrote :
      (i : ℕ) (l l' : MesiState)
      → s.line i ≡ some l
      → write_hit l ≡ some l'
      → Step n s (record s { line = update s.line i (some l') })
  displacing :
      (i : ℕ) (l l' : MesiState)
      → s.line i ≡ some l
      → is_locked l ≡ false
      → pre_invalidate l ≡ some l'
      → Step n s (record s { line = update s.line i (some l') })
  displaced :
      (i : ℕ) (l : MesiState)
      → s.line i ≡ some l
      → is_invalidating l ≡ true
      → s.snoop i ≢ invalidating
      → Step n s (record s { line = update s.line i none })

pub data Reach (n : ℕ) : System → Type 0 where
  start : Reach n init
  later : {s t : System} → Reach n s → Step n s t → Reach n t
