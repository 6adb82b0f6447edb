-- ===== src/Smp/Coherence.antt =====
-- Coherence of the caches in every reachable state, and the assertions of the handlers.
use sesc_src.Common.{ℕ, ◌≡◌, refl, sym, ◌≢◌, true, none, some}
use sesc_src.Smp.Request.{Sreq}
use sesc_src.Smp.Protocol.{return_access}
use sesc_src.Smp.System.{
  quiet, processes, System, is_return, Step, start_read, start_write, broadcast, snooped,
  invalidated, acked, returned, wrote, displacing, displaced, Reach, start, later, init,
}
use sesc_src.Smp.Local.{snoop_ok}
use sesc_src.Smp.Handlers.{begin_read, begin_write, ok-processes, return-ne-none}
use sesc_src.Smp.Invariant.{IsCoherent, Inv}
use sesc_src.Smp.Preserve.{
  change-Inv, Weakens, wrote-Weakens, displacing-Weakens, displaced-Weakens,
}
use sesc_src.Smp.Transact.{begin-Inv, bus_start-Inv}
use sesc_src.Smp.Answer.{acked-Inv, its_stage}
use sesc_src.Smp.Snooped.{after_reply-Inv, invalidated-Inv}
use sesc_src.Smp.Returned.{after_outcome-Inv}
use mathlib.Core.Path.{subst}

pub init-Inv : (n : ℕ) → Inv n init
init-Inv n = record {
  coherent = λ i j ne o. cc;
  idle = λ e j. (refl, refl);
  busy = λ q e. cc;
  bounded = λ j h. (refl, refl);
}

-- Every event of the system keeps the invariant, from any state that meets it: reads, writes, upgrades, the broadcast, every order of the
-- answers, write hits and displacements while a request is under way.
pub Step-Inv : {n : ℕ} {s t : System} → Step n s t → Inv n s → Inv n t
Step-Inv {n} {s} (start_read i l q h e r) v =
    let (gone, own, req, same, mem, unheld) = begin_read i (s.line i) l q r (v.idle e i).0 in
    begin-Inv n s i l q v e h own req same mem unheld
Step-Inv {n} {s} (start_write i op l q h e st w) v =
    let (from, own, req, same, mem, unheld) = begin_write i op (s.line i) l q w st in
    begin-Inv n s i l q v e h own req same mem unheld
Step-Inv {n} {s} (broadcast q e at) v = bus_start-Inv n s q v e at
Step-Inv {n} {s} (snooped j q r h e a rep) v = after_reply-Inv n s v j q r e a rep
Step-Inv {n} {s} (invalidated j l w a inv) v = invalidated-Inv n s j l w v a inv
Step-Inv {n} {s} (acked j h a) v = acked-Inv n s j v a
Step-Inv {n} {s} (returned q o e b r) v = after_outcome-Inv n s v q e b o r
Step-Inv {n} {s} (wrote i l l' a w) v =
    change-Inv n s i (some l')
      (subst (λ x. Weakens (s.snoop i) x (some l')) (sym a) (wrote-Weakens (s.snoop i) l l' w)) v
Step-Inv {n} {s} (displacing i l l' a u p) v =
    change-Inv n s i (some l')
      (subst (λ x. Weakens (s.snoop i) x (some l')) (sym a)
        (displacing-Weakens (s.snoop i) l l' u p))
      v
Step-Inv {n} {s} (displaced i l a u ne) v =
    change-Inv n s i none
      (subst (λ x. Weakens (s.snoop i) x none) (sym a) (displaced-Weakens (s.snoop i) l u ne)) v

pub Reach-Inv : {n : ℕ} {s : System} → Reach n s → Inv n s
Reach-Inv {n} start = init-Inv n
Reach-Inv (later r st) = Step-Inv st (Reach-Inv r)

-- In every reachable state of any number of caches, if one cache may write the line (exclusive or
-- modified) then no other cache may read it.
pub Reach-IsCoherent : {n : ℕ} {s : System} → Reach n s → IsCoherent s.line
Reach-IsCoherent r = (Reach-Inv r).coherent

-- In every reachable state each cache can do what the request under way asks of it. A snooped cache
-- processes the request: no assertion of `readMissHandler`, `writeMissHandler`,
-- `invalidateHandler`, `combineResponses`, `changeState`, `invalidateLine` and `preInvalidate` fails. A
-- cache whose upper levels have answered invalidates the line: no assertion of `realInvalidate` and
-- of the line's `invalidate` fails.
pub snoop-ne-none :
    {n : ℕ} {s : System} (j : ℕ) (q : Sreq)
    → Reach n s
    → s.txn ≡ some q
    → processes j q (s.snoop j) (s.line j) ≡ true
snoop-ne-none {n} {s} j q r e =
    let v : Inv n s = Reach-Inv r in
    let f = v.busy q e in
    let in_stage : s.snoop j ≢ quiet → snoop_ok q (s.snoop j) (s.line j) ≡ true =
      λ open_. (its_stage n s v j open_ q e).1 in
    ok-processes j q (s.snoop j) (s.line j) in_stage f.request

-- In every reachable state in which the request is back at its requestor, no assertion of the
-- acknowledgement handlers and of `returnAccess` fails.
pub return_access-ne-none :
    {n : ℕ} {s : System} (q : Sreq)
    → Reach n s
    → s.txn ≡ some q
    → is_return s.stage ≡ true
    → return_access (s.line q.requestor) q ≢ none
return_access-ne-none {n} {s} q r e b =
    let f = (Reach-Inv r).busy q e in
    return-ne-none (s.line q.requestor) q s.stage f.owner f.request b f.memory
