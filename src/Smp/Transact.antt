-- ===== src/Smp/Transact.antt =====
-- The events of a request keep the invariant: its start, the broadcast, and the answers.
use sesc_src.Common.{
  ℕ, ◌-◌, ◌≤◌, ◌<◌, ◌≡◌, refl, sym, ◌∙◌, ap, ◌≢◌, inl, inr, true, false, Option, none, some, ◌==◌,
  ltb, ==_iff, Bool-cases, arith,
}
use mathlib.Core.Path.{subst}
use sesc_src.Common.Arrays.{update, update_self, update-all}
use sesc_src.Smp.State.{MesiState, modified, exclusive}
use sesc_src.Smp.Request.{Sreq}
use sesc_src.Smp.System.{
  Snoop, quiet, asked, Stage, requested, snooping, answered, from_memory, System, begin, bus_start,
}
use sesc_src.Smp.Local.{
  holds, owns, settled, done, snoop_ok, other_ok, owner_ok, request_ok, asked_memory,
}
use sesc_src.Smp.Count.{asked_all, pending-asked_all}
use sesc_src.Smp.Invariant.{IsCoherent, InFlight, Inv}
use sesc_src.Smp.Preserve.{IsCoherent-update, of_slot}

no_owns : (l : Option MesiState) → holds l ≡ false → owns l ≡ false
no_owns none h = refl
no_owns (some exclusive) h = cc
no_owns (some modified) h = cc
no_owns (some l) h = refl

-- A copy that cannot be read takes part in no conflict.
pub IsCoherent-update_unheld :
    (line : ℕ → Option MesiState) (i : ℕ) (x : Option MesiState)
    → IsCoherent line
    → holds x ≡ false
    → IsCoherent (update line i x)
IsCoherent-update_unheld line i x c h =
    IsCoherent-update line i x c (λ j ne o. absurd (ground (arith, no_owns x h))) (λ j ne o. h)

begin-Inv_at :
    (n : ℕ) (s : System) (l : MesiState) (q : Sreq)
    → Inv n s
    → s.txn ≡ none
    → q.requestor < n
    → owner_ok q requested (some l) ≡ true
    → request_ok q ≡ true
    → asked_memory requested q ≡ true
    → holds (some l) ≡ false
    → Inv n (begin s q.requestor l q)
begin-Inv_at n s l q v e inside own req mem unheld = record {
  coherent = IsCoherent-update_unheld s.line q.requestor (some l) v.coherent unheld;
  idle = λ z. cc;
  busy = of_slot n (begin s q.requestor l q) q refl (record {
    inside = inside;
    request = req;
    memory = mem;
    owner = ap (owner_ok q requested) (update_self s.line q.requestor (some l)) ∙ own;
    silent = (v.idle e q.requestor).1;
    others =
        update-all (λ j y. j ≢ q.requestor → other_ok q requested (s.snoop j) y ≡ true) s.line
          q.requestor (some l) (λ ne. absurd (ne refl))
          (λ j ne apart. let (calm, mute) = v.idle e j in rw (mute, other_ok) calm);
    counted = λ z. cc;
  });
  bounded =
      update-all (λ j y. n ≤ j → (y ≡ none) × (s.snoop j ≡ quiet)) s.line q.requestor (some l)
        (λ h. absurd (omega arith)) (λ j ne. v.bounded j);
}

-- A request that cache `i` sends below.
pub begin-Inv :
    (n : ℕ) (s : System) (i : ℕ) (l : MesiState) (q : Sreq)
    → Inv n s
    → s.txn ≡ none
    → i < n
    → owner_ok q requested (some l) ≡ true
    → request_ok q ≡ true
    → q.requestor ≡ i
    → asked_memory requested q ≡ true
    → holds (some l) ≡ false
    → Inv n (begin s i l q)
begin-Inv n s i l q v e inside own req same mem unheld =
    subst (λ k. Inv n (begin s k l q)) same
      (begin-Inv_at n s l q v e (omega arith) own req mem unheld)

pub done-none : (q : Sreq) → done q none ≡ true
done-none q = ground arith

asked_ok :
    (q : Sreq) (l : Option MesiState)
    → settled l ≡ true
    → asked_memory requested q ≡ true
    → snoop_ok q asked l ≡ true
asked_ok q l h k = ground arith

other_requested :
    (q : Sreq) (sn : Snoop) (l : Option MesiState)
    → other_ok q requested sn l ≡ true
    → (sn ≡ quiet) × (settled l ≡ true)
other_requested q quiet l h = (refl, h)
other_requested q sn l h = (cc, cc)

pub other_snooping :
    (q : Sreq) (st : Stage) (sn : Snoop) (l : Option MesiState)
    → sn ≢ quiet
    → other_ok q st sn l ≡ true
    → (st ≡ snooping) × (snoop_ok q sn l ≡ true)
other_snooping q snooping sn l ne h = (refl, h)
other_snooping q requested quiet l ne h = absurd (ne refl)
other_snooping q requested sn l ne h = (cc, cc)
other_snooping q st quiet l ne h = absurd (ne refl)
other_snooping q st sn l ne h = (cc, cc)

pub owner_stage :
    (q : Sreq) (st st' : Stage) (l : Option MesiState)
    → st ≢ from_memory
    → st' ≢ from_memory
    → owner_ok q st l ≡ true
    → owner_ok q st' l ≡ true
owner_stage q from_memory st' l a b h = absurd (a refl)
owner_stage q st from_memory l a b h = absurd (b refl)
owner_stage q requested requested none a b h = cc
owner_stage q st st' none a b h = cc
owner_stage q requested requested (some l) a b h = h
owner_stage q st st' (some l) a b h = h

module _ (n : ℕ) (s : System) (q : Sreq) (v : Inv n s) (e : s.txn ≡ some q)
    (at : s.stage ≡ requested) where
  f : InFlight n s q
  f = v.busy q e

  calm : (j : ℕ) → j ≢ q.requestor → (s.snoop j ≡ quiet) × (settled (s.line j) ≡ true)
  calm j ne =
      other_requested q (s.snoop j) (s.line j)
        (ap (λ st. other_ok q st (s.snoop j) (s.line j)) (sym at) ∙ f.others j ne)

  mem : asked_memory requested q ≡ true
  mem = ap (λ st. asked_memory st q) (sym at) ∙ f.memory

  asked_now : (j : ℕ) → j ≢ q.requestor → snoop_ok q (asked_all n q.requestor j) (s.line j) ≡ true
  asked_now j ne = elim (Bool-cases (ltb j n)) [
    | inl below ↦
        let here : asked_all n q.requestor j ≡ asked = ground arith in
        rw here (asked_ok q (s.line j) (calm j ne).1 mem)
    | inr beyond ↦
        let here : asked_all n q.requestor j ≡ quiet = ground arith in
        rw (here, (v.bounded j (ground arith)).0) (done-none q)
  ]

  alone_now :
      n - 1 ≡ 0 → (j : ℕ) → j ≢ q.requestor → other_ok q answered (s.snoop j) (s.line j) ≡ true
  alone_now z j ne =
      let inside : q.requestor < n = f.inside in
      let beyond : n ≤ j = omega arith in
      let (gone, mute) = v.bounded j beyond in rw (gone, mute) (done-none q)

  alone-Inv : n - 1 ≡ 0 → Inv n (record s { stage = answered })
  alone-Inv z = record {
    coherent = v.coherent;
    idle = λ none_. cc;
    busy =
        of_slot n (record s { stage = answered }) q e
          (record {
            inside = f.inside;
            request = f.request;
            memory = ground (arith, mem);
            owner = owner_stage q s.stage answered (s.line q.requestor) (λ z. cc) (λ z. cc) f.owner;
            silent = f.silent;
            others = alone_now z;
            counted = λ z. cc;
          });
    bounded = v.bounded;
  }

  abbrev sent : System
  sent = record s { pend = n - 1; snoop = asked_all n q.requestor; stage = snooping }

  sent-Inv : Inv n sent
  sent-Inv = record {
    coherent = v.coherent;
    idle = λ none_. cc;
    busy = of_slot n sent q e (record {
      inside = f.inside;
      request = f.request;
      memory = ground (arith, mem);
      owner = owner_stage q s.stage snooping (s.line q.requestor) (λ z. cc) (λ z. cc) f.owner;
      silent = ground arith;
      others = asked_now;
      counted = λ z. sym (pending-asked_all n q.requestor f.inside);
    });
    bounded = λ j h. ((v.bounded j h).0, ground arith);
  }

  -- The bus broadcasts the request, or answers it if there is no other cache.
  pub bus_start-Inv : Inv n (bus_start n q s)
  unfolding bus_start
  bus_start-Inv = elim (Bool-cases (n - 1 == 0)) [
    | inl z ↦ rw z (alone-Inv ((==_iff (n - 1) 0).0 z))
    | inr m ↦ rw m sent-Inv
  ]
