-- ===== src/Smp/Answer.antt =====
-- The answers of the snooped caches keep the invariant.
use sesc_src.Common.{
  ℕ, suc, ◌-◌, ◌≤◌, ◌<◌, ◌≡◌, refl, sym, ◌∙◌, ap, ◌≢◌, inl, inr, true, Option, none, some, ◌==◌,
  ltb, ==_iff, Bool-cases, Option-cases, arith,
}
use sesc_src.Common.Arrays.{update, update_ne, update-all}
use sesc_src.Smp.State.{MesiState}
use sesc_src.Smp.Request.{Sreq}
use sesc_src.Smp.System.{Snoop, quiet, acking, snooping, answered, System, bus_answer}
use sesc_src.Smp.Local.{snoop_ok, other_ok, owner_ok, request_ok, asked_memory}
use sesc_src.Smp.Count.{open_at, pending, pending-update, pending-zero}
use sesc_src.Smp.Invariant.{IsCoherent, Inv}
use sesc_src.Smp.Preserve.{of_slot}
use sesc_src.Smp.Transact.{done-none, other_snooping, owner_stage}

-- A cache has answered, and the bus has not counted it yet.
pub record Answering (n : ℕ) (t : System) (q : Sreq) : Type 0 where
  pub slot : t.txn ≡ some q
  pub stage : t.stage ≡ snooping
  pub coherent : IsCoherent t.line
  pub bounded : (j : ℕ) → n ≤ j → (t.line j ≡ none) × (t.snoop j ≡ quiet)
  pub inside : q.requestor < n
  pub request : request_ok q ≡ true
  pub memory : q.need_snoop ≡ true
  pub owner : owner_ok q snooping (t.line q.requestor) ≡ true
  pub silent : t.snoop q.requestor ≡ quiet
  pub others : (j : ℕ) → j ≢ q.requestor → snoop_ok q (t.snoop j) (t.line j) ≡ true
  pub counted : t.pend ≡ suc (pending n t.snoop)

module _ (n : ℕ) (t : System) (q : Sreq) (a : Answering n t q) where
  abbrev finished : System
  finished = record t { pend = t.pend - 1; stage = answered }

  abbrev waiting : System
  waiting = record t { pend = t.pend - 1 }

  last_done :
      t.pend - 1 ≡ 0 → (j : ℕ) → j ≢ q.requestor → other_ok q answered (t.snoop j) (t.line j) ≡ true
  last_done z j ne =
      let none_left : pending n t.snoop ≡ 0 = omega (arith, a.counted) in
      let mute : t.snoop j ≡ quiet = elim (Bool-cases (ltb j n)) [
        | inl below ↦ pending-zero n t.snoop j (ground arith) none_left
        | inr beyond ↦ (a.bounded j (ground arith)).1
      ] in
      let o : snoop_ok q quiet (t.line j) ≡ true =
        ap (λ sn. snoop_ok q sn (t.line j)) (sym mute) ∙ a.others j ne in
      rw mute o

  finished-Inv : t.pend - 1 ≡ 0 → Inv n finished
  finished-Inv z = record {
    coherent = a.coherent;
    idle = λ e. absurd (ground (arith, a.slot));
    busy = of_slot n finished q a.slot (record {
      inside = a.inside;
      request = a.request;
      memory = a.memory;
      owner = owner_stage q snooping answered (t.line q.requestor) (λ z. cc) (λ z. cc) a.owner;
      silent = a.silent;
      others = last_done z;
      counted = λ z. cc;
    });
    bounded = a.bounded;
  }

  waiting-Inv : Inv n waiting
  waiting-Inv = record {
    coherent = a.coherent;
    idle = λ e. absurd (ground (arith, a.slot));
    busy = of_slot n waiting q a.slot (record {
      inside = a.inside;
      request = a.request;
      memory = ap (λ st. asked_memory st q) a.stage ∙ a.memory;
      owner = ap (λ st. owner_ok q st (t.line q.requestor)) a.stage ∙ a.owner;
      silent = a.silent;
      others = λ j ne. ap (λ st. other_ok q st (t.snoop j) (t.line j)) a.stage ∙ a.others j ne;
      counted = λ z. omega (arith, a.counted);
    });
    bounded = a.bounded;
  }

  pub bus_answer-Inv : Inv n (bus_answer t)
  unfolding bus_answer
  bus_answer-Inv = elim (Bool-cases (t.pend - 1 == 0)) [
    | inl z ↦ rw z (finished-Inv ((==_iff (t.pend - 1) 0).0 z))
    | inr m ↦ rw m waiting-Inv
  ]

open_at_open : (sn : Snoop) → sn ≢ quiet → open_at sn ≡ 1
open_at_open quiet ne = absurd (ne refl)
open_at_open sn ne = refl

-- Facts about a cache that has not answered yet.
module _ (n : ℕ) (s : System) (v : Inv n s) (j : ℕ) (open_ : s.snoop j ≢ quiet) where
  pub has_request : (q : Sreq) × (s.txn ≡ some q)
  has_request = elim (Option-cases s.txn) [ inl e ↦ absurd (open_ (v.idle e j).1) | inr h ↦ h ]

  module _ (q : Sreq) (e : s.txn ≡ some q) where
    pub not_requestor : j ≢ q.requestor
    not_requestor same = open_ (ap s.snoop same ∙ (v.busy q e).silent)

    pub its_stage : (s.stage ≡ snooping) × (snoop_ok q (s.snoop j) (s.line j) ≡ true)
    its_stage =
        other_snooping q s.stage (s.snoop j) (s.line j) open_ ((v.busy q e).others j not_requestor)

    pub its_bound : j < n
    its_bound = elim (Bool-cases (ltb j n)) [
      | inl below ↦ ground arith
      | inr beyond ↦ absurd (open_ (v.bounded j (ground arith)).1)
    ]

    pub snoop_others : (k : ℕ) → k ≢ q.requestor → snoop_ok q (s.snoop k) (s.line k) ≡ true
    snoop_others k ne =
        ap (λ st. other_ok q st (s.snoop k) (s.line k)) (sym its_stage.0) ∙ (v.busy q e).others k ne

    pub snooping_memory : q.need_snoop ≡ true
    snooping_memory = ap (λ st. asked_memory st q) (sym its_stage.0) ∙ (v.busy q e).memory

    pub snooping_owner : owner_ok q snooping (s.line q.requestor) ≡ true
    snooping_owner =
        ap (λ st. owner_ok q st (s.line q.requestor)) (sym its_stage.0) ∙ (v.busy q e).owner

    pub one_less : (f : ℕ → Snoop) → f ≡ update s.snoop j quiet → s.pend ≡ suc (pending n f)
    one_less f same = rw same (
        omega (
          arith,
          pending-update n s.snoop j quiet its_bound,
          (v.busy q e).counted its_stage.0,
          open_at_open (s.snoop j) open_,
        ))

acked_ok :
    (q : Sreq) (l : Option MesiState) → snoop_ok q acking l ≡ true → snoop_ok q quiet l ≡ true
acked_ok q none h = done-none q
acked_ok q (some l) h = ground arith

-- The answer after an invalidation.
pub acked-Inv :
    (n : ℕ) (s : System) (j : ℕ)
    → Inv n s
    → s.snoop j ≡ acking
    → Inv n (bus_answer (record s { snoop = update s.snoop j quiet }))
acked-Inv n s j v e =
    let open_ : s.snoop j ≢ quiet = λ z. cc in
    let (q, slot) = has_request n s v j open_ in
    let f = v.busy q slot in
    let apart = not_requestor n s v j open_ q slot in
    bus_answer-Inv n (record s { snoop = update s.snoop j quiet }) q
      (record {
        slot = slot;
        stage = (its_stage n s v j open_ q slot).0;
        coherent = v.coherent;
        bounded =
            update-all (λ k sn. n ≤ k → (s.line k ≡ none) × (sn ≡ quiet)) s.snoop j quiet
              (λ h. ((v.bounded j h).0, refl)) (λ k ne. v.bounded k);
        inside = f.inside;
        request = f.request;
        memory = snooping_memory n s v j open_ q slot;
        owner = snooping_owner n s v j open_ q slot;
        silent = update_ne s.snoop j quiet q.requestor apart ∙ f.silent;
        others =
            update-all (λ k sn. k ≢ q.requestor → snoop_ok q sn (s.line k) ≡ true) s.snoop j quiet
              (λ ne.
                acked_ok q (s.line j) (
                  ap (λ sn. snoop_ok q sn (s.line j)) (sym e) ∙ (its_stage n s v j open_ q slot).1))
              (λ k ne. snoop_others n s v j open_ q slot k);
        counted = one_less n s v j open_ q slot (update s.snoop j quiet) refl;
      })
