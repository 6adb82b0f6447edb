-- ===== src/Smp/Snooped.antt =====
-- A snooped cache, and the end of an invalidation, keep the invariant.
use sesc_src.Common.{
  ℕ, ◌≤◌, ◌<◌, ◌≡◌, refl, sym, ◌∙◌, ap, ◌≢◌, inl, inr, true, false, ◌&&◌, Option, none, some,
  if◌then◌else◌, Bool-cases, arith,
}
use mathlib.Core.Path.{subst}
use sesc_src.Common.Arrays.{update, update_ne, update-all_both}
use sesc_src.Smp.State.{MesiState}
use sesc_src.Smp.Request.{Sreq}
use sesc_src.Smp.Protocol.{Reply, receive_from_below, real_invalidate}
use sesc_src.Smp.System.{
  Snoop, quiet, asked, invalidating, acking, Stage, snooping, from_memory, System, is_store,
  bus_answer, after_reply,
}
use sesc_src.Smp.Local.{
  holds, owns, done, snoop_ok, other_ok, owner_ok, request_ok, asked_memory, in_invalidation,
}
use sesc_src.Smp.Handlers.{receive-line, receive-others}
use sesc_src.Smp.Count.{open_at, pending, pending-update}
use sesc_src.Smp.Invariant.{IsCoherent, InFlight, Inv}
use sesc_src.Smp.Preserve.{IsCoherent-update, of_slot, not_held}
use sesc_src.Smp.Transact.{IsCoherent-update_unheld}
use sesc_src.Smp.Answer.{
  bus_answer-Inv, has_request, not_requestor, its_stage, its_bound, snoop_others, snooping_memory,
  snooping_owner, one_less,
}

real_invalidate-none :
    (l l' : Option MesiState) (w : ℕ) → real_invalidate l ≡ some (l', w) → l' ≡ none
unfolding real_invalidate
real_invalidate-none none l' w e = ground arith
real_invalidate-none (some s) l' w e = ground arith

invalidated_ok :
    (q : Sreq) (l : Option MesiState)
    → snoop_ok q invalidating l ≡ true
    → snoop_ok q acking none ≡ true
invalidated_ok q l h = ground arith

pub invalidated-Inv :
    (n : ℕ) (s : System) (j : ℕ) (l : Option MesiState) (w : ℕ)
    → Inv n s
    → s.snoop j ≡ invalidating
    → real_invalidate (s.line j) ≡ some (l, w)
    → Inv n (record s { line = update s.line j l; snoop = update s.snoop j acking })
invalidated-Inv n s j l w v e inv =
    let gone = real_invalidate-none (s.line j) l w inv in
    let open_ : s.snoop j ≢ quiet = λ z. cc in
    let (q, slot) = has_request n s v j open_ in
    let f = v.busy q slot in
    let apart = not_requestor n s v j open_ q slot in
    let (stage, before) = its_stage n s v j open_ q slot in
    let bound = its_bound n s v j open_ q slot in
    let t : System = record s { line = update s.line j none; snoop = update s.snoop j acking } in
    subst (λ x. Inv n (record s { line = update s.line j x; snoop = update s.snoop j acking }))
      (sym gone)
      (record {
        coherent = IsCoherent-update_unheld s.line j none v.coherent refl;
        idle = λ z. absurd (ground (arith, slot));
        busy = of_slot n t q slot (record {
          inside = f.inside;
          request = f.request;
          memory = f.memory;
          owner = ap (owner_ok q s.stage) (update_ne s.line j none q.requestor apart) ∙ f.owner;
          silent = update_ne s.snoop j acking q.requestor apart ∙ f.silent;
          others = λ k ne.
              ap (λ st. other_ok q st (update s.snoop j acking k) (update s.line j none k)) stage
              ∙ update-all_both (λ u sn x. u ≢ q.requestor → snoop_ok q sn x ≡ true) s.snoop s.line
                  j acking none
                  (λ z.
                    invalidated_ok q (s.line j)
                      (ap (λ sn. snoop_ok q sn (s.line j)) (sym e) ∙ before))
                  (λ u p. snoop_others n s v j open_ q slot u) k ne;
          counted = λ z.
              let b : s.pend ≡ pending n s.snoop = f.counted stage in
              omega (arith, b, pending-update n s.snoop j acking bound, ap open_at e);
        });
        bounded = λ k h.
            let far : j ≢ k = omega arith in
            (
              update_ne s.line j none k far ∙ (v.bounded k h).0,
              update_ne s.snoop j acking k far ∙ (v.bounded k h).1,
            );
      })

-- The requestor's copy is judged by the operation only.
owner_same :
    (q q' : Sreq) (st : Stage) (l : Option MesiState)
    → q'.mem_op ≡ q.mem_op
    → owner_ok q st l ≡ true
    → owner_ok q' st l ≡ true
owner_same q q' from_memory none e h = cc
owner_same q q' st none e h = cc
owner_same q q' st (some l) e h = ground arith

-- The facts that the next two lemmas share: cache `j`, which was asked, has replied `r`.
module _ (n : ℕ) (s : System) (v : Inv n s) (j : ℕ) (q : Sreq) (r : Reply) (slot : s.txn ≡ some q)
    (e : s.snoop j ≡ asked) (reply : receive_from_below j (s.line j) q ≡ some r) where
  open_ : s.snoop j ≢ quiet
  open_ z = cc

  f : InFlight n s q
  f = v.busy q slot

  apart : j ≢ q.requestor
  apart = not_requestor n s v j open_ q slot

  before : snoop_ok q asked (s.line j) ≡ true
  before = ap (λ sn. snoop_ok q sn (s.line j)) (sym e) ∙ (its_stage n s v j open_ q slot).1

  changed :
      (request_ok r.sreq ≡ true)
      × (r.sreq.mem_op ≡ q.mem_op)
      × (r.sreq.requestor ≡ q.requestor)
      × (r.sreq.need_snoop ≡ q.need_snoop)
      × (owns r.line ≡ false)
      × ((holds r.line ≡ true) → (holds (s.line j) ≡ true))
      × ((if r.answered then done r.sreq r.line else is_store q.mem_op && in_invalidation r.line)
          ≡ true)
  changed = receive-line j (s.line j) q r reply before f.request

  coherent : IsCoherent (update s.line j r.line)
  coherent =
      IsCoherent-update s.line j r.line v.coherent (λ k ne o. absurd (ground (arith, changed.4)))
        (λ k ne o.
          not_held (holds r.line) (holds (s.line j)) changed.5 (v.coherent k j (λ z. ne (sym z)) o))

  owner : owner_ok r.sreq snooping (update s.line j r.line r.sreq.requestor) ≡ true
  owner =
      ap (λ k. owner_ok r.sreq snooping (update s.line j r.line k)) changed.2
      ∙ ap (owner_ok r.sreq snooping) (update_ne s.line j r.line q.requestor apart)
      ∙ owner_same q r.sreq snooping (s.line q.requestor) changed.1
          (snooping_owner n s v j open_ q slot)

  others :
      (sn : Snoop)
      → snoop_ok r.sreq sn r.line ≡ true
      → (k : ℕ) → k ≢ r.sreq.requestor
      → snoop_ok r.sreq (update s.snoop j sn k) (update s.line j r.line k) ≡ true
  others sn mine =
      update-all_both (λ k x l. k ≢ r.sreq.requestor → snoop_ok r.sreq x l ≡ true) s.snoop s.line j
        sn r.line (λ z. mine)
        (λ k ne p.
          receive-others j (s.line j) (s.line k) (s.snoop k) q r reply before f.request
            (snoop_others n s v j open_ q slot k (λ z. p (z ∙ sym changed.2))) (v.coherent j k ne))

  silent : (sn : Snoop) → update s.snoop j sn r.sreq.requestor ≡ quiet
  silent sn =
      ap (update s.snoop j sn) changed.2 ∙ update_ne s.snoop j sn q.requestor apart ∙ f.silent

  bounded :
      (sn : Snoop) (k : ℕ)
      → n ≤ k
      → (update s.line j r.line k ≡ none) × (update s.snoop j sn k ≡ quiet)
  bounded sn k h =
      let inside : j < n = its_bound n s v j open_ q slot in
      let far : j ≢ k = omega arith in
      (
        update_ne s.line j r.line k far ∙ (v.bounded k h).0,
        update_ne s.snoop j sn k far ∙ (v.bounded k h).1,
      )

  abbrev replied : System
  replied = record s {
    line = update s.line j r.line;
    snoop = update s.snoop j quiet;
    txn = some r.sreq;
  }

  abbrev started : System
  started = record s {
    line = update s.line j r.line;
    snoop = update s.snoop j invalidating;
    txn = some r.sreq;
  }

  replied-Inv : r.answered ≡ true → Inv n (bus_answer replied)
  replied-Inv yes_ = bus_answer-Inv n replied r.sreq (record {
    slot = refl;
    stage = (its_stage n s v j open_ q slot).0;
    coherent = coherent;
    bounded = bounded quiet;
    inside = subst (λ k. k < n) (sym changed.2) f.inside;
    request = changed.0;
    memory = changed.3 ∙ snooping_memory n s v j open_ q slot;
    owner = owner;
    silent = silent quiet;
    others = others quiet (
        ap (λ b. if b then done r.sreq r.line else is_store q.mem_op && in_invalidation r.line)
          (sym yes_)
        ∙ changed.6);
    counted = one_less n s v j open_ q slot (update s.snoop j quiet) refl;
  })

  started-Inv : r.answered ≡ false → Inv n started
  started-Inv no_ = record {
    coherent = coherent;
    idle = λ z. cc;
    busy = of_slot n started r.sreq refl (record {
      inside = subst (λ k. k < n) (sym changed.2) f.inside;
      request = changed.0;
      memory =
          ap (λ st. asked_memory st r.sreq) stage
          ∙ changed.3
          ∙ snooping_memory n s v j open_ q slot;
      owner = ap (λ st. owner_ok r.sreq st (update s.line j r.line r.sreq.requestor)) stage ∙ owner;
      silent = silent invalidating;
      others = λ k ne.
          ap (λ st. other_ok r.sreq st (update s.snoop j invalidating k) (update s.line j r.line k))
            stage
          ∙ others invalidating
              (ap (λ op. is_store op && in_invalidation r.line) changed.1
                ∙ ap
                    (λ b.
                      if b then done r.sreq r.line else is_store q.mem_op && in_invalidation r.line)
                    (sym no_)
                ∙ changed.6)
              k ne;
      counted = λ z. omega (
        arith,
        f.counted stage,
        pending-update n s.snoop j invalidating (its_bound n s v j open_ q slot),
        ap open_at e,
      );
    });
    bounded = bounded invalidating;
  }
    where
      stage : s.stage ≡ snooping
      stage = (its_stage n s v j open_ q slot).0

  -- A snoop keeps the invariant.
  pub after_reply-Inv : Inv n (after_reply j r s)
  unfolding after_reply
  after_reply-Inv = elim (Bool-cases r.answered) [
    | inl y ↦ rw y (replied-Inv y)
    | inr m ↦ rw m (started-Inv m)
  ]
