-- ===== src/Smp/Returned.antt =====
-- The request is back at its requestor: this keeps the invariant.
use sesc_src.Common.{
  ℕ, ◌≤◌, ◌<◌, ◌≡◌, refl, sym, ◌∙◌, ap, ◌≢◌, inl, inr, true, false, Option, none, some, ◌==◌,
  ==_iff, ==-false_iff, Bool-cases, arith,
}
use mathlib.Core.Path.{subst}
use sesc_src.Common.Arrays.{update, update_self, update_ne, update-all}
use sesc_src.Smp.State.{MesiState, trans_rd, trans_rd_mem, trans_wr, trans_wr_mem}
use sesc_src.Smp.Request.{Sreq}
use sesc_src.Smp.Protocol.{Outcome}
use sesc_src.Smp.System.{Snoop, quiet, Stage, answered, from_memory, System}
use sesc_src.Smp.Local.{holds, settled, done, other_ok, owner_ok, asked_memory}
use sesc_src.Smp.Invariant.{InFlight, Inv}
use sesc_src.Smp.Preserve.{IsCoherent-update, of_slot}
use sesc_src.Smp.Transact.{IsCoherent-update_unheld}
use sesc_src.Smp.Request.{no_snoop}
use sesc_src.Smp.Protocol.{to_memory, concluded, return_access}
use sesc_src.Smp.System.{is_return, after_outcome}
use sesc_src.Smp.Local.{is_invalid}
use sesc_src.Smp.Handlers.{return-concluded, from_miss, to_memory-from, to_memory-request}

other_returned :
    (q : Sreq) (st : Stage) (sn : Snoop) (l : Option MesiState)
    → is_return st ≡ true
    → other_ok q st sn l ≡ true
    → (sn ≡ quiet) × (done q l ≡ true)
other_returned q answered quiet l r h = (refl, h)
other_returned q from_memory quiet l r h = (refl, h)
other_returned q st sn l r h = (cc, cc)

done-settled : (q : Sreq) (l : Option MesiState) → done q l ≡ true → settled l ≡ true
done-settled q l h = ground arith

miss_owner :
    (l : Option MesiState) (q : Sreq) (l' : MesiState)
    → from_miss l q l' ≡ true
    → is_invalid q.state ≡ true
    → (owner_ok (no_snoop q) from_memory (some l') ≡ true)
      × (asked_memory from_memory (no_snoop q) ≡ true)
      × (holds (some l') ≡ false)
miss_owner none q l' h i = cc
miss_owner (some trans_rd) q trans_rd_mem h i = (ground arith, ground arith, refl)
miss_owner (some trans_wr) q trans_wr_mem h i = (ground arith, ground arith, refl)
miss_owner (some l) q l' h i = absurd (ground arith)

module _ (n : ℕ) (s : System) (v : Inv n s) (q : Sreq) (slot : s.txn ≡ some q)
    (back : is_return s.stage ≡ true) where
  f : InFlight n s q
  f = v.busy q slot

  rest : (j : ℕ) → j ≢ q.requestor → (s.snoop j ≡ quiet) × (done q (s.line j) ≡ true)
  rest j ne = other_returned q s.stage (s.snoop j) (s.line j) back (f.others j ne)

  mute : (j : ℕ) → s.snoop j ≡ quiet
  mute j = elim (Bool-cases (j == q.requestor)) [
    | inl e ↦ ap s.snoop ((==_iff j q.requestor).0 e) ∙ f.silent
    | inr ne ↦ (rest j ((==-false_iff j q.requestor).0 ne)).0
  ]

  bounded :
      (l : MesiState) (j : ℕ)
      → n ≤ j
      → (update s.line q.requestor (some l) j ≡ none) × (s.snoop j ≡ quiet)
  bounded l j h =
      let inside : q.requestor < n = f.inside in
      let far : q.requestor ≢ j = omega arith in
      (update_ne s.line q.requestor (some l) j far ∙ (v.bounded j h).0, mute j)

  concluded-Inv :
      (l : MesiState)
      → return_access (s.line q.requestor) q ≡ some (concluded l)
      → Inv n (record s { line = update s.line q.requestor (some l); txn = none })
  concluded-Inv l e =
      let (calm, fits) = return-concluded (s.line q.requestor) q s.stage l e f.owner in
      record {
        coherent =
            IsCoherent-update s.line q.requestor (some l) v.coherent
              (λ j ne o. (fits (s.line j) (rest j (λ z. ne (sym z))).1).0 o)
              (λ j ne o. (fits (s.line j) (rest j (λ z. ne (sym z))).1).1 o);
        idle = λ z.
            update-all (λ j y. (settled y ≡ true) × (s.snoop j ≡ quiet)) s.line q.requestor (some l)
              (calm, f.silent)
              (λ j ne. (done-settled q (s.line j) (rest j (λ z. ne (sym z))).1, mute j));
        busy = λ q' z. absurd (ground arith);
        bounded = bounded l;
      }

  to_memory-Inv :
      (l : MesiState) (q' : Sreq)
      → return_access (s.line q.requestor) q ≡ some (to_memory l q')
      → Inv n (record s {
        line = update s.line q.requestor (some l);
        txn = some q';
        stage = from_memory;
      })
  to_memory-Inv l q' e =
      let (nobody, miss) = to_memory-from (s.line q.requestor) q l q' e in
      let (own, mem, unheld) = miss_owner (s.line q.requestor) q l miss nobody in
      let t : System = record s {
        line = update s.line q.requestor (some l);
        txn = some (no_snoop q);
        stage = from_memory;
      } in
      subst
        (λ x. Inv n (record s {
          line = update s.line q.requestor (some l);
          txn = some x;
          stage = from_memory;
        }))
        (sym (to_memory-request (s.line q.requestor) q l q' e))
        (record {
          coherent = IsCoherent-update_unheld s.line q.requestor (some l) v.coherent unheld;
          idle = λ z. cc;
          busy = of_slot n t (no_snoop q) refl (record {
            inside = f.inside;
            request = f.request;
            memory = mem;
            owner =
                ap (owner_ok (no_snoop q) from_memory) (update_self s.line q.requestor (some l))
                ∙ own;
            silent = f.silent;
            others =
                update-all
                  (λ j y. j ≢ q.requestor → other_ok (no_snoop q) from_memory (s.snoop j) y ≡ true)
                  s.line q.requestor (some l) (λ z. absurd (z refl))
                  (λ j ne p. let (a, b) = rest j p in rw a b);
            counted = λ z. cc;
          });
          bounded = bounded l;
        })

  -- An acknowledgement at the requestor keeps the invariant.
  pub after_outcome-Inv :
      (o : Outcome)
      → return_access (s.line q.requestor) q ≡ some o
      → Inv n (after_outcome q.requestor o s)
  unfolding after_outcome
  after_outcome-Inv (concluded l) e = concluded-Inv l e
  after_outcome-Inv (to_memory l q') e = to_memory-Inv l q' e
