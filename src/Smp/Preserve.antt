-- ===== src/Smp/Preserve.antt =====
-- Events of one cache that need no request: a write to a copy that may be written, and the
-- displacement of a copy. They keep the invariant.
use sesc_src.Common.{
  ℕ, ◌≤◌, ◌≡◌, refl, sym, ◌∙◌, ap, ◌≢◌, ◌⊎◌, inl, inr, Bool, true, false, Option, none, some, arith,
}
use mathlib.Core.Path.{subst}
use sesc_src.Common.Arrays.{update, update_ne, update-all}
use sesc_src.Smp.State.{
  MesiState, trans_inv, trans_inv_d, modified, exclusive, shared, is_locked, pre_invalidate,
}
use sesc_src.Smp.Request.{Sreq}
use sesc_src.Smp.System.{
  Snoop, quiet, asked, invalidating, acking, Stage, requested, snooping, from_memory, System,
  write_hit,
}
use sesc_src.Smp.Protocol.{is_invalidating}
use sesc_src.Smp.Local.{holds, owns, settled, snoop_ok, other_ok, owner_ok}
use sesc_src.Smp.Invariant.{IsCoherent, InFlight, Inv}

pub IsCoherent-update :
    (line : ℕ → Option MesiState) (i : ℕ) (x : Option MesiState)
    → IsCoherent line
    → ((j : ℕ) → i ≢ j → owns x ≡ true → holds (line j) ≡ false)
    → ((j : ℕ) → i ≢ j → owns (line j) ≡ true → holds x ≡ false)
    → IsCoherent (update line i x)
IsCoherent-update line i x c out into a b ne o =
    update-all (λ a y. a ≢ b → owns y ≡ true → holds (update line i x b) ≡ false) line i x
      (λ apart h.
        update-all (λ b y. i ≢ b → holds y ≡ false) line i x (λ z. absurd (z refl))
          (λ b p q. out b q h) b apart)
      (λ a p apart h.
        update-all (λ b y. a ≢ b → holds y ≡ false) line i x (λ q. into a p h) (λ b p q. c a b q h)
          b apart)
      a ne o

-- The request of a state whose slot is known.
pub of_slot :
    (n : ℕ) (s : System) (q : Sreq)
    → s.txn ≡ some q
    → InFlight n s q
    → (q' : Sreq) → s.txn ≡ some q'
    → InFlight n s q'
of_slot n s q e f q' e' = let same : q ≡ q' = cc in subst (InFlight n s) same f

other_ok_mono :
    (q : Sreq) (st : Stage) (sn : Snoop) (l x : Option MesiState)
    → (settled l ≡ true → settled x ≡ true)
    → (snoop_ok q sn l ≡ true → snoop_ok q sn x ≡ true)
    → other_ok q st sn l ≡ true
    → other_ok q st sn x ≡ true
other_ok_mono q snooping sn l x f g h = g h
other_ok_mono q requested quiet l x f g h = f h
other_ok_mono q requested sn l x f g h = h
other_ok_mono q st quiet l x f g h = g h
other_ok_mono q st sn l x f g h = h

-- What a change of one copy must respect.
pub record Weakens (sn : Snoop) (l x : Option MesiState) : Type 0 where
  pub read_less : holds x ≡ true → holds l ≡ true
  pub write_less : owns x ≡ true → owns l ≡ true
  pub still_settled : settled l ≡ true → settled x ≡ true
  pub still_ok : (q : Sreq) → snoop_ok q sn l ≡ true → snoop_ok q sn x ≡ true
  pub no_owner : (q : Sreq) (st : Stage) → owner_ok q st l ≡ false
  pub was_there : l ≢ none

pub not_held : (a b : Bool) → (a ≡ true → b ≡ true) → b ≡ false → a ≡ false
not_held true b f e = absurd (ground arith)
not_held false b f e = refl

pub change-Inv :
    (n : ℕ) (s : System) (i : ℕ) (x : Option MesiState)
    → Weakens (s.snoop i) (s.line i) x
    → Inv n s
    → Inv n (record s { line = update s.line i x })
change-Inv n s i x w v = record {
  coherent =
      IsCoherent-update s.line i x v.coherent (λ j ne o. v.coherent i j ne (w.write_less o))
        (λ j ne o.
          not_held (holds x) (holds (s.line i)) w.read_less (v.coherent j i (λ e. ne (sym e)) o));
  idle = λ e.
      update-all (λ j y. (settled y ≡ true) × (s.snoop j ≡ quiet)) s.line i x
        (w.still_settled (v.idle e i).0, (v.idle e i).1) (λ j ne. v.idle e j);
  busy = λ q e. in_flight q (v.busy q e);
  bounded =
      update-all (λ j y. n ≤ j → (y ≡ none) × (s.snoop j ≡ quiet)) s.line i x
        (λ h. absurd (w.was_there (v.bounded i h).0)) (λ j ne. v.bounded j);
}
  where
    in_flight : (q : Sreq) → InFlight n s q → InFlight n (record s { line = update s.line i x }) q
    in_flight q f =
        let apart : i ≢ q.requestor =
          λ e. absurd (grind (arith, f.owner, w.no_owner q s.stage, e)) in
        record {
          inside = f.inside;
          request = f.request;
          memory = f.memory;
          owner = ap (owner_ok q s.stage) (update_ne s.line i x q.requestor apart) ∙ f.owner;
          silent = f.silent;
          others =
              update-all (λ j y. j ≢ q.requestor → other_ok q s.stage (s.snoop j) y ≡ true) s.line i
                x
                (λ h.
                  other_ok_mono q s.stage (s.snoop i) (s.line i) x w.still_settled (w.still_ok q)
                    (f.others i h))
                (λ j ne. f.others j);
          counted = f.counted;
        }

-- A copy that can be read, or that is being invalidated, is not the copy of a waiting requestor.
no_owner_of :
    (l : Option MesiState) → settled l ≡ true → (q : Sreq) (st : Stage) → owner_ok q st l ≡ false
no_owner_of none h q from_memory = refl
no_owner_of none h q st = refl
no_owner_of (some shared) h q st = ground arith
no_owner_of (some exclusive) h q st = ground arith
no_owner_of (some modified) h q st = ground arith
no_owner_of (some trans_inv) h q st = ground arith
no_owner_of (some trans_inv_d) h q st = ground arith
no_owner_of (some l) h q st = cc

write_hit_states :
    (l l' : MesiState)
    → write_hit l ≡ some l'
    → (l' ≡ modified) × ((l ≡ modified) ⊎ (l ≡ exclusive))
unfolding write_hit
write_hit_states modified l' e = ground arith
write_hit_states exclusive l' e = ground arith
write_hit_states l l' e = cc

-- Two copies with the same rights are alike for every snoop.
same_rights :
    (q : Sreq) (sn : Snoop)
    → snoop_ok q sn (some exclusive) ≡ true
    → snoop_ok q sn (some modified) ≡ true
same_rights q quiet h = ground arith
same_rights q sn h = ground arith

pub wrote-Weakens :
    (sn : Snoop) (l l' : MesiState) → write_hit l ≡ some l' → Weakens sn (some l) (some l')
wrote-Weakens sn l l' e =
    let (to, from) = write_hit_states l l' e in
    elim from [
      | inl m ↦
          rw (to, m)
            (record {
              read_less = λ h. h;
              write_less = λ h. h;
              still_settled = λ h. h;
              still_ok = λ q h. h;
              no_owner = no_owner_of (some modified) refl;
              was_there = λ h. cc;
            })
      | inr x ↦
          rw (to, x)
            (record {
              read_less = λ h. refl;
              write_less = λ h. refl;
              still_settled = λ h. refl;
              still_ok = λ q h. same_rights q sn h;
              no_owner = no_owner_of (some exclusive) refl;
              was_there = λ h. cc;
            })
    ]

displacing_ok :
    (q : Sreq) (sn : Snoop) (l l' : MesiState)
    → holds (some l) ≡ true
    → is_invalidating l' ≡ true
    → snoop_ok q sn (some l) ≡ true
    → snoop_ok q sn (some l') ≡ true
displacing_ok q sn shared trans_inv h k o = ground arith
displacing_ok q sn exclusive trans_inv h k o = ground arith
displacing_ok q sn modified trans_inv h k o = ground arith
displacing_ok q sn shared trans_inv_d h k o = ground arith
displacing_ok q sn exclusive trans_inv_d h k o = ground arith
displacing_ok q sn modified trans_inv_d h k o = ground arith
displacing_ok q sn l l' h k o = cc

invalidating_rights :
    (l : MesiState)
    → is_invalidating l ≡ true
    → (settled (some l) ≡ true) × (holds (some l) ≡ false) × (owns (some l) ≡ false)
invalidating_rights trans_inv h = (refl, refl, refl)
invalidating_rights trans_inv_d h = (refl, refl, refl)
invalidating_rights l h = (cc, cc, cc)

pre_invalidate_states :
    (l l' : MesiState)
    → is_locked l ≡ false
    → pre_invalidate l ≡ some l'
    → (holds (some l) ≡ true) × (settled (some l) ≡ true) × (is_invalidating l' ≡ true)
pre_invalidate_states shared l' h e = ground arith
pre_invalidate_states exclusive l' h e = ground arith
pre_invalidate_states modified l' h e = ground arith
pre_invalidate_states l l' h e = (cc, cc, cc)

pub displacing-Weakens :
    (sn : Snoop) (l l' : MesiState)
    → is_locked l ≡ false
    → pre_invalidate l ≡ some l'
    → Weakens sn (some l) (some l')
displacing-Weakens sn l l' h e =
    let (held, kept, to) = pre_invalidate_states l l' h e in
    let (s, no_read, no_write) = invalidating_rights l' to in
    record {
      read_less = λ r. held;
      write_less = λ w. absurd (ground arith);
      still_settled = λ t. s;
      still_ok = λ q o. displacing_ok q sn l l' held to o;
      no_owner = no_owner_of (some l) kept;
      was_there = λ z. cc;
    }

displaced_ok :
    (q : Sreq) (sn : Snoop) (l : MesiState)
    → is_invalidating l ≡ true
    → sn ≢ invalidating
    → snoop_ok q sn (some l) ≡ true
    → snoop_ok q sn none ≡ true
displaced_ok q quiet trans_inv h n o = ground arith
displaced_ok q asked trans_inv h n o = ground arith
displaced_ok q invalidating trans_inv h n o = absurd (n refl)
displaced_ok q acking trans_inv h n o = ground arith
displaced_ok q quiet trans_inv_d h n o = ground arith
displaced_ok q asked trans_inv_d h n o = ground arith
displaced_ok q invalidating trans_inv_d h n o = absurd (n refl)
displaced_ok q acking trans_inv_d h n o = ground arith
displaced_ok q sn l h n o = cc

pub displaced-Weakens :
    (sn : Snoop) (l : MesiState)
    → is_invalidating l ≡ true
    → sn ≢ invalidating
    → Weakens sn (some l) none
displaced-Weakens sn l h n =
    let (s, no_read, no_write) = invalidating_rights l h in
    record {
      read_less = λ r. absurd (ground arith);
      write_less = λ w. absurd (ground arith);
      still_settled = λ t. refl;
      still_ok = λ q o. displaced_ok q sn l h n o;
      no_owner = no_owner_of (some l) s;
      was_there = λ z. cc;
    }
