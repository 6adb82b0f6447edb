-- ===== src/Mshr/Kept.antt =====
-- No callback that `SingleMSHR` is given is lost, and none is used twice.
use sesc_src.Common.{
  ℕ, zero, suc, ◌+◌, ◌≡◌, refl, ap, ◌∙◌, inl, inr, Bool, false, Option, none, some, List, [], ◌∷◌,
  ◌++◌, if◌then◌else◌, Option-cases, arith,
}
use sesc_src.Common.Sums.{length, occurrences, occurrences_append}
use sesc_src.Smp.Request.{MemOp}
use sesc_src.Mshr.Types.{Event, handed}
use sesc_src.Mshr.Entry.{Entry, first_entry, added, first_request, add_request, retire_entry}
use sesc_src.Mshr.Lines.{find}
use sesc_src.Mshr.Sums.{sum, sum-put-none, sum-put-some, sum-erase}
use sesc_src.Mshr.Single.{
  SingleMshr, Waiting, calc_line_addr, check_sub_entries, allocate, join, issue, add_entry, request,
}
use sesc_src.Mshr.Overflow.{consume, overflow_loop, check_overflow, recycle, finish, retire}
use sesc_src.Mshr.Handed.{handed_append}

-- How often the callback `x` waits in the overflow queue
abbrev pub waiting : ℕ → List Waiting → ℕ
waiting x [] = 0
waiting x (f ∷ fs) = (occurrences x (f.cb ∷ []) + occurrences x (f.ovflwcb ∷ [])) + waiting x fs

waiting_append :
    (x : ℕ) (fs : List Waiting) (f : Waiting)
    → waiting x (fs ++ f ∷ [])
      ≡ waiting x fs + (occurrences x (f.cb ∷ []) + occurrences x (f.ovflwcb ∷ []))
waiting_append x [] f = omega arith
waiting_append x (g ∷ gs) f = let rest = waiting_append x gs f in omega arith

abbrev pub at_entry : ℕ → ℕ → Entry → ℕ
at_entry x k e = occurrences x e.cc

-- How often the callback `x` waits, for its line or in the queue
unfoldable pub kept : ℕ → SingleMshr → ℕ
kept x m = sum (at_entry x) m.ms + waiting x m.overflow

module _ (x : ℕ) where
  check_sub_entries-kept :
      (m : SingleMshr) (e : Entry) (mo : MemOp) → kept x (check_sub_entries m e mo) ≡ kept x m
  unfolding check_sub_entries kept
  check_sub_entries-kept m e mo = refl

  allocate-kept :
      (m m' : SingleMshr) (line : ℕ) (mo : MemOp)
      → find line m.ms ≡ none
      → allocate m line mo ≡ some m'
      → (kept x m' ≡ kept x m) × (m'.overflow ≡ m.overflow)
  unfolding allocate first_request check_sub_entries kept
  allocate-kept m m' line mo absent e =
      let new =
        sum-put-none (at_entry x) line (first_entry line m.n_reads m.n_writes mo) m.ms absent in
      ground arith

  join-kept :
      (m m' : SingleMshr) (line : ℕ) (e : Entry) (c : ℕ) (mo : MemOp) (b : Bool)
      → find line m.ms ≡ some e
      → join m line e c mo ≡ some (b, m')
      → (kept x m' ≡ kept x m + (if b then occurrences x (c ∷ []) else 0))
        × (m'.overflow ≡ m.overflow)
  unfolding join add_request check_sub_entries kept
  join-kept m m' line e c mo b there got =
      let new = sum-put-some (at_entry x) line (added e c mo) e m.ms there in
      let longer = occurrences_append x e.cc (c ∷ []) in ground arith

  consume_absent-kept :
      (m m' : SingleMshr) (f : Waiting) (rest : List Waiting) (b : Bool) (es : List Event)
      (o : Option SingleMshr)
      → m.overflow ≡ f ∷ rest
      → find (calc_line_addr m f.paddr) m.ms ≡ none
      → allocate m (calc_line_addr m f.paddr) f.mo ≡ o
      → consume m f rest ≡ some (b, m', es)
      → kept x m' + handed x es ≡ kept x m
  unfolding consume kept
  consume_absent-kept m m' f rest b es none queue absent got e = ground arith
  consume_absent-kept m m' f rest b es (some m1) queue absent got e =
      let (same, left) = allocate-kept m m1 (calc_line_addr m f.paddr) f.mo absent got in
      let moved = ap (waiting x) (left ∙ queue) in let before = ap (waiting x) queue in ground arith

  consume_there-kept :
      (m m' : SingleMshr) (f : Waiting) (rest : List Waiting) (b : Bool) (es : List Event)
      (e : Entry) (o : Option (Bool × SingleMshr))
      → m.overflow ≡ f ∷ rest
      → find (calc_line_addr m f.paddr) m.ms ≡ some e
      → join m (calc_line_addr m f.paddr) e f.cb f.mo ≡ o
      → consume m f rest ≡ some (b, m', es)
      → kept x m' + handed x es ≡ kept x m
  unfolding consume kept
  consume_there-kept m m' f rest b es e none queue there got c = ground arith
  consume_there-kept m m' f rest b es e (some (a, m1)) queue there got c =
      let (same, left) = join-kept m m1 (calc_line_addr m f.paddr) e f.cb f.mo a there got in
      let moved = ap (waiting x) (left ∙ queue) in let before = ap (waiting x) queue in ground arith

  consume-kept :
      (m m' : SingleMshr) (f : Waiting) (rest : List Waiting) (b : Bool) (es : List Event)
      → m.overflow ≡ f ∷ rest
      → consume m f rest ≡ some (b, m', es)
      → kept x m' + handed x es ≡ kept x m
  consume-kept m m' f rest b es queue got =
      elim (Option-cases (find (calc_line_addr m f.paddr) m.ms)) [
        | inl absent ↦
            consume_absent-kept m m' f rest b es (allocate m (calc_line_addr m f.paddr) f.mo) queue
              absent refl got
        | inr (e, there) ↦
            consume_there-kept m m' f rest b es e (join m (calc_line_addr m f.paddr) e f.cb f.mo)
              queue there refl got
      ]

  loop-kept :
      (n : ℕ) (m m' : SingleMshr) (es : List Event) (fs : List Waiting)
      → m.overflow ≡ fs
      → overflow_loop n m ≡ some (m', es)
      → kept x m' + handed x es ≡ kept x m
  unfolding overflow_loop
  loop-kept zero m m' es fs queue e = ground arith
  loop-kept (suc n) m m' es [] queue e = ground arith
  loop-kept (suc n) m m' es (f ∷ rest) queue e = elim (Option-cases (consume m f rest)) [
    | inl stops ↦ ground arith
    | inr ((b, m1, es1), got) ↦
        let step = consume-kept m m1 f rest b es1 queue got in
        elim (Option-cases (overflow_loop n m1)) [
          | inl stops ↦ ground arith
          | inr ((m2, es2), more) ↦
              let others = loop-kept n m1 m2 es2 m1.overflow refl more in
              let both = handed_append x es1 es2 in ground arith
        ]
  ]

  finish_there-kept :
      (m m' : SingleMshr) (paddr : ℕ) (last : Bool) (es : List Event) (e : Entry) (cs : List ℕ)
      → find (calc_line_addr m paddr) m.ms ≡ some e
      → e.cc ≡ cs
      → finish m paddr ≡ some (last, m', es)
      → kept x m' + handed x es ≡ kept x m
  unfolding finish retire_entry recycle kept
  finish_there-kept m m' paddr last es e [] there waits done =
      let erased = sum-erase (at_entry x) (calc_line_addr m paddr) e m.ms there in
      let none_waits = ap (occurrences x) waits in ground arith
  finish_there-kept m m' paddr last es e (c ∷ rest) there waits done =
      let next =
        sum-put-some (at_entry x) (calc_line_addr m paddr) (record e { cc = rest }) e m.ms there in
      let one_waits = ap (occurrences x) waits in ground arith

  finish-kept :
      (m m' : SingleMshr) (paddr : ℕ) (last : Bool) (es : List Event) (o : Option Entry)
      → find (calc_line_addr m paddr) m.ms ≡ o
      → finish m paddr ≡ some (last, m', es)
      → kept x m' + handed x es ≡ kept x m
  unfolding finish
  finish-kept m m' paddr last es none absent done = ground arith
  finish-kept m m' paddr last es (some e) there done =
      finish_there-kept m m' paddr last es e e.cc there refl done

  -- For every callback `x`: after `retire` of a `SingleMSHR`, `x` waits as often as before less the times
  -- that it was called or destroyed.
  pub retire-kept :
      (m m' : SingleMshr) (paddr : ℕ) (last : Bool) (es : List Event)
      → retire m paddr ≡ some (last, m', es)
      → kept x m' + handed x es ≡ kept x m
  unfolding retire check_overflow
  retire-kept m m' paddr last es e = elim (Option-cases (finish m paddr)) [
    | inl stops ↦ ground arith
    | inr ((b, m1, es1), got) ↦
        let first = finish-kept m m1 paddr b es1 (find (calc_line_addr m paddr) m.ms) refl got in
        elim (Option-cases (overflow_loop (length m1.overflow) m1)) [
          | inl stops ↦ ground arith
          | inr ((m2, es2), more) ↦
              let others = loop-kept (length m1.overflow) m1 m2 es2 m1.overflow refl more in
              let both = handed_append x es1 es2 in ground arith
        ]
  ]

  issue-kept :
      (m m' : SingleMshr) (paddr : ℕ) (mo : MemOp) (b : Bool)
      → issue m paddr mo ≡ some (b, m')
      → (kept x m' ≡ kept x m) × (b ≡ false → m' ≡ m)
  unfolding issue
  issue-kept m m' paddr mo b e = elim (Option-cases (find (calc_line_addr m paddr) m.ms)) [
    | inl absent ↦ elim (Option-cases (allocate m (calc_line_addr m paddr) mo)) [
      | inl stops ↦ ground arith
      | inr (m1, got) ↦
          let (same, left) = allocate-kept m m1 (calc_line_addr m paddr) mo absent got in
          ground arith
    ]
    | inr (e0, there) ↦ ground arith
  ]

  add_entry-kept :
      (m m' : SingleMshr) (paddr c o : ℕ) (mo : MemOp) (es : List Event)
      → add_entry m paddr c o mo ≡ some (m', es)
      → kept x m' + handed x es ≡ kept x m + (occurrences x (c ∷ []) + occurrences x (o ∷ []))
  unfolding add_entry kept
  add_entry-kept m m' paddr c o mo es e =
      let queue =
        waiting_append x m.overflow (record { paddr = paddr; cb = c; ovflwcb = o; mo = mo }) in
      elim (Option-cases (find (calc_line_addr m paddr) m.ms)) [
        | inl absent ↦ ground arith
        | inr (e0, there) ↦ elim (Option-cases (join m (calc_line_addr m paddr) e0 c mo)) [
          | inl stops ↦ ground arith
          | inr ((a, m1), got) ↦
              let (same, left) = join-kept m m1 (calc_line_addr m paddr) e0 c mo a there got in
              let moved = ap (waiting x) left in ground arith
        ]
      ]

  -- For every callback `x`: a request to a `SingleMSHR` that is issued changes nothing in how often `x`
  -- waits. After one that is added, `x` waits as often as before and as it stands among the two
  -- callbacks given, less the times that it was destroyed.
  pub request-kept :
      (m m' : SingleMshr) (paddr c o : ℕ) (mo : MemOp) (issued : Bool) (es : List Event)
      → request m paddr c o mo ≡ some (issued, m', es)
      → kept x m' + handed x es
        ≡ kept x m + (if issued then 0 else occurrences x (c ∷ []) + occurrences x (o ∷ []))
  unfolding request
  request-kept m m' paddr c o mo issued es e = elim (Option-cases (issue m paddr mo)) [
    | inl stops ↦ ground arith
    | inr ((b, m1), got) ↦
        let (same, left) = issue-kept m m1 paddr mo b got in
        elim (Option-cases (add_entry m1 paddr c o mo)) [
          | inl stops ↦ ground arith
          | inr ((m2, es2), more) ↦
              let added = add_entry-kept m1 m2 paddr c o mo es2 more in ground arith
        ]
  ]
