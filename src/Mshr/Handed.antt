-- ===== src/Mshr/Handed.antt =====
-- No callback that `FullMSHR` is given is lost, and none is used twice.
use sesc_src.Common.{
  ℕ, ◌+◌, ◌-◌, ◌^◌, ◌≡◌, refl, ap, ◌∙◌, Bool, true, false, not, Option, none, some, List, [], ◌∷◌,
  ◌++◌, if◌then◌else◌, arith,
}
use sesc_src.Common.Sums.{is_empty, occurrences, occurrences_append, total, total-update}
use sesc_src.Mshr.Types.{Event, add, destroy, handed, held_by, queued, OverflowField}
use sesc_src.Mshr.Full.{
  FullMshr, calc_entry, issue, add_entry, admit, release, serve, retire, request,
}
use sesc_src.Mshr.Accounts.{calc_entry-lt}

-- How often the callback `x` waits
unfoldable pub held : ℕ → ℕ → FullMshr → ℕ
held bits x m = total (2 ^ bits) (λ i. occurrences x (m.cc i)) + queued x m.overflow

pub handed_append : (x : ℕ) (es fs : List Event) → handed x (es ++ fs) ≡ handed x es + handed x fs
handed_append x [] fs = omega arith
handed_append x (e ∷ es) fs = let rest = handed_append x es fs in omega arith

queued_append :
    (x : ℕ) (fs : List OverflowField) (f : OverflowField)
    → queued x (fs ++ f ∷ []) ≡ queued x fs + (occurrences x (f.cb ∷ []) + held_by x f.ovflwcb)
queued_append x [] f = omega arith
queued_append x (g ∷ gs) f = let rest = queued_append x gs f in omega arith

handed-destroy : (x : ℕ) (o : Option ℕ) → handed x (destroy o) ≡ held_by x o
handed-destroy x none = refl
handed-destroy x (some c) = omega arith

abbrev Answer : Type 0
Answer = Option (Bool × FullMshr × List Event)

module _ (bits x : ℕ) where
  add_entry-held :
      (m m' : FullMshr) (paddr c : ℕ) (o : Option ℕ) (es : List Event)
      → m.mshr_mask ≡ 2 ^ bits - 1
      → add_entry m paddr c o ≡ some (m', es)
      → held bits x m' + handed x es ≡ held bits x m + (occurrences x (c ∷ []) + held_by x o)
  unfolding add_entry held
  add_entry-held m m' paddr c o es mask e =
      let pos = calc_entry m paddr in
      let here =
        total-update (2 ^ bits) (λ j cs. occurrences x cs) m.cc pos (add (m.cc pos) c)
          (calc_entry-lt bits m paddr mask) in
      let longer = occurrences_append x (m.cc pos) (c ∷ []) in
      let queue = queued_append x m.overflow (record { paddr = paddr; cb = c; ovflwcb = o }) in
      let gone = handed-destroy x o in ground arith

  admit-held :
      (m : FullMshr) (f : OverflowField)
      → m.mshr_mask ≡ 2 ^ bits - 1
      → held bits x (admit m f).0 + handed x (admit m f).1
        ≡ held bits x m + (occurrences x (f.cb ∷ []) + held_by x f.ovflwcb)
  unfolding admit held
  admit-held m f mask =
      let pos = calc_entry m f.paddr in
      let here =
        total-update (2 ^ bits) (λ j cs. occurrences x cs) m.cc pos (add (m.cc pos) f.cb)
          (calc_entry-lt bits m f.paddr mask) in
      let longer = occurrences_append x (m.cc pos) (f.cb ∷ []) in
      let gone = handed-destroy x f.ovflwcb in ground arith

  serve_list-held :
      (m m' : FullMshr) (paddr : ℕ) (b : Bool) (es : List Event) (cs : List ℕ)
      → m.mshr_mask ≡ 2 ^ bits - 1
      → m.cc (calc_entry m paddr) ≡ cs
      → serve m paddr ≡ some (b, m', es)
      → held bits x m' + handed x es ≡ held bits x m
  unfolding serve held
  serve_list-held m m' paddr b es [] mask waits e = ground arith
  serve_list-held m m' paddr b es (c ∷ rest) mask waits e =
      let pos = calc_entry m paddr in
      let here =
        total-update (2 ^ bits) (λ j cs. occurrences x cs) m.cc pos rest
          (calc_entry-lt bits m paddr mask) in
      let before = ap (occurrences x) waits in ground arith

  release-held :
      (m m' : FullMshr) (es : List Event) (fs : List OverflowField)
      → m.mshr_mask ≡ 2 ^ bits - 1
      → m.overflow ≡ fs
      → release m ≡ some (m', es)
      → held bits x m' + handed x es ≡ held bits x m
  unfolding release held
  release-held m m' es [] mask queue e = ground arith
  release-held m m' es (f ∷ rest) mask queue e =
      let m0 = record m { overflow = rest; overflowing = not (is_empty rest) } in
      let moved = admit-held m0 f mask in let before = ap (queued x) queue in ground arith

  release-mask :
      (m m' : FullMshr) (es : List Event) → release m ≡ some (m', es) → m'.mshr_mask ≡ m.mshr_mask
  unfolding release admit
  release-mask m m' es e = ground arith

  serve_stage :
      (s : Option (Bool × FullMshr × List Event)) (m' : FullMshr) (b : Bool) (es es1 : List Event)
      → elim s as (λ k. Answer) [ none ↦ none | some (b, m2, es2) ↦ some (b, m2, es1 ++ es2) ]
        ≡ some (b, m', es)
      → (es2 : List Event) × (s ≡ some (b, m', es2)) × (es ≡ es1 ++ es2)
  serve_stage none m' b es es1 e = absurd (cc)
  serve_stage (some (b2, m2, es2)) m' b es es1 e = (es2, cc, cc)

  release_stage :
      (r : Option (FullMshr × List Event)) (m' : FullMshr) (paddr : ℕ) (b : Bool) (es : List Event)
      → elim r as (λ k. Answer) [
        | none ↦ none
        | some (m1, es1) ↦ elim (serve m1 paddr) as (λ k. Answer) [
          | none ↦ none
          | some (b, m2, es2) ↦ some (b, m2, es1 ++ es2)
        ]
      ]
        ≡ some (b, m', es)
      → (m1 : FullMshr) × (es1 : List Event) × (es2 : List Event) × (r ≡ some (m1, es1))
        × (serve m1 paddr ≡ some (b, m', es2))
        × (es ≡ es1 ++ es2)
  release_stage none m' paddr b es e = absurd (cc)
  release_stage (some (m1, es1)) m' paddr b es e =
      let (es2, e2, both) = serve_stage (serve m1 paddr) m' b es es1 e in
      (m1, es1, es2, refl, e2, both)

  retire_stages :
      (m m' : FullMshr) (paddr : ℕ) (b : Bool) (es : List Event)
      → retire m paddr ≡ some (b, m', es)
      → (m1 : FullMshr) × (es1 : List Event) × (es2 : List Event) × (release m ≡ some (m1, es1))
        × (serve m1 paddr ≡ some (b, m', es2))
        × (es ≡ es1 ++ es2)
  unfolding retire
  retire_stages m m' paddr b es e = release_stage (release m) m' paddr b es e

  -- For every callback `x`: after `retire`, `x` waits as often as before less the times that `retire`
  -- has called or destroyed it.
  pub retire-held :
      (m m' : FullMshr) (paddr : ℕ) (b : Bool) (es : List Event)
      → m.mshr_mask ≡ 2 ^ bits - 1
      → retire m paddr ≡ some (b, m', es)
      → held bits x m' + handed x es ≡ held bits x m
  retire-held m m' paddr b es mask e =
      let (m1, es1, es2, e1, e2, both) = retire_stages m m' paddr b es e in
      let first = release-held m m1 es1 m.overflow mask refl e1 in
      let mask1 : m1.mshr_mask ≡ 2 ^ bits - 1 = release-mask m m1 es1 e1 ∙ mask in
      let second = serve_list-held m1 m' paddr b es2 (m1.cc (calc_entry m1 paddr)) mask1 refl e2 in
      let parts = ap (handed x) both ∙ handed_append x es1 es2 in omega arith

  issue-held :
      (m m' : FullMshr) (paddr : ℕ) (b : Bool)
      → issue m paddr ≡ some (b, m')
      → (held bits x m' ≡ held bits x m) × (m'.mshr_mask ≡ m.mshr_mask)
  unfolding issue held
  issue-held m m' paddr b e = ground arith

  added_stage :
      (s : Option (FullMshr × List Event)) (m' : FullMshr) (issued : Bool) (es : List Event)
      → elim s as (λ k. Answer) [ none ↦ none | some (m2, es2) ↦ some (false, m2, es2) ]
        ≡ some (issued, m', es)
      → (issued ≡ false) × (s ≡ some (m', es))
  added_stage none m' issued es e = absurd (cc)
  added_stage (some (m2, es2)) m' issued es e = (cc, cc)

  issued_stage :
      (r : Option (Bool × FullMshr)) (m m' : FullMshr) (paddr c : ℕ) (o : Option ℕ) (issued : Bool)
      (es : List Event)
      → ((b : Bool) (m1 : FullMshr)
          → r ≡ some (b, m1)
          → (held bits x m1 ≡ held bits x m) × (m1.mshr_mask ≡ 2 ^ bits - 1))
      → elim r as (λ k. Answer) [
        | none ↦ none
        | some (b, m1) ↦
            if b then some (true, m1, []) else elim (add_entry m1 paddr c o) as (λ k. Answer) [
              | none ↦ none
              | some (m2, es) ↦ some (false, m2, es)
            ]
      ]
        ≡ some (issued, m', es)
      → held bits x m' + handed x es
        ≡ held bits x m + (if issued then 0 else occurrences x (c ∷ []) + held_by x o)
  issued_stage none m m' paddr c o issued es before e = absurd (cc)
  issued_stage (some (true, m1)) m m' paddr c o issued es before e =
      let (same, mask) = before true m1 refl in
      let went : issued ≡ true = cc in
      let left : m' ≡ m1 = cc in
      let quiet : es ≡ [] = cc in
      let kept = ap (held bits x) left in let none_handed = ap (handed x) quiet in ground arith
  issued_stage (some (false, m1)) m m' paddr c o issued es before e =
      let (same, mask) = before false m1 refl in
      let (waits, got) = added_stage (add_entry m1 paddr c o) m' issued es e in
      let added = add_entry-held m1 m' paddr c o es mask got in ground arith

  -- For every callback `x`: a request that is issued changes nothing in how often `x` waits. After one
  -- that is added, `x` waits as often as before and as it stands among the two callbacks given, less
  -- the times that the call has destroyed it.
  pub request-held :
      (m m' : FullMshr) (paddr c : ℕ) (o : Option ℕ) (issued : Bool) (es : List Event)
      → m.mshr_mask ≡ 2 ^ bits - 1
      → request m paddr c o ≡ some (issued, m', es)
      → held bits x m' + handed x es
        ≡ held bits x m + (if issued then 0 else occurrences x (c ∷ []) + held_by x o)
  unfolding request
  request-held m m' paddr c o issued es mask e =
      issued_stage (issue m paddr) m m' paddr c o issued es
        (λ b m1 got. let (same, mask1) = issue-held m m1 paddr b got in (same, mask1 ∙ mask)) e
