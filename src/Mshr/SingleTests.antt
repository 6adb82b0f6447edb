-- ===== src/Mshr/SingleTests.antt =====
-- Runs of `SingleMSHR`, and each theorem at concrete registers: one entry with two reads and one write.
use sesc_src.Common.{
  ◌+◌, if◌then◌else◌, ◌≡◌, refl, sym, ap, Bool, true, false, Option, none, some, List, [], ◌∷◌,
  arith,
}
use sesc_src.Common.Sums.{is_empty, occurrences}
use sesc_src.Smp.Request.{mem_read, mem_write}
use sesc_src.Bloom.Filter
use sesc_src.Mshr.Types.{Event, called, destroyed, handed}
use sesc_src.Mshr.Entry.{Entry, first_request, add_request, retire_entry}
use sesc_src.Mshr.Lines.{find, put, erase}
use sesc_src.Mshr.Single.{
  SingleMshr, create, calc_line_addr, check_sub_entries, allocate, join, issue, add_entry, request,
}
use sesc_src.Mshr.Overflow.{consume, overflow_loop, check_overflow, recycle, finish, retire}
use sesc_src.Mshr.Counted.{IsSingle}
use sesc_src.Mshr.Upkeep.{IsServed, check_overflow-IsServed}
use sesc_src.Mshr.Finish.{retire-IsSingle}
use sesc_src.Mshr.Whole.{create-IsSingle, request-IsSingle}
use sesc_src.Mshr.Kept.{kept, retire-kept, request-kept}
use mathlib.Core.Path.{subst}

program : Unit {0}
unfolding first_request add_request retire_entry find put erase check_sub_entries allocate join
    issue add_entry request consume overflow_loop check_overflow recycle finish retire Filter.ones
    Filter.init_masks Filter.get_index Filter.insert Filter.remove
program = tt

abbrev new : SingleMshr
new = create 1 2 2 1

new-IsSingle : IsSingle new
new-IsSingle = create-IsSingle 1 2 2 1 (omega arith)

abbrev state_of : Option (Bool × SingleMshr × List Event) → SingleMshr
state_of none = new
state_of (some (b, m, es)) = m

abbrev entry_of : Option Entry → Entry
entry_of none = record {
  n_reads = 0;
  n_free_reads = 0;
  n_writes = 0;
  rd_wr_sharing = false;
  n_free_writes = 0;
  n_free_s_entries = 0;
  cc = [];
  req_line_addr = 0;
}
entry_of (some e) = e

-- A read is issued; a write of the same line joins it; a second write has no room.
abbrev one : SingleMshr
one = state_of (request new 0x20 10 11 mem_read)

abbrev two : SingleMshr
two = state_of (request one 0x22 20 21 mem_write)

abbrev three : SingleMshr
three = state_of (request two 0x23 30 31 mem_write)

counts :
    (two.n_full_write_entries ≡ 1)
    × (two.n_full_read_entries ≡ 0)
    × (is_empty two.overflow ≡ true)
    × (is_empty three.overflow ≡ false)
unfolding program
counts = (refl, refl, refl, refl)

-- The first answer lets the joined write go on; the second frees the entry, which the waiting write takes.
abbrev four : SingleMshr
four = state_of (retire three 0x20)

answers :
    (retire three 0x20 ≡ some (false, four, called 20 ∷ []))
    × (retire four 0x20 ≡ some (true, state_of (retire four 0x20), called 31 ∷ destroyed 30 ∷ []))
unfolding program
answers = (refl, refl)

request-IsSingle_example :
    (issued : Bool) × (m' : SingleMshr) × (es : List Event) × (request new 0x20 10 11 mem_read
      ≡ some (issued, m', es))
    × IsSingle m'
    × IsServed m' m'.overflow
request-IsSingle_example = request-IsSingle new new-IsSingle 0x20 10 11 mem_read refl tt

one-IsSingle : IsSingle one × IsServed one one.overflow
one-IsSingle =
    let (issued, m, es, e, v, served) = request-IsSingle_example in
    subst (λ s. IsSingle s × IsServed s s.overflow) (sym (ap state_of e)) (v, served)

two-IsSingle : IsSingle two × IsServed two two.overflow
two-IsSingle =
    let (issued, m, es, e, v, served) =
      request-IsSingle one one-IsSingle.0 0x22 20 21 mem_write refl one-IsSingle.1 in
    subst (λ s. IsSingle s × IsServed s s.overflow) (sym (ap state_of e)) (v, served)

three-IsSingle : IsSingle three × IsServed three three.overflow
three-IsSingle =
    let (issued, m, es, e, v, served) =
      request-IsSingle two two-IsSingle.0 0x23 30 31 mem_write refl two-IsSingle.1 in
    subst (λ s. IsSingle s × IsServed s s.overflow) (sym (ap state_of e)) (v, served)

retire-IsSingle_example :
    (m' : SingleMshr) × (es : List Event) × (retire three 0x20 ≡ some (false, m', es))
    × IsSingle m'
    × IsServed m' m'.overflow
unfolding program
retire-IsSingle_example =
    retire-IsSingle three 0x20 (entry_of (find (calc_line_addr three 0x20) three.ms))
      three-IsSingle.0 refl

check_overflow-IsServed_example :
    (m' : SingleMshr) × (es : List Event) × (check_overflow three ≡ some (m', es))
    × IsSingle m'
    × IsServed m' m'.overflow
check_overflow-IsServed_example = check_overflow-IsServed three three-IsSingle.0

abbrev events_of : Option (Bool × SingleMshr × List Event) → List Event
events_of none = []
events_of (some (b, m, es)) = es

retire-kept_example :
    kept 30 (state_of (retire four 0x20)) + handed 30 (events_of (retire four 0x20)) ≡ kept 30 four
unfolding program
retire-kept_example =
    retire-kept 30 four (state_of (retire four 0x20)) 0x20 true (events_of (retire four 0x20)) refl

request-kept_example :
    kept 20 two + handed 20 (events_of (request one 0x22 20 21 mem_write))
    ≡ kept 20 one + (if false then 0 else occurrences 20 (20 ∷ []) + occurrences 20 (21 ∷ []))
unfolding program
request-kept_example =
    request-kept 20 one two 0x22 20 21 mem_write false
      (events_of (request one 0x22 20 21 mem_write)) refl
