-- ===== src/Mshr/BankedTests.antt =====
-- Runs of `BankedMSHR`, and each theorem at concrete registers: two banks of one entry, one read each.
use sesc_src.Common.{
  ◌≡◌, refl, sym, ap, Bool, true, false, Option, none, some, List, [], ◌∷◌, arith,
}
use sesc_src.Common.Sums.{is_empty}
use sesc_src.Smp.Request.{mem_read}
use sesc_src.Bloom.Filter
use sesc_src.Mshr.Types.{Event, called, destroyed}
use sesc_src.Mshr.Entry.{Entry, first_request, add_request, retire_entry}
use sesc_src.Mshr.Lines.{find, put, erase}
use sesc_src.Mshr.Single
use sesc_src.Mshr.Single.{calc_line_addr, check_sub_entries, allocate, join}
use sesc_src.Mshr.Overflow
use sesc_src.Mshr.Overflow.{consume, recycle, finish, can_accept_request_special}
use sesc_src.Mshr.Banked.{
  BankedMshr, create, calc_bank_index, bank, issue, bank_entry, add_entry, request, pass_on,
  overflow_loop, check_overflow, retire,
}
use sesc_src.Mshr.Shared.{IsBanked, IsPassedOn}
use sesc_src.Mshr.Passing.{create-IsBanked, retire-IsBanked}
use sesc_src.Mshr.Admission.{request-IsBanked}
use mathlib.Core.Path.{subst}

program : Unit {0}
unfolding first_request add_request retire_entry find put erase check_sub_entries allocate join
    Single.issue Single.add_entry consume Overflow.overflow_loop Overflow.check_overflow recycle
    finish Overflow.retire can_accept_request_special calc_bank_index issue bank_entry add_entry
    request pass_on overflow_loop check_overflow retire Filter.ones Filter.init_masks
    Filter.get_index Filter.insert Filter.remove
program = tt

abbrev new : BankedMshr
new = create 1 2 2 1 1

new-IsBanked : IsBanked new
new-IsBanked = create-IsBanked 1 2 2 1 1 (omega arith)

abbrev state_of : Option (Bool × BankedMshr × List Event) → BankedMshr
state_of none = new
state_of (some (b, m, es)) = m

abbrev entry_of : Option Entry → Entry
entry_of none = record {
  n_reads = 0;
  n_free_reads = 0;
  n_writes = 0;
  rd_wr_sharing = false;
  n_free_writes = 0;
  n_free_s_entries = 0;
  cc = [];
  req_line_addr = 0;
}
entry_of (some e) = e

-- The first line goes to the first bank; another line of that bank waits.
abbrev one : BankedMshr
one = state_of (request new 0x20 10 11 mem_read)

abbrev two : BankedMshr
two = state_of (request one 0x28 20 21 mem_read)

waits : is_empty two.overflow ≡ false
unfolding program
waits = refl

answer : retire two 0x20 ≡ some (true, state_of (retire two 0x20), called 21 ∷ destroyed 20 ∷ [])
unfolding program
answer = refl

request-IsBanked_example :
    (issued : Bool) × (b' : BankedMshr) × (es : List Event) × (request new 0x20 10 11 mem_read
      ≡ some (issued, b', es))
    × IsBanked b'
    × IsPassedOn b' b'.overflow
request-IsBanked_example = request-IsBanked new 0x20 10 11 mem_read new-IsBanked tt refl

one-IsBanked : IsBanked one × IsPassedOn one one.overflow
one-IsBanked =
    let (issued, m, es, e, v, passed) = request-IsBanked_example in
    subst (λ s. IsBanked s × IsPassedOn s s.overflow) (sym (ap state_of e)) (v, passed)

two-IsBanked : IsBanked two × IsPassedOn two two.overflow
two-IsBanked =
    let (issued, m, es, e, v, passed) =
      request-IsBanked one 0x28 20 21 mem_read one-IsBanked.0 one-IsBanked.1 refl in
    subst (λ s. IsBanked s × IsPassedOn s s.overflow) (sym (ap state_of e)) (v, passed)

retire-IsBanked_example :
    (last : Bool) × (b' : BankedMshr) × (es : List Event) × (retire two 0x20 ≡ some (last, b', es))
    × IsBanked b'
    × IsPassedOn b' b'.overflow
unfolding program
retire-IsBanked_example =
    retire-IsBanked two 0x20
      (entry_of (find (calc_line_addr (bank two 0x20) 0x20) (bank two 0x20).ms)) two-IsBanked.0 refl
