-- ===== src/Mshr/Tests.antt =====
-- Runs of `FullMSHR`, and each theorem at concrete registers: two entries, lines of 4 bytes.
use sesc_src.Common.{
  ℕ, ◌+◌, ◌<◌, suc, ◌≡◌, refl, sym, ap, Bool, true, false, not, Option, none, some, List, [], ◌∷◌,
  ◌==◌, ◌||◌, ◌&&◌, if◌then◌else◌, arith,
}
use sesc_src.Common.Sums.{occurrences}
use sesc_src.Mshr.Types.{Event, called, destroyed, handed, held_by}
use sesc_src.Mshr.Full.{
  FullMshr, create, calc_entry, issue, add_entry, admit, release, serve, retire, request,
}
use sesc_src.Mshr.Accounts.{IsFull, create-IsFull}
use sesc_src.Mshr.Releases.{unfinished}
use sesc_src.Mshr.Requests.{request-IsFull}
use sesc_src.Mshr.Retires.{retire-IsFull}
use sesc_src.Mshr.Handed.{held, retire-held, request-held}
use sesc_src.Mshr.Drain.{Run, settled, retired, IsIdle, Run-IsIdle}
use mathlib.Core.Path.{subst}

program : Unit {0}
unfolding calc_entry issue add_entry admit release serve retire request
program = tt

abbrev new : FullMshr
new = create 2 2 2

new-IsFull : IsFull 3 0 0 new
new-IsFull = create-IsFull 2 1 2

abbrev state_of : Option (Bool × FullMshr × List Event) → FullMshr
state_of none = new
state_of (some (b, m, es)) = m

abbrev events_of : Option (Bool × FullMshr × List Event) → List Event
events_of none = []
events_of (some (b, m, es)) = es

-- A line, the same line, and a line for which no entry is left
abbrev one : FullMshr
one = state_of (request new 0x20 10 (some 11))

abbrev two : FullMshr
two = state_of (request one 0x20 20 (some 21))

abbrev three : FullMshr
three = state_of (request two 0x24 30 (some 31))

-- The first answer lets the third line go below and the second request go on.
first_answer :
    retire three 0x20
    ≡ some (false, state_of (retire three 0x20), called 31 ∷ destroyed 30 ∷ called 20 ∷ [])
unfolding program
first_answer = refl

request-IsFull_example :
    (issued : Bool) × (m' : FullMshr) × (es : List Event) × (request new 0x20 10 (some 11)
      ≡ some (issued, m', es))
    × IsFull 3 0 0 m'
    × (issued ≡ (
        not (new.overflowing || new.n_free_entries == 0) && not (new.in_use (calc_entry new 0x20))))
request-IsFull_example = request-IsFull 3 new new-IsFull 0x20 10 (some 11)

one-IsFull : IsFull 3 0 0 one
one-IsFull =
    let (issued, m, es, e, v, w) = request-IsFull_example in
    subst (IsFull 3 0 0) (sym (ap state_of e)) v

two-IsFull : IsFull 3 0 0 two
two-IsFull =
    let (issued, m, es, e, v, w) = request-IsFull 3 one one-IsFull 0x20 20 (some 21) in
    subst (IsFull 3 0 0) (sym (ap state_of e)) v

three-IsFull : IsFull 3 0 0 three
three-IsFull =
    let (issued, m, es, e, v, w) = request-IsFull 3 two two-IsFull 0x24 30 (some 31) in
    subst (IsFull 3 0 0) (sym (ap state_of e)) v

retire-IsFull_example :
    (b : Bool) × (m' : FullMshr) × (es : List Event) × (retire three 0x20 ≡ some (b, m', es))
    × IsFull 3 0 0 m'
    × (suc (unfinished 3 m') ≡ unfinished 3 three)
unfolding program
retire-IsFull_example = retire-IsFull 3 three 0x20 three-IsFull refl

retire-held_example :
    held 3 30 (state_of (retire three 0x20)) + handed 30 (events_of (retire three 0x20))
    ≡ held 3 30 three
unfolding program
retire-held_example =
    retire-held 3 30 three (state_of (retire three 0x20)) 0x20 false (events_of (retire three 0x20))
      refl refl

request-held_example :
    held 3 30 three + handed 30 (events_of (request two 0x24 30 (some 31)))
    ≡ held 3 30 two + (if false then 0 else occurrences 30 (30 ∷ []) + held_by 30 (some 31))
unfolding program
request-held_example =
    request-held 3 30 two three 0x24 30 (some 31) false (events_of (request two 0x24 30 (some 31)))
      refl refl

abbrev empty : FullMshr
empty = state_of (retire (state_of (retire (state_of (retire three 0x20)) 0x20)) 0x24)

drained : Run 3 three empty
unfolding program
drained =
    retired 0x20 false (events_of (retire three 0x20)) refl refl
      (retired 0x20 true [] refl refl (retired 0x24 true [] refl refl settled))

Run-IsIdle_example :
    (3 + unfinished 3 empty ≡ unfinished 3 three)
    × (0 < unfinished 3 empty → (paddr : ℕ) × (empty.in_use (calc_entry empty paddr) ≡ true))
    × (3 ≡ unfinished 3 three → IsIdle 3 empty)
unfolding program
Run-IsIdle_example = Run-IsIdle 3 3 three empty three-IsFull (omega arith) drained
