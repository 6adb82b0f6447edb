-- ===== src/Mshr/Overflow.antt =====
-- libsuc/MSHR: `SingleMSHR`, an answer of the level below, and what waits in the overflow queue. The
-- flag `checkingOverflow` is set only while `checkOverflow` runs, and so never when it is entered.
use sesc_src.Common.{
  ℕ, zero, suc, ◌+◌, ◌-◌, Bool, true, false, not, Option, none, some, List, [], ◌∷◌, ◌++◌, ◌==◌,
  leb, ◌&&◌, ◌||◌, if◌then◌else◌,
}
use sesc_src.Common.Sums.{is_empty, length}
use sesc_src.Smp.Request.{MemOp}
use sesc_src.Bloom.Filter
use sesc_src.Bloom.Filter.{Vector}
use sesc_src.Mshr.Types.{Event, called, destroyed}
use sesc_src.Mshr.Entry.{Entry, has_free_reads, has_free_writes, entry_accepts, retire_entry}
use sesc_src.Mshr.Lines.{find, put, erase}
use sesc_src.Mshr.Single.{SingleMshr, Waiting, calc_line_addr, allocate, join}

-- One round of the loop of `checkOverflow`, on the first of the queue: `false` where it breaks
unfoldable pub consume :
    SingleMshr → Waiting → List Waiting → Option (Bool × SingleMshr × List Event)
unfolding allocate join
consume m f rest =
    let line = calc_line_addr m f.paddr in
    elim (find line m.ms) [
      | none ↦ if m.n_free_entries == 0 then some (false, m, []) else elim (allocate m line f.mo) [
        | none ↦ none
        | some m' ↦
            some (true, record m' { overflow = rest }, called f.ovflwcb ∷ destroyed f.cb ∷ [])
      ]
      | some e ↦ elim (join m line e f.cb f.mo) [
        | none ↦ none
        | some (accepted, m') ↦
            if accepted
            then some (true, record m' { overflow = rest }, destroyed f.ovflwcb ∷ [])
            else some (false, m, [])
      ]
    ]

-- The loop of `checkOverflow`; the first argument counts the rounds left.
unfoldable pub overflow_loop : ℕ → SingleMshr → Option (SingleMshr × List Event)
unfolding consume
overflow_loop zero m = some (m, [])
overflow_loop (suc n) m = elim m.overflow [
  | [] ↦ some (m, [])
  | f ∷ rest ↦ elim (consume m f rest) [
    | none ↦ none
    | some (goes_on, m1, es1) ↦
        if goes_on
        then elim (overflow_loop n m1) [ none ↦ none | some (m2, es2) ↦ some (m2, es1 ++ es2) ]
        else some (m1, es1)
  ]
]

-- `checkOverflow`: each round takes one off the queue.
unfoldable pub check_overflow : SingleMshr → Option (SingleMshr × List Event)
unfolding overflow_loop
check_overflow m = overflow_loop (length m.overflow) m

-- The last request of an entry is finished: the entry is free.
unfoldable pub recycle : SingleMshr → ℕ → Entry → Option SingleMshr
recycle m line e =
    if not (has_free_reads e) && m.n_full_read_entries == 0
      || not (has_free_writes e) && m.n_full_write_entries == 0
    then none
    else elim (Filter.remove e.req_line_addr m.bf) [
      | none ↦ none
      | some bf ↦ some (record m {
        n_full_read_entries =
            if has_free_reads e then m.n_full_read_entries else m.n_full_read_entries - 1;
        n_full_write_entries =
            if has_free_writes e then m.n_full_write_entries else m.n_full_write_entries - 1;
        n_free_entries = m.n_free_entries + 1;
        bf = bf;
        ms = erase line m.ms;
      })
    ]

-- `retire` before `checkOverflow`
unfoldable pub finish : SingleMshr → ℕ → Option (Bool × SingleMshr × List Event)
unfolding retire_entry recycle
finish m paddr =
    let line = calc_line_addr m paddr in
    elim (find line m.ms) [
      | none ↦ none
      | some e ↦
          if not (line == e.req_line_addr)
          then none
          else let m1 = record m { n_outs_reqs = m.n_outs_reqs - 1 } in
            let (last, e', es) = retire_entry e in
            if last
            then elim (recycle m1 line e') [ none ↦ none | some m2 ↦ some (true, m2, es) ]
            else some (false, record m1 { ms = put line e' m.ms }, es)
    ]

unfoldable pub retire : SingleMshr → ℕ → Option (Bool × SingleMshr × List Event)
unfolding finish check_overflow
retire m paddr = elim (finish m paddr) [
  | none ↦ none
  | some (last, m1, es1) ↦ elim (check_overflow m1) [
    | none ↦ none
    | some (m2, es2) ↦ some (last, m2, es1 ++ es2)
  ]
]

-- `canAllocateEntry`
abbrev pub can_allocate_entry : SingleMshr → Bool
can_allocate_entry m =
    not (m.n_free_entries == 0) && m.n_full_read_entries == 0 && m.n_full_write_entries == 0

-- `canAcceptRequestSpecial`; `I(nFreeEntries >= 0 && nFreeEntries <= nEntries)`
unfoldable pub can_accept_request_special : SingleMshr → ℕ → MemOp → Option Bool
can_accept_request_special m paddr mo =
    if not (is_empty m.overflow)
    then some false
    else if not (leb m.n_free_entries m.n_entries)
    then none
    else some (elim (find (calc_line_addr m paddr) m.ms) [
      | none ↦ not (m.n_free_entries == 0)
      | some e ↦ entry_accepts e mo
    ])
