-- ===== src/Mshr/Single.antt =====
-- libsuc/MSHR: `SingleMSHR`, an entry for each line, and a queue of the requests that find no room.
-- `putEntry`, `dropEntry` and `selectEntryToDrop`, by which another class moves entries, are left out.
use sesc_src.Common.{
  ℕ, ◌+◌, ◌-◌, ◌/◌, ◌^◌, Bool, true, false, not, Option, none, some, List, [], ◌∷◌, ◌++◌, ◌==◌, leb,
  ◌&&◌, ◌||◌, if◌then◌else◌,
}
use sesc_src.Common.Sums.{is_empty}
use sesc_src.Smp.Request.{MemOp}
use sesc_src.Bloom.Filter
use sesc_src.Bloom.Filter.{Vector}
use sesc_src.Mshr.Types.{Event, destroyed}
use sesc_src.Mshr.Entry.{
  Entry, is_read, is_write, first_request, has_free_reads, has_free_writes, add_request,
}
use sesc_src.Mshr.Lines.{Lines, find, put}

-- `OverflowFieldT`; both callbacks are there.
pub record Waiting : Type 0 where
  pub paddr : ℕ
  pub cb : ℕ
  pub ovflwcb : ℕ
  pub mo : MemOp

pub record SingleMshr : Type 0 where
  pub n_entries : ℕ
  pub n_free_entries : ℕ
  pub log2_line_size : ℕ
  pub n_reads : ℕ
  pub n_writes : ℕ
  pub n_outs_reqs : ℕ
  pub bf : List Vector
  pub n_full_read_entries : ℕ
  pub n_full_write_entries : ℕ
  pub overflow : List Waiting
  pub ms : Lines

-- `SingleMSHR(name, size, lineSize, nrd, nwr, aPolicy)`
abbrev pub create : ℕ → ℕ → ℕ → ℕ → SingleMshr
create size log2_line_size nrd nwr = record {
  n_entries = size;
  n_free_entries = size;
  log2_line_size = log2_line_size;
  n_reads = nrd;
  n_writes = nwr;
  n_outs_reqs = 0;
  bf = Filter.init_masks 0 ((8, 256) ∷ (6, 64) ∷ (6, 64) ∷ (6, 64) ∷ []);
  n_full_read_entries = 0;
  n_full_write_entries = 0;
  overflow = [];
  ms = [];
}

abbrev pub calc_line_addr : SingleMshr → ℕ → ℕ
calc_line_addr m paddr = paddr / 2 ^ m.log2_line_size

-- Are the reads of the entry full now, and the writes? If they share, both are once either is.
abbrev pub reads_filled : Entry → MemOp → Bool
reads_filled e mo =
    if e.rd_wr_sharing
    then not (has_free_reads e) || not (has_free_writes e)
    else not (has_free_reads e) && is_read mo

abbrev pub writes_filled : Entry → MemOp → Bool
writes_filled e mo =
    if e.rd_wr_sharing
    then not (has_free_reads e) || not (has_free_writes e)
    else not (has_free_writes e) && is_write mo

-- `checkSubEntries` for the entry of the line, which is there
unfoldable pub check_sub_entries : SingleMshr → Entry → MemOp → SingleMshr
check_sub_entries m e mo = record m {
  n_full_read_entries = m.n_full_read_entries + (if reads_filled e mo then 1 else 0);
  n_full_write_entries = m.n_full_write_entries + (if writes_filled e mo then 1 else 0);
}

-- A new entry for the line, of which the map has none
unfoldable pub allocate : SingleMshr → ℕ → MemOp → Option SingleMshr
unfolding first_request check_sub_entries
allocate m line mo = elim (first_request line m.n_reads m.n_writes mo) [
  | none ↦ none
  | some e ↦ some (
      check_sub_entries
        (record m {
          ms = put line e m.ms;
          bf = Filter.insert line m.bf;
          n_free_entries = m.n_free_entries - 1;
          n_outs_reqs = m.n_outs_reqs + 1;
        })
        e mo)
]

-- One more request for the line of the entry `e`: is there room for it?
unfoldable pub join : SingleMshr → ℕ → Entry → ℕ → MemOp → Option (Bool × SingleMshr)
unfolding add_request check_sub_entries
join m line e c mo = elim (add_request e c mo) [
  | none ↦ none
  | some (accepted, e') ↦
      if accepted
      then some (
        true,
        check_sub_entries (record m { ms = put line e' m.ms; n_outs_reqs = m.n_outs_reqs + 1 }) e'
            mo,
      )
      else some (false, m)
]

unfoldable pub issue : SingleMshr → ℕ → MemOp → Option (Bool × SingleMshr)
unfolding allocate
issue m paddr mo =
    let line = calc_line_addr m paddr in
    if not (is_empty m.overflow)
    then some (false, m)
    else if not (leb m.n_free_entries m.n_entries)
    then none
    else elim (find line m.ms) [
      | some e ↦ some (false, m)
      | none ↦
          if m.n_free_entries == 0
          then some (false, m)
          else elim (allocate m line mo) [ none ↦ none | some m' ↦ some (true, m') ]
    ]

-- `toOverflow`
abbrev pub to_overflow : SingleMshr → ℕ → ℕ → ℕ → MemOp → SingleMshr
to_overflow m paddr c ovflwc mo = record m {
  overflow = m.overflow ++ record { paddr = paddr; cb = c; ovflwcb = ovflwc; mo = mo } ∷ [];
}

unfoldable pub add_entry : SingleMshr → ℕ → ℕ → ℕ → MemOp → Option (SingleMshr × List Event)
unfolding join
add_entry m paddr c ovflwc mo =
    let line = calc_line_addr m paddr in
    if not (is_empty m.overflow)
    then some (to_overflow m paddr c ovflwc mo, [])
    else elim (find line m.ms) [
      | none ↦ some (to_overflow m paddr c ovflwc mo, [])
      | some e ↦ elim (join m line e c mo) [
        | none ↦ none
        | some (accepted, m') ↦
            if accepted
            then some (m', destroyed ovflwc ∷ [])
            else some (to_overflow m paddr c ovflwc mo, [])
      ]
    ]

-- How the caches use the registers: what cannot be issued is added.
unfoldable pub request : SingleMshr → ℕ → ℕ → ℕ → MemOp → Option (Bool × SingleMshr × List Event)
unfolding issue add_entry
request m paddr c ovflwc mo = elim (issue m paddr mo) [
  | none ↦ none
  | some (issued, m1) ↦
      if issued then some (true, m1, []) else elim (add_entry m1 paddr c ovflwc mo) [
        | none ↦ none
        | some (m2, es) ↦ some (false, m2, es)
      ]
]
