-- ===== src/Mshr/Entry.antt =====
-- libsuc/MSHR: `MSHRentry`, the reads and writes of one line, and how many more it can take. A line
-- has room for one read at least. The set of written words, the time of allocation, the hit flag and
-- `displaced` serve statistics and the dropping of entries, and are left out.
use sesc_src.Common.{
  ℕ, ◌+◌, ◌-◌, Bool, true, false, not, Option, none, some, List, [], ◌∷◌, ◌==◌, leb, ◌&&◌, ◌||◌,
  if◌then◌else◌,
}
use sesc_src.Smp.Request.{MemOp, mem_read, mem_write}
use sesc_src.Mshr.Types.{Event, called, check, add}

pub record Entry : Type 0 where
  pub n_reads : ℕ
  pub n_free_reads : ℕ
  pub n_writes : ℕ
  pub rd_wr_sharing : Bool
  pub n_free_writes : ℕ
  pub n_free_s_entries : ℕ
  pub cc : List ℕ
  pub req_line_addr : ℕ

abbrev pub is_read : MemOp → Bool
is_read mem_read = true
is_read _ = false

abbrev pub is_write : MemOp → Bool
is_write mem_write = true
is_write _ = false

-- The entry after `firstRequest`; with `nwr` 0, reads and writes share the subentries.
abbrev pub first_entry : ℕ → ℕ → ℕ → MemOp → Entry
first_entry line_addr nrd nwr mo =
    let writes = if nwr == 0 then nrd else nwr in
    record {
      n_reads = nrd;
      n_free_reads = if is_write mo then nrd else nrd - 1;
      n_writes = writes;
      rd_wr_sharing = nwr == 0;
      n_free_writes = if is_write mo then writes - 1 else writes;
      n_free_s_entries = if nwr == 0 then nrd - 1 else nrd + writes - 1;
      cc = [];
      req_line_addr = line_addr;
    }

-- `firstRequest` on a new entry, of a read or a write
unfoldable pub first_request : ℕ → ℕ → ℕ → MemOp → Option Entry
first_request line_addr nrd nwr mo =
    check (is_read mo || is_write mo) (first_entry line_addr nrd nwr mo)

-- `hasFreeReads`
abbrev pub has_free_reads : Entry → Bool
has_free_reads e = not (e.n_free_s_entries == 0) && not (e.n_free_reads == 0)

-- `hasFreeWrites`
abbrev pub has_free_writes : Entry → Bool
has_free_writes e = not (e.n_free_s_entries == 0) && not (e.n_free_writes == 0)

-- `MSHRentry::canAcceptRequest`
abbrev pub entry_accepts : Entry → MemOp → Bool
entry_accepts e mo =
    if e.n_free_s_entries == 0
    then false
    else if is_write mo
    then not (e.n_free_writes == 0)
    else not (e.n_free_reads == 0)

-- The entry with one more request
abbrev pub added : Entry → ℕ → MemOp → Entry
added e rcb mo = record e {
  n_free_reads = if is_read mo then e.n_free_reads - 1 else e.n_free_reads;
  n_free_writes = if is_read mo then e.n_free_writes else e.n_free_writes - 1;
  n_free_s_entries = e.n_free_s_entries - 1;
  cc = add e.cc rcb;
}

-- `addRequest`
unfoldable pub add_request : Entry → ℕ → MemOp → Option (Bool × Entry)
add_request e rcb mo =
    if not (leb e.n_free_reads e.n_reads) || not (leb e.n_free_writes e.n_writes)
    then none
    else if e.n_free_s_entries == 0
    then some (false, e)
    else if is_read mo && e.n_free_reads == 0
    then some (false, e)
    else if is_write mo && e.n_free_writes == 0
    then some (false, e)
    else check (is_read mo || is_write mo) (true, added e rcb mo)

-- `MSHRentry::retire`: the next request of the line, or `true` if there is none
unfoldable pub retire_entry : Entry → Bool × Entry × List Event
retire_entry e = elim e.cc [
  | [] ↦ (true, e, [])
  | c ∷ rest ↦ (false, record e { cc = rest }, called c ∷ [])
]
