-- ===== src/Mshr/Counted.antt =====
-- The counts of `SingleMSHR` are those of its entries.
use sesc_src.Common.{
  ℕ, ◌+◌, ◌-◌, ◌<◌, ◌≤◌, ◌≡◌, refl, Bool, true, none, some, List, [], ◌∷◌, ◌||◌, if◌then◌else◌,
  arith,
}
use sesc_src.Smp.Request.{MemOp, mem_read, mem_write, mem_push, mem_read_w}
use sesc_src.Bloom.Filter
use sesc_src.Bloom.Counts.{CountsOf, insert-CountsOf}
use sesc_src.Mshr.Entry.{
  Entry, is_read, is_write, first_entry, first_request, has_free_reads, has_free_writes,
}
use sesc_src.Mshr.Lines.{find, put}
use sesc_src.Mshr.Sums.{sum, keys, AllLines, sum-put-none, put-AllLines, put-CountsOf}
use sesc_src.Mshr.Single.{
  SingleMshr, Waiting, reads_filled, writes_filled, check_sub_entries, allocate,
}

-- The operations that the registers take
abbrev pub is_access : MemOp → Bool
is_access mo = is_read mo || is_write mo

-- The entry of a line has room for what is free: together if reads and writes share it, each else.
pub record IsEntry (nrd nwr k : ℕ) (e : Entry) : Type 0 where
  pub line : e.req_line_addr ≡ k
  pub reads : e.n_free_reads ≤ e.n_reads
  pub writes : e.n_free_writes ≤ e.n_writes
  pub room :
      (if e.rd_wr_sharing then e.n_free_s_entries + e.n_reads else e.n_free_s_entries)
      ≡ e.n_free_reads + e.n_free_writes
  pub same : e.rd_wr_sharing ≡ true → e.n_writes ≡ e.n_reads

abbrev pub full_read : ℕ → Entry → ℕ
full_read k e = if has_free_reads e then 0 else 1

abbrev pub full_write : ℕ → Entry → ℕ
full_write k e = if has_free_writes e then 0 else 1

abbrev pub one : ℕ → Entry → ℕ
one k e = 1

abbrev pub AllAccess : List Waiting → Type 0
AllAccess [] = Unit {0}
AllAccess (f ∷ fs) = (is_access f.mo ≡ true) × AllAccess fs

pub record IsSingle (m : SingleMshr) : Type 0 where
  pub some_read : 0 < m.n_reads
  pub entries : AllLines (IsEntry m.n_reads m.n_writes) m.ms
  pub account : m.n_free_entries + sum one m.ms ≡ m.n_entries
  pub full_reads : m.n_full_read_entries ≡ sum full_read m.ms
  pub full_writes : m.n_full_write_entries ≡ sum full_write m.ms
  pub filter : CountsOf (keys m.ms) m.bf
  pub accesses : AllAccess m.overflow

first_entry-IsEntry :
    (line nrd nwr : ℕ) (mo : MemOp)
    → 0 < nrd
    → is_access mo ≡ true
    → IsEntry nrd nwr line (first_entry line nrd nwr mo)
first_entry-IsEntry line nrd nwr mo pos ok = record {
  line = refl;
  reads = ground arith;
  writes = ground arith;
  room = ground arith;
  same = λ t. ground arith;
}

first_reads_filled :
    (line nrd nwr : ℕ) (mo : MemOp)
    → 0 < nrd
    → is_access mo ≡ true
    → (if reads_filled (first_entry line nrd nwr mo) mo then 1 else 0)
      ≡ full_read line (first_entry line nrd nwr mo)
first_reads_filled line nrd nwr mem_read pos ok = ground arith
first_reads_filled line nrd nwr mem_write pos ok = ground arith
first_reads_filled line nrd nwr mem_push pos ok = absurd (cc)
first_reads_filled line nrd nwr mem_read_w pos ok = absurd (cc)

first_writes_filled :
    (line nrd nwr : ℕ) (mo : MemOp)
    → 0 < nrd
    → is_access mo ≡ true
    → (if writes_filled (first_entry line nrd nwr mo) mo then 1 else 0)
      ≡ full_write line (first_entry line nrd nwr mo)
first_writes_filled line nrd nwr mem_read pos ok = ground arith
first_writes_filled line nrd nwr mem_write pos ok = ground arith
first_writes_filled line nrd nwr mem_push pos ok = absurd (cc)
first_writes_filled line nrd nwr mem_read_w pos ok = absurd (cc)

-- The registers with a new entry
abbrev pub allocated : SingleMshr → ℕ → MemOp → SingleMshr
allocated m line mo =
    check_sub_entries
      (record m {
        ms = put line (first_entry line m.n_reads m.n_writes mo) m.ms;
        bf = Filter.insert line m.bf;
        n_free_entries = m.n_free_entries - 1;
        n_outs_reqs = m.n_outs_reqs + 1;
      })
      (first_entry line m.n_reads m.n_writes mo) mo

module _ (m : SingleMshr) (v : IsSingle m) (line : ℕ) (mo : MemOp) (ok : is_access mo ≡ true) where
  pub allocate_eq : allocate m line mo ≡ some (allocated m line mo)
  unfolding allocate first_request
  allocate_eq = ground arith

  pub allocated-IsSingle :
      find line m.ms ≡ none → 0 < m.n_free_entries → IsSingle (allocated m line mo)
  unfolding check_sub_entries
  allocated-IsSingle absent free =
      let e = first_entry line m.n_reads m.n_writes mo in
      let account = v.account in
      let counted = sum-put-none one line e m.ms absent in
      let reads = sum-put-none full_read line e m.ms absent in
      let writes = sum-put-none full_write line e m.ms absent in
      let full_r = v.full_reads in
      let full_w = v.full_writes in
      let now_r = first_reads_filled line m.n_reads m.n_writes mo v.some_read ok in
      let now_w = first_writes_filled line m.n_reads m.n_writes mo v.some_read ok in
      record {
        some_read = v.some_read;
        entries =
            put-AllLines (IsEntry m.n_reads m.n_writes) line e m.ms
              (first_entry-IsEntry line m.n_reads m.n_writes mo v.some_read ok) v.entries;
        account = omega arith;
        full_reads = omega arith;
        full_writes = omega arith;
        filter =
            put-CountsOf line e m.ms (Filter.insert line m.bf) absent
              (insert-CountsOf line (keys m.ms) m.bf v.filter);
        accesses = v.accesses;
      }
