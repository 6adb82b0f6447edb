-- ===== src/Mshr/Finish.antt =====
-- `retire`, and a request, of `SingleMSHR` keep the counts and fail no assertion.
use sesc_src.Common.{
  ℕ, ◌+◌, ◌-◌, ◌<◌, ◌≡◌, refl, sym, ap, ◌∙◌, Bool, true, false, some, List, [], ◌∷◌, ◌++◌,
  if◌then◌else◌, arith,
}
use sesc_src.Common.Sums.{is_empty}
use sesc_src.Bloom.Filter
use sesc_src.Bloom.Filter.{Vector}
use sesc_src.Bloom.Counts.{CountsOf, remove-CountsOf}
use sesc_src.Mshr.Types.{Event, called}
use sesc_src.Mshr.Entry.{Entry, has_free_reads, has_free_writes, retire_entry}
use sesc_src.Mshr.Lines.{find, put, erase}
use sesc_src.Mshr.Sums.{
  keys, sum-put-some, sum-erase, put-AllLines, erase-AllLines, find-AllLines, put-some-keys,
  erase-keys, find-occurrences,
}
use sesc_src.Mshr.Single.{SingleMshr, calc_line_addr}
use sesc_src.Mshr.Overflow.{recycle, finish, check_overflow, retire}
use sesc_src.Mshr.Counted.{IsEntry, IsSingle, full_read, full_write, one}
use sesc_src.Mshr.Upkeep.{IsServed, check_overflow-IsServed}
use mathlib.Core.Path.{subst}

module _ (m : SingleMshr) (v : IsSingle m) (line : ℕ) (e : Entry)
    (there : find line m.ms ≡ some e) where
  abbrev recycled : List Vector → SingleMshr
  recycled bf = record m {
    n_outs_reqs = m.n_outs_reqs - 1;
    n_full_read_entries =
        if has_free_reads e then m.n_full_read_entries else m.n_full_read_entries - 1;
    n_full_write_entries =
        if has_free_writes e then m.n_full_write_entries else m.n_full_write_entries - 1;
    n_free_entries = m.n_free_entries + 1;
    bf = bf;
    ms = erase line m.ms;
  }

  recycle_eq :
      (bf : List Vector)
      → Filter.remove e.req_line_addr m.bf ≡ some bf
      → (has_free_reads e ≡ false → 0 < m.n_full_read_entries)
      → (has_free_writes e ≡ false → 0 < m.n_full_write_entries)
      → recycle (record m { n_outs_reqs = m.n_outs_reqs - 1 }) line e ≡ some (recycled bf)
  unfolding recycle
  recycle_eq bf got some_reads some_writes = ground arith

  Recycled : Type 0
  Recycled =
      (bf : List Vector) × (recycle (record m { n_outs_reqs = m.n_outs_reqs - 1 }) line e
        ≡ some (recycled bf))
      × IsSingle (recycled bf)

  -- The entry of a line is freed.
  recycle-Recycled : Recycled
  unfolding Recycled
  recycle-Recycled =
      let w = find-AllLines (IsEntry m.n_reads m.n_writes) line e m.ms v.entries there in
      let member = find-occurrences line e m.ms there in
      let (bf, got, counts) = remove-CountsOf line (keys m.ms) m.bf v.filter member in
      let got' : Filter.remove e.req_line_addr m.bf ≡ some bf =
        subst (λ l. Filter.remove l m.bf ≡ some bf) (sym w.line) got in
      let account = v.account in
      let counted = sum-erase one line e m.ms there in
      let reads = sum-erase full_read line e m.ms there in
      let writes = sum-erase full_write line e m.ms there in
      let full_r = v.full_reads in
      let full_w = v.full_writes in
      (
        bf,
        recycle_eq bf got' (λ f. ground arith) (λ f. ground arith),
        record {
          some_read = v.some_read;
          entries = erase-AllLines (IsEntry m.n_reads m.n_writes) line m.ms v.entries;
          account = omega arith;
          full_reads = ground arith;
          full_writes = ground arith;
          filter = subst (λ ks. CountsOf ks bf) (sym (erase-keys line m.ms)) counts;
          accesses = v.accesses;
        },
      )

  -- The next request of the line goes on.
  abbrev moved : List ℕ → SingleMshr
  moved rest = record m {
    n_outs_reqs = m.n_outs_reqs - 1;
    ms = put line (record e { cc = rest }) m.ms;
  }

  moved-IsSingle : (rest : List ℕ) → IsSingle (moved rest)
  moved-IsSingle rest =
      let w = find-AllLines (IsEntry m.n_reads m.n_writes) line e m.ms v.entries there in
      let e' = record e { cc = rest } in
      let account = v.account in
      let counted = sum-put-some one line e' e m.ms there in
      let reads = sum-put-some full_read line e' e m.ms there in
      let writes = sum-put-some full_write line e' e m.ms there in
      let full_r = v.full_reads in
      let full_w = v.full_writes in
      record {
        some_read = v.some_read;
        entries =
            put-AllLines (IsEntry m.n_reads m.n_writes) line e' m.ms
              (record {
                line = w.line;
                reads = w.reads;
                writes = w.writes;
                room = w.room;
                same = w.same;
              })
              v.entries;
        account = omega arith;
        full_reads = omega arith;
        full_writes = omega arith;
        filter = subst (λ ks. CountsOf ks m.bf) (sym (put-some-keys line e' e m.ms there)) v.filter;
        accesses = v.accesses;
      }

  finish_last :
      (paddr : ℕ) (bf : List Vector)
      → calc_line_addr m paddr ≡ line
      → e.cc ≡ []
      → recycle (record m { n_outs_reqs = m.n_outs_reqs - 1 }) line e ≡ some (recycled bf)
      → finish m paddr ≡ some (true, recycled bf, [])
  unfolding finish retire_entry
  finish_last paddr bf at empty got =
      let w = (find-AllLines (IsEntry m.n_reads m.n_writes) line e m.ms v.entries there).line in
      ground arith

  finish_next :
      (paddr c : ℕ) (rest : List ℕ)
      → calc_line_addr m paddr ≡ line
      → e.cc ≡ c ∷ rest
      → finish m paddr ≡ some (false, moved rest, called c ∷ [])
  unfolding finish retire_entry
  finish_next paddr c rest at waits =
      let w = (find-AllLines (IsEntry m.n_reads m.n_writes) line e m.ms v.entries there).line in
      ground arith

  Finished : ℕ → Type 0
  Finished paddr =
      (m' : SingleMshr) × (es : List Event) × (finish m paddr ≡ some (is_empty e.cc, m', es))
      × IsSingle m'

  finish-Finished :
      (paddr : ℕ) (cs : List ℕ) → calc_line_addr m paddr ≡ line → e.cc ≡ cs → Finished paddr
  unfolding Finished Recycled
  finish-Finished paddr [] at empty =
      let (bf, got, w) = recycle-Recycled in
      let last = ap is_empty empty in
      (
        recycled bf,
        [],
        finish_last paddr bf at empty got ∙ ap (λ b. some (b, recycled bf, [])) (sym last),
        w,
      )
  finish-Finished paddr (c ∷ rest) at waits =
      let more = ap is_empty waits in
      (
        moved rest,
        called c ∷ [],
        finish_next paddr c rest at waits
            ∙ ap (λ b. some (b, moved rest, called c ∷ [])) (sym more),
        moved-IsSingle rest,
      )

retire_eq :
    (m m1 m2 : SingleMshr) (paddr : ℕ) (last : Bool) (es1 es2 : List Event)
    → finish m paddr ≡ some (last, m1, es1)
    → check_overflow m1 ≡ some (m2, es2)
    → retire m paddr ≡ some (last, m2, es1 ++ es2)
unfolding retire
retire_eq m m1 m2 paddr last es1 es2 e1 e2 = ground arith

-- From counts that are right, `retire` of an address whose line has an entry returns: no assertion fails,
-- those of the Bloom filter included. The counts are right after it, it returns whether the line had
-- no request waiting, and either nothing waits in the overflow queue or its first has no room.
pub retire-IsSingle :
    (m : SingleMshr) (paddr : ℕ) (e : Entry)
    → IsSingle m
    → find (calc_line_addr m paddr) m.ms ≡ some e
    → (m' : SingleMshr) × (es : List Event) × (retire m paddr ≡ some (is_empty e.cc, m', es))
      × IsSingle m'
      × IsServed m' m'.overflow
unfolding Finished
retire-IsSingle m paddr e v there =
    let (m1, es1, e1, v1) =
      finish-Finished m v (calc_line_addr m paddr) e there paddr e.cc refl refl in
    let (m2, es2, e2, v2, served) = check_overflow-IsServed m1 v1 in
    (m2, es1 ++ es2, retire_eq m m1 m2 paddr (is_empty e.cc) es1 es2 e1 e2, v2, served)
