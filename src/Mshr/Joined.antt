-- ===== src/Mshr/Joined.antt =====
-- One more request for a line of `SingleMSHR` keeps the counts.
use sesc_src.Common.{
  ◌⊎◌, ℕ, ◌+◌, ◌≡◌, sym, inl, inr, true, false, some, if◌then◌else◌, Bool-cases, arith,
}
use sesc_src.Smp.Request.{MemOp, mem_read, mem_write, mem_push, mem_read_w}
use sesc_src.Bloom.Counts.{CountsOf}
use sesc_src.Mshr.Entry.{Entry, added, entry_accepts, add_request}
use sesc_src.Mshr.Lines.{find, put}
use sesc_src.Mshr.Sums.{sum-put-some, put-AllLines, find-AllLines, put-some-keys}
use sesc_src.Mshr.Single.{SingleMshr, reads_filled, writes_filled, check_sub_entries, join}
use sesc_src.Mshr.Counted.{is_access, IsEntry, IsSingle, full_read, full_write, one}
use mathlib.Core.Path.{subst}

module _ (nrd nwr line c : ℕ) (e : Entry) (v : IsEntry nrd nwr line e) where
  add_request-cases :
      (mo : MemOp)
      → is_access mo ≡ true
      → (entry_accepts e mo ≡ true) × (add_request e c mo ≡ some (true, added e c mo))
        ⊎ (entry_accepts e mo ≡ false) × (add_request e c mo ≡ some (false, e))
  unfolding add_request
  add_request-cases mem_read ok =
      let reads = v.reads in
      let writes = v.writes in
      elim (Bool-cases (entry_accepts e mem_read)) [
        | inl room_left ↦ inl (room_left, ground arith)
        | inr none_left ↦ inr (none_left, ground arith)
      ]
  add_request-cases mem_write ok =
      let reads = v.reads in
      let writes = v.writes in
      elim (Bool-cases (entry_accepts e mem_write)) [
        | inl room_left ↦ inl (room_left, ground arith)
        | inr none_left ↦ inr (none_left, ground arith)
      ]
  add_request-cases mem_push ok = absurd (cc)
  add_request-cases mem_read_w ok = absurd (cc)

  added-IsEntry :
      (mo : MemOp)
      → is_access mo ≡ true
      → entry_accepts e mo ≡ true
      → IsEntry nrd nwr line (added e c mo)
  added-IsEntry mem_read ok room_left =
      let reads = v.reads in
      let writes = v.writes in
      let room = v.room in
      let same = v.same in
      record {
        line = v.line;
        reads = omega arith;
        writes = omega arith;
        room = ground arith;
        same = v.same;
      }
  added-IsEntry mem_write ok room_left =
      let reads = v.reads in
      let writes = v.writes in
      let room = v.room in
      let same = v.same in
      record {
        line = v.line;
        reads = omega arith;
        writes = omega arith;
        room = ground arith;
        same = v.same;
      }
  added-IsEntry mem_push ok room_left = absurd (cc)
  added-IsEntry mem_read_w ok room_left = absurd (cc)

  added-reads_filled :
      (mo : MemOp)
      → is_access mo ≡ true
      → entry_accepts e mo ≡ true
      → (if reads_filled (added e c mo) mo then 1 else 0) + full_read line e
        ≡ full_read line (added e c mo)
  added-reads_filled mem_read ok room_left =
      let reads = v.reads in
      let writes = v.writes in let room = v.room in let same = v.same in ground arith
  added-reads_filled mem_write ok room_left =
      let reads = v.reads in
      let writes = v.writes in let room = v.room in let same = v.same in ground arith
  added-reads_filled mem_push ok room_left = absurd (cc)
  added-reads_filled mem_read_w ok room_left = absurd (cc)

  added-writes_filled :
      (mo : MemOp)
      → is_access mo ≡ true
      → entry_accepts e mo ≡ true
      → (if writes_filled (added e c mo) mo then 1 else 0) + full_write line e
        ≡ full_write line (added e c mo)
  added-writes_filled mem_read ok room_left =
      let reads = v.reads in
      let writes = v.writes in let room = v.room in let same = v.same in ground arith
  added-writes_filled mem_write ok room_left =
      let reads = v.reads in
      let writes = v.writes in let room = v.room in let same = v.same in ground arith
  added-writes_filled mem_push ok room_left = absurd (cc)
  added-writes_filled mem_read_w ok room_left = absurd (cc)

-- The registers with one more request of a line
abbrev pub joined : SingleMshr → ℕ → Entry → ℕ → MemOp → SingleMshr
joined m line e c mo =
    check_sub_entries
      (record m { ms = put line (added e c mo) m.ms; n_outs_reqs = m.n_outs_reqs + 1 })
      (added e c mo) mo

join_accepted :
    (m : SingleMshr) (line : ℕ) (e : Entry) (c : ℕ) (mo : MemOp)
    → add_request e c mo ≡ some (true, added e c mo)
    → join m line e c mo ≡ some (true, joined m line e c mo)
unfolding join
join_accepted m line e c mo got = ground arith

join_refused :
    (m : SingleMshr) (line : ℕ) (e : Entry) (c : ℕ) (mo : MemOp)
    → add_request e c mo ≡ some (false, e)
    → join m line e c mo ≡ some (false, m)
unfolding join
join_refused m line e c mo got = ground arith

module _ (m : SingleMshr) (v : IsSingle m) (line : ℕ) (e : Entry) (c : ℕ) (mo : MemOp)
    (there : find line m.ms ≡ some e) (ok : is_access mo ≡ true) where
  joined-IsSingle : entry_accepts e mo ≡ true → IsSingle (joined m line e c mo)
  unfolding check_sub_entries
  joined-IsSingle room_left =
      let w = find-AllLines (IsEntry m.n_reads m.n_writes) line e m.ms v.entries there in
      let e' = added e c mo in
      let account = v.account in
      let counted = sum-put-some one line e' e m.ms there in
      let reads = sum-put-some full_read line e' e m.ms there in
      let writes = sum-put-some full_write line e' e m.ms there in
      let full_r = v.full_reads in
      let full_w = v.full_writes in
      let now_r = added-reads_filled m.n_reads m.n_writes line c e w mo ok room_left in
      let now_w = added-writes_filled m.n_reads m.n_writes line c e w mo ok room_left in
      record {
        some_read = v.some_read;
        entries =
            put-AllLines (IsEntry m.n_reads m.n_writes) line e' m.ms
              (added-IsEntry m.n_reads m.n_writes line c e w mo ok room_left) v.entries;
        account = omega arith;
        full_reads = omega arith;
        full_writes = omega arith;
        filter = subst (λ ks. CountsOf ks m.bf) (sym (put-some-keys line e' e m.ms there)) v.filter;
        accesses = v.accesses;
      }

  -- A request of a line that is there: one more of its entry, or refused because it is full.
  pub join-cases :
      (join m line e c mo ≡ some (true, joined m line e c mo)) × IsSingle (joined m line e c mo)
      ⊎ (join m line e c mo ≡ some (false, m)) × (entry_accepts e mo ≡ false)
  join-cases =
      let w = find-AllLines (IsEntry m.n_reads m.n_writes) line e m.ms v.entries there in
      elim (add_request-cases m.n_reads m.n_writes line c e w mo ok) [
        | inl (room_left, got) ↦ inl (join_accepted m line e c mo got, joined-IsSingle room_left)
        | inr (none_left, got) ↦ inr (join_refused m line e c mo got, none_left)
      ]
