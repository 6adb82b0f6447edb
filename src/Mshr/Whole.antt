-- ===== src/Mshr/Whole.antt =====
-- A request to `SingleMSHR`, issued or added, keeps the counts, and the first that waits has no room.
use sesc_src.Common.{
  ℕ, ◌<◌, ◌≡◌, refl, sym, inl, inr, Bool, true, false, none, some, List, [], ◌∷◌, ◌++◌, ◌==◌,
  Bool-cases, Option-cases, arith,
}
use sesc_src.Common.Sums.{is_empty}
use sesc_src.Smp.Request.{MemOp}
use sesc_src.Bloom.Counts.{init_masks-CountsOf}
use sesc_src.Mshr.Types.{Event, destroyed}
use sesc_src.Mshr.Entry.{Entry}
use sesc_src.Mshr.Lines.{find}
use sesc_src.Mshr.Sums.{sum}
use sesc_src.Mshr.Single.{
  SingleMshr, Waiting, create, calc_line_addr, check_sub_entries, allocate, join, issue,
  to_overflow, add_entry, request,
}
use sesc_src.Mshr.Counted.{
  is_access, IsSingle, AllAccess, allocated, allocate_eq, allocated-IsSingle,
}
use sesc_src.Mshr.Joined.{joined, join-cases}
use sesc_src.Mshr.Upkeep.{IsBlocked, IsServed}
use mathlib.Core.Path.{subst}

-- The counts of new registers are right.
pub create-IsSingle :
    (size log2_line_size nrd nwr : ℕ) → 0 < nrd → IsSingle (create size log2_line_size nrd nwr)
unfolding sum
create-IsSingle size log2_line_size nrd nwr pos = record {
  some_read = pos;
  entries = tt;
  account = omega arith;
  full_reads = refl;
  full_writes = refl;
  filter = init_masks-CountsOf 0 ((8, 256) ∷ (6, 64) ∷ (6, 64) ∷ (6, 64) ∷ []);
  accesses = tt;
}

pub append-AllAccess :
    (fs : List Waiting) (f : Waiting)
    → AllAccess fs
    → is_access f.mo ≡ true
    → AllAccess (fs ++ f ∷ [])
append-AllAccess [] f all ok = (ok, tt)
append-AllAccess (g ∷ gs) f (here, rest) ok = (here, append-AllAccess gs f rest ok)

append-IsServed :
    (m : SingleMshr) (fs : List Waiting) (f : Waiting)
    → IsServed m fs
    → (fs ≡ [] → IsBlocked m f)
    → IsServed m (fs ++ f ∷ [])
append-IsServed m [] f served blocked = blocked refl
append-IsServed m (g ∷ gs) f served blocked = served

pub empty_list : (fs : List Waiting) → is_empty fs ≡ true → fs ≡ []
empty_list [] e = refl
empty_list (f ∷ fs) e = absurd (cc)

pub false_empty : (fs : List Waiting) → is_empty fs ≡ false → fs ≡ [] → ⊥
false_empty [] waits e = cc
false_empty (f ∷ fs) waits e = cc

module _ (m : SingleMshr) (v : IsSingle m) (paddr c ovflwc : ℕ) (mo : MemOp)
    (ok : is_access mo ≡ true) where
  abbrev newest : Waiting
  newest = record { paddr = paddr; cb = c; ovflwcb = ovflwc; mo = mo }

  queued-IsSingle : IsSingle (to_overflow m paddr c ovflwc mo)
  queued-IsSingle = record {
    some_read = v.some_read;
    entries = v.entries;
    account = v.account;
    full_reads = v.full_reads;
    full_writes = v.full_writes;
    filter = v.filter;
    accesses = append-AllAccess m.overflow newest v.accesses ok;
  }

  request_waits :
      is_empty m.overflow ≡ false
      → request m paddr c ovflwc mo ≡ some (false, to_overflow m paddr c ovflwc mo, [])
  unfolding request issue add_entry
  request_waits e = ground arith

  request_full :
      is_empty m.overflow ≡ true
      → find (calc_line_addr m paddr) m.ms ≡ none
      → m.n_free_entries ≡ 0
      → request m paddr c ovflwc mo ≡ some (false, to_overflow m paddr c ovflwc mo, [])
  unfolding request issue add_entry
  request_full e absent full = let account = v.account in ground arith

  request_new :
      is_empty m.overflow ≡ true
      → find (calc_line_addr m paddr) m.ms ≡ none
      → 0 < m.n_free_entries
      → allocate m (calc_line_addr m paddr) mo ≡ some (allocated m (calc_line_addr m paddr) mo)
      → request m paddr c ovflwc mo ≡ some (true, allocated m (calc_line_addr m paddr) mo, [])
  unfolding request issue
  request_new e absent free got = let account = v.account in ground arith

  request_joined :
      (e : Entry) (m' : SingleMshr)
      → is_empty m.overflow ≡ true
      → find (calc_line_addr m paddr) m.ms ≡ some e
      → join m (calc_line_addr m paddr) e c mo ≡ some (true, m')
      → request m paddr c ovflwc mo ≡ some (false, m', destroyed ovflwc ∷ [])
  unfolding request issue add_entry
  request_joined e m' empty there got = let account = v.account in ground arith

  request_refused :
      (e : Entry)
      → is_empty m.overflow ≡ true
      → find (calc_line_addr m paddr) m.ms ≡ some e
      → join m (calc_line_addr m paddr) e c mo ≡ some (false, m)
      → request m paddr c ovflwc mo ≡ some (false, to_overflow m paddr c ovflwc mo, [])
  unfolding request issue add_entry
  request_refused e empty there got = let account = v.account in ground arith

  Requested : Type 0
  Requested =
      (issued : Bool) × (m' : SingleMshr) × (es : List Event) × (request m paddr c ovflwc mo
        ≡ some (issued, m', es))
      × IsSingle m'
      × IsServed m' m'.overflow

  served_queue :
      IsServed m m.overflow
      → (m.overflow ≡ [] → IsBlocked m newest)
      → request m paddr c ovflwc mo ≡ some (false, to_overflow m paddr c ovflwc mo, [])
      → Requested
  unfolding Requested
  served_queue served blocked got = (
    false,
    to_overflow m paddr c ovflwc mo,
    [],
    got,
    queued-IsSingle,
    append-IsServed m m.overflow newest served blocked,
  )

  requested_empty : is_empty m.overflow ≡ true → IsServed m m.overflow → Requested
  unfolding Requested check_sub_entries
  requested_empty empty served =
      let line = calc_line_addr m paddr in
      let nothing = empty_list m.overflow empty in
      elim (Option-cases (find line m.ms)) [
        | inl absent ↦ elim (Bool-cases (m.n_free_entries == 0)) [
          | inl full ↦
              let none_free : m.n_free_entries ≡ 0 = ground arith in
              served_queue served (λ e. inl (absent, none_free))
                (request_full empty absent none_free)
          | inr room ↦
              let free : 0 < m.n_free_entries = ground arith in
              (
                true,
                allocated m line mo,
                [],
                request_new empty absent free (allocate_eq m v line mo ok),
                allocated-IsSingle m v line mo ok absent free,
                subst (IsServed (allocated m line mo)) (sym nothing) tt,
              )
        ]
        | inr (e, there) ↦ elim (join-cases m v line e c mo there ok) [
          | inl (got, w) ↦ (
            false,
            joined m line e c mo,
            destroyed ovflwc ∷ [],
            request_joined e (joined m line e c mo) empty there got,
            w,
            subst (IsServed (joined m line e c mo)) (sym nothing) tt,
          )
          | inr (got, full) ↦
              served_queue served (λ n. inr (e, there, full)) (request_refused e empty there got)
        ]
      ]

  -- From counts that are right, where the first in the overflow queue has no room, and for a read or a
  -- write: a request, issued or added, returns; no assertion fails. The counts are right after it, and
  -- the first in the queue, if any, still has no room.
  pub request-IsSingle :
      IsServed m m.overflow
      → (issued : Bool) × (m' : SingleMshr) × (es : List Event) × (request m paddr c ovflwc mo
          ≡ some (issued, m', es))
        × IsSingle m'
        × IsServed m' m'.overflow
  unfolding Requested
  request-IsSingle served = elim (Bool-cases (is_empty m.overflow)) [
    | inl empty ↦ requested_empty empty served
    | inr waits ↦
        served_queue served (λ e. absurd (false_empty m.overflow waits e)) (request_waits waits)
  ]
