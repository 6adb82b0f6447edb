-- ===== src/Mshr/Upkeep.antt =====
-- The overflow queue of `SingleMSHR` is served as far as there is room.
use sesc_src.Common.{
  ◌⊎◌, ℕ, zero, suc, ◌<◌, ◌≡◌, refl, sym, inl, inr, true, false, none, some, List, [], ◌∷◌, ◌++◌,
  ◌==◌, Bool-cases, Option-cases, arith,
}
use sesc_src.Common.Sums.{length}
use sesc_src.Mshr.Types.{Event, called, destroyed}
use sesc_src.Mshr.Entry.{Entry, entry_accepts}
use sesc_src.Mshr.Lines.{find}
use sesc_src.Mshr.Single.{SingleMshr, Waiting, calc_line_addr, allocate, join}
use sesc_src.Mshr.Overflow.{consume, overflow_loop, check_overflow}
use sesc_src.Mshr.Counted.{IsSingle, AllAccess, allocated, allocate_eq, allocated-IsSingle}
use sesc_src.Mshr.Joined.{join-cases}
use mathlib.Core.Path.{subst}

-- There is no room for the request: its line has an entry that is full, or no entry is free.
abbrev pub IsBlocked : SingleMshr → Waiting → Type 0
IsBlocked m f =
    (find (calc_line_addr m f.paddr) m.ms ≡ none) × (m.n_free_entries ≡ 0)
    ⊎ (e : Entry) × (find (calc_line_addr m f.paddr) m.ms ≡ some e) × (entry_accepts e f.mo ≡ false)

-- Nothing waits, or the first that waits has no room.
abbrev pub IsServed : SingleMshr → List Waiting → Type 0
IsServed m [] = Unit {0}
IsServed m (f ∷ fs) = IsBlocked m f

shorter-IsSingle :
    (m : SingleMshr) (fs : List Waiting)
    → IsSingle m
    → AllAccess fs
    → IsSingle (record m { overflow = fs })
shorter-IsSingle m fs v a = record {
  some_read = v.some_read;
  entries = v.entries;
  account = v.account;
  full_reads = v.full_reads;
  full_writes = v.full_writes;
  filter = v.filter;
  accesses = a;
}

module _ (m : SingleMshr) (v : IsSingle m) (f : Waiting) (rest : List Waiting)
    (queue : m.overflow ≡ f ∷ rest) where
  consume_new :
      find (calc_line_addr m f.paddr) m.ms ≡ none
      → 0 < m.n_free_entries
      → allocate m (calc_line_addr m f.paddr) f.mo
        ≡ some (allocated m (calc_line_addr m f.paddr) f.mo)
      → consume m f rest
        ≡ some (
          true,
          record (allocated m (calc_line_addr m f.paddr) f.mo) { overflow = rest },
          called f.ovflwcb ∷ destroyed f.cb ∷ [],
        )
  unfolding consume
  consume_new absent free got = ground arith

  consume_full :
      find (calc_line_addr m f.paddr) m.ms ≡ none
      → m.n_free_entries ≡ 0
      → consume m f rest ≡ some (false, m, [])
  unfolding consume
  consume_full absent none_free = ground arith

  consume_joined :
      (e : Entry) (m' : SingleMshr)
      → find (calc_line_addr m f.paddr) m.ms ≡ some e
      → join m (calc_line_addr m f.paddr) e f.cb f.mo ≡ some (true, m')
      → consume m f rest ≡ some (true, record m' { overflow = rest }, destroyed f.ovflwcb ∷ [])
  unfolding consume
  consume_joined e m' there got = ground arith

  consume_refused :
      (e : Entry)
      → find (calc_line_addr m f.paddr) m.ms ≡ some e
      → join m (calc_line_addr m f.paddr) e f.cb f.mo ≡ some (false, m)
      → consume m f rest ≡ some (false, m, [])
  unfolding consume
  consume_refused e there got = ground arith

  -- A round of the loop serves the first, or leaves all as it is because there is no room.
  Round : Type 0
  Round =
      ((m' : SingleMshr) × (es : List Event) × (consume m f rest ≡ some (true, m', es))
        × IsSingle m'
        × (m'.overflow ≡ rest))
      ⊎ (consume m f rest ≡ some (false, m, [])) × IsBlocked m f

  round : Round
  unfolding Round
  round =
      let line = calc_line_addr m f.paddr in
      let (ok, others) = subst AllAccess queue v.accesses in
      elim (Option-cases (find line m.ms)) [
        | inl absent ↦ elim (Bool-cases (m.n_free_entries == 0)) [
          | inl full ↦
              let none_free : m.n_free_entries ≡ 0 = ground arith in
              inr (consume_full absent none_free, inl (absent, none_free))
          | inr room ↦
              let free : 0 < m.n_free_entries = ground arith in
              inl (
                _,
                _,
                consume_new absent free (allocate_eq m v line f.mo ok),
                shorter-IsSingle _ rest (allocated-IsSingle m v line f.mo ok absent free) others,
                refl,
              )
        ]
        | inr (e, there) ↦ elim (join-cases m v line e f.cb f.mo there ok) [
          | inl (got, w) ↦
              inl (_, _, consume_joined e _ there got, shorter-IsSingle _ rest w others, refl)
          | inr (got, full) ↦ inr (consume_refused e there got, inr (e, there, full))
        ]
      ]

-- What the loop does
Served : ℕ → SingleMshr → Type 0
Served n m =
    (m' : SingleMshr) × (es : List Event) × (overflow_loop n m ≡ some (m', es))
    × IsSingle m'
    × IsServed m' m'.overflow

loop_empty : (n : ℕ) (m : SingleMshr) → m.overflow ≡ [] → overflow_loop n m ≡ some (m, [])
unfolding overflow_loop
loop_empty zero m e = refl
loop_empty (suc n) m e = ground arith

loop_breaks :
    (n : ℕ) (m : SingleMshr) (f : Waiting) (rest : List Waiting)
    → m.overflow ≡ f ∷ rest
    → consume m f rest ≡ some (false, m, [])
    → overflow_loop (suc n) m ≡ some (m, [])
unfolding overflow_loop
loop_breaks n m f rest e got = ground arith

loop_goes_on :
    (n : ℕ) (m m1 m2 : SingleMshr) (f : Waiting) (rest : List Waiting) (es1 es2 : List Event)
    → m.overflow ≡ f ∷ rest
    → consume m f rest ≡ some (true, m1, es1)
    → overflow_loop n m1 ≡ some (m2, es2)
    → overflow_loop (suc n) m ≡ some (m2, es1 ++ es2)
unfolding overflow_loop
loop_goes_on n m m1 m2 f rest es1 es2 e got more = ground arith

loop-Served :
    (n : ℕ) (m : SingleMshr) (fs : List Waiting)
    → IsSingle m
    → m.overflow ≡ fs
    → length fs ≡ n
    → Served n m
unfolding Served Round
loop-Served n m [] v e count = (m, [], loop_empty n m e, v, subst (IsServed m) (sym e) tt)
loop-Served zero m (f ∷ rest) v e count = absurd (omega arith)
loop-Served (suc n) m (f ∷ rest) v e count = elim (round m v f rest e) [
  | inl (m1, es1, got, v1, queue) ↦
      let (m2, es2, more, v2, served) = loop-Served n m1 rest v1 queue (omega arith) in
      (m2, es1 ++ es2, loop_goes_on n m m1 m2 f rest es1 es2 e got more, v2, served)
  | inr (got, blocked) ↦
      (m, [], loop_breaks n m f rest e got, v, subst (IsServed m) (sym e) blocked)
]

-- From counts that are right, `checkOverflow` ends within as many rounds as the queue is long, and no
-- assertion fails in it. The counts are right after it, and either nothing waits, or the first that
-- waits has no room: its line has a full entry, or has none and no entry is free.
pub check_overflow-IsServed :
    (m : SingleMshr)
    → IsSingle m
    → (m' : SingleMshr) × (es : List Event) × (check_overflow m ≡ some (m', es))
      × IsSingle m'
      × IsServed m' m'.overflow
unfolding check_overflow Served
check_overflow-IsServed m v = loop-Served (length m.overflow) m m.overflow v refl refl
