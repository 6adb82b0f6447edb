-- ===== src/Mshr/Banks.antt =====
-- The banks of `BankedMSHR` never use their own overflow queues.
use sesc_src.Common.{
  ◌⊎◌, ℕ, leb, not, if◌then◌else◌, zero, suc, ◌<◌, ◌≡◌, refl, ◌∙◌, inl, inr, Bool, true, false,
  none, some, List, [], ◌∷◌, Option-cases, arith,
}
use sesc_src.Common.Sums.{is_empty, length}
use sesc_src.Smp.Request.{MemOp}
use sesc_src.Mshr.Types.{Event, destroyed}
use sesc_src.Mshr.Entry.{Entry, entry_accepts}
use sesc_src.Mshr.Lines.{find}
use sesc_src.Mshr.Single
use sesc_src.Mshr.Single.{SingleMshr, Waiting, calc_line_addr, check_sub_entries, allocate, join}
use sesc_src.Mshr.Overflow
use sesc_src.Mshr.Overflow.{can_accept_request_special}
use sesc_src.Mshr.Counted.{is_access, IsSingle, allocated, allocate_eq, allocated-IsSingle}
use sesc_src.Mshr.Joined.{joined, join-cases}

yes_or_no :
    (waits b : Bool)
    → ((if waits then some false else some b) ≡ some true)
      ⊎ ((if waits then some false else some b) ≡ some false)
yes_or_no true b = inr refl
yes_or_no false true = inl refl
yes_or_no false false = inr refl

-- From counts that are right a bank says whether it can accept a request; no assertion fails.
pub can_accept-cases :
    (s : SingleMshr)
    → IsSingle s
    → (paddr : ℕ) (mo : MemOp)
    → (can_accept_request_special s paddr mo ≡ some true)
      ⊎ (can_accept_request_special s paddr mo ≡ some false)
unfolding can_accept_request_special
can_accept-cases s v paddr mo =
    let account = v.account in
    let inside : leb s.n_free_entries s.n_entries ≡ true = ground arith in
    rw inside (yes_or_no (not (is_empty s.overflow)) _)

module _ (s : SingleMshr) (v : IsSingle s) (quiet : s.overflow ≡ []) (paddr c o : ℕ) (mo : MemOp)
    (ok : is_access mo ≡ true) where
  -- A bank with room takes the request: it is issued, or added to the entry of its line.
  unfoldable pub Taken : Type 0
  Taken =
      ((s' : SingleMshr) × (Single.issue s paddr mo ≡ some (true, s'))
        × IsSingle s'
        × (s'.overflow ≡ []))
      ⊎ ((s' : SingleMshr) × (Single.issue s paddr mo ≡ some (false, s))
          × (Single.add_entry s paddr c o mo ≡ some (s', destroyed o ∷ []))
          × IsSingle s'
          × (s'.overflow ≡ []))

  issue_new :
      find (calc_line_addr s paddr) s.ms ≡ none
      → 0 < s.n_free_entries
      → allocate s (calc_line_addr s paddr) mo ≡ some (allocated s (calc_line_addr s paddr) mo)
      → Single.issue s paddr mo ≡ some (true, allocated s (calc_line_addr s paddr) mo)
  unfolding Single.issue
  issue_new absent free got = let account = v.account in ground arith

  issue_there :
      (e : Entry)
      → find (calc_line_addr s paddr) s.ms ≡ some e
      → Single.issue s paddr mo ≡ some (false, s)
  unfolding Single.issue
  issue_there e there = let account = v.account in ground arith

  add_joined :
      (e : Entry) (s' : SingleMshr)
      → find (calc_line_addr s paddr) s.ms ≡ some e
      → join s (calc_line_addr s paddr) e c mo ≡ some (true, s')
      → Single.add_entry s paddr c o mo ≡ some (s', destroyed o ∷ [])
  unfolding Single.add_entry
  add_joined e s' there got = ground arith

  pub bank-Taken : can_accept_request_special s paddr mo ≡ some true → Taken
  unfolding Taken can_accept_request_special check_sub_entries
  bank-Taken room =
      let line = calc_line_addr s paddr in
      elim (Option-cases (find line s.ms)) [
        | inl absent ↦
            let free : 0 < s.n_free_entries = ground arith in
            inl (
              allocated s line mo,
              issue_new absent free (allocate_eq s v line mo ok),
              allocated-IsSingle s v line mo ok absent free,
              quiet,
            )
        | inr (e, there) ↦ elim (join-cases s v line e c mo there ok) [
          | inl (got, w) ↦ inr (
            joined s line e c mo,
            issue_there e there,
            add_joined e (joined s line e c mo) there got,
            w,
            quiet,
          )
          | inr (got, full) ↦ let refused : entry_accepts e mo ≡ true = ground arith in absurd (cc)
        ]
      ]

  -- A bank without room issues nothing.
  pub bank_full :
      can_accept_request_special s paddr mo ≡ some false → Single.issue s paddr mo ≡ some (false, s)
  unfolding can_accept_request_special Single.issue
  bank_full full =
      let account = v.account in
      elim (Option-cases (find (calc_line_addr s paddr) s.ms)) [
        | inl absent ↦ ground arith
        | inr (e, there) ↦ ground arith
      ]

loop_quiet : (n : ℕ) (m : SingleMshr) → m.overflow ≡ [] → Overflow.overflow_loop n m ≡ some (m, [])
unfolding Overflow.overflow_loop
loop_quiet zero m e = refl
loop_quiet (suc n) m e = ground arith

finish-quiet :
    (m m' : SingleMshr) (paddr : ℕ) (last : Bool) (es : List Event)
    → Overflow.finish m paddr ≡ some (last, m', es)
    → m'.overflow ≡ m.overflow
unfolding Overflow.finish Overflow.recycle
finish-quiet m m' paddr last es e = ground arith

-- `retire` of a bank leaves its empty queue empty.
pub retire-quiet :
    (m m' : SingleMshr) (paddr : ℕ) (last : Bool) (es : List Event)
    → m.overflow ≡ []
    → Overflow.retire m paddr ≡ some (last, m', es)
    → m'.overflow ≡ []
unfolding Overflow.retire Overflow.check_overflow
retire-quiet m m' paddr last es quiet e = elim (Option-cases (Overflow.finish m paddr)) [
  | inl stops ↦ ground arith
  | inr ((b, m1, es1), got) ↦
      let same = finish-quiet m m1 paddr b es1 got in
      let still = loop_quiet (length m1.overflow) m1 (same ∙ quiet) in ground arith
]
