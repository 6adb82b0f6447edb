-- ===== src/Mshr/Admission.antt =====
-- A request to `BankedMSHR`, issued or added.
use sesc_src.Common.{
  ℕ, ◌+◌, ◌≡◌, refl, sym, ◌∙◌, inl, inr, Bool, true, false, some, List, [], ◌∷◌, ◌++◌, Bool-cases,
  arith,
}
use sesc_src.Common.Sums.{is_empty}
use sesc_src.Smp.Request.{MemOp}
use sesc_src.Mshr.Types.{Event, destroyed}
use sesc_src.Mshr.Single
use sesc_src.Mshr.Single.{SingleMshr, Waiting}
use sesc_src.Mshr.Overflow.{can_accept_request_special}
use sesc_src.Mshr.Counted.{is_access}
use sesc_src.Mshr.Whole.{append-AllAccess, empty_list, false_empty}
use sesc_src.Mshr.Banks.{can_accept-cases, Taken, bank-Taken, bank_full}
use sesc_src.Mshr.Banked.{
  BankedMshr, calc_bank_index, bank, set_bank, issue, to_overflow, bank_entry, add_entry, request,
}
use sesc_src.Mshr.Shared.{IsBanked, IsPassedOn, set_bank-IsBanked, bank_entry_eq, bank-set_bank}
use mathlib.Core.Path.{subst}

append-IsPassedOn :
    (b : BankedMshr) (f : Waiting) (fs : List Waiting)
    → IsPassedOn b fs
    → (fs ≡ [] → can_accept_request_special (bank b f.paddr) f.paddr f.mo ≡ some false)
    → IsPassedOn b (fs ++ f ∷ [])
append-IsPassedOn b f [] passed full = full refl
append-IsPassedOn b f (g ∷ gs) passed full = passed

-- The queue of the banks does not matter to what their banks can take.
moved-IsPassedOn :
    (b : BankedMshr) (paddr c o : ℕ) (mo : MemOp) (fs : List Waiting)
    → IsPassedOn b fs
    → IsPassedOn (to_overflow b paddr c o mo) fs
unfolding calc_bank_index
moved-IsPassedOn b paddr c o mo [] passed = tt
moved-IsPassedOn b paddr c o mo (f ∷ fs) passed = passed

module _ (b : BankedMshr) (v : IsBanked b) (paddr c o : ℕ) (mo : MemOp)
    (ok : is_access mo ≡ true) where
  abbrev newest : Waiting
  newest = record { paddr = paddr; cb = c; ovflwcb = o; mo = mo }

  request_waits :
      is_empty b.overflow ≡ false
      → request b paddr c o mo ≡ some (false, to_overflow b paddr c o mo, [])
  unfolding request issue add_entry
  request_waits e = ground arith

  request_issued :
      (s : SingleMshr)
      → is_empty b.overflow ≡ true
      → Single.issue (bank b paddr) paddr mo ≡ some (true, s)
      → request b paddr c o mo
        ≡ some (true, record (set_bank b paddr s) { n_outs_reqs = b.n_outs_reqs + 1 }, [])
  unfolding request issue
  request_issued s empty got = ground arith

  request_added :
      is_empty b.overflow ≡ true
      → Single.issue (bank b paddr) paddr mo ≡ some (false, bank b paddr)
      → (b' : BankedMshr) (es : List Event)
      → add_entry (set_bank b paddr (bank b paddr)) paddr c o mo ≡ some (b', es)
      → request b paddr c o mo ≡ some (false, b', es)
  unfolding request issue
  request_added empty got b' es more = ground arith

  add_waits :
      is_empty b.overflow ≡ true
      → can_accept_request_special (bank b paddr) paddr mo ≡ some false
      → add_entry b paddr c o mo ≡ some (to_overflow b paddr c o mo, [])
  unfolding add_entry
  add_waits empty full = ground arith

  add_passes :
      is_empty b.overflow ≡ true
      → can_accept_request_special (bank b paddr) paddr mo ≡ some true
      → add_entry b paddr c o mo ≡ bank_entry b paddr c o mo
  unfolding add_entry
  add_passes empty room = ground arith

  pub queued-IsBanked : IsBanked (to_overflow b paddr c o mo)
  queued-IsBanked = record {
    banks = v.banks;
    accesses = append-AllAccess b.overflow newest v.accesses ok;
  }

  queued-IsPassedOn :
      IsPassedOn b b.overflow
      → (b.overflow ≡ [] → can_accept_request_special (bank b paddr) paddr mo ≡ some false)
      → IsPassedOn (to_overflow b paddr c o mo) (b.overflow ++ newest ∷ [])
  unfolding calc_bank_index
  queued-IsPassedOn passed full =
      moved-IsPassedOn b paddr c o mo (b.overflow ++ newest ∷ [])
        (append-IsPassedOn b newest b.overflow passed full)

-- From banks whose counts are right and whose own queues are empty, where the bank of the first that
-- waits has no room for it, and for a read or a write: a request, issued or added, returns; no assertion
-- fails, that a bank does not overflow included. The counts are right after it, the queues of the
-- banks are empty, and the bank of the first that waits, if any, still has no room for it.
pub request-IsBanked :
    (b : BankedMshr) (paddr c o : ℕ) (mo : MemOp)
    → IsBanked b
    → IsPassedOn b b.overflow
    → is_access mo ≡ true
    → (issued : Bool) × (b' : BankedMshr) × (es : List Event) × (request b paddr c o mo
        ≡ some (issued, b', es))
      × IsBanked b'
      × IsPassedOn b' b'.overflow
unfolding Taken
request-IsBanked b paddr c o mo v passed ok = elim (Bool-cases (is_empty b.overflow)) [
  | inr waits ↦ (
    false,
    to_overflow b paddr c o mo,
    [],
    request_waits b v paddr c o mo ok waits,
    queued-IsBanked b v paddr c o mo ok,
    queued-IsPassedOn b v paddr c o mo ok passed (λ e. absurd (false_empty b.overflow waits e)),
  )
  | inl empty ↦
      let s = bank b paddr in
      let b1 = set_bank b paddr s in
      let nothing = empty_list b.overflow empty in
      let (w, quiet) = v.banks (calc_bank_index b paddr) in
      let v1 = set_bank-IsBanked b paddr b.n_outs_reqs s b.overflow v (w, quiet) v.accesses in
      let same = bank-set_bank b paddr s in
      elim (can_accept-cases s w paddr mo) [
        | inr full ↦
            let full1 : can_accept_request_special (bank b1 paddr) paddr mo ≡ some false =
              subst (λ t. can_accept_request_special t paddr mo ≡ some false) (sym same) full in
            (
              false,
              to_overflow b1 paddr c o mo,
              [],
              request_added b v paddr c o mo ok empty (bank_full s w quiet paddr c o mo ok full) _ _
                  (add_waits b1 v1 paddr c o mo ok empty full1),
              queued-IsBanked b1 v1 paddr c o mo ok,
              queued-IsPassedOn b1 v1 paddr c o mo ok (subst (IsPassedOn b1) (sym nothing) tt)
                  (λ e. full1),
            )
        | inl room ↦ elim (bank-Taken s w quiet paddr c o mo ok room) [
          | inl (s', got, w', quiet') ↦
              let b2 = record (set_bank b paddr s') { n_outs_reqs = b.n_outs_reqs + 1 } in
              (
                true,
                b2,
                [],
                request_issued b v paddr c o mo ok s' empty got,
                set_bank-IsBanked b paddr (b.n_outs_reqs + 1) s' b.overflow v (w', quiet')
                    v.accesses,
                subst (IsPassedOn b2) (sym nothing) tt,
              )
          | inr (s', held_back, got, w', quiet') ↦
              let got1 : Single.add_entry (bank b1 paddr) paddr c o mo
                  ≡ some (s', destroyed o ∷ []) =
                subst (λ t. Single.add_entry t paddr c o mo ≡ some (s', destroyed o ∷ []))
                  (sym same) got in
              let room1 : can_accept_request_special (bank b1 paddr) paddr mo ≡ some true =
                subst (λ t. can_accept_request_special t paddr mo ≡ some true) (sym same) room in
              let b2 = record (set_bank b1 paddr s') { n_outs_reqs = b1.n_outs_reqs + 1 } in
              (
                false,
                b2,
                destroyed o ∷ [],
                request_added b v paddr c o mo ok empty held_back _ _ (
                    add_passes b1 v1 paddr c o mo ok empty room1
                    ∙ bank_entry_eq b1 paddr c o mo s' (destroyed o ∷ []) got1 quiet'),
                set_bank-IsBanked b1 paddr (b1.n_outs_reqs + 1) s' b1.overflow v1 (w', quiet')
                    v1.accesses,
                subst (IsPassedOn b2) (sym nothing) tt,
              )
        ]
      ]
]
