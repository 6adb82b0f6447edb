-- ===== src/Mshr/Passing.antt =====
-- The answers and the requests of `BankedMSHR`.
use sesc_src.Common.{
  ℕ, zero, suc, ◌-◌, ◌<◌, ◌≡◌, refl, sym, inl, inr, Bool, true, false, some, List, [], ◌∷◌, ◌++◌,
  arith,
}
use sesc_src.Common.Sums.{is_empty, length}
use sesc_src.Mshr.Types.{Event}
use sesc_src.Mshr.Entry.{Entry}
use sesc_src.Mshr.Lines.{find}
use sesc_src.Mshr.Single.{SingleMshr, Waiting, calc_line_addr}
use sesc_src.Mshr.Overflow
use sesc_src.Mshr.Overflow.{can_accept_request_special}
use sesc_src.Mshr.Counted.{AllAccess}
use sesc_src.Mshr.Finish.{retire-IsSingle}
use sesc_src.Mshr.Whole.{create-IsSingle}
use sesc_src.Mshr.Banks.{can_accept-cases, retire-quiet}
use sesc_src.Mshr.Banked.{
  BankedMshr, create, calc_bank_index, bank, set_bank, pass_on, overflow_loop, check_overflow,
  retire,
}
use sesc_src.Mshr.Shared.{IsBanked, IsPassedOn, set_bank-IsBanked, pass_on-IsBanked}
use mathlib.Core.Path.{subst}

-- All banks of new registers are empty.
pub create-IsBanked :
    (size log2_line_size nb nrd nwr : ℕ)
    → 0 < nrd
    → IsBanked (create size log2_line_size nb nrd nwr)
create-IsBanked size log2_line_size nb nrd nwr pos = record {
  banks = λ i. (create-IsSingle size log2_line_size nrd nwr pos, refl);
  accesses = tt;
}

loop_empty : (n : ℕ) (b : BankedMshr) → b.overflow ≡ [] → overflow_loop n b ≡ some (b, [])
unfolding overflow_loop
loop_empty zero b e = refl
loop_empty (suc n) b e = ground arith

loop_breaks :
    (n : ℕ) (b : BankedMshr) (f : Waiting) (rest : List Waiting)
    → b.overflow ≡ f ∷ rest
    → can_accept_request_special (bank b f.paddr) f.paddr f.mo ≡ some false
    → overflow_loop (suc n) b ≡ some (b, [])
unfolding overflow_loop
loop_breaks n b f rest e full = ground arith

loop_goes_on :
    (n : ℕ) (b b1 b2 : BankedMshr) (f : Waiting) (rest : List Waiting) (es1 es2 : List Event)
    → b.overflow ≡ f ∷ rest
    → can_accept_request_special (bank b f.paddr) f.paddr f.mo ≡ some true
    → pass_on (record b { overflow = rest }) f ≡ some (b1, es1)
    → overflow_loop n b1 ≡ some (b2, es2)
    → overflow_loop (suc n) b ≡ some (b2, es1 ++ es2)
unfolding overflow_loop
loop_goes_on n b b1 b2 f rest es1 es2 e room got more = ground arith

loop-IsPassedOn :
    (n : ℕ) (b : BankedMshr) (fs : List Waiting)
    → IsBanked b
    → b.overflow ≡ fs
    → length fs ≡ n
    → (b' : BankedMshr) × (es : List Event) × (overflow_loop n b ≡ some (b', es))
      × IsBanked b'
      × IsPassedOn b' b'.overflow
unfolding calc_bank_index
loop-IsPassedOn n b [] v e count = (b, [], loop_empty n b e, v, subst (IsPassedOn b) (sym e) tt)
loop-IsPassedOn zero b (f ∷ rest) v e count = absurd (omega arith)
loop-IsPassedOn (suc n) b (f ∷ rest) v e count =
    elim (can_accept-cases (bank b f.paddr) (v.banks (calc_bank_index b f.paddr)).0 f.paddr f.mo) [
      | inl room ↦
          let (ok, others) = subst AllAccess e v.accesses in
          let b0 = record b { overflow = rest } in
          let v0 : IsBanked b0 = record { banks = v.banks; accesses = others } in
          let (b1, es1, got, v1, queue) = pass_on-IsBanked b0 f v0 ok room in
          let (b2, es2, more, v2, served) = loop-IsPassedOn n b1 rest v1 queue (omega arith) in
          (b2, es1 ++ es2, loop_goes_on n b b1 b2 f rest es1 es2 e room got more, v2, served)
      | inr full ↦ (b, [], loop_breaks n b f rest e full, v, subst (IsPassedOn b) (sym e) full)
    ]

retire_eq :
    (b b2 : BankedMshr) (paddr : ℕ) (last : Bool) (s : SingleMshr) (es1 es2 : List Event)
    → Overflow.retire (bank b paddr) paddr ≡ some (last, s, es1)
    → check_overflow (record (set_bank b paddr s) { n_outs_reqs = b.n_outs_reqs - 1 })
      ≡ some (b2, es2)
    → retire b paddr ≡ some (last, b2, es1 ++ es2)
unfolding retire
retire_eq b b2 paddr last s es1 es2 e1 e2 = ground arith

-- From banks whose counts are right and whose own queues are empty, `retire` of an address whose line
-- has an entry in its bank returns: no assertion fails, neither in a bank nor the one that a bank does
-- not overflow, and the loop on the queue ends. The counts are right after it, the queues of the banks
-- are empty, and either nothing waits or the bank of the first that waits has no room for it.
pub retire-IsBanked :
    (b : BankedMshr) (paddr : ℕ) (e : Entry)
    → IsBanked b
    → find (calc_line_addr (bank b paddr) paddr) (bank b paddr).ms ≡ some e
    → (last : Bool) × (b' : BankedMshr) × (es : List Event) × (retire b paddr ≡ some (last, b', es))
      × IsBanked b'
      × IsPassedOn b' b'.overflow
unfolding check_overflow
retire-IsBanked b paddr e v there =
    let (w, quiet) = v.banks (calc_bank_index b paddr) in
    let (s, es1, got, w', served) = retire-IsSingle (bank b paddr) paddr e w there in
    let quiet' = retire-quiet (bank b paddr) s paddr (is_empty e.cc) es1 quiet got in
    let b1 = record (set_bank b paddr s) { n_outs_reqs = b.n_outs_reqs - 1 } in
    let v1 = set_bank-IsBanked b paddr (b.n_outs_reqs - 1) s b.overflow v (w', quiet') v.accesses in
    let (b2, es2, more, v2, passed) =
      loop-IsPassedOn (length b1.overflow) b1 b1.overflow v1 refl refl in
    (
      is_empty e.cc,
      b2,
      es1 ++ es2,
      retire_eq b b2 paddr (is_empty e.cc) s es1 es2 got more,
      v2,
      passed,
    )
