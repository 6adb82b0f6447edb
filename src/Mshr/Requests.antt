-- ===== src/Mshr/Requests.antt =====
-- A request to `FullMSHR` is always taken, and keeps the accounts.
use sesc_src.Common.{
  ℕ, ◌-◌, ◌≡◌, refl, inl, inr, Bool, true, false, not, Option, some, List, [], ◌∷◌, ◌++◌, ◌==◌,
  ◌||◌, ◌&&◌, Bool-cases, arith,
}
use sesc_src.Common.Arrays.{update}
use sesc_src.Mshr.Types.{Event, add, destroy}
use sesc_src.Mshr.Full.{FullMshr, calc_entry, issue, add_entry, request}
use sesc_src.Mshr.Accounts.{
  IsFull, calc_entry-lt, taken-IsFull, joined-IsFull, spent-IsFull, balanced-IsFull, queued-IsFull,
}

module _ (bits : ℕ) (m : FullMshr) (v : IsFull bits 0 0 m) (paddr c : ℕ) (ovflwc : Option ℕ) where
  overflow_eq :
      (m.overflowing || m.n_free_entries == 0) ≡ true
      → request m paddr c ovflwc
        ≡ some (
          false,
          record m {
            overflowing = true;
            overflow = m.overflow ++ record { paddr = paddr; cb = c; ovflwcb = ovflwc } ∷ [];
          },
          [],
        )
  unfolding request issue add_entry
  overflow_eq full = let account = v.account in ground arith

  join_eq :
      (m.overflowing || m.n_free_entries == 0) ≡ false
      → m.in_use (calc_entry m paddr) ≡ true
      → request m paddr c ovflwc
        ≡ some (
          false,
          record m {
            n_free_entries = m.n_free_entries - 1;
            cc = update m.cc (calc_entry m paddr) (add (m.cc (calc_entry m paddr)) c);
          },
          destroy ovflwc,
        )
  unfolding request issue add_entry calc_entry
  join_eq some_free used = let account = v.account in ground arith

  take_eq :
      (m.overflowing || m.n_free_entries == 0) ≡ false
      → m.in_use (calc_entry m paddr) ≡ false
      → request m paddr c ovflwc
        ≡ some (
          true,
          record m {
            n_free_entries = m.n_free_entries - 1;
            in_use = update m.in_use (calc_entry m paddr) true;
          },
          [],
        )
  unfolding request issue
  take_eq some_free unused = let empty = v.idle (calc_entry m paddr) unused in ground arith

  -- In a state where the accounts are right a request, issued or added, returns: no assertion fails.
  -- The accounts are right after it, and it was issued exactly if an entry was free, none waited for
  -- one, and its position was not in use.
  pub request-IsFull :
      (issued : Bool) × (m' : FullMshr) × (es : List Event) × (request m paddr c ovflwc
        ≡ some (issued, m', es))
      × IsFull bits 0 0 m'
      × (issued
          ≡ (not (m.overflowing || m.n_free_entries == 0) && not (m.in_use (calc_entry m paddr))))
  unfolding calc_entry
  request-IsFull = elim (Bool-cases (m.overflowing || m.n_free_entries == 0)) [
    | inl full ↦ (_, _, _, overflow_eq full, queued-IsFull bits m _ v full, ground arith)
    | inr some_free ↦
        let pos = calc_entry m paddr in
        let inside = calc_entry-lt bits m paddr v.mask in
        let spent = spent-IsFull bits 0 m v (ground arith) in
        elim (Bool-cases (m.in_use pos)) [
          | inl used ↦ (
            _,
            _,
            _,
            join_eq some_free used,
            balanced-IsFull bits 0 _ (joined-IsFull bits 1 0 _ spent pos inside c used),
            ground arith,
          )
          | inr unused ↦ (
            _,
            _,
            _,
            take_eq some_free unused,
            balanced-IsFull bits 0 _ (taken-IsFull bits 1 0 _ spent pos inside paddr refl unused),
            ground arith,
          )
        ]
  ]
