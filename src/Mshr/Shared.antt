-- ===== src/Mshr/Shared.antt =====
-- `BankedMSHR` fails no assertion, and its own queue is served from its front until a bank has no room.
use sesc_src.Common.{ℕ, ◌+◌, ◌≡◌, refl, sym, ◌∙◌, inl, inr, true, false, some, List, [], ◌∷◌, arith}
use sesc_src.Common.Arrays.{update_self, update-all}
use sesc_src.Smp.Request.{MemOp}
use sesc_src.Mshr.Types.{Event, called, destroyed}
use sesc_src.Mshr.Single
use sesc_src.Mshr.Single.{SingleMshr, Waiting}
use sesc_src.Mshr.Overflow.{can_accept_request_special}
use sesc_src.Mshr.Counted.{is_access, IsSingle, AllAccess}
use sesc_src.Mshr.Banks.{Taken, bank-Taken}
use sesc_src.Mshr.Banked.{BankedMshr, calc_bank_index, bank, set_bank, bank_entry, pass_on}
use mathlib.Core.Path.{subst}

abbrev pub IsBank : SingleMshr → Type 0
IsBank s = IsSingle s × (s.overflow ≡ [])

pub record IsBanked (b : BankedMshr) : Type 0 where
  pub banks : (i : ℕ) → IsBank (b.mshr_bank i)
  pub accesses : AllAccess b.overflow

-- Nothing waits, or the bank of the first that waits has no room for it.
abbrev pub IsPassedOn : BankedMshr → List Waiting → Type 0
IsPassedOn b [] = Unit {0}
IsPassedOn b (f ∷ fs) = can_accept_request_special (bank b f.paddr) f.paddr f.mo ≡ some false

pub set_bank-IsBanked :
    (b : BankedMshr) (paddr n : ℕ) (s : SingleMshr) (fs : List Waiting)
    → IsBanked b
    → IsBank s
    → AllAccess fs
    → IsBanked (record (set_bank b paddr s) { n_outs_reqs = n; overflow = fs })
set_bank-IsBanked b paddr n s fs v w all = record {
  banks =
      update-all (λ i t. IsBank t) b.mshr_bank (calc_bank_index b paddr) s w (λ j ne. v.banks j);
  accesses = all;
}

pub bank_entry_eq :
    (b : BankedMshr) (paddr c o : ℕ) (mo : MemOp) (s : SingleMshr) (es : List Event)
    → Single.add_entry (bank b paddr) paddr c o mo ≡ some (s, es)
    → s.overflow ≡ []
    → bank_entry b paddr c o mo
      ≡ some (record (set_bank b paddr s) { n_outs_reqs = b.n_outs_reqs + 1 }, es)
unfolding bank_entry
bank_entry_eq b paddr c o mo s es got quiet = ground arith

pass_on_issued :
    (b : BankedMshr) (f : Waiting) (s : SingleMshr)
    → Single.issue (bank b f.paddr) f.paddr f.mo ≡ some (true, s)
    → pass_on b f
      ≡ some (
        record (set_bank b f.paddr s) { n_outs_reqs = b.n_outs_reqs + 1 },
        called f.ovflwcb ∷ destroyed f.cb ∷ [],
      )
unfolding pass_on
pass_on_issued b f s got = ground arith

pass_on_added :
    (b : BankedMshr) (f : Waiting)
    → Single.issue (bank b f.paddr) f.paddr f.mo ≡ some (false, bank b f.paddr)
    → pass_on b f ≡ bank_entry (set_bank b f.paddr (bank b f.paddr)) f.paddr f.cb f.ovflwcb f.mo
unfolding pass_on
pass_on_added b f got = ground arith

-- The bank that was set is the bank of the address.
pub bank-set_bank :
    (b : BankedMshr) (paddr : ℕ) (s : SingleMshr) → bank (set_bank b paddr s) paddr ≡ s
unfolding calc_bank_index
bank-set_bank b paddr s = update_self b.mshr_bank (calc_bank_index b paddr) s

pub pass_on-IsBanked :
    (b : BankedMshr) (f : Waiting)
    → IsBanked b
    → is_access f.mo ≡ true
    → can_accept_request_special (bank b f.paddr) f.paddr f.mo ≡ some true
    → (b' : BankedMshr) × (es : List Event) × (pass_on b f ≡ some (b', es))
      × IsBanked b'
      × (b'.overflow ≡ b.overflow)
unfolding Taken
pass_on-IsBanked b f v ok room =
    let s = bank b f.paddr in
    let (w, quiet) = v.banks (calc_bank_index b f.paddr) in
    elim (bank-Taken s w quiet f.paddr f.cb f.ovflwcb f.mo ok room) [
      | inl (s', got, w', quiet') ↦ (
        record (set_bank b f.paddr s') { n_outs_reqs = b.n_outs_reqs + 1 },
        called f.ovflwcb ∷ destroyed f.cb ∷ [],
        pass_on_issued b f s' got,
        set_bank-IsBanked b f.paddr (b.n_outs_reqs + 1) s' b.overflow v (w', quiet') v.accesses,
        refl,
      )
      | inr (s', held_back, got, w', quiet') ↦
          let b1 = set_bank b f.paddr s in
          let v1 = set_bank-IsBanked b f.paddr b.n_outs_reqs s b.overflow v (w, quiet) v.accesses in
          let got1 : Single.add_entry (bank b1 f.paddr) f.paddr f.cb f.ovflwcb f.mo
              ≡ some (s', destroyed f.ovflwcb ∷ []) =
            subst
              (λ t.
                Single.add_entry t f.paddr f.cb f.ovflwcb f.mo
                ≡ some (s', destroyed f.ovflwcb ∷ []))
              (sym (bank-set_bank b f.paddr s)) got in
          (
            record (set_bank b1 f.paddr s') { n_outs_reqs = b1.n_outs_reqs + 1 },
            destroyed f.ovflwcb ∷ [],
            pass_on_added b f held_back
                ∙ bank_entry_eq b1 f.paddr f.cb f.ovflwcb f.mo s' (destroyed f.ovflwcb ∷ []) got1
                    quiet',
            set_bank-IsBanked b1 f.paddr (b1.n_outs_reqs + 1) s' b1.overflow v1 (w', quiet')
                v1.accesses,
            refl,
          )
    ]
