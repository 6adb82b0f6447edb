-- ===== src/Mshr/Retires.antt =====
-- `retire` of `FullMSHR` keeps the accounts, and frees an entry or lets a request go on.
use sesc_src.Common.{
  ℕ, suc, ◌^◌, ◌≤◌, ◌≡◌, refl, sym, ◌∙◌, Bool, true, false, some, List, [], ◌∷◌, ◌++◌, arith,
}
use sesc_src.Common.Arrays.{update, update-all}
use sesc_src.Common.Sums.{length, total-update}
use sesc_src.Mshr.Types.{Event, called}
use sesc_src.Mshr.Full.{FullMshr, calc_entry, release, serve, retire}
use sesc_src.Mshr.Accounts.{weight, IsFull, calc_entry-lt}
use sesc_src.Mshr.Releases.{unfinished, release-Released, impossible}

module _ (bits : ℕ) (m : FullMshr) (paddr : ℕ) (v : IsFull bits 0 1 m)
    (used : m.in_use (calc_entry m paddr) ≡ true) where
  freed_eq :
      m.n_free_entries ≤ m.n_entries
      → m.cc (calc_entry m paddr) ≡ []
      → serve m paddr
        ≡ some (true, record m { in_use = update m.in_use (calc_entry m paddr) false }, [])
  unfolding serve calc_entry
  freed_eq le empty = ground arith

  next_eq :
      (c : ℕ) (rest : List ℕ)
      → m.n_free_entries ≤ m.n_entries
      → m.cc (calc_entry m paddr) ≡ c ∷ rest
      → serve m paddr
        ≡ some (false, record m { cc = update m.cc (calc_entry m paddr) rest }, called c ∷ [])
  unfolding serve calc_entry
  next_eq c rest le waits = ground arith

  -- A position in use is served: its next request, or the position is no longer in use.
  Served : Type 0
  Served =
      (b : Bool) × (m' : FullMshr) × (es : List Event) × (serve m paddr ≡ some (b, m', es))
      × IsFull bits 0 0 m'
      × (suc (unfinished bits m') ≡ unfinished bits m)

  freed-Served : m.cc (calc_entry m paddr) ≡ [] → Served
  unfolding calc_entry unfinished Served
  freed-Served empty =
      let pos = calc_entry m paddr in
      let inside = calc_entry-lt bits m paddr v.mask in
      let changed = total-update (2 ^ bits) (λ j b. weight b (m.cc j)) m.in_use pos false inside in
      let before : weight (m.in_use pos) (m.cc pos) ≡ 1 = rw (used, empty) refl in
      let account = v.account in
      (
        true,
        record m { in_use = update m.in_use pos false },
        [],
        freed_eq (omega arith) empty,
        record {
          mask = v.mask;
          flag = v.flag;
          full = v.full;
          idle =
              update-all (λ i b. b ≡ false → m.cc i ≡ []) m.in_use pos false (λ t. empty)
                (λ j ne. v.idle j);
          source =
              update-all (λ i b. b ≡ true → (a : ℕ) × (calc_entry m a ≡ i)) m.in_use pos false
                (λ t. absurd (cc)) (λ j ne. v.source j);
          account = omega arith;
        },
        omega arith,
      )

  next-Served : (c : ℕ) (rest : List ℕ) → m.cc (calc_entry m paddr) ≡ c ∷ rest → Served
  unfolding calc_entry unfinished Served
  next-Served c rest waits =
      let pos = calc_entry m paddr in
      let inside = calc_entry-lt bits m paddr v.mask in
      let changed = total-update (2 ^ bits) (λ j cs. weight (m.in_use j) cs) m.cc pos rest inside in
      let before : weight (m.in_use pos) (m.cc pos) ≡ suc (suc (length rest)) =
        rw (used, waits) refl in
      let after : weight (m.in_use pos) rest ≡ suc (length rest) = rw used refl in
      let account = v.account in
      (
        false,
        record m { cc = update m.cc pos rest },
        called c ∷ [],
        next_eq c rest (omega arith) waits,
        record {
          mask = v.mask;
          flag = v.flag;
          full = v.full;
          idle =
              update-all (λ i cs. m.in_use i ≡ false → cs ≡ []) m.cc pos rest
                (λ f. absurd (impossible (sym used ∙ f))) (λ j ne. v.idle j);
          source = v.source;
          account = omega arith;
        },
        omega arith,
      )

  list_cases : (cs : List ℕ) → m.cc (calc_entry m paddr) ≡ cs → Served
  list_cases [] e = freed-Served e
  list_cases (c ∷ rest) e = next-Served c rest e

retire_eq :
    (m m1 m2 : FullMshr) (paddr : ℕ) (b : Bool) (es1 es2 : List Event)
    → release m ≡ some (m1, es1)
    → serve m1 paddr ≡ some (b, m2, es2)
    → retire m paddr ≡ some (b, m2, es1 ++ es2)
unfolding retire
retire_eq m m1 m2 paddr b es1 es2 e1 e2 = ground arith

-- In a state where the accounts are right, `retire` of an address whose position is in use returns: no
-- assertion fails. The accounts are right after it, and of the requests that are below, wait at a
-- position or wait for an entry there is exactly one less.
pub retire-IsFull :
    (bits : ℕ) (m : FullMshr) (paddr : ℕ)
    → IsFull bits 0 0 m
    → m.in_use (calc_entry m paddr) ≡ true
    → (b : Bool) × (m' : FullMshr) × (es : List Event) × (retire m paddr ≡ some (b, m', es))
      × IsFull bits 0 0 m'
      × (suc (unfinished bits m') ≡ unfinished bits m)
unfolding Served
retire-IsFull bits m paddr v used =
    let (m1, es1, e1, r) = release-Released bits m v in
    let used1 : m1.in_use (calc_entry m1 paddr) ≡ true =
      rw (r.same paddr) (r.kept (calc_entry m paddr) used) in
    let (b, m2, es2, e2, v2, less) =
      list_cases bits m1 paddr r.formed used1 (m1.cc (calc_entry m1 paddr)) refl in
    (b, m2, es1 ++ es2, retire_eq m m1 m2 paddr b es1 es2 e1 e2, v2, less ∙ r.one)
