-- ===== src/Mshr/Releases.antt =====
-- The first half of `retire` of `FullMSHR`: an entry is free, or goes to a request that waited for one.
use sesc_src.Common.{
  ℕ, ◌+◌, ◌^◌, ◌≡◌, refl, sym, ap, ◌∙◌, inl, inr, true, false, not, some, List, [], ◌∷◌, Bool-cases,
  arith,
}
use sesc_src.Common.Arrays.{update-all}
use sesc_src.Common.Sums.{is_empty, length}
use sesc_src.Mshr.Types.{Event, OverflowField}
use sesc_src.Mshr.Full.{FullMshr, calc_entry, admit, release}
use sesc_src.Mshr.Accounts.{load, IsFull, calc_entry-lt, taken-IsFull, joined-IsFull}

-- Requests below, waiting at a position, or waiting for an entry
unfoldable pub unfinished : ℕ → FullMshr → ℕ
unfinished bits m = load (2 ^ bits) m.in_use m.cc + length m.overflow

-- An entry that is free and used at once
pub record Released (bits : ℕ) (m m' : FullMshr) : Type 0 where
  pub formed : IsFull bits 0 1 m'
  pub kept : (i : ℕ) → m.in_use i ≡ true → m'.in_use i ≡ true
  pub same : (a : ℕ) → calc_entry m' a ≡ calc_entry m a
  pub one : unfinished bits m' ≡ unfinished bits m

pub impossible : true ≡ false → ⊥
impossible e = cc

shorter-IsFull :
    (bits : ℕ) (m : FullMshr) (rest : List OverflowField)
    → IsFull bits 0 0 m
    → m.overflowing ≡ true
    → IsFull bits 0 0 (record m { overflow = rest; overflowing = not (is_empty rest) })
unfolding calc_entry
shorter-IsFull bits m rest v over = record {
  mask = v.mask;
  flag = refl;
  full = λ t. v.full over;
  idle = v.idle;
  source = v.source;
  account = v.account;
}

admit-Released :
    (bits : ℕ) (m : FullMshr) (f : OverflowField)
    → IsFull bits 0 0 m
    → IsFull bits 0 1 (admit m f).0
      × ((i : ℕ) → m.in_use i ≡ true → (admit m f).0.in_use i ≡ true)
      × ((a : ℕ) → calc_entry (admit m f).0 a ≡ calc_entry m a)
      × ((admit m f).0.overflow ≡ m.overflow)
      × ((admit m f).0.n_free_entries ≡ m.n_free_entries)
      × ((admit m f).0.n_entries ≡ m.n_entries)
unfolding admit calc_entry
admit-Released bits m f v =
    let pos = calc_entry m f.paddr in
    let inside = calc_entry-lt bits m f.paddr v.mask in
    elim (Bool-cases (m.in_use pos)) [
      | inl used ↦
          rw (used, admit)
            (joined-IsFull bits 0 0 m v pos inside f.cb used, λ i t. t, λ a. refl, refl, refl, refl)
      | inr unused ↦
          rw (unused, admit)
            (
              taken-IsFull bits 0 0 m v pos inside f.paddr refl unused,
              update-all (λ i b. m.in_use i ≡ true → b ≡ true) m.in_use pos true (λ t. refl)
                  (λ j ne t. t),
              λ a. refl,
              refl,
              refl,
              refl,
            )
    ]

over-Released :
    (bits : ℕ) (m : FullMshr) (fs : List OverflowField)
    → IsFull bits 0 0 m
    → m.overflowing ≡ true
    → m.overflow ≡ fs
    → (m' : FullMshr) × (es : List Event) × (release m ≡ some (m', es)) × Released bits m m'
unfolding release unfinished calc_entry
over-Released bits m [] v over e =
    let flag = v.flag in absurd (impossible (sym over ∙ flag ∙ ap (λ l. not (is_empty l)) e))
over-Released bits m (f ∷ rest) v over e =
    let m0 = record m { overflow = rest; overflowing = not (is_empty rest) } in
    let (formed, kept, same, queue, free, all) =
      admit-Released bits m0 f (shorter-IsFull bits m rest v over) in
    let account = formed.account in
    let before = v.account in
    let longer = ap length e in
    let shorter = ap length queue in
    (
      (admit m0 f).0,
      (admit m0 f).1,
      rw (over, e) refl,
      record { formed = formed; kept = kept; same = same; one = omega arith },
    )

pub release-Released :
    (bits : ℕ) (m : FullMshr)
    → IsFull bits 0 0 m
    → (m' : FullMshr) × (es : List Event) × (release m ≡ some (m', es)) × Released bits m m'
unfolding release unfinished calc_entry
release-Released bits m v = elim (Bool-cases m.overflowing) [
  | inl over ↦ over-Released bits m m.overflow v over refl
  | inr not_over ↦
      let account = v.account in
      (
        record m { n_free_entries = m.n_free_entries + 1 },
        [],
        rw not_over refl,
        record {
          formed = record {
            mask = v.mask;
            flag = v.flag;
            full = λ t. absurd (cc);
            idle = v.idle;
            source = v.source;
            account = omega arith;
          };
          kept = λ i t. t;
          same = λ a. refl;
          one = refl;
        },
      )
]
