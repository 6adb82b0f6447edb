-- ===== src/Mshr/Full.antt =====
-- libsuc/MSHR: `FullMSHR`. Each position of a table stands for the lines that hash to it, and what
-- finds no entry waits in the queue `overflow`.
use sesc_src.Common.{
  ℕ, ◌+◌, ◌-◌, ◌*◌, ◌/◌, ◌^◌, bit_and, bit_xor, Bool, true, false, not, Option, none, some, List,
  [], ◌∷◌, ◌++◌, ◌==◌, leb, ◌||◌, if◌then◌else◌,
}
use sesc_src.Common.Arrays.{update}
use sesc_src.Common.Sums.{is_empty}
use sesc_src.Mshr.Types.{Event, called, destroyed, check, add, destroy, OverflowField}

pub record FullMshr : Type 0 where
  pub n_entries : ℕ
  pub n_free_entries : ℕ
  pub log2_line_size : ℕ
  pub mshr_mask : ℕ
  pub overflowing : Bool
  pub in_use : ℕ → Bool
  pub cc : ℕ → List ℕ
  pub overflow : List OverflowField

-- `FullMSHR(name, size, lineSize, aPolicy)`, where `rounded` is `roundUpPower2(size)`
abbrev pub create : ℕ → ℕ → ℕ → FullMshr
create size rounded log2_line_size = record {
  n_entries = size;
  n_free_entries = size;
  log2_line_size = log2_line_size;
  mshr_mask = rounded * 4 - 1;
  overflowing = false;
  in_use = λ i. false;
  cc = λ i. [];
  overflow = [];
}

unfoldable pub calc_entry : FullMshr → ℕ → ℕ
calc_entry m paddr =
    let p = paddr / 2 ^ m.log2_line_size in bit_and (bit_xor p (p / 2 ^ 11)) m.mshr_mask

-- `canAcceptRequestSpecial` and `canAllocateEntry`
abbrev pub can_allocate_entry : FullMshr → Bool
can_allocate_entry m = not (m.n_free_entries == 0)

unfoldable pub issue : FullMshr → ℕ → Option (Bool × FullMshr)
issue m paddr =
    let pos = calc_entry m paddr in
    if m.overflowing || m.n_free_entries == 0
    then some (false, record m { overflowing = true })
    else if m.in_use pos
    then some (false, record m { n_free_entries = m.n_free_entries - 1 })
    else check (is_empty (m.cc pos)) (
      true,
      record m { n_free_entries = m.n_free_entries - 1; in_use = update m.in_use pos true },
    )

unfoldable pub add_entry : FullMshr → ℕ → ℕ → Option ℕ → Option (FullMshr × List Event)
add_entry m paddr c ovflwc =
    let pos = calc_entry m paddr in
    if not (leb m.n_free_entries m.n_entries)
    then none
    else if m.overflowing
    then some (
      record m { overflow = m.overflow ++ record { paddr = paddr; cb = c; ovflwcb = ovflwc } ∷ [] },
      [],
    )
    else check (m.in_use pos) (record m { cc = update m.cc pos (add (m.cc pos) c) }, destroy ovflwc)

-- The first of the overflow queue, which `retire` has taken off, goes to its entry.
unfoldable pub admit : FullMshr → OverflowField → FullMshr × List Event
admit m f =
    let opos = calc_entry m f.paddr in
    if m.in_use opos
    then (record m { cc = update m.cc opos (add (m.cc opos) f.cb) }, destroy f.ovflwcb)
    else (
      record m { in_use = update m.in_use opos true },
      elim f.ovflwcb [ none ↦ called f.cb ∷ [] | some o ↦ called o ∷ destroyed f.cb ∷ [] ],
    )

-- `retire` up to the middle: the entry is free, or goes to the overflow queue.
unfoldable pub release : FullMshr → Option (FullMshr × List Event)
unfolding admit
release m =
    if m.overflowing
    then elim m.overflow [
      | [] ↦ none
      | f ∷ rest ↦ some (admit (record m { overflow = rest; overflowing = not (is_empty rest) }) f)
    ]
    else some (record m { n_free_entries = m.n_free_entries + 1 }, [])

-- `retire` from the middle on: the next request of the position, if any
unfoldable pub serve : FullMshr → ℕ → Option (Bool × FullMshr × List Event)
serve m paddr =
    let pos = calc_entry m paddr in
    if not (leb m.n_free_entries m.n_entries)
    then none
    else if not (m.in_use pos)
    then none
    else elim (m.cc pos) [
      | [] ↦ some (true, record m { in_use = update m.in_use pos false }, [])
      | c ∷ rest ↦ some (false, record m { cc = update m.cc pos rest }, called c ∷ [])
    ]

unfoldable pub retire : FullMshr → ℕ → Option (Bool × FullMshr × List Event)
unfolding release serve
retire m paddr = elim (release m) [
  | none ↦ none
  | some (m1, es1) ↦ elim (serve m1 paddr) [
    | none ↦ none
    | some (b, m2, es2) ↦ some (b, m2, es1 ++ es2)
  ]
]

-- How the caches use the registers: what cannot be issued is added.
unfoldable pub request : FullMshr → ℕ → ℕ → Option ℕ → Option (Bool × FullMshr × List Event)
unfolding issue add_entry
request m paddr c ovflwc = elim (issue m paddr) [
  | none ↦ none
  | some (issued, m1) ↦
      if issued
      then some (true, m1, [])
      else elim (add_entry m1 paddr c ovflwc) [ none ↦ none | some (m2, es) ↦ some (false, m2, es) ]
]
