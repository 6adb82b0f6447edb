-- ===== src/Cache/Sound.antt =====
-- Sizes that are powers of two: the logarithms that the constructor computes, and the bounds of
-- the index arithmetic.
use sesc_src.Common.{ℕ, ◌+◌, ◌-◌, ◌*◌, ◌%◌, ◌^◌, ◌≤◌, ◌<◌, ◌≡◌, arith}
use sesc_src.Common.Bits.{bit_and_mask}
use native.Mathlib.Nat.{mod-lt, mod-eq_of_lt, one-le-pow}
use sesc_src.Cache.Geometry.{ulong_mod, Geometry, calc_set4tag, calc_index4set, calc_index4tag}

pub record IsSound (g : Geometry) : Type 0 where
  pub log2_sets : ℕ
  pub sets_eq : g.sets ≡ 2 ^ log2_sets
  pub mask_eq : g.mask_sets ≡ 2 ^ log2_sets - 1
  pub assoc_eq : g.assoc ≡ 2 ^ g.log2_assoc
  pub lines_eq : g.num_lines ≡ g.sets * g.assoc
  pub small : g.num_lines < ulong_mod

module _ {g : Geometry} (v : IsSound g) where
  open v use {log2_sets, sets_eq, mask_eq, assoc_eq, lines_eq, small}

  pub assoc_pos : 0 < g.assoc
  assoc_pos = omega (arith, assoc_eq, one-le-pow g.log2_assoc 2)

  pub calc_set4tag_lem : (t : ℕ) → calc_set4tag g t ≡ t % g.sets
  unfolding calc_set4tag
  calc_set4tag_lem t = rw (mask_eq, sets_eq) (bit_and_mask log2_sets t)

  pub calc_set4tag-lt : (t : ℕ) → calc_set4tag g t < g.sets
  calc_set4tag-lt t =
      rw (calc_set4tag_lem t)
        (mod-lt t {m = g.sets} (omega (arith, sets_eq, one-le-pow log2_sets 2)))

  -- A set that exists lies inside the array.
  row_fits : (x s a : ℕ) → x < s → x * a + a ≤ s * a
  row_fits x s a h = grind arith

  -- The shift to the first way of a set does not wrap, and the set lies inside the array.
  pub calc_index4tag_bounds :
      (t : ℕ)
      → (calc_index4tag g t ≡ calc_set4tag g t * g.assoc)
        × (calc_index4tag g t + g.assoc ≤ g.num_lines)
  unfolding calc_index4tag calc_index4set
  calc_index4tag_bounds t =
      let fits : calc_set4tag g t * g.assoc + g.assoc ≤ g.num_lines =
        omega (arith, lines_eq, row_fits (calc_set4tag g t) g.sets g.assoc (calc_set4tag-lt t)) in
      let e : calc_set4tag g t * 2 ^ g.log2_assoc % ulong_mod ≡ calc_set4tag g t * g.assoc =
        rw (← assoc_eq) (mod-eq_of_lt {m = ulong_mod} (omega (arith, assoc_pos))) in
      (e, rw e fits)
