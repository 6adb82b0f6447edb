-- ===== src/Cache/Geometry.antt =====
-- libsuc/CacheCore.h, `CacheGeneric`: the sizes that the constructor derives, and the arithmetic
-- from addresses to tags, sets and indices; libsuc/Snippets.cpp, `log2i`. `ulong` has 64 bits.
use sesc_src.Common.{
  ℕ, zero, suc, ◌+◌, ◌-◌, ◌*◌, ◌/◌, ◌%◌, ◌^◌, bit_and, Option, none, some, ltb, if◌then◌else◌,
}
use mathlib.Core.Option

abbrev pub ulong_mod : ℕ
ulong_mod = 2 ^ 64

-- `while(m<n) { i++; m <<=1; }`; `none` means that the fuel ran out.
unfoldable pub log2_loop : ℕ → ℕ → ℕ → ℕ → Option ℕ
log2_loop zero n m i = none
log2_loop (suc fuel) n m i =
    let rest = log2_loop fuel n (m * 2 % ulong_mod) (i + 1) in if ltb m n then rest else some i

-- 64 rounds reach every power of two that a `ulong` holds.
unfoldable pub log2i : ℕ → Option ℕ
unfolding log2_loop
log2i n = log2_loop 64 n 1 0

pub record Geometry : Type 0 where
  pub size : ℕ
  pub line_size : ℕ
  pub addr_unit : ℕ
  pub assoc : ℕ
  pub log2_assoc : ℕ
  pub log2_addr_ls : ℕ
  pub mask_assoc : ℕ
  pub sets : ℕ
  pub mask_sets : ℕ
  pub num_lines : ℕ

-- `x - 1` on a `ulong`.
abbrev pub pred_ulong : ℕ → ℕ
pred_ulong x = (x + ulong_mod - 1) % ulong_mod

-- The constructor's initialisers, from the logarithms that it computes.
unfoldable pub derive : ℕ → ℕ → ℕ → ℕ → ℕ → ℕ → Geometry
derive s a b u log2_assoc log2_addr_ls = record {
  size = s;
  line_size = b;
  addr_unit = u;
  assoc = a;
  log2_assoc = log2_assoc;
  log2_addr_ls = log2_addr_ls;
  mask_assoc = pred_ulong a;
  sets = s / b / a;
  mask_sets = pred_ulong (s / b / a);
  num_lines = s / b;
}

-- `CacheGeneric(s, a, b, u)`
unfoldable pub make_geometry : ℕ → ℕ → ℕ → ℕ → Option Geometry
unfolding Option.bind
make_geometry s a b u =
    Option.bind (log2i a) (λ la. Option.bind (log2i (b / u)) (λ ls. some (derive s a b u la ls)))

module _ (g : Geometry) where
  unfoldable pub calc_tag : ℕ → ℕ
  calc_tag addr = addr / 2 ^ g.log2_addr_ls

  unfoldable pub calc_set4tag : ℕ → ℕ
  calc_set4tag tag = bit_and tag g.mask_sets

  unfoldable pub calc_index4set : ℕ → ℕ
  calc_index4set set = set * 2 ^ g.log2_assoc % ulong_mod

  unfoldable pub calc_index4tag : ℕ → ℕ
  calc_index4tag tag = calc_index4set (calc_set4tag tag)

  unfoldable pub calc_index4addr : ℕ → ℕ
  calc_index4addr addr = calc_index4set (calc_set4tag (calc_tag addr))

  unfoldable pub calc_addr4tag : ℕ → ℕ
  calc_addr4tag tag = tag * 2 ^ g.log2_addr_ls % ulong_mod
