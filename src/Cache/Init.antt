-- ===== src/Cache/Init.antt =====
-- The constructors: sizes that are powers of two give a sound geometry, and a new cache meets the
-- invariant.
use sesc_src.Common.{
  ℕ, zero, suc, ◌+◌, ◌-◌, ◌*◌, ◌/◌, ◌%◌, ◌^◌, ◌≤◌, ◌<◌, ◌≡◌, refl, sym, ap, ◌∙◌, inl, inr, some,
  ltb, ◌==◌, true, false, Bool-cases, arith,
}
use native.Mathlib.Nat.{
  pow-suc, one-le-pow, pow-le-pow_right, mod-eq_of_lt, add-mul-div_right, zero-div,
}
use sesc_src.Cache.Line.{LineOps}
use sesc_src.Cache.Geometry.{
  ulong_mod, Geometry, log2_loop, log2i, pred_ulong, derive, make_geometry,
}
use sesc_src.Cache.Sound.{IsSound}
use sesc_src.Cache.Core.{ReplacementPolicy, create}
use sesc_src.Cache.WellFormed.{IsWellFormed}
use sesc_src.Cache.Lookup.{IsCreated}

pow_lt : (i k : ℕ) → i < k → 2 ^ i < 2 ^ k
pow_lt i k h =
    omega
      (arith, pow-suc 2 i, one-le-pow i 2 (omega arith), pow-le-pow_right {n = 2} (omega arith) h)

double : (i : ℕ) → suc i < 64 → 2 ^ i * 2 % ulong_mod ≡ 2 ^ (i + 1)
double i h =
    let step : 2 ^ suc i ≡ 2 ^ (i + 1) = ap (λ (t : ℕ). 2 ^ t) (omega arith) in
    mod-eq_of_lt {m = ulong_mod} (omega (arith, pow-suc 2 i, pow_lt (suc i) 64 h))
    ∙ sym (pow-suc 2 i)
    ∙ step

log2_loop_pow :
    (fuel k i : ℕ) → i ≤ k → k < i + fuel → k < 64 → log2_loop fuel (2 ^ k) (2 ^ i) i ≡ some k
unfolding log2_loop
log2_loop_pow zero k i a b c = absurd (omega arith)
log2_loop_pow (suc fuel) k i a b c = elim (Bool-cases (i == k)) [
  | inl e ↦
      let same : i ≡ k = ground arith in
      let stop : ltb (2 ^ i) (2 ^ k) ≡ false = rw same (ground arith) in rw stop (ap some same)
  | inr ne ↦
      let below : i < k = ground arith in
      let go : ltb (2 ^ i) (2 ^ k) ≡ true = ground (arith, pow_lt i k below) in
      let next : 2 ^ i * 2 % ulong_mod ≡ 2 ^ (i + 1) = double i (omega arith) in
      rw (go, next) (log2_loop_pow fuel k (i + 1) (omega arith) (omega arith) c)
]

-- `log2i` computes the exponent of every power of two that a `ulong` holds.
pub log2i-pow : (k : ℕ) → k < 64 → log2i (2 ^ k) ≡ some k
unfolding log2i
log2i-pow k h = log2_loop_pow 64 k 0 (omega arith) (omega arith) h

-- `x - 1` does not wrap at a power of two.
pred_ulong-pow : (k : ℕ) → k < 64 → pred_ulong (2 ^ k) ≡ 2 ^ k - 1
pred_ulong-pow k h = omega (arith, pow_lt k 64 h, one-le-pow k 2)

mul-div_self : (x b : ℕ) → 0 < b → x * b / b ≡ x
mul-div_self x b h =
    let plain : x * b ≡ 0 + x * b = omega arith in
    ap (λ (t : ℕ). t / b) plain ∙ add-mul-div_right 0 x {z = b} h ∙ omega (arith, zero-div b)

-- For numbers of sets and ways and a line size that are powers of two, with the lines' size over the
-- addressable unit a power of two and the numbers in range of an `unsigned long`, the constructor
-- terminates; its two logarithms are the exponents of the number of ways and of the addressable
-- units in a line; it derives the number of sets and of lines that the sizes give, and both masks are
-- one less than the number of sets and the number of ways.
pub make_geometry-IsSound :
    (i k j u m : ℕ)
    → i < 64
    → k < 64
    → m < 64
    → 2 ^ j / u ≡ 2 ^ m
    → 2 ^ i * 2 ^ k < ulong_mod
    → (g : Geometry) × (make_geometry (2 ^ i * 2 ^ k * 2 ^ j) (2 ^ k) (2 ^ j) u ≡ some g)
      × IsSound g
      × (g.sets ≡ 2 ^ i)
      × (g.assoc ≡ 2 ^ k)
      × (g.log2_assoc ≡ k)
      × (g.log2_addr_ls ≡ m)
      × (g.mask_sets ≡ 2 ^ i - 1)
      × (g.mask_assoc ≡ 2 ^ k - 1)
      × (g.num_lines ≡ 2 ^ i * 2 ^ k)
unfolding make_geometry derive
make_geometry-IsSound i k j u m hi hk hm unit fits =
    let s : ℕ = 2 ^ i * 2 ^ k * 2 ^ j in
    let lines : s / 2 ^ j ≡ 2 ^ i * 2 ^ k =
      mul-div_self (2 ^ i * 2 ^ k) (2 ^ j) (one-le-pow j 2 (omega arith)) in
    let sets : s / 2 ^ j / 2 ^ k ≡ 2 ^ i =
      rw lines (mul-div_self (2 ^ i) (2 ^ k) (one-le-pow k 2 (omega arith))) in
    (
      derive s (2 ^ k) (2 ^ j) u k m,
      rw (log2i-pow k hk, unit, log2i-pow m hm) refl,
      record {
        log2_sets = i;
        sets_eq = sets;
        mask_eq = ap pred_ulong sets ∙ pred_ulong-pow i hi;
        assoc_eq = refl;
        lines_eq = lines ∙ ap (λ x. x * 2 ^ k) (sym sets);
        small = rw lines fits;
      },
      sets,
      refl,
      refl,
      refl,
      ap pred_ulong sets ∙ pred_ulong-pow i hi,
      pred_ulong-pow k hk,
      lines,
    )

module _ {S : Type 0} (ops : LineOps S) where
  -- `create` on sound sizes gives a cache that meets the invariant, if `invalidate` clears the tag.
  pub create-IsWellFormed :
      (g : Geometry) (policy : ReplacementPolicy) (s : S)
      → IsSound g
      → ops.get_tag (ops.invalidate s) ≡ 0
      → IsWellFormed ops (create ops g policy s) × IsCreated ops (create ops g policy s)
  unfolding create
  create-IsWellFormed g policy s v cleared = (
    record {
      sound = v;
      injective = λ i j p q e. e;
      home = λ i p h. absurd (h cleared);
      unique = λ i j p q e h. absurd (h cleared);
    },
    λ e. ground arith,
  )
