-- ===== src/Common/Bits.antt =====
-- `x & (2 ^ k - 1)`, the index that every table of the simulator uses, is the remainder by `2 ^ k`;
-- and `x & (x - 1)` tells the powers of 2.
use Prim.Native.Nat.{
  ℕ, zero, suc, ◌+◌, ◌-◌, ◌*◌, ◌/◌, ◌%◌, ◌^◌, ◌≤◌, ◌<◌, min, bit_and, digits, bit_and-bitwise,
}
use mathlib.Core.Path.{◌≡◌, refl, ap, ◌∙◌, sym}
use mathlib.Core.Logic.{inl, inr}
use native.Mathlib.Nat.{pow-suc, one-le-pow, mod-lt}
use native.Mathlib.Omega.{arith}
use sesc_src.Common.Tests.{◌==◌, Bool-cases}

-- The conjunction of the lowest `d` digits of `x` with those of `mask`
abbrev low_digits : ℕ → ℕ → ℕ → ℕ
low_digits d x mask = digits (λ rest. 0) min d x mask

low_digits-zero : (d x : ℕ) → low_digits d x 0 ≡ 0
low_digits-zero zero x = refl
low_digits-zero (suc d) zero = refl
low_digits-zero (suc d) (suc x) = omega (arith, low_digits-zero d (suc x / 2))

-- Against a mask of `k` ones a number keeps its remainder `r`.
low_digits-mask :
    (k d x q r : ℕ) → x ≤ d → x ≡ q * 2 ^ k + r → r < 2 ^ k → low_digits d x (2 ^ k - 1) ≡ r
low_digits-mask zero d x q r enough split fits = omega (arith, low_digits-zero d x)
low_digits-mask (suc k) zero x q r enough split fits = omega arith
low_digits-mask (suc k) (suc d) zero q r enough split fits = omega arith
low_digits-mask (suc k) (suc d) (suc x) q r enough split fits =
    let ones = one-le-pow k 2 in
    let double = pow-suc 2 k in
    let row : q * 2 ^ suc k ≡ 2 * (q * 2 ^ k) = omega (arith, ap (λ (t : ℕ). q * t) double) in
    let shorter : (2 ^ suc k - 1) / 2 ≡ 2 ^ k - 1 = omega arith in
    let upper =
      ap (low_digits d (suc x / 2)) shorter
      ∙ low_digits-mask k d (suc x / 2) q (r / 2) (omega arith) (omega arith) (omega arith) in
    ground (arith, upper)

pub bit_and_mask : (k a : ℕ) → bit_and a (2 ^ k - 1) ≡ a % 2 ^ k
bit_and_mask k a =
    let ones = one-le-pow k 2 in
    bit_and-bitwise a (2 ^ k - 1)
    ∙ low_digits-mask k a a (a / 2 ^ k) (a % 2 ^ k) (omega arith) (ground arith)
        (mod-lt a {m = 2 ^ k} (omega arith))

pub bit_and_mask_lt : (k a : ℕ) → bit_and a (2 ^ k - 1) < 2 ^ k
bit_and_mask_lt k a =
    omega (arith, bit_and_mask k a, mod-lt a {m = 2 ^ k} (one-le-pow k 2 (omega arith)))

low_digits_self : (d x : ℕ) → x ≤ d → low_digits d x x ≡ x
low_digits_self zero x h = omega arith
low_digits_self (suc d) zero h = refl
low_digits_self (suc d) (suc x) h = ground (arith, low_digits_self d (suc x / 2) (omega arith))

low_digits-pred : (d x : ℕ) → x ≤ d → 0 < x → low_digits d x (x - 1) ≡ 0 → (k : ℕ) × (x ≡ 2 ^ k)
low_digits-pred zero x h p e = absurd (omega arith)
low_digits-pred (suc d) zero h p e = absurd (omega arith)
low_digits-pred (suc d) (suc x) h p e = elim (Bool-cases (suc x % 2 == 0)) [
  | inl even ↦
      let shorter : (suc x - 1) / 2 ≡ suc x / 2 - 1 = ground arith in
      let same = ap (low_digits d (suc x / 2)) shorter in
      let (k, power) =
        low_digits-pred d (suc x / 2) (omega arith) (ground arith) (ground (arith, same)) in
      (suc k, ground (arith, pow-suc 2 k))
  | inr odd ↦
      let shorter : (suc x - 1) / 2 ≡ suc x / 2 = ground arith in
      let same =
        ap (low_digits d (suc x / 2)) shorter ∙ low_digits_self d (suc x / 2) (omega arith) in
      (0, ground (arith, same))
]

-- `x & (x - 1)` is 0 at the powers of 2 only.
pub power_of_two : (a : ℕ) → 0 < a → bit_and a (a - 1) ≡ 0 → (k : ℕ) × (a ≡ 2 ^ k)
power_of_two a p e = low_digits-pred a a (omega arith) p (sym (bit_and-bitwise a (a - 1)) ∙ e)
