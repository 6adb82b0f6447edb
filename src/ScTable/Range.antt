-- ===== src/ScTable/Range.antt =====
-- The counters of a table stay in the range of their bits, under every operation.
use sesc_src.Common.{
  ℕ, zero, suc, ◌+◌, ◌-◌, ◌*◌, ◌^◌, ◌≤◌, ◌<◌, ◌≡◌, refl, sym, ◌∙◌, ==_iff, bit_and, Bool, true,
  false, some, ◌==◌, ltb, if◌then◌else◌, arith,
}
use sesc_src.Common.Arrays.{update, update-all}
use sesc_src.ScTable.Counters.{
  ScTable, uchar, saturate_of, fill, mask_of, create, slot, counted, reset, clear,
  predict_and_update, train,
}
use sesc_src.Common.Bits.{bit_and_mask, bit_and_mask_lt}
use native.Mathlib.Nat.{pow-suc, mod_self, one-le-pow, pow-le-pow_right}
use mathlib.Core.Path.{subst}

-- A table of `2 ^ log` counters of `suc b` bits each
pub record IsTable (log b : ℕ) (t : ScTable) : Type 0 where
  pub mask : t.size_mask ≡ 2 ^ log - 1
  pub half : t.saturate ≡ 2 ^ b
  pub top : suc t.max_value ≡ 2 * 2 ^ b
  pub byte : 2 * 2 ^ b ≤ 128
  pub range : (i : ℕ) → i < 2 ^ log → t.table i ≤ t.max_value

-- One write in range keeps a table.
stored-IsTable :
    (log b i v : ℕ) (t : ScTable)
    → IsTable log b t
    → v ≤ t.max_value
    → IsTable log b (record t { table = update t.table i v })
stored-IsTable log b i v t w h = record {
  mask = w.mask;
  half = w.half;
  top = w.top;
  byte = w.byte;
  range =
      update-all (λ j x. j < 2 ^ log → x ≤ t.max_value) t.table i v (λ l. h) (λ j ne. w.range j);
}

counted-le :
    (t : ScTable) (e : ℕ) (taken : Bool)
    → e ≤ t.max_value
    → t.max_value < 2 ^ 8
    → counted t e taken ≤ t.max_value
counted-le t e true h top = ground arith
counted-le t e false h top = ground arith

reset_le :
    (t : ScTable) (taken : Bool) {p : ℕ}
    → t.saturate ≡ p
    → suc t.max_value ≡ 2 * p
    → 2 * p ≤ 128
    → (if taken then t.saturate else uchar (t.saturate - 1)) ≤ t.max_value
reset_le t true e m l = omega arith
reset_le t false e m l = omega arith

-- `reset`, `clear`, `update` and `predict(cid, taken)` keep every counter of a table of at most 7 bits
-- between 0 and the greatest value of its bits, and change neither the size nor the thresholds.
pub operations-IsTable :
    (log b : ℕ) (t : ScTable) (cid : ℕ) (taken : Bool)
    → IsTable log b t
    → IsTable log b (reset t cid taken)
      × IsTable log b (clear t cid)
      × IsTable log b (train t cid taken)
      × IsTable log b (predict_and_update t cid taken).1
unfolding reset clear train predict_and_update
operations-IsTable log b t cid taken w =
    let inside : slot t cid < 2 ^ log =
      subst (λ m. bit_and cid m < 2 ^ log) (sym w.mask) (bit_and_mask_lt log cid) in
    let kept =
      counted-le t (t.table (slot t cid)) taken (w.range (slot t cid) inside)
        (omega (arith, w.top, w.byte)) in
    (
      stored-IsTable log b (slot t cid) _ t w (reset_le t taken w.half w.top w.byte),
      stored-IsTable log b (slot t cid) 0 t w (omega arith),
      stored-IsTable log b (slot t cid) _ t w kept,
      stored-IsTable log b (slot t cid) _ t w kept,
    )

fill-le :
    (sat : ℕ) (memory : ℕ → ℕ) (n cnt f : ℕ)
    → f ≤ sat
    → sat ≤ 64
    → (i : ℕ) → i < cnt + n
    → (i < cnt → memory i ≤ sat)
    → fill sat memory n cnt f i ≤ sat
unfolding fill
fill-le sat memory zero cnt f h small i inside before = before (omega arith)
fill-le sat memory (suc n) cnt f h small i inside before =
    fill-le sat (update memory cnt f) n (cnt + 1) (uchar (sat + (2 ^ 8 - f))) (omega arith) small i
      (omega arith) (λ l. ground (arith, before))

saturate_value : (b : ℕ) → 2 ^ b ≤ 64 → saturate_of (suc b) ≡ 2 ^ b
saturate_value zero h = refl
saturate_value (suc b) h =
    let more : ltb 1 (suc (suc b)) ≡ true = ground arith in
    let pred : suc (suc b) - 1 ≡ suc b = omega arith in rw (more, pred) (omega arith)

mask_of-pow : (k : ℕ) → k < 64 → mask_of (2 ^ k) ≡ 2 ^ k - 1
mask_of-pow k h = omega (
  arith,
  pow-suc 2 k,
  one-le-pow k 2,
  pow-le-pow_right {n = 2} (omega arith) {i = suc k} {j = 64} h,
)

-- For a power of 2 of 64 bits as the size and 1 to 7 bits the constructor returns a table in range.
pub create-IsTable :
    (memory : ℕ → ℕ) (log b : ℕ)
    → log < 64
    → b < 7
    → (t : ScTable) × (create memory (2 ^ log) (suc b) ≡ some t) × IsTable log b t
unfolding create
create-IsTable memory log b small h =
    let pred : mask_of (2 ^ log) ≡ 2 ^ log - 1 = mask_of-pow log small in
    let power : (bit_and (2 ^ log) (2 ^ log - 1) == 0) ≡ true =
      (==_iff _ 0).1 (bit_and_mask log (2 ^ log) ∙ mod_self (2 ^ log)) in
    let high : ltb 7 (suc b) ≡ false = ground arith in
    let low : ltb (suc b) 1 ≡ false = ground arith in
    let bound : 2 ^ b ≤ 64 = pow-le-pow_right {n = 2} (omega arith) {i = b} {j = 6} (omega arith) in
    let sat : saturate_of (suc b) ≡ 2 ^ b = saturate_value b bound in
    let double = pow-suc 2 b in
    let ones = one-le-pow b 2 in
    rw (pred, power, high, low)
      (
        _,
        refl,
        record {
          mask = refl;
          half = sat;
          top = omega arith;
          byte = omega arith;
          range = λ i l. omega (
            arith,
            fill-le (saturate_of (suc b)) memory (2 ^ log) 0 1 (omega arith) (omega arith) i
                (omega arith) (λ z. absurd (omega arith)),
          );
        },
      )
