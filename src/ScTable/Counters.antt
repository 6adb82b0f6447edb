-- ===== src/ScTable/Counters.antt =====
-- libsuc/SCTable.h and SCTable.cpp, all operations. A `uchar` has 8 bits.
use sesc_src.Common.{
  ℕ, zero, suc, ◌+◌, ◌-◌, ◌%◌, ◌^◌, bit_and, Bool, true, false, not, Option, none, some, ◌==◌, ltb,
  leb, ◌||◌, if◌then◌else◌,
}
use sesc_src.Common.Arrays.{update}

abbrev pub uchar : ℕ → ℕ
uchar n = n % 2 ^ 8

pub record ScTable : Type 0 where
  pub size_mask : ℕ
  pub saturate : ℕ
  pub max_value : ℕ
  pub table : ℕ → ℕ

-- `Saturate(bits > 1 ? (1<<(bits-1)) : 1)`
abbrev pub saturate_of : ℕ → ℕ
saturate_of bits = uchar (if ltb 1 bits then 2 ^ (bits - 1) else 1)

-- The loop of the constructor with `flipflop`; the third argument counts the rounds left. A `uchar`
-- difference wraps around.
unfoldable pub fill : ℕ → (ℕ → ℕ) → ℕ → ℕ → ℕ → ℕ → ℕ
fill saturate memory zero cnt flipflop = memory
fill saturate memory (suc n) cnt flipflop =
    fill saturate (update memory cnt flipflop) n (cnt + 1) (uchar (saturate + (2 ^ 8 - flipflop)))

-- `size-1` on the unsigned 64 bits of `size_t`: it wraps at 0.
abbrev pub mask_of : ℕ → ℕ
mask_of size = (size + (2 ^ 64 - 1)) % 2 ^ 64

-- The constructor on memory from `new`; where it returns early the table is not allocated.
unfoldable pub create : (ℕ → ℕ) → ℕ → ℕ → Option ScTable
create memory size bits =
    if not (bit_and size (mask_of size) == 0)
    then none
    else if ltb 7 bits || ltb bits 1
    then none
    else some (record {
      size_mask = mask_of size;
      saturate = saturate_of bits;
      max_value = uchar (2 ^ bits - 1);
      table = fill (saturate_of bits) memory size 0 1;
    })

-- `cid & sizeMask`
abbrev pub slot : ScTable → ℕ → ℕ
slot t cid = bit_and cid t.size_mask

-- `*entry` after an update
abbrev pub counted : ScTable → ℕ → Bool → ℕ
counted t e true = if ltb e t.max_value then uchar (e + 1) else e
counted t e false = if ltb 0 e then e - 1 else e

unfoldable pub reset : ScTable → ℕ → Bool → ScTable
reset t cid taken = record t {
  table = update t.table (slot t cid) (if taken then t.saturate else uchar (t.saturate - 1));
}

unfoldable pub clear : ScTable → ℕ → ScTable
clear t cid = record t { table = update t.table (slot t cid) 0 }

-- `predict(cid, taken)`: predict and update
unfoldable pub predict_and_update : ScTable → ℕ → Bool → Bool × ScTable
predict_and_update t cid taken =
    let entry = t.table (slot t cid) in
    (leb t.saturate entry, record t { table = update t.table (slot t cid) (counted t entry taken) })

-- `update(cid, taken)`
unfoldable pub train : ScTable → ℕ → Bool → ScTable
train t cid taken = record t {
  table = update t.table (slot t cid) (counted t (t.table (slot t cid)) taken);
}

-- `predict(cid)`
unfoldable pub predict : ScTable → ℕ → Bool
predict t cid = leb t.saturate (t.table (slot t cid))

abbrev pub is_lowest : ScTable → ℕ → Bool
is_lowest t cid = t.table (slot t cid) == 0

abbrev pub is_highest : ScTable → ℕ → Bool
is_highest t cid = t.table (slot t cid) == t.max_value
