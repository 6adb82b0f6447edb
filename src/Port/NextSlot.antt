-- ===== src/Port/NextSlot.antt =====
-- `nextSlot` against `calcNextSlot`, and `occupySlots` against a sequence of `nextSlot`.
use sesc_src.Common.{
  ℕ, zero, suc, ◌+◌, ◌-◌, ◌*◌, ◌≤◌, ◌<◌, ◌^◌, ◌≡◌, refl, ◌∙◌, sym, ap, inl, inr, ltb, if◌then◌else◌,
  Bool-cases, arith,
}
use sesc_src.Port.Ports.{
  time, as_int, Port, unlimited, fully_pipe, fully_n_pipe, pipe, n_pipe, catch_up, first_time,
  calc_next_slot, next_slot_loop, next_slot_n_pipe, next_slot, next_slots, occupy_slots,
}

pub first_time_le : (busy : ℕ → ℕ) (n i t : ℕ) → first_time busy n i t ≤ t
unfolding first_time
first_time_le busy zero i t = omega arith
first_time_le busy (suc n) i t =
    let r = first_time_le busy n (i + 1) (if ltb (busy i) t then busy i else t) in ground arith

-- The loop of `nextSlot` grants the slot that the loop of `calcNextSlot` announces.
next_slot_loop-catch_up :
    (clock occ : ℕ) (busy : ℕ → ℕ) (n i port t : ℕ)
    → clock ≤ t
    → (next_slot_loop clock occ busy n i port t).0 ≡ catch_up clock (first_time busy n i t)
unfolding next_slot_loop first_time
next_slot_loop-catch_up clock occ busy zero i port t h = ground arith
next_slot_loop-catch_up clock occ busy (suc n) i port t h =
    let r = first_time_le busy n (i + 1) (if ltb (busy i) t then busy i else t) in
    elim (Bool-cases (ltb (busy i) clock)) [
      | inl e ↦ ground arith
      | inr e ↦ rw (e) (
          next_slot_loop-catch_up clock occ busy n (i + 1) (if ltb (busy i) t then i else port)
            (if ltb (busy i) t then busy i else t) (ground arith))
    ]

-- The times of a port are 64-bit words, with room for one more cycle where the next slot can be one
-- cycle later, and its units are counted in 16 bits.
unfoldable pub IsPort : Port → Type 0
IsPort (unlimited l) = l < 2 ^ 64
IsPort (fully_pipe l) = l < 2 ^ 64
IsPort (fully_n_pipe n free l) = (suc l < 2 ^ 64) × (suc n < 2 ^ 16)
IsPort (pipe ocp l) = l < 2 ^ 64
IsPort (n_pipe ocp n busy) = (0 < n) × ((i : ℕ) → busy i < 2 ^ 64)

-- At every clock, `nextSlot` grants the slot that `calcNextSlot` announced just before, on each of
-- the five kinds of port, in any state in range: the assertions `I(cns == ...)`
-- hold.
pub next_slot-calc_next_slot :
    (clock : ℕ) (p : Port) → IsPort p → (next_slot clock p).0 ≡ calc_next_slot clock p
unfolding next_slot calc_next_slot next_slot_n_pipe IsPort
next_slot-calc_next_slot clock (unlimited l) h = refl
next_slot-calc_next_slot clock (fully_pipe l) h = refl
next_slot-calc_next_slot clock (fully_n_pipe n free l) h = ground arith
next_slot-calc_next_slot clock (pipe ocp l) h = refl
next_slot-calc_next_slot clock (n_pipe ocp n busy) h =
    let r = first_time_le busy (n - 1) 1 (busy 0) in
    elim (Bool-cases (ltb (busy 0) clock)) [
      | inl e ↦ ground arith
      | inr e ↦ rw (e) (next_slot_loop-catch_up clock ocp busy (n - 1) 1 0 (busy 0) (ground arith))
    ]

-- On a single unit, `occupySlots` grants the first slot and leaves the port as that many `nextSlot`
-- do; there is no wrap-around as long as the last slot is a 64-bit word.
next_slots-fully_pipe :
    (clock k l : ℕ)
    → clock ≤ l
    → l + k < 2 ^ 64
    → next_slots clock k (fully_pipe l) ≡ fully_pipe (time (l + k))
unfolding next_slots next_slot
next_slots-fully_pipe clock zero l h r = ap fully_pipe (omega arith)
next_slots-fully_pipe clock (suc k) l h r =
    ap (λ x. next_slots clock k (fully_pipe x)) (ground arith)
    ∙ next_slots-fully_pipe clock k (l + 1) (omega arith) (omega arith)
    ∙ ap (λ x. fully_pipe (time x)) (omega arith)

next_slots-pipe :
    (clock k ocp l : ℕ)
    → clock ≤ l
    → l + ocp * k < 2 ^ 64
    → next_slots clock k (pipe ocp l) ≡ pipe ocp (time (l + ocp * k))
unfolding next_slots next_slot
next_slots-pipe clock zero ocp l h r = ap (pipe ocp) (ground arith)
next_slots-pipe clock (suc k) ocp l h r =
    ap (λ x. next_slots clock k (pipe ocp x)) (ground arith)
    ∙ next_slots-pipe clock k ocp (l + ocp) (omega arith) (omega arith)
    ∙ ap (λ x. pipe ocp (time x)) (omega arith)

as_int-small : (n : ℕ) → n < 2 ^ 31 → as_int n ≡ n
as_int-small n h = ground arith

-- `next_slots` and the first slot, on a pipe that has caught up
from_pipe :
    (clock k ocp l : ℕ)
    → catch_up clock l + ocp * suc k < 2 ^ 64
    → ocp * suc k < 2 ^ 31
    → next_slots clock (suc k) (pipe ocp l) ≡ (occupy_slots clock (suc k) (pipe ocp l)).1
unfolding next_slots next_slot occupy_slots
from_pipe clock k ocp l r s = rw (as_int-small (ocp * suc k) s) (
    ap (λ x. next_slots clock k (pipe ocp x)) (ground arith)
    ∙ next_slots-pipe clock k ocp (catch_up clock l + ocp) (ground arith) (omega arith)
    ∙ ap (λ x. pipe ocp (time x)) (omega arith))

from_fully_pipe :
    (clock k l : ℕ)
    → catch_up clock l + suc k < 2 ^ 64
    → next_slots clock (suc k) (fully_pipe l) ≡ (occupy_slots clock (suc k) (fully_pipe l)).1
unfolding next_slots next_slot occupy_slots
from_fully_pipe clock k l r =
    ap (λ x. next_slots clock k (fully_pipe x)) (ground arith)
    ∙ next_slots-fully_pipe clock k (catch_up clock l + 1) (ground arith) (omega arith)
    ∙ ap (λ x. fully_pipe (time x)) (omega arith)

-- The last slot that a call reserves is a 64-bit word, and the product of the occupancy and the
-- number of slots is an `int`; on the port with several fully pipelined units `occupySlots` is not a
-- sequence of `nextSlot` at all.
abbrev pub Fits : ℕ → ℕ → Port → Type 0
Fits clock k (unlimited l) = Unit
Fits clock k (fully_pipe l) = catch_up clock l + k < 2 ^ 64
Fits clock k (fully_n_pipe n free l) = ⊥
Fits clock k (pipe ocp l) = (catch_up clock l + ocp * k < 2 ^ 64) × (ocp * k < 2 ^ 31)
Fits clock k (n_pipe ocp n busy) = Unit

next_slots-unlimited : (clock k l : ℕ) → clock ≤ l → next_slots clock k (unlimited l) ≡ unlimited l
unfolding next_slots next_slot
next_slots-unlimited clock zero l h = refl
next_slots-unlimited clock (suc k) l h =
    ap (λ x. next_slots clock k (unlimited x)) (ground arith) ∙ next_slots-unlimited clock k l h

-- `occupySlots` for one slot or more grants what the first of as many `nextSlot` grants, and leaves
-- the port as they do, unless the port has several fully pipelined units; with one unit the last
-- slot reserved has to be a 64-bit word, and on a pipe with an occupancy its product with the number
-- of slots has to be an `int`.
pub occupy_slots-next_slots :
    (clock k : ℕ) (p : Port)
    → Fits clock (suc k) p
    → occupy_slots clock (suc k) p ≡ ((next_slot clock p).0, next_slots clock (suc k) p)
unfolding occupy_slots next_slots next_slot
occupy_slots-next_slots clock k (unlimited l) h =
    ap (λ p. (catch_up clock l, p))
      (sym (next_slots-unlimited clock k (catch_up clock l) (ground arith)))
occupy_slots-next_slots clock k (fully_pipe l) h =
    ap (λ p. (catch_up clock l, p)) (sym (from_fully_pipe clock k l h))
occupy_slots-next_slots clock k (fully_n_pipe n free l) h = absurd h
occupy_slots-next_slots clock k (pipe ocp l) h =
    ap (λ p. (catch_up clock l, p)) (sym (from_pipe clock k ocp l h.0 h.1))
occupy_slots-next_slots clock k (n_pipe ocp n busy) h =
    let same : suc k - 1 ≡ k = omega arith in
    let granted = next_slot clock (n_pipe ocp n busy) in
    ap (λ j. (granted.0, next_slots clock j granted.1)) same
