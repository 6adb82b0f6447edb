-- ===== src/Port/Lock.antt =====
-- `lock4nCycles` keeps a port closed for the cycles asked for.
use sesc_src.Common.{ℕ, zero, suc, ◌+◌, ◌-◌, ◌≤◌, ◌<◌, ◌^◌, ltb, if◌then◌else◌, arith}
use sesc_src.Port.Ports.{
  time, Port, unlimited, fully_pipe, fully_n_pipe, pipe, n_pipe, catch_up, first_time, raise_to,
  calc_next_slot, lock4n_cycles,
}
use sesc_src.Port.NextSlot.{IsPort}

-- A bound below every unit is a bound below the minimum of the units.
le-first_time :
    (busy : ℕ → ℕ) (b n i t : ℕ)
    → b ≤ t
    → ((j : ℕ) → i ≤ j → j < i + n → b ≤ busy j)
    → b ≤ first_time busy n i t
unfolding first_time
le-first_time busy b zero i t h f = h
le-first_time busy b (suc n) i t h f =
    let here = f i (omega arith) (omega arith) in
    le-first_time busy b n (i + 1) (if ltb (busy i) t then busy i else t) (ground arith)
      (λ j lo hi. f j (omega arith) (omega arith))

raised : (busy : ℕ → ℕ) (n t j : ℕ) → j < n → t ≤ raise_to n t busy j
raised busy n t j h = ground arith

-- While the port is locked at `clock` for `clks` cycles, no slot is announced before `clock + clks`,
-- whichever of the five kinds the port is and at whatever clock it is asked, if it is in range and
-- the end of the lock is a 64-bit word.
pub lock4n_cycles-calc_next_slot :
    (clock clks t : ℕ) (p : Port)
    → IsPort p
    → calc_next_slot clock p + clks < 2 ^ 64
    → clock + clks ≤ calc_next_slot t (lock4n_cycles clock clks p)
unfolding IsPort calc_next_slot lock4n_cycles
lock4n_cycles-calc_next_slot clock clks t (unlimited l) h w = ground arith
lock4n_cycles-calc_next_slot clock clks t (fully_pipe l) h w = ground arith
lock4n_cycles-calc_next_slot clock clks t (fully_n_pipe n free l) h w =
    let (a, b) = h in ground arith
lock4n_cycles-calc_next_slot clock clks t (pipe ocp l) h w = ground arith
lock4n_cycles-calc_next_slot clock clks t (n_pipe ocp n busy) h w =
    let end = time (catch_up clock (first_time busy (n - 1) 1 (busy 0)) + clks) in
    let later_ : clock + clks ≤ end = ground arith in
    let least =
      le-first_time (raise_to n end busy) end (n - 1) 1 (raise_to n end busy 0)
        (raised busy n end 0 h.0) (λ j lo hi. raised busy n end j (omega arith)) in
    ground arith
