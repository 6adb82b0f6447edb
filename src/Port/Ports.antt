-- ===== src/Port/Ports.antt =====
-- libsuc/Port.cpp and Port.h: the five kinds of port as one data type, a virtual call as a function
-- by clauses. `globalClock` is the argument `clock`. `Time_t` is a 64-bit word; the statistics in
-- `avgTime` are left out.
use sesc_src.Common.{
  ℕ, zero, suc, ◌+◌, ◌-◌, ◌*◌, ◌/◌, ◌%◌, ◌^◌, ◌==◌, ltb, ◌&&◌, ◌||◌, if◌then◌else◌,
}
use sesc_src.Common.Arrays.{update}

-- `Time_t`, an `unsigned long long`
abbrev pub time : ℕ → ℕ
time t = t % 2 ^ 64

-- `NumUnits_t` and `TimeDelta_t`, an `unsigned short`
abbrev pub ushort : ℕ → ℕ
ushort n = n % 2 ^ 16

pub data Port : Type 0 where
  -- `lTime`
  unlimited : ℕ → Port
  fully_pipe : ℕ → Port
  -- `nUnitsMinusOne`, `freeUnits` and `lTime`
  fully_n_pipe : ℕ → ℕ → ℕ → Port
  -- `ocp` and `lTime`
  pipe : ℕ → ℕ → Port
  -- `ocp`, `nUnits` and `portBusyUntil`
  n_pipe : ℕ → ℕ → (ℕ → ℕ) → Port

-- `PortGeneric::create` with the constructors of the classes
unfoldable pub create : ℕ → ℕ → ℕ → Port
create clock n_units occ =
    if occ == 0 || n_units == 0
    then unlimited clock
    else if occ == 1
    then (if n_units == 1
        then fully_pipe clock
        else fully_n_pipe (ushort (n_units - 1)) n_units clock)
    else (if n_units == 1
        then pipe occ (if ltb occ clock then clock - occ else 0)
        else n_pipe occ n_units (λ _. clock))

-- `if(lTime < globalClock) lTime = globalClock;`
abbrev pub catch_up : ℕ → ℕ → ℕ
catch_up clock l_time = if ltb l_time clock then clock else l_time

-- The loop of `PortNPipe::calcNextSlot` from the unit `i`; the second argument counts the rounds
-- left.
unfoldable pub first_time : (ℕ → ℕ) → ℕ → ℕ → ℕ → ℕ
first_time busy zero i t = t
first_time busy (suc n) i t = first_time busy n (i + 1) (if ltb (busy i) t then busy i else t)

unfoldable pub calc_next_slot : ℕ → Port → ℕ
calc_next_slot clock (unlimited l) = catch_up clock l
calc_next_slot clock (fully_pipe l) = catch_up clock l
calc_next_slot clock (fully_n_pipe n free l) =
    if ltb l clock then clock else time (l + (if free == 0 then 1 else 0))
calc_next_slot clock (pipe ocp l) = catch_up clock l
calc_next_slot clock (n_pipe ocp n busy) = catch_up clock (first_time busy (n - 1) 1 (busy 0))

-- The loop of `PortNPipe::nextSlot` with `bufPort` and `bufTime`, and the lines after it.
unfoldable pub next_slot_loop : ℕ → ℕ → (ℕ → ℕ) → ℕ → ℕ → ℕ → ℕ → ℕ × (ℕ → ℕ)
next_slot_loop clock occupancy busy zero i port t =
    (t, update busy port (time (busy port + occupancy)))
next_slot_loop clock occupancy busy (suc n) i port t =
    let smaller = ltb (busy i) t in
    let rest =
      next_slot_loop clock occupancy busy n (i + 1) (if smaller then i else port)
        (if smaller then busy i else t) in
    if ltb (busy i) clock then (clock, update busy i (time (clock + occupancy))) else rest

-- `PortNPipe::nextSlot(int)`
unfoldable pub next_slot_n_pipe : ℕ → ℕ → ℕ → (ℕ → ℕ) → ℕ × (ℕ → ℕ)
next_slot_n_pipe clock occupancy n busy =
    if ltb (busy 0) clock
    then (clock, update busy 0 (time (clock + occupancy)))
    else next_slot_loop clock occupancy busy (n - 1) 1 0 (busy 0)

-- `nextSlot`: the slot, and the port after it.
unfoldable pub next_slot : ℕ → Port → ℕ × Port
next_slot clock (unlimited l) = (catch_up clock l, unlimited (catch_up clock l))
next_slot clock (fully_pipe l) = (catch_up clock l, fully_pipe (time (catch_up clock l + 1)))
next_slot clock (fully_n_pipe n free l) =
    if ltb l clock
    then (clock, fully_n_pipe n n clock)
    else if ltb 0 free
    then (l, fully_n_pipe n (free - 1) l)
    else (time (l + 1), fully_n_pipe n n (time (l + 1)))
next_slot clock (pipe ocp l) = (catch_up clock l, pipe ocp (time (catch_up clock l + ocp)))
next_slot clock (n_pipe ocp n busy) =
    let granted = next_slot_n_pipe clock ocp n busy in (granted.0, n_pipe ocp n granted.1)

-- `nextSlot` `k` times, as the loop of `PortNPipe::occupySlots` does it
unfoldable pub next_slots : ℕ → ℕ → Port → Port
next_slots clock zero p = p
next_slots clock (suc k) p = next_slots clock k (next_slot clock p).1

-- `ocp*nSlots` on an `int` of 32 bits, which wraps to a negative number from 2^31 on; `nSlots` is not
-- negative. The sum with a 64-bit time takes the sign along.
abbrev pub as_int : ℕ → ℕ
as_int n = let low = n % 2 ^ 32 in if ltb low (2 ^ 31) then low else low + (2 ^ 64 - 2 ^ 32)

-- `occupySlots`
unfoldable pub occupy_slots : ℕ → ℕ → Port → ℕ × Port
occupy_slots clock k (unlimited l) = (catch_up clock l, unlimited (catch_up clock l))
occupy_slots clock k (fully_pipe l) = (catch_up clock l, fully_pipe (time (catch_up clock l + k)))
occupy_slots clock k (fully_n_pipe n free l) =
    (catch_up clock l, fully_n_pipe n free (time (catch_up clock l + k / (n + 1))))
occupy_slots clock k (pipe ocp l) =
    (catch_up clock l, pipe ocp (time (catch_up clock l + as_int (ocp * k))))
occupy_slots clock k (n_pipe ocp n busy) =
    let granted = next_slot clock (n_pipe ocp n busy) in
    (granted.0, next_slots clock (k - 1) granted.1)

-- The loop of `PortNPipe::lock4nCycles`
abbrev pub raise_to : ℕ → ℕ → (ℕ → ℕ) → ℕ → ℕ
raise_to n t busy i = if ltb i n && ltb (busy i) t then t else busy i

-- `lock4nCycles`
unfoldable pub lock4n_cycles : ℕ → ℕ → Port → Port
lock4n_cycles clock clks (unlimited l) = unlimited (time (catch_up clock l + clks))
lock4n_cycles clock clks (fully_pipe l) = fully_pipe (time (catch_up clock l + clks))
lock4n_cycles clock clks (fully_n_pipe n free l) =
    fully_n_pipe n (ushort (n + 1)) (time (catch_up clock l + clks))
lock4n_cycles clock clks (pipe ocp l) = pipe ocp (time (catch_up clock l + clks))
lock4n_cycles clock clks (n_pipe ocp n busy) =
    n_pipe ocp n (raise_to n (time (calc_next_slot clock (n_pipe ocp n busy) + clks)) busy)
