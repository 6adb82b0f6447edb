-- ===== src/Port/Tests.antt =====
-- Runs of the ports, and each theorem at a concrete port.
use sesc_src.Common.{◌+◌, ◌≤◌, ◌≡◌, refl, [], ◌∷◌, arith}
use sesc_src.Port.Ports.{
  Port, pipe, n_pipe, create, first_time, calc_next_slot, next_slot_loop, next_slot_n_pipe,
  next_slot, next_slots, occupy_slots, lock4n_cycles,
}
use sesc_src.Port.NextSlot.{IsPort, next_slot-calc_next_slot, occupy_slots-next_slots}
use sesc_src.Port.Capacity.{granted, Within, granted-create}
use sesc_src.Port.Lock.{lock4n_cycles-calc_next_slot}

program : Unit {0}
unfolding create first_time calc_next_slot next_slot_loop next_slot_n_pipe next_slot next_slots
    occupy_slots lock4n_cycles IsPort granted Within
program = tt

-- Two units of three cycles each, both busy until 10
abbrev banks : Port
banks = n_pipe 3 2 (λ _. 10)

third_waits :
    ((next_slot 10 banks).0 ≡ 10)
    × ((next_slot 10 (next_slot 10 banks).1).0 ≡ 10)
    × ((next_slot 10 (next_slots 10 2 banks)).0 ≡ 13)
unfolding program
third_waits = (refl, refl, refl)

-- Two units of one cycle: `occupySlots(3)` reserves one cycle, three `nextSlot` go one cycle further
-- and take the unit that is free there.
occupied_early :
    ((next_slot 5 (occupy_slots 5 3 (create 5 2 1)).1).0 ≡ 6)
    × ((next_slot 5 (next_slot 5 (occupy_slots 5 3 (create 5 2 1)).1).1).0 ≡ 6)
    × ((next_slot 5 (next_slots 5 3 (create 5 2 1))).0 ≡ 6)
    × ((next_slot 5 (next_slot 5 (next_slots 5 3 (create 5 2 1))).1).0 ≡ 7)
unfolding program
occupied_early = (refl, refl, refl, refl)

next_slot-calc_next_slot_example : (next_slot 10 banks).0 ≡ calc_next_slot 10 banks
unfolding program
next_slot-calc_next_slot_example = next_slot-calc_next_slot 10 banks (omega arith, λ i. omega arith)

occupy_slots-next_slots_example :
    occupy_slots 7 4 (pipe 3 5) ≡ ((next_slot 7 (pipe 3 5)).0, next_slots 7 4 (pipe 3 5))
unfolding program
occupy_slots-next_slots_example = occupy_slots-next_slots 7 3 (pipe 3 5) (omega arith, omega arith)

granted-create_example : granted 6 (5 ∷ 5 ∷ 5 ∷ 6 ∷ 5 ∷ []) (create 5 2 1) ≤ 2
unfolding program
granted-create_example =
    granted-create 6 5 2 6 (5 ∷ 5 ∷ 5 ∷ 6 ∷ 5 ∷ []) (omega arith) (omega arith) (omega arith)
      (omega arith, (omega arith, (omega arith, (omega arith, (omega arith, omega arith)))))

lock4n_cycles-calc_next_slot_example : 10 + 6 ≤ calc_next_slot 12 (lock4n_cycles 10 6 banks)
unfolding program
lock4n_cycles-calc_next_slot_example =
    lock4n_cycles-calc_next_slot 10 6 12 banks (omega arith, λ i. omega arith) (omega arith)
