-- ===== src/ScTable/Tests.antt =====
-- Runs of the table, and each theorem at a concrete table: 4 counters of 2 bits.
use sesc_src.Common.{◌≡◌, refl, true, false, arith}
use sesc_src.ScTable.Counters.{
  ScTable, fill, create, reset, clear, predict_and_update, train, predict,
}
use sesc_src.ScTable.Range.{IsTable, operations-IsTable}
use sesc_src.ScTable.Learning.{train_times, train_times-predict}

program : Unit {0}
unfolding fill create reset clear predict_and_update train predict train_times
program = tt

abbrev weak : ScTable
weak = record { size_mask = 3; saturate = 2; max_value = 3; table = λ i. 1 }

weak-IsTable : IsTable 2 1 weak
weak-IsTable = record {
  mask = refl;
  half = refl;
  top = refl;
  byte = omega arith;
  range = λ i l. omega arith;
}

-- A strongly taken branch survives one exit of its loop.
loop_exit :
    (predict (train_times 2 weak 13 true) 13 ≡ true)
    × (predict (train (train_times 2 weak 13 true) 13 false) 13 ≡ true)
    × (predict (train_times 2 weak 13 true) 12 ≡ false)
unfolding program
loop_exit = (refl, refl, refl)

operations-IsTable_example :
    IsTable 2 1 (reset weak 6 true)
    × IsTable 2 1 (clear weak 6)
    × IsTable 2 1 (train weak 6 true)
    × IsTable 2 1 (predict_and_update weak 6 true).1
operations-IsTable_example = operations-IsTable 2 1 weak 6 true weak-IsTable

train_times-predict_example : predict (train_times 3 weak 13 false) 13 ≡ false
train_times-predict_example = train_times-predict 2 1 3 weak 13 false weak-IsTable (omega arith)
