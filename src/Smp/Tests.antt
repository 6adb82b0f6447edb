-- ===== src/Smp/Tests.antt =====
-- Two caches: cache 0 reads the line from the memory, then cache 1 writes it.
use sesc_src.Common.{◌≡◌, refl, ◌≢◌, true, false, none, some, arith}
use sesc_src.Common.Arrays.{update}
use sesc_src.Smp.State.{trans_rd, trans_rd_mem, trans_wr, trans_inv, exclusive, modified}
use sesc_src.Smp.Request.{Sreq, mem_read, mem_write, mem_read_w, create, no_snoop}
use sesc_src.Smp.Protocol.{
  respond_below, combine_responses, read_miss_handler, write_miss_handler, invalidate_handler,
  receive_from_below, real_invalidate, read, write, to_memory, concluded, read_miss_ack_handler,
  write_miss_ack_handler, invalidate_ack_handler, return_access,
}
use sesc_src.Smp.System.{
  quiet, acking, processes, System, begin, bus_start, bus_answer, after_reply, after_outcome,
  write_hit, start_read, start_write, broadcast, snooped, invalidated, acked, returned, Reach,
  start, later, init,
}
use sesc_src.Smp.Invariant.{IsCoherent}
use sesc_src.Smp.Coherence.{Reach-IsCoherent, snoop-ne-none, return_access-ne-none}

program : Unit {0}
unfolding combine_responses read_miss_handler write_miss_handler invalidate_handler
    receive_from_below real_invalidate read write read_miss_ack_handler write_miss_ack_handler
    invalidate_ack_handler return_access bus_start bus_answer after_reply after_outcome write_hit
program = tt

abbrev reading : Sreq
reading = create mem_read 0 true

abbrev s1 : System
s1 = begin init 0 trans_rd reading

abbrev s2 : System
s2 = bus_start 2 reading s1

abbrev s3 : System
s3 = after_reply 1 (respond_below 1 none reading) s2

abbrev s4 : System
s4 = after_outcome 0 (to_memory trans_rd_mem (no_snoop reading)) s3

abbrev s5 : System
s5 = after_outcome 0 (concluded exclusive) s4

r2 : Reach 2 s2
unfolding program
r2 =
    later (later start (start_read 0 trans_rd reading (omega arith) refl refl))
      (broadcast reading refl refl)

r3 : Reach 2 s3
unfolding program
r3 = later r2 (snooped 1 reading (respond_below 1 none reading) (omega arith) refl refl refl)

r5 : Reach 2 s5
unfolding program
r5 =
    later (later r3 (returned reading (to_memory trans_rd_mem (no_snoop reading)) refl refl refl))
      (returned (no_snoop reading) (concluded exclusive) refl refl refl)

-- The line is in no other cache, so the reader has it exclusively.
read_alone : (s5.line 0 ≡ some exclusive) × (s5.line 1 ≡ none) × (s5.txn ≡ none)
unfolding program
read_alone = (refl, refl, refl)

snoop-ne-none_example : processes 1 reading (s2.snoop 1) (s2.line 1) ≡ true
unfolding program
snoop-ne-none_example = snoop-ne-none 1 reading r2 refl

return_access-ne-none_example : return_access (s3.line 0) reading ≢ none
unfolding program
return_access-ne-none_example = return_access-ne-none reading r3 refl refl

-- Cache 1 writes: cache 0 supplies the line and gives it up.
abbrev writing : Sreq
writing = create mem_read_w 1 true

abbrev supplied : Sreq
supplied = record writing { found = true; supplier = some 0; state = exclusive }

abbrev s6 : System
s6 = bus_start 2 writing (begin s5 1 trans_wr writing)

abbrev s7 : System
s7 =
    after_reply 0
      (record { line = some trans_inv; sreq = supplied; write_backs = 0; answered = false }) s6

abbrev s8 : System
s8 = record s7 { line = update s7.line 0 none; snoop = update s7.snoop 0 acking }

abbrev s9 : System
s9 =
    after_outcome 1 (concluded modified)
      (bus_answer (record s8 { snoop = update s8.snoop 0 quiet }))

r9 : Reach 2 s9
unfolding program
r9 =
    later
      (later
        (later
          (later
            (later
              (later r5 (start_write 1 mem_write trans_wr writing (omega arith) refl refl refl))
              (broadcast writing refl refl))
            (snooped 0 writing
              (record { line = some trans_inv; sreq = supplied; write_backs = 0; answered = false })
              (omega arith) refl refl refl))
          (invalidated 0 none 0 refl refl))
        (acked 0 (omega arith) refl))
      (returned supplied (concluded modified) refl refl refl)

moved : (s9.line 0 ≡ none) × (s9.line 1 ≡ some modified) × (s9.txn ≡ none)
unfolding program
moved = (refl, refl, refl)

Reach-IsCoherent_example : IsCoherent s9.line
Reach-IsCoherent_example = Reach-IsCoherent r9
