-- ===== src/MpscBus/Race/Tests.antt =====
-- Runs of the producers and the consumer of bus/mpsc_bus.hpp in a region of 32 bytes.
use deeplog.Base.{List, [], arith, inl, none, refl, some, ℕ, ◌+◌, ◌<◌, ◌∷◌, ◌≡◌, ◌≤◌}
use mathlib.Core.List.{Perm}
use deeplog.SharedMemory.{Memory, load32, store32, write_bytes}
use deeplog.MpscBus.{
  reserve, collect, clear, messages, commit, message_lock_flag, consume_batch_size, unlock_head,
}
use deeplog.MpscBus.Queue.{IsArea, Entry, IsQueue}
use deeplog.MpscBus.Commit.{write_and_commit}
use deeplog.MpscBus.Tests.{round_up, round_up-RoundsUp}
use deeplog.MpscFile.{fresh_region}
use deeplog.MpscFile.Create.{fresh_region-IsQueue}
use deeplog.MpscBus.Race.{
  idle, read_loaded, in_round, exchanged, writing, System, Step, load_read, load_alloc, exchange,
  retry, store_head, release, consume, publish, Timely, Run, here, later, with_pc, with_alloc,
  with_block, publish_read, buffer,
}
use deeplog.MpscBus.Race.Invariant.{head_of}
use deeplog.MpscBus.Race.Safety.{Starts, Run-exclusive, Run-delivered}
use deeplog.MpscBus.Race.Drain.{Run-drains}
use deeplog.MpscBus.Race.Stale.{exchange-overlaps}

abbrev small_area : IsArea 32
small_area = omega arith

abbrev start : System
start = record {
  region = fresh_region;
  read_pos = 0;
  producers = λ i. idle;
  committed = [];
  delivered = [];
}

start-Starts : Starts round_up round_up-RoundsUp 32 small_area start
start-Starts = record {
  empty = fresh_region-IsQueue round_up 32 (omega arith);
  at_read = refl;
  all_idle = λ i. refl;
  none_committed = refl;
  none_delivered = refl;
}

-- Producer 0 loads the read hand 0; producer 1 sends twelve bytes, which are consumed.
abbrev loaded : System
loaded = with_pc (with_pc start 0 (read_loaded 16 0)) 1 (read_loaded 12 0)

abbrev rounds : System
rounds = with_pc loaded 1 (in_round 12 0 0)

abbrev taken : System
taken = with_pc (with_alloc rounds 16) 1 (exchanged 12 0 4)

abbrev locked : Memory
locked = store32 fresh_region.block 0 (12 + message_lock_flag)

abbrev written : System
written = with_pc (with_block taken locked) 1 (writing 12 (buffer round_up 32 12 0 4))

abbrev twelve : List ℕ
twelve = 1 ∷ 2 ∷ 3 ∷ 4 ∷ 5 ∷ 6 ∷ 7 ∷ 8 ∷ 9 ∷ 10 ∷ 11 ∷ 12 ∷ []

abbrev sent : Memory
sent = let bytes = write_bytes locked 4 twelve in store32 bytes 0 (unlock_head (load32 bytes 0))

abbrev sent_by_1 : System
sent_by_1 = record (with_pc (with_block written sent) 1 idle) { committed = twelve ∷ [] }

run_to_taken : Run round_up 32 start taken
unfolding Timely reserve
run_to_taken =
    later
      (later
        (later (later here (load_read 0 16 refl (omega arith)) tt)
          (load_read 1 12 refl (omega arith)) tt)
        (load_alloc 1 12 0 refl) tt)
      (exchange 1 12 0 4 16 refl refl) (inl refl)

run_to_sent : Run round_up 32 start sent_by_1
unfolding Timely write_and_commit commit
run_to_sent =
    later (later run_to_taken (store_head 1 12 0 4 refl) tt)
      (release 1 12 (buffer round_up 32 12 0 4)
        (record (buffer round_up 32 12 0 4) { msg_ctrl = none }) twelve sent refl refl (omega arith)
        refl)
      tt

no_block : (i : ℕ) → head_of (sent_by_1.producers i) ≡ none
unfolding head_of
no_block i = ground arith

Run-drains_example :
    (u : System) × Run round_up 32 sent_by_1 u
    × (u.producers ≡ sent_by_1.producers)
    × (u.region.read_ptr ≡ u.region.alloc_ptr)
    × Perm (twelve ∷ []) u.delivered
Run-drains_example =
    Run-drains round_up round_up-RoundsUp 32 small_area start-Starts run_to_sent no_block

abbrev consumed : System
consumed =
    record (with_block sent_by_1 (clear sent (collect round_up consume_batch_size 32 sent 0).0)) {
      read_pos = (collect round_up consume_batch_size 32 sent 0).1;
      delivered = messages sent (collect round_up consume_batch_size 32 sent 0).0;
    }

run_to_consumed : Run round_up 32 start consumed
unfolding Timely
run_to_consumed = later run_to_sent consume tt

at_sixteen : (collect round_up consume_batch_size 32 sent 0).1 ≡ 16
unfolding collect load32 store32 write_bytes
at_sixteen = refl

Run-delivered_example : Perm consumed.committed consumed.delivered
Run-delivered_example =
    Run-delivered round_up round_up-RoundsUp 32 small_area start-Starts run_to_consumed at_sixteen

-- The read hand is published, producer 1 takes the rest of the region, and producer 0 is still in
-- its first round.
abbrev published : System
published = publish_read consumed

abbrev again : System
again =
    with_pc (with_pc published 1 (read_loaded 12 published.region.read_ptr)) 1
      (in_round 12 published.region.read_ptr 16)

abbrev gone_round : System
gone_round = with_pc (with_alloc again 0) 1 (exchanged 12 16 20)

abbrev stale : System
stale = with_pc gone_round 0 (in_round 16 0 0)

grants : reserve 32 (collect round_up consume_batch_size 32 sent 0).1 16 12 ≡ some (20, 0)
unfolding reserve
grants = rw at_sixteen refl

run_to_stale : Run round_up 32 start stale
unfolding Timely
run_to_stale =
    later
      (later
        (later (later (later run_to_consumed publish tt) (load_read 1 12 refl (omega arith)) tt)
          (load_alloc 1 12 published.region.read_ptr refl) tt)
        (exchange 1 12 published.region.read_ptr 20 0 refl grants) (inl refl))
      (load_alloc 0 16 0 refl) tt

exchange-overlaps_example :
    (x : Entry) × (xs : List Entry) × IsQueue round_up 32 stale.region.block stale.read_pos 0
      (x ∷ xs)
    × (t : System) × Step round_up 32 stale t
    × (t.producers 0 ≡ exchanged 16 0 4)
    × (4 ≤ stale.read_pos)
    × (stale.read_pos < 20)
    × (reserve 32 stale.read_pos 0 16 ≡ none)
exchange-overlaps_example =
    exchange-overlaps round_up round_up-RoundsUp 32 small_area start-Starts run_to_stale 0 16 0 refl
      (omega arith) (omega (arith, at_sixteen)) (omega (arith, at_sixteen)) (omega arith)

-- Two producers that write at the same time.
abbrev two_rounds : System
two_rounds =
    with_pc
      (with_pc (with_pc (with_pc start 0 (read_loaded 8 0)) 1 (read_loaded 4 0)) 0 (in_round 8 0 0))
      1 (in_round 4 0 0)

abbrev two_taken : System
two_taken =
    with_pc
      (with_alloc
        (with_pc (with_pc (with_alloc two_rounds 12) 0 (exchanged 8 0 4)) 1 (in_round 4 0 12)) 20)
      1 (exchanged 4 12 16)

abbrev first_head : Memory
first_head = store32 fresh_region.block 0 (8 + message_lock_flag)

abbrev two_writing : System
two_writing =
    with_pc
      (with_block
        (with_pc (with_block two_taken first_head) 0 (writing 8 (buffer round_up 32 8 0 4)))
        (store32 first_head 12 (4 + message_lock_flag)))
      1 (writing 4 (buffer round_up 32 4 12 16))

run_to_two_taken : Run round_up 32 start two_taken
unfolding Timely reserve
run_to_two_taken =
    later
      (later
        (later
          (later
            (later
              (later (later here (load_read 0 8 refl (omega arith)) tt)
                (load_read 1 4 refl (omega arith)) tt)
              (load_alloc 0 8 0 refl) tt)
            (load_alloc 1 4 0 refl) tt)
          (exchange 0 8 0 4 12 refl refl) (inl refl))
        (retry 1 4 0 0 4 8 refl refl) tt)
      (exchange 1 4 0 16 20 refl refl) (inl refl)

run_to_two_writing : Run round_up 32 start two_writing
unfolding Timely
run_to_two_writing =
    later (later run_to_two_taken (store_head 0 8 0 4 refl) tt) (store_head 1 4 12 16 refl) tt

Run-exclusive_example : ¬ ((16 ≤ 5) × (5 < 16 + 4))
Run-exclusive_example =
    Run-exclusive round_up round_up-RoundsUp 32 small_area start-Starts run_to_two_writing 0 1 8 4 5
      (buffer round_up 32 8 0 4) (buffer round_up 32 4 12 16) (omega arith) refl refl (omega arith)
