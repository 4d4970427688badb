-- ===== src/MpscBus/Race.antt =====
-- libs/deeplog/src/dplx/dlog/bus/mpsc_bus.hpp: one region of the bus, its producers and its consumer
-- as a step relation. A step of a producer is one access to the shared words: the loads, the exchange
-- and the store of `allocate`, the writing and the release of a message. A step of the consumer is a
-- whole batch of `read_region`, collected, delivered and cleared, or the store of the read hand. Steps are sequentially consistent. The bytes of a message are written
-- with its release, since no other process reads them before, and `read_region` may store the read
-- hand after any batch.
pub mod Hands
pub mod Entries
pub mod Grant
pub mod Invariant
pub mod Exchange
pub mod Change
pub mod Reader
pub mod Safety
pub mod Drain
pub mod Stale
mod Tests
use deeplog.Base.{List, if◌then◌else◌, length, none, ok, some, ℕ, ◌++◌, ◌+◌, ◌==◌, ◌∷◌, ◌≡◌, ◌≤◌}
use deeplog.SharedMemory.{Memory, store32}
use deeplog.SharedMemory.Laws.{AllBytes}
use deeplog.MpscBus.{
  Region, Info, OutputBuffer, reserve, collect, clear, messages, max_message_size,
  message_lock_flag, consume_batch_size,
}
use deeplog.MpscBus.Commit.{write_and_commit}
use deeplog.MpscBus.Race.Hands.{Fresh}

-- Where a producer stands in `allocate_record_buffer_inplace`, by what it holds in local variables:
-- the payload size, the read hand, the allocation hand, the payload's position, the buffer.
pub data Pc : Type 0 where
  idle : Pc
  read_loaded : ℕ → ℕ → Pc
  in_round : ℕ → ℕ → ℕ → Pc
  exchanged : ℕ → ℕ → ℕ → Pc
  writing : ℕ → OutputBuffer → Pc

-- `read_pos` is the consumer's position. `committed` and `delivered` record the messages that
-- producers released, newest first, and those that the consumer was given, oldest first.
pub record System : Type 0 where
  pub region : Region
  pub read_pos : ℕ
  pub producers : ℕ → Pc
  pub committed : List (List ℕ)
  pub delivered : List (List ℕ)

abbrev pub with_pc : System → ℕ → Pc → System
with_pc s i pc = record s { producers = λ j. if j == i then pc else s.producers j }

abbrev pub with_block : System → Memory → System
with_block s m = record s { region = record s.region { block = m } }

abbrev pub with_alloc : System → ℕ → System
with_alloc s hand = record s { region = record s.region { alloc_ptr = hand } }

abbrev pub publish_read : System → System
publish_read s = record s { region = record s.region { read_ptr = s.read_pos } }

module _ (round_up_p2 : ℕ → ℕ → ℕ) (e : ℕ) where
  abbrev pub buffer : ℕ → ℕ → ℕ → OutputBuffer
  buffer n alloc_hand position = record {
    position = position;
    size = round_up_p2 n 4;
    msg_ctrl = some alloc_hand;
  }

  pub data Step (s : System) : System → Type 0 where
    load_read :
        (i n : ℕ)
        → s.producers i ≡ idle
        → n ≤ max_message_size
        → Step s (with_pc s i (read_loaded n s.region.read_ptr))
    load_alloc :
        (i n hand : ℕ)
        → s.producers i ≡ read_loaded n hand
        → Step s (with_pc s i (in_round n hand s.region.alloc_ptr))
    exchange :
        (i n hand position stop : ℕ)
        → s.producers i ≡ in_round n hand s.region.alloc_ptr
        → reserve e hand s.region.alloc_ptr (round_up_p2 n 4) ≡ some (position, stop)
        → Step s (with_pc (with_alloc s stop) i (exchanged n s.region.alloc_ptr position))
    retry :
        (i n hand alloc_hand position stop : ℕ)
        → s.producers i ≡ in_round n hand alloc_hand
        → reserve e hand alloc_hand (round_up_p2 n 4) ≡ some (position, stop)
        → Step s (with_pc s i (in_round n hand s.region.alloc_ptr))
    refuse :
        (i n hand alloc_hand : ℕ)
        → s.producers i ≡ in_round n hand alloc_hand
        → reserve e hand alloc_hand (round_up_p2 n 4) ≡ none
        → Step s (with_pc s i idle)
    store_head :
        (i n alloc_hand position : ℕ)
        → s.producers i ≡ exchanged n alloc_hand position
        → Step s (
            with_pc
              (with_block s (store32 s.region.block alloc_hand (n + message_lock_flag)))
              i
              (writing n (buffer n alloc_hand position)))
    release :
        (i n : ℕ) (out out' : OutputBuffer) (bytes : List ℕ) (m : Memory)
        → s.producers i ≡ writing n out
        → length bytes ≡ n
        → AllBytes bytes
        → write_and_commit s.region.block out bytes ≡ ok (m, out')
        → Step s (record (with_pc (with_block s m) i idle) { committed = bytes ∷ s.committed })
    consume : Step s (
        let batch = collect round_up_p2 consume_batch_size e s.region.block s.read_pos in
        record (with_block s (clear s.region.block batch.0)) {
          read_pos = batch.1;
          delivered = s.delivered ++ messages s.region.block batch.0;
        })
    publish : Step s (publish_read s)

  -- The read hand of a producer whose exchange succeeds is still fresh.
  pub Timely : {s t : System} → Step s t → Type 0
  Timely (load_read i n at_i small) = Unit
  Timely (load_alloc i n hand at_i) = Unit
  Timely {s} (exchange i n hand position stop at_i granted) =
      Fresh hand s.region.read_ptr s.region.alloc_ptr
  Timely (retry i n hand alloc_hand position stop at_i granted) = Unit
  Timely (refuse i n hand alloc_hand at_i refused) = Unit
  Timely (store_head i n alloc_hand position at_i) = Unit
  Timely (release i n out out' bytes m at_i fits all written) = Unit
  Timely consume = Unit
  Timely publish = Unit

  -- The runs in which every exchange is timely.
  pub data Run (s : System) : System → Type 0 where
    here : Run s s
    later : {t u : System} → Run s t → (st : Step t u) → Timely st → Run s u
