-- ===== src/MpscBus/Tests.antt =====
-- Runs of the message bus (bus/mpsc_bus.hpp), and its theorems at a concrete region.
use deeplog.Base.{
  List, Result, [], arith, err, none, ok, ok-injective, refl, some, sym, true, ℕ, ◌*◌, ◌+◌, ◌-◌,
  ◌/◌, ◌<◌, ◌^◌, ◌∷◌, ◌≡◌, ◌≤◌,
}
use deeplog.MpscBus.Regions.{consume_messages, Emptied, consume_messages-Emptied}
use mathlib.Core.List.{flatten}
use mathlib.Core.Path.{subst}
use native.Mathlib.Nat.{div-add-mod', mod-lt, mul-mod_left, one-le-pow}
use deeplog.SharedMemory.{load32, write_bytes, Memory, store32}
use deeplog.MpscBus.{
  max_message_size, commit, unlock_head, Bus, allocate_record_buffer_inplace, Region, OutputBuffer,
  region_end, message_lock_flag, reserve, allocate_loop, allocate, read_region,
}
use deeplog.MpscBus.Queue.{RoundsUp, IsArea, IsQueue, pending, ready}
use deeplog.MpscBus.Produce.{Allocated, allocate-Allocated, granted-Allocated}
use deeplog.MpscBus.Commit.{write_and_commit, write_and_commit-IsQueue}
use deeplog.MpscBus.Batch.{released, unreleased}
use deeplog.MpscBus.Consume.{BatchesFit, read_region-Consumed}
use deeplog.Errc.{Errc, not_enough_space}
use deeplog.MpscBus.Overflow.{reserve_overflows}
use deeplog.MpscBus.Search.{Found, allocate_record_buffer_inplace-Found}
use deeplog.MpscFile.{fresh_region}
use deeplog.MpscFile.Create.{fresh_region-IsQueue}

-- `(x + p - 1) & ~(p - 1)`
abbrev pub round_up : ℕ → ℕ → ℕ
round_up x p = (x + (p - 1)) / p * p

pub round_up-RoundsUp : RoundsUp round_up
round_up-RoundsUp = record {
  aligned = λ k x h. mul-mod_left _ _;
  above = λ k x h.
      let d = div-add-mod' (x + (2 ^ k - 1)) (2 ^ k) in
      let l = mod-lt (x + (2 ^ k - 1)) (one-le-pow k 2 (omega arith)) in omega arith;
  close = λ k x h.
      let d = div-add-mod' (x + (2 ^ k - 1)) (2 ^ k) in
      let l = one-le-pow k 2 (omega arith) in omega arith;
}

-- Two pages.
abbrev pub area : IsArea (region_end 8192)
area = omega arith

abbrev after_allocate : Region
after_allocate = record fresh_region {
  alloc_ptr = 8;
  block = store32 (λ i. 0xfe) 0 (3 + message_lock_flag);
}

abbrev buffer : OutputBuffer
buffer = record { position = 4; size = 4; msg_ctrl = some 0 }

-- The exchange fails once.
allocates : allocate round_up 8192 (true ∷ []) 3 fresh_region ≡ ok (after_allocate, buffer)
unfolding allocate allocate_loop reserve
allocates = refl

allocate-Allocated_example :
    Allocated round_up (region_end 8192) 3 [] fresh_region after_allocate buffer
allocate-Allocated_example =
    allocate-Allocated round_up round_up-RoundsUp 8192 area (true ∷ []) 3 fresh_region
      after_allocate buffer [] (omega arith) (fresh_region-IsQueue round_up 8128 (omega arith))
      allocates

first-IsQueue : IsQueue round_up (region_end 8192) after_allocate.block 0 8 (pending 3 ∷ [])
unfolding reserve
first-IsQueue =
    (granted-Allocated round_up round_up-RoundsUp 8192 area 3 fresh_region [] 4 8 (omega arith)
      (fresh_region-IsQueue round_up 8128 (omega arith)) refl).queue

abbrev pub text : List ℕ
text = 0x81 ∷ 0x18 ∷ 0x2a ∷ []

write_and_commit-IsQueue_example :
    (m' : Memory) × (write_and_commit after_allocate.block buffer text
      ≡ ok (m', record buffer { msg_ctrl = none }))
    × IsQueue round_up (region_end 8192) m' 0 8 (ready text ∷ [])
write_and_commit-IsQueue_example =
    write_and_commit-IsQueue round_up round_up-RoundsUp (region_end 8192) area after_allocate.block
      0 8 [] [] text first-IsQueue buffer (omega arith) refl refl

-- The memory after the message is written and released.
abbrev pub written : Memory
written =
    store32 (write_bytes after_allocate.block 4 text) 0
      (unlock_head (load32 (write_bytes after_allocate.block 4 text) 0))

pub written-IsQueue : IsQueue round_up (region_end 8192) written 0 8 (ready text ∷ [])
unfolding write_and_commit commit
written-IsQueue =
    subst
      (λ (x : Memory × OutputBuffer). IsQueue round_up (region_end 8192) x.0 0 8 (ready text ∷ []))
      (ok-injective (sym write_and_commit-IsQueue_example.1)) write_and_commit-IsQueue_example.2

pub second_granted : reserve (region_end 8192) 0 8 4 ≡ some (12, 16)
unfolding reserve
second_granted = refl

abbrev after_commit : Region
after_commit = record after_allocate { block = written }

read_region-Consumed_example :
    (batches : List (List (List ℕ))) × (r' : Region) × (read_region round_up 2 8192 after_commit
      ≡ some (batches, r'))
    × (flatten batches ≡ text ∷ [])
    × BatchesFit batches
    × (r'.alloc_ptr ≡ 8)
    × IsQueue round_up (region_end 8192) r'.block r'.read_ptr r'.alloc_ptr []
unfolding released unreleased
read_region-Consumed_example =
    read_region-Consumed round_up round_up-RoundsUp 8192 area 2 after_commit (ready text ∷ [])
      (omega arith) written-IsQueue

-- Offsets near the end of 4 GiB.
reserve_overflows_example :
    (reserve (2 ^ 32 - 4160) 0 (2 ^ 32 - 5000) 6000 ≡ some (2 ^ 32 - 4996, 1004))
    × (2 ^ 32 - 4160 < 2 ^ 32 - 4996 + 6000)
reserve_overflows_example =
    reserve_overflows (2 ^ 32 - 4160) 0 (2 ^ 32 - 5000) 6000 (omega arith) (omega arith)
      (omega arith) (omega arith) (omega arith) (omega arith)

abbrev three_regions : Bus
three_regions = record { num_regions = 3; region_size = 8192; region = λ i. fresh_region }

allocate_record_buffer_inplace-Found_example :
    (rx : Result Errc (Bus × OutputBuffer)) × (allocate_record_buffer_inplace round_up three_regions
        [] 3 0x90000000
      ≡ some rx)
    × (max_message_size < 3 → rx ≡ err not_enough_space)
    × (3 ≤ max_message_size → Found round_up three_regions [] 3 (λ id. true) rx)
allocate_record_buffer_inplace-Found_example =
    allocate_record_buffer_inplace-Found round_up three_regions [] 3 0x90000000 (omega arith)
      (omega arith)

-- Two regions, each with one message.
abbrev two_messages : Bus
two_messages = record { num_regions = 2; region_size = 8192; region = λ i. after_commit }

consume_messages-Emptied_example :
    (batches : List (List (List ℕ))) × (bus' : Bus) × (consume_messages round_up 2 two_messages
      ≡ some (batches, bus'))
    × Emptied round_up (λ i. ready text ∷ []) 2 0 two_messages batches bus'
consume_messages-Emptied_example =
    consume_messages-Emptied round_up round_up-RoundsUp 2 (λ i. ready text ∷ []) two_messages area
      (λ j h. written-IsQueue) (λ j h. omega arith)
