-- ===== src/MpscBus.antt =====
-- libs/deeplog/src/dplx/dlog/bus/mpsc_bus.hpp: the regions of the message bus, their allocation by
-- producers and their reading by the consumer. Offsets are `std::uint32_t`, relative to
-- `region_data`. `cncr::round_up_p2` is a parameter.
pub mod Queue
pub mod Produce
pub mod Commit
pub mod Batch
pub mod Consume
pub mod Regions
pub mod Overflow
pub mod Search
pub mod Race
pub mod Tests
use deeplog.Base.{
  Bool, List, Option, Result, [], err, if◌then◌else◌, leb, ltb, map, none, not, ok, shr, some, suc,
  u32, u64, zero, ℕ, ◌%◌, ◌&&◌, ◌*◌, ◌+◌, ◌-◌, ◌==◌, ◌^◌, ◌∷◌,
}
use deeplog.SharedMemory.{Memory, load32, store32, fill, read_bytes, write_bytes}
use deeplog.Errc.{Errc, bad, not_enough_space}

abbrev pub head_area_size : ℕ
head_area_size = 4 * 1024

-- `sizeof(region_ctrl)`
abbrev pub region_ctrl_overhead : ℕ
region_ctrl_overhead = 64

abbrev pub block_size : ℕ
block_size = 4

abbrev pub message_header_size : ℕ
message_header_size = block_size

abbrev pub message_lock_flag : ℕ
message_lock_flag = 0x80000000

abbrev pub message_consumed_flag : ℕ
message_consumed_flag = 0x40000000

abbrev pub message_flag_mask : ℕ
message_flag_mask = message_lock_flag + message_consumed_flag

-- The byte that `memset` takes from `unused_block_content`, 0xfefefefe.
abbrev pub unused_block_byte : ℕ
unused_block_byte = 0xfe

abbrev pub min_region_size : ℕ
min_region_size = 4 * 1024

abbrev pub max_message_size : ℕ
max_message_size = 0x1fffffff

abbrev pub consume_batch_size : ℕ
consume_batch_size = 64

-- `(head & message_lock_flag) != 0`
abbrev pub is_locked : ℕ → Bool
is_locked head = leb message_lock_flag head

-- `head | message_lock_flag | message_consumed_flag`
abbrev pub mark_consumed : ℕ → ℕ
mark_consumed head = head % 2 ^ 30 + message_flag_mask

-- `head & max_message_size`
abbrev pub unlock_head : ℕ → ℕ
unlock_head head = head % 2 ^ 29

-- `struct mpsc_bus_region_ctrl`, and the block area behind it.
pub record Region : Type 0 where
  pub read_ptr : ℕ
  pub alloc_ptr : ℕ
  pub span_prng_ctr : ℕ
  pub block : Memory

-- `mpsc_bus_handle`, the mapped file seen as its regions.
pub record Bus : Type 0 where
  pub num_regions : ℕ
  pub region_size : ℕ
  pub region : ℕ → Region

-- `mRegionSize - region_ctrl_overhead`
abbrev pub region_end : ℕ → ℕ
region_end region_size = u32 (region_size + 2 ^ 32 - region_ctrl_overhead)

pub hash_to_index : ℕ → ℕ → ℕ
hash_to_index h buckets = u32 (shr (u64 (h * buckets)) 32)

abbrev pub with_region : Bus → ℕ → Region → Bus
with_region bus id r = record bus { region = λ i. if i == id then r else bus.region i }

-- `class output_buffer`: the block that a producer may write, and the head that it has locked.
pub record OutputBuffer : Type 0 where
  pub position : ℕ
  pub size : ℕ
  pub msg_ctrl : Option ℕ

-- What one round of the loop of `allocate` decides from the two hands: where the payload stands,
-- and the next value of the allocation hand.
pub reserve : ℕ → ℕ → ℕ → ℕ → Option (ℕ × ℕ)
reserve end_of_region read_hand alloc_hand alloc_size =
    let payload_position = u32 (alloc_hand + message_header_size) in
    let payload_end = u32 (payload_position + alloc_size) in
    let can_wrap = leb read_hand alloc_hand in
    let buffer_end = if can_wrap then end_of_region else read_hand in
    if leb buffer_end payload_end
    then if can_wrap && (payload_end == end_of_region && not (read_hand == 0))
      then some (payload_position, 0)
      else if can_wrap && ltb alloc_size read_hand
      then some (0, alloc_size)
      else none
    else some (payload_position, payload_end)

-- The second half of `output_buffer::do_sync_output`: the release of the head.
pub commit : Memory → OutputBuffer → Result Errc (Memory × OutputBuffer)
commit m out = elim out.msg_ctrl [
  | none ↦ err bad
  | some ctrl ↦ ok (store32 m ctrl (unlock_head (load32 m ctrl)), record out { msg_ctrl = none })
]

-- What `read_region` keeps of a message of the current batch.
pub record Info : Type 0 where
  pub head : ℕ
  pub content : ℕ
  pub content_size : ℕ
  pub msg_size : ℕ

-- The batch is consumed: each head is marked, and each content is filled with unused blocks.
pub clear : Memory → List Info → Memory
clear m [] = m
clear m (i ∷ is) =
    clear
      (fill (store32 m i.head (mark_consumed (load32 m i.head))) i.content i.content_size
        unused_block_byte)
      is

abbrev pub messages : Memory → List Info → List (List ℕ)
messages m = map λ i. read_bytes m i.content i.msg_size

-- The batches that are handed to the consumer, the memory left, and the read position.
abbrev pub Read : Type 0
Read = List (List (List ℕ)) × Memory × ℕ

abbrev pub prepend : List (List ℕ) → Option Read → Option Read
prepend batch none = none
prepend batch (some (batches, m, pos)) = some (batch ∷ batches, m, pos)

module _ (round_up_p2 : ℕ → ℕ → ℕ) where
  -- The loop of `allocate`, with no other producer between the load and the exchange: each `true`
  -- is a spurious failure of `compare_exchange_weak`, after which the round is made again.
  pub allocate_loop : List Bool → ℕ → ℕ → ℕ → ℕ → Option (ℕ × ℕ)
  allocate_loop [] e read_hand alloc_hand alloc_size = reserve e read_hand alloc_hand alloc_size
  allocate_loop (failed ∷ more) e read_hand alloc_hand alloc_size =
      let again = allocate_loop more e read_hand alloc_hand alloc_size in
      elim (reserve e read_hand alloc_hand alloc_size) [
        | none ↦ none
        | some placed ↦ if failed then again else some placed
      ]

  pub allocate : ℕ → List Bool → ℕ → Region → Result Errc (Region × OutputBuffer)
  allocate region_size exchanges payload_size r =
      let alloc_size = round_up_p2 payload_size block_size in
      elim (allocate_loop exchanges (region_end region_size) r.read_ptr r.alloc_ptr alloc_size) [
        | none ↦ err not_enough_space
        | some (payload_position, payload_end) ↦ ok (
          record r {
            alloc_ptr = payload_end;
            block = store32 r.block r.alloc_ptr (payload_size + message_lock_flag);
          },
          record { position = payload_position; size = alloc_size; msg_ctrl = some r.alloc_ptr },
        )
      ]

  -- The search of `allocate_record_buffer_inplace` from one region to the next, on fuel.
  pub try_regions : ℕ → Bus → List Bool → ℕ → ℕ → ℕ → Option (Result Errc (Bus × OutputBuffer))
  try_regions zero bus exchanges payload_size first region_id = none
  try_regions (suc fuel) bus exchanges payload_size first region_id =
      let after = if region_id + 1 == bus.num_regions then 0 else region_id + 1 in
      let rest = try_regions fuel bus exchanges payload_size first after in
      elim (allocate bus.region_size exchanges payload_size (bus.region region_id)) [
        | ok (r, out) ↦ some (ok (with_region bus region_id r, out))
        | err e ↦ if after == first then some (err e) else rest
      ]

  -- `spread` is the span id's low word, or the thread's hash where the span id is invalid.
  pub allocate_record_buffer_inplace :
      Bus → List Bool → ℕ → ℕ → Option (Result Errc (Bus × OutputBuffer))
  allocate_record_buffer_inplace bus exchanges message_size spread =
      let first = hash_to_index (u32 spread) bus.num_regions in
      let found = try_regions bus.num_regions bus exchanges message_size first first in
      if ltb max_message_size message_size then some (err not_enough_space) else found

  -- The inner loop of `read_region`, with what is left of the batch: the messages from `read_pos`
  -- up to the first locked head, and where the reader stands then.
  pub collect : ℕ → ℕ → Memory → ℕ → List Info × ℕ
  collect zero e m read_pos = ([], read_pos)
  collect (suc room) e m read_pos =
      let msg_head = load32 m read_pos in
      let start =
        if ltb e (u32 (u32 (read_pos + block_size) + msg_head))
        then 2 ^ 32 - block_size
        else read_pos in
      let alloc_size = round_up_p2 msg_head block_size in
      let content = u32 (start + block_size) in
      let past = u32 (start + u32 (alloc_size + block_size)) in
      let rest = collect room e m (if past == e then 0 else past) in
      let info : Info = record {
        head = read_pos;
        content = content;
        content_size = alloc_size;
        msg_size = msg_head;
      } in
      if is_locked msg_head then ([], read_pos) else (info ∷ rest.0, rest.1)

  -- The outer loop, on fuel.
  pub read_batches : ℕ → ℕ → Memory → ℕ → Option Read
  read_batches zero e m read_pos = none
  read_batches (suc fuel) e m read_pos =
      let batch = collect consume_batch_size e m read_pos in
      let rest = read_batches fuel e (clear m batch.0) batch.1 in
      elim batch.0 [ [] ↦ some ([], m, read_pos) | _ ∷ _ ↦ prepend (messages m batch.0) rest ]

  -- `readUpdateGuard` stores the read position at the end.
  pub read_region : ℕ → ℕ → Region → Option (List (List (List ℕ)) × Region)
  read_region fuel region_size r =
      if r.alloc_ptr == r.read_ptr
      then some ([], r)
      else elim (read_batches fuel (region_end region_size) r.block r.read_ptr) [
        | none ↦ none
        | some (batches, m, pos) ↦ some (batches, record r { block = m; read_ptr = pos })
      ]
