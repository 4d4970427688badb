-- ===== src/MpscFile.antt =====
-- libs/deeplog/src/dplx/dlog/bus/mpsc_bus.cpp: a bus is made in a mapped file, and its messages are
-- recovered from one that is left over. The file system calls of llfio, the codec of the header and
-- `dp::skip_item` are parameters: the results that they return.
pub mod Create
pub mod Recover
pub mod Loss
pub mod Database
mod Tests
use deeplog.Base.{
  Bool, List, Option, Result, [], bit_xor, err, fail_if, false, if◌then◌else◌, leb, length, ltb,
  none, not, ok, shr, some, suc, true, u32, u32_max, u64, zero, ℕ, ◌%◌, ◌&&◌, ◌*◌, ◌++◌, ◌+◌, ◌-◌,
  ◌/◌, ◌==◌, ◌>>=◌, ◌>>◌, ◌^◌, ◌||◌, ◌∷◌,
}
use deeplog.SharedMemory.{Memory, load32, read_bytes}
use deeplog.Errc.{
  Errc, invalid_argument, missing_data, invalid_dmpscb_header, invalid_dmpscb_parameters,
  invalid_dmpscb_file_size,
}
use deeplog.MpscBus.{
  Region, Bus, head_area_size, min_region_size, message_consumed_flag, message_flag_mask,
  block_size, consume_batch_size, unused_block_byte, region_end, hash_to_index, with_region,
}
use deeplog.StrongTypes.{TraceId, SpanContext, is_invalid}
use deeplog.SpanId.{derive_span_id}

-- `llfio::lock_kind`
pub data LockKind : Type 0 where
  unlocked shared exclusive : LockKind

-- What the code reads of the file handle, and the lock that it holds.
pub record BackingFile : Type 0 where
  pub is_valid : Bool
  pub is_writable : Bool
  pub lock : LockKind

-- The results of the calls that `mpsc_bus` makes, and `std::in_range<extent_type>`.
pub record CreateIo : Type 0 where
  pub lock_file : Result Errc (Unit {0})
  pub truncate : Result Errc (Unit {0})
  pub write_magic : Result Errc (Unit {0})
  pub encode_info : Result Errc (Unit {0})
  pub in_extent_range : ℕ → Bool

abbrev pub page_size : ℕ
page_size = 4 * 1024

-- `(n & message_flag_mask) != 0`
abbrev pub has_flags : ℕ → Bool
has_flags n = leb message_consumed_flag n

abbrev pub with_lock : BackingFile → LockKind → BackingFile
with_lock f k = record f { lock = k }

-- The lock that the file holds once the prologue of both functions has run: a shared lock is given
-- up, and the file is locked unless the caller has done so.
pub acquire : LockKind → Result Errc (Unit {0}) → BackingFile → Result Errc (Unit {0}) × BackingFile
acquire exclusive rx f = (ok tt, f)
acquire unlocked (ok _) f = (ok tt, with_lock f exclusive)
acquire unlocked (err e) f = (err e, f)
acquire shared (ok _) f = (ok tt, with_lock f exclusive)
acquire shared (err e) f = (err e, with_lock f unlocked)

-- A region as the loop of `mpsc_bus` over the regions leaves it: hands at 0, every word unused.
abbrev pub fresh_region : Region
fresh_region = record {
  read_ptr = 0;
  alloc_ptr = 0;
  span_prng_ctr = 0;
  block = λ i. unused_block_byte;
}

-- `dp::decode` of `mpsc_bus_info`, without the epoch.
pub record BusInfo : Type 0 where
  pub num_regions : ℕ
  pub region_size : ℕ

module _ (round_up_p2 : ℕ → ℕ → ℕ) where
  -- The sizes that `mpsc_bus` accepts: the region size rounded up to pages.
  pub real_region_size : (ℕ → Bool) → ℕ → ℕ → Result Errc ℕ
  real_region_size in_extent_range num_regions region_size =
      let real_size = round_up_p2 region_size page_size in
      let combined = u64 (num_regions * real_size) in
      let file_size = u64 (combined + head_area_size) in
      do
        fail_if (num_regions == 0 || (has_flags num_regions || ltb region_size min_region_size))
            invalid_argument
        fail_if (ltb (u32_max - page_size) region_size) invalid_argument
        fail_if (not (combined / real_size == num_regions)) invalid_argument
        fail_if (ltb file_size combined || not (in_extent_range file_size)) invalid_argument
        ok real_size

  -- The part of `mpsc_bus` that runs under the lock.
  pub initialise : CreateIo → ℕ → ℕ → Result Errc Bus
  initialise io num_regions real_size = do
    io.truncate
    io.write_magic
    io.encode_info
    ok (record {
      num_regions = num_regions;
      region_size = u32 real_size;
      region = λ i. fresh_region;
    })

  -- `lockGuard` unlocks the file on each failure under the lock.
  pub finish_create : Result Errc Bus → BackingFile → Result Errc Bus × BackingFile
  finish_create (ok bus) f = (ok bus, f)
  finish_create (err e) f = (err e, with_lock f unlocked)

  pub create_locked :
      CreateIo → ℕ → ℕ → Result Errc (Unit {0}) × BackingFile → Result Errc Bus × BackingFile
  create_locked io num_regions real_size (ok _, f) =
      finish_create (initialise io num_regions real_size) f
  create_locked io num_regions real_size (err e, f) = (err e, f)

  pub create_sized :
      CreateIo → BackingFile → ℕ → LockKind → Result Errc ℕ → Result Errc Bus × BackingFile
  create_sized io file num_regions lock_state (ok real_size) =
      create_locked io num_regions real_size (acquire lock_state io.lock_file file)
  create_sized io file num_regions lock_state (err e) = (err e, file)

  pub mpsc_bus : CreateIo → BackingFile → ℕ → ℕ → LockKind → Result Errc Bus × BackingFile
  mpsc_bus io file num_regions region_size lock_state =
      if not file.is_valid || not file.is_writable
      then (err invalid_argument, file)
      else create_sized io file num_regions lock_state
          (real_region_size io.in_extent_range num_regions region_size)

  -- `recover_region` reads the words of a region without changing them.
  module _ (is_item : List ℕ → Bool) (e : ℕ) (m : Memory) (alloc_ptr : ℕ) where
    -- The body of its inner loop: `none` is the return at a block that was never written; else the
    -- message, if it is to be kept, and the next read position.
    pub examine : ℕ → Option (List (List ℕ) × ℕ)
    examine read_pos =
        let msg_head = load32 m read_pos in
        let msg_size = msg_head % 2 ^ 30 in
        let start =
          if ltb e (u32 (u32 (read_pos + block_size) + msg_size))
          then 2 ^ 32 - block_size
          else read_pos in
        let msg = read_bytes m (u32 (start + block_size)) msg_size in
        let past = u32 (start + u32 (round_up_p2 msg_size block_size + block_size)) in
        if ltb e (u32 (block_size + msg_size))
        then none
        else some (
          if not (has_flags msg_head) && is_item msg then msg ∷ [] else [],
          if past == e then 0 else past,
        )

    -- Both loops, inside the inner one: `left` is `limit - i`, and `batch` the messages collected.
    -- The result is the list of batches that the consumer is given.
    pub recover_loop : ℕ → ℕ → List (List ℕ) → List (List (List ℕ))
    recover_loop zero read_pos batch = batch ∷ []
    recover_loop (suc left) read_pos batch = elim (read_pos == alloc_ptr) [
      | true ↦ batch ∷ []
      | false ↦ elim (examine read_pos) [
        | none ↦ []
        | some (kept, pos) ↦ elim (length (batch ++ kept) == consume_batch_size) [
          | false ↦ recover_loop left pos (batch ++ kept)
          | true ↦ (batch ++ kept) ∷ (elim (left == 0 || pos == alloc_ptr) [
            | true ↦ []
            | false ↦ recover_loop left pos []
          ])
        ]
      ]
    ]

    pub recover_region : ℕ → List (List (List ℕ))
    recover_region read_ptr =
        let limit = e / 4 in
        if limit == 0 || read_ptr == alloc_ptr then [] else recover_loop limit read_ptr []

  -- The regions in order.
  pub recover_regions : (List ℕ → Bool) → Bus → ℕ → ℕ → List (List (List ℕ))
  recover_regions is_item bus zero region_id = []
  recover_regions is_item bus (suc left) region_id =
      let r = bus.region region_id in
      recover_region is_item (region_end bus.region_size) r.block r.alloc_ptr r.read_ptr
      ++ recover_regions is_item bus left (region_id + 1)

-- What `recover_mpsc_bus` reads of the file: the results of the calls, whether the magic bytes are
-- there, the decoded header and the memory of the regions.
pub record RecoverIo : Type 0 where
  pub lock_file : Result Errc (Unit {0})
  pub maximum_extent : Result Errc ℕ
  pub magic_matches : Bool
  pub info : Result Errc BusInfo
  pub region : ℕ → Region

-- The checks of the header against the size of the file.
pub check_info : BusInfo → ℕ → Result Errc (Unit {0})
check_info info max_extent = do
  fail_if
      (info.num_regions == 0
        || (has_flags info.num_regions
            || (ltb info.region_size min_region_size
                || (ltb (u32_max - page_size) info.region_size
                    || not (info.region_size % page_size == 0)))))
      invalid_dmpscb_parameters
  fail_if (not (u64 (page_size + u64 (info.num_regions * info.region_size)) == max_extent))
      invalid_dmpscb_file_size

-- Any failure of the decoder counts as a bad header.
abbrev pub or_header : Result Errc BusInfo → Result Errc BusInfo
or_header (ok info) = ok info
or_header (err _) = err invalid_dmpscb_header

pub read_info : RecoverIo → Result Errc BusInfo
read_info io = do
  max_extent ← io.maximum_extent
  fail_if (ltb max_extent page_size) missing_data
  fail_if (not io.magic_matches) invalid_dmpscb_header
  info ← or_header io.info
  check_info info max_extent >> ok info

-- `lockGuard` on a failure: it was given up if the lock is the caller's own.
abbrev pub release_unless : LockKind → BackingFile → BackingFile
release_unless exclusive f = f
release_unless unlocked f = with_lock f unlocked
release_unless shared f = with_lock f unlocked

-- The batches that the consumer is given, and the lock that the file is left with: on a failure
-- under the caller's own exclusive lock the caller keeps it, and the bus, once made, unlocks the
-- file at its destruction.
pub recover_mpsc_bus :
    (ℕ → ℕ → ℕ)
    → (List ℕ → Bool)
    → RecoverIo
    → BackingFile
    → LockKind
    → Result Errc (List (List (List ℕ))) × BackingFile
recover_mpsc_bus round_up_p2 is_item io file lock_state =
    if not file.is_valid || not file.is_writable
    then (err invalid_argument, file)
    else let (locked, f) = acquire lock_state io.lock_file file in
      elim locked [
        | err e ↦ (err e, f)
        | ok _ ↦ elim (read_info io) [
          | err e ↦ (err e, release_unless lock_state f)
          | ok info ↦ (
            ok (
                recover_regions round_up_p2 is_item
                  (record {
                    num_regions = info.num_regions;
                    region_size = info.region_size;
                    region = io.region;
                  })
                  info.num_regions 0),
            with_lock f unlocked,
          )
        ]
      ]

-- `create_span_context`: an invalid trace is replaced by a random one; the counter of the region
-- that the trace selects is advanced by `fetch_add`.
pub create_span_context : Bus → TraceId → TraceId → SpanContext × Bus
create_span_context bus random parent =
    let trace = if is_invalid parent then random else parent in
    let spread =
      bit_xor (bit_xor (bit_xor (trace.p0 % 2 ^ 32) (shr trace.p0 32)) (trace.p1 % 2 ^ 32))
        (shr trace.p1 32) in
    let id = hash_to_index spread bus.num_regions in
    let r = bus.region id in
    (
      record { trace_id = trace; span_id = derive_span_id trace.p0 trace.p1 r.span_prng_ctr },
      with_region bus id (record r { span_prng_ctr = u64 (r.span_prng_ctr + 1) }),
    )
