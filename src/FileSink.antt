-- ===== src/FileSink.antt =====
-- libs/deeplog/src/dplx/dlog/sinks/file_sink.{hpp,cpp}: the backend that writes log records to a file
-- through a buffer, with the variant that asks a file database for its files. Files are their
-- contents.
pub mod Outcome
pub mod Stream
pub mod Kept
pub mod Rotate
mod Tests
use deeplog.Base.{
  Bool, List, Option, Result, [], drop, err, false, if◌then◌else◌, leb, length, ltb, none, not, ok,
  some, suc, take, true, u32, zero, ℕ, ◌&&◌, ◌++◌, ◌-◌, ◌/◌, ◌==◌, ◌>>=◌, ◌||◌, ◌∷◌,
}
use deeplog.Errc.{Errc}
use deeplog.SinkFrontend.{and_then}

-- The members of `db_file_sink_backend`; the log clock's epoch is a number.
pub record Db : Type 0 where
  pub max_file_size : ℕ
  pub file_epoch : ℕ
  pub has_pattern : Bool
  pub current_rotation : ℕ

-- `file_sink_backend`: the backing file, if it is open, the bytes of the allocation, how many of them
-- are not written yet (`size()` of the buffer), and what the subclass adds. `closed_files` are the
-- contents of the files that were closed, the last one first, and `short` says that a write ended
-- early so far; the code keeps neither.
pub record FileSink : Type 0 where
  pub file : Option (List ℕ)
  pub allocation : List ℕ
  pub room : ℕ
  pub target_buffer_size : ℕ
  pub container_info : List ℕ
  pub db : Option Db
  pub closed_files : List (List ℕ)
  pub short : Bool

-- The world: appending to a file of the given content, which may write fewer bytes and says how many,
-- the size of a file, closing it, allocating a buffer, the files that the database creates, the epoch
-- of the log clock, and the code of a closed file.
pub record Io : Type 0 where
  pub append : List ℕ → List ℕ → Result Errc ℕ × List ℕ
  pub maximum_extent : List ℕ → Result Errc ℕ
  pub close : List ℕ → Result Errc (Unit {0})
  pub allocate : ℕ → Result Errc (List ℕ)
  pub create_record_container : List (List ℕ) → Result Errc ℕ
  pub epoch : ℕ
  pub bad_file_descriptor : Errc

-- The part of the allocation that is written: `buffer.first(buffer.size() - size())`.
abbrev pub written : FileSink → List ℕ
written s = take (length s.allocation - s.room) s.allocation

-- `reset()` and `reset(mBufferAllocation.as_span())`
pub reset_empty : FileSink → FileSink
reset_empty s = record s { room = 0 }

pub reset : FileSink → FileSink
reset s = record s { room = length s.allocation }

-- How many bytes were written is not looked at.
pub stored : List ℕ → FileSink → Result Errc ℕ × List ℕ → Result Errc (Unit {0}) × FileSink
stored bytes s (ok count, content) =
    (ok tt, record s { file = some content; short = s.short || ltb count (length bytes) })
stored bytes s (err e, content) = (err e, record s { file = some content })

pub reallocated : FileSink → Result Errc (List ℕ) → Result Errc (Unit {0}) × FileSink
reallocated s (ok bytes) = (ok tt, record s { allocation = bytes })
reallocated s (err e) = (err e, s)

-- What `output_buffer::bulk_write` does, over `do_grow` and `do_bulk_write`, which the emitters of the dp library use too.
abbrev pub BulkWrite : Type 0
BulkWrite = List ℕ → FileSink → Result Errc (Unit {0}) × FileSink

module _ (io : Io) where
  -- `mBackingFile.write`, on the file that the handle refers to.
  pub write_to : Option (List ℕ) → List ℕ → FileSink → Result Errc (Unit {0}) × FileSink
  write_to none bytes s = (err io.bad_file_descriptor, s)
  write_to (some content) bytes s = stored bytes s (io.append content bytes)

  pub write_file : List ℕ → FileSink → Result Errc (Unit {0}) × FileSink
  write_file bytes s = write_to s.file bytes s

  pub resize : ℕ → FileSink → Result Errc (Unit {0}) × FileSink
  resize requested_size s = reallocated (reset_empty s) (io.allocate (u32 requested_size))

  -- `if (size() != mBufferAllocation.size())`
  pub flush : FileSink → Result Errc (Unit {0}) × FileSink
  flush s = if s.room == length s.allocation then (ok tt, s) else write_file (written s) s

  pub do_grow : ℕ → FileSink → Result Errc (Unit {0}) × FileSink
  do_grow requested_size s = and_then (flush s) (λ s.
      and_then
        (if ltb (length s.allocation) requested_size then resize requested_size s else (ok tt, s))
        (λ s. (ok tt, reset s)))

  -- `std::memcpy` to the start of the buffer.
  pub copy_in : List ℕ → FileSink → FileSink
  copy_in src s = record s {
    allocation = src ++ drop (length src) s.allocation;
    room = length s.allocation - length src;
  }

  pub do_bulk_write : List ℕ → FileSink → Result Errc (Unit {0}) × FileSink
  do_bulk_write src s =
      if ltb (length src) (length s.allocation / 2)
      then and_then (write_file (written s) s) (λ s. (ok tt, copy_in src s))
      else and_then (write_file (written s ++ src) s) (λ s. (ok tt, reset s))

  -- `do_sync_output` up to the call of `rotate`.
  pub flush_all : FileSink → Result Errc (Unit {0}) × FileSink
  flush_all s = and_then (flush s) (λ s.
      and_then
        (if length s.allocation == s.target_buffer_size
          then (ok tt, s)
          else resize s.target_buffer_size s)
        (λ s. (ok tt, reset s)))

-- What the emitters of the dp library write.
pub record Emit : Type 0 where
  pub magic : List ℕ
  pub map_of_three : List ℕ
  pub empty_map : List ℕ
  pub version : List ℕ
  pub epoch_id : List ℕ
  pub epoch : ℕ → List ℕ
  pub attributes_id : List ℕ
  pub array_indefinite : List ℕ
  pub break_byte : List ℕ

module _ (io : Io) (emit : Emit) (bulk_write : BulkWrite) where
  pub emit_all : List (List ℕ) → FileSink → Result Errc (Unit {0}) × FileSink
  emit_all [] s = (ok tt, s)
  emit_all (bytes ∷ parts) s = and_then (bulk_write bytes s) (λ s. emit_all parts s)

  pub header : FileSink → List (List ℕ)
  header s =
      let attributes = if length s.container_info == 0 then emit.empty_map else s.container_info in
      emit.magic
      ∷ emit.map_of_three
      ∷ emit.version
      ∷ emit.epoch_id
      ∷ emit.epoch io.epoch
      ∷ emit.attributes_id
      ∷ attributes
      ∷ emit.array_indefinite
      ∷ []

  -- `rotate` behind `do_rotate`, which says whether the file needs a header.
  pub start_container : Result Errc Bool × FileSink → Result Errc (Unit {0}) × FileSink
  start_container (err e, s) = (err e, s)
  start_container (ok false, s) = (ok tt, s)
  start_container (ok true, s) =
      and_then (emit_all (header s) (reset s))
        (λ s. and_then (write_file io (written s) s) (λ s. (ok tt, reset s)))

  -- `file_sink_backend::do_rotate`, by the file.
  pub needs_header : Option (List ℕ) → FileSink → Result Errc Bool × FileSink
  needs_header none s = (err io.bad_file_descriptor, s)
  needs_header (some content) s = (io.maximum_extent content >>= (λ n. ok (n == 0)), s)

  pub file_do_rotate : FileSink → Result Errc Bool × FileSink
  file_do_rotate s = needs_header s.file s

  -- The file of this content is closed.
  pub closed : List ℕ → FileSink → FileSink
  closed content s = record s { file = none; closed_files = content ∷ s.closed_files }

  -- `(void)mBackingFile.close()`
  pub close : Option (List ℕ) → FileSink → FileSink
  close none s = s
  close (some content) s = elim (io.close content) [ ok _ ↦ closed content s | err e ↦ s ]

  pub close_file : FileSink → FileSink
  close_file s = close s.file s

  pub create_container : Db → FileSink → Result Errc Bool × FileSink
  create_container d s = elim (io.create_record_container s.closed_files) [
    | err e ↦ (err e, s)
    | ok rotation ↦ (
      ok true,
      record s {
        file = some [];
        db = some (record d { file_epoch = io.epoch; current_rotation = rotation });
      },
    )
  ]

  pub file_size : Option (List ℕ) → Result Errc ℕ
  file_size none = err io.bad_file_descriptor
  file_size (some content) = io.maximum_extent content

  -- What follows the last message of a container; `sync_output` is that of the sink.
  pub end_container :
      (FileSink → Result Errc (Unit {0}) × FileSink) → Db → FileSink → Result Errc Bool × FileSink
  end_container sync_output d s = ended (bulk_write emit.break_byte s)
    where
      synced : Result Errc (Unit {0}) × FileSink → Result Errc Bool × FileSink
      synced (err e, s) = (err e, close_file s)
      synced (ok _, s) = elim (file_size s.file) [
        | err e ↦ (err e, close_file s)
        | ok n ↦ create_container (record d { current_rotation = 0 }) (close_file s)
      ]

      ended : Result Errc (Unit {0}) × FileSink → Result Errc Bool × FileSink
      ended (err e, s) = (err e, s)
      ended (ok _, s) =
          synced (sync_output (record s { db = some (record d { current_rotation = 0 }) }))

  -- `db_file_sink_backend::do_rotate`
  pub db_do_rotate :
      (FileSink → Result Errc (Unit {0}) × FileSink) → Db → FileSink → Result Errc Bool × FileSink
  db_do_rotate sync_output d s = if not d.has_pattern then (ok false, s) else elim s.file [
    | none ↦ create_container d s
    | some content ↦
        if d.current_rotation == 0 then (ok false, s) else elim (io.maximum_extent content) [
          | err e ↦ (err e, s)
          | ok n ↦
              if leb n d.max_file_size && io.epoch == d.file_epoch
              then (ok false, s)
              else end_container sync_output d s
        ]
  ]

  -- The virtual call; `sync_output` is that of the sink.
  pub dispatch :
      (FileSink → Result Errc (Unit {0}) × FileSink)
      → Option Db
      → FileSink
      → Result Errc Bool × FileSink
  dispatch sync_output none s = file_do_rotate s
  dispatch sync_output (some d) s = db_do_rotate sync_output d s

  -- The rotation of a database's file calls `sync_output` again, which the fuel counts.
  pub do_rotate : ℕ → FileSink → Result Errc Bool × FileSink
  do_rotate zero s = (err io.bad_file_descriptor, s)
  do_rotate (suc fuel) s =
      dispatch (λ s. and_then (flush_all io s) (λ s. start_container (do_rotate fuel s))) s.db s

  pub rotate : FileSink → Result Errc (Unit {0}) × FileSink
  rotate s = start_container (do_rotate 2 s)

  pub do_sync_output : FileSink → Result Errc (Unit {0}) × FileSink
  do_sync_output s = and_then (flush_all io s) rotate

  pub initialize : FileSink → Result Errc (Unit {0}) × FileSink
  initialize s = and_then (resize io s.target_buffer_size s) rotate

  -- The end of `finalize`: the size is asked for, and the file is closed.
  pub size_and_close :
      List ℕ → Result Errc ℕ → Result Errc (Unit {0}) → FileSink → Result Errc ℕ × FileSink
  size_and_close content (err e) close_result s = (err e, s)
  size_and_close content (ok n) (err e) s = (err e, s)
  size_and_close content (ok n) (ok _) s = (ok (u32 n), reset_empty (closed content s))

  pub finish_file : Option (List ℕ) → FileSink → Result Errc ℕ × FileSink
  finish_file none s = (err io.bad_file_descriptor, s)
  finish_file (some content) s =
      size_and_close content (io.maximum_extent content) (io.close content) s

  pub finish : Result Errc (Unit {0}) × FileSink → Result Errc ℕ × FileSink
  finish (err e, s) = (err e, s)
  finish (ok _, s) = finish_file s.file s

  pub finalize_file : Option (List ℕ) → FileSink → Result Errc ℕ × FileSink
  finalize_file none s = (ok 0, s)
  finalize_file (some content) s = finish (and_then (bulk_write emit.break_byte s) do_sync_output)

  pub finalize : FileSink → Result Errc ℕ × FileSink
  finalize s = finalize_file s.file s
