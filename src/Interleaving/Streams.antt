-- ===== src/Interleaving/Streams.antt =====
-- libs/deeplog/src/dplx/dlog/detail/interleaving_stream.hpp: the chunks that an input and an output
-- stream read and write at the blocks of their file. The file handle of llfio, the page allocation
-- and the chunked streams of dplx::dp are outside.
pub mod Chunks
pub mod Acquire
mod Tests
use deeplog.Base.{
  Bool, List, Option, Result, [], drop, err, if◌then◌else◌, leb, length, ltb, none, ok, some, suc,
  take, u32, zero, ℕ, ◌++◌, ◌+◌, ◌==◌, ◌∷◌,
}
use deeplog.Errc.{Errc}
use deeplog.Interleaving.{index_to_block_size, index_to_block_offset}

-- `span::first`, which is not defined beyond the end of the span.
unfoldable pub first : ℕ → List ℕ → Option (List ℕ)
first n xs = if leb n (length xs) then some (take n xs) else none

-- `std::memset(p, 0, n)`
unfoldable pub zeros : ℕ → List ℕ
zeros zero = []
zeros (suc n) = 0 ∷ zeros n

-- The calls outside: the read of a span, which may give fewer bytes, the write of a span, which may
-- write fewer bytes and says how many, and `mBufferAllocation.resize`, by the content of the new
-- buffer.
pub record Io (File : Type 0) : Type 0 where
  pub xread : ℕ → ℕ → File → Result Errc (List ℕ)
  pub write : ℕ → List ℕ → File → Result Errc ℕ × File
  pub resize : ℕ → Result Errc (List ℕ)
  pub end_of_stream : Errc
  pub bad : Errc

unfoldable pub max_block_size : ℕ
max_block_size = index_to_block_size 5

pub record InputStream (File : Type 0) : Type 0 where
  pub buffer_allocation : List ℕ
  pub data_source : File
  pub index_position : ℕ
  pub stream_selector : Bool

pub record OutputStream (File : Type 0) : Type 0 where
  pub buffer_allocation : List ℕ
  pub data_sink : Option File
  pub index_position : ℕ
  pub stream_selector : Bool

module _ {File : Type 0} (io : Io File) where
  -- A part of a block is not enough.
  unfoldable pub complete : ℕ → Result Errc (List ℕ) → Result Errc (List ℕ)
  complete n (err e) = err e
  complete n (ok buffers) = if length buffers == n then ok buffers else err io.end_of_stream

  -- The read, into the span that was taken of the buffer.
  unfoldable pub read_span : Option (List ℕ) → File → ℕ → Option (Result Errc (List ℕ))
  read_span none data_source read_pos = none
  read_span (some span) data_source read_pos =
      some (complete (length span) (io.xread read_pos (length span) data_source))

  unfoldable pub read_chunk : List ℕ → File → ℕ → Bool → Option (Result Errc (List ℕ))
  read_chunk buffer_alloc data_source index stream_selector =
      read_span (first (index_to_block_size index) buffer_alloc) data_source
        (index_to_block_offset index stream_selector)

  -- `mIndexPosition += 1`, once the chunk was read
  pub advance :
      InputStream File
      → Option (Result Errc (List ℕ))
      → Option (Result Errc (List ℕ) × InputStream File)
  advance s none = none
  advance s (some (err e)) = some (err e, s)
  advance s (some (ok area)) =
      some (ok area, record s { index_position = u32 (s.index_position + 1) })

  pub read_current_chunk : InputStream File → Option (Result Errc (List ℕ))
  read_current_chunk s =
      read_chunk s.buffer_allocation s.data_source s.index_position s.stream_selector

  pub acquire_next_read : InputStream File → Option (Result Errc (List ℕ) × InputStream File)
  acquire_next_read s =
      if length s.buffer_allocation == 0
      then elim (io.resize max_block_size) [
        | err e ↦ some (err e, s)
        | ok pages ↦
            let s' = record s { buffer_allocation = pages } in advance s' (read_current_chunk s')
      ]
      else advance s (read_current_chunk s)

  -- How many bytes were written is not looked at.
  unfoldable pub stored :
      OutputStream File → Result Errc ℕ × File → Result Errc (Unit {0}) × OutputStream File
  stored s (ok count, sink) = (ok tt, record s { data_sink = some sink })
  stored s (err e, sink) = (err e, record s { data_sink = some sink })

  -- The write of the span that was taken of the buffer.
  unfoldable pub write_span :
      Option (List ℕ)
      → File
      → OutputStream File
      → Option (Result Errc (Unit {0}) × OutputStream File)
  write_span none sink s = none
  write_span (some span) sink s =
      some
        (stored s (io.write (index_to_block_offset s.index_position s.stream_selector) span sink))

  unfoldable pub write_current_chunk :
      File → OutputStream File → Option (Result Errc (Unit {0}) × OutputStream File)
  write_current_chunk sink s =
      write_span (first (index_to_block_size s.index_position) s.buffer_allocation) sink s

  -- The next write area, set to zero.
  unfoldable pub next_write_area :
      OutputStream File → Option (Result Errc (List ℕ) × OutputStream File)
  next_write_area s =
      let n = index_to_block_size s.index_position in
      if leb n (length s.buffer_allocation)
      then some
          (ok (zeros n), record s { buffer_allocation = zeros n ++ drop n s.buffer_allocation })
      else none

  unfoldable pub after_write :
      Option (Result Errc (Unit {0}) × OutputStream File)
      → Option (Result Errc (List ℕ) × OutputStream File)
  after_write none = none
  after_write (some (err e, s)) = some (err e, s)
  after_write (some (ok _, s)) =
      next_write_area (record s { index_position = u32 (s.index_position + 1) })

  pub after_resize :
      OutputStream File → Result Errc (List ℕ) → Option (Result Errc (List ℕ) × OutputStream File)
  after_resize s (err e) = some (err e, s)
  after_resize s (ok pages) = next_write_area (record s { buffer_allocation = pages })

  unfoldable pub acquire_write :
      Option File → OutputStream File → Option (Result Errc (List ℕ) × OutputStream File)
  acquire_write none s = some (err io.bad, s)
  acquire_write (some sink) s =
      if ltb 0 (length s.buffer_allocation)
      then after_write (write_current_chunk sink s)
      else after_resize s (io.resize max_block_size)

  unfoldable pub acquire_next_write :
      OutputStream File → Option (Result Errc (List ℕ) × OutputStream File)
  acquire_next_write s = acquire_write s.data_sink s
