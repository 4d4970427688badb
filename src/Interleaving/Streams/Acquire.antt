-- ===== src/Interleaving/Streams/Acquire.antt =====
-- detail/interleaving_stream.hpp: what an output stream does when it acquires its next chunk.
use deeplog.Base.{
  Bool, Bool-cases, List, Option, Result, ap, arith, drop, err, inl, inr, leb, length,
  length-append, length-drop, ltb, none, ok, refl, some, sym, take, true, u32, ℕ, ◌+◌, ◌<◌, ◌∙◌,
  ◌≡◌, ◌⊎◌,
}
use deeplog.Interleaving.Streams.{write_span, acquire_write}
use deeplog.Errc.{Errc}
use deeplog.Interleaving.{index_to_block_size, index_to_block_offset}
use deeplog.Interleaving.Streams.{
  zeros, Io, max_block_size, OutputStream, read_chunk, stored, write_current_chunk, next_write_area,
  after_write, acquire_next_write,
}
use deeplog.Interleaving.Streams.Chunks.{
  Positional, Other, kept-chunk, written-chunk, size-max, positive, length-zeros, first-block,
  length-block,
}

module _ {File : Type 0} (io : Io File) (pages : List ℕ) where
  -- A file in which every complete chunk but that at `i` of the stream `sel` is as in `f`.
  pub Kept : ℕ → Bool → File → OutputStream File → Type 0
  Kept i sel f s' =
      (f' : File) × (s'.data_sink ≡ some f')
      × ((j : ℕ) (odd : Bool) (c : List ℕ)
          → Other i sel j odd
          → read_chunk io pages f j odd ≡ some (ok c)
          → read_chunk io pages f' j odd ≡ some (ok c))

  -- The chunk `i` of the stream `sel` holds the start of the buffer `alloc`.
  pub Written : ℕ → Bool → List ℕ → OutputStream File → Type 0
  Written i sel alloc s' =
      (f' : File) × (s'.data_sink ≡ some f')
      × (read_chunk io pages f' i sel ≡ some (ok (take (index_to_block_size i) alloc)))

  -- The write of the chunk ended early.
  pub Short : OutputStream File → File → Type 0
  Short s f =
      let block = take (index_to_block_size s.index_position) s.buffer_allocation in
      (count : ℕ) × (f' : File) × (io.write
          (index_to_block_offset s.index_position s.stream_selector) block f
        ≡ (ok count, f'))
      × (count < length block)

  -- What is known after the next chunk was acquired in the state `s` with the file `f`.
  unfoldable pub Acquired :
      OutputStream File → File → Option (Result Errc (List ℕ) × OutputStream File) → Type 0
  Acquired s f none = ⊥
  Acquired s f (some (err e, s')) =
      Kept s.index_position s.stream_selector f s'
      × (s'.index_position ≡ s.index_position)
      × (s'.buffer_allocation ≡ s.buffer_allocation)
  Acquired s f (some (ok area, s')) =
      Kept s.index_position s.stream_selector f s'
      × (Written s.index_position s.stream_selector s.buffer_allocation s' ⊎ Short s f)
      × (s'.index_position ≡ u32 (s.index_position + 1))
      × (area ≡ zeros (index_to_block_size s'.index_position))
      × (length s'.buffer_allocation ≡ max_block_size)

module _ {File : Type 0} (io : Io File) (law : Positional io) (pages : List ℕ)
    (paged : length pages ≡ max_block_size) where
  kept :
      (s : OutputStream File) (f : File) (r : Result Errc ℕ) (f' : File) (s' : OutputStream File)
      → length s.buffer_allocation ≡ max_block_size
      → io.write
          (index_to_block_offset s.index_position s.stream_selector)
          (take (index_to_block_size s.index_position) s.buffer_allocation)
          f
        ≡ (r, f')
      → s'.data_sink ≡ some f'
      → Kept io pages s.index_position s.stream_selector f s'
  unfolding Kept
  kept s f r f' s' sized h sink = (
    f',
    sink,
    λ j odd c other k.
        ap (λ (g : File). read_chunk io pages g j odd) (sym (ap (λ p. p.1) h))
        ∙ kept-chunk io law pages paged s.index_position s.stream_selector _ f j odd c
            (length-block s.index_position s.buffer_allocation sized) other k,
  )

  block-Written :
      (s : OutputStream File) (f f' : File) (s' : OutputStream File) (count : ℕ)
      → length s.buffer_allocation ≡ max_block_size
      → io.write
          (index_to_block_offset s.index_position s.stream_selector)
          (take (index_to_block_size s.index_position) s.buffer_allocation)
          f
        ≡ (ok count, f')
      → s'.data_sink ≡ some f'
      → Written io pages s.index_position s.stream_selector s.buffer_allocation s'
        ⊎ Short io pages s f
  unfolding Written Short
  block-Written s f f' s' count sized h sink =
      let block = take (index_to_block_size s.index_position) s.buffer_allocation in
      elim (Bool-cases (ltb count (length block))) [
        | inl less ↦ inr (count, f', h, ground arith)
        | inr whole ↦
            let all : count ≡ length block =
              ground (arith, whole, law.count _ count block f f' h) in
            inl (
              f',
              sink,
              written-chunk io law pages paged s.index_position s.stream_selector block f f'
                  (length-block s.index_position s.buffer_allocation sized)
                  (h ∙ ap (λ (n : ℕ). (ok n, f')) all),
            )
      ]

  next_area-Acquired :
      (s : OutputStream File) (f f' : File) (count : ℕ)
      → length s.buffer_allocation ≡ max_block_size
      → io.write
          (index_to_block_offset s.index_position s.stream_selector)
          (take (index_to_block_size s.index_position) s.buffer_allocation)
          f
        ≡ (ok count, f')
      → Acquired io pages s f (after_write io (some (stored io s (ok count, f'))))
  unfolding Acquired Written after_write stored next_write_area
  next_area-Acquired s f f' count sized h =
      let n = index_to_block_size (u32 (s.index_position + 1)) in
      let small = size-max (u32 (s.index_position + 1)) in
      let fits : leb n (length s.buffer_allocation) ≡ true = ground arith in
      rw fits (
        kept s f (ok count) f' _ sized h refl,
        block-Written s f f' (record s { data_sink = some f' }) count sized h refl,
        refl,
        refl,
        omega (
          arith,
          sized,
          small,
          length-append (zeros n) (drop n s.buffer_allocation),
          length-zeros n,
          length-drop n s.buffer_allocation,
        ),
      )

  write-Acquired :
      (s : OutputStream File) (f : File) (r : Result Errc ℕ × File)
      → length s.buffer_allocation ≡ max_block_size
      → io.write
          (index_to_block_offset s.index_position s.stream_selector)
          (take (index_to_block_size s.index_position) s.buffer_allocation)
          f
        ≡ r
      → Acquired io pages s f (after_write io (some (stored io s r)))
  unfolding Acquired after_write stored
  write-Acquired s f (err e, f') sized h = (kept s f (err e) f' _ sized h refl, refl, refl)
  write-Acquired s f (ok count, f') sized h = next_area-Acquired s f f' count sized h

  -- An output stream with an open sink and a buffer of the greatest block size that acquires its next
  -- chunk writes the current one to its block: if that succeeds, an input stream with a buffer of this
  -- size reads it back or the write ended early, the index is the next one and the new chunk is zero;
  -- if it fails, index and buffer stay. In both cases every chunk of the other stream, and of this
  -- stream at another index, that could be read is read as before.
  pub acquire_next_write-Acquired :
      (s : OutputStream File) (f : File)
      → s.data_sink ≡ some f
      → length s.buffer_allocation ≡ max_block_size
      → Acquired io pages s f (acquire_next_write io s)
  unfolding acquire_next_write acquire_write write_current_chunk write_span stored Acquired Short
  acquire_next_write-Acquired s f opened sized =
      let filled : ltb 0 (length s.buffer_allocation) ≡ true = ground (arith, positive, sized) in
      rw (opened, filled, first-block s.index_position s.buffer_allocation sized)
        (write-Acquired s f _ sized refl)
