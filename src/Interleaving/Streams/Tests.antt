-- ===== src/Interleaving/Streams/Tests.antt =====
-- The streams of detail/interleaving_stream.hpp at a file that is a memory of bytes.
use deeplog.Base.{ap, arith, length, ok, ok-injective, refl, some, sym, take, true, ℕ, ◌∙◌, ◌≡◌}
use deeplog.Interleaving.Streams.Chunks.{take-length}
use deeplog.SharedMemory.{Memory, read_bytes, write_bytes}
use deeplog.SharedMemory.Laws.{write_bytes-other, read_bytes-write_bytes, read_bytes_cong}
use deeplog.Errc.{Errc}
use deeplog.Interleaving.Streams.{zeros, Io, max_block_size, OutputStream, acquire_next_write}
use deeplog.Interleaving.Streams.Chunks.{Positional, length-zeros}
use deeplog.Interleaving.Streams.Acquire.{Acquired, acquire_next_write-Acquired}

abbrev disk : Io Memory
disk = record {
  xread = λ p n f. ok (read_bytes f p n);
  write = λ p bytes f. (ok (length bytes), write_bytes f p bytes);
  resize = λ n. ok (zeros n);
  end_of_stream = Errc.missing_data;
  bad = Errc.bad;
}

disk-Positional : Positional disk
disk-Positional = record {
  same = λ p count bytes f f' h.
      let all : length bytes ≡ count = ok-injective (ap (λ r. r.0) h) in
      ap (λ (n : ℕ). ok (read_bytes f' p n)) (sym all)
      ∙ ap ok (
          ap (λ (g : Memory). read_bytes g p (length bytes)) (sym (ap (λ r. r.1) h))
          ∙ read_bytes-write_bytes f p bytes)
      ∙ ap ok (sym (take-length bytes))
      ∙ ap (λ (n : ℕ). ok (take n bytes)) all;
  count = λ p count bytes f f' h.
      let all : length bytes ≡ count = ok-injective (ap (λ r. r.0) h) in omega (arith, all);
  other = λ p q n bytes c f apart h sized.
      ap ok (
        read_bytes_cong f (write_bytes f p bytes) q n
          (λ i low high. write_bytes-other f p bytes i (ground (arith, apart))))
      ∙ h;
}

-- The odd stream of a file that holds a 7 everywhere, at its block of index 5.
abbrev sevens : Memory
sevens i = 7

abbrev sixth : OutputStream Memory
sixth = record {
  buffer_allocation = zeros max_block_size;
  data_sink = some sevens;
  index_position = 5;
  stream_selector = true;
}

acquire_next_write-Acquired_example :
    Acquired disk (zeros max_block_size) sixth sevens (acquire_next_write disk sixth)
acquire_next_write-Acquired_example =
    acquire_next_write-Acquired disk disk-Positional (zeros max_block_size)
      (length-zeros max_block_size) sixth sevens refl (length-zeros max_block_size)
