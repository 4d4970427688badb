-- ===== src/FileSink/Tests.antt =====
-- The file sink (sinks/file_sink.cpp) in a world where all calls succeed.
use deeplog.Base.{
  List, [], ap, arith, false, length, none, ok, ok-injective, refl, some, suc, sym, take, true,
  zero, ℕ, ◌++◌, ◌+◌, ◌∙◌, ◌∷◌, ◌≡◌,
}
use deeplog.FileSink.{closed, size_and_close, file_size}
use mathlib.Core.List.{append-nil}
use deeplog.FileSink.{
  flush_all, finalize_file, finish, write_file, write_to, stored, flush, copy_in, rotate,
  start_container, do_rotate, dispatch, reset, db_do_rotate, close, close_file, create_container,
  emit_all, end_container, file_do_rotate, finish_file, header, needs_header, reallocated,
  reset_empty, resize,
}
use deeplog.SinkFrontend.{and_then}
use deeplog.FileSink.Kept.{do_bulk_write-Kept}
use deeplog.FileSink.Outcome.{content}
use deeplog.FileSink.Outcome.{bytes_of}
use deeplog.Errc.{system}
use deeplog.FileSink.{FileSink, Io, Emit, written, do_bulk_write, do_sync_output, finalize}
use deeplog.FileSink.Outcome.{Appends, Grown, OneWrite, OneWrite-Outcome, stream}
use deeplog.FileSink.Stream.{do_bulk_write-OneWrite}
use deeplog.FileSink.Rotate.{Writes, Closed, finalize-Closed}

abbrev zeros : ℕ → List ℕ
zeros zero = []
zeros (suc n) = 0 ∷ zeros n

abbrev world : Io
world = record {
  append = λ content bytes. (ok (length bytes), content ++ bytes);
  maximum_extent = λ content. ok (length content);
  close = λ content. ok tt;
  allocate = λ n. ok (zeros n);
  create_record_container = λ closed. ok (length closed + 1);
  epoch = 5;
  bad_file_descriptor = system 9;
}

zeros-length : (n : ℕ) → length (zeros n) ≡ n
zeros-length zero = refl
zeros-length (suc n) = omega (arith, zeros-length n)

world-Appends : Appends world
unfolding Grown
world-Appends = record {
  append = λ content bytes. (bytes, [], refl, sym (append-nil bytes), refl);
  maximum_extent = λ content n h. sym (ok-injective h);
  allocate = λ n bytes h. sym (ap length (ok-injective h)) ∙ zeros-length n;
}

abbrev emit : Emit
emit = record {
  magic = 1 ∷ [];
  map_of_three = 0xa3 ∷ [];
  empty_map = 0xa0 ∷ [];
  version = 0 ∷ 0 ∷ [];
  epoch_id = 1 ∷ [];
  epoch = λ n. n ∷ [];
  attributes_id = 2 ∷ [];
  array_indefinite = 0x9f ∷ [];
  break_byte = 0xff ∷ [];
}

-- A buffer of six bytes, two of them written, over a file of three.
abbrev half_full : FileSink
half_full = record {
  file = some (1 ∷ 2 ∷ 3 ∷ []);
  allocation = 4 ∷ 5 ∷ 0 ∷ 0 ∷ 0 ∷ 0 ∷ [];
  room = 4;
  target_buffer_size = 6;
  container_info = [];
  db = none;
  closed_files = [];
  short = false;
}

do_bulk_write-OneWrite_example :
    OneWrite half_full
      (written half_full ++ (6 ∷ 7 ∷ []))
      (λ s. stream s ≡ stream half_full ++ (6 ∷ 7 ∷ []))
      (do_bulk_write world (6 ∷ 7 ∷ []) half_full)
do_bulk_write-OneWrite_example = do_bulk_write-OneWrite world world-Appends (6 ∷ 7 ∷ []) half_full

world-Writes : Writes (do_bulk_write world)
world-Writes = record {
  outcome = λ bytes s.
      OneWrite-Outcome s (written s ++ bytes) _ _
        (do_bulk_write-OneWrite world world-Appends bytes s);
  kept = do_bulk_write-Kept world;
}

finalize-Closed_example :
    Closed half_full
      (1 ∷ 2 ∷ 3 ∷ 4 ∷ 5 ∷ 0xff ∷ [])
      (finalize world emit (do_bulk_write world) half_full)
unfolding stream content bytes_of
finalize-Closed_example =
    finalize-Closed world world-Appends emit (do_bulk_write world) world-Writes (omega arith)
      half_full (1 ∷ 2 ∷ 3 ∷ []) refl refl

-- The sink of a database whose file is longer than it may be: `finalize` ends the file twice, and
-- closes a new file without an end.
abbrev over_full : FileSink
over_full = record half_full {
  db =
      some (record { max_file_size = 4; file_epoch = 5; has_pattern = true; current_rotation = 1 });
}

ended_twice :
    (finalize world emit (do_bulk_write world) over_full).1.closed_files
    ≡ (1 ∷ 0xa3 ∷ 0 ∷ 0 ∷ 1 ∷ 5 ∷ 2 ∷ 0xa0 ∷ 0x9f ∷ [])
      ∷ (1 ∷ 2 ∷ 3 ∷ 4 ∷ 5 ∷ 0xff ∷ 0xff ∷ [])
      ∷ []
unfolding finalize finalize_file finish and_then do_bulk_write write_file write_to stored
    do_sync_output flush_all flush copy_in rotate start_container do_rotate dispatch reset
    db_do_rotate close close_file create_container emit_all end_container file_do_rotate finish_file
    header needs_header reallocated reset_empty resize closed size_and_close file_size
ended_twice = refl

-- A disk that writes at most two bytes of each write.
abbrev full_disk : Io
full_disk = record world {
  append = λ content bytes. (ok (length (take 2 bytes)), content ++ take 2 bytes);
}

-- The sync of three bytes succeeds, and one is lost.
lost_byte :
    let full = record half_full { room = 3 } in
    let after = do_sync_output full_disk emit (do_bulk_write full_disk) full in
    (after.0 ≡ ok tt) × (stream after.1 ≡ 1 ∷ 2 ∷ 3 ∷ 4 ∷ 5 ∷ []) × (after.1.short ≡ true)
unfolding stream content bytes_of do_bulk_write write_file write_to stored do_sync_output flush_all
    flush rotate start_container do_rotate dispatch reset file_do_rotate needs_header reallocated
    reset_empty resize and_then
lost_byte = (refl, refl, refl)
