-- ===== src/FileSink/Rotate.antt =====
-- sinks/file_sink.cpp: the sync and the end of a sink without a database.
use deeplog.Base.{
  Bool, List, Option, Result, [], ap, arith, err, false, inl, inr, length, length-append, none, ok,
  refl, some, sym, true, u32, ℕ, ◌++◌, ◌<◌, ◌==◌, ◌>>=◌, ◌∙◌, ◌∷◌, ◌≡◌, ◌⊎◌,
}
use deeplog.FileSink.{closed, size_and_close, reset_empty}
use deeplog.FileSink.{emit_all, header, reset}
use deeplog.FileSink.Outcome.{Outcome-early, Partial}
use deeplog.FileSink.Kept.{Kept-then, unchanged, reset-Kept, write_file-Kept}
use mathlib.Core.Path.{subst}
use mathlib.Core.List.{append-nil}
use deeplog.Errc.{Errc}
use deeplog.SinkFrontend.{and_then}
use deeplog.FileSink.{
  finalize_file, Db, needs_header, dispatch, FileSink, Io, Emit, BulkWrite, written, reset_empty,
  flush_all, do_rotate, file_do_rotate, start_container, rotate, do_sync_output, finish_file,
  finish, finalize,
}
use deeplog.FileSink.Outcome.{bytes_of, Appends, content, stream, Outcome, Flushed}
use deeplog.FileSink.Stream.{flush_all-Outcome}
use deeplog.FileSink.Kept.{Kept, flush_all-Kept}

-- The file has all bytes, and nothing else changed.
pub record Synced (s : FileSink) (bytes : List ℕ) (s' : FileSink) : Type 0 where
  pub complete : content s' ≡ stream s ++ bytes
  pub buffered : s'.room ≡ length s'.allocation
  pub db : s'.db ≡ s.db
  pub closed_files : s'.closed_files ≡ s.closed_files

-- `output_buffer::bulk_write` of a sink adds the bytes to its stream, and leaves alone what
-- `do_grow` and `do_bulk_write` do.
pub record Writes (bulk_write : BulkWrite) : Type 0 where
  pub outcome :
      (bytes : List ℕ) (s : FileSink)
      → Outcome s (written s ++ bytes) (λ s'. stream s' ≡ stream s ++ bytes) (bulk_write bytes s)
  pub kept : (bytes : List ℕ) (s : FileSink) → Kept s (bulk_write bytes s)

-- A success closes the file and returns its size as a 32-bit number; the file has these bytes, or a
-- write ended early. A failure closes none.
unfoldable pub Closed : FileSink → List ℕ → Result Errc ℕ × FileSink → Type 0
Closed s bytes (ok n, s') =
    (last : List ℕ) × (s'.closed_files ≡ last ∷ s.closed_files)
    × (s'.file ≡ none)
    × (n ≡ u32 (length last))
    × ((last ≡ bytes) ⊎ s'.short ≡ true)
Closed s bytes (err e, s') = s'.closed_files ≡ s.closed_files

module _ (io : Io) (law : Appends io) (emit : Emit) (bulk_write : BulkWrite)
    (writes : Writes bulk_write) where
  -- Whether a file needs a header is asked without a change, and can fail.
  Asked : FileSink → Result Errc Bool × FileSink → Type 0
  Asked s r = (b : Result Errc Bool) × (r ≡ (b, s))

  needs_header-Asked :
      (f : Option (List ℕ)) (s : FileSink) → Asked s (needs_header io emit bulk_write f s)
  unfolding Asked needs_header
  needs_header-Asked none s = (err io.bad_file_descriptor, refl)
  needs_header-Asked (some c) s = (io.maximum_extent c >>= (λ n. ok (n == 0)), refl)

  NoHeader : FileSink → Result Errc Bool × FileSink → Type 0
  NoHeader s r = r ≡ (ok false, s) ⊎ ((e : Errc) × (r ≡ (err e, s)))

  extent-NoHeader :
      (c : List ℕ) (s : FileSink) (r : Result Errc ℕ)
      → ((n : ℕ) → r ≡ ok n → n ≡ length c)
      → 0 < length c
      → NoHeader s (r >>= (λ n. ok (n == 0)), s)
  unfolding NoHeader
  extent-NoHeader c s (err e) size h = inr (e, refl)
  extent-NoHeader c s (ok n) size h =
      let more : (n == 0) ≡ false = ground (arith, size n refl, h) in rw more (inl refl)

  needs_header-NoHeader :
      (f : Option (List ℕ)) (s : FileSink)
      → 0 < length (bytes_of f)
      → NoHeader s (needs_header io emit bulk_write f s)
  unfolding needs_header bytes_of
  needs_header-NoHeader none s h = absurd (omega arith)
  needs_header-NoHeader (some c) s h =
      extent-NoHeader c s (io.maximum_extent c) (law.maximum_extent c) h

  rotate-asks :
      (s : FileSink)
      → s.db ≡ none
      → rotate io emit bulk_write s
        ≡ start_container io emit bulk_write (needs_header io emit bulk_write s.file s)
  unfolding rotate do_rotate dispatch file_do_rotate
  rotate-asks s no_db =
      let sync_output : FileSink → Result Errc (Unit {0}) × FileSink = λ s.
        and_then (flush_all io s)
          (λ s. start_container io emit bulk_write (do_rotate io emit bulk_write 1 s)) in
      ap (start_container io emit bulk_write)
        (ap (λ (d : Option Db). dispatch io emit bulk_write sync_output d s) no_db)

  emit_all-Kept :
      (parts : List (List ℕ)) (s : FileSink) → Kept s (emit_all io emit bulk_write parts s)
  unfolding emit_all
  emit_all-Kept [] s = unchanged s (ok tt)
  emit_all-Kept (bytes ∷ parts) s =
      Kept-then s (bulk_write bytes s) _ (writes.kept bytes s) (emit_all-Kept parts)

  start_container-Kept :
      (b : Result Errc Bool) (s : FileSink) → Kept s (start_container io emit bulk_write (b, s))
  unfolding start_container and_then
  start_container-Kept (err e) s = unchanged s (err e)
  start_container-Kept (ok false) s = unchanged s (ok tt)
  start_container-Kept (ok true) s =
      Kept-then s (ok tt, reset s) _ (reset-Kept s (ok tt))
        (λ t.
          Kept-then t _ _ (emit_all-Kept (header io emit bulk_write s) t)
            (λ u. Kept-then u _ _ (write_file-Kept io (written u) u) (λ v. reset-Kept v (ok tt))))

  rotate-Kept : (s : FileSink) → s.db ≡ none → Kept s (rotate io emit bulk_write s)
  unfolding Asked
  rotate-Kept s no_db =
      let asked = needs_header-Asked s.file s in
      subst (Kept s) (sym (rotate-asks s no_db ∙ ap (start_container io emit bulk_write) asked.1))
        (start_container-Kept asked.0 s)

  -- A file with bytes gets no second header.
  Rotated : FileSink → Result Errc (Unit {0}) × FileSink → Type 0
  Rotated s r = r ≡ (ok tt, s) ⊎ ((e : Errc) × (r ≡ (err e, s)))

  rotate-Rotated :
      (s : FileSink)
      → s.db ≡ none
      → 0 < length (content s)
      → Rotated s (rotate io emit bulk_write s)
  unfolding Rotated NoHeader start_container content
  rotate-Rotated s no_db h = elim (needs_header-NoHeader s.file s h) [
    | inl none_needed ↦
        inl (rotate-asks s no_db ∙ ap (start_container io emit bulk_write) none_needed)
    | inr (e, failed) ↦
        inr (e, rotate-asks s no_db ∙ ap (start_container io emit bulk_write) failed)
  ]

  Synced-Outcome :
      (s s' : FileSink) (r : Result Errc (Unit {0}) × FileSink)
      → Flushed s s'
      → Kept s (ok tt, s')
      → Rotated s' r
      → Outcome s (written s) (Synced s []) r × Kept s r
  unfolding Outcome Partial Rotated stream
  Synced-Outcome s s' r f k (inl same) = rw same (
    inl (record {
      complete = f.complete ∙ sym (append-nil (stream s));
      buffered = f.buffered;
      db = k.db;
      closed_files = k.closed_files;
    }),
    k,
  )
  Synced-Outcome s s' r f k (inr (e, same)) = rw same (
    inl (written s, [], f.complete, sym (append-nil (written s))),
    record { db = k.db; closed_files = k.closed_files; short = k.short },
  )

  sync-rotated :
      (s : FileSink) (r : Result Errc (Unit {0}) × FileSink)
      → s.db ≡ none
      → 0 < length (stream s)
      → Outcome s (written s) (Flushed s) r
      → Kept s r
      → let after = and_then r (rotate io emit bulk_write) in
        Outcome s (written s) (Synced s []) after × Kept s after
  unfolding Outcome and_then
  sync-rotated s (err e, s') no_db h f k = (f, k)
  sync-rotated s (ok _, s') no_db h (inl f) k =
      Synced-Outcome s s' _ f k (
        rotate-Rotated s' (k.db ∙ no_db)
          (let same = ap length f.complete in omega (arith, same, h)))
  sync-rotated s (ok _, s') no_db h (inr early) k =
      let later = rotate-Kept s' (k.db ∙ no_db) in
      (
        Outcome-early s s' (written s) (Synced s []) (rotate io emit bulk_write s') early later,
        record {
          db = later.db ∙ k.db;
          closed_files = later.closed_files ∙ k.closed_files;
          short = λ e. later.short (k.short e);
        },
      )

  -- A sync of a sink without a database whose stream is not empty moves the buffer to the file. If
  -- it fails, the file has grown by a part of the buffer. Neither is known if a write ended early.
  sync :
      (s : FileSink)
      → s.db ≡ none
      → 0 < length (stream s)
      → Outcome s (written s) (Synced s []) (do_sync_output io emit bulk_write s)
        × Kept s (do_sync_output io emit bulk_write s)
  unfolding do_sync_output
  sync s no_db h =
      sync-rotated s (flush_all io s) no_db h (flush_all-Outcome io law s) (flush_all-Kept io s)

  synced-Kept : (s : FileSink) → s.db ≡ none → Kept s (do_sync_output io emit bulk_write s)
  unfolding do_sync_output and_then
  synced-Kept s no_db = kept (flush_all io s) (flush_all-Kept io s)
    where
      kept :
          (r : Result Errc (Unit {0}) × FileSink)
          → Kept s r
          → Kept s (and_then r (rotate io emit bulk_write))
      kept (err e, s') k = k
      kept (ok _, s') k =
          let later = rotate-Kept s' (k.db ∙ no_db) in
          record {
            db = later.db ∙ k.db;
            closed_files = later.closed_files ∙ k.closed_files;
            short = λ e. later.short (k.short e);
          }

  finish_file-Closed :
      (f : Option (List ℕ)) (s s' : FileSink) (bytes : List ℕ)
      → ((c : List ℕ) → f ≡ some c → (c ≡ bytes) ⊎ s'.short ≡ true)
      → s'.closed_files ≡ s.closed_files
      → Closed s bytes (finish_file io emit bulk_write f s')
  unfolding finish_file size_and_close Closed reset_empty closed
  finish_file-Closed none s s' bytes whole k = k
  finish_file-Closed (some c) s s' bytes whole k =
      sized (io.maximum_extent c) (law.maximum_extent c) (io.close c)
    where
      sized :
          (r : Result Errc ℕ)
          → ((n : ℕ) → r ≡ ok n → n ≡ length c)
          → (q : Result Errc (Unit {0}))
          → Closed s bytes (size_and_close io emit bulk_write c r q s')
      sized (err e) size q = k
      sized (ok n) size (err e) = k
      sized (ok n) size (ok _) = (c, ap (λ fs. c ∷ fs) k, refl, ap u32 (size n refl), whole c refl)

  module _ (some_break : 0 < length emit.break_byte) where
    finish-Closed :
        (s s1 : FileSink) (r : Result Errc (Unit {0}) × FileSink)
        → (stream s1 ≡ stream s ++ emit.break_byte) ⊎ s1.short ≡ true
        → s1.closed_files ≡ s.closed_files
        → Outcome s1 (written s1) (Synced s1 []) r
        → Kept s1 r
        → Closed s (stream s ++ emit.break_byte) (finish io emit bulk_write r)
    unfolding finish Closed Outcome content bytes_of
    finish-Closed s s1 (err e, s') h k f kept = kept.closed_files ∙ k
    finish-Closed s s1 (ok _, s') h k (inr early) kept =
        finish_file-Closed s'.file s s' _ (λ c open_file. inr early) (kept.closed_files ∙ k)
    finish-Closed s s1 (ok _, s') (inr early) k (inl f) kept =
        finish_file-Closed s'.file s s' _ (λ c open_file. inr (kept.short early))
          (kept.closed_files ∙ k)
    finish-Closed s s1 (ok _, s') (inl h) k (inl f) kept =
        finish_file-Closed s'.file s s' _
          (λ c open_file.
            inl (sym (ap bytes_of open_file) ∙ f.complete ∙ append-nil (stream s1) ∙ h))
          (kept.closed_files ∙ k)

    ended-Closed :
        (s : FileSink) (r : Result Errc (Unit {0}) × FileSink)
        → s.db ≡ none
        → Outcome s (written s ++ emit.break_byte) (λ s'. stream s' ≡ stream s ++ emit.break_byte) r
        → Kept s r
        → Closed s
            (stream s ++ emit.break_byte)
            (finish io emit bulk_write (and_then r (do_sync_output io emit bulk_write)))
    unfolding finish Closed Outcome and_then
    ended-Closed s (err e, s') no_db f k = k.closed_files
    ended-Closed s (ok _, s') no_db (inl f) k =
        let longer : 0 < length (stream s') =
          let same = ap length f in
          omega (arith, same, length-append (stream s) emit.break_byte, some_break) in
        let synced = sync s' (k.db ∙ no_db) longer in
        finish-Closed s s' _ (inl f) k.closed_files synced.0 synced.1
    ended-Closed s (ok _, s') no_db (inr early) k =
        let kept = synced-Kept s' (k.db ∙ no_db) in
        finish-Closed s s' _ (inr early) k.closed_files
          (Outcome-early s' s' (written s') (Synced s' []) _ early kept) kept

    -- Finalizing a sink without a database whose file is open closes the file and returns its size as
    -- a 32-bit number; the file has all bytes of the stream and a break behind them, unless llfio has
    -- ended a write of the sink early. If it fails, no file is closed.
    pub finalize-Closed :
        (s : FileSink) (c : List ℕ)
        → s.db ≡ none
        → s.file ≡ some c
        → Closed s (stream s ++ emit.break_byte) (finalize io emit bulk_write s)
    unfolding finalize finalize_file
    finalize-Closed s c no_db opened =
        subst
          (λ (f : Option (List ℕ)).
            Closed s (stream s ++ emit.break_byte) (finalize_file io emit bulk_write f s))
          (sym opened)
          (ended-Closed s (bulk_write emit.break_byte s) no_db (writes.outcome emit.break_byte s)
            (writes.kept emit.break_byte s))
