-- ===== src/FileSink/Kept.antt =====
-- sinks/file_sink.cpp: what the writes of a sink leave alone.
use deeplog.Base.{
  Bool, Bool-cases, List, Option, Result, err, false, if◌then◌else◌, inl, inr, length, ltb, none,
  ok, refl, some, true, u32, ℕ, ◌++◌, ◌/◌, ◌==◌, ◌∙◌, ◌≡◌,
}
use deeplog.FileSink.{do_bulk_write, copy_in}
use deeplog.Errc.{Errc}
use deeplog.SinkFrontend.{and_then}
use deeplog.FileSink.{
  FileSink, Io, written, reset_empty, reset, stored, reallocated, write_to, write_file, resize,
  flush, flush_all,
}

-- What no write to the file changes; a write that ended early is not forgotten.
pub record Kept (s : FileSink) (r : Result Errc (Unit {0}) × FileSink) : Type 0 where
  pub db : r.1.db ≡ s.db
  pub closed_files : r.1.closed_files ≡ s.closed_files
  pub short : s.short ≡ true → r.1.short ≡ true

pub Kept-then :
    (s : FileSink) (r : Result Errc (Unit {0}) × FileSink)
    (next : FileSink → Result Errc (Unit {0}) × FileSink)
    → Kept s r
    → ((s' : FileSink) → Kept s' (next s'))
    → Kept s (and_then r next)
unfolding and_then
Kept-then s (ok _, s') next h k = record {
  db = (k s').db ∙ h.db;
  closed_files = (k s').closed_files ∙ h.closed_files;
  short = λ early. (k s').short (h.short early);
}
Kept-then s (err e, s') next h k = h

-- A state with the same files and the same database.
same-Kept :
    (s s' : FileSink) (r : Result Errc (Unit {0}))
    → s'.db ≡ s.db
    → s'.closed_files ≡ s.closed_files
    → s'.short ≡ s.short
    → Kept s (r, s')
same-Kept s s' r h k l = record { db = h; closed_files = k; short = λ early. l ∙ early }

pub unchanged : (s : FileSink) (r : Result Errc (Unit {0})) → Kept s (r, s)
unchanged s r = same-Kept s s r refl refl refl

pub reset-Kept : (s : FileSink) (r : Result Errc (Unit {0})) → Kept s (r, reset s)
unfolding reset
reset-Kept s r = same-Kept s (reset s) r refl refl refl

stored-Kept :
    (bytes : List ℕ) (s : FileSink) (r : Result Errc ℕ × List ℕ) → Kept s (stored bytes s r)
unfolding stored
stored-Kept bytes s (ok count, content) = record {
  db = refl;
  closed_files = refl;
  short = λ early. rw early refl;
}
stored-Kept bytes s (err e, content) = same-Kept s _ (err e) refl refl refl

module _ (io : Io) where
  write_to-Kept :
      (f : Option (List ℕ)) (bytes : List ℕ) (s : FileSink) → Kept s (write_to io f bytes s)
  unfolding write_to
  write_to-Kept none bytes s = unchanged s _
  write_to-Kept (some c) bytes s = stored-Kept bytes s (io.append c bytes)

  pub write_file-Kept : (bytes : List ℕ) (s : FileSink) → Kept s (write_file io bytes s)
  unfolding write_file
  write_file-Kept bytes s = write_to-Kept s.file bytes s

  reallocated-Kept :
      (s : FileSink) (r : Result Errc (List ℕ)) → Kept s (reallocated (reset_empty s) r)
  unfolding reallocated reset_empty
  reallocated-Kept s (ok bytes) = same-Kept s _ (ok tt) refl refl refl
  reallocated-Kept s (err e) = same-Kept s _ (err e) refl refl refl

  resize-Kept : (n : ℕ) (s : FileSink) → Kept s (resize io n s)
  unfolding resize
  resize-Kept n s = reallocated-Kept s (io.allocate (u32 n))

  pub resize_unless-Kept :
      (enough : Bool) (n : ℕ) (s : FileSink) → Kept s (if enough then (ok tt, s) else resize io n s)
  resize_unless-Kept true n s = unchanged s (ok tt)
  resize_unless-Kept false n s = resize-Kept n s

  pub resize_if-Kept :
      (more : Bool) (n : ℕ) (s : FileSink) → Kept s (if more then resize io n s else (ok tt, s))
  resize_if-Kept true n s = resize-Kept n s
  resize_if-Kept false n s = unchanged s (ok tt)

  flush-Kept : (s : FileSink) → Kept s (flush io s)
  unfolding flush
  flush-Kept s = elim (Bool-cases (s.room == length s.allocation)) [
    | inl empty ↦ rw empty (unchanged s (ok tt))
    | inr more ↦ rw more (write_file-Kept (written s) s)
  ]

  pub flush_all-Kept : (s : FileSink) → Kept s (flush_all io s)
  unfolding flush_all
  flush_all-Kept s = Kept-then s (flush io s) _ (flush-Kept s) (λ t.
      Kept-then t _ _
        (resize_unless-Kept (length t.allocation == t.target_buffer_size) t.target_buffer_size t)
        (λ u. reset-Kept u (ok tt)))

  pub copied-Kept : (src : List ℕ) (s : FileSink) → Kept s (ok tt, copy_in io src s)
  unfolding copy_in
  copied-Kept src s = same-Kept s _ (ok tt) refl refl refl

  pub do_bulk_write-Kept : (src : List ℕ) (s : FileSink) → Kept s (do_bulk_write io src s)
  unfolding do_bulk_write
  do_bulk_write-Kept src s = elim (Bool-cases (ltb (length src) (length s.allocation / 2))) [
    | inl small ↦ rw small (
        Kept-then s (write_file io (written s) s) _ (write_file-Kept (written s) s)
          (copied-Kept src))
    | inr large ↦ rw large (
        Kept-then s (write_file io (written s ++ src) s) _ (write_file-Kept (written s ++ src) s)
          (λ t. reset-Kept t (ok tt)))
  ]
