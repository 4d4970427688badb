-- ===== src/FileSink/Stream.antt =====
-- sinks/file_sink.cpp: the file and the buffer as one stream of bytes.
use deeplog.Base.{
  Bool-cases, List, Option, Result, [], ap, ap₂, arith, drop, err, if◌then◌else◌, inl, inr, length,
  length-append, length-drop, ltb, none, ok, refl, some, sym, take, take-append, true, u32, ℕ, ◌++◌,
  ◌-◌, ◌/◌, ◌<◌, ◌==◌, ◌^◌, ◌∙◌, ◌∷◌, ◌≡◌, ◌≤◌,
}
use deeplog.FileSink.Outcome.{OneWrite, OneWrite-Outcome, OneWrite-then, OneWrite-more}
use deeplog.FileSink.Kept.{
  Kept, Kept-then, reset-Kept, copied-Kept, resize_if-Kept, resize_unless-Kept,
}
use mathlib.Core.List.{append-nil, append_assoc}
use deeplog.Errc.{Errc}
use deeplog.FileSink.{
  and_then, write_to, FileSink, Io, written, reset_empty, reset, stored, reallocated, write_file,
  resize, flush, do_grow, copy_in, do_bulk_write, flush_all,
}
use deeplog.FileSink.Outcome.{
  Grown, Appends, bytes_of, content, stream, Partial, Outcome, Flushed, Outcome-then,
  Outcome-weaken,
}

module _ (io : Io) (law : Appends io) where
  -- The file has the bytes, and the buffer is as before.
  record Wrote (s : FileSink) (bytes : List ℕ) (s' : FileSink) : Type 0 where
    stands : content s' ≡ content s ++ bytes
    allocation : s'.allocation ≡ s.allocation

  grown_whole :
      (c bytes start rest after : List ℕ)
      → after ≡ c ++ start
      → bytes ≡ start ++ rest
      → length start ≡ length bytes
      → after ≡ c ++ bytes
  grown_whole c bytes start [] after grown parts sized =
      grown ∙ ap (λ x. c ++ x) (sym (parts ∙ append-nil start))
  grown_whole c bytes start (x ∷ rest) after grown parts sized =
      absurd (omega (arith, sized, ap length parts, length-append start (x ∷ rest)))

  stored-OneWrite :
      (s : FileSink) (c bytes : List ℕ)
      → content s ≡ c
      → (r : Result Errc ℕ × List ℕ) → Grown c bytes r
      → OneWrite s bytes (Wrote s bytes) (stored bytes s r)
  unfolding stored OneWrite Partial Grown content bytes_of
  stored-OneWrite s c bytes same (ok count, after) (start, rest, grown, parts, sized) =
      elim (Bool-cases (ltb count (length bytes))) [
        | inl less ↦ inr (record {
          start = start;
          rest = rest;
          grown = grown ∙ ap (λ x. x ++ start) (sym same);
          parts = parts;
          some_left = ground (arith, less, sized, ap length parts, length-append start rest);
          recorded = ground (arith, less);
        })
        | inr whole ↦
            let all : length start ≡ length bytes =
              ground (arith, whole, sized, ap length parts, length-append start rest) in
            inl (record {
              stands =
                  grown_whole c bytes start rest after grown parts all
                  ∙ ap (λ x. x ++ bytes) (sym same);
              allocation = refl;
            })
      ]
  stored-OneWrite s c bytes same (err e, after) (start, rest, grown, parts) =
      (start, rest, grown ∙ ap (λ x. x ++ start) (sym same), parts)

  write_to-OneWrite :
      (f : Option (List ℕ)) (bytes : List ℕ) (s : FileSink)
      → content s ≡ bytes_of f
      → OneWrite s bytes (Wrote s bytes) (write_to io f bytes s)
  unfolding write_to bytes_of OneWrite Partial
  write_to-OneWrite none bytes s same = ([], bytes, sym (append-nil (content s)), refl)
  write_to-OneWrite (some c) bytes s same =
      stored-OneWrite s c bytes same (io.append c bytes) (law.append c bytes)

  write_file-OneWrite :
      (bytes : List ℕ) (s : FileSink) → OneWrite s bytes (Wrote s bytes) (write_file io bytes s)
  unfolding write_file content
  write_file-OneWrite bytes s = write_to-OneWrite s.file bytes s refl

  all_written :
      (s : FileSink) (empty : (s.room == length s.allocation) ≡ true)
      → content s ≡ content s ++ written s
  all_written s empty =
      let none_written : length s.allocation - s.room ≡ 0 = ground arith in
      sym (ap (λ (n : ℕ). content s ++ take n s.allocation) none_written ∙ append-nil (content s))

  flush-Outcome : (s : FileSink) → Outcome s (written s) (Wrote s (written s)) (flush io s)
  unfolding flush Outcome
  flush-Outcome s = elim (Bool-cases (s.room == length s.allocation)) [
    | inl empty ↦ rw empty (inl (record { stands = all_written s empty; allocation = refl }))
    | inr more ↦ rw more (OneWrite-Outcome s (written s) _ _ (write_file-OneWrite (written s) s))
  ]

  -- The file is complete; the buffer is about to be replaced.
  Complete : FileSink → FileSink → Type 0
  Complete s s' = content s' ≡ stream s

  reset-Flushed : (s s' : FileSink) → Complete s s' → Flushed s (reset s')
  unfolding Complete reset content stream
  reset-Flushed s s' h = record { complete = h; buffered = refl }

  reallocated-Outcome :
      (s s' : FileSink) (n : ℕ)
      → Complete s s'
      → (r : Result Errc (List ℕ)) → ((bytes : List ℕ) → r ≡ ok bytes → length bytes ≡ n)
      → Outcome s (written s) (λ t. Complete s t × (length t.allocation ≡ n)) (reallocated s' r)
  unfolding reallocated Outcome Complete content Partial stream
  reallocated-Outcome s s' n h (ok bytes) k = inl (h, k bytes refl)
  reallocated-Outcome s s' n h (err e) k = inl (written s, [], h, sym (append-nil (written s)))

  resize-Outcome :
      (s s' : FileSink) (n : ℕ)
      → Complete s s'
      → Outcome s (written s) (λ t. Complete s t × (length t.allocation ≡ u32 n)) (resize io n s')
  unfolding resize reset_empty Complete content
  resize-Outcome s s' n h =
      reallocated-Outcome s (reset_empty s') (u32 n) h (io.allocate (u32 n)) (law.allocate (u32 n))

  -- A growth writes the buffer to the file and leaves an empty one with room for what is asked for,
  -- up to 4 GiB. If it fails, the file has grown by a part of the buffer, unless a write ended early.
  do_grow-Outcome :
      (n : ℕ) (s : FileSink)
      → n < 2 ^ 32
      → Outcome s (written s) (λ s'. Flushed s s' × (n ≤ s'.room)) (do_grow io n s)
  unfolding do_grow Outcome Complete stream reset
  do_grow-Outcome n s small =
      Outcome-then s (written s) _ _ (flush io s) _ (flush-Outcome s) kept (λ s' w.
        Outcome-then s (written s) (λ t. Complete s t × (n ≤ length t.allocation)) _ _ _
          (grown s' w.stands) (λ t. reset-Kept t (ok tt)) (λ t h. inl (reset-Flushed s t h.0, h.1)))
    where
      kept :
          (t : FileSink)
          → Kept t (
              and_then
                (if ltb (length t.allocation) n then resize io n t else (ok tt, t))
                (λ u. (ok tt, reset u)))
      kept t =
          Kept-then t _ _ (resize_if-Kept io (ltb (length t.allocation) n) n t)
            (λ u. reset-Kept u (ok tt))

      grown :
          (s' : FileSink)
          → Complete s s'
          → Outcome s
              (written s)
              (λ t. Complete s t × (n ≤ length t.allocation))
              (if ltb (length s'.allocation) n then resize io n s' else (ok tt, s'))
      grown s' h = elim (Bool-cases (ltb (length s'.allocation) n)) [
        | inl less ↦ rw less (
            Outcome-weaken s (written s) _ _ (resize io n s') (λ t k. (k.0, omega (arith, k.1)))
              (resize-Outcome s s' n h))
        | inr enough ↦ rw enough (inl (h, ground arith))
      ]

  reset-stream : (s : FileSink) → stream (reset s) ≡ content s
  unfolding stream reset content
  reset-stream s =
      let none_written : length s.allocation - length s.allocation ≡ 0 = omega arith in
      ap (λ (n : ℕ). content s ++ take n s.allocation) none_written ∙ append-nil (content s)

  copied-written :
      (src : List ℕ) (s : FileSink)
      → length src ≤ length s.allocation
      → written (copy_in io src s) ≡ src
  unfolding copy_in
  copied-written src s fits =
      let behind = drop (length src) s.allocation in
      let taken : length (src ++ behind) - (length s.allocation - length src) ≡ length src =
        omega (arith, length-append src behind, length-drop (length src) s.allocation) in
      ap (λ (n : ℕ). take n (src ++ behind)) taken ∙ take-append src behind

  -- A write that succeeds adds the bytes to the stream, or llfio ended it early: then the file has
  -- grown by some of the bytes of the buffer and the write, from their start, and not by all. If it
  -- fails, the file has grown by a part of them, from their start.
  pub do_bulk_write-OneWrite :
      (src : List ℕ) (s : FileSink)
      → OneWrite s (written s ++ src) (λ s'. stream s' ≡ stream s ++ src) (do_bulk_write io src s)
  unfolding do_bulk_write stream copy_in content reset
  do_bulk_write-OneWrite src s = elim (Bool-cases (ltb (length src) (length s.allocation / 2))) [
    | inl small ↦ rw small (
        OneWrite-then s (written s ++ src) (Wrote s (written s)) _ _ _
          (OneWrite-more s (written s) src (Wrote s (written s)) (write_file io (written s) s)
            (write_file-OneWrite (written s) s))
          (copied-Kept io src) (λ t. refl)
          (λ s' w.
            ap₂ ◌++◌ w.stands
              (copied-written src s' (let same = ap length w.allocation in ground (arith, small)))))
    | inr large ↦ rw large (
        OneWrite-then s (written s ++ src) (Wrote s (written s ++ src)) _ _ _
          (write_file-OneWrite (written s ++ src) s) (λ t. reset-Kept t (ok tt)) (λ t. refl)
          (λ s' w. reset-stream s' ∙ w.stands ∙ sym (append_assoc (content s) (written s) src)))
  ]

  -- Once the buffer is flushed, the file is complete and the buffer is empty. If it fails, the file
  -- has grown by a part of the buffer. Neither is known if a write ended early.
  pub flush_all-Outcome : (s : FileSink) → Outcome s (written s) (Flushed s) (flush_all io s)
  unfolding flush_all Outcome Complete stream reset
  flush_all-Outcome s =
      Outcome-then s (written s) (Wrote s (written s)) (Flushed s) (flush io s) _ (flush-Outcome s)
        kept
        (λ s' w.
          Outcome-then s (written s) (Complete s) (Flushed s) _ _ (resized s' w.stands)
            (λ t. reset-Kept t (ok tt)) (λ t h. inl (reset-Flushed s t h)))
    where
      kept :
          (t : FileSink)
          → Kept t (
              and_then
                (if length t.allocation == t.target_buffer_size
                  then (ok tt, t)
                  else resize io t.target_buffer_size t)
                (λ u. (ok tt, reset u)))
      kept t =
          Kept-then t _ _
            (resize_unless-Kept io (length t.allocation == t.target_buffer_size)
              t.target_buffer_size t)
            (λ u. reset-Kept u (ok tt))

      resized :
          (s' : FileSink)
          → Complete s s'
          → Outcome s (written s) (Complete s) (
              if length s'.allocation == s'.target_buffer_size
              then (ok tt, s')
              else resize io s'.target_buffer_size s')
      resized s' h = elim (Bool-cases (length s'.allocation == s'.target_buffer_size)) [
        | inl same ↦ rw same (inl h)
        | inr other ↦ rw other (
            Outcome-weaken s (written s) _ (Complete s) (resize io s'.target_buffer_size s')
              (λ t k. k.0) (resize-Outcome s s' s'.target_buffer_size h))
      ]
