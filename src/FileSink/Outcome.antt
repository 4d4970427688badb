-- ===== src/FileSink/Outcome.antt =====
-- sinks/file_sink.cpp: the bytes handed to a sink as one stream, and what a call may do to it.
use deeplog.Base.{
  List, Option, Result, [], ap, arith, err, inl, inr, length, length-append, none, ok, some, take,
  true, ℕ, ◌++◌, ◌-◌, ◌<◌, ◌∙◌, ◌≡◌, ◌⊎◌,
}
use deeplog.FileSink.Kept.{Kept}
use mathlib.Core.List.{append-nil, append_assoc}
use deeplog.Errc.{Errc}
use deeplog.SinkFrontend.{and_then}
use deeplog.FileSink.{FileSink, Io, written}

-- What a write leaves in a file: a part of the bytes from their start, of the length that it says if
-- it succeeds.
unfoldable pub Grown : List ℕ → List ℕ → Result Errc ℕ × List ℕ → Type 0
Grown content bytes (ok count, after) =
    (start : List ℕ) × (rest : List ℕ) × (after ≡ content ++ start)
    × (bytes ≡ start ++ rest)
    × (length start ≡ count)
Grown content bytes (err e, after) =
    (start : List ℕ) × (rest : List ℕ) × (after ≡ content ++ start) × (bytes ≡ start ++ rest)

-- The calls outside: files are appended to, the size of a file is that of its content, and an
-- allocation has the size that was asked for.
pub record Appends (io : Io) : Type 0 where
  pub append : (content bytes : List ℕ) → Grown content bytes (io.append content bytes)
  pub maximum_extent :
      (content : List ℕ) (n : ℕ) → io.maximum_extent content ≡ ok n → n ≡ length content
  pub allocate : (n : ℕ) (bytes : List ℕ) → io.allocate n ≡ ok bytes → length bytes ≡ n

-- The bytes in the file, and those that were handed to the sink.
unfoldable pub bytes_of : Option (List ℕ) → List ℕ
bytes_of none = []
bytes_of (some bytes) = bytes

unfoldable pub content : FileSink → List ℕ
content s = bytes_of s.file

unfoldable pub stream : FileSink → List ℕ
stream s = content s ++ written s

-- The file grew by a part of the bytes.
unfoldable pub Partial : FileSink → List ℕ → FileSink → Type 0
Partial s bytes s' =
    (start : List ℕ) × (rest : List ℕ) × (content s' ≡ content s ++ start) × (bytes ≡ start ++ rest)

-- What is known of the state after a success; after a failure the file grew by a part of the bytes.
-- Neither is known once a write ended early.
unfoldable pub Outcome :
    FileSink → List ℕ → (FileSink → Type 0) → Result Errc (Unit {0}) × FileSink → Type 0
Outcome s bytes P (ok _, s') = P s' ⊎ s'.short ≡ true
Outcome s bytes P (err e, s') = Partial s bytes s' ⊎ s'.short ≡ true

-- llfio ended the write of these bytes early: the file grew by their start, but not by all of them.
pub record Early (s : FileSink) (bytes : List ℕ) (s' : FileSink) : Type 0 where
  pub start : List ℕ
  pub rest : List ℕ
  pub grown : content s' ≡ content s ++ start
  pub parts : bytes ≡ start ++ rest
  pub some_left : 0 < length rest
  pub recorded : s'.short ≡ true

-- What is known after a single write, and after calls that write nothing.
unfoldable pub OneWrite :
    FileSink → List ℕ → (FileSink → Type 0) → Result Errc (Unit {0}) × FileSink → Type 0
OneWrite s bytes P (ok _, s') = P s' ⊎ Early s bytes s'
OneWrite s bytes P (err e, s') = Partial s bytes s'

pub OneWrite-Outcome :
    (s : FileSink) (bytes : List ℕ) (P : FileSink → Type 0) (r : Result Errc (Unit {0}) × FileSink)
    → OneWrite s bytes P r
    → Outcome s bytes P r
unfolding OneWrite Outcome
OneWrite-Outcome s bytes P (ok _, s') (inl h) = inl h
OneWrite-Outcome s bytes P (ok _, s') (inr early) = inr early.recorded
OneWrite-Outcome s bytes P (err e, s') h = inl h

pub OneWrite-more :
    (s : FileSink) (bytes more : List ℕ) (P : FileSink → Type 0)
    (r : Result Errc (Unit {0}) × FileSink)
    → OneWrite s bytes P r
    → OneWrite s (bytes ++ more) P r
unfolding OneWrite Partial
OneWrite-more s bytes more P (ok _, s') (inl h) = inl h
OneWrite-more s bytes more P (ok _, s') (inr early) = inr (record {
  start = early.start;
  rest = early.rest ++ more;
  grown = early.grown;
  parts = rw early.parts (append_assoc early.start early.rest more);
  some_left = omega (arith, length-append early.rest more, early.some_left);
  recorded = early.recorded;
})
OneWrite-more s bytes more P (err e, s') (start, rest, same, parts) =
    (start, rest ++ more, same, rw parts (append_assoc start rest more))

pub OneWrite-then :
    (s : FileSink) (bytes : List ℕ) (P Q : FileSink → Type 0)
    (r : Result Errc (Unit {0}) × FileSink) (next : FileSink → FileSink)
    → OneWrite s bytes P r
    → ((s' : FileSink) → Kept s' (ok tt, next s'))
    → ((s' : FileSink) → content (next s') ≡ content s')
    → ((s' : FileSink) → P s' → Q (next s'))
    → OneWrite s bytes Q (and_then r (λ s'. (ok tt, next s')))
unfolding OneWrite and_then
OneWrite-then s bytes P Q (ok _, s') next (inl h) kept same k = inl (k s' h)
OneWrite-then s bytes P Q (ok _, s') next (inr early) kept same k = inr (record {
  start = early.start;
  rest = early.rest;
  grown = same s' ∙ early.grown;
  parts = early.parts;
  some_left = early.some_left;
  recorded = (kept s').short early.recorded;
})
OneWrite-then s bytes P Q (err e, s') next h kept same k = h

-- The file is complete and the buffer is empty.
pub record Flushed (s s' : FileSink) : Type 0 where
  pub complete : content s' ≡ stream s
  pub buffered : s'.room ≡ length s'.allocation

pub Flushed-stream : {s s' : FileSink} → Flushed s s' → stream s' ≡ stream s
unfolding stream
Flushed-stream {s} {s'} h =
    let none_written : length s'.allocation - s'.room ≡ 0 = omega (arith, h.buffered) in
    ap (λ (n : ℕ). content s' ++ take n s'.allocation) none_written
    ∙ append-nil (content s')
    ∙ h.complete

pub Outcome-early :
    (s t : FileSink) (bytes : List ℕ) (P : FileSink → Type 0)
    (r : Result Errc (Unit {0}) × FileSink)
    → t.short ≡ true
    → Kept t r
    → Outcome s bytes P r
unfolding Outcome
Outcome-early s t bytes P (ok _, s') h k = inr (k.short h)
Outcome-early s t bytes P (err e, s') h k = inr (k.short h)

pub Outcome-then :
    (s : FileSink) (bytes : List ℕ) (P Q : FileSink → Type 0)
    (r : Result Errc (Unit {0}) × FileSink) (next : FileSink → Result Errc (Unit {0}) × FileSink)
    → Outcome s bytes P r
    → ((s' : FileSink) → Kept s' (next s'))
    → ((s' : FileSink) → P s' → Outcome s bytes Q (next s'))
    → Outcome s bytes Q (and_then r next)
unfolding Outcome and_then
Outcome-then s bytes P Q (ok _, s') next (inl h) kept k = k s' h
Outcome-then s bytes P Q (ok _, s') next (inr early) kept k =
    Outcome-early s s' bytes Q (next s') early (kept s')
Outcome-then s bytes P Q (err e, s') next h kept k = h

pub Outcome-weaken :
    (s : FileSink) (bytes : List ℕ) (P Q : FileSink → Type 0)
    (r : Result Errc (Unit {0}) × FileSink)
    → ((t : FileSink) → P t → Q t)
    → Outcome s bytes P r
    → Outcome s bytes Q r
unfolding Outcome
Outcome-weaken s bytes P Q (ok _, s') f (inl h) = inl (f s' h)
Outcome-weaken s bytes P Q (ok _, s') f (inr early) = inr early
Outcome-weaken s bytes P Q (err e, s') f h = h
