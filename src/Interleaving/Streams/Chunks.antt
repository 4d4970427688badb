-- ===== src/Interleaving/Streams/Chunks.antt =====
-- detail/interleaving_stream.hpp: a chunk that was written is read back, whatever is written to the
-- other blocks.
use deeplog.Base.{
  Bool, Bool-cases, List, Result, [], ap, arith, err, false, inl, inr, leb, length, ltb, not, ok,
  refl, some, suc, sym, take, true, zero, ℕ, ◌+◌, ◌<◌, ◌==◌, ◌∙◌, ◌∷◌, ◌≡◌, ◌≢◌, ◌≤◌, ◌⊎◌,
}
use deeplog.Errc.{Errc}
use deeplog.Interleaving.{index_to_block_size, index_to_block_offset, blocks_apart}
use deeplog.Interleaving.Streams.{read_span, first, zeros, Io, max_block_size, complete, read_chunk}

-- A file is read and written by position: a write may end early, the bytes that it says it wrote are
-- read back, and what could be read in full elsewhere stays, whether the write succeeds or not.
pub record Positional {File : Type 0} (io : Io File) : Type 0 where
  pub same :
      (p count : ℕ) (bytes : List ℕ) (f f' : File)
      → io.write p bytes f ≡ (ok count, f')
      → io.xread p count f' ≡ ok (take count bytes)
  pub count :
      (p count : ℕ) (bytes : List ℕ) (f f' : File)
      → io.write p bytes f ≡ (ok count, f')
      → count ≤ length bytes
  pub other :
      (p q n : ℕ) (bytes c : List ℕ) (f : File)
      → (q + n ≤ p) ⊎ (p + length bytes ≤ q)
      → io.xread q n f ≡ ok c
      → length c ≡ n
      → io.xread q n (io.write p bytes f).1 ≡ ok c

-- Another block than that of the index `i` of the stream `sel`.
pub Other : ℕ → Bool → ℕ → Bool → Type 0
Other i sel j odd = (i ≢ j) ⊎ (odd ≡ not sel)

Apart : ℕ → Bool → ℕ → Bool → Type 0
Apart i sel j odd =
    (index_to_block_offset j odd + index_to_block_size j ≤ index_to_block_offset i sel)
    ⊎ (index_to_block_offset i sel + index_to_block_size i ≤ index_to_block_offset j odd)

apart : (i : ℕ) (sel : Bool) (j : ℕ) (odd : Bool) → Other i sel j odd → Apart i sel j odd
unfolding Other Apart
apart i sel j odd h = elim (Bool-cases (ltb i j)) [
  | inl before ↦ inr (blocks_apart i j sel odd (inl (ground arith)))
  | inr not_before ↦ elim (Bool-cases (ltb j i)) [
    | inl behind ↦ inl (blocks_apart j i odd sel (inl (ground arith)))
    | inr not_behind ↦ twin sel odd h (ground arith)
  ]
]
  where
    twin : (sel odd : Bool) → Other i sel j odd → i ≡ j → Apart i sel j odd
    twin sel odd (inl differ) same = absurd (differ same)
    twin false true (inr k) same = inr (blocks_apart i j false true (inr (same, refl, refl)))
    twin true false (inr k) same = inl (blocks_apart j i false true (inr (sym same, refl, refl)))
    twin false false (inr k) same = absurd (ground (arith, k))
    twin true true (inr k) same = absurd (ground (arith, k))

pub size-max : (i : ℕ) → index_to_block_size i ≤ max_block_size
unfolding index_to_block_size max_block_size
size-max zero = omega arith
size-max (suc zero) = omega arith
size-max (suc (suc zero)) = omega arith
size-max (suc (suc (suc zero))) = omega arith
size-max (suc (suc (suc (suc zero)))) = omega arith
size-max (suc (suc (suc (suc (suc n))))) = ground arith

pub positive : 0 < max_block_size
unfolding max_block_size index_to_block_size
positive = omega arith

pub take-length : (xs : List ℕ) → take (length xs) xs ≡ xs
take-length [] = refl
take-length (x ∷ xs) = ap (λ ys. x ∷ ys) (take-length xs)

length-take_le : (n : ℕ) (xs : List ℕ) → n ≤ length xs → length (take n xs) ≡ n
length-take_le zero xs h = refl
length-take_le (suc n) [] h = absurd (omega arith)
length-take_le (suc n) (x ∷ xs) h = omega (arith, length-take_le n xs (omega arith))

pub length-zeros : (n : ℕ) → length (zeros n) ≡ n
unfolding zeros
length-zeros zero = refl
length-zeros (suc n) = omega (arith, length-zeros n)

pub first-block :
    (i : ℕ) (pages : List ℕ)
    → length pages ≡ max_block_size
    → first (index_to_block_size i) pages ≡ some (take (index_to_block_size i) pages)
unfolding first
first-block i pages h =
    let fits : leb (index_to_block_size i) (length pages) ≡ true =
      let small = size-max i in ground arith in
    rw fits refl

pub length-block :
    (i : ℕ) (pages : List ℕ)
    → length pages ≡ max_block_size
    → length (take (index_to_block_size i) pages) ≡ index_to_block_size i
length-block i pages h = length-take_le _ pages (omega (arith, size-max i, h))

module _ {File : Type 0} (io : Io File) (law : Positional io) (pages : List ℕ)
    (paged : length pages ≡ max_block_size) where
  read_chunk-complete :
      (f : File) (j : ℕ) (odd : Bool)
      → read_chunk io pages f j odd
        ≡ some (
            complete io
              (index_to_block_size j)
              (io.xread (index_to_block_offset j odd) (index_to_block_size j) f))
  unfolding read_chunk read_span
  read_chunk-complete f j odd = rw (first-block j pages paged, length-block j pages paged) refl

  complete-ok :
      (n : ℕ) (r : Result Errc (List ℕ)) (c : List ℕ)
      → r ≡ ok c
      → length c ≡ n
      → complete io n r ≡ ok c
  unfolding complete
  complete-ok n r c h k = rw h (ground (arith, k))

  ok-complete :
      (n : ℕ) (r : Result Errc (List ℕ)) (c : List ℕ)
      → some (complete io n r) ≡ some (ok c)
      → (r ≡ ok c) × (length c ≡ n)
  unfolding complete
  ok-complete n (err e) c h = absurd (ground (arith, h))
  ok-complete n (ok b) c h = elim (Bool-cases (length b == n)) [
    | inl full ↦ ground (arith, h, full)
    | inr part ↦ ground (arith, h, part)
  ]

  pub kept-chunk :
      (i : ℕ) (sel : Bool) (bytes : List ℕ) (f : File) (j : ℕ) (odd : Bool) (c : List ℕ)
      → length bytes ≡ index_to_block_size i
      → Other i sel j odd
      → read_chunk io pages f j odd ≡ some (ok c)
      → read_chunk io pages (io.write (index_to_block_offset i sel) bytes f).1 j odd ≡ some (ok c)
  unfolding Apart
  kept-chunk i sel bytes f j odd c sized h k =
      let before = ok-complete _ _ c (sym (read_chunk-complete f j odd) ∙ k) in
      let disjoint : (index_to_block_offset j odd + index_to_block_size j
            ≤ index_to_block_offset i sel)
          ⊎ (index_to_block_offset i sel + length bytes ≤ index_to_block_offset j odd) =
        rw sized (apart i sel j odd h) in
      read_chunk-complete _ j odd
      ∙ ap some (complete-ok _ _ c (law.other _ _ _ bytes c f disjoint before.0 before.1) before.1)

  pub written-chunk :
      (i : ℕ) (sel : Bool) (bytes : List ℕ) (f f' : File)
      → length bytes ≡ index_to_block_size i
      → io.write (index_to_block_offset i sel) bytes f ≡ (ok (length bytes), f')
      → read_chunk io pages f' i sel ≡ some (ok bytes)
  written-chunk i sel bytes f f' sized h =
      read_chunk-complete f' i sel
      ∙ ap some (
          complete-ok _ _ bytes
            (ap (λ (n : ℕ). io.xread (index_to_block_offset i sel) n f') (sym sized)
              ∙ law.same _ (length bytes) bytes f f' h
              ∙ ap ok (take-length bytes))
            sized)
