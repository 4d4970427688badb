-- ===== src/Interleaving.antt =====
-- libs/deeplog/src/dplx/dlog/detail/interleaving_stream.hpp: where the blocks of the two streams of
-- a file stand. Both functions return bytes.
pub mod Streams
use deeplog.Base.{
  ==_iff, Bool, Bool-cases, arith, false, if◌then◌else◌, inl, inr, ltb, refl, suc, true, zero, ℕ,
  ◌*◌, ◌+◌, ◌-◌, ◌<◌, ◌==◌, ◌^◌, ◌≡◌, ◌≤◌, ◌⊎◌,
}
use mathlib.Core.Path.{subst}
use native.Mathlib.Nat.{le_refl}

abbrev pub stream_page_size : ℕ
stream_page_size = 4096

unfoldable pub index_to_block_size : ℕ → ℕ
index_to_block_size idx = (if ltb idx 5 then 2 ^ idx else 2 ^ 4) * stream_page_size

pub index_to_block_offset : ℕ → Bool → ℕ
index_to_block_offset idx odd =
    let uodd = if odd then 1 else 0 in
    (if ltb idx 5 then (2 + uodd) * 2 ^ idx else 2 * 2 ^ 4 * (idx - 3) + uodd * 2 ^ 4)
    * stream_page_size

pub index_to_file_size : ℕ → ℕ
index_to_file_size idx = index_to_block_offset (idx + 1) false

-- The blocks follow one another without a gap, the even one of an index first.
adjacent :
    (idx : ℕ)
    → (index_to_block_offset idx true ≡ index_to_block_offset idx false + index_to_block_size idx)
      × (index_to_file_size idx ≡ index_to_block_offset idx true + index_to_block_size idx)
unfolding index_to_block_offset index_to_block_size index_to_file_size
adjacent zero = (refl, refl)
adjacent (suc zero) = (refl, refl)
adjacent (suc (suc zero)) = (refl, refl)
adjacent (suc (suc (suc zero))) = (refl, refl)
adjacent (suc (suc (suc (suc zero)))) = (refl, refl)
adjacent (suc (suc (suc (suc (suc n))))) = (ground arith, ground arith)

grows : (i : ℕ) → index_to_block_offset i false ≤ index_to_block_offset (suc i) false
unfolding index_to_file_size
grows i =
    let next : i + 1 ≡ suc i = omega arith in
    subst (λ (n : ℕ). index_to_block_offset i false ≤ index_to_block_offset n false) next
      (omega (arith, adjacent i))

grows_to : (i j : ℕ) → i ≤ j → index_to_block_offset i false ≤ index_to_block_offset j false
grows_to i j h = elim (Bool-cases (i == j)) [
  | inl same ↦ rw ((==_iff i j).0 same) (le_refl _)
  | inr apart ↦ below j h apart
]
  where
    below :
        (j : ℕ)
        → i ≤ j
        → i == j ≡ false
        → index_to_block_offset i false ≤ index_to_block_offset j false
    below zero h apart = absurd (ground arith)
    below (suc j) h apart = elim (Bool-cases (i == j)) [
      | inl same ↦ rw ((==_iff i j).0 same) (grows j)
      | inr more ↦ omega (arith, below j (ground arith) more, grows j)
    ]

even_first : (j : ℕ) (odd : Bool) → index_to_block_offset j false ≤ index_to_block_offset j odd
even_first j false = le_refl _
even_first j true = omega (arith, adjacent j)

ends_before :
    (i : ℕ) (odd : Bool)
    → index_to_block_offset i odd + index_to_block_size i ≤ index_to_file_size i
ends_before i false = omega (arith, adjacent i)
ends_before i true = omega (arith, adjacent i)

-- No two blocks of a file overlap: the blocks of an index end before those of a greater one begin,
-- and the even block of an index ends where its odd one begins.
pub blocks_apart :
    (i j : ℕ) (odd odd' : Bool)
    → (i < j) ⊎ ((i ≡ j) × (odd ≡ false) × (odd' ≡ true))
    → index_to_block_offset i odd + index_to_block_size i ≤ index_to_block_offset j odd'
unfolding index_to_file_size
blocks_apart i j odd odd' (inl h) =
    omega (arith, ends_before i odd, grows_to (i + 1) j (omega arith), even_first j odd')
blocks_apart i j odd odd' (inr (same, even, other)) =
    rw (even, other, same) (omega (arith, adjacent j))
