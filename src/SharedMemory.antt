-- ===== src/SharedMemory.antt =====
-- The memory that the processes of a bus share (the mapping that bus/mpsc_bus.hpp reads and writes
-- through `atomic_ref`, `memset` and `std::byte` pointers): one byte at each offset of a region's
-- block area. A `std::uint32_t` is four bytes, the lowest first.
pub mod Laws
use deeplog.Base.{
  ℕ, zero, suc, ◌+◌, ◌*◌, ◌/◌, ◌%◌, ◌^◌, ◌&&◌, ◌==◌, List, [], ◌∷◌, leb, ltb, if◌then◌else◌, length,
}

abbrev pub Memory : Type 0
Memory = ℕ → ℕ

unfoldable pub load32 : Memory → ℕ → ℕ
load32 m p = m p + m (p + 1) * 2 ^ 8 + m (p + 2) * 2 ^ 16 + m (p + 3) * 2 ^ 24

unfoldable pub store32 : Memory → ℕ → ℕ → Memory
store32 m p v i =
    if i == p
    then v % 2 ^ 8
    else if i == p + 1
    then v / 2 ^ 8 % 2 ^ 8
    else if i == p + 2
    then v / 2 ^ 16 % 2 ^ 8
    else if i == p + 3
    then v / 2 ^ 24 % 2 ^ 8
    else m i

-- `memset(m + p, v, n)`
pub fill : Memory → ℕ → ℕ → ℕ → Memory
fill m p n v i = if leb p i && ltb i (p + n) then v else m i

-- The bytes of a span.
unfoldable pub read_bytes : Memory → ℕ → ℕ → List ℕ
read_bytes m p zero = []
read_bytes m p (suc n) = m p ∷ read_bytes m (p + 1) n

unfoldable pub write_bytes : Memory → ℕ → List ℕ → Memory
write_bytes m p [] i = m i
write_bytes m p (b ∷ bs) i = if i == p then b else write_bytes m (p + 1) bs i
