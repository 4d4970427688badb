-- ===== src/SharedMemory/Laws.antt =====
-- Loads after stores, and what a store leaves alone.
use deeplog.Base.{
  List, [], ap, ap₂, arith, length, refl, suc, zero, ℕ, ◌*◌, ◌++◌, ◌+◌, ◌<◌, ◌^◌, ◌∙◌, ◌∷◌, ◌≡◌,
  ◌≤◌, ◌⊎◌,
}
use deeplog.SharedMemory.{Memory, load32, store32, fill, read_bytes, write_bytes}

abbrev pub IsBytes : Memory → Type 0
IsBytes m = (i : ℕ) → m i < 2 ^ 8

pub load32-store32_self : (m : Memory) (p v : ℕ) → v < 2 ^ 32 → load32 (store32 m p v) p ≡ v
unfolding load32 store32
load32-store32_self m p v h = ground arith

-- A store changes only its four bytes.
pub store32-other : (m : Memory) (p v i : ℕ) → (i < p) ⊎ (p + 4 ≤ i) → store32 m p v i ≡ m i
unfolding store32
store32-other m p v i h = ground arith

pub store32-IsBytes : (m : Memory) (p v : ℕ) → IsBytes m → IsBytes (store32 m p v)
unfolding store32
store32-IsBytes m p v h i = ground (arith, h i)

pub load32-lt : (m : Memory) (p : ℕ) → IsBytes m → load32 m p < 2 ^ 32
unfolding load32
load32-lt m p h = omega (arith, h p, h (p + 1), h (p + 2), h (p + 3))

pub fill-inside : (m : Memory) (p n v i : ℕ) → p ≤ i → i < p + n → fill m p n v i ≡ v
unfolding fill
fill-inside m p n v i h k = ground arith

pub fill-other : (m : Memory) (p n v i : ℕ) → (i < p) ⊎ (p + n ≤ i) → fill m p n v i ≡ m i
unfolding fill
fill-other m p n v i h = ground arith

pub fill-IsBytes : (m : Memory) (p n v : ℕ) → v < 2 ^ 8 → IsBytes m → IsBytes (fill m p n v)
unfolding fill
fill-IsBytes m p n v h b i = ground (arith, b i)

-- Equal bytes give equal words and equal spans.
pub load32_cong :
    (m m' : Memory) (p : ℕ) → ((i : ℕ) → p ≤ i → i < p + 4 → m' i ≡ m i) → load32 m' p ≡ load32 m p
unfolding load32
load32_cong m m' p h = ground (
  arith,
  h p (omega arith) (omega arith),
  h (p + 1) (omega arith) (omega arith),
  h (p + 2) (omega arith) (omega arith),
  h (p + 3) (omega arith) (omega arith),
)

pub read_bytes_cong :
    (m m' : Memory) (p n : ℕ)
    → ((i : ℕ) → p ≤ i → i < p + n → m' i ≡ m i)
    → read_bytes m' p n ≡ read_bytes m p n
unfolding read_bytes
read_bytes_cong m m' p zero h = refl
read_bytes_cong m m' p (suc n) h =
    ap₂ ◌∷◌ (h p (omega arith) (omega arith))
      (read_bytes_cong m m' (p + 1) n (λ i a b. h i (omega arith) (omega arith)))

pub write_bytes-other :
    (m : Memory) (p : ℕ) (bs : List ℕ) (i : ℕ)
    → (i < p) ⊎ (p + length bs ≤ i)
    → write_bytes m p bs i ≡ m i
unfolding write_bytes
write_bytes-other m p [] i h = refl
write_bytes-other m p (b ∷ bs) i h = ground (arith, write_bytes-other m (p + 1) bs i)

-- Reading a span back gives the bytes written to it.
pub read_bytes-write_bytes :
    (m : Memory) (p : ℕ) (bs : List ℕ) → read_bytes (write_bytes m p bs) p (length bs) ≡ bs
unfolding read_bytes write_bytes
read_bytes-write_bytes m p [] = refl
read_bytes-write_bytes m p (b ∷ bs) = ap₂ ◌∷◌ (ground arith) (
    read_bytes_cong (write_bytes m (p + 1) bs) _ (p + 1) (length bs) (λ i h k. ground arith)
    ∙ read_bytes-write_bytes m (p + 1) bs)

abbrev pub AllBytes : List ℕ → Type 0
AllBytes [] = Unit {0}
AllBytes (b ∷ bs) = (b < 2 ^ 8) × AllBytes bs

pub write_bytes-IsBytes :
    (m : Memory) (p : ℕ) (bs : List ℕ) → AllBytes bs → IsBytes m → IsBytes (write_bytes m p bs)
unfolding write_bytes
write_bytes-IsBytes m p [] all b i = b i
write_bytes-IsBytes m p (x ∷ bs) all b i =
    ground (arith, all.0, write_bytes-IsBytes m (p + 1) bs all.1 b i)

-- A word inside of a filled span.
pub load32-fill :
    (m : Memory) (p n v i : ℕ)
    → p ≤ i
    → i + 4 ≤ p + n
    → load32 (fill m p n v) i ≡ v + v * 2 ^ 8 + v * 2 ^ 16 + v * 2 ^ 24
unfolding load32
load32-fill m p n v i h k = omega (
  arith,
  fill-inside m p n v i (omega arith) (omega arith),
  fill-inside m p n v (i + 1) (omega arith) (omega arith),
  fill-inside m p n v (i + 2) (omega arith) (omega arith),
  fill-inside m p n v (i + 3) (omega arith) (omega arith),
)

pub load32_const :
    (m : Memory) (v i : ℕ)
    → ((j : ℕ) → m j ≡ v)
    → load32 m i ≡ v + v * 2 ^ 8 + v * 2 ^ 16 + v * 2 ^ 24
unfolding load32
load32_const m v i h = rw (h i, h (i + 1), h (i + 2), h (i + 3))

pub read_bytes-length : (m : Memory) (p n : ℕ) → length (read_bytes m p n) ≡ n
unfolding read_bytes
read_bytes-length m p zero = refl
read_bytes-length m p (suc n) = omega (arith, read_bytes-length m (p + 1) n)

pub read_bytes-add :
    (m : Memory) (p a b : ℕ) → read_bytes m p (a + b) ≡ read_bytes m p a ++ read_bytes m (p + a) b
unfolding read_bytes
read_bytes-add m p zero b =
    let none_more : 0 + b ≡ b = omega arith in
    let here : p ≡ p + 0 = omega arith in ap₂ (λ (q n : ℕ). read_bytes m q n) here none_more
read_bytes-add m p (suc a) b =
    let one_more : suc a + b ≡ suc (a + b) = omega arith in
    let behind : p + 1 + a ≡ p + suc a = omega arith in
    ap (λ (n : ℕ). read_bytes m p n) one_more
    ∙ ap (λ bytes. m p ∷ bytes)
        (read_bytes-add m (p + 1) a b
          ∙ ap (λ (q : ℕ). read_bytes m (p + 1) a ++ read_bytes m q b) behind)
