-- ===== src/MpscBus/Queue/Apart.antt =====
-- Which offsets lie apart from a message: from its head at `p`, and from the `n` bytes of its payload.
use deeplog.Base.{arith, false, true, ℕ, ◌%◌, ◌+◌, ◌<◌, ◌≡◌, ◌≤◌, ◌⊎◌}
use deeplog.MpscBus.Queue.{place, next, used, Segment}

abbrev pub Apart : ℕ → ℕ → ℕ → ℕ → ℕ → Type 0
Apart e p a n i = ((i < p) ⊎ (p + 4 ≤ i)) × ((i < place e p a) ⊎ (place e p a + n ≤ i))

pub unused-Apart :
    (e p a stop n i : ℕ)
    → e % 4 ≡ 0
    → stop < e
    → n ≤ a
    → Segment e p a stop
    → used p stop i ≡ false
    → Apart e p a n i
unused-Apart e p a stop n i w h f s u = ground arith

pub next-Apart :
    (e p a stop n i : ℕ)
    → e % 4 ≡ 0
    → stop < e
    → n ≤ a
    → Segment e p a stop
    → i < e
    → used (next e p a) stop i ≡ true
    → Apart e p a n i
next-Apart e p a stop n i w h f s k u = ground arith

pub parts-Apart :
    (e p a stop n : ℕ)
    → stop < e
    → n ≤ a
    → Segment e p a stop
    → (p + 4 ≤ place e p a) ⊎ (place e p a + n ≤ p)
parts-Apart e p a stop n h f s = ground arith

-- Where the blocks of a message are when it leaves the queue.
pub left-behind :
    (e p a stop i : ℕ)
    → e % 4 ≡ 0
    → a % 4 ≡ 0
    → stop < e
    → Segment e p a stop
    → i % 4 ≡ 0
    → i < e
    → used (next e p a) stop i ≡ false
    → (used p stop i ≡ false)
      ⊎ (i ≡ p)
      ⊎ ((place e p a ≤ i) × (i + 4 ≤ place e p a + a))
      ⊎ ((e < p + 4 + a) × (p + 4 ≤ i))
left-behind e p a stop i w w' h s al k u = ground arith

-- The words that a message skips when it goes round are apart from it and used.
pub gap-Apart :
    (e p a stop n i j : ℕ)
    → stop < e
    → n ≤ a
    → Segment e p a stop
    → e < p + 4 + a
    → p + 4 ≤ i
    → i ≤ j
    → Apart e p a n j
gap-Apart e p a stop n i j h f s g k l = ground arith
