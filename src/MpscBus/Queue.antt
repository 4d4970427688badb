-- ===== src/MpscBus/Queue.antt =====
-- What a region of the bus (bus/mpsc_bus.hpp) means: a queue of messages between its two hands.
pub mod Frame
pub mod Apart
pub mod Freed
pub mod Extend
use deeplog.Base.{
  Bool, List, [], arith, false, if◌then◌else◌, leb, length, ltb, ℕ, ◌%◌, ◌&&◌, ◌+◌, ◌<◌, ◌==◌, ◌^◌,
  ◌||◌, ◌∷◌, ◌≡◌, ◌≢◌, ◌≤◌,
}
use deeplog.SharedMemory.{Memory, load32, read_bytes}
use deeplog.MpscBus.{Region, message_lock_flag, max_message_size, block_size}

-- What the bus relies on of `cncr::round_up_p2`, which rounds a 32-bit number up to a power of two.
pub record RoundsUp (round_up_p2 : ℕ → ℕ → ℕ) : Type 0 where
  pub aligned : (k x : ℕ) → x + 2 ^ k ≤ 2 ^ 32 → round_up_p2 x (2 ^ k) % 2 ^ k ≡ 0
  pub above : (k x : ℕ) → x + 2 ^ k ≤ 2 ^ 32 → x ≤ round_up_p2 x (2 ^ k)
  pub close : (k x : ℕ) → x + 2 ^ k ≤ 2 ^ 32 → round_up_p2 x (2 ^ k) < x + 2 ^ k

pub round_up_block :
    {round_up_p2 : ℕ → ℕ → ℕ} (n : ℕ)
    → RoundsUp round_up_p2
    → n ≤ max_message_size
    → (round_up_p2 n 4 % 4 ≡ 0) × (n ≤ round_up_p2 n 4) × (round_up_p2 n 4 < n + 4)
round_up_block n law h =
    (law.aligned 2 n (omega arith), law.above 2 n (omega arith), law.close 2 n (omega arith))

-- A block area in which no offset of a message overflows.
pub record IsArea (e : ℕ) : Type 0 where
  pub whole_blocks : e % 4 ≡ 0
  pub not_empty : 0 < e
  pub no_overflow : e + max_message_size + 8 < 2 ^ 32

-- A message between the hands: granted, its head not yet written; still written by its producer; or
-- released with its bytes.
pub data Entry : Type 0 where
  granted pending : ℕ → Entry
  ready : List ℕ → Entry

abbrev pub size : Entry → ℕ
size (granted n) = n
size (pending n) = n
size (ready bytes) = length bytes

-- Where the payload of a message stands whose head is at `p`, and where the next head does.
abbrev pub place : ℕ → ℕ → ℕ → ℕ
place e p a = if ltb e (p + 4 + a) then 0 else p + 4

abbrev pub next : ℕ → ℕ → ℕ → ℕ
next e p a = if ltb e (p + 4 + a) then a else if p + 4 + a == e then 0 else p + 4 + a

-- The offsets from `p` up to `stop`, going round at the end.
abbrev pub used : ℕ → ℕ → ℕ → Bool
used p stop i = if leb p stop then leb p i && ltb i stop else leb p i || ltb i stop

-- A message of `a` payload bytes with its head at `p` stays short of `stop`.
pub record Segment (e p a stop : ℕ) : Type 0 where
  pub head_aligned : p % 4 ≡ 0
  pub head_in : p < e
  pub apart : p ≢ stop
  pub below : p < stop → p + 4 + a ≤ stop
  pub around : stop < p → e < p + 4 + a → a ≤ stop

module _ (round_up_p2 : ℕ → ℕ → ℕ) (e : ℕ) where
  abbrev pub IsEntry : Memory → ℕ → Entry → Type 0
  IsEntry m p (granted n) = message_lock_flag ≤ load32 m p
  IsEntry m p (pending n) = load32 m p ≡ n + message_lock_flag
  IsEntry m p (ready bytes) =
      (load32 m p ≡ length bytes)
      × (read_bytes m (place e p (round_up_p2 (length bytes) 4)) (length bytes) ≡ bytes)

  -- A message that goes round leaves the words behind its head locked.
  abbrev pub IsGap : Memory → ℕ → ℕ → Type 0
  IsGap m p a =
      (i : ℕ) → i % 4 ≡ 0 → e < p + 4 + a → p + 4 ≤ i → i < e → message_lock_flag ≤ load32 m i

  abbrev pub Chain : Memory → ℕ → List Entry → ℕ → Type 0
  Chain m p [] stop = p ≡ stop
  Chain m p (x ∷ xs) stop =
      (size x ≤ max_message_size)
      × Segment e p (round_up_p2 (size x) 4) stop
      × IsEntry m p x
      × IsGap m p (round_up_p2 (size x) 4)
      × Chain m (next e p (round_up_p2 (size x) 4)) xs stop

  -- The head that follows the messages `xs`, the first of which has its head at `p`.
  abbrev pub walk : ℕ → List Entry → ℕ
  walk p [] = p
  walk p (x ∷ xs) = walk (next e p (round_up_p2 (size x) 4)) xs

  -- The region holds the messages `xs`, oldest first: they follow one another from the read hand
  -- to the allocation hand, and every word outside of them reads as a locked head.
  pub record IsQueue (m : Memory) (read_hand alloc_hand : ℕ) (xs : List Entry) : Type 0 where
    pub chain : Chain m read_hand xs alloc_hand
    pub read_aligned : read_hand % 4 ≡ 0
    pub read_in : read_hand < e
    pub alloc_aligned : alloc_hand % 4 ≡ 0
    pub alloc_in : alloc_hand < e
    pub free_locked :
        (i : ℕ)
        → i % 4 ≡ 0
        → i < e
        → used read_hand alloc_hand i ≡ false
        → message_lock_flag ≤ load32 m i
    pub bytes : (i : ℕ) → m i < 2 ^ 8
