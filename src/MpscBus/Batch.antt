-- ===== src/MpscBus/Batch.antt =====
-- bus/mpsc_bus.hpp, the consumer: one batch of `read_region`, the released messages at the front of
-- a queue.
use deeplog.Base.{
  List, [], ap, ap₂, arith, if◌then◌else◌, length, ltb, refl, suc, sym, u32, zero, ℕ, ◌%◌, ◌++◌,
  ◌+◌, ◌-◌, ◌<◌, ◌==◌, ◌^◌, ◌∷◌, ◌≡◌, ◌≤◌,
}
use deeplog.SharedMemory.{Memory, load32}
use deeplog.MpscBus.{Info, max_message_size, message_lock_flag, clear, messages, collect}
use deeplog.MpscBus.Queue.{
  RoundsUp, round_up_block, IsArea, place, Entry, granted, pending, ready, next, Segment, Chain,
  IsQueue,
}
use deeplog.MpscBus.Queue.Freed.{freed, freed-IsQueue}

-- The released messages at the front, at most `room` of them, and what stays behind them.
unfoldable pub front : ℕ → List Entry → List (List ℕ)
front zero xs = []
front (suc room) [] = []
front (suc room) (granted n ∷ xs) = []
front (suc room) (pending n ∷ xs) = []
front (suc room) (ready bytes ∷ xs) = bytes ∷ front room xs

unfoldable pub behind : ℕ → List Entry → List Entry
behind zero xs = xs
behind (suc room) [] = []
behind (suc room) (granted n ∷ xs) = granted n ∷ xs
behind (suc room) (pending n ∷ xs) = pending n ∷ xs
behind (suc room) (ready bytes ∷ xs) = behind room xs

-- All released messages at the front, and what stays behind them: the first message that its
-- producer still writes, and all after it.
unfoldable pub released : List Entry → List (List ℕ)
released [] = []
released (granted n ∷ xs) = []
released (pending n ∷ xs) = []
released (ready bytes ∷ xs) = bytes ∷ released xs

unfoldable pub unreleased : List Entry → List Entry
unreleased [] = []
unreleased (granted n ∷ xs) = granted n ∷ xs
unreleased (pending n ∷ xs) = pending n ∷ xs
unreleased (ready bytes ∷ xs) = unreleased xs

pub released-front :
    (room : ℕ) (xs : List Entry) → released xs ≡ front room xs ++ released (behind room xs)
unfolding released front behind
released-front zero xs = refl
released-front (suc room) [] = refl
released-front (suc room) (granted n ∷ xs) = refl
released-front (suc room) (pending n ∷ xs) = refl
released-front (suc room) (ready bytes ∷ xs) = ap (◌∷◌ bytes) (released-front room xs)

pub unreleased-behind : (room : ℕ) (xs : List Entry) → unreleased xs ≡ unreleased (behind room xs)
unfolding unreleased behind
unreleased-behind zero xs = refl
unreleased-behind (suc room) [] = refl
unreleased-behind (suc room) (granted n ∷ xs) = refl
unreleased-behind (suc room) (pending n ∷ xs) = refl
unreleased-behind (suc room) (ready bytes ∷ xs) = unreleased-behind room xs

module _ (round_up_p2 : ℕ → ℕ → ℕ) (e : ℕ) where
  -- The messages of a batch whose first has its head at `p`, and the head that follows them.
  unfoldable pub infos : ℕ → ℕ → List Entry → List Info
  infos zero p xs = []
  infos (suc room) p [] = []
  infos (suc room) p (granted n ∷ xs) = []
  infos (suc room) p (pending n ∷ xs) = []
  infos (suc room) p (ready bytes ∷ xs) =
      record {
        head = p;
        content = place e p (round_up_p2 (length bytes) 4);
        content_size = round_up_p2 (length bytes) 4;
        msg_size = length bytes;
      }
      ∷ infos room (next e p (round_up_p2 (length bytes) 4)) xs

  unfoldable pub reach : ℕ → ℕ → List Entry → ℕ
  reach zero p xs = p
  reach (suc room) p [] = p
  reach (suc room) p (granted n ∷ xs) = p
  reach (suc room) p (pending n ∷ xs) = p
  reach (suc room) p (ready bytes ∷ xs) = reach room (next e p (round_up_p2 (length bytes) 4)) xs

-- The reader places a message where the producer did.
pub same_place :
    (e p n a stop : ℕ)
    → IsArea e
    → stop < e
    → n ≤ max_message_size
    → (a % 4 ≡ 0) × (n ≤ a) × (a < n + 4)
    → Segment e p a stop
    → let start = if ltb e (u32 (u32 (p + 4) + n)) then 2 ^ 32 - 4 else p in
      let past = u32 (start + u32 (a + 4)) in
      (u32 (start + 4) ≡ place e p a) × ((if past == e then 0 else past) ≡ next e p a)
same_place e p n a stop area h small bounds seg = ground arith

module _ (round_up_p2 : ℕ → ℕ → ℕ) (law : RoundsUp round_up_p2) (e : ℕ) (area : IsArea e) where
  -- A batch takes the released messages at the front in order, and stops at the first locked head.
  pub collect-infos :
      (room : ℕ) (m : Memory) (p s : ℕ) (xs : List Entry)
      → s < e
      → message_lock_flag ≤ load32 m s
      → Chain round_up_p2 e m p xs s
      → collect round_up_p2 room e m p
        ≡ (infos round_up_p2 e room p xs, reach round_up_p2 e room p xs)
  unfolding collect infos reach
  collect-infos zero m p s xs h lock c = refl
  collect-infos (suc room) m p s [] h lock c =
      let at_stop : message_lock_flag ≤ load32 m p = rw c lock in ground arith
  collect-infos (suc room) m p s (granted n ∷ xs) h lock c = ground (arith, c.0, c.2)
  collect-infos (suc room) m p s (pending n ∷ xs) h lock c = ground (arith, c.0, c.2)
  collect-infos (suc room) m p s (ready bytes ∷ xs) h lock c =
      let a = round_up_p2 (length bytes) 4 in
      let bounds = round_up_block (length bytes) law c.0 in
      ground (
        arith,
        c.0,
        c.2.0,
        same_place e p (length bytes) a s area h c.0 bounds c.1,
        collect-infos room m (next e p a) s xs h lock c.4,
      )

  pub messages-infos :
      (room : ℕ) (m : Memory) (p s : ℕ) (xs : List Entry)
      → Chain round_up_p2 e m p xs s
      → messages m (infos round_up_p2 e room p xs) ≡ front room xs
  unfolding infos front
  messages-infos zero m p s xs c = refl
  messages-infos (suc room) m p s [] c = refl
  messages-infos (suc room) m p s (granted n ∷ xs) c = refl
  messages-infos (suc room) m p s (pending n ∷ xs) c = refl
  messages-infos (suc room) m p s (ready bytes ∷ xs) c =
      ap₂ ◌∷◌ c.2.1 (messages-infos room m (next e p (round_up_p2 (length bytes) 4)) s xs c.4)

  pub clear-IsQueue :
      (room : ℕ) (m : Memory) (r s : ℕ) (xs : List Entry)
      → IsQueue round_up_p2 e m r s xs
      → IsQueue round_up_p2 e
          (clear m (infos round_up_p2 e room r xs))
          (reach round_up_p2 e room r xs)
          s
          (behind room xs)
  unfolding clear infos reach behind freed
  clear-IsQueue zero m r s xs q = q
  clear-IsQueue (suc room) m r s [] q = q
  clear-IsQueue (suc room) m r s (granted n ∷ xs) q = q
  clear-IsQueue (suc room) m r s (pending n ∷ xs) q = q
  clear-IsQueue (suc room) m r s (ready bytes ∷ xs) q =
      let a = round_up_p2 (length bytes) 4 in
      clear-IsQueue room (freed m r (place e r a) a) (next e r a) s xs
        (freed-IsQueue round_up_p2 law e area m r s bytes xs q)

pub length-front : (room : ℕ) (xs : List Entry) → length (front room xs) ≤ room
unfolding front
length-front zero xs = omega arith
length-front (suc room) [] = omega arith
length-front (suc room) (granted n ∷ xs) = omega arith
length-front (suc room) (pending n ∷ xs) = omega arith
length-front (suc room) (ready bytes ∷ xs) = omega (arith, length-front room xs)

length-behind : (room : ℕ) (xs : List Entry) → length (behind room xs) ≤ length xs
unfolding behind
length-behind zero xs = omega arith
length-behind (suc room) [] = omega arith
length-behind (suc room) (granted n ∷ xs) = omega arith
length-behind (suc room) (pending n ∷ xs) = omega arith
length-behind (suc room) (ready bytes ∷ xs) = omega (arith, length-behind room xs)

pub behind-ready :
    (room : ℕ) (bytes : List ℕ) (xs : List Entry)
    → length (behind (suc room) (ready bytes ∷ xs)) ≤ length xs
unfolding behind
behind-ready room bytes xs = length-behind room xs

pub front-ready :
    (room : ℕ) (bytes : List ℕ) (xs : List Entry) → 0 < length (front (suc room) (ready bytes ∷ xs))
unfolding front
front-ready room bytes xs = omega arith

-- Where the hands meet there is no message.
pub nothing_between :
    (round_up_p2 : ℕ → ℕ → ℕ) (e : ℕ) (m : Memory) (p s : ℕ) (xs : List Entry)
    → s ≡ p
    → Chain round_up_p2 e m p xs s
    → xs ≡ []
nothing_between f e m p s [] h c = refl
nothing_between f e m p s (x ∷ xs) h c = absurd (c.1.apart (sym h))
