-- ===== src/MpscBus/Queue/Extend.antt =====
-- The queue grows: a message is allocated behind the others.
use deeplog.Base.{
  List, [], arith, false, inr, some, sym, true, ℕ, ◌%◌, ◌++◌, ◌+◌, ◌<◌, ◌∷◌, ◌≡◌, ◌≤◌, ◌⊎◌,
}
use deeplog.SharedMemory.{Memory}
use deeplog.MpscBus.{message_lock_flag, store32, max_message_size, reserve}
use mathlib.Core.Path.{subst}
use deeplog.MpscBus.Queue.Frame.{Chain-frame}
use deeplog.SharedMemory.Laws.{load32_cong, load32-store32_self, store32-other, store32-IsBytes}
use deeplog.MpscBus.Queue.{
  round_up_block, pending, IsQueue, place, RoundsUp, IsArea, place, Entry, size, next, used,
  Segment, IsGap, Chain,
}

-- The hand moves from `stop` to `stop'` over free offsets, seen from a head at `p`.
pub record Moves (stop stop' p : ℕ) : Type 0 where
  pub behind : stop < p → (stop < stop') × (stop' < p)
  pub ahead : p ≤ stop → (stop < stop') ⊎ (stop' < p)

pub Segment-Moves :
    (e p a stop stop' : ℕ)
    → stop < e
    → Segment e p a stop
    → Moves stop stop' p
    → Segment e p a stop'
Segment-Moves e p a stop stop' h s k = ground arith

pub Moves-next :
    (e p a stop stop' : ℕ)
    → stop < e
    → Segment e p a stop
    → Moves stop stop' p
    → Moves stop stop' (next e p a)
Moves-next e p a stop stop' h s k = ground arith

-- What `reserve` grants lies between the hands, and the new hand is where the next head goes.
pub reserve-Segment :
    (e read_hand alloc_hand a position stop : ℕ)
    → IsArea e
    → a ≤ max_message_size + 4
    → read_hand < e
    → alloc_hand < e
    → alloc_hand % 4 ≡ 0
    → reserve e read_hand alloc_hand a ≡ some (position, stop)
    → Segment e alloc_hand a stop
      × (next e alloc_hand a ≡ stop)
      × (place e alloc_hand a ≡ position)
      × Moves alloc_hand stop read_hand
      × (stop < e)
unfolding reserve
reserve-Segment e r s a position stop area fits hr hs al h = ground arith

-- The payload of the new message stands inside the area, on offsets that no message uses.
pub granted-inside :
    (e alloc_hand a stop : ℕ) → stop < e → next e alloc_hand a ≡ stop → place e alloc_hand a + a ≤ e
granted-inside e s a stop h n = ground arith

pub granted-free :
    (e read_hand alloc_hand a stop i : ℕ)
    → stop < e
    → Segment e alloc_hand a stop
    → next e alloc_hand a ≡ stop
    → Moves alloc_hand stop read_hand
    → place e alloc_hand a ≤ i
    → i < place e alloc_hand a + a
    → used read_hand alloc_hand i ≡ false
granted-free e r s a stop i h seg n moves k l = ground arith

module _ (round_up_p2 : ℕ → ℕ → ℕ) (law : RoundsUp round_up_p2) (e : ℕ) (area : IsArea e) where
  -- The messages stay a chain when the hand moves on over a new one.
  pub Chain-extend :
      (m : Memory) (p : ℕ) (xs : List Entry) (y : Entry) (stop stop' : ℕ)
      → stop < e
      → Chain round_up_p2 e m p xs stop
      → Moves stop stop' p
      → Chain round_up_p2 e m stop (y ∷ []) stop'
      → Chain round_up_p2 e m p (xs ++ y ∷ []) stop'
  Chain-extend m p [] y stop stop' h c k d = rw c d
  Chain-extend m p (x ∷ xs) y stop stop' h c k d =
      let a = round_up_p2 (size x) 4 in
      (
        c.0,
        Segment-Moves e p a stop stop' h c.1 k,
        c.2,
        c.3,
        Chain-extend m (next e p a) xs y stop stop' h c.4 (Moves-next e p a stop stop' h c.1 k) d,
      )

  pub used-Moves :
      (p stop stop' i : ℕ) → Moves stop stop' p → used p stop' i ≡ false → used p stop i ≡ false
  used-Moves p stop stop' i k u = ground arith

  pub IsQueue-extend :
      (m : Memory) (read_hand alloc_hand stop n : ℕ) (xs : List Entry)
      → n ≤ max_message_size
      → IsQueue round_up_p2 e m read_hand alloc_hand xs
      → Segment e alloc_hand (round_up_p2 n 4) stop
      → next e alloc_hand (round_up_p2 n 4) ≡ stop
      → Moves alloc_hand stop read_hand
      → stop < e
      → IsQueue round_up_p2 e
          (store32 m alloc_hand (n + message_lock_flag))
          read_hand
          stop
          (xs ++ pending n ∷ [])
  IsQueue-extend m r s t n xs small q seg lands moves inside = record {
    chain =
        Chain-extend m' r xs (pending n) s t q.alloc_in
          (Chain-frame round_up_p2 law e area m m' r xs s q.alloc_in
            (λ i h u. store32-other m s _ i (used-not-stop i h u)) q.chain)
          moves (small, seg, load32-store32_self m s _ (omega arith), gap, lands);
    read_aligned = q.read_aligned;
    read_in = q.read_in;
    alloc_aligned = stop_aligned;
    alloc_in = inside;
    free_locked = λ i al h u.
        subst (λ (w : ℕ). message_lock_flag ≤ w)
          (sym (load32_cong m m' i (λ j k l. store32-other m s _ j (apart i j al h u k l))))
          (q.free_locked i al h (used-Moves r s t i moves u));
    bytes = store32-IsBytes m s _ q.bytes;
  }
    where
      m' : Memory
      m' = store32 m s (n + message_lock_flag)

      used-not-stop : (i : ℕ) → i < e → used r s i ≡ true → (i < s) ⊎ (s + 4 ≤ i)
      used-not-stop i h u = ground (arith, q.read_aligned, q.alloc_aligned)

      apart :
          (i j : ℕ)
          → i % 4 ≡ 0
          → i < e
          → used r t i ≡ false
          → i ≤ j
          → j < i + 4
          → (j < s) ⊎ (s + 4 ≤ j)
      apart i j al h u k l = ground (arith, q.alloc_aligned)

      gap_free : (i : ℕ) → e < s + 4 + round_up_p2 n 4 → s + 4 ≤ i → used r s i ≡ false
      gap_free i g k = ground arith

      gap : IsGap round_up_p2 e m' s (round_up_p2 n 4)
      gap i al g k l =
          subst (λ (w : ℕ). message_lock_flag ≤ w)
            (sym (load32_cong m m' i (λ j x y. store32-other m s _ j (inr (omega arith)))))
            (q.free_locked i al l (gap_free i g k))

      stop_aligned : t % 4 ≡ 0
      stop_aligned = ground (arith, round_up_block n law small, area.whole_blocks, q.alloc_aligned)
