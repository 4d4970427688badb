-- ===== src/MpscBus/Race/Grant.antt =====
-- bus/mpsc_bus.hpp, `allocate` in two steps: the exchange grants a block whose head is not written,
-- and the store of the head makes it a pending message.
use deeplog.Base.{
  List, [], arith, false, false_of_false, sym, true, ℕ, ◌%◌, ◌++◌, ◌+◌, ◌<◌, ◌∷◌, ◌≡◌, ◌≤◌,
}
use deeplog.SharedMemory.{Memory, load32, store32}
use deeplog.SharedMemory.Laws.{load32_cong, load32-store32_self, store32-other, store32-IsBytes}
use deeplog.MpscBus.{max_message_size, message_lock_flag}
use deeplog.MpscBus.Queue.{
  RoundsUp, round_up_block, IsArea, Entry, granted, pending, next, used, walk, Segment, IsGap,
  Chain, IsQueue,
}
use deeplog.MpscBus.Queue.Apart.{unused-Apart, next-Apart, gap-Apart}
use deeplog.MpscBus.Queue.Frame.{Chain-frame, Chain-walk, used-walk, Chain-replace, used-word}
use deeplog.MpscBus.Queue.Extend.{Moves, Chain-extend, used-Moves}
use mathlib.Core.Path.{subst}
use native.Mathlib.Nat.{le_refl}

module _ (round_up_p2 : ℕ → ℕ → ℕ) (law : RoundsUp round_up_p2) (e : ℕ) (area : IsArea e) where
  -- The hand moves on over a block whose head still reads as locked.
  pub IsQueue-grant :
      (m : Memory) (read_hand alloc_hand stop n : ℕ) (xs : List Entry)
      → n ≤ max_message_size
      → IsQueue round_up_p2 e m read_hand alloc_hand xs
      → Segment e alloc_hand (round_up_p2 n 4) stop
      → next e alloc_hand (round_up_p2 n 4) ≡ stop
      → Moves alloc_hand stop read_hand
      → stop < e
      → IsQueue round_up_p2 e m read_hand stop (xs ++ granted n ∷ [])
  IsQueue-grant m r s t n xs small q seg lands moves inside = record {
    chain =
        Chain-extend round_up_p2 law e area m r xs (granted n) s t q.alloc_in q.chain moves
          (small, seg, q.free_locked s q.alloc_aligned q.alloc_in (ground arith), gap, lands);
    read_aligned = q.read_aligned;
    read_in = q.read_in;
    alloc_aligned = ground (arith, round_up_block n law small, area.whole_blocks, q.alloc_aligned);
    alloc_in = inside;
    free_locked =
        λ i al h u. q.free_locked i al h (used-Moves round_up_p2 law e area r s t i moves u);
    bytes = q.bytes;
  }
    where
      gap : IsGap round_up_p2 e m s (round_up_p2 n 4)
      gap i al g k l = q.free_locked i al l (ground arith)

module _ (round_up_p2 : ℕ → ℕ → ℕ) (law : RoundsUp round_up_p2) (e : ℕ) (area : IsArea e)
    (m : Memory) (r s n : ℕ) (xs ys : List Entry)
    (q : IsQueue round_up_p2 e m r s (xs ++ granted n ∷ ys)) where
  abbrev ctrl : ℕ
  ctrl = walk round_up_p2 e r xs

  abbrev a : ℕ
  a = round_up_p2 n 4

  abbrev m' : Memory
  m' = store32 m ctrl (n + message_lock_flag)

  here : Chain round_up_p2 e m ctrl (granted n ∷ ys) s
  here = Chain-walk round_up_p2 law e area m r xs (granted n ∷ ys) s q.chain

  -- What is written is the head of the one message.
  only : (i : ℕ) → i < e → used ctrl s i ≡ false → m' i ≡ m i
  only i h u =
      store32-other m ctrl _ i
        (unused-Apart e ctrl a s a i area.whole_blocks q.alloc_in (le_refl a) here.1 u).0

  beyond : (i : ℕ) → i < e → used (next e ctrl a) s i ≡ true → m' i ≡ m i
  beyond i h u =
      store32-other m ctrl _ i
        (next-Apart e ctrl a s a i area.whole_blocks q.alloc_in (le_refl a) here.1 h u).0

  same_word :
      (i : ℕ)
      → ((j : ℕ) → i ≤ j → j < i + 4 → m' j ≡ m j)
      → message_lock_flag ≤ load32 m i
      → message_lock_flag ≤ load32 m' i
  same_word i same h = subst (λ (w : ℕ). message_lock_flag ≤ w) (sym (load32_cong m m' i same)) h

  gap : IsGap round_up_p2 e m' ctrl a
  gap i al g k l =
      same_word i
        (λ j o p.
          store32-other m ctrl _ j
            (gap-Apart e ctrl a s a i j q.alloc_in (le_refl a) here.1 g k o).0)
        (here.3 i al g k l)

  pub head-IsQueue : IsQueue round_up_p2 e m' r s (xs ++ pending n ∷ ys)
  head-IsQueue = record {
    chain =
        Chain-replace round_up_p2 law e area m m' r xs (granted n ∷ ys) (pending n ∷ ys) s
          q.alloc_in q.chain only
          (
            here.0,
            here.1,
            load32-store32_self m ctrl _ (omega (arith, here.0)),
            gap,
            Chain-frame round_up_p2 law e area m m' (next e ctrl a) ys s q.alloc_in beyond here.4,
          );
    read_aligned = q.read_aligned;
    read_in = q.read_in;
    alloc_aligned = q.alloc_aligned;
    alloc_in = q.alloc_in;
    free_locked = λ i al h u.
        same_word i (λ j k l. only j (in_area i j al h l) (unused i j al u k l))
          (q.free_locked i al h u);
    bytes = store32-IsBytes m ctrl _ q.bytes;
  }
    where
      in_area : (i j : ℕ) → i % 4 ≡ 0 → i < e → j < i + 4 → j < e
      in_area i j al h l = omega (arith, area.whole_blocks)

      unused :
          (i j : ℕ) → i % 4 ≡ 0 → used r s i ≡ false → i ≤ j → j < i + 4 → used ctrl s j ≡ false
      unused i j al u k l =
          false_of_false
            (used-walk round_up_p2 law e area m r xs (granted n ∷ ys) s j q.alloc_in q.chain)
            (used-word r s i j q.read_aligned q.alloc_aligned al u k l)
