-- ===== src/MpscBus/Queue/Freed.antt =====
-- bus/mpsc_bus.hpp, the consumer: what `read_region` does with the blocks of a message that it has
-- handed out.
use deeplog.Base.{
  List, arith, false, inl, inr, length, sym, true, ℕ, ◌%◌, ◌+◌, ◌<◌, ◌∙◌, ◌∷◌, ◌≡◌, ◌≤◌, ◌⊎◌,
}
use mathlib.Core.Path.{subst}
use deeplog.SharedMemory.{Memory, load32, store32, fill}
use deeplog.SharedMemory.Laws.{
  load32-fill, IsBytes, load32_cong, load32-store32_self, store32-other, store32-IsBytes,
  fill-other, fill-IsBytes,
}
use deeplog.MpscBus.{message_lock_flag, unused_block_byte, mark_consumed}
use deeplog.MpscBus.Queue.{
  RoundsUp, round_up_block, IsArea, place, Entry, ready, next, used, Segment, IsQueue,
}
use deeplog.MpscBus.Queue.Frame.{Chain-frame, used-word}
use deeplog.MpscBus.Queue.Apart.{
  Apart, unused-Apart, next-Apart, parts-Apart, gap-Apart, left-behind,
}
use native.Mathlib.Nat.{le_refl}

-- The memory once one message is consumed.
unfoldable pub freed : Memory → ℕ → ℕ → ℕ → Memory
freed m head content content_size =
    fill (store32 m head (mark_consumed (load32 m head))) content content_size unused_block_byte

freed-other :
    (m : Memory) (head content content_size i : ℕ)
    → (i < head) ⊎ (head + 4 ≤ i)
    → (i < content) ⊎ (content + content_size ≤ i)
    → freed m head content content_size i ≡ m i
unfolding freed
freed-other m p c n i h k = fill-other _ c n _ i k ∙ store32-other m p _ i h

freed-IsBytes : (m : Memory) (p c n : ℕ) → IsBytes m → IsBytes (freed m p c n)
unfolding freed
freed-IsBytes m p c n b = fill-IsBytes _ c n _ (omega arith) (store32-IsBytes m p _ b)

-- Every word of the message that is freed reads as locked.
freed-head :
    (m : Memory) (p c n : ℕ)
    → (p + 4 ≤ c) ⊎ (c + n ≤ p)
    → message_lock_flag ≤ load32 (freed m p c n) p
unfolding freed
freed-head m p c n apart =
    rw
      (
        load32_cong (store32 m p (mark_consumed (load32 m p))) (freed m p c n) p
            (λ i k l. fill-other _ c n _ i (ground arith)),
        load32-store32_self m p (mark_consumed (load32 m p)) (omega arith),
      )
      (omega arith)

freed-content :
    (m : Memory) (p c n i : ℕ)
    → c ≤ i
    → i + 4 ≤ c + n
    → message_lock_flag ≤ load32 (freed m p c n) i
unfolding freed
freed-content m p c n i h k = rw (load32-fill _ c n unused_block_byte i h k) (omega arith)

module _ (round_up_p2 : ℕ → ℕ → ℕ) (law : RoundsUp round_up_p2) (e : ℕ) (area : IsArea e) where
  -- The oldest message leaves the queue, and its words are free again.
  pub freed-IsQueue :
      (m : Memory) (r s : ℕ) (bytes : List ℕ) (xs : List Entry)
      → let a = round_up_p2 (length bytes) 4 in
        IsQueue round_up_p2 e m r s (ready bytes ∷ xs)
        → IsQueue round_up_p2 e (freed m r (place e r a) a) (next e r a) s xs
  freed-IsQueue m r s bytes xs q = record {
    chain = Chain-frame round_up_p2 law e area m m' (next e r a) xs s q.alloc_in beyond q.chain.4;
    read_aligned = ground (arith, bounds, area.whole_blocks, q.read_aligned);
    read_in = ground (arith, seg, q.alloc_in);
    alloc_aligned = q.alloc_aligned;
    alloc_in = q.alloc_in;
    free_locked = λ i al h u.
        locked i al h u (left-behind e r a s i area.whole_blocks bounds.0 q.alloc_in seg al h u);
    bytes = freed-IsBytes m r (place e r a) a q.bytes;
  }
    where
      a : ℕ
      a = round_up_p2 (length bytes) 4

      m' : Memory
      m' = freed m r (place e r a) a

      seg : Segment e r a s
      seg = q.chain.1

      bounds : (a % 4 ≡ 0) × (length bytes ≤ a) × (a < length bytes + 4)
      bounds = round_up_block (length bytes) law q.chain.0

      beyond : (i : ℕ) → i < e → used (next e r a) s i ≡ true → m' i ≡ m i
      beyond i h u =
          let o = next-Apart e r a s a i area.whole_blocks q.alloc_in (le_refl a) seg h u in
          freed-other m r (place e r a) a i o.0 o.1

      same_word :
          (i : ℕ)
          → ((j : ℕ) → i ≤ j → j < i + 4 → Apart e r a a j)
          → message_lock_flag ≤ load32 m i
          → message_lock_flag ≤ load32 m' i
      same_word i apart h =
          subst (λ (w : ℕ). message_lock_flag ≤ w)
            (sym (
              load32_cong m m' i
                (λ j k l. freed-other m r (place e r a) a j (apart j k l).0 (apart j k l).1)))
            h

      locked :
          (i : ℕ)
          → i % 4 ≡ 0
          → i < e
          → used (next e r a) s i ≡ false
          → (used r s i ≡ false)
            ⊎ (i ≡ r)
            ⊎ ((place e r a ≤ i) × (i + 4 ≤ place e r a + a))
            ⊎ ((e < r + 4 + a) × (r + 4 ≤ i))
          → message_lock_flag ≤ load32 m' i
      locked i al h u (inl free) =
          same_word i
            (λ j k l.
              unused-Apart e r a s a j area.whole_blocks q.alloc_in (le_refl a) seg
                (used-word r s i j q.read_aligned q.alloc_aligned al free k l))
            (q.free_locked i al h free)
      locked i al h u (inr (inl at_head)) =
          rw at_head
            (freed-head m r (place e r a) a (parts-Apart e r a s a q.alloc_in (le_refl a) seg))
      locked i al h u (inr (inr (inl inside))) =
          freed-content m r (place e r a) a i inside.0 inside.1
      locked i al h u (inr (inr (inr skipped))) =
          same_word i
            (λ j k l. gap-Apart e r a s a i j q.alloc_in (le_refl a) seg skipped.0 skipped.1 k)
            (q.chain.3 i al skipped.0 skipped.1 h)
