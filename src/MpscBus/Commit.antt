-- ===== src/MpscBus/Commit.antt =====
-- bus/mpsc_bus.hpp: a producer writes its message and releases the head
-- (`output_buffer::do_sync_output`).
use deeplog.Base.{
  List, Result, arith, false, false_of_false, length, none, ok, refl, some, sym, true, ℕ, ◌%◌, ◌++◌,
  ◌+◌, ◌<◌, ◌∙◌, ◌∷◌, ◌≡◌, ◌≤◌, ◌⊎◌,
}
use mathlib.Core.Path.{subst}
use deeplog.Errc.{Errc}
use deeplog.SharedMemory.{Memory, load32, store32, read_bytes, write_bytes}
use deeplog.SharedMemory.Laws.{
  load32_cong, load32-store32_self, store32-other, store32-IsBytes, write_bytes-other, AllBytes,
  IsBytes, write_bytes-IsBytes, read_bytes_cong, read_bytes-write_bytes,
}
use deeplog.MpscBus.{OutputBuffer, max_message_size, message_lock_flag, commit, unlock_head}
use deeplog.MpscBus.Queue.{
  RoundsUp, round_up_block, IsArea, place, Entry, pending, ready, next, used, walk, IsEntry, IsGap,
  Chain, IsQueue,
}
use deeplog.MpscBus.Queue.Apart.{unused-Apart, next-Apart, parts-Apart, gap-Apart}
use deeplog.MpscBus.Queue.Frame.{Chain-frame, Chain-walk, used-walk, Chain-replace, used-word}

-- The memory once the message is written and its head released.
pub released : Memory → ℕ → ℕ → List ℕ → Memory
released m ctrl position bytes =
    let written = write_bytes m position bytes in
    store32 written ctrl (unlock_head (load32 written ctrl))

released-other :
    (m : Memory) (ctrl position : ℕ) (bytes : List ℕ) (i : ℕ)
    → (i < ctrl) ⊎ (ctrl + 4 ≤ i)
    → (i < position) ⊎ (position + length bytes ≤ i)
    → released m ctrl position bytes i ≡ m i
unfolding released
released-other m ctrl position bytes i h k =
    store32-other _ ctrl _ i h ∙ write_bytes-other m position bytes i k

released-IsBytes :
    (m : Memory) (ctrl position : ℕ) (bytes : List ℕ)
    → AllBytes bytes
    → IsBytes m
    → IsBytes (released m ctrl position bytes)
unfolding released
released-IsBytes m ctrl position bytes all b =
    store32-IsBytes _ ctrl _ (write_bytes-IsBytes m position bytes all b)

-- The head reads as the size, and the payload as the message.
released-entry :
    (m : Memory) (ctrl position : ℕ) (bytes : List ℕ)
    → length bytes ≤ max_message_size
    → load32 m ctrl ≡ length bytes + message_lock_flag
    → (ctrl + 4 ≤ position) ⊎ (position + length bytes ≤ ctrl)
    → (load32 (released m ctrl position bytes) ctrl ≡ length bytes)
      × (read_bytes (released m ctrl position bytes) position (length bytes) ≡ bytes)
unfolding released
released-entry m ctrl position bytes small head apart = (
  load32-store32_self written ctrl _ (omega arith) ∙ rw (kept, head) (omega arith),
  read_bytes_cong written _ position (length bytes)
        (λ i k l. store32-other written ctrl _ i (ground arith))
      ∙ read_bytes-write_bytes m position bytes,
)
  where
    written : Memory
    written = write_bytes m position bytes

    kept : load32 written ctrl ≡ load32 m ctrl
    kept = load32_cong m written ctrl (λ i k l. write_bytes-other m position bytes i (ground arith))

-- `record_output_guard` and the encoders: the message goes into the buffer, then the head is
-- released.
unfoldable pub write_and_commit :
    Memory → OutputBuffer → List ℕ → Result Errc (Memory × OutputBuffer)
write_and_commit m out bytes = commit (write_bytes m out.position bytes) out

module _ (round_up_p2 : ℕ → ℕ → ℕ) (law : RoundsUp round_up_p2) (e : ℕ) (area : IsArea e)
    (m : Memory) (r s : ℕ) (xs ys : List Entry) (bytes : List ℕ)
    (q : IsQueue round_up_p2 e m r s (xs ++ pending (length bytes) ∷ ys)) where
  abbrev ctrl : ℕ
  ctrl = walk round_up_p2 e r xs

  abbrev a : ℕ
  a = round_up_p2 (length bytes) 4

  abbrev position : ℕ
  position = place e ctrl a

  abbrev m' : Memory
  m' = released m ctrl position bytes

  here : Chain round_up_p2 e m ctrl (pending (length bytes) ∷ ys) s
  here = Chain-walk round_up_p2 law e area m r xs (pending (length bytes) ∷ ys) s q.chain

  fits : length bytes ≤ a
  fits = (round_up_block (length bytes) law here.0).1

  -- What is released is the head and the payload of the one message.
  only : (i : ℕ) → i < e → used ctrl s i ≡ false → m' i ≡ m i
  only i h u =
      let o = unused-Apart e ctrl a s (length bytes) i area.whole_blocks q.alloc_in fits here.1 u in
      released-other m ctrl position bytes i o.0 o.1

  beyond : (i : ℕ) → i < e → used (next e ctrl a) s i ≡ true → m' i ≡ m i
  beyond i h u =
      let o = next-Apart e ctrl a s (length bytes) i area.whole_blocks q.alloc_in fits here.1 h u in
      released-other m ctrl position bytes i o.0 o.1

  entry : IsEntry round_up_p2 e m' ctrl (ready bytes)
  entry =
      released-entry m ctrl position bytes here.0 here.2
        (parts-Apart e ctrl a s (length bytes) q.alloc_in fits here.1)

  gap : IsGap round_up_p2 e m' ctrl a
  gap i al g k l =
      subst (λ (w : ℕ). message_lock_flag ≤ w)
        (sym (
          load32_cong m m' i λ j n o.
            let apart = gap-Apart e ctrl a s (length bytes) i j q.alloc_in fits here.1 g k n in
            released-other m ctrl position bytes j apart.0 apart.1))
        (here.3 i al g k l)

  released-IsQueue : AllBytes bytes → IsQueue round_up_p2 e m' r s (xs ++ ready bytes ∷ ys)
  released-IsQueue all = record {
    chain =
        Chain-replace round_up_p2 law e area m m' r xs (pending (length bytes) ∷ ys)
          (ready bytes ∷ ys) s q.alloc_in q.chain only
          (
            here.0,
            here.1,
            entry,
            gap,
            Chain-frame round_up_p2 law e area m m' (next e ctrl a) ys s q.alloc_in beyond here.4,
          );
    read_aligned = q.read_aligned;
    read_in = q.read_in;
    alloc_aligned = q.alloc_aligned;
    alloc_in = q.alloc_in;
    free_locked = λ i al h u.
        subst (λ (w : ℕ). message_lock_flag ≤ w)
          (sym (load32_cong m m' i (λ j k l. only j (in_area i j al h l) (unused i j al u k l))))
          (q.free_locked i al h u);
    bytes = released-IsBytes m ctrl position bytes all q.bytes;
  }
    where
      in_area : (i j : ℕ) → i % 4 ≡ 0 → i < e → j < i + 4 → j < e
      in_area i j al h l = omega (arith, area.whole_blocks)

      unused :
          (i j : ℕ) → i % 4 ≡ 0 → used r s i ≡ false → i ≤ j → j < i + 4 → used ctrl s j ≡ false
      unused i j al u k l =
          false_of_false
            (used-walk round_up_p2 law e area m r xs (pending (length bytes) ∷ ys) s j q.alloc_in
              q.chain)
            (used-word r s i j q.read_aligned q.alloc_aligned al u k l)

  -- In a region of less than about 3.5 GiB, writing the message into its block and releasing the head makes the pending message, wherever
  -- it stands in the queue, the ready message of these bytes; all others stay as they are.
  pub write_and_commit-IsQueue :
      (out : OutputBuffer)
      → AllBytes bytes
      → out.msg_ctrl ≡ some ctrl
      → out.position ≡ position
      → (m' : Memory) × (write_and_commit m out bytes ≡ ok (m', record out { msg_ctrl = none }))
        × IsQueue round_up_p2 e m' r s (xs ++ ready bytes ∷ ys)
  unfolding write_and_commit commit released
  write_and_commit-IsQueue out all at_head at_payload =
      (m', rw (at_head, at_payload) refl, released-IsQueue all)
