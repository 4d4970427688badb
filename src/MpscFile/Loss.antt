-- ===== src/MpscFile/Loss.antt =====
-- bus/mpsc_bus.cpp, `recover_region`: a process that stops between the exchange of `allocate` and
-- the store of the head leaves a block that was never written behind the messages.
use deeplog.Base.{
  Bool, List, [], arith, length, length-append, some, suc, zero, ℕ, ◌%◌, ◌*◌, ◌++◌, ◌+◌, ◌/◌, ◌<◌,
  ◌∙◌, ◌∷◌, ◌≡◌, ◌≢◌, ◌≤◌,
}
use mathlib.Core.Option.{none, some}
use deeplog.SharedMemory.{Memory, load32}
use deeplog.MpscBus.{max_message_size, consume_batch_size, reserve}
use deeplog.MpscBus.Queue.{RoundsUp, IsArea, Entry, size, next, Chain, IsQueue}
use deeplog.MpscBus.Queue.Extend.{Moves, Segment-Moves, Moves-next, reserve-Segment}
use deeplog.MpscFile.{examine, recover_loop, recover_region}
use deeplog.MpscFile.Recover.{
  AllWritten, kept, kept-short, examine-kept, goes_on, length-distance, distance,
}

module _ (is_item : List ℕ → Bool) (round_up_p2 : ℕ → ℕ → ℕ) (law : RoundsUp round_up_p2) (e : ℕ)
    (area : IsArea e) (m : Memory) (stop stop' : ℕ) (inside : stop < e) (inside' : stop' < e)
    (unwritten : examine round_up_p2 is_item e m stop' stop ≡ none) where
  at_stop :
      (left : ℕ) (batch : List (List ℕ))
      → stop ≢ stop'
      → recover_loop round_up_p2 is_item e m stop' (suc left) stop batch ≡ []
  unfolding recover_loop
  at_stop left batch h = ground (arith, unwritten)

  pub recover_loop-loses :
      (left p : ℕ) (batch : List (List ℕ)) (xs : List Entry)
      → length xs < left
      → length batch + length xs < consume_batch_size
      → AllWritten xs
      → Moves stop stop' p
      → Chain round_up_p2 e m p xs stop
      → recover_loop round_up_p2 is_item e m stop' left p batch ≡ []
  recover_loop-loses zero p batch xs h k w moves c = absurd (omega arith)
  recover_loop-loses (suc left) p batch [] h k w moves c =
      rw c (at_stop left batch (ground (arith, moves)))
  recover_loop-loses (suc left) p batch (x ∷ xs) h k w moves c =
      let pos = next e p (round_up_p2 (size x) 4) in
      let more = kept is_item x in
      let seg = Segment-Moves e p (round_up_p2 (size x) 4) stop stop' inside c.1 moves in
      let seen = examine-kept is_item round_up_p2 law e area m stop' inside' p x w.0 c.0 seg c.2 in
      goes_on is_item round_up_p2 law e area m stop' inside' left p pos batch more seg.apart seen
        (ground (arith, length-append batch more, kept-short is_item x))
      ∙ recover_loop-loses left pos (batch ++ more) xs (omega arith)
          (omega (arith, length-append batch more, kept-short is_item x)) w.1
          (Moves-next e p (round_up_p2 (size x) 4) stop stop' inside c.1 moves) c.4

-- A block that was never written states a size that does not fit the area.
unwritten-none :
    (round_up_p2 : ℕ → ℕ → ℕ) (is_item : List ℕ → Bool) (e : ℕ) (m : Memory) (stop stop' : ℕ)
    → e < 0x3efefefe
    → load32 m stop ≡ 0xfefefefe
    → examine round_up_p2 is_item e m stop' stop ≡ none
unfolding examine
unwritten-none f is_item e m s t small h = ground arith

-- Fewer heads than words, so that the loop reaches the unwritten block.
heads_fit :
    (e r s n : ℕ)
    → e % 4 ≡ 0
    → r % 4 ≡ 0
    → s % 4 ≡ 0
    → r < e
    → s < e
    → 4 * n ≤ distance e r s
    → n < e / 4
unfolding distance
heads_fit e r s n al ra sa hr hs h = ground arith

-- In a region of less than about 1 GiB that holds fewer than 64 messages, the heads of all of them
-- written, the grant of a block whose head still holds the value that fills a region at its creation,
-- since its place was never used, makes `recover_region` hand out nothing at all, whatever messages were
-- released before it.
pub recover_region-loses :
    (round_up_p2 : ℕ → ℕ → ℕ)
    → RoundsUp round_up_p2
    → (is_item : List ℕ → Bool) (e : ℕ) → IsArea e
    → e < 0x3efefefe
    → (m : Memory) (read_hand alloc_hand a position stop : ℕ) (xs : List Entry) → AllWritten xs
    → IsQueue round_up_p2 e m read_hand alloc_hand xs
    → length xs < consume_batch_size
    → a ≤ max_message_size + 4
    → reserve e read_hand alloc_hand a ≡ some (position, stop)
    → load32 m alloc_hand ≡ 0xfefefefe
    → recover_region round_up_p2 is_item e m stop read_hand ≡ []
unfolding recover_region
recover_region-loses f law is_item e area small m r s a position stop xs written q few fits granted
      blank =
    let g =
      reserve-Segment e r s a position stop area fits q.read_in q.alloc_in q.alloc_aligned
        granted in
    let near = length-distance f e m r s xs area.whole_blocks q.alloc_in q.chain in
    let enough =
      heads_fit e r s (length xs) area.whole_blocks q.read_aligned q.alloc_aligned q.read_in
        q.alloc_in near in
    ground (
      arith,
      recover_loop-loses is_item f law e area m s stop q.alloc_in g.4
          (unwritten-none f is_item e m s stop small blank) (e / 4) r [] xs enough (omega arith)
          written g.3 q.chain,
    )
