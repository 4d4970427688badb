-- ===== src/MpscFile/Recover.antt =====
-- mpsc_bus.cpp, `recover_region`: what is handed to the consumer of the messages that a process left
-- in a region.
use deeplog.Base.{
  ==_iff, Bool, Bool-cases, List, [], ap, arith, false, if◌then◌else◌, inl, inr, leb, length,
  length-append, ltb, refl, some, suc, sym, u32, zero, ℕ, ◌%◌, ◌*◌, ◌++◌, ◌+◌, ◌-◌, ◌/◌, ◌<◌, ◌==◌,
  ◌||◌, ◌∙◌, ◌∷◌, ◌≡◌, ◌≢◌, ◌≤◌,
}
use mathlib.Core.List.{flatten, append-nil, append_assoc}
use deeplog.SharedMemory.{Memory}
use deeplog.MpscBus.{max_message_size, consume_batch_size}
use deeplog.MpscBus.Queue.{
  RoundsUp, round_up_block, IsArea, next, Segment, Entry, granted, pending, ready, size, IsEntry,
  Chain, IsQueue,
}
use deeplog.MpscBus.Batch.{nothing_between, same_place}
use deeplog.MpscFile.{examine, recover_loop, recover_region}

-- The head of every message has been written.
abbrev IsWritten : Entry → Type 0
IsWritten (granted n) = ⊥
IsWritten (pending n) = Unit {0}
IsWritten (ready bytes) = Unit {0}

abbrev pub AllWritten : List Entry → Type 0
AllWritten [] = Unit {0}
AllWritten (x ∷ xs) = IsWritten x × AllWritten xs

module _ (is_item : List ℕ → Bool) where
  -- What `recover_region` keeps of one message.
  pub kept : Entry → List (List ℕ)
  kept (granted n) = []
  kept (pending n) = []
  kept (ready bytes) = if is_item bytes then bytes ∷ [] else []

  -- The released messages of a queue that are well-formed items, oldest first.
  pub salvage : List Entry → List (List ℕ)
  salvage [] = []
  salvage (x ∷ xs) = kept x ++ salvage xs

  pub kept-short : (x : Entry) → length (kept x) ≤ 1
  unfolding kept
  kept-short (granted n) = omega arith
  kept-short (pending n) = omega arith
  kept-short (ready bytes) = elim (Bool-cases (is_item bytes)) [
    | inl item ↦ rw item (omega arith)
    | inr other ↦ rw other (omega arith)
  ]

  salvage-∷ : (x : Entry) (xs : List Entry) → salvage (x ∷ xs) ≡ kept x ++ salvage xs
  unfolding salvage
  salvage-∷ x xs = refl

  module _ (round_up_p2 : ℕ → ℕ → ℕ) (law : RoundsUp round_up_p2) (e : ℕ) (area : IsArea e)
      (m : Memory) (alloc_ptr : ℕ) (inside : alloc_ptr < e) where
    -- The size that a message states fits the block area.
    size_fits :
        (p n a : ℕ)
        → n ≤ max_message_size
        → n ≤ a
        → Segment e p a alloc_ptr
        → ltb e (u32 (4 + n)) ≡ false
    size_fits p n a small b seg = ground (arith, seg.head_aligned, area.whole_blocks)

    pub examine-kept :
        (p : ℕ) (x : Entry)
        → IsWritten x
        → size x ≤ max_message_size
        → Segment e p (round_up_p2 (size x) 4) alloc_ptr
        → IsEntry round_up_p2 e m p x
        → examine round_up_p2 is_item e m alloc_ptr p
          ≡ some (kept x, next e p (round_up_p2 (size x) 4))
    unfolding examine kept
    examine-kept p (granted n) w small seg x = absurd w
    examine-kept p (pending n) w small seg x =
        let a = round_up_p2 n 4 in
        let bounds = round_up_block n law small in
        ground (
          arith,
          x,
          size_fits p n a small bounds.1 seg,
          same_place e p n a alloc_ptr area inside small bounds seg,
        )
    examine-kept p (ready bytes) w small seg x =
        let a = round_up_p2 (length bytes) 4 in
        let bounds = round_up_block (length bytes) law small in
        ground (
          arith,
          x.0,
          x.1,
          size_fits p (length bytes) a small bounds.1 seg,
          same_place e p (length bytes) a alloc_ptr area inside small bounds seg,
        )

    -- One round of the loop.
    stops :
        (left : ℕ) (batch : List (List ℕ))
        → recover_loop round_up_p2 is_item e m alloc_ptr left alloc_ptr batch ≡ batch ∷ []
    unfolding recover_loop
    stops zero batch = refl
    stops (suc left) batch = ground arith

    pub goes_on :
        (left p pos : ℕ) (batch more : List (List ℕ))
        → p ≢ alloc_ptr
        → examine round_up_p2 is_item e m alloc_ptr p ≡ some (more, pos)
        → length (batch ++ more) ≢ consume_batch_size
        → recover_loop round_up_p2 is_item e m alloc_ptr (suc left) p batch
          ≡ recover_loop round_up_p2 is_item e m alloc_ptr left pos (batch ++ more)
    unfolding recover_loop
    goes_on left p pos batch more h k l = ground arith

    flushes :
        (left p pos : ℕ) (batch more : List (List ℕ))
        → p ≢ alloc_ptr
        → examine round_up_p2 is_item e m alloc_ptr p ≡ some (more, pos)
        → length (batch ++ more) ≡ consume_batch_size
        → recover_loop round_up_p2 is_item e m alloc_ptr (suc left) p batch
          ≡ (batch ++ more)
            ∷ (if left == 0 || pos == alloc_ptr
                then []
                else recover_loop round_up_p2 is_item e m alloc_ptr left pos [])
    unfolding recover_loop
    flushes left p pos batch more h k l = ground arith

-- How far the head at `p` is from the head at `stop`, going round at the end.
unfoldable pub distance : ℕ → ℕ → ℕ → ℕ
distance e p stop = if leb p stop then stop - p else stop + e - p

pub next-closer :
    (e p a stop : ℕ)
    → e % 4 ≡ 0
    → stop < e
    → Segment e p a stop
    → distance e (next e p a) stop + 4 ≤ distance e p stop
unfolding distance
next-closer e p a stop al h seg = ground (arith, seg.head_aligned)

-- There are no more messages than heads.
pub length-distance :
    (round_up_p2 : ℕ → ℕ → ℕ) (e : ℕ) (m : Memory) (p stop : ℕ) (xs : List Entry)
    → e % 4 ≡ 0
    → stop < e
    → Chain round_up_p2 e m p xs stop
    → 4 * length xs ≤ distance e p stop
length-distance f e m p stop [] al h c = omega arith
length-distance f e m p stop (x ∷ xs) al h c = omega (
  arith,
  next-closer e p (f (size x) 4) stop al h c.1,
  length-distance f e m (next e p (f (size x) 4)) stop xs al h c.4,
)

pub distance-below : (e p stop : ℕ) → p < e → stop < e → distance e p stop < e
unfolding distance
distance-below e p stop h k = ground arith

module _ (is_item : List ℕ → Bool) (round_up_p2 : ℕ → ℕ → ℕ) (law : RoundsUp round_up_p2) (e : ℕ)
    (area : IsArea e) (m : Memory) (stop : ℕ) (inside : stop < e) where
  abbrev loop : ℕ → ℕ → List (List ℕ) → List (List (List ℕ))
  loop = recover_loop round_up_p2 is_item e m stop

  stops_at : (left p : ℕ) (batch : List (List ℕ)) → p ≡ stop → flatten (loop left p batch) ≡ batch
  unfolding flatten
  stops_at left p batch c =
      rw (c, stops is_item round_up_p2 law e area m stop inside left batch) (append-nil batch)

  after_flush :
      (left pos : ℕ) (xs : List Entry)
      → length xs ≤ left
      → Chain round_up_p2 e m pos xs stop
      → flatten (loop left pos []) ≡ salvage is_item xs
      → flatten (if left == 0 || pos == stop then [] else loop left pos []) ≡ salvage is_item xs
  unfolding salvage flatten
  after_flush left pos [] h c rest = elim (Bool-cases (left == 0 || pos == stop)) [
    | inl done ↦ rw done refl
    | inr more ↦ rw more rest
  ]
  after_flush left pos (x ∷ xs) h c rest =
      let left_over : left == 0 || pos == stop ≡ false = ground (arith, c.1.apart) in
      rw left_over rest

  recover_loop-salvage :
      (left p : ℕ) (batch : List (List ℕ)) (xs : List Entry)
      → length xs ≤ left
      → length batch < consume_batch_size
      → AllWritten xs
      → Chain round_up_p2 e m p xs stop
      → flatten (loop left p batch) ≡ batch ++ salvage is_item xs
  unfolding salvage flatten
  recover_loop-salvage left p batch [] h k w c = stops_at left p batch c ∙ sym (append-nil batch)
  recover_loop-salvage zero p batch (x ∷ xs) h k w c = absurd (omega arith)
  recover_loop-salvage (suc left) p batch (x ∷ xs) h k w c =
      let pos = next e p (round_up_p2 (size x) 4) in
      let more = kept is_item x in
      let seen = examine-kept is_item round_up_p2 law e area m stop inside p x w.0 c.0 c.1 c.2 in
      elim (Bool-cases (length (batch ++ more) == consume_batch_size)) [
        | inl full ↦
            ap flatten (
              flushes is_item round_up_p2 law e area m stop inside left p pos batch more c.1.apart
                seen ((==_iff (length (batch ++ more)) consume_batch_size).0 full))
            ∙ ap (λ zs. batch ++ more ++ zs)
                (after_flush left pos xs (omega arith) c.4
                  (recover_loop-salvage left pos [] xs (omega arith) (omega arith) w.1 c.4))
            ∙ append_assoc batch more (salvage is_item xs)
        | inr short ↦
            ap flatten (
              goes_on is_item round_up_p2 law e area m stop inside left p pos batch more c.1.apart
                seen (ground arith))
            ∙ recover_loop-salvage left pos (batch ++ more) xs (omega arith)
                (ground (arith, length-append batch more, kept-short is_item x)) w.1 c.4
            ∙ append_assoc batch more (salvage is_item xs)
      ]

-- If the head of every granted block was written, in a region of less than about 3.5 GiB, `recover_region` hands out every released message of the
-- region's queue that is a well-formed item, oldest first, and no other: a message that its producer
-- never released is passed over.
pub recover_region-salvage :
    (round_up_p2 : ℕ → ℕ → ℕ)
    → RoundsUp round_up_p2
    → (is_item : List ℕ → Bool) (e : ℕ) → IsArea e
    → (m : Memory) (read_hand alloc_hand : ℕ) (xs : List Entry) → AllWritten xs
    → IsQueue round_up_p2 e m read_hand alloc_hand xs
    → flatten (recover_region round_up_p2 is_item e m alloc_hand read_hand) ≡ salvage is_item xs
unfolding recover_region flatten salvage
recover_region-salvage f law is_item e area m r s xs written q =
    let near = length-distance f e m r s xs area.whole_blocks q.alloc_in q.chain in
    let round = distance-below e r s q.read_in q.alloc_in in
    elim (Bool-cases (e / 4 == 0 || r == s)) [
      | inl nothing ↦
          let meet : s ≡ r = ground (arith, area.whole_blocks, area.not_empty) in
          rw (nothing, nothing_between f e m r s xs meet q.chain) refl
      | inr more ↦ rw more (
          recover_loop-salvage is_item f law e area m s q.alloc_in (e / 4) r [] xs (omega arith)
            (omega arith) written q.chain)
    ]
