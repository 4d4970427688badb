-- ===== src/MpscBus/Consume.antt =====
-- bus/mpsc_bus.hpp, the consumer: `read_region` hands out the released messages at the front of the
-- queue, in batches, and takes them off it.
use deeplog.Base.{
  ◌++◌, ==_iff, Bool-cases, List, [], ap₂, arith, inl, inr, length, refl, some, suc, sym, zero, ℕ,
  ◌<◌, ◌==◌, ◌∙◌, ◌∷◌, ◌≡◌, ◌≤◌,
}
use mathlib.Core.List.{flatten}
use native.Mathlib.Nat.{le_refl}
use deeplog.SharedMemory.{Memory, load32}
use deeplog.MpscBus.{
  Region, Info, Read, message_lock_flag, consume_batch_size, region_end, clear, messages, collect,
  read_batches, read_region,
}
use deeplog.MpscBus.Batch.{
  front, behind, released, unreleased, infos, reach, collect-infos, messages-infos, clear-IsQueue,
  released-front, unreleased-behind, length-front, behind-ready, front-ready, nothing_between,
}
use deeplog.MpscBus.Queue.{RoundsUp, IsArea, Entry, granted, pending, ready, IsQueue}

-- No batch is empty or longer than the consumer takes.
abbrev pub BatchesFit : List (List (List ℕ)) → Type 0
BatchesFit [] = Unit {0}
BatchesFit (b ∷ bs) = (0 < length b) × (length b ≤ consume_batch_size) × BatchesFit bs

-- The result of a run of the consumer, with the queue `xs` before it.
pub record Consumed (round_up_p2 : ℕ → ℕ → ℕ) (e s : ℕ) (xs : List Entry) (out : Read)
    : Type 0 where
  pub delivered : flatten out.0 ≡ released xs
  pub batches_fit : BatchesFit out.0
  pub left : IsQueue round_up_p2 e out.1 out.2 s (unreleased xs)

-- A batch before the batches of the rest.
Consumed-cons :
    (round_up_p2 : ℕ → ℕ → ℕ) (e s room : ℕ) (xs : List Entry) (msgs : List (List ℕ)) (out : Read)
    → room ≤ consume_batch_size
    → msgs ≡ front room xs
    → 0 < length (front room xs)
    → Consumed round_up_p2 e s (behind room xs) out
    → Consumed round_up_p2 e s xs (msgs ∷ out.0, out.1, out.2)
unfolding flatten
Consumed-cons f e s room xs msgs out small same pos rest = record {
  delivered = ap₂ ◌++◌ same rest.delivered ∙ sym (released-front room xs);
  batches_fit = rw same (pos, omega (arith, length-front room xs), rest.batches_fit);
  left = rw (unreleased-behind room xs) rest.left;
}

module _ (round_up_p2 : ℕ → ℕ → ℕ) (law : RoundsUp round_up_p2) (e : ℕ) (area : IsArea e) where
  stop_locked :
      (m : Memory) (r s : ℕ) (xs : List Entry)
      → IsQueue round_up_p2 e m r s xs
      → message_lock_flag ≤ load32 m s
  stop_locked m r s xs q = q.free_locked s q.alloc_aligned q.alloc_in (ground arith)

  pub batch :
      (m : Memory) (r s : ℕ) (xs : List Entry)
      → IsQueue round_up_p2 e m r s xs
      → collect round_up_p2 consume_batch_size e m r
        ≡ (infos round_up_p2 e consume_batch_size r xs, reach round_up_p2 e consume_batch_size r xs)
  batch m r s xs q =
      collect-infos round_up_p2 law e area consume_batch_size m r s xs q.alloc_in
        (stop_locked m r s xs q) q.chain

  -- A round whose batch is empty ends the loop.
  last_round :
      (fuel : ℕ) (m : Memory) (r pos : ℕ)
      → collect round_up_p2 consume_batch_size e m r ≡ ([], pos)
      → read_batches round_up_p2 (suc fuel) e m r ≡ some ([], m, r)
  unfolding read_batches
  last_round fuel m r pos h = ground arith

  next_round :
      (fuel : ℕ) (m : Memory) (r pos : ℕ) (i : Info) (is : List Info) (out : Read)
      → collect round_up_p2 consume_batch_size e m r ≡ (i ∷ is, pos)
      → read_batches round_up_p2 fuel e (clear m (i ∷ is)) pos ≡ some out
      → read_batches round_up_p2 (suc fuel) e m r ≡ some (messages m (i ∷ is) ∷ out.0, out.1, out.2)
  unfolding read_batches
  next_round fuel m r pos i is out h k = ground arith

  -- The loop ends if the fuel exceeds the number of messages.
  read_batches-Consumed :
      (fuel : ℕ) (m : Memory) (r s : ℕ) (xs : List Entry)
      → length xs < fuel
      → IsQueue round_up_p2 e m r s xs
      → (out : Read) × (read_batches round_up_p2 fuel e m r ≡ some out)
        × Consumed round_up_p2 e s xs out
  unfolding released unreleased infos reach flatten
  read_batches-Consumed zero m r s xs h q = absurd (omega arith)
  read_batches-Consumed (suc fuel) m r s [] h q = (
    ([], m, r),
    last_round fuel m r r (batch m r s [] q),
    record { delivered = refl; batches_fit = tt; left = q },
  )
  read_batches-Consumed (suc fuel) m r s (granted n ∷ xs) h q = (
    ([], m, r),
    last_round fuel m r r (batch m r s (granted n ∷ xs) q),
    record { delivered = refl; batches_fit = tt; left = q },
  )
  read_batches-Consumed (suc fuel) m r s (pending n ∷ xs) h q = (
    ([], m, r),
    last_round fuel m r r (batch m r s (pending n ∷ xs) q),
    record { delivered = refl; batches_fit = tt; left = q },
  )
  read_batches-Consumed (suc fuel) m r s (ready bytes ∷ xs) h q =
      let all : List Entry = ready bytes ∷ xs in
      let taken = infos round_up_p2 e consume_batch_size r all in
      let pos = reach round_up_p2 e consume_batch_size r all in
      let rest =
        read_batches-Consumed fuel (clear m taken) pos s (behind consume_batch_size all)
          (omega (arith, behind-ready 63 bytes xs))
          (clear-IsQueue round_up_p2 law e area consume_batch_size m r s all q) in
      (
        (messages m taken ∷ rest.0.0, rest.0.1, rest.0.2),
        next_round fuel m r pos _ _ rest.0 (batch m r s all q) rest.1,
        Consumed-cons round_up_p2 e s consume_batch_size all (messages m taken) rest.0 (le_refl _)
            (messages-infos round_up_p2 law e area consume_batch_size m r s all q.chain)
            (front-ready 63 bytes xs) rest.2,
      )

-- In a region of less than about 3.5 GiB, `read_region` ends, and hands out exactly the released messages at the front of the region's
-- queue, oldest first, each with the bytes that its producer wrote, in batches of 1 to 64; it
-- takes them off the queue and leaves the allocation hand and the other messages as they are.
-- Fuel that exceeds the number of messages is enough.
pub read_region-Consumed :
    (round_up_p2 : ℕ → ℕ → ℕ)
    → RoundsUp round_up_p2
    → (region_size : ℕ) → IsArea (region_end region_size)
    → (fuel : ℕ) (r : Region) (xs : List Entry) → length xs < fuel
    → IsQueue round_up_p2 (region_end region_size) r.block r.read_ptr r.alloc_ptr xs
    → (batches : List (List (List ℕ))) × (r' : Region) × (read_region round_up_p2 fuel region_size r
        ≡ some (batches, r'))
      × (flatten batches ≡ released xs)
      × BatchesFit batches
      × (r'.alloc_ptr ≡ r.alloc_ptr)
      × IsQueue round_up_p2
          (region_end region_size)
          r'.block
          r'.read_ptr
          r'.alloc_ptr
          (unreleased xs)
unfolding read_region released unreleased flatten
read_region-Consumed f law region_size area fuel r xs h q =
    elim (Bool-cases (r.alloc_ptr == r.read_ptr)) [
      | inl meet ↦
          let empty : xs ≡ [] =
            nothing_between f (region_end region_size) r.block r.read_ptr r.alloc_ptr xs
              ((==_iff r.alloc_ptr r.read_ptr).0 meet) q.chain in
          (
            [],
            r,
            rw meet,
            rw (empty, released, flatten),
            tt,
            refl,
            rw (empty, unreleased) (rw empty at q),
          )
      | inr apart ↦
          let found =
            read_batches-Consumed f law (region_end region_size) area fuel r.block r.read_ptr
              r.alloc_ptr xs h q in
          (
            found.0.0,
            record r { block = found.0.1; read_ptr = found.0.2 },
            ground (arith, found.1),
            found.2.delivered,
            found.2.batches_fit,
            refl,
            found.2.left,
          )
    ]
