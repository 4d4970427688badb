-- ===== src/MpscBus/Regions.antt =====
-- bus/mpsc_bus.hpp: `consume_messages` reads the regions of a bus one after the other.
use deeplog.Base.{
  ==_iff, Bool-cases, List, Option, [], ap, ap₂, arith, false, inl, inr, length, none, refl, some,
  suc, sym, true, zero, ℕ, ◌++◌, ◌+◌, ◌<◌, ◌==◌, ◌∙◌, ◌∷◌, ◌≡◌, ◌≤◌,
}
use mathlib.Core.List.{flatten, append_assoc}
use mathlib.Core.Path.{subst}
use deeplog.MpscBus.{Bus, Region, region_end, with_region, read_region}
use deeplog.MpscBus.Queue.{RoundsUp, IsArea, Entry, IsQueue}
use deeplog.MpscBus.Batch.{released, unreleased}
use deeplog.MpscBus.Consume.{BatchesFit, read_region-Consumed}

-- The batches that the consumer was given so far, and those that follow.
pub and_more :
    List (List (List ℕ)) → Option (List (List (List ℕ)) × Bus) → Option (List (List (List ℕ)) × Bus)
and_more batches none = none
and_more batches (some (more, bus)) = some (batches ++ more, bus)

module _ (round_up_p2 : ℕ → ℕ → ℕ) (fuel : ℕ) where
  -- The loop over the regions, with the number of those that are left.
  pub consume_from : ℕ → ℕ → Bus → Option (List (List (List ℕ)) × Bus)
  consume_from zero region_id bus = some ([], bus)
  consume_from (suc left) region_id bus =
      elim (read_region round_up_p2 fuel bus.region_size (bus.region region_id)) [
        | none ↦ none
        | some (batches, r) ↦
            and_more batches (consume_from left (region_id + 1) (with_region bus region_id r))
      ]

  pub consume_messages : Bus → Option (List (List (List ℕ)) × Bus)
  consume_messages bus = consume_from bus.num_regions 0 bus

next_region :
    (f : ℕ → ℕ → ℕ) (fuel left i : ℕ) (bus bus' : Bus) (batches more : List (List (List ℕ)))
    (r : Region)
    → read_region f fuel bus.region_size (bus.region i) ≡ some (batches, r)
    → consume_from f fuel left (i + 1) (with_region bus i r) ≡ some (more, bus')
    → consume_from f fuel (suc left) i bus ≡ some (batches ++ more, bus')
unfolding consume_from and_more
next_region f fuel left i bus bus' batches more r h k = ground (arith, h, k)

-- The released messages of `left` regions, from that at `i` on.
unfoldable pub released_from : (ℕ → List Entry) → ℕ → ℕ → List (List ℕ)
released_from queues zero i = []
released_from queues (suc left) i = released (queues i) ++ released_from queues left (i + 1)

flatten-append : (xs ys : List (List (List ℕ))) → flatten (xs ++ ys) ≡ flatten xs ++ flatten ys
unfolding flatten
flatten-append [] ys = refl
flatten-append (x ∷ xs) ys =
    ap (◌++◌ x) (flatten-append xs ys) ∙ sym (append_assoc x (flatten xs) (flatten ys))

BatchesFit-append :
    (xs ys : List (List (List ℕ))) → BatchesFit xs → BatchesFit ys → BatchesFit (xs ++ ys)
BatchesFit-append [] ys h k = k
BatchesFit-append (x ∷ xs) ys h k = (h.0, h.1, BatchesFit-append xs ys h.2 k)

-- A region of the bus is the queue `xs`.
abbrev pub HasQueue : (ℕ → ℕ → ℕ) → Bus → ℕ → List Entry → Type 0
HasQueue f bus i xs =
    IsQueue f (region_end bus.region_size) (bus.region i).block (bus.region i).read_ptr
      (bus.region i).alloc_ptr xs

-- What a run over the regions from `i` up to `stop` leaves and hands out.
pub record Emptied (f : ℕ → ℕ → ℕ) (queues : ℕ → List Entry) (left i : ℕ) (bus : Bus)
    (batches : List (List (List ℕ))) (bus' : Bus) : Type 0 where
  pub delivered : flatten batches ≡ released_from queues left i
  pub batches_fit : BatchesFit batches
  pub same_size : bus'.region_size ≡ bus.region_size
  pub same_count : bus'.num_regions ≡ bus.num_regions
  pub same_before : (j : ℕ) → j < i → bus'.region j ≡ bus.region j
  pub queues_left : (j : ℕ) → i ≤ j → j < i + left → HasQueue f bus' j (unreleased (queues j))

module _ (round_up_p2 : ℕ → ℕ → ℕ) (law : RoundsUp round_up_p2) (fuel : ℕ)
    (queues : ℕ → List Entry) where
  loop :
      (left i : ℕ) (bus : Bus)
      → IsArea (region_end bus.region_size)
      → ((j : ℕ) → i ≤ j → j < i + left → HasQueue round_up_p2 bus j (queues j))
      → ((j : ℕ) → j < i + left → length (queues j) < fuel)
      → (batches : List (List (List ℕ))) × (bus' : Bus) × (consume_from round_up_p2 fuel left i bus
          ≡ some (batches, bus'))
        × Emptied round_up_p2 queues left i bus batches bus'
  unfolding consume_from released_from flatten
  loop zero i bus area has small = (
    [],
    bus,
    refl,
    record {
      delivered = refl;
      batches_fit = tt;
      same_size = refl;
      same_count = refl;
      same_before = λ j h. refl;
      queues_left = λ j h k. absurd (omega arith);
    },
  )
  loop (suc left) i bus area has small =
      let got =
        read_region-Consumed round_up_p2 law bus.region_size area fuel (bus.region i) (queues i)
          (small i (omega arith)) (has i (omega arith) (omega arith)) in
      let bus1 : Bus = with_region bus i got.1 in
      let rest =
        loop left (i + 1) bus1 area
          (λ j h k.
            let other : (j == i) ≡ false = ground arith in
            rw other (has j (omega arith) (omega arith)))
          (λ j k. small j (omega arith)) in
      (
        got.0 ++ rest.0,
        rest.1,
        next_region round_up_p2 fuel left i bus rest.1 got.0 rest.0 got.1 got.2 rest.2,
        record {
          delivered = flatten-append got.0 rest.0 ∙ ap₂ ◌++◌ got.3 rest.3.delivered;
          batches_fit = BatchesFit-append got.0 rest.0 got.4 rest.3.batches_fit;
          same_size = rest.3.same_size;
          same_count = rest.3.same_count;
          same_before = λ j h.
              let other : (j == i) ≡ false = ground arith in
              rest.3.same_before j (omega arith) ∙ rw other refl;
          queues_left = λ j h k. elim (Bool-cases (j == i)) [
            | inl here ↦
                let same : j ≡ i = (==_iff j i).0 here in
                rw same (
                  here_left i bus got.1 (queues i) rest.1 rest.3.same_size
                    (rest.3.same_before i (omega arith)) got.6)
            | inr there ↦ rest.3.queues_left j (ground arith) (omega arith)
          ];
        },
      )
    where
      here_left :
          (i : ℕ) (bus : Bus) (r : Region) (xs : List Entry) (bus' : Bus)
          → bus'.region_size ≡ bus.region_size
          → bus'.region i ≡ (with_region bus i r).region i
          → IsQueue round_up_p2
              (region_end bus.region_size)
              r.block
              r.read_ptr
              r.alloc_ptr
              (unreleased xs)
          → HasQueue round_up_p2 bus' i (unreleased xs)
      here_left i bus r xs bus' size at q =
          let mine : (i == i) ≡ true = ground arith in
          let same : bus'.region i ≡ r = at ∙ rw mine refl in
          subst
            (λ (t : Region).
              IsQueue round_up_p2 (region_end bus'.region_size) t.block t.read_ptr t.alloc_ptr
                (unreleased xs))
            (sym same) (rw size q)

  -- If the regions are of less than about 3.5 GiB, `consume_messages` ends, and hands out exactly the released messages at the front of each
  -- region's queue, region by region, in batches of 1 to 64; the other messages stay in their
  -- queues. Fuel that exceeds the number of messages of each region is enough.
  pub consume_messages-Emptied :
      (bus : Bus)
      → IsArea (region_end bus.region_size)
      → ((j : ℕ) → j < bus.num_regions → HasQueue round_up_p2 bus j (queues j))
      → ((j : ℕ) → j < bus.num_regions → length (queues j) < fuel)
      → (batches : List (List (List ℕ))) × (bus' : Bus) × (consume_messages round_up_p2 fuel bus
          ≡ some (batches, bus'))
        × Emptied round_up_p2 queues bus.num_regions 0 bus batches bus'
  unfolding consume_messages
  consume_messages-Emptied bus area has small =
      loop bus.num_regions 0 bus area (λ j h k. has j (omega arith)) (λ j k. small j (omega arith))
