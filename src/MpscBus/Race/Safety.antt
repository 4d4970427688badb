-- ===== src/MpscBus/Race/Safety.antt =====
-- bus/mpsc_bus.hpp: what holds after any run of a region's producers and its consumer.
use deeplog.Base.{
  ==_iff, Bool-cases, List, [], ap, arith, inl, inr, refl, some, sym, true, ℕ, ◌++◌, ◌+◌, ◌<◌, ◌==◌,
  ◌∙◌, ◌∷◌, ◌≡◌, ◌≢◌, ◌≤◌,
}
use mathlib.Core.List.Perm
use mathlib.Core.List.{Perm, append-nil}
use mathlib.Core.Path.{subst}
use deeplog.MpscBus.{Memory, OutputBuffer}
use deeplog.MpscBus.Queue.{
  RoundsUp, IsArea, place, next, used, Entry, size, pending, Chain, IsQueue,
}
use deeplog.MpscBus.Queue.Frame.{used-payload, used-next, used-next-payload}
use deeplog.MpscBus.Batch.{nothing_between}
use deeplog.MpscBus.Consume.{batch}
use deeplog.MpscBus.Race.{
  idle, writing, System, Step, load_read, load_alloc, exchange, retry, refuse, store_head, release,
  consume, publish, Timely, Run, here, later,
}
use deeplog.MpscBus.Race.Entries.{readies, entry_at}
use deeplog.MpscBus.Race.Invariant.{head_of, Owned, Inv}
use deeplog.MpscBus.Race.Exchange.{Owned-at, local-Inv, exchange-Inv}
use deeplog.MpscBus.Race.Change.{store_head-Inv, release-Inv}
use deeplog.MpscBus.Race.Reader.{consume-Inv, publish-Inv}

module _ (round_up_p2 : ℕ → ℕ → ℕ) (law : RoundsUp round_up_p2) (e : ℕ) (area : IsArea e) where
  -- The region is a queue of messages, and the producers' blocks are messages of it.
  unfoldable pub Holds : System → Type 0
  Holds s = (xs : List Entry) × Inv round_up_p2 e s xs

  pub Step-Holds :
      {s t : System} (st : Step round_up_p2 e s t) → Timely round_up_p2 e st → Holds s → Holds t
  unfolding Holds Timely Owned head_of
  Step-Holds {s} (load_read i n at_i small) on_time (xs, inv) = (
    xs,
    local-Inv round_up_p2 law e area s xs inv i _ (ap head_of at_i) refl (small, inv.published_in),
  )
  Step-Holds {s} (load_alloc i n hand at_i) on_time (xs, inv) = (
    xs,
    local-Inv round_up_p2 law e area s xs inv i _ (ap head_of at_i) refl
        (Owned-at round_up_p2 law e area s xs inv i _ at_i),
  )
  Step-Holds {s} (exchange i n hand position stop at_i reserved) on_time (xs, inv) =
      (_, exchange-Inv round_up_p2 law e area s xs inv i n hand position stop at_i reserved on_time)
  Step-Holds {s} (retry i n hand a position stop at_i reserved) on_time (xs, inv) = (
    xs,
    local-Inv round_up_p2 law e area s xs inv i _ (ap head_of at_i) refl
        (Owned-at round_up_p2 law e area s xs inv i _ at_i),
  )
  Step-Holds {s} (refuse i n hand a at_i refused) on_time (xs, inv) =
      (xs, local-Inv round_up_p2 law e area s xs inv i _ (ap head_of at_i) refl tt)
  Step-Holds {s} (store_head i n a position at_i) on_time (xs, inv) =
      store_head-Inv round_up_p2 law e area s xs inv i n a position at_i
  Step-Holds {s} (release i n out out' bytes m at_i fits all written) on_time (xs, inv) =
      release-Inv round_up_p2 law e area s xs inv i n out out' bytes m at_i fits all written
  Step-Holds {s} consume on_time (xs, inv) = (
    _,
    consume-Inv round_up_p2 law e area s xs inv _
        (batch round_up_p2 law e area s.region.block s.read_pos s.region.alloc_ptr xs inv.queue),
  )
  Step-Holds {s} publish on_time (xs, inv) = (xs, publish-Inv round_up_p2 law e area s xs inv)

  pub Run-Holds : {s t : System} → Holds s → Run round_up_p2 e s t → Holds t
  Run-Holds h here = h
  Run-Holds h (later r st on_time) = Step-Holds st on_time (Run-Holds h r)

  -- A region without messages and producers.
  pub record Starts (s : System) : Type 0 where
    pub empty : IsQueue round_up_p2 e s.region.block s.region.read_ptr s.region.alloc_ptr []
    pub at_read : s.read_pos ≡ s.region.read_ptr
    pub all_idle : (i : ℕ) → s.producers i ≡ idle
    pub none_committed : s.committed ≡ []
    pub none_delivered : s.delivered ≡ []

  pub Starts-Holds : (s : System) → Starts s → Holds s
  unfolding Holds Owned head_of readies entry_at
  Starts-Holds s h = (
    [],
    record {
      queue =
          subst (λ (p : ℕ). IsQueue round_up_p2 e s.region.block p s.region.alloc_ptr [])
            (sym h.at_read) h.empty;
      published_in = h.empty.read_in;
      published = inl (sym h.at_read);
      owners = record {
        owned = λ i. rw (h.all_idle i) tt;
        distinct = λ i j k p q. absurd (none_held i k p);
        covered = λ k x o found. absurd (ground (arith, found));
      };
      conserved = rw (h.none_committed, h.none_delivered) Perm.nil;
    },
  )
    where
      none_held : (i k : ℕ) → head_of (s.producers i) ≡ some k → ⊥
      none_held i k p = let q = sym (ap head_of (h.all_idle i)) ∙ p in ground (arith, q)

  -- An offset of the payload of the message at `h`.
  abbrev pub Inside : ℕ → ℕ → ℕ → Type 0
  Inside h n i =
      (place e h (round_up_p2 n 4) ≤ i) × (i < place e h (round_up_p2 n 4) + round_up_p2 n 4)

  Inside-used :
      (m : _) (p : ℕ) (xs : List Entry) (stop h i : ℕ) (x : Entry)
      → stop < e
      → Chain round_up_p2 e m p xs stop
      → entry_at round_up_p2 e p xs h ≡ some x
      → Inside h (size x) i
      → used p stop i ≡ true
  unfolding entry_at
  Inside-used m p [] stop h i x lt c found inside = absurd (ground (arith, found))
  Inside-used m p (y ∷ xs) stop h i x lt c found inside =
      let a = round_up_p2 (size y) 4 in
      elim (Bool-cases (p == h)) [
        | inl at_head ↦
            let same : p ≡ h = (==_iff p h).0 at_head in
            let first : y ≡ x = ground (arith, found) in
            (used-payload e p a stop i lt c.1 (rw (same, first) inside.0)
              (rw (same, first) inside.1)).1
        | inr further ↦
            used-next e p a stop i lt c.1
              (Inside-used m (next e p a) xs stop h i x lt c.4 (ground (arith, found)) inside)
      ]

  -- The payloads of two messages share no offset.
  payloads-apart :
      (m : Memory) (p : ℕ) (xs : List Entry) (stop h k i : ℕ) (x y : Entry)
      → stop < e
      → Chain round_up_p2 e m p xs stop
      → entry_at round_up_p2 e p xs h ≡ some x
      → entry_at round_up_p2 e p xs k ≡ some y
      → h ≢ k
      → Inside h (size x) i
      → ¬ Inside k (size y) i
  unfolding entry_at
  payloads-apart m p [] stop h k i x y lt c found found' apart in_x in_y =
      absurd (ground (arith, found))
  payloads-apart m p (z ∷ xs) stop h k i x y lt c found found' apart in_x in_y =
      let a = round_up_p2 (size z) 4 in
      elim (Bool-cases (p == h)) [
        | inl at_h ↦
            let same : p ≡ h = (==_iff p h).0 at_h in
            let first : z ≡ x = ground (arith, found) in
            let free =
              used-next-payload e p a stop i lt c.1 (rw (same, first) in_x.0)
                (rw (same, first) in_x.1) in
            let later_used =
              Inside-used m (next e p a) xs stop k i y lt c.4 (ground (arith, found')) in_y in
            ground (arith, free, later_used)
        | inr not_h ↦ elim (Bool-cases (p == k)) [
          | inl at_k ↦
              let same : p ≡ k = (==_iff p k).0 at_k in
              let first : z ≡ y = ground (arith, found') in
              let free =
                used-next-payload e p a stop i lt c.1 (rw (same, first) in_y.0)
                  (rw (same, first) in_y.1) in
              let later_used =
                Inside-used m (next e p a) xs stop h i x lt c.4 (ground (arith, found)) in_x in
              ground (arith, free, later_used)
          | inr not_k ↦
              payloads-apart m (next e p a) xs stop h k i x y lt c.4 (ground (arith, found))
                (ground (arith, found')) apart in_x in_y
        ]
      ]

  held-apart :
      (s : System) (xs : List Entry)
      → Inv round_up_p2 e s xs
      → (i j n n' k : ℕ) (out out' : OutputBuffer) → i ≢ j
      → s.producers i ≡ writing n out
      → s.producers j ≡ writing n' out'
      → (out.position ≤ k) × (k < out.position + round_up_p2 n 4)
      → ¬ ((out'.position ≤ k) × (k < out'.position + round_up_p2 n' 4))
  unfolding Owned head_of
  held-apart s xs inv i j n n' k out out' apart at_i at_j in_i in_j =
      let o = Owned-at round_up_p2 law e area s xs inv i _ at_i in
      let o' = Owned-at round_up_p2 law e area s xs inv j _ at_j in
      payloads-apart s.region.block s.read_pos xs s.region.alloc_ptr o.0 o'.0 k (pending n)
        (pending n') inv.queue.alloc_in inv.queue.chain o.2 o'.2
        (λ same. apart (
          inv.owners.distinct i j o.0 (ap head_of at_i ∙ o.1)
            (ap head_of at_j ∙ o'.1 ∙ ap some (sym same))))
        (rw (← o.3) in_i) (rw (← o'.3) in_j)

  -- After any timely run from an empty region, of less than about 3.5 GiB, no offset lies in the blocks of two producers that
  -- write their messages.
  pub Run-exclusive :
      {s t : System}
      → Starts s
      → Run round_up_p2 e s t
      → (i j n n' k : ℕ) (out out' : OutputBuffer) → i ≢ j
      → t.producers i ≡ writing n out
      → t.producers j ≡ writing n' out'
      → (out.position ≤ k) × (k < out.position + round_up_p2 n 4)
      → ¬ ((out'.position ≤ k) × (k < out'.position + round_up_p2 n' 4))
  unfolding Holds
  Run-exclusive {s} {t} h r i j n n' k out out' =
      let done = Run-Holds (Starts-Holds s h) r in held-apart t done.0 done.1 i j n n' k out out'

  -- After any timely run from an empty region, of less than about 3.5 GiB, whose consumer has caught up with the allocation
  -- hand, the consumer was given every message that was released exactly once, with its bytes.
  pub Run-delivered :
      {s t : System}
      → Starts s
      → Run round_up_p2 e s t
      → t.read_pos ≡ t.region.alloc_ptr
      → Perm t.committed t.delivered
  unfolding Holds readies
  Run-delivered {s} {t} h r caught_up =
      let done = Run-Holds (Starts-Holds s h) r in
      let none_left =
        nothing_between round_up_p2 e t.region.block t.read_pos t.region.alloc_ptr done.0
          (sym caught_up) done.1.queue.chain in
      subst (Perm t.committed) (append-nil t.delivered)
        (subst (λ zs. Perm t.committed (t.delivered ++ readies zs)) none_left done.1.conserved)
