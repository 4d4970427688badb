-- ===== src/MpscBus/Race/Drain.antt =====
-- bus/mpsc_bus.hpp: the consumer gets to the end of a region that no producer is writing to.
use deeplog.Base.{
  List, [], arith, length, none, refl, some, suc, sym, zero, ℕ, ◌++◌, ◌<◌, ◌∙◌, ◌∷◌, ◌≡◌, ◌≢◌, ◌≤◌,
}
use mathlib.Core.List.{Perm}
use mathlib.Core.Path.{subst}
use deeplog.MpscBus.{Memory, consume_batch_size, collect, clear, messages}
use deeplog.MpscBus.Queue.{RoundsUp, IsArea, next, Entry, granted, pending, ready, Chain}
use deeplog.MpscBus.Batch.{behind, behind-ready}
use deeplog.MpscBus.Consume.{batch}
use deeplog.MpscBus.Race.{
  System, consume, publish, Timely, Run, here, later, with_block, publish_read,
}
use deeplog.MpscBus.Race.Entries.{IsOpen, entry_at, entry_at-later}
use deeplog.MpscBus.Race.Invariant.{head_of, Inv}
use deeplog.MpscBus.Race.Reader.{consume-Inv}
use deeplog.MpscBus.Race.Safety.{Holds, Run-Holds, Starts, Starts-Holds, Run-delivered}

abbrev AllReady : List Entry → Type 0
AllReady [] = Unit {0}
AllReady (granted n ∷ xs) = ⊥
AllReady (pending n ∷ xs) = ⊥
AllReady (ready bytes ∷ xs) = AllReady xs

AllReady-behind : (room : ℕ) (xs : List Entry) → AllReady xs → AllReady (behind room xs)
unfolding behind
AllReady-behind zero xs h = h
AllReady-behind (suc room) [] h = h
AllReady-behind (suc room) (granted n ∷ xs) h = absurd h
AllReady-behind (suc room) (pending n ∷ xs) h = absurd h
AllReady-behind (suc room) (ready bytes ∷ xs) h = AllReady-behind room xs h

module _ (round_up_p2 : ℕ → ℕ → ℕ) (e : ℕ) where
  pub Run-append :
      {s t u : System} → Run round_up_p2 e s t → Run round_up_p2 e t u → Run round_up_p2 e s u
  Run-append r here = r
  Run-append r (later q st on_time) = later (Run-append r q) st on_time

module _ (round_up_p2 : ℕ → ℕ → ℕ) (law : RoundsUp round_up_p2) (e : ℕ) (area : IsArea e) where
  none_open :
      (m : Memory) (p : ℕ) (xs : List Entry) (stop : ℕ)
      → stop < e
      → Chain round_up_p2 e m p xs stop
      → ((h : ℕ) (x : Entry) → IsOpen x → entry_at round_up_p2 e p xs h ≢ some x)
      → AllReady xs
  none_open m p [] stop lt c closed = tt
  none_open m p (granted n ∷ xs) stop lt c closed =
      closed p (granted n) tt (unfold entry_at in ground arith)
  none_open m p (pending n ∷ xs) stop lt c closed =
      closed p (pending n) tt (unfold entry_at in ground arith)
  none_open m p (ready bytes ∷ xs) stop lt c closed =
      none_open m (next e p (round_up_p2 (length bytes) 4)) xs stop lt c.4 (λ h x open_x found.
        closed h x open_x
          (entry_at-later round_up_p2 e m p (ready bytes) xs stop h x area.whole_blocks lt c found))

  -- The consumer's last state, from a state with the messages `xs`.
  pub record Drained (t u : System) : Type 0 where
    pub run : Run round_up_p2 e t u
    pub caught_up : u.read_pos ≡ u.region.alloc_ptr
    pub published : u.region.read_ptr ≡ u.region.alloc_ptr
    pub same_producers : u.producers ≡ t.producers
    pub same_committed : u.committed ≡ t.committed

  after_consume : System → System
  after_consume t =
      let b = collect round_up_p2 consume_batch_size e t.region.block t.read_pos in
      record (with_block t (clear t.region.block b.0)) {
        read_pos = b.1;
        delivered = t.delivered ++ messages t.region.block b.0;
      }

  drains :
      (fuel : ℕ) (t : System) (xs : List Entry)
      → length xs ≤ fuel
      → Inv round_up_p2 e t xs
      → AllReady xs
      → (u : System) × Drained t u
  unfolding Timely after_consume
  drains fuel t [] h inv all = (
    publish_read t,
    record {
      run = later here publish tt;
      caught_up = inv.queue.chain;
      published = inv.queue.chain;
      same_producers = refl;
      same_committed = refl;
    },
  )
  drains fuel t (granted n ∷ xs) h inv all = absurd all
  drains fuel t (pending n ∷ xs) h inv all = absurd all
  drains zero t (ready bytes ∷ xs) h inv all = absurd (omega arith)
  drains (suc fuel) t (ready bytes ∷ xs) h inv all =
      let taken =
        batch round_up_p2 law e area t.region.block t.read_pos t.region.alloc_ptr (ready bytes ∷ xs)
          inv.queue in
      let rest =
        drains fuel (after_consume t) (behind consume_batch_size (ready bytes ∷ xs))
          (omega (arith, behind-ready 63 bytes xs))
          (consume-Inv round_up_p2 law e area t (ready bytes ∷ xs) inv _ taken)
          (AllReady-behind consume_batch_size (ready bytes ∷ xs) all) in
      (
        rest.0,
        record {
          run = Run-append round_up_p2 e (later here consume tt) rest.1.run;
          caught_up = rest.1.caught_up;
          published = rest.1.published;
          same_producers = rest.1.same_producers;
          same_committed = rest.1.same_committed;
        },
      )

  -- After any timely run from an empty region, of less than about 3.5 GiB, in which no producer is between its exchange and the
  -- release of its message, the consumer alone can go on until both hands meet, and it was then
  -- given every message that was released exactly once.
  pub Run-drains :
      {s t : System}
      → Starts round_up_p2 law e area s
      → Run round_up_p2 e s t
      → ((i : ℕ) → head_of (t.producers i) ≡ none)
      → (u : System) × Run round_up_p2 e t u
        × (u.producers ≡ t.producers)
        × (u.region.read_ptr ≡ u.region.alloc_ptr)
        × Perm t.committed u.delivered
  unfolding Holds
  Run-drains {s} {t} h r none_held =
      let now = Run-Holds round_up_p2 law e area (Starts-Holds round_up_p2 law e area s h) r in
      let q = now.1.queue in
      let all =
        none_open t.region.block t.read_pos now.0 t.region.alloc_ptr q.alloc_in q.chain
          (λ k x open_x found.
            let owner = now.1.owners.covered k x open_x found in
            let clash = sym (none_held owner.0) ∙ owner.1 in ground (arith, clash)) in
      let done = drains (length now.0) t now.0 (omega arith) now.1 all in
      (
        done.0,
        done.1.run,
        done.1.same_producers,
        done.1.published,
        subst (λ zs. Perm zs done.0.delivered) done.1.same_committed
            (Run-delivered round_up_p2 law e area h (Run-append round_up_p2 e r done.1.run)
              done.1.caught_up),
      )
