-- ===== src/MpscBus/Race/Stale.antt =====
-- bus/mpsc_bus.hpp, `allocate`: the read hand is loaded once, before the loop. If the allocation
-- hand goes round past it before the exchange, the exchange grants a block that is in use.
use deeplog.Base.{List, [], arith, none, refl, some, true, ℕ, ◌+◌, ◌<◌, ◌==◌, ◌∷◌, ◌≡◌, ◌≢◌, ◌≤◌}
use deeplog.MpscBus.{reserve}
use deeplog.SharedMemory.{Memory}
use deeplog.MpscBus.Race.Safety.{Holds, Starts, Starts-Holds, Run-Holds}
use deeplog.MpscBus.Queue.{RoundsUp, IsArea, Entry, IsQueue}
use deeplog.MpscBus.Race.{System, Step, Run, exchange, in_round, exchanged, with_pc, with_alloc}

reserve-stale :
    (e hand alloc a : ℕ)
    → IsArea e
    → hand ≤ alloc
    → alloc + 4 + a < e
    → reserve e hand alloc a ≡ some (alloc + 4, alloc + 4 + a)
unfolding reserve
reserve-stale e h s a area k l = ground arith

-- A region whose hands differ holds a message at the read hand.
oldest :
    (round_up_p2 : ℕ → ℕ → ℕ) (e : ℕ) (m : Memory) (p stop : ℕ) (xs : List Entry)
    → p ≢ stop
    → IsQueue round_up_p2 e m p stop xs
    → (x : Entry) × (rest : List Entry) × IsQueue round_up_p2 e m p stop (x ∷ rest)
oldest f e m p stop [] h q = absurd (h q.chain)
oldest f e m p stop (x ∷ xs) h q = (x, xs, q)

-- After a timely run from an empty region, of less than about 3.5 GiB, let the messages begin above the allocation hand, and
-- let a producer have loaded a read hand at or below it. Then the producer can exchange the
-- allocation hand for a block that covers the head of the oldest message, if the block ends between
-- that head and the end of the region. Against the read hand of now, `reserve` refuses it.
pub exchange-overlaps :
    (round_up_p2 : ℕ → ℕ → ℕ) (law : RoundsUp round_up_p2) (e : ℕ) (area : IsArea e)
    → {s0 s : System} → Starts round_up_p2 law e area s0
    → Run round_up_p2 e s0 s
    → (i n hand : ℕ) → s.producers i ≡ in_round n hand s.region.alloc_ptr
    → hand ≤ s.region.alloc_ptr
    → s.region.alloc_ptr < s.read_pos
    → s.read_pos < s.region.alloc_ptr + 4 + round_up_p2 n 4
    → s.region.alloc_ptr + 4 + round_up_p2 n 4 < e
    → (x : Entry) × (xs : List Entry) × IsQueue round_up_p2 e s.region.block s.read_pos
        s.region.alloc_ptr
        (x ∷ xs)
      × (t : System) × Step round_up_p2 e s t
      × (t.producers i ≡ exchanged n s.region.alloc_ptr (s.region.alloc_ptr + 4))
      × (s.region.alloc_ptr + 4 ≤ s.read_pos)
      × (s.read_pos < s.region.alloc_ptr + 4 + round_up_p2 n 4)
      × (reserve e s.read_pos s.region.alloc_ptr (round_up_p2 n 4) ≡ none)
unfolding reserve Holds
exchange-overlaps f law e area {s0} {s} starts r i n hand at_i old behind covers inside =
    let alloc = s.region.alloc_ptr in
    let a = f n 4 in
    let now = Run-Holds f law e area (Starts-Holds f law e area s0 starts) r in
    let first = oldest f e s.region.block s.read_pos alloc now.0 (omega arith) now.1.queue in
    let mine : (i == i) ≡ true = ground arith in
    (
      first.0,
      first.1,
      first.2,
      with_pc (with_alloc s (alloc + 4 + a)) i (exchanged n alloc (alloc + 4)),
      exchange i n hand (alloc + 4) (alloc + 4 + a) at_i
          (reserve-stale e hand alloc a area old inside),
      rw mine refl,
      ground (arith, now.1.queue.read_aligned, now.1.queue.alloc_aligned),
      covers,
      ground arith,
    )
