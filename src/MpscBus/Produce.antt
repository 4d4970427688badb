-- ===== src/MpscBus/Produce.antt =====
-- bus/mpsc_bus.hpp, the producers: `allocate`, the writing of a message and its release, against
-- the queue of a region.
use deeplog.Base.{
  Bool, List, Option, Option-cases, [], arith, err, false, inl, inr, none, ok, ok-injective, ok≢err,
  refl, some, sym, ℕ, ◌++◌, ◌+◌, ◌<◌, ◌∙◌, ◌∷◌, ◌≡◌, ◌≤◌,
}
use mathlib.Core.Path.{subst}
use deeplog.Errc.{not_enough_space}
use deeplog.SharedMemory.{store32}
use deeplog.MpscBus.{
  Region, OutputBuffer, max_message_size, message_lock_flag, region_end, reserve, allocate_loop,
  allocate,
}
use deeplog.MpscBus.Queue.{
  RoundsUp, round_up_block, IsArea, place, Entry, pending, next, used, Segment, IsQueue,
}
use deeplog.MpscBus.Queue.Extend.{
  Moves, reserve-Segment, IsQueue-extend, granted-inside, granted-free,
}

-- Spurious failures of the exchange change nothing: the loop ends with what one round decides.
pub allocate_loop-eq-reserve :
    (round_up_p2 : ℕ → ℕ → ℕ) (exchanges : List Bool) (e read_hand alloc_hand a : ℕ)
    → allocate_loop round_up_p2 exchanges e read_hand alloc_hand a
      ≡ reserve e read_hand alloc_hand a
unfolding allocate_loop
allocate_loop-eq-reserve f [] e r s a = refl
allocate_loop-eq-reserve f (failed ∷ more) e r s a =
    ground (arith, allocate_loop-eq-reserve f more e r s a)

-- `reserve` refuses a message only if its block would reach the read hand, whichever way it is
-- placed.
reserve_refuses :
    (e read_hand alloc_hand a stop : ℕ)
    → IsArea e
    → a ≤ max_message_size + 4
    → read_hand < e
    → alloc_hand < e
    → reserve e read_hand alloc_hand a ≡ none
    → ¬ (
        Segment e alloc_hand a stop
        × (next e alloc_hand a ≡ stop)
        × Moves alloc_hand stop read_hand)
unfolding reserve
reserve_refuses e r s a stop area fits hr hs h (seg, n, k) = ground arith

-- What `allocate` promises of the region and the buffer that it returns.
pub record Allocated (round_up_p2 : ℕ → ℕ → ℕ) (e n : ℕ) (xs : List Entry) (r r' : Region)
    (out : OutputBuffer) : Type 0 where
  pub queue : IsQueue round_up_p2 e r'.block r'.read_ptr r'.alloc_ptr (xs ++ pending n ∷ [])
  pub same_read : r'.read_ptr ≡ r.read_ptr
  pub head : out.msg_ctrl ≡ some r.alloc_ptr
  pub position : out.position ≡ place e r.alloc_ptr out.size
  pub room : n ≤ out.size
  pub inside : out.position + out.size ≤ e
  pub was_free :
      (i : ℕ)
      → out.position ≤ i
      → i < out.position + out.size
      → used r.read_ptr r.alloc_ptr i ≡ false

module _ (round_up_p2 : ℕ → ℕ → ℕ) (region_size : ℕ) (exchanges : List Bool) (n : ℕ)
    (r : Region) where
  abbrev decision : Option (ℕ × ℕ)
  decision = reserve (region_end region_size) r.read_ptr r.alloc_ptr (round_up_p2 n 4)

  pub allocate-refused :
      decision ≡ none → allocate round_up_p2 region_size exchanges n r ≡ err not_enough_space
  unfolding allocate
  allocate-refused h = ground (
    arith,
    allocate_loop-eq-reserve round_up_p2 exchanges (region_end region_size) r.read_ptr r.alloc_ptr
        (round_up_p2 n 4),
  )

  pub allocate-granted :
      (position stop : ℕ)
      → decision ≡ some (position, stop)
      → allocate round_up_p2 region_size exchanges n r
        ≡ ok (
          record r {
            alloc_ptr = stop;
            block = store32 r.block r.alloc_ptr (n + message_lock_flag);
          },
          record { position = position; size = round_up_p2 n 4; msg_ctrl = some r.alloc_ptr },
        )
  unfolding allocate
  allocate-granted position stop h = ground (
    arith,
    allocate_loop-eq-reserve round_up_p2 exchanges (region_end region_size) r.read_ptr r.alloc_ptr
        (round_up_p2 n 4),
  )

module _ (round_up_p2 : ℕ → ℕ → ℕ) (law : RoundsUp round_up_p2) (region_size : ℕ)
    (area : IsArea (region_end region_size)) where
  abbrev e : ℕ
  e = region_end region_size

  pub granted-Allocated :
      (n : ℕ) (r : Region) (xs : List Entry) (position stop : ℕ)
      → n ≤ max_message_size
      → IsQueue round_up_p2 e r.block r.read_ptr r.alloc_ptr xs
      → reserve e r.read_ptr r.alloc_ptr (round_up_p2 n 4) ≡ some (position, stop)
      → Allocated round_up_p2 e n xs r
          (record r {
            alloc_ptr = stop;
            block = store32 r.block r.alloc_ptr (n + message_lock_flag);
          })
          (record { position = position; size = round_up_p2 n 4; msg_ctrl = some r.alloc_ptr })
  granted-Allocated n r xs position stop small q granted =
      let bounds = round_up_block n law small in
      let g =
        reserve-Segment e r.read_ptr r.alloc_ptr (round_up_p2 n 4) position stop area (omega arith)
          q.read_in q.alloc_in q.alloc_aligned granted in
      record {
        queue =
            IsQueue-extend round_up_p2 law e area r.block r.read_ptr r.alloc_ptr stop n xs small q
              g.0 g.1 g.3 g.4;
        same_read = refl;
        head = refl;
        position = sym g.2;
        room = bounds.1;
        inside =
            subst (λ (x : ℕ). x + round_up_p2 n 4 ≤ e) g.2
              (granted-inside e r.alloc_ptr (round_up_p2 n 4) stop g.4 g.1);
        was_free = λ i k l.
            granted-free e r.read_ptr r.alloc_ptr (round_up_p2 n 4) stop i g.4 g.0 g.1 g.3
              (rw g.2 k) (rw g.2 l);
      }

  -- In a region whose block area is of less than about 3.5 GiB (its end plus 2^29 + 7 is below 2^32)
  -- and a multiple of 4, a successful `allocate` of a message up to the greatest size appends a locked message to the queue of the region; the buffer that
  -- it returns lies inside the block area, holds the payload and overlaps no message of the queue.
  pub allocate-Allocated :
      (exchanges : List Bool) (n : ℕ) (r r' : Region) (out : OutputBuffer) (xs : List Entry)
      → n ≤ max_message_size
      → IsQueue round_up_p2 e r.block r.read_ptr r.alloc_ptr xs
      → allocate round_up_p2 region_size exchanges n r ≡ ok (r', out)
      → Allocated round_up_p2 e n xs r r' out
  allocate-Allocated exchanges n r r' out xs small q h =
      elim (Option-cases (reserve e r.read_ptr r.alloc_ptr (round_up_p2 n 4))) [
        | inl refused ↦
            absurd (ok≢err (sym h ∙ allocate-refused round_up_p2 region_size exchanges n r refused))
        | inr ((position, stop), granted) ↦
            subst (λ t. Allocated round_up_p2 e n xs r t.0 t.1)
              (ok-injective (
                sym (allocate-granted round_up_p2 region_size exchanges n r position stop granted)
                ∙ h))
              (granted-Allocated n r xs position stop small q granted)
      ]
