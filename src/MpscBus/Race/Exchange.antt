-- ===== src/MpscBus/Race/Exchange.antt =====
-- bus/mpsc_bus.hpp, `allocate`: the loads and the exchange keep the invariant.
use deeplog.Base.{List, [], ap, arith, inl, inr, none, some, sym, ℕ, ◌++◌, ◌∙◌, ◌∷◌, ◌≡◌, ◌≢◌, ◌⊎◌}
use mathlib.Core.Option.{some_inj}
use mathlib.Core.List.{Perm, append-nil}
use mathlib.Core.Path.{subst}
use deeplog.MpscBus.{reserve}
use deeplog.MpscBus.Queue.{RoundsUp, round_up_block, IsArea, Entry, granted}
use deeplog.MpscBus.Queue.Extend.{reserve-Segment}
use deeplog.MpscBus.Race.{Pc, in_round, exchanged, System, with_pc, with_alloc}
use deeplog.MpscBus.Race.Hands.{Fresh, Fresh-trans, Moves-Fresh, Fresh-Moves}
use deeplog.MpscBus.Race.Entries.{
  entry_at-append_inv, readies, readies-append, IsOpen, entry_at, entry_at-apart, entry_at-append,
  entry_at-last,
}
use deeplog.MpscBus.Race.Grant.{IsQueue-grant}
use deeplog.MpscBus.Race.Invariant.{head_of, Owned, Inv, head-IsOpen, Owners-update}

module _ (round_up_p2 : ℕ → ℕ → ℕ) (law : RoundsUp round_up_p2) (e : ℕ) (area : IsArea e)
    (s : System) (xs : List Entry) (inv : Inv round_up_p2 e s xs) where
  pub Owned-at : (i : ℕ) (pc : Pc) → s.producers i ≡ pc → Owned round_up_p2 e s.read_pos xs pc
  Owned-at i pc h = subst (Owned round_up_p2 e s.read_pos xs) h (inv.owners.owned i)

  -- A message that is not released is that of a producer other than one that owns no block.
  cover_others :
      (i : ℕ)
      → head_of (s.producers i) ≡ none
      → (h : ℕ) (x : Entry) → IsOpen x
      → entry_at round_up_p2 e s.read_pos xs h ≡ some x
      → (j : ℕ) × (j ≢ i) × (head_of (s.producers j) ≡ some h)
  cover_others i bare h x open_x found =
      let owner = inv.owners.covered h x open_x found in
      (
        owner.0,
        λ same.
            let clash : some h ≡ none =
              sym owner.1 ∙ ap (λ (j : ℕ). head_of (s.producers j)) same ∙ bare in
            absurd (ground (arith, clash)),
        owner.1,
      )

  -- A producer that owns no block goes on without one.
  pub local-Inv :
      (i : ℕ) (pc : Pc)
      → head_of (s.producers i) ≡ none
      → head_of pc ≡ none
      → Owned round_up_p2 e s.read_pos xs pc
      → Inv round_up_p2 e (with_pc s i pc) xs
  local-Inv i pc bare blank o = record {
    queue = inv.queue;
    published_in = inv.published_in;
    published = inv.published;
    owners =
        Owners-update round_up_p2 e s.read_pos xs xs s.producers i pc
          (λ j h other at_head. rw blank (λ k. absurd (ground (arith, k))))
          (λ j h x other at_head open_x found. found)
          (λ h x open_x found. inr (cover_others i bare h x open_x found)) o inv.owners;
    conserved = inv.conserved;
  }

  -- Another producer's block is elsewhere.
  pub elsewhere :
      (i j h k : ℕ)
      → head_of (s.producers i) ≡ some h
      → j ≢ i
      → head_of (s.producers j) ≡ some k
      → k ≢ h
  elsewhere i j h k at_h other at_k same =
      other (inv.owners.distinct j i h (at_k ∙ ap some same) at_h)

  pub exchange-Inv :
      (i n hand position stop : ℕ)
      → s.producers i ≡ in_round n hand s.region.alloc_ptr
      → reserve e hand s.region.alloc_ptr (round_up_p2 n 4) ≡ some (position, stop)
      → Fresh hand s.region.read_ptr s.region.alloc_ptr
      → Inv round_up_p2 e
          (with_pc (with_alloc s stop) i (exchanged n s.region.alloc_ptr position))
          (xs ++ granted n ∷ [])
  unfolding Owned head_of readies
  exchange-Inv i n hand position stop at_i reserved fresh =
      let alloc = s.region.alloc_ptr in
      let q = inv.queue in
      let o = Owned-at i _ at_i in
      let bounds = round_up_block n law o.0 in
      let g =
        reserve-Segment e hand alloc (round_up_p2 n 4) position stop area (omega arith) o.1
          q.alloc_in q.alloc_aligned reserved in
      let reader = Fresh-trans hand s.region.read_ptr s.read_pos alloc fresh inv.published in
      record {
        queue =
            IsQueue-grant round_up_p2 law e area s.region.block s.read_pos alloc stop n xs o.0 q g.0
              g.1 (Moves-Fresh hand s.read_pos alloc stop reader g.3) g.4;
        published_in = inv.published_in;
        published =
            Fresh-Moves s.region.read_ptr s.read_pos alloc stop inv.published
              (Moves-Fresh hand s.region.read_ptr alloc stop fresh g.3);
        owners =
            Owners-update round_up_p2 e s.read_pos xs (xs ++ granted n ∷ []) s.producers i
              (exchanged n alloc position) (λ j h other at_h. new j h at_h)
              (λ j h x other at_h open_x found.
                entry_at-append round_up_p2 e s.read_pos xs (granted n ∷ []) h x found)
              covers
              (
                entry_at-last round_up_p2 e s.region.block s.read_pos xs alloc (granted n) q.chain,
                sym g.2,
              )
              inv.owners;
        conserved =
            subst (λ zs. Perm s.committed (s.delivered ++ zs))
              (sym (readies-append xs (granted n ∷ []) ∙ append-nil (readies xs))) inv.conserved;
      }
    where
      covers :
          (h : ℕ) (x : Entry)
          → IsOpen x
          → entry_at round_up_p2 e s.read_pos (xs ++ granted n ∷ []) h ≡ some x
          → (some s.region.alloc_ptr ≡ some h)
            ⊎ ((j : ℕ) × (j ≢ i) × (head_of (s.producers j) ≡ some h))
      covers h x open_x found =
          elim (entry_at-append_inv round_up_p2 e s.region.block s.read_pos xs (granted n)
            s.region.alloc_ptr h x inv.queue.chain found) [
              | inl old ↦ inr (cover_others i (ap head_of at_i) h x open_x old)
              | inr last ↦ inl (ap some (sym last))
            ]

      new : (j h : ℕ) → head_of (s.producers j) ≡ some h → some s.region.alloc_ptr ≢ some h
      new j h at_h same =
          let x =
            head-IsOpen round_up_p2 e s.read_pos xs (s.producers j) h (inv.owners.owned j) at_h in
          entry_at-apart round_up_p2 e s.region.block s.read_pos xs s.region.alloc_ptr h x.0
            inv.queue.chain x.2 (sym (some_inj.0 same))
