-- ===== src/MpscBus/Race/Change.antt =====
-- bus/mpsc_bus.hpp: a producer that writes its head, or its message and the release, keeps the
-- invariant.
use deeplog.Base.{
  ==_iff, Bool-cases, List, ap, arith, inl, inr, length, ok, ok-injective, refl, some, sym, ℕ, ◌++◌,
  ◌+◌, ◌==◌, ◌∙◌, ◌∷◌, ◌≡◌, ◌≢◌, ◌⊎◌,
}
use mathlib.Core.List.Perm
use mathlib.Core.Option.{some_inj}
use mathlib.Core.List.{Perm, perm_middle, append_assoc}
use mathlib.Core.Path.{subst}
use deeplog.SharedMemory.{Memory, store32}
use deeplog.SharedMemory.Laws.{AllBytes}
use deeplog.MpscBus.{OutputBuffer, message_lock_flag}
use deeplog.MpscBus.Queue.{RoundsUp, IsArea, Entry, size, granted, pending, ready, IsQueue}
use deeplog.MpscBus.Commit.{write_and_commit, write_and_commit-IsQueue}
use deeplog.MpscBus.Race.{Pc, idle, exchanged, writing, System, with_pc, with_block, buffer}
use deeplog.MpscBus.Race.Entries.{readies, readies-append, IsOpen, entry_at, Split, split}
use deeplog.MpscBus.Race.Grant.{head-IsQueue}
use deeplog.MpscBus.Race.Invariant.{head_of, update, Owned, Owners, Inv, Owners-update}
use deeplog.MpscBus.Race.Exchange.{Owned-at, elsewhere}

module _ (round_up_p2 : ℕ → ℕ → ℕ) (law : RoundsUp round_up_p2) (e : ℕ) (area : IsArea e)
    (s : System) (xs : List Entry) (inv : Inv round_up_p2 e s xs) where
  -- One producer changes its own message, which is at `h`.
  module _ (i h : ℕ) (x y : Entry) (at_h : head_of (s.producers i) ≡ some h)
      (p : Split round_up_p2 e s.read_pos xs h x) (same_size : size y ≡ size x) where
    abbrev changed : List Entry
    changed = p.before ++ y ∷ p.after

    keeps :
        (j k : ℕ) (z : Entry)
        → j ≢ i
        → head_of (s.producers j) ≡ some k
        → IsOpen z
        → entry_at round_up_p2 e s.read_pos xs k ≡ some z
        → entry_at round_up_p2 e s.read_pos changed k ≡ some z
    keeps j k z other at_k open_z found =
        p.replaced y same_size k
        ∙ ground (arith, elsewhere round_up_p2 law e area s xs inv i j h k at_h other at_k, found)

    found_new : entry_at round_up_p2 e s.read_pos changed h ≡ some y
    found_new = p.replaced y same_size h ∙ ground arith

    covers :
        (pc : Pc)
        → (IsOpen y → head_of pc ≡ some h)
        → (k : ℕ) (z : Entry) → IsOpen z
        → entry_at round_up_p2 e s.read_pos changed k ≡ some z
        → (head_of pc ≡ some k) ⊎ ((j : ℕ) × (j ≢ i) × (head_of (s.producers j) ≡ some k))
    covers pc still k z open_z found = elim (Bool-cases (h == k)) [
      | inl at ↦
          let same : h ≡ k = (==_iff h k).0 at in
          let mine : y ≡ z = ground (arith, found, p.replaced y same_size k) in
          inl (still (subst IsOpen (sym mine) open_z) ∙ ap some same)
      | inr apart ↦
          let old : entry_at round_up_p2 e s.read_pos xs k ≡ some z =
            ground (arith, found, p.replaced y same_size k) in
          let owner = inv.owners.covered k z open_z old in
          inr (
            owner.0,
            λ same.
                let clash : h ≡ k =
                  some_inj.0
                    (sym at_h ∙ ap (λ (j : ℕ). head_of (s.producers j)) (sym same) ∙ owner.1) in
                absurd (ground (arith, clash)),
            owner.1,
          )
    ]

    pub change-Owners :
        (pc : Pc)
        → ((k : ℕ) → head_of pc ≡ some k → k ≡ h)
        → (IsOpen y → head_of pc ≡ some h)
        → (entry_at round_up_p2 e s.read_pos changed h ≡ some y
            → Owned round_up_p2 e s.read_pos changed pc)
        → Owners round_up_p2 e s.read_pos changed (update s.producers i pc)
    change-Owners pc own still o =
        Owners-update round_up_p2 e s.read_pos xs changed s.producers i pc
          (λ j k other at_k same.
            elsewhere round_up_p2 law e area s xs inv i j h k at_h other at_k (own k same))
          keeps (covers pc still) (o found_new) inv.owners

  pub store_head-Inv :
      (i n alloc_hand position : ℕ)
      → s.producers i ≡ exchanged n alloc_hand position
      → (xs' : List Entry) × Inv round_up_p2 e
          (with_pc
            (with_block s (store32 s.region.block alloc_hand (n + message_lock_flag)))
            i
            (writing n (buffer round_up_p2 e n alloc_hand position)))
          xs'
  unfolding Owned head_of readies
  store_head-Inv i n h position at_i =
      let o = Owned-at round_up_p2 law e area s xs inv i _ at_i in
      let p = split round_up_p2 e s.read_pos xs h (granted n) o.0 in
      let at_h : head_of (s.producers i) ≡ some h = ap head_of at_i in
      let q : IsQueue round_up_p2 e s.region.block s.read_pos s.region.alloc_ptr
          (p.before ++ granted n ∷ p.after) =
        subst (IsQueue round_up_p2 e s.region.block s.read_pos s.region.alloc_ptr) p.parts
          inv.queue in
      (
        p.before ++ pending n ∷ p.after,
        record {
          queue =
              subst
                (λ (k : ℕ).
                  IsQueue round_up_p2 e (store32 s.region.block k (n + message_lock_flag))
                    s.read_pos s.region.alloc_ptr (p.before ++ pending n ∷ p.after))
                p.head
                (head-IsQueue round_up_p2 law e area s.region.block s.read_pos s.region.alloc_ptr n
                  p.before p.after q);
          published_in = inv.published_in;
          published = inv.published;
          owners =
              change-Owners i h (granted n) (pending n) at_h p refl
                (writing n (buffer round_up_p2 e n h position)) (λ k same. sym (some_inj.0 same))
                (λ o. refl) (λ found. (h, refl, found, o.1));
          conserved =
              subst (λ zs. Perm s.committed (s.delivered ++ zs))
                (ap readies p.parts
                  ∙ readies-append p.before (granted n ∷ p.after)
                  ∙ sym (readies-append p.before (pending n ∷ p.after)))
                inv.conserved;
        },
      )

  release-conserved :
      (before after : List Entry) (n : ℕ) (bytes : List ℕ)
      → xs ≡ before ++ pending n ∷ after
      → Perm (bytes ∷ s.committed) (s.delivered ++ readies (before ++ ready bytes ∷ after))
  unfolding readies
  release-conserved before after n bytes parts =
      let gone = s.delivered ++ readies before in
      let old : s.delivered ++ readies xs ≡ gone ++ readies after =
        ap (λ zs. s.delivered ++ readies zs) parts
        ∙ ap (λ zs. s.delivered ++ zs) (readies-append before (pending n ∷ after))
        ∙ sym (append_assoc s.delivered (readies before) (readies after)) in
      let new : gone ++ bytes ∷ readies after
          ≡ s.delivered ++ readies (before ++ ready bytes ∷ after) =
        append_assoc s.delivered (readies before) (bytes ∷ readies after)
        ∙ ap (λ zs. s.delivered ++ zs) (sym (readies-append before (ready bytes ∷ after))) in
      Perm.trans (Perm.cons bytes (subst (Perm s.committed) old inv.conserved)) (
        subst (Perm (bytes ∷ (gone ++ readies after))) new
          (Perm.symm (perm_middle gone (readies after))))

  pub release-Inv :
      (i n : ℕ) (out out' : OutputBuffer) (bytes : List ℕ) (m : Memory)
      → s.producers i ≡ writing n out
      → length bytes ≡ n
      → AllBytes bytes
      → write_and_commit s.region.block out bytes ≡ ok (m, out')
      → (xs' : List Entry) × Inv round_up_p2 e
          (record (with_pc (with_block s m) i idle) { committed = bytes ∷ s.committed })
          xs'
  unfolding Owned head_of
  release-Inv i n out out' bytes m at_i fits all written =
      let o = Owned-at round_up_p2 law e area s xs inv i _ at_i in
      let p = split round_up_p2 e s.read_pos xs o.0 (pending n) o.2 in
      let at_h : head_of (s.producers i) ≡ some o.0 = ap head_of at_i ∙ o.1 in
      let q : IsQueue round_up_p2 e s.region.block s.read_pos s.region.alloc_ptr
          (p.before ++ pending (length bytes) ∷ p.after) =
        subst (IsQueue round_up_p2 e s.region.block s.read_pos s.region.alloc_ptr)
          (p.parts ∙ ap (λ (k : ℕ). p.before ++ pending k ∷ p.after) (sym fits)) inv.queue in
      let done =
        write_and_commit-IsQueue round_up_p2 law e area s.region.block s.read_pos s.region.alloc_ptr
          p.before p.after bytes q out all (o.1 ∙ ap some (sym p.head)) (rw (p.head, fits) o.3) in
      let same : done.0 ≡ m = ap (λ t. t.0) (ok-injective (sym done.1 ∙ written)) in
      (
        p.before ++ ready bytes ∷ p.after,
        record {
          queue =
              subst
                (λ (k : Memory).
                  IsQueue round_up_p2 e k s.read_pos s.region.alloc_ptr
                    (p.before ++ ready bytes ∷ p.after))
                same done.2;
          published_in = inv.published_in;
          published = inv.published;
          owners =
              change-Owners i o.0 (pending n) (ready bytes) at_h p fits idle
                (λ k same. absurd (ground (arith, same))) (λ o. absurd o) (λ found. tt);
          conserved = release-conserved p.before p.after n bytes p.parts;
        },
      )
