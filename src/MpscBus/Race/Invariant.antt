-- ===== src/MpscBus/Race/Invariant.antt =====
-- bus/mpsc_bus.hpp: what holds between the steps of a region's producers and its consumer.
use deeplog.Base.{
  ==_iff, Bool-cases, List, Option, arith, false, if◌then◌else◌, inl, inr, none, refl, some, sym,
  true, ℕ, ◌++◌, ◌<◌, ◌==◌, ◌∙◌, ◌≡◌, ◌≢◌, ◌≤◌, ◌⊎◌,
}
use mathlib.Core.List.{Perm}
use mathlib.Core.Option.{some_inj}
use deeplog.MpscBus.{max_message_size}
use deeplog.MpscBus.Queue.{Entry, granted, pending, place, IsQueue}
use deeplog.MpscBus.Race.{Pc, idle, read_loaded, in_round, exchanged, writing, System}
use deeplog.MpscBus.Race.Hands.{Fresh}
use deeplog.MpscBus.Race.Entries.{readies, IsOpen, entry_at}

-- The head of the block that a producer owns.
unfoldable pub head_of : Pc → Option ℕ
head_of idle = none
head_of (read_loaded n hand) = none
head_of (in_round n hand alloc_hand) = none
head_of (exchanged n alloc_hand position) = some alloc_hand
head_of (writing n out) = out.msg_ctrl

abbrev pub update : (ℕ → Pc) → ℕ → Pc → ℕ → Pc
update ps i pc j = if j == i then pc else ps j

module _ (round_up_p2 : ℕ → ℕ → ℕ) (e : ℕ) where
  -- A producer's block is that of a message of the queue which is not released.
  unfoldable pub Owned : ℕ → List Entry → Pc → Type 0
  Owned r xs idle = Unit
  Owned r xs (read_loaded n hand) = (n ≤ max_message_size) × (hand < e)
  Owned r xs (in_round n hand alloc_hand) = (n ≤ max_message_size) × (hand < e)
  Owned r xs (exchanged n alloc_hand position) =
      (entry_at round_up_p2 e r xs alloc_hand ≡ some (granted n))
      × (position ≡ place e alloc_hand (round_up_p2 n 4))
  Owned r xs (writing n out) =
      (h : ℕ) × (out.msg_ctrl ≡ some h)
      × (entry_at round_up_p2 e r xs h ≡ some (pending n))
      × (out.position ≡ place e h (round_up_p2 n 4))

  pub record Owners (r : ℕ) (xs : List Entry) (ps : ℕ → Pc) : Type 0 where
    pub owned : (i : ℕ) → Owned r xs (ps i)
    pub distinct : (i j h : ℕ) → head_of (ps i) ≡ some h → head_of (ps j) ≡ some h → i ≡ j
    pub covered :
        (h : ℕ) (x : Entry)
        → IsOpen x
        → entry_at round_up_p2 e r xs h ≡ some x
        → (i : ℕ) × (head_of (ps i) ≡ some h)

  -- The region holds the messages `xs` in front of the consumer, the read hand is one that the
  -- allocation hand has not passed, each producer owns its block alone, and the messages released
  -- so far are those delivered and those released in the queue.
  pub record Inv (s : System) (xs : List Entry) : Type 0 where
    pub queue : IsQueue round_up_p2 e s.region.block s.read_pos s.region.alloc_ptr xs
    pub published_in : s.region.read_ptr < e
    pub published : Fresh s.region.read_ptr s.read_pos s.region.alloc_ptr
    pub owners : Owners s.read_pos xs s.producers
    pub conserved : Perm s.committed (s.delivered ++ readies xs)

  pub head-IsOpen :
      (r : ℕ) (xs : List Entry) (pc : Pc) (h : ℕ)
      → Owned r xs pc
      → head_of pc ≡ some h
      → (x : Entry) × IsOpen x × (entry_at round_up_p2 e r xs h ≡ some x)
  unfolding Owned head_of
  head-IsOpen r xs idle h o k = absurd (ground (arith, k))
  head-IsOpen r xs (read_loaded n hand) h o k = absurd (ground (arith, k))
  head-IsOpen r xs (in_round n hand a) h o k = absurd (ground (arith, k))
  head-IsOpen r xs (exchanged n a position) h o k = (granted n, tt, rw (← some_inj.0 k) o.0)
  head-IsOpen r xs (writing n out) h o k = (pending n, tt, rw (← some_inj.0 (sym o.1 ∙ k)) o.2)

  Owned-keep :
      (r r' : ℕ) (xs xs' : List Entry) (pc : Pc)
      → ((h : ℕ) (x : Entry)
          → head_of pc ≡ some h
          → IsOpen x
          → entry_at round_up_p2 e r xs h ≡ some x
          → entry_at round_up_p2 e r' xs' h ≡ some x)
      → Owned r xs pc
      → Owned r' xs' pc
  unfolding Owned head_of
  Owned-keep r r' xs xs' idle keep o = o
  Owned-keep r r' xs xs' (read_loaded n hand) keep o = o
  Owned-keep r r' xs xs' (in_round n hand a) keep o = o
  Owned-keep r r' xs xs' (exchanged n a position) keep o = (keep a (granted n) refl tt o.0, o.1)
  Owned-keep r r' xs xs' (writing n out) keep o = (o.0, o.1, keep o.0 (pending n) o.1 tt o.2, o.3)

  -- The producers keep their blocks if every unreleased message stays where it is.
  pub Owners-keep :
      (r r' : ℕ) (xs xs' : List Entry) (ps : ℕ → Pc)
      → ((h : ℕ) (x : Entry)
          → IsOpen x
          → entry_at round_up_p2 e r xs h ≡ some x
          → entry_at round_up_p2 e r' xs' h ≡ some x)
      → ((h : ℕ) (x : Entry)
          → IsOpen x
          → entry_at round_up_p2 e r' xs' h ≡ some x
          → entry_at round_up_p2 e r xs h ≡ some x)
      → Owners r xs ps
      → Owners r' xs' ps
  Owners-keep r r' xs xs' ps keep back o = record {
    owned = λ i. Owned-keep r r' xs xs' (ps i) (λ h x at_head. keep h x) (o.owned i);
    distinct = o.distinct;
    covered = λ h x open_x found. o.covered h x open_x (back h x open_x found);
  }

  -- One producer goes on, and the blocks of the others stay and are not its own.
  pub Owners-update :
      (r : ℕ) (xs xs' : List Entry) (ps : ℕ → Pc) (i : ℕ) (pc : Pc)
      → ((j h : ℕ) → j ≢ i → head_of (ps j) ≡ some h → head_of pc ≢ some h)
      → ((j h : ℕ) (x : Entry)
          → j ≢ i
          → head_of (ps j) ≡ some h
          → IsOpen x
          → entry_at round_up_p2 e r xs h ≡ some x
          → entry_at round_up_p2 e r xs' h ≡ some x)
      → ((h : ℕ) (x : Entry)
          → IsOpen x
          → entry_at round_up_p2 e r xs' h ≡ some x
          → (head_of pc ≡ some h) ⊎ ((j : ℕ) × (j ≢ i) × (head_of (ps j) ≡ some h)))
      → Owned r xs' pc
      → Owners r xs ps
      → Owners r xs' (update ps i pc)
  Owners-update r xs xs' ps i pc own keep cover new o = record {
    owned = owned;
    distinct = distinct;
    covered = covered;
  }
    where
      here_or_there :
          (h : ℕ)
          → (head_of pc ≡ some h) ⊎ ((j : ℕ) × (j ≢ i) × (head_of (ps j) ≡ some h))
          → (j : ℕ) × (head_of (update ps i pc j) ≡ some h)
      here_or_there h (inl mine) = let same : (i == i) ≡ true = ground arith in (i, rw same mine)
      here_or_there h (inr (j, other, theirs)) =
          let differ : (j == i) ≡ false = ground (arith, other) in (j, rw differ theirs)

      covered :
          (h : ℕ) (x : Entry)
          → IsOpen x
          → entry_at round_up_p2 e r xs' h ≡ some x
          → (j : ℕ) × (head_of (update ps i pc j) ≡ some h)
      covered h x open_x found = here_or_there h (cover h x open_x found)

      owned : (j : ℕ) → Owned r xs' (update ps i pc j)
      owned j = elim (Bool-cases (j == i)) [
        | inl same ↦ rw same new
        | inr other ↦
            rw other (Owned-keep r r xs xs' (ps j) (λ h x. keep j h x (ground arith)) (o.owned j))
      ]

      distinct :
          (j k h : ℕ)
          → head_of (update ps i pc j) ≡ some h
          → head_of (update ps i pc k) ≡ some h
          → j ≡ k
      distinct j k h = elim (Bool-cases (j == i)) [
        | inl same ↦ elim (Bool-cases (k == i)) [
          | inl same' ↦ λ x y. (==_iff j i).0 same ∙ sym ((==_iff k i).0 same')
          | inr other ↦ rw (same, other) (λ x y. absurd (own k h (ground arith) y x))
        ]
        | inr other ↦ elim (Bool-cases (k == i)) [
          | inl same ↦ rw (same, other) (λ x y. absurd (own j h (ground arith) x y))
          | inr other' ↦ rw (other, other') (o.distinct j k h)
        ]
      ]
