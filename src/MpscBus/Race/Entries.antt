-- ===== src/MpscBus/Race/Entries.antt =====
-- The messages of a queue by the position of their heads.
use deeplog.Base.{
  ==_iff, Bool-cases, List, Option, [], ap, arith, if◌then◌else◌, inl, inr, length, none, refl,
  some, suc, sym, true, zero, ℕ, ◌%◌, ◌++◌, ◌<◌, ◌==◌, ◌∙◌, ◌∷◌, ◌≡◌, ◌≢◌, ◌⊎◌,
}
use deeplog.MpscBus.Queue.Frame.{used-head, used-next-head, used-next}
use deeplog.SharedMemory.{Memory}
use deeplog.MpscBus.Queue.{used, Entry, granted, pending, ready, size, next, walk, Chain}
use deeplog.MpscBus.Batch.{front, behind, reach}

-- The messages that are released.
unfoldable pub readies : List Entry → List (List ℕ)
readies [] = []
readies (granted n ∷ xs) = readies xs
readies (pending n ∷ xs) = readies xs
readies (ready bytes ∷ xs) = bytes ∷ readies xs

pub readies-append : (xs ys : List Entry) → readies (xs ++ ys) ≡ readies xs ++ readies ys
unfolding readies
readies-append [] ys = refl
readies-append (granted n ∷ xs) ys = readies-append xs ys
readies-append (pending n ∷ xs) ys = readies-append xs ys
readies-append (ready bytes ∷ xs) ys = ap (◌∷◌ bytes) (readies-append xs ys)

pub readies-front :
    (room : ℕ) (xs : List Entry) → readies xs ≡ front room xs ++ readies (behind room xs)
unfolding readies front behind
readies-front zero xs = refl
readies-front (suc room) [] = refl
readies-front (suc room) (granted n ∷ xs) = refl
readies-front (suc room) (pending n ∷ xs) = refl
readies-front (suc room) (ready bytes ∷ xs) = ap (◌∷◌ bytes) (readies-front room xs)

-- A message that its producer still owns.
abbrev pub IsOpen : Entry → Type 0
IsOpen (granted n) = Unit {0}
IsOpen (pending n) = Unit {0}
IsOpen (ready bytes) = ⊥

module _ (round_up_p2 : ℕ → ℕ → ℕ) (e : ℕ) where
  -- The message whose head is at `h`, where the first has its head at `p`.
  unfoldable pub entry_at : ℕ → List Entry → ℕ → Option Entry
  entry_at p [] h = none
  entry_at p (x ∷ xs) h =
      if p == h then some x else entry_at (next e p (round_up_p2 (size x) 4)) xs h

  -- The messages around that at `h`, and what is found when it is replaced.
  pub record Split (p : ℕ) (xs : List Entry) (h : ℕ) (x : Entry) : Type 0 where
    pub before : List Entry
    pub after : List Entry
    pub parts : xs ≡ before ++ x ∷ after
    pub head : walk round_up_p2 e p before ≡ h
    pub replaced :
        (y : Entry)
        → size y ≡ size x
        → (k : ℕ)
        → entry_at p (before ++ y ∷ after) k ≡ (if h == k then some y else entry_at p xs k)

  pub split :
      (p : ℕ) (xs : List Entry) (h : ℕ) (x : Entry) → entry_at p xs h ≡ some x → Split p xs h x
  unfolding entry_at
  split p [] h x found = absurd (ground (arith, found))
  split p (y ∷ xs) h x found = elim (Bool-cases (p == h)) [
    | inl at_head ↦
        let same : p ≡ h = (==_iff p h).0 at_head in
        let first : y ≡ x = ground (arith, found) in
        record {
          before = [];
          after = xs;
          parts = ap (λ z. z ∷ xs) first;
          head = same;
          replaced = λ z fits k. rw (fits, ← first, ← same) (ground arith);
        }
    | inr further ↦
        let q = next e p (round_up_p2 (size y) 4) in
        let rest = split q xs h x (ground (arith, found)) in
        record {
          before = y ∷ rest.before;
          after = rest.after;
          parts = ap (◌∷◌ y) rest.parts;
          head = rest.head;
          replaced = λ z fits k. ground (arith, rest.replaced z fits k);
        }
  ]

  -- No message has its head at the allocation hand.
  pub entry_at-apart :
      (m : Memory) (p : ℕ) (xs : List Entry) (stop h : ℕ) (x : Entry)
      → Chain round_up_p2 e m p xs stop
      → entry_at p xs h ≡ some x
      → h ≢ stop
  unfolding entry_at
  entry_at-apart m p [] stop h x c found = absurd (ground (arith, found))
  entry_at-apart m p (y ∷ xs) stop h x c found = elim (Bool-cases (p == h)) [
    | inl at_head ↦ ground (arith, c.1.apart)
    | inr further ↦
        entry_at-apart m (next e p (round_up_p2 (size y) 4)) xs stop h x c.4 (ground (arith, found))
  ]

  pub entry_at-append :
      (p : ℕ) (xs ys : List Entry) (h : ℕ) (x : Entry)
      → entry_at p xs h ≡ some x
      → entry_at p (xs ++ ys) h ≡ some x
  unfolding entry_at
  entry_at-append p [] ys h x found = absurd (ground (arith, found))
  entry_at-append p (y ∷ xs) ys h x found = elim (Bool-cases (p == h)) [
    | inl at_head ↦ ground (arith, found)
    | inr further ↦ ground (
      arith,
      entry_at-append (next e p (round_up_p2 (size y) 4)) xs ys h x (ground (arith, found)),
    )
  ]

  -- A new message is found at the allocation hand.
  pub entry_at-last :
      (m : Memory) (p : ℕ) (xs : List Entry) (stop : ℕ) (x : Entry)
      → Chain round_up_p2 e m p xs stop
      → entry_at p (xs ++ x ∷ []) stop ≡ some x
  unfolding entry_at
  entry_at-last m p [] stop x c = ground (arith, c)
  entry_at-last m p (y ∷ xs) stop x c =
      ground (arith, c.1.apart, entry_at-last m (next e p (round_up_p2 (size y) 4)) xs stop x c.4)

  -- A batch takes no message that its producer owns.
  pub entry_at-behind :
      (room p : ℕ) (xs : List Entry) (h : ℕ) (x : Entry)
      → IsOpen x
      → entry_at p xs h ≡ some x
      → entry_at (reach round_up_p2 e room p xs) (behind room xs) h ≡ some x
  unfolding entry_at reach behind
  entry_at-behind zero p xs h x o found = found
  entry_at-behind (suc room) p [] h x o found = found
  entry_at-behind (suc room) p (granted n ∷ xs) h x o found = found
  entry_at-behind (suc room) p (pending n ∷ xs) h x o found = found
  entry_at-behind (suc room) p (ready bytes ∷ xs) h x o found = elim (Bool-cases (p == h)) [
    | inl at_head ↦ let taken : x ≡ ready bytes = ground (arith, found) in absurd (rw taken at o)
    | inr further ↦
        entry_at-behind room (next e p (round_up_p2 (length bytes) 4)) xs h x o
          (ground (arith, found))
  ]

  -- A later message is found behind the first one.
  entry_at-used :
      (m : Memory) (p : ℕ) (xs : List Entry) (stop h : ℕ) (x : Entry)
      → e % 4 ≡ 0
      → stop < e
      → Chain round_up_p2 e m p xs stop
      → entry_at p xs h ≡ some x
      → used p stop h ≡ true
  unfolding entry_at
  entry_at-used m p [] stop h x al lt c found = absurd (ground (arith, found))
  entry_at-used m p (y ∷ xs) stop h x al lt c found = elim (Bool-cases (p == h)) [
    | inl at_head ↦
        let same : p ≡ h = (==_iff p h).0 at_head in
        (used-head e p (round_up_p2 (size y) 4) stop h al c.1 (omega (arith, same))
          (omega (arith, same))).1
    | inr further ↦ used-next e p (round_up_p2 (size y) 4) stop h lt c.1 (
        entry_at-used m (next e p (round_up_p2 (size y) 4)) xs stop h x al lt c.4
          (ground (arith, found)))
  ]

  pub entry_at-later :
      (m : Memory) (p : ℕ) (y : Entry) (xs : List Entry) (stop h : ℕ) (x : Entry)
      → e % 4 ≡ 0
      → stop < e
      → Chain round_up_p2 e m p (y ∷ xs) stop
      → entry_at (next e p (round_up_p2 (size y) 4)) xs h ≡ some x
      → entry_at p (y ∷ xs) h ≡ some x
  unfolding entry_at
  entry_at-later m p y xs stop h x al lt c found = elim (Bool-cases (p == h)) [
    | inl at_head ↦
        let same : p ≡ h = (==_iff p h).0 at_head in
        let a = round_up_p2 (size y) 4 in
        let off =
          used-next-head e p a stop h lt al c.1 (omega (arith, same)) (omega (arith, same)) in
        let on = entry_at-used m (next e p a) xs stop h x al lt c.4 found in ground (arith, off, on)
    | inr further ↦ ground (arith, found)
  ]

  -- What is found behind a batch was there before.
  pub entry_at-before :
      (m : Memory) (room p : ℕ) (xs : List Entry) (stop h : ℕ) (x : Entry)
      → e % 4 ≡ 0
      → stop < e
      → Chain round_up_p2 e m p xs stop
      → entry_at (reach round_up_p2 e room p xs) (behind room xs) h ≡ some x
      → entry_at p xs h ≡ some x
  unfolding reach behind
  entry_at-before m zero p xs stop h x al lt c found = found
  entry_at-before m (suc room) p [] stop h x al lt c found = found
  entry_at-before m (suc room) p (granted n ∷ xs) stop h x al lt c found = found
  entry_at-before m (suc room) p (pending n ∷ xs) stop h x al lt c found = found
  entry_at-before m (suc room) p (ready bytes ∷ xs) stop h x al lt c found =
      entry_at-later m p (ready bytes) xs stop h x al lt c (
        entry_at-before m room (next e p (round_up_p2 (length bytes) 4)) xs stop h x al lt c.4
          found)

  pub entry_at-append_inv :
      (m : Memory) (p : ℕ) (xs : List Entry) (y : Entry) (stop h : ℕ) (x : Entry)
      → Chain round_up_p2 e m p xs stop
      → entry_at p (xs ++ y ∷ []) h ≡ some x
      → (entry_at p xs h ≡ some x) ⊎ (h ≡ stop)
  unfolding entry_at
  entry_at-append_inv m p [] y stop h x c found = elim (Bool-cases (p == h)) [
    | inl at_head ↦ inr (sym ((==_iff p h).0 at_head) ∙ c)
    | inr further ↦ absurd (ground (arith, found))
  ]
  entry_at-append_inv m p (z ∷ xs) y stop h x c found = elim (Bool-cases (p == h)) [
    | inl at_head ↦ inl (ground (arith, found))
    | inr further ↦
        elim (entry_at-append_inv m (next e p (round_up_p2 (size z) 4)) xs y stop h x c.4
          (ground (arith, found))) [ inl old ↦ inl (ground (arith, old)) | inr last ↦ inr last ]
  ]
