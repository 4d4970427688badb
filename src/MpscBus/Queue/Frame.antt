-- ===== src/MpscBus/Queue/Frame.antt =====
-- A change of the memory outside of the messages leaves the queue as it is.
use deeplog.Base.{
  List, [], arith, false, false_of_false, length, sym, true, ℕ, ◌%◌, ◌++◌, ◌+◌, ◌<◌, ◌∙◌, ◌∷◌, ◌≡◌,
  ◌≤◌,
}
use mathlib.Core.Path.{subst}
use deeplog.SharedMemory.Laws.{load32_cong, read_bytes_cong}
use deeplog.MpscBus.Queue.{
  message_lock_flag, IsGap, walk, round_up_block, ready, granted, pending, IsEntry,
  max_message_size, Chain, size, Memory, Entry, IsArea, RoundsUp, place, next, used, Segment,
}

-- The offsets of a head and of its payload are used, and so is what follows.
pub used-head :
    (e p a stop i : ℕ)
    → e % 4 ≡ 0
    → Segment e p a stop
    → p ≤ i
    → i < p + 4
    → (i < e) × (used p stop i ≡ true)
used-head e p a stop i h s k l = ground arith

pub used-payload :
    (e p a stop i : ℕ)
    → stop < e
    → Segment e p a stop
    → place e p a ≤ i
    → i < place e p a + a
    → (i < e) × (used p stop i ≡ true)
used-payload e p a stop i h s k l = ground arith

pub used-next :
    (e p a stop i : ℕ)
    → stop < e
    → Segment e p a stop
    → used (next e p a) stop i ≡ true
    → used p stop i ≡ true
used-next e p a stop i h s k = ground arith

-- No offset of a message is among those that follow it.
pub used-next-head :
    (e p a stop i : ℕ)
    → stop < e
    → e % 4 ≡ 0
    → Segment e p a stop
    → p ≤ i
    → i < p + 4
    → used (next e p a) stop i ≡ false
used-next-head e p a stop i h k s l t = ground arith

pub used-next-payload :
    (e p a stop i : ℕ)
    → stop < e
    → Segment e p a stop
    → place e p a ≤ i
    → i < place e p a + a
    → used (next e p a) stop i ≡ false
used-next-payload e p a stop i h s l t = ground arith

-- The words that a message skips when it goes round.
pub used-gap :
    (e p a stop i : ℕ)
    → stop < e
    → Segment e p a stop
    → e < p + 4 + a
    → p + 4 ≤ i
    → i < e
    → used p stop i ≡ true
used-gap e p a stop i h s g k l = ground arith

pub used-next-gap :
    (e p a stop i : ℕ)
    → stop < e
    → Segment e p a stop
    → e < p + 4 + a
    → p + 4 ≤ i
    → i < e
    → used (next e p a) stop i ≡ false
used-next-gap e p a stop i h s g k l = ground arith

module _ (round_up_p2 : ℕ → ℕ → ℕ) (law : RoundsUp round_up_p2) (e : ℕ) (area : IsArea e) where
  -- An entry is where it was if its head and its payload are unchanged.
  pub IsEntry-frame :
      (m m' : Memory) (p : ℕ) (x : Entry)
      → size x ≤ max_message_size
      → ((i : ℕ) → p ≤ i → i < p + 4 → m' i ≡ m i)
      → ((i : ℕ)
          → place e p (round_up_p2 (size x) 4) ≤ i
          → i < place e p (round_up_p2 (size x) 4) + round_up_p2 (size x) 4
          → m' i ≡ m i)
      → IsEntry round_up_p2 e m p x
      → IsEntry round_up_p2 e m' p x
  IsEntry-frame m m' p (granted n) small head payload x =
      subst (λ (w : ℕ). message_lock_flag ≤ w) (sym (load32_cong m m' p head)) x
  IsEntry-frame m m' p (pending n) small head payload x = load32_cong m m' p head ∙ x
  IsEntry-frame m m' p (ready bytes) small head payload x = (
    load32_cong m m' p head ∙ x.0,
    read_bytes_cong m m' (place e p (round_up_p2 (length bytes) 4)) (length bytes)
          (λ i k l. payload i k (omega (arith, (round_up_block (length bytes) law small).1)))
        ∙ x.1,
  )

  pub IsGap-frame :
      (m m' : Memory) (p a : ℕ)
      → ((i : ℕ) → e < p + 4 + a → p + 4 ≤ i → i < e → m' i ≡ m i)
      → IsGap round_up_p2 e m p a
      → IsGap round_up_p2 e m' p a
  IsGap-frame m m' p a same gap i al g k l =
      subst (λ (w : ℕ). message_lock_flag ≤ w)
        (sym
          (load32_cong m m' i (λ j n o. same j g (omega arith) (omega (arith, area.whole_blocks)))))
        (gap i al g k l)

  pub Chain-frame :
      (m m' : Memory) (p : ℕ) (xs : List Entry) (stop : ℕ)
      → stop < e
      → ((i : ℕ) → i < e → used p stop i ≡ true → m' i ≡ m i)
      → Chain round_up_p2 e m p xs stop
      → Chain round_up_p2 e m' p xs stop
  Chain-frame m m' p [] stop h same c = c
  Chain-frame m m' p (x ∷ xs) stop h same c =
      let a = round_up_p2 (size x) 4 in
      (
        c.0,
        c.1,
        IsEntry-frame m m' p x c.0
            (λ i k l. let u = used-head e p a stop i area.whole_blocks c.1 k l in same i u.0 u.1)
            (λ i k l. let u = used-payload e p a stop i h c.1 k l in same i u.0 u.1) c.2,
        IsGap-frame m m' p a (λ i g k l. same i l (used-gap e p a stop i h c.1 g k l)) c.3,
        Chain-frame m m' (next e p a) xs stop h (λ i k u. same i k (used-next e p a stop i h c.1 u))
            c.4,
      )

  pub Chain-walk :
      (m : Memory) (p : ℕ) (xs ys : List Entry) (stop : ℕ)
      → Chain round_up_p2 e m p (xs ++ ys) stop
      → Chain round_up_p2 e m (walk round_up_p2 e p xs) ys stop
  Chain-walk m p [] ys stop c = c
  Chain-walk m p (x ∷ xs) ys stop c =
      Chain-walk m (next e p (round_up_p2 (size x) 4)) xs ys stop c.4

  pub used-walk :
      (m : Memory) (p : ℕ) (xs ys : List Entry) (stop i : ℕ)
      → stop < e
      → Chain round_up_p2 e m p (xs ++ ys) stop
      → used (walk round_up_p2 e p xs) stop i ≡ true
      → used p stop i ≡ true
  used-walk m p [] ys stop i h c u = u
  used-walk m p (x ∷ xs) ys stop i h c u =
      let a = round_up_p2 (size x) 4 in
      used-next e p a stop i h c.1 (used-walk m (next e p a) xs ys stop i h c.4 u)

  -- The messages behind a point of the chain may be replaced by others.
  pub Chain-replace :
      (m m' : Memory) (p : ℕ) (xs ys zs : List Entry) (stop : ℕ)
      → stop < e
      → Chain round_up_p2 e m p (xs ++ ys) stop
      → ((i : ℕ) → i < e → used (walk round_up_p2 e p xs) stop i ≡ false → m' i ≡ m i)
      → Chain round_up_p2 e m' (walk round_up_p2 e p xs) zs stop
      → Chain round_up_p2 e m' p (xs ++ zs) stop
  Chain-replace m m' p [] ys zs stop h c same d = d
  Chain-replace m m' p (x ∷ xs) ys zs stop h c same d =
      let a = round_up_p2 (size x) 4 in
      let outside : (i : ℕ) → i < e → used (next e p a) stop i ≡ false → m' i ≡ m i =
        λ i k u. same i k (not-used i u) in
      (
        c.0,
        c.1,
        IsEntry-frame m m' p x c.0
            (λ i k l.
              outside i (used-head e p a stop i area.whole_blocks c.1 k l).0
                (used-next-head e p a stop i h area.whole_blocks c.1 k l))
            (λ i k l.
              outside i (used-payload e p a stop i h c.1 k l).0
                (used-next-payload e p a stop i h c.1 k l))
            c.2,
        IsGap-frame m m' p a (λ i g k l. outside i l (used-next-gap e p a stop i h c.1 g k l)) c.3,
        Chain-replace m m' (next e p a) xs ys zs stop h c.4 same d,
      )
    where
      not-used :
          (i : ℕ)
          → used (next e p (round_up_p2 (size x) 4)) stop i ≡ false
          → used (walk round_up_p2 e p (x ∷ xs)) stop i ≡ false
      not-used i =
          false_of_false (used-walk m (next e p (round_up_p2 (size x) 4)) xs ys stop i h c.4)

-- A word is used as its first byte is.
pub used-word :
    (r s i j : ℕ)
    → r % 4 ≡ 0
    → s % 4 ≡ 0
    → i % 4 ≡ 0
    → used r s i ≡ false
    → i ≤ j
    → j < i + 4
    → used r s j ≡ false
used-word r s i j hr hs hi u k l = ground arith
