-- ===== src/FileDatabase/Storage.antt =====
-- core/file_database.cpp: what the root file holds across successful, failed and torn writes.
use deeplog.Base.{
  ==_iff, Bool-cases, List, Result, ap, arith, err, false, inl, inr, ok, refl, true, ℕ, ◌%◌, ◌+◌,
  ◌<◌, ◌==◌, ◌≡◌, ◌≢◌,
}
use deeplog.Errc.{Errc}
use deeplog.FileDatabase.{
  Contents, RootFile, tidy, adopt, settle, finish_fetch, slot, with_slot, FetchIo,
  fetch_content_impl,
}

abbrev pub streams_open : FetchIo
streams_open = record { open_stream = ok tt; reset_stream = ok tt }

-- The slots by what they decode to: an adopted slot is the newer one.
adopt-newer :
    (s : ℕ) (c : Contents) (found : Contents × ℕ)
    → found.0.revision < c.revision
    → adopt s (ok c) found ≡ (c, s)
unfolding adopt
adopt-newer s c (mine, odd) h = ground arith

adopt-older :
    (s : ℕ) (rx : Result Errc Contents) (c : Contents) (odd : ℕ)
    → ((d : Contents) → rx ≡ ok d → d.revision < c.revision)
    → adopt s rx (c, odd) ≡ (c, odd)
unfolding adopt
adopt-older s (ok d) c odd h = ground (arith, h d refl)
adopt-older s (err e) c odd h = refl

adopt-below :
    (s : ℕ) (rx : Result Errc Contents) (c mine : Contents) (odd : ℕ)
    → ((d : Contents) → rx ≡ ok d → d.revision < c.revision)
    → mine.revision < c.revision
    → (adopt s rx (mine, odd)).0.revision < c.revision
unfolding adopt
adopt-below s (ok d) c mine odd h k = ground (arith, h d refl)
adopt-below s (err e) c mine odd h k = k

pub settled : (c : Contents) (odd : ℕ) → c.revision % 2 ≡ odd → settle (c, odd) ≡ tidy c
unfolding settle
settled c odd h = ground arith

-- The last slot that is read.
finish-odd :
    (first : Result Errc Contents) (c : Contents) (found : Contents × ℕ)
    → c.revision % 2 ≡ 1
    → found.0.revision < c.revision
    → finish_fetch first (ok c) found ≡ (ok tt, tidy c)
unfolding finish_fetch
finish-odd first c found odd h =
    rw (adopt-newer 1 c found h) (ap (λ (x : Contents). (ok tt, x)) (settled c 1 odd))

finish-even :
    (rx : Result Errc Contents) (c : Contents)
    → c.revision % 2 ≡ 0
    → ((d : Contents) → rx ≡ ok d → d.revision < c.revision)
    → finish_fetch (ok c) rx (c, 0) ≡ (ok tt, tidy c)
unfolding finish_fetch
finish-even (ok d) c even h =
    rw (adopt-older 1 (ok d) c 0 h) (ap (λ (x : Contents). (ok tt, x)) (settled c 0 even))
finish-even (err e) c even h = ap (λ (x : Contents). (ok tt, x)) (settled c 0 even)

-- The root file holds the contents `c`: they are in the slot of their parity, and the other slot
-- is older, or does not decode.
pub record Holds (decode : List ℕ → Result Errc Contents) (f : RootFile) (c : Contents)
    : Type 0 where
  pub current : decode (slot f (c.revision % 2)) ≡ ok c
  pub older :
      (d : Contents) → decode (slot f ((c.revision + 1) % 2)) ≡ ok d → d.revision < c.revision

module _ (encode : Contents → List ℕ) (decode : List ℕ → Result Errc Contents) where
  -- A handle that is behind fetches what the root file holds.
  pub fetch-Holds :
      (f : RootFile) (c mine : Contents)
      → Holds decode f c
      → mine.revision < c.revision
      → fetch_content_impl encode decode streams_open f mine ≡ (ok tt, tidy c)
  unfolding fetch_content_impl
  fetch-Holds f c mine held behind = elim (Bool-cases (c.revision % 2 == 0)) [
    | inl even ↦
        let here : decode f.even_slot ≡ ok c = rw even at held.current in
        let other_bit : (c.revision + 1) % 2 == 0 ≡ false = ground arith in
        rw (here, adopt-newer 0 c (mine, mine.revision % 2) behind)
          (finish-even (decode f.odd_slot) c ((==_iff _ _).0 even)
            (λ d h. held.older d (rw other_bit h)))
    | inr odd ↦
        let here : decode f.odd_slot ≡ ok c = rw odd at held.current in
        let other_bit : (c.revision + 1) % 2 == 0 ≡ true = ground arith in
        rw here (
          finish-odd (decode f.even_slot) c (adopt 0 (decode f.even_slot) (mine, mine.revision % 2))
            (ground arith)
            (adopt-below 0 (decode f.even_slot) c mine (mine.revision % 2)
              (λ d h. held.older d (rw other_bit h)) behind))
  ]

  pub other_slot :
      (f : RootFile) (odd odd' : ℕ) (bytes : List ℕ)
      → (odd == 0) ≢ (odd' == 0)
      → slot (with_slot f odd bytes) odd' ≡ slot f odd'
  other_slot f odd odd' bytes h = ground arith

  pub same_slot :
      (f : RootFile) (odd : ℕ) (bytes : List ℕ) → slot (with_slot f odd bytes) odd ≡ bytes
  same_slot f odd bytes = ground arith
