-- ===== src/MpscFile/Create.antt =====
-- mpsc_bus.cpp: what `mpsc_bus` makes, and the lock of its file.
use deeplog.Base.{
  Bool, Bool-cases, Result, [], ap, arith, err, inl, inr, not, ok, refl, sym, u32, ℕ, ◌%◌, ◌<◌, ◌^◌,
  ◌||◌, ◌≡◌, ◌≤◌, ◌⊎◌,
}
use mathlib.Core.Path.{subst}
use deeplog.Errc.{Errc}
use deeplog.SharedMemory.Laws.{load32_const}
use deeplog.MpscBus.{Bus, region_end, min_region_size, message_consumed_flag}
use deeplog.MpscBus.Queue.{RoundsUp, IsQueue}
use deeplog.MpscFile.{
  BackingFile, LockKind, unlocked, shared, exclusive, CreateIo, acquire, fresh_region,
  real_region_size, initialise, mpsc_bus, page_size, finish_create, create_locked, create_sized,
}

-- A bus of empty regions of whole pages.
pub record IsFreshBus (round_up_p2 : ℕ → ℕ → ℕ) (bus : Bus) : Type 0 where
  pub some_regions : 0 < bus.num_regions
  pub few_regions : bus.num_regions < message_consumed_flag
  pub whole_pages : bus.region_size % page_size ≡ 0
  pub not_small : min_region_size ≤ bus.region_size
  pub fits_word : bus.region_size < 2 ^ 32
  pub queues :
      (i : ℕ)
      → let r = bus.region i in
        IsQueue round_up_p2 (region_end bus.region_size) r.block r.read_ptr r.alloc_ptr []

pub fresh_region-IsQueue :
    (round_up_p2 : ℕ → ℕ → ℕ) (e : ℕ) → 0 < e → IsQueue round_up_p2 e fresh_region.block 0 0 []
fresh_region-IsQueue f e h = record {
  chain = refl;
  read_aligned = omega arith;
  read_in = h;
  alloc_aligned = omega arith;
  alloc_in = h;
  free_locked = λ i al k u. rw (load32_const (λ j. 0xfe) 0xfe i (λ j. refl)) (omega arith);
  bytes = λ i. omega arith;
}

-- What `mpsc_bus` accepts.
accepted :
    (round_up_p2 : ℕ → ℕ → ℕ)
    → RoundsUp round_up_p2
    → (in_range : ℕ → Bool) (num size real : ℕ)
    → real_region_size round_up_p2 in_range num size ≡ ok real
    → (0 < num)
      × (num < message_consumed_flag)
      × (real % page_size ≡ 0)
      × (min_region_size ≤ real)
      × (real < 2 ^ 32)
      × (size ≤ real)
unfolding real_region_size
accepted f law in_range num size real h =
    ground (arith, law.aligned 12 size, law.above 12 size, law.close 12 size)

module _ (round_up_p2 : ℕ → ℕ → ℕ) (law : RoundsUp round_up_p2) where
  fresh :
      (in_range : ℕ → Bool) (num size real : ℕ)
      → real_region_size round_up_p2 in_range num size ≡ ok real
      → IsFreshBus round_up_p2
          (record { num_regions = num; region_size = u32 real; region = λ i. fresh_region })
  fresh in_range num size real h =
      let a = accepted round_up_p2 law in_range num size real h in
      record {
        some_regions = a.0;
        few_regions = a.1;
        whole_pages = omega arith;
        not_small = omega arith;
        fits_word = omega arith;
        queues = λ i. fresh_region-IsQueue round_up_p2 (region_end (u32 real)) (omega arith);
      }

  abbrev pub Made : BackingFile → ℕ → ℕ → Result Errc Bus × BackingFile → Type 0
  Made file num size (ok bus, f) =
      IsFreshBus round_up_p2 bus
      × (bus.num_regions ≡ num)
      × (size ≤ bus.region_size)
      × (f ≡ record file { lock = exclusive })
  Made file num size (err e, f) = (f ≡ file) ⊎ (f ≡ record file { lock = unlocked })

  -- The lock after the prologue.
  abbrev Locked : BackingFile → Result Errc (Unit {0}) × BackingFile → Type 0
  Locked file (ok _, f) = f ≡ record file { lock = exclusive }
  Locked file (err _, f) = f ≡ record file { lock = unlocked }

  acquire-Locked :
      (lock_state : LockKind) (rx : Result Errc (Unit {0})) (file : BackingFile)
      → file.lock ≡ lock_state
      → Locked file (acquire lock_state rx file)
  unfolding acquire
  acquire-Locked exclusive rx file h = ground arith
  acquire-Locked unlocked (ok _) file h = refl
  acquire-Locked unlocked (err e) file h = ground arith
  acquire-Locked shared (ok _) file h = refl
  acquire-Locked shared (err e) file h = refl

  finish-Made :
      (file f : BackingFile) (num size real : ℕ) (rx : Result Errc Bus)
      → f ≡ record file { lock = exclusive }
      → ((bus : Bus)
          → rx ≡ ok bus
          → IsFreshBus round_up_p2 bus × (bus.num_regions ≡ num) × (size ≤ bus.region_size))
      → Made file num size (finish_create round_up_p2 rx f)
  unfolding finish_create
  finish-Made file f num size real (ok bus) e h = let b = h bus refl in (b.0, b.1, b.2, e)
  finish-Made file f num size real (err x) e h = inr (rw e)

  initialised :
      (io : CreateIo) (num size real : ℕ) (bus : Bus)
      → real_region_size round_up_p2 io.in_extent_range num size ≡ ok real
      → initialise round_up_p2 io num real ≡ ok bus
      → IsFreshBus round_up_p2 bus × (bus.num_regions ≡ num) × (size ≤ bus.region_size)
  unfolding initialise
  initialised io num size real bus h i =
      let a = accepted round_up_p2 law io.in_extent_range num size real h in
      let e : record { num_regions = num; region_size = u32 real; region = λ i. fresh_region }
          ≡ bus =
        ground arith in
      (
        subst (IsFreshBus round_up_p2) e (fresh io.in_extent_range num size real h),
        ap (λ (b : Bus). b.num_regions) (sym e),
        subst (λ (b : Bus). size ≤ b.region_size) e (omega arith),
      )

  create_locked-Made :
      (io : CreateIo) (file : BackingFile) (num size real : ℕ)
      (locked : Result Errc (Unit {0}) × BackingFile)
      → Locked file locked
      → real_region_size round_up_p2 io.in_extent_range num size ≡ ok real
      → Made file num size (create_locked round_up_p2 io num real locked)
  unfolding create_locked
  create_locked-Made io file num size real (ok _, f) l h =
      finish-Made file f num size real (initialise round_up_p2 io num real) l
        (λ bus i. initialised io num size real bus h i)
  create_locked-Made io file num size real (err e, f) l h = inr l

  create_sized-Made :
      (io : CreateIo) (file : BackingFile) (num size : ℕ) (lock_state : LockKind)
      (rx : Result Errc ℕ)
      → file.lock ≡ lock_state
      → real_region_size round_up_p2 io.in_extent_range num size ≡ rx
      → Made file num size (create_sized round_up_p2 io file num lock_state rx)
  unfolding create_sized
  create_sized-Made io file num size lock_state (ok real) l h =
      create_locked-Made io file num size real (acquire lock_state io.lock_file file)
        (acquire-Locked lock_state io.lock_file file l) h
  create_sized-Made io file num size lock_state (err e) l h = inl refl

  -- `mpsc_bus` either makes a bus of empty regions, of the requested number and at least the
  -- requested size, and leaves the file exclusively locked; or it fails, and leaves the lock as the
  -- caller had it or gives it up. The lock state that the caller names must be the file's.
  pub mpsc_bus-Made :
      (io : CreateIo) (file : BackingFile) (num size : ℕ) (lock_state : LockKind)
      → file.lock ≡ lock_state
      → Made file num size (mpsc_bus round_up_p2 io file num size lock_state)
  unfolding mpsc_bus
  mpsc_bus-Made io file num size lock_state h =
      elim (Bool-cases (not file.is_valid || not file.is_writable)) [
        | inl bad ↦ rw bad (inl refl)
        | inr good ↦ rw good (
            create_sized-Made io file num size lock_state
              (real_region_size round_up_p2 io.in_extent_range num size) h refl)
      ]
