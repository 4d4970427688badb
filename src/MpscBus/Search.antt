-- ===== src/MpscBus/Search.antt =====
-- bus/mpsc_bus.hpp, `allocate_record_buffer_inplace`: the search for a region with room.
use deeplog.Base.{
  Bool, Bool-cases, List, Option-cases, Result, arith, err, if◌then◌else◌, inl, inr, leb, ltb, ok,
  refl, some, suc, true, u32, zero, ℕ, ◌&&◌, ◌*◌, ◌+◌, ◌-◌, ◌<◌, ◌==◌, ◌^◌, ◌||◌, ◌≡◌, ◌≤◌, ◌⊎◌,
}
use mathlib.Core.Path.{subst}
use native.Mathlib.Nat.{mul-lt-mul_of_pos_right}
use deeplog.Errc.{Errc, not_enough_space}
use deeplog.MpscBus.{
  Region, OutputBuffer, Bus, max_message_size, region_end, hash_to_index, with_region, reserve,
  allocate, try_regions, allocate_record_buffer_inplace,
}
use deeplog.MpscBus.Produce.{allocate-refused, allocate-granted}

-- The index that a hash selects is one of the buckets.
pub hash_to_index-bounded :
    (h buckets : ℕ)
    → h < 2 ^ 32
    → 0 < buckets
    → buckets < 2 ^ 32
    → hash_to_index h buckets < buckets
unfolding hash_to_index
hash_to_index-bounded h b small pos fits =
    let below : h * b < 2 ^ 32 * b = mul-lt-mul_of_pos_right small pos in omega arith

-- The regions that the search still has before it, from `region_id` up to the first one.
waiting : ℕ → ℕ → ℕ → Bool
waiting first region_id i =
    if leb first region_id then leb region_id i || ltb i first else leb region_id i && ltb i first

steps : ℕ → ℕ → ℕ → ℕ
steps n first region_id = if leb first region_id then first + n - region_id else first - region_id

module _ (round_up_p2 : ℕ → ℕ → ℕ) (bus : Bus) (exchanges : List Bool) (n : ℕ) where
  abbrev try : ℕ → Result Errc (Region × OutputBuffer)
  try id = allocate round_up_p2 bus.region_size exchanges n (bus.region id)

  -- What the search finds: the buffer of one region, and no other region is touched; or nothing,
  -- if each region that is asked for refuses.
  abbrev pub Found : (ℕ → Bool) → Result Errc (Bus × OutputBuffer) → Type 0
  Found asked (ok (bus', out)) =
      (id : ℕ) × (id < bus.num_regions)
      × (r : Region) × (try id ≡ ok (r, out))
      × (bus' ≡ with_region bus id r)
  Found asked (err e) =
      (e ≡ not_enough_space)
      × ((id : ℕ) → id < bus.num_regions → asked id ≡ true → try id ≡ err not_enough_space)

  try-cases :
      (id : ℕ)
      → (try id ≡ err not_enough_space)
        ⊎ ((r : Region) × (out : OutputBuffer) × (try id ≡ ok (r, out)))
  try-cases id =
      let r = bus.region id in
      elim (Option-cases
        (reserve (region_end bus.region_size) r.read_ptr r.alloc_ptr (round_up_p2 n 4))) [
          | inl refused ↦ inl (allocate-refused round_up_p2 bus.region_size exchanges n r refused)
          | inr ((position, stop), granted) ↦ inr (
            _,
            _,
            allocate-granted round_up_p2 bus.region_size exchanges n r position stop granted,
          )
        ]

  -- One region more was asked for, and refused.
  Found-more :
      (asked asked' : ℕ → Bool) (id : ℕ) (rx : Result Errc (Bus × OutputBuffer))
      → try id ≡ err not_enough_space
      → ((j : ℕ) → j < bus.num_regions → asked' j ≡ true → (asked j ≡ true) ⊎ (id ≡ j))
      → Found asked rx
      → Found asked' rx
  Found-more asked asked' id (ok out) refused one f = f
  Found-more asked asked' id (err e) refused one f = (
    f.0,
    λ j k w. elim (one j k w) [
      | inl before ↦ f.1 j k before
      | inr here ↦ subst (λ (x : ℕ). try x ≡ err not_enough_space) here refused
    ],
  )

  try_regions-Found :
      (fuel first id : ℕ)
      → first < bus.num_regions
      → id < bus.num_regions
      → steps bus.num_regions first id ≤ fuel
      → (rx : Result Errc (Bus × OutputBuffer)) × (try_regions round_up_p2 fuel bus exchanges n
            first id
          ≡ some rx)
        × Found (waiting first id) rx
  unfolding try_regions waiting steps
  try_regions-Found zero first id hf hi h = absurd (ground arith)
  try_regions-Found (suc fuel) first id hf hi h = elim (try-cases id) [
    | inr (r, out, granted) ↦
        (ok (with_region bus id r, out), ground (arith, granted), (id, hi, r, granted, refl))
    | inl refused ↦ elim (Bool-cases ((if id + 1 == bus.num_regions then 0 else id + 1) == first)) [
      | inl last ↦ (
        err not_enough_space,
        ground (arith, refused),
        (refl, λ j k w. subst (λ (x : ℕ). try x ≡ err not_enough_space) (ground arith) refused),
      )
      | inr more ↦
          let after = if id + 1 == bus.num_regions then 0 else id + 1 in
          let rest = try_regions-Found fuel first after hf (ground arith) (ground arith) in
          (
            rest.0,
            ground (arith, refused, rest.1),
            Found-more (waiting first after) (waiting first id) id rest.0 refused
                (λ j k w. ground arith) rest.2,
          )
    ]
  ]

-- A message that is too long is refused; for any other, the search ends: it returns the buffer of
-- one region and leaves the other regions as they are, or, only if every region of the bus refuses
-- the message, the error `not_enough_space`.
pub allocate_record_buffer_inplace-Found :
    (round_up_p2 : ℕ → ℕ → ℕ) (bus : Bus) (exchanges : List Bool) (n spread : ℕ)
    → 0 < bus.num_regions
    → bus.num_regions < 2 ^ 32
    → (rx : Result Errc (Bus × OutputBuffer)) × (allocate_record_buffer_inplace round_up_p2 bus
          exchanges n spread
        ≡ some rx)
      × (max_message_size < n → rx ≡ err not_enough_space)
      × (n ≤ max_message_size → Found round_up_p2 bus exchanges n (λ id. true) rx)
unfolding allocate_record_buffer_inplace waiting steps
allocate_record_buffer_inplace-Found f bus exchanges n spread pos fits =
    let first = hash_to_index (u32 spread) bus.num_regions in
    let in_bus = hash_to_index-bounded (u32 spread) bus.num_regions (omega arith) pos fits in
    let found =
      try_regions-Found f bus exchanges n bus.num_regions first first in_bus in_bus
        (ground arith) in
    elim (Bool-cases (ltb max_message_size n)) [
      | inl long ↦
          (err not_enough_space, ground (arith, long), λ h. refl, λ h. absurd (ground arith))
      | inr short ↦ (
        found.0,
        ground (arith, short, found.1),
        λ h. absurd (ground arith),
        λ h. all found.0 found.2,
      )
    ]
  where
    all :
        (rx : Result Errc (Bus × OutputBuffer))
        → Found f bus exchanges n
            (waiting
              (hash_to_index (u32 spread) bus.num_regions)
              (hash_to_index (u32 spread) bus.num_regions))
            rx
        → Found f bus exchanges n (λ id. true) rx
    all (ok out) g = g
    all (err e) g = (g.0, λ j k w. g.1 j k (ground arith))
