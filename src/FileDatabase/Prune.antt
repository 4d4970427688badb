-- ===== src/FileDatabase/Prune.antt =====
-- core/file_database.cpp, `prune_record_containers` under limits: which containers stay.
use deeplog.Base.{
  Bool, Bool-cases, List, Result, [], arith, erase_if, err, false, if◌then◌else◌, inl, inr, leb,
  ltb, ok, refl, suc, true, u32, u32_max, u64, zero, ℕ, ◌+◌, ◌<◌, ◌==◌, ◌^◌, ◌||◌, ◌∷◌, ◌≡◌, ◌≤◌,
  ◌⊎◌,
}
use mathlib.Core.List.{reverse}
use deeplog.Errc.{Errc}
use deeplog.FileDatabase.{
  Path8, RecordContainerMeta, Contents, Database, Write, FetchIo, retire_to_storage, under_lock,
}
use deeplog.FileDatabase.Operate.{fail, is_empty}

-- What the code finds of a container: there is no such file; it is not opened or not locked; or it
-- is locked, with the result of `maximum_extent`.
pub data Probe : Type 0 where
  missing unavailable : Probe
  locked : Result Errc ℕ → Probe

abbrev pub or_one : ℕ → ℕ
or_one n = if n == 0 then 1 else n

-- `sanitize_container_byte_size`
pub sanitize_container_byte_size : Result Errc ℕ → ℕ → ℕ
sanitize_container_byte_size extent zero = elim extent [
  | ok n ↦ or_one (if ltb u32_max n then u32_max else n)
  | err e ↦ 1
]
sanitize_container_byte_size extent (suc n) = suc n

-- `file_database_limits`
pub record Limits : Type 0 where
  pub max_files_to_keep : ℕ
  pub global_size_limit : ℕ

Probe-cases :
    (p : Probe)
    → (p ≡ missing) ⊎ ((p ≡ unavailable) ⊎ ((extent : Result Errc ℕ) × (p ≡ locked extent)))
Probe-cases missing = inl refl
Probe-cases unavailable = inr (inl refl)
Probe-cases (locked extent) = inr (inr (extent, refl))

module _ (round_up_p2 : ℕ → ℕ → ℕ) (page_size : ℕ) (probe : Path8 → Probe) (limits : Limits) where
  -- The loop over the containers, the newest first; the entries that are left, in the same order.
  pub prune_loop : ℕ → ℕ → List RecordContainerMeta → List RecordContainerMeta
  prune_loop num_files accumulated [] = []
  prune_loop num_files accumulated (m ∷ ms) =
      let same = prune_loop num_files accumulated ms in
      let m' : Result Errc ℕ → RecordContainerMeta =
        λ extent. record m { byte_size = sanitize_container_byte_size extent m.byte_size } in
      let more = λ (extent : Result Errc ℕ).
        prune_loop (u32 (num_files + 1))
          (u64 (accumulated + round_up_p2 (m' extent).byte_size page_size)) ms in
      elim (probe m.path) [
        | missing ↦ same
        | unavailable ↦ m ∷ same
        | locked extent ↦
            if ltb limits.max_files_to_keep num_files || leb limits.global_size_limit accumulated
            then same
            else m' extent ∷ more extent
      ]

  pub prune_contents : Contents → Contents
  prune_contents c = record c {
    revision = u64 (c.revision + 1);
    record_containers =
        erase_if (λ m. is_empty m.path) (reverse (prune_loop 0 0 (reverse c.record_containers)));
  }

  pub is_locked_container : RecordContainerMeta → Bool
  is_locked_container m = elim (probe m.path) [
    | missing ↦ false
    | unavailable ↦ false
    | locked _ ↦ true
  ]

  -- The handle keeps the contents that it fetched.
  pub prune_record_containers :
      (Contents → List ℕ)
      → (List ℕ → Result Errc Contents)
      → Result Errc (Unit {0})
      → FetchIo
      → Write
      → Database
      → Result Errc (Unit {0}) × Database
  prune_record_containers encode decode lock io write db =
      under_lock encode decode fail lock io
        (λ d.
          let (rx, root) =
            retire_to_storage encode decode write d.root (prune_contents d.contents) in
          (rx, record d { root = root }))
        db

  -- How many of the entries could be locked.
  pub locked_count : List RecordContainerMeta → ℕ
  locked_count [] = 0
  locked_count (m ∷ ms) = if is_locked_container m then locked_count ms + 1 else locked_count ms

  abbrev full : ℕ → ℕ → Bool
  full n a = ltb limits.max_files_to_keep n || leb limits.global_size_limit a

  -- One round of the loop.
  skips :
      (n a : ℕ) (m : RecordContainerMeta) (ms : List RecordContainerMeta)
      → (probe m.path ≡ missing)
        ⊎ (probe m.path ≡ unavailable)
        ⊎ ((extent : Result Errc ℕ) × (probe m.path ≡ locked extent) × (full n a ≡ true))
      → locked_count (prune_loop n a (m ∷ ms)) ≡ locked_count (prune_loop n a ms)
  unfolding prune_loop locked_count is_locked_container
  skips n a m ms (inl h) = ground (arith, h)
  skips n a m ms (inr (inl h)) = ground (arith, h)
  skips n a m ms (inr (inr (extent, h, k))) = ground (arith, h, k)

  keeps :
      (n a : ℕ) (m : RecordContainerMeta) (ms : List RecordContainerMeta) (extent : Result Errc ℕ)
      → probe m.path ≡ locked extent
      → full n a ≡ false
      → locked_count (prune_loop n a (m ∷ ms))
        ≡ locked_count (
            prune_loop
              (u32 (n + 1))
              (u64 (a + round_up_p2 (sanitize_container_byte_size extent m.byte_size) page_size))
              ms)
          + 1
  unfolding prune_loop locked_count is_locked_container
  keeps n a m ms extent h k = ground (arith, h, k)

  -- Of the containers that could be locked, at most one more than `max_files_to_keep` stay, counted
  -- with those that stayed before.
  pub prune_loop-bound :
      (n a : ℕ) (ms : List RecordContainerMeta)
      → limits.max_files_to_keep + 1 < 2 ^ 32
      → n ≤ limits.max_files_to_keep + 1
      → locked_count (prune_loop n a ms) + n ≤ limits.max_files_to_keep + 1
  unfolding prune_loop locked_count
  prune_loop-bound n a [] small h = omega arith
  prune_loop-bound n a (m ∷ ms) small h =
      let rest = prune_loop-bound n a ms small h in
      elim (Probe-cases (probe m.path)) [
        | inl gone ↦ rw (skips n a m ms (inl gone)) rest
        | inr (inl busy) ↦ rw (skips n a m ms (inr (inl busy))) rest
        | inr (inr (extent, held)) ↦ elim (Bool-cases (full n a)) [
          | inl over ↦ rw (skips n a m ms (inr (inr (extent, held, over)))) rest
          | inr room ↦
              let one_more : u32 (n + 1) ≡ n + 1 = ground arith in
              let a' =
                u64 (a + round_up_p2 (sanitize_container_byte_size extent m.byte_size) page_size) in
              let more = prune_loop-bound (n + 1) a' ms small (ground arith) in
              rw (keeps n a m ms extent held room, one_more) (omega (arith, more))
        ]
      ]

-- What the predicate of a user does with a locked container: it closes or removes the file itself,
-- or it says whether the container is to go.
pub data Verdict : Type 0 where
  handle_given_up : Verdict
  says : Result Errc Bool → Verdict

module _ (probe : Path8 → Probe) (predicate : RecordContainerMeta → Verdict) where
  pub erased : Verdict → Bool
  erased handle_given_up = true
  erased (says (ok prune)) = prune
  erased (says (err e)) = false

  -- The entries that stay; those that were looked at have their size filled in.
  pub prune_where : List RecordContainerMeta → List RecordContainerMeta
  prune_where [] = []
  prune_where (m ∷ ms) =
      let rest = prune_where ms in
      let m' : Result Errc ℕ → RecordContainerMeta =
        λ extent. record m { byte_size = sanitize_container_byte_size extent m.byte_size } in
      elim (probe m.path) [
        | missing ↦ rest
        | unavailable ↦ m ∷ rest
        | locked extent ↦ if erased (predicate (m' extent)) then rest else m' extent ∷ rest
      ]

  pub prune_record_containers_where :
      (Contents → List ℕ)
      → (List ℕ → Result Errc Contents)
      → Result Errc (Unit {0})
      → FetchIo
      → Write
      → Database
      → Result Errc (Unit {0}) × Database
  prune_record_containers_where encode decode lock io write db =
      under_lock encode decode fail lock io
        (λ d.
          let c : Contents = record (d.contents) {
            revision = u64 (d.contents.revision + 1);
            record_containers = prune_where d.contents.record_containers;
          } in
          let (rx, root) = retire_to_storage encode decode write d.root c in
          (rx, record d { root = root }))
        db
