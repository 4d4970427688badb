-- ===== src/FileDatabase/Operate.antt =====
-- core/file_database.cpp: the operations that add and change entries.
use deeplog.Base.{
  Bool, List, Option, Result, [], equal, err, false, if◌then◌else◌, ltb, none, ok, some, suc, true,
  u32, u64, zero, ℕ, ◌&&◌, ◌++◌, ◌+◌, ◌-◌, ◌==◌, ◌^◌, ◌∷◌,
}
use mathlib.Core.Option
use deeplog.Errc.{Errc, unknown_sink}
use deeplog.FileDatabase.{
  Path8, RecordContainerMeta, MessageBusMeta, Contents, Database, Write, Opening, created,
  file_exists, not_opened, FetchIo, retire_to_storage, under_lock,
}

-- `std::ranges::max` with a projection: the first element of the greatest key.
unfoldable pub max_by {ℓ} : {A : Type ℓ} → (A → ℕ) → A → List A → A
max_by key best [] = best
max_by key best (x ∷ xs) = max_by key (if ltb (key best) (key x) then x else best) xs

-- The rotation of the element that `std::ranges::max` finds, where the key of an element that is
-- not `mine` is 0.
unfoldable pub last_rotation {ℓ} : {A : Type ℓ} → (A → ℕ) → (A → Bool) → List A → ℕ
last_rotation rotation mine [] = 0
last_rotation rotation mine (x ∷ xs) =
    rotation (max_by (λ y. if mine y then rotation y else 0) x xs)

-- What the open retry loop ends with: an open and locked file of that rotation; a file that was
-- made, but not locked; or no file.
pub data Opened : Type 0 where
  opened : ℕ → Opened
  not_locked : ℕ → Errc → Opened
  not_made : Errc → Opened

-- One round of the open retry loop; `again` follows if the file exists.
pub attempt : ℕ → (Errc → Option Opened) → Opening → Option Opened
attempt rotation again (created (ok _)) = some (opened rotation)
attempt rotation again (created (err e)) = some (not_locked rotation e)
attempt rotation again (file_exists e) = again e
attempt rotation again (not_opened e) = some (not_made e)

-- The open retry loop, on fuel.
unfoldable pub open_loop : ℕ → (ℕ → Opening) → ℕ → ℕ → Option Opened
open_loop zero try last rotation = none
open_loop (suc fuel) try last rotation =
    let rest = open_loop fuel try last (u32 (rotation + 2)) in
    attempt rotation
      (λ e. if ltb (u32 (rotation + (2 ^ 32 - 10))) last then rest else some (not_made e))
      (try rotation)

-- The result, the database, and the path of the file that the call has left in the directory.
abbrev pub Created : Type 0
Created = Result Errc ℕ × Database × Option Path8

abbrev pub fail : Errc → Database → Result Errc (Unit {0}) × Database
fail e db = (err e, db)

pub is_empty {ℓ} : {A : Type ℓ} → List A → Bool
is_empty [] = true
is_empty (x ∷ xs) = false

-- The first entry of `which` and `rotation` gets the size.
pub set_size : ℕ → ℕ → ℕ → List RecordContainerMeta → Option (List RecordContainerMeta)
set_size which rotation size [] = none
set_size which rotation size (m ∷ ms) =
    let rest = set_size which rotation size ms in
    if m.sink_id == which && m.rotation == rotation
    then some (record m { byte_size = size } ∷ ms)
    else Option.map (λ xs. m ∷ xs) rest

module _ (encode : Contents → List ℕ) (decode : List ℕ → Result Errc Contents) where
  -- The end of both create functions: the new contents are stored, or the file is removed again;
  -- `unlinks` says whether that succeeds.
  pub finish_creation : Write → Bool → (ℕ → Path8) → (ℕ → Contents) → Database → Opened → Created
  finish_creation write unlinks name contents db (opened rotation) =
      let (rx, root) = retire_to_storage encode decode write db.root (contents rotation) in
      elim rx [
        | ok _ ↦ (
          ok rotation,
          record { contents = contents rotation; root = root },
          some (name rotation),
        )
        | err e ↦ (err e, record db { root = root }, if unlinks then none else some (name rotation))
      ]
  finish_creation write unlinks name contents db (not_locked rotation e) =
      (err e, db, some (name rotation))
  finish_creation write unlinks name contents db (not_made e) = (err e, db, none)

  -- `name` is the pattern's file name for a rotation.
  pub create_record_container :
      ℕ
      → Result Errc (Unit {0})
      → FetchIo
      → (Path8 → Opening)
      → Write
      → Bool
      → (ℕ → Path8)
      → ℕ
      → Database
      → Option Created
  create_record_container fuel lock io try write unlinks name sink_id db =
      under_lock encode decode (λ e d. some (err e, d, none)) lock io
        (λ d.
          let entry : ℕ → RecordContainerMeta = λ rotation. record {
            path = name rotation;
            byte_size = 0;
            sink_id = sink_id;
            rotation = rotation;
          } in
          let last =
            last_rotation (λ m. m.rotation) (λ m. m.sink_id == sink_id)
              (d.contents.record_containers ++ entry 0 ∷ []) in
          Option.map
            (finish_creation write unlinks name
              (λ rotation. record (d.contents) {
                revision = u64 (d.contents.revision + 1);
                record_containers = d.contents.record_containers ++ entry rotation ∷ [];
              })
              d)
            (open_loop fuel (λ rotation. try (name rotation)) last (u32 (last + 1))))
        db

  pub create_message_bus :
      ℕ
      → Result Errc (Unit {0})
      → FetchIo
      → (Path8 → Opening)
      → Write
      → Bool
      → (ℕ → Path8)
      → List ℕ
      → List ℕ
      → ℕ
      → Database
      → Option Created
  create_message_bus fuel lock io try write unlinks name id magic process_id db =
      under_lock encode decode (λ e d. some (err e, d, none)) lock io
        (λ d.
          let entry : ℕ → MessageBusMeta = λ rotation. record {
            path = name rotation;
            magic = magic;
            id = id;
            rotation = rotation;
            process_id = process_id;
          } in
          let last =
            last_rotation (λ m. m.rotation) (λ m. equal m.id id)
              (d.contents.message_buses ++ entry 0 ∷ []) in
          Option.map
            (finish_creation write unlinks name
              (λ rotation. record (d.contents) {
                revision = u64 (d.contents.revision + 1);
                message_buses = d.contents.message_buses ++ entry rotation ∷ [];
              })
              d)
            (open_loop fuel (λ rotation. try (name rotation)) last (u32 (last + 1))))
        db

  -- The handle keeps the contents that it fetched.
  pub update_record_container_size :
      Result Errc (Unit {0})
      → FetchIo
      → Write
      → ℕ
      → ℕ
      → ℕ
      → Database
      → Result Errc (Unit {0}) × Database
  update_record_container_size lock io write which rotation size db =
      under_lock encode decode fail lock io
        (λ d. elim (set_size which rotation size d.contents.record_containers) [
          | none ↦ (err unknown_sink, d)
          | some ms ↦
              let (rx, root) = retire_to_storage encode decode write d.root (record (d.contents) {
                revision = u64 (d.contents.revision + 1);
                record_containers = ms;
              }) in
              (rx, record d { root = root })
        ])
        db

pub next_rotation : List RecordContainerMeta → ℕ → ℕ
next_rotation vs sink_id = u32 (1 + last_rotation (λ v. v.rotation) (λ v. v.sink_id == sink_id) vs)
