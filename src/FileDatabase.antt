-- ===== src/FileDatabase.antt =====
-- libs/deeplog/src/dplx/dlog/core/file_database.cpp: the database of the record containers and
-- message buses of a directory. Its root file has two slots for the contents, which the streams of
-- detail/interleaving_stream.hpp keep apart; a revision is written to the slot of its parity. The
-- codec of the contents and the calls of llfio are parameters.
pub mod Operate
pub mod Remove
pub mod Prune
pub mod Storage
pub mod Rotation
pub mod Stale
pub mod Buses
pub mod Open
mod Tests
use deeplog.Base.{
  List, Result, [], erase_if, err, if◌then◌else◌, leb, ltb, ok, u64, ℕ, ◌%◌, ◌+◌, ◌==◌, ◌∷◌,
}
use deeplog.Errc.{Errc}

abbrev pub Path8 : Type 0
Path8 = List ℕ

-- `record_container_meta`; the sink id is the number of a `file_sink_id`.
pub record RecordContainerMeta : Type 0 where
  pub path : Path8
  pub byte_size : ℕ
  pub sink_id : ℕ
  pub rotation : ℕ

pub record MessageBusMeta : Type 0 where
  pub path : Path8
  pub magic : List ℕ
  pub id : List ℕ
  pub rotation : ℕ
  pub process_id : ℕ

-- `contents_t`
pub record Contents : Type 0 where
  pub revision : ℕ
  pub record_containers : List RecordContainerMeta
  pub message_buses : List MessageBusMeta

-- The two slots of the root file, as the bytes that the decoder reads of them.
pub record RootFile : Type 0 where
  pub even_slot : List ℕ
  pub odd_slot : List ℕ

-- `mContents`, and the root file behind `mRootHandle`.
pub record Database : Type 0 where
  pub contents : Contents
  pub root : RootFile

-- What becomes of a write of the contents: all of it reaches the slot; or the encoder or the
-- stream fails, and the slot is left with some bytes.
pub data Write : Type 0 where
  written : Write
  failed : Errc → List ℕ → Write

-- What the opening of a new file reports: made, with the result of its lock; or not made.
pub data Opening : Type 0 where
  created : Result Errc (Unit {0}) → Opening
  file_exists : Errc → Opening
  not_opened : Errc → Opening

unfoldable pub insert_by {ℓ} : {A : Type ℓ} → (A → ℕ) → A → List A → List A
insert_by key x [] = x ∷ []
insert_by key x (y ∷ ys) = if leb (key x) (key y) then x ∷ y ∷ ys else y ∷ insert_by key x ys

-- `std::ranges::sort` by a key; of equal keys it may choose any order, this one keeps the given.
unfoldable pub sort_by {ℓ} : {A : Type ℓ} → (A → ℕ) → List A → List A
sort_by key [] = []
sort_by key (x ∷ xs) = insert_by key x (sort_by key xs)

-- The last part of `fetch_content_impl`.
pub tidy : Contents → Contents
tidy c = record c {
  record_containers = sort_by (λ m. m.rotation) c.record_containers;
  message_buses = sort_by (λ m. m.rotation) (erase_if (λ m. m.rotation == 0) c.message_buses);
}

-- A slot is adopted if it decodes and is newer; the parity of the slot is kept with it.
pub adopt : ℕ → Result Errc Contents → Contents × ℕ → Contents × ℕ
adopt slot (ok c) (mine, odd) = if ltb mine.revision c.revision then (c, slot) else (mine, odd)
adopt slot (err e) (mine, odd) = (mine, odd)

pub settle : Contents × ℕ → Contents
settle (mine, odd) =
    tidy (
      if mine.revision % 2 == odd then mine else record mine { revision = u64 (mine.revision + 1) })

-- The end of `fetch_content_impl`, from what the two slots decode to.
pub finish_fetch :
    Result Errc Contents → Result Errc Contents → Contents × ℕ → Result Errc (Unit {0}) × Contents
finish_fetch first (ok c) found = (ok tt, settle (adopt 1 (ok c) found))
finish_fetch (ok _) (err e) found = (ok tt, settle found)
finish_fetch (err _) (err e) found = (err e, found.0)

abbrev pub slot : RootFile → ℕ → List ℕ
slot f odd = if odd == 0 then f.even_slot else f.odd_slot

abbrev pub with_slot : RootFile → ℕ → List ℕ → RootFile
with_slot f odd bytes =
    if odd == 0 then record f { even_slot = bytes } else record f { odd_slot = bytes }

-- The results of the calls that `fetch_content_impl` makes on the streams.
pub record FetchIo : Type 0 where
  pub open_stream : Result Errc (Unit {0})
  pub reset_stream : Result Errc (Unit {0})

module _ (encode : Contents → List ℕ) (decode : List ℕ → Result Errc Contents) where
  pub fetch_content_impl : FetchIo → RootFile → Contents → Result Errc (Unit {0}) × Contents
  fetch_content_impl io f mine =
      let first = decode f.even_slot in
      let found = adopt 0 first (mine, mine.revision % 2) in
      elim io.open_stream [
        | err e ↦ (err e, mine)
        | ok _ ↦ elim io.reset_stream [
          | err e ↦ (err e, found.0)
          | ok _ ↦ finish_fetch first (decode f.odd_slot) found
        ]
      ]

  pub retire_to_storage : Write → RootFile → Contents → Result Errc (Unit {0}) × RootFile
  retire_to_storage written f c = (ok tt, with_slot f (c.revision % 2) (encode c))
  retire_to_storage (failed e bytes) f c = (err e, with_slot f (c.revision % 2) bytes)

  -- `fetch_content`, under a shared lock.
  pub fetch_content :
      Result Errc (Unit {0}) → FetchIo → Database → Result Errc (Unit {0}) × Database
  fetch_content (err e) io db = (err e, db)
  fetch_content (ok _) io db =
      let (rx, c) = fetch_content_impl io db.root db.contents in (rx, record db { contents = c })

  -- The common beginning of the operations: the exclusive lock of the root file, then a fetch;
  -- `body` is what follows, and `fail` what the operation returns at a failure before it.
  unfoldable pub under_lock {ℓ} :
      {R : Type ℓ}
      → (Errc → Database → R)
      → Result Errc (Unit {0})
      → FetchIo
      → (Database → R)
      → Database
      → R
  under_lock fail (err e) io body db = fail e db
  under_lock fail (ok _) io body db =
      let (rx, c) = fetch_content_impl io db.root db.contents in
      let fetched = record db { contents = c } in
      elim rx [ ok _ ↦ body fetched | err e ↦ fail e fetched ]
