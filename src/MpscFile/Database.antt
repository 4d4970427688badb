-- ===== src/MpscFile/Database.antt =====
-- bus/mpsc_bus.cpp, `db_mpsc_bus_handle`: a bus whose file is listed in a file database.
use deeplog.Base.{Bool, List, Option, Result, [], err, if◌then◌else◌, none, ok, some, true, ℕ, ◌∷◌}
use mathlib.Core.Option
use deeplog.Errc.{Errc}
use deeplog.MpscBus.{Bus}
use deeplog.FileDatabase.Remove.{remove_message_bus}
use deeplog.FileDatabase.{Path8, Contents, Database, Write, Opening, FetchIo}
use deeplog.FileDatabase.Open.{clone}
use deeplog.FileDatabase.Operate.{Created, create_message_bus}
use deeplog.MpscFile.{BackingFile, exclusive, CreateIo, mpsc_bus}

-- What the calls report: those of `clone`, those of `create_message_bus`, those of `mpsc_bus`, and
-- whether the mapped file can be unlinked.
pub record DbBusIo : Type 0 where
  pub reopened : Result Errc (Unit {0})
  pub path_cloned : Result Errc (Unit {0})
  pub copied : Result Errc (Unit {0})
  pub lock : Result Errc (Unit {0})
  pub fetch : FetchIo
  pub opening : Path8 → Opening
  pub write : Write
  pub unlinks : Bool
  pub create : CreateIo
  pub is_writable : Bool

-- `mpsc_bus_handle::magic`
abbrev pub bus_magic : List ℕ
bus_magic =
    0x82 ∷ 0x50 ∷ 0x0d ∷ 0x0a ∷ 0xab ∷ 0x7e ∷ 0x7b ∷ 0x64 ∷ 0x6d ∷ 0x70 ∷ 0x73 ∷ 0x63 ∷ 0x62 ∷ 0x7d
    ∷ 0x7e ∷ 0xbb ∷ 0x0a ∷ 0x1a ∷ []

-- `db_mpsc_bus_handle`
pub record DbBus : Type 0 where
  pub bus : Bus
  pub database : Database
  pub id : List ℕ
  pub rotation : ℕ

-- The handle, the database as it is left, and the path of the file that stays in the directory.
abbrev pub DbBusCreated : Type 0
DbBusCreated = Result Errc DbBus × Database × Option Path8

module _ (round_up_p2 : ℕ → ℕ → ℕ) (encode : Contents → List ℕ)
    (decode : List ℕ → Result Errc Contents) where
  -- A file that `mpsc_bus` fails on is unlinked; its entry stays in the database.
  pub finish_db_bus : DbBusIo → List ℕ → ℕ → ℕ → Created → DbBusCreated
  finish_db_bus io id num_regions region_size (err e, db, left) = (err e, db, left)
  finish_db_bus io id num_regions region_size (ok rotation, db, left) =
      let file : BackingFile = record {
        is_valid = true;
        is_writable = io.is_writable;
        lock = exclusive;
      } in
      elim (mpsc_bus round_up_p2 io.create file num_regions region_size exclusive).0 [
        | err e ↦ (err e, db, if io.unlinks then none else left)
        | ok bus ↦
            (ok (record { bus = bus; database = db; id = id; rotation = rotation }), db, left)
      ]

  pub db_mpsc_bus : ℕ → DbBusIo → Database → List ℕ → (ℕ → Path8) → ℕ → ℕ → ℕ → Option DbBusCreated
  db_mpsc_bus fuel io database id name process_id num_regions region_size =
      elim (clone io.reopened io.path_cloned io.copied database) [
        | err e ↦ some (err e, database, none)
        | ok db ↦ Option.map (finish_db_bus io id num_regions region_size) (
            create_message_bus encode decode fuel io.lock io.fetch io.opening io.write io.unlinks
              name id bus_magic process_id db)
      ]

  -- `unlink`: the results of the unlinking of the file, and of the calls of `remove_message_bus`.
  pub unlink :
      Result Errc (Unit {0})
      → Result Errc (Unit {0})
      → FetchIo
      → Write
      → DbBus
      → Result Errc (Unit {0}) × Database
  unlink (err e) lock fetch write handle = (err e, handle.database)
  unlink (ok _) lock fetch write handle =
      remove_message_bus encode decode lock fetch write handle.id handle.rotation handle.database
