-- ===== src/FileDatabase/Remove.antt =====
-- core/file_database.cpp: the operations that remove entries and their files.
use deeplog.Base.{
  Bool, List, Option, Result, equal, erase_if, err, fail_if, false, if◌then◌else◌, map, none, not,
  ok, some, true, u64, ℕ, ◌&&◌, ◌+◌, ◌==◌, ◌>>◌,
}
use deeplog.Errc.{Errc, unknown_message_bus, container_unlink_failed, message_bus_unlink_failed}
use deeplog.FileDatabase.{
  Path8, MessageBusMeta, Contents, Database, Write, FetchIo, retire_to_storage, under_lock,
}
use deeplog.FileDatabase.Operate.{fail, is_empty}

-- How the removal of a listed file goes: the file is opened, with the results of `try_lock_file`
-- and of `unlink`; there is no such file; or it is not opened for another reason.
pub data Removal : Type 0 where
  opens : Bool → Bool → Removal
  no_such_file : Removal
  no_access : Removal

-- Whether the entry is given up.
unfoldable pub gives_up : Removal → Bool
gives_up (opens locked unlinked) = locked && unlinked
gives_up no_such_file = true
gives_up no_access = false

unfoldable pub unlink_all_record_containers_impl : (Path8 → Removal) → Contents → Contents
unlink_all_record_containers_impl remove c = record c {
  record_containers =
      erase_if (λ m. m.rotation == 0)
        (map (λ m. if gives_up (remove m.path) then record m { rotation = 0 } else m)
          c.record_containers);
}

unfoldable pub unlink_all_message_buses_impl : (Path8 → Removal) → Contents → Contents
unlink_all_message_buses_impl remove c = record c {
  message_buses =
      erase_if (λ m. m.rotation == 0)
        (map (λ m. if gives_up (remove m.path) then record m { rotation = 0 } else m)
          c.message_buses);
}

module _ (encode : Contents → List ℕ) (decode : List ℕ → Result Errc Contents) where
  pub remove_message_bus :
      Result Errc (Unit {0})
      → FetchIo
      → Write
      → List ℕ
      → ℕ
      → Database
      → Result Errc (Unit {0}) × Database
  remove_message_bus lock io write id rotation db =
      under_lock encode decode fail lock io
        (λ d.
          let named : MessageBusMeta → Bool = λ m. equal m.id id && m.rotation == rotation in
          let c : Contents = record (d.contents) {
            revision = u64 (d.contents.revision + 1);
            message_buses = erase_if named d.contents.message_buses;
          } in
          let (rx, root) = retire_to_storage encode decode write d.root c in
          if is_empty (erase_if (λ m. not (named m)) d.contents.message_buses)
          then (err unknown_message_bus, d)
          else elim rx [
            | ok _ ↦ (ok tt, record { contents = c; root = root })
            | err e ↦ (err e, record d { root = root })
          ])
        db

  -- The result of the write is not looked at.
  unfoldable pub unlink_all_record_containers :
      Result Errc (Unit {0})
      → FetchIo
      → Write
      → (Path8 → Removal)
      → Database
      → Result Errc (Unit {0}) × Database
  unlink_all_record_containers lock io write remove db =
      under_lock encode decode fail lock io
        (λ d.
          let c = unlink_all_record_containers_impl remove d.contents in
          let root = (retire_to_storage encode decode write d.root c).1 in
          (
            fail_if (not (is_empty c.record_containers)) container_unlink_failed,
            record { contents = c; root = root },
          ))
        db

  pub unlink_all_message_buses :
      Result Errc (Unit {0})
      → FetchIo
      → Write
      → (Path8 → Removal)
      → Database
      → Result Errc (Unit {0}) × Database
  unlink_all_message_buses lock io write remove db =
      under_lock encode decode fail lock io
        (λ d.
          let c = unlink_all_message_buses_impl remove d.contents in
          let root = (retire_to_storage encode decode write d.root c).1 in
          (
            fail_if (not (is_empty c.message_buses)) message_bus_unlink_failed,
            record { contents = c; root = root },
          ))
        db

  -- `none` is the root file unlinked and the handle cleared.
  pub unlink_all :
      Result Errc (Unit {0})
      → FetchIo
      → Write
      → (Path8 → Removal)
      → Result Errc (Unit {0})
      → Database
      → Result Errc (Unit {0}) × Option Database
  unlink_all lock io write remove unlink_root db =
      under_lock encode decode (λ e d. (err e, some d)) lock io
        (λ d.
          let c =
            unlink_all_message_buses_impl remove
              (unlink_all_record_containers_impl remove d.contents) in
          let left : Database = record {
            contents = c;
            root = (retire_to_storage encode decode write d.root c).1;
          } in
          let rx =
            fail_if (not (is_empty c.record_containers)) container_unlink_failed
            >> (fail_if (not (is_empty c.message_buses)) message_bus_unlink_failed
                >> unlink_root) in
          elim rx [ ok _ ↦ (ok tt, none) | err e ↦ (err e, some left) ])
        db
