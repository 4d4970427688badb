-- ===== src/FileDatabase/Buses.antt =====
-- core/file_database.cpp, `prune_message_buses`: the buses that their processes left behind are
-- recovered to record containers and removed.
pub mod Safe
mod Tests
use deeplog.Base.{
  Bool, List, Option, Result, [], equal, erase_if, err, if◌then◌else◌, none, not, ok, some, u64, ℕ,
  ◌&&◌, ◌++◌, ◌+◌, ◌==◌, ◌∷◌,
}
use mathlib.Core.List.{Memᴰ}
use deeplog.Errc.{Errc}
use deeplog.FileDatabase.{
  under_lock, Path8, RecordContainerMeta, MessageBusMeta, Contents, RootFile, Database, Write,
  written, failed, FetchIo, fetch_content_impl, retire_to_storage,
}
use deeplog.FileDatabase.Operate.{fail, next_rotation}
use deeplog.MpscFile.Database.{bus_magic}

-- What the code finds of a bus and makes of it: there is no such file; it is skipped, since it cannot
-- be opened or locked, or no sink can be made for it; its handle cannot be reopened; or its messages
-- are handed to the sink. Then, whether the sink's file was cloned for a rollback, and for the last,
-- whether the sink finalizes and the recovery reports no foreign error, and whether the bus unlinks.
pub data Found : Type 0 where
  missing : Found
  skipped : Found
  not_reopened : Errc → Bool → Found
  recovered : Bool → Bool → Bool → Found

-- The copy of the contents, the root file, the files of buses that are in the directory, and those of
-- recovered messages that this call made.
pub record Pruning : Type 0 where
  pub contents : Contents
  pub root : RootFile
  pub bus_files : List Path8
  pub recovery_files : List Path8

-- `file_sink_id::recovered`
abbrev pub recovered_id : ℕ
recovered_id = 13

pub erased : MessageBusMeta → MessageBusMeta
erased candidate = record candidate { rotation = 0 }

-- The guards: the container is taken back, and the file of the sink unlinked if it was cloned.
pub rollback : Bool → Path8 → List RecordContainerMeta → Pruning → Pruning
rollback cloned path containers p = record p {
  contents = record p.contents { record_containers = containers };
  recovery_files = if cloned then p.recovery_files else path ∷ p.recovery_files;
}

-- The end of a round whose bus file is unlinked.
pub end_of_round :
    Bool → Path8 → Pruning → Result Errc (Unit {0}) × Pruning → Result Errc (Unit {0}) × Pruning
end_of_round cloned path before (ok _, p) =
    (ok tt, record p { recovery_files = path ∷ p.recovery_files })
end_of_round cloned path before (err e, p) =
    (err e, rollback cloned path before.contents.record_containers p)

pub unlink_first : Path8 → List Path8 → List Path8
unlink_first path [] = []
unlink_first path (x ∷ xs) =
    let rest = unlink_first path xs in if equal x path then xs else x ∷ rest

module _ (encode : Contents → List ℕ) (decode : List ℕ → Result Errc Contents)
    (recovery_path : Path8 → ℕ → Path8) where
  -- The entry of the recovery container.
  pub recovery_container : Contents → MessageBusMeta → RecordContainerMeta
  recovery_container c candidate =
      let blank : RecordContainerMeta = record {
        path = [];
        byte_size = 0;
        sink_id = recovered_id;
        rotation = 0;
      } in
      let rotation = next_rotation (c.record_containers ++ blank ∷ []) recovered_id in
      record blank { path = recovery_path candidate.path rotation; rotation = rotation }

  -- `eraseBusEntry`, with the entries in front of the candidate and behind it.
  pub erase_bus_entry :
      Write
      → List MessageBusMeta
      → MessageBusMeta
      → List MessageBusMeta
      → Pruning
      → Result Errc (Unit {0}) × Pruning
  erase_bus_entry w done candidate rest p =
      let c = record p.contents {
        revision = u64 (p.contents.revision + 1);
        message_buses = done ++ erased candidate ∷ rest;
      } in
      let retired = retire_to_storage encode decode w p.root c in
      (retired.0, record p { contents = c; root = retired.1 })

  -- One round for a bus of the right kind.
  pub prune_found :
      Found
      → Write
      → List MessageBusMeta
      → MessageBusMeta
      → List MessageBusMeta
      → Pruning
      → Result Errc (Unit {0}) × Pruning
  prune_found missing w done candidate rest p = erase_bus_entry w done candidate rest p
  prune_found skipped w done candidate rest p = (ok tt, p)
  prune_found (not_reopened e cloned) w done candidate rest p =
      let container = recovery_container p.contents candidate in
      (err e, rollback cloned container.path p.contents.record_containers p)
  prune_found (recovered cloned finalized unlinks) w done candidate rest p =
      let container = recovery_container p.contents candidate in
      let taken_back = rollback cloned container.path p.contents.record_containers p in
      let with_container = record p {
        contents = record p.contents {
          record_containers = p.contents.record_containers ++ container ∷ [];
        };
        bus_files = unlink_first candidate.path p.bus_files;
      } in
      let ended =
        end_of_round cloned container.path p
          (erase_bus_entry w done candidate rest with_container) in
      if finalized && unlinks then ended else (ok tt, taken_back)

  pub prune_candidate :
      Found
      → Write
      → List MessageBusMeta
      → MessageBusMeta
      → List MessageBusMeta
      → Pruning
      → Result Errc (Unit {0}) × Pruning
  prune_candidate found w done candidate rest p =
      if not (equal candidate.magic bus_magic)
      then (ok tt, p)
      else prune_found found w done candidate rest p

  -- The loop over the buses; `expired` is the error of the deadline, if it has passed when a round
  -- begins, and `probe` is what becomes of each bus, and how its entry is written.
  pub prune_buses :
      (MessageBusMeta → Option Errc)
      → (MessageBusMeta → Found × Write)
      → List MessageBusMeta
      → List MessageBusMeta
      → Pruning
      → Result Errc (Unit {0}) × Pruning
  prune_buses expired probe done [] p = (ok tt, p)
  prune_buses expired probe done (candidate ∷ rest) p =
      let (found, w) = probe candidate in
      let next = prune_candidate found w done candidate rest p in
      let all =
        prune_buses expired probe (done ++ entry_after p next.1 candidate ∷ []) rest next.1 in
      elim (expired candidate) [
        | some e ↦ (err e, p)
        | none ↦ elim next.0 [ ok _ ↦ all | err e ↦ (err e, next.1) ]
      ]
    where
      -- A new revision was written if the entry was erased.
      entry_after : Pruning → Pruning → MessageBusMeta → MessageBusMeta
      entry_after before after candidate =
          if after.contents.revision == before.contents.revision
          then candidate
          else erased candidate

  -- The erased entries leave the contents of the handle, which are adopted only at the end.
  pub adopt_pruned : Database → Result Errc (Unit {0}) × Pruning → Result Errc (Unit {0}) × Database
  adopt_pruned db (err e, p) = (err e, record db { root = p.root })
  adopt_pruned db (ok _, p) = (
    ok tt,
    record db {
      contents = record p.contents {
        message_buses = erase_if (λ m. m.rotation == 0) p.contents.message_buses;
      };
      root = p.root;
    },
  )

  -- `prune_message_buses`, with the lock of the root file, the fetch and the bus files there are.
  pub prune_message_buses :
      Result Errc (Unit {0})
      → FetchIo
      → (MessageBusMeta → Option Errc)
      → (MessageBusMeta → Found × Write)
      → List Path8
      → Database
      → Result Errc (Unit {0}) × Database
  prune_message_buses lock io expired probe bus_files = under_lock encode decode fail lock io (λ db.
      adopt_pruned db (
        prune_buses expired probe [] db.contents.message_buses (record {
          contents = db.contents;
          root = db.root;
          bus_files = bus_files;
          recovery_files = [];
        })))
