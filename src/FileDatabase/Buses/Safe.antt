-- ===== src/FileDatabase/Buses/Safe.antt =====
-- core/file_database.cpp, `prune_message_buses`: the files of buses and of recovered messages.
use deeplog.Base.{List, Result, [], err, ok, ℕ, ◌++◌, ◌∷◌, ◌≡◌, ◌⊎◌}
use deeplog.Errc.{Errc}
use deeplog.FileDatabase.{Path8, RecordContainerMeta, MessageBusMeta, Contents}
use deeplog.FileDatabase.Buses.{Pruning, unlink_first}

module _ (encode : Contents → List ℕ) (decode : List ℕ → Result Errc Contents)
    (recovery_path : Path8 → ℕ → Path8) where
  -- A bus that is removed from the directory leaves a file of recovered messages, which the contents
  -- list; otherwise the files of the buses are as before.
  pub Safe : MessageBusMeta → Pruning → Result Errc (Unit {0}) × Pruning → Type 0
  Safe candidate p (err e, p') = Unit {0}
  Safe candidate p (ok _, p') =
      (p'.bus_files ≡ p.bus_files)
      ⊎ (container : RecordContainerMeta) × (p'.bus_files ≡ unlink_first candidate.path p.bus_files)
        × (p'.recovery_files ≡ container.path ∷ p.recovery_files)
        × (p'.contents.record_containers ≡ p.contents.record_containers ++ container ∷ [])
