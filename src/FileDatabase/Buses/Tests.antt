-- ===== src/FileDatabase/Buses/Tests.antt =====
-- The pruning of buses (core/file_database.cpp) at a concrete directory.
use deeplog.Base.{List, Result, [], err, ℕ, ◌++◌, ◌∷◌}
use deeplog.Errc.{Errc, bad}
use deeplog.FileDatabase.{Path8, MessageBusMeta, Contents}
use deeplog.FileDatabase.Buses.{Pruning}
use deeplog.FileDatabase.Buses.Safe.{Safe}
use deeplog.MpscFile.Database.{bus_magic}

abbrev left_over : MessageBusMeta
left_over = record { path = 98 ∷ []; magic = bus_magic; id = 1 ∷ []; rotation = 1; process_id = 7 }

abbrev encode : Contents → List ℕ
encode c = c.revision ∷ []

abbrev decode : List ℕ → Result Errc Contents
decode bytes = err bad

abbrev recovery_path : Path8 → ℕ → Path8
recovery_path path rotation = path ++ rotation ∷ []

abbrev before : Pruning
before = record {
  contents = record { revision = 4; record_containers = []; message_buses = left_over ∷ [] };
  root = record { even_slot = 4 ∷ []; odd_slot = [] };
  bus_files = (98 ∷ []) ∷ [];
  recovery_files = [];
}
