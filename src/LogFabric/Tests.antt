-- ===== src/LogFabric/Tests.antt =====
-- The sinks of a log fabric (log_fabric.cpp) at a concrete fabric.
use deeplog.Base.{[], arith, map, ok, refl, ◌++◌, ◌∷◌, ◌≡◌}
use deeplog.LogFabric.Retire.{Fabric, retire_log_records, served, retire_log_records-served}
use deeplog.BufferBus.Tests.{nine, nine_bytes, nine-Frames, made}
use deeplog.BufferBus.Queue.{Holds, content, frame, head}
use deeplog.SharedMemory.{read_bytes, write_bytes}
use deeplog.SinkFrontend.Tests.{Store, store, store-ReportsFailures, fresh}
use deeplog.SerializedMessages.Tests.{byte_api}
use mathlib.Core.List.{Perm}
use deeplog.LogFabric.{LogFabric}

abbrev two_sinks : LogFabric
two_sinks = record { sinks = 11 ∷ 12 ∷ []; thresholds = []; default_threshold = 13 }

-- A bus with one message, and two sinks of which one has no room for it.
abbrev one_message : Fabric Store
one_message = record {
  bus = record made {
    buffer = write_bytes (λ i. 0xf6) 0 (nine_bytes 2 ++ (0x85 ∷ 1 ∷ []));
    write_offset = 11;
  };
  sinks = fresh 1 ∷ fresh 9 ∷ [];
}

one_message-Holds : Holds nine one_message.bus ((0x85 ∷ 1 ∷ []) ∷ [])
unfolding read_bytes write_bytes content frame head
one_message-Holds = record { in_bounds = omega arith; small = omega arith; text = refl }

retire_log_records-served_example :
    (after : Fabric Store) × (retire_log_records store nine byte_api one_message ≡ (ok tt, after))
    × Holds nine after.bus []
    × Perm (map (served store byte_api ((0x85 ∷ 1 ∷ []) ∷ [])) (fresh 1 ∷ fresh 9 ∷ [])) after.sinks
retire_log_records-served_example =
    retire_log_records-served store store-ReportsFailures nine nine-Frames byte_api one_message
      ((0x85 ∷ 1 ∷ []) ∷ []) one_message-Holds
