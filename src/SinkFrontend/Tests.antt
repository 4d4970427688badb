-- ===== src/SinkFrontend/Tests.antt =====
-- The sink frontend (sinks/sink_frontend.hpp) over a backend that keeps what is written, up to a
-- number of bytes.
use deeplog.Base.{
  Bool-cases, List, Result, [], err, if◌then◌else◌, inl, inr, leb, length, map, none, ok, refl, ℕ,
  ◌++◌, ◌-◌, ◌∷◌, ◌≡◌,
}
use deeplog.SinkFrontend.{failure}
use deeplog.SinkFrontend.{disable}
use deeplog.SinkFrontend.{settle}
use deeplog.SinkFrontend.{failure}
use deeplog.SinkFrontend.{and_then}
use deeplog.SinkFrontend.{copy_message}
use mathlib.Core.List.{Perm}
use deeplog.Errc.{Errc, system}
use deeplog.SerializedMessages.{MessageInfo, record_info, span_start}
use deeplog.SerializedMessages.Tests.{byte_api, three_messages}
use deeplog.SinkFrontend.{Backend, SinkFrontend, try_finalize, concate_messages, is_active}
use deeplog.SinkFrontend.Lifetime.{
  run, consume, sync, clear, ReportsFailures, Reported, run-finalized,
}
use deeplog.SinkFrontend.Multicast.{drain, receive, drain-receive}

-- What is written, and the room that is left.
abbrev pub Store : Type 0
Store = List ℕ × ℕ

abbrev store_write : List ℕ → Store → Result Errc (Unit {0}) × Store
store_write bytes (content, room) =
    if leb (length bytes) room
    then (ok tt, (content ++ bytes, room - length bytes))
    else (err (system 28), (content, room))

abbrev pub store : Backend Store
store = record {
  bulk_write = store_write;
  sync_output = λ s. (ok tt, s);
  finalize = λ s. (ok tt, s);
}

store-Reported : (bytes : List ℕ) (s : Store) → Reported (store_write bytes s)
unfolding Reported failure
store-Reported bytes (content, room) = elim (Bool-cases (leb (length bytes) room)) [
  | inl fits ↦ rw fits tt
  | inr full ↦ rw full refl
]

pub store-ReportsFailures : ReportsFailures store
unfolding Reported
store-ReportsFailures = record {
  bulk_write = store-Reported;
  sync_output = λ s. tt;
  finalize = λ s. tt;
}

abbrev batch : List MessageInfo
batch = record_info (1 ∷ 2 ∷ []) 7 13 ∷ record_info (3 ∷ []) 8 5 ∷ span_start (4 ∷ 5 ∷ []) ∷ []

-- The record below the threshold is left out, and the message that does not fit.
concated : concate_messages store batch 9 ([], 3) ≡ (err (system 28), (1 ∷ 2 ∷ [], 1))
unfolding concate_messages and_then copy_message
concated = refl

abbrev pub fresh : ℕ → SinkFrontend Store
fresh room = record { last_status = none; threshold = 9; backend = ([], room) }

run-finalized_example :
    (run store (consume 5 batch ∷ clear ∷ sync ∷ []) (record (fresh 9) { threshold = 25 })).backend
    ≡ ([], 9)
unfolding try_finalize is_active failure disable settle
run-finalized_example =
    run-finalized store (fresh 9) (record (fresh 9) { threshold = 25 }) refl
      (consume 5 batch ∷ clear ∷ sync ∷ [])

-- The first sink fails at the second message of the first batch.
drain-receive_example :
    let after =
      drain store byte_api (three_messages ∷ three_messages ∷ []) (fresh 8 ∷ fresh 99 ∷ [], []) in
    Perm
      (map
        (receive store byte_api (three_messages ∷ three_messages ∷ []))
        (fresh 8 ∷ fresh 99 ∷ []))
      (after.0 ++ after.1)
drain-receive_example =
    drain-receive store store-ReportsFailures byte_api (three_messages ∷ three_messages ∷ [])
      (fresh 8 ∷ fresh 99 ∷ [])
