-- ===== src/LogFabric/Retire.antt =====
-- libs/deeplog/src/dplx/dlog/log_fabric.hpp: `retire_log_records` of a fabric over the buffer bus
-- (bus/buffer_bus.hpp), from the messages in the bus to its sinks.
use deeplog.Base.{List, Result, [], err, map, ok, refl, ℕ, ◌++◌, ◌∷◌, ◌≡◌}
use mathlib.Core.List.{Perm, map-map}
use mathlib.Core.List.Perm
use mathlib.Core.Path.{subst}
use deeplog.Errc.{Errc}
use deeplog.SerializedMessages.{ParseApi}
use deeplog.SinkFrontend.{Backend, SinkFrontend, try_sync}
use deeplog.SinkFrontend.Lifetime.{ReportsFailures, sync-stops}
use deeplog.SinkFrontend.Multicast.{partition, partition-Perm, drain, receive, drain-receive}
use deeplog.BufferBus.{Handle, Codec, clear_content, consume_messages}
use deeplog.BufferBus.Queue.{Frames, Holds}
use deeplog.BufferBus.Refine.{consume_messages-Holds}

-- `log_fabric<bufferbus_handle>`, as far as records go.
pub record Fabric (S : Type 0) : Type 0 where
  pub bus : Handle
  pub sinks : List (SinkFrontend S)

-- The span that `consume_message` hands over has one message.
pub batches : List (List ℕ) → List (List (List ℕ))
batches messages = map (λ message. message ∷ []) messages

module _ {S : Type 0} (b : Backend S) where
  pub sync_sinks : List (SinkFrontend S) → List (SinkFrontend S)
  sync_sinks sinks = let parts = partition (try_sync b) sinks in parts.0 ++ parts.1

  -- The sinks after the consumption, and its result.
  pub retired :
      List (SinkFrontend S) → Result Errc (Unit {0}) × Handle → Result Errc (Unit {0}) × Fabric S
  retired sinks (err e, h) = (err e, record { bus = h; sinks = sinks })
  retired sinks (ok _, h) = (ok tt, record { bus = h; sinks = sync_sinks sinks })

  pub retire_log_records : Codec → ParseApi → Fabric S → Result Errc (Unit {0}) × Fabric S
  retire_log_records codec api fabric =
      let consumed = consume_messages codec fabric.bus in
      let sinks = drain b api (batches consumed.0) (fabric.sinks, []) in
      retired (sinks.0 ++ sinks.1) (consumed.1, consumed.2)

  -- A sink that is handed all messages and then synced.
  pub served : ParseApi → List (List ℕ) → SinkFrontend S → SinkFrontend S
  served api messages sink = (try_sync b (receive b api (batches messages) sink)).1

module _ {S : Type 0} (b : Backend S) (law : ReportsFailures b) where
  sync_sinks-Perm :
      (sinks : List (SinkFrontend S))
      → Perm (map (λ sink. (try_sync b sink).1) sinks) (sync_sinks b sinks)
  unfolding sync_sinks
  sync_sinks-Perm sinks = partition-Perm b (try_sync b) (sync-stops b law) sinks

  -- Retiring the records of a bus that holds messages succeeds, leaves the bus empty and every sink,
  -- up to their order, as if it had been handed each message on its own and synced at the end.
  pub retire_log_records-served :
      (codec : Codec)
      → Frames codec
      → (api : ParseApi) (fabric : Fabric S) (messages : List (List ℕ))
      → Holds codec fabric.bus messages
      → (after : Fabric S) × (retire_log_records b codec api fabric ≡ (ok tt, after))
        × Holds codec after.bus []
        × Perm (map (served b api messages) fabric.sinks) after.sinks
  unfolding retire_log_records retired served
  retire_log_records-served codec frames api fabric messages holds =
      let consumed = consume_messages-Holds codec frames fabric.bus messages holds in
      let handed = drain b api (batches messages) (fabric.sinks, []) in
      let after : Fabric S = record {
        bus = clear_content fabric.bus;
        sinks = sync_sinks b (handed.0 ++ handed.1);
      } in
      (
        after,
        rw consumed.0 refl,
        consumed.1,
        Perm.trans
            (subst (λ xs. Perm xs (map (λ sink. (try_sync b sink).1) (handed.0 ++ handed.1)))
              (map-map (λ sink. (try_sync b sink).1) (receive b api (batches messages))
                fabric.sinks)
              (Perm.map (λ sink. (try_sync b sink).1)
                (drain-receive b law api (batches messages) fabric.sinks)))
            (sync_sinks-Perm (handed.0 ++ handed.1)),
      )
