-- ===== src/SinkFrontend.antt =====
-- libs/deeplog/src/dplx/dlog/sinks/sink_frontend.{hpp,cpp}: a sink, which is a backend behind a
-- threshold and the status of its last failure. The backend is any `dp::output_buffer`.
pub mod Concate
pub mod Lifetime
pub mod Multicast
pub mod Tests
use deeplog.Base.{
  Bool, List, Option, Result, [], err, false, if◌then◌else◌, leb, ltb, none, not, ok, some, true, ℕ,
  ◌&&◌, ◌∷◌,
}
use deeplog.Errc.{Errc, success}
use deeplog.StrongTypes.{disable_threshold}
use deeplog.SerializedMessages.{MessageInfo, unknown, record_info, span_start, span_end, malformed}

-- The operations of a backend, on its state. A backend without `finalize` succeeds in it.
pub record Backend (S : Type 0) : Type 0 where
  pub bulk_write : List ℕ → S → Result Errc (Unit {0}) × S
  pub sync_output : S → Result Errc (Unit {0}) × S
  pub finalize : S → Result Errc (Unit {0}) × S

-- `sink_frontend_base` and the backend of `basic_sink_frontend`.
pub record SinkFrontend (S : Type 0) : Type 0 where
  pub last_status : Option Errc
  pub threshold : ℕ
  pub backend : S

-- `system_code::failure`; an empty code is none.
pub failure : Option Errc → Bool
failure none = false
failure (some success) = false
failure (some _) = true

module _ {S : Type 0} where
  pub is_active : SinkFrontend S → Bool
  is_active f = ltb f.threshold disable_threshold && not (failure f.last_status)

  pub clear_last_status : SinkFrontend S → SinkFrontend S
  clear_last_status f = record f { last_status = none }

  -- What a result of the backend makes of the frontend.
  pub settle : SinkFrontend S → Result Errc (Unit {0}) × S → Bool × SinkFrontend S
  settle f (ok _, s) = (true, record f { backend = s })
  settle f (err e, s) = (false, record f { backend = s; last_status = some e })

  -- A success disables the sink.
  pub disable : Bool × SinkFrontend S → Bool × SinkFrontend S
  disable (true, f) = (true, record f { threshold = disable_threshold })
  disable (false, f) = (false, f)

-- `DPLX_TRY`, where the call changes a state.
unfoldable pub and_then :
    {S : Type 0}
    → Result Errc (Unit {0}) × S
    → (S → Result Errc (Unit {0}) × S)
    → Result Errc (Unit {0}) × S
and_then (ok _, s) next = next s
and_then (err e, s) next = (err e, s)

module _ {S : Type 0} (b : Backend S) where
  -- `copy_message_fn`
  pub copy_message : ℕ → MessageInfo → S → Result Errc (Unit {0}) × S
  copy_message threshold (record_info bytes timestamp severity) s =
      if leb threshold severity then b.bulk_write bytes s else (ok tt, s)
  copy_message threshold (unknown bytes) s = b.bulk_write bytes s
  copy_message threshold (span_start bytes) s = b.bulk_write bytes s
  copy_message threshold (span_end bytes) s = b.bulk_write bytes s
  copy_message threshold (malformed bytes) s = b.bulk_write bytes s

  pub concate_messages : List MessageInfo → ℕ → S → Result Errc (Unit {0}) × S
  concate_messages [] threshold s = (ok tt, s)
  concate_messages (message ∷ messages) threshold s =
      and_then (copy_message threshold message s) (λ s'. concate_messages messages threshold s')

  -- The backend does not use the binary size.
  pub try_consume : ℕ → List MessageInfo → SinkFrontend S → Bool × SinkFrontend S
  try_consume binary_size messages f =
      if not (is_active f)
      then (false, f)
      else settle f (concate_messages messages f.threshold f.backend)

  pub try_sync : SinkFrontend S → Bool × SinkFrontend S
  try_sync f = if not (is_active f) then (false, f) else settle f (b.sync_output f.backend)

  pub try_finalize : SinkFrontend S → Bool × SinkFrontend S
  try_finalize f =
      if not (is_active f) then (false, f) else disable (settle f (b.finalize f.backend))
