-- ===== src/SpanScope.antt =====
-- libs/deeplog/src/dplx/dlog/source/span_scope.{hpp,cpp} and source/log_context.hpp: the scopes of
-- spans over a log context. Clock readings and the attributes of a message are left out.
pub mod Nested
mod Tests
use deeplog.Base.{
  Bool, List, Option, Result, err, false, if◌then◌else◌, none, not, ok, some, true, ℕ,
}
use deeplog.Errc.{Errc}
use deeplog.StrongTypes.{TraceId, SpanContext, is_invalid, disable_threshold}

-- `log_context`; of the pointer to the port, whether it is null.
pub record LogContext : Type 0 where
  pub threshold : ℕ
  pub has_port : Bool
  pub instrumentation_scope : List ℕ
  pub span : SpanContext

-- `span_start_msg` and `span_end_msg`
pub data Message : Type 0 where
  span_start : SpanContext → ℕ → SpanContext → List ℕ → Message
  span_end : SpanContext → Message

-- `log_record_port` and `enqueue_message` through it, on the state of what stands behind it.
pub record Port (S : Type 0) : Type 0 where
  pub default_threshold : ℕ
  pub threshold : List ℕ → ℕ
  pub create_span_context : TraceId → List ℕ → ℕ → S → (SpanContext × ℕ) × S
  pub enqueue_message : Message → S → Result Errc (Unit {0}) × S

-- `span_scope`; of the pointer to the context, whether it is null.
pub record SpanScope : Type 0 where
  pub span_threshold : ℕ
  pub previous_threshold : ℕ
  pub has_context : Bool
  pub id : SpanContext
  pub previous_id : SpanContext

abbrev pub no_span : SpanContext
no_span = record { trace_id = record { p0 = 0; p1 = 0 }; span_id = 0 }

-- `span_scope{}`
abbrev pub empty_scope : SpanScope
empty_scope = record {
  span_threshold = 0;
  previous_threshold = 0;
  has_context = false;
  id = no_span;
  previous_id = no_span;
}

-- The constructors of `log_context`: without a port, and with one and a name.
pub detached : List ℕ → LogContext
detached name = record {
  threshold = disable_threshold;
  has_port = false;
  instrumentation_scope = name;
  span = no_span;
}

pub attached : {S : Type 0} → Port S → List ℕ → SpanContext → LogContext
attached port name span = record {
  threshold = port.threshold name;
  has_port = true;
  instrumentation_scope = name;
  span = span;
}

-- The constructor of `span_scope` that enters a context.
pub enter : LogContext → SpanContext → ℕ → SpanScope × LogContext
enter ctx id threshold = (
  record {
    span_threshold = threshold;
    previous_threshold = ctx.threshold;
    has_context = true;
    id = id;
    previous_id = ctx.span;
  },
  record ctx { span = id; threshold = threshold },
)

module _ {S : Type 0} (port : Port S) where
  -- `span_scope::none`
  pub none_scope : LogContext → SpanScope × LogContext
  none_scope ctx =
      enter ctx no_span (if not ctx.has_port then disable_threshold else port.default_threshold)

  -- The end of `do_open`, once the start of the span is enqueued.
  pub opened :
      LogContext → SpanContext → ℕ → Result Errc (Unit {0}) × S → SpanScope × LogContext × S
  opened ctx id threshold (ok _, s) =
      let entered = enter ctx id threshold in (entered.0, entered.1, s)
  opened ctx id threshold (err e, s) = (empty_scope, ctx, s)

  pub do_open : LogContext → List ℕ → SpanContext → ℕ → S → SpanScope × LogContext × S
  do_open ctx name parent kind s =
      if not ctx.has_port
      then (empty_scope, ctx, s)
      else let created = port.create_span_context parent.trace_id name ctx.threshold s in
        let id = created.0.0 in
        if not (is_invalid id.trace_id)
        then opened ctx id created.0.1
            (port.enqueue_message (span_start id kind parent name) created.1)
        else (empty_scope, ctx, created.1)

  -- `none` stands for the dereference of a null pointer.
  pub send_close_msg : SpanScope → LogContext → S → Option (Result Errc (Unit {0}) × S)
  send_close_msg scope ctx s =
      if ctx.has_port then some (port.enqueue_message (span_end scope.id) s) else none

  pub closed : LogContext → Option (Result Errc (Unit {0}) × S) → Option (LogContext × S)
  closed ctx none = none
  closed ctx (some (sent, s)) = some (ctx, s)

  -- The destructor.
  pub destroy : SpanScope → LogContext → S → Option (LogContext × S)
  destroy scope ctx s =
      let restored = record ctx {
        span = scope.previous_id;
        threshold = scope.previous_threshold;
      } in
      if scope.has_context then closed restored (send_close_msg scope restored s) else some (ctx, s)
