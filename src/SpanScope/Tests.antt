-- ===== src/SpanScope/Tests.antt =====
-- Scopes of spans (source/span_scope.cpp) over a port that keeps the messages.
use deeplog.Base.{List, [], length, none, ok, refl, some, true, ℕ, ◌++◌, ◌+◌, ◌∷◌, ◌≡◌}
use deeplog.SpanScope.Nested.{leave, continue_with, parent_of}
use deeplog.SpanScope.{do_open, opened, enter, closed, send_close_msg}
use deeplog.StrongTypes.{SpanContext}
use deeplog.SpanScope.{
  LogContext, Message, Port, span_start, span_end, none_scope, destroy, no_span,
}
use deeplog.SpanScope.Nested.{Block, done, span, no_span_scope, run, Restores, run-Restores}

-- Spans are numbered by the messages so far.
abbrev keeping : Port (List Message)
keeping = record {
  default_threshold = 13;
  threshold = λ name. 13;
  create_span_context = λ trace name level messages. (
    (record { trace_id = record { p0 = 1; p1 = 1 }; span_id = length messages + 1 }, level),
    messages,
  );
  enqueue_message = λ message messages. (ok tt, messages ++ message ∷ []);
}

abbrev id : ℕ → SpanContext
id n = record { trace_id = record { p0 = 1; p1 = 1 }; span_id = n }

abbrev nested : Block
nested = span (97 ∷ []) none 0 (span (98 ∷ []) none 0 done done) (no_span_scope done done)

abbrev here : LogContext
here = record { threshold = 13; has_port = true; instrumentation_scope = []; span = no_span }

-- The scope of no span sends the end of a span that never started.
ran :
    run keeping nested here []
    ≡ some (
      here,
      span_start (id 1) 0 no_span (97 ∷ [])
          ∷ span_start (id 2) 0 (id 1) (98 ∷ [])
          ∷ span_end (id 2)
          ∷ span_end (id 1)
          ∷ span_end no_span
          ∷ [],
    )
unfolding run leave continue_with parent_of do_open opened enter none_scope destroy closed
    send_close_msg
ran = refl

run-Restores_example : Restores keeping here (run keeping nested here [])
run-Restores_example = run-Restores keeping nested here [] refl
