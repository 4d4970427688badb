-- ===== src/BufferBus/Spans.antt =====
-- bus/buffer_bus.{hpp,cpp}: the span ids of a bus that is moved.
use deeplog.Base.{refl, ◌≡◌}
use deeplog.StrongTypes.{TraceId}
use deeplog.BufferBus.{Handle, move, create_span_context}

-- The first span of a trace that a bus opens gets the id of the next one again if the bus is moved
-- in between, since the counter stays behind.
move-repeats :
    (random trace : TraceId) (h : Handle)
    → h.span_prng_ctr ≡ 0
    → let first = create_span_context random trace h in
      (create_span_context random trace (move first.1).0).0 ≡ first.0
unfolding create_span_context move
move-repeats random trace h fresh = rw fresh refl
