-- ===== src/SpanId/Tests.antt =====
-- Runs of `derive_span_id`, and its theorem at concrete inputs.
use deeplog.Base.{ℕ, ◌≡◌, refl, ◌↔◌}
use deeplog.SpanId.{derive_span_id, absorb, avalanche, xx_hash64_round}
use deeplog.SpanId.Collisions.{derive_span_id-eq_iff}

second_span_differs : derive_span_id 1 2 1 ≡ 21600174183567451
unfolding derive_span_id absorb avalanche xx_hash64_round
second_span_differs = refl

derive_span_id-eq_iff_example : (derive_span_id 1 2 70 ≡ derive_span_id 3 4 6) ↔ (◌≡◌ {A = ℕ} 6 6)
derive_span_id-eq_iff_example = derive_span_id-eq_iff 1 2 3 4 70 6
