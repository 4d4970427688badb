-- ===== src/StrongTypes.antt =====
-- libs/deeplog/src/dplx/dlog/core/strong_types.hpp: the identifiers, on a platform with a 64-bit
-- `std::size_t`, and the severities.

-- `trace_id::_state`
use deeplog.Base.{Bool, ℕ, ◌&&◌, ◌==◌}

pub record TraceId : Type 0 where
  pub p0 : ℕ
  pub p1 : ℕ

-- `id == trace_id::invalid()`
abbrev pub is_invalid : TraceId → Bool
is_invalid id = id.p0 == 0 && id.p1 == 0

-- A span id is its one 64-bit word; 0 is `span_id::invalid()`.
pub record SpanContext : Type 0 where
  pub trace_id : TraceId
  pub span_id : ℕ

-- `enum class severity`
abbrev pub severity_none : ℕ
severity_none = 0

abbrev pub severity_warn : ℕ
severity_warn = 13

abbrev pub default_threshold : ℕ
default_threshold = severity_warn

abbrev pub disable_threshold : ℕ
disable_threshold = 0x19
