-- ===== src/RecordContainer.antt =====
-- libs/deeplog/src/dplx/dlog/record_container.hpp: the reading of log records and of the files that
-- hold them. The items of the dp library are parameters (`Dp`, `Ranges`), and so is the codec of the
-- description at the start of a file.
pub mod Layout
pub mod Records
pub mod Files
pub mod Tests
use deeplog.Base.{
  Bool, List, Option, Result, [], drop, fail_if, false, if◌then◌else◌, length, ltb, not, ok, suc,
  take, true, zero, ℕ, ◌%◌, ◌&&◌, ◌-◌, ◌/◌, ◌==◌, ◌>>=◌, ◌>>◌, ◌^◌, ◌||◌, ◌∷◌,
}
use deeplog.Errc.{Errc, invalid_record_container_header}
use deeplog.StrongTypes.{SpanContext, severity_none}
use deeplog.Codec.{Dp, Parsed, Head, code_array}
use deeplog.Codec.Ids.{decode_severity, decode_trace_id, decode_span_id}
use deeplog.Transmorpher.{Ranges, Types, Argument, Attributes, decode_arg, decode_attributes}

-- `class record`
pub record Record (A B : Type 0) : Type 0 where
  pub severity : ℕ
  pub instrumentation_scope : List ℕ
  pub context : SpanContext
  pub timestamp : ℕ
  pub message : List ℕ
  pub format_arguments : List (Argument A)
  pub attributes : Attributes B

abbrev pub no_context : SpanContext
no_context = record { trace_id = record { p0 = 0; p1 = 0 }; span_id = 0 }

-- A record as `parse_item` makes it.
abbrev pub blank : {A B : Type 0} → Record A B
blank = record {
  severity = severity_none;
  instrumentation_scope = [];
  context = no_context;
  timestamp = 0;
  message = [];
  format_arguments = [];
  attributes = [];
}

pub check_tuple : Dp → Head → Result Errc (Unit {0})
check_tuple dp head =
    fail_if (not (head.type_code == code_array)) dp.item_type_mismatch
    >> fail_if
        (head.indefinite
          || not (head.value == 2) && (not (head.value == 6) && not (head.value == 7)))
        dp.tuple_size_mismatch

pub skip_items : Dp → ℕ → List ℕ → Result Errc (List ℕ)
skip_items dp zero input = ok input
skip_items dp (suc n) input = dp.skip_item input >>= (λ rest. skip_items dp n rest)

-- `(contextHead.value & 1U) != 0U` and `(contextHead.value & 2U) != 0U`
abbrev pub has_scope : ℕ → Bool
has_scope flags = flags % 2 == 1

abbrev pub has_span : ℕ → Bool
has_span flags = flags / 2 % 2 == 1

module _ (dp : Dp) where
  pub decode_scope : Bool → List ℕ → Parsed (List ℕ)
  decode_scope true input = dp.parse_text input
  decode_scope false input = ok ([], input)

  pub decode_owner : Bool → List ℕ → Parsed SpanContext
  decode_owner true input = do
    trace ← decode_trace_id dp input
    span ← decode_span_id dp trace.1
    ok (record { trace_id = trace.0; span_id = span.0 }, span.1)
  decode_owner false input = ok (no_context, input)

module _ (dp : Dp) {A B : Type 0} (types : Types A) (ranges : Ranges (Argument A) (Attributes B))
    (registry : Option (ℕ → Option (List ℕ → Parsed B))) where
  -- The six elements of a log record.
  pub decode_log_record : List ℕ → Parsed (Record A B)
  decode_log_record input = do
    sev ← decode_severity dp input
    head ← dp.parse_item_head sev.1
    fail_if (not (head.0.type_code == code_array) || ltb 3 head.0.value) dp.item_type_mismatch
    scope ← decode_scope dp (has_scope head.0.value) head.1
    context ← decode_owner dp (has_span head.0.value) scope.1
    timestamp ← dp.parse_integer (2 ^ 64 - 1) context.1
    message ← dp.parse_text_finite timestamp.1
    arguments ← ranges.parse_array_finite (decode_arg dp types) message.1
    attributes ← decode_attributes dp ranges registry arguments.1
    ok (
      record {
        severity = sev.0;
        instrumentation_scope = scope.0;
        context = context.0;
        timestamp = timestamp.0;
        message = message.0;
        format_arguments = arguments.0;
        attributes = attributes.0;
      },
      attributes.1,
    )

  decode_elements : Bool → ℕ → List ℕ → Parsed (Record A B)
  decode_elements true n input = decode_log_record input
  decode_elements false n input = skip_items dp n input >>= (λ rest. ok (blank, rest))

  -- `basic_decoder<record>`, which passes over the messages of spans.
  pub decode_record : List ℕ → Parsed (Record A B)
  decode_record input = do
    head ← dp.parse_item_head input
    check_tuple dp head.0
    decode_elements (head.0.value == 6) head.0.value head.1

-- `file_sink_backend::magic`
abbrev pub magic : List ℕ
magic =
    0x83 ∷ 0x4e ∷ 0x0d ∷ 0x0a ∷ 0xab ∷ 0x7e ∷ 0x7b ∷ 0x64 ∷ 0x6c ∷ 0x6f ∷ 0x67 ∷ 0x7d ∷ 0x7e ∷ 0xbb
    ∷ 0x0a ∷ 0x1a ∷ []

pub equal_bytes : List ℕ → List ℕ → Bool
equal_bytes [] [] = true
equal_bytes (x ∷ xs) (y ∷ ys) = x == y && equal_bytes xs ys
equal_bytes [] (y ∷ ys) = false
equal_bytes (x ∷ xs) [] = false

-- `std::erase_if(value.records, ...)`
pub erase_none : {A B : Type 0} → List (Record A B) → List (Record A B)
erase_none [] = []
erase_none (r ∷ records) =
    if r.severity == severity_none then erase_none records else r ∷ erase_none records

-- `record_container`, over the resource that the file describes.
pub record Container (I A B : Type 0) : Type 0 where
  pub info : I
  pub records : List (Record A B)

module _ (dp : Dp) {I A B : Type 0} (decode_info : List ℕ → Parsed I)
    (parse_array : (List ℕ → Parsed (Record A B)) → List ℕ → Parsed (List (Record A B))) where
  -- `basic_decoder<record_container>`, with the decoder of its records.
  pub decode_container : (List ℕ → Parsed (Record A B)) → List ℕ → Parsed (Container I A B)
  decode_container record_decoder input = do
    fail_if (ltb (length input) (length magic)) dp.end_of_stream
    fail_if (not (equal_bytes (take (length magic) input) magic)) invalid_record_container_header
    info ← decode_info (drop (length magic) input)
    records ← parse_array record_decoder info.1
    ok (record { info = info.0; records = erase_none records.0 }, records.1)
