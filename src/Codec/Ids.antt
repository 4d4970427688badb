-- ===== src/Codec/Ids.antt =====
-- libs/deeplog/src/dplx/dlog/core/strong_types.cpp and source/log.cpp: the codecs of the
-- identifiers and severities. The words of an id stand in memory with their lowest byte first.
pub mod RoundTrip
use deeplog.Base.{
  Bool, List, Result, [], drop, err, if◌then◌else◌, ltb, ok, suc, take, u32, zero, ℕ, ◌%◌, ◌&&◌,
  ◌*◌, ◌++◌, ◌+◌, ◌-◌, ◌/◌, ◌==◌, ◌>>=◌, ◌>>◌, ◌^◌, ◌∷◌,
}
use deeplog.Errc.{Errc}
use deeplog.StrongTypes.{TraceId, SpanContext}
use deeplog.LogRecord.{Part, stored, tried}
use deeplog.LogRecord.Emission.{part_bytes}
use deeplog.Codec.{Dp, Parsed, Reads, code_binary, code_array, code_null, step, onto, onto-append}

abbrev pub encoded_max : ℕ
encoded_max = 23

abbrev pub encoding_offset : ℕ
encoding_offset = 1

-- The bytes of a 64-bit word, and the word of bytes.
unfoldable pub word_bytes : ℕ → ℕ → List ℕ
word_bytes zero w = []
word_bytes (suc n) w = w % 256 ∷ word_bytes n (w / 256)

unfoldable pub bytes_word : List ℕ → ℕ
bytes_word [] = 0
bytes_word (b ∷ bs) = b + 256 * bytes_word bs

-- `id._state`, read as bytes and written as bytes.
unfoldable pub state_of_trace : TraceId → List ℕ
state_of_trace id = word_bytes 8 id.p0 ++ word_bytes 8 id.p1

pub trace_of_state : List ℕ → TraceId
trace_of_state bits = record { p0 = bytes_word (take 8 bits); p1 = bytes_word (drop 8 bits) }

-- `spanCtx == span_context{}`
unfoldable pub is_empty : SpanContext → Bool
is_empty ctx = (ctx.trace_id.p0 == 0 && ctx.trace_id.p1 == 0) && ctx.span_id == 0

module _ (dp : Dp) where
  pub decode_severity : List ℕ → Parsed ℕ
  decode_severity input = do
    value ← dp.parse_integer encoded_max input
    ok (value.0 + encoding_offset, value.1)

  -- The value minus the offset is a 32-bit number.
  pub encode_severity : ℕ → Result Errc (List Part)
  encode_severity value =
      let bits = u32 (value + 2 ^ 32 - encoding_offset) in
      if ltb encoded_max bits
      then err dp.item_value_out_of_range
      else ok (tried (ok (bits % 256 ∷ [])) ∷ [])

  -- `resource_id` and `reification_type_id`
  pub encode_id : ℕ → List Part
  encode_id value = tried (ok (dp.emit_integer value)) ∷ []

  unfoldable pub decode_id : List ℕ → Parsed ℕ
  decode_id input = dp.parse_integer (2 ^ 64 - 1) input

  unfoldable pub encode_trace_id : TraceId → List Part
  encode_trace_id id = tried (ok (dp.emit_binary (state_of_trace id))) ∷ []

  pub decode_trace_id : List ℕ → Parsed TraceId
  decode_trace_id input = do
    rest ← dp.expect_item_head code_binary 16 input
    bits ← dp.bulk_read 16 rest
    ok (trace_of_state bits.0, bits.1)

  unfoldable pub encode_span_id : ℕ → List Part
  encode_span_id id = tried (ok (dp.emit_binary (word_bytes 8 id))) ∷ []

  pub decode_span_id : List ℕ → Parsed ℕ
  decode_span_id input = do
    rest ← dp.expect_item_head code_binary 8 input
    bits ← dp.bulk_read 8 rest
    ok (bytes_word bits.0, bits.1)

  pub encode_span_context : SpanContext → List Part
  encode_span_context ctx =
      if is_empty ctx
      then tried (ok dp.emit_null) ∷ []
      else tried (ok (dp.emit_array 2))
        ∷ (encode_trace_id ctx.trace_id ++ encode_span_id ctx.span_id)

  pub decode_pair : List ℕ → Parsed SpanContext
  decode_pair input = do
    rest ← dp.expect_item_head code_array 2 input
    trace ← decode_trace_id rest
    span ← decode_span_id trace.1
    ok (record { trace_id = trace.0; span_id = span.0 }, span.1)

  pub decode_span_context : List ℕ → Parsed SpanContext
  decode_span_context [] = err dp.end_of_stream
  decode_span_context (first ∷ rest) =
      if first == code_null
      then ok (record { trace_id = record { p0 = 0; p1 = 0 }; span_id = 0 }, rest)
      else decode_pair (first ∷ rest)
