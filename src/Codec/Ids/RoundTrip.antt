-- ===== src/Codec/Ids/RoundTrip.antt =====
-- core/strong_types.cpp: the identifiers and severities are read back from what their codecs emit.
use deeplog.Base.{
  Bool-cases, List, Result, ap, ap₂, arith, drop, drop-append, err, inl, inr, length, length-append,
  ltb, ok, refl, suc, sym, take, take-append, true, u32, zero, ℕ, ◌%◌, ◌*◌, ◌++◌, ◌+◌, ◌-◌, ◌/◌,
  ◌<◌, ◌^◌, ◌∙◌, ◌∷◌, ◌≡◌, ◌≤◌, ◌⊎◌,
}
use deeplog.StrongTypes.{TraceId, SpanContext}
use deeplog.LogRecord.Emission.{part_bytes}
use deeplog.Codec.{Part, Errc, Dp, Reads, code_binary, step, onto, onto-append}
use deeplog.Codec.Ids.{
  encoded_max, encoding_offset, word_bytes, bytes_word, state_of_trace, trace_of_state, is_empty,
  decode_severity, encode_severity, decode_id, encode_trace_id, decode_trace_id, encode_span_id,
  decode_span_id, encode_span_context, decode_pair, decode_span_context,
}

-- How many words `n` bytes have.
abbrev words : ℕ → ℕ
words zero = 1
words (suc n) = 256 * words n

-- A word is read back from its bytes.
pub bytes_word-word_bytes : (n w : ℕ) → w < words n → bytes_word (word_bytes n w) ≡ w
unfolding word_bytes bytes_word
bytes_word-word_bytes zero w h = omega arith
bytes_word-word_bytes (suc n) w h =
    let below : w / 256 < words n = omega arith in
    omega (arith, bytes_word-word_bytes n (w / 256) below)

pub length-word_bytes : (n w : ℕ) → length (word_bytes n w) ≡ n
unfolding word_bytes
length-word_bytes zero w = refl
length-word_bytes (suc n) w = ap suc (length-word_bytes n (w / 256))

-- The words of an id have 64 bits.
pub record IsTrace (id : TraceId) : Type 0 where
  pub low : id.p0 < 2 ^ 64
  pub high : id.p1 < 2 ^ 64

pub trace_of_state-state_of_trace :
    (id : TraceId) → IsTrace id → trace_of_state (state_of_trace id) ≡ id
unfolding trace_of_state state_of_trace
trace_of_state-state_of_trace id h =
    let first : take 8 (word_bytes 8 id.p0 ++ word_bytes 8 id.p1) ≡ word_bytes 8 id.p0 =
      ap (λ (n : ℕ). take n (word_bytes 8 id.p0 ++ word_bytes 8 id.p1))
        (sym (length-word_bytes 8 id.p0))
      ∙ take-append (word_bytes 8 id.p0) (word_bytes 8 id.p1) in
    let second : drop 8 (word_bytes 8 id.p0 ++ word_bytes 8 id.p1) ≡ word_bytes 8 id.p1 =
      ap (λ (n : ℕ). drop n (word_bytes 8 id.p0 ++ word_bytes 8 id.p1))
        (sym (length-word_bytes 8 id.p0))
      ∙ drop-append (word_bytes 8 id.p0) (word_bytes 8 id.p1) in
    ap₂ (λ (a b : ℕ). record { p0 = a; p1 = b })
      (ap bytes_word first ∙ bytes_word-word_bytes 8 id.p0 (omega (arith, h.low)))
      (ap bytes_word second ∙ bytes_word-word_bytes 8 id.p1 (omega (arith, h.high)))

module _ (dp : Dp) (law : Reads dp) where
  pub severity-reads :
      (sev : ℕ) (rest : List ℕ)
      → 0 < sev
      → sev ≤ 24
      → decode_severity dp ((sev - 1) ∷ rest) ≡ ok (sev, rest)
  unfolding decode_severity
  severity-reads sev rest h k =
      let small : sev - 1 < 24 = omega arith in
      let whole : sev - 1 + encoding_offset ≡ sev = omega arith in
      step (dp.parse_integer encoded_max ((sev - 1) ∷ rest)) (sev - 1, rest) _
        (ap (λ bytes. dp.parse_integer encoded_max (bytes ++ rest))
            (sym (law.small_integer (sev - 1) small))
          ∙ law.integer encoded_max (sev - 1) rest (omega arith))
      ∙ ap (λ (n : ℕ). ok (n, rest)) whole

  -- The answer of the codec for a severity: what it emits is read back, or it is out of range.
  pub SeverityOutcome : ℕ → Result Errc (List Part) → Type 0
  SeverityOutcome sev (err e) = (e ≡ dp.item_value_out_of_range) × (sev ≡ 0 ⊎ 24 < sev)
  SeverityOutcome sev (ok parts) =
      (0 < sev)
      × (sev ≤ 24)
      × ((rest : List ℕ) → decode_severity dp (onto parts rest) ≡ ok (sev, rest))

  -- A 32-bit severity in range is read back from what its codec emits, and any other is refused,
  -- if the parsers read what the emitters write.
  pub encode_severity-SeverityOutcome :
      (sev : ℕ) → sev < 2 ^ 32 → SeverityOutcome sev (encode_severity dp sev)
  unfolding SeverityOutcome encode_severity onto part_bytes
  encode_severity-SeverityOutcome sev h =
      elim (Bool-cases (ltb encoded_max (u32 (sev + 2 ^ 32 - encoding_offset)))) [
        | inl refused ↦ rw refused (refl, ground arith)
        | inr taken ↦
            let small : sev ≤ 24 = ground arith in
            let above : 0 < sev = ground arith in
            let byte : u32 (sev + 2 ^ 32 - encoding_offset) % 256 ≡ sev - 1 = ground arith in
            rw taken (
              above,
              small,
              λ rest.
                  ap (λ (b : ℕ). decode_severity dp (b ∷ rest)) byte
                  ∙ severity-reads sev rest above small,
            )
      ]

  pub id-reads :
      (id : ℕ) (rest : List ℕ)
      → id < 2 ^ 64
      → decode_id dp (dp.emit_integer id ++ rest) ≡ ok (id, rest)
  unfolding decode_id
  id-reads id rest h = law.integer _ id rest (omega (arith, h))

  binary_of :
      (n : ℕ) (bytes rest : List ℕ)
      → length bytes ≡ n
      → dp.expect_item_head code_binary n (dp.emit_binary bytes ++ rest) ≡ ok (bytes ++ rest)
  binary_of n bytes rest h =
      ap (λ (k : ℕ). dp.expect_item_head code_binary k (dp.emit_binary bytes ++ rest)) (sym h)
      ∙ law.binary bytes rest

  bulk_of :
      (n : ℕ) (bytes rest : List ℕ)
      → length bytes ≡ n
      → dp.bulk_read n (bytes ++ rest) ≡ ok (bytes, rest)
  bulk_of n bytes rest h =
      ap (λ (k : ℕ). dp.bulk_read k (bytes ++ rest)) (sym h) ∙ law.bulk bytes rest

  length-state : (id : TraceId) → length (state_of_trace id) ≡ 16
  unfolding state_of_trace
  length-state id = omega (
    arith,
    length-append (word_bytes 8 id.p0) (word_bytes 8 id.p1),
    length-word_bytes 8 id.p0,
    length-word_bytes 8 id.p1,
  )

  pub trace_id-reads :
      (id : TraceId) (rest : List ℕ)
      → IsTrace id
      → decode_trace_id dp (onto (encode_trace_id dp id) rest) ≡ ok (id, rest)
  unfolding decode_trace_id encode_trace_id onto part_bytes
  trace_id-reads id rest h =
      let bytes = state_of_trace id in
      step _ (bytes ++ rest) _ (binary_of 16 bytes rest (length-state id))
      ∙ step (dp.bulk_read 16 (bytes ++ rest)) (bytes, rest) _
          (bulk_of 16 bytes rest (length-state id))
      ∙ ap (λ x. ok (x, rest)) (trace_of_state-state_of_trace id h)

  pub span_id-reads :
      (id : ℕ) (rest : List ℕ)
      → id < 2 ^ 64
      → decode_span_id dp (onto (encode_span_id dp id) rest) ≡ ok (id, rest)
  unfolding decode_span_id encode_span_id onto part_bytes
  span_id-reads id rest h =
      let bytes = word_bytes 8 id in
      step _ (bytes ++ rest) _ (binary_of 8 bytes rest (length-word_bytes 8 id))
      ∙ step (dp.bulk_read 8 (bytes ++ rest)) (bytes, rest) _
          (bulk_of 8 bytes rest (length-word_bytes 8 id))
      ∙ ap (λ (x : ℕ). ok (x, rest)) (bytes_word-word_bytes 8 id (omega (arith, h)))

  pair-reads :
      (ctx : SpanContext) (rest : List ℕ)
      → IsTrace ctx.trace_id
      → ctx.span_id < 2 ^ 64
      → decode_pair dp (
          dp.emit_array 2
          ++ onto (encode_trace_id dp ctx.trace_id) (onto (encode_span_id dp ctx.span_id) rest))
        ≡ ok (ctx, rest)
  unfolding decode_pair
  pair-reads ctx rest h k =
      let spans = onto (encode_span_id dp ctx.span_id) rest in
      let traces = onto (encode_trace_id dp ctx.trace_id) spans in
      step _ traces _ (law.array 2 traces (omega arith))
      ∙ step (decode_trace_id dp traces) (ctx.trace_id, spans) _
          (trace_id-reads ctx.trace_id spans h)
      ∙ step (decode_span_id dp spans) (ctx.span_id, rest) _ (span_id-reads ctx.span_id rest k)

  not_null :
      (input : List ℕ)
      → decode_span_context dp (dp.emit_array 2 ++ input)
        ≡ decode_pair dp (dp.emit_array 2 ++ input)
  unfolding decode_span_context
  not_null input = rw (law.small_array 2 (omega arith)) refl

  empty-eq :
      (ctx : SpanContext)
      → is_empty ctx ≡ true
      → record { trace_id = record { p0 = 0; p1 = 0 }; span_id = 0 } ≡ ctx
  unfolding is_empty
  empty-eq ctx h =
      let a : 0 ≡ ctx.trace_id.p0 = ground arith in
      let b : 0 ≡ ctx.trace_id.p1 = ground arith in
      let c : 0 ≡ ctx.span_id = ground arith in
      λ i. record { trace_id = record { p0 = a i; p1 = b i }; span_id = c i }

  -- A span context with 64-bit words is read back from what its codec emits, the empty one
  -- included, and what follows it is left, if the parsers read what the emitters write.
  pub span_context-reads :
      (ctx : SpanContext) (rest : List ℕ)
      → IsTrace ctx.trace_id
      → ctx.span_id < 2 ^ 64
      → decode_span_context dp (onto (encode_span_context dp ctx) rest) ≡ ok (ctx, rest)
  unfolding decode_span_context encode_span_context onto part_bytes is_empty
  span_context-reads ctx rest h k = elim (Bool-cases (is_empty ctx)) [
    | inl nothing ↦ rw (nothing, law.null_item) (ap (λ x. ok (x, rest)) (empty-eq ctx nothing))
    | inr something ↦ rw something (
        not_null _
        ∙ ap (λ input. decode_pair dp (dp.emit_array 2 ++ input))
            (onto-append (encode_trace_id dp ctx.trace_id) (encode_span_id dp ctx.span_id) rest)
        ∙ pair-reads ctx rest h k)
  ]
