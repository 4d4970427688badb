-- ===== src/RecordContainer/Records.antt =====
-- record_container.hpp and source/log.cpp: a record that `vlog` emits, as the decoder of records
-- reads it.
use deeplog.Base.{
  Bool, Bool-cases, List, Option, ap, arith, fail_if, false, if◌then◌else◌, inl, inr, length, ltb,
  none, not, ok, refl, some, sym, u8, ℕ, ◌++◌, ◌-◌, ◌<◌, ◌==◌, ◌^◌, ◌||◌, ◌∙◌, ◌∷◌, ◌≡◌, ◌≤◌,
}
use deeplog.LogRecord.{
  ItemCodec, LogArgs, Context, has_owner_span, scope_parts, owner_parts, loggable_parts, scope_head,
  parts,
}
use deeplog.LogRecord.Emission.{all_bytes, part_bytes}
use deeplog.Codec.{array_head, Dp, Parsed, Reads, code_array, onto, all_bytes-onto, step}
use deeplog.Codec.Ids.{
  decode_severity, decode_trace_id, decode_span_id, encode_trace_id, encode_span_id,
}
use deeplog.Codec.Ids.RoundTrip.{severity-reads, IsTrace, trace_id-reads, span_id-reads}
use deeplog.Transmorpher.{Ranges, Types, Argument, Attributes}
use deeplog.Transmorpher.Reading.{arguments-Each, length-Revives, Emits, ReadsRanges, Revives}
use deeplog.Transmorpher.Entries.{
  attributes-read, LineFits, Registered, line_attribute, file_attribute,
}
use deeplog.RecordContainer.{
  decode_elements, check_tuple, decode_log_record, decode_arg, decode_record, Record, no_context,
  has_scope, has_span, decode_scope, decode_owner,
}
use deeplog.RecordContainer.Layout.{
  scope_text, is_some, flags, flags-scope, flags-span, flags-small, scope_head-flags,
  attribute_input, argument_input, message_input, owner_input, scope_input, parts-onto,
}

module _ {V A B : Type 0} (codec : ItemCodec V) (dp : Dp) (types : Types A)
    (ranges : Ranges (Argument A) (Attributes B)) (registry : ℕ → Option (List ℕ → Parsed B)) where
  -- A record can be read: its numbers are in range, and its arguments are read back as those given.
  pub record Readable (t : ℕ) (ctx : Context) (args : LogArgs V) (arguments : List (Argument A))
      : Type 0 where
    pub time : t < 2 ^ 64
    pub logged : 0 < args.sev
    pub in_range : args.sev ≤ 24
    pub trace : IsTrace ctx.span.trace_id
    pub span : ctx.span.span_id < 2 ^ 64
    pub revived : Revives codec dp types args.message_parts arguments
    pub line : LineFits args.line
    pub few : length args.message_parts < 2 ^ 64

  module _ (law : Reads dp) (emits : Emits codec dp) (reads : ReadsRanges codec ranges)
      (known : Registered codec registry) where
    -- What is read of the record.
    unfoldable pub record_of : ℕ → Context → LogArgs V → List (Argument A) → Record A B
    record_of t ctx args arguments = record {
      severity = args.sev;
      instrumentation_scope = scope_text ctx.instrumentation_scope;
      context = if has_owner_span ctx then ctx.span else no_context;
      timestamp = t;
      message = args.message;
      format_arguments = arguments;
      attributes =
          line_attribute dp law registry codec emits known args.line
          ++ file_attribute dp law registry codec emits known args.filename;
    }

    scope-read :
        (scope : Option (List ℕ)) (owned : Bool) (input : List ℕ)
        → decode_scope dp (has_scope (flags scope owned)) (onto (scope_parts codec scope) input)
          ≡ ok (scope_text scope, input)
    unfolding decode_scope scope_parts onto part_bytes scope_text is_some
    scope-read none owned input = rw (flags-scope none owned) refl
    scope-read (some name) owned input =
        rw (flags-scope (some name) owned, emits.u8string name) (law.text name input)

    owner-read :
        (ctx : Context) (input : List ℕ)
        → IsTrace ctx.span.trace_id
        → ctx.span.span_id < 2 ^ 64
        → decode_owner dp
            (has_span (flags ctx.instrumentation_scope (has_owner_span ctx)))
            (onto (owner_parts codec ctx) input)
          ≡ ok (if has_owner_span ctx then ctx.span else no_context, input)
    unfolding decode_owner owner_parts onto part_bytes
    owner-read ctx input trace span =
        rw (flags-span ctx.instrumentation_scope (has_owner_span ctx))
          (elim (Bool-cases (has_owner_span ctx)) [
            | inl owned ↦
                let spans = codec.encode_span_id ctx.span.span_id ++ input in
                rw owned (
                  step _ (ctx.span.trace_id, spans) _
                    (ap (λ bytes. decode_trace_id dp (bytes ++ spans)) (emits.trace_id _)
                      ∙ ap (decode_trace_id dp) (all_bytes-onto (encode_trace_id dp _) spans)
                      ∙ trace_id-reads dp law ctx.span.trace_id spans trace)
                  ∙ step _ (ctx.span.span_id, input) _
                      (ap (λ bytes. decode_span_id dp (bytes ++ input)) (emits.span_id _)
                        ∙ ap (decode_span_id dp) (all_bytes-onto (encode_span_id dp _) input)
                        ∙ span_id-reads dp law ctx.span.span_id input span))
            | inr free ↦ rw free refl
          ])

    severity-read :
        (sev : ℕ) (input : List ℕ)
        → 0 < sev
        → sev ≤ 24
        → decode_severity dp (u8 (sev - 1) ∷ input) ≡ ok (sev, input)
    severity-read sev input h k =
        let byte : u8 (sev - 1) ≡ sev - 1 = omega arith in
        ap (λ (b : ℕ). decode_severity dp (b ∷ input)) byte ∙ severity-reads dp law sev input h k

    scope_head-read :
        (ctx : Context) (input : List ℕ)
        → dp.parse_item_head (scope_head codec ctx ∷ input)
          ≡ ok (array_head (flags ctx.instrumentation_scope (has_owner_span ctx)), input)
    scope_head-read ctx input =
        let n = flags ctx.instrumentation_scope (has_owner_span ctx) in
        let small : n < 24 =
          omega (arith, flags-small ctx.instrumentation_scope (has_owner_span ctx)) in
        ap (λ (b : ℕ). dp.parse_item_head (b ∷ input)) (scope_head-flags codec ctx)
        ∙ ap (λ bytes. dp.parse_item_head (bytes ++ input)) (sym (law.small_array n small))
        ∙ law.head n input small

    flags-accepted :
        (ctx : Context)
        → fail_if
            (not (code_array == code_array)
              || ltb 3 (flags ctx.instrumentation_scope (has_owner_span ctx)))
            dp.item_type_mismatch
          ≡ ok tt
    flags-accepted ctx =
        let accepted : ltb 3 (flags ctx.instrumentation_scope (has_owner_span ctx)) ≡ false =
          ground (arith, flags-small ctx.instrumentation_scope (has_owner_span ctx)) in
        rw accepted refl

    message-read :
        (message input : List ℕ)
        → dp.parse_text_finite (codec.emit_u8string message ++ input) ≡ ok (message, input)
    message-read message input = rw (emits.u8string message) (law.text_finite message input)

    arguments-read :
        (args : LogArgs V) (arguments : List (Argument A)) (input : List ℕ)
        → Revives codec dp types args.message_parts arguments
        → length args.message_parts < 2 ^ 64
        → ranges.parse_array_finite (decode_arg dp types) (
            codec.emit_array (length args.message_parts)
            ++ onto (loggable_parts codec args.message_parts) input)
          ≡ ok (arguments, input)
    arguments-read args arguments input h k =
        let same = length-Revives codec dp types args.message_parts arguments h in
        let items = onto (loggable_parts codec args.message_parts) input in
        ap
          (λ (n : ℕ). ranges.parse_array_finite (decode_arg dp types) (codec.emit_array n ++ items))
          (sym same)
        ∙ reads.array_finite (decode_arg dp types) arguments items input (omega (arith, same))
            (arguments-Each codec dp types emits law args.message_parts arguments input h)

    record_of-decoded :
        (t : ℕ) (ctx : Context) (args : LogArgs V) (arguments : List (Argument A)) (rest : List ℕ)
        → Readable t ctx args arguments
        → decode_log_record dp types ranges
            (some registry)
            (u8 (args.sev - 1) ∷ scope_head codec ctx ∷ scope_input codec t ctx args rest)
          ≡ ok (record_of t ctx args arguments, rest)
    unfolding decode_log_record record_of scope_input owner_input message_input argument_input
        attribute_input
    record_of-decoded t ctx args arguments rest h =
        let i_attributes = attribute_input codec args rest in
        let i_arguments = argument_input codec args rest in
        let i_message = message_input codec args rest in
        let i_time = codec.store_timestamp t ++ i_message in
        let i_owner = owner_input codec t ctx args rest in
        let i_scope = scope_input codec t ctx args rest in
        let few_flags = flags ctx.instrumentation_scope (has_owner_span ctx) in
        step _ (args.sev, scope_head codec ctx ∷ i_scope) _
          (severity-read args.sev _ h.logged h.in_range)
        ∙ step _ (array_head few_flags, i_scope) _ (scope_head-read ctx i_scope)
        ∙ step _ tt _ (flags-accepted ctx)
        ∙ step _ (scope_text ctx.instrumentation_scope, i_owner) _
            (scope-read ctx.instrumentation_scope (has_owner_span ctx) i_owner)
        ∙ step _ (if has_owner_span ctx then ctx.span else no_context, i_time) _
            (owner-read ctx i_time h.trace h.span)
        ∙ step _ (t, i_message) _ (emits.timestamp t i_message h.time)
        ∙ step _ (args.message, i_arguments) _ (message-read args.message i_arguments)
        ∙ step _ (arguments, i_attributes) _
            (arguments-read args arguments i_attributes h.revived h.few)
        ∙ step _ _ _ (
            attributes-read dp law registry codec emits known ranges reads args.line args.filename
              rest h.line)

    -- A record that `vlog` emits is read back with its severity, its scope, its owner, its time, its
    -- message, its arguments and its attributes, and what follows it is left, if its numbers are in
    -- range, its arguments are read back one by one, its attributes are registered and the parsers
    -- read what the emitters write.
    pub decode_record-parts :
        (t : ℕ) (ctx : Context) (args : LogArgs V) (arguments : List (Argument A)) (rest : List ℕ)
        → Readable t ctx args arguments
        → decode_record dp types ranges (some registry) (all_bytes (parts codec t ctx args) ++ rest)
          ≡ ok (record_of t ctx args arguments, rest)
    unfolding decode_record check_tuple decode_elements
    decode_record-parts t ctx args arguments rest h =
        let elements =
          u8 (args.sev - 1) ∷ scope_head codec ctx ∷ scope_input codec t ctx args rest in
        ap (decode_record dp types ranges (some registry)) (
          all_bytes-onto (parts codec t ctx args) rest
          ∙ parts-onto codec t ctx args rest
          ∙ ap (λ head. head ++ elements) (emits.array 6))
        ∙ step _ (array_head 6, elements) _ (law.head 6 elements (omega arith))
        ∙ record_of-decoded t ctx args arguments rest h
