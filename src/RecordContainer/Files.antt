-- ===== src/RecordContainer/Files.antt =====
-- record_container.hpp: the reading of a whole file, as sinks/file_sink.cpp writes it: the magic
-- bytes, the description of the file, and an array of messages with a break at its end.
use deeplog.Base.{
  List, Option, [], ap, arith, drop-append, false, inl, inr, length, length-append, ltb, ok, refl,
  some, sym, take, true, u8, ℕ, ◌++◌, ◌+◌, ◌-◌, ◌<◌, ◌==◌, ◌∙◌, ◌∷◌, ◌≡◌, ◌≢◌, ◌⊎◌,
}
use deeplog.Codec.{all_bytes-onto}
use deeplog.LogRecord.{scope_head}
use deeplog.RecordContainer.Layout.{scope_input, parts-onto}
use mathlib.Core.List.{append_assoc}
use deeplog.StrongTypes.{severity_none}
use deeplog.LogRecord.{ItemCodec, LogArgs, Context, parts}
use deeplog.LogRecord.Emission.{all_bytes}
use deeplog.Codec.{Dp, Parsed, Reads, code_array, step, array_head}
use deeplog.Transmorpher.{Ranges, Types, Argument, Attributes}
use deeplog.Transmorpher.Reading.{Emits, ReadsRanges}
use deeplog.Transmorpher.Entries.{Registered}
use deeplog.RecordContainer.{
  Record, blank, check_tuple, decode_elements, skip_items, decode_record, magic, equal_bytes,
  erase_none, decode_container,
}
use deeplog.RecordContainer.Records.{Readable, record_of, decode_record-parts}

abbrev pub break_byte : ℕ
break_byte = 0xff

-- The elements of an array that ends with a break: none of them begins like one or is empty.
pub data EachUntilBreak {A : Type 0} (parse : List ℕ → Parsed A)
    : List A → List ℕ → List ℕ → Type 0 where
  at_break : (rest : List ℕ) → EachUntilBreak parse [] (break_byte ∷ rest) rest
  before_break :
      (a : A) (items : List A) (input : List ℕ) (first : ℕ) (behind mid rest : List ℕ)
      → input ≡ first ∷ behind
      → length mid < length input
      → first ≢ break_byte
      → parse input ≡ ok (a, mid)
      → EachUntilBreak parse items mid rest
      → EachUntilBreak parse (a ∷ items) input rest

module _ {V A B : Type 0} (codec : ItemCodec V) (dp : Dp) (types : Types A)
    (ranges : Ranges (Argument A) (Attributes B)) (registry : ℕ → Option (List ℕ → Parsed B))
    (law : Reads dp) (emits : Emits codec dp) (reads : ReadsRanges codec ranges)
    (known : Registered codec registry) where
  -- The bytes of messages, and the log records among them: records that `vlog` emits, and messages
  -- of spans, which have two or seven items.
  pub data Messages : List ℕ → List (Record A B) → Type 0 where
    no_messages : Messages [] []
    a_record :
        (t : ℕ) (ctx : Context) (args : LogArgs V) (arguments : List (Argument A)) (bytes : List ℕ)
        (records : List (Record A B))
        → Readable codec dp types ranges registry t ctx args arguments
        → Messages bytes records
        → Messages (all_bytes (parts codec t ctx args) ++ bytes) (
            record_of codec dp types ranges registry law emits reads known t ctx args arguments
            ∷ records)
    a_span :
        (n : ℕ) (items bytes : List ℕ) (records : List (Record A B))
        → n ≡ 2 ⊎ n ≡ 7
        → ((rest : List ℕ) → skip_items dp n (items ++ rest) ≡ ok rest)
        → Messages bytes records
        → Messages (dp.emit_array n ++ (items ++ bytes)) records

  -- What the array is read as, before the messages of spans are erased.
  with_spans :
      {bytes : List ℕ} {records : List (Record A B)} → Messages bytes records → List (Record A B)
  with_spans no_messages = []
  with_spans (a_record t ctx args arguments bytes records h m) =
      record_of codec dp types ranges registry law emits reads known t ctx args arguments
      ∷ with_spans m
  with_spans (a_span n items bytes records h k m) = blank ∷ with_spans m

  erase_none-with_spans :
      {bytes : List ℕ} {records : List (Record A B)} (m : Messages bytes records)
      → erase_none (with_spans m) ≡ records
  unfolding with_spans erase_none record_of
  erase_none-with_spans no_messages = refl
  erase_none-with_spans (a_record t ctx args arguments bytes records h m) =
      let some_severity : (args.sev == severity_none) ≡ false = ground (arith, h.logged) in
      rw some_severity (
        ap
          (λ rs.
            record_of codec dp types ranges registry law emits reads known t ctx args arguments
            ∷ rs)
          (erase_none-with_spans m))
  erase_none-with_spans (a_span n items bytes records h k m) = erase_none-with_spans m

  decode_span :
      (n : ℕ) (items rest : List ℕ)
      → n ≡ 2 ⊎ n ≡ 7
      → skip_items dp n (items ++ rest) ≡ ok rest
      → decode_record dp types ranges (some registry) (dp.emit_array n ++ (items ++ rest))
        ≡ ok (blank, rest)
  unfolding decode_record check_tuple decode_elements
  decode_span n items rest h k =
      let small : n < 24 = elim h [
        | inl two ↦ omega (arith, two)
        | inr seven ↦ omega (arith, seven)
      ] in
      step _ (array_head n, items ++ rest) _ (law.head n (items ++ rest) small) ∙ elim h [
        | inl two ↦
            rw two (step _ rest _ (ap (λ (m : ℕ). skip_items dp m (items ++ rest)) (sym two) ∙ k))
        | inr seven ↦
            rw seven
              (step _ rest _ (ap (λ (m : ℕ). skip_items dp m (items ++ rest)) (sym seven) ∙ k))
      ]

  record_starts :
      (t : ℕ) (ctx : Context) (args : LogArgs V) (rest : List ℕ)
      → all_bytes (parts codec t ctx args) ++ rest
        ≡ (code_array + 6)
          ∷ u8 (args.sev - 1)
          ∷ scope_head codec ctx
          ∷ scope_input codec t ctx args rest
  record_starts t ctx args rest =
      all_bytes-onto (parts codec t ctx args) rest
      ∙ parts-onto codec t ctx args rest
      ∙ ap
          (λ head.
            head ++ (u8 (args.sev - 1) ∷ scope_head codec ctx ∷ scope_input codec t ctx args rest))
          (emits.array 6 ∙ law.small_array 6 (omega arith))

  record_shorter :
      (t : ℕ) (ctx : Context) (args : LogArgs V) (bytes rest : List ℕ)
      → length (bytes ++ rest) < length ((all_bytes (parts codec t ctx args) ++ bytes) ++ rest)
  record_shorter t ctx args bytes rest =
      let whole = all_bytes (parts codec t ctx args) in
      omega (
        arith,
        ap length (record_starts t ctx args []),
        length-append whole [],
        length-append whole bytes,
        length-append (whole ++ bytes) rest,
        length-append bytes rest,
      )

  span_starts :
      (n : ℕ) (input : List ℕ) → n < 24 → dp.emit_array n ++ input ≡ (code_array + n) ∷ input
  span_starts n input h = ap (λ head. head ++ input) (law.small_array n h)

  span_shorter :
      (n : ℕ) (items input : List ℕ)
      → n < 24
      → length input < length (dp.emit_array n ++ (items ++ input))
  span_shorter n items input h =
      omega (arith, ap length (span_starts n (items ++ input) h), length-append items input)

  few_items : (n : ℕ) → n ≡ 2 ⊎ n ≡ 7 → n < 24
  few_items n (inl two) = omega (arith, two)
  few_items n (inr seven) = omega (arith, seven)

  Messages-EachUntilBreak :
      {bytes : List ℕ} {records : List (Record A B)} (m : Messages bytes records) (rest : List ℕ)
      → EachUntilBreak
          (decode_record dp types ranges (some registry))
          (with_spans m)
          (bytes ++ break_byte ∷ rest)
          rest
  unfolding with_spans
  Messages-EachUntilBreak no_messages rest = at_break rest
  Messages-EachUntilBreak (a_record t ctx args arguments bytes records h m) rest =
      let input = bytes ++ break_byte ∷ rest in
      let joined = append_assoc (all_bytes (parts codec t ctx args)) bytes (break_byte ∷ rest) in
      before_break _ (with_spans m) _ (code_array + 6) _ input rest
        (joined ∙ record_starts t ctx args input)
        (record_shorter t ctx args bytes (break_byte ∷ rest)) (omega arith)
        (ap (decode_record dp types ranges (some registry)) joined
          ∙ decode_record-parts codec dp types ranges registry law emits reads known t ctx args
              arguments input h)
        (Messages-EachUntilBreak m rest)
  Messages-EachUntilBreak (a_span n items bytes records h k m) rest =
      let input = bytes ++ break_byte ∷ rest in
      let small = few_items n h in
      let joined : (dp.emit_array n ++ (items ++ bytes)) ++ break_byte ∷ rest
          ≡ dp.emit_array n ++ (items ++ input) =
        append_assoc (dp.emit_array n) (items ++ bytes) (break_byte ∷ rest)
        ∙ ap (λ xs. dp.emit_array n ++ xs) (append_assoc items bytes (break_byte ∷ rest)) in
      before_break _ (with_spans m) _ (code_array + n) _ input rest
        (joined ∙ span_starts n (items ++ input) small)
        (omega (arith, ap length joined, span_shorter n items input small)) (omega (arith, small))
        (ap (decode_record dp types ranges (some registry)) joined
          ∙ decode_span n items input h (k input))
        (Messages-EachUntilBreak m rest)

  magic-found : (behind : List ℕ) → equal_bytes (take (length magic) (magic ++ behind)) magic ≡ true
  unfolding equal_bytes
  magic-found behind = refl

  -- A file that begins with the magic bytes and its description, and goes on with an array of
  -- messages and a break, is read as the description and the log records among the messages, in their
  -- order; the messages of spans are left out. The parsers have to read what the emitters write, that
  -- of arrays up to a break, and the records have to be readable one by one.
  pub decode_container-Messages :
      {I : Type 0} (decode_info : List ℕ → Parsed I)
      (parse_array : (List ℕ → Parsed (Record A B)) → List ℕ → Parsed (List (Record A B)))
      (begin_array header bytes rest : List ℕ) (info : I) (records : List (Record A B))
      → ((input : List ℕ) → decode_info (header ++ input) ≡ ok (info, input))
      → ((parse : List ℕ → Parsed (Record A B)) (items : List (Record A B)) (input left : List ℕ)
          → EachUntilBreak parse items input left
          → parse_array parse (begin_array ++ input) ≡ ok (items, left))
      → Messages bytes records
      → decode_container dp decode_info parse_array
          (decode_record dp types ranges (some registry))
          (magic ++ (header ++ (begin_array ++ (bytes ++ break_byte ∷ rest))))
        ≡ ok (record { info = info; records = records }, rest)
  unfolding decode_container
  decode_container-Messages decode_info parse_array begin_array header bytes rest info records
        info_read array_read m =
      let behind = begin_array ++ (bytes ++ break_byte ∷ rest) in
      let long : ltb (length (magic ++ (header ++ behind))) (length magic) ≡ false =
        ground (arith, length-append magic (header ++ behind)) in
      rw (long, magic-found (header ++ behind), drop-append magic (header ++ behind))
        (step _ (info, behind) _ (info_read behind)
          ∙ step _ (with_spans m, rest) _
              (array_read _ (with_spans m) _ rest (Messages-EachUntilBreak m rest))
          ∙ ap (λ rs. ok (record { info = info; records = rs }, rest)) (erase_none-with_spans m))
