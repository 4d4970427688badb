-- ===== src/RecordContainer/Tests.antt =====
-- A log record, and a file that holds it behind the message of a span, written and read with the
-- codec of the tests.
use deeplog.Base.{
  List, Option, [], ap, arith, err, false, if◌then◌else◌, inl, length, none, ok, refl, some, suc,
  sym, zero, ℕ, ◌++◌, ◌+◌, ◌-◌, ◌==◌, ◌>>=◌, ◌^◌, ◌∙◌, ◌∷◌, ◌≡◌, ◌≤◌,
}
use deeplog.RecordContainer.{skip_items}
use deeplog.Codec.{step}
use deeplog.Codec.Tests.{in_range, parse_item_head, skip_item}
use deeplog.Transmorpher.Entries.{LineFits}
use deeplog.Errc.{system}
use deeplog.LogRecord.{ItemCodec, LogArgs, Context, value, thunk, parts}
use deeplog.LogRecord.Emission.{all_bytes}
use deeplog.Codec.{Parsed, code_array}
use deeplog.Codec.Ids.{decode_id, encode_trace_id, encode_span_id}
use deeplog.Codec.Tests.{
  dp, dp-Reads, eight, emit_integer, eight-reads, integer-reads, parse_integer, parse_text,
  text-reads,
}
use deeplog.Transmorpher.{
  revive, decode_arg, check_argument, decode_name, Ranges, Types, Argument, Attributes,
}
use deeplog.Transmorpher.Reading.{
  Each, no_more, one_more, Folds, all_added, added, Emits, ReadsRanges, no_arguments, a_value,
  a_thunk,
}
use deeplog.Transmorpher.Entries.{Registered}
use deeplog.RecordContainer.{decode_record, magic, decode_container}
use deeplog.RecordContainer.Records.{Readable, record_of, decode_record-parts}
use deeplog.RecordContainer.Files.{
  break_byte, EachUntilBreak, at_break, before_break, no_messages, a_record, a_span,
  decode_container-Messages,
}

abbrev pub codec : ItemCodec ℕ
codec = record {
  item_size_of_u8string = λ n. suc n;
  emit_u8string = dp.emit_u8string;
  item_head_size_of_array = λ n. 1;
  emit_array = dp.emit_array;
  emit_map = λ n. (0xa0 + n) ∷ [];
  item_size_of_integer = λ n. length (emit_integer n);
  emit_integer = emit_integer;
  encoded_size_of = λ v. length (emit_integer v);
  encode = λ v. ok (emit_integer v);
  encode_trace_id = λ id. all_bytes (encode_trace_id dp id);
  encode_span_id = λ id. all_bytes (encode_span_id dp id);
  store_timestamp = λ t. 27 ∷ eight t;
}

pub emits : Emits codec dp
emits = record {
  u8string = λ bytes. refl;
  array = λ n. refl;
  integer = λ n. refl;
  trace_id = λ id. refl;
  span_id = λ id. refl;
  timestamp = λ t rest h. eight-reads _ t rest (omega (arith, h));
}

-- As many elements as the head says.
parse_elements : {A : Type 0} → (List ℕ → Parsed A) → ℕ → List ℕ → Parsed (List A)
parse_elements parse zero input = ok ([], input)
parse_elements parse (suc n) input = do
  item ← parse input
  items ← parse_elements parse n item.1
  ok (item.0 ∷ items.0, items.1)

parse_array_finite : {A : Type 0} → (List ℕ → Parsed A) → List ℕ → Parsed (List A)
parse_array_finite parse [] = err (system 1)
parse_array_finite parse (b ∷ rest) = parse_elements parse (b - code_array) rest

parse_entries : {S : Type 0} → (S → List ℕ → Parsed S) → ℕ → S → List ℕ → Parsed S
parse_entries add zero s input = ok (s, input)
parse_entries add (suc n) s input = add s input >>= (λ next. parse_entries add n next.0 next.1)

parse_map_finite : {S : Type 0} → (S → List ℕ → Parsed S) → S → List ℕ → Parsed S
parse_map_finite add s [] = err (system 1)
parse_map_finite add s (b ∷ rest) = parse_entries add (b - 0xa0) s rest

pub ranges : Ranges (Argument ℕ) (Attributes (List ℕ))
ranges = record {
  parse_array_finite = parse_array_finite;
  parse_map_finite = parse_map_finite;
  expect_empty_map = λ input. err (system 1);
}

elements-Each :
    {A : Type 0} (parse : List ℕ → Parsed A) (items : List A) (input rest : List ℕ)
    → Each parse items input rest
    → parse_elements parse (length items) input ≡ ok (items, rest)
unfolding parse_elements
elements-Each parse _ _ _ (no_more rest) = refl
elements-Each parse _ _ _ (one_more a items input mid rest h e) =
    rw h (rw (elements-Each parse items mid rest e) refl)

entries-Folds :
    {S : Type 0} (add : S → List ℕ → Parsed S) (s end : S) (n : ℕ) (input rest : List ℕ)
    → Folds add s n input end rest
    → parse_entries add n s input ≡ ok (end, rest)
unfolding parse_entries
entries-Folds add _ _ _ _ _ (all_added s rest) = refl
entries-Folds add _ _ _ _ _ (added s next end n input mid rest h f) =
    rw h (entries-Folds add next end n mid rest f)

pub reads : ReadsRanges codec ranges
unfolding ranges parse_array_finite parse_map_finite
reads = record {
  array_finite = λ parse items input rest h e.
      let same : code_array + length items - code_array ≡ length items = omega arith in
      rw same (elements-Each parse items input rest e);
  map_finite = λ add s end n input rest h f.
      let same : 0xa0 + n - 0xa0 ≡ n = omega arith in
      rw same (entries-Folds add s end n input rest f);
}

types : Types ℕ
types = record {
  as_uint64 = parse_integer (2 ^ 64 - 1);
  as_int64 = parse_integer (2 ^ 63 - 1);
  known_types = λ key. none;
}

parse_number : List ℕ → Parsed (List ℕ)
parse_number input = parse_integer (2 ^ 64 - 1) input >>= (λ n. ok (n.0 ∷ [], n.1))

registry : ℕ → Option (List ℕ → Parsed (List ℕ))
registry key = if key == 3 then some parse_number else if key == 2 then some parse_text else none

known : Registered codec registry
unfolding registry parse_number
known = record {
  as_line = λ n. n ∷ [];
  as_file = λ bytes. bytes;
  parse_line = parse_number;
  parse_file = parse_text;
  line_known = refl;
  file_known = refl;
  line_read = λ n rest h. rw (integer-reads (2 ^ 64 - 1) n rest (omega (arith, h))) refl;
  file_read = text-reads;
}

abbrev args : LogArgs ℕ
args = record {
  sev = 9;
  message = 104 ∷ 105 ∷ [];
  message_parts = value 0 (2 ^ 40) ∷ thunk 3 (ok (0x82 ∷ 1 ∷ 8 ∷ [])) ∷ [];
  line = some 42;
  filename = some (102 ∷ []);
}

abbrev context : Context
context = record {
  instrumentation_scope = some (97 ∷ []);
  span = record { trace_id = record { p0 = 1; p1 = 2 }; span_id = 3 };
}

abbrev arguments : List (Argument ℕ)
arguments = (none, 2 ^ 40) ∷ (none, 8) ∷ []

readable : Readable codec dp types ranges registry 5 context args arguments
unfolding LineFits types revive decode_arg check_argument decode_name decode_id parse_integer
    in_range parse_item_head
readable = record {
  time = omega arith;
  logged = omega arith;
  in_range = omega arith;
  trace = record { low = omega arith; high = omega arith };
  span = omega arith;
  revived =
      a_value 0 (2 ^ 40) _ (2 ^ 40) _ _ refl (omega arith)
        (λ rest. integer-reads (2 ^ 64 - 1) (2 ^ 40) rest (omega arith))
        (a_thunk 3 (0x82 ∷ 1 ∷ 8 ∷ []) (none, 8) [] [] (λ rest. refl) no_arguments);
  line = omega arith;
  few = omega arith;
}

decode_record-parts_example :
    decode_record dp types ranges (some registry) (all_bytes (parts codec 5 context args) ++ 7 ∷ [])
    ≡ ok (
      record_of codec dp types ranges registry dp-Reads emits reads known 5 context args arguments,
      7 ∷ [],
    )
decode_record-parts_example =
    decode_record-parts codec dp types ranges registry dp-Reads emits reads known 5 context args
      arguments (7 ∷ []) readable

-- An array up to its break; every element takes a byte at least.
parse_until : {A : Type 0} → (List ℕ → Parsed A) → ℕ → List ℕ → Parsed (List A)
parse_until parse zero input = err (system 1)
parse_until parse (suc fuel) [] = err (system 1)
parse_until parse (suc fuel) (b ∷ rest) =
    if b == break_byte then ok ([], rest) else elim (parse (b ∷ rest)) [
      | err e ↦ err e
      | ok item ↦ parse_until parse fuel item.1 >>= (λ items. ok (item.0 ∷ items.0, items.1))
    ]

parse_array : {A : Type 0} → (List ℕ → Parsed A) → List ℕ → Parsed (List A)
parse_array parse [] = err (system 1)
parse_array parse (b ∷ rest) =
    if b == 0x9f then parse_until parse (length rest) rest else err (system 3)

until-reads :
    {A : Type 0} (parse : List ℕ → Parsed A) (items : List A) (fuel : ℕ) (input rest : List ℕ)
    → length input ≤ fuel
    → EachUntilBreak parse items input rest
    → parse_until parse fuel input ≡ ok (items, rest)
unfolding parse_until
until-reads parse _ zero _ _ h (at_break rest) = absurd (omega (arith, h))
until-reads parse _ (suc fuel) _ _ h (at_break rest) = refl
until-reads parse _ zero _ _ h (before_break a items input first behind mid rest s l n k e) =
    absurd (omega (arith, h, l))
until-reads parse _ (suc fuel) _ _ h (before_break a items input first behind mid rest s l n k e) =
    let goes_on : (first == break_byte) ≡ false = ground (arith, n) in
    let read : parse (first ∷ behind) ≡ ok (a, mid) = ap parse (sym s) ∙ k in
    ap (parse_until parse (suc fuel)) s
    ∙ rw (goes_on, read)
        (step (parse_until parse fuel mid) (items, rest) _
          (until-reads parse items fuel mid rest (omega (arith, h, l)) e))

decode_info : List ℕ → Parsed ℕ
decode_info [] = err (system 1)
decode_info (b ∷ input) = ok (b, input)

-- The message of a span, and the record.
abbrev file_bytes : List ℕ
file_bytes = dp.emit_array 2 ++ ((4 ∷ 5 ∷ []) ++ (all_bytes (parts codec 5 context args) ++ []))

decode_container-Messages_example :
    decode_container dp decode_info parse_array
      (decode_record dp types ranges (some registry))
      (magic ++ ((1 ∷ []) ++ ((0x9f ∷ []) ++ (file_bytes ++ break_byte ∷ []))))
    ≡ ok (
      record {
        info = 1;
        records =
            record_of codec dp types ranges registry dp-Reads emits reads known 5 context args
              arguments
            ∷ [];
      },
      [],
    )
unfolding skip_items skip_item decode_info parse_array
decode_container-Messages_example =
    decode_container-Messages codec dp types ranges registry dp-Reads emits reads known decode_info
      parse_array (0x9f ∷ []) (1 ∷ []) file_bytes [] 1 _ (λ input. refl)
      (λ parse items input left e.
        until-reads parse items (length input) input left (omega arith) e)
      (a_span 2 (4 ∷ 5 ∷ []) _ _ (inl refl) (λ rest. refl)
        (a_record 5 context args arguments [] [] readable no_messages))
