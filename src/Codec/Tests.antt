-- ===== src/Codec/Tests.antt =====
-- A codec whose items have heads of one byte, but for large integers, and runs of the codecs of ids and status codes.
use deeplog.Base.{
  Bool-cases, List, Result, [], ap, ap₂, arith, drop, drop-append, err, false, if◌then◌else◌, inl,
  inr, leb, length, length-append, ltb, ok, refl, take, take-append, true, ℕ, ◌++◌, ◌+◌, ◌-◌, ◌<◌,
  ◌==◌, ◌^◌, ◌∷◌, ◌≡◌, ◌≤◌,
}
use deeplog.Codec.Ids.RoundTrip.{SeverityOutcome, encode_severity-SeverityOutcome}
use deeplog.Codec.Ids.{encode_severity}
use deeplog.Codec.Ids.{decode_span_context, encode_span_context}
use deeplog.Codec.Ids.RoundTrip.{span_context-reads}
use deeplog.Errc.{Errc, system}
use deeplog.StrongTypes.{SpanContext}
use deeplog.Codec.{Dp, Head, Parsed, Reads, code_array, code_binary, code_null, array_head, onto}

unfoldable pub eight : ℕ → List ℕ
eight n = n ∷ 0 ∷ 0 ∷ 0 ∷ 0 ∷ 0 ∷ 0 ∷ 0 ∷ []

unfoldable pub emit_integer : ℕ → List ℕ
emit_integer n = if ltb n 24 then n ∷ [] else 27 ∷ eight n

unfoldable pub in_range : ℕ → ℕ → List ℕ → Parsed ℕ
in_range limit n rest = if leb n limit then ok (n, rest) else err (system 2)

pub parse_wide : ℕ → List ℕ → Parsed ℕ
parse_wide limit [] = err (system 1)
parse_wide limit (n ∷ rest) = in_range limit n (drop 7 rest)

unfoldable pub parse_integer : ℕ → List ℕ → Parsed ℕ
parse_integer limit [] = err (system 1)
parse_integer limit (b ∷ rest) = if ltb b 24 then in_range limit b rest else parse_wide limit rest

pub parse_text : List ℕ → Parsed (List ℕ)
parse_text [] = err (system 1)
parse_text (b ∷ rest) =
    if leb 0x60 b then ok (take (b - 0x60) rest, drop (b - 0x60) rest) else err (system 3)

pub expect_item_head : ℕ → ℕ → List ℕ → Result Errc (List ℕ)
expect_item_head code n [] = err (system 1)
expect_item_head code n (b ∷ rest) = if b == code + n then ok rest else err (system 3)

unfoldable pub parse_item_head : List ℕ → Parsed Head
parse_item_head [] = err (system 1)
parse_item_head (b ∷ rest) =
    if leb code_array b
    then ok (array_head (b - code_array), rest)
    else ok (record { type_code = 0; value = b; indefinite = false; encoded_length = 1 }, rest)

unfoldable pub skip_item : List ℕ → Result Errc (List ℕ)
skip_item [] = err (system 1)
skip_item (b ∷ rest) = ok rest

pub bulk_read : ℕ → List ℕ → Parsed (List ℕ)
bulk_read n input = if leb n (length input) then ok (take n input, drop n input) else err (system 1)

abbrev pub dp : Dp
dp = record {
  emit_integer = emit_integer;
  emit_binary = λ bytes. (code_binary + length bytes) ∷ bytes;
  emit_u8string = λ bytes. (0x60 + length bytes) ∷ bytes;
  emit_array = λ n. (code_array + n) ∷ [];
  emit_null = code_null ∷ [];
  parse_integer = parse_integer;
  parse_text = parse_text;
  parse_text_finite = parse_text;
  parse_item_head = parse_item_head;
  expect_item_head = expect_item_head;
  bulk_read = bulk_read;
  skip_item = skip_item;
  end_of_stream = system 1;
  item_value_out_of_range = system 2;
  item_type_mismatch = system 3;
  tuple_size_mismatch = system 4;
  oversized_additional_information_coding = system 5;
}

in_range-ok : (limit n : ℕ) (rest : List ℕ) → n ≤ limit → in_range limit n rest ≡ ok (n, rest)
unfolding in_range
in_range-ok limit n rest h = let fits : leb n limit ≡ true = ground arith in rw fits refl

-- Integers are read back in both of their forms.
parse_wide-eight :
    (limit n : ℕ) (rest : List ℕ) → n ≤ limit → parse_wide limit (eight n ++ rest) ≡ ok (n, rest)
unfolding parse_wide eight
parse_wide-eight limit n rest h = in_range-ok limit n rest h

pub eight-reads :
    (limit n : ℕ) (rest : List ℕ)
    → n ≤ limit
    → parse_integer limit ((27 ∷ eight n) ++ rest) ≡ ok (n, rest)
unfolding parse_integer
eight-reads limit n rest h = parse_wide-eight limit n rest h

pub integer-reads :
    (limit n : ℕ) (rest : List ℕ)
    → n ≤ limit
    → parse_integer limit (emit_integer n ++ rest) ≡ ok (n, rest)
unfolding emit_integer parse_integer
integer-reads limit n rest h = elim (Bool-cases (ltb n 24)) [
  | inl small ↦ rw (small, small) (in_range-ok limit n rest h)
  | inr wide ↦ rw wide (parse_wide-eight limit n rest h)
]

small_integer : (n : ℕ) → n < 24 → emit_integer n ≡ n ∷ []
unfolding emit_integer
small_integer n h = let small : ltb n 24 ≡ true = ground arith in rw small refl

pub text-reads :
    (bytes rest : List ℕ) → parse_text ((0x60 + length bytes) ∷ (bytes ++ rest)) ≡ ok (bytes, rest)
unfolding parse_text
text-reads bytes rest =
    let is_text : leb 0x60 (0x60 + length bytes) ≡ true = ground arith in
    let size : 0x60 + length bytes - 0x60 ≡ length bytes = omega arith in
    rw (is_text, size)
      (ap₂ (λ (x y : List ℕ). ok (x, y)) (take-append bytes rest) (drop-append bytes rest))

bulk-reads : (bytes rest : List ℕ) → bulk_read (length bytes) (bytes ++ rest) ≡ ok (bytes, rest)
unfolding bulk_read
bulk-reads bytes rest =
    let fits : leb (length bytes) (length (bytes ++ rest)) ≡ true =
      ground (arith, length-append bytes rest) in
    rw fits (ap₂ (λ (x y : List ℕ). ok (x, y)) (take-append bytes rest) (drop-append bytes rest))

item_head-reads :
    (code n : ℕ) (rest : List ℕ) → expect_item_head code n ((code + n) ∷ rest) ≡ ok rest
unfolding expect_item_head
item_head-reads code n rest =
    let same : (code + n == code + n) ≡ true = ground arith in rw same refl

head-reads :
    (n : ℕ) (rest : List ℕ) → parse_item_head ((code_array + n) ∷ rest) ≡ ok (array_head n, rest)
unfolding parse_item_head
head-reads n rest =
    let fits : leb code_array (code_array + n) ≡ true = ground arith in
    let same : code_array + n - code_array ≡ n = omega arith in
    rw fits (ap (λ (m : ℕ). ok (array_head m, rest)) same)

pub dp-Reads : Reads dp
dp-Reads = record {
  integer = integer-reads;
  small_integer = small_integer;
  text = text-reads;
  text_finite = text-reads;
  binary = λ bytes rest. item_head-reads code_binary (length bytes) (bytes ++ rest);
  bulk = bulk-reads;
  array = λ n rest h. item_head-reads code_array n rest;
  small_array = λ n h. refl;
  head = λ n rest h. head-reads n rest;
  null_item = refl;
}

abbrev context : SpanContext
context = record { trace_id = record { p0 = 2 ^ 63; p1 = 258 }; span_id = 513 }

span_context-reads_example :
    decode_span_context dp (onto (encode_span_context dp context) (9 ∷ [])) ≡ ok (context, 9 ∷ [])
span_context-reads_example =
    span_context-reads dp dp-Reads context (9 ∷ [])
      (record { low = omega arith; high = omega arith }) (omega arith)

encode_severity-SeverityOutcome_example : SeverityOutcome dp dp-Reads 24 (encode_severity dp 24)
encode_severity-SeverityOutcome_example =
    encode_severity-SeverityOutcome dp dp-Reads 24 (omega arith)
