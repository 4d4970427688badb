-- ===== src/SerializedMessages/Tests.antt =====
-- The parser of message heads (core/serialized_messages.cpp) on concrete messages, with a codec of
-- items of one byte.
use deeplog.Base.{
  Bool, List, Option, [], arith, false, if◌then◌else◌, leb, length, ltb, map, none, refl, some,
  true, ℕ, ◌&&◌, ◌-◌, ◌∷◌, ◌≡◌, ◌≤◌,
}
use deeplog.SerializedMessages.{
  preparse_loop, preparse_message, classify, left_over, preparse_record, preparse_span_end,
  skip_items, record_or_malformed,
}
use deeplog.SerializedMessages.{ParseApi, record_info, malformed, raw_data, preparse_messages}
use deeplog.SerializedMessages.Sizes.{Consumes, Prefixes, total, preparse_messages-Sizes}

-- One byte, if there is one.
abbrev byte_item : List ℕ → Option ℕ × List ℕ
byte_item [] = (none, [])
byte_item (b ∷ rest) = (some b, rest)

-- The head of an array of up to 23 elements.
abbrev array_head : List ℕ → Option ℕ × List ℕ
array_head [] = (none, [])
array_head (b ∷ rest) = (if leb 0x80 b && ltb b 0x98 then some (b - 0x80) else none, rest)

abbrev skip_byte : List ℕ → Bool × List ℕ
skip_byte [] = (false, [])
skip_byte (b ∷ rest) = (true, rest)

abbrev pub byte_api : ParseApi
byte_api = record {
  decode_tuple_head = array_head;
  decode_severity = byte_item;
  decode_timestamp = byte_item;
  skip_item = skip_byte;
}

byte_api-Consumes : Consumes byte_api
byte_api-Consumes = record {
  head = λ input. array input;
  severity = λ input. item input;
  timestamp = λ input. item input;
  skip = λ input. skipped input;
}
  where
    array : (input : List ℕ) → length (array_head input).1 ≤ length input
    array [] = omega arith
    array (b ∷ rest) = omega arith

    item : (input : List ℕ) → length (byte_item input).1 ≤ length input
    item [] = omega arith
    item (b ∷ rest) = omega arith

    skipped : (input : List ℕ) → length (skip_byte input).1 ≤ length input
    skipped [] = omega arith
    skipped (b ∷ rest) = omega arith

-- A record of severity 13 with two more bytes behind it, a span end that is cut short, and an array
-- of three.
abbrev pub three_messages : List (List ℕ)
three_messages =
    (0x86 ∷ 13 ∷ 0x80 ∷ 7 ∷ 1 ∷ 2 ∷ 3 ∷ 0 ∷ 0 ∷ []) ∷ (0x82 ∷ 1 ∷ []) ∷ (0x83 ∷ 1 ∷ []) ∷ []

preparsed : preparse_messages byte_api three_messages ≡ (
  11,
  record_info (0x86 ∷ 13 ∷ 0x80 ∷ 7 ∷ 1 ∷ 2 ∷ 3 ∷ []) 7 13
      ∷ malformed (0x82 ∷ 1 ∷ [])
      ∷ malformed (0x83 ∷ 1 ∷ [])
      ∷ [],
)
unfolding preparse_messages preparse_loop preparse_message classify left_over preparse_record
    preparse_span_end skip_items record_or_malformed
preparsed = refl

preparse_messages-Sizes_example :
    let result = preparse_messages byte_api three_messages in
    (result.0 ≡ total (map raw_data result.1)) × Prefixes three_messages result.1
unfolding total
preparse_messages-Sizes_example =
    preparse_messages-Sizes byte_api byte_api-Consumes three_messages (omega arith)
