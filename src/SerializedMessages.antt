-- ===== src/SerializedMessages.antt =====
-- libs/deeplog/src/dplx/dlog/core/serialized_messages.{hpp,cpp}: messages as the bus hands them over,
-- classified before the sinks see them. The calls of the dp library are `ParseApi`; each returns what
-- it read, if it succeeded, and the bytes that it left in `ctx.in`.
pub mod Sizes
pub mod Tests
use deeplog.Base.{
  Bool, List, Option, [], false, if◌then◌else◌, length, none, some, suc, take, true, u64, zero, ℕ,
  ◌&&◌, ◌+◌, ◌-◌, ◌==◌, ◌^◌, ◌∷◌,
}

-- `serialized_message_info`
pub data MessageInfo : Type 0 where
  unknown : List ℕ → MessageInfo
  record_info : List ℕ → ℕ → ℕ → MessageInfo
  span_start : List ℕ → MessageInfo
  span_end : List ℕ → MessageInfo
  malformed : List ℕ → MessageInfo

-- `serialized_info_base::raw_data`
pub raw_data : MessageInfo → List ℕ
raw_data (unknown bytes) = bytes
raw_data (record_info bytes timestamp severity) = bytes
raw_data (span_start bytes) = bytes
raw_data (span_end bytes) = bytes
raw_data (malformed bytes) = bytes

-- `dp::decode_tuple_head` with the number of properties, `dp::decode` of a severity and of a time
-- point, and `dp::skip_item`.
pub record ParseApi : Type 0 where
  pub decode_tuple_head : List ℕ → Option ℕ × List ℕ
  pub decode_severity : List ℕ → Option ℕ × List ℕ
  pub decode_timestamp : List ℕ → Option ℕ × List ℕ
  pub skip_item : List ℕ → Bool × List ℕ

-- The loops over `dp::skip_item`, which go on after a failure.
pub skip_items : ParseApi → ℕ → List ℕ → Bool × List ℕ
skip_items api zero input = (true, input)
skip_items api (suc n) input =
    let first = api.skip_item input in
    let others = skip_items api n first.1 in (first.0 && others.0, others.1)

-- `rawMessage.first(rawMessage.size() - ctx.in.size())`
abbrev pub parsed_part : List ℕ → List ℕ → List ℕ
parsed_part raw input = take (length raw - length input) raw

-- What the failures of a record's parser make of its info.
pub record_or_malformed : Option ℕ → Option ℕ → Bool → List ℕ → MessageInfo
record_or_malformed (some severity) (some timestamp) true bytes =
    record_info bytes timestamp severity
record_or_malformed (some severity) (some timestamp) false bytes = malformed bytes
record_or_malformed (some severity) none skipped bytes = malformed bytes
record_or_malformed none timestamp skipped bytes = malformed bytes

-- Assigning a malformed info keeps `raw_data` at its place, where the end of the function writes it.
pub preparse_record : ParseApi → List ℕ → List ℕ → MessageInfo × List ℕ
preparse_record api input raw =
    let severity = api.decode_severity input in
    let owner = api.skip_item severity.1 in
    let timestamp = api.decode_timestamp owner.1 in
    let others = skip_items api 3 timestamp.1 in
    (
      record_or_malformed severity.0 timestamp.0 (owner.0 && others.0) (parsed_part raw others.1),
      others.1,
    )

pub preparse_span_start : ParseApi → List ℕ → List ℕ → MessageInfo × List ℕ
preparse_span_start api input raw =
    let items = skip_items api 7 input in
    let bytes = parsed_part raw items.1 in
    (if items.0 then span_start bytes else malformed bytes, items.1)

pub preparse_span_end : ParseApi → List ℕ → List ℕ → MessageInfo × List ℕ
preparse_span_end api input raw =
    let items = skip_items api 2 input in
    let bytes = parsed_part raw items.1 in
    (if items.0 then span_end bytes else malformed bytes, items.1)

pub left_over : MessageInfo × List ℕ → MessageInfo × ℕ
left_over (info, input) = (info, length input)

-- The `switch` over the number of properties.
pub classify : ParseApi → List ℕ → Option ℕ × List ℕ → MessageInfo × ℕ
classify api raw (none, input) = (malformed raw, 0)
classify api raw (some num_properties, input) =
    if num_properties == 6
    then left_over (preparse_record api input raw)
    else if num_properties == 7
    then left_over (preparse_span_start api input raw)
    else if num_properties == 2
    then left_over (preparse_span_end api input raw)
    else (malformed raw, 0)

-- One round of the loop: the info, and the bytes that are taken off the binary size again.
pub preparse_message : ParseApi → List ℕ → MessageInfo × ℕ
preparse_message api raw = classify api raw (api.decode_tuple_head raw)

-- The loop, with the `binarySize` so far.
pub preparse_loop : ParseApi → ℕ → List (List ℕ) → ℕ × List MessageInfo
preparse_loop api binary_size [] = (binary_size, [])
preparse_loop api binary_size (raw ∷ records) =
    let parsed = preparse_message api raw in
    let size = u64 (u64 (binary_size + length raw) + (2 ^ 64 - parsed.1)) in
    let rest = preparse_loop api size records in (rest.0, parsed.0 ∷ rest.1)

pub preparse_messages : ParseApi → List (List ℕ) → ℕ × List MessageInfo
preparse_messages api records = preparse_loop api 0 records
