-- ===== src/SerializedMessages/Sizes.antt =====
-- core/serialized_messages.cpp: the binary size of a batch and the raw data of its messages.
use deeplog.Base.{
  Bool, Bool-cases, List, Option, [], ap, arith, false, inl, inr, length, map, none, refl, some,
  suc, sym, take, true, u64, zero, ℕ, ◌&&◌, ◌+◌, ◌-◌, ◌<◌, ◌==◌, ◌^◌, ◌∙◌, ◌∷◌, ◌≡◌, ◌≤◌,
}
use deeplog.SerializedMessages.{
  ParseApi, MessageInfo, malformed, raw_data, parsed_part, skip_items, record_or_malformed,
  preparse_record, preparse_span_start, preparse_span_end, left_over, classify, preparse_message,
  preparse_loop, preparse_messages,
}

-- No call of the parser leaves more bytes than it was given.

pub record Consumes (api : ParseApi) : Type 0 where
  pub head : (input : List ℕ) → length (api.decode_tuple_head input).1 ≤ length input
  pub severity : (input : List ℕ) → length (api.decode_severity input).1 ≤ length input
  pub timestamp : (input : List ℕ) → length (api.decode_timestamp input).1 ≤ length input
  pub skip : (input : List ℕ) → length (api.skip_item input).1 ≤ length input

-- The bytes of all messages.
unfoldable pub total : List (List ℕ) → ℕ
total [] = 0
total (raw ∷ records) = length raw + total records

-- Each info has a prefix of its record as raw data.
pub data Prefixes : List (List ℕ) → List MessageInfo → Type 0 where
  done : Prefixes [] []
  prefix :
      {raw : List ℕ} {records : List (List ℕ)} {info : MessageInfo} {infos : List MessageInfo}
      (n : ℕ)
      → raw_data info ≡ take n raw
      → Prefixes records infos
      → Prefixes (raw ∷ records) (info ∷ infos)

length-take : (n : ℕ) (xs : List ℕ) → n ≤ length xs → length (take n xs) ≡ n
length-take zero xs h = refl
length-take (suc n) [] h = absurd (omega arith)
length-take (suc n) (x ∷ xs) h = omega (arith, length-take n xs (omega arith))

take-all : (xs : List ℕ) → take (length xs) xs ≡ xs
take-all [] = refl
take-all (x ∷ xs) = ap (λ ys. x ∷ ys) (take-all xs)

record_or_malformed-raw :
    (severity timestamp : Option ℕ) (skipped : Bool) (bytes : List ℕ)
    → raw_data (record_or_malformed severity timestamp skipped bytes) ≡ bytes
unfolding record_or_malformed raw_data
record_or_malformed-raw (some s) (some t) true bytes = refl
record_or_malformed-raw (some s) (some t) false bytes = refl
record_or_malformed-raw (some s) none skipped bytes = refl
record_or_malformed-raw none t skipped bytes = refl

-- What a parse of a message leaves and what it keeps as raw data.
abbrev Parsed : List ℕ → MessageInfo × List ℕ → Type 0
Parsed raw p = (length p.1 ≤ length raw) × (raw_data p.0 ≡ parsed_part raw p.1)

module _ (api : ParseApi) (law : Consumes api) where
  skip_items-length : (n : ℕ) (input : List ℕ) → length (skip_items api n input).1 ≤ length input
  unfolding skip_items
  skip_items-length zero input = omega arith
  skip_items-length (suc n) input =
      omega (arith, law.skip input, skip_items-length n (api.skip_item input).1)

  record-Parsed :
      (input raw : List ℕ) → length input ≤ length raw → Parsed raw (preparse_record api input raw)
  unfolding preparse_record raw_data
  record-Parsed input raw h =
      let severity = api.decode_severity input in
      let owner = api.skip_item severity.1 in
      let timestamp = api.decode_timestamp owner.1 in
      let others = skip_items api 3 timestamp.1 in
      (
        omega (
          arith,
          law.severity input,
          law.skip severity.1,
          law.timestamp owner.1,
          skip_items-length 3 timestamp.1,
        ),
        record_or_malformed-raw severity.0 timestamp.0 (owner.0 && others.0)
            (parsed_part raw others.1),
      )

  span_start-Parsed :
      (input raw : List ℕ)
      → length input ≤ length raw
      → Parsed raw (preparse_span_start api input raw)
  unfolding preparse_span_start raw_data
  span_start-Parsed input raw h = (
    omega (arith, skip_items-length 7 input),
    elim (Bool-cases (skip_items api 7 input).0) [
      | inl good ↦ rw good refl
      | inr bad ↦ rw bad refl
    ],
  )

  span_end-Parsed :
      (input raw : List ℕ)
      → length input ≤ length raw
      → Parsed raw (preparse_span_end api input raw)
  unfolding preparse_span_end raw_data
  span_end-Parsed input raw h = (
    omega (arith, skip_items-length 2 input),
    elim (Bool-cases (skip_items api 2 input).0) [
      | inl good ↦ rw good refl
      | inr bad ↦ rw bad refl
    ],
  )

  -- What a message adds to the size is what its info keeps.
  abbrev Kept : List ℕ → MessageInfo × ℕ → Type 0
  Kept raw p = (p.1 ≤ length raw) × (raw_data p.0 ≡ take (length raw - p.1) raw)

  left_over-Kept : (raw : List ℕ) (p : MessageInfo × List ℕ) → Parsed raw p → Kept raw (left_over p)
  unfolding left_over
  left_over-Kept raw (info, input) h = h

  malformed-Kept : (raw : List ℕ) → Kept raw (malformed raw, 0)
  unfolding raw_data
  malformed-Kept raw = (omega arith, sym (take-all raw) ∙ ap (λ (n : ℕ). take n raw) (omega arith))

  classify-Kept :
      (raw : List ℕ) (p : Option ℕ × List ℕ)
      → length p.1 ≤ length raw
      → Kept raw (classify api raw p)
  unfolding classify
  classify-Kept raw (none, input) h = malformed-Kept raw
  classify-Kept raw (some n, input) h = elim (Bool-cases (n == 6)) [
    | inl six ↦ rw six (left_over-Kept raw _ (record-Parsed input raw h))
    | inr other ↦ rw other (elim (Bool-cases (n == 7)) [
      | inl seven ↦ rw seven (left_over-Kept raw _ (span_start-Parsed input raw h))
      | inr more ↦ rw more (elim (Bool-cases (n == 2)) [
        | inl two ↦ rw two (left_over-Kept raw _ (span_end-Parsed input raw h))
        | inr none_of ↦ rw none_of (malformed-Kept raw)
      ])
    ])
  ]

  message-Kept : (raw : List ℕ) → Kept raw (preparse_message api raw)
  unfolding preparse_message
  message-Kept raw = classify-Kept raw (api.decode_tuple_head raw) (law.head raw)

  loop-Sizes :
      (size : ℕ) (records : List (List ℕ))
      → size + total records < 2 ^ 64
      → let result = preparse_loop api size records in
        (result.0 ≡ size + total (map raw_data result.1)) × Prefixes records result.1
  unfolding preparse_loop total
  loop-Sizes size [] h = (omega arith, done)
  loop-Sizes size (raw ∷ records) h =
      let parsed = preparse_message api raw in
      let kept : Kept raw parsed = message-Kept raw in
      let size' = u64 (u64 (size + length raw) + (2 ^ 64 - parsed.1)) in
      let moved : size' ≡ size + (length raw - parsed.1) = omega (arith, h, kept.0) in
      let whole : length (raw_data parsed.0) ≡ length raw - parsed.1 =
        ap length kept.1 ∙ length-take (length raw - parsed.1) raw (omega arith) in
      let rest = loop-Sizes size' records (omega (arith, h, moved)) in
      (omega (arith, rest.0, moved, whole), prefix (length raw - parsed.1) kept.1 rest.1)

-- A batch that is shorter than 2^64 bytes gets one info for each record, whose raw data is a prefix
-- of the record, and the binary size is the number of bytes of the raw data of all infos, if the
-- parser leaves no more bytes than it gets.
pub preparse_messages-Sizes :
    (api : ParseApi)
    → Consumes api
    → (records : List (List ℕ)) → total records < 2 ^ 64
    → let result = preparse_messages api records in
      (result.0 ≡ total (map raw_data result.1)) × Prefixes records result.1
unfolding preparse_messages
preparse_messages-Sizes api law records h =
    let sizes = loop-Sizes api law 0 records (omega (arith, h)) in (omega (arith, sizes.0), sizes.1)
