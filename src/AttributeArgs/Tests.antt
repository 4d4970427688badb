-- ===== src/AttributeArgs/Tests.antt =====
-- The attributes of a file sink, two of them with one id, with the codec of the tests of records.
use deeplog.Base.{
  Bool-cases, List, Option, [], ap, arith, inl, inr, length, ltb, ok, ok-injective, refl, some, sym,
  true, ℕ, ◌++◌, ◌-◌, ◌<◌, ◌>>=◌, ◌^◌, ◌∷◌, ◌≡◌,
}
use deeplog.AttributeArgs.{encode_args, encode_attributes, encode_any_attribute}
use deeplog.LogRecord.Emission.{all_bytes, part_bytes}
use deeplog.Codec.Tests.{eight}
use deeplog.Codec.Ids.{encode_trace_id, encode_span_id, state_of_trace, word_bytes}
use deeplog.Errc.{system}
use deeplog.LogRecord.{value, thunk}
use deeplog.LogRecord.Size.{Sized}
use deeplog.Codec.{Parsed}
use deeplog.Codec.Tests.{dp, dp-Reads, emit_integer, parse_integer, integer-reads}
use deeplog.Transmorpher.{Attributes, decode_attributes}
use deeplog.RecordContainer.Tests.{codec, emits, ranges, reads}
use deeplog.AttributeArgs.{AttributeArg, insert_attributes}
use deeplog.AttributeArgs.Insert.{Kept, no_attributes, a_value, a_thunk}
use deeplog.AttributeArgs.RoundTrip.{find_first, decode_attributes-inserted}

some_bytes : (n : ℕ) → 0 < length (emit_integer n)
unfolding emit_integer
some_bytes n = elim (Bool-cases (ltb n 24)) [
  | inl small ↦ rw small (omega arith)
  | inr wide ↦ rw wide (omega arith)
]

one_byte : (n : ℕ) → n < 24 → length (emit_integer n) ≡ 1
unfolding emit_integer
one_byte n h = let small : ltb n 24 ≡ true = ground arith in rw small refl

codec-Sized : Sized codec
unfolding all_bytes part_bytes encode_trace_id encode_span_id state_of_trace word_bytes eight
codec-Sized = record {
  u8string = λ text. refl;
  u8string_head = λ n. omega arith;
  empty_u8string = refl;
  array = λ n. refl;
  pair = refl;
  map = λ n h. refl;
  integer = λ n. refl;
  small_integer = one_byte;
  integer_head = some_bytes;
  value = λ v bytes h. sym (ap length (ok-injective h));
  trace_id = λ id. refl;
  span_id = λ id. refl;
  timestamp = λ t. refl;
}

number : List ℕ → Parsed (List ℕ)
number input = parse_integer (2 ^ 64 - 1) input >>= (λ n. ok (n.0 ∷ [], n.1))

number-reads :
    (n : ℕ) (rest : List ℕ) → n < 2 ^ 64 → number (emit_integer n ++ rest) ≡ ok (n ∷ [], rest)
unfolding number
number-reads n rest h = rw (integer-reads (2 ^ 64 - 1) n rest (omega (arith, h))) refl

known_types : ℕ → Option (List ℕ → Parsed (List ℕ))
known_types id = some number

abbrev attrs : List (AttributeArg ℕ)
attrs = (3, value 0 70) ∷ (5, thunk 1 (ok (4 ∷ []))) ∷ (3, value 0 9) ∷ []

abbrev values : List (ℕ × List ℕ)
values = (3, 70 ∷ []) ∷ (5, 4 ∷ []) ∷ (3, 9 ∷ []) ∷ []

kept : Kept codec known_types attrs values
unfolding known_types emit_integer
kept =
    a_value 3 0 70 (emit_integer 70) (70 ∷ []) number _ _ (omega arith) refl refl
      (λ rest. number-reads 70 rest (omega arith))
      (a_thunk 5 1 (4 ∷ []) (4 ∷ []) number _ _ (omega arith) refl refl
        (λ rest. number-reads 4 rest (omega arith))
        (a_value 3 0 9 (emit_integer 9) (9 ∷ []) number [] [] (omega arith) refl refl
          (λ rest. number-reads 9 rest (omega arith)) no_attributes))

decode_attributes-inserted_example :
    let inserted = insert_attributes codec (system 1) (λ n. 1) attrs in
    (inserted.0 ≡ ok tt)
    × ((store : Attributes (List ℕ)) × (decode_attributes dp ranges
            (some known_types)
            (inserted.1 ++ 8 ∷ [])
          ≡ ok (store, 8 ∷ []))
        × ((id : ℕ) → find_first id store ≡ find_first id values))
unfolding all_bytes part_bytes encode_args encode_attributes encode_any_attribute emit_integer eight
decode_attributes-inserted_example =
    decode_attributes-inserted codec known_types codec-Sized dp dp-Reads emits ranges reads
      (system 1) (λ n. 1) attrs values (8 ∷ []) refl kept (omega arith) (omega arith)
