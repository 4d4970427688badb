-- ===== src/Transmorpher/Reading.antt =====
-- The arguments that `vlog` emits, as argument_transmorpher_fmt.hpp reads them.
use deeplog.Base.{
  List, [], ap, arith, length, none, ok, refl, suc, ℕ, ◌++◌, ◌-◌, ◌<◌, ◌^◌, ◌∙◌, ◌∷◌, ◌≡◌,
}
use deeplog.Codec.Ids.{encode_trace_id, encode_span_id}
use deeplog.LogRecord.Emission.{all_bytes}
use deeplog.StrongTypes.{TraceId}
use deeplog.LogRecord.{Loggable, value, thunk, ItemCodec, encode_any_loggable, loggable_parts}
use deeplog.LogRecord.Emission.{part_bytes}
use deeplog.Codec.{Dp, Parsed, Reads, onto, step, array_head}
use deeplog.Codec.Ids.RoundTrip.{id-reads}
use deeplog.Transmorpher.{Ranges, Types, revive, decode_name, decode_arg, check_argument, Argument}

-- The elements of an array, each read where the one in front of it ends.
pub data Each {A : Type 0} (parse : List ℕ → Parsed A) : List A → List ℕ → List ℕ → Type 0 where
  no_more : (rest : List ℕ) → Each parse [] rest rest
  one_more :
      (a : A) (items : List A) (input mid rest : List ℕ)
      → parse input ≡ ok (a, mid)
      → Each parse items mid rest
      → Each parse (a ∷ items) input rest

-- The entries of a map, which a store takes one after the other.
pub data Folds {S : Type 0} (add : S → List ℕ → Parsed S)
    : S → ℕ → List ℕ → S → List ℕ → Type 0 where
  all_added : (s : S) (rest : List ℕ) → Folds add s 0 rest s rest
  added :
      (s next end : S) (n : ℕ) (input mid rest : List ℕ)
      → add s input ≡ ok (next, mid)
      → Folds add next n mid end rest
      → Folds add s (suc n) input end rest

-- What the emitters of `vlog` have to do with those of the dp library.
pub record Emits {V : Type 0} (codec : ItemCodec V) (dp : Dp) : Type 0 where
  pub u8string : (bytes : List ℕ) → codec.emit_u8string bytes ≡ dp.emit_u8string bytes
  pub array : (n : ℕ) → codec.emit_array n ≡ dp.emit_array n
  pub integer : (n : ℕ) → codec.emit_integer n ≡ dp.emit_integer n
  pub trace_id : (id : TraceId) → codec.encode_trace_id id ≡ all_bytes (encode_trace_id dp id)
  pub span_id : (id : ℕ) → codec.encode_span_id id ≡ all_bytes (encode_span_id dp id)
  pub timestamp :
      (t : ℕ) (rest : List ℕ)
      → t < 2 ^ 64
      → dp.parse_integer (2 ^ 64 - 1) (codec.store_timestamp t ++ rest) ≡ ok (t, rest)

-- The parsers of arrays and maps read what is emitted for them.
pub record ReadsRanges {V A S : Type 0} (codec : ItemCodec V) (ranges : Ranges A S) : Type 0 where
  pub array_finite :
      (parse : List ℕ → Parsed A) (items : List A) (input rest : List ℕ)
      → length items < 2 ^ 64
      → Each parse items input rest
      → ranges.parse_array_finite parse (codec.emit_array (length items) ++ input)
        ≡ ok (items, rest)
  pub map_finite :
      (add : S → List ℕ → Parsed S) (s end : S) (n : ℕ) (input rest : List ℕ)
      → n < 2 ^ 64
      → Folds add s n input end rest
      → ranges.parse_map_finite add s (codec.emit_map n ++ input) ≡ ok (end, rest)

module _ {V A : Type 0} (codec : ItemCodec V) (dp : Dp) (types : Types A) where
  -- Arguments, and what they are read back as: the parser for the type of a value reads the bytes of
  -- the value, and a thunk writes a whole argument.
  pub data Revives : List (Loggable V) → List (Argument A) → Type 0 where
    no_arguments : Revives [] []
    a_value :
        (id : ℕ) (v : V) (bytes : List ℕ) (a : A) (parts : List (Loggable V))
        (arguments : List (Argument A))
        → codec.encode v ≡ ok bytes
        → id < 2 ^ 64
        → ((rest : List ℕ) → revive dp types id (bytes ++ rest) ≡ ok (a, rest))
        → Revives parts arguments
        → Revives (value id v ∷ parts) ((none, a) ∷ arguments)
    a_thunk :
        (size : ℕ) (bytes : List ℕ) (argument : Argument A) (parts : List (Loggable V))
        (arguments : List (Argument A))
        → ((rest : List ℕ) → decode_arg dp types (bytes ++ rest) ≡ ok (argument, rest))
        → Revives parts arguments
        → Revives (thunk size (ok bytes) ∷ parts) (argument ∷ arguments)

  pub length-Revives :
      (parts : List (Loggable V)) (arguments : List (Argument A))
      → Revives parts arguments
      → length arguments ≡ length parts
  length-Revives _ _ no_arguments = refl
  length-Revives _ _ (a_value id v bytes a parts arguments e h k r) =
      ap suc (length-Revives parts arguments r)
  length-Revives _ _ (a_thunk size bytes argument parts arguments k r) =
      ap suc (length-Revives parts arguments r)

  module _ (emits : Emits codec dp) (law : Reads dp) where
    decode_arg-value :
        (id : ℕ) (v : V) (bytes rest : List ℕ) (a : A)
        → codec.encode v ≡ ok bytes
        → id < 2 ^ 64
        → revive dp types id (bytes ++ rest) ≡ ok (a, rest)
        → decode_arg dp types (onto (encode_any_loggable codec (value id v)) rest)
          ≡ ok ((none, a), rest)
    unfolding decode_arg check_argument decode_name encode_any_loggable onto part_bytes
    decode_arg-value id v bytes rest a e h k =
        let behind_id = bytes ++ rest in
        let behind_head = dp.emit_integer id ++ behind_id in
        rw (e, emits.array 2, emits.integer id)
          (step _ (array_head 2, behind_head) _ (law.head 2 behind_head (omega arith))
            ∙ step _ (id, behind_id) _ (id-reads dp law id behind_id h)
            ∙ step _ (a, rest) _ k)

    pub arguments-Each :
        (parts : List (Loggable V)) (arguments : List (Argument A)) (rest : List ℕ)
        → Revives parts arguments
        → Each (decode_arg dp types) arguments (onto (loggable_parts codec parts) rest) rest
    unfolding loggable_parts onto encode_any_loggable part_bytes
    arguments-Each _ _ rest no_arguments = no_more rest
    arguments-Each _ _ rest (a_value id v bytes a parts arguments e h k r) =
        one_more (none, a) arguments _ (onto (loggable_parts codec parts) rest) rest
          (decode_arg-value id v bytes (onto (loggable_parts codec parts) rest) a e h (k _))
          (arguments-Each parts arguments rest r)
    arguments-Each _ _ rest (a_thunk size bytes argument parts arguments k r) =
        one_more argument arguments _ (onto (loggable_parts codec parts) rest) rest (k _)
          (arguments-Each parts arguments rest r)
