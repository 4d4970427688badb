-- ===== src/AttributeArgs/Insert.antt =====
-- attributes.cpp, sinks/file_sink.cpp and attribute_transmorpher.cpp: the bytes of a map of
-- attributes fit its vector, and the decoder of attribute containers reads them.
use deeplog.Base.{
  List, Option, Result, [], ap, arith, false, length, ok, some, u64, ℕ, ◌++◌, ◌+◌, ◌-◌, ◌<◌, ◌^◌,
  ◌∙◌, ◌∷◌, ◌≡◌,
}
use mathlib.Core.List.{append-nil}
use deeplog.LogRecord.{tried, Out}
use deeplog.Errc.{Errc}
use deeplog.LogRecord.{value, thunk, ItemCodec, put}
use deeplog.LogRecord.Emission.{
  part_bytes, Succeeds, AllSucceed, all_bytes, weight, length-all_bytes, emit_parts-fit,
}
use deeplog.LogRecord.Size.{Sized}
use deeplog.Codec.{Dp, Parsed, Reads, onto}
use deeplog.Transmorpher.{Attributes, try_emplace, add_attribute}
use deeplog.Transmorpher.Reading.{Folds, all_added, added, Emits}
use deeplog.Transmorpher.Entries.{add_attribute-reads}
use deeplog.AttributeArgs.{
  AttributeArg, item_size_of_any_attribute, encode_any_attribute, add_attribute_sizes,
  encoded_size_of_attributes, encode_attributes, size_of_args, encode_args, zeros,
  insert_attributes,
}

module _ {V B : Type 0} (codec : ItemCodec V) (registry : ℕ → Option (List ℕ → Parsed B)) where
  -- Attributes, and the values that they are read back as: their ids are registered with parsers that
  -- read the bytes of the values.
  pub data Kept : List (AttributeArg V) → List (ℕ × B) → Type 0 where
    no_attributes : Kept [] []
    a_value :
        (id tag : ℕ) (v : V) (bytes : List ℕ) (b : B) (parse : List ℕ → Parsed B)
        (attrs : List (AttributeArg V)) (values : List (ℕ × B))
        → id < 2 ^ 64
        → codec.encode v ≡ ok bytes
        → registry id ≡ some parse
        → ((rest : List ℕ) → parse (bytes ++ rest) ≡ ok (b, rest))
        → Kept attrs values
        → Kept ((id, value tag v) ∷ attrs) ((id, b) ∷ values)
    a_thunk :
        (id size : ℕ) (bytes : List ℕ) (b : B) (parse : List ℕ → Parsed B)
        (attrs : List (AttributeArg V)) (values : List (ℕ × B))
        → id < 2 ^ 64
        → length bytes ≡ size
        → registry id ≡ some parse
        → ((rest : List ℕ) → parse (bytes ++ rest) ≡ ok (b, rest))
        → Kept attrs values
        → Kept ((id, thunk size (ok bytes)) ∷ attrs) ((id, b) ∷ values)

  -- Every value is offered to the container in turn.
  unfoldable pub collected : Attributes B → List (ℕ × B) → Attributes B
  collected store [] = store
  collected store ((id, b) ∷ values) = collected (try_emplace id b store) values

  module _ (law : Sized codec) where
    encodes :
        (attrs : List (AttributeArg V)) (values : List (ℕ × B))
        → Kept attrs values
        → AllSucceed (encode_attributes codec attrs)
    unfolding encode_attributes encode_any_attribute AllSucceed Succeeds
    encodes _ _ no_attributes = tt
    encodes _ _ (a_value id tag v bytes b parse attrs values i e k r h) =
        rw e (tt, (tt, encodes attrs values h))
    encodes _ _ (a_thunk id size bytes b parse attrs values i e k r h) =
        (tt, (tt, encodes attrs values h))

    add_attribute_sizes-weight :
        (n : ℕ) (attrs : List (AttributeArg V)) (values : List (ℕ × B))
        → Kept attrs values
        → n + weight (encode_attributes codec attrs) < 2 ^ 64
        → add_attribute_sizes codec n attrs ≡ n + weight (encode_attributes codec attrs)
    unfolding add_attribute_sizes item_size_of_any_attribute encode_attributes encode_any_attribute
        weight part_bytes
    add_attribute_sizes-weight n _ _ no_attributes small = omega arith
    add_attribute_sizes-weight n _ _ (a_value id tag v bytes b parse attrs values i e k r h) small =
        let written : length (part_bytes (tried (codec.encode v))) ≡ length bytes =
          ap (λ x. length (part_bytes (tried x))) e in
        let size = law.value v bytes e in
        let head = law.integer id in
        let next : u64 (n + u64 (codec.item_size_of_integer id + codec.encoded_size_of v))
            ≡ n + (length (codec.emit_integer id) + length bytes) =
          omega (arith, written, size, head) in
        rw next (
          add_attribute_sizes-weight (n + (length (codec.emit_integer id) + length bytes)) attrs
            values h (omega (arith, written))
          ∙ omega (arith, written))
    add_attribute_sizes-weight n _ _ (a_thunk id size bytes b parse attrs values i e k r h) small =
        let head = law.integer id in
        let next : u64 (n + u64 (codec.item_size_of_integer id + size))
            ≡ n + (length (codec.emit_integer id) + length bytes) =
          omega (arith, e, head) in
        rw next (
          add_attribute_sizes-weight (n + (length (codec.emit_integer id) + length bytes)) attrs
            values h (omega arith)
          ∙ omega arith)

    -- If the sizes are what the codec writes, the attributes exactly fill the vector of their map.
    pub insert_attributes-fits :
        (end_of_stream : Errc) (head_size : ℕ → ℕ) (attrs : List (AttributeArg V))
        (values : List (ℕ × B))
        → length (codec.emit_map (length attrs)) ≡ head_size (length attrs)
        → Kept attrs values
        → length (all_bytes (encode_args codec attrs)) < 2 ^ 64
        → insert_attributes codec end_of_stream head_size attrs
          ≡ (ok tt, all_bytes (encode_args codec attrs))
    unfolding insert_attributes size_of_args encoded_size_of_attributes encode_args put zeros weight
        part_bytes AllSucceed Succeeds
    insert_attributes-fits end_of_stream head_size attrs values head kept small =
        let total = length-all_bytes (encode_args codec attrs) in
        let sum = add_attribute_sizes-weight 0 attrs values kept (omega (arith, total, small)) in
        let room : size_of_args codec head_size attrs
            ≡ length (all_bytes (encode_args codec attrs)) =
          omega (arith, total, sum, head, small) in
        let none_left : size_of_args codec head_size attrs
              - length (all_bytes (encode_args codec attrs))
            ≡ 0 =
          omega (arith, room) in
        ap
          (λ (result : Result Errc (Unit {0}) × Out).
            (result.0, result.1.bytes ++ zeros codec result.1.room))
          (emit_parts-fit end_of_stream (encode_args codec attrs)
            (record { bytes = []; room = size_of_args codec head_size attrs; overrun = false })
            (tt, encodes attrs values kept) (omega (arith, room)))
        ∙ rw none_left (
            ap (λ (bytes : List ℕ). (ok tt, bytes))
              (append-nil (all_bytes (encode_args codec attrs))))

  module _ (dp : Dp) (law : Reads dp) (emits : Emits codec dp) where
    pub attributes-Folds :
        (store : Attributes B) (attrs : List (AttributeArg V)) (values : List (ℕ × B))
        (rest : List ℕ)
        → Kept attrs values
        → Folds
            (add_attribute dp registry)
            store
            (length attrs)
            (onto (encode_attributes codec attrs) rest)
            (collected store values)
            rest
    unfolding encode_attributes encode_any_attribute onto part_bytes collected
    attributes-Folds store _ _ rest no_attributes = all_added store rest
    attributes-Folds store _ _ rest (a_value id tag v bytes b parse attrs values i e k r h) =
        let behind = onto (encode_attributes codec attrs) rest in
        added store (try_emplace id b store) _ _ _ behind rest
          (rw (e, emits.integer id)
            (add_attribute-reads dp law registry id b parse store (bytes ++ behind) behind i k
              (r behind)))
          (attributes-Folds (try_emplace id b store) attrs values rest h)
    attributes-Folds store _ _ rest (a_thunk id size bytes b parse attrs values i e k r h) =
        let behind = onto (encode_attributes codec attrs) rest in
        added store (try_emplace id b store) _ _ _ behind rest
          (rw (emits.integer id) (
            add_attribute-reads dp law registry id b parse store (bytes ++ behind) behind i k
              (r behind)))
          (attributes-Folds (try_emplace id b store) attrs values rest h)
