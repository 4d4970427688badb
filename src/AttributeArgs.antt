-- ===== src/AttributeArgs.antt =====
-- libs/deeplog/src/dplx/dlog/attributes.cpp and sinks/file_sink.cpp: the attributes that a call is
-- given, how they are emitted, and the map of a file sink that holds their bytes. An attribute is its
-- id and its value; the type of a value is not emitted here, and the two answers of a thunk are those
-- for its raw value.
pub mod Insert
pub mod RoundTrip
mod Tests
use deeplog.Base.{List, Result, [], false, length, ok, suc, u64, zero, ℕ, ◌++◌, ◌+◌, ◌∷◌}
use deeplog.Errc.{Errc}
use deeplog.LogRecord.{Loggable, null, value, thunk, ItemCodec, Part, tried, Out, emit_parts}

abbrev pub AttributeArg : Type 0 → Type 0
AttributeArg V = ℕ × Loggable V

module _ {V : Type 0} (codec : ItemCodec V) where
  pub item_size_of_any_attribute : AttributeArg V → ℕ
  item_size_of_any_attribute (attribute_id, null) = 0
  item_size_of_any_attribute (attribute_id, value tag v) =
      u64 (codec.item_size_of_integer attribute_id + codec.encoded_size_of v)
  item_size_of_any_attribute (attribute_id, thunk size bytes) =
      u64 (codec.item_size_of_integer attribute_id + size)

  pub encode_any_attribute : AttributeArg V → List Part
  encode_any_attribute (attribute_id, null) = []
  encode_any_attribute (attribute_id, value tag v) =
      tried (ok (codec.emit_integer attribute_id)) ∷ tried (codec.encode v) ∷ []
  encode_any_attribute (attribute_id, thunk size bytes) =
      tried (ok (codec.emit_integer attribute_id)) ∷ tried bytes ∷ []

  -- The loop of `encoded_size_of_attributes`, with its accumulator.
  pub add_attribute_sizes : ℕ → List (AttributeArg V) → ℕ
  add_attribute_sizes accumulator [] = accumulator
  add_attribute_sizes accumulator (attr ∷ attrs) =
      add_attribute_sizes (u64 (accumulator + item_size_of_any_attribute attr)) attrs

  pub encoded_size_of_attributes : List (AttributeArg V) → ℕ
  encoded_size_of_attributes attrs = add_attribute_sizes 0 attrs

  pub encode_attributes : List (AttributeArg V) → List Part
  encode_attributes [] = []
  encode_attributes (attr ∷ attrs) = encode_any_attribute attr ++ encode_attributes attrs

  -- The codec of `attribute_args`, over the size of the head of a map.
  pub size_of_args : (ℕ → ℕ) → List (AttributeArg V) → ℕ
  size_of_args item_head_size_of_map attrs =
      u64 (item_head_size_of_map (length attrs) + encoded_size_of_attributes attrs)

  pub encode_args : List (AttributeArg V) → List Part
  encode_args attrs = tried (ok (codec.emit_map (length attrs))) ∷ encode_attributes attrs

  -- The vector is resized with zeros and written from its start.
  zeros : ℕ → List ℕ
  zeros zero = []
  zeros (suc n) = 0 ∷ zeros n

  -- `cbor_attribute_map::insert_attributes`, with the bytes of the map.
  pub insert_attributes : Errc → (ℕ → ℕ) → List (AttributeArg V) → Result Errc (Unit {0}) × List ℕ
  insert_attributes end_of_stream item_head_size_of_map attrs =
      let result =
        emit_parts end_of_stream (encode_args attrs) (record {
          bytes = [];
          room = size_of_args item_head_size_of_map attrs;
          overrun = false;
        }) in
      (result.0, result.1.bytes ++ zeros result.1.room)
