-- ===== src/Transmorpher.antt =====
-- libs/deeplog/src/dplx/dlog/argument_transmorpher_fmt.hpp and attribute_transmorpher.cpp: the reading
-- of the arguments and attributes of a record. The items of the dp library are parameters (`Dp`,
-- `Ranges`), and so is what a registered type makes of its item. Allocations do not fail.
pub mod Reading
pub mod Entries
use deeplog.Base.{
  Bool, List, Option, Result, [], err, fail_if, false, if◌then◌else◌, none, not, ok, some, ℕ, ◌&&◌,
  ◌++◌, ◌==◌, ◌>>=◌, ◌>>◌, ◌||◌, ◌∷◌,
}
use deeplog.Errc.{Errc, unknown_argument_type_id, unknown_attribute_type_id}
use deeplog.Codec.{Dp, Parsed, Head, code_array}
use deeplog.Codec.Ids.{decode_id}

-- `dp::parse_array_finite` and `dp::parse_map_finite`, which run a parser for each element; that of a map
-- adds to a store.
pub record Ranges (A S : Type 0) : Type 0 where
  pub parse_array_finite : (List ℕ → Parsed A) → List ℕ → Parsed (List A)
  pub parse_map_finite : (S → List ℕ → Parsed S) → S → List ℕ → Parsed S
  pub expect_empty_map : List ℕ → Result Errc (List ℕ)

-- `reification_tag_v` of the integers that every transmorpher knows.
abbrev pub uint64_tag : ℕ
uint64_tag = 0

abbrev pub int64_tag : ℕ
int64_tag = 1

-- The parsers of argument types: those that are built in, and those that were registered.
pub record Types (A : Type 0) : Type 0 where
  pub as_uint64 : List ℕ → Parsed A
  pub as_int64 : List ℕ → Parsed A
  pub known_types : ℕ → Option (List ℕ → Parsed A)

-- An argument with the name that it may have.
abbrev pub Argument : Type 0 → Type 0
Argument A = Option (List ℕ) × A

module _ (dp : Dp) {A : Type 0} (types : Types A) where
  unfoldable pub revive : ℕ → List ℕ → Parsed A
  revive key input =
      if key == uint64_tag
      then types.as_uint64 input
      else if key == int64_tag
      then types.as_int64 input
      else elim (types.known_types key) [
        | none ↦ err unknown_argument_type_id
        | some parse ↦ parse input
      ]

  unfoldable pub check_argument : Head → Result Errc (Unit {0})
  check_argument head =
      fail_if (not (head.type_code == code_array)) dp.item_type_mismatch
      >> fail_if (head.indefinite || not (head.value == 2) && not (head.value == 3))
          dp.tuple_size_mismatch
      >> fail_if (not (head.encoded_length == 1)) dp.oversized_additional_information_coding

  unfoldable pub decode_name : Bool → List ℕ → Parsed (Option (List ℕ))
  decode_name named input =
      if named
      then dp.parse_text_finite input >>= (λ name. ok (some name.0, name.1))
      else ok (none, input)

  unfoldable pub decode_arg : List ℕ → Parsed (Argument A)
  decode_arg input = do
    head ← dp.parse_item_head input
    check_argument head.0
    key ← decode_id dp head.1
    name ← decode_name (head.0.value == 3) key.1
    value ← revive key.0 name.1
    ok ((name.0, value.0), value.1)

-- `attribute_container`, by the ids and the values of its attributes.
abbrev pub Attributes : Type 0 → Type 0
Attributes B = List (ℕ × B)

module _ {B : Type 0} where
  unfoldable pub has_attribute : ℕ → Attributes B → Bool
  has_attribute id [] = false
  has_attribute id (a ∷ attrs) = id == a.0 || has_attribute id attrs

  -- `try_emplace`
  unfoldable pub try_emplace : ℕ → B → Attributes B → Attributes B
  try_emplace id value store = if has_attribute id store then store else store ++ (id, value) ∷ []

  module _ (dp : Dp) (registry : ℕ → Option (List ℕ → Parsed B)) where
    -- `attribute_type_registry::decode`
    pub decode_attribute : List ℕ → Parsed (ℕ × B)
    decode_attribute input = do
      key ← decode_id dp input
      elim (registry key.0) [
        | none ↦ err unknown_attribute_type_id
        | some parse ↦ parse key.1 >>= (λ value. ok ((key.0, value.0), value.1))
      ]

    pub add_attribute : Attributes B → List ℕ → Parsed (Attributes B)
    add_attribute store input = do
      attr ← decode_attribute input
      ok (try_emplace attr.0.0 attr.0.1 store, attr.1)

  unfoldable pub decode_attributes :
      {A : Type 0}
      → Dp
      → Ranges A (Attributes B)
      → Option (ℕ → Option (List ℕ → Parsed B))
      → List ℕ
      → Parsed (Attributes B)
  decode_attributes dp ranges none input = do rest ← ranges.expect_empty_map input; ok ([], rest)
  decode_attributes dp ranges (some registry) input =
      ranges.parse_map_finite (add_attribute dp registry) [] input
