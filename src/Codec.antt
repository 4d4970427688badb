-- ===== src/Codec.antt =====
-- The items of the dp library that the codecs of core/strong_types.cpp, source/log.cpp and
-- record_container.hpp read and write. The library is a parameter, with the documented behaviour of
-- CBOR items as laws; a parser takes the input that is left and returns what it leaves.
pub mod Ids
pub mod Status
pub mod Tests
use deeplog.Base.{
  Bool, List, Result, [], ap, false, length, ok, refl, ℕ, ◌++◌, ◌+◌, ◌<◌, ◌>>=◌, ◌∙◌, ◌∷◌, ◌≡◌, ◌≤◌,
}
use deeplog.Errc.{Errc}
use deeplog.LogRecord.{Part, ignored, stored, tried}
use deeplog.LogRecord.Emission.{part_bytes, all_bytes}
use mathlib.Core.List.{append_assoc}

abbrev pub Parsed {ℓ} : Type ℓ → Type ℓ
Parsed A = Result Errc (A × List ℕ)

-- `dp::type_code`, the upper bits of an item's first byte.
abbrev pub code_array : ℕ
code_array = 0x80

abbrev pub code_binary : ℕ
code_binary = 0x40

abbrev pub code_null : ℕ
code_null = 0xf6

-- `dp::item_head`
pub record Head : Type 0 where
  pub type_code : ℕ
  pub value : ℕ
  pub indefinite : Bool
  pub encoded_length : ℕ

-- The emitters, by their bytes, and the parsers.
pub record Dp : Type 0 where
  pub emit_integer : ℕ → List ℕ
  pub emit_binary : List ℕ → List ℕ
  pub emit_u8string : List ℕ → List ℕ
  pub emit_array : ℕ → List ℕ
  pub emit_null : List ℕ
  pub parse_integer : ℕ → List ℕ → Parsed ℕ
  pub parse_text : List ℕ → Parsed (List ℕ)
  pub parse_text_finite : List ℕ → Parsed (List ℕ)
  pub parse_item_head : List ℕ → Parsed Head
  pub expect_item_head : ℕ → ℕ → List ℕ → Result Errc (List ℕ)
  pub bulk_read : ℕ → List ℕ → Parsed (List ℕ)
  pub skip_item : List ℕ → Result Errc (List ℕ)
  pub end_of_stream : Errc
  pub item_value_out_of_range : Errc
  pub item_type_mismatch : Errc
  pub tuple_size_mismatch : Errc
  pub oversized_additional_information_coding : Errc

-- The head of an array in its shortest form.
abbrev pub array_head : ℕ → Head
array_head n = record { type_code = code_array; value = n; indefinite = false; encoded_length = 1 }

-- The parsers read what the emitters write, and leave the input behind it.
pub record Reads (dp : Dp) : Type 0 where
  pub integer :
      (limit n : ℕ) (rest : List ℕ)
      → n ≤ limit
      → dp.parse_integer limit (dp.emit_integer n ++ rest) ≡ ok (n, rest)
  pub small_integer : (n : ℕ) → n < 24 → dp.emit_integer n ≡ n ∷ []
  pub text :
      (bytes rest : List ℕ) → dp.parse_text (dp.emit_u8string bytes ++ rest) ≡ ok (bytes, rest)
  pub text_finite :
      (bytes rest : List ℕ)
      → dp.parse_text_finite (dp.emit_u8string bytes ++ rest) ≡ ok (bytes, rest)
  pub binary :
      (bytes rest : List ℕ)
      → dp.expect_item_head code_binary (length bytes) (dp.emit_binary bytes ++ rest)
        ≡ ok (bytes ++ rest)
  pub bulk : (bytes rest : List ℕ) → dp.bulk_read (length bytes) (bytes ++ rest) ≡ ok (bytes, rest)
  pub array :
      (n : ℕ) (rest : List ℕ)
      → n < 24
      → dp.expect_item_head code_array n (dp.emit_array n ++ rest) ≡ ok rest
  pub small_array : (n : ℕ) → n < 24 → dp.emit_array n ≡ (code_array + n) ∷ []
  pub head :
      (n : ℕ) (rest : List ℕ)
      → n < 24
      → dp.parse_item_head (dp.emit_array n ++ rest) ≡ ok (array_head n, rest)
  pub null_item : dp.emit_null ≡ code_null ∷ []

-- One step of a parser that succeeds.
pub step {ℓ κ} :
    {A : Type ℓ} {B : Type κ} (r : Result Errc A) (a : A) (f : A → Result Errc B)
    → r ≡ ok a
    → (r >>= f) ≡ f a
step r a f h = ap (λ x. x >>= f) h

-- The bytes of statements in front of others.
unfoldable pub onto : List Part → List ℕ → List ℕ
onto [] rest = rest
onto (part ∷ parts) rest = part_bytes part ++ onto parts rest

pub onto-append :
    (xs ys : List Part) (rest : List ℕ) → onto (xs ++ ys) rest ≡ onto xs (onto ys rest)
unfolding onto
onto-append [] ys rest = refl
onto-append (x ∷ xs) ys rest = ap (λ zs. part_bytes x ++ zs) (onto-append xs ys rest)

pub all_bytes-onto : (xs : List Part) (rest : List ℕ) → all_bytes xs ++ rest ≡ onto xs rest
unfolding onto all_bytes
all_bytes-onto [] rest = refl
all_bytes-onto (x ∷ xs) rest =
    append_assoc (part_bytes x) (all_bytes xs) rest
    ∙ ap (λ zs. part_bytes x ++ zs) (all_bytes-onto xs rest)
