-- ===== src/Transmorpher/Entries.antt =====
-- The attributes that `vlog` emits, as attribute_transmorpher.cpp reads them.
use deeplog.Base.{
  List, Option, [], ap, arith, false, none, ok, refl, some, ℕ, ◌++◌, ◌+◌, ◌<◌, ◌^◌, ◌∙◌, ◌∷◌, ◌≡◌,
}
use deeplog.LogRecord.{filename_parts, flag, line_parts, ItemCodec, line_id, file_id}
use deeplog.LogRecord.Emission.{part_bytes}
use deeplog.Codec.{Dp, Parsed, Reads, onto}
use deeplog.Codec.Ids.RoundTrip.{id-reads}
use deeplog.Transmorpher.{
  decode_attributes, Ranges, Attributes, has_attribute, try_emplace, decode_attribute,
  add_attribute,
}
use deeplog.Transmorpher.Reading.{Folds, all_added, added, Emits, ReadsRanges}

-- The number of a line has 64 bits.
unfoldable pub LineFits : Option ℕ → Type 0
LineFits none = Unit {0}
LineFits (some line) = line < 2 ^ 64

-- The two attributes of a record are registered; `as_line` and `as_file` are what they are read as.
pub record Registered {V B : Type 0} (codec : ItemCodec V)
    (registry : ℕ → Option (List ℕ → Parsed B)) : Type 0 where
  pub as_line : ℕ → B
  pub as_file : List ℕ → B
  pub parse_line : List ℕ → Parsed B
  pub parse_file : List ℕ → Parsed B
  pub line_known : registry line_id ≡ some parse_line
  pub file_known : registry file_id ≡ some parse_file
  pub line_read :
      (n : ℕ) (rest : List ℕ)
      → n < 2 ^ 64
      → parse_line (codec.emit_integer n ++ rest) ≡ ok (as_line n, rest)
  pub file_read :
      (bytes rest : List ℕ)
      → parse_file (codec.emit_u8string bytes ++ rest) ≡ ok (as_file bytes, rest)

module _ {B : Type 0} (dp : Dp) (law : Reads dp) (registry : ℕ → Option (List ℕ → Parsed B)) where
  pub add_attribute-reads :
      (id : ℕ) (b : B) (parse : List ℕ → Parsed B) (store : Attributes B) (input rest : List ℕ)
      → id < 2 ^ 64
      → registry id ≡ some parse
      → parse input ≡ ok (b, rest)
      → add_attribute dp registry store (dp.emit_integer id ++ input)
        ≡ ok (try_emplace id b store, rest)
  unfolding add_attribute decode_attribute
  add_attribute-reads id b parse store input rest h known read =
      rw (id-reads dp law id input h) (rw known (rw read refl))

  add_attribute-new :
      (id : ℕ) (b : B) (parse : List ℕ → Parsed B) (store : Attributes B) (input rest : List ℕ)
      → id < 2 ^ 64
      → registry id ≡ some parse
      → parse input ≡ ok (b, rest)
      → has_attribute id store ≡ false
      → add_attribute dp registry store (dp.emit_integer id ++ input)
        ≡ ok (store ++ (id, b) ∷ [], rest)
  unfolding try_emplace
  add_attribute-new id b parse store input rest h known read new =
      add_attribute-reads id b parse store input rest h known read ∙ rw new refl

  module _ {V : Type 0} (codec : ItemCodec V) (emits : Emits codec dp)
      (known : Registered codec registry) where
    pub line_attribute : Option ℕ → Attributes B
    line_attribute none = []
    line_attribute (some line) = (line_id, known.as_line line) ∷ []

    pub file_attribute : Option (List ℕ) → Attributes B
    file_attribute none = []
    file_attribute (some filename) = (file_id, known.as_file filename) ∷ []

    line_added :
        (line : ℕ) (rest : List ℕ)
        → line < 2 ^ 64
        → add_attribute dp registry []
            (codec.emit_integer line_id ++ (codec.emit_integer line ++ rest))
          ≡ ok (line_attribute (some line), rest)
    unfolding line_attribute has_attribute
    line_added line rest h =
        let input = codec.emit_integer line ++ rest in
        ap (λ head. add_attribute dp registry [] (head ++ input)) (emits.integer line_id)
        ∙ add_attribute-new line_id (known.as_line line) known.parse_line [] input rest
            (omega arith) known.line_known (known.line_read line rest h) refl

    file_added :
        (store : Attributes B) (filename rest : List ℕ)
        → has_attribute file_id store ≡ false
        → add_attribute dp registry store
            (codec.emit_integer file_id ++ (codec.emit_u8string filename ++ rest))
          ≡ ok (store ++ file_attribute (some filename), rest)
    unfolding file_attribute
    file_added store filename rest new =
        let input = codec.emit_u8string filename ++ rest in
        ap (λ head. add_attribute dp registry store (head ++ input)) (emits.integer file_id)
        ∙ add_attribute-new file_id (known.as_file filename) known.parse_file store input rest
            (omega arith) known.file_known (known.file_read filename rest) new

    pub attributes-Folds :
        (line : Option ℕ) (filename : Option (List ℕ)) (rest : List ℕ)
        → LineFits line
        → Folds
            (add_attribute dp registry)
            []
            (flag codec line + flag codec filename)
            (onto (line_parts codec line ++ filename_parts codec filename) rest)
            (line_attribute line ++ file_attribute filename)
            rest
    unfolding LineFits line_parts filename_parts flag onto part_bytes line_attribute file_attribute
        has_attribute
    attributes-Folds none none rest h = all_added [] rest
    attributes-Folds (some line) none rest h =
        added [] (line_attribute (some line)) _ 0 _ rest rest (line_added line rest h)
          (all_added _ rest)
    attributes-Folds none (some filename) rest h =
        added [] (file_attribute (some filename)) _ 0 _ rest rest (file_added [] filename rest refl)
          (all_added _ rest)
    attributes-Folds (some line) (some filename) rest h =
        let behind = onto (filename_parts codec (some filename)) rest in
        added [] (line_attribute (some line)) _ 1 _ behind rest (line_added line behind h) (
          added (line_attribute (some line)) _ _ 0 _ rest rest
            (file_added (line_attribute (some line)) filename rest refl) (all_added _ rest))

    pub attributes-read :
        {A : Type 0} (ranges : Ranges A (Attributes B))
        → ReadsRanges codec ranges
        → (line : Option ℕ) (filename : Option (List ℕ)) (rest : List ℕ) → LineFits line
        → decode_attributes dp ranges (some registry) (
            codec.emit_map (flag codec line + flag codec filename)
            ++ onto (line_parts codec line ++ filename_parts codec filename) rest)
          ≡ ok (line_attribute line ++ file_attribute filename, rest)
    unfolding decode_attributes flag
    attributes-read ranges reads line filename rest h =
        reads.map_finite (add_attribute dp registry) [] _ _ _ rest (few line filename)
          (attributes-Folds line filename rest h)
      where
        few :
            (line : Option ℕ) (filename : Option (List ℕ))
            → flag codec line + flag codec filename < 2 ^ 64
        few none none = omega arith
        few (some n) none = omega arith
        few none (some f) = omega arith
        few (some n) (some f) = omega arith
