-- ===== src/AttributeArgs/RoundTrip.antt =====
-- attributes.cpp, sinks/file_sink.cpp and attribute_transmorpher.cpp: the attributes that a map holds,
-- as the decoder of attribute containers gives them back; of the attributes with one id, the first
-- is kept.
use deeplog.Base.{
  Bool-cases, List, Option, Result, [], ap, arith, false, if◌then◌else◌, inl, inr, length, none, ok,
  refl, some, sym, true, ℕ, ◌++◌, ◌<◌, ◌==◌, ◌^◌, ◌∙◌, ◌∷◌, ◌≡◌,
}
use mathlib.Core.List.{append-nil, append_assoc}
use deeplog.Errc.{Errc}
use deeplog.LogRecord.{ItemCodec}
use deeplog.LogRecord.Emission.{all_bytes, part_bytes}
use deeplog.LogRecord.Size.{Sized}
use deeplog.Codec.{Dp, Parsed, Reads, onto, all_bytes-onto}
use deeplog.Transmorpher.{
  Ranges, Attributes, has_attribute, try_emplace, decode_attributes, add_attribute,
}
use deeplog.Transmorpher.Reading.{Emits, ReadsRanges}
use deeplog.AttributeArgs.{AttributeArg, encode_args, insert_attributes}
use deeplog.AttributeArgs.Insert.{Kept, collected, insert_attributes-fits, attributes-Folds}

module _ {B : Type 0} where
  -- The first value with an id.
  pub find_first : ℕ → List (ℕ × B) → Option B
  find_first id [] = none
  find_first id (entry ∷ entries) = if id == entry.0 then some entry.1 else find_first id entries

  find_first-skip :
      (id k : ℕ) (b : B) (store values : Attributes B)
      → (id == k) ≡ false
      → find_first id (store ++ (k, b) ∷ values) ≡ find_first id (store ++ values)
  unfolding find_first
  find_first-skip id k b [] values h = rw h refl
  find_first-skip id k b (entry ∷ store) values h =
      ap (λ found. if id == entry.0 then some entry.1 else found)
        (find_first-skip id k b store values h)

  find_first-known :
      (id k : ℕ) (b : B) (store values : Attributes B)
      → has_attribute k store ≡ true
      → find_first id (store ++ (k, b) ∷ values) ≡ find_first id (store ++ values)
  unfolding find_first has_attribute
  find_first-known id k b [] values h = absurd (ground arith)
  find_first-known id k b (entry ∷ store) values h = elim (Bool-cases (id == entry.0)) [
    | inl here ↦ rw here refl
    | inr there ↦ rw there (elim (Bool-cases (k == entry.0)) [
      | inl same ↦
          let other : (id == k) ≡ false = ground arith in find_first-skip id k b store values other
      | inr different ↦ find_first-known id k b store values (sym (rw different refl) ∙ h)
    ])
  ]

module _ {V B : Type 0} (codec : ItemCodec V) (registry : ℕ → Option (List ℕ → Parsed B)) where
  -- The container that is collected gives an id the value that came first with it.
  find_first-collected :
      (id : ℕ) (store values : Attributes B)
      → find_first id (collected codec registry store values) ≡ find_first id (store ++ values)
  unfolding collected try_emplace
  find_first-collected id store [] = ap (find_first id) (sym (append-nil store))
  find_first-collected id store ((k, b) ∷ values) = elim (Bool-cases (has_attribute k store)) [
    | inl known ↦
        rw known
          (find_first-collected id store values ∙ sym (find_first-known id k b store values known))
    | inr new ↦ rw new (
        find_first-collected id (store ++ (k, b) ∷ []) values
        ∙ ap (find_first id) (append_assoc store ((k, b) ∷ []) values))
  ]

  -- Attributes that a map is given are written to it whole, and the container that is read from its
  -- bytes has for each id the value that was given first with it, if there are less than 65536
  -- attributes with less than 2^64 bytes, all are registered with parsers that read their values, and
  -- the codec writes as many bytes as it says and reads what it writes.
  pub decode_attributes-inserted :
      {A : Type 0} (sized : Sized codec) (dp : Dp) (law : Reads dp) (emits : Emits codec dp)
      (ranges : Ranges A (Attributes B))
      → ReadsRanges codec ranges
      → (end_of_stream : Errc) (head_size : ℕ → ℕ) (attrs : List (AttributeArg V))
        (values : List (ℕ × B)) (rest : List ℕ)
      → length (codec.emit_map (length attrs)) ≡ head_size (length attrs)
      → Kept codec registry attrs values
      → length attrs < 2 ^ 16
      → length (all_bytes (encode_args codec attrs)) < 2 ^ 64
      → let inserted = insert_attributes codec end_of_stream head_size attrs in
        (inserted.0 ≡ ok tt)
        × ((store : Attributes B) × (decode_attributes dp ranges
                (some registry)
                (inserted.1 ++ rest)
              ≡ ok (store, rest))
            × ((id : ℕ) → find_first id store ≡ find_first id values))
  unfolding encode_args onto part_bytes decode_attributes
  decode_attributes-inserted sized dp law emits ranges reads end_of_stream head_size attrs values
        rest head kept few small =
      let whole =
        insert_attributes-fits codec registry sized end_of_stream head_size attrs values head kept
          small in
      let container =
        ap
          (λ (r : Result Errc (Unit {0}) × List ℕ).
            decode_attributes dp ranges (some registry) (r.1 ++ rest))
          whole
        ∙ ap (decode_attributes dp ranges (some registry))
            (all_bytes-onto (encode_args codec attrs) rest)
        ∙ reads.map_finite (add_attribute dp registry) [] _ _ _ rest (omega (arith, few))
            (attributes-Folds codec registry dp law emits [] attrs values rest kept) in
      (
        ap (λ (r : Result Errc (Unit {0}) × List ℕ). r.0) whole,
        (collected codec registry [] values, container, λ id. find_first-collected id [] values),
      )
