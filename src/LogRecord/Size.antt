-- ===== src/LogRecord/Size.antt =====
-- source/log.cpp: the size that is computed for a record against the bytes that are emitted.
use deeplog.Base.{
  map, Bool-cases, List, Option, [], arith, false, if◌then◌else◌, inl, inr, length, none, ok, refl,
  some, u32, ℕ, ◌++◌, ◌+◌, ◌<◌, ◌==◌, ◌^◌, ◌∙◌, ◌∷◌, ◌≡◌,
}
use deeplog.StrongTypes.{TraceId}
use deeplog.LogRecord.{
  Loggable, null, value, thunk, ItemCodec, Context, line_id, file_id, add_sizes, has_owner_span,
  item_size_of_any_loggable, encode_any_loggable, scope_size, line_size, filename_size, scope_parts,
  owner_parts, line_parts, filename_parts, loggable_parts, parts,
}
use deeplog.LogRecord.Emission.{
  part_bytes, Succeeds, AllSucceed, weight, weight-append, AllSucceed-append,
}

-- The codec writes as many bytes as it says.
pub record Sized {V : Type 0} (codec : ItemCodec V) : Type 0 where
  pub u8string :
      (text : List ℕ)
      → length (codec.emit_u8string text) ≡ codec.item_size_of_u8string (length text)
  pub u8string_head : (n : ℕ) → 0 < codec.item_size_of_u8string n
  pub empty_u8string : codec.item_size_of_u8string 0 ≡ 1
  pub array : (n : ℕ) → length (codec.emit_array n) ≡ codec.item_head_size_of_array n
  pub pair : codec.item_head_size_of_array 2 ≡ 1
  pub map : (n : ℕ) → n < 24 → length (codec.emit_map n) ≡ 1
  pub integer : (n : ℕ) → length (codec.emit_integer n) ≡ codec.item_size_of_integer n
  pub small_integer : (n : ℕ) → n < 24 → codec.item_size_of_integer n ≡ 1
  pub integer_head : (n : ℕ) → 0 < codec.item_size_of_integer n
  pub value :
      (v : V) (bytes : List ℕ) → codec.encode v ≡ ok bytes → length bytes ≡ codec.encoded_size_of v
  pub trace_id : (id : TraceId) → length (codec.encode_trace_id id) ≡ 17
  pub span_id : (id : ℕ) → length (codec.encode_span_id id) ≡ 9
  pub timestamp : (t : ℕ) → length (codec.store_timestamp t) ≡ 9

unfoldable pub sum : List ℕ → ℕ
sum [] = 0
sum (n ∷ ns) = n + sum ns

pub sum-append : (xs ys : List ℕ) → sum (xs ++ ys) ≡ sum xs + sum ys
unfolding sum
sum-append [] ys = omega arith
sum-append (x ∷ xs) ys = omega (arith, sum-append xs ys)

pub add_sizes-sum : (n : ℕ) (ns : List ℕ) → n + sum ns < 2 ^ 32 → add_sizes n ns ≡ n + sum ns
unfolding sum add_sizes
add_sizes-sum n [] h = omega arith
add_sizes-sum n (m ∷ ns) h =
    let moved : u32 (n + u32 m) ≡ n + m = omega arith in
    rw moved (add_sizes-sum (n + m) ns (omega arith) ∙ omega arith)

-- An argument that can be encoded, with as many bytes as it says.
unfoldable pub Encodes : {V : Type 0} → ItemCodec V → Loggable V → Type 0
Encodes codec null = Unit {0}
Encodes codec (value id v) = (bytes : List ℕ) × (codec.encode v ≡ ok bytes)
Encodes codec (thunk size answer) = (bytes : List ℕ) × (answer ≡ ok bytes) × (length bytes ≡ size)

unfoldable pub AllEncode : {V : Type 0} → ItemCodec V → List (Loggable V) → Type 0
AllEncode codec [] = Unit {0}
AllEncode codec (part ∷ parts) = Encodes codec part × AllEncode codec parts

module _ {V : Type 0} (codec : ItemCodec V) (law : Sized codec) where
  loggable-size :
      (part : Loggable V)
      → Encodes codec part
      → AllSucceed (encode_any_loggable codec part)
        × (weight (encode_any_loggable codec part) ≡ item_size_of_any_loggable codec part)
  unfolding encode_any_loggable item_size_of_any_loggable AllSucceed Succeeds weight part_bytes
      Encodes
  loggable-size null h = (tt, refl)
  loggable-size (value id v) (bytes, encoded) = (
    rw encoded (tt, (tt, (tt, tt))),
    rw encoded (omega (arith, law.array 2, law.pair, law.integer id, law.value v bytes encoded)),
  )
  loggable-size (thunk size answer) (bytes, encoded, sized) =
      (rw encoded (tt, tt), rw encoded (omega (arith, sized)))

  pub loggables-size :
      (args : List (Loggable V))
      → AllEncode codec args
      → AllSucceed (loggable_parts codec args)
        × (weight (loggable_parts codec args) ≡ sum (map (item_size_of_any_loggable codec) args))
  unfolding loggable_parts AllSucceed weight sum AllEncode
  loggables-size [] h = (tt, refl)
  loggables-size (arg ∷ args) h =
      let one = loggable-size arg h.0 in
      let rest = loggables-size args h.1 in
      (
        AllSucceed-append (encode_any_loggable codec arg) (loggable_parts codec args) one.0 rest.0,
        omega (
          arith,
          weight-append (encode_any_loggable codec arg) (loggable_parts codec args),
          one.1,
          rest.1,
        ),
      )

  -- A scope that is null or not empty.
  unfoldable pub Named : Option (List ℕ) → Type 0
  Named none = Unit {0}
  Named (some name) = 0 < length name

  pub scope-size :
      (scope : Option (List ℕ))
      → Named scope
      → AllSucceed (scope_parts codec scope)
        × (weight (scope_parts codec scope) ≡ scope_size codec scope)
  unfolding Named scope_parts scope_size AllSucceed Succeeds weight part_bytes
  scope-size none h = (tt, refl)
  scope-size (some name) h =
      let named : (length name == 0) ≡ false = ground arith in
      ((tt, tt), rw named (omega (arith, law.u8string name)))

  pub owner-size :
      (ctx : Context)
      → AllSucceed (owner_parts codec ctx)
        × (weight (owner_parts codec ctx) ≡ (if has_owner_span ctx then 17 + 9 else 0))
  unfolding owner_parts AllSucceed Succeeds weight part_bytes
  owner-size ctx = elim (Bool-cases (has_owner_span ctx)) [
    | inl owned ↦ (
      rw owned (tt, (tt, tt)),
      rw owned (omega (arith, law.trace_id ctx.span.trace_id, law.span_id ctx.span.span_id)),
    )
    | inr free ↦ (rw free tt, rw free refl)
  ]

  pub line-size :
      (line : Option ℕ)
      → AllSucceed (line_parts codec line)
        × (weight (line_parts codec line) ≡ sum (line_size codec line))
  unfolding line_parts line_size AllSucceed Succeeds weight part_bytes sum
  line-size none = (tt, refl)
  line-size (some line) = (
    (tt, (tt, tt)),
    omega (arith, law.integer line_id, law.small_integer line_id (omega arith), law.integer line),
  )

  pub filename-size :
      (filename : Option (List ℕ))
      → AllSucceed (filename_parts codec filename)
        × (weight (filename_parts codec filename) ≡ sum (filename_size codec filename))
  unfolding filename_parts filename_size AllSucceed Succeeds weight part_bytes sum
  filename-size none = (tt, refl)
  filename-size (some filename) = (
    (tt, (tt, tt)),
    omega (
      arith,
      law.integer file_id,
      law.small_integer file_id (omega arith),
      law.u8string filename,
    ),
  )
