-- ===== src/RecordContainer/Layout.antt =====
-- record_container.hpp and source/log.cpp: the bytes of a record that `vlog` emits, in the order
-- in which the decoder of records reads them.
use deeplog.Base.{
  Bool, List, Option, [], ap, arith, false, if◌then◌else◌, length, none, refl, some, true, u8, ℕ,
  ◌++◌, ◌+◌, ◌-◌, ◌<◌, ◌∙◌, ◌∷◌, ◌≡◌,
}
use deeplog.LogRecord.{
  ItemCodec, LogArgs, Context, has_owner_span, scope_parts, owner_parts, line_parts, filename_parts,
  loggable_parts, flag, scope_head, tail_parts, parts,
}
use deeplog.LogRecord.Emission.{part_bytes}
use deeplog.Codec.{code_array, onto, onto-append}
use deeplog.RecordContainer.{has_scope, has_span}

-- The text of a scope; a scope without data is read as the empty one.
unfoldable pub scope_text : Option (List ℕ) → List ℕ
scope_text none = []
scope_text (some name) = name

unfoldable pub is_some : {A : Type 0} → Option A → Bool
is_some none = false
is_some (some a) = true

-- The flags of the array of the scope and the owner.
pub flags : Option (List ℕ) → Bool → ℕ
flags none false = 0
flags (some name) false = 1
flags none true = 2
flags (some name) true = 3

pub flags-scope :
    (scope : Option (List ℕ)) (owned : Bool) → has_scope (flags scope owned) ≡ is_some scope
unfolding flags is_some
flags-scope none false = refl
flags-scope (some name) false = refl
flags-scope none true = refl
flags-scope (some name) true = refl

pub flags-span : (scope : Option (List ℕ)) (owned : Bool) → has_span (flags scope owned) ≡ owned
unfolding flags
flags-span none false = refl
flags-span (some name) false = refl
flags-span none true = refl
flags-span (some name) true = refl

pub flags-small : (scope : Option (List ℕ)) (owned : Bool) → flags scope owned < 4
unfolding flags
flags-small none false = omega arith
flags-small (some name) false = omega arith
flags-small none true = omega arith
flags-small (some name) true = omega arith

module _ {V : Type 0} (codec : ItemCodec V) where
  pub scope_head-flags :
      (ctx : Context)
      → scope_head codec ctx ≡ code_array + flags ctx.instrumentation_scope (has_owner_span ctx)
  unfolding scope_head flags flag
  scope_head-flags ctx = shown ctx.instrumentation_scope (has_owner_span ctx)
    where
      shown :
          (scope : Option (List ℕ)) (owned : Bool)
          → 0x80 + flag codec scope + (if owned then 2 else 0) ≡ code_array + flags scope owned
      shown none false = refl
      shown (some name) false = refl
      shown none true = refl
      shown (some name) true = refl

  -- What stands behind the scope and the owner, from its end to its start.
  unfoldable pub attribute_input : LogArgs V → List ℕ → List ℕ
  attribute_input args rest =
      codec.emit_map (flag codec args.line + flag codec args.filename)
      ++ onto (line_parts codec args.line ++ filename_parts codec args.filename) rest

  unfoldable pub argument_input : LogArgs V → List ℕ → List ℕ
  argument_input args rest =
      codec.emit_array (length args.message_parts)
      ++ onto (loggable_parts codec args.message_parts) (attribute_input args rest)

  unfoldable pub message_input : LogArgs V → List ℕ → List ℕ
  message_input args rest = codec.emit_u8string args.message ++ argument_input args rest

  unfoldable pub owner_input : ℕ → Context → LogArgs V → List ℕ → List ℕ
  owner_input t ctx args rest =
      onto (owner_parts codec ctx) (codec.store_timestamp t ++ message_input args rest)

  unfoldable pub scope_input : ℕ → Context → LogArgs V → List ℕ → List ℕ
  scope_input t ctx args rest =
      onto (scope_parts codec ctx.instrumentation_scope) (owner_input t ctx args rest)

  tail-onto :
      (t : ℕ) (args : LogArgs V) (rest : List ℕ)
      → onto (tail_parts codec t args) rest ≡ codec.store_timestamp t ++ message_input args rest
  unfolding tail_parts onto part_bytes message_input argument_input attribute_input
  tail-onto t args rest =
      ap
        (λ input.
          codec.store_timestamp t
          ++ (codec.emit_u8string args.message
              ++ (codec.emit_array (length args.message_parts) ++ input)))
        (onto-append (loggable_parts codec args.message_parts) _ rest)

  pub parts-onto :
      (t : ℕ) (ctx : Context) (args : LogArgs V) (rest : List ℕ)
      → onto (parts codec t ctx args) rest
        ≡ codec.emit_array 6
          ++ (u8 (args.sev - 1) ∷ scope_head codec ctx ∷ scope_input t ctx args rest)
  unfolding parts onto part_bytes scope_input owner_input
  parts-onto t ctx args rest =
      ap (λ input. codec.emit_array 6 ++ (u8 (args.sev - 1) ∷ scope_head codec ctx ∷ input))
        (onto-append (scope_parts codec ctx.instrumentation_scope) _ rest
          ∙ ap (onto (scope_parts codec ctx.instrumentation_scope)) (
              onto-append (owner_parts codec ctx) (tail_parts codec t args) rest
              ∙ ap (onto (owner_parts codec ctx)) (tail-onto t args rest)))
