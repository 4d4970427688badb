-- ===== src/LogRecord.antt =====
-- libs/deeplog/src/dplx/dlog/source/log.cpp: `vlog`, which computes the size of a record, allocates a
-- buffer of this size and emits the record to it. The calls of the dp library are `ItemCodec`; values
-- of arguments are of any type `V`.
pub mod Emission
pub mod Size
pub mod Parts
pub mod Vlog
mod Tests
use deeplog.Base.{
  Bool, List, Option, Result, [], err, false, if◌then◌else◌, leb, length, ltb, map, none, not, ok,
  some, true, u32, u8, ℕ, ◌++◌, ◌+◌, ◌-◌, ◌==◌, ◌∷◌,
}
use deeplog.Errc.{Errc, invalid_argument}
use deeplog.StrongTypes.{SpanContext, TraceId, severity_none}

-- `any_loggable_ref_storage` with its id: nothing, a value of a known type, or a thunk with the two
-- answers of its function.
pub data Loggable (V : Type 0) : Type 0 where
  null : Loggable V
  value : ℕ → V → Loggable V
  thunk : ℕ → Result Errc (List ℕ) → Loggable V

-- The sizes of items and their bytes.
pub record ItemCodec (V : Type 0) : Type 0 where
  pub item_size_of_u8string : ℕ → ℕ
  pub emit_u8string : List ℕ → List ℕ
  pub item_head_size_of_array : ℕ → ℕ
  pub emit_array : ℕ → List ℕ
  pub emit_map : ℕ → List ℕ
  pub item_size_of_integer : ℕ → ℕ
  pub emit_integer : ℕ → List ℕ
  pub encoded_size_of : V → ℕ
  pub encode : V → Result Errc (List ℕ)
  pub encode_trace_id : TraceId → List ℕ
  pub encode_span_id : ℕ → List ℕ
  pub store_timestamp : ℕ → List ℕ

-- `log_args`; `line` and `filename` are those of a location that has them.
pub record LogArgs (V : Type 0) : Type 0 where
  pub sev : ℕ
  pub message : List ℕ
  pub message_parts : List (Loggable V)
  pub line : Option ℕ
  pub filename : Option (List ℕ)

-- What `vlog` reads of the `log_context`; a scope without data is `none`.
pub record Context : Type 0 where
  pub instrumentation_scope : Option (List ℕ)
  pub span : SpanContext

-- The ids of the attributes.
abbrev pub line_id : ℕ
line_id = 3

abbrev pub file_id : ℕ
file_id = 2

-- The buffer on the bus: what is written, and the room that is left. `overrun` says that a byte was
-- stored behind the end.
pub record Out : Type 0 where
  pub bytes : List ℕ
  pub room : ℕ
  pub overrun : Bool

-- One statement of the emission: an emit whose result is cast to `void`, bytes that are stored
-- without a check, and an emit under `DPLX_TRY`.
pub data Part : Type 0 where
  ignored : List ℕ → Part
  stored : List ℕ → Part
  tried : Result Errc (List ℕ) → Part

unfoldable pub put : List ℕ → Out → Out
put bytes out = record out { bytes = out.bytes ++ bytes; room = out.room - length bytes }

-- The code of a full buffer is an argument.
pub emit_part : Errc → Part → Out → Result Errc (Unit {0}) × Out
emit_part end_of_stream (ignored bytes) out =
    (ok tt, if leb (length bytes) out.room then put bytes out else out)
emit_part end_of_stream (stored bytes) out =
    (ok tt, if leb (length bytes) out.room then put bytes out else record out { overrun = true })
emit_part end_of_stream (tried (err e)) out = (err e, out)
emit_part end_of_stream (tried (ok bytes)) out =
    if leb (length bytes) out.room then (ok tt, put bytes out) else (err end_of_stream, out)

pub after :
    Result Errc (Unit {0}) × Out
    → (Out → Result Errc (Unit {0}) × Out)
    → Result Errc (Unit {0}) × Out
after (ok _, out) next = next out
after (err e, out) next = (err e, out)

pub emit_parts : Errc → List Part → Out → Result Errc (Unit {0}) × Out
emit_parts end_of_stream [] out = (ok tt, out)
emit_parts end_of_stream (part ∷ parts) out =
    after (emit_part end_of_stream part out) (λ out. emit_parts end_of_stream parts out)

-- `encodedSize += static_cast<unsigned>(...)`, in the order of the code.
pub add_sizes : ℕ → List ℕ → ℕ
add_sizes encoded_size [] = encoded_size
add_sizes encoded_size (n ∷ sizes) = add_sizes (u32 (encoded_size + u32 n)) sizes

unfoldable pub has_owner_span : Context → Bool
has_owner_span ctx = not (ctx.span.span_id == 0)

module _ {V : Type 0} (codec : ItemCodec V) where
  pub item_size_of_any_loggable : Loggable V → ℕ
  item_size_of_any_loggable null = 0
  item_size_of_any_loggable (value id v) =
      1 + codec.item_size_of_integer id + codec.encoded_size_of v
  item_size_of_any_loggable (thunk size bytes) = size

  unfoldable pub encode_any_loggable : Loggable V → List Part
  encode_any_loggable null = []
  encode_any_loggable (value id v) =
      tried (ok (codec.emit_array 2))
      ∷ tried (ok (codec.emit_integer id))
      ∷ tried (codec.encode v)
      ∷ []
  encode_any_loggable (thunk size bytes) = tried bytes ∷ []

  pub scope_size : Option (List ℕ) → ℕ
  scope_size none = 0
  scope_size (some name) = if length name == 0 then 0 else codec.item_size_of_u8string (length name)

  pub line_size : Option ℕ → List ℕ
  line_size none = []
  line_size (some line) = (1 + codec.item_size_of_integer line) ∷ []

  pub filename_size : Option (List ℕ) → List ℕ
  filename_size none = []
  filename_size (some filename) = (1 + codec.item_size_of_u8string (length filename)) ∷ []

  -- The summands of the size.
  pub sizes : Context → LogArgs V → List ℕ
  sizes ctx args =
      (codec.item_head_size_of_array 6 + (1 + 9))
      ∷ 1
      ∷ scope_size ctx.instrumentation_scope
      ∷ (if has_owner_span ctx then 17 + 9 else 0)
      ∷ codec.item_size_of_u8string (length args.message)
      ∷ codec.item_head_size_of_array (length args.message_parts)
      ∷ (map item_size_of_any_loggable args.message_parts
          ++ (1 ∷ (line_size args.line ++ filename_size args.filename)))

  pub encoded_size : Context → LogArgs V → ℕ
  encoded_size ctx args = add_sizes 0 (sizes ctx args)

  unfoldable pub scope_parts : Option (List ℕ) → List Part
  scope_parts none = []
  scope_parts (some name) = ignored (codec.emit_u8string name) ∷ []

  unfoldable pub owner_parts : Context → List Part
  owner_parts ctx =
      if has_owner_span ctx
      then ignored (codec.encode_trace_id ctx.span.trace_id)
        ∷ ignored (codec.encode_span_id ctx.span.span_id)
        ∷ []
      else []

  unfoldable pub line_parts : Option ℕ → List Part
  line_parts none = []
  line_parts (some line) =
      tried (ok (codec.emit_integer line_id)) ∷ tried (ok (codec.emit_integer line)) ∷ []

  unfoldable pub filename_parts : Option (List ℕ) → List Part
  filename_parts none = []
  filename_parts (some filename) =
      tried (ok (codec.emit_integer file_id)) ∷ tried (ok (codec.emit_u8string filename)) ∷ []

  unfoldable pub loggable_parts : List (Loggable V) → List Part
  loggable_parts [] = []
  loggable_parts (part ∷ parts) = encode_any_loggable part ++ loggable_parts parts

  -- `static_cast<unsigned>` of a flag.
  unfoldable pub flag : {A : Type 0} → Option A → ℕ
  flag none = 0
  flag (some a) = 1

  -- The head of the array of the scope and the owner.
  unfoldable pub scope_head : Context → ℕ
  scope_head ctx = 0x80 + flag ctx.instrumentation_scope + (if has_owner_span ctx then 2 else 0)

  -- The statements of the emission behind the scope and the owner.
  unfoldable pub tail_parts : ℕ → LogArgs V → List Part
  tail_parts timestamp args =
      stored (codec.store_timestamp timestamp)
      ∷ ignored (codec.emit_u8string args.message)
      ∷ ignored (codec.emit_array (length args.message_parts))
      ∷ (loggable_parts args.message_parts
          ++ (tried (ok (codec.emit_map (flag args.line + flag args.filename)))
              ∷ (line_parts args.line ++ filename_parts args.filename)))

  -- The statements of the emission.
  unfoldable pub parts : ℕ → Context → LogArgs V → List Part
  parts timestamp ctx args =
      ignored (codec.emit_array 6)
      ∷ stored (u8 (args.sev - 1) ∷ scope_head ctx ∷ [])
      ∷ (scope_parts ctx.instrumentation_scope ++ (owner_parts ctx ++ tail_parts timestamp args))

  -- `vlog`, with the answer to the allocation of a buffer, which is the room that the bus gives, and
  -- the reading of the clock. The buffer is `none` where none is allocated.
  pub vlog :
      Errc → (ℕ → Result Errc ℕ) → ℕ → Context → LogArgs V → Result Errc (Unit {0}) × Option Out
  vlog end_of_stream allocate timestamp ctx args =
      if args.sev == severity_none
      then (ok tt, none)
      else if ltb 24 args.sev
      then (err invalid_argument, none)
      else emitted (allocate (encoded_size ctx args))
    where
      emitted : Result Errc ℕ → Result Errc (Unit {0}) × Option Out
      emitted (err e) = (err e, none)
      emitted (ok room) =
          let result =
            emit_parts end_of_stream (parts timestamp ctx args)
              (record { bytes = []; room = room; overrun = false }) in
          (result.0, some result.1)
