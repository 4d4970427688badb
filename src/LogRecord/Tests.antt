-- ===== src/LogRecord/Tests.antt =====
-- `vlog` (source/log.cpp) with a codec whose heads and integers have one byte.
use deeplog.Base.{
  List, Option, Result, [], ap, arith, err, false, if◌then◌else◌, length, ltb, ok, ok-injective,
  refl, some, suc, sym, ℕ, ◌*◌, ◌++◌, ◌+◌, ◌-◌, ◌/◌, ◌<◌, ◌^◌, ◌∷◌, ◌≡◌, ◌≤◌,
}
use deeplog.Errc.{Errc}
use deeplog.LogRecord.{scope_size}
use deeplog.LogRecord.{has_owner_span}
use deeplog.LogRecord.{item_size_of_any_loggable}
use deeplog.LogRecord.{line_size}
use deeplog.LogRecord.{filename_size}
use deeplog.LogRecord.{scope_size}
use deeplog.LogRecord.{has_owner_span}
use deeplog.LogRecord.{item_size_of_any_loggable}
use deeplog.LogRecord.{line_size}
use deeplog.LogRecord.{filename_size}
use deeplog.Errc.{system}
use deeplog.LogRecord.{
  null, value, thunk, ItemCodec, LogArgs, Context, parts, sizes, encoded_size, vlog,
}
use deeplog.LogRecord.Emission.{all_bytes}
use deeplog.LogRecord.Size.{Sized, sum, Encodes, AllEncode, Named}
use deeplog.LogRecord.Vlog.{Accepted, vlog-fills, vlog-empty_scope}

abbrev eight : ℕ → List ℕ
eight n = n ∷ 0 ∷ 0 ∷ 0 ∷ 0 ∷ 0 ∷ 0 ∷ 0 ∷ []

abbrev codec : ItemCodec ℕ
codec = record {
  item_size_of_u8string = λ n. suc n;
  emit_u8string = λ text. (0x60 + length text) ∷ text;
  item_head_size_of_array = λ n. 1;
  emit_array = λ n. (0x80 + n) ∷ [];
  emit_map = λ n. (0xa0 + n) ∷ [];
  item_size_of_integer = λ n. 1;
  emit_integer = λ n. n ∷ [];
  encoded_size_of = λ v. 1;
  encode = λ v. ok (v ∷ []);
  encode_trace_id = λ id. 0x50 ∷ (eight id.p0 ++ eight id.p1);
  encode_span_id = λ id. 0x1b ∷ eight id;
  store_timestamp = λ t. 27 ∷ eight t;
}

codec-Sized : Sized codec
codec-Sized = record {
  u8string = λ text. refl;
  u8string_head = λ n. omega arith;
  empty_u8string = refl;
  array = λ n. refl;
  pair = refl;
  map = λ n h. refl;
  integer = λ n. refl;
  small_integer = λ n h. refl;
  integer_head = λ n. omega arith;
  value = λ v bytes h. sym (ap length (ok-injective h));
  trace_id = λ id. refl;
  span_id = λ id. refl;
  timestamp = λ t. refl;
}

abbrev args : LogArgs ℕ
args = record {
  sev = 9;
  message = 104 ∷ 105 ∷ [];
  message_parts = value 1 7 ∷ null ∷ thunk 2 (ok (8 ∷ 9 ∷ [])) ∷ [];
  line = some 42;
  filename = some (102 ∷ []);
}

abbrev context : Option (List ℕ) → Context
context scope = record {
  instrumentation_scope = scope;
  span = record { trace_id = record { p0 = 1; p1 = 2 }; span_id = 3 };
}

-- The bus of one process gives the size that was asked for, the shared one a multiple of 4.
abbrev exact : ℕ → Result Errc ℕ
exact n = ok n

abbrev rounded : ℕ → Result Errc ℕ
rounded n = ok ((n + 3) / 4 * 4)

accepted :
    (scope : Option (List ℕ)) (allocate : ℕ → Result Errc ℕ) (room : ℕ)
    → sum (sizes codec (context scope) args) < 2 ^ 32
    → allocate (encoded_size codec (context scope) args) ≡ ok room
    → encoded_size codec (context scope) args ≤ room
    → Accepted codec codec-Sized allocate room (context scope) args
unfolding AllEncode Encodes
accepted scope allocate room small given enough = record {
  logged = omega arith;
  in_range = omega arith;
  encodes = ((7 ∷ [], refl), (tt, ((8 ∷ 9 ∷ [], refl, refl), tt)));
  small = small;
  allocated = given;
  enough = enough;
}

vlog-fills_example :
    let ctx = context (some (97 ∷ [])) in
    let bytes = all_bytes (parts codec 5 ctx args) in
    let room = (encoded_size codec ctx args + 3) / 4 * 4 in
    (vlog codec (system 1) rounded 5 ctx args ≡ (
      ok tt,
      some (record { bytes = bytes; room = room - encoded_size codec ctx args; overrun = false }),
    ))
    × (encoded_size codec ctx args ≡ length bytes)
unfolding sizes sum Named scope_size has_owner_span item_size_of_any_loggable line_size
    filename_size
vlog-fills_example =
    vlog-fills codec codec-Sized (system 1) rounded _ 5 (context (some (97 ∷ []))) args
      (accepted (some (97 ∷ [])) rounded _ (omega arith) refl (omega arith)) (omega arith)

vlog-empty_scope_example :
    let ctx = context (some []) in
    let size = encoded_size codec ctx args in
    ((vlog codec (system 1) exact 5 ctx args).0 ≡ (if ltb size size then ok tt else err (system 1)))
    × (length (all_bytes (parts codec 5 ctx args)) ≡ size + 1)
unfolding sizes sum scope_size has_owner_span item_size_of_any_loggable line_size filename_size
vlog-empty_scope_example =
    vlog-empty_scope codec codec-Sized (system 1) exact _ 5 (context (some [])) args
      (accepted (some []) exact _ (omega arith) refl (omega arith)) refl
