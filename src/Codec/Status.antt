-- ===== src/Codec/Status.antt =====
-- libs/deeplog/src/dplx/dlog/source/log.cpp: the codecs of status codes. A code is seen through the
-- answers of its domain; a reified code keeps them.
use deeplog.Base.{List, [], arith, ok, ℕ, ◌++◌, ◌-◌, ◌<◌, ◌>>=◌, ◌^◌, ◌∙◌, ◌∷◌, ◌≡◌}
use deeplog.LogRecord.{Part, tried}
use deeplog.LogRecord.Emission.{part_bytes}
use deeplog.Codec.{Dp, Parsed, Reads, code_array, step, onto}

-- `reified_status_code`
pub record StatusCode : Type 0 where
  pub domain_id : ℕ
  pub domain_name : List ℕ
  pub message : List ℕ

-- `reified_system_code`, whose raw value is modelled as a natural number.
pub record SystemCode : Type 0 where
  pub domain_id : ℕ
  pub raw_value : ℕ
  pub domain_name : List ℕ
  pub message : List ℕ

module _ (dp : Dp) where
  pub encode_status_code : StatusCode → List Part
  encode_status_code code =
      tried (ok (dp.emit_array 3))
      ∷ tried (ok (dp.emit_integer code.domain_id))
      ∷ tried (ok (dp.emit_u8string code.domain_name))
      ∷ tried (ok (dp.emit_u8string code.message))
      ∷ []

  pub decode_status_code : List ℕ → Parsed StatusCode
  decode_status_code input = do
    rest ← dp.expect_item_head code_array 3 input
    domain ← dp.parse_integer (2 ^ 64 - 1) rest
    name ← dp.parse_text domain.1
    message ← dp.parse_text name.1
    ok (record { domain_id = domain.0; domain_name = name.0; message = message.0 }, message.1)

  pub encode_system_code : SystemCode → List Part
  encode_system_code code =
      tried (ok (dp.emit_array 4))
      ∷ tried (ok (dp.emit_integer code.domain_id))
      ∷ tried (ok (dp.emit_integer code.raw_value))
      ∷ tried (ok (dp.emit_u8string code.domain_name))
      ∷ tried (ok (dp.emit_u8string code.message))
      ∷ []

  pub decode_system_code : List ℕ → Parsed SystemCode
  decode_system_code input = do
    rest ← dp.expect_item_head code_array 4 input
    domain ← dp.parse_integer (2 ^ 64 - 1) rest
    raw ← dp.parse_integer (2 ^ 64 - 1) domain.1
    name ← dp.parse_text raw.1
    message ← dp.parse_text name.1
    ok (
      record { domain_id = domain.0; raw_value = raw.0; domain_name = name.0; message = message.0 },
      message.1,
    )

module _ (dp : Dp) (law : Reads dp) where
  -- A status code is read back from what its codec emits.
  pub status_code-reads :
      (code : StatusCode) (rest : List ℕ)
      → code.domain_id < 2 ^ 64
      → decode_status_code dp (onto (encode_status_code dp code) rest) ≡ ok (code, rest)
  unfolding decode_status_code encode_status_code onto part_bytes
  status_code-reads code rest h =
      let i3 = dp.emit_u8string code.message ++ rest in
      let i2 = dp.emit_u8string code.domain_name ++ i3 in
      let i1 = dp.emit_integer code.domain_id ++ i2 in
      step _ i1 _ (law.array 3 i1 (omega arith))
      ∙ step _ (code.domain_id, i2) _ (law.integer _ code.domain_id i2 (omega (arith, h)))
      ∙ step _ (code.domain_name, i3) _ (law.text code.domain_name i3)
      ∙ step _ (code.message, rest) _ (law.text code.message rest)

  pub system_code-reads :
      (code : SystemCode) (rest : List ℕ)
      → code.domain_id < 2 ^ 64
      → code.raw_value < 2 ^ 64
      → decode_system_code dp (onto (encode_system_code dp code) rest) ≡ ok (code, rest)
  unfolding decode_system_code encode_system_code onto part_bytes
  system_code-reads code rest h k =
      let i4 = dp.emit_u8string code.message ++ rest in
      let i3 = dp.emit_u8string code.domain_name ++ i4 in
      let i2 = dp.emit_integer code.raw_value ++ i3 in
      let i1 = dp.emit_integer code.domain_id ++ i2 in
      step _ i1 _ (law.array 4 i1 (omega arith))
      ∙ step _ (code.domain_id, i2) _ (law.integer _ code.domain_id i2 (omega (arith, h)))
      ∙ step _ (code.raw_value, i3) _ (law.integer _ code.raw_value i3 (omega (arith, k)))
      ∙ step _ (code.domain_name, i4) _ (law.text code.domain_name i4)
      ∙ step _ (code.message, rest) _ (law.text code.message rest)
