-- ===== src/LogRecord/Emission.antt =====
-- source/log.cpp: what the statements of an emission leave in a buffer that is large enough, and in
-- one that is a byte too small.
use deeplog.Base.{
  List, [], ap, ap₂, arith, err, false, leb, length, length-append, ok, refl, sym, true, ℕ, ◌++◌,
  ◌+◌, ◌-◌, ◌<◌, ◌∙◌, ◌∷◌, ◌≡◌, ◌≤◌,
}
use mathlib.Core.List.{append-nil, append_assoc}
use deeplog.Errc.{Errc}
use deeplog.LogRecord.{Out, Part, ignored, stored, tried, put, emit_part, after, emit_parts}

-- The bytes of a statement whose encoder succeeds.
unfoldable pub part_bytes : Part → List ℕ
part_bytes (ignored bytes) = bytes
part_bytes (stored bytes) = bytes
part_bytes (tried (ok bytes)) = bytes
part_bytes (tried (err e)) = []

unfoldable pub Succeeds : Part → Type 0
Succeeds (ignored bytes) = Unit {0}
Succeeds (stored bytes) = Unit {0}
Succeeds (tried (ok bytes)) = Unit {0}
Succeeds (tried (err e)) = ⊥

unfoldable pub AllSucceed : List Part → Type 0
AllSucceed [] = Unit {0}
AllSucceed (part ∷ parts) = Succeeds part × AllSucceed parts

unfoldable pub all_bytes : List Part → List ℕ
all_bytes [] = []
all_bytes (part ∷ parts) = part_bytes part ++ all_bytes parts

-- How many bytes the statements write.
unfoldable pub weight : List Part → ℕ
weight [] = 0
weight (part ∷ parts) = length (part_bytes part) + weight parts

pub weight-append : (xs ys : List Part) → weight (xs ++ ys) ≡ weight xs + weight ys
unfolding weight
weight-append [] ys = omega arith
weight-append (x ∷ xs) ys = omega (arith, weight-append xs ys)

pub length-all_bytes : (parts : List Part) → length (all_bytes parts) ≡ weight parts
unfolding weight all_bytes
length-all_bytes [] = refl
length-all_bytes (part ∷ parts) =
    omega (arith, length-append (part_bytes part) (all_bytes parts), length-all_bytes parts)

pub AllSucceed-append : (xs ys : List Part) → AllSucceed xs → AllSucceed ys → AllSucceed (xs ++ ys)
unfolding AllSucceed
AllSucceed-append [] ys h k = k
AllSucceed-append (x ∷ xs) ys h k = (h.0, AllSucceed-append xs ys h.1 k)

-- The last statement is checked and not empty.
pub data EndsTried : List Part → Type 0 where
  last : (bytes : List ℕ) → 0 < length bytes → EndsTried (tried (ok bytes) ∷ [])
  before : (part : Part) (parts : List Part) → EndsTried parts → EndsTried (part ∷ parts)

pub EndsTried-append : (xs ys : List Part) → EndsTried ys → EndsTried (xs ++ ys)
EndsTried-append [] ys h = h
EndsTried-append (x ∷ xs) ys h = before x (xs ++ ys) (EndsTried-append xs ys h)

put-nil : (out : Out) → put [] out ≡ out
unfolding put
put-nil out =
    let same : out.room - 0 ≡ out.room = omega arith in
    ap₂ (λ (bytes : List ℕ) (room : ℕ). record out { bytes = bytes; room = room })
      (append-nil out.bytes) same

put-put : (xs ys : List ℕ) (out : Out) → put ys (put xs out) ≡ put (xs ++ ys) out
unfolding put
put-put xs ys out =
    let same : out.room - length xs - length ys ≡ out.room - length (xs ++ ys) =
      omega (arith, length-append xs ys) in
    ap₂ (λ (bytes : List ℕ) (room : ℕ). record out { bytes = bytes; room = room })
      (append_assoc out.bytes xs ys) same

module _ (eos : Errc) where
  part-fits :
      (part : Part) (out : Out)
      → Succeeds part
      → length (part_bytes part) ≤ out.room
      → emit_part eos part out ≡ (ok tt, put (part_bytes part) out)
  unfolding emit_part Succeeds part_bytes
  part-fits (ignored bytes) out s h =
      let fits : leb (length bytes) out.room ≡ true = ground arith in rw fits refl
  part-fits (stored bytes) out s h =
      let fits : leb (length bytes) out.room ≡ true = ground arith in rw fits refl
  part-fits (tried (ok bytes)) out s h =
      let fits : leb (length bytes) out.room ≡ true = ground arith in rw fits refl
  part-fits (tried (err e)) out s h = absurd s

  -- A buffer with room for all bytes gets all bytes.
  pub emit_parts-fit :
      (parts : List Part) (out : Out)
      → AllSucceed parts
      → length (all_bytes parts) ≤ out.room
      → emit_parts eos parts out ≡ (ok tt, put (all_bytes parts) out)
  unfolding emit_parts AllSucceed all_bytes after put
  emit_parts-fit [] out s h = ap (λ (o : Out). (ok tt, o)) (sym (put-nil out))
  emit_parts-fit (part ∷ parts) out s h =
      let longer = length-append (part_bytes part) (all_bytes parts) in
      rw (part-fits part out s.0 (omega (arith, longer))) (
        emit_parts-fit parts (put (part_bytes part) out) s.1 (omega (arith, longer))
        ∙ ap (λ (o : Out). (ok tt, o)) (put-put (part_bytes part) (all_bytes parts) out))

  EndsTried-some : (parts : List Part) → EndsTried parts → 0 < length (all_bytes parts)
  unfolding all_bytes part_bytes
  EndsTried-some _ (last bytes h) = omega (arith, h, length-append bytes [])
  EndsTried-some _ (before part parts h) =
      omega (arith, EndsTried-some parts h, length-append (part_bytes part) (all_bytes parts))

  -- A buffer that is one byte too small makes the last statement fail, if it is checked.
  pub emit_parts-short :
      (parts : List Part) (out : Out)
      → EndsTried parts
      → AllSucceed parts
      → length (all_bytes parts) ≡ out.room + 1
      → (emit_parts eos parts out).0 ≡ err eos
  unfolding emit_parts emit_part part_bytes AllSucceed all_bytes after put
  emit_parts-short _ out (last bytes some_bytes) s h =
      let full : leb (length bytes) out.room ≡ false = ground (arith, length-append bytes []) in
      rw full refl
  emit_parts-short _ out (before part parts ends) s h =
      let longer = length-append (part_bytes part) (all_bytes parts) in
      let more = EndsTried-some parts ends in
      rw (part-fits part out s.0 (omega (arith, longer, more)))
        (emit_parts-short parts (put (part_bytes part) out) ends s.1 (omega (arith, longer, more)))
