-- ===== src/LogRecord/Vlog.antt =====
-- source/log.cpp: the record as a whole against the size that `vlog` asks for.
use deeplog.Base.{
  Bool-cases, List, Option, Result, [], ap, arith, err, false, if◌then◌else◌, inl, inr, length, ltb,
  ok, refl, some, sym, ℕ, ◌+◌, ◌-◌, ◌<◌, ◌==◌, ◌^◌, ◌∙◌, ◌≡◌, ◌≤◌,
}
use mathlib.Core.Path.{subst}
use deeplog.Errc.{Errc}
use deeplog.StrongTypes.{severity_none}
use deeplog.LogRecord.{
  ItemCodec, LogArgs, Context, Out, put, emit_parts, scope_size, sizes, encoded_size, scope_parts,
  parts, vlog,
}
use deeplog.LogRecord.Emission.{
  part_bytes, Succeeds, AllSucceed, all_bytes, weight, length-all_bytes, emit_parts-fit,
  emit_parts-short,
}
use deeplog.LogRecord.Size.{Sized, sum, add_sizes-sum, AllEncode, Named, scope-size}
use deeplog.LogRecord.Parts.{parts-size, parts-EndsTried}

module _ {V : Type 0} (codec : ItemCodec V) (law : Sized codec) where
  -- The scope takes a byte that is not counted.
  EmptyScope : Option (List ℕ) → Type 0
  EmptyScope scope =
      AllSucceed (scope_parts codec scope)
      × (weight (scope_parts codec scope) ≡ 1)
      × (scope_size codec scope ≡ 0)

  empty-scope : EmptyScope (some [])
  unfolding EmptyScope scope_parts scope_size AllSucceed Succeeds weight part_bytes
  empty-scope = ((tt, tt), omega (arith, law.u8string [], law.empty_u8string), refl)

  -- What a call relies on: a severity that is logged, arguments that can be encoded, a size below
  -- 4 GiB and a buffer of this size or more.
  pub record Accepted (allocate : ℕ → Result Errc ℕ) (room : ℕ) (ctx : Context) (args : LogArgs V)
      : Type 0 where
    pub logged : 0 < args.sev
    pub in_range : args.sev ≤ 24
    pub encodes : AllEncode codec args.message_parts
    pub small : sum (sizes codec ctx args) < 2 ^ 32
    pub allocated : allocate (encoded_size codec ctx args) ≡ ok room
    pub enough : encoded_size codec ctx args ≤ room

  module _ (eos : Errc) (allocate : ℕ → Result Errc ℕ) (room timestamp : ℕ) (ctx : Context)
      (args : LogArgs V) (h : Accepted allocate room ctx args) where
    fresh : Out
    fresh = record { bytes = []; room = room; overrun = false }

    vlog-emits : vlog codec eos allocate timestamp ctx args ≡ (
        let result = emit_parts eos (parts codec timestamp ctx args) fresh in
        (result.0, some result.1))
    unfolding vlog fresh
    vlog-emits =
        let sent : (args.sev == severity_none) ≡ false = ground (arith, h.logged) in
        let valid : ltb 24 args.sev ≡ false = ground (arith, h.in_range) in
        rw (sent, valid, h.allocated) refl

    size : encoded_size codec ctx args ≡ sum (sizes codec ctx args)
    unfolding encoded_size
    size = add_sizes-sum 0 (sizes codec ctx args) (omega (arith, h.small)) ∙ omega arith

    -- The computed size is that of the emitted record, which is written whole to its buffer, if the
    -- scope has no data or is not empty, the buffer has this size or more, the severity is from 1 to 24,
    -- the arguments can be encoded, the size is below 4 GiB and the codec writes as many bytes as it
    -- says. What the buffer has beyond this size is left.
    pub vlog-fills :
        Named codec law ctx.instrumentation_scope
        → let bytes = all_bytes (parts codec timestamp ctx args) in
          let left = room - encoded_size codec ctx args in
          (vlog codec eos allocate timestamp ctx args
            ≡ (ok tt, some (record { bytes = bytes; room = left; overrun = false })))
          × (encoded_size codec ctx args ≡ length bytes)
    unfolding fresh put
    vlog-fills named =
        let scope = scope-size codec law ctx.instrumentation_scope named in
        let whole = parts-size codec law timestamp ctx args h.encodes scope.0 in
        let exact : encoded_size codec ctx args
            ≡ length (all_bytes (parts codec timestamp ctx args)) =
          omega
            (arith, size, whole.1, scope.1, length-all_bytes (parts codec timestamp ctx args)) in
        (
          vlog-emits
              ∙ ap (λ r. (r.0, some r.1))
                  (emit_parts-fit eos (parts codec timestamp ctx args) fresh whole.0
                    (omega (arith, exact, h.enough)))
              ∙ ap
                  (λ (n : ℕ). (
                    ok tt,
                    some (record {
                      bytes = all_bytes (parts codec timestamp ctx args);
                      room = room - n;
                      overrun = false;
                    }),
                  ))
                  (sym exact),
          exact,
        )

    -- A scope with data but without characters counts no bytes in the size, but takes one: the record
    -- is one byte longer than its size. In a buffer of the size, the last statement of the emission
    -- fails, and vlog with it; in a greater buffer, vlog succeeds. The other conditions are those of
    -- `vlog-fills`.
    pub vlog-empty_scope :
        ctx.instrumentation_scope ≡ some []
        → ((vlog codec eos allocate timestamp ctx args).0
            ≡ (if ltb (encoded_size codec ctx args) room then ok tt else err eos))
          × (length (all_bytes (parts codec timestamp ctx args)) ≡ encoded_size codec ctx args + 1)
    unfolding fresh EmptyScope
    vlog-empty_scope empty =
        let scope = subst EmptyScope (sym empty) empty-scope in
        let whole = parts-size codec law timestamp ctx args h.encodes scope.0 in
        let all = parts codec timestamp ctx args in
        let longer : length (all_bytes all) ≡ encoded_size codec ctx args + 1 =
          omega (arith, size, whole.1, scope.1, scope.2, length-all_bytes all) in
        (
          elim (Bool-cases (ltb (encoded_size codec ctx args) room)) [
            | inl more ↦ rw more (
                let fits : length (all_bytes all) ≤ room = ground (arith, longer, more) in
                ap (λ r. r.0) vlog-emits
                ∙ ap (λ r. r.0) (emit_parts-fit eos all fresh whole.0 fits))
            | inr just ↦ rw just (
                let full : length (all_bytes all) ≡ room + 1 =
                  ground (arith, longer, just, h.enough) in
                ap (λ r. r.0) vlog-emits
                ∙ emit_parts-short eos all fresh (parts-EndsTried codec law timestamp ctx args)
                    whole.0 full)
          ],
          longer,
        )
