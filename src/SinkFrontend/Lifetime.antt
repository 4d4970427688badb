-- ===== src/SinkFrontend/Lifetime.antt =====
-- sinks/sink_frontend.hpp: what reaches the backend of a sink that has failed or is finalized.
use deeplog.Base.{
  Bool, Bool-cases, List, Result, [], ap, arith, err, false, inl, inr, leb, ok, refl, some, sym,
  true, ℕ, ◌&&◌, ◌∙◌, ◌∷◌, ◌≡◌,
}
use deeplog.Errc.{Errc}
use deeplog.StrongTypes.{disable_threshold}
use deeplog.SerializedMessages.{MessageInfo, unknown, record_info, span_start, span_end, malformed}
use deeplog.SinkFrontend.{
  and_then, copy_message, concate_messages, Backend, SinkFrontend, failure, is_active,
  clear_last_status, settle, try_consume, try_sync, disable, try_finalize,
}

-- A call of a sink.
pub data Call : Type 0 where
  consume : ℕ → List MessageInfo → Call
  sync : Call
  finalize : Call
  clear : Call

-- The calls that a sink receives, one after the other.
pub run : {S : Type 0} → Backend S → List Call → SinkFrontend S → SinkFrontend S
run b [] f = f
run b (consume binary_size messages ∷ calls) f =
    run b calls (try_consume b binary_size messages f).1
run b (sync ∷ calls) f = run b calls (try_sync b f).1
run b (finalize ∷ calls) f = run b calls (try_finalize b f).1
run b (clear ∷ calls) f = run b calls (clear_last_status f)

-- `false` for a call that clears the status.
abbrev pub keeps_status : Call → Bool
keeps_status (consume binary_size messages) = true
keeps_status sync = true
keeps_status finalize = true
keeps_status clear = false

abbrev pub all_keep_status : List Call → Bool
all_keep_status [] = true
all_keep_status (call ∷ calls) = keeps_status call && all_keep_status calls

-- An error is a failure.
unfoldable pub Reported : {S : Type 0} → Result Errc (Unit {0}) × S → Type 0
Reported (ok _, s) = Unit {0}
Reported (err e, s) = failure (some e) ≡ true

-- A backend that fails reports a status code that is a failure.
pub record ReportsFailures {S : Type 0} (b : Backend S) : Type 0 where
  pub bulk_write : (bytes : List ℕ) (s : S) → Reported (b.bulk_write bytes s)
  pub sync_output : (s : S) → Reported (b.sync_output s)
  pub finalize : (s : S) → Reported (b.finalize s)

module _ {S : Type 0} (b : Backend S) where
  pub consume-inactive :
      (binary_size : ℕ) (messages : List MessageInfo) (f : SinkFrontend S)
      → is_active f ≡ false
      → try_consume b binary_size messages f ≡ (false, f)
  unfolding try_consume
  consume-inactive binary_size messages f h = rw h refl

  sync-inactive : (f : SinkFrontend S) → is_active f ≡ false → try_sync b f ≡ (false, f)
  unfolding try_sync
  sync-inactive f h = rw h refl

  finalize-inactive : (f : SinkFrontend S) → is_active f ≡ false → try_finalize b f ≡ (false, f)
  unfolding try_finalize
  finalize-inactive f h = rw h refl

  -- A sink that is not active does not change, and its backend is not called, by any calls that
  -- leave its status alone.
  run-inactive :
      (calls : List Call) (f : SinkFrontend S)
      → is_active f ≡ false
      → all_keep_status calls ≡ true
      → run b calls f ≡ f
  unfolding run
  run-inactive [] f h k = refl
  run-inactive (consume binary_size messages ∷ calls) f h k =
      rw (consume-inactive binary_size messages f h) (run-inactive calls f h k)
  run-inactive (sync ∷ calls) f h k = rw (sync-inactive f h) (run-inactive calls f h k)
  run-inactive (finalize ∷ calls) f h k = rw (finalize-inactive f h) (run-inactive calls f h k)
  run-inactive (clear ∷ calls) f h k = cc

  disabled-inactive : (f : SinkFrontend S) → f.threshold ≡ disable_threshold → is_active f ≡ false
  unfolding is_active
  disabled-inactive f h = rw h refl

  disabled-run :
      (calls : List Call) (f : SinkFrontend S)
      → f.threshold ≡ disable_threshold
      → ((run b calls f).backend ≡ f.backend) × ((run b calls f).threshold ≡ disable_threshold)
  unfolding run clear_last_status
  disabled-run [] f h = (refl, h)
  disabled-run (consume binary_size messages ∷ calls) f h =
      rw (run, consume-inactive binary_size messages f (disabled-inactive f h))
        (disabled-run calls f h)
  disabled-run (sync ∷ calls) f h =
      rw (run, sync-inactive f (disabled-inactive f h)) (disabled-run calls f h)
  disabled-run (finalize ∷ calls) f h =
      rw (run, finalize-inactive f (disabled-inactive f h)) (disabled-run calls f h)
  disabled-run (clear ∷ calls) f h = disabled-run calls (clear_last_status f) h

  disable-threshold :
      (r : Bool × SinkFrontend S) (f' : SinkFrontend S)
      → disable r ≡ (true, f')
      → f'.threshold ≡ disable_threshold
  unfolding disable
  disable-threshold (true, f) f' h = ap (λ (r : Bool × SinkFrontend S). r.1.threshold) (sym h)
  disable-threshold (false, f) f' h = cc

  finalized-threshold :
      (f f' : SinkFrontend S) → try_finalize b f ≡ (true, f') → f'.threshold ≡ disable_threshold
  unfolding try_finalize
  finalized-threshold f f' h = elim (Bool-cases (is_active f)) [
    | inl active ↦ disable-threshold (settle f (b.finalize f.backend)) f' (rw active refl ∙ h)
    | inr inactive ↦ let stuck = sym (finalize-inactive f inactive) ∙ h in cc
  ]

  -- Once a sink is finalized, no calls reach its backend, not even after its status is cleared.
  pub run-finalized :
      (f f' : SinkFrontend S)
      → try_finalize b f ≡ (true, f')
      → (calls : List Call) → (run b calls f').backend ≡ f'.backend
  run-finalized f f' h calls = (disabled-run calls f' (finalized-threshold f f' h)).0

module _ {S : Type 0} (b : Backend S) (law : ReportsFailures b) where
  and_then-Reported :
      (written : Result Errc (Unit {0}) × S) (next : S → Result Errc (Unit {0}) × S)
      → Reported written
      → ((s : S) → Reported (next s))
      → Reported (and_then written next)
  unfolding and_then Reported
  and_then-Reported (ok _, s) next h k = k s
  and_then-Reported (err e, s) next h k = h

  copy_message-Reported :
      (threshold : ℕ) (message : MessageInfo) (s : S)
      → Reported (copy_message b threshold message s)
  unfolding copy_message Reported
  copy_message-Reported threshold (record_info bytes timestamp severity) s =
      elim (Bool-cases (leb threshold severity)) [
        | inl above ↦ rw above (law.bulk_write bytes s)
        | inr below ↦ rw below tt
      ]
  copy_message-Reported threshold (unknown bytes) s = law.bulk_write bytes s
  copy_message-Reported threshold (span_start bytes) s = law.bulk_write bytes s
  copy_message-Reported threshold (span_end bytes) s = law.bulk_write bytes s
  copy_message-Reported threshold (malformed bytes) s = law.bulk_write bytes s

  concate_messages-Reported :
      (messages : List MessageInfo) (threshold : ℕ) (s : S)
      → Reported (concate_messages b messages threshold s)
  unfolding concate_messages Reported
  concate_messages-Reported [] threshold s = tt
  concate_messages-Reported (message ∷ messages) threshold s =
      and_then-Reported (copy_message b threshold message s) _
        (copy_message-Reported threshold message s) (concate_messages-Reported messages threshold)

  settle-stops :
      (f : SinkFrontend S) (r : Result Errc (Unit {0}) × S)
      → Reported r
      → (settle f r).0 ≡ false
      → is_active (settle f r).1 ≡ false
  unfolding settle Reported is_active
  settle-stops f (ok _, s) h k = cc
  settle-stops f (err e, s) h k = rw h (ground arith)

  -- A sink that fails to consume a batch is not active afterwards.
  pub consume-stops :
      (binary_size : ℕ) (messages : List MessageInfo) (f : SinkFrontend S)
      → (try_consume b binary_size messages f).0 ≡ false
      → is_active (try_consume b binary_size messages f).1 ≡ false
  unfolding try_consume
  consume-stops binary_size messages f = elim (Bool-cases (is_active f)) [
    | inl active ↦
        rw active (settle-stops f _ (concate_messages-Reported messages f.threshold f.backend))
    | inr inactive ↦ rw inactive (λ h. inactive)
  ]

  -- A sink that fails to sync is not active afterwards.
  pub sync-stops :
      (f : SinkFrontend S) → (try_sync b f).0 ≡ false → is_active (try_sync b f).1 ≡ false
  unfolding try_sync
  sync-stops f = elim (Bool-cases (is_active f)) [
    | inl active ↦ rw active (settle-stops f _ (law.sync_output f.backend))
    | inr inactive ↦ rw inactive (λ h. inactive)
  ]
