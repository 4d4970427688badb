-- ===== src/SpanScope/Nested.antt =====
-- source/span_scope.{hpp,cpp}: scopes inside of scopes.
use deeplog.Base.{
  Bool, Bool-cases, List, Option, Result, ap, arith, err, false, if◌then◌else◌, inl, inr, none, not,
  ok, refl, some, sym, true, ℕ, ◌||◌, ◌≡◌,
}
use mathlib.Core.Path.{subst}
use deeplog.Errc.{Errc}
use deeplog.StrongTypes.{SpanContext, is_invalid}
use deeplog.SpanScope.{
  span_end, span_start, closed, LogContext, Port, SpanScope, no_span, empty_scope, enter,
  none_scope, opened, do_open, send_close_msg, destroy,
}

-- The blocks of a thread: each opens a scope, runs the blocks inside of it, leaves the scope and goes
-- on. A span has the current one as its parent, unless it names another.
pub data Block : Type 0 where
  done : Block
  span : List ℕ → Option SpanContext → ℕ → Block → Block → Block
  no_span_scope : Block → Block → Block

abbrev pub has_none : Block → Bool
has_none done = false
has_none (span name parent kind inner rest) = has_none inner || has_none rest
has_none (no_span_scope inner rest) = true

unfoldable pub parent_of : LogContext → Option SpanContext → SpanContext
parent_of ctx none = ctx.span
parent_of ctx (some parent) = parent

module _ {S : Type 0} (port : Port S) where
  unfoldable pub leave : SpanScope → Option (LogContext × S) → Option (LogContext × S)
  leave scope none = none
  leave scope (some (ctx, s)) = destroy port scope ctx s

  unfoldable pub continue_with :
      (LogContext → S → Option (LogContext × S)) → Option (LogContext × S) → Option (LogContext × S)
  continue_with next none = none
  continue_with next (some (ctx, s)) = next ctx s

  unfoldable pub run : Block → LogContext → S → Option (LogContext × S)
  run done ctx s = some (ctx, s)
  run (span name parent kind inner rest) ctx s =
      let opened = do_open port ctx name (parent_of ctx parent) kind s in
      continue_with (run rest) (leave opened.0 (run inner opened.1 opened.2))
  run (no_span_scope inner rest) ctx s =
      let entered = none_scope port ctx in
      continue_with (run rest) (leave entered.0 (run inner entered.1 s))

  -- The context is as before, and what stands behind the port may have changed.
  pub Restores : LogContext → Option (LogContext × S) → Type 0
  Restores ctx r = (s' : S) × (r ≡ some (ctx, s'))

  -- Leaving the scope from this context restores the other.
  Leaves : LogContext → SpanScope × LogContext × S → Type 0
  Leaves ctx o = (o.1.has_port ≡ true) × ((s : S) → Restores ctx (destroy port o.0 o.1 s))

  enter-Leaves :
      (ctx : LogContext) (id : SpanContext) (threshold : ℕ) (s : S)
      → ctx.has_port ≡ true
      → Leaves ctx ((enter ctx id threshold).0, (enter ctx id threshold).1, s)
  unfolding Leaves Restores enter destroy send_close_msg closed
  enter-Leaves ctx id threshold s attached = (
    attached,
    λ s.
        let sent = port.enqueue_message (span_end id) s in
        (sent.1, ap (λ (b : Bool). closed port ctx (if b then some sent else none)) attached),
  )

  empty-Leaves : (ctx : LogContext) (s : S) → ctx.has_port ≡ true → Leaves ctx (empty_scope, ctx, s)
  unfolding Leaves Restores destroy
  empty-Leaves ctx s attached = (attached, λ s. (s, refl))

  opened-Leaves :
      (ctx : LogContext) (id : SpanContext) (threshold : ℕ) (r : Result Errc (Unit {0}) × S)
      → ctx.has_port ≡ true
      → Leaves ctx (opened port ctx id threshold r)
  unfolding opened
  opened-Leaves ctx id threshold (ok _, s) attached = enter-Leaves ctx id threshold s attached
  opened-Leaves ctx id threshold (err e, s) attached = empty-Leaves ctx s attached

  do_open-Leaves :
      (ctx : LogContext) (name : List ℕ) (parent : SpanContext) (kind : ℕ) (s : S)
      → ctx.has_port ≡ true
      → Leaves ctx (do_open port ctx name parent kind s)
  unfolding do_open
  do_open-Leaves ctx name parent kind s attached =
      let created = port.create_span_context parent.trace_id name ctx.threshold s in
      let id = created.0.0 in
      let sent =
        opened port ctx id created.0.1
          (port.enqueue_message (span_start id kind parent name) created.1) in
      subst
        (λ (b : Bool). Leaves ctx (
          if not b
          then (empty_scope, ctx, s)
          else if not (is_invalid id.trace_id)
          then sent
          else (empty_scope, ctx, created.1)))
        (sym attached)
        (elim (Bool-cases (is_invalid id.trace_id)) [
          | inl invalid ↦
              subst
                (λ (b : Bool). Leaves ctx (if not b then sent else (empty_scope, ctx, created.1)))
                (sym invalid) (empty-Leaves ctx created.1 attached)
          | inr valid ↦
              subst
                (λ (b : Bool). Leaves ctx (if not b then sent else (empty_scope, ctx, created.1)))
                (sym valid) (opened-Leaves ctx id created.0.1 _ attached)
        ])

  -- The blocks inside of a scope and the rest behind it.
  around :
      (ctx : LogContext) (o : SpanScope × LogContext × S)
      (next : LogContext → S → Option (LogContext × S)) (r : Option (LogContext × S))
      → Leaves ctx o
      → Restores o.1 r
      → ((s : S) → Restores ctx (next ctx s))
      → Restores ctx (continue_with next (leave o.0 r))
  unfolding Leaves Restores continue_with leave
  around ctx o next r leaves (s', inside) rest =
      let (s'', left) = leaves.1 s' in rw (inside, left) (rest s'')

  -- On a context with a port, any blocks of scopes end with the context as it was, whatever the port
  -- answers.
  pub run-Restores :
      (block : Block) (ctx : LogContext) (s : S)
      → ctx.has_port ≡ true
      → Restores ctx (run block ctx s)
  unfolding run Restores Leaves none_scope
  run-Restores done ctx s attached = (s, refl)
  run-Restores (span name parent kind inner rest) ctx s attached =
      let opened = do_open port ctx name (parent_of ctx parent) kind s in
      let leaves = do_open-Leaves ctx name (parent_of ctx parent) kind s attached in
      around ctx opened (run rest) (run inner opened.1 opened.2) leaves
        (run-Restores inner opened.1 opened.2 leaves.0) (λ s. run-Restores rest ctx s attached)
  run-Restores (no_span_scope inner rest) ctx s attached =
      let entered = none_scope port ctx in
      let leaves = enter-Leaves ctx no_span _ s attached in
      around ctx (entered.0, entered.1, s) (run rest) (run inner entered.1 s) leaves
        (run-Restores inner entered.1 s leaves.0) (λ s. run-Restores rest ctx s attached)

  -- On a context without a port, spans do nothing.
  pub run-detached :
      (block : Block) (ctx : LogContext) (s : S)
      → ctx.has_port ≡ false
      → has_none block ≡ false
      → run block ctx s ≡ some (ctx, s)
  unfolding run do_open leave continue_with destroy
  run-detached done ctx s detached h = refl
  run-detached (span name parent kind inner rest) ctx s detached h =
      simp (detached, run-detached inner ctx s detached (ground arith))
        (run-detached rest ctx s detached (ground arith))
  run-detached (no_span_scope inner rest) ctx s detached h = cc

  -- Leaving the scope that `none` makes on a context without a port dereferences a null pointer.
  none_scope-null :
      (ctx : LogContext) (s : S)
      → ctx.has_port ≡ false
      → destroy port (none_scope port ctx).0 (none_scope port ctx).1 s ≡ none
  unfolding destroy none_scope enter send_close_msg closed
  none_scope-null ctx s detached =
      ap
        (λ (b : Bool).
          closed port ctx (if b then some (port.enqueue_message (span_end no_span) s) else none))
        detached
