-- ===== src/LogRecord/Parts.antt =====
-- source/log.cpp: the parts of a record take the bytes that the computed size counts for them.
use deeplog.Base.{List, Option, arith, length, map, none, ok, some, ℕ, ◌++◌, ◌+◌, ◌<◌, ◌∷◌, ◌≡◌}
use deeplog.LogRecord.{
  ItemCodec, LogArgs, Context, tried, item_size_of_any_loggable, scope_size, line_size,
  filename_size, sizes, scope_parts, owner_parts, line_parts, filename_parts, loggable_parts, flag,
  tail_parts, parts,
}
use deeplog.LogRecord.Emission.{
  part_bytes, Succeeds, AllSucceed, weight, weight-append, AllSucceed-append, EndsTried, last,
  before, EndsTried-append,
}
use deeplog.LogRecord.Size.{
  Sized, sum, sum-append, AllEncode, loggables-size, owner-size, line-size, filename-size,
}

module _ {V : Type 0} (codec : ItemCodec V) (law : Sized codec) where
  flag-lt : {A : Type 0} (o : Option A) → flag codec o < 2
  unfolding flag
  flag-lt none = omega arith
  flag-lt (some a) = omega arith

  tail-size :
      (timestamp : ℕ) (args : LogArgs V)
      → AllEncode codec args.message_parts
      → AllSucceed (tail_parts codec timestamp args)
        × (weight (tail_parts codec timestamp args)
            ≡ 9
              + codec.item_size_of_u8string (length args.message)
              + codec.item_head_size_of_array (length args.message_parts)
              + sum (map (item_size_of_any_loggable codec) args.message_parts)
              + 1
              + sum (line_size codec args.line)
              + sum (filename_size codec args.filename))
  unfolding tail_parts AllSucceed Succeeds weight part_bytes
  tail-size timestamp args h =
      let loggables = loggables-size codec law args.message_parts h in
      let line = line-size codec law args.line in
      let filename = filename-size codec law args.filename in
      let n = flag codec args.line + flag codec args.filename in
      let after_map = line_parts codec args.line ++ filename_parts codec args.filename in
      let behind = tried (ok (codec.emit_map n)) ∷ after_map in
      (
        (
          tt,
          (
            tt,
            (
              tt,
              AllSucceed-append (loggable_parts codec args.message_parts) behind loggables.0 (
                tt,
                AllSucceed-append (line_parts codec args.line) (filename_parts codec args.filename)
                    line.0 filename.0,
              ),
            ),
          ),
        ),
        omega (
          arith,
          law.timestamp timestamp,
          law.u8string args.message,
          law.array (length args.message_parts),
          loggables.1,
          line.1,
          filename.1,
          law.map n (omega (arith, flag-lt args.line, flag-lt args.filename)),
          weight-append (loggable_parts codec args.message_parts) behind,
          weight-append (line_parts codec args.line) (filename_parts codec args.filename),
        ),
      )

  ends :
      (line : Option ℕ) (filename : Option (List ℕ)) (map_head : List ℕ)
      → 0 < length map_head
      → EndsTried (tried (ok map_head) ∷ (line_parts codec line ++ filename_parts codec filename))
  unfolding line_parts filename_parts
  ends line (some filename) map_head h =
      EndsTried-append (tried (ok map_head) ∷ line_parts codec line) _ (
        before _ _ (
          last (codec.emit_u8string filename)
            (omega (arith, law.u8string filename, law.u8string_head (length filename)))))
  ends (some line) none map_head h = before _ _ (
      before _ _
        (last (codec.emit_integer line) (omega (arith, law.integer line, law.integer_head line))))
  ends none none map_head h = last map_head h

  tail-EndsTried : (timestamp : ℕ) (args : LogArgs V) → EndsTried (tail_parts codec timestamp args)
  unfolding tail_parts
  tail-EndsTried timestamp args = before _ _ (
      before _ _ (
        before _ _ (
          EndsTried-append (loggable_parts codec args.message_parts) _ (
            ends args.line args.filename
              (codec.emit_map (flag codec args.line + flag codec args.filename))
              (omega (
                arith,
                law.map (flag codec args.line + flag codec args.filename)
                    (omega (arith, flag-lt args.line, flag-lt args.filename)),
              ))))))

  -- The statements, by the bytes of the scope.
  pub parts-size :
      (timestamp : ℕ) (ctx : Context) (args : LogArgs V)
      → AllEncode codec args.message_parts
      → AllSucceed (scope_parts codec ctx.instrumentation_scope)
      → AllSucceed (parts codec timestamp ctx args)
        × (weight (parts codec timestamp ctx args) + scope_size codec ctx.instrumentation_scope
            ≡ sum (sizes codec ctx args) + weight (scope_parts codec ctx.instrumentation_scope))
  unfolding parts sizes AllSucceed Succeeds weight part_bytes sum
  parts-size timestamp ctx args h k =
      let tail = tail-size timestamp args h in
      let owner = owner-size codec law ctx in
      let scope = scope_parts codec ctx.instrumentation_scope in
      (
        (
          tt,
          (
            tt,
            AllSucceed-append scope _ k
                (AllSucceed-append (owner_parts codec ctx) _ owner.0 tail.0),
          ),
        ),
        omega (
          arith,
          law.array 6,
          tail.1,
          owner.1,
          weight-append scope (owner_parts codec ctx ++ tail_parts codec timestamp args),
          weight-append (owner_parts codec ctx) (tail_parts codec timestamp args),
          sum-append (map (item_size_of_any_loggable codec) args.message_parts)
              (1 ∷ (line_size codec args.line ++ filename_size codec args.filename)),
          sum-append (line_size codec args.line) (filename_size codec args.filename),
        ),
      )

  pub parts-EndsTried :
      (timestamp : ℕ) (ctx : Context) (args : LogArgs V)
      → EndsTried (parts codec timestamp ctx args)
  unfolding parts
  parts-EndsTried timestamp ctx args = before _ _ (
      before _ _ (
        EndsTried-append (scope_parts codec ctx.instrumentation_scope) _
          (EndsTried-append (owner_parts codec ctx) _ (tail-EndsTried timestamp args))))
