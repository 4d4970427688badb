-- ===== src/BufferBus.antt =====
-- libs/deeplog/src/dplx/dlog/bus/buffer_bus.{hpp,cpp}: a bus of one process, a mapped file that is
-- filled from its start and emptied as a whole. The calls of the dp library are `Codec`.
pub mod Queue
pub mod Refine
pub mod Spans
pub mod Tests
use deeplog.Base.{
  Bool, List, Result, [], drop, err, if◌then◌else◌, length, ltb, not, ok, suc, take, u64, zero, ℕ,
  ◌+◌, ◌-◌, ◌==◌, ◌||◌, ◌∷◌,
}
use deeplog.Errc.{Errc, bad, not_enough_space}
use deeplog.StrongTypes.{TraceId, SpanContext, is_invalid}
use deeplog.SpanId.{derive_span_id}
use deeplog.SharedMemory.{Memory, fill, read_bytes, write_bytes}

-- `bufferbus_handle`: the mapped buffer and its size, which is 0 once the file is released.
pub record Handle : Type 0 where
  pub buffer : Memory
  pub size : ℕ
  pub span_prng_ctr : ℕ
  pub write_offset : ℕ

-- `dp::item_head`, as far as the bus reads it.
pub record ItemHead : Type 0 where
  pub is_binary : Bool
  pub indefinite : Bool
  pub value : ℕ

-- `var_uint_encoded_size`, `emit_binary` with the room and the size, by the bytes that it writes,
-- and `parse_item_head`, by its result and the bytes that it leaves.
pub record Codec : Type 0 where
  pub var_uint_encoded_size : ℕ → ℕ
  pub emit_binary : ℕ → ℕ → List ℕ
  pub parse_item_head : List ℕ → Result Errc ItemHead × List ℕ

-- `static_cast<int>(dp::type_code::null)`
abbrev pub null : ℕ
null = 0xf6

-- The buffer that a producer writes its message to.
pub record OutputBuffer : Type 0 where
  pub position : ℕ
  pub size : ℕ

-- `truncate` gives the size that the file then has; the bytes are those of the mapping.
pub bufferbus : Result Errc ℕ → Memory → ℕ → Result Errc Handle
bufferbus (err e) mapped buffer_size = err e
bufferbus (ok truncated_size) mapped buffer_size =
    if not (truncated_size == buffer_size)
    then err bad
    else ok (record {
      buffer = fill mapped 0 buffer_size null;
      size = buffer_size;
      span_prng_ctr = 0;
      write_offset = 0;
    })

pub clear_content : Handle → Handle
clear_content h = record h { buffer = fill h.buffer 0 h.size null; write_offset = 0 }

pub release : Handle → Handle
release h = record h { size = 0; write_offset = 0 }

pub unlink : Result Errc (Unit {0}) → Handle → Result Errc (Unit {0}) × Handle
unlink (ok _) h = (ok tt, release h)
unlink (err e) h = (err e, h)

-- The move constructor: the new handle and the one that is moved from.
pub move : Handle → Handle × Handle
move h = (record h { span_prng_ctr = 0 }, release h)

-- `operator=`: the handle that is assigned to, and the other.
pub move_assign : Handle → Handle → Handle × Handle
move_assign h other = (record other { span_prng_ctr = h.span_prng_ctr }, release other)

pub create_span_context : TraceId → TraceId → Handle → SpanContext × Handle
create_span_context random trace h =
    let trace = if is_invalid trace then random else trace in
    let ctr = h.span_prng_ctr in
    (
      record { trace_id = trace; span_id = derive_span_id trace.p0 trace.p1 ctr },
      record h { span_prng_ctr = u64 (ctr + 1) },
    )

module _ (codec : Codec) where
  pub allocate_record_buffer_inplace : ℕ → Handle → Result Errc OutputBuffer × Handle
  allocate_record_buffer_inplace message_size h =
      let overhead = codec.var_uint_encoded_size message_size in
      let total_size = u64 (overhead + message_size) in
      let head = codec.emit_binary total_size message_size in
      if ltb (h.size - h.write_offset) total_size then (err not_enough_space, h) else (
        ok (record { position = h.write_offset + length head; size = total_size - length head }),
        record h {
          buffer = write_bytes h.buffer h.write_offset head;
          write_offset = h.write_offset + total_size;
        },
      )

  -- `record_output_buffer`: a write that does not fit is refused.
  pub write : Errc → OutputBuffer → List ℕ → Handle → Result Errc (Unit {0}) × Handle
  write end_of_stream out bytes h =
      if ltb out.size (length bytes)
      then (err end_of_stream, h)
      else (ok tt, record h { buffer = write_bytes h.buffer out.position bytes })

  pub encode_into :
      Errc → List ℕ → Result Errc OutputBuffer × Handle → Result Errc (Unit {0}) × Handle
  encode_into end_of_stream msg (ok out, h) = write end_of_stream out msg h
  encode_into end_of_stream msg (err e, h) = (err e, h)

  -- One round of the loop over the content; `next` is the loop on what the message leaves.
  pub examine :
      (List ℕ → List (List ℕ) × Result Errc (Unit {0}))
      → Result Errc ItemHead × List ℕ
      → List (List ℕ) × Result Errc (Unit {0})
  examine next (err e, stream) = ([], err e)
  examine next (ok msg_info, stream) =
      let rest = next (drop msg_info.value stream) in
      if not msg_info.is_binary || msg_info.indefinite || ltb (length stream) msg_info.value
      then ([], ok tt)
      else (take msg_info.value stream ∷ rest.0, rest.1)

  -- The messages that the loop hands to the consumer, and how it ends.
  pub parse_content : ℕ → List ℕ → List (List ℕ) × Result Errc (Unit {0})
  parse_content zero content = ([], ok tt)
  parse_content (suc fuel) [] = ([], ok tt)
  parse_content (suc fuel) (b ∷ content) =
      examine (λ rest. parse_content fuel rest) (codec.parse_item_head (b ∷ content))

  -- A parser error leaves the content in the buffer.
  pub end_of_content :
      Handle
      → List (List ℕ) × Result Errc (Unit {0})
      → List (List ℕ) × Result Errc (Unit {0}) × Handle
  end_of_content h (messages, ok _) = (messages, ok tt, clear_content h)
  end_of_content h (messages, err e) = (messages, err e, h)

  pub consume_messages : Handle → List (List ℕ) × Result Errc (Unit {0}) × Handle
  consume_messages h =
      end_of_content h (parse_content h.write_offset (read_bytes h.buffer 0 h.write_offset))

  -- `enqueue_message`, of a message that is known by its encoding.
  pub enqueue_message : Errc → ℕ → List ℕ → Handle → Result Errc (Unit {0}) × Handle
  enqueue_message end_of_stream msg_size msg h =
      encode_into end_of_stream msg (allocate_record_buffer_inplace msg_size h)
