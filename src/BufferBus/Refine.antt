-- ===== src/BufferBus/Refine.antt =====
-- bus/buffer_bus.hpp: enqueueing and consuming messages, against a queue of bounded size.
use deeplog.Base.{
  Bool, Bool-cases, List, [], ap, ap₂, arith, err, false, if◌then◌else◌, inl, inr, leb, length,
  length-append, ltb, ok, refl, sym, true, u64, ℕ, ◌++◌, ◌+◌, ◌-◌, ◌<◌, ◌^◌, ◌∙◌, ◌∷◌, ◌≡◌,
}
use mathlib.Core.List.{append-nil}
use deeplog.Errc.{Errc, not_enough_space}
use deeplog.SharedMemory.{Memory, read_bytes, write_bytes}
use deeplog.SharedMemory.Laws.{
  read_bytes_cong, read_bytes-write_bytes, write_bytes-other, read_bytes-length, read_bytes-add,
}
use deeplog.BufferBus.{
  Handle, Codec, clear_content, allocate_record_buffer_inplace, write, end_of_content,
  consume_messages, encode_into, enqueue_message,
}
use deeplog.BufferBus.Queue.{Frames, head, frame, content, content-append, Holds, parse-content}

read_bytes-split :
    (m : Memory) (a b : ℕ) → read_bytes m 0 (a + b) ≡ read_bytes m 0 a ++ read_bytes m a b
read_bytes-split m a b =
    let same : 0 + a ≡ a = omega arith in
    read_bytes-add m 0 a b ∙ ap (λ (p : ℕ). read_bytes m 0 a ++ read_bytes m p b) same

module _ (codec : Codec) (law : Frames codec) where
  abbrev sizeof : ℕ → ℕ
  sizeof n = codec.var_uint_encoded_size n

  -- The handle once a message is written behind the content.
  appended : Handle → List ℕ → Handle
  appended h msg = record h {
    buffer =
        write_bytes (write_bytes h.buffer h.write_offset (head codec (length msg)))
          (h.write_offset + sizeof (length msg)) msg;
    write_offset = h.write_offset + (sizeof (length msg) + length msg);
  }

  appended-text :
      (h : Handle) (msg : List ℕ)
      → length msg < 2 ^ 64
      → read_bytes (appended h msg).buffer 0 (appended h msg).write_offset
        ≡ read_bytes h.buffer 0 h.write_offset ++ frame codec msg
  unfolding appended frame head
  appended-text h msg small =
      read_bytes-split m'' off (v + n)
      ∙ ap₂ ◌++◌ kept
          (read_bytes-add m'' off v n ∙ ap₂ ◌++◌ headed (read_bytes-write_bytes m' (off + v) msg))
    where
      n : ℕ
      n = length msg

      v : ℕ
      v = sizeof n

      off : ℕ
      off = h.write_offset

      m' : Memory
      m' = write_bytes h.buffer off (head codec n)

      m'' : Memory
      m'' = write_bytes m' (off + v) msg

      sized : length (head codec n) ≡ v
      sized = law.sized n small

      kept : read_bytes m'' 0 off ≡ read_bytes h.buffer 0 off
      kept = read_bytes_cong h.buffer m'' 0 off (λ i l k.
          write_bytes-other m' (off + v) msg i (inl (omega arith))
          ∙ write_bytes-other h.buffer off (head codec n) i (inl (omega arith)))

      headed : read_bytes m'' off v ≡ head codec n
      headed =
          read_bytes_cong m' m'' off v
            (λ i l k. write_bytes-other m' (off + v) msg i (inl (omega arith)))
          ∙ ap (λ (a : ℕ). read_bytes m' off a) (sym sized)
          ∙ read_bytes-write_bytes h.buffer off (head codec n)

  -- Whether the queue has room for another message.
  unfoldable pub has_room : ℕ → List (List ℕ) → List ℕ → Bool
  has_room size msgs msg = leb (length (content codec msgs) + length (frame codec msg)) size

  module _ (eos : Errc) (h : Handle) (msgs : List (List ℕ)) (q : Holds codec h msgs) (msg : List ℕ)
      (small : length msg + 9 < 2 ^ 64) where
    offset : h.write_offset ≡ length (content codec msgs)
    offset = sym (read_bytes-length h.buffer 0 h.write_offset) ∙ ap length q.text

    frame-length : length (frame codec msg) ≡ sizeof (length msg) + length msg
    unfolding frame head
    frame-length =
        omega
          (arith, length-append (head codec (length msg)) msg, law.sized (length msg) (omega arith))

    total : u64 (sizeof (length msg) + length msg) ≡ sizeof (length msg) + length msg
    total = omega (arith, law.short (length msg) (omega arith))

    refuses :
        has_room (h.size) msgs msg ≡ false
        → enqueue_message codec eos (length msg) msg h ≡ (err not_enough_space, h)
    unfolding enqueue_message encode_into allocate_record_buffer_inplace has_room
    refuses full =
        let over : ltb (h.size - h.write_offset) (u64 (sizeof (length msg) + length msg)) ≡ true =
          ground (arith, full, offset, frame-length, total, q.in_bounds) in
        rw over refl

    accepts :
        has_room (h.size) msgs msg ≡ true
        → enqueue_message codec eos (length msg) msg h ≡ (ok tt, appended h msg)
    unfolding enqueue_message encode_into allocate_record_buffer_inplace write has_room appended
        head
    accepts room =
        let fits : ltb (h.size - h.write_offset) (u64 (sizeof (length msg) + length msg)) ≡ false =
          ground (arith, room, offset, frame-length, total, q.in_bounds) in
        let v = sizeof (length msg) in
        let below : length msg < 2 ^ 64 = omega arith in
        let emitted = law.room (length msg) (v + length msg) below (omega arith) in
        let exact : ltb (v + length msg - v) (length msg) ≡ false = ground arith in
        rw (fits, total, emitted, law.sized (length msg) below, exact) refl

    appended-Holds :
        has_room (h.size) msgs msg ≡ true → Holds codec (appended h msg) (msgs ++ msg ∷ [])
    unfolding has_room appended content
    appended-Holds room = record {
      in_bounds = ground (arith, room, offset, frame-length);
      small = q.small;
      text =
          appended-text h msg (omega arith)
          ∙ ap₂ ◌++◌ q.text (sym (append-nil (frame codec msg)))
          ∙ sym (content-append codec msgs (msg ∷ []));
    }

  -- Consuming hands over all messages, in the order of their allocation, and empties the bus.
  pub consume_messages-Holds :
      (h : Handle) (msgs : List (List ℕ))
      → Holds codec h msgs
      → (consume_messages codec h ≡ (msgs, ok tt, clear_content h))
        × Holds codec (clear_content h) []
  unfolding consume_messages end_of_content clear_content content read_bytes
  consume_messages-Holds h msgs q = (
    rw
        (
          q.text,
          parse-content codec law h.write_offset msgs (omega (arith, length_of))
              (omega (arith, length_of, q.in_bounds, q.small)),
        )
        refl,
    record { in_bounds = omega arith; small = q.small; text = refl },
  )
    where
      length_of : h.write_offset ≡ length (content codec msgs)
      length_of = sym (read_bytes-length h.buffer 0 h.write_offset) ∙ ap length q.text

-- What the users of a bus do.
pub data Action : Type 0 where
  enqueue : List ℕ → Action
  consume : Action

-- The messages that a sequence of actions delivers, and those that it delivers on a queue of the
-- given size in bytes.
pub run : Codec → Errc → List Action → Handle → List (List ℕ)
run codec eos [] h = []
run codec eos (enqueue msg ∷ actions) h =
    run codec eos actions (enqueue_message codec eos (length msg) msg h).1
run codec eos (consume ∷ actions) h =
    let consumed = consume_messages codec h in consumed.0 ++ run codec eos actions consumed.2

module _ (codec : Codec) (law : Frames codec) where
  unfoldable pub run_queue : ℕ → List Action → List (List ℕ) → List (List ℕ)
  run_queue size [] msgs = []
  run_queue size (enqueue msg ∷ actions) msgs =
      run_queue size actions (if has_room codec law size msgs msg then msgs ++ msg ∷ [] else msgs)
  run_queue size (consume ∷ actions) msgs = msgs ++ run_queue size actions []

  -- Messages whose size is far from 2^64.
  unfoldable pub AllSmall : List Action → Type 0
  AllSmall [] = Unit {0}
  AllSmall (enqueue msg ∷ actions) = (length msg + 9 < 2 ^ 64) × AllSmall actions
  AllSmall (consume ∷ actions) = AllSmall actions

  -- A bus delivers what a queue of messages would that refuses a message exactly if the messages with
  -- their heads would exceed the size of the buffer, if the messages are far from 2^64 bytes long.
  pub run-run_queue :
      (eos : Errc) (actions : List Action) (h : Handle) (msgs : List (List ℕ))
      → Holds codec h msgs
      → AllSmall actions
      → run codec eos actions h ≡ run_queue h.size actions msgs
  unfolding run run_queue AllSmall appended clear_content
  run-run_queue eos [] h msgs q s = refl
  run-run_queue eos (enqueue msg ∷ actions) h msgs q s =
      elim (Bool-cases (has_room codec law h.size msgs msg)) [
        | inl room ↦
            rw (accepts codec law eos h msgs q msg s.0 room, room)
              (run-run_queue eos actions (appended codec law h msg) _
                (appended-Holds codec law eos h msgs q msg s.0 room) s.1)
        | inr full ↦
            rw (refuses codec law eos h msgs q msg s.0 full, full)
              (run-run_queue eos actions h msgs q s.1)
      ]
  run-run_queue eos (consume ∷ actions) h msgs q s =
      let consumed = consume_messages-Holds codec law h msgs q in
      rw consumed.0
        (ap (λ rest. msgs ++ rest) (run-run_queue eos actions (clear_content h) [] consumed.1 s))
