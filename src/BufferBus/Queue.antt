-- ===== src/BufferBus/Queue.antt =====
-- bus/buffer_bus.hpp: the buffer as a queue of messages, which a consumer takes as a whole.
use deeplog.Base.{
  List, [], ap, arith, drop-append, false, length, length-append, ltb, ok, refl, suc, sym,
  take-append, true, zero, ℕ, ◌++◌, ◌+◌, ◌<◌, ◌^◌, ◌∙◌, ◌∷◌, ◌≡◌, ◌≤◌,
}
use mathlib.Core.List.{append_assoc}
use deeplog.SharedMemory.{read_bytes}
use deeplog.BufferBus.{Handle, Codec, examine, parse_content}

-- What the bus relies on of the codec: a head is written to any buffer with room for it, has the
-- computed size and is read back.
pub record Frames (codec : Codec) : Type 0 where
  pub room :
      (n room : ℕ)
      → n < 2 ^ 64
      → codec.var_uint_encoded_size n ≤ room
      → codec.emit_binary room n ≡ codec.emit_binary (codec.var_uint_encoded_size n) n
  pub sized :
      (n : ℕ)
      → n < 2 ^ 64
      → length (codec.emit_binary (codec.var_uint_encoded_size n) n) ≡ codec.var_uint_encoded_size n
  pub not_empty : (n : ℕ) → n < 2 ^ 64 → 0 < codec.var_uint_encoded_size n
  pub short : (n : ℕ) → n < 2 ^ 64 → codec.var_uint_encoded_size n ≤ 9
  pub parsed :
      (n : ℕ) (rest : List ℕ)
      → n < 2 ^ 64
      → codec.parse_item_head (codec.emit_binary (codec.var_uint_encoded_size n) n ++ rest)
        ≡ (ok (record { is_binary = true; indefinite = false; value = n }), rest)

module _ (codec : Codec) where
  -- The head of a message of `n` bytes.
  unfoldable pub head : ℕ → List ℕ
  head n = codec.emit_binary (codec.var_uint_encoded_size n) n

  -- A message behind its head.
  unfoldable pub frame : List ℕ → List ℕ
  frame msg = head (length msg) ++ msg

  -- The bytes of a queue.
  unfoldable pub content : List (List ℕ) → List ℕ
  content [] = []
  content (msg ∷ msgs) = frame msg ++ content msgs

  -- The bus holds these messages.
  pub record Holds (h : Handle) (msgs : List (List ℕ)) : Type 0 where
    pub in_bounds : h.write_offset ≤ h.size
    pub small : h.size < 2 ^ 64
    pub text : read_bytes h.buffer 0 h.write_offset ≡ content msgs

  module _ (law : Frames codec) where
    lengths :
        (msg : List ℕ) (msgs : List (List ℕ))
        → length (content (msg ∷ msgs))
          ≡ length (head (length msg)) + length msg + length (content msgs)
    unfolding content frame
    lengths msg msgs =
        omega
          (arith, length-append (frame msg) (content msgs), length-append (head (length msg)) msg)

    first :
        (msg : List ℕ) (msgs : List (List ℕ))
        → length (content (msg ∷ msgs)) < 2 ^ 64
        → 0 < length (content (msg ∷ msgs))
    unfolding head
    first msg msgs k =
        let sizes = lengths msg msgs in
        omega (
          arith,
          sizes,
          law.sized (length msg) (omega (arith, sizes)),
          law.not_empty (length msg) (omega (arith, sizes)),
        )

    parse-more :
        (fuel : ℕ) (c : List ℕ)
        → 0 < length c
        → parse_content codec (suc fuel) c
          ≡ examine codec (λ rest. parse_content codec fuel rest) (codec.parse_item_head c)
    unfolding parse_content
    parse-more fuel [] h = absurd (omega arith)
    parse-more fuel (b ∷ c) h = refl

    pub parse-content :
        (fuel : ℕ) (msgs : List (List ℕ))
        → length (content msgs) ≤ fuel
        → length (content msgs) < 2 ^ 64
        → parse_content codec fuel (content msgs) ≡ (msgs, ok tt)
    unfolding content head frame examine parse_content
    parse-content zero [] h k = refl
    parse-content (suc fuel) [] h k = refl
    parse-content zero (msg ∷ msgs) h k = absurd (omega (arith, first msg msgs k))
    parse-content (suc fuel) (msg ∷ msgs) h k =
        let n = length msg in
        let sizes = lengths msg msgs in
        let below : n < 2 ^ 64 = omega (arith, sizes) in
        let size = law.sized n below in
        let some_head = law.not_empty n below in
        let enough : length (content msgs) ≤ fuel = omega (arith, sizes, size, some_head) in
        let whole : ltb (length (msg ++ content msgs)) n ≡ false =
          ground (arith, length-append msg (content msgs)) in
        parse-more fuel (content (msg ∷ msgs)) (omega (arith, sizes, size, some_head))
        ∙ ap
            (λ bytes.
              examine codec (λ rest. parse_content codec fuel rest) (codec.parse_item_head bytes))
            (append_assoc (head n) msg (content msgs))
        ∙ ap (λ read. examine codec (λ rest. parse_content codec fuel rest) read)
            (law.parsed n (msg ++ content msgs) below)
        ∙ rw
            (
              whole,
              take-append msg (content msgs),
              drop-append msg (content msgs),
              parse-content fuel msgs enough (omega (arith, sizes)),
            )
            refl

  pub content-append : (xs ys : List (List ℕ)) → content (xs ++ ys) ≡ content xs ++ content ys
  unfolding content
  content-append [] ys = refl
  content-append (x ∷ xs) ys =
      ap (λ rest. frame x ++ rest) (content-append xs ys)
      ∙ sym (append_assoc (frame x) (content xs) (content ys))
