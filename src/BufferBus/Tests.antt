-- ===== src/BufferBus/Tests.antt =====
-- The buffer bus (bus/buffer_bus.hpp) with a codec whose heads have nine bytes.
use deeplog.Base.{
  List, Result, [], ap, arith, err, false, ok, refl, true, ℕ, ◌%◌, ◌*◌, ◌+◌, ◌/◌, ◌<◌, ◌==◌, ◌^◌,
  ◌∷◌, ◌≡◌,
}
use deeplog.BufferBus.Refine.{has_room}
use deeplog.BufferBus.Queue.{frame}
use deeplog.BufferBus.Queue.{head}
use deeplog.Errc.{Errc, missing_data, system}
use deeplog.StrongTypes.{TraceId}
use deeplog.SharedMemory.{read_bytes}
use deeplog.BufferBus.{Handle, ItemHead, Codec}
use deeplog.BufferBus.Queue.{Frames, Holds, content}
use deeplog.BufferBus.Refine.{AllSmall, enqueue, consume, run, run_queue, run-run_queue}

-- A head of nine bytes, with the size as a big-endian number.
abbrev pub nine_bytes : ℕ → List ℕ
nine_bytes n =
    0x5b
    ∷ n / 2 ^ 56 % 2 ^ 8
    ∷ n / 2 ^ 48 % 2 ^ 8
    ∷ n / 2 ^ 40 % 2 ^ 8
    ∷ n / 2 ^ 32 % 2 ^ 8
    ∷ n / 2 ^ 24 % 2 ^ 8
    ∷ n / 2 ^ 16 % 2 ^ 8
    ∷ n / 2 ^ 8 % 2 ^ 8
    ∷ n % 2 ^ 8
    ∷ []

abbrev parse_nine : List ℕ → Result Errc ItemHead × List ℕ
parse_nine (t ∷ b7 ∷ b6 ∷ b5 ∷ b4 ∷ b3 ∷ b2 ∷ b1 ∷ b0 ∷ rest) = (
  ok (record {
    is_binary = t == 0x5b;
    indefinite = false;
    value =
        b7 * 2 ^ 56
        + b6 * 2 ^ 48
        + b5 * 2 ^ 40
        + b4 * 2 ^ 32
        + b3 * 2 ^ 24
        + b2 * 2 ^ 16
        + b1 * 2 ^ 8
        + b0;
  }),
  rest,
)
parse_nine stream = (err missing_data, stream)

abbrev pub nine : Codec
nine = record {
  var_uint_encoded_size = λ n. 9;
  emit_binary = λ room n. nine_bytes n;
  parse_item_head = parse_nine;
}

pub nine-Frames : Frames nine
nine-Frames = record {
  room = λ n room h k. refl;
  sized = λ n h. refl;
  not_empty = λ n h. omega arith;
  short = λ n h. omega arith;
  parsed = λ n rest h.
      ap (λ (v : ℕ). (ok (record { is_binary = true; indefinite = false; value = v }), rest))
        (value n h);
}
  where
    value :
        (n : ℕ)
        → n < 2 ^ 64
        → n / 2 ^ 56 % 2 ^ 8 * 2 ^ 56
            + n / 2 ^ 48 % 2 ^ 8 * 2 ^ 48
            + n / 2 ^ 40 % 2 ^ 8 * 2 ^ 40
            + n / 2 ^ 32 % 2 ^ 8 * 2 ^ 32
            + n / 2 ^ 24 % 2 ^ 8 * 2 ^ 24
            + n / 2 ^ 16 % 2 ^ 8 * 2 ^ 16
            + n / 2 ^ 8 % 2 ^ 8 * 2 ^ 8
            + n % 2 ^ 8
          ≡ n
    value n h = omega arith

abbrev pub made : Handle
made = record { buffer = λ i. 0xf6; size = 24; span_prng_ctr = 0; write_offset = 0 }

made-Holds : Holds nine made []
unfolding read_bytes content
made-Holds = record { in_bounds = omega arith; small = omega arith; text = refl }

-- Two messages fit; the third is refused, and accepted once the bus is emptied.
run-run_queue_example :
    run nine
      (system 1)
      (enqueue (1 ∷ 2 ∷ [])
        ∷ enqueue (3 ∷ [])
        ∷ enqueue (4 ∷ [])
        ∷ consume
        ∷ enqueue (5 ∷ [])
        ∷ consume
        ∷ [])
      made
    ≡ (1 ∷ 2 ∷ []) ∷ (3 ∷ []) ∷ (5 ∷ []) ∷ []
unfolding run_queue AllSmall has_room content frame head
run-run_queue_example =
    run-run_queue nine nine-Frames (system 1)
      (enqueue (1 ∷ 2 ∷ [])
        ∷ enqueue (3 ∷ [])
        ∷ enqueue (4 ∷ [])
        ∷ consume
        ∷ enqueue (5 ∷ [])
        ∷ consume
        ∷ [])
      made [] made-Holds (omega arith, (omega arith, (omega arith, (omega arith, tt))))

abbrev some_trace : TraceId
some_trace = record { p0 = 1; p1 = 2 }
