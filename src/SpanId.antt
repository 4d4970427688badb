-- ===== src/SpanId.antt =====
-- libs/deeplog/src/dplx/dlog/source/log_record_port.cpp: span ids derived from a trace id and a
-- counter. All arithmetic is on `std::uint64_t`.
pub mod Collisions
mod Tests
use deeplog.Base.{ℕ, ◌+◌, ◌*◌, ◌/◌, ◌%◌, ◌^◌, bit_xor, u64, shr, shl64}

abbrev pub prime64_1 : ℕ
prime64_1 = 0x9e3779b185ebca87

abbrev pub prime64_2 : ℕ
prime64_2 = 0xc2b2ae3d27d4eb4f

abbrev pub prime64_3 : ℕ
prime64_3 = 0x165667b19e3779f9

abbrev pub prime64_4 : ℕ
prime64_4 = 0x85ebca77c2b2ae63

abbrev pub prime64_5 : ℕ
prime64_5 = 0x27d4eb2f165667c5

-- The shift drops the bits that leave the word; nothing rotates them back in.
pub xx_hash64_round : ℕ → ℕ → ℕ
xx_hash64_round acc_n lane_n =
    let summed = u64 (acc_n + u64 (lane_n * prime64_2)) in u64 (shl64 summed 31 * prime64_1)

-- One of the three blocks of `derive_span_id` that mix a 64-bit input into the accumulator.
pub absorb : ℕ → ℕ → ℕ
absorb acc lane =
    let mixed = bit_xor acc (xx_hash64_round 0 lane) in
    u64 (u64 (shl64 mixed 27 * prime64_1) + prime64_4)

-- The final mix.
pub avalanche : ℕ → ℕ
avalanche acc =
    let a = u64 (bit_xor acc (shr acc 33) * prime64_2) in
    let b = u64 (bit_xor a (shr a 29) * prime64_3) in bit_xor b (shr b 32)

pub derive_span_id : ℕ → ℕ → ℕ → ℕ
derive_span_id trace_id_p0 trace_id_p1 ctr =
    let acc = u64 (prime64_5 + 3 * 8) in
    avalanche (absorb (absorb (absorb acc trace_id_p0) trace_id_p1) ctr)
