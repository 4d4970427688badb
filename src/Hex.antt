-- ===== src/Hex.antt =====
-- libs/deeplog/src/dplx/dlog/detail/hex.hpp: bytes as hexadecimal text. Characters are bytes of
-- ASCII text; the iterators are lists.
mod Tests
use deeplog.Base.{
  ==_iff, Bool, Bool-cases, List, Option, [], ap, arith, if◌then◌else◌, inl, inr, leb, length, ltb,
  map, none, refl, shr, some, suc, sym, true, u32, u8, zero, ℕ, ◌%◌, ◌&&◌, ◌*◌, ◌+◌, ◌-◌, ◌/◌, ◌<◌,
  ◌==◌, ◌^◌, ◌||◌, ◌∙◌, ◌∷◌, ◌≡◌,
}
use mathlib.Core.Option
use mathlib.Core.Path.{subst}
use Prim.Native.Nat.{bit_or}
use deeplog.SharedMemory.Laws.{AllBytes}

-- `(udigit - '0' <= 9U) || ((udigit | 0x20U) - 'a' <= 5U)`, where setting the bit 0x20 is written
-- out and the differences are unsigned words.
pub is_hex_digit : ℕ → Bool
is_hex_digit digit =
    let lower = if digit / 32 % 2 == 0 then digit + 0x20 else digit in
    leb (u32 (digit + (2 ^ 32 - 48))) 9 || leb (u32 (lower + (2 ^ 32 - 97))) 5

pub value_of_hex_digit : ℕ → ℕ
value_of_hex_digit digit = u8 (digit % 16 + shr digit 6 * 9)

pub hex_digit_of_nibble : ℕ → ℕ
hex_digit_of_nibble nibble = let n = nibble % 16 in if ltb n 10 then 48 + n else 87 + n

-- `(hi << 4) | lo`, cut to a byte; `none` is the read past the end that an odd number of digits would cause.
pub hex_decode : List ℕ → Option (List ℕ)
hex_decode [] = some []
hex_decode (hi ∷ []) = none
hex_decode (hi ∷ lo ∷ rest) =
    let decoded = hex_decode rest in
    Option.map (λ bytes. u8 (bit_or (value_of_hex_digit hi * 16) (value_of_hex_digit lo)) ∷ bytes)
      decoded

pub hex_encode : List ℕ → List ℕ
hex_encode [] = []
hex_encode (byte ∷ rest) =
    hex_digit_of_nibble (shr byte 4) ∷ hex_digit_of_nibble byte ∷ hex_encode rest

value_of-digit : (n : ℕ) → value_of_hex_digit (hex_digit_of_nibble n) ≡ n % 16
unfolding value_of_hex_digit hex_digit_of_nibble
value_of-digit n = ground arith

all_below : ℕ → (ℕ → Bool) → Bool
all_below zero p = true
all_below (suc n) p = p n && all_below n p

all_below-at : (n i : ℕ) (p : ℕ → Bool) → all_below n p ≡ true → i < n → p i ≡ true
unfolding all_below
all_below-at zero i p h k = absurd (omega arith)
all_below-at (suc n) i p h k = elim (Bool-cases (i == n)) [
  | inl same ↦ subst (λ (m : ℕ). p m ≡ true) (sym ((==_iff i n).0 same)) (ground (arith, h))
  | inr other ↦ all_below-at n i p (ground (arith, h)) (ground (arith, other))
]

-- A byte is the or of its nibbles at their places, which `all_below` computes for each.
nibbles_apart : ℕ → Bool
nibbles_apart n = bit_or (n / 16 * 16) (n % 16) == n

nibbles_sum : (b : ℕ) → b < 256 → bit_or (b / 16 % 16 * 16) (b % 16) ≡ b
unfolding nibbles_apart all_below
nibbles_sum b h =
    let high : b / 16 % 16 ≡ b / 16 = omega (arith, h) in
    ap (λ (n : ℕ). bit_or (n * 16) (b % 16)) high
    ∙ (==_iff _ b).0 (all_below-at 256 b nibbles_apart refl h)

abbrev pub AllDigits : List ℕ → Type 0
AllDigits [] = Unit {0}
AllDigits (d ∷ ds) = (is_hex_digit d ≡ true) × AllDigits ds

-- What is encoded decodes to the same bytes.
pub hex_decode-hex_encode :
    (bytes : List ℕ) → AllBytes bytes → hex_decode (hex_encode bytes) ≡ some bytes
unfolding hex_decode hex_encode
hex_decode-hex_encode [] h = refl
hex_decode-hex_encode (b ∷ bs) h =
    let same : u8 (bit_or (b / 16 % 16 * 16) (b % 16)) ≡ b =
      ap u8 (nibbles_sum b h.0) ∙ omega (arith, h.0) in
    rw (hex_decode-hex_encode bs h.1, value_of-digit (shr b 4), value_of-digit b, same) refl

digit : (n : ℕ) → is_hex_digit (hex_digit_of_nibble n) ≡ true
unfolding is_hex_digit hex_digit_of_nibble
digit n = ground arith

-- The text has two digits for each byte, all of them hexadecimal digits.
hex_encode-digits :
    (bytes : List ℕ) → (length (hex_encode bytes) ≡ 2 * length bytes) × AllDigits (hex_encode bytes)
unfolding hex_encode
hex_encode-digits [] = (refl, tt)
hex_encode-digits (b ∷ bs) =
    let rest = hex_encode-digits bs in (omega (arith, rest.0), (digit (shr b 4), (digit b, rest.1)))
