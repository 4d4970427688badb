-- ===== src/Base/Xor.antt =====
-- `bit_xor` on the low bits of its arguments, at every width.
use Prim.Native.Nat.{
  ℕ, zero, suc, ◌+◌, ◌*◌, ◌/◌, ◌%◌, ◌^◌, ◌≤◌, ◌<◌, differ, digits, bit_xor, bit_xor-bitwise,
}
use mathlib.Core.Path.{◌≡◌, refl, ap, ◌∙◌}
use native.Mathlib.Nat.{pow-suc, le_refl, mod-one, one-le-pow, mul_comm}
use mathlib.Core.Bool.{false}
use mathlib.Core.Logic.{inl, inr}
use deeplog.Base.Tests.{◌==◌, ==_iff, Bool-cases}
use native.Mathlib.Omega.{arith}

-- The digits of an exclusive or, with fuel for `n` of them.
abbrev xor_upto : ℕ → ℕ → ℕ → ℕ
xor_upto n a b = digits (λ rest. rest) differ n a b

-- Once the fuel covers `a`, one more unit changes nothing.
spare : (n a b : ℕ) → a ≤ n → xor_upto (suc n) a b ≡ xor_upto n a b
spare zero (suc a) b h = absurd (omega arith)
spare (suc n) (suc a) b h = rw (spare n (suc a / 2) (b / 2) (omega arith))
spare zero zero b h = refl
spare (suc n) zero b h = refl

enough : (n m a b : ℕ) → a ≤ m → m ≤ n → xor_upto n a b ≡ xor_upto m a b
enough n m a b h k = elim (Bool-cases (n == m)) [
  | inl same ↦ ap (λ (f : ℕ). xor_upto f a b) ((==_iff n m).0 same)
  | inr above ↦ down n above k
]
  where
    down : (n : ℕ) → n == m ≡ false → m ≤ n → xor_upto n a b ≡ xor_upto m a b
    down zero g l = absurd (ground arith)
    down (suc n) g l = elim (Bool-cases (n == m)) [
      | inl here ↦ spare n a b (ground arith) ∙ ap (λ (f : ℕ). xor_upto f a b) ((==_iff n m).0 here)
      | inr over ↦ spare n a b (ground arith) ∙ down n over (ground arith)
    ]

bit_xor_step : (a b : ℕ) → bit_xor a b ≡ bit_xor (a / 2) (b / 2) * 2 + differ (a % 2) (b % 2)
bit_xor_step zero b = simp bit_xor-bitwise (omega arith)
bit_xor_step (suc a) b =
    simp bit_xor-bitwise
      (omega (arith, enough a (suc a / 2) (suc a / 2) (b / 2) (le_refl _) (omega arith)))

-- The lowest digit of a remainder by `2 * p`, and the rest.
mod_double : (x p : ℕ) → 0 < p → x % (2 * p) ≡ x / 2 % p * 2 + x % 2
mod_double x p h = grind arith

pair_div : (x d : ℕ) → (x * 2 + d % 2) / 2 ≡ x
pair_div x d = omega arith

pair_mod : (x d : ℕ) → (x * 2 + d % 2) % 2 ≡ d % 2
pair_mod x d = omega arith

differ-digits : (x y : ℕ) → x < 2 → y < 2 → differ x y ≡ differ x y % 2
differ-digits zero y h k = omega arith
differ-digits (suc zero) zero h k = omega arith
differ-digits (suc zero) (suc zero) h k = omega arith
differ-digits (suc zero) (suc (suc y)) h k = absurd (omega arith)
differ-digits (suc (suc x)) y h k = absurd (omega arith)

-- The low `k` bits of an exclusive or are those of the low `k` bits.
pub bit_xor-mod : (k a b : ℕ) → bit_xor a b % 2 ^ k ≡ bit_xor (a % 2 ^ k) (b % 2 ^ k)
bit_xor-mod zero a b = simp mod-one
bit_xor-mod (suc k) a b =
    rw
      (
        pow-suc 2 k,
        mul_comm (2 ^ k) 2,
        bit_xor_step (a % (2 * 2 ^ k)) (b % (2 * 2 ^ k)),
        mod_double a (2 ^ k) (one-le-pow k 2 (omega arith)),
        mod_double b (2 ^ k) (one-le-pow k 2 (omega arith)),
      )
      (mod_double (bit_xor a b) (2 ^ k) (one-le-pow k 2 (omega arith))
        ∙ halves (bit_xor (a / 2) (b / 2)) (differ (a % 2) (b % 2))
            (bit_xor_step a b ∙ ap (λ (t : ℕ). bit_xor (a / 2) (b / 2) * 2 + t) digit)
        ∙ rw (pair_div, pair_div, pair_mod, pair_mod)
            (rw (bit_xor-mod k (a / 2) (b / 2), ← digit) refl))
  where
    digit : differ (a % 2) (b % 2) ≡ differ (a % 2) (b % 2) % 2
    digit = differ-digits (a % 2) (b % 2) (omega arith) (omega arith)

    halves :
        (x d : ℕ) {n : ℕ} → n ≡ x * 2 + d % 2 → n / 2 % 2 ^ k * 2 + n % 2 ≡ x % 2 ^ k * 2 + d % 2
    halves x d e = rw (e, pair_div, pair_mod)
