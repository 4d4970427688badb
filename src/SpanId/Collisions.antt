-- ===== src/SpanId/Collisions.antt =====
-- log_record_port.cpp: how much of its inputs `derive_span_id` keeps.
use deeplog.Base.{
  ==_iff, Bool, Bool-cases, ap, ap₂, arith, bit_xor, bit_xor-mod, inl, inr, not, refl, shl64, suc,
  sym, true, u64, zero, ℕ, ◌%◌, ◌&&◌, ◌*◌, ◌+◌, ◌<◌, ◌==◌, ◌^◌, ◌||◌, ◌↔◌, ◌∙◌, ◌≡◌, ◌≤◌,
}
use mathlib.Core.Path.{subst}
use deeplog.SpanId.{xx_hash64_round, absorb, avalanche, derive_span_id, prime64_1, prime64_4}

-- The round keeps six bits of its lane below bit 37, and nothing of it below bit 10.
round-mod_37 : (lane : ℕ) → xx_hash64_round 0 lane % 2 ^ 37 ≡ xx_hash64_round 0 (lane % 64) % 2 ^ 37
unfolding xx_hash64_round
round-mod_37 lane = omega arith

round-mod_10 : (lane : ℕ) → xx_hash64_round 0 lane % 2 ^ 10 ≡ 0
unfolding xx_hash64_round
round-mod_10 lane = omega arith

-- What `absorb` does with the accumulator and the round once they are mixed.
scramble : ℕ → ℕ
scramble mixed = u64 (u64 (shl64 mixed 27 * prime64_1) + prime64_4)

scramble-mod_37 : (m : ℕ) → scramble m ≡ scramble (m % 2 ^ 37)
unfolding scramble
scramble-mod_37 m = omega arith

scramble-mod_10 : (m : ℕ) → scramble m % 2 ^ 37 ≡ scramble (m % 2 ^ 10) % 2 ^ 37
unfolding scramble
scramble-mod_10 m = omega arith

-- A block keeps 37 bits of the accumulator and 6 of its input.
absorb-mod_37 :
    (acc lane : ℕ)
    → absorb acc lane ≡ scramble (bit_xor (acc % 2 ^ 37) (xx_hash64_round 0 (lane % 64) % 2 ^ 37))
unfolding absorb scramble
absorb-mod_37 acc lane =
    unfold scramble in
    scramble-mod_37 (bit_xor acc (xx_hash64_round 0 lane))
    ∙ ap scramble (rw (bit_xor-mod 37 acc (xx_hash64_round 0 lane), round-mod_37 lane))

-- Of what it leaves in the 37 bits that the next block reads, ten old bits decide.
absorb-low :
    (acc lane : ℕ) → absorb acc lane % 2 ^ 37 ≡ scramble (bit_xor (acc % 2 ^ 10) 0) % 2 ^ 37
unfolding absorb
absorb-low acc lane =
    unfold scramble in
    scramble-mod_10 (bit_xor acc (xx_hash64_round 0 lane))
    ∙ ap (λ (t : ℕ). scramble t % 2 ^ 37)
        (rw (bit_xor-mod 10 acc (xx_hash64_round 0 lane), round-mod_10 lane))

absorb_cong :
    (acc acc' lane lane' : ℕ)
    → acc % 2 ^ 37 ≡ acc' % 2 ^ 37
    → lane % 64 ≡ lane' % 64
    → absorb acc lane ≡ absorb acc' lane'
absorb_cong acc acc' lane lane' e f =
    absorb-mod_37 acc lane
    ∙ ap₂ (λ (x y : ℕ). scramble (bit_xor x (xx_hash64_round 0 y % 2 ^ 37))) e f
    ∙ sym (absorb-mod_37 acc' lane')

-- A block forgets its input but for bits that the next block forgets.
absorb-low_cong :
    (acc acc' lane lane' : ℕ)
    → acc % 2 ^ 37 ≡ acc' % 2 ^ 37
    → absorb acc lane % 2 ^ 37 ≡ absorb acc' lane' % 2 ^ 37
absorb-low_cong acc acc' lane lane' e =
    absorb-low acc lane
    ∙ ap (λ (t : ℕ). scramble (bit_xor t 0) % 2 ^ 37)
        (low acc ∙ ap (λ (t : ℕ). t % 2 ^ 10) e ∙ sym (low acc'))
    ∙ sym (absorb-low acc' lane')
  where
    low : (x : ℕ) → x % 2 ^ 10 ≡ x % 2 ^ 37 % 2 ^ 10
    low x = omega arith

pub derive_span_id-mod_64 :
    (p0 p1 q0 q1 ctr : ℕ) → derive_span_id p0 p1 ctr ≡ derive_span_id q0 q1 (ctr % 64)
unfolding derive_span_id
derive_span_id-mod_64 p0 p1 q0 q1 ctr = ap avalanche (
    absorb_cong _ _ ctr (ctr % 64) (absorb-low_cong _ _ p1 q1 (absorb-low_cong _ _ p0 q0 refl))
      (omega arith))

conjunct-left : (b c : Bool) → b && c ≡ true → b ≡ true
conjunct-left b c h = ground arith

conjunct-right : (b c : Bool) → b && c ≡ true → c ≡ true
conjunct-right b c h = ground arith

-- The counter residues from `start` on, `left` of them, are tried one after another.
each_residue : (ℕ → Bool) → ℕ → ℕ → Bool
each_residue test zero start = true
each_residue test (suc left) start = test start && each_residue test left (start + 1)

tried :
    (test : ℕ → Bool) (left start ctr : ℕ)
    → each_residue test left start ≡ true
    → start ≤ ctr
    → ctr < start + left
    → test ctr ≡ true
unfolding each_residue
tried test zero start ctr passed low high = absurd (omega arith)
tried test (suc left) start ctr passed low high = elim (Bool-cases (start == ctr)) [
  | inl here ↦
      subst (λ (n : ℕ). test n ≡ true) ((==_iff start ctr).0 here)
        (conjunct-left (test start) (each_residue test left (start + 1)) passed)
  | inr later ↦
      tried test left (start + 1) ctr
        (conjunct-right (test start) (each_residue test left (start + 1)) passed) (ground arith)
        (omega arith)
]

abbrev distinct : ℕ → ℕ → Bool
distinct i j = i == j || not (derive_span_id 0 0 i == derive_span_id 0 0 j)

distinct_table : each_residue (λ i. each_residue (distinct i) 64 0) 64 0 ≡ true
unfolding each_residue derive_span_id absorb avalanche xx_hash64_round
distinct_table = refl

distinct_sound : (i j : ℕ) → i < 64 → j < 64 → distinct i j ≡ true
distinct_sound i j h k =
    tried (distinct i) 64 0 j
      (tried (λ x. each_residue (distinct x) 64 0) 64 0 i distinct_table (omega arith) h)
      (omega arith) k

small-eq : (i j : ℕ) → i < 64 → j < 64 → derive_span_id 0 0 i ≡ derive_span_id 0 0 j → i ≡ j
small-eq i j h k e = ground (arith, distinct_sound i j h k)

-- Two spans get one id exactly when their counters agree modulo 64, whatever their traces: the
-- trace id does not enter the span id, and of the counter only six bits do.
pub derive_span_id-eq_iff :
    (p0 p1 q0 q1 ctr ctr' : ℕ)
    → (derive_span_id p0 p1 ctr ≡ derive_span_id q0 q1 ctr') ↔ (ctr % 64 ≡ ctr' % 64)
derive_span_id-eq_iff p0 p1 q0 q1 ctr ctr' = (
  λ e.
      small-eq (ctr % 64) (ctr' % 64) (omega arith) (omega arith)
        (sym (derive_span_id-mod_64 p0 p1 0 0 ctr) ∙ e ∙ derive_span_id-mod_64 q0 q1 0 0 ctr'),
  λ e.
      derive_span_id-mod_64 p0 p1 0 0 ctr
      ∙ ap (derive_span_id 0 0) e
      ∙ sym (derive_span_id-mod_64 q0 q1 0 0 ctr'),
)
