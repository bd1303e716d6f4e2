-- ===== src/F64/Convert.antt =====
-- Whole numbers and powers of two as `f64`, and back.
use native.Mathlib.Nat.{mul-one, mul-div_cancel}
use filestore.Base.{ℕ, ◌+◌, ◌*◌, ◌^◌, ◌≤◌, ◌<◌, ◌≡◌, ap, ◌∙◌, sym, Bool, false, arith}
use filestore.F64.{
  finite, one_steps, overflow_steps, round_ratio, of_steps, of_u64, to_u64, u64_max, mul, differ,
}
use filestore.F64.Rounding.{pow-add}
use filestore.F64.Exact.{round_ratio_exact}

pub one_steps_pos : 0 < one_steps
unfolding one_steps
one_steps_pos = omega arith

pub of_steps_small : (s : Bool) (n : ℕ) → n < overflow_steps → of_steps s n ≡ finite s n
unfolding of_steps
of_steps_small s n h = ground arith

-- A whole number of at most 53 bits, over any positive denominator, is kept.
pub round_ratio_whole :
    (n b : ℕ) → 0 < b → n ≤ 2 ^ 53 → round_ratio (n * one_steps * b) b ≡ n * one_steps
unfolding one_steps
round_ratio_whole n b hb h = round_ratio_exact n 1074 b hb h

pub whole_fits : (n : ℕ) → n ≤ 2 ^ 64 → n * one_steps < overflow_steps
unfolding one_steps overflow_steps
whole_fits n h = omega arith

pub of_u64_exact : (n : ℕ) → n ≤ 2 ^ 53 → of_u64 n ≡ finite false (n * one_steps)
unfolding of_u64
of_u64_exact n h =
    let e : round_ratio (n * one_steps) 1 ≡ n * one_steps =
      ap (λ (t : ℕ). round_ratio t 1) (sym (mul-one (n * one_steps)))
      ∙ round_ratio_whole n 1 (omega arith) h in
    ap (of_steps false) e ∙ of_steps_small false (n * one_steps) (whole_fits n (omega arith))

-- A value of at most 53 bits times a power of two is exact, while it stays finite.
pub mul_two_pow :
    (s t : Bool) (m j i : ℕ)
    → m ≤ 2 ^ 53
    → m * 2 ^ (j + i) < overflow_steps
    → mul (finite s (m * 2 ^ j)) (finite t (2 ^ i * one_steps))
      ≡ finite (differ s t) (m * 2 ^ (j + i))
unfolding mul
mul_two_pow s t m j i h fits =
    let e : m * 2 ^ j * (2 ^ i * one_steps) ≡ m * 2 ^ (j + i) * one_steps =
      omega (arith, ap (λ (t : ℕ). m * t * one_steps) (pow-add j i)) in
    ap (of_steps (differ s t)) (
      ap (λ (t : ℕ). round_ratio t one_steps) e
      ∙ round_ratio_exact m (j + i) one_steps one_steps_pos h)
    ∙ of_steps_small (differ s t) (m * 2 ^ (j + i)) fits

pub to_u64_whole : (n : ℕ) → n ≤ u64_max → to_u64 (finite false (n * one_steps)) ≡ n
unfolding to_u64
to_u64_whole n h = rw (mul-div_cancel n one_steps_pos) (ground arith)
