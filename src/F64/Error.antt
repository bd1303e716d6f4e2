-- ===== src/F64/Error.antt =====
-- How far rounding moves a value.
use native.Mathlib.Nat.{div-add-mod', mod-lt, one-le-pow, pow-le-pow_right}
use filestore.Base.{ℕ, ◌+◌, ◌-◌, ◌*◌, ◌/◌, ◌%◌, ◌^◌, ◌≤◌, ◌<◌, ◌≡◌, refl, ◌⊎◌, inl, inr, arith}
use filestore.F64.{nearest_even, round_ratio, last_place, bit_length}
use filestore.F64.Rounding.{pow-add, lt_pow-bit_length}

nearest_even-cases :
    (q r d : ℕ)
    → ((nearest_even q r d ≡ q) × (2 * r ≤ d)) ⊎ ((nearest_even q r d ≡ q + 1) × (d ≤ 2 * r))
unfolding nearest_even
nearest_even-cases q r d = ground arith

-- The nearest whole number is at most half a step away.
pub nearest_even_bounds :
    (q r d : ℕ)
    → r < d
    → (2 * (nearest_even q r d * d) ≤ 2 * (q * d + r) + d)
      × (2 * (q * d + r) ≤ 2 * (nearest_even q r d * d) + d)
unfolding nearest_even
nearest_even_bounds q r d h = elim (nearest_even-cases q r d) [
  | inl (e, low) ↦ rw e (omega arith, omega arith)
  | inr (e, high) ↦ rw e (omega arith, omega arith)
]

-- What `a / b` is rounded to has 53 significant bits, and is at most half of its last place away.
pub record Rounded (a b : ℕ) : Type 0 where
  pub digits : ℕ
  pub rounded : round_ratio a b ≡ digits * 2 ^ last_place (a / b)
  pub short : digits ≤ 2 ^ 53
  pub upper : 2 * (digits * (b * 2 ^ last_place (a / b))) ≤ 2 * a + b * 2 ^ last_place (a / b)
  pub lower : 2 * a ≤ 2 * (digits * (b * 2 ^ last_place (a / b))) + b * 2 ^ last_place (a / b)

scale_le : (n a b : ℕ) → a ≤ b → n * a ≤ n * b
scale_le n a b h = grind arith

-- A whole part has at most 53 bits above its last place.
lt_pow-last_place : (n : ℕ) → n < 2 ^ 53 * 2 ^ last_place n
unfolding last_place
lt_pow-last_place n =
    let longer : 2 ^ bit_length n ≤ 2 ^ (53 + (bit_length n - 53)) =
      pow-le-pow_right {n = 2} (omega arith) {j = 53 + (bit_length n - 53)} (omega arith) in
    omega (arith, lt_pow-bit_length n, longer, pow-add 53 (bit_length n - 53))

mul_pos : (a b : ℕ) → 0 < a → 0 < b → 0 < a * b
mul_pos a b ha hb = grind arith

cancel_lt : (q n d : ℕ) → q * d < n * d → q < n
cancel_lt q n d h = grind arith

-- The quotient by the last place fits.
quotient_short : (a b p : ℕ) → 0 < b → 0 < p → a / b < 2 ^ 53 * p → a / (b * p) < 2 ^ 53
quotient_short a b p hb hp h =
    let parts : a / b * b + a % b ≡ a = div-add-mod' a b in
    let split : a / (b * p) * (b * p) + a % (b * p) ≡ a = div-add-mod' a (b * p) in
    let top : b * (a / b + 1) ≤ b * (2 ^ 53 * p) = scale_le b _ _ (omega arith) in
    cancel_lt (a / (b * p)) (2 ^ 53) (b * p) (omega (arith, mod-lt a hb))

nearest_even-le : (q r d : ℕ) → nearest_even q r d ≤ q + 1
unfolding nearest_even
nearest_even-le q r d = ground arith

pub round_ratio-Rounded : (a b : ℕ) → 0 < b → Rounded a b
unfolding round_ratio
round_ratio-Rounded a b hb =
    let p : ℕ = 2 ^ last_place (a / b) in
    let pos : 0 < p = one-le-pow (last_place (a / b)) 2 (omega arith) in
    let d : ℕ = b * p in
    let split : a / d * d + a % d ≡ a = div-add-mod' a d in
    let (upper, lower) = nearest_even_bounds (a / d) (a % d) d (mod-lt a (mul_pos b p hb pos)) in
    let short : a / d < 2 ^ 53 = quotient_short a b p hb pos (lt_pow-last_place (a / b)) in
    record {
      digits = nearest_even (a / d) (a % d) d;
      rounded = refl;
      short = omega (arith, nearest_even-le (a / d) (a % d) d);
      upper = rw split at upper;
      lower = rw split at lower;
    }
