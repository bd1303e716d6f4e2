-- ===== src/F64/Tenths.antt =====
-- A number of tenths times a power of two, in `f64`: the two roundings cost at most two units.
use native.Mathlib.Nat.{le_trans, pow-le-pow_right}
use mathlib.Core.Path.{ap₂}
use filestore.Base.{
  ℕ, ◌+◌, ◌-◌, ◌*◌, ◌/◌, ◌^◌, ◌≤◌, ◌<◌, ◌≡◌, refl, ap, sym, ◌∙◌, true, false, arith, lt→ltb, ltb,
}
use filestore.F64.{
  finite, of_u64, to_u64, u64_max, one_steps, overflow_steps, last_place, round_ratio, of_steps,
  mul,
}
use filestore.F64.Rounding.{pow-add, bit_length-le}
use filestore.F64.Convert.{of_u64_exact, mul_two_pow, of_steps_small}
use filestore.F64.Error.{Rounded, round_ratio-Rounded}

-- `t` tenths of `2 ^ i`, which stay below `2 ^ 54` in all.
abbrev pub InRange : ℕ → ℕ → Type 0
InRange t i = (i ≤ 50) × (t * 2 ^ i < 11 * 2 ^ 53)

abbrev place : ℕ → ℕ
place t = last_place (t * one_steps / 10)

cancel_lt : (q n d : ℕ) → q * d < n * d → q < n
cancel_lt q n d h = grind arith

scale_le : (n a b : ℕ) → a ≤ b → n * a ≤ n * b
scale_le n a b h = grind arith

place-le : (t i : ℕ) → InRange t i → place t + i ≤ 1075
unfolding last_place one_steps
place-le t i (hi, h) =
    let n : ℕ = t * 2 ^ 1074 / 10 in
    let sum : 1128 - i + i ≡ 1128 = omega arith in
    let split : 2 ^ 1128 ≡ 2 ^ (1128 - i) * 2 ^ i =
      sym (ap (λ (k : ℕ). 2 ^ k) sum) ∙ pow-add (1128 - i) i in
    let whole : 2 ^ i * (n * 10) ≤ 2 ^ i * (t * 2 ^ 1074) = scale_le (2 ^ i) _ _ (omega arith) in
    let fits : n < 2 ^ (1128 - i) = cancel_lt n (2 ^ (1128 - i)) (2 ^ i) (omega arith) in
    omega (arith, bit_length-le n (1128 - i) fits)

-- The product in steps, cut to a whole number.
near_product :
    (T y p : ℕ)
    → 20 * (y * p) ≤ 2 * (T * one_steps) + 10 * p
    → 2 * (T * one_steps) ≤ 20 * (y * p) + 10 * p
    → p ≤ 2 * one_steps
    → (10 * (y * p / one_steps) ≤ T + 10) × (T < 10 * (y * p / one_steps) + 20)
unfolding one_steps
near_product T y p upper lower h = (omega arith, omega arith)

-- What is read of `t` tenths of a unit of `2 ^ i`.
unfoldable pub read_tenths : ℕ → ℕ → ℕ
unfolding to_u64 mul of_steps
read_tenths t i = to_u64 (mul (of_steps false (round_ratio (t * one_steps) 10)) (of_u64 (2 ^ i)))

top_place : (p : ℕ) → p ≤ 1075 → 2 ^ p ≤ 2 * one_steps
unfolding one_steps
top_place p h = omega (arith, pow-le-pow_right {n = 2} (omega arith) {j = 1075} h)

digits_fit : (y p : ℕ) → y ≤ 2 ^ 53 → p ≤ 2 * one_steps → y * p < overflow_steps
unfolding one_steps overflow_steps
digits_fit y p hy hp = omega (arith, scale_le y p (2 ^ 1075) hp, scale_le (2 ^ 1075) y (2 ^ 53) hy)

to_u64_fits :
    (y p : ℕ) → y ≤ 2 ^ 53 → p ≤ 2 * one_steps → to_u64 (finite false (y * p)) ≡ y * p / one_steps
unfolding to_u64 one_steps
to_u64_fits y p hy hp =
    let below : ltb (y * p / one_steps) u64_max ≡ true =
      lt→ltb (y * p / one_steps) u64_max
        (omega (arith, scale_le y p (2 ^ 1075) hp, scale_le (2 ^ 1075) y (2 ^ 53) hy)) in
    rw below refl

read_tenths_lem :
    (t i : ℕ)
    → InRange t i
    → (r : Rounded (t * one_steps) 10) → read_tenths t i ≡ r.digits * 2 ^ (place t + i) / one_steps
unfolding read_tenths
read_tenths_lem t i h r =
    let k : ℕ = place t in
    let all : k + i ≤ 1075 = place-le t i h in
    let number_fits : r.digits * 2 ^ k < overflow_steps =
      digits_fit r.digits (2 ^ k) r.short (top_place k (omega arith)) in
    let fits : r.digits * 2 ^ (k + i) < overflow_steps =
      digits_fit r.digits (2 ^ (k + i)) r.short (top_place (k + i) all) in
    let number : of_steps false (round_ratio (t * one_steps) 10) ≡ finite false (r.digits * 2 ^ k) =
      ap (of_steps false) r.rounded ∙ of_steps_small false (r.digits * 2 ^ k) number_fits in
    let unit : of_u64 (2 ^ i) ≡ finite false (2 ^ i * one_steps) =
      of_u64_exact (2 ^ i) (le_trans (pow-le-pow_right (omega arith) h.0) (omega arith)) in
    ap to_u64 (ap₂ mul number unit ∙ mul_two_pow false false r.digits k i r.short fits)
    ∙ to_u64_fits r.digits (2 ^ (k + i)) r.short (top_place (k + i) all)

double_place :
    (y p q i T t : ℕ)
    → T ≡ t * 2 ^ i
    → q ≡ p * 2 ^ i
    → 2 * (y * (10 * p)) ≤ 2 * (t * one_steps) + 10 * p
    → 2 * (t * one_steps) ≤ 2 * (y * (10 * p)) + 10 * p
    → (20 * (y * q) ≤ 2 * (T * one_steps) + 10 * q) × (2 * (T * one_steps) ≤ 20 * (y * q) + 10 * q)
double_place y p q i T t eT eq upper lower = (
  rw (eT, eq) (omega (arith, scale_le (2 ^ i) _ _ upper)),
  rw (eT, eq) (omega (arith, scale_le (2 ^ i) _ _ lower)),
)

-- Reading tenths of a unit is exact up to one byte above and two below.
pub read_tenths_near :
    (t i : ℕ)
    → InRange t i
    → (10 * read_tenths t i ≤ t * 2 ^ i + 10) × (t * 2 ^ i < 10 * read_tenths t i + 20)
read_tenths_near t i h =
    let r : Rounded (t * one_steps) 10 = round_ratio-Rounded (t * one_steps) 10 (omega arith) in
    let (upper, lower) =
      double_place r.digits (2 ^ place t) (2 ^ (place t + i)) i (t * 2 ^ i) t refl
        (pow-add (place t) i) r.upper r.lower in
    rw (read_tenths_lem t i h r) (
      near_product (t * 2 ^ i) r.digits (2 ^ (place t + i)) upper lower
        (top_place (place t + i) (place-le t i h)))
