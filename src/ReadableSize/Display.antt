-- ===== src/ReadableSize/Display.antt =====
-- What `Display` shows of a size.
use native.Mathlib.Nat.{div-add-mod', mod-lt, mul_assoc, le_trans, pow-le-pow_right, one-le-pow}
use mathlib.Core.Path.{ap₂}
use filestore.Base.{
  ℕ, ◌+◌, ◌-◌, ◌*◌, ◌/◌, ◌%◌, ◌^◌, ◌≤◌, ◌<◌, ◌≡◌, ap, sym, ◌∙◌, false, ◌++◌, arith, ◌==◌, ◌⊎◌, inl,
  inr, some,
}
use filestore.Text.{Text, codes, decimal}
use filestore.F64.{
  finite, of_u64, div, of_steps, one_steps, overflow_steps, nearest_even, round_ratio,
}
use filestore.F64.Rounding.{pow-add}
use filestore.F64.Exact.{round_ratio_exact}
use filestore.F64.Error.{nearest_even_bounds}
use filestore.F64.Convert.{of_u64_exact, of_steps_small, one_steps_pos}
use native.Mathlib.Decide.{dec_lt}
use filestore.ReadableSize.{kib, unit_of, tenths, display}
use filestore.ReadableSize.Largest.{Largest, largest, display-Largest}
use filestore.ReadableSize.RoundTrip.{one_steps_lem}

-- The whole text for a unit: tenths of it, a point between, and its name.
abbrev pub in_tenths : ℕ → Text → Text
in_tenths t name = (decimal (t / 10) ++ codes "." ++ decimal (t % 10)) ++ name

scale_le : (n a b : ℕ) → a ≤ b → n * a ≤ n * b
scale_le n a b h = grind arith

mul_pos : (a b : ℕ) → 0 < a → 0 < b → 0 < a * b
mul_pos a b ha hb = grind arith

positive_test : (k : ℕ) → 0 < k → (k == 0) ≡ false
positive_test k h = ground arith

split_steps : (i : ℕ) → i ≤ 1074 → one_steps ≡ 2 ^ (1074 - i) * 2 ^ i
split_steps i h =
    let sum : 1074 - i + i ≡ 1074 = omega arith in
    one_steps_lem ∙ sym (ap (λ (t : ℕ). 2 ^ t) sum) ∙ pow-add (1074 - i) i

scale_small : (size i : ℕ) → size ≤ 2 ^ 53 → size * 2 ^ (1074 - i) < overflow_steps
unfolding overflow_steps
scale_small size i h =
    let below : 2 ^ (1074 - i) ≤ 2 ^ 1074 =
      pow-le-pow_right {n = 2} (omega arith) {j = 1074} (omega arith) in
    omega (arith, scale_le size (2 ^ (1074 - i)) (2 ^ 1074) below)

div_whole :
    (size i : ℕ)
    → size ≤ 2 ^ 53
    → i ≤ 50
    → div (finite false (size * one_steps)) (finite false (2 ^ i * one_steps))
      ≡ finite false (size * 2 ^ (1074 - i))
unfolding div
div_whole size i h hi =
    let denominator : 0 < 2 ^ i * one_steps =
      mul_pos (2 ^ i) one_steps (one-le-pow i 2 (omega arith)) one_steps_pos in
    let e : size * one_steps * one_steps ≡ size * 2 ^ (1074 - i) * (2 ^ i * one_steps) =
      omega (arith, ap (λ (t : ℕ). size * t * one_steps) (split_steps i (omega arith))) in
    rw (positive_test (2 ^ i * one_steps) denominator) (
      ap (of_steps false) (
        ap (λ (t : ℕ). round_ratio t (2 ^ i * one_steps)) e
        ∙ round_ratio_exact size (1074 - i) (2 ^ i * one_steps) denominator h)
      ∙ of_steps_small false (size * 2 ^ (1074 - i)) (scale_small size i h))

div_exact :
    (size i : ℕ)
    → size ≤ 2 ^ 53
    → i ≤ 50
    → div (of_u64 size) (of_u64 (2 ^ i)) ≡ finite false (size * 2 ^ (1074 - i))
unfolding div
div_exact size i h hi =
    let number : of_u64 size ≡ finite false (size * one_steps) = of_u64_exact size h in
    let unit : of_u64 (2 ^ i) ≡ finite false (2 ^ i * one_steps) =
      of_u64_exact (2 ^ i) (le_trans (pow-le-pow_right (omega arith) hi) (omega arith)) in
    ap₂ div number unit ∙ div_whole size i h hi

-- `t` tenths of `unit` are as near to `size` as a tenth can be.
abbrev pub Nearest : ℕ → ℕ → ℕ → Type 0
Nearest size unit t = (2 * (t * unit) ≤ 20 * size + unit) × (20 * size ≤ 2 * (t * unit) + unit)

pub nearest_tenths : ℕ → ℕ → ℕ
nearest_tenths size i =
    let n = size * 2 ^ (1074 - i) in
    nearest_even (n * 10 / one_steps) (n * 10 % one_steps) one_steps

cancel_steps : (a b c : ℕ) → 0 < c → a * c ≤ b * c → a ≤ b
cancel_steps a b c hc h = grind arith

rescale_upper :
    (t n size unit c : ℕ)
    → n * unit ≡ size * c
    → 2 * (t * c) ≤ 2 * (n * 10) + c
    → 2 * (t * unit) * c ≤ (20 * size + unit) * c
rescale_upper t n size unit c whole h =
    omega (arith, scale_le unit (2 * (t * c)) (2 * (n * 10) + c) h)

rescale_lower :
    (t n size unit c : ℕ)
    → n * unit ≡ size * c
    → 2 * (n * 10) ≤ 2 * (t * c) + c
    → 20 * size * c ≤ (2 * (t * unit) + unit) * c
rescale_lower t n size unit c whole h =
    omega (arith, scale_le unit (2 * (n * 10)) (2 * (t * c) + c) h)

pub nearest_tenths-Nearest : (size i : ℕ) → i ≤ 1074 → Nearest size (2 ^ i) (nearest_tenths size i)
unfolding nearest_tenths
nearest_tenths-Nearest size i hi =
    let n : ℕ = size * 2 ^ (1074 - i) in
    let t : ℕ = nearest_tenths size i in
    let parts : n * 10 / one_steps * one_steps + n * 10 % one_steps ≡ n * 10 =
      div-add-mod' (n * 10) one_steps in
    let (upper, lower) =
      nearest_even_bounds (n * 10 / one_steps) (n * 10 % one_steps) one_steps
        (mod-lt (n * 10) one_steps_pos) in
    let whole : n * 2 ^ i ≡ size * one_steps =
      mul_assoc size (2 ^ (1074 - i)) (2 ^ i) ∙ ap (λ (u : ℕ). size * u) (sym (split_steps i hi)) in
    (
      cancel_steps _ _ one_steps one_steps_pos
          (rescale_upper t n size (2 ^ i) one_steps whole (rw parts at upper)),
      cancel_steps _ _ one_steps one_steps_pos
          (rescale_lower t n size (2 ^ i) one_steps whole (rw parts at lower)),
    )

pub tenths_lem :
    (size i : ℕ)
    → size ≤ 2 ^ 53
    → i ≤ 50
    → (name : Text)
    → tenths (div (of_u64 size) (of_u64 (2 ^ i))) ++ name ≡ in_tenths (nearest_tenths size i) name
unfolding tenths nearest_tenths
tenths_lem size i h hi name = ap (λ x. tenths x ++ name) (div_exact size i h hi)

-- A text that shows a size in tenths of a unit, with a name that `from_str` knows for the unit.
abbrev pub Shows : ℕ → Text → Type 0
Shows size text =
    (unit : ℕ) × (name : Text) × (t : ℕ) × (text ≡ in_tenths t name)
    × (unit_of name ≡ some unit)
    × (unit ≤ size)
    × (size < 1024 * unit)
    × Nearest size unit t

Largest-Shows : (size : ℕ) {text : Text} → size ≤ 2 ^ 53 → Largest size text → Shows size text
Largest-Shows size h (largest i name unit lo top) = (
  2 ^ i,
  name,
  nearest_tenths size i,
  tenths_lem size i h unit.bounded name,
  unit.named,
  lo,
  top,
  nearest_tenths-Nearest size i (omega (arith, unit.bounded)),
)

pub display_small :
    (size : ℕ) → size < kib → display (record { bytes = size }) ≡ decimal size ++ codes "B"
unfolding display
display_small size small = ground arith

-- A size from 1 KiB to 2^53 is shown in the largest unit that is not above it, to the nearest tenth
-- of that unit; a smaller size is shown exactly, in bytes.
pub display_nearest :
    (size : ℕ)
    → size ≤ 2 ^ 53
    → ((kib ≤ size) × Shows size (display (record { bytes = size })))
      ⊎ ((size < kib) × (display (record { bytes = size }) ≡ decimal size ++ codes "B"))
display_nearest size hi = elim (dec_lt size kib) [
  | yes small ↦ inr (small, display_small size small)
  | no large ↦ inl (omega arith, Largest-Shows size hi (display-Largest size hi (omega arith)))
]
