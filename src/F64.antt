-- ===== src/F64.antt =====
-- The `f64` operations that the program uses: conversions, `*`, `/`, comparison, `max`.
-- A finite value is a sign and a whole number of steps of 2^-1074, the smallest positive `f64`;
-- results are rounded to nearest, ties to even, at 53 significant bits.
pub mod Rounding
pub mod Exact
pub mod Error
pub mod Convert
pub mod Parse
pub mod Tenths
use filestore.Base.{
  ℕ, zero, suc, ◌+◌, ◌-◌, ◌*◌, ◌/◌, ◌%◌, ◌^◌, Bool, true, false, ◌&&◌, ltb, leb, ◌==◌,
  if◌then◌else◌,
}

pub data F64 : Type 0 where
  finite : Bool → ℕ → F64
  infinite : Bool → F64
  nan : F64

-- 1.0, in steps.
unfoldable pub one_steps : ℕ
one_steps = 2 ^ 1074

-- How many binary digits `n` has.
unfoldable pub bits_from : ℕ → ℕ → ℕ
bits_from zero n = 0
bits_from (suc fuel) n = elim (n == 0) [ true ↦ 0 | false ↦ suc (bits_from fuel (n / 2)) ]

unfoldable pub bit_length : ℕ → ℕ
unfolding bits_from
bit_length n = bits_from n n

-- The binary exponent of the last place of a value with the whole part `n`.
unfoldable pub last_place : ℕ → ℕ
unfolding bit_length
last_place n = bit_length n - 53

-- The quotient of `q * d + r` by `d`, to nearest, ties to even.
unfoldable pub nearest_even : ℕ → ℕ → ℕ → ℕ
nearest_even q r d =
    if ltb (2 * r) d then q else if ltb d (2 * r) then q + 1 else if q % 2 == 0 then q else q + 1

-- The fraction `a / b` in steps, at the precision of an `f64`.
unfoldable pub round_ratio : ℕ → ℕ → ℕ
unfolding last_place nearest_even
round_ratio a b =
    let k = last_place (a / b) in let d = b * 2 ^ k in nearest_even (a / d) (a % d) d * 2 ^ k

-- 2^1024, in steps: what rounds up to it is infinite.
unfoldable pub overflow_steps : ℕ
overflow_steps = 2 ^ 2098

unfoldable pub of_steps : Bool → ℕ → F64
unfolding overflow_steps
of_steps negative n = if ltb n overflow_steps then finite negative n else infinite negative

-- `n as f64`
unfoldable pub of_u64 : ℕ → F64
unfolding of_steps round_ratio one_steps
of_u64 n = of_steps false (round_ratio (n * one_steps) 1)

-- `x as u64` cuts the fraction off and saturates.
abbrev pub u64_max : ℕ
u64_max = 2 ^ 64 - 1

unfoldable pub to_u64 : F64 → ℕ
unfolding one_steps
to_u64 (finite false n) = if ltb (n / one_steps) u64_max then n / one_steps else u64_max
to_u64 (finite true n) = 0
to_u64 (infinite false) = u64_max
to_u64 (infinite true) = 0
to_u64 nan = 0

abbrev pub differ : Bool → Bool → Bool
differ true true = false
differ true false = true
differ false b = b

unfoldable pub mul : F64 → F64 → F64
unfolding of_steps round_ratio one_steps
mul (finite s a) (finite t b) = of_steps (differ s t) (round_ratio (a * b) one_steps)
mul (finite s a) (infinite t) = if a == 0 then nan else infinite (differ s t)
mul (infinite s) (finite t b) = if b == 0 then nan else infinite (differ s t)
mul (infinite s) (infinite t) = infinite (differ s t)
mul nan y = nan
mul (finite s a) nan = nan
mul (infinite s) nan = nan

unfoldable pub div : F64 → F64 → F64
unfolding of_steps round_ratio one_steps
div (finite s a) (finite t b) =
    if b == 0
    then (if a == 0 then nan else infinite (differ s t))
    else of_steps (differ s t) (round_ratio (a * one_steps) b)
div (finite s a) (infinite t) = finite (differ s t) 0
div (infinite s) (finite t b) = infinite (differ s t)
div (infinite s) (infinite t) = nan
div nan y = nan
div (finite s a) nan = nan
div (infinite s) nan = nan

abbrev le_signed : Bool → ℕ → Bool → ℕ → Bool
le_signed false a false b = leb a b
le_signed true a true b = leb b a
le_signed true a false b = true
le_signed false a true b = a == 0 && b == 0

-- `x <= y`; a NaN is comparable to nothing.
unfoldable pub le : F64 → F64 → Bool
le nan y = false
le (finite s a) nan = false
le (infinite s) nan = false
le (finite s a) (finite t b) = le_signed s a t b
le (finite s a) (infinite t) = if t then false else true
le (infinite s) (finite t b) = s
le (infinite s) (infinite t) = if s then true else (if t then false else true)

-- `x.max(y)`, which prefers a number to a NaN.
unfoldable pub max : F64 → F64 → F64
unfolding le
max nan y = y
max (finite s a) nan = finite s a
max (infinite s) nan = infinite s
max (finite s a) (finite t b) = if le (finite s a) (finite t b) then finite t b else finite s a
max (finite s a) (infinite t) = if le (finite s a) (infinite t) then infinite t else finite s a
max (infinite s) (finite t b) = if le (infinite s) (finite t b) then finite t b else infinite s
max (infinite s) (infinite t) = if le (infinite s) (infinite t) then infinite t else infinite s

abbrev pub nought : F64
nought = finite false 0

unfoldable pub one : F64
unfolding one_steps
one = finite false one_steps
