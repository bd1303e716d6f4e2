-- ===== src/Sampler/Probability.antt =====
-- The decision for one trace: a threshold on 63 bits of its id.
use mathlib.Core.Path.{ap₂}
use native.Mathlib.Decide.{dec_lt}
use filestore.Base.{
  ℕ, ◌+◌, ◌*◌, ◌/◌, ◌^◌, ◌≤◌, ◌<◌, ◌≡◌, ◌↔◌, refl, ap, ◌∙◌, true, false, List, arith, leb, lt→leb,
  le→leb, leb→le, if◌then◌else◌,
}
use filestore.F64.{
  F64, finite, infinite, nan, le, max, mul, of_u64, to_u64, one, nought, one_steps, overflow_steps,
  u64_max,
}
use filestore.F64.Rounding.{pow-add}
use filestore.F64.Convert.{mul_two_pow}
use filestore.Sampler.{sample_based_on_probability, trace_id_low, record_and_sample}

-- What an `f64` can be: at most 53 significant bits.
abbrev pub IsRepresentable : F64 → Type 0
IsRepresentable (finite s n) = (m : ℕ) × (j : ℕ) × (m ≤ 2 ^ 53) × (n ≡ m * 2 ^ j)
IsRepresentable (infinite s) = Unit {0}
IsRepresentable nan = Unit {0}

-- How many of the 2^63 values of the id's low half are sampled at a probability.
unfoldable pub threshold : F64 → ℕ
threshold (finite true n) = 0
threshold (finite false n) = if leb one_steps n then 2 ^ 63 else n * 2 ^ 63 / one_steps
threshold (infinite true) = 0
threshold (infinite false) = 2 ^ 63
threshold nan = 0

sample_certain :
    (prob : F64) (bytes : List ℕ)
    → le one prob ≡ true
    → sample_based_on_probability prob bytes ≡ record_and_sample
unfolding sample_based_on_probability
sample_certain prob bytes e = rw e

sample_below :
    (prob : F64) (bytes : List ℕ) (bound : ℕ)
    → le one prob ≡ false
    → to_u64 (mul (max prob nought) (of_u64 (2 ^ 63))) ≡ bound
    → (sample_based_on_probability prob bytes ≡ record_and_sample)
      ↔ (trace_id_low bytes / 2 < bound)
unfolding sample_based_on_probability
sample_below prob bytes bound e b = rw (e, b) (ground arith)

two_pow_63 : of_u64 (2 ^ 63) ≡ finite false (2 ^ 63 * one_steps)
unfolding of_u64
two_pow_63 = refl

max-nought : (n : ℕ) → max (finite false n) nought ≡ finite false n
unfolding max
max-nought n = ground arith

to_u64-small : (n : ℕ) → n / one_steps < u64_max → to_u64 (finite false n) ≡ n / one_steps
unfolding to_u64
to_u64-small n h = ground arith

zero_bound : to_u64 (mul nought (of_u64 (2 ^ 63))) ≡ 0
unfolding to_u64 mul of_u64
zero_bound = refl

-- Below 1.0 the scaled probability is exact, and its whole part is the bound.
bound_lem :
    (n m j : ℕ)
    → m ≤ 2 ^ 53
    → n ≡ m * 2 ^ j
    → n < one_steps
    → to_u64 (mul (max (finite false n) nought) (of_u64 (2 ^ 63))) ≡ n * 2 ^ 63 / one_steps
bound_lem n m j hm e h =
    let scaled : m * 2 ^ (j + 63) ≡ n * 2 ^ 63 =
      omega (arith, ap (λ (t : ℕ). m * t) (pow-add j 63)) in
    let fits : m * 2 ^ (j + 63) < overflow_steps =
      rw scaled (unfold one_steps overflow_steps in omega arith) in
    let product : mul (finite false n) (finite false (2 ^ 63 * one_steps))
        ≡ finite false (n * 2 ^ 63) =
      ap (λ (k : ℕ). mul (finite false k) (finite false (2 ^ 63 * one_steps))) e
      ∙ mul_two_pow false false m j 63 hm fits
      ∙ ap (finite false) scaled in
    ap to_u64 (ap₂ mul (max-nought n) two_pow_63 ∙ product)
    ∙ to_u64-small (n * 2 ^ 63) (unfold one_steps in omega arith)

-- At a probability that an `f64` can hold, and with an id whose low half fits 64 bits, a trace is
-- recorded exactly when that half, without its last bit, is below the threshold of the
-- probability: all traces from 1.0 on, none for a negative number or a NaN.
pub sample_iff :
    (prob : F64) (bytes : List ℕ)
    → IsRepresentable prob
    → trace_id_low bytes < 2 ^ 64
    → (sample_based_on_probability prob bytes ≡ record_and_sample)
      ↔ (trace_id_low bytes / 2 < threshold prob)
unfolding threshold le one max
sample_iff (finite false n) bytes (m, j, hm, e) h = elim (dec_lt n one_steps) [
  | yes low ↦ rw (lt→leb one_steps n low) (
      sample_below (finite false n) bytes (n * 2 ^ 63 / one_steps) (lt→leb one_steps n low)
        (bound_lem n m j hm e low))
  | no high ↦ rw (le→leb one_steps n (omega arith)) (
    λ _. omega arith,
    λ _. sample_certain (finite false n) bytes (le→leb one_steps n (omega arith)),
  )
]
sample_iff (finite true n) bytes r h = sample_below (finite true n) bytes 0 refl zero_bound
sample_iff (infinite false) bytes r h =
    (λ _. omega arith, λ _. sample_certain (infinite false) bytes refl)
sample_iff (infinite true) bytes r h = sample_below (infinite true) bytes 0 refl zero_bound
sample_iff nan bytes r h = sample_below nan bytes 0 refl zero_bound

low_mono : (a b : ℕ) → a ≤ b → a * 2 ^ 63 / one_steps ≤ b * 2 ^ 63 / one_steps
unfolding one_steps
low_mono a b h = omega arith

low_top : (a : ℕ) → a < one_steps → a * 2 ^ 63 / one_steps ≤ 2 ^ 63
unfolding one_steps
low_top a h = omega arith

low_zero : (if leb one_steps 0 then 2 ^ 63 else 0 * 2 ^ 63 / one_steps) ≡ 0
unfolding one_steps
low_zero = refl

threshold_mono : (p q : F64) → le p q ≡ true → threshold p ≤ threshold q
unfolding threshold le
threshold_mono (finite false a) (finite false b) h =
    ground (arith, low_mono a b, low_top a, leb→le a b h)
threshold_mono (finite false a) (finite true b) h =
    let none_below : a ≡ 0 = ground arith in rw (none_below, low_zero) (omega arith)
threshold_mono (finite true a) y h = omega arith
threshold_mono (finite false a) (infinite false) h = ground (arith, low_top a)
threshold_mono (finite false a) (infinite true) h = cc
threshold_mono (finite false a) nan h = cc
threshold_mono (infinite false) (finite t b) h = cc
threshold_mono (infinite false) (infinite false) h = omega arith
threshold_mono (infinite false) (infinite true) h = cc
threshold_mono (infinite false) nan h = cc
threshold_mono (infinite true) y h = omega arith
threshold_mono nan y h = cc

-- Raising a probability keeps every trace that was recorded: for p <= q that an `f64` can hold,
-- and an id whose low half fits 64 bits, what is sampled at p is sampled at q.
pub sample_mono :
    (p q : F64) (bytes : List ℕ)
    → IsRepresentable p
    → IsRepresentable q
    → trace_id_low bytes < 2 ^ 64
    → le p q ≡ true
    → sample_based_on_probability p bytes ≡ record_and_sample
    → sample_based_on_probability q bytes ≡ record_and_sample
sample_mono p q bytes hp hq h pq e =
    (sample_iff q bytes hq h).1
      (omega (arith, (sample_iff p bytes hp h).0 e, threshold_mono p q pq))
