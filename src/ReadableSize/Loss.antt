-- ===== src/ReadableSize/Loss.antt =====
-- Where the round trip through an `f64` loses a bit.
use filestore.Base.{
  ℕ, suc, ◌+◌, ◌-◌, ◌*◌, ◌/◌, ◌%◌, ◌^◌, ◌≤◌, ◌<◌, ◌≡◌, ◌≢◌, refl, ap, sym, ◌∙◌, true, false, ◌++◌,
  arith, some, ◌==◌,
}
use native.Mathlib.Nat.{pow-le-pow_right}
use native.Mathlib.Decide.{dec_lt}
use mathlib.Core.Path.{ap₂}
use filestore.Text.{Text, codes, decimal}
use filestore.F64.{
  finite, of_u64, to_u64, one_steps, mul, overflow_steps, last_place, bit_length, nearest_even,
  round_ratio, of_steps,
}
use filestore.F64.Rounding.{bit_length-le, lt_pow-bit_length}
use filestore.F64.Convert.{of_u64_exact, mul_two_pow, of_steps_small}
use filestore.ReadableSize.{
  ReadableSize, Parsed, ok, err, serialize_str, serialize, kib, mib, gib, tib, pib, unit_of,
  scale_number, str, value, visit, visit_parsed,
}
use filestore.ReadableSize.Parsing.{from_str_unit}
use filestore.ReadableSize.RoundTrip.{reread, binary_units}

nearest_even-le : (q r d : ℕ) → nearest_even q r d ≤ q + 1
unfolding nearest_even
nearest_even-le q r d = ground arith

bit_length-eq : (x k : ℕ) → 2 ^ k ≤ x → x < 2 ^ suc k → bit_length x ≡ suc k
bit_length-eq x k lo hi = elim (dec_lt k (bit_length x)) [
  | yes longer ↦ omega (arith, bit_length-le x (suc k) hi)
  | no shorter ↦ absurd (
      omega (
        arith,
        lt_pow-bit_length x,
        pow-le-pow_right {n = 2} (omega arith) {i = bit_length x} {j = k} (omega arith),
      ))
]

-- A number of 54 bits has its last place at 2.
last_place-whole : (n : ℕ) → 2 ^ 53 ≤ n → n < 2 ^ 54 → last_place (n * one_steps / 1) ≡ 1075
unfolding last_place one_steps
last_place-whole n lo hi =
    ap (λ (k : ℕ). k - 53) (bit_length-eq (n * one_steps / 1) 1127 (omega arith) (omega arith))

even_steps : ℕ → ℕ
even_steps n =
    nearest_even (n * one_steps / (1 * 2 ^ 1075)) (n * one_steps % (1 * 2 ^ 1075)) (1 * 2 ^ 1075)

even_steps-le : (n : ℕ) → n < 2 ^ 54 → even_steps n ≤ 2 ^ 53
unfolding even_steps one_steps
even_steps-le n hi = omega (
  arith,
  nearest_even-le (n * one_steps / (1 * 2 ^ 1075)) (n * one_steps % (1 * 2 ^ 1075)) (1 * 2 ^ 1075),
)

round_ratio-even :
    (n : ℕ) → 2 ^ 53 ≤ n → n < 2 ^ 54 → round_ratio (n * one_steps) 1 ≡ even_steps n * 2 ^ 1075
unfolding round_ratio even_steps
round_ratio-even n lo hi = rw (last_place-whole n lo hi) refl

-- So it becomes an even number.
of_u64-even : (n : ℕ) → 2 ^ 53 ≤ n → n < 2 ^ 54 → of_u64 n ≡ finite false (even_steps n * 2 ^ 1075)
unfolding of_u64
of_u64-even n lo hi =
    ap (of_steps false) (round_ratio-even n lo hi)
    ∙ of_steps_small false (even_steps n * 2 ^ 1075)
        (unfold overflow_steps in omega (arith, even_steps-le n hi))

to_u64-even : (v n : ℕ) → n % 2 ≡ 1 → to_u64 (finite false (v * 2 ^ 1085)) ≢ n * 1024
unfolding to_u64
to_u64-even v n odd = ground arith

product-even :
    (n : ℕ)
    → 2 ^ 53 ≤ n
    → n < 2 ^ 54
    → mul (of_u64 n) (of_u64 kib) ≡ finite false (even_steps n * 2 ^ 1085)
product-even n lo hi =
    ap₂ mul (of_u64-even n lo hi) (of_u64_exact kib (omega arith))
    ∙ mul_two_pow false false (even_steps n) 1075 10 (even_steps-le n hi)
        (unfold overflow_steps in omega (arith, even_steps-le n hi))

bytes_of : Parsed → ℕ
bytes_of (ok s) = s.bytes
bytes_of (err e) = 0

scale_number-even :
    (s : Text) (n : ℕ)
    → 2 ^ 53 ≤ n
    → n < 2 ^ 54
    → n % 2 ≡ 1
    → scale_number s kib (some (of_u64 n)) ≢ ok (record { bytes = n * kib })
unfolding scale_number bytes_of
scale_number-even s n lo hi odd e =
    to_u64-even (even_steps n) n odd (sym (ap to_u64 (product-even n lo hi)) ∙ ap bytes_of e)

ne_test : (a : ℕ) → a ≢ 0 → (a == 0) ≡ false
ne_test a h = ground arith

-- An odd number of KiB is written with that unit.
serialize-odd :
    (n : ℕ)
    → n % 2 ≡ 1
    → serialize (record { bytes = n * kib }) ≡ serialize_str (decimal n ++ codes "KiB")
unfolding serialize
serialize-odd n odd =
    let whole : n * kib / kib ≡ n = omega arith in
    let last : (n * kib % kib == 0) ≡ true = ground arith in
    rw (
      ne_test (n * kib) (omega arith),
      ne_test (n * kib % pib) (omega arith),
      ne_test (n * kib % tib) (omega arith),
      ne_test (n * kib % gib) (omega arith),
      ne_test (n * kib % mib) (omega arith),
      last,
      whole,
    )

kib_unit : unit_of (codes "KiB") ≡ some kib
unfolding unit_of
kib_unit = refl

visit_parsed-eq-value : (p : Parsed) (s : ReadableSize) → visit_parsed p ≡ value s → p ≡ ok s
unfolding visit_parsed
visit_parsed-eq-value (ok t) s h = cc
visit_parsed-eq-value (err e) s h = cc

-- An odd number of KiB from 2^53 up is not read back as it was written.
pub visit-serialize_loses :
    (n : ℕ)
    → 2 ^ 53 ≤ n
    → n < 2 ^ 54
    → n % 2 ≡ 1
    → visit (reread (serialize (record { bytes = n * kib }))) ≢ value (record { bytes = n * kib })
unfolding visit
visit-serialize_loses n lo hi odd e =
    let read : visit (str (decimal n ++ codes "KiB")) ≡ value (record { bytes = n * kib }) =
      sym (ap (λ w. visit (reread w)) (serialize-odd n odd)) ∙ e in
    scale_number-even (decimal n ++ codes "KiB") n lo hi odd (
      sym (from_str_unit n kib (codes "KiB") binary_units.0 kib_unit)
      ∙ visit_parsed-eq-value _ _ read)
