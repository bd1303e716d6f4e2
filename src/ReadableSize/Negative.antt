-- ===== src/ReadableSize/Negative.antt =====
-- Negative sizes: refused as numbers, taken for 0 as text.
use filestore.Base.{
  ℕ, ◌*◌, ◌≡◌, ◌⊎◌, refl, ap, ◌∙◌, Bool, true, false, ◌∷◌, ◌++◌, arith, some, inl, inr,
}
use filestore.Base.Int.{negsuc}
use filestore.Text.{Text, decimal, is_whitespace}
use filestore.F64.{F64, finite, infinite, of_u64, to_u64, mul, of_steps, round_ratio, one_steps}
use filestore.F64.Parse.Decimal.{parse_f64-minus}
use filestore.ReadableSize.{
  ok, from_str, is_number_char, unit_of, scale_number, with_unit, str, i64, value, invalid_value,
  visit, visit_parsed,
}
use filestore.ReadableSize.Parsing.{IsUnit, NumberChar, decimal-NumberChar, from_str-append}

of_steps-cases : (s : Bool) (n : ℕ) → (of_steps s n ≡ finite s n) ⊎ (of_steps s n ≡ infinite s)
unfolding of_steps
of_steps-cases s n = ground arith

to_u64-of_steps : (n : ℕ) → to_u64 (of_steps true n) ≡ 0
unfolding to_u64 of_steps
to_u64-of_steps n = ground arith

-- A negative number is cut to 0, whatever positive number it is multiplied by.
to_u64-mul_finite : (a b : ℕ) → to_u64 (mul (finite true a) (finite false b)) ≡ 0
unfolding mul
to_u64-mul_finite a b = to_u64-of_steps (round_ratio (a * b) one_steps)

to_u64-mul_infinite : (y : F64) → y ≡ infinite false → (a : ℕ) → to_u64 (mul (finite true a) y) ≡ 0
unfolding mul to_u64
to_u64-mul_infinite y e a = rw e (ground arith)

infinite-mul : (b : ℕ) → to_u64 (mul (infinite true) (of_steps false b)) ≡ 0
unfolding mul to_u64 of_steps
infinite-mul b = ground arith

to_u64-mul_negative : (a b : ℕ) → to_u64 (mul (of_steps true a) (of_steps false b)) ≡ 0
to_u64-mul_negative a b = elim (of_steps-cases true a) [
  | inr e ↦ rw e (infinite-mul b)
  | inl e ↦ rw e (elim (of_steps-cases false b) [
    | inl f ↦ rw f (to_u64-mul_finite a b)
    | inr f ↦ to_u64-mul_infinite (of_steps false b) f a
  ])
]

minus-NumberChar : NumberChar b'-'
unfolding is_number_char is_whitespace
minus-NumberChar = (refl, refl, omega arith)

with_unit-minus :
    (s : Text) (n k : ℕ) → with_unit s (b'-' ∷ decimal n) (some k) ≡ ok (record { bytes = 0 })
unfolding with_unit of_u64
with_unit-minus s n k =
    ap (scale_number s k) (parse_f64-minus n)
    ∙ ap (λ (b : ℕ). ok (record { bytes = b }))
        (to_u64-mul_negative (round_ratio (n * one_steps) 1) (round_ratio (k * one_steps) 1))

-- A text that starts with a minus sign, any digits and a unit is accepted as the size 0, while a
-- negative `i64` is refused.
pub visit_negative :
    (n k : ℕ) (u : Text)
    → IsUnit u
    → unit_of u ≡ some k
    → (visit (str (b'-' ∷ decimal n ++ u)) ≡ value (record { bytes = 0 }))
      × (visit (i64 (negsuc n)) ≡ invalid_value (negsuc n))
unfolding visit
visit_negative n k u h e =
    let s : Text = b'-' ∷ decimal n in
    let read : from_str (s ++ u) ≡ ok (record { bytes = 0 }) =
      from_str-append s u (minus-NumberChar, decimal-NumberChar n) (λ p. cc) h
      ∙ ap (with_unit (s ++ u) s) e
      ∙ with_unit-minus (s ++ u) n k in
    (ap visit_parsed read, refl)
