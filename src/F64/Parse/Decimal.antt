-- ===== src/F64/Parse/Decimal.antt =====
-- A decimal print is parsed to the number that it shows.
use mathlib.Core.List.{append_assoc, append-nil}
use filestore.Base.{
  ℕ, zero, suc, ◌+◌, ◌-◌, ◌*◌, ◌/◌, ◌%◌, ◌≤◌, ◌<◌, ◌≡◌, ◌≢◌, refl, ap, sym, ◌∙◌, Bool, true, false,
  [], ◌∷◌, ◌++◌, arith, All, ltb, ltb→lt, ◌==◌, Bool-cases, inl, inr, length, length-append, some,
}
use native.Mathlib.Nat.{zero-add, mul-one}
use filestore.Text.{Text, decimal_from, decimal}
use filestore.Text.Decimal.{IsDigit, decimal-IsDigit, decimal-ne-nil}
use filestore.F64.{of_u64, of_steps, round_ratio, one_steps}
use filestore.F64.Parse.{scan_digits, split_sign, scaled, parse_unsigned, parse_f64}

pub scan_digit :
    (d v k m : ℕ) (rest : Text)
    → d < 10
    → v * 10 + d ≡ m
    → scan_digits ((b'0' + d) ∷ rest) v k ≡ scan_digits rest m (k + 1)
unfolding scan_digits
scan_digit d v k m rest h e =
    let whole : v * 10 + (b'0' + d - b'0') ≡ m = omega arith in rw whole (ground arith)

scan_digits-decimal_from :
    (fuel n k : ℕ) (rest : Text)
    → n ≤ fuel
    → scan_digits (decimal_from fuel n ++ rest) 0 k
      ≡ scan_digits rest n (k + length (decimal_from fuel n))
unfolding decimal_from
scan_digits-decimal_from zero n k rest h = scan_digit n 0 k n rest (omega arith) (omega arith)
scan_digits-decimal_from (suc fuel) n k rest h = elim (Bool-cases (ltb n 10)) [
  | inl small ↦ rw (small, decimal_from) (scan_digit n 0 k n rest (ltb→lt n 10 small) (omega arith))
  | inr large ↦
      let front : Text = decimal_from fuel (n / 10) in
      let count : k + length (front ++ (b'0' + n % 10) ∷ []) ≡ k + length front + 1 =
        omega (arith, length-append front ((b'0' + n % 10) ∷ [])) in
      rw (large, decimal_from)
        (ap (λ (t : Text). scan_digits t 0 k) (append_assoc front ((b'0' + n % 10) ∷ []) rest)
          ∙ scan_digits-decimal_from fuel (n / 10) k ((b'0' + n % 10) ∷ rest) (ground arith)
          ∙ scan_digit (n % 10) (n / 10) (k + length front) n rest (omega arith) (omega arith)
          ∙ ap (scan_digits rest n) (sym count))
]

-- The scan of a decimal print goes on behind it, with its number and the count of its digits.
pub scan_digits-append :
    (n : ℕ) (rest : Text)
    → scan_digits (decimal n ++ rest) 0 0 ≡ scan_digits rest n (length (decimal n))
unfolding decimal
scan_digits-append n rest =
    scan_digits-decimal_from n n 0 rest (omega arith)
    ∙ ap (scan_digits rest n) (zero-add (length (decimal n)))

-- The scan of a decimal print returns its number, and counts its digits.
pub scan_digits-decimal : (n : ℕ) → scan_digits (decimal n) 0 0 ≡ (n, length (decimal n), [])
unfolding scan_digits
scan_digits-decimal n =
    ap (λ (t : Text). scan_digits t 0 0) (sym (append-nil (decimal n))) ∙ scan_digits-append n []

pub split_sign-digit : (s : Text) → All IsDigit s → split_sign s ≡ (false, s)
unfolding split_sign
split_sign-digit [] h = refl
split_sign-digit (c ∷ s) h = ground arith

pub length-pos : (s : Text) → s ≢ [] → 0 < length s
length-pos [] h = absurd (h refl)
length-pos (c ∷ s) h = omega arith

pub positive : (k : ℕ) → 0 < k → (k == 0) ≡ false
positive k h = ground arith

scaled_whole : (n : ℕ) → scaled false n 0 (false, 0) ≡ of_u64 n
unfolding scaled of_u64
scaled_whole n = rw mul-one refl

parse_unsigned-decimal :
    (sign : Bool) (n : ℕ) → parse_unsigned sign (decimal n) ≡ some (scaled sign n 0 (false, 0))
unfolding parse_unsigned
parse_unsigned-decimal sign n =
    let some_digit : (length (decimal n) == 0) ≡ false =
      positive (length (decimal n)) (length-pos (decimal n) (decimal-ne-nil n)) in
    let no_fraction : length (decimal n) - length (decimal n) ≡ 0 = omega arith in
    rw (scan_digits-decimal n, some_digit, no_fraction) refl

-- What `{}` prints of a `u64`, `parse::<f64>` reads as that number rounded to an `f64`.
pub parse_f64-decimal : (n : ℕ) → parse_f64 (decimal n) ≡ some (of_u64 n)
unfolding parse_f64
parse_f64-decimal n =
    rw (split_sign-digit (decimal n) (decimal-IsDigit n))
      (parse_unsigned-decimal false n ∙ ap some (scaled_whole n))

-- With a sign in front, it is the negated number.
pub parse_f64-minus :
    (n : ℕ) → parse_f64 (b'-' ∷ decimal n) ≡ some (of_steps true (round_ratio (n * one_steps) 1))
unfolding parse_f64 scaled
parse_f64-minus n = parse_unsigned-decimal true n ∙ rw mul-one refl
