-- ===== src/F64/Parse/Tenths.antt =====
-- A number with one decimal place is parsed to what it shows.
use filestore.Base.{
  ℕ, ◌+◌, ◌-◌, ◌*◌, ◌/◌, ◌%◌, ◌<◌, ◌≡◌, ◌≢◌, All, refl, ap, ◌∙◌, false, [], ◌∷◌, ◌++◌, arith,
  length, some, lt→ltb, zero, suc,
}
use native.Mathlib.Nat.{mul-one}
use filestore.Text.Decimal.{IsDigit, decimal-IsDigit, decimal-ne-nil}
use filestore.Text.{Text, decimal, decimal_from}
use filestore.F64.{of_steps, round_ratio, one_steps}
use filestore.F64.Parse.{
  scan_digits, scan_fraction, scan_exponent, split_sign, scaled, parse_unsigned, parse_f64,
}
use filestore.F64.Parse.Decimal.{scan_digit, scan_digits-append, positive}

-- `t` tenths, with the point.
abbrev pub tenths_text : ℕ → Text
tenths_text t = decimal (t / 10) ++ b'.' ∷ decimal (t % 10)

decimal_from_digit : (fuel d : ℕ) → d < 10 → decimal_from fuel d ≡ (b'0' + d) ∷ []
unfolding decimal_from
decimal_from_digit zero d h = refl
decimal_from_digit (suc fuel) d h = rw (decimal_from, lt→ltb d 10 h) refl

scan_digits_digit : (v k d : ℕ) → d < 10 → scan_digits (decimal d) v k ≡ (v * 10 + d, k + 1, [])
unfolding decimal scan_digits
scan_digits_digit v k d h = rw (decimal_from_digit d d h) (scan_digit d v k (v * 10 + d) [] h refl)

-- The point ends the whole part, and the digit behind it is the fraction.
scan_whole :
    (w : ℕ) (s : Text) → scan_digits (decimal w ++ b'.' ∷ s) 0 0 ≡ (w, length (decimal w), b'.' ∷ s)
unfolding scan_digits
scan_whole w s = scan_digits-append w (b'.' ∷ s)

split_sign-append : (u s : Text) → u ≢ [] → All IsDigit u → split_sign (u ++ s) ≡ (false, u ++ s)
unfolding split_sign
split_sign-append [] s some_digit h = absurd (some_digit refl)
split_sign-append (c ∷ u) s some_digit h = ground arith

parse_unsigned-tenths :
    (w d : ℕ)
    → d < 10
    → parse_unsigned false (decimal w ++ b'.' ∷ decimal d)
      ≡ some (scaled false (w * 10 + d) 1 (false, 0))
unfolding parse_unsigned scan_fraction scan_exponent
parse_unsigned-tenths w d h =
    let one_place : length (decimal w) + 1 - length (decimal w) ≡ 1 = omega arith in
    rw
      (
        scan_whole w (decimal d),
        scan_digits_digit w (length (decimal w)) d h,
        positive (length (decimal w) + 1) (omega arith),
        one_place,
      )
      refl

scaled_tenths :
    (t : ℕ)
    → scaled false (t / 10 * 10 + t % 10) 1 (false, 0)
      ≡ of_steps false (round_ratio (t * one_steps) 10)
unfolding scaled
scaled_tenths t = let whole : t / 10 * 10 + t % 10 ≡ t = omega arith in rw (whole, mul-one) refl

-- Tenths, with their point, are read as the nearest `f64`.
pub parse_f64-tenths :
    (t : ℕ) → parse_f64 (tenths_text t) ≡ some (of_steps false (round_ratio (t * one_steps) 10))
unfolding parse_f64
parse_f64-tenths t =
    rw
      (split_sign-append (decimal (t / 10)) (b'.' ∷ decimal (t % 10)) (decimal-ne-nil (t / 10))
        (decimal-IsDigit (t / 10)))
      (parse_unsigned-tenths (t / 10) (t % 10) (omega arith) ∙ ap some (scaled_tenths t))
