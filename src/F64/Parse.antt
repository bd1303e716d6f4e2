-- ===== src/F64/Parse.antt =====
-- `str::parse::<f64>`: an optional sign, digits with at most one point and at least one digit, and
-- an optional exponent. The words for infinities and NaN, which a caller may also pass, are not
-- modelled: the text that the program hands over holds digits, `.`, `e`, `E`, `-` and `+` only.
pub mod Decimal
pub mod Tenths
use filestore.Base.{
  ℕ, ◌+◌, ◌-◌, ◌*◌, ◌^◌, Bool, true, false, ◌||◌, List, [], ◌∷◌, Option, none, some, ◌==◌,
  if◌then◌else◌,
}
use filestore.Text.{Text, is_ascii_digit}
use filestore.F64.{F64, one_steps, round_ratio, of_steps}

-- The value of the leading digits after `v`, how many there are beyond `k`, and what follows.
unfoldable pub scan_digits : Text → ℕ → ℕ → ℕ × ℕ × Text
scan_digits [] v k = (v, k, [])
scan_digits (c ∷ s) v k =
    let more = scan_digits s (v * 10 + (c - b'0')) (k + 1) in
    if is_ascii_digit c then more else (v, k, c ∷ s)

unfoldable pub split_sign : Text → Bool × Text
split_sign [] = (false, [])
split_sign (c ∷ s) =
    if c == b'-' then (true, s) else if c == b'+' then (false, s) else (false, c ∷ s)

-- The digits behind the point, if there is one.
unfoldable pub scan_fraction : ℕ → ℕ → Text → ℕ × ℕ × Text
unfolding scan_digits
scan_fraction v k [] = (v, k, [])
scan_fraction v k (c ∷ s) = if c == b'.' then scan_digits s v k else (v, k, c ∷ s)

-- A sign and at least one digit, up to the end of the text.
exponent_digits : Bool → ℕ × ℕ × Text → Option (Bool × ℕ)
exponent_digits negative (v, k, []) = if k == 0 then none else some (negative, v)
exponent_digits negative (v, k, c ∷ s) = none

unfoldable pub scan_exponent : Text → Option (Bool × ℕ)
unfolding scan_digits split_sign exponent_digits
scan_exponent [] = some (false, 0)
scan_exponent (c ∷ s) =
    let (negative, digits) = split_sign s in
    if c == b'e' || c == b'E' then exponent_digits negative (scan_digits digits 0 0) else none

-- `m * 10 ^ (e - fraction)`, rounded once.
unfoldable pub scaled : Bool → ℕ → ℕ → Bool × ℕ → F64
unfolding of_steps round_ratio one_steps
scaled negative m fraction (true, e) =
    of_steps negative (round_ratio (m * one_steps) (10 ^ (fraction + e)))
scaled negative m fraction (false, e) =
    of_steps negative (round_ratio (m * 10 ^ (e - fraction) * one_steps) (10 ^ (fraction - e)))

with_exponent : Bool → ℕ → ℕ → Option (Bool × ℕ) → Option F64
with_exponent negative m fraction none = none
with_exponent negative m fraction (some e) = some (scaled negative m fraction e)

parse_unsigned : Bool → Text → Option F64
unfolding scan_digits scan_fraction scan_exponent with_exponent scaled
parse_unsigned negative s =
    let (whole, places, tail) = scan_digits s 0 0 in
    let (m, digits, rest) = scan_fraction whole places tail in
    if digits == 0 then none else with_exponent negative m (digits - places) (scan_exponent rest)

unfoldable pub parse_f64 : Text → Option F64
unfolding split_sign parse_unsigned
parse_f64 s = let (negative, digits) = split_sign s in parse_unsigned negative digits
