-- ===== src/ReadableSize/Parsing.antt =====
-- `from_str` on a decimal number with a unit: what `serialize` writes.
use filestore.Base.{
  ℕ, ◌<◌, ◌≡◌, ◌≢◌, refl, ap, ◌∙◌, true, false, [], ◌∷◌, ◌++◌, arith, All, some, length, lt→ltb,
}
use filestore.Text.{Text, is_empty, is_ascii, is_whitespace, trim, take_while, take, drop, decimal}
use filestore.Text.Trim.{Solid, trim-Solid}
use filestore.Text.Decimal.{IsDigit, All-append, All-map, decimal-IsDigit, decimal-ne-nil}
use filestore.F64.{of_u64}
use filestore.F64.Parse.Decimal.{parse_f64-decimal}
use filestore.ReadableSize.{is_number_char, unit_of, scale_number, with_unit, from_str}

-- A unit as it is written: ASCII letters that do not belong to a number.
pub record IsUnit (u : Text) : Type 0 where
  pub solid : Solid u
  pub ascii : is_ascii u ≡ true
  pub stops : take_while is_number_char u ≡ []

-- A character that belongs to a number.
abbrev pub NumberChar : ℕ → Type 0
NumberChar c = (is_number_char c ≡ true) × (is_whitespace c ≡ false) × (c < 128)

digit_number : (c : ℕ) → IsDigit c → NumberChar c
unfolding is_number_char is_whitespace
digit_number c h = (ground arith, ground arith, omega arith)

pub decimal-NumberChar : (n : ℕ) → All NumberChar (decimal n)
decimal-NumberChar n = All-map IsDigit NumberChar digit_number (decimal n) (decimal-IsDigit n)

is_ascii-append : (s u : Text) → All NumberChar s → is_ascii u ≡ true → is_ascii (s ++ u) ≡ true
unfolding is_ascii
is_ascii-append [] u h e = e
is_ascii-append (c ∷ s) u h e = rw (lt→ltb c 128 h.0.2, is_ascii-append s u h.1 e)

take_while-append :
    (s u : Text)
    → All NumberChar s
    → take_while is_number_char u ≡ []
    → take_while is_number_char (s ++ u) ≡ s
unfolding take_while
take_while-append [] u h e = e
take_while-append (c ∷ s) u h e = rw (h.0.0, take_while-append s u h.1 e)

take-append : (s u : Text) → take (length s) (s ++ u) ≡ s
take-append [] u = refl
take-append (c ∷ s) u = ap (λ (t : Text). c ∷ t) (take-append s u)

drop-append : (s u : Text) → drop (length s) (s ++ u) ≡ u
drop-append [] u = refl
drop-append (c ∷ s) u = drop-append s u

is_empty-append : (s u : Text) → s ≢ [] → is_empty (s ++ u) ≡ false
unfolding is_empty
is_empty-append [] u h = absurd (h refl)
is_empty-append (c ∷ s) u h = refl

-- The text is split where the number ends.
pub from_str-append :
    (s u : Text)
    → All NumberChar s
    → s ≢ []
    → IsUnit u
    → from_str (s ++ u) ≡ with_unit (s ++ u) s (unit_of u)
unfolding from_str
from_str-append s u hs some_char h =
    let whole : trim (s ++ u) ≡ s ++ u = trim-Solid (s ++ u) (
      All-append (λ c. is_whitespace c ≡ false) s u
        (All-map NumberChar (λ c. is_whitespace c ≡ false) (λ c k. k.1) s hs) h.solid) in
    rw (
      whole,
      is_empty-append s u some_char,
      is_ascii-append s u hs h.ascii,
      take_while-append s u hs h.stops,
      take-append s u,
      drop-append s u,
      trim-Solid u h.solid,
    )

pub from_str_unit :
    (n k : ℕ) (u : Text)
    → IsUnit u
    → unit_of u ≡ some k
    → from_str (decimal n ++ u) ≡ scale_number (decimal n ++ u) k (some (of_u64 n))
unfolding with_unit
from_str_unit n k u h e =
    from_str-append (decimal n) u (decimal-NumberChar n) (decimal-ne-nil n) h
    ∙ rw (e, parse_f64-decimal n)
