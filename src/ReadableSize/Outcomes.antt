-- ===== src/ReadableSize/Outcomes.antt =====
-- `from_str` on every text, by the one way to split it in a number and a unit.
use mathlib.Core.Bool.{false≢true}
use filestore.Base.{
  ℕ, ltb, both_true, if◌then◌else◌, subst, ◌<◌, ◌≡◌, ◌≢◌, refl, sym, ap, ◌∙◌, Bool, true, false,
  not, [], ◌∷◌, ◌++◌, All, Option, none, some, length, ltb→lt, lt→ltb, Bool-cases, inl, inr,
}
use filestore.Text.{Text, is_empty, is_ascii, trim, take_while, take, drop}
use filestore.F64.{F64, of_u64, to_u64, mul}
use filestore.F64.Parse.{parse_f64}
use filestore.ReadableSize.Spellings.{
  IsUnit, IsNumberChar, is_number_char-true, is_number_char-false, unit_of-IsUnit, unit_of-none,
}
use filestore.ReadableSize.{
  size_of, is_number_char, unit_of, scale_number, with_unit, from_str, Parsed, ok, err, not_a_size,
  not_ascii, unsupported_unit, invalid_number,
}

abbrev IsAscii : Text → Type 0
IsAscii = All λ c. c < 128

-- Nothing of a number stands at the start.
abbrev Ends : Text → Type 0
Ends [] = Unit {0}
Ends (c ∷ s) = ¬ IsNumberChar c

-- A text without the white space around it is an ASCII number, as long as it can be, and the rest.
pub record Splits (s number rest : Text) : Type 0 where
  pub some_text : trim s ≢ []
  pub ascii : IsAscii (trim s)
  pub parts : trim s ≡ number ++ rest
  pub digits : All IsNumberChar number
  pub stops : Ends rest

-- What a text may give.
pub data Outcome (s : Text) : Parsed → Type 0 where
  blank : trim s ≡ [] → Outcome s (err (not_a_size s))
  foreign : trim s ≢ [] → ¬ IsAscii (trim s) → Outcome s (err (not_ascii s))
  no_unit :
      (number rest : Text)
      → Splits s number rest
      → ((unit : ℕ) → ¬ IsUnit (trim rest) unit)
      → Outcome s (err (unsupported_unit s))
  no_number :
      (number rest : Text) (unit : ℕ)
      → Splits s number rest
      → IsUnit (trim rest) unit
      → parse_f64 number ≡ none
      → Outcome s (err (invalid_number s))
  size :
      (number rest : Text) (unit : ℕ) (n : F64)
      → Splits s number rest
      → IsUnit (trim rest) unit
      → parse_f64 number ≡ some n
      → Outcome s (ok (size_of (to_u64 (mul n (of_u64 unit)))))

is_ascii-IsAscii : (s : Text) → is_ascii s ≡ true → IsAscii s
unfolding is_ascii
is_ascii-IsAscii [] h = tt
is_ascii-IsAscii (c ∷ s) h =
    let (low, rest) = both_true (ltb c 128) (is_ascii s) h in
    (ltb→lt c 128 low, is_ascii-IsAscii s rest)

IsAscii-is_ascii : (s : Text) → IsAscii s → is_ascii s ≡ true
unfolding is_ascii
IsAscii-is_ascii [] h = refl
IsAscii-is_ascii (c ∷ s) (h, hs) = rw (lt→ltb c 128 h, IsAscii-is_ascii s hs) refl

module _ (p : ℕ → Bool) where
  take_all : (s : Text) → take (length (take_while p s)) s ≡ take_while p s
  unfolding take_while
  take_all [] = refl
  take_all (c ∷ s) = elim (Bool-cases (p c)) [
    | inl e ↦ rw e (ap (λ (t : Text). c ∷ t) (take_all s))
    | inr e ↦ rw e refl
  ]

  split_at : (s : Text) → s ≡ take_while p s ++ drop (length (take_while p s)) s
  unfolding take_while
  split_at [] = refl
  split_at (c ∷ s) = elim (Bool-cases (p c)) [
    | inl e ↦ rw e (ap (λ (t : Text). c ∷ t) (split_at s))
    | inr e ↦ rw e refl
  ]

  taken : (s : Text) → All (λ c. p c ≡ true) (take_while p s)
  unfolding take_while
  taken [] = tt
  taken (c ∷ s) = elim (Bool-cases (p c)) [ inl e ↦ rw e (e, taken s) | inr e ↦ rw e tt ]

dropped : (s : Text) → Ends (drop (length (take_while is_number_char s)) s)
unfolding take_while
dropped [] = tt
dropped (c ∷ s) = elim (Bool-cases (is_number_char c)) [
  | inl e ↦ rw e (dropped s)
  | inr e ↦ rw e (is_number_char-false c e)
]

-- What holds of the characters that a test lets through.
all_of :
    (p : ℕ → Bool) (s : Text)
    → ((c : ℕ) → p c ≡ true → IsNumberChar c)
    → All (λ c. p c ≡ true) s
    → All IsNumberChar s
all_of p [] h all = tt
all_of p (c ∷ s) h (first, rest) = (h c first, all_of p s h rest)

scaled :
    (s number rest : Text) (unit : ℕ) (read : Option F64)
    → Splits s number rest
    → IsUnit (trim rest) unit
    → parse_f64 number ≡ read
    → Outcome s (scale_number s unit read)
unfolding scale_number
scaled s number rest unit none h u r = no_number number rest unit h u r
scaled s number rest unit (some n) h u r = size number rest unit n h u r

with_split :
    (s number rest : Text) (found : Option ℕ)
    → Splits s number rest
    → unit_of (trim rest) ≡ found
    → Outcome s (with_unit s number found)
unfolding with_unit
with_split s number rest none h u = no_unit number rest h (unit_of-none (trim rest) u)
with_split s number rest (some unit) h u =
    scaled s number rest unit (parse_f64 number) h (unit_of-IsUnit (trim rest) unit u) refl

by_ascii :
    (s t : Text) (a : Bool)
    → trim s ≡ t
    → t ≢ []
    → is_ascii t ≡ a
    → Outcome s (
        if not a
        then err (not_ascii s)
        else with_unit s
            (take (length (take_while is_number_char t)) t)
            (unit_of (trim (drop (length (take_while is_number_char t)) t))))
by_ascii s t false e some_char a =
    foreign (λ h. some_char (sym e ∙ h))
      (λ h. absurd (false≢true (sym a ∙ IsAscii-is_ascii t (subst IsAscii e h))))
by_ascii s t true e some_char a = rw (take_all is_number_char t) (
    with_split s (take_while is_number_char t) (drop (length (take_while is_number_char t)) t)
      (unit_of (trim (drop (length (take_while is_number_char t)) t)))
      (record {
        some_text = λ h. some_char (sym e ∙ h);
        ascii = subst IsAscii (sym e) (is_ascii-IsAscii t a);
        parts = e ∙ split_at is_number_char t;
        digits =
            all_of is_number_char (take_while is_number_char t) is_number_char-true
              (taken is_number_char t);
        stops = dropped t;
      })
      refl)

by_trim :
    (s t : Text)
    → trim s ≡ t
    → Outcome s (
        if is_empty t
        then err (not_a_size s)
        else if not (is_ascii t)
        then err (not_ascii s)
        else with_unit s
            (take (length (take_while is_number_char t)) t)
            (unit_of (trim (drop (length (take_while is_number_char t)) t))))
unfolding is_empty
by_trim s [] e = blank e
by_trim s (c ∷ t) e = by_ascii s (c ∷ t) (is_ascii (c ∷ t)) e (λ h. cc) refl

-- Every text has the outcome of its form. A text of white space is no size. One with a
-- character that is not ASCII is refused. Otherwise what is left without the white space around it
-- is split where the longest number at its front ends: the rest, trimmed, must be one of the 16
-- spellings of a unit, or nothing, which is a byte, and the front must be read as an `f64`; the size
-- is then their product, cast to a `u64`.
pub from_str-Outcome : (s : Text) → Outcome s (from_str s)
unfolding from_str
from_str-Outcome s = by_trim s (trim s) refl
