-- ===== src/ReadableSize/Reread.antt =====
-- What `Display` shows, read again by `FromStr`.
use mathlib.Core.List.{append_assoc}
use native.Mathlib.Decide.{dec_lt}
use native.Mathlib.Nat.{mul-one}
use filestore.Base.{
  ℕ, ◌+◌, ◌*◌, ◌/◌, ◌%◌, ◌^◌, ◌≤◌, ◌<◌, ◌≡◌, ◌⊎◌, inl, inr, refl, ap, ◌∙◌, ◌∷◌, ◌++◌, arith, All,
}
use filestore.Text.{Text, codes, is_whitespace, decimal, is_ascii, take_while}
use filestore.Text.Decimal.{All-append, append-ne-nil}
use filestore.F64.Parse.Tenths.{tenths_text, parse_f64-tenths}
use filestore.F64.Tenths.{read_tenths, read_tenths_near}
use filestore.ReadableSize.{
  ok, kib, unit_of, is_number_char, with_unit, scale_number, from_str, display,
}
use filestore.ReadableSize.Parsing.{
  IsUnit, NumberChar, decimal-NumberChar, from_str-append, from_str_unit,
}
use filestore.ReadableSize.RoundTrip.{scale_number_exact}
use filestore.ReadableSize.Largest.{BinaryUnit, Largest, largest, display-Largest}
use filestore.ReadableSize.Display.{
  in_tenths, nearest_tenths, nearest_tenths-Nearest, tenths_lem, display_small,
}

point_number : NumberChar b'.'
unfolding is_number_char is_whitespace
point_number = (refl, refl, omega arith)

tenths_text-NumberChar : (t : ℕ) → All NumberChar (tenths_text t)
tenths_text-NumberChar t =
    All-append NumberChar (decimal (t / 10)) (b'.' ∷ decimal (t % 10)) (decimal-NumberChar (t / 10))
      (point_number, decimal-NumberChar (t % 10))

from_str_tenths :
    (t i : ℕ) (name : Text)
    → BinaryUnit i name
    → from_str (in_tenths t name) ≡ ok (record { bytes = read_tenths t i })
unfolding with_unit scale_number read_tenths
from_str_tenths t i name unit =
    let text : in_tenths t name ≡ tenths_text t ++ name =
      ap (λ (s : Text). s ++ name)
        (append_assoc (decimal (t / 10)) (codes ".") (decimal (t % 10))) in
    ap from_str text
    ∙ from_str-append (tenths_text t) name (tenths_text-NumberChar t)
        (append-ne-nil (decimal (t / 10)) (b'.' ∷ decimal (t % 10)) (λ e. cc)) unit.written
    ∙ rw (unit.named, parse_f64-tenths t) refl

bytes_unit : IsUnit (codes "B")
unfolding is_whitespace is_ascii take_while is_number_char
bytes_unit = record { solid = (refl, tt); ascii = refl; stops = refl }

reread_small :
    (size : ℕ)
    → size < kib
    → from_str (display (record { bytes = size })) ≡ ok (record { bytes = size })
unfolding unit_of
reread_small size small =
    ap from_str (display_small size small)
    ∙ from_str_unit size 1 (codes "B") bytes_unit refl
    ∙ scale_number_exact (decimal size ++ codes "B") size 0 (omega arith) (omega arith)
        (omega arith)
    ∙ ap (λ (n : ℕ). ok (record { bytes = n })) (mul-one size)

-- `back` is `size` up to half a tenth of the unit, the largest power of 1024 that is not above it,
-- and two bytes.
abbrev pub Near : ℕ → ℕ → Type 0
Near size back =
    (i : ℕ) × (i % 10 ≡ 0)
    × (2 ^ i ≤ size)
    × (size < 1024 * 2 ^ i)
    × (20 * back ≤ 20 * size + 2 ^ i + 20)
    × (20 * size ≤ 20 * back + 2 ^ i + 40)

reread_large :
    (size : ℕ) {text : Text}
    → size ≤ 2 ^ 53
    → Largest size text
    → (back : ℕ) × (from_str text ≡ ok (record { bytes = back })) × Near size back
reread_large size h (largest i name unit lo top) =
    let t : ℕ = nearest_tenths size i in
    let (upper, lower) = nearest_tenths-Nearest size i (omega (arith, unit.bounded)) in
    let (high, low) = read_tenths_near t i (unit.bounded, omega arith) in
    (
      read_tenths t i,
      ap from_str (tenths_lem size i h unit.bounded name) ∙ from_str_tenths t i name unit,
      (i, unit.by_ten, lo, top, omega arith, omega arith),
    )

-- What is shown of a size is read again: below 1 KiB as the size itself, up to 2^53 as a size that
-- differs by at most half a tenth of the unit that is shown, and two bytes.
pub from_str-display :
    (size : ℕ)
    → size ≤ 2 ^ 53
    → ((size < kib) × (from_str (display (record { bytes = size })) ≡ ok (record { bytes = size })))
      ⊎ ((kib ≤ size)
          × ((back : ℕ) × (from_str (display (record { bytes = size }))
                ≡ ok (record { bytes = back }))
              × Near size back))
from_str-display size h = elim (dec_lt size kib) [
  | yes small ↦ inl (small, reread_small size small)
  | no large ↦ inr (omega arith, reread_large size h (display-Largest size h (omega arith)))
]
