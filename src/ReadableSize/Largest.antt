-- ===== src/ReadableSize/Largest.antt =====
-- The unit that `Display` chooses: the largest one that is not above the size.
use filestore.Base.{
  ℕ, ◌*◌, ◌%◌, ◌^◌, ◌≤◌, ◌<◌, ◌≡◌, refl, ◌++◌, arith, some, leb, leb→le, le→leb, if_elim,
}
use filestore.Text.{Text, codes}
use filestore.F64.{of_u64, div}
use filestore.ReadableSize.{kib, mib, gib, tib, pib, unit_of, tenths, display}
use filestore.ReadableSize.Parsing.{IsUnit}
use filestore.ReadableSize.RoundTrip.{binary_units}

-- A power of 1024 with its name.
pub record BinaryUnit (i : ℕ) (name : Text) : Type 0 where
  pub written : IsUnit name
  pub named : unit_of name ≡ some (2 ^ i)
  pub bounded : i ≤ 50
  pub by_ten : i % 10 ≡ 0

pub data Largest (size : ℕ) : Text → Type 0 where
  largest :
      (i : ℕ) (name : Text)
      → BinaryUnit i name
      → 2 ^ i ≤ size
      → size < 1024 * 2 ^ i
      → Largest size (tenths (div (of_u64 size) (of_u64 (2 ^ i))) ++ name)

units :
    BinaryUnit 10 (codes "KiB")
    × BinaryUnit 20 (codes "MiB")
    × BinaryUnit 30 (codes "GiB")
    × BinaryUnit 40 (codes "TiB")
    × BinaryUnit 50 (codes "PiB")
unfolding unit_of
units = (
  record { written = binary_units.0; named = refl; bounded = omega arith; by_ten = refl },
  record { written = binary_units.1; named = refl; bounded = omega arith; by_ten = refl },
  record { written = binary_units.2; named = refl; bounded = omega arith; by_ten = refl },
  record { written = binary_units.3; named = refl; bounded = omega arith; by_ten = refl },
  record { written = binary_units.4; named = refl; bounded = omega arith; by_ten = refl },
)

pub display-Largest :
    (size : ℕ) → size ≤ 2 ^ 53 → kib ≤ size → Largest size (display (record { bytes = size }))
unfolding display
display-Largest size hi lo =
    if_elim (Largest size) (leb pib size)
      (λ e. largest 50 (codes "PiB") units.4 (leb→le pib size e) (omega arith))
      λ e.
        if_elim (Largest size) (leb tib size)
          (λ f. largest 40 (codes "TiB") units.3 (leb→le tib size f) (ground arith))
          λ f.
            if_elim (Largest size) (leb gib size)
              (λ g. largest 30 (codes "GiB") units.2 (leb→le gib size g) (ground arith))
              λ g.
                if_elim (Largest size) (leb mib size)
                  (λ k. largest 20 (codes "MiB") units.1 (leb→le mib size k) (ground arith))
                  λ k. rw (le→leb kib size lo) (largest 10 (codes "KiB") units.0 lo (ground arith))
