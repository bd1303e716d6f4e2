-- ===== src/Tests/Sizes.antt =====
-- Sizes: runs of the code, and the theorems at sizes that meet their hypotheses.
use filestore.Base.{◌⊎◌, ℕ, ◌≡◌, ◌≢◌, refl, some, ◌*◌, ◌^◌, ◌+◌, ◌≤◌, ◌<◌, arith, ◌++◌, ◌∷◌}
use filestore.Base.Int.{negsuc}
use filestore.Text.{codes, decimal}
use filestore.F64.{of_u64, div}
use filestore.ReadableSize.{
  ReadableSize, from_str, ok, err, display, serialize, serialize_str, kib, mib, unsupported_unit,
  tenths, debug, mb, visit, value, invalid_value, i64, str, unit_of,
}
use filestore.ReadableSize.RoundTrip.{reread, visit-serialize, binary_units}
use filestore.ReadableSize.Loss.{visit-serialize_loses}
use filestore.ReadableSize.Negative.{visit_negative}
use filestore.ReadableSize.Display.{Shows, display_nearest}
use filestore.ReadableSize.Outcomes.{Outcome, from_str-Outcome}
use filestore.ReadableSize.Reread.{Near, from_str-display}

fraction : from_str (codes " 1.5 KiB ") ≡ ok (record { bytes = 1536 })
unfolding from_str
fraction = refl

truncated : from_str (codes "0.1K") ≡ ok (record { bytes = 102 })
unfolding from_str
truncated = refl

rounded : from_str (codes "9007199254740993KiB") ≡ ok (record { bytes = 2 ^ 63 })
unfolding from_str
rounded = refl

shown : display (record { bytes = mib + 512 * kib }) ≡ codes "1.5MiB"
unfolding display tenths of_u64 div decimal
shown = refl

shown_below_mib : display (record { bytes = 1048575 }) ≡ codes "1024.0KiB"
unfolding display tenths of_u64 div decimal
shown_below_mib = refl

written : serialize (record { bytes = 12 * mib }) ≡ serialize_str (codes "12MiB")
unfolding serialize decimal
written = refl

unknown_unit : from_str (codes "1EiB") ≡ err (unsupported_unit (codes "1EiB"))
unfolding from_str
unknown_unit = refl

negative : from_str (codes "-3e2MB") ≡ ok (record { bytes = 0 })
unfolding from_str
negative = refl

saturated : from_str (codes "1e300PB") ≡ ok (record { bytes = 18446744073709551615 })
unfolding from_str
saturated = refl

abbrev twelve_mib : ReadableSize
twelve_mib = record { bytes = 12 * mib }

visit-serialize_example : visit (reread (serialize twelve_mib)) ≡ value twelve_mib
visit-serialize_example = visit-serialize twelve_mib (omega arith) (λ _. omega arith)

abbrev odd_count : ℕ
odd_count = 2 ^ 53 + 1

visit-serialize_loses_example :
    visit (reread (serialize (record { bytes = odd_count * kib })))
    ≢ value (record { bytes = odd_count * kib })
visit-serialize_loses_example = visit-serialize_loses odd_count (omega arith) (omega arith) refl

kib_known : unit_of (codes "KiB") ≡ some kib
unfolding unit_of
kib_known = refl

visit_negative_example :
    (visit (str (b'-' ∷ decimal 5 ++ codes "KiB")) ≡ value (record { bytes = 0 }))
    × (visit (i64 (negsuc 5)) ≡ invalid_value (negsuc 5))
visit_negative_example = visit_negative 5 kib (codes "KiB") binary_units.0 kib_known

display_nearest_example :
    ((kib ≤ 1536) × Shows 1536 (display (record { bytes = 1536 })))
    ⊎ ((1536 < kib) × (display (record { bytes = 1536 }) ≡ decimal 1536 ++ codes "B"))
display_nearest_example = display_nearest 1536 (omega arith)

from_str-Outcome_example : Outcome (codes " 12 MiB") (from_str (codes " 12 MiB"))
from_str-Outcome_example = from_str-Outcome (codes " 12 MiB")

-- 1.5 KiB and 40 bytes is shown as 1.5 KiB.
shown_less : from_str (display (record { bytes = 1576 })) ≡ ok (record { bytes = 1536 })
unfolding from_str display tenths div
shown_less = refl

from_str-display_example :
    ((1576 < kib) × (from_str (display (record { bytes = 1576 })) ≡ ok (record { bytes = 1576 })))
    ⊎ ((kib ≤ 1576)
        × ((back : ℕ) × (from_str (display (record { bytes = 1576 }))
              ≡ ok (record { bytes = back }))
            × Near 1576 back))
from_str-display_example = from_str-display 1576 (omega arith)

-- `kb`, `mb` and `gb` multiply.
half_gib : mb debug 512 ≡ some (record { bytes = 512 * mib })
unfolding mb
half_gib = refl
