-- ===== src/ReadableSize/RoundTrip.antt =====
-- Sizes written by `serialize` and read back by the visitor.
use filestore.Base.{
  ℕ, ◌+◌, ◌*◌, ◌/◌, ◌%◌, ◌^◌, ◌≤◌, ◌<◌, ◌≡◌, ◌≢◌, refl, ap, sym, ◌∙◌, true, false, ◌⊎◌, inl, inr,
  ◌++◌, arith, some, ◌==◌, ==_iff, if_elim,
}
use native.Mathlib.Nat.{le_trans, pow-le-pow_right}
use mathlib.Core.Path.{ap₂}
use filestore.Text.{Text, codes, decimal, is_ascii, is_whitespace, take_while}
use filestore.F64.{finite, of_u64, one_steps, mul, u64_max, overflow_steps}
use filestore.F64.Rounding.{pow-add}
use filestore.F64.Convert.{of_u64_exact, mul_two_pow, to_u64_whole, whole_fits}
use filestore.ReadableSize.{
  ReadableSize, ok, Serialized, serialize_str, serialize_u64, serialize, kib, mib, gib, tib, pib,
  is_number_char, unit_of, scale_number, from_str, Value, str, u64, value, visit, visit_parsed,
}
use filestore.ReadableSize.Parsing.{IsUnit, from_str_unit}

-- A format that keeps strings and unsigned numbers apart hands the visitor what was written.
abbrev pub reread : Serialized → Value
reread (serialize_str s) = str s
reread (serialize_u64 n) = u64 n

pub one_steps_lem : one_steps ≡ 2 ^ 1074
unfolding one_steps
one_steps_lem = refl

product_steps : (n i : ℕ) → n * 2 ^ (1074 + i) ≡ n * 2 ^ i * one_steps
product_steps n i =
    omega
      (arith, ap (λ (t : ℕ). n * t) (pow-add 1074 i), ap (λ (t : ℕ). n * 2 ^ i * t) one_steps_lem)

-- The product of a number of 53 bits and a power of two is exact.
pub scale_number_exact :
    (s : Text) (n i : ℕ)
    → n ≤ 2 ^ 53
    → i ≤ 50
    → n * 2 ^ i ≤ u64_max
    → scale_number s (2 ^ i) (some (of_u64 n)) ≡ ok (record { bytes = n * 2 ^ i })
unfolding scale_number
scale_number_exact s n i hn hi fits =
    let steps : n * 2 ^ (1074 + i) ≡ n * 2 ^ i * one_steps = product_steps n i in
    let finite_product : n * 2 ^ (1074 + i) < overflow_steps =
      rw steps (whole_fits (n * 2 ^ i) (omega arith)) in
    let number : of_u64 n ≡ finite false (n * 2 ^ 1074) =
      of_u64_exact n hn ∙ ap (λ (t : ℕ). finite false (n * t)) one_steps_lem in
    let unit : of_u64 (2 ^ i) ≡ finite false (2 ^ i * one_steps) =
      of_u64_exact (2 ^ i) (le_trans (pow-le-pow_right (omega arith) hi) (omega arith)) in
    let product : mul (of_u64 n) (of_u64 (2 ^ i)) ≡ finite false (n * 2 ^ i * one_steps) =
      ap₂ mul number unit
      ∙ mul_two_pow false false n 1074 i hn finite_product
      ∙ ap (finite false) steps in
    rw (product, to_u64_whole (n * 2 ^ i) fits) refl

pub data Shape (size : ℕ) : Serialized → Type 0 where
  with_unit :
      (n i : ℕ) (u : Text)
      → IsUnit u
      → unit_of u ≡ some (2 ^ i)
      → 10 ≤ i
      → i ≤ 50
      → size ≡ n * 2 ^ i
      → (n ≤ 2 ^ 53) ⊎ (size % mib ≢ 0)
      → Shape size (serialize_str (decimal n ++ u))
  plain : Shape size (serialize_u64 size)

pub binary_units :
    IsUnit (codes "KiB")
    × IsUnit (codes "MiB")
    × IsUnit (codes "GiB")
    × IsUnit (codes "TiB")
    × IsUnit (codes "PiB")
unfolding is_whitespace is_ascii take_while is_number_char
binary_units = (
  record { solid = (refl, (refl, (refl, tt))); ascii = refl; stops = refl },
  record { solid = (refl, (refl, (refl, tt))); ascii = refl; stops = refl },
  record { solid = (refl, (refl, (refl, tt))); ascii = refl; stops = refl },
  record { solid = (refl, (refl, (refl, tt))); ascii = refl; stops = refl },
  record { solid = (refl, (refl, (refl, tt))); ascii = refl; stops = refl },
)

-- A size that is a multiple of a unit, and what the test for the multiple says.
multiple : (size unit : ℕ) → 0 < unit → (size % unit == 0) ≡ true → size ≡ size / unit * unit
multiple size unit h e = grind (arith, ==_iff)

not_zero : (n : ℕ) → (n == 0) ≡ false → n ≢ 0
not_zero n e = ground arith

pub serialize-Shape : (size : ℕ) → size < 2 ^ 64 → Shape size (serialize (record { bytes = size }))
unfolding serialize unit_of
serialize-Shape size h =
    if_elim (Shape size) (size == 0)
      (λ e.
        with_unit size 10 (codes "KiB") binary_units.0 refl (omega arith) (omega arith)
          (ground arith) (inl (ground arith)))
      λ _.
        if_elim (Shape size) (size % pib == 0)
          (λ e.
            with_unit (size / pib) 50 (codes "PiB") binary_units.4 refl (omega arith) (omega arith)
              (multiple size pib (omega arith) e) (inl (omega arith)))
          λ _.
            if_elim (Shape size) (size % tib == 0)
              (λ e.
                with_unit (size / tib) 40 (codes "TiB") binary_units.3 refl (omega arith)
                  (omega arith) (multiple size tib (omega arith) e) (inl (omega arith)))
              λ _.
                if_elim (Shape size) (size % gib == 0)
                  (λ e.
                    with_unit (size / gib) 30 (codes "GiB") binary_units.2 refl (omega arith)
                      (omega arith) (multiple size gib (omega arith) e) (inl (omega arith)))
                  λ _.
                    if_elim (Shape size) (size % mib == 0)
                      (λ e.
                        with_unit (size / mib) 20 (codes "MiB") binary_units.1 refl (omega arith)
                          (omega arith) (multiple size mib (omega arith) e) (inl (omega arith)))
                      λ odd.
                        if_elim (Shape size) (size % kib == 0)
                          (λ e.
                            with_unit (size / kib) 10 (codes "KiB") binary_units.0 refl
                              (omega arith) (omega arith) (multiple size kib (omega arith) e)
                              (inr (not_zero (size % mib) odd)))
                          λ _. plain

scale_le : (n a b : ℕ) → a ≤ b → n * a ≤ n * b
scale_le n a b h = grind arith

number_fits :
    (size n i : ℕ)
    → 10 ≤ i
    → size ≡ n * 2 ^ i
    → (size % mib ≢ 0 → size < 2 ^ 63)
    → (n ≤ 2 ^ 53) ⊎ (size % mib ≢ 0)
    → n ≤ 2 ^ 53
number_fits size n i ten e small (inl h) = h
number_fits size n i ten e small (inr h) =
    omega (arith, small h, scale_le n (2 ^ 10) (2 ^ i) (pow-le-pow_right (omega arith) ten))

visit-Shape :
    (size : ℕ) {w : Serialized}
    → size < 2 ^ 64
    → (size % mib ≢ 0 → size < 2 ^ 63)
    → Shape size w
    → visit (reread w) ≡ value (record { bytes = size })
unfolding visit
visit-Shape size h small plain = refl
visit-Shape size h small (with_unit n i u good unit ten hi e fits) =
    let read : from_str (decimal n ++ u) ≡ ok (record { bytes = n * 2 ^ i }) =
      from_str_unit n (2 ^ i) u good unit
      ∙ scale_number_exact (decimal n ++ u) n i (number_fits size n i ten e small fits) hi
          (omega arith) in
    ap visit_parsed read ∙ ap (λ (b : ℕ). value (record { bytes = b })) (sym e)

-- What `serialize` writes for a 64-bit size, the visitor reads back as that size, if the size is
-- below 2^63 or a whole number of MiB.
pub visit-serialize :
    (s : ReadableSize)
    → s.bytes < 2 ^ 64
    → (s.bytes % mib ≢ 0 → s.bytes < 2 ^ 63)
    → visit (reread (serialize s)) ≡ value s
visit-serialize s h small = visit-Shape s.bytes h small (serialize-Shape s.bytes h)
