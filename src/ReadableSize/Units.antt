-- ===== src/ReadableSize/Units.antt =====
-- The constructors and the arithmetic of sizes.
use filestore.Base.{ℕ, ◌+◌, ◌%◌, ◌*◌, ◌/◌, ◌≤◌, ◌<◌, ◌≡◌, ◌≢◌, refl, none, some, arith}
use native.Mathlib.Nat.{div-add-mod', mod-lt}
use filestore.ReadableSize.{
  ReadableSize, Profile, debug, release, kib, mib, gib, u64_mod, kb, mb, gb, as_mb, div_by,
  div_size, mul_by, mul_u64,
}

-- While the product fits a `u64`, both builds make the same size of `count` KiB, MiB or GiB, and
-- `as_mb` and the division by a unit give the count back.
pub units_exact :
    (p : Profile) (count : ℕ)
    → count * gib < u64_mod
    → (kb p count ≡ some (record { bytes = count * kib }))
      × (mb p count ≡ some (record { bytes = count * mib }))
      × (gb p count ≡ some (record { bytes = count * gib }))
      × (as_mb (record { bytes = count * mib }) ≡ count)
      × (div_size (record { bytes = count * gib }) (record { bytes = gib }) ≡ some count)
unfolding kb mb gb as_mb div_size
units_exact debug count h = ground arith
units_exact release count h = ground arith

-- Past 2^64 a debug build panics, and a release build wraps to a smaller size.
pub mb_overflow :
    (count : ℕ)
    → u64_mod ≤ count * mib
    → (mb debug count ≡ none)
      × ((s : ReadableSize) × (mb release count ≡ some s) × (s.bytes < count * mib))
unfolding mb
mb_overflow count h = (ground arith, (record { bytes = count * mib % u64_mod }, refl, omega arith))

mul_u64-exact : (p : Profile) (a b : ℕ) → a * b < u64_mod → mul_u64 p a b ≡ some (a * b)
unfolding mul_u64
mul_u64-exact debug a b h = ground arith
mul_u64-exact release a b h = ground arith

-- Dividing a size by `n` and multiplying the quotient by `n` again succeeds in both builds, unless
-- `n` is 0, and loses less than `n`.
pub mul_by-div_by :
    (p : Profile) (s : ReadableSize) (n : ℕ)
    → s.bytes < u64_mod
    → n ≢ 0
    → (q : ReadableSize) × (r : ReadableSize) × (div_by s n ≡ some q)
      × (mul_by p q n ≡ some r)
      × (r.bytes ≤ s.bytes)
      × (s.bytes < r.bytes + n)
unfolding div_by mul_by
mul_by-div_by p s n h nz =
    let parts : s.bytes / n * n + s.bytes % n ≡ s.bytes = div-add-mod' s.bytes n in
    let rest : s.bytes % n < n = mod-lt s.bytes (omega arith) in
    (
      record { bytes = s.bytes / n },
      record { bytes = s.bytes / n * n },
      ground arith,
      rw (mul_u64-exact p (s.bytes / n) n (omega arith)),
      omega arith,
      omega arith,
    )

-- A divisor of 0 panics.
pub div_zero : (s : ReadableSize) → (div_by s 0 ≡ none) × (div_size s (record { bytes = 0 }) ≡ none)
unfolding div_by div_size
div_zero s = (refl, refl)
