-- ===== src/F64/Rounding.antt =====
-- Binary length, and what rounding leaves alone.
use native.Mathlib.Nat.{add-zero, add-suc, two-pow-succ}
use filestore.Base.{
  ℕ, zero, suc, ◌+◌, ◌*◌, ◌/◌, ◌^◌, ◌≤◌, ◌<◌, ◌≡◌, ap, arith, inl, inr, Bool-cases, ◌==◌,
}
use filestore.F64.{bits_from, bit_length}

pub pow-add : (a b : ℕ) → 2 ^ (a + b) ≡ 2 ^ a * 2 ^ b
pow-add a zero = omega (arith, ap (λ (t : ℕ). 2 ^ t) (add-zero a))
pow-add a (suc b) = omega (
  arith,
  ap (λ (t : ℕ). 2 ^ t) (add-suc a b),
  two-pow-succ (a + b),
  pow-add a b,
  ap (λ (t : ℕ). 2 ^ a * t) (two-pow-succ b),
)

-- What fits `k` bits is no longer than `k`.
bits_from-le : (fuel n k : ℕ) → n < 2 ^ k → bits_from fuel n ≤ k
unfolding bits_from
bits_from-le zero n k h = omega arith
bits_from-le (suc fuel) n zero h = ground arith
bits_from-le (suc fuel) n (suc k) h = ground (arith, two-pow-succ k, bits_from-le fuel (n / 2) k)

pub bit_length-le : (n k : ℕ) → n < 2 ^ k → bit_length n ≤ k
unfolding bit_length
bit_length-le n k h = bits_from-le n n k h

lt_pow-bits_from : (fuel n : ℕ) → n ≤ fuel → n < 2 ^ bits_from fuel n
unfolding bits_from
lt_pow-bits_from zero n h = omega arith
lt_pow-bits_from (suc fuel) n h = elim (Bool-cases (n == 0)) [
  | inl e ↦ rw (e, bits_from) (ground arith)
  | inr e ↦
      rw (e, bits_from)
        (ground (arith, two-pow-succ (bits_from fuel (n / 2)), lt_pow-bits_from fuel (n / 2)))
]

pub lt_pow-bit_length : (n : ℕ) → n < 2 ^ bit_length n
unfolding bit_length
lt_pow-bit_length n = lt_pow-bits_from n n (omega arith)
