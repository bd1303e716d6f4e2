-- ===== src/Base/Bits.antt =====
-- `|` of two words that share no bit is their sum: the laws that packed fields rest on.
use Prim.Native.Nat.{ℕ, zero, suc, ◌+◌, ◌*◌, ◌/◌, ◌^◌, ◌≤◌, ◌<◌, max, digits}
use Prim.Native.Nat.{bit_or, bit_or-bitwise}
use mathlib.Core.Path.{◌≡◌, refl, ap, ◌∙◌}
use native.Mathlib.Nat.{two-pow-succ, le_refl}
use native.Mathlib.Omega.{arith}

-- The recursion that `|` stands for, with its fuel.
abbrev or_digits : ℕ → ℕ → ℕ → ℕ
or_digits n a b = digits (λ y. y) max n a b

or_digits-zero : (n a : ℕ) → a ≤ n → or_digits n a 0 ≡ a
or_digits-zero zero zero h = refl
or_digits-zero zero (suc a) h = absurd (omega arith)
or_digits-zero (suc n) zero h = refl
or_digits-zero (suc n) (suc a) h = omega (arith, or_digits-zero n (suc a / 2) (omega arith))

double_field : (q k : ℕ) → q * 2 ^ suc k ≡ 2 * (q * 2 ^ k)
double_field q k = omega (arith, ap (λ (t : ℕ). q * t) (two-pow-succ k))

or_digits_even :
    (n a b r : ℕ)
    → a ≤ n
    → a ≡ 2 * b
    → ((m : ℕ) → b ≤ m → or_digits m b (r / 2) ≡ b + r / 2)
    → or_digits n a r ≡ a + r
or_digits_even zero zero b r h e ih = omega arith
or_digits_even zero (suc a) b r h e ih = absurd (omega arith)
or_digits_even (suc n) zero b r h e ih = omega arith
or_digits_even (suc n) (suc a) b r h e ih =
    let half : suc a / 2 ≡ b = omega arith in
    omega (arith, ap (λ (t : ℕ). or_digits n t (r / 2)) half, ih n (omega arith))

or_digits_fields :
    (k q r n : ℕ) → r < 2 ^ k → q * 2 ^ k ≤ n → or_digits n (q * 2 ^ k) r ≡ q * 2 ^ k + r
or_digits_fields zero q r n fits h =
    let small : r ≡ 0 = omega arith in
    let whole : q * 2 ^ 0 ≡ q = omega arith in
    omega (
      arith,
      ap (λ (t : ℕ). or_digits n (q * 2 ^ 0) t) small,
      ap (λ (t : ℕ). or_digits n t 0) whole,
      or_digits-zero n q (omega arith),
    )
or_digits_fields (suc k) q r n fits h =
    or_digits_even n (q * 2 ^ suc k) (q * 2 ^ k) r h (double_field q k)
      (λ m hm. or_digits_fields k q (r / 2) m (omega (arith, two-pow-succ k)) hm)

-- A field below 2 ^ k joins a multiple of 2 ^ k without a carry.
pub bit_or_field : (k q r : ℕ) → r < 2 ^ k → bit_or (q * 2 ^ k) r ≡ q * 2 ^ k + r
bit_or_field k q r fits =
    bit_or-bitwise (q * 2 ^ k) r ∙ or_digits_fields k q r (q * 2 ^ k) fits (le_refl _)
