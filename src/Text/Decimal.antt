-- ===== src/Text/Decimal.antt =====
-- The digits of a decimal print.
use filestore.Base.{
  ℕ, zero, suc, ◌+◌, ◌/◌, ◌%◌, ◌≤◌, ◌≢◌, List, [], ◌∷◌, ◌++◌, arith, All, ltb, Bool-cases, inl, inr,
}
use filestore.Text.{Text, decimal_from, decimal}

abbrev pub IsDigit : ℕ → Type 0
IsDigit c = (b'0' ≤ c) × (c ≤ b'9')

pub All-append {ℓ κ} :
    {A : Type ℓ} (P : A → Type κ) (xs ys : List A) → All P xs → All P ys → All P (xs ++ ys)
All-append P [] ys hx hy = hy
All-append P (x ∷ xs) ys hx hy = (hx.0, All-append P xs ys hx.1 hy)

pub All-map {ℓ κ μ} :
    {A : Type ℓ} (P : A → Type κ) (Q : A → Type μ) (f : (a : A) → P a → Q a) (xs : List A)
    → All P xs
    → All Q xs
All-map P Q f [] h = tt
All-map P Q f (x ∷ xs) h = (f x h.0, All-map P Q f xs h.1)

decimal_from-IsDigit : (fuel n : ℕ) → n ≤ fuel → All IsDigit (decimal_from fuel n)
unfolding decimal_from
decimal_from-IsDigit zero n h = (omega arith, tt)
decimal_from-IsDigit (suc fuel) n h = elim (Bool-cases (ltb n 10)) [
  | inl small ↦ rw (small, decimal_from) (ground arith)
  | inr large ↦
      rw (large, decimal_from)
        (All-append IsDigit (decimal_from fuel (n / 10)) ((b'0' + n % 10) ∷ [])
          (decimal_from-IsDigit fuel (n / 10) (ground arith)) (omega arith))
]

pub decimal-IsDigit : (n : ℕ) → All IsDigit (decimal n)
unfolding decimal
decimal-IsDigit n = decimal_from-IsDigit n n (omega arith)

-- There is at least one digit.
pub append-ne-nil : (s t : Text) → t ≢ [] → s ++ t ≢ []
append-ne-nil [] t h = h
append-ne-nil (c ∷ s) t h = λ e. cc

decimal_from-ne-nil : (fuel n : ℕ) → decimal_from fuel n ≢ []
unfolding decimal_from
decimal_from-ne-nil zero n = λ e. cc
decimal_from-ne-nil (suc fuel) n = elim (Bool-cases (ltb n 10)) [
  | inl small ↦ rw (small, decimal_from) (λ e. cc)
  | inr large ↦
      rw (large, decimal_from)
        (append-ne-nil (decimal_from fuel (n / 10)) ((b'0' + n % 10) ∷ []) (λ e. cc))
]

pub decimal-ne-nil : (n : ℕ) → decimal n ≢ []
unfolding decimal
decimal-ne-nil n = decimal_from-ne-nil n n
