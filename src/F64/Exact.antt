-- ===== src/F64/Exact.antt =====
-- Values of at most 53 significant bits are kept as they are.
use native.Mathlib.Nat.{one-le-pow, mul-div_cancel, mul-mod_left, mul_assoc}
use filestore.Base.{ℕ, ◌+◌, ◌-◌, ◌*◌, ◌^◌, ◌≤◌, ◌<◌, ◌≡◌, ap, ◌∙◌, sym, arith}
use native.Mathlib.Decide.{dec_lt}
use filestore.F64.{last_place, nearest_even, round_ratio}
use filestore.F64.Rounding.{pow-add, bit_length-le}

-- A quotient without remainder is not moved.
pub nearest_even-zero : (q d : ℕ) → 0 < d → nearest_even q 0 d ≡ q
unfolding nearest_even
nearest_even-zero q d h = ground arith

mul_pos : (a b : ℕ) → 0 < a → 0 < b → 0 < a * b
mul_pos a b ha hb = grind arith

-- A multiple of its own last place is exact.
round_ratio_at :
    (y k b : ℕ) → 0 < b → last_place (y * 2 ^ k) ≡ k → round_ratio (y * 2 ^ k * b) b ≡ y * 2 ^ k
unfolding round_ratio
round_ratio_at y k b hb e =
    let d : 0 < b * 2 ^ k = mul_pos b (2 ^ k) hb (one-le-pow k 2 (omega arith)) in
    let whole : y * 2 ^ k * b ≡ y * (b * 2 ^ k) = omega arith in
    rw (mul-div_cancel (y * 2 ^ k) hb, e, whole, mul-div_cancel y d, mul-mod_left y (b * 2 ^ k))
      (ap (λ (t : ℕ). t * 2 ^ k) (nearest_even-zero y (b * 2 ^ k) d))

scale_lt : (m n t : ℕ) → m < n → 0 < t → m * t < n * t
scale_lt m n t h ht = grind arith

pow_pos : (k : ℕ) → 0 < 2 ^ k
pow_pos k = one-le-pow k 2 (omega arith)

last_place-le : (m j : ℕ) → m < 2 ^ 53 → last_place (m * 2 ^ j) ≤ j
unfolding last_place
last_place-le m j h =
    let fits : m * 2 ^ j < 2 ^ (53 + j) = rw pow-add (scale_lt m (2 ^ 53) (2 ^ j) h (pow_pos j)) in
    omega (arith, bit_length-le (m * 2 ^ j) (53 + j) fits)

split_scale : (m j k : ℕ) → k ≤ j → m * 2 ^ j ≡ m * 2 ^ (j - k) * 2 ^ k
split_scale m j k h =
    let parts : j - k + k ≡ j = omega arith in
    let shift : 2 ^ j ≡ 2 ^ (j - k) * 2 ^ k =
      ap (λ (t : ℕ). 2 ^ t) (sym parts) ∙ pow-add (j - k) k in
    ap (λ (t : ℕ). m * t) shift ∙ sym (mul_assoc m (2 ^ (j - k)) (2 ^ k))

round_ratio_small : (m j b : ℕ) → 0 < b → m < 2 ^ 53 → round_ratio (m * 2 ^ j * b) b ≡ m * 2 ^ j
round_ratio_small m j b hb h =
    let k : ℕ = last_place (m * 2 ^ j) in
    let e : m * 2 ^ j ≡ m * 2 ^ (j - k) * 2 ^ k = split_scale m j k (last_place-le m j h) in
    ap (λ (t : ℕ). round_ratio (t * b) b) e
    ∙ round_ratio_at (m * 2 ^ (j - k)) k b hb (ap last_place (sym e))
    ∙ sym e

-- 53 significant bits, whatever the scale, are exact.
pub round_ratio_exact : (m j b : ℕ) → 0 < b → m ≤ 2 ^ 53 → round_ratio (m * 2 ^ j * b) b ≡ m * 2 ^ j
round_ratio_exact m j b hb h = elim (dec_lt m (2 ^ 53)) [
  | yes small ↦ round_ratio_small m j b hb small
  | no large ↦
      let top : m ≡ 2 ^ 53 = omega arith in
      let e : m * 2 ^ j ≡ 1 * 2 ^ (53 + j) =
        omega (arith, ap (λ (t : ℕ). t * 2 ^ j) top, pow-add 53 j) in
      ap (λ (t : ℕ). round_ratio (t * b) b) e
      ∙ round_ratio_small 1 (53 + j) b hb (omega arith)
      ∙ sym e
]
