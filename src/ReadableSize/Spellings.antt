-- ===== src/ReadableSize/Spellings.antt =====
-- `from_str`: the texts that are units and what they stand for, and the characters of a number.
use filestore.Base.{
  ℕ, ◌≤◌, ◌*◌, arith, if◌then◌else◌, subst, ◌≡◌, ◌≢◌, ◌⊎◌, inl, inr, refl, sym, Bool, true, false,
  ◌||◌, List, [], ◌∷◌, All, none, some, Bool-cases,
}
use filestore.Text.{Text, codes, ◌≟◌}
use filestore.Text.Equal.{≟_sound}
use filestore.ReadableSize.{unit_of, is_number_char}

-- One of some texts.
abbrev pub OneOf : Text → List Text → Type 0
OneOf u [] = ⊥
OneOf u (t ∷ ts) = (u ≡ t) ⊎ OneOf u ts

abbrev pub kilo_spellings : List Text
kilo_spellings = codes "K" ∷ codes "KB" ∷ codes "KiB" ∷ []

abbrev pub mega_spellings : List Text
mega_spellings = codes "M" ∷ codes "MB" ∷ codes "MiB" ∷ []

abbrev pub giga_spellings : List Text
giga_spellings = codes "G" ∷ codes "GB" ∷ codes "GiB" ∷ []

abbrev pub tera_spellings : List Text
tera_spellings = codes "T" ∷ codes "TB" ∷ codes "TiB" ∷ []

abbrev pub peta_spellings : List Text
peta_spellings = codes "P" ∷ codes "PB" ∷ codes "PiB" ∷ []

abbrev pub byte_spellings : List Text
byte_spellings = codes "B" ∷ [] ∷ []

-- The units, as they may be written, and their bytes.
pub data IsUnit (u : Text) : ℕ → Type 0 where
  kilo : OneOf u kilo_spellings → IsUnit u 1024
  mega : OneOf u mega_spellings → IsUnit u (1024 * 1024)
  giga : OneOf u giga_spellings → IsUnit u (1024 * 1024 * 1024)
  tera : OneOf u tera_spellings → IsUnit u (1024 * 1024 * 1024 * 1024)
  peta : OneOf u peta_spellings → IsUnit u (1024 * 1024 * 1024 * 1024 * 1024)
  bytes : OneOf u byte_spellings → IsUnit u 1

two : (u a b : Text) → (u ≟ a || u ≟ b) ≡ true → OneOf u (a ∷ b ∷ [])
two u a b h = elim (Bool-cases (u ≟ a)) [
  | inl same ↦ inl (≟_sound u a same)
  | inr other ↦ inr (inl (≟_sound u b (cc)))
]

three : (u a b c : Text) → (u ≟ a || u ≟ b || u ≟ c) ≡ true → OneOf u (a ∷ b ∷ c ∷ [])
three u a b c h = elim (Bool-cases (u ≟ a)) [
  | inl same ↦ inl (≟_sound u a same)
  | inr no_a ↦ elim (Bool-cases (u ≟ b)) [
    | inl same ↦ inr (inl (≟_sound u b same))
    | inr no_b ↦ inr (inr (inl (≟_sound u c (ground arith))))
  ]
]

-- What the tests of the `match` give.
by_tests :
    (u : Text) (unit : ℕ) (k m g t p b : Bool)
    → (k ≡ true → OneOf u kilo_spellings)
    → (m ≡ true → OneOf u mega_spellings)
    → (g ≡ true → OneOf u giga_spellings)
    → (t ≡ true → OneOf u tera_spellings)
    → (p ≡ true → OneOf u peta_spellings)
    → (b ≡ true → OneOf u byte_spellings)
    → (if k
        then some 1024
        else if m
        then some (1024 * 1024)
        else if g
        then some (1024 * 1024 * 1024)
        else if t
        then some (1024 * 1024 * 1024 * 1024)
        else if p
        then some (1024 * 1024 * 1024 * 1024 * 1024)
        else if b
        then some 1
        else none)
      ≡ some unit
    → IsUnit u unit
by_tests u unit true m g t p b hk hm hg ht hp hb e = subst (IsUnit u) (cc) (kilo (hk refl))
by_tests u unit false true g t p b hk hm hg ht hp hb e = subst (IsUnit u) (cc) (mega (hm refl))
by_tests u unit false false true t p b hk hm hg ht hp hb e = subst (IsUnit u) (cc) (giga (hg refl))
by_tests u unit false false false true p b hk hm hg ht hp hb e =
    subst (IsUnit u) (cc) (tera (ht refl))
by_tests u unit false false false false true b hk hm hg ht hp hb e =
    subst (IsUnit u) (cc) (peta (hp refl))
by_tests u unit false false false false false true hk hm hg ht hp hb e =
    subst (IsUnit u) (cc) (bytes (hb refl))
by_tests u unit false false false false false false hk hm hg ht hp hb e = cc

pub unit_of-IsUnit : (u : Text) (unit : ℕ) → unit_of u ≡ some unit → IsUnit u unit
unfolding unit_of
unit_of-IsUnit u unit e =
    by_tests u unit (u ≟ codes "K" || u ≟ codes "KB" || u ≟ codes "KiB")
      (u ≟ codes "M" || u ≟ codes "MB" || u ≟ codes "MiB")
      (u ≟ codes "G" || u ≟ codes "GB" || u ≟ codes "GiB")
      (u ≟ codes "T" || u ≟ codes "TB" || u ≟ codes "TiB")
      (u ≟ codes "P" || u ≟ codes "PB" || u ≟ codes "PiB") (u ≟ codes "B" || u ≟ []) (three u _ _ _)
      (three u _ _ _) (three u _ _ _) (three u _ _ _) (three u _ _ _) (two u _ _) e

-- A text is read as a unit, if all those that it may be are.
read_as_unit :
    (u : Text) (ts : List Text) → OneOf u ts → All (λ t. unit_of t ≢ none) ts → unit_of u ≢ none
read_as_unit u [] one all = absurd one
read_as_unit u (t ∷ ts) (inl same) (h, hs) = subst (λ v. unit_of v ≢ none) (sym same) h
read_as_unit u (t ∷ ts) (inr one) (h, hs) = read_as_unit u ts one hs

IsUnit-unit_of : (u : Text) (unit : ℕ) → IsUnit u unit → unit_of u ≢ none
unfolding unit_of ◌≟◌
IsUnit-unit_of u unit (kilo one) =
    read_as_unit u kilo_spellings one (λ e. cc, (λ e. cc, (λ e. cc, tt)))
IsUnit-unit_of u unit (mega one) =
    read_as_unit u mega_spellings one (λ e. cc, (λ e. cc, (λ e. cc, tt)))
IsUnit-unit_of u unit (giga one) =
    read_as_unit u giga_spellings one (λ e. cc, (λ e. cc, (λ e. cc, tt)))
IsUnit-unit_of u unit (tera one) =
    read_as_unit u tera_spellings one (λ e. cc, (λ e. cc, (λ e. cc, tt)))
IsUnit-unit_of u unit (peta one) =
    read_as_unit u peta_spellings one (λ e. cc, (λ e. cc, (λ e. cc, tt)))
IsUnit-unit_of u unit (bytes one) = read_as_unit u byte_spellings one (λ e. cc, (λ e. cc, tt))

pub unit_of-none : (u : Text) → unit_of u ≡ none → (unit : ℕ) → ¬ IsUnit u unit
unit_of-none u e unit h = IsUnit-unit_of u unit h e

-- The characters of a number: digits, `.`, `e`, `E`, `-` and `+`.
abbrev pub IsNumberChar : ℕ → Type 0
IsNumberChar c =
    ((48 ≤ c) × (c ≤ 57)) ⊎ ((c ≡ 46) ⊎ ((c ≡ 101) ⊎ ((c ≡ 69) ⊎ ((c ≡ 45) ⊎ (c ≡ 43)))))

pub is_number_char-true : (c : ℕ) → is_number_char c ≡ true → IsNumberChar c
unfolding is_number_char
is_number_char-true c h = ground arith

pub is_number_char-false : (c : ℕ) → is_number_char c ≡ false → ¬ IsNumberChar c
unfolding is_number_char
is_number_char-false c h = λ n. ground arith
