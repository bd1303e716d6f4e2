-- ===== src/Text/Equal.antt =====
-- The test for equal texts decides their equality.
use mathlib.Core.Bool.{false≢true}
use filestore.Base.{
  false, Bool-cases, inl, inr, subst, sym, ◌∙◌, ◌≡◌, refl, true, [], ◌∷◌, arith, ==_iff,
}
use filestore.Text.{Text, ◌≟◌}

pub ≟_refl : (s : Text) → (s ≟ s) ≡ true
unfolding ◌≟◌
≟_refl [] = refl
≟_refl (c ∷ s) = rw ((==_iff c c).1 refl, ≟_refl s)

pub ≟_sound : (s t : Text) → (s ≟ t) ≡ true → s ≡ t
unfolding ◌≟◌
≟_sound [] [] h = refl
≟_sound [] (d ∷ t) h = cc
≟_sound (c ∷ s) [] h = cc
≟_sound (c ∷ s) (d ∷ t) h = ground (arith, ==_iff c d, ≟_sound s t)

pub ≟_ne_symm : (s t : Text) → (s ≟ t) ≡ false → (t ≟ s) ≡ false
≟_ne_symm s t h = elim (Bool-cases (t ≟ s)) [
  | inl e ↦
      let own : (s ≟ s) ≡ false = subst (λ u. (s ≟ u) ≡ false) (≟_sound t s e) h in
      absurd (false≢true (sym own ∙ ≟_refl s))
  | inr e ↦ e
]
