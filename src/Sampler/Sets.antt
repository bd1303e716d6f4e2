-- ===== src/Sampler/Sets.antt =====
-- `==` on sets: two sets of one size, the first within the second, have the same members.
use filestore.Base.{
  suc, ◌≤◌, ◌≡◌, refl, sym, ap, subst, ◌∙◌, Bool, true, false, ◌||◌, List, [], ◌∷◌, arith, ==_iff,
  ◌==◌, length, Bool-cases, both_true, inl, inr, if◌then◌else◌,
}
use filestore.Text.{Text, ◌≟◌}
use filestore.Text.Equal.{≟_sound, ≟_ne_symm}
use filestore.Sampler.{contains, all_contained, eq_sets}
use filestore.Sampler.Serde.{Distinct}

remove : Text → List Text → List Text
remove t [] = []
remove t (u ∷ us) = let rest = remove t us in if u ≟ t then us else u ∷ rest

length-remove :
    (t : Text) (us : List Text) → contains us t ≡ true → length us ≡ suc (length (remove t us))
unfolding contains remove
length-remove t [] h = cc
length-remove t (u ∷ us) h = elim (Bool-cases (u ≟ t)) [
  | inl e ↦ rw e refl
  | inr e ↦ rw e (ap suc (length-remove t us (subst (λ b. (b || contains us t) ≡ true) e h)))
]

contains-remove :
    (t u : Text) (us : List Text) → (t ≟ u) ≡ false → contains (remove t us) u ≡ contains us u
unfolding contains remove
contains-remove t u [] h = refl
contains-remove t u (v ∷ us) h = elim (Bool-cases (v ≟ t)) [
  | inl e ↦
      let other : (v ≟ u) ≡ false = subst (λ w. (w ≟ u) ≡ false) (sym (≟_sound v t e)) h in
      rw (e, other) refl
  | inr e ↦ rw (e, contains) (ap (λ b. v ≟ u || b) (contains-remove t u us h))
]

all_contained-remove :
    (t : Text) (ts us : List Text)
    → contains ts t ≡ false
    → all_contained ts us ≡ true
    → all_contained ts (remove t us) ≡ true
unfolding all_contained contains
all_contained-remove t [] us h k = refl
all_contained-remove t (v ∷ ts) us h k =
    let (here, rest) = both_true (contains us v) (all_contained ts us) k in
    let other : (t ≟ v) ≡ false = ≟_ne_symm v t (ground arith) in
    rw (contains-remove t v us other, here) (all_contained-remove t ts us (ground arith) rest)

-- The members of the second are members of the first, since there is no room for others.
backwards :
    (ts us : List Text) (u : Text)
    → Distinct ts
    → all_contained ts us ≡ true
    → length us ≤ length ts
    → contains us u ≡ true
    → contains ts u ≡ true
unfolding all_contained contains
backwards [] [] u d k l h = h
backwards [] (v ∷ us) u d k l h = absurd (omega arith)
backwards (t ∷ ts) us u (fresh, d) k l h = elim (Bool-cases (t ≟ u)) [
  | inl e ↦ rw e refl
  | inr e ↦
      let (here, rest) = both_true (contains us t) (all_contained ts us) k in
      rw e (
        backwards ts (remove t us) u d (all_contained-remove t ts us fresh rest)
          (omega (arith, length-remove t us here)) (contains-remove t u us e ∙ h))
]

forwards :
    (ts us : List Text) (u : Text)
    → all_contained ts us ≡ true
    → contains ts u ≡ true
    → contains us u ≡ true
unfolding all_contained contains
forwards [] us u k h = cc
forwards (t ∷ ts) us u k h =
    let (here, rest) = both_true (contains us t) (all_contained ts us) k in
    elim (Bool-cases (t ≟ u)) [
      | inl e ↦ subst (λ w. contains us w ≡ true) (≟_sound t u e) here
      | inr e ↦ forwards ts us u rest (subst (λ b. (b || contains ts u) ≡ true) e h)
    ]

same_bools : (a b : Bool) → (a ≡ true → b ≡ true) → (b ≡ true → a ≡ true) → a ≡ b
same_bools true b f g = sym (f refl)
same_bools false true f g = g refl
same_bools false false f g = refl

pub eq_sets-contains :
    (ts us : List Text) (u : Text)
    → Distinct ts
    → eq_sets ts us ≡ true
    → (contains ts u ≡ contains us u) × (length ts ≡ length us)
unfolding eq_sets
eq_sets-contains ts us u d h =
    let (sizes, within) = both_true (length ts == length us) (all_contained ts us) h in
    let size : length ts ≡ length us = (==_iff (length ts) (length us)).0 sizes in
    (
      same_bools (contains ts u) (contains us u) (forwards ts us u within)
          (backwards ts us u d within (omega (arith, size))),
      size,
    )
