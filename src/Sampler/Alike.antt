-- ===== src/Sampler/Alike.antt =====
-- Options that are equal by `==` sample alike.
use mathlib.Core.Bool.{false≢true}
use filestore.Base.{
  ℕ, ◌≡◌, ◌⊎◌, inl, inr, refl, sym, ap, subst, ◌∙◌, Bool, true, false, ◌&&◌, List, [], ◌∷◌, Option,
  none, some, arith, Bool-cases, both_true, if◌then◌else◌, All,
}
use filestore.Text.{Text, ◌≟◌}
use filestore.Text.Equal.{≟_sound}
use filestore.F64.{F64, finite, infinite, nan, le, max, mul, of_u64, to_u64, one}
use filestore.Sampler.{
  TracingSampleRule, TracingSampleOptions, contains_type, match_types, match_rule, eq_f64, eq_sets,
  eq_rule, eq_rules, eq_options, sample_based_on_probability, find_ratio, ratio_for, Telemetry,
  KeyValue, read_attributes, should_sample, discard,
}
use filestore.Sampler.Serde.{Distinct, RuleIsValid}
use filestore.Sampler.Sets.{eq_sets-contains}

-- Equal as numbers: the same `f64`, or zeros of either sign.
Alike : F64 → F64 → Type 0
Alike x y = (x ≡ y) ⊎ ((s : Bool) × (t : Bool) × (x ≡ finite s 0) × (y ≡ finite t 0))

eq_f64-Alike : (x y : F64) → eq_f64 x y ≡ true → Alike x y
unfolding eq_f64 le Alike
eq_f64-Alike (finite false a) (finite false b) h = inl (ap (finite false) (ground arith))
eq_f64-Alike (finite true a) (finite true b) h = inl (ap (finite true) (ground arith))
eq_f64-Alike (finite false a) (finite true b) h =
    inr (false, true, ap (finite false) (ground arith), ap (finite true) (ground arith))
eq_f64-Alike (finite true a) (finite false b) h =
    inr (true, false, ap (finite true) (ground arith), ap (finite false) (ground arith))
eq_f64-Alike (finite s a) (infinite true) h = cc
eq_f64-Alike (finite s a) (infinite false) h = cc
eq_f64-Alike (infinite true) (finite t b) h = cc
eq_f64-Alike (infinite false) (finite t b) h = cc
eq_f64-Alike (infinite true) (infinite true) h = inl refl
eq_f64-Alike (infinite false) (infinite false) h = inl refl
eq_f64-Alike (infinite true) (infinite false) h = cc
eq_f64-Alike (infinite false) (infinite true) h = cc
eq_f64-Alike (finite s a) nan h = cc
eq_f64-Alike (infinite s) nan h = cc
eq_f64-Alike nan y h = cc

zero_discards :
    (s : Bool) (bytes : List ℕ) → sample_based_on_probability (finite s 0) bytes ≡ discard
unfolding sample_based_on_probability max mul to_u64 le one of_u64
zero_discards true bytes = ground arith
zero_discards false bytes = ground arith

sample-Alike :
    (x y : F64) (bytes : List ℕ)
    → Alike x y
    → sample_based_on_probability x bytes ≡ sample_based_on_probability y bytes
unfolding Alike
sample-Alike x y bytes (inl e) = ap (λ p. sample_based_on_probability p bytes) e
sample-Alike x y bytes (inr (s, t, e, f)) =
    ap (λ p. sample_based_on_probability p bytes) e
    ∙ zero_discards s bytes
    ∙ sym (zero_discards t bytes)
    ∙ ap (λ p. sample_based_on_probability p bytes) (sym f)

-- The same rule matches, or none does.
FoundAlike : Option F64 → Option F64 → Type 0
FoundAlike none none = Unit {0}
FoundAlike (some x) (some y) = Alike x y
FoundAlike _ _ = ⊥

contains_type_eq :
    (ts us : List Text) (t : Option Text)
    → Distinct ts
    → eq_sets ts us ≡ true
    → contains_type ts t ≡ contains_type us t
unfolding contains_type
contains_type_eq ts us none d h = refl
contains_type_eq ts us (some t) d h = (eq_sets-contains ts us t d h).0

if-FoundAlike :
    (b c : Bool) (x y : F64)
    → b ≡ c
    → Alike x y
    → FoundAlike (if b then some x else none) (if c then some y else none)
unfolding FoundAlike
if-FoundAlike true true x y e h = h
if-FoundAlike true false x y e h = absurd (false≢true (sym e))
if-FoundAlike false true x y e h = absurd (false≢true e)
if-FoundAlike false false x y e h = tt

match_types-FoundAlike :
    (ts us : List Text) (t : Option Text) (x y : F64)
    → Distinct ts
    → eq_sets ts us ≡ true
    → Alike x y
    → FoundAlike (match_types ts t x) (match_types us t y)
unfolding match_types FoundAlike
match_types-FoundAlike [] [] t x y d h a = a
match_types-FoundAlike [] (u ∷ us) t x y d h a =
    absurd (omega (arith, (eq_sets-contains [] (u ∷ us) u d h).1))
match_types-FoundAlike (v ∷ ts) [] t x y d h a =
    absurd (omega (arith, (eq_sets-contains (v ∷ ts) [] v d h).1))
match_types-FoundAlike (v ∷ ts) (u ∷ us) t x y d h a =
    if-FoundAlike (contains_type (v ∷ ts) t) (contains_type (u ∷ us) t) x y
      (contains_type_eq (v ∷ ts) (u ∷ us) t d h) a

record EqRule (r s : TracingSampleRule) : Type 0 where
  pub protocol : r.protocol ≡ s.protocol
  pub types : eq_sets r.request_types s.request_types ≡ true
  pub ratio : Alike r.ratio s.ratio

eq_rule-EqRule : (r s : TracingSampleRule) → eq_rule r s ≡ true → EqRule r s
unfolding eq_rule
eq_rule-EqRule r s h =
    let (front, ratio) =
      both_true (r.protocol ≟ s.protocol && eq_sets r.request_types s.request_types)
        (eq_f64 r.ratio s.ratio) h in
    let (protocol, types) =
      both_true (r.protocol ≟ s.protocol) (eq_sets r.request_types s.request_types) front in
    record {
      protocol = ≟_sound r.protocol s.protocol protocol;
      types = types;
      ratio = eq_f64-Alike r.ratio s.ratio ratio;
    }

match_rule-FoundAlike :
    (r s : TracingSampleRule) (p : Text) (t : Option Text)
    → RuleIsValid r
    → EqRule r s
    → FoundAlike (match_rule r p t) (match_rule s p t)
unfolding match_rule FoundAlike
match_rule-FoundAlike r s p t d h = elim (Bool-cases (p ≟ r.protocol)) [
  | inl e ↦
      rw (e, subst (λ q. (p ≟ q) ≡ true) h.protocol e)
        (match_types-FoundAlike r.request_types s.request_types t r.ratio s.ratio d h.types h.ratio)
  | inr e ↦ rw (e, subst (λ q. (p ≟ q) ≡ false) h.protocol e) tt
]

first-FoundAlike :
    (o o' later later' : Option F64)
    → FoundAlike o o'
    → FoundAlike later later'
    → FoundAlike
        (elim o [ some x ↦ some x | none ↦ later ])
        (elim o' [ some x ↦ some x | none ↦ later' ])
unfolding FoundAlike
first-FoundAlike none none later later' h k = k
first-FoundAlike (some x) (some y) later later' h k = h
first-FoundAlike none (some y) later later' h k = absurd h
first-FoundAlike (some x) none later later' h k = absurd h

find_ratio-FoundAlike :
    (rs ss : List TracingSampleRule) (p : Text) (t : Option Text)
    → All RuleIsValid rs
    → eq_rules rs ss ≡ true
    → FoundAlike (find_ratio rs p t) (find_ratio ss p t)
unfolding find_ratio eq_rules FoundAlike
find_ratio-FoundAlike [] [] p t d h = tt
find_ratio-FoundAlike [] (s ∷ ss) p t d h = absurd (false≢true h)
find_ratio-FoundAlike (r ∷ rs) [] p t d h = absurd (false≢true h)
find_ratio-FoundAlike (r ∷ rs) (s ∷ ss) p t (d, ds) h =
    let (front, rest) = both_true (eq_rule r s) (eq_rules rs ss) h in
    first-FoundAlike (match_rule r p t) (match_rule s p t) (find_ratio rs p t) (find_ratio ss p t)
      (match_rule-FoundAlike r s p t d (eq_rule-EqRule r s front))
      (find_ratio-FoundAlike rs ss p t ds rest)

default-Alike :
    (o o' : Option F64) (x y : F64)
    → FoundAlike o o'
    → Alike x y
    → Alike (elim o [ some ratio ↦ ratio | none ↦ x ]) (elim o' [ some ratio ↦ ratio | none ↦ y ])
unfolding FoundAlike
default-Alike none none x y h a = a
default-Alike (some r) (some s) x y h a = h
default-Alike none (some s) x y h a = absurd h
default-Alike (some r) none x y h a = absurd h

ratio_for-Alike :
    (a b : TracingSampleOptions) (p t : Option Text)
    → All RuleIsValid a.rules
    → eq_rules a.rules b.rules ≡ true
    → Alike a.default_ratio b.default_ratio
    → Alike (ratio_for a p t) (ratio_for b p t)
unfolding ratio_for
ratio_for-Alike a b none t d h k = k
ratio_for-Alike a b (some p) t d h k =
    default-Alike (find_ratio a.rules p t) (find_ratio b.rules p t) a.default_ratio b.default_ratio
      (find_ratio-FoundAlike a.rules b.rules p t d h) k

-- Options that are equal by `==`, where the request types of a rule are a set, sample every span
-- alike, although the order in their sets and the sign of a ratio 0 may differ.
pub should_sample_eq :
    (T : Telemetry) (a b : TracingSampleOptions)
    → All RuleIsValid a.rules
    → eq_options a b ≡ true
    → (parent : Option T.Context) (trace_id : T.TraceId) (attributes : List (KeyValue T))
    → should_sample T a parent trace_id attributes ≡ should_sample T b parent trace_id attributes
unfolding should_sample eq_options
should_sample_eq T a b d h parent trace_id attributes =
    let (default, rules) =
      both_true (eq_f64 a.default_ratio b.default_ratio) (eq_rules a.rules b.rules) h in
    let (p, t) = read_attributes T attributes none none in
    rw
      (sample-Alike (ratio_for a p t) (ratio_for b p t) (T.to_bytes trace_id)
        (ratio_for-Alike a b p t d rules (eq_f64-Alike a.default_ratio b.default_ratio default)))
      refl
