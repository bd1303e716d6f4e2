-- ===== src/Sampler/Rules.antt =====
-- Which rule of the sampling options applies to a span.
use filestore.Base.{
  ◌≡◌, ◌↔◌, ◌⊎◌, inl, inr, refl, ap, sym, ◌∙◌, true, List, [], ◌∷◌, ◌++◌, Option, none, some, arith,
  All, Bool-cases, Option-cases,
}
use filestore.Text.{Text, ◌≟◌}
use filestore.Text.Equal.{≟_refl, ≟_sound}
use filestore.F64.{F64}
use filestore.Sampler.{
  TracingSampleRule, TracingSampleOptions, contains, match_types, match_rule, find_ratio, ratio_for,
  Telemetry, KeyValue, read_attributes, should_sample, sample_based_on_probability, parent_state,
}

-- The text is in the set.
abbrev pub In : Text → List Text → Type 0
In t [] = ⊥
In t (u ∷ us) = (u ≡ t) ⊎ In t us

-- An empty set stands for every request type.
abbrev pub TypeMatches : List Text → Option Text → Type 0
TypeMatches [] request_type = Unit {0}
TypeMatches (u ∷ us) none = ⊥
TypeMatches (u ∷ us) (some t) = In t (u ∷ us)

abbrev pub Matches : TracingSampleRule → Text → Option Text → Type 0
Matches r protocol request_type = (protocol ≡ r.protocol) × TypeMatches r.request_types request_type

contains-In : (us : List Text) (t : Text) → contains us t ≡ true → In t us
unfolding contains
contains-In [] t h = cc
contains-In (u ∷ us) t h = ground (arith, ≟_sound u t, contains-In us t)

In-contains : (us : List Text) (t : Text) → In t us → contains us t ≡ true
unfolding contains
In-contains [] t m = elim m [ ]
In-contains (u ∷ us) t (inl e) = rw (e, ≟_refl t)
In-contains (u ∷ us) t (inr m) = rw (In-contains us t m) (ground arith)

types_sound :
    (us : List Text) (t : Option Text) (x y : F64)
    → match_types us t x ≡ some y
    → TypeMatches us t × (y ≡ x)
unfolding match_types
types_sound [] t x y h = (tt, ground arith)
types_sound (u ∷ us) none x y h = cc
types_sound (u ∷ us) (some t) x y h = ground (arith, contains-In (u ∷ us) t)

types_complete :
    (us : List Text) (t : Option Text) (x : F64) → TypeMatches us t → match_types us t x ≡ some x
unfolding match_types
types_complete [] t x h = refl
types_complete (u ∷ us) none x h = absurd h
types_complete (u ∷ us) (some t) x h = rw (In-contains (u ∷ us) t h)

-- A rule gives its ratio exactly when the protocol is its own, and its set of request types is
-- empty or holds the request type of the span.
pub match_rule_iff :
    (r : TracingSampleRule) (protocol : Text) (request_type : Option Text) (x : F64)
    → (match_rule r protocol request_type ≡ some x)
      ↔ (Matches r protocol request_type × (x ≡ r.ratio))
unfolding match_rule
match_rule_iff r p t x = (
  λ h. elim (Bool-cases (p ≟ r.protocol)) [
    | inl same ↦
        let (m, e) = types_sound r.request_types t r.ratio x (rw same at h) in
        ((≟_sound p r.protocol same, m), e)
    | inr other ↦ let bad : none ≡ some x = rw other at h in cc
  ],
  λ ((own, m), e). rw (own, ≟_refl r.protocol, e) (types_complete r.request_types t r.ratio m),
)

match_rule-none :
    (r : TracingSampleRule) (protocol : Text) (request_type : Option Text)
    → ¬ Matches r protocol request_type
    → match_rule r protocol request_type ≡ none
match_rule-none r p t differ = elim (Option-cases (match_rule r p t)) [
  | inl e ↦ e
  | inr (x, e) ↦ absurd (differ ((match_rule_iff r p t x).0 e).0)
]

match_rule-some :
    (r : TracingSampleRule) (protocol : Text) (request_type : Option Text)
    → Matches r protocol request_type
    → match_rule r protocol request_type ≡ some r.ratio
match_rule-some r p t m = (match_rule_iff r p t r.ratio).1 (m, refl)

find_ratio-first :
    (earlier : List TracingSampleRule) (r : TracingSampleRule) (later : List TracingSampleRule)
    (p : Text) (t : Option Text)
    → All (λ q. ¬ Matches q p t) earlier
    → Matches r p t
    → find_ratio (earlier ++ r ∷ later) p t ≡ some r.ratio
unfolding find_ratio
find_ratio-first [] r later p t h m = rw (match_rule-some r p t m, find_ratio)
find_ratio-first (q ∷ earlier) r later p t h m =
    rw (match_rule-none q p t h.0, find_ratio) (find_ratio-first earlier r later p t h.1 m)

find_ratio-none :
    (rules : List TracingSampleRule) (p : Text) (t : Option Text)
    → All (λ q. ¬ Matches q p t) rules
    → find_ratio rules p t ≡ none
unfolding find_ratio
find_ratio-none [] p t h = refl
find_ratio-none (q ∷ rules) p t h =
    rw (match_rule-none q p t h.0, find_ratio) (find_ratio-none rules p t h.1)

-- The first rule that matches, with the rules before it, or none.
abbrev pub FirstMatch : List TracingSampleRule → Text → Option Text → F64 → Type 0
FirstMatch rules p t x =
    (earlier : List TracingSampleRule) × (r : TracingSampleRule) × (later : List TracingSampleRule)
    × (rules ≡ earlier ++ r ∷ later)
    × All (λ q. ¬ Matches q p t) earlier
    × Matches r p t
    × (x ≡ r.ratio)

abbrev FindResult : List TracingSampleRule → Text → Option Text → Option F64 → Type 0
FindResult rules p t none = All (λ q. ¬ Matches q p t) rules
FindResult rules p t (some x) = FirstMatch rules p t x

FindResult-cons :
    (q : TracingSampleRule) (rules : List TracingSampleRule) (p : Text) (t : Option Text)
    (o : Option F64)
    → ¬ Matches q p t
    → FindResult rules p t o
    → FindResult (q ∷ rules) p t o
FindResult-cons q rules p t none differ h = (differ, h)
FindResult-cons q rules p t (some x) differ (earlier, r, later, e, others, m, x_eq) =
    (q ∷ earlier, r, later, ap (λ l. q ∷ l) e, (differ, others), m, x_eq)

find_ratio-FindResult :
    (rules : List TracingSampleRule) (p : Text) (t : Option Text)
    → FindResult rules p t (find_ratio rules p t)
unfolding find_ratio
find_ratio-FindResult [] p t = tt
find_ratio-FindResult (q ∷ rules) p t = elim (Option-cases (match_rule q p t)) [
  | inl e ↦
      rw (e, find_ratio)
        (FindResult-cons q rules p t (find_ratio rules p t)
          (λ m. let bad : some q.ratio ≡ none = sym (match_rule-some q p t m) ∙ e in cc)
          (find_ratio-FindResult rules p t))
  | inr (x, e) ↦
      let (m, same) = (match_rule_iff q p t x).0 e in
      rw (e, find_ratio) ([], q, rules, refl, tt, m, same)
]

-- The ratio that the options prescribe for a protocol and a request type.
pub data Prescribes (o : TracingSampleOptions) (p : Option Text) (t : Option Text) (x : F64)
    : Type 0 where
  no_protocol : p ≡ none → x ≡ o.default_ratio → Prescribes o p t x
  no_rule :
      (q : Text)
      → p ≡ some q
      → All (λ r. ¬ Matches r q t) o.rules
      → x ≡ o.default_ratio
      → Prescribes o p t x
  first_rule : (q : Text) → p ≡ some q → FirstMatch o.rules q t x → Prescribes o p t x

prescribed :
    (o : TracingSampleOptions) (q : Text) (t : Option Text) (found : Option F64)
    → FindResult o.rules q t found
    → Prescribes o (some q) t (elim found [ some ratio ↦ ratio | none ↦ o.default_ratio ])
prescribed o q t none h = no_rule q refl h refl
prescribed o q t (some x) h = first_rule q refl h

ratio_for-Prescribes :
    (o : TracingSampleOptions) (p t : Option Text) → Prescribes o p t (ratio_for o p t)
unfolding ratio_for
ratio_for-Prescribes o none t = no_protocol refl refl
ratio_for-Prescribes o (some q) t =
    prescribed o q t (find_ratio o.rules q t) (find_ratio-FindResult o.rules q t)

-- What the options prescribe for a protocol and a request type (the default without a protocol or
-- a matching rule, else the ratio of the first rule that matches) is the ratio that the code
-- takes: there is one at most.
pub Prescribes-eq :
    (o : TracingSampleOptions) (p t : Option Text) (x : F64)
    → Prescribes o p t x
    → ratio_for o p t ≡ x
unfolding ratio_for
Prescribes-eq o p t x (no_protocol e x_eq) = rw (e, ratio_for) (sym x_eq)
Prescribes-eq o p t x (no_rule q e none_matches x_eq) =
    rw (e, ratio_for, find_ratio-none o.rules q t none_matches) (sym x_eq)
Prescribes-eq o p t x (first_rule q e (earlier, r, later, split, others, m, x_eq)) =
    rw (e, ratio_for, split, find_ratio-first earlier r later q t others m) (sym x_eq)

module _ (T : Telemetry) where
  open T use {TraceId, to_bytes, Context, as_str}

  -- `should_sample` decides by the one ratio that the rules prescribe for the span's protocol and
  -- request type, sets no attribute, and keeps the parent's trace state.
  pub should_sample_lem :
      (o : TracingSampleOptions) (parent : Option Context) (id : TraceId) (kvs : List (KeyValue T))
      → let (p, t) = read_attributes T kvs none none in
        let result = should_sample T o parent id kvs in
        (x : F64) × Prescribes o p t x
        × (result.decision ≡ sample_based_on_probability x (to_bytes id))
        × (result.attributes ≡ [])
        × (result.trace_state ≡ parent_state T parent)
  unfolding should_sample
  should_sample_lem o parent id kvs =
      let (p, t) = read_attributes T kvs none none in
      (ratio_for o p t, ratio_for-Prescribes o p t, refl, refl, refl)
