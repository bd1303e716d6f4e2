-- ===== src/Sampler/Equality.antt =====
-- `==` on the sampling options, which are declared to be `Eq`.
use mathlib.Core.List.{append_assoc}
use filestore.Base.{
  subst, ◌∙◌, ◌≡◌, ◌≢◌, ◌↔◌, refl, Bool, true, false, ◌&&◌, List, [], ◌∷◌, ◌++◌, arith, All, ==_iff,
  length,
}
use filestore.Text.{Text}
use filestore.Text.Equal.{≟_refl}
use filestore.F64.{F64, finite, infinite, nan, le}
use filestore.Sampler.{
  TracingSampleRule, TracingSampleOptions, contains, all_contained, eq_sets, eq_f64, eq_rule,
  eq_rules, eq_options,
}

eq_f64_self : (x : F64) → (eq_f64 x x ≡ true) ↔ (x ≢ nan)
unfolding eq_f64 le
eq_f64_self (finite true n) = (λ _ e. cc, λ _. ground arith)
eq_f64_self (finite false n) = (λ _ e. cc, λ _. ground arith)
eq_f64_self (infinite true) = (λ _ e. cc, λ _. refl)
eq_f64_self (infinite false) = (λ _ e. cc, λ _. refl)
eq_f64_self nan = (λ h. cc, λ h. absurd (h refl))

contains-middle : (us : List Text) (t : Text) (vs : List Text) → contains (us ++ t ∷ vs) t ≡ true
unfolding contains
contains-middle [] t vs = rw (≟_refl t)
contains-middle (u ∷ us) t vs = rw (contains-middle us t vs) (ground arith)

all_contained-suffix :
    (before after all : List Text) → before ++ after ≡ all → all_contained after all ≡ true
unfolding all_contained
all_contained-suffix before [] all e = refl
all_contained-suffix before (t ∷ ts) all e =
    let here : contains all t ≡ true =
      subst (λ l. contains l t ≡ true) e (contains-middle before t ts) in
    rw here (all_contained-suffix (before ++ t ∷ []) ts all (append_assoc before (t ∷ []) ts ∙ e))

eq_sets_self : (ts : List Text) → eq_sets ts ts ≡ true
unfolding eq_sets
eq_sets_self ts = rw ((==_iff (length ts) (length ts)).1 refl) (all_contained-suffix [] ts ts refl)

eq_rule_self : (r : TracingSampleRule) → (eq_rule r r ≡ true) ↔ (r.ratio ≢ nan)
unfolding eq_rule
eq_rule_self r = rw (≟_refl r.protocol, eq_sets_self r.request_types) (eq_f64_self r.ratio)

and_iff {ℓ κ} :
    {P : Type ℓ} {Q : Type κ} (a b : Bool)
    → (a ≡ true) ↔ P
    → (b ≡ true) ↔ Q
    → ((a && b) ≡ true) ↔ (P × Q)
and_iff true b p q = (λ h. (p.0 refl, q.0 h), λ (hp, hq). q.1 hq)
and_iff false b p q = (λ h. cc, λ (hp, hq). cc (p.1 hp))

eq_rules_self :
    (rs : List TracingSampleRule) → (eq_rules rs rs ≡ true) ↔ All (λ r. r.ratio ≢ nan) rs
unfolding eq_rules
eq_rules_self [] = (λ _. tt, λ _. refl)
eq_rules_self (r ∷ rs) = and_iff (eq_rule r r) (eq_rules rs rs) (eq_rule_self r) (eq_rules_self rs)

-- The options equal themselves exactly when none of their ratios is a NaN.
pub eq_options_self :
    (o : TracingSampleOptions)
    → (eq_options o o ≡ true) ↔ ((o.default_ratio ≢ nan) × All (λ r. r.ratio ≢ nan) o.rules)
unfolding eq_options
eq_options_self o =
    and_iff (eq_f64 o.default_ratio o.default_ratio) (eq_rules o.rules o.rules)
      (eq_f64_self o.default_ratio) (eq_rules_self o.rules)
