-- ===== src/Env/Required.antt =====
-- When a variable is found, when it is missing and when reading it fails.
use filestore.Base.{◌≡◌, ◌≢◌, ◌↔◌, refl, none, some}
use filestore.Text.{Text}
use filestore.Env.{
  Result, ok, err, Read, content, not_present, other_error, found, required, var, required_var,
  var_parsed, parse_found, parsed,
}

found-some_iff : (key v : Text) (x : Read) → (found key x ≡ ok (some v)) ↔ (x ≡ content v)
unfolding found
found-some_iff key v (content u) = (λ h. cc, λ h. cc)
found-some_iff key v not_present = (λ h. cc, λ h. cc)
found-some_iff key v (other_error e) = (λ h. cc, λ h. cc)

found_not_present : (key : Text) (x : Read) → found key x ≡ ok none → x ≡ not_present
unfolding found
found_not_present key (content v) h = cc
found_not_present key not_present h = refl
found_not_present key (other_error e) h = cc

found-none_iff : (key : Text) (x : Read) → (found key x ≡ ok none) ↔ (x ≡ not_present)
unfolding found
found-none_iff key x = (found_not_present key x, λ h. rw h refl)

required-found_iff :
    (key v : Text) (x : Read) → (required (found key x) key ≡ ok v) ↔ (x ≡ content v)
unfolding found required
required-found_iff key v (content u) = (λ h. cc, λ h. cc)
required-found_iff key v not_present = (λ h. cc, λ h. cc)
required-found_iff key v (other_error e) = (λ h. cc, λ h. cc)

-- `required_var` and `var` return a value exactly when the variable is set to it, and `var` says
-- that there is none exactly when it is absent: any other failure is an error of both.
pub required_var_iff :
    (read : Text → Read) (key v : Text)
    → ((required_var read key ≡ ok v) ↔ (read key ≡ content v))
      × ((var read key ≡ ok (some v)) ↔ (read key ≡ content v))
      × ((var read key ≡ ok none) ↔ (read key ≡ not_present))
unfolding required_var var found
required_var_iff read key v = (
  required-found_iff key v (read key),
  found-some_iff key v (read key),
  found-none_iff key (read key),
)

module _ {ℓ} {R : Type ℓ} (read : Text → Read) (from_str : Text → Result R) where
  parsed-some :
      (key : Text) (r : R) (y : Result R) → parsed read from_str key y ≡ ok (some r) → y ≡ ok r
  unfolding parsed
  parsed-some key r (ok x) h = cc
  parsed-some key r (err e) h = cc

  parsed_ne_none : (key : Text) (y : Result R) → parsed read from_str key y ≢ ok none
  unfolding parsed
  parsed_ne_none key (ok x) h = cc
  parsed_ne_none key (err e) h = cc

  some_iff :
      (key : Text) (r : R) (x : Read)
      → (parse_found read from_str key (found key x) ≡ ok (some r))
        ↔ ((v : Text) × (x ≡ content v) × (from_str v ≡ ok r))
  unfolding found parse_found parsed
  some_iff key r (content u) = (
    λ h. (u, refl, parsed-some key r (from_str u) h),
    λ (v, e, f). let g : from_str u ≡ ok r = cc in rw g refl,
  )
  some_iff key r not_present = (λ h. cc, λ (v, e, f). cc)
  some_iff key r (other_error e) = (λ h. cc, λ (v, k, f). cc)

  none_iff :
      (key : Text) (x : Read)
      → (parse_found read from_str key (found key x) ≡ ok none) ↔ (x ≡ not_present)
  unfolding found parse_found parsed
  none_iff key (content u) = (λ h. absurd (parsed_ne_none key (from_str u) h), λ h. cc)
  none_iff key not_present = (λ h. refl, λ h. refl)
  none_iff key (other_error e) = (λ h. cc, λ h. cc)

  -- `var_parsed` returns a value exactly when the variable is set to a text that parses to it, and
  -- returns nothing exactly when the variable is not set: a text that does not parse is an error.
  pub var_parsed_iff :
      (key : Text) (r : R)
      → ((var_parsed read from_str key ≡ ok (some r))
          ↔ ((v : Text) × (read key ≡ content v) × (from_str v ≡ ok r)))
        × ((var_parsed read from_str key ≡ ok none) ↔ (read key ≡ not_present))
  unfolding var_parsed var
  var_parsed_iff key r = (some_iff key r (read key), none_iff key (read key))

-- An error, whichever.
abbrev pub Fails {ℓ} : {A : Type ℓ} → Result A → Type ℓ
Fails {A = A} r = (v : A) → r ≢ ok v

unreadable-Fails {ℓ} :
    {R : Type ℓ} (read : Text → Read) (from_str : Text → Result R) (key : Text) (x : Read)
    → ((v : Text) → x ≢ content v)
    → x ≢ not_present
    → Fails (required (found key x) key)
      × Fails (found key x)
      × Fails (parse_found read from_str key (found key x))
unfolding found required parse_found
unreadable-Fails read from_str key (content v) set absent = absurd (set v refl)
unreadable-Fails read from_str key not_present set absent = absurd (absent refl)
unreadable-Fails read from_str key (other_error e) set absent = (λ v h. cc, λ v h. cc, λ v h. cc)

-- `required_var` and `var` return a value exactly when the variable is set to it, and `var_parsed`
-- exactly when it is set to a text that parses to it. `var` and `var_parsed` say that there is none
-- exactly when the variable is absent. When reading it neither gives a text nor says that it is
-- absent, all three give an error.
pub variables_iff {ℓ} :
    {R : Type ℓ} (read : Text → Read) (from_str : Text → Result R) (key v : Text) (r : R)
    → ((required_var read key ≡ ok v) ↔ (read key ≡ content v))
      × ((var read key ≡ ok (some v)) ↔ (read key ≡ content v))
      × ((var read key ≡ ok none) ↔ (read key ≡ not_present))
      × ((var_parsed read from_str key ≡ ok (some r))
          ↔ ((s : Text) × (read key ≡ content s) × (from_str s ≡ ok r)))
      × ((var_parsed read from_str key ≡ ok none) ↔ (read key ≡ not_present))
      × (((u : Text) → read key ≢ content u)
          → read key ≢ not_present
          → Fails (required_var read key)
            × Fails (var read key)
            × Fails (var_parsed read from_str key))
unfolding required_var var var_parsed
variables_iff read from_str key v r =
    let (required_to_be, found_some, found_none) = required_var_iff read key v in
    let (parsed_some, parsed_none) = var_parsed_iff read from_str key r in
    (
      required_to_be,
      found_some,
      found_none,
      parsed_some,
      parsed_none,
      unreadable-Fails read from_str key (read key),
    )
