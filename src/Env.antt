-- ===== src/Env.antt =====
-- crates/common/src/env.rs: environment variables. `dotenvy::var` and `FromStr` are parameters.
pub mod Required
use filestore.Base.{List, [], ◌∷◌, ◌++◌, Option, none, some}
use filestore.Text.{Text, codes}

-- `Whatever` is kept as its message; a path's source location and backtrace are not.
pub data Result {ℓ} (A : Type ℓ) : Type ℓ where
  ok : A → Result A
  err : Text → Result A

-- What `dotenvy::var` returns.
pub data Read : Type 0 where
  content : Text → Read
  not_present : Read
  other_error : Text → Read

found : Text → Read → Result (Option Text)
found key (content value) = ok (some value)
found key not_present = ok none
found key (other_error e) = err (codes "Failed to read " ++ key ++ codes " environment variable")

unfoldable pub required {ℓ} : {A : Type ℓ} → Result (Option A) → Text → Result A
required (ok (some value)) key = ok value
required (ok none) key =
    err (codes "Failed to find required " ++ key ++ codes " environment variable")
required (err e) key = err e

module _ (read : Text → Read) where
  unfoldable pub var : Text → Result (Option Text)
  unfolding found
  var key = found key (read key)

  unfoldable pub required_var : Text → Result Text
  unfolding var required
  required_var key = required (var key) key

  module _ {ℓ} {R : Type ℓ} (from_str : Text → Result R) where
    -- `e` is what the error of `from_str` displays.
    parsed : Text → Result R → Result (Option R)
    parsed key (ok r) = ok (some r)
    parsed key (err e) =
        err (codes "Failed to parse " ++ key ++ codes " environment variable; " ++ e)

    parse_found : Text → Result (Option Text) → Result (Option R)
    unfolding parsed
    parse_found key (ok (some value)) = parsed key (from_str value)
    parse_found key (ok none) = ok none
    parse_found key (err e) = err e

    unfoldable pub var_parsed : Text → Result (Option R)
    unfolding var parse_found
    var_parsed key = parse_found key (var key)
