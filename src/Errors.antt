-- ===== src/Errors.antt =====
-- crates/common/src/error.rs: the errors of the common crate, and what they print. The errors of
-- the standard library that they wrap are parameters.
use mathlib.Core.List.{append_cancel_left}
use filestore.Base.{ℕ, arith, ◌≡◌, ap, [], ◌∷◌, ◌++◌}
use filestore.Text.{Text, codes, drop}

first : Text → ℕ
first [] = 0
first (c ∷ s) = c

module _ (IoError AddrParseError : Type 0) where
  pub data NetworkError : Type 0 where
    connection_error : Text → IoError → NetworkError
    parse_address_error : Text → AddrParseError → NetworkError

  -- `transparent`: it prints what it wraps.
  pub data Error : Type 0 where
    network : NetworkError → Error

  display_network : NetworkError → Text
  display_network (connection_error addr source) = codes "Failed to connect to " ++ addr
  display_network (parse_address_error addr source) = codes "Failed to parse address " ++ addr

  pub display : Error → Text
  unfolding display_network
  display (network e) = display_network e

  -- A printed error shows its kind and its address: one that prints as a failed connection is one,
  -- to that address.
  pub display_connection :
      (e : Error) (addr : Text) (source : IoError)
      → display e ≡ display (network (connection_error addr source))
      → (other : IoError) × (e ≡ network (connection_error addr other))
  unfolding display display_network first
  display_connection (network (connection_error a other)) addr source h = (
    other,
    ap (λ b. network (connection_error b other))
        (append_cancel_left (codes "Failed to connect to ") a addr h),
  )
  display_connection (network (parse_address_error a other)) addr source h =
      let letter : 112 ≡ 99 = ap (λ s. first (drop 10 s)) h in absurd (omega (arith, letter))
