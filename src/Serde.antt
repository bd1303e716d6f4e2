-- ===== src/Serde.antt =====
-- serde: the values of a self-describing format such as JSON, and what the derived `Deserialize` of a
-- struct reads, with `#[serde(default)]` or without. A reader gives the value, or nothing for an
-- error.
pub mod Required
use filestore.Base.{ℕ, suc, ◌^◌, Bool, not, List, [], ◌∷◌, Option, none, some, ltb, if◌then◌else◌}
use filestore.Text.{Text, ◌≟◌}
use filestore.F64.{F64, finite, infinite, nan, of_u64}

-- The value `negative n` is the integer -(n + 1).

mutual
  pub data Value : Type 0 where
    null : Value
    bool : Bool → Value
    number negative : ℕ → Value
    float : F64 → Value
    string : Text → Value
    array : Values → Value
    object : Fields → Value

  pub data Values : Type 0 where
    no_items : Values
    item : Value → Values → Values

  pub data Fields : Type 0 where
    no_fields : Fields
    field : Text → Value → Fields → Fields

abbrev pub Reader : Type 0 → Type 0
Reader A = Value → Option A

unfoldable pub read_string : Reader Text
read_string (string s) = some s
read_string _ = none

unfoldable pub read_bool : Reader Bool
read_bool (bool b) = some b
read_bool _ = none

unfoldable pub read_usize : Reader ℕ
read_usize (number n) = if ltb n (2 ^ 64) then some n else none
read_usize _ = none

negate : F64 → F64
negate (finite sign n) = finite (not sign) n
negate (infinite sign) = infinite (not sign)
negate nan = nan

-- An integer is rounded.
unfoldable pub read_f64 : Reader F64
unfolding negate
read_f64 (float x) = some x
read_f64 (number n) = some (of_u64 n)
read_f64 (negative n) = some (negate (of_u64 (suc n)))
read_f64 _ = none

some_of : {A : Type 0} → Option A → Option (Option A)
some_of none = none
some_of (some a) = some (some a)

unfoldable pub read_option : {A : Type 0} → Reader A → Reader (Option A)
unfolding some_of
read_option read null = some none
read_option read v = some_of (read v)

cons_of : {A : Type 0} → Option A → Option (List A) → Option (List A)
cons_of (some a) (some as_) = some (a ∷ as_)
cons_of _ _ = none

unfoldable pub read_values : {A : Type 0} → Reader A → Values → Option (List A)
unfolding cons_of
read_values read no_items = some []
read_values read (item v vs) = cons_of (read v) (read_values read vs)

unfoldable pub read_list : {A : Type 0} → Reader A → Reader (List A)
unfolding read_values
read_list read (array vs) = read_values read vs
read_list read _ = none

-- What a struct finds of one of its fields.
pub data Found : Type 0 where
  missing twice : Found
  once : Value → Found

again : Value → Found → Found
again v missing = once v
again v _ = twice

-- Fields that the struct does not know are ignored, a repeated field is an error.
unfoldable pub find : Text → Fields → Found
unfolding again
find key no_fields = missing
find key (field k v fs) = let rest = find key fs in if k ≟ key then again v rest else rest

read_found : {A : Type 0} → Reader A → A → Found → Option A
read_found read default missing = some default
read_found read default twice = none
read_found read default (once v) = read v

unfoldable pub read_field : {A : Type 0} → Reader A → A → Text → Fields → Option A
unfolding read_found find
read_field read default key fs = read_found read default (find key fs)

unfoldable pub read_once : {A : Type 0} → Reader A → Found → Option A
read_once read (once v) = read v
read_once read _ = none

-- A field without a default must be there.
unfoldable pub read_required : {A : Type 0} → Reader A → Text → Fields → Option A
unfolding read_once find
read_required read key fs = read_once read (find key fs)

cons_field : Text → Value → Option Fields → Option Fields
cons_field key v none = none
cons_field key v (some fs) = some (field key v fs)

-- The items of a sequence are the fields in their order: the last ones may be missing, and an item
-- too many is an error.
by_position : List Text → Values → Option Fields
unfolding cons_field
by_position keys no_items = some no_fields
by_position [] (item v vs) = none
by_position (key ∷ keys) (item v vs) = cons_field key v (by_position keys vs)

-- What a struct with these fields is read from.
unfoldable pub fields_of : List Text → Reader Fields
unfolding by_position
fields_of keys (object fs) = some fs
fields_of keys (array vs) = by_position keys vs
fields_of keys _ = none

-- The struct is read from the fields of the value.
unfoldable pub read_struct : {A : Type 0} → List Text → (Fields → Option A) → Reader A
unfolding fields_of
read_struct keys read v = elim (fields_of keys v) [ none ↦ none | some fs ↦ read fs ]

infixl 5 ◌>>=◌
abbrev pub ◌>>=◌ : {A B : Type 0} → Option A → (A → Option B) → Option B
none >>= f = none
some a >>= f = f a
