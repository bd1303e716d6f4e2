-- ===== src/ReadableSize.antt =====
-- `ReadableSize` of crates/common/src/readable_size.rs: the units, the arithmetic, the serde
-- implementations, `FromStr` and `Display`.
pub mod Parsing
pub mod Spellings
pub mod Outcomes
pub mod RoundTrip
pub mod Loss
pub mod Negative
pub mod Largest
pub mod Display
pub mod Reread
pub mod Units
pub mod Serde
use filestore.Base.{
  ℕ, ◌+◌, ◌*◌, ◌/◌, ◌%◌, ◌^◌, Bool, true, false, ◌||◌, not, List, [], ◌∷◌, ◌++◌, Option, none, some,
  ltb, leb, ◌==◌, if◌then◌else◌, length,
}
use filestore.Base.Int.{ℤ, pos, negsuc}
use filestore.Text.{
  Text, codes, ◌≟◌, is_empty, is_ascii_digit, is_ascii, trim, take_while, take, drop, decimal,
}
use filestore.F64.{F64, finite, infinite, nan, one_steps, nearest_even, of_u64, to_u64, mul, div}
use filestore.F64.Parse.{parse_f64}

abbrev pub kib : ℕ
kib = 1024

abbrev pub mib : ℕ
mib = kib * 1024

abbrev pub gib : ℕ
gib = mib * 1024

abbrev pub tib : ℕ
tib = gib * 1024

abbrev pub pib : ℕ
pib = tib * 1024

abbrev pub u64_mod : ℕ
u64_mod = 2 ^ 64

-- The tuple struct, whose field is a `u64`.
pub record ReadableSize : Type 0 where
  pub bytes : ℕ

abbrev size_of : ℕ → ReadableSize
size_of n = record { bytes = n }

-- Whether the build checks for arithmetic overflow (debug) or wraps (release).
pub data Profile : Type 0 where
  debug release : Profile

-- `a * b` on `u64`; `none` is a panic.
unfoldable pub mul_u64 : Profile → ℕ → ℕ → Option ℕ
mul_u64 debug a b = if ltb (a * b) u64_mod then some (a * b) else none
mul_u64 release a b = some (a * b % u64_mod)

sized : Option ℕ → Option ReadableSize
sized none = none
sized (some n) = some (size_of n)

unfoldable pub kb : Profile → ℕ → Option ReadableSize
unfolding mul_u64 sized
kb p count = sized (mul_u64 p count kib)

unfoldable pub mb : Profile → ℕ → Option ReadableSize
unfolding mul_u64 sized
mb p count = sized (mul_u64 p count mib)

unfoldable pub gb : Profile → ℕ → Option ReadableSize
unfolding mul_u64 sized
gb p count = sized (mul_u64 p count gib)

unfoldable pub as_mb : ReadableSize → ℕ
as_mb s = s.bytes / mib

unfoldable pub as_bytes : ReadableSize → ℕ
as_bytes s = s.bytes

-- `as usize`, on a target whose pointers have `width` bits.
unfoldable pub as_bytes_usize : ℕ → ReadableSize → ℕ
as_bytes_usize width s = s.bytes % 2 ^ width

-- `size / n`; a division by zero panics.
unfoldable pub div_by : ReadableSize → ℕ → Option ReadableSize
div_by s rhs = if rhs == 0 then none else some (size_of (s.bytes / rhs))

-- `size / size`
unfoldable pub div_size : ReadableSize → ReadableSize → Option ℕ
div_size s rhs = if rhs.bytes == 0 then none else some (s.bytes / rhs.bytes)

unfoldable pub mul_by : Profile → ReadableSize → ℕ → Option ReadableSize
unfolding mul_u64 sized
mul_by p s rhs = sized (mul_u64 p s.bytes rhs)

-- What the serializer is given.
pub data Serialized : Type 0 where
  serialize_str : Text → Serialized
  serialize_u64 : ℕ → Serialized

unfoldable pub serialize : ReadableSize → Serialized
serialize s =
    if size == 0
    then serialize_str (decimal size ++ codes "KiB")
    else if size % pib == 0
    then serialize_str (decimal (size / pib) ++ codes "PiB")
    else if size % tib == 0
    then serialize_str (decimal (size / tib) ++ codes "TiB")
    else if size % gib == 0
    then serialize_str (decimal (size / gib) ++ codes "GiB")
    else if size % mib == 0
    then serialize_str (decimal (size / mib) ++ codes "MiB")
    else if size % kib == 0
    then serialize_str (decimal (size / kib) ++ codes "KiB")
    else serialize_u64 size
  where
    open s use {bytes as size}

-- The refusals of `from_str`, each with the text that its message quotes.
pub data ParseError : Type 0 where
  not_a_size not_ascii unsupported_unit invalid_number : Text → ParseError

pub data Parsed : Type 0 where
  ok : ReadableSize → Parsed
  err : ParseError → Parsed

-- What the numeric part is made of.
unfoldable pub is_number_char : ℕ → Bool
is_number_char c = is_ascii_digit c || c == b'.' || c == b'e' || c == b'E' || c == b'-' || c == b'+'

unfoldable pub unit_of : Text → Option ℕ
unfolding ◌≟◌
unit_of u =
    if u ≟ codes "K" || u ≟ codes "KB" || u ≟ codes "KiB"
    then some kib
    else if u ≟ codes "M" || u ≟ codes "MB" || u ≟ codes "MiB"
    then some mib
    else if u ≟ codes "G" || u ≟ codes "GB" || u ≟ codes "GiB"
    then some gib
    else if u ≟ codes "T" || u ≟ codes "TB" || u ≟ codes "TiB"
    then some tib
    else if u ≟ codes "P" || u ≟ codes "PB" || u ≟ codes "PiB"
    then some pib
    else if u ≟ codes "B" || u ≟ []
    then some 1
    else none

-- The last `match`: `(n * unit as f64) as u64`.
unfoldable pub scale_number : Text → ℕ → Option F64 → Parsed
unfolding of_u64 to_u64 mul
scale_number s unit none = err (invalid_number s)
scale_number s unit (some n) = ok (size_of (to_u64 (mul n (of_u64 unit))))

unfoldable pub with_unit : Text → Text → Option ℕ → Parsed
unfolding parse_f64 scale_number
with_unit s number none = err (unsupported_unit s)
with_unit s number (some unit) = scale_number s unit (parse_f64 number)

unfoldable pub from_str : Text → Parsed
unfolding trim is_empty is_ascii is_number_char take_while unit_of with_unit
from_str s =
    let size_str = trim s in
    let size_len = length (take_while is_number_char size_str) in
    if is_empty size_str
    then err (not_a_size s)
    else if not (is_ascii size_str)
    then err (not_ascii s)
    else with_unit s (take size_len size_str) (unit_of (trim (drop size_len size_str)))

-- What the deserializer may hand to the visitor.
pub data Value : Type 0 where
  i64 : ℤ → Value
  u64 : ℕ → Value
  str : Text → Value

pub data Visited : Type 0 where
  value : ReadableSize → Visited
  invalid_value : ℤ → Visited
  custom : ParseError → Visited

visit_parsed : Parsed → Visited
visit_parsed (ok s) = value s
visit_parsed (err e) = custom e

unfoldable pub visit : Value → Visited
unfolding from_str visit_parsed
visit (i64 (pos n)) = value (size_of n)
visit (i64 (negsuc n)) = invalid_value (negsuc n)
visit (u64 n) = value (size_of n)
visit (str s) = visit_parsed (from_str s)

-- `{:.1}` of an `f64`: to the nearest tenth, ties to even.
unfoldable pub tenths : F64 → Text
unfolding decimal nearest_even one_steps
tenths (finite sign n) =
    let t = nearest_even (n * 10 / one_steps) (n * 10 % one_steps) one_steps in
    (if sign then codes "-" else []) ++ decimal (t / 10) ++ codes "." ++ decimal (t % 10)
tenths (infinite sign) = (if sign then codes "-" else []) ++ codes "inf"
tenths nan = codes "NaN"

unfoldable pub display : ReadableSize → Text
display s =
    if leb pib size
    then tenths (div (of_u64 size) (of_u64 pib)) ++ codes "PiB"
    else if leb tib size
    then tenths (div (of_u64 size) (of_u64 tib)) ++ codes "TiB"
    else if leb gib size
    then tenths (div (of_u64 size) (of_u64 gib)) ++ codes "GiB"
    else if leb mib size
    then tenths (div (of_u64 size) (of_u64 mib)) ++ codes "MiB"
    else if leb kib size
    then tenths (div (of_u64 size) (of_u64 kib)) ++ codes "KiB"
    else decimal size ++ codes "B"
  where
    open s use {bytes as size}
