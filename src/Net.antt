-- ===== src/Net.antt =====
-- `std::net`: `str::parse::<SocketAddr>`, which the servers call on their bind addresses. Every
-- reader returns what it read and the rest of the text, or nothing.
pub mod RoundTrip
use filestore.Base.{
  ℕ, zero, suc, ◌+◌, ◌-◌, ◌*◌, ◌^◌, Bool, true, false, ◌&&◌, ◌||◌, not, List, [], ◌∷◌, ◌++◌, Option,
  none, some, ltb, leb, ◌==◌, if◌then◌else◌, length,
}
use filestore.Text.{Text, is_ascii_digit, decimal, codes}
use filestore.F64.Parse.{scan_digits}

infixl 5 ◌>>=◌ ◌>>◌
abbrev ◌>>=◌ {ℓ κ} : {A : Type ℓ} {B : Type κ} → Option A → (A → Option B) → Option B
none >>= f = none
some a >>= f = f a

abbrev ◌>>◌ {ℓ κ} : {A : Type ℓ} {B : Type κ} → Option A → Option B → Option B
none >> o = none
some a >> o = o

abbrev pub Read : Type 0 → Type 0
Read A = Option (A × Text)

-- `read_given_char`
read_given_char : ℕ → Text → Option Text
read_given_char c [] = none
read_given_char c (d ∷ s) = if c == d then some s else none

starts_with_zero : Text → Bool
starts_with_zero [] = false
starts_with_zero (c ∷ s) = c == b'0'

-- What ends `read_number`, after the digits: a value, their number and the rest.
accept : Bool → ℕ × ℕ × Text → Read ℕ
accept allowed (v, k, rest) = if (k == 0) || not allowed then none else some (v, rest)

-- `read_number(10, Some(3), false)` into a `u8`
read_octet : Text → Read ℕ
unfolding starts_with_zero accept scan_digits
read_octet s =
    let (v, k, rest) = scan_digits s 0 0 in
    accept (leb k 3 && not (starts_with_zero s && ltb 1 k) && ltb v 256) (v, k, rest)

-- `read_number(10, None, true)` into an integer below `bound`; its checked arithmetic fails
-- exactly when the whole number is too large.
read_decimal : ℕ → Text → Read ℕ
unfolding accept scan_digits
read_decimal bound s = let (v, k, rest) = scan_digits s 0 0 in accept (ltb v bound) (v, k, rest)

hex_digit : ℕ → Option ℕ
hex_digit c =
    if is_ascii_digit c
    then some (c - b'0')
    else if leb b'a' c && leb c b'f'
    then some (c - b'a' + 10)
    else if leb b'A' c && leb c b'F'
    then some (c - b'A' + 10)
    else none

scan_hex : Text → ℕ → ℕ → ℕ × ℕ × Text
unfolding hex_digit
scan_hex [] v k = (v, k, [])
scan_hex (c ∷ s) v k = elim (hex_digit c) [
  | none ↦ (v, k, c ∷ s)
  | some d ↦ scan_hex s (v * 16 + d) (k + 1)
]

-- `read_number(16, Some(4), true)` into a `u16`
read_group : Text → Read ℕ
unfolding scan_hex accept
read_group s = let (v, k, rest) = scan_hex s 0 0 in accept (leb k 4) (v, k, rest)

-- `read_separator`: the separator, unless this is the first item.
read_separator : ℕ → ℕ → Text → Option Text
unfolding read_given_char
read_separator c zero s = some s
read_separator c (suc i) s = read_given_char c s

pub data Ipv4Addr : Type 0 where
  octets : ℕ → ℕ → ℕ → ℕ → Ipv4Addr

read_ipv4_addr : Text → Read Ipv4Addr
unfolding read_octet read_given_char
read_ipv4_addr s = do
  (a, s₁) ← read_octet s
  s₂ ← read_given_char b'.' s₁
  (b, s₃) ← read_octet s₂
  s₄ ← read_given_char b'.' s₃
  (c, s₅) ← read_octet s₄
  s₆ ← read_given_char b'.' s₅
  (d, s₇) ← read_octet s₆
  some (octets a b c d, s₇)

-- The groups of an embedded IPv4 address.
groups_of : Ipv4Addr → List ℕ
groups_of (octets a b c d) = (a * 256 + b) ∷ (c * 256 + d) ∷ []

separated_ipv4 : ℕ → Text → Read Ipv4Addr
unfolding read_separator read_ipv4_addr
separated_ipv4 i s = do rest ← read_separator b':' i s; read_ipv4_addr rest

separated_group : ℕ → Text → Read ℕ
unfolding read_separator read_group
separated_group i s = do rest ← read_separator b':' i s; read_group rest

-- `read_groups` with `n` places left, `i` groups read: the groups, whether the last two are an IPv4
-- address, which needs two places, and the rest.
read_groups : ℕ → ℕ → Text → List ℕ × Bool × Text
unfolding separated_ipv4 separated_group groups_of
read_groups zero i s = ([], false, s)
read_groups (suc n) i s =
    elim (if n == 0 then none else separated_ipv4 i s) as (λ o. List ℕ × Bool × Text) [
      | some (a, rest) ↦ (groups_of a, true, rest)
      | none ↦ elim (separated_group i s) as (λ o. List ℕ × Bool × Text) [
        | none ↦ ([], false, s)
        | some (g, rest) ↦
            let (groups, v4, end) = read_groups n (suc i) rest in (g ∷ groups, v4, end)
      ]
    ]

abbrev zeros : ℕ → List ℕ
zeros zero = []
zeros (suc n) = 0 ∷ zeros n

-- The part behind `::`, after the groups of the front.
read_tail : List ℕ → Text → Read (List ℕ)
unfolding read_groups read_given_char
read_tail head s = do
  s₁ ← read_given_char b':' s
  s₂ ← read_given_char b':' s₁
  let (tail, v4, rest) = read_groups (7 - length head) 0 s₂
  some (head ++ zeros (8 - length head - length tail) ++ tail, rest)

-- An address is its eight groups.
read_ipv6_addr : Text → Read (List ℕ)
unfolding read_groups read_tail
read_ipv6_addr s =
    let (head, v4, rest) = read_groups 8 0 s in
    if length head == 8 then some (head, rest) else if v4 then none else read_tail head rest

pub data SocketAddr : Type 0 where
  v4 : Ipv4Addr → ℕ → SocketAddr
  -- the groups, the port and the scope id
  v6 : List ℕ → ℕ → ℕ → SocketAddr

read_port : Text → Read ℕ
unfolding read_given_char read_decimal
read_port s = do rest ← read_given_char b':' s; read_decimal (2 ^ 16) rest

-- `read_scope_id().unwrap_or(0)`
read_scope_id : Text → ℕ × Text
unfolding read_given_char read_decimal
read_scope_id s = elim (read_given_char b'%' s >>= read_decimal (2 ^ 32)) as (λ o. ℕ × Text) [
  | none ↦ (0, s)
  | some scope ↦ scope
]

read_socket_addr_v4 : Text → Read SocketAddr
unfolding read_ipv4_addr read_port
read_socket_addr_v4 s = do
  (ip, s₁) ← read_ipv4_addr s
  (port, s₂) ← read_port s₁
  some (v4 ip port, s₂)

read_socket_addr_v6 : Text → Read SocketAddr
unfolding read_given_char read_ipv6_addr read_scope_id read_port
read_socket_addr_v6 s = do
  s₁ ← read_given_char b'[' s
  (ip, s₂) ← read_ipv6_addr s₁
  let (scope, s₃) = read_scope_id s₂
  s₄ ← read_given_char b']' s₃
  (port, s₅) ← read_port s₄
  some (v6 ip port scope, s₅)

-- Nothing may follow the address.
whole : Read SocketAddr → Option SocketAddr
whole none = none
whole (some (a, [])) = some a
whole (some (a, c ∷ s)) = none

or_else : Read SocketAddr → Read SocketAddr → Read SocketAddr
or_else none other = other
or_else (some a) other = some a

unfoldable pub parse_socket_addr : Text → Option SocketAddr
unfolding read_socket_addr_v4 read_socket_addr_v6 whole or_else
parse_socket_addr s = whole (or_else (read_socket_addr_v4 s) (read_socket_addr_v6 s))

-- Whether `parse` succeeds: all that the servers use besides the address that they bind.
unfoldable pub is_socket_addr : Text → Bool
unfolding parse_socket_addr
is_socket_addr s = elim (parse_socket_addr s) [ none ↦ false | some _ ↦ true ]

-- `Display` of an IPv4 socket address.
unfoldable pub display_v4 : ℕ → ℕ → ℕ → ℕ → ℕ → Text
unfolding decimal
display_v4 a b c d port =
    decimal a
    ++ (b'.' ∷ decimal b ++ (b'.' ∷ decimal c ++ (b'.' ∷ decimal d ++ b':' ∷ decimal port)))
