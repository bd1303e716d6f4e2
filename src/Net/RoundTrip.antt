-- ===== src/Net/RoundTrip.antt =====
-- The IPv4 socket addresses that the program prints and configures are parsed back.
use filestore.Base.{
  ℕ, zero, suc, ◌^◌, ◌<◌, ◌≡◌, ◌≢◌, refl, ap, ◌∙◌, Bool, true, false, ◌&&◌, not, [], ◌∷◌, ◌++◌,
  arith, leb, ltb, lt→ltb, Bool-cases, both_true, inl, inr, ==_iff, ◌==◌, length, some,
}
use filestore.Text.{Text, decimal}
use filestore.Text.Decimal.{decimal-ne-nil}
use filestore.F64.Parse.{scan_digits}
use filestore.F64.Parse.Decimal.{scan_digits-append, scan_digits-decimal, positive, length-pos}
use filestore.Net.{
  octets, v4, read_octet, starts_with_zero, accept, read_given_char, read_ipv4_addr, read_decimal,
  read_port, read_socket_addr_v4, or_else, whole, parse_socket_addr, display_v4,
}

-- A print of at most three digits, without a leading zero.
fits : ℕ → Bool
unfolding decimal starts_with_zero
fits n = let s = decimal n in leb (length s) 3 && not (starts_with_zero s && ltb 1 (length s))

all_below : (ℕ → Bool) → ℕ → Bool
all_below p zero = true
all_below p (suc n) = p n && all_below p n

octets_fit : all_below fits 256 ≡ true
unfolding all_below fits
octets_fit = refl

all_below_lem : (p : ℕ → Bool) (n k : ℕ) → all_below p n ≡ true → k < n → p k ≡ true
unfolding all_below
all_below_lem p zero k h lt = absurd (omega arith)
all_below_lem p (suc n) k h lt =
    let (top, rest) = both_true (p n) (all_below p n) h in
    elim (Bool-cases (k == n)) [
      | inl e ↦ ap p ((==_iff k n).0 e) ∙ top
      | inr e ↦ all_below_lem p n k rest (ground arith)
    ]

starts_with_zero-append :
    (s rest : Text) → s ≢ [] → starts_with_zero (s ++ rest) ≡ starts_with_zero s
unfolding starts_with_zero
starts_with_zero-append [] rest h = absurd (h refl)
starts_with_zero-append (c ∷ s) rest h = refl

accepted :
    (a b : Bool) (v k : ℕ) (rest : Text)
    → (k == 0) ≡ false
    → (a && b) ≡ true
    → accept (a && b && true) (v, k, rest) ≡ some (v, rest)
unfolding accept
accepted true true v k rest h e = rw h refl
accepted true false v k rest h e = cc
accepted false b v k rest h e = cc

-- The scan ends in front of the given rest.
abbrev Stops : ℕ → Text → Type 0
Stops n rest = scan_digits rest n (length (decimal n)) ≡ (n, length (decimal n), rest)

count : (n : ℕ) → (length (decimal n) == 0) ≡ false
count n = positive (length (decimal n)) (length-pos (decimal n) (decimal-ne-nil n))

read_octet-decimal :
    (n : ℕ) (rest : Text) → n < 256 → Stops n rest → read_octet (decimal n ++ rest) ≡ some (n, rest)
unfolding read_octet fits
read_octet-decimal n rest h stop =
    rw
      (
        scan_digits-append n rest,
        stop,
        starts_with_zero-append (decimal n) rest (decimal-ne-nil n),
        lt→ltb n 256 h,
      )
      (accepted (leb (length (decimal n)) 3)
        (not (starts_with_zero (decimal n) && ltb 1 (length (decimal n)))) n (length (decimal n))
        rest (count n) (all_below_lem fits 256 n octets_fit h))

read_port-decimal : (n : ℕ) → n < 2 ^ 16 → read_port (b':' ∷ decimal n) ≡ some (n, [])
unfolding read_port read_given_char read_decimal
read_port-decimal n h =
    rw (scan_digits-decimal n, lt→ltb n (2 ^ 16) h)
      (accepted true true n (length (decimal n)) [] (count n) refl)

-- Every IPv4 socket address is parsed back from what it prints: four octets and a 16-bit port.
pub parse-display_v4 :
    (a b c d port : ℕ)
    → a < 256
    → b < 256
    → c < 256
    → d < 256
    → port < 2 ^ 16
    → parse_socket_addr (display_v4 a b c d port) ≡ some (v4 (octets a b c d) port)
unfolding parse_socket_addr display_v4 read_socket_addr_v4 read_ipv4_addr read_given_char or_else
    whole scan_digits
parse-display_v4 a b c d port ha hb hc hd hp =
    rw
      (
        read_octet-decimal a _ ha refl,
        read_octet-decimal b _ hb refl,
        read_octet-decimal c _ hc refl,
        read_octet-decimal d _ hd refl,
        read_port-decimal port hp,
      )
      refl
