-- ===== src/Tests/Addresses.antt =====
-- Socket addresses.
use filestore.Base.{◌≡◌, refl, true, false, some, [], ◌∷◌}
use filestore.Text.{codes}
use filestore.Net.{parse_socket_addr, is_socket_addr, v4, v6, octets}

rest_default : parse_socket_addr (codes "127.0.0.1:3000") ≡ some (v4 (octets 127 0 0 1) 3000)
unfolding parse_socket_addr
rest_default = refl

loopback6 :
    parse_socket_addr (codes "[::1]:50051") ≡ some (v6 (0 ∷ 0 ∷ 0 ∷ 0 ∷ 0 ∷ 0 ∷ 0 ∷ 1 ∷ []) 50051 0)
unfolding parse_socket_addr
loopback6 = refl

mapped :
    parse_socket_addr (codes "[64:ff9b::1.2.3.4%7]:00080")
    ≡ some (v6 (100 ∷ 65435 ∷ 0 ∷ 0 ∷ 0 ∷ 0 ∷ 258 ∷ 772 ∷ []) 80 7)
unfolding parse_socket_addr
mapped = refl

full : is_socket_addr (codes "[1:2:3:4:5:6:7:8]:1") ≡ true
unfolding is_socket_addr
full = refl

octal : is_socket_addr (codes "127.0.0.01:80") ≡ false
unfolding is_socket_addr
octal = refl

big_port : is_socket_addr (codes "127.0.0.1:65536") ≡ false
unfolding is_socket_addr
big_port = refl

host_name : is_socket_addr (codes "localhost:3000") ≡ false
unfolding is_socket_addr
host_name = refl

no_port : is_socket_addr (codes "127.0.0.1") ≡ false
unfolding is_socket_addr
no_port = refl

two_gaps : is_socket_addr (codes "[1::2::3]:80") ≡ false
unfolding is_socket_addr
two_gaps = refl
