-- ===== src/App/Addresses.antt =====
-- `App::start` on the addresses of a configuration, with the parser of `std::net`.
use filestore.Base.{◌≡◌, ◌≢◌, inl, inr, refl, sym, ap, ◌∙◌, subst, ◌<◌, ◌^◌, ℕ, true, some, List}
use mathlib.Core.Bool.{false≢true}
use filestore.Text.{Text}
use filestore.Tokio.{Tokio, IsLawful}
use filestore.Net.{SocketAddr, v4, octets, parse_socket_addr, is_socket_addr, display_v4}
use filestore.Net.RoundTrip.{parse-display_v4}
use filestore.Server.{Error, Service}
use filestore.Server.Rest.{Axum}
use filestore.Server.Grpc.{Tonic, GrpcServiceHandler}
use filestore.App.{AppConfig, App, open_app, failed, start_after_logging}
use filestore.App.Start.{Leaves, start_after_logging_lem}

-- An IPv4 address and a port, as they are printed.
abbrev pub IsDisplayed : Text → Type 0
IsDisplayed s =
    (a : ℕ) × (b : ℕ) × (c : ℕ) × (d : ℕ) × (port : ℕ) × (s ≡ display_v4 a b c d port)
    × (a < 256)
    × (b < 256)
    × (c < 256)
    × (d < 256)
    × (port < 2 ^ 16)

parses : (s : Text) (a : SocketAddr) → parse_socket_addr s ≡ some a → is_socket_addr s ≡ true
unfolding is_socket_addr
parses s a h = rw (h, is_socket_addr) refl

displayed_parses : (s : Text) → IsDisplayed s → is_socket_addr s ≡ true
displayed_parses s (a, b, c, d, port, e, ha, hb, hc, hd, hp) =
    parses s (v4 (octets a b c d) port)
      (ap parse_socket_addr e ∙ parse-display_v4 a b c d port ha hb hc hd hp)

module _ (T : Tokio) (L : IsLawful T) (N : Tonic) (A : Axum) where
  -- When each bind address is an IPv4 address with a port, as it is printed, `start` is not
  -- refused after its logging: it starts both servers or panics.
  pub displayed_not_refused :
      (hello : GrpcServiceHandler N) (c : AppConfig)
      → IsDisplayed c.grpc_config.bind_address
      → IsDisplayed c.http_config.bind_address
      → (message : Text) (e : Error) (app : App T) (left : List (Service T))
      → start_after_logging T N A is_socket_addr hello (open_app T c) ≢ failed message e app left
  displayed_not_refused hello c g h message e app left = λ refused.
      elim (subst (Leaves T L N A is_socket_addr c) refused
        (start_after_logging_lem T L N A is_socket_addr hello c)).1 [
          | inl (m, k, bad, l) ↦
              absurd (false≢true (sym bad ∙ displayed_parses c.grpc_config.bind_address g))
          | inr (m, k, ok, bad, l) ↦
              absurd (false≢true (sym bad ∙ displayed_parses c.http_config.bind_address h))
        ]
