-- ===== src/Logging/Endpoint.antt =====
-- Where the exporter sends traces to.
use filestore.Base.{
  arith, length, length-append, ap, ◌≡◌, ◌≢◌, ◌↔◌, refl, sym, ◌∙◌, true, false, ◌++◌, Option, none,
  some, Bool-cases, inl, inr,
}
use filestore.Text.{Text, codes, starts_with}
use filestore.Logging.{
  OtlpExportProtocol, grpc, http, endpoint, with_scheme, default_endpoint,
  default_otlp_grpc_endpoint, default_otlp_http_endpoint,
}

with_scheme_of_http : (e : Text) → starts_with e (codes "http") ≡ true → with_scheme e ≡ e
unfolding with_scheme
with_scheme_of_http e h = rw h refl

with_scheme_of_other :
    (e : Text) → starts_with e (codes "http") ≡ false → with_scheme e ≡ codes "http://" ++ e
unfolding with_scheme
with_scheme_of_other e h = rw h refl

prefixed : (e : Text) → starts_with (codes "http://" ++ e) (codes "http") ≡ true
unfolding starts_with
prefixed e = refl

with_scheme_starts : (e : Text) → starts_with (with_scheme e) (codes "http") ≡ true
unfolding with_scheme
with_scheme_starts e = elim (Bool-cases (starts_with e (codes "http"))) [
  | inl h ↦ rw h h
  | inr h ↦ rw h (prefixed e)
]

ne-prefixed : (p e : Text) → length p ≡ 7 → e ≢ p ++ e
ne-prefixed p e seven h =
    let lengths : length e ≡ length (p ++ e) = ap length h in
    omega (arith, length-append p e, lengths, seven)

endpoint_starts :
    (o : Option Text) (p : OtlpExportProtocol) → starts_with (endpoint o p) (codes "http") ≡ true
unfolding endpoint default_endpoint starts_with default_otlp_grpc_endpoint
    default_otlp_http_endpoint
endpoint_starts none grpc = refl
endpoint_starts none http = refl
endpoint_starts (some e) p = with_scheme_starts e

-- The endpoint that is used always starts with `http`, and configuring it again does not change
-- it. A configured endpoint gets the prefix `http://` exactly when it does not start with `http`,
-- so a host whose name starts with `http` is used without a scheme.
pub endpoint_lem :
    (o : Option Text) (e : Text) (p : OtlpExportProtocol)
    → (starts_with (endpoint o p) (codes "http") ≡ true)
      × (endpoint (some (endpoint o p)) p ≡ endpoint o p)
      × ((endpoint (some e) p ≡ codes "http://" ++ e) ↔ (starts_with e (codes "http") ≡ false))
      × ((endpoint (some e) p ≡ e) ↔ (starts_with e (codes "http") ≡ true))
unfolding endpoint
endpoint_lem o e p = (
  endpoint_starts o p,
  with_scheme_of_http (endpoint o p) (endpoint_starts o p),
  (
    λ h. elim (Bool-cases (starts_with e (codes "http"))) [
      | inl starts ↦
          absurd (ne-prefixed (codes "http://") e refl (sym (with_scheme_of_http e starts) ∙ h))
      | inr other ↦ other
    ],
    with_scheme_of_other e,
  ),
  (
    λ h. elim (Bool-cases (starts_with e (codes "http"))) [
      | inl starts ↦ starts
      | inr other ↦
          absurd (ne-prefixed (codes "http://") e refl (sym h ∙ with_scheme_of_other e other))
    ],
    with_scheme_of_http e,
  ),
)
