-- ===== src/Server/Rest/Routing.antt =====
-- Which layers stand around which routes.
use filestore.Base.{
  ◌≡◌, ◌⊎◌, inl, inr, refl, sym, ◌∙◌, Bool, true, false, List, [], ◌∷◌, ◌++◌, Option, none, some,
  All, if◌then◌else◌,
}
use filestore.Text.{Text, codes, ◌≟◌}
use mathlib.Core.Path.{subst₂}
use filestore.Text.Equal.{≟_refl, ≟_ne_symm}
use filestore.ReadableSize.{as_bytes}
use filestore.Server.Rest.{
  Endpoint, health_check, api_health_handler, Layer, otel_in_response, otel_axum, body_limit,
  cors_any, Axum, RestServerConfig, health_routes, with_cors, base_router, register_handlers,
  build_router,
}

abbrev pub add_layer : Layer → Option (Endpoint × List Layer) → Option (Endpoint × List Layer)
add_layer l none = none
add_layer l (some (e, ls)) = some (e, l ∷ ls)

-- The documentation of `Router`: a new route has no layer, and a layer is put around the routes
-- that are there already, and around no later one.
pub record IsLawful (A : Axum) : Type 0 where
  pub find-empty : (p : Text) → A.find A.empty p ≡ none
  pub find-route :
      (p q : Text) (e : Endpoint) (r : A.Router)
      → A.find r p ≡ none
      → A.find (A.route p e r) q ≡ (if p ≟ q then some (e, []) else A.find r q)
  pub find-layer :
      (l : Layer) (r : A.Router) (q : Text) → A.find (A.layer l r) q ≡ add_layer l (A.find r q)

-- What a handler adds: paths with their endpoints.
abbrev pub Routes : Type 0
Routes = List (Text × Endpoint)

-- No two routes have one path; axum panics on such.
abbrev pub Avoids : Text → Routes → Type 0
Avoids p = All λ r. (r.0 ≟ p) ≡ false

abbrev pub Distinct : Routes → Type 0
Distinct [] = Unit {0}
Distinct ((p, e) ∷ rs) = Avoids p rs × Distinct rs

abbrev pub Has : Text → Endpoint → Routes → Type 0
Has p e [] = ⊥
Has p e ((q, f) ∷ rs) = ((q ≡ p) × (f ≡ e)) ⊎ Has p e rs

-- The layers of `/health`, by the configuration.
abbrev pub layers_of : RestServerConfig → List Layer
layers_of c =
    if c.enable_cors
    then cors_any ∷ body_limit c.max_body_size.bytes ∷ otel_axum ∷ otel_in_response ∷ []
    else body_limit c.max_body_size.bytes ∷ otel_axum ∷ otel_in_response ∷ []

module _ (A : Axum) where
  abbrev pub route_all : Routes → A.Router → A.Router
  route_all [] r = r
  route_all ((p, e) ∷ rs) r = route_all rs (A.route p e r)

  abbrev pub handlers_of : List Routes → List (A.Router → A.Router)
  handlers_of [] = []
  handlers_of (rs ∷ rss) = route_all rs ∷ handlers_of rss

  abbrev pub all_routes : List Routes → Routes
  all_routes [] = []
  all_routes (rs ∷ rss) = rs ++ all_routes rss

  -- `health_routes` is such a handler.
  pub health_routes_lem :
      (r : A.Router)
      → health_routes A r
        ≡ route_all
            ((codes "/api/v1/health", api_health_handler)
              ∷ (codes "/api/health", api_health_handler)
              ∷ [])
            r
  unfolding health_routes
  health_routes_lem r = refl

  route_all-append :
      (rs ss : Routes) (r : A.Router) → route_all (rs ++ ss) r ≡ route_all ss (route_all rs r)
  route_all-append [] ss r = refl
  route_all-append ((p, e) ∷ rs) ss r = route_all-append rs ss (A.route p e r)

  register_all :
      (rss : List Routes) (r : A.Router)
      → register_handlers A (handlers_of rss) r ≡ route_all (all_routes rss) r
  unfolding register_handlers
  register_all [] r = refl
  register_all (rs ∷ rss) r =
      register_all rss (route_all rs r) ∙ sym (route_all-append rs (all_routes rss) r)

module _ (A : Axum) (L : IsLawful A) where
  Fresh : Routes → A.Router → Type 0
  Fresh rs r = All (λ x. A.find r x.0 ≡ none) rs

  Fresh-route :
      (p : Text) (e : Endpoint) (rs : Routes) (r : A.Router)
      → A.find r p ≡ none
      → Avoids p rs
      → Fresh rs r
      → Fresh rs (A.route p e r)
  unfolding Fresh
  Fresh-route p e [] r new h f = tt
  Fresh-route p e ((q, d) ∷ rs) r new h f =
      (L.find-route p q e r new ∙ rw (≟_ne_symm q p h.0) f.0, Fresh-route p e rs r new h.1 f.1)

  find-route_all :
      (rs : Routes) (r : A.Router) (q : Text)
      → Distinct rs
      → Fresh rs r
      → Avoids q rs
      → A.find (route_all A rs r) q ≡ A.find r q
  unfolding Fresh
  find-route_all [] r q d f h = refl
  find-route_all ((p, e) ∷ rs) r q d f h =
      find-route_all rs (A.route p e r) q d.1 (Fresh-route p e rs r f.0 d.0 f.1) h.1
      ∙ L.find-route p q e r f.0
      ∙ rw h.0

  find-route_all_of_Has :
      (rs : Routes) (r : A.Router) (p : Text) (e : Endpoint)
      → Distinct rs
      → Fresh rs r
      → Has p e rs
      → A.find (route_all A rs r) p ≡ some (e, [])
  unfolding Fresh
  find-route_all_of_Has [] r p e d f h = absurd h
  find-route_all_of_Has ((q, x) ∷ rs) r p e d f (inl (same, ends)) =
      let own : A.find (A.route q x r) q ≡ some (x, []) =
        L.find-route q q x r f.0 ∙ rw (≟_refl q) in
      let found : A.find (route_all A rs (A.route q x r)) q ≡ some (x, []) =
        find-route_all rs (A.route q x r) q d.1 (Fresh-route q x rs r f.0 d.0 f.1) d.0 ∙ own in
      subst₂ (λ y z. A.find (route_all A rs (A.route q x r)) y ≡ some (z, [])) same ends found
  find-route_all_of_Has ((q, x) ∷ rs) r p e d f (inr more) =
      find-route_all_of_Has rs (A.route q x r) p e d.1 (Fresh-route q x rs r f.0 d.0 f.1) more

  find-with_cors :
      (b : Bool) (r : A.Router) (q : Text)
      → A.find (with_cors A b r) q ≡ (if b then add_layer cors_any (A.find r q) else A.find r q)
  unfolding with_cors
  find-with_cors true r q = L.find-layer cors_any r q
  find-with_cors false r q = refl

  find-health :
      (q : Text)
      → A.find (A.route (codes "/health") health_check A.empty) q
        ≡ (if codes "/health" ≟ q then some (health_check, []) else none)
  find-health q = rw (
    L.find-route (codes "/health") q health_check A.empty (L.find-empty (codes "/health")),
    L.find-empty q,
  )

  settle :
      (b d : Bool) (limit : Layer)
      → (if b
          then add_layer cors_any (
              add_layer limit (
                add_layer otel_axum
                  (add_layer otel_in_response (if d then some (health_check, []) else none))))
          else add_layer limit (
              add_layer otel_axum
                (add_layer otel_in_response (if d then some (health_check, []) else none))))
        ≡ (if d
            then some (
              health_check,
              if b
                  then cors_any ∷ limit ∷ otel_axum ∷ otel_in_response ∷ []
                  else limit ∷ otel_axum ∷ otel_in_response ∷ [],
            )
            else none)
  settle true true l = refl
  settle true false l = refl
  settle false true l = refl
  settle false false l = refl

  find-base_router :
      (c : RestServerConfig) (q : Text)
      → A.find (with_cors A c.enable_cors (base_router A c)) q
        ≡ (if codes "/health" ≟ q then some (health_check, layers_of c) else none)
  unfolding base_router as_bytes
  find-base_router c q =
      let inner = A.route (codes "/health") health_check A.empty in
      let limited = body_limit c.max_body_size.bytes in
      find-with_cors c.enable_cors (base_router A c) q
      ∙ rw
          (
            L.find-layer limited (A.layer otel_axum (A.layer otel_in_response inner)) q,
            L.find-layer otel_axum (A.layer otel_in_response inner) q,
            L.find-layer otel_in_response inner q,
            find-health q,
          )
          (settle c.enable_cors (codes "/health" ≟ q) limited)

  Fresh-base_router :
      (c : RestServerConfig) (rs : Routes)
      → Avoids (codes "/health") rs
      → Fresh rs (with_cors A c.enable_cors (base_router A c))
  unfolding Fresh
  Fresh-base_router c [] h = tt
  Fresh-base_router c ((p, e) ∷ rs) h =
      (find-base_router c p ∙ rw (≟_ne_symm p (codes "/health") h.0), Fresh-base_router c rs h.1)

  -- If the handlers add routes with distinct paths, none of them `/health`, then every such route
  -- is found with its endpoint and without any layer: the body limit, the CORS layer and the
  -- tracing layers of the configuration do not reach it. They stand around `/health` only.
  pub handler_routes_unlayered :
      (c : RestServerConfig) (rss : List Routes) (p : Text) (e : Endpoint)
      → Distinct (all_routes A rss)
      → Avoids (codes "/health") (all_routes A rss)
      → Has p e (all_routes A rss)
      → (A.find (build_router A c (handlers_of A rss)) p ≡ some (e, []))
        × (A.find (build_router A c (handlers_of A rss)) (codes "/health")
            ≡ some (health_check, layers_of c))
  unfolding build_router ◌≟◌
  handler_routes_unlayered c rss p e d h m =
      let r = with_cors A c.enable_cors (base_router A c) in
      let fresh = Fresh-base_router c (all_routes A rss) h in
      rw (register_all A rss r) (
        find-route_all_of_Has (all_routes A rss) r p e d fresh m,
        find-route_all (all_routes A rss) r (codes "/health") d fresh h
            ∙ find-base_router c (codes "/health"),
      )
