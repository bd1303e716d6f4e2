-- ===== src/App/Run/Refusals.antt =====
-- When `App::run` returns an error.
use filestore.Base.{
  ◌≡◌, ◌↔◌, ◌⊎◌, inl, inr, refl, Bool, true, false, List, [], ◌∷◌, Option, none, some,
  if◌then◌else◌,
}
use filestore.Text.{Text, codes}
use filestore.Tokio.{Tokio}
use filestore.Errors.{network, parse_address_error}
use filestore.Server.{socket_addr, spawned}
use filestore.Server.Rest.{Axum, RestStart, build_router, health_routes, start_rest_server}
use filestore.Server.Grpc.{
  Tonic, GrpcServiceHandler, GrpcStart, serve, start_grpc_server, build_reflection_service,
  file_descriptor_sets,
}
use filestore.Logging.{Writer, Globals, Telemetry}
use filestore.Logging.Setup.{init_tracing_subscriber}
use filestore.App.{AppConfig, App, open_app, start_after_logging, start_servers, StartOutcome}
use filestore.App.Logged.{start, after_logging}
use filestore.App.Run.{Whatever, err, returned, after_start, leave_start, begin_run}

-- What `run` returns when a server cannot be started.
abbrev pub grpc_refusal : AppConfig → Whatever
grpc_refusal c = record {
  message = codes "Failed to start gRPC server";
  source = network (parse_address_error c.grpc_config.bind_address socket_addr);
}

abbrev pub rest_refusal : AppConfig → Whatever
rest_refusal c = record {
  message = codes "Failed to start REST server";
  source = network (parse_address_error c.http_config.bind_address socket_addr);
}

-- The gRPC address is tested first.
abbrev pub Refuses : AppConfig → Bool → Bool → Whatever → Type 0
Refuses c grpc_parses http_parses w =
    ((grpc_parses ≡ false) × (w ≡ grpc_refusal c))
    ⊎ ((grpc_parses ≡ true) × (http_parses ≡ false) × (w ≡ rest_refusal c))

module _ (T : Tokio) (N : Tonic) (A : Axum) where
  by_tests :
      (c : AppConfig) (app : App T) (hello : GrpcServiceHandler N) (r : N.GrpcService) (p q : Bool)
      (w : Whatever)
      → (after_start T (
            start_servers T N A app
              (if p
                then serve N T (hello ∷ []) (some r)
                else GrpcStart.refused
                    (network (parse_address_error c.grpc_config.bind_address socket_addr)))
              (if q
                then RestStart.started
                    (spawned T [])
                    (build_router A c.http_config (health_routes A ∷ []))
                else RestStart.refused
                    (network (parse_address_error c.http_config.bind_address socket_addr))))
          ≡ returned (err w))
        ↔ Refuses c p q w
  unfolding after_start start_servers serve
  by_tests c app hello r true true w =
      (λ h. cc, λ h. elim h [ inl (f, e) ↦ cc | inr (t, f, e) ↦ cc ])
  by_tests c app hello r true false w =
      (λ h. inr (refl, refl, cc), λ h. elim h [ inl (f, e) ↦ cc | inr (t, f, e) ↦ cc ])
  by_tests c app hello r false q w =
      (λ h. inl (refl, cc), λ h. elim h [ inl (f, e) ↦ cc | inr (t, f, e) ↦ cc ])

  by_logging :
      (c : AppConfig) (app : App T) (w : Whatever) (M : Telemetry) (others : List Writer)
      (p q : Bool) (done : Globals M.Targets × Option (List Writer)) (outcome : StartOutcome T)
      → (after_start T outcome ≡ returned (err w)) ↔ Refuses c p q w
      → ((leave_start T M N A others done (after_logging T done.1 app outcome)).run
          ≡ returned (err w))
        ↔ (((guards : List Writer) × (done.1 ≡ some guards)) × Refuses c p q w)
  unfolding leave_start after_logging after_start
  by_logging c app w M others p q (g, none) outcome iff = (λ h. cc, λ (given, refused). cc)
  by_logging c app w M others p q (g, some guards) outcome iff =
      (λ h. ((guards, refl), iff.0 h), λ (given, refused). iff.1 refused)

  -- When the reflection service builds, `run` returns an error exactly when its logging does not
  -- panic and an address does not parse: the error names the gRPC server when its address does not,
  -- and else the REST server, and wraps the parse error of that address.
  pub run_refused_iff :
      (M : Telemetry) (parse : Text → Bool) (hello : GrpcServiceHandler N) (c : AppConfig)
      (g : Globals M.Targets) (others : List Writer) (r : N.GrpcService) (w : Whatever)
      → build_reflection_service N (file_descriptor_sets N (hello ∷ [])) ≡ some r
      → ((begin_run T M N A parse hello (open_app T c) g others).run ≡ returned (err w)) ↔ (
          ((guards : List Writer) × ((init_tracing_subscriber M (codes "rsketch") g).1
              ≡ some guards))
          × Refuses c (parse c.grpc_config.bind_address) (parse c.http_config.bind_address) w)
  unfolding begin_run start start_after_logging open_app start_grpc_server start_rest_server
  run_refused_iff M parse hello c g others r w builds =
      by_logging c (open_app T c) w M others (parse c.grpc_config.bind_address)
        (parse c.http_config.bind_address) (init_tracing_subscriber M (codes "rsketch") g) _
        (rw builds (
          by_tests c (record (open_app T c) { running = true }) hello r
            (parse c.grpc_config.bind_address) (parse c.http_config.bind_address) w))
