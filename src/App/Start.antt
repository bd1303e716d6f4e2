-- ===== src/App/Start.antt =====
-- `App::start` after its logging: what a start that succeeds gives, and what one that fails leaves behind.
use filestore.Base.{
  ◌≡◌, ◌⊎◌, inl, inr, refl, Bool, true, false, [], ◌∷◌, Option, none, some, if◌then◌else◌,
}
use filestore.Text.{Text, codes}
use filestore.Tokio.{Tokio, IsLawful}
use filestore.Errors.{network, parse_address_error}
use filestore.Server.{socket_addr, spawned, running}
use filestore.Server.Rest.{build_router, Axum, start_rest_server, RestStart, health_routes}
use filestore.Server.Grpc.{
  Tonic, GrpcServiceHandler, start_grpc_server, GrpcStart, build_reflection_service,
  file_descriptor_sets, serve, spawn_reporters,
}
use filestore.App.{
  AppConfig, App, open_app, initial_system, StartOutcome, failed, panicked, started,
  start_after_logging, start_servers,
}

module _ (T : Tokio) (L : IsLawful T) (N : Tonic) (A : Axum) where
  open T use {is_cancelled}

  -- The application once the flag is set.
  abbrev pub marked : AppConfig → App T
  marked c = record { config = c; running = true; cancellation_token = T.new_token }

  -- What is left after a start, by its outcome.
  abbrev pub Leaves : (Text → Bool) → AppConfig → StartOutcome T → Type 0
  Leaves parse c (failed message e app left) =
      (app ≡ marked c)
      × (((message ≡ codes "Failed to start gRPC server")
            × (e ≡ network (parse_address_error c.grpc_config.bind_address socket_addr))
            × (parse c.grpc_config.bind_address ≡ false)
            × (left ≡ []))
          ⊎ ((message ≡ codes "Failed to start REST server")
              × (e ≡ network (parse_address_error c.http_config.bind_address socket_addr))
              × (parse c.grpc_config.bind_address ≡ true)
              × (parse c.http_config.bind_address ≡ false)
              × (left ≡ spawned T (running ∷ []) ∷ [])))
  Leaves parse c (panicked app) = (app ≡ marked c) × (parse c.grpc_config.bind_address ≡ true)
  Leaves parse c (started app s) =
      (app ≡ marked c)
      × (s ≡ initial_system T (marked c) (spawned T (running ∷ [])) (spawned T []))
      × (parse c.grpc_config.bind_address ≡ true)
      × (parse c.http_config.bind_address ≡ true)

  by_outcomes :
      (parse : Text → Bool) (hello : GrpcServiceHandler N) (c : AppConfig) (p q : Bool)
      (reflection : Option N.GrpcService)
      → parse c.grpc_config.bind_address ≡ p
      → parse c.http_config.bind_address ≡ q
      → Leaves parse c (
          start_servers T N A
            (marked c)
            (if p
              then serve N T (hello ∷ []) reflection
              else GrpcStart.refused
                  (network (parse_address_error c.grpc_config.bind_address socket_addr)))
            (if q
              then RestStart.started
                  (spawned T [])
                  (build_router A c.http_config (health_routes A ∷ []))
              else RestStart.refused
                  (network (parse_address_error c.http_config.bind_address socket_addr))))
  unfolding start_servers serve initial_system spawn_reporters
  by_outcomes parse hello c true true (some r) h k = (refl, refl, h, k)
  by_outcomes parse hello c true false (some r) h k = (refl, inr (refl, refl, h, k, refl))
  by_outcomes parse hello c true q none h k = (refl, h)
  by_outcomes parse hello c false q r h k = (refl, inl (refl, refl, h, refl))

  -- What the rest of a start leaves.
  pub start_after_logging_lem :
      (parse : Text → Bool) (hello : GrpcServiceHandler N) (c : AppConfig)
      → Leaves parse c (start_after_logging T N A parse hello (open_app T c))
  unfolding start_after_logging open_app start_grpc_server start_rest_server
  start_after_logging_lem parse hello c =
      by_outcomes parse hello c (parse c.grpc_config.bind_address)
        (parse c.http_config.bind_address)
        (build_reflection_service N (file_descriptor_sets N (hello ∷ []))) refl refl
