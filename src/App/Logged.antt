-- ===== src/App/Logged.antt =====
-- crates/app/src/lib.rs: `App::start` as a whole, the initialisation of the logging first.
use filestore.Base.{◌≡◌, ◌⊎◌, inl, inr, refl, Bool, List, Option, none, some, Option-cases}
use filestore.Text.{Text, codes}
use filestore.Tokio.{Tokio, IsLawful}
use filestore.Server.Rest.{Axum}
use filestore.Server.Grpc.{Tonic, GrpcServiceHandler}
use filestore.Logging.{Writer, Globals, Telemetry}
use filestore.Logging.Setup.{init_tracing_subscriber}
use filestore.App.{AppConfig, App, open_app, StartOutcome, panicked, start_after_logging}
use filestore.App.Start.{Leaves, start_after_logging_lem}

module _ (T : Tokio) where
  -- A panic of the logging leaves the application as it was.
  unfoldable pub after_logging : Option (List Writer) → App T → StartOutcome T → StartOutcome T
  after_logging none app rest = panicked app
  after_logging (some guards) app rest = rest

  module _ (M : Telemetry) (N : Tonic) (A : Axum) where
    unfoldable pub start :
        (Text → Bool) → GrpcServiceHandler N → App T → Globals M.Targets → StartOutcome T
    unfolding after_logging start_after_logging init_tracing_subscriber
    start parse hello app g =
        after_logging (init_tracing_subscriber M (codes "rsketch") g).1 app
          (start_after_logging T N A parse hello app)

    module _ (L : IsLawful T) where
      -- A start begins with the logging, which may panic.
      abbrev pub Begins : (Text → Bool) → AppConfig → Globals M.Targets → StartOutcome T → Type 0
      Begins parse c g outcome =
          (((init_tracing_subscriber M (codes "rsketch") g).1 ≡ none)
            × (outcome ≡ panicked (open_app T c)))
          ⊎ ((guards : List Writer) × ((init_tracing_subscriber M (codes "rsketch") g).1
                ≡ some guards)
              × Leaves T L N A parse c outcome)

      -- When the logging panics, so does the start, and the application is as it was, the flag
      -- unset. Otherwise the flag is set. The start then succeeds only when both addresses parse,
      -- with the flag set and the token live. When it is refused, with the message that names the
      -- server, or panics, the flag stays set; and when the REST address is the one that is refused
      -- the gRPC server has been spawned and is left running.
      pub start_lem :
          (parse : Text → Bool) (hello : GrpcServiceHandler N) (c : AppConfig)
          (g : Globals M.Targets)
          → Begins parse c g (start parse hello (open_app T c) g)
      unfolding start after_logging
      start_lem parse hello c g =
          elim (Option-cases (init_tracing_subscriber M (codes "rsketch") g).1) [
            | inl panic ↦ inl (panic, rw panic refl)
            | inr (guards, given) ↦
                inr (guards, given, rw given (start_after_logging_lem T L N A parse hello c))
          ]
