-- ===== src/Tests/Application.antt =====
-- The application, on a small runtime with the greeting service.
use filestore.Base.{◌≡◌, refl, Bool, true, false, [], ◌∷◌, some}
use filestore.Text.{Text, codes}
use filestore.Server.{ready, is_finished}
use filestore.Server.Grpc.{
  GrpcServiceHandler, start_grpc_server, serve, build_reflection_service, file_descriptor_sets,
  register_sets, spawn_reporters,
}
use filestore.Server.Hello.{hello_service}
use filestore.Server.Rest.{start_rest_server}
use filestore.App.{
  default_config, awaiting, idle, System, App, open_app, start_after_logging, started,
  initial_system,
}
use filestore.App.Shutdown.{IsConsistent}
use filestore.Server.Lifecycle.{Reach}
use filestore.App.Servers.{Reached-Reach}
use filestore.App.Reachable.{Reached, starts, Reached-IsConsistent}
use filestore.Tests.Runtime.{tokio, tokio-IsLawful, axum, tonic}

abbrev pub greeter : GrpcServiceHandler tonic
greeter = hello_service tonic 7 (codes "hello.Hello") true

-- Every address parses.
abbrev pub parses : Text → Bool
parses address = true

abbrev app : App tokio
app = record { config = default_config; running = true; cancellation_token = false }

abbrev pub system : System tokio
system =
    initial_system tokio app (filestore.Server.spawned tokio (filestore.Server.running ∷ []))
      (filestore.Server.spawned tokio [])

starts_up :
    start_after_logging tokio tonic axum parses greeter (open_app tokio default_config)
    ≡ started app system
unfolding start_after_logging open_app start_grpc_server start_rest_server serve
    build_reflection_service file_descriptor_sets register_sets spawn_reporters initial_system
    hello_service
starts_up = refl

pub system-Reached : Reached tokio tokio-IsLawful tonic axum parses greeter default_config system
system-Reached = starts app system starts_up

Reached-IsConsistent_example : IsConsistent tokio tokio-IsLawful system
Reached-IsConsistent_example =
    Reached-IsConsistent tokio tokio-IsLawful tonic axum parses greeter system-Reached

Reached-Reach_example :
    Reach tokio tokio-IsLawful filestore.Server.grpc
      (filestore.Server.running ∷ [])
      system.grpc_handle
    × Reach tokio tokio-IsLawful filestore.Server.rest [] system.http_handle
Reached-Reach_example = Reached-Reach tokio tokio-IsLawful tonic axum parses greeter system-Reached

pub awaits_signal :
    (system.main ≡ awaiting) × (system.caller ≡ idle) × (system.shutdown_tx ≡ some tt)
unfolding initial_system
awaits_signal = (refl, refl, refl)

pub no_message : system.shutdown_channel ≡ filestore.Tokio.pending
unfolding initial_system
no_message = refl
