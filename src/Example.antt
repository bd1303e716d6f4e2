-- ===== src/Example.antt =====
-- examples/hello-server.rs: the example program, a gRPC server with the greeting service that stops
-- on Ctrl+C. Its tokio runtime, and the generated server of the service, are parameters.
pub mod Stops
use filestore.Base.{Bool, true, false, List, [], ◌∷◌, ◌++◌, Option, none, some, if◌then◌else◌}
use filestore.Text.{Text, codes}
use filestore.Tokio.{Tokio}
use filestore.Net.{is_socket_addr}
use filestore.Server.{Service, Event, step, Poll, waiting, panics, shutdown, wait_for_stop}
use filestore.Server.Grpc.{
  GrpcServerConfig, Tonic, GrpcServiceHandler, GrpcStart, start_grpc_server,
}
use filestore.Logging.{
  json, grpc, LoggingOptions, default_options, default_tracing_options, Writer, Globals, Telemetry,
}
use filestore.Logging.Setup.{init_global_logging}

unfoldable pub logging_opts : LoggingOptions
unfolding default_options
logging_opts = record default_options {
  enable_otlp_tracing = true;
  otlp_export_protocol = some grpc;
  log_format = json;
}

unfoldable pub config : GrpcServerConfig
unfolding filestore.Server.Grpc.default_config
config = record filestore.Server.Grpc.default_config { bind_address = codes "[::1]:50051" }

module _ (T : Tokio) (M : Telemetry) (N : Tonic) where
  -- How far the program gets: a panic of the runtime, the logging, the start or the signal, its wait
  -- for Ctrl+C, with what it has printed, the guards of the logging and the server, or its wait for
  -- the tasks.
  pub data Program : Type 0 where
    runtime_panics : Program
    logging_panics : Globals M.Targets → Program
    start_panics : Globals M.Targets → Program
    listening : Text → Globals M.Targets → List Writer → Service T → Program
    ctrl_c_panics : Globals M.Targets → Program
    -- in `wait_for_stop`
    stopping : Globals M.Targets → List Writer → Service T → Program

  -- `unwrap` on the start
  unwrap_start : Globals M.Targets → List Writer → GrpcStart N T → Program
  unwrap_start g guards (GrpcStart.refused e) = start_panics g
  unwrap_start g guards GrpcStart.reflection_panics = start_panics g
  unwrap_start g guards (GrpcStart.started s routes) =
      listening (codes "Hello server listening on [::1]:50051\n") g guards s

  after_logging : GrpcServiceHandler N → Globals M.Targets × Option (List Writer) → Program
  unfolding unwrap_start start_grpc_server is_socket_addr config
  after_logging service (g, none) = logging_panics g
  after_logging service (g, some guards) =
      unwrap_start g guards (start_grpc_server N T is_socket_addr config (service ∷ []))

  -- `main` up to its wait for Ctrl+C.
  unfoldable pub hello_server : Bool → GrpcServiceHandler N → Globals M.Targets → Program
  unfolding after_logging init_global_logging logging_opts default_tracing_options
  hello_server buildable service g =
      if buildable
      then after_logging service
          (init_global_logging M (codes "hello-server") none logging_opts default_tracing_options g)
      else runtime_panics

  -- The server task and its readiness task run beside `main`, while it waits for Ctrl+C and after;
  -- `none` if the step is not possible now.
  unfoldable pub server_step : Program → Event → Option Program
  unfolding step
  server_step (listening text g guards s) e = elim (step T filestore.Server.grpc s e) [
    | none ↦ none
    | some t ↦ some (listening text g guards t)
  ]
  server_step (stopping g guards s) e = elim (step T filestore.Server.grpc s e) [
    | none ↦ none
    | some t ↦ some (stopping g guards t)
  ]
  server_step p e = none

  -- The wait for Ctrl+C is over, with a signal or with the error of its handler, and `unwrap`.
  unfoldable pub after_ctrl_c : Bool → Program → Program
  unfolding shutdown
  after_ctrl_c true (listening text g guards s) = stopping g guards (shutdown T s)
  after_ctrl_c false (listening text g guards s) = ctrl_c_panics g
  after_ctrl_c received p = p

  -- What the last poll of `main` gives: `wait_for_stop` never returns an error.
  unfoldable pub main_end : (List (Poll Bool) → Poll (List Bool)) → Program → Poll (Unit {0})
  unfolding wait_for_stop
  main_end join_all (stopping g guards s) = wait_for_stop T join_all s
  main_end join_all (listening text g guards s) = waiting
  main_end join_all p = panics
