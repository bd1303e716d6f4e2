-- ===== src/App.antt =====
-- crates/app/src/lib.rs: the application, its handle and its main task. A `System` is what runs
-- after a start: the shared flag and token, and the tasks with the statement each is at.
pub mod Start
pub mod Logged
pub mod Shutdown
pub mod Reachable
pub mod Completion
pub mod Schedules
pub mod Servers
pub mod Run
pub mod Addresses
use filestore.Base.{Bool, true, false, List, [], ◌∷◌, Option, none, some, if◌then◌else◌, map}
use filestore.Text.{Text, codes}
use filestore.Tokio.{Tokio, Received, pending, arrived, closed}
use filestore.Server.{Error, Service, ServerKind, rest, grpc, Event, Poll, waiting, ready}
use filestore.Server.Rest.{RestServerConfig, Axum, start_rest_server, health_routes, RestStart}
use filestore.Server.Grpc.{
  GrpcServerConfig, Tonic, GrpcServiceHandler, start_grpc_server, GrpcStart,
}

pub record AppConfig : Type 0 where
  pub grpc_config : GrpcServerConfig
  pub http_config : RestServerConfig
  pub enable_graceful_shutdown : Bool

unfoldable pub default_config : AppConfig
default_config = record {
  grpc_config = filestore.Server.Grpc.default_config;
  http_config = filestore.Server.Rest.default_config;
  enable_graceful_shutdown = true;
}

-- The statement that the main task is at; `aborted` is a panic of `shutdown_signal`.
pub data MainTask : Type 0 where
  awaiting clearing cancelling stopping_grpc stopping_http ended aborted : MainTask

-- The statement of `AppHandle::shutdown` that its caller is at; `gone` when the handle is dropped.
pub data Caller : Type 0 where
  idle cancel_next send_next gone : Caller

-- What can happen next.
pub data Action : Type 0 where
  ctrl_c terminate handler_fails shutdown_received main_continues : Action
  shutdown_called caller_continues handle_dropped : Action
  grpc_runs http_runs : Event → Action

module _ (T : Tokio) where
  open T use {Token, new_token, cancel, is_cancelled, Oneshot, channel, send, drop_sender, received}

  pub record App : Type 0 where
    pub config : AppConfig
    pub running : Bool
    pub cancellation_token : Token

  -- `AppConfig::open`
  unfoldable pub open_app : AppConfig → App
  open_app c = record { config = c; running = false; cancellation_token = new_token }

  -- The application and its handle share the flag and the token.
  pub record System : Type 0 where
    pub enable_graceful_shutdown : Bool
    pub running : Bool
    pub cancellation_token : Token
    pub shutdown_tx : Option (Unit {0})
    pub shutdown_channel : Oneshot
    pub caller : Caller
    pub main : MainTask
    pub grpc_handle : Service T
    pub http_handle : Service T

  unfoldable pub is_running : System → Bool
  is_running s = s.running

  unfoldable pub wait_for_shutdown : System → Poll (Unit {0})
  wait_for_shutdown s = if is_cancelled s.cancellation_token then ready tt else waiting

  has_message : Received → Bool
  has_message pending = false
  has_message _ = true

  -- What ends the wait of the main task: a signal, if the shutdown is graceful, or the channel,
  -- also when its sender is dropped.
  shutdown_signal : Bool → Received → Action → Option MainTask
  unfolding has_message
  shutdown_signal true r ctrl_c = some clearing
  shutdown_signal true r terminate = some clearing
  shutdown_signal true r handler_fails = some aborted
  shutdown_signal graceful r shutdown_received = if has_message r then some clearing else none
  shutdown_signal graceful r _ = none

  -- The statements of the main task after its wait.
  main_step : MainTask → System → Option System
  main_step clearing s = some (record s { running = false; main = cancelling })
  main_step cancelling s =
      some (record s { cancellation_token = cancel s.cancellation_token; main = stopping_grpc })
  main_step stopping_grpc s =
      some
        (record s { grpc_handle = filestore.Server.shutdown T s.grpc_handle; main = stopping_http })
  main_step stopping_http s =
      some (record s { http_handle = filestore.Server.shutdown T s.http_handle; main = ended })
  main_step _ s = none

  wake : MainTask → System → Action → Option System
  unfolding shutdown_signal
  wake awaiting s a =
      elim (shutdown_signal s.enable_graceful_shutdown (received s.shutdown_channel) a) [
        | none ↦ none
        | some next ↦ some (record s { main = next })
      ]
  wake _ s a = none

  send_shutdown : Option (Unit {0}) → Oneshot → Oneshot
  send_shutdown none c = c
  send_shutdown (some _) c = send c

  drop_shutdown : Option (Unit {0}) → Oneshot → Oneshot
  drop_shutdown none c = c
  drop_shutdown (some _) c = drop_sender c

  -- The statements of `AppHandle::shutdown`.
  call : Caller → System → Option System
  call idle s = some (record s { running = false; caller = cancel_next })
  call _ s = none

  call_step : Caller → System → Option System
  unfolding send_shutdown
  call_step cancel_next s =
      some (record s { cancellation_token = cancel s.cancellation_token; caller = send_next })
  call_step send_next s = some (record s {
    shutdown_channel = send_shutdown s.shutdown_tx s.shutdown_channel;
    shutdown_tx = none;
    caller = idle;
  })
  call_step _ s = none

  drop_handle : Caller → System → Option System
  unfolding drop_shutdown
  drop_handle idle s = some (record s {
    shutdown_channel = drop_shutdown s.shutdown_tx s.shutdown_channel;
    shutdown_tx = none;
    caller = gone;
  })
  drop_handle _ s = none

  -- One step of the system; `none` if it is not possible now.
  unfoldable pub step : System → Action → Option System
  unfolding wake main_step call call_step drop_handle
  step s main_continues = main_step s.main s
  step s shutdown_called = call s.caller s
  step s caller_continues = call_step s.caller s
  step s handle_dropped = drop_handle s.caller s
  step s (grpc_runs e) = elim (filestore.Server.step T grpc s.grpc_handle e) [
    | none ↦ none
    | some handle ↦ some (record s { grpc_handle = handle })
  ]
  step s (http_runs e) = elim (filestore.Server.step T rest s.http_handle e) [
    | none ↦ none
    | some handle ↦ some (record s { http_handle = handle })
  ]
  step s a = wake s.main s a

  -- What a start leaves: the servers that were started before a refusal or a panic keep running,
  -- since dropping their handlers does not stop them. A failure is a `Whatever`, its message with
  -- the error of the server as its source.
  pub data StartOutcome : Type 0 where
    failed : Text → Error → App → List (Service T) → StartOutcome
    panicked : App → StartOutcome
    started : App → System → StartOutcome

  unfoldable pub initial_system : App → Service T → Service T → System
  initial_system app g h = record {
    enable_graceful_shutdown = app.config.enable_graceful_shutdown;
    running = app.running;
    cancellation_token = app.cancellation_token;
    shutdown_tx = some tt;
    shutdown_channel = channel;
    caller = idle;
    main = awaiting;
    grpc_handle = g;
    http_handle = h;
  }

  module _ (N : Tonic) (A : Axum) where
    start_servers : App → GrpcStart N T → RestStart A T → StartOutcome
    unfolding initial_system
    start_servers app (GrpcStart.refused e) h =
        failed (codes "Failed to start gRPC server") e app []
    start_servers app GrpcStart.reflection_panics h = panicked app
    start_servers app (GrpcStart.started g routes) (RestStart.refused e) =
        failed (codes "Failed to start REST server") e app (g ∷ [])
    start_servers app (GrpcStart.started g routes) (RestStart.started h router) =
        started app (initial_system app g h)

    -- `start` after its first statement, which initialises the logging; App/Logged has the whole.
    -- `hello` is the greeting service of the program.
    unfoldable pub start_after_logging : (Text → Bool) → GrpcServiceHandler N → App → StartOutcome
    unfolding start_servers
    start_after_logging parse hello app =
        start_servers (record app { running = true })
          (start_grpc_server N T parse app.config.grpc_config (hello ∷ []))
          (start_rest_server A T parse app.config.http_config (health_routes A ∷ []))
