-- ===== src/Tests/Commands.antt =====
-- The commands, the application's run, and the example program, on the small runtime.
use mathlib.Core.Bool.{false≢true}
use filestore.Base.{
  ◌≤◌, ◌≡◌, ◌≢◌, ◌↔◌, ◌⊎◌, ap, inl, inr, refl, arith, List, true, false, [], ◌∷◌, Option, some,
  none, if◌then◌else◌,
}
use filestore.Text.{Text, codes, ◌≟◌}
use filestore.Net.{is_socket_addr}
use filestore.Logging.{Globals, Subscriber, default_options, default_tracing_options, stdout}
use filestore.Logging.Setup.{init_global_logging, init_tracing_subscriber}
use filestore.Example.{
  logging_opts, listening, stopping, hello_server, after_ctrl_c, main_end, Program, server_step,
  config,
}
use filestore.Example.Stops.{
  announcement, listening_server, example_stops, runs_on, Continues, rests, steps,
}
use filestore.Errors.{network, parse_address_error}
use filestore.Server.{
  Phase, serving, cancellation_seen, shutdown_future_polled, Service, Event, grpc, shutdown,
  bind_succeeds, ready, socket_addr, spawned, running,
}
use filestore.Tokio.{arrived}
use filestore.Server.Rest.{start_rest_server}
use filestore.Net.{display_v4}
use filestore.Server.Grpc.{
  build_reflection_service, file_descriptor_sets, register_sets, start_grpc_server, serve,
  spawn_reporters,
}
use filestore.Server.Hello.{hello_service}
use filestore.App.{
  default_config, aborted, System, open_app, start_after_logging, started, failed, AppConfig,
  initial_system,
}
use filestore.App.Addresses.{IsDisplayed, displayed_not_refused}
use filestore.App.Run.{RunResult, ok, RunEvent, waits, returned, LoggedRun, after_start, begin_run}
use filestore.App.Run.Returns.{Waits, begins, run_events, run_returns_iff}
use filestore.App.Run.Early.{run_ends_untold}
use filestore.App.{awaiting, ctrl_c, main_continues}
use filestore.App.Run.{acts, polled, run_step}
use filestore.App.Logged.{start, Begins, start_lem}
use filestore.Logging.{Writer}
use filestore.App.Run.Refusals.{rest_refusal, Refuses, run_refused_iff}
use filestore.App.Run.{err}
use filestore.App.Run.Guards.{guards_dropped}
use filestore.Command.{Commands, hello, server, returns, blocks_on, main}
use filestore.Command.Server.{default_system, default_Waits, server_runs}
use filestore.Tests.Runtime.{join_all, join_all-JoinsAll, tokio, tokio-IsLawful, axum, tonic}
use filestore.Tests.Application.{greeter}
use filestore.Tests.Telemetry.{telemetry, untouched}

abbrev parse_command : List Text → Option Commands
parse_command [] = none
parse_command (name ∷ rest) = if name ≟ codes "hello" then some hello else some server

-- `hello` prints, and the application is not touched.
prints :
    main tokio telemetry tonic axum parse_command true greeter untouched (codes "hello" ∷ [])
    ≡ returns (codes "Hello, world!\n") ok
unfolding main ◌≟◌
prints = refl

builds : build_reflection_service tonic (file_descriptor_sets tonic (greeter ∷ [])) ≡ some 1
unfolding build_reflection_service file_descriptor_sets register_sets hello_service
builds = refl

server_runs_example :
    (l : LoggedRun tokio Text) × (main tokio telemetry tonic axum parse_command true greeter
        untouched
        (codes "server" ∷ [])
      ≡ blocks_on l)
    × (l.run ≡ waits (default_system tokio tokio-IsLawful tonic axum))
    × (l.guards ≡ [])
    × Waits tokio tokio-IsLawful tonic axum is_socket_addr greeter default_config
        (default_system tokio tokio-IsLawful tonic axum)
    × (run_events tokio tokio-IsLawful
          (waits (default_system tokio tokio-IsLawful tonic axum))
          (acts ctrl_c ∷ acts main_continues ∷ acts main_continues ∷ polled ∷ [])
        ≡ some (returned ok))
unfolding ◌≟◌ default_options
server_runs_example =
    server_runs tokio tokio-IsLawful tonic axum telemetry parse_command greeter untouched
      (codes "server" ∷ []) (codes "warn") 1 refl builds (refl, refl, refl, refl)
      (inr (inl (codes "warn", refl, refl, refl)))

guards_dropped_example :
    ((init_tracing_subscriber telemetry (codes "rsketch") untouched).1 ≡ some (stdout ∷ []))
    × ((begin_run tokio telemetry tonic axum is_socket_addr greeter
          (open_app tokio default_config)
          untouched
          []).guards
        ≡ [])
    × ((begin_run tokio telemetry tonic axum is_socket_addr greeter
          (open_app tokio default_config)
          untouched
          []).run
        ≡ after_start tokio (
            start_after_logging tokio tonic axum is_socket_addr greeter
              (open_app tokio default_config)))
    × ((s : Subscriber Text) × ((begin_run tokio telemetry tonic axum is_socket_addr greeter
            (open_app tokio default_config)
            untouched
            []).globals.global_default
          ≡ some s)
        × (s.dyn_filter ≡ codes "warn"))
unfolding default_options
guards_dropped_example =
    guards_dropped tokio telemetry tonic axum is_socket_addr greeter (open_app tokio default_config)
      untouched [] (codes "warn") (refl, refl, refl, refl)
      (inr (inl (codes "warn", refl, refl, refl)))

-- Shutdown that is not graceful: `run` waits for ever.
abbrev ungraceful : AppConfig
unfolding default_config
ungraceful = record default_config { enable_graceful_shutdown = false }

abbrev waiting_system : System tokio
waiting_system =
    initial_system tokio
      (record { config = ungraceful; running = true; cancellation_token = false })
      (spawned tokio (running ∷ [])) (spawned tokio [])

ungraceful_starts :
    start_after_logging tokio tonic axum is_socket_addr greeter (open_app tokio ungraceful)
    ≡ started
        (record { config = ungraceful; running = true; cancellation_token = false })
        waiting_system
unfolding start_after_logging open_app ungraceful default_config start_grpc_server start_rest_server
    serve build_reflection_service file_descriptor_sets register_sets spawn_reporters initial_system
    hello_service is_socket_addr spawned filestore.Server.Grpc.default_config
    filestore.Server.Rest.default_config
ungraceful_starts = refl

run_returns_iff_example :
    ((es : List RunEvent) × (run_events tokio tokio-IsLawful (waits waiting_system) es
        ≡ some (returned ok)))
    ↔ ((◌≡◌ {A = RunResult} ok ok)
        × (waiting_system.enable_graceful_shutdown ≡ true)
        × (waiting_system.main ≢ aborted))
run_returns_iff_example =
    run_returns_iff tokio tokio-IsLawful tonic axum is_socket_addr greeter ok (
      begins (record { config = ungraceful; running = true; cancellation_token = false })
        waiting_system ungraceful_starts)

never_returns : ¬ (
    (es : List RunEvent) × (run_events tokio tokio-IsLawful (waits waiting_system) es
      ≡ some (returned ok)))
unfolding initial_system ungraceful
never_returns = λ h.
    let (same, graceful, alive) =
      (run_returns_iff tokio tokio-IsLawful tonic axum is_socket_addr greeter ok (
          begins (record { config = ungraceful; running = true; cancellation_token = false })
            waiting_system ungraceful_starts)).0
        h in
    false≢true graceful

loopback_shown : IsDisplayed default_config.http_config.bind_address
unfolding display_v4 default_config filestore.Server.Rest.default_config
loopback_shown =
    (127, 0, 0, 1, 3000, refl, omega arith, omega arith, omega arith, omega arith, omega arith)

grpc_shown : IsDisplayed default_config.grpc_config.bind_address
unfolding display_v4 default_config filestore.Server.Grpc.default_config
grpc_shown =
    (127, 0, 0, 1, 50051, refl, omega arith, omega arith, omega arith, omega arith, omega arith)

displayed_not_refused_example :
    start_after_logging tokio tonic axum is_socket_addr greeter (open_app tokio default_config)
    ≢ failed
        (codes "Failed to start gRPC server")
        (network (parse_address_error [] socket_addr))
        (open_app tokio default_config)
        []
displayed_not_refused_example =
    displayed_not_refused tokio tokio-IsLawful tonic axum greeter default_config grpc_shown
      loopback_shown (codes "Failed to start gRPC server")
      (network (parse_address_error [] socket_addr)) (open_app tokio default_config) []

abbrev program_phase : Program tokio telemetry tonic → Phase
program_phase (stopping g guards s) = s.join_handle
program_phase p = filestore.Server.binding

-- The program when its server is at a phase, before the Ctrl+C and after it.
abbrev logged : Globals Text
logged =
    (init_global_logging telemetry (codes "hello-server") none logging_opts default_tracing_options
      untouched).0

abbrev serving_program : Program tokio telemetry tonic
serving_program =
    listening (announcement tokio tokio-IsLawful telemetry tonic) logged (stdout ∷ []) (record {
      join_handle = serving;
      cancellation_token = false;
      started = arrived;
      started_rx = some tt;
      reporter_handles = running ∷ [];
    })

abbrev stopping_program : Program tokio telemetry tonic
stopping_program = stopping logged (stdout ∷ []) (record {
  join_handle = filestore.Server.stopping;
  cancellation_token = true;
  started = arrived;
  started_rx = some tt;
  reporter_handles = running ∷ [];
})

abbrev until_ctrl_c : List Event
until_ctrl_c = bind_succeeds ∷ shutdown_future_polled ∷ []

serves :
    runs_on tokio tokio-IsLawful telemetry tonic
      (hello_server tokio telemetry tonic true greeter untouched)
      until_ctrl_c
    ≡ some serving_program
unfolding hello_server server_step init_global_logging logging_opts default_options
    start_grpc_server config serve spawn_reporters is_socket_addr build_reflection_service
    file_descriptor_sets register_sets hello_service filestore.Server.spawned filestore.Server.step
serves = refl

continues :
    Continues tokio tokio-IsLawful telemetry tonic
      (after_ctrl_c tokio telemetry tonic true serving_program)
      1
      stopping_program
unfolding after_ctrl_c server_step filestore.Server.step shutdown
continues = steps cancellation_seen refl (λ e. cc (ap program_phase e)) rests

example_stops_example :
    ((after : Globals Text) × (hello_server tokio telemetry tonic true greeter untouched
        ≡ listening
            (announcement tokio tokio-IsLawful telemetry tonic)
            after
            (stdout ∷ [])
            (listening_server tokio tokio-IsLawful telemetry tonic)))
    × (1 ≤ 5)
    × ((main_end tokio telemetry tonic join_all stopping_program ≡ ready tt)
        ⊎ ((e : Event) × (u : Program tokio telemetry tonic) × (server_step tokio telemetry tonic
                stopping_program e
              ≡ some u)
            × (u ≢ stopping_program)))
unfolding logging_opts default_options
example_stops_example =
    example_stops tokio tokio-IsLawful telemetry tonic greeter untouched (codes "warn") 1 join_all
      until_ctrl_c serving_program stopping_program 1 builds (refl, refl, refl, refl)
      (inr (inl (codes "warn", refl, refl, refl))) refl join_all-JoinsAll serves continues

abbrev waits_by_default : System tokio
waits_by_default = default_system tokio tokio-IsLawful tonic axum

is_awaiting :
    (waits_by_default.main ≡ awaiting) × (waits_by_default.enable_graceful_shutdown ≡ true)
unfolding initial_system default_config
is_awaiting = (refl, refl)

run_ends_untold_example :
    (es : List RunEvent) × (t : System tokio) × (run_events tokio tokio-IsLawful
        (waits waits_by_default)
        es
      ≡ some (waits t))
    × (run_step tokio (waits t) polled ≡ some (returned ok))
    × (t.grpc_handle.cancellation_token ≡ false)
    × (t.http_handle.cancellation_token ≡ false)
run_ends_untold_example =
    run_ends_untold tokio tokio-IsLawful tonic axum is_socket_addr greeter
      (default_Waits tokio tokio-IsLawful tonic axum greeter 1 builds) is_awaiting.0 is_awaiting.1

-- A REST address without a port is refused.
abbrev no_port : AppConfig
unfolding default_config filestore.Server.Rest.default_config
no_port = record default_config {
  http_config = record filestore.Server.Rest.default_config { bind_address = codes "127.0.0.1" };
}

run_refused_iff_example :
    ((begin_run tokio telemetry tonic axum is_socket_addr greeter
        (open_app tokio no_port)
        untouched
        []).run
      ≡ returned (err (rest_refusal no_port)))
    ↔ (((guards : List Writer) × ((init_tracing_subscriber telemetry (codes "rsketch") untouched).1
            ≡ some guards))
        × Refuses no_port
            (is_socket_addr no_port.grpc_config.bind_address)
            (is_socket_addr no_port.http_config.bind_address)
            (rest_refusal no_port))
run_refused_iff_example =
    run_refused_iff tokio tonic axum telemetry is_socket_addr greeter no_port untouched [] 1
      (rest_refusal no_port) builds

rest_refused :
    (begin_run tokio telemetry tonic axum is_socket_addr greeter
      (open_app tokio no_port)
      untouched
      []).run
    ≡ returned (err (rest_refusal no_port))
unfolding no_port default_config is_socket_addr filestore.Server.Grpc.default_config
    init_tracing_subscriber default_options
rest_refused =
    (run_refused_iff tokio tonic axum telemetry is_socket_addr greeter no_port untouched [] 1
        (rest_refusal no_port) builds).1
      ((stdout ∷ [], refl), inr (refl, refl, refl))

start_lem_example :
    Begins tokio telemetry tonic axum tokio-IsLawful is_socket_addr no_port untouched
      (start tokio telemetry tonic axum is_socket_addr greeter (open_app tokio no_port) untouched)
start_lem_example =
    start_lem tokio telemetry tonic axum tokio-IsLawful is_socket_addr greeter no_port untouched
