-- ===== src/Command/Server.antt =====
-- The `server` command from its start to its wait.
use filestore.Base.{◌≡◌, refl, ap, ◌∙◌, true, List, [], ◌∷◌, Option, some}
use filestore.Text.{Text, codes}
use filestore.Tokio.{Tokio, IsLawful}
use filestore.Net.{is_socket_addr}
use filestore.Server.{spawned, running}
use filestore.Server.Rest.{Axum, start_rest_server}
use filestore.Server.Grpc.{
  Tonic, GrpcServiceHandler, start_grpc_server, serve, spawn_reporters, build_reflection_service,
  file_descriptor_sets,
}
use filestore.Logging.{Globals, Telemetry, default_options}
use filestore.Logging.Setup.Expected.{IsUntouched, FilterIs}
use filestore.App.{
  System, ctrl_c, main_continues, default_config, open_app, initial_system, started,
  start_after_logging,
}
use filestore.App.Start.{marked}
use filestore.App.Run.{ok, acts, polled, waits, returned, LoggedRun, after_start, begin_run}
use filestore.App.Run.Returns.{Waits, begins, run_events, way_returns, Waits-IsQuiet}
use filestore.App.Run.Guards.{guards_dropped}
use filestore.Command.{Commands, server, blocks_on, main}

grpc_address : is_socket_addr (codes "127.0.0.1:50051") ≡ true
unfolding is_socket_addr
grpc_address = refl

rest_address : is_socket_addr (codes "127.0.0.1:3000") ≡ true
unfolding is_socket_addr
rest_address = refl

module _ (T : Tokio) (L : IsLawful T) (N : Tonic) (A : Axum) where
  -- The system that waits after the start with the default configuration.
  abbrev pub default_system : System T
  unfolding initial_system default_config
  default_system =
      initial_system T (marked T L N A default_config) (spawned T (running ∷ [])) (spawned T [])

  default_starts :
      (service : GrpcServiceHandler N) (r : N.GrpcService)
      → build_reflection_service N (file_descriptor_sets N (service ∷ [])) ≡ some r
      → start_after_logging T N A is_socket_addr service (open_app T default_config)
        ≡ started (marked T L N A default_config) default_system
  unfolding start_after_logging open_app default_config start_grpc_server start_rest_server serve
      spawn_reporters initial_system is_socket_addr filestore.Server.Grpc.default_config
      filestore.Server.Rest.default_config spawned
  default_starts service r h = rw (grpc_address, rest_address, h) refl

  pub default_Waits :
      (service : GrpcServiceHandler N) (r : N.GrpcService)
      → build_reflection_service N (file_descriptor_sets N (service ∷ [])) ≡ some r
      → Waits T L N A is_socket_addr service default_config default_system
  default_Waits service r h =
      begins (marked T L N A default_config) default_system (default_starts service r h)

  -- The `server` command, in a process where nothing has set up logging: when the runtime can be
  -- built, the default filter parses and the reflection service builds, the default addresses parse
  -- and the command blocks on `run` with both servers spawned and no guard of a log writer alive.
  -- After a Ctrl+C, two statements of the main task and a poll, `run` returns `Ok`.
  pub server_runs :
      (M : Telemetry) (parse : List Text → Option Commands) (service : GrpcServiceHandler N)
      (g : Globals M.Targets) (arguments : List Text) (f : M.Targets) (r : N.GrpcService)
      → parse arguments ≡ some server
      → build_reflection_service N (file_descriptor_sets N (service ∷ [])) ≡ some r
      → IsUntouched M g
      → FilterIs M default_options f
      → (l : LoggedRun T M.Targets) × (main T M N A parse true service g arguments ≡ blocks_on l)
        × (l.run ≡ waits default_system)
        × (l.guards ≡ [])
        × Waits T L N A is_socket_addr service default_config default_system
        × (run_events T L
              (waits default_system)
              (acts ctrl_c ∷ acts main_continues ∷ acts main_continues ∷ polled ∷ [])
            ≡ some (returned ok))
  unfolding main initial_system default_config
  server_runs M parse service g arguments f r command builds untouched filter =
      let app = open_app T default_config in
      let (given, gone, runs, installed) =
        guards_dropped T M N A is_socket_addr service app g [] f untouched filter in
      let waiting = default_Waits service r builds in
      (
        begin_run T M N A is_socket_addr service app g [],
        rw command refl,
        runs ∙ ap (after_start T) (default_starts service r builds),
        gone,
        waiting,
        way_returns T L default_system (Waits-IsQuiet T L N A is_socket_addr service waiting) refl
            (λ e. cc),
      )
