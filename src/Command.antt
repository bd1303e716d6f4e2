-- ===== src/Command.antt =====
-- crates/cmd/src/main.rs: the command line. What clap parses is a parameter, and so is whether a
-- tokio runtime can be built.
pub mod Server
use filestore.Base.{Bool, List, [], ◌++◌, Option, none, some, if◌then◌else◌}
use filestore.Text.{Text, codes}
use filestore.Tokio.{Tokio}
use filestore.Net.{is_socket_addr}
use filestore.Server.Rest.{Axum}
use filestore.Server.Grpc.{Tonic, GrpcServiceHandler}
use filestore.Logging.{Globals, Telemetry}
use filestore.App.{default_config, open_app}
use filestore.App.Run.{RunResult, ok, LoggedRun, begin_run}

pub data Commands : Type 0 where
  hello server : Commands

module _ (T : Tokio) (M : Telemetry) (N : Tonic) (A : Axum) where
  -- How far the process gets before it waits or ends: clap ends it on a wrong command line, a
  -- command prints and returns, the runtime cannot be built, or it blocks on `run`.
  pub data Process : Type 0 where
    exits_in_parse : Process
    returns : Text → RunResult → Process
    runtime_panics : Process
    blocks_on : LoggedRun T M.Targets → Process

  -- `HelloArgs::run`
  hello_run : Process
  hello_run = returns (codes "Hello, world!" ++ codes "\n") ok

  -- `ServerArgs::run`, with the greeting service of the program.
  server_run : Bool → GrpcServiceHandler N → Globals M.Targets → Process
  unfolding begin_run open_app default_config is_socket_addr
  server_run buildable service g =
      if buildable
      then blocks_on (begin_run T M N A is_socket_addr service (open_app T default_config) g [])
      else runtime_panics

  dispatch : Option Commands → Bool → GrpcServiceHandler N → Globals M.Targets → Process
  unfolding hello_run server_run
  dispatch none buildable service g = exits_in_parse
  dispatch (some hello) buildable service g = hello_run
  dispatch (some server) buildable service g = server_run buildable service g

  -- `parse` is `Cli::parse` on the arguments.
  unfoldable pub main :
      (List Text → Option Commands)
      → Bool
      → GrpcServiceHandler N
      → Globals M.Targets
      → List Text
      → Process
  unfolding dispatch
  main parse buildable service g arguments = dispatch (parse arguments) buildable service g
