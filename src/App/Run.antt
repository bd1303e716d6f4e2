-- ===== src/App/Run.antt =====
-- crates/app/src/lib.rs: `App::run`, which starts the application, waits on the handle that it
-- alone has, and ends the process with it. The logging of `start` is that of Logging/Setup.
pub mod Quiet
pub mod Returns
pub mod Guards
pub mod Early
pub mod Refusals
use filestore.Base.{◌≡◌, Bool, true, false, List, [], ◌∷◌, ◌++◌, Option, none, some, if◌then◌else◌}
use filestore.Text.{Text, codes}
use filestore.Tokio.{Tokio}
use filestore.Server.{Error, Poll, waiting, ready, panics}
use filestore.Server.Rest.{Axum}
use filestore.Server.Grpc.{Tonic, GrpcServiceHandler}
use filestore.Logging.{Writer, Globals, Telemetry}
use filestore.Logging.Setup.{init_tracing_subscriber}
use filestore.App.{
  Action, shutdown_called, caller_continues, handle_dropped, App, System, step, wait_for_shutdown,
  StartOutcome, failed, panicked, started,
}
use filestore.App.Logged.{start}

-- What a `Whatever` says: its message, and the error that it wraps.
pub record Whatever : Type 0 where
  pub message : Text
  pub source : Error

-- `Result<(), Whatever>`
pub data RunResult : Type 0 where
  ok : RunResult
  err : Whatever → RunResult

-- The actions that need the handle, which `run` shares with nobody.
unfoldable pub needs_handle : Action → Bool
needs_handle shutdown_called = true
needs_handle caller_continues = true
needs_handle handle_dropped = true
needs_handle _ = false

-- A step of the rest of the program, or that `run` is polled.
pub data RunEvent : Type 0 where
  acts : Action → RunEvent
  polled : RunEvent

-- The end of the scope of the first guards.
pub drop_locals : List Writer → List Writer → List Writer
drop_locals [] guards = guards
drop_locals (local ∷ locals) [] = []
drop_locals (local ∷ locals) (guard ∷ guards) = drop_locals locals guards

module _ (T : Tokio) where
  -- `run` waits for the shutdown, or is over.
  pub data Run : Type 0 where
    waits : System T → Run
    returned : RunResult → Run
    panics_in_start : Run

  pub waits_or_none : Option (System T) → Option Run
  waits_or_none none = none
  waits_or_none (some s) = some (waits s)

  pub resume : Poll (Unit {0}) → Option Run
  resume (ready done) = some (returned ok)
  resume _ = none

  -- One event while `run` waits; `none` if it is not possible now.
  unfoldable pub run_step : Run → RunEvent → Option Run
  unfolding waits_or_none resume
  run_step (waits s) (acts a) = if needs_handle a then none else waits_or_none (step T s a)
  run_step (waits s) polled = resume (wait_for_shutdown T s)
  run_step _ event = none

  -- `self.start().await?`
  unfoldable pub after_start : StartOutcome T → Run
  after_start (failed message e app left) =
      returned (err (record { message = message; source = e }))
  after_start (panicked app) = panics_in_start
  after_start (started app s) = waits s

  -- The logging of the process, and the guards of the log writers that are alive.
  pub record LoggedRun (Targets : Type 0) : Type 0 where
    pub globals : Globals Targets
    pub guards : List Writer
    pub run : Run

  module _ (M : Telemetry) (N : Tonic) (A : Axum) where
    -- `_guards` is a local of `start`: its guards are dropped when `start` returns.
    pub leave_start :
        List Writer
        → Globals M.Targets × Option (List Writer)
        → StartOutcome T
        → LoggedRun M.Targets
    unfolding after_start drop_locals
    leave_start others (g, none) outcome = record {
      globals = g;
      guards = others;
      run = after_start outcome;
    }
    leave_start others (g, some guards) outcome =
        let during = guards ++ others in
        record { globals = g; guards = drop_locals guards during; run = after_start outcome }

    -- `run` up to its wait, in a process with these globals and guards.
    unfoldable pub begin_run :
        (Text → Bool)
        → GrpcServiceHandler N
        → App T
        → Globals M.Targets
        → List Writer
        → LoggedRun M.Targets
    unfolding leave_start init_tracing_subscriber start
    begin_run parse hello app g others =
        leave_start others (init_tracing_subscriber M (codes "rsketch") g)
          (start T M N A parse hello app g)
