-- ===== src/Logging/Setup/Unittest.antt =====
-- crates/common/src/telemetry/logging.rs: `init_default_ut_logging`, which keeps the guards of the
-- logging of unit tests in a global.
use mathlib.Core.Bool.{false≢true}
use filestore.Base.{◌≡◌, refl, List, Option, none, some, inl}
use filestore.Text.{Text, codes}
use filestore.Logging.{
  LoggingOptions, default_options, default_tracing_options, Writer, Once, incomplete, complete,
  poisoned, Globals, Telemetry,
}
use filestore.Logging.Console.{default_tracing-ConsoleIs}
use filestore.Logging.Setup.{init_global_logging}
use filestore.Logging.Setup.Expected.{IsUntouched, AppendersBuild, expected_guards}
use filestore.Logging.Setup.First.{first_call}

unfoldable pub or_else : Option Text → Text → Text
or_else none default = default
or_else (some value) default = value

unfoldable pub ut_level : Text
ut_level =
    codes
      "debug,hyper=warn,tower=warn,datafusion=warn,reqwest=warn,sqlparser=warn,h2=info,opendal=info,rskafka=info"

-- From `UNITTEST_LOG_DIR` and `UNITTEST_LOG_LEVEL`.
unfoldable pub ut_options : Option Text → Option Text → LoggingOptions
unfolding default_options or_else ut_level
ut_options dir level = record default_options {
  dir = or_else dir (codes "/tmp/__unittest_logs");
  level = some (or_else level ut_level);
}

-- The function's own `Once` and `GLOBAL_UT_LOG_GUARD`. A panic with the lock held also poisons the
-- lock, which no later call reaches.
pub record UtState : Type 0 where
  pub start : Once
  pub log_guard : Option (List Writer)

unfoldable pub fresh : UtState
fresh = record { start = incomplete; log_guard = none }

module _ (M : Telemetry) where
  keep :
      UtState
      → Globals M.Targets × Option (List Writer)
      → (UtState × Globals M.Targets) × Option (Unit {0})
  keep u (g, none) = ((record u { start = poisoned }, g), none)
  keep u (g, some guards) = ((record { start = complete; log_guard = some guards }, g), some tt)

  call_once :
      Once
      → Option Text
      → Option Text
      → UtState
      → Globals M.Targets
      → (UtState × Globals M.Targets) × Option (Unit {0})
  unfolding keep default_tracing_options
  call_once incomplete dir level u g = keep u (
      init_global_logging M (codes "unittest") none (ut_options dir level) default_tracing_options
        g)
  call_once complete dir level u g = ((u, g), some tt)
  call_once poisoned dir level u g = ((u, g), none)

  -- The states after a call; `none` is a panic.
  unfoldable pub init_default_ut_logging :
      Option Text
      → Option Text
      → UtState
      → Globals M.Targets
      → (UtState × Globals M.Targets) × Option (Unit {0})
  unfolding call_once
  init_default_ut_logging dir level u g = call_once u.start dir level u g

  -- A call returns, keeps these guards, and makes every later call one that changes nothing.
  Keeps : List Writer → (UtState × Globals M.Targets) × Option (Unit {0}) → Type 0
  Keeps guards ((u, g), done) =
      (done ≡ some tt)
      × (u.log_guard ≡ some guards)
      × ((dir level : Option Text) → init_default_ut_logging dir level u g ≡ ((u, g), some tt))

  keep-Keeps :
      (u : UtState) (r : Globals M.Targets × Option (List Writer)) (guards : List Writer)
      → r.1 ≡ some guards
      → Keeps guards (keep u r)
  unfolding Keeps keep init_default_ut_logging
  keep-Keeps u (g, none) guards h = cc
  keep-Keeps u (g, some own) guards h = (refl, h, λ dir level. refl)

  -- The first call for unit tests, in a process where nothing else has set up logging, returns and
  -- keeps all guards, if the appenders and the filter can be built; later calls change nothing.
  pub ut_guards_kept :
      (dir level : Option Text) (g : Globals M.Targets) (f : M.Targets)
      → IsUntouched M g
      → AppendersBuild M (ut_options dir level)
      → M.parse_targets (or_else level ut_level) ≡ some f
      → let ((u, after), done) = init_default_ut_logging dir level fresh g in
        (done ≡ some tt)
        × (u.log_guard ≡ some (expected_guards M (ut_options dir level)))
        × ((dir' level' : Option Text)
            → init_default_ut_logging dir' level' u after ≡ ((u, after), some tt))
  unfolding fresh init_default_ut_logging Keeps
  ut_guards_kept dir level g f untouched appenders filter =
      let installs =
        first_call M (codes "unittest") none (ut_options dir level) default_tracing_options g f none
          untouched (default_tracing-ConsoleIs M.tokio_console) appenders
          (unfold ut_options in inl (or_else level ut_level, refl, filter))
          (unfold ut_options default_options in λ on. absurd (false≢true on)) in
      keep-Keeps (record { start = incomplete; log_guard = none })
        (init_global_logging M (codes "unittest") none (ut_options dir level)
          default_tracing_options g)
        (expected_guards M (ut_options dir level)) installs.0
