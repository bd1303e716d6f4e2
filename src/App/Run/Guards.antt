-- ===== src/App/Run/Guards.antt =====
-- The guards of the log writers in `App::start`.
use filestore.Base.{◌≡◌, refl, inl, ap, ◌∙◌, Bool, List, [], ◌∷◌, ◌++◌, Option, none, some}
use filestore.Text.{Text, codes}
use filestore.Tokio.{Tokio}
use filestore.Server.Rest.{Axum}
use filestore.Server.Grpc.{Tonic, GrpcServiceHandler}
use filestore.Logging.{
  Writer, stdout, Globals, Telemetry, Subscriber, default_options, default_tracing_options,
}
use filestore.Logging.Console.{default_tracing-ConsoleIs}
use filestore.Logging.Setup.{init_tracing_subscriber}
use filestore.Logging.Setup.Expected.{IsUntouched, FilterIs}
use filestore.Logging.Setup.First.{first_call}
use filestore.App.{App, StartOutcome, start_after_logging}
use filestore.App.Logged.{start, after_logging}
use filestore.App.Run.{LoggedRun, after_start, begin_run, leave_start, drop_locals}

drop_locals-append : (locals guards : List Writer) → drop_locals locals (locals ++ guards) ≡ guards
unfolding drop_locals
drop_locals-append [] guards = refl
drop_locals-append (l ∷ locals) guards = drop_locals-append locals guards

module _ (T : Tokio) (M : Telemetry) (N : Tonic) (A : Axum) where
  leave_start-given :
      (others : List Writer) (done : Globals M.Targets × Option (List Writer))
      (guards : List Writer) (outcome : StartOutcome T)
      → done.1 ≡ some guards
      → leave_start T M N A others done outcome
        ≡ record { globals = done.0; guards = others; run = after_start T outcome }
  unfolding leave_start
  leave_start-given others (g, none) guards outcome h = cc
  leave_start-given others (g, some locals) guards outcome h =
      rw (drop_locals-append locals others) refl

  -- Where the logging has returned, the start is the rest of it.
  pub start-given :
      (parse : Text → Bool) (hello : GrpcServiceHandler N) (app : App T) (g : Globals M.Targets)
      (guards : List Writer)
      → (init_tracing_subscriber M (codes "rsketch") g).1 ≡ some guards
      → start T M N A parse hello app g ≡ start_after_logging T N A parse hello app
  unfolding start after_logging
  start-given parse hello app g guards given = rw given refl

  -- In a process where nothing else has set up logging, and in which the filter can be parsed, the
  -- initialisation gives `start` the guard of the stdout writer and installs the subscriber; when
  -- `start` returns, whatever its outcome, that guard is gone: alive are those guards that were
  -- before.
  pub guards_dropped :
      (parse : Text → Bool) (hello : GrpcServiceHandler N) (app : App T) (g : Globals M.Targets)
      (others : List Writer) (f : M.Targets)
      → IsUntouched M g
      → FilterIs M default_options f
      → ((init_tracing_subscriber M (codes "rsketch") g).1 ≡ some (stdout ∷ []))
        × ((begin_run T M N A parse hello app g others).guards ≡ others)
        × ((begin_run T M N A parse hello app g others).run
            ≡ after_start T (start_after_logging T N A parse hello app))
        × ((s : Subscriber M.Targets) × ((begin_run T M N A parse hello app g
                others).globals.global_default
              ≡ some s)
            × (s.dyn_filter ≡ f))
  unfolding begin_run init_tracing_subscriber default_options
  guards_dropped parse hello app g others f untouched filter =
      let (given, once, reload, (s, set, same, layers, console, otlp)) =
        first_call M (codes "rsketch") none default_options default_tracing_options g f none
          untouched (default_tracing-ConsoleIs M.tokio_console) (inl refl) filter (λ off. cc) in
      let left =
        leave_start-given others (init_tracing_subscriber M (codes "rsketch") g) (stdout ∷ [])
          (start T M N A parse hello app g) given in
      let begun = start-given parse hello app g (stdout ∷ []) given in
      (
        given,
        ap (λ (r : LoggedRun T M.Targets). r.guards) left,
        ap (λ (r : LoggedRun T M.Targets). r.run) left ∙ ap (after_start T) begun,
        (s, ap (λ (r : LoggedRun T M.Targets). r.globals.global_default) left ∙ set, same),
      )
