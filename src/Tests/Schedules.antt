-- ===== src/Tests/Schedules.antt =====
-- Schedules of the tasks after a `shutdown`, on a small runtime.
use filestore.Base.{◌+◌, ◌≤◌, ◌≡◌, ◌≢◌, ◌⊎◌, inl, refl, ap, true, false, [], ◌∷◌, some, length}
use filestore.Server.{
  grpc, Event, shutdown_future_polled, reporter_returns, Service, step, shutdown, finished, serving,
  ready, wait_for_stop,
}
use filestore.Server.Stop.{AllDone}
use filestore.Server.Schedules.{Schedule, rests, runs, always_stops}
use filestore.App.{
  cancel_next, send_next, caller_continues, ctrl_c, main_continues, clearing, cancelling, System,
  initial_system,
}
use filestore.App.Reachable.{Reached-IsConsistent}
use filestore.App.Schedules.Progress.{AllOver, GoesOn}
use filestore.App.Schedules.Ends.{always_finishes, signal_finishes}
use filestore.Tests.Runtime.{tokio, tokio-IsLawful, join_all, join_all-JoinsAll, axum, tonic}
use filestore.Tests.Servers.{after_bind}
use filestore.Tests.Application.{parses, greeter, system, system-Reached, awaits_signal, no_message}

-- The readiness task returns, then the server starts to serve.
abbrev after_report : Service tokio
after_report = record after_bind { cancellation_token = true; reporter_handles = finished ∷ [] }

abbrev after_poll : Service tokio
after_poll = record after_report { join_handle = serving; started = filestore.Tokio.arrived }

reports : step tokio grpc (shutdown tokio after_bind) (reporter_returns 0) ≡ some after_report
unfolding step shutdown
reports = refl

polls : step tokio grpc after_report shutdown_future_polled ≡ some after_poll
unfolding step
polls = refl

two_steps : Schedule tokio tokio-IsLawful grpc (shutdown tokio after_bind) 2 after_poll
unfolding shutdown
two_steps =
    runs (reporter_returns 0) reports (λ e. cc (ap (λ (s : Service tokio). s.reporter_handles) e))
      (runs shutdown_future_polled polls (λ e. cc (ap (λ (s : Service tokio). s.join_handle) e))
        rests)

always_stops_example :
    (2 ≤ 4 + length after_bind.reporter_handles)
    × ((AllDone tokio after_poll × (wait_for_stop tokio join_all after_poll ≡ ready tt))
        ⊎ ((e : Event) × (u : Service tokio) × (step tokio grpc after_poll e ≡ some u)
            × (u ≢ after_poll)))
always_stops_example =
    always_stops tokio tokio-IsLawful grpc after_bind after_poll 2 join_all join_all-JoinsAll
      two_steps

-- The flag is cleared, then a signal wakes the main task.
abbrev called : System tokio
called = record system { running = false; caller = cancel_next }

abbrev woken : System tokio
woken = record called { main = clearing }

calls : filestore.App.step tokio system filestore.App.shutdown_called ≡ some called
unfolding filestore.App.step initial_system
calls = refl

wakes : filestore.App.step tokio called ctrl_c ≡ some woken
unfolding filestore.App.step initial_system filestore.App.default_config
wakes = refl

one_step : filestore.App.Schedules.Ends.Schedule tokio tokio-IsLawful called 1 woken
unfolding initial_system
one_step =
    filestore.App.Schedules.Ends.runs ctrl_c tt wakes
      (λ e. cc (ap (λ (s : System tokio). s.main) e)) filestore.App.Schedules.Ends.rests

always_finishes_example :
    (1
      ≤ 15
        + length system.grpc_handle.reporter_handles
        + length system.http_handle.reporter_handles)
    × (AllOver tokio tokio-IsLawful woken ⊎ GoesOn tokio tokio-IsLawful woken)
always_finishes_example =
    always_finishes tokio tokio-IsLawful system called woken 1
      (Reached-IsConsistent tokio tokio-IsLawful tonic axum parses greeter system-Reached)
      awaits_signal.0 awaits_signal.1 awaits_signal.2 no_message calls one_step

-- A signal alone wakes the main task, which then clears the flag.
abbrev signalled : System tokio
signalled = record system { main = clearing }

abbrev cleared : System tokio
cleared = record signalled { running = false; main = cancelling }

signals : filestore.App.step tokio system ctrl_c ≡ some signalled
unfolding filestore.App.step initial_system filestore.App.default_config
signals = refl

clears : filestore.App.step tokio signalled main_continues ≡ some cleared
unfolding filestore.App.step initial_system
clears = refl

main_goes_on : filestore.App.Schedules.Ends.Schedule tokio tokio-IsLawful signalled 1 cleared
unfolding initial_system
main_goes_on =
    filestore.App.Schedules.Ends.runs main_continues tt clears
      (λ e. cc (ap (λ (s : System tokio). s.main) e)) filestore.App.Schedules.Ends.rests

is_graceful : system.enable_graceful_shutdown ≡ true
unfolding initial_system filestore.App.default_config
is_graceful = refl

signal_finishes_example :
    (1
      ≤ 12
        + length system.grpc_handle.reporter_handles
        + length system.http_handle.reporter_handles)
    × (AllOver tokio tokio-IsLawful cleared ⊎ GoesOn tokio tokio-IsLawful cleared)
signal_finishes_example =
    signal_finishes tokio tokio-IsLawful system signalled cleared 1 ctrl_c
      (Reached-IsConsistent tokio tokio-IsLawful tonic axum parses greeter system-Reached)
      awaits_signal.0 is_graceful awaits_signal.1 (inl refl) signals main_goes_on
