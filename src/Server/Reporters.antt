-- ===== src/Server/Reporters.antt =====
-- The readiness tasks of a server: their number never changes.
use filestore.Base.{ℕ, zero, suc, ◌≡◌, refl, ap, List, [], ◌∷◌, some, arith, length}
use filestore.Tokio.{Tokio}
use filestore.Server.{
  ServerKind, Event, bind_succeeds, bind_fails, shutdown_future_polled, cancellation_seen,
  connections_drained, reporter_returns, reporter_panics, TaskState, running, finished, failed,
  Service, step, end_reporter,
}

length-end_reporter :
    (o : TaskState) (n : ℕ) (rs : List TaskState) → length (end_reporter o n rs) ≡ length rs
unfolding end_reporter
length-end_reporter o n [] = refl
length-end_reporter o zero (running ∷ rs) = refl
length-end_reporter o zero (finished ∷ rs) = refl
length-end_reporter o zero (failed ∷ rs) = refl
length-end_reporter o (suc n) (r ∷ rs) = ap suc (length-end_reporter o n rs)

module _ (T : Tokio) where
  pub step-length :
      (k : ServerKind) (s t : Service T) (e : Event)
      → step T k s e ≡ some t
      → length t.reporter_handles ≡ length s.reporter_handles
  unfolding step
  step-length k s t (reporter_returns n) h =
      ground (arith, length-end_reporter finished n s.reporter_handles)
  step-length k s t (reporter_panics n) h =
      ground (arith, length-end_reporter failed n s.reporter_handles)
  step-length k s t bind_succeeds h = ground arith
  step-length k s t bind_fails h = ground arith
  step-length k s t shutdown_future_polled h = ground arith
  step-length k s t cancellation_seen h = ground arith
  step-length k s t connections_drained h = ground arith
