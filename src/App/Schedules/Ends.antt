-- ===== src/App/Schedules/Ends.antt =====
-- After a call of `shutdown` every schedule of the program comes to its end.
use native.Mathlib.Decide.{dec_lt}
use filestore.Base.{
  true, ℕ, zero, suc, ◌+◌, ◌≤◌, ◌≡◌, ◌≢◌, ◌⊎◌, inl, inr, false, some, arith, length,
}
use filestore.Tokio.{Tokio, IsLawful, pending}
use filestore.Server.Schedules.{left-le}
use filestore.App.{
  ctrl_c, terminate, clearing, awaiting, idle, cancel_next, Action, shutdown_called, System, step,
}
use filestore.App.Shutdown.{IsConsistent}
use filestore.App.Reachable.{step-IsConsistent}
use filestore.App.Schedules.{IsOwn, all_left, IsAsked, step-all_left, step-IsAsked}
use filestore.App.Schedules.Progress.{AllOver, GoesOn, going_on, all_over}

module _ (T : Tokio) (L : IsLawful T) where
  -- Steps of the program that each change something, in any order, and their number.
  pub data Schedule : System T → ℕ → System T → Type 0 where
    rests : {s : System T} → Schedule s 0 s
    runs :
        {s t u : System T} {n : ℕ} (a : Action)
        → IsOwn a
        → step T s a ≡ some t
        → t ≢ s
        → Schedule t n u
        → Schedule s (suc n) u

  steps_left :
      (s t : System T) (n : ℕ)
      → Schedule s n t
      → IsAsked T L s
      → (n + all_left T L t ≤ all_left T L s) × IsAsked T L t
  steps_left s t zero rests inv = (omega arith, inv)
  steps_left s u (suc n) (runs {t = t} a own possible changes more) inv =
      let (fewer, kept) = steps_left t u n more (step-IsAsked T L s t a own possible inv) in
      elim (step-all_left T L s t a own possible) [
        | inl nothing ↦ absurd (changes nothing)
        | inr progress ↦ (omega arith, kept)
      ]

  -- The call itself only clears the flag.
  called :
      (s t : System T)
      → s.caller ≡ idle
      → step T s shutdown_called ≡ some t
      → t ≡ record s { running = false; caller = cancel_next }
  unfolding step
  called s t i h = ground arith

  asked :
      (s t : System T)
      → IsConsistent T L s
      → s.main ≡ awaiting
      → s.caller ≡ idle
      → s.shutdown_tx ≡ some tt
      → T.received s.shutdown_channel ≡ pending
      → step T s shutdown_called ≡ some t
      → IsAsked T L t
  asked s t c m i x r h = (
    step-IsConsistent T L s t shutdown_called h c,
    rw (called s t i h) (x, r),
    rw (called s t i h, m) (λ e. cc),
  )

  call_left :
      (s t : System T)
      → s.main ≡ awaiting
      → s.caller ≡ idle
      → step T s shutdown_called ≡ some t
      → all_left T L t
        ≤ 15 + length s.grpc_handle.reporter_handles + length s.http_handle.reporter_handles
  call_left s t m i h =
      rw (called s t i h, m) (omega (arith, left-le T L s.grpc_handle, left-le T L s.http_handle))

  -- In a consistent state, as all are that an application reaches, where the main task waits and
  -- the handle still has its sender, the owner of the handle calls `shutdown` and then nothing
  -- more, and the handler of the signals does not fail. In whatever order the call, the main task,
  -- the signals and both servers go on, they take at most 15 steps and one for each readiness task,
  -- and as long as something is left, a step is possible. So every schedule that lets them run
  -- comes to an end: there the main task has ended, the application is not running, whoever waits
  -- for the shutdown returns, and both server tasks have finished.
  pub always_finishes :
      (s t u : System T) (n : ℕ)
      → IsConsistent T L s
      → s.main ≡ awaiting
      → s.caller ≡ idle
      → s.shutdown_tx ≡ some tt
      → T.received s.shutdown_channel ≡ pending
      → step T s shutdown_called ≡ some t
      → Schedule t n u
      → (n ≤ 15 + length s.grpc_handle.reporter_handles + length s.http_handle.reporter_handles)
        × (AllOver T L u ⊎ GoesOn T L u)
  always_finishes s t u n c m i x r h schedule =
      let (fewer, inv) = steps_left t u n schedule (asked s t c m i x r h) in
      (
        omega (arith, call_left s t m i h),
        elim (dec_lt 0 (all_left T L u)) [
          | yes more ↦ inr (going_on T L u inv more)
          | no nothing ↦ inl (all_over T L u inv (omega arith))
        ],
      )

  -- A signal wakes the main task of a graceful shutdown.
  signalled :
      (s t : System T) (a : Action)
      → (a ≡ ctrl_c) ⊎ (a ≡ terminate)
      → s.main ≡ awaiting
      → s.enable_graceful_shutdown ≡ true
      → step T s a ≡ some t
      → t ≡ record s { main = clearing }
  unfolding step
  signalled s t a signal m g h = ground arith

  signal_left :
      (s t : System T)
      → s.caller ≡ idle
      → t ≡ record s { main = clearing }
      → all_left T L t
        ≤ 12 + length s.grpc_handle.reporter_handles + length s.http_handle.reporter_handles
  signal_left s t i next =
      rw (next, i) (omega (arith, left-le T L s.grpc_handle, left-le T L s.http_handle))

  -- In a consistent state, as all are that an application reaches, where the main task waits and
  -- the shutdown is graceful, a Ctrl+C or a SIGTERM comes, and nobody is in a call of `shutdown` nor
  -- makes one. As long as the process lives, in whatever order the main task and both servers go on,
  -- they take at most 12 steps and one for each readiness task, and as long as something is left, a
  -- step is possible. So every schedule that lets them run comes to an end: there the main task has
  -- ended, the application is not running, whoever waits for the shutdown returns, and both server
  -- tasks have finished.
  pub signal_finishes :
      (s t u : System T) (n : ℕ) (a : Action)
      → IsConsistent T L s
      → s.main ≡ awaiting
      → s.enable_graceful_shutdown ≡ true
      → s.caller ≡ idle
      → (a ≡ ctrl_c) ⊎ (a ≡ terminate)
      → step T s a ≡ some t
      → Schedule t n u
      → (n ≤ 12 + length s.grpc_handle.reporter_handles + length s.http_handle.reporter_handles)
        × (AllOver T L u ⊎ GoesOn T L u)
  signal_finishes s t u n a c m g i signal h schedule =
      let next = signalled s t a signal m g h in
      let asked_now : IsAsked T L t =
        (step-IsConsistent T L s t a h c, rw (next, i) (λ e. cc), rw next (λ e. cc)) in
      let (fewer, inv) = steps_left t u n schedule asked_now in
      (
        omega (arith, signal_left s t i next),
        elim (dec_lt 0 (all_left T L u)) [
          | yes more ↦ inr (going_on T L u inv more)
          | no nothing ↦ inl (all_over T L u inv (omega arith))
        ],
      )
