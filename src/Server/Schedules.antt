-- ===== src/Server/Schedules.antt =====
-- After `shutdown` every schedule of the tasks comes to their end: how much a task has left.
use native.Mathlib.Decide.{dec_lt}
use filestore.Base.{
  ℕ, zero, suc, ◌+◌, ◌≤◌, ◌<◌, ◌≡◌, ◌≢◌, ◌⊎◌, inl, inr, refl, ap, ◌∙◌, Bool, true, List, [], ◌∷◌,
  some, All, arith, length,
}
use filestore.Tokio.{Tokio, IsLawful}
use filestore.Server.{
  Phase, binding, bound, serving, stopping, completed, panicked, ServerKind, Event, bind_succeeds,
  bind_fails, shutdown_future_polled, cancellation_seen, connections_drained, reporter_returns,
  reporter_panics, TaskState, running, finished, failed, Poll, ready, Service, step, end_reporter,
  shutdown, is_finished, wait_for_stop,
}
use filestore.Server.Stop.{JoinsAll, AllDone, wait_for_stop_iff}

-- The steps that the server task has left at most.
abbrev pub phase_left : Phase → ℕ
phase_left binding = 4
phase_left bound = 3
phase_left serving = 2
phase_left stopping = 1
phase_left _ = 0

phase_left-le : (p : Phase) → phase_left p ≤ 4
phase_left-le binding = omega arith
phase_left-le bound = omega arith
phase_left-le serving = omega arith
phase_left-le stopping = omega arith
phase_left-le completed = omega arith
phase_left-le panicked = omega arith

abbrev pub task_left : TaskState → ℕ
task_left running = 1
task_left _ = 0

abbrev pub tasks_left : List TaskState → ℕ
tasks_left [] = 0
tasks_left (r ∷ rs) = task_left r + tasks_left rs

task_left-le : (r : TaskState) → task_left r ≤ 1
task_left-le running = omega arith
task_left-le finished = omega arith
task_left-le failed = omega arith

tasks_left-le : (rs : List TaskState) → tasks_left rs ≤ length rs
tasks_left-le [] = omega arith
tasks_left-le (r ∷ rs) = omega (arith, tasks_left-le rs, task_left-le r)

-- The end of a readiness task changes nothing if it has ended already.
end_reporter_left :
    (o : TaskState) (n : ℕ) (rs : List TaskState)
    → task_left o ≡ 0
    → (end_reporter o n rs ≡ rs) ⊎ (tasks_left (end_reporter o n rs) < tasks_left rs)
unfolding end_reporter
end_reporter_left o n [] h = inl refl
end_reporter_left o zero (running ∷ rs) h = inr (omega arith)
end_reporter_left o zero (finished ∷ rs) h = inl refl
end_reporter_left o zero (failed ∷ rs) h = inl refl
end_reporter_left o (suc n) (r ∷ rs) h = elim (end_reporter_left o n rs h) [
  | inl same ↦ inl (ap (λ l. r ∷ l) same)
  | inr less ↦ inr (omega arith)
]

-- While a readiness task runs, there is a place at which one can return.
can_return :
    (rs : List TaskState)
    → tasks_left rs ≢ 0
    → (n : ℕ) × (tasks_left (end_reporter finished n rs) < tasks_left rs)
unfolding end_reporter
can_return [] h = absurd (h refl)
can_return (running ∷ rs) h = (0, omega arith)
can_return (finished ∷ rs) h =
    let (n, less) = can_return rs (λ e. h (omega arith)) in (suc n, omega arith)
can_return (failed ∷ rs) h =
    let (n, less) = can_return rs (λ e. h (omega arith)) in (suc n, omega arith)

none_running : (rs : List TaskState) → tasks_left rs ≡ 0 → All (λ r. r ≢ running) rs
none_running [] h = tt
none_running (r ∷ rs) h = (λ e. omega (arith, ap task_left e), none_running rs (omega arith))

module _ (T : Tokio) (L : IsLawful T) where
  -- The steps that a server and its tasks have left at most.
  abbrev pub left : Service T → ℕ
  left s = phase_left s.join_handle + tasks_left s.reporter_handles

  -- Every step that changes something leaves less, and none changes the token.
  pub step-left :
      (k : ServerKind) (s t : Service T) (e : Event)
      → step T k s e ≡ some t
      → ((t ≡ s) ⊎ (left t < left s)) × (t.cancellation_token ≡ s.cancellation_token)
  unfolding step
  step-left k s t (reporter_returns n) h =
      ground (arith, end_reporter_left finished n s.reporter_handles refl)
  step-left k s t (reporter_panics n) h =
      ground (arith, end_reporter_left failed n s.reporter_handles refl)
  step-left k s t bind_succeeds h = ground arith
  step-left k s t bind_fails h = ground arith
  step-left k s t shutdown_future_polled h = ground arith
  step-left k s t cancellation_seen h = ground arith
  step-left k s t connections_drained h = ground arith

  reporter_can_step :
      (k : ServerKind) (s : Service T)
      → tasks_left s.reporter_handles ≢ 0
      → (e : Event) × (t : Service T) × (step T k s e ≡ some t) × (left t < left s)
  unfolding step
  reporter_can_step k s h =
      let (n, less) = can_return s.reporter_handles h in
      (
        reporter_returns n,
        record s { reporter_handles = end_reporter finished n s.reporter_handles },
        refl,
        omega arith,
      )

  -- With a cancelled token, as long as anything is left there is such a step.
  pub can_step :
      (k : ServerKind) (s : Service T) (p : Phase)
      → s.join_handle ≡ p
      → T.is_cancelled s.cancellation_token ≡ true
      → left s ≢ 0
      → (e : Event) × (t : Service T) × (step T k s e ≡ some t) × (left t < left s)
  unfolding step
  can_step k s binding at c h =
      (bind_succeeds, record s { join_handle = bound }, ground arith, ground arith)
  can_step k s bound at c h = (
    shutdown_future_polled,
    record s { join_handle = serving; started = T.send s.started },
    ground arith,
    ground arith,
  )
  can_step k s serving at c h =
      (cancellation_seen, record s { join_handle = stopping }, ground arith, ground arith)
  can_step k s stopping at c h =
      (connections_drained, record s { join_handle = completed }, ground arith, ground arith)
  can_step k s completed at c h = reporter_can_step k s (ground arith)
  can_step k s panicked at c h = reporter_can_step k s (ground arith)

  pub over : (s : Service T) → left s ≡ 0 → AllDone T s
  unfolding is_finished
  over s h = (ground arith, none_running s.reporter_handles (omega arith))

  -- Steps that each change something, in an order that the runtime chooses, and their number.
  pub data Schedule (k : ServerKind) : Service T → ℕ → Service T → Type 0 where
    rests : {s : Service T} → Schedule k s 0 s
    runs :
        {s t u : Service T} {n : ℕ} (e : Event)
        → step T k s e ≡ some t
        → t ≢ s
        → Schedule k t n u
        → Schedule k s (suc n) u

  steps_left :
      (k : ServerKind) (s t : Service T) (n : ℕ)
      → Schedule k s n t
      → (n + left t ≤ left s) × (t.cancellation_token ≡ s.cancellation_token)
  steps_left k s t zero rests = (omega arith, refl)
  steps_left k s u (suc n) (runs {t = t} e possible changes more) =
      let (less, kept) = steps_left k t u n more in
      let (effect, same) = step-left k s t e possible in
      elim effect [
        | inl nothing ↦ absurd (changes nothing)
        | inr progress ↦ (omega arith, kept ∙ same)
      ]

  pub left-le : (s : Service T) → left s ≤ 4 + length s.reporter_handles
  left-le s = omega (arith, phase_left-le s.join_handle, tasks_left-le s.reporter_handles)

  -- After `shutdown`, in whatever order the server task and the readiness tasks run: they take at
  -- most four steps and one for each readiness task, and as long as `wait_for_stop`, with a
  -- `join_all` that joins all its futures, does not return, another step is possible. So every
  -- schedule that lets them run comes to an end, where all of them are over and it returns.
  pub always_stops :
      (k : ServerKind) (s t : Service T) (n : ℕ) (join_all : List (Poll Bool) → Poll (List Bool))
      → JoinsAll join_all
      → Schedule k (shutdown T s) n t
      → (n ≤ 4 + length s.reporter_handles)
        × ((AllDone T t × (wait_for_stop T join_all t ≡ ready tt))
            ⊎ ((e : Event) × (u : Service T) × (step T k t e ≡ some u) × (u ≢ t)))
  unfolding shutdown
  always_stops k s t n join_all law schedule =
      let (fewer, kept) = steps_left k (shutdown T s) t n schedule in
      (
        omega (arith, left-le s),
        elim (dec_lt 0 (left t)) [
          | yes more ↦
              let cancelled : T.is_cancelled t.cancellation_token ≡ true =
                ap T.is_cancelled kept ∙ L.cancel_cancels s.cancellation_token in
              let (e, u, possible, less) =
                can_step k t t.join_handle refl cancelled (λ none_left. omega arith) in
              inr (e, u, possible, λ same. omega (arith, ap left same))
          | no nothing ↦
              let done : AllDone T t = over t (omega arith) in
              inl (done, (wait_for_stop_iff T join_all t law).0.1 done)
        ],
      )
