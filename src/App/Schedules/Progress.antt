-- ===== src/App/Schedules/Progress.antt =====
-- After a call of `shutdown` the program can take a step as long as anything is left.
use native.Mathlib.Decide.{dec_lt}
use filestore.Base.{◌+◌, ◌<◌, ◌≡◌, ◌≢◌, refl, ap, true, false, none, some, arith}
use filestore.Tokio.{Tokio, IsLawful, arrived}
use filestore.Server.{Service, rest, grpc, Event, ready, is_finished}
use filestore.Server.Schedules.{left, can_step, over}
use filestore.App.{
  MainTask, awaiting, clearing, cancelling, stopping_grpc, stopping_http, ended, aborted, Caller,
  idle, cancel_next, send_next, gone, Action, shutdown_received, main_continues, caller_continues,
  grpc_runs, http_runs, System, step, wait_for_shutdown,
}
use filestore.App.Schedules.{main_left, caller_left, IsOwn, Asked, all_left, IsAsked}

module _ (T : Tokio) (L : IsLawful T) where
  -- What the program has come to when nothing is left.
  abbrev pub AllOver : System T → Type 0
  AllOver t =
      (t.main ≡ ended)
      × (t.running ≡ false)
      × (wait_for_shutdown T t ≡ ready tt)
      × (is_finished T t.grpc_handle ≡ true)
      × (is_finished T t.http_handle ≡ true)

  -- A step that changes something, which the program can take.
  abbrev pub GoesOn : System T → Type 0
  GoesOn s = (a : Action) × (t : System T) × IsOwn a × (step T s a ≡ some t) × (t ≢ s)

  main_can_step :
      (s : System T) (m : MainTask)
      → s.main ≡ m
      → (m ≡ awaiting → T.received s.shutdown_channel ≡ arrived)
      → 0 < main_left m
      → GoesOn s
  unfolding step
  main_can_step s awaiting at r h =
      let message : T.received s.shutdown_channel ≡ arrived = r refl in
      (shutdown_received, record s { main = clearing }, tt, ground arith, λ e. cc)
  main_can_step s clearing at r h =
      (main_continues, record s { running = false; main = cancelling }, tt, rw at refl, λ e. cc)
  main_can_step s cancelling at r h = (
    main_continues,
    record s { cancellation_token = T.cancel s.cancellation_token; main = stopping_grpc },
    tt,
    rw at refl,
    λ e. cc,
  )
  main_can_step s stopping_grpc at r h = (
    main_continues,
    record s { grpc_handle = filestore.Server.shutdown T s.grpc_handle; main = stopping_http },
    tt,
    rw at refl,
    λ e. cc,
  )
  main_can_step s stopping_http at r h = (
    main_continues,
    record s { http_handle = filestore.Server.shutdown T s.http_handle; main = ended },
    tt,
    rw at refl,
    λ e. cc,
  )
  main_can_step s ended at r h = absurd (omega arith)
  main_can_step s aborted at r h = absurd (omega arith)

  -- In the caller, or else in the main task.
  tasks_can_step :
      (s : System T) (c : Caller)
      → s.caller ≡ c
      → Asked s.main c s.shutdown_tx (T.received s.shutdown_channel)
      → 0 < main_left s.main + caller_left c
      → GoesOn s
  unfolding step
  tasks_can_step s cancel_next at asked h = (
    caller_continues,
    record s { cancellation_token = T.cancel s.cancellation_token; caller = send_next },
    tt,
    rw at refl,
    λ e. cc,
  )
  tasks_can_step s send_next at asked h = (
    caller_continues,
    record s { shutdown_channel = T.send s.shutdown_channel; shutdown_tx = none; caller = idle },
    tt,
    rw (at, asked.0) refl,
    λ e. cc,
  )
  tasks_can_step s idle at asked h = main_can_step s s.main refl asked (omega arith)
  tasks_can_step s gone at asked h = absurd asked

  at_end :
      (s : System T)
      → IsAsked T L s
      → main_left s.main ≡ 0
      → (s.main ≡ ended)
        × (s.running ≡ false)
        × (T.is_cancelled s.cancellation_token ≡ true)
        × (T.is_cancelled s.grpc_handle.cancellation_token ≡ true)
        × (T.is_cancelled s.http_handle.cancellation_token ≡ true)
  at_end s (consistent, asked, awake) h = ground arith

  grpc_can_step :
      (s : System T)
      → T.is_cancelled s.grpc_handle.cancellation_token ≡ true
      → left T L s.grpc_handle ≢ 0
      → GoesOn s
  unfolding step
  grpc_can_step s told h =
      let (e, g, possible, less) =
        can_step T L grpc s.grpc_handle s.grpc_handle.join_handle refl told h in
      (
        grpc_runs e,
        record s { grpc_handle = g },
        tt,
        rw (step, possible) refl,
        λ same. omega (arith, ap (λ (u : System T). left T L u.grpc_handle) same),
      )

  http_can_step :
      (s : System T)
      → T.is_cancelled s.http_handle.cancellation_token ≡ true
      → left T L s.http_handle ≢ 0
      → GoesOn s
  unfolding step
  http_can_step s told h =
      let (e, g, possible, less) =
        can_step T L rest s.http_handle s.http_handle.join_handle refl told h in
      (
        http_runs e,
        record s { http_handle = g },
        tt,
        rw (step, possible) refl,
        λ same. omega (arith, ap (λ (u : System T). left T L u.http_handle) same),
      )

  -- While anything is left, the program can take a step.
  pub going_on : (s : System T) → IsAsked T L s → 0 < all_left T L s → GoesOn s
  going_on s inv h = elim (dec_lt 0 (main_left s.main + caller_left s.caller)) [
    | yes tasks ↦ tasks_can_step s s.caller refl inv.1 tasks
    | no tasks_over ↦
        let (at, off, app_told, grpc_told, http_told) = at_end s inv (omega arith) in
        elim (dec_lt 0 (left T L s.grpc_handle)) [
          | yes some_left ↦ grpc_can_step s grpc_told (λ e. omega arith)
          | no grpc_over ↦ http_can_step s http_told (λ e. omega arith)
        ]
  ]

  pub all_over : (s : System T) → IsAsked T L s → all_left T L s ≡ 0 → AllOver s
  unfolding wait_for_shutdown
  all_over s inv h =
      let (at, off, app_told, grpc_told, http_told) = at_end s inv (omega arith) in
      (
        at,
        off,
        rw app_told refl,
        (over T L s.grpc_handle (omega arith)).0,
        (over T L s.http_handle (omega arith)).0,
      )
