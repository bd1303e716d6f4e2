-- ===== src/App/Shutdown.antt =====
-- The shutdown of a running system: in which order the flag, the token and the servers change.
use filestore.Base.{
  ◌≡◌, ◌⊎◌, inl, inr, Bool, true, false, List, [], ◌∷◌, Option, none, some, arith, Option-cases,
}
use filestore.Tokio.{Tokio, IsLawful, pending}
use filestore.Server.{Service, ServerKind, rest, grpc, Event, Poll, waiting, ready, spawned}
use filestore.App.{
  MainTask, awaiting, clearing, cancelling, stopping_grpc, stopping_http, ended, aborted, Caller,
  idle, cancel_next, Action, ctrl_c, terminate, handler_fails, shutdown_received, main_continues,
  shutdown_called, caller_continues, handle_dropped, grpc_runs, http_runs, System,
  wait_for_shutdown, step,
}

-- The flag, and which of the tokens of the application and the two servers are cancelled, by the
-- statement of the main task.
abbrev pub Told : MainTask → Bool → Bool → Bool → Bool → Type 0
Told awaiting running app g h = (g ≡ false) × (h ≡ false)
Told clearing running app g h = (g ≡ false) × (h ≡ false)
Told cancelling running app g h = (running ≡ false) × (g ≡ false) × (h ≡ false)
Told stopping_grpc running app g h = (app ≡ true) × (g ≡ false) × (h ≡ false)
Told stopping_http running app g h = (app ≡ true) × (g ≡ true) × (h ≡ false)
Told ended running app g h = (app ≡ true) × (g ≡ true) × (h ≡ true)
Told aborted running app g h = (g ≡ false) × (h ≡ false)

abbrev pub Cleared : Caller → Bool → Type 0
Cleared cancel_next running = running ≡ false
Cleared _ running = Unit {0}

module _ (T : Tokio) (L : IsLawful T) where
  open T use {is_cancelled, received}

  -- A cancelled token of the application also means that the flag is off.
  abbrev pub IsConsistent : System T → Type 0
  IsConsistent s =
      Told s.main s.running (is_cancelled s.cancellation_token)
        (is_cancelled s.grpc_handle.cancellation_token)
        (is_cancelled s.http_handle.cancellation_token)
      × Cleared s.caller s.running
      × ((is_cancelled s.cancellation_token ≡ false) ⊎ (s.running ≡ false))

  server_keeps_token :
      (k : ServerKind) (s t : Service T) (e : Event)
      → filestore.Server.step T k s e ≡ some t
      → t.cancellation_token ≡ s.cancellation_token
  unfolding filestore.Server.step
  server_keeps_token k s t e h = ground arith

  pub main-IsConsistent :
      (s t : System T) → step T s main_continues ≡ some t → IsConsistent s → IsConsistent t
  unfolding step filestore.Server.shutdown
  main-IsConsistent s t h c = ground (
    arith,
    L.cancel_cancels s.cancellation_token,
    L.cancel_cancels s.grpc_handle.cancellation_token,
    L.cancel_cancels s.http_handle.cancellation_token,
  )

  pub wake-IsConsistent :
      (s t : System T) (a : Action)
      → (a ≡ ctrl_c) ⊎ ((a ≡ terminate) ⊎ ((a ≡ handler_fails) ⊎ (a ≡ shutdown_received)))
      → step T s a ≡ some t
      → IsConsistent s
      → IsConsistent t
  unfolding step
  wake-IsConsistent s t a w h c = ground arith

  pub call-IsConsistent :
      (s t : System T) (a : Action)
      → (a ≡ shutdown_called) ⊎ ((a ≡ caller_continues) ⊎ (a ≡ handle_dropped))
      → step T s a ≡ some t
      → IsConsistent s
      → IsConsistent t
  unfolding step
  call-IsConsistent s t a w h c = ground (arith, L.cancel_cancels s.cancellation_token)

  pub grpc-IsConsistent :
      (s t : System T) (e : Event)
      → step T s (grpc_runs e) ≡ some t
      → IsConsistent s
      → IsConsistent t
  unfolding step
  grpc-IsConsistent s t e h c = elim (Option-cases (filestore.Server.step T grpc s.grpc_handle e)) [
    | inl none_left ↦ ground arith
    | inr (g, runs) ↦ ground (arith, server_keeps_token grpc s.grpc_handle g e runs)
  ]

  pub http-IsConsistent :
      (s t : System T) (e : Event)
      → step T s (http_runs e) ≡ some t
      → IsConsistent s
      → IsConsistent t
  unfolding step
  http-IsConsistent s t e h c = elim (Option-cases (filestore.Server.step T rest s.http_handle e)) [
    | inl none_left ↦ ground arith
    | inr (g, runs) ↦ ground (arith, server_keeps_token rest s.http_handle g e runs)
  ]

  -- The state after a list of actions, each of which must be possible.
  abbrev pub run : System T → List Action → Option (System T)
  run s [] = some s
  run s (a ∷ more) = elim (step T s a) [ none ↦ none | some t ↦ run t more ]

  -- A call of `shutdown` to its end, and the main task to its end.
  abbrev pub shutdown_actions : List Action
  shutdown_actions =
      shutdown_called ∷ caller_continues ∷ caller_continues ∷ shutdown_received ∷ main_continues
      ∷ main_continues ∷ main_continues ∷ main_continues ∷ []

  abbrev pub AllTold : System T → Type 0
  AllTold t =
      (t.main ≡ ended)
      × (t.running ≡ false)
      × (wait_for_shutdown T t ≡ ready tt)
      × (is_cancelled t.grpc_handle.cancellation_token ≡ true)
      × (is_cancelled t.http_handle.cancellation_token ≡ true)

  -- `shutdown` on a handle that still has its sender, while the main task waits, can always run to
  -- its end with the main task, graceful or not: the application is then not running, whoever waits
  -- for the shutdown returns, and both servers are told to stop.
  pub shutdown_tells_servers :
      (s : System T)
      → s.main ≡ awaiting
      → s.caller ≡ idle
      → s.shutdown_tx ≡ some tt
      → received s.shutdown_channel ≡ pending
      → (t : System T) × (run s shutdown_actions ≡ some t) × AllTold t
  unfolding step wait_for_shutdown filestore.Server.shutdown
  shutdown_tells_servers s m c x r = (
    record s {
      running = false;
      cancellation_token = T.cancel (T.cancel s.cancellation_token);
      shutdown_tx = none;
      shutdown_channel = T.send s.shutdown_channel;
      main = ended;
      grpc_handle = filestore.Server.shutdown T s.grpc_handle;
      http_handle = filestore.Server.shutdown T s.http_handle;
    },
    ground (arith, L.received-send s.shutdown_channel r),
    ground (
      arith,
      L.cancel_cancels (T.cancel s.cancellation_token),
      L.cancel_cancels s.grpc_handle.cancellation_token,
      L.cancel_cancels s.http_handle.cancellation_token,
    ),
  )

  -- From a consistent state in which the main task waits and the shutdown is graceful,
  -- `wait_for_shutdown`, and with it `run`, can return before a server has been told to stop:
  -- after a Ctrl+C, the main task cancels the token and only then reaches the servers.
  pub returns_early :
      (s : System T)
      → s.main ≡ awaiting
      → s.enable_graceful_shutdown ≡ true
      → IsConsistent s
      → (t : System T) × (run s (ctrl_c ∷ main_continues ∷ main_continues ∷ []) ≡ some t)
        × (wait_for_shutdown T t ≡ ready tt)
        × (is_cancelled t.grpc_handle.cancellation_token ≡ false)
        × (is_cancelled t.http_handle.cancellation_token ≡ false)
  unfolding step wait_for_shutdown
  returns_early s m g c = (
    record s {
      running = false;
      cancellation_token = T.cancel s.cancellation_token;
      main = stopping_grpc;
    },
    ground arith,
    ground (arith, L.cancel_cancels s.cancellation_token),
    ground arith,
    ground arith,
  )
