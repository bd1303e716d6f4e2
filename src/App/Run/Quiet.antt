-- ===== src/App/Run/Quiet.antt =====
-- The steps that do not use the handle of `App::run`: nothing comes over its channel, and a main
-- task that cannot cancel the token never will.
use filestore.Base.{◌≡◌, ◌⊎◌, inl, inr, refl, Bool, true, false, some, arith}
use filestore.Tokio.{Tokio, IsLawful, pending}
use filestore.Server.{rest, grpc, spawned, running, Poll, waiting, ready}
use filestore.App.{
  Action, ctrl_c, terminate, handler_fails, shutdown_received, main_continues, shutdown_called,
  caller_continues, handle_dropped, grpc_runs, http_runs, System, step, MainTask, awaiting,
  clearing, cancelling, aborted,
}
use filestore.App.Run.{needs_handle}

-- The statement of the main task, whether the shutdown is graceful, and whether the token of the
-- application is cancelled.
unfoldable pub Stage : MainTask → Bool → Bool → Type 0
Stage awaiting graceful cancelled = cancelled ≡ false
Stage clearing graceful cancelled = (cancelled ≡ false) × (graceful ≡ true)
Stage cancelling graceful cancelled = (cancelled ≡ false) × (graceful ≡ true)
Stage aborted graceful cancelled = cancelled ≡ false
Stage _ graceful cancelled = (cancelled ≡ true) × (graceful ≡ true)

module _ (T : Tokio) (L : IsLawful T) where
  open T use {is_cancelled, received}

  -- Nothing comes over the channel.
  unfoldable pub IsQuiet : System T → Type 0
  IsQuiet s =
      (received s.shutdown_channel ≡ pending)
      × Stage s.main s.enable_graceful_shutdown (is_cancelled s.cancellation_token)

  -- The main task will never cancel the token.
  unfoldable pub IsStuck : System T → Type 0
  IsStuck s = (s.enable_graceful_shutdown ≡ false) ⊎ (s.main ≡ aborted)

  abbrev pub Keeps : System T → System T → Type 0
  Keeps s t = (IsQuiet s → IsQuiet t) × (IsQuiet s → IsStuck s → IsStuck t)

  wake-Keeps :
      (s t : System T) (a : Action)
      → (a ≡ ctrl_c) ⊎ ((a ≡ terminate) ⊎ ((a ≡ handler_fails) ⊎ (a ≡ shutdown_received)))
      → step T s a ≡ some t
      → Keeps s t
  unfolding step IsQuiet Stage IsStuck
  wake-Keeps s t a w h = (λ q. ground arith, λ q k. ground arith)

  main-Keeps : (s t : System T) → step T s main_continues ≡ some t → Keeps s t
  unfolding step IsQuiet Stage IsStuck
  main-Keeps s t h =
      (λ q. ground (arith, L.cancel_cancels s.cancellation_token), λ q k. ground arith)

  grpc-Keeps :
      (s t : System T) (e : filestore.Server.Event) → step T s (grpc_runs e) ≡ some t → Keeps s t
  unfolding step IsQuiet IsStuck
  grpc-Keeps s t e h = (λ q. ground arith, λ q k. ground arith)

  http-Keeps :
      (s t : System T) (e : filestore.Server.Event) → step T s (http_runs e) ≡ some t → Keeps s t
  unfolding step IsQuiet IsStuck
  http-Keeps s t e h = (λ q. ground arith, λ q k. ground arith)

  pub step-Keeps :
      (s t : System T) (a : Action) → needs_handle a ≡ false → step T s a ≡ some t → Keeps s t
  unfolding needs_handle
  step-Keeps s t ctrl_c n h = wake-Keeps s t ctrl_c (inl refl) h
  step-Keeps s t terminate n h = wake-Keeps s t terminate (inr (inl refl)) h
  step-Keeps s t handler_fails n h = wake-Keeps s t handler_fails (inr (inr (inl refl))) h
  step-Keeps s t shutdown_received n h = wake-Keeps s t shutdown_received (inr (inr (inr refl))) h
  step-Keeps s t main_continues n h = main-Keeps s t h
  step-Keeps s t shutdown_called n h = cc
  step-Keeps s t caller_continues n h = cc
  step-Keeps s t handle_dropped n h = cc
  step-Keeps s t (grpc_runs e) n h = grpc-Keeps s t e h
  step-Keeps s t (http_runs e) n h = http-Keeps s t e h
