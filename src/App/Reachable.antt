-- ===== src/App/Reachable.antt =====
-- The states that an application reaches after its start, and the order of the shutdown in them.
use mathlib.Core.Path.{subst}
use filestore.Base.{◌≡◌, inl, inr, refl, sym, Bool, [], ◌∷◌, some, arith}
use filestore.Text.{Text}
use filestore.Tokio.{Tokio, IsLawful}
use filestore.Server.{spawned, running}
use filestore.Server.Rest.{Axum}
use filestore.Server.Grpc.{Tonic, GrpcServiceHandler}
use filestore.App.{
  AppConfig, Action, ctrl_c, terminate, handler_fails, shutdown_received, main_continues,
  shutdown_called, caller_continues, handle_dropped, grpc_runs, http_runs, App, System, step,
  initial_system, open_app, started, start_after_logging,
}
use filestore.App.Start.{marked, Leaves, start_after_logging_lem}
use filestore.App.Shutdown.{
  IsConsistent, main-IsConsistent, wake-IsConsistent, call-IsConsistent, grpc-IsConsistent,
  http-IsConsistent,
}

module _ (T : Tokio) (L : IsLawful T) where
  pub step-IsConsistent :
      (s t : System T) (a : Action) → step T s a ≡ some t → IsConsistent T L s → IsConsistent T L t
  step-IsConsistent s t ctrl_c h c = wake-IsConsistent T L s t ctrl_c (inl refl) h c
  step-IsConsistent s t terminate h c = wake-IsConsistent T L s t terminate (inr (inl refl)) h c
  step-IsConsistent s t handler_fails h c =
      wake-IsConsistent T L s t handler_fails (inr (inr (inl refl))) h c
  step-IsConsistent s t shutdown_received h c =
      wake-IsConsistent T L s t shutdown_received (inr (inr (inr refl))) h c
  step-IsConsistent s t main_continues h c = main-IsConsistent T L s t h c
  step-IsConsistent s t shutdown_called h c =
      call-IsConsistent T L s t shutdown_called (inl refl) h c
  step-IsConsistent s t caller_continues h c =
      call-IsConsistent T L s t caller_continues (inr (inl refl)) h c
  step-IsConsistent s t handle_dropped h c =
      call-IsConsistent T L s t handle_dropped (inr (inr refl)) h c
  step-IsConsistent s t (grpc_runs e) h c = grpc-IsConsistent T L s t e h c
  step-IsConsistent s t (http_runs e) h c = http-IsConsistent T L s t e h c

module _ (T : Tokio) (L : IsLawful T) (N : Tonic) (A : Axum) (parse : Text → Bool)
    (hello : GrpcServiceHandler N) where
  open T use {is_cancelled}

  pub data Reached (c : AppConfig) : System T → Type 0 where
    starts :
        (app : App T) (s : System T)
        → start_after_logging T N A parse hello (open_app T c) ≡ started app s
        → Reached c s
    steps :
        {s : System T}
        → Reached c s
        → (a : Action) (t : System T) → step T s a ≡ some t
        → Reached c t

  initial-IsConsistent :
      (c : AppConfig)
      → IsConsistent T L
          (initial_system T (marked T L N A c) (spawned T (running ∷ [])) (spawned T []))
  unfolding initial_system spawned
  initial-IsConsistent c = ground (arith, L.new_token_live)

  start-IsConsistent :
      (c : AppConfig) (app : App T) (s : System T)
      → start_after_logging T N A parse hello (open_app T c) ≡ started app s
      → IsConsistent T L s
  start-IsConsistent c app s e =
      let left = subst (Leaves T L N A parse c) e (start_after_logging_lem T L N A parse hello c) in
      subst (IsConsistent T L) (sym left.1) (initial-IsConsistent c)

  -- In every state that a started application reaches, whatever the order of signals, calls and
  -- steps of the servers: no server is told to stop before the token is cancelled, the gRPC server
  -- is told first, both are told when the main task has ended, neither ever when it has panicked,
  -- and a cancelled token means that `is_running` is false.
  pub Reached-IsConsistent : {c : AppConfig} {s : System T} → Reached c s → IsConsistent T L s
  Reached-IsConsistent {c} (starts app s e) = start-IsConsistent c app s e
  Reached-IsConsistent (steps {s = s} r a t h) =
      step-IsConsistent T L s t a h (Reached-IsConsistent r)
