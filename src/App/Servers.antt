-- ===== src/App/Servers.antt =====
-- What the application does to its two servers is what the holder of a handler may do.
use filestore.Base.{
  ◌≡◌, ◌⊎◌, inl, inr, refl, sym, Bool, List, [], ◌∷◌, some, arith, Option-cases, subst,
}
use filestore.Text.{Text}
use filestore.Tokio.{Tokio, IsLawful}
use filestore.Server.{Service, ServerKind, rest, grpc, Event, spawned, running, TaskState}
use filestore.Server.Lifecycle.{Reach}
use filestore.Server.Rest.{Axum}
use filestore.Server.Grpc.{Tonic, GrpcServiceHandler}
use filestore.App.{
  AppConfig, Action, ctrl_c, terminate, handler_fails, shutdown_received, main_continues,
  shutdown_called, caller_continues, handle_dropped, grpc_runs, http_runs, App, System, step,
  initial_system, open_app, started, start_after_logging,
}
use filestore.App.Start.{Leaves, start_after_logging_lem}
use filestore.App.Reachable.{Reached, starts, steps}

module _ (T : Tokio) (L : IsLawful T) where
  -- What one action may do to a server.
  Changes : ServerKind → Service T → Service T → Type 0
  Changes k s t =
      (t ≡ s)
      ⊎ ((t ≡ filestore.Server.shutdown T s)
          ⊎ ((e : Event) × (filestore.Server.step T k s e ≡ some t)))

  BothChange : System T → System T → Type 0
  unfolding Changes
  BothChange s t =
      Changes grpc s.grpc_handle t.grpc_handle × Changes rest s.http_handle t.http_handle

  main-BothChange : (s t : System T) → step T s main_continues ≡ some t → BothChange s t
  unfolding BothChange Changes step
  main-BothChange s t h = ground arith

  wake-BothChange :
      (s t : System T) (a : Action)
      → (a ≡ ctrl_c) ⊎ ((a ≡ terminate) ⊎ ((a ≡ handler_fails) ⊎ (a ≡ shutdown_received)))
      → step T s a ≡ some t
      → BothChange s t
  unfolding BothChange Changes step
  wake-BothChange s t a w h = ground arith

  call-BothChange :
      (s t : System T) (a : Action)
      → (a ≡ shutdown_called) ⊎ ((a ≡ caller_continues) ⊎ (a ≡ handle_dropped))
      → step T s a ≡ some t
      → BothChange s t
  unfolding BothChange Changes step
  call-BothChange s t a w h = ground arith

  grpc-BothChange : (s t : System T) (e : Event) → step T s (grpc_runs e) ≡ some t → BothChange s t
  unfolding BothChange Changes step
  grpc-BothChange s t e h = elim (Option-cases (filestore.Server.step T grpc s.grpc_handle e)) [
    | inl stuck ↦ ground arith
    | inr (g, runs) ↦ (inr (inr (e, ground arith)), ground arith)
  ]

  http-BothChange : (s t : System T) (e : Event) → step T s (http_runs e) ≡ some t → BothChange s t
  unfolding BothChange Changes step
  http-BothChange s t e h = elim (Option-cases (filestore.Server.step T rest s.http_handle e)) [
    | inl stuck ↦ ground arith
    | inr (g, runs) ↦ (ground arith, inr (inr (e, ground arith)))
  ]

  step-BothChange : (s t : System T) (a : Action) → step T s a ≡ some t → BothChange s t
  step-BothChange s t ctrl_c h = wake-BothChange s t ctrl_c (inl refl) h
  step-BothChange s t terminate h = wake-BothChange s t terminate (inr (inl refl)) h
  step-BothChange s t handler_fails h = wake-BothChange s t handler_fails (inr (inr (inl refl))) h
  step-BothChange s t shutdown_received h =
      wake-BothChange s t shutdown_received (inr (inr (inr refl))) h
  step-BothChange s t main_continues h = main-BothChange s t h
  step-BothChange s t shutdown_called h = call-BothChange s t shutdown_called (inl refl) h
  step-BothChange s t caller_continues h = call-BothChange s t caller_continues (inr (inl refl)) h
  step-BothChange s t handle_dropped h = call-BothChange s t handle_dropped (inr (inr refl)) h
  step-BothChange s t (grpc_runs e) h = grpc-BothChange s t e h
  step-BothChange s t (http_runs e) h = http-BothChange s t e h

  Changes-Reach :
      (k : ServerKind) (rs : List TaskState) (s t : Service T)
      → Changes k s t
      → Reach T L k rs s
      → Reach T L k rs t
  unfolding Changes
  Changes-Reach k rs s t (inl e) r = subst (Reach T L k rs) (sym e) r
  Changes-Reach k rs s t (inr (inl e)) r = subst (Reach T L k rs) (sym e) (Reach.asks r)
  Changes-Reach k rs s t (inr (inr (e, h))) r = Reach.runs r e t h

module _ (T : Tokio) (L : IsLawful T) (N : Tonic) (A : Axum) (parse : Text → Bool)
    (hello : GrpcServiceHandler N) where
  BothReach : System T → Type 0
  BothReach s = Reach T L grpc (running ∷ []) s.grpc_handle × Reach T L rest [] s.http_handle

  start-BothReach :
      (c : AppConfig) (app : App T) (s : System T)
      → start_after_logging T N A parse hello (open_app T c) ≡ started app s
      → BothReach s
  unfolding BothReach initial_system
  start-BothReach c app s e =
      let left = subst (Leaves T L N A parse c) e (start_after_logging_lem T L N A parse hello c) in
      subst BothReach (sym left.1) (Reach.start, Reach.start)

  -- In every state that a started application reaches, each of its servers is in a state that it
  -- could reach under its handler alone: the gRPC server with the one readiness task of the greeting
  -- service, the REST server with none. What holds of those states holds in the application.
  pub Reached-Reach :
      {c : AppConfig} {s : System T}
      → Reached T L N A parse hello c s
      → Reach T L grpc (running ∷ []) s.grpc_handle × Reach T L rest [] s.http_handle
  unfolding BothReach BothChange
  Reached-Reach {c} (starts app s e) = start-BothReach c app s e
  Reached-Reach (steps {s = s} r a t h) =
      let (g, p) = Reached-Reach r in
      let (changes, changes') = step-BothChange T L s t a h in
      (
        Changes-Reach T L grpc (running ∷ []) _ _ changes g,
        Changes-Reach T L rest [] _ _ changes' p,
      )
