-- ===== src/App/Run/Early.antt =====
-- `App::run` can end the process before a server has been told to stop.
use filestore.Base.{
  ◌≡◌, refl, Bool, true, false, List, [], ◌∷◌, map, some, All, Option-cases, inl, inr,
}
use filestore.Text.{Text}
use filestore.Tokio.{Tokio, IsLawful}
use filestore.Server.Rest.{Axum}
use filestore.Server.Grpc.{Tonic, GrpcServiceHandler}
use filestore.App.{AppConfig, Action, ctrl_c, main_continues, System, step, awaiting}
use filestore.App.Shutdown.{run, returns_early}
use filestore.App.Reachable.{Reached, starts, steps, Reached-IsConsistent}
use filestore.App.Run.{
  RunEvent, acts, polled, waits, returned, ok, needs_handle, run_step, waits_or_none, resume,
}
use filestore.App.Run.Returns.{Waits, begins, goes_on, run_events}

module _ (T : Tokio) (L : IsLawful T) where
  run_events-acts :
      (s t : System T) (actions : List Action)
      → All (λ a. needs_handle a ≡ false) actions
      → run T L s actions ≡ some t
      → run_events T L (waits s) (map acts actions) ≡ some (waits t)
  unfolding run_step waits_or_none
  run_events-acts s t [] free h = cc
  run_events-acts s t (a ∷ more) (free, rest) h = elim (Option-cases (step T s a)) [
    | inl stops ↦ cc
    | inr (u, goes) ↦ rw (free, goes, run_events, map) (run_events-acts u t more rest cc)
  ]

  module _ (N : Tonic) (A : Axum) (parse : Text → Bool) (hello : GrpcServiceHandler N) where
    Waits-Reached :
        {c : AppConfig} {s : System T}
        → Waits T L N A parse hello c s
        → Reached T L N A parse hello c s
    Waits-Reached (begins app s e) = starts app s e
    Waits-Reached (goes_on w a t n h) = steps (Waits-Reached w) a t h

    -- Where `run` waits, the main task waits for a signal and the shutdown is graceful, there are
    -- steps after which `run` returns `Ok` at its next poll, which ends the process, while neither
    -- server has been told to stop.
    pub run_ends_untold :
        {c : AppConfig} {s : System T}
        → Waits T L N A parse hello c s
        → s.main ≡ awaiting
        → s.enable_graceful_shutdown ≡ true
        → (es : List RunEvent) × (t : System T) × (run_events T L (waits s) es ≡ some (waits t))
          × (run_step T (waits t) polled ≡ some (returned ok))
          × (T.is_cancelled t.grpc_handle.cancellation_token ≡ false)
          × (T.is_cancelled t.http_handle.cancellation_token ≡ false)
    unfolding run_step resume needs_handle
    run_ends_untold {s = s} w m g =
        let (t, ran, over, grpc_live, http_live) =
          returns_early T L s m g (Reached-IsConsistent T L N A parse hello (Waits-Reached w)) in
        (
          map acts (ctrl_c ∷ main_continues ∷ main_continues ∷ []),
          t,
          run_events-acts s t (ctrl_c ∷ main_continues ∷ main_continues ∷ [])
              (refl, (refl, (refl, tt))) ran,
          rw over refl,
          grpc_live,
          http_live,
        )
