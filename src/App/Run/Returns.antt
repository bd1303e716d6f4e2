-- ===== src/App/Run/Returns.antt =====
-- When `App::run` can return.
use filestore.Base.{
  ◌≡◌, ◌≢◌, ◌↔◌, ◌⊎◌, inl, inr, refl, sym, subst, ◌∙◌, Bool, true, false, List, [], ◌∷◌, Option,
  none, some, arith, Option-cases, Bool-cases,
}
use filestore.Text.{Text}
use filestore.Tokio.{Tokio, IsLawful}
use filestore.Server.{spawned, running}
use filestore.Server.Rest.{Axum}
use filestore.Server.Grpc.{Tonic, GrpcServiceHandler}
use filestore.App.{
  AppConfig, Action, ctrl_c, main_continues, App, System, step, wait_for_shutdown, initial_system,
  open_app, started, start_after_logging, MainTask, awaiting, clearing, cancelling, aborted,
}
use filestore.App.Start.{marked, Leaves, start_after_logging_lem}
use filestore.App.Run.Quiet.{Stage, IsQuiet, IsStuck, step-Keeps}
use filestore.App.Run.{
  RunResult, ok, RunEvent, acts, polled, Run, waits, returned, needs_handle, run_step,
  waits_or_none, resume,
}

module _ (T : Tokio) (L : IsLawful T) where
  open T use {is_cancelled, received}

  -- The run after a list of events, each of which must be possible.
  abbrev pub run_events : Run T → List RunEvent → Option (Run T)
  run_events r [] = some r
  run_events r (e ∷ more) = elim (run_step T r e) [ none ↦ none | some u ↦ run_events u more ]

  later :
      (r u : Run T) (e : RunEvent) (more : List RunEvent)
      → run_step T r e ≡ some u
      → run_events r (e ∷ more) ≡ run_events u more
  later r u e more h = rw (h, run_events) refl

  stuck_waits : (s : System T) → IsQuiet T L s → IsStuck T L s → run_step T (waits s) polled ≡ none
  unfolding IsQuiet Stage IsStuck run_step resume wait_for_shutdown
  stuck_waits s q k = ground arith

  -- A step of the rest, from a wait.
  acts-cases :
      (s : System T) (a : Action)
      → (run_step T (waits s) (acts a) ≡ none)
        ⊎ ((t : System T) × (needs_handle a ≡ false)
            × (step T s a ≡ some t)
            × (run_step T (waits s) (acts a) ≡ some (waits t)))
  unfolding run_step waits_or_none
  acts-cases s a = elim (Bool-cases (needs_handle a)) [
    | inl needs ↦ inl (rw needs refl)
    | inr free ↦ elim (Option-cases (step T s a)) [
      | inl stops ↦ inl (rw (free, stops) refl)
      | inr (t, goes) ↦ inr (t, free, goes, rw (free, goes) refl)
    ]
  ]

  stuck_never :
      (s : System T) (r : RunResult) (es : List RunEvent)
      → IsQuiet T L s
      → IsStuck T L s
      → run_events (waits s) es ≢ some (returned r)
  stuck_never s r [] q k = λ e. cc
  stuck_never s r (polled ∷ more) q k = rw (stuck_waits s q k, run_events) (λ e. cc)
  stuck_never s r (acts a ∷ more) q k = elim (acts-cases s a) [
    | inl stops ↦ rw (stops, run_events) (λ e. cc)
    | inr (t, free, goes, next) ↦
        let (quiet, stuck) = step-Keeps T L s t a free goes in
        rw (next, run_events) (stuck_never t r more (quiet q) (stuck q k))
  ]

  stays_returned :
      (q r : RunResult) (es : List RunEvent)
      → run_events (returned q) es ≡ some (returned r)
      → r ≡ q
  unfolding run_step
  stays_returned q r [] h = cc
  stays_returned q r (e ∷ more) h = cc

  polled-cases :
      (s : System T)
      → (run_step T (waits s) polled ≡ none) ⊎ (run_step T (waits s) polled ≡ some (returned ok))
  unfolding run_step resume wait_for_shutdown
  polled-cases s = ground arith

  returns_ok :
      (s : System T) (r : RunResult) (es : List RunEvent)
      → run_events (waits s) es ≡ some (returned r)
      → r ≡ ok
  returns_ok s r [] h = cc
  returns_ok s r (polled ∷ more) h = elim (polled-cases s) [
    | inl stops ↦ cc
    | inr over ↦ stays_returned ok r more (sym (later (waits s) (returned ok) polled more over) ∙ h)
  ]
  returns_ok s r (acts a ∷ more) h = elim (acts-cases s a) [
    | inl stops ↦ cc
    | inr (t, free, goes, next) ↦
        returns_ok t r more (sym (later (waits s) (waits t) (acts a) more next) ∙ h)
  ]

  graceful : (s : System T) → ¬ (IsStuck T L s) → s.enable_graceful_shutdown ≡ true
  unfolding IsStuck
  graceful s h = elim (Bool-cases s.enable_graceful_shutdown) [
    | inl on ↦ on
    | inr off ↦ absurd (h (inl off))
  ]

  -- The rest of the way to the cancelled token.
  abbrev pub way : MainTask → List RunEvent
  way awaiting = acts ctrl_c ∷ acts main_continues ∷ acts main_continues ∷ polled ∷ []
  way clearing = acts main_continues ∷ acts main_continues ∷ polled ∷ []
  way cancelling = acts main_continues ∷ polled ∷ []
  way _ = polled ∷ []

  pub way_returns :
      (s : System T)
      → IsQuiet T L s
      → s.enable_graceful_shutdown ≡ true
      → s.main ≢ aborted
      → run_events (waits s) (way s.main) ≡ some (returned ok)
  unfolding IsQuiet Stage run_step resume wait_for_shutdown waits_or_none step needs_handle
  way_returns s q g m = ground (arith, L.cancel_cancels s.cancellation_token)

  module _ (N : Tonic) (A : Axum) (parse : Text → Bool) (hello : GrpcServiceHandler N) where
    -- The systems that `run` of an application waits for: nobody uses its handle.
    pub data Waits (c : AppConfig) : System T → Type 0 where
      begins :
          (app : App T) (s : System T)
          → start_after_logging T N A parse hello (open_app T c) ≡ started app s
          → Waits c s
      goes_on :
          {s : System T}
          → Waits c s
          → (a : Action) (t : System T) → needs_handle a ≡ false
          → step T s a ≡ some t
          → Waits c t

    initial-IsQuiet :
        (c : AppConfig)
        → IsQuiet T L
            (initial_system T (marked T L N A c) (spawned T (running ∷ [])) (spawned T []))
    unfolding initial_system IsQuiet Stage
    initial-IsQuiet c = ground (arith, L.new_token_live, L.received-channel)

    start-IsQuiet :
        (c : AppConfig) (app : App T) (s : System T)
        → start_after_logging T N A parse hello (open_app T c) ≡ started app s
        → IsQuiet T L s
    start-IsQuiet c app s e =
        let left =
          subst (Leaves T L N A parse c) e (start_after_logging_lem T L N A parse hello c) in
        subst (IsQuiet T L) (sym left.1) (initial-IsQuiet c)

    pub Waits-IsQuiet : {c : AppConfig} {s : System T} → Waits c s → IsQuiet T L s
    Waits-IsQuiet {c} (begins app s e) = start-IsQuiet c app s e
    Waits-IsQuiet (goes_on {s = s} w a t n h) = (step-Keeps T L s t a n h).0 (Waits-IsQuiet w)

    -- Wherever `run` waits, it can still return if and only if the shutdown is graceful and the
    -- main task has not panicked; what it returns is then `Ok`. With graceful shutdown turned off
    -- it never returns, whatever signal comes, since nobody else has the handle.
    pub run_returns_iff :
        {c : AppConfig} {s : System T} (r : RunResult)
        → Waits c s
        → ((es : List RunEvent) × (run_events (waits s) es ≡ some (returned r)))
          ↔ ((r ≡ ok) × (s.enable_graceful_shutdown ≡ true) × (s.main ≢ aborted))
    unfolding IsStuck
    run_returns_iff {s = s} r w = (
      λ (es, e). (
        returns_ok s r es e,
        graceful s (λ k. stuck_never s r es (Waits-IsQuiet w) k e),
        λ m. stuck_never s r es (Waits-IsQuiet w) (inr m) e,
      ),
      λ (k, g, m). (way s.main, rw k (way_returns s (Waits-IsQuiet w) g m)),
    )
