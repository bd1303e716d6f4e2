-- ===== src/App/Completion.antt =====
-- From a call of `shutdown` to the end of both servers.
use filestore.Base.{◌≡◌, ap, ◌∙◌, true, false, List, [], ◌∷◌, ◌++◌, map, Option, none, some}
use filestore.Tokio.{Tokio, IsLawful, pending}
use filestore.Server.{Service, rest, grpc, Event, ready, is_finished}
use filestore.Server.Lifecycle.{cancelled_completes}
use filestore.App.{awaiting, idle, Action, grpc_runs, http_runs, System, step, wait_for_shutdown}
use filestore.App.Shutdown.{run, shutdown_actions, shutdown_tells_servers}

module _ (T : Tokio) (L : IsLawful T) where
  -- Going on after a first step, which may not be possible.
  bind {ℓ} : {A : Type ℓ} → Option A → (A → Option (System T)) → Option (System T)
  bind none f = none
  bind (some a) f = f a

  run-append :
      (s t : System T) (first more : List Action)
      → run T L s first ≡ some t
      → run T L s (first ++ more) ≡ run T L t more
  unfolding bind
  run-append s t [] more h = ap (λ o. bind o λ u. run T L u more) h
  run-append s t (a ∷ first) more h = going (λ u. run-append u t first more) (step T s a) h
    where
      going :
          ((u : System T) → run T L u first ≡ some t → run T L u (first ++ more) ≡ run T L t more)
          → (o : Option (System T)) → (elim o [ none ↦ none | some u ↦ run T L u first ]) ≡ some t
          → (elim o [ none ↦ none | some u ↦ run T L u (first ++ more) ]) ≡ run T L t more
      going later none e = cc
      going later (some u) e = later u e

  run-grpc :
      (s : System T) (es : List Event) (g : Service T)
      → filestore.Server.Lifecycle.run T L grpc s.grpc_handle es ≡ some g
      → run T L s (map grpc_runs es) ≡ some (record s { grpc_handle = g })
  unfolding step bind
  run-grpc s [] g h = ap (λ o. bind o λ u. some (record s { grpc_handle = u })) h
  run-grpc s (e ∷ es) g h =
      going (λ u. run-grpc (record s { grpc_handle = u }) es g)
        (filestore.Server.step T grpc s.grpc_handle e) h
    where
      going :
          ((u : Service T)
            → filestore.Server.Lifecycle.run T L grpc u es ≡ some g
            → run T L (record s { grpc_handle = u }) (map grpc_runs es)
              ≡ some (record s { grpc_handle = g }))
          → (o : Option (Service T))
          → (elim o [ none ↦ none | some u ↦ filestore.Server.Lifecycle.run T L grpc u es ])
            ≡ some g
          → (elim (elim o as (λ x. Option (System T)) [
            | none ↦ none
            | some u ↦ some (record s { grpc_handle = u })
          ]) [ none ↦ none | some t ↦ run T L t (map grpc_runs es) ])
            ≡ some (record s { grpc_handle = g })
      going later none e = cc
      going later (some u) e = later u e

  run-http :
      (s : System T) (es : List Event) (g : Service T)
      → filestore.Server.Lifecycle.run T L rest s.http_handle es ≡ some g
      → run T L s (map http_runs es) ≡ some (record s { http_handle = g })
  unfolding step bind
  run-http s [] g h = ap (λ o. bind o λ u. some (record s { http_handle = u })) h
  run-http s (e ∷ es) g h =
      going (λ u. run-http (record s { http_handle = u }) es g)
        (filestore.Server.step T rest s.http_handle e) h
    where
      going :
          ((u : Service T)
            → filestore.Server.Lifecycle.run T L rest u es ≡ some g
            → run T L (record s { http_handle = u }) (map http_runs es)
              ≡ some (record s { http_handle = g }))
          → (o : Option (Service T))
          → (elim o [ none ↦ none | some u ↦ filestore.Server.Lifecycle.run T L rest u es ])
            ≡ some g
          → (elim (elim o as (λ x. Option (System T)) [
            | none ↦ none
            | some u ↦ some (record s { http_handle = u })
          ]) [ none ↦ none | some t ↦ run T L t (map http_runs es) ])
            ≡ some (record s { http_handle = g })
      going later none e = cc
      going later (some u) e = later u e

  -- `shutdown` on a handle that still has its sender, while the main task waits, can always be
  -- followed by steps that bring everything to its end: the application is not running, whoever
  -- waits for the shutdown returns, and both server tasks have finished.
  pub shutdown_finishes :
      (s : System T)
      → s.main ≡ awaiting
      → s.caller ≡ idle
      → s.shutdown_tx ≡ some tt
      → T.received s.shutdown_channel ≡ pending
      → (more : List Action) × (t : System T) × (run T L s (shutdown_actions T L ++ more) ≡ some t)
        × (t.running ≡ false)
        × (wait_for_shutdown T t ≡ ready tt)
        × (is_finished T t.grpc_handle ≡ true)
        × (is_finished T t.http_handle ≡ true)
  unfolding wait_for_shutdown
  shutdown_finishes s m c x r =
      let (t, told, (over, off, waits, grpc_told, http_told)) =
        shutdown_tells_servers T L s m c x r in
      let (gs, g, grpc_run, grpc_done) = cancelled_completes T L grpc t.grpc_handle grpc_told in
      let (hs, h, http_run, http_done) = cancelled_completes T L rest t.http_handle http_told in
      (
        map grpc_runs gs ++ map http_runs hs,
        record t { grpc_handle = g; http_handle = h },
        run-append s t (shutdown_actions T L) (map grpc_runs gs ++ map http_runs hs) told
            ∙ run-append t (record t { grpc_handle = g }) (map grpc_runs gs) (map http_runs hs)
                (run-grpc t gs g grpc_run)
            ∙ run-http (record t { grpc_handle = g }) hs h http_run,
        off,
        waits,
        grpc_done,
        http_done,
      )
