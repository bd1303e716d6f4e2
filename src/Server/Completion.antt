-- ===== src/Server/Completion.antt =====
-- After `shutdown` all tasks can end, and then `wait_for_stop` returns.
use mathlib.Core.List.{append_assoc}
use filestore.Base.{
  ℕ, suc, ◌≡◌, ◌≢◌, refl, ap, sym, ◌∙◌, Bool, true, List, [], ◌∷◌, ◌++◌, map, Option, none, some,
  All, length, length-append, arith,
}
use filestore.Tokio.{Tokio, IsLawful}
use filestore.Server.{
  ServerKind, Event, reporter_returns, TaskState, running, finished, failed, Poll, ready, Service,
  step, end_reporter, shutdown, is_finished, wait_for_stop,
}
use filestore.Server.Lifecycle.{run, cancelled_completes}
use filestore.Server.Stop.{JoinsAll, AllDone, wait_for_stop_iff}

-- What a readiness task is once it has been let return.
abbrev settled : TaskState → TaskState
settled running = finished
settled r = r

end_reporter_at :
    (over : List TaskState) (r : TaskState) (rs : List TaskState)
    → end_reporter finished (length over) (over ++ r ∷ rs) ≡ over ++ settled r ∷ rs
unfolding end_reporter
end_reporter_at [] running rs = refl
end_reporter_at [] finished rs = refl
end_reporter_at [] failed rs = refl
end_reporter_at (o ∷ over) r rs = ap (λ l. o ∷ l) (end_reporter_at over r rs)

settled-All : (rs : List TaskState) → All (λ r. r ≢ running) (map settled rs)
settled-All [] = tt
settled-All (running ∷ rs) = (λ e. cc, settled-All rs)
settled-All (finished ∷ rs) = (λ e. cc, settled-All rs)
settled-All (failed ∷ rs) = (λ e. cc, settled-All rs)

-- The tasks from a place on return, one after the other.
abbrev returns_from : ℕ → List TaskState → List Event
returns_from n [] = []
returns_from n (r ∷ rs) = reporter_returns n ∷ returns_from (suc n) rs

module _ (T : Tokio) (L : IsLawful T) where
  with_reporters : Service T → List TaskState → Service T
  with_reporters s rs = record s { reporter_handles = rs }

  run-returns :
      (k : ServerKind) (s : Service T) (over rs : List TaskState)
      → run T L k (with_reporters s (over ++ rs)) (returns_from (length over) rs)
        ≡ some (with_reporters s (over ++ map settled rs))
  unfolding with_reporters step
  run-returns k s over [] = refl
  run-returns k s over (r ∷ rs) =
      let next : List TaskState = over ++ settled r ∷ [] in
      let longer : suc (length over) ≡ length next =
        omega (arith, length-append over (settled r ∷ [])) in
      ap (λ l. run T L k (with_reporters s l) (returns_from (suc (length over)) rs))
        (end_reporter_at over r rs ∙ sym (append_assoc over (settled r ∷ []) rs))
      ∙ ap (λ n. run T L k (with_reporters s (next ++ rs)) (returns_from n rs)) longer
      ∙ run-returns k s next rs
      ∙ ap (λ l. some (with_reporters s l)) (append_assoc over (settled r ∷ []) (map settled rs))

  run-append :
      (k : ServerKind) (s t : Service T) (first more : List Event)
      → run T L k s first ≡ some t
      → run T L k s (first ++ more) ≡ run T L k t more
  run-append k s t [] more h = ap (λ o. elim o [ none ↦ none | some u ↦ run T L k u more ]) h
  run-append k s t (e ∷ first) more h = going (λ u. run-append k u t first more) (step T k s e) h
    where
      going :
          ((u : Service T)
            → run T L k u first ≡ some t
            → run T L k u (first ++ more) ≡ run T L k t more)
          → (o : Option (Service T))
          → (elim o [ none ↦ none | some u ↦ run T L k u first ]) ≡ some t
          → (elim o [ none ↦ none | some u ↦ run T L k u (first ++ more) ]) ≡ run T L k t more
      going later none e = cc
      going later (some u) e = later u e

  -- After `shutdown`, from any state, there are steps of the server task and of the readiness
  -- tasks after which all of them have ended and `wait_for_stop`, with a `join_all` that joins all
  -- its futures, returns.
  pub wait_for_stop_returns :
      (k : ServerKind) (s : Service T) (join_all : List (Poll Bool) → Poll (List Bool))
      → JoinsAll join_all
      → (es : List Event) × (t : Service T) × (run T L k (shutdown T s) es ≡ some t)
        × AllDone T t
        × (wait_for_stop T join_all t ≡ ready tt)
  unfolding with_reporters is_finished
  wait_for_stop_returns k s join_all law =
      let cancelled : T.is_cancelled (shutdown T s).cancellation_token ≡ true =
        unfold shutdown in L.cancel_cancels s.cancellation_token in
      let (es, t, server_ends, over) = cancelled_completes T L k (shutdown T s) cancelled in
      let done : AllDone T (with_reporters t (map settled t.reporter_handles)) =
        (over, settled-All t.reporter_handles) in
      (
        es ++ returns_from 0 t.reporter_handles,
        with_reporters t (map settled t.reporter_handles),
        run-append k (shutdown T s) t es (returns_from 0 t.reporter_handles) server_ends
            ∙ run-returns k t [] t.reporter_handles,
        done,
        (wait_for_stop_iff T join_all _ law).0.1 done,
      )
