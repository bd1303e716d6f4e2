-- ===== src/Server/Lifecycle.antt =====
-- From the spawned server task to its end: what the handler sees at each point.
use filestore.Base.{◌≡◌, ◌⊎◌, Bool, true, false, List, [], ◌∷◌, Option, none, some, arith}
use filestore.Tokio.{Tokio, IsLawful, Received, pending, arrived, closed}
use filestore.Server.{
  Phase, binding, bound, serving, stopping, completed, panicked, TaskState, ServerKind, rest, grpc,
  Event, bind_succeeds, bind_fails, shutdown_future_polled, cancellation_seen, connections_drained,
  Poll, waiting, panics, ready, Service, spawned, step, wait_for_start, shutdown, is_finished,
}

-- What the start channel and the token are at each phase.
abbrev pub Consistent : ServerKind → Phase → Received → Bool → Type 0
Consistent k binding r c = r ≡ pending
Consistent k bound r c = r ≡ pending
Consistent k serving r c = r ≡ arrived
Consistent k stopping r c = (r ≡ arrived) × (c ≡ true)
Consistent k completed r c = ((r ≡ arrived) × (c ≡ true)) ⊎ ((k ≡ grpc) × (r ≡ closed))
Consistent k panicked r c = (k ≡ rest) × (r ≡ closed)

module _ (T : Tokio) (L : IsLawful T) where
  open T use {is_cancelled, received}

  abbrev pub IsConsistent : ServerKind → Service T → Type 0
  IsConsistent k s =
      Consistent k s.join_handle (received s.started) (is_cancelled s.cancellation_token)

  -- The states that the task, the runtime and the holder of the handler can reach.
  pub data Reach (k : ServerKind) (reporters : List TaskState) : Service T → Type 0 where
    start : Reach k reporters (spawned T reporters)
    runs :
        {s : Service T}
        → Reach k reporters s
        → (e : Event) (t : Service T) → step T k s e ≡ some t
        → Reach k reporters t
    awaits : {s : Service T} → Reach k reporters s → Reach k reporters (wait_for_start T s).0
    asks : {s : Service T} → Reach k reporters s → Reach k reporters (shutdown T s)

  step-IsConsistent :
      (k : ServerKind) (s t : Service T) (e : Event)
      → step T k s e ≡ some t
      → IsConsistent k s
      → IsConsistent k t
  unfolding step
  step-IsConsistent k s t e h c =
      ground (arith, L.received-send s.started, L.received-drop s.started)

  shutdown-IsConsistent :
      (k : ServerKind) (s : Service T) → IsConsistent k s → IsConsistent k (shutdown T s)
  unfolding shutdown
  shutdown-IsConsistent k s c = ground (arith, L.cancel_cancels s.cancellation_token)

  wait_for_start-IsConsistent :
      (k : ServerKind) (s : Service T) → IsConsistent k s → IsConsistent k (wait_for_start T s).0
  unfolding wait_for_start
  wait_for_start-IsConsistent k s c = ground arith

  spawned-IsConsistent : (k : ServerKind) (rs : List TaskState) → IsConsistent k (spawned T rs)
  unfolding spawned
  spawned-IsConsistent k rs = L.received-channel

  -- In every reachable state the start channel and the token agree with where the server task
  -- stands: a start is reported only after the bind, a graceful stop begins only after `shutdown`,
  -- and a server that could not bind has closed the channel, having panicked under REST only.
  pub Reach-IsConsistent :
      {k : ServerKind} {rs : List TaskState} {s : Service T} → Reach k rs s → IsConsistent k s
  Reach-IsConsistent {k} {rs} start = spawned-IsConsistent k rs
  Reach-IsConsistent {k} (runs {s = s} r e t h) = step-IsConsistent k s t e h (Reach-IsConsistent r)
  Reach-IsConsistent {k} (awaits {s = s} r) = wait_for_start-IsConsistent k s (Reach-IsConsistent r)
  Reach-IsConsistent {k} (asks {s = s} r) = shutdown-IsConsistent k s (Reach-IsConsistent r)

  -- Whether the bind has failed on the way to a state.
  abbrev pub fails_at : Event → Bool → Bool
  fails_at bind_fails earlier = true
  fails_at _ earlier = earlier

  abbrev pub bind_failed :
      {k : ServerKind} {rs : List TaskState} {s : Service T} → Reach k rs s → Bool
  bind_failed start = false
  bind_failed (runs r e t h) = fails_at e (bind_failed r)
  bind_failed (awaits r) = bind_failed r
  bind_failed (asks r) = bind_failed r

  -- The channel by whether the bind has failed, which ends the server task, and by where it stands.
  abbrev Tells : Bool → Phase → Received → Type 0
  Tells true completed r = r ≡ closed
  Tells true panicked r = r ≡ closed
  Tells true _ r = ⊥
  Tells false binding r = r ≡ pending
  Tells false bound r = r ≡ pending
  Tells false panicked r = ⊥
  Tells false _ r = r ≡ arrived

  step-Tells :
      (k : ServerKind) (s t : Service T) (e : Event) (b : Bool)
      → step T k s e ≡ some t
      → Tells b s.join_handle (received s.started)
      → Tells (fails_at e b) t.join_handle (received t.started)
  unfolding step
  step-Tells k s t e true h c = ground (arith, L.received-send s.started, L.received-drop s.started)
  step-Tells k s t e false h c =
      ground (arith, L.received-send s.started, L.received-drop s.started)

  wait-Tells :
      (s : Service T) (b : Bool)
      → Tells b s.join_handle (received s.started)
      → Tells b (wait_for_start T s).0.join_handle (received (wait_for_start T s).0.started)
  unfolding wait_for_start
  wait-Tells s b c = ground arith

  Reach-Tells :
      {k : ServerKind} {rs : List TaskState} {s : Service T} (r : Reach k rs s)
      → Tells (bind_failed r) s.join_handle (received s.started)
  unfolding spawned shutdown
  Reach-Tells start = L.received-channel
  Reach-Tells {k} (runs {s = s} r e t h) = step-Tells k s t e (bind_failed r) h (Reach-Tells r)
  Reach-Tells (awaits {s = s} r) = wait-Tells s (bind_failed r) (Reach-Tells r)
  Reach-Tells (asks r) = Reach-Tells r

  -- What the first wait for the start comes to, by whether the bind has failed and by where the
  -- server task stands.
  abbrev pub StartOutcome : Bool → Phase → Poll (Unit {0}) → Type 0
  StartOutcome true p w = w ≡ panics
  StartOutcome false binding w = w ≡ waiting
  StartOutcome false bound w = w ≡ waiting
  StartOutcome false _ w = w ≡ ready tt

  first_outcome :
      (s : Service T) (b : Bool)
      → Tells b s.join_handle (received s.started)
      → s.started_rx ≡ some tt
      → StartOutcome b s.join_handle (wait_for_start T s).1
  unfolding wait_for_start
  first_outcome s true c e = ground arith
  first_outcome s false c e = ground arith

  again : (s : Service T) → (wait_for_start T (wait_for_start T s).0).1 ≡ panics
  unfolding wait_for_start
  again s = ground arith

  -- In a state that is reached with the receiver not yet taken, `wait_for_start` panics if the bind
  -- has failed on the way there, under REST and under gRPC. Otherwise it waits until the server has
  -- reported its start, and returns from then on. A second call panics, even if the first is still
  -- waiting.
  pub wait_for_start_lem :
      {k : ServerKind} {rs : List TaskState} {s : Service T} (r : Reach k rs s)
      → s.started_rx ≡ some tt
      → StartOutcome (bind_failed r) s.join_handle (wait_for_start T s).1
        × ((wait_for_start T (wait_for_start T s).0).1 ≡ panics)
  wait_for_start_lem {s = s} r e = (first_outcome s (bind_failed r) (Reach-Tells r) e, again s)

  -- The steps that are left from a phase once shutdown has been asked for.
  abbrev to_the_end : Phase → List Event
  to_the_end binding =
      bind_succeeds ∷ shutdown_future_polled ∷ cancellation_seen ∷ connections_drained ∷ []
  to_the_end bound = shutdown_future_polled ∷ cancellation_seen ∷ connections_drained ∷ []
  to_the_end serving = cancellation_seen ∷ connections_drained ∷ []
  to_the_end stopping = connections_drained ∷ []
  to_the_end _ = []

  abbrev last_phase : Phase → Phase
  last_phase panicked = panicked
  last_phase _ = completed

  abbrev last_started : Phase → T.Oneshot → T.Oneshot
  last_started binding c = T.send c
  last_started bound c = T.send c
  last_started _ c = c

  abbrev last_state : Service T → Service T
  last_state s = record s {
    join_handle = last_phase s.join_handle;
    started = last_started s.join_handle s.started;
  }

  -- The state after a list of events, each of which must be possible.
  abbrev pub run : ServerKind → Service T → List Event → Option (Service T)
  run k s [] = some s
  run k s (e ∷ es) = elim (step T k s e) [ none ↦ none | some t ↦ run k t es ]

  -- With a cancelled token the server task can run to its end from any state, at most four steps
  -- away.
  pub cancelled_completes :
      (k : ServerKind) (s : Service T)
      → is_cancelled s.cancellation_token ≡ true
      → (es : List Event) × (t : Service T) × (run k s es ≡ some t) × (is_finished T t ≡ true)
  unfolding step is_finished
  cancelled_completes k s h = (to_the_end s.join_handle, last_state s, ground arith, ground arith)
