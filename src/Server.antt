-- ===== src/Server.antt =====
-- crates/server/src/lib.rs: `ServiceHandler` with the server task that it controls.
-- `Service` is what the handler and its tasks share. The steps of the server task are those of the
-- blocks that http.rs and grpc.rs spawn.
pub mod Lifecycle
pub mod Stop
pub mod Reporters
pub mod Completion
pub mod Schedules
pub mod Rest
pub mod Grpc
pub mod Hello
pub mod Configs
use filestore.Base.{
  ℕ, zero, suc, Bool, true, false, List, [], ◌∷◌, ◌++◌, map, Option, none, some, if◌then◌else◌,
}
use filestore.Text.{Text}
use filestore.Errors
use filestore.Tokio.{Tokio, Received, pending, arrived, closed}

-- The error of the parser of socket addresses: there is one.
pub data AddrParseError : Type 0 where
  socket_addr : AddrParseError

-- The error type of the two start functions is that of the common crate; an error of input and
-- output, which they never give, is its text.
abbrev pub Error : Type 0
Error = filestore.Errors.Error Text AddrParseError

-- The outcome of a future that has been polled.
pub data Poll {ℓ} (A : Type ℓ) : Type ℓ where
  waiting : Poll A
  panics : Poll A
  ready : A → Poll A

-- Where the server task stands. REST binds its listener in the task, and gRPC in `serve_with_shutdown`.
pub data Phase : Type 0 where
  binding bound serving stopping completed panicked : Phase

-- What a readiness task has come to.
pub data TaskState : Type 0 where
  running finished failed : TaskState

pub data ServerKind : Type 0 where
  rest grpc : ServerKind

-- What the runtime and the peers do to the server task and the readiness tasks.
pub data Event : Type 0 where
  bind_succeeds bind_fails shutdown_future_polled cancellation_seen connections_drained : Event
  reporter_returns reporter_panics : ℕ → Event

-- The readiness task at a place ends, if it runs.
end_reporter : TaskState → ℕ → List TaskState → List TaskState
end_reporter outcome n [] = []
end_reporter outcome zero (running ∷ rs) = outcome ∷ rs
end_reporter outcome zero (r ∷ rs) = r ∷ rs
end_reporter outcome (suc n) (r ∷ rs) = r ∷ end_reporter outcome n rs

module _ (T : Tokio) where
  open T use {Token, new_token, cancel, is_cancelled, Oneshot, channel, send, drop_sender, received}

  pub record Service : Type 0 where
    -- `join_handle`: the server task
    pub join_handle : Phase
    -- shared with the task
    pub cancellation_token : Token
    -- the channel whose sender is in the task
    pub started : Oneshot
    -- whether the handler still has the receiver
    pub started_rx : Option (Unit {0})
    pub reporter_handles : List TaskState

  -- The handler that both start functions return, with their tasks just spawned.
  unfoldable pub spawned : List TaskState → Service
  spawned reporters = record {
    join_handle = binding;
    cancellation_token = new_token;
    started = channel;
    started_rx = some tt;
    reporter_handles = reporters;
  }

  -- A failed bind: `unwrap` panics in the REST task, and the gRPC task logs the error and ends.
  -- Both drop the sender.
  fail : ServerKind → Service → Service
  fail rest s = record s { join_handle = panicked; started = drop_sender s.started }
  fail grpc s = record s { join_handle = completed; started = drop_sender s.started }

  -- The first poll of the shutdown future reports the start.
  report_start : Service → Service
  report_start s = record s { join_handle = serving; started = send s.started }

  dispatch : ServerKind → Phase → Event → Service → Option Service
  unfolding fail report_start
  dispatch k binding bind_succeeds s = some (record s { join_handle = bound })
  dispatch k binding bind_fails s = some (fail k s)
  dispatch k bound shutdown_future_polled s = some (report_start s)
  dispatch k serving cancellation_seen s =
      if is_cancelled s.cancellation_token then some (record s { join_handle = stopping }) else none
  dispatch k stopping connections_drained s = some (record s { join_handle = completed })
  dispatch k _ _ s = none

  -- One step of the server task or of a readiness task; `none` if it is not possible now.
  unfoldable pub step : ServerKind → Service → Event → Option Service
  unfolding dispatch end_reporter
  step k s (reporter_returns n) =
      some (record s { reporter_handles = end_reporter finished n s.reporter_handles })
  step k s (reporter_panics n) =
      some (record s { reporter_handles = end_reporter failed n s.reporter_handles })
  step k s e = dispatch k s.join_handle e s

  await_start : Received → Poll (Unit {0})
  await_start pending = waiting
  await_start arrived = ready tt
  await_start closed = panics

  -- The receiver is taken at the first poll, whatever comes of it.
  unfoldable pub wait_for_start : Service → Service × Poll (Unit {0})
  unfolding await_start
  wait_for_start s =
      let taken = record s { started_rx = none } in
      elim s.started_rx [ none ↦ (s, panics) | some _ ↦ (taken, await_start (received s.started)) ]

  unfoldable pub shutdown : Service → Service
  shutdown s = record s { cancellation_token = cancel s.cancellation_token }

  -- A task that has panicked is finished too.
  unfoldable pub is_done : Phase → Bool
  is_done completed = true
  is_done panicked = true
  is_done _ = false

  unfoldable pub is_finished : Service → Bool
  unfolding is_done
  is_finished s = is_done s.join_handle

  -- What awaiting a `JoinHandle` gives: whether the task ended without a panic.
  unfoldable pub join_server : Phase → Poll Bool
  join_server completed = ready true
  join_server panicked = ready false
  join_server _ = waiting

  unfoldable pub join_reporter : TaskState → Poll Bool
  join_reporter running = waiting
  join_reporter finished = ready true
  join_reporter failed = ready false

  -- The reporters first, the server last.
  joins : Service → List (Poll Bool)
  unfolding join_server join_reporter
  joins s = map join_reporter s.reporter_handles ++ join_server s.join_handle ∷ []

  forget : Poll (List Bool) → Poll (Unit {0})
  forget waiting = waiting
  forget panics = panics
  forget (ready results) = ready tt

  -- `join_all` of the futures crate is a parameter. Its results are dropped.
  unfoldable pub wait_for_stop : (List (Poll Bool) → Poll (List Bool)) → Service → Poll (Unit {0})
  unfolding joins forget
  wait_for_stop join_all s = forget (join_all (joins s))
