-- ===== src/App/Schedules.antt =====
-- After a call of `shutdown`: what the program has left to do, and what each step leaves of it.
pub mod Progress
pub mod Ends
use native.Mathlib.Decide.{dec_lt}
use filestore.Base.{
  ℕ, zero, suc, ◌+◌, ◌≤◌, ◌<◌, ◌≡◌, ◌≢◌, ◌⊎◌, inl, inr, refl, ap, sym, ◌∙◌, Bool, true, false,
  Option, none, some, arith, length, Option-cases,
}
use filestore.Tokio.{Tokio, IsLawful, Received, pending, arrived, closed}
use filestore.Server.{Service, rest, grpc, Event, ready, is_finished}
use filestore.Server.Schedules.{left, step-left, can_step, over, left-le}
use filestore.App.{
  MainTask, awaiting, clearing, cancelling, stopping_grpc, stopping_http, ended, aborted, Caller,
  idle, cancel_next, send_next, gone, Action, ctrl_c, terminate, handler_fails, shutdown_received,
  main_continues, shutdown_called, caller_continues, handle_dropped, grpc_runs, http_runs, System,
  step, wait_for_shutdown,
}
use filestore.App.Shutdown.{IsConsistent}
use filestore.App.Reachable.{step-IsConsistent}

-- The statements that the main task and a caller of `shutdown` have left.
abbrev pub main_left : MainTask → ℕ
main_left awaiting = 5
main_left clearing = 4
main_left cancelling = 3
main_left stopping_grpc = 2
main_left stopping_http = 1
main_left _ = 0

abbrev pub caller_left : Caller → ℕ
caller_left cancel_next = 2
caller_left send_next = 1
caller_left _ = 0

-- What the program does by itself, and the two signals. The owner of the handle calls nothing
-- more, and the handler of the signals does not fail.
abbrev pub IsOwn : Action → Type 0
IsOwn shutdown_called = ⊥
IsOwn handle_dropped = ⊥
IsOwn handler_fails = ⊥
IsOwn _ = Unit {0}

-- While the call of `shutdown` goes on the channel is empty, and afterwards the message is there, if
-- the main task still waits for it.
abbrev pub Asked : MainTask → Caller → Option (Unit {0}) → Received → Type 0
Asked m cancel_next tx r = (tx ≡ some tt) × (r ≡ pending)
Asked m send_next tx r = (tx ≡ some tt) × (r ≡ pending)
Asked m idle tx r = m ≡ awaiting → r ≡ arrived
Asked m gone tx r = ⊥

-- It does not matter where the main task goes on to.
still_answered :
    (m m' : MainTask) (c : Caller) (tx : Option (Unit {0})) (r : Received)
    → m' ≢ awaiting
    → Asked m c tx r
    → Asked m' c tx r
still_answered m m' idle tx r on a = λ e. absurd (on e)
still_answered m m' cancel_next tx r on a = a
still_answered m m' send_next tx r on a = a
still_answered m m' gone tx r on a = a

module _ (T : Tokio) (L : IsLawful T) where
  abbrev pub all_left : System T → ℕ
  all_left s =
      main_left s.main + caller_left s.caller + left T L s.grpc_handle + left T L s.http_handle

  abbrev pub IsAsked : System T → Type 0
  IsAsked s =
      IsConsistent T L s
      × Asked s.main s.caller s.shutdown_tx (T.received s.shutdown_channel)
      × (s.main ≢ aborted)

  grpc-all_left :
      (s t : System T) (e : Event)
      → step T s (grpc_runs e) ≡ some t
      → (t ≡ s) ⊎ (all_left t < all_left s)
  unfolding step
  grpc-all_left s t e h = elim (Option-cases (filestore.Server.step T grpc s.grpc_handle e)) [
    | inl stuck ↦ ground arith
    | inr (g, runs) ↦ ground (arith, (step-left T L grpc s.grpc_handle g e runs).0)
  ]

  http-all_left :
      (s t : System T) (e : Event)
      → step T s (http_runs e) ≡ some t
      → (t ≡ s) ⊎ (all_left t < all_left s)
  unfolding step
  http-all_left s t e h = elim (Option-cases (filestore.Server.step T rest s.http_handle e)) [
    | inl stuck ↦ ground arith
    | inr (g, runs) ↦ ground (arith, (step-left T L rest s.http_handle g e runs).0)
  ]

  -- The main task goes on when the message has arrived.
  received_wakes :
      (s t : System T)
      → step T s shutdown_received ≡ some t
      → (s.main ≡ awaiting) × (t ≡ record s { main = clearing })
  unfolding step
  received_wakes s t h = ground arith

  received-all_left :
      (s t : System T) → step T s shutdown_received ≡ some t → all_left t < all_left s
  received-all_left s t h =
      let (at, next) = received_wakes s t h in omega (arith, ap main_left at, ap all_left next)

  main-all_left : (s t : System T) → step T s main_continues ≡ some t → all_left t < all_left s
  unfolding step filestore.Server.shutdown
  main-all_left s t h = ground arith

  pub step-all_left :
      (s t : System T) (a : Action)
      → IsOwn a
      → step T s a ≡ some t
      → (t ≡ s) ⊎ (all_left t < all_left s)
  unfolding step
  step-all_left s t ctrl_c own h = ground arith
  step-all_left s t terminate own h = ground arith
  step-all_left s t handler_fails own h = absurd own
  step-all_left s t shutdown_received own h = inr (received-all_left s t h)
  step-all_left s t main_continues own h = inr (main-all_left s t h)
  step-all_left s t shutdown_called own h = absurd own
  step-all_left s t caller_continues own h = ground arith
  step-all_left s t handle_dropped own h = absurd own
  step-all_left s t (grpc_runs e) own h = grpc-all_left s t e h
  step-all_left s t (http_runs e) own h = http-all_left s t e h

  -- A step of a server changes nothing else.
  grpc_next :
      (s t : System T) (e : Event)
      → step T s (grpc_runs e) ≡ some t
      → (g : Service T) × (t ≡ record s { grpc_handle = g })
  unfolding step
  grpc_next s t e h = elim (Option-cases (filestore.Server.step T grpc s.grpc_handle e)) [
    | inl stuck ↦ ground arith
    | inr (g, runs) ↦ (g, ground arith)
  ]

  http_next :
      (s t : System T) (e : Event)
      → step T s (http_runs e) ≡ some t
      → (g : Service T) × (t ≡ record s { http_handle = g })
  unfolding step
  http_next s t e h = elim (Option-cases (filestore.Server.step T rest s.http_handle e)) [
    | inl stuck ↦ ground arith
    | inr (g, runs) ↦ (g, ground arith)
  ]

  step-Asked :
      (s t : System T) (a : Action)
      → IsOwn a
      → step T s a ≡ some t
      → Asked s.main s.caller s.shutdown_tx (T.received s.shutdown_channel)
      → Asked t.main t.caller t.shutdown_tx (T.received t.shutdown_channel)
  unfolding step
  step-Asked s t ctrl_c own h a = ground arith
  step-Asked s t terminate own h a = ground arith
  step-Asked s t handler_fails own h a = absurd own
  step-Asked s t shutdown_received own h a =
      let (at, next) = received_wakes s t h in
      rw next (still_answered s.main clearing s.caller s.shutdown_tx _ (λ e. cc) a)
  step-Asked s t main_continues own h a = ground arith
  step-Asked s t shutdown_called own h a = absurd own
  step-Asked s t caller_continues own h a = ground (arith, L.received-send s.shutdown_channel)
  step-Asked s t handle_dropped own h a = absurd own
  step-Asked s t (grpc_runs e) own h a = let (g, next) = grpc_next s t e h in rw next a
  step-Asked s t (http_runs e) own h a = let (g, next) = http_next s t e h in rw next a

  stays_awake :
      (s t : System T) (a : Action)
      → IsOwn a
      → step T s a ≡ some t
      → s.main ≢ aborted
      → t.main ≢ aborted
  unfolding step
  stays_awake s t ctrl_c own h m = ground arith
  stays_awake s t terminate own h m = ground arith
  stays_awake s t handler_fails own h m = absurd own
  stays_awake s t shutdown_received own h m =
      let (at, next) = received_wakes s t h in rw next (λ e. cc)
  stays_awake s t main_continues own h m = ground arith
  stays_awake s t shutdown_called own h m = absurd own
  stays_awake s t caller_continues own h m = ground arith
  stays_awake s t handle_dropped own h m = absurd own
  stays_awake s t (grpc_runs e) own h m = let (g, next) = grpc_next s t e h in rw next m
  stays_awake s t (http_runs e) own h m = let (g, next) = http_next s t e h in rw next m

  pub step-IsAsked :
      (s t : System T) (a : Action) → IsOwn a → step T s a ≡ some t → IsAsked s → IsAsked t
  step-IsAsked s t a own h (consistent, asked, awake) = (
    step-IsConsistent T L s t a h consistent,
    step-Asked s t a own h asked,
    stays_awake s t a own h awake,
  )
