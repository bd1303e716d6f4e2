-- ===== src/Logging/Setup/Second.antt =====
-- `init_global_logging` called again.
use filestore.Base.{◌≡◌, ◌⊎◌, inl, inr, refl, List, [], Option, none, some}
use filestore.Text.{Text}
use filestore.Logging.{
  LoggingOptions, TracingOptions, Writer, Once, incomplete, complete, poisoned, Globals, Telemetry,
}
use filestore.Logging.Setup.{init_global_logging, call_once, settle, closure, Outcome}

module _ (M : Telemetry) where
  Repeats : Text → Option Text → LoggingOptions → TracingOptions → Outcome M (List Writer) → Type 0
  Repeats app_name node_id o t (after, first) =
      let (later, second) = init_global_logging M app_name node_id o t after in
      (later ≡ after)
      × (((first ≡ none) × (second ≡ none))
          ⊎ ((guards : List Writer) × (first ≡ some guards) × (second ≡ some [])))

  settle-Repeats :
      (app_name : Text) (node_id : Option Text) (o : LoggingOptions) (t : TracingOptions)
      (x : Outcome M (List Writer))
      → Repeats app_name node_id o t (settle M x)
  unfolding Repeats settle init_global_logging call_once
  settle-Repeats app_name node_id o t (g, none) = (refl, inl (refl, refl))
  settle-Repeats app_name node_id o t (g, some guards) = (refl, inr (_, refl, refl))

  call-Repeats :
      (app_name app_name' : Text) (node_id node_id' : Option Text) (o o' : LoggingOptions)
      (t t' : TracingOptions) (g : Globals M.Targets) (once : Once)
      → g.once ≡ once
      → Repeats app_name' node_id' o' t' (call_once M once app_name node_id o t g)
  unfolding Repeats init_global_logging call_once
  call-Repeats a a' n n' o o' t t' g incomplete h = settle-Repeats a' n' o' t' (closure M a n o t g)
  call-Repeats a a' n n' o o' t t' g complete h = rw h (refl, inr (_, refl, refl))
  call-Repeats a a' n n' o o' t t' g poisoned h = rw h (refl, inl (refl, refl))

  -- A second call changes nothing, whatever its arguments. It returns no guards if the first call
  -- returned, and it panics if the first call panicked.
  pub second_call :
      (app_name app_name' : Text) (node_id node_id' : Option Text) (o o' : LoggingOptions)
      (t t' : TracingOptions) (g : Globals M.Targets)
      → let (after, first) = init_global_logging M app_name node_id o t g in
        let (later, second) = init_global_logging M app_name' node_id' o' t' after in
        (later ≡ after)
        × (((first ≡ none) × (second ≡ none))
            ⊎ ((guards : List Writer) × (first ≡ some guards) × (second ≡ some [])))
  unfolding Repeats init_global_logging
  second_call a a' n n' o o' t t' g = call-Repeats a a' n n' o o' t t' g g.once refl
