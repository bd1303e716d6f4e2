-- ===== src/PanicHook/Deadlocks.antt =====
-- crates/common/src/telemetry/panic_hook.rs with the feature `deadlock_detection`: the loop of the
-- thread that `set_panic_hook` spawns. What `check_deadlock` of parking_lot finds is given, one
-- answer for each round of the loop.
use mathlib.Core.List.{append_assoc}
use filestore.Base.{
  ℕ, suc, ◌+◌, ◌≡◌, refl, ap, ◌∙◌, arith, List, [], ◌∷◌, ◌++◌, length, length-append,
}
use filestore.Text.{Text, codes, decimal}

-- A `DeadlockedThread`, with the texts that `{:#?}` makes of its id and its backtrace.
pub record DeadlockedThread : Type 0 where
  pub thread_id : Text
  pub backtrace : Text

abbrev pub Deadlock : Type 0
Deadlock = List DeadlockedThread

-- What the thread does: it sleeps for some seconds, asks for deadlocks, logs a line.
pub data Action : Type 0 where
  sleep : ℕ → Action
  check_deadlock : Action
  info : Text → Action

unfoldable pub log_threads : Deadlock → List Action
log_threads [] = []
log_threads (t ∷ threads) =
    info (codes "Thread Id " ++ t.thread_id) ∷ info t.backtrace ∷ log_threads threads

-- `deadlocks.iter().enumerate()`, from an index on
unfoldable pub log_deadlocks : ℕ → List Deadlock → List Action
unfolding log_threads
log_deadlocks i [] = []
log_deadlocks i (threads ∷ deadlocks) =
    info (codes "Deadlock #" ++ decimal i)
    ∷ (log_threads threads ++ log_deadlocks (suc i) deadlocks)

unfoldable pub report : List Deadlock → List Action
unfolding log_deadlocks
report [] = []
report (d ∷ ds) =
    info (decimal (length (d ∷ ds)) ++ codes " deadlocks detected") ∷ log_deadlocks 0 (d ∷ ds)

-- The rounds of the loop, which never ends by itself.
unfoldable pub watch : List (List Deadlock) → List Action
unfolding report
watch [] = []
watch (found ∷ rounds) = sleep 5 ∷ check_deadlock ∷ (report found ++ watch rounds)

log_deadlocks-append :
    (i : ℕ) (xs ys : List Deadlock)
    → log_deadlocks i (xs ++ ys) ≡ log_deadlocks i xs ++ log_deadlocks (i + length xs) ys
unfolding log_deadlocks
log_deadlocks-append i [] ys = ap (λ k. log_deadlocks k ys) (omega arith)
log_deadlocks-append i (x ∷ xs) ys =
    let shift : suc i + length xs ≡ i + suc (length xs) = omega arith in
    rw (log_deadlocks-append (suc i) xs ys, shift, append_assoc)

watch-append : (xs ys : List (List Deadlock)) → watch (xs ++ ys) ≡ watch xs ++ watch ys
unfolding watch
watch-append [] ys = refl
watch-append (x ∷ xs) ys = rw (watch-append xs ys, append_assoc)

abbrev pub flat_map {ℓ} : {A : Type ℓ} → (A → List Action) → List A → List Action
flat_map f [] = []
flat_map f (x ∷ xs) = f x ++ flat_map f xs

-- The lines of a deadlock: its place, and the id and the backtrace of each of its threads.
abbrev pub entry : ℕ → Deadlock → List Action
entry i threads =
    info (codes "Deadlock #" ++ decimal i)
    ∷ flat_map (λ t. info (codes "Thread Id " ++ t.thread_id) ∷ info t.backtrace ∷ []) threads

-- The lines of several, whose places are consecutive.
abbrev pub entries : ℕ → List Deadlock → List Action
entries i [] = []
entries i (d ∷ ds) = entry i d ++ entries (suc i) ds

log_threads-flat_map :
    (threads : Deadlock)
    → log_threads threads
      ≡ flat_map (λ t. info (codes "Thread Id " ++ t.thread_id) ∷ info t.backtrace ∷ []) threads
unfolding log_threads
log_threads-flat_map [] = refl
log_threads-flat_map (t ∷ threads) = rw (log_threads-flat_map threads)

log_deadlocks-entries : (i : ℕ) (ds : List Deadlock) → log_deadlocks i ds ≡ entries i ds
unfolding log_deadlocks
log_deadlocks-entries i [] = refl
log_deadlocks-entries i (d ∷ ds) = rw (log_threads-flat_map d, log_deadlocks-entries (suc i) ds)

-- The lines of a check that finds the deadlocks `before`, `threads` and `after`, in this order.
abbrev pub lines : List Deadlock → Deadlock → List Deadlock → List Action
lines before threads after =
    info (decimal (length before + suc (length after)) ++ codes " deadlocks detected")
    ∷ (entries 0 before ++ (entry (length before) threads ++ entries (suc (length before)) after))

-- The check finds something, whichever deadlock comes first.
report_found :
    (before after : List Deadlock) (threads : Deadlock)
    → report (before ++ threads ∷ after)
      ≡ info (decimal (length (before ++ threads ∷ after)) ++ codes " deadlocks detected")
        ∷ log_deadlocks 0 (before ++ threads ∷ after)
unfolding report
report_found [] after threads = refl
report_found (b ∷ before) after threads = refl

report-lines :
    (before after : List Deadlock) (threads : Deadlock)
    → report (before ++ threads ∷ after) ≡ lines before threads after
unfolding log_deadlocks
report-lines before after threads =
    let zero_add : 0 + length before ≡ length before = omega arith in
    report_found before after threads
    ∙ rw
        (
          length-append before (threads ∷ after),
          log_deadlocks-append 0 before (threads ∷ after),
          zero_add,
          log_deadlocks-entries 0 before,
          log_threads-flat_map threads,
          log_deadlocks-entries (suc (length before)) after,
        )
        refl

-- Every 5 seconds the thread asks for deadlocks. It logs their number and each of them under its
-- place in the answer, counted from 0, with the id and the backtrace of each of its threads; it
-- logs nothing when there are none.
pub deadlocks_logged :
    (earlier later : List (List Deadlock)) (before after : List Deadlock) (threads : Deadlock)
    → (watch (earlier ++ (before ++ threads ∷ after) ∷ later)
        ≡ watch earlier ++ sleep 5 ∷ check_deadlock ∷ (lines before threads after ++ watch later))
      × (watch (earlier ++ [] ∷ later) ≡ watch earlier ++ sleep 5 ∷ check_deadlock ∷ watch later)
unfolding watch report
deadlocks_logged earlier later before after threads = (
  watch-append earlier ((before ++ threads ∷ after) ∷ later)
      ∙ ap (λ found. watch earlier ++ sleep 5 ∷ check_deadlock ∷ (found ++ watch later))
          (report-lines before after threads),
  watch-append earlier ([] ∷ later),
)
