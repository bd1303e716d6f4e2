-- ===== src/PanicHook/Counted.antt =====
-- Every panic is reported, counted and handed on.
use filestore.Base.{
  Bool, ℕ, zero, suc, ◌+◌, ◌*◌, ◌%◌, ◌^◌, ◌≡◌, refl, ap, sym, ◌∙◌, true, false, List, [], ◌∷◌, ◌++◌,
  Option, none, some, arith, length,
}
use filestore.PanicHook.{
  PanicInfo, Metrics, inc, Effect, logged, counter_incremented, aborted, default_called, Hook,
  default_hook, set_panic_hook, on_panic,
}

-- The counter is registered, or can be.
abbrev pub IsFree : Metrics → Type 0
IsFree m = m.counter ≡ none → m.name_taken ≡ false

abbrev pub count : Metrics → ℕ
count m = elim m.counter [ none ↦ 0 | some n ↦ n ]

-- The metrics after some more panics have been counted.
abbrev pub added : ℕ → Metrics → Metrics
added zero m = m
added (suc k) m = record m { counter = some ((count m + suc k) % 2 ^ 64) }

abbrev pub metrics : Option ℕ → Bool → Metrics
metrics counter taken = record { counter = counter; name_taken = taken }

inc_fields :
    (counter : Option ℕ) (taken : Bool)
    → IsFree (metrics counter taken)
    → inc (metrics counter taken) ≡ some (added 1 (metrics counter taken))
unfolding inc
inc_fields (some n) taken h = refl
inc_fields none taken h = rw (h refl) refl

inc-added : (m : Metrics) → IsFree m → inc m ≡ some (added 1 m)
inc-added m h = inc_fields m.counter m.name_taken h

added-IsFree : (k : ℕ) (m : Metrics) → IsFree m → IsFree (added k m)
added-IsFree zero m h = h
added-IsFree (suc k) m h = λ e. cc

added-add : (a b : ℕ) (m : Metrics) → added a (added b m) ≡ added (b + a) m
added-add zero b m = ap (λ (k : ℕ). added k m) (omega arith)
added-add (suc a) zero m =
    let sum : suc a ≡ 0 + suc a = omega arith in ap (λ (k : ℕ). added k m) sum
added-add (suc a) (suc b) m =
    let sum : suc b + suc a ≡ suc (b + suc a) = omega arith in
    let wraps : ((count m + suc b) % 2 ^ 64 + suc a) % 2 ^ 64
        ≡ (count m + suc (b + suc a)) % 2 ^ 64 =
      omega arith in
    ap (λ (n : ℕ). metrics (some n) m.name_taken) wraps ∙ ap (λ (k : ℕ). added k m) (sym sum)

abbrev pub installed_times : ℕ → Hook → Hook
installed_times zero h = h
installed_times (suc k) h = set_panic_hook (installed_times k h)

abbrev pub reports : ℕ → PanicInfo → List Effect
reports zero p = []
reports (suc k) p = logged p.message p.backtrace p.location ∷ counter_incremented ∷ reports k p

abbrev pub before : List Effect → List Effect × Option Metrics → List Effect × Option Metrics
before first (es, m) = (first ++ es, m)

-- When the hook has been set any number of times, a panic is logged and counted as many times,
-- with its location if it has one, and whatever hook there was before runs last and once.
pub on_panic_lem :
    (k : ℕ) (h : Hook) (p : PanicInfo) (m : Metrics)
    → IsFree m
    → on_panic (installed_times k h) p m ≡ before (reports k p) (on_panic h p (added k m))
unfolding on_panic set_panic_hook
on_panic_lem zero h p m free = refl
on_panic_lem (suc k) h p m free =
    let sum : 1 + k ≡ suc k = omega arith in
    rw
      (
        on_panic,
        inc-added m free,
        on_panic_lem k h p (added 1 m) (added-IsFree 1 m free),
        added-add k 1 m,
        sum,
      )
      refl

-- Panics one after the other, until one ends the process.
abbrev pub after_one :
    List Effect × Option Metrics
    → (Metrics → List Effect × Option Metrics)
    → List Effect × Option Metrics
after_one (es, none) later = (es, none)
after_one (es, some m) later = before es (later m)

abbrev pub handle : Hook → List PanicInfo → Metrics → List Effect × Option Metrics
handle h [] m = ([], some m)
handle h (p ∷ ps) m = after_one (on_panic h p m) (handle h ps)

abbrev pub all_reports : ℕ → List PanicInfo → List Effect
all_reports k [] = []
all_reports k (p ∷ ps) = (reports k p ++ default_called p ∷ []) ++ all_reports k ps

-- When the hook has been set any number of times and its counter can be registered, each panic is
-- logged and counted as many times, with its location if it has one, and then handed once to the
-- hook of the standard library. The counter has grown by the panics times the hooks, modulo 2^64.
pub panics_counted :
    (k : ℕ) (ps : List PanicInfo) (m : Metrics)
    → IsFree m
    → handle (installed_times k default_hook) ps m
      ≡ (all_reports k ps, some (added (length ps * k) m))
unfolding on_panic
panics_counted k [] m free =
    let nothing : 0 ≡ 0 * k = omega arith in ap (λ (n : ℕ). ([], some (added n m))) nothing
panics_counted k (p ∷ ps) m free =
    let sum : k + length ps * k ≡ suc (length ps) * k = omega arith in
    rw
      (
        on_panic_lem k default_hook p m free,
        panics_counted k ps (added k m) (added-IsFree k m free),
        added-add (length ps * k) k m,
        sum,
      )
      refl

-- If the registry has given the name to another collector before the first panic, that panic is
-- logged and ends the process: the hook of the standard library is not reached.
pub taken_aborts :
    (h : Hook) (p : PanicInfo) (ps : List PanicInfo)
    → handle (set_panic_hook h) (p ∷ ps) (metrics none true)
      ≡ (logged p.message p.backtrace p.location ∷ aborted ∷ [], none)
unfolding on_panic set_panic_hook inc
taken_aborts h p ps = refl
