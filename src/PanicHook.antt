-- ===== src/PanicHook.antt =====
-- crates/common/src/telemetry/panic_hook.rs: the hook that reports panics, and their counter. The
-- thread that looks for deadlocks, of a feature that is off by default, is PanicHook/Deadlocks.
pub mod Deadlocks
pub mod Counted
use filestore.Base.{ℕ, ◌+◌, ◌%◌, ◌^◌, Bool, List, [], ◌∷◌, Option, none, some, if◌then◌else◌}
use filestore.Text.{Text}

pub record Place : Type 0 where
  pub file : Text
  pub line : ℕ
  pub column : ℕ

-- `PanicHookInfo`, with the backtrace that is taken in the hook.
pub record PanicInfo : Type 0 where
  pub message : Text
  pub backtrace : Text
  pub location : Option Place

-- `PANIC_COUNTER`, which is registered at its first use, and whether the registry of prometheus has
-- given its name to another collector.
pub record Metrics : Type 0 where
  pub counter : Option ℕ
  pub name_taken : Bool

-- `PANIC_COUNTER.inc()`, on a 64-bit counter. When the registration fails its `unwrap` panics,
-- `none`.
unfoldable pub inc : Metrics → Option Metrics
inc m = elim m.counter [
  | some n ↦ some (record m { counter = some ((n + 1) % 2 ^ 64) })
  | none ↦ if m.name_taken then none else some (record m { counter = some 1 })
]

-- What a panic makes happen, in order. A panic in the hook ends the process.
pub data Effect : Type 0 where
  logged : Text → Text → Option Place → Effect
  counter_incremented : Effect
  aborted : Effect
  default_called : PanicInfo → Effect

-- The hooks of the process: the one of the standard library, or ours around an earlier one.
pub data Hook : Type 0 where
  default_hook : Hook
  reporting : Hook → Hook

unfoldable pub set_panic_hook : Hook → Hook
set_panic_hook taken = reporting taken

abbrev pub also : Effect → List Effect × Option Metrics → List Effect × Option Metrics
also e (es, m) = (e ∷ es, m)

-- The effects, and the metrics after them unless the process has been aborted.
unfoldable pub on_panic : Hook → PanicInfo → Metrics → List Effect × Option Metrics
unfolding inc
on_panic default_hook p m = (default_called p ∷ [], some m)
on_panic (reporting inner) p m = elim (inc m) [
  | none ↦ (logged p.message p.backtrace p.location ∷ aborted ∷ [], none)
  | some counted ↦
      also (logged p.message p.backtrace p.location)
        (also counter_incremented (on_panic inner p counted))
]
