-- ===== src/Tests/Telemetry.antt =====
-- Logging, the environment, panics, traces and versions at concrete values.
use filestore.Base.{
  ℕ, ◌*◌, length, ◌≡◌, ◌≢◌, ◌↔◌, ◌⊎◌, inl, inr, refl, true, false, List, [], ◌∷◌, ◌++◌, Option,
  none, some,
}
use filestore.Text.{Text, codes, starts_with}
use filestore.Logging.{
  LoggingOptions, default_options, TracingOptions, default_tracing_options, Telemetry, Globals,
  incomplete, poisoned, Writer, grpc, endpoint,
}
use filestore.Net.{SocketAddr, v4, octets, parse_socket_addr}
use filestore.Logging.Setup.{init_global_logging}
use filestore.Logging.Setup.Expected.{Installs}
use filestore.Logging.Setup.First.{first_call}
use filestore.Logging.Setup.Second.{second_call}
use filestore.Logging.Endpoint.{endpoint_lem}
use filestore.Env.{Result, ok, err, Read, content, not_present, var, required_var, var_parsed}
use filestore.Env.Required.{Fails, variables_iff}
use filestore.PanicHook.{
  PanicInfo, default_hook, set_panic_hook, on_panic, logged, counter_incremented, default_called,
}
use filestore.PanicHook.Counted.{
  metrics, installed_times, handle, all_reports, added, panics_counted,
}
use filestore.PanicHook.Deadlocks.{
  DeadlockedThread, sleep, check_deadlock, watch, lines, deadlocks_logged,
}
use filestore.Context.{OpenTelemetry, W3cTrace}
use filestore.BuildInfo.{Built}

-- Filters that are their texts; everything can be built.
abbrev pub telemetry : Telemetry
telemetry = record {
  Targets = Text;
  is_terminal = true;
  build_appender = λ prefix dir files. true;
  rust_log = some (codes "warn");
  parse_targets = λ level. some level;
  build_exporter = λ config. true;
  tokio_console = true;
}

abbrev pub untouched : Globals Text
untouched = record {
  once = incomplete;
  logger_set = false;
  reload_handle = none;
  propagator_set = false;
  global_default = none;
}

abbrev traced : LoggingOptions
unfolding default_options
traced = record default_options { dir = codes "logs"; enable_otlp_tracing = true }

abbrev console : TracingOptions
console = record { tokio_console_addr = some (codes "127.0.0.1:6669") }

console_addr : SocketAddr
console_addr = v4 (octets 127 0 0 1) 6669

console_parses : parse_socket_addr (codes "127.0.0.1:6669") ≡ some console_addr
unfolding parse_socket_addr console_addr
console_parses = refl

first_call_example :
    Installs telemetry
      (codes "rsketch")
      none
      traced
      (codes "warn")
      (some console_addr)
      (init_global_logging telemetry (codes "rsketch") none traced console untouched)
unfolding traced
first_call_example =
    first_call telemetry (codes "rsketch") none traced console untouched (codes "warn")
      (some console_addr) (refl, refl, refl, refl)
      (inr (inr (codes "127.0.0.1:6669", console_addr, refl, refl, console_parses, refl)))
      (inr (refl, refl)) (inr (inl (codes "warn", refl, refl, refl))) (λ _. refl)

-- A bad address panics after the reload handle is set.
bad_console :
    init_global_logging telemetry
      (codes "rsketch")
      none
      default_options
      (record { tokio_console_addr = some (codes "localhost:6669") })
      untouched
    ≡ (
      record untouched { once = poisoned; logger_set = true; reload_handle = some (codes "warn") },
      none,
    )
unfolding init_global_logging default_options
bad_console = refl

second_call_example :
    let (after, first) = init_global_logging telemetry (codes "a") none traced console untouched in
    let (later, second) =
      init_global_logging telemetry
        (codes "b")
        none
        default_options
        default_tracing_options
        after in
    (later ≡ after)
    × (((first ≡ none) × (second ≡ none))
        ⊎ ((guards : List Writer) × (first ≡ some guards) × (second ≡ some [])))
second_call_example =
    second_call telemetry (codes "a") (codes "b") none none traced default_options console
      default_tracing_options untouched

endpoint_lem_example :
    (starts_with (endpoint none grpc) (codes "http") ≡ true)
    × (endpoint (some (endpoint none grpc)) grpc ≡ endpoint none grpc)
    × ((endpoint (some (codes "http-collector:4317")) grpc
          ≡ codes "http://" ++ codes "http-collector:4317")
        ↔ (starts_with (codes "http-collector:4317") (codes "http") ≡ false))
    × ((endpoint (some (codes "http-collector:4317")) grpc ≡ codes "http-collector:4317")
        ↔ (starts_with (codes "http-collector:4317") (codes "http") ≡ true))
endpoint_lem_example = endpoint_lem none (codes "http-collector:4317") grpc

-- One variable is set.
abbrev reads : Text → Read
reads [] = not_present
reads (c ∷ key) = content (codes "8080")

abbrev first_char : Text → Result ℕ
first_char [] = err (codes "empty")
first_char (c ∷ s) = ok c

variables_iff_example :
    ((required_var reads (codes "PORT") ≡ ok (codes "8080"))
      ↔ (reads (codes "PORT") ≡ content (codes "8080")))
    × ((var reads (codes "PORT") ≡ ok (some (codes "8080")))
        ↔ (reads (codes "PORT") ≡ content (codes "8080")))
    × ((var reads (codes "PORT") ≡ ok none) ↔ (reads (codes "PORT") ≡ not_present))
    × ((var_parsed reads first_char (codes "PORT") ≡ ok (some b'8'))
        ↔ ((s : Text) × (reads (codes "PORT") ≡ content s) × (first_char s ≡ ok b'8')))
    × ((var_parsed reads first_char (codes "PORT") ≡ ok none)
        ↔ (reads (codes "PORT") ≡ not_present))
    × (((u : Text) → reads (codes "PORT") ≢ content u)
        → reads (codes "PORT") ≢ not_present
        → Fails (required_var reads (codes "PORT"))
          × Fails (var reads (codes "PORT"))
          × Fails (var_parsed reads first_char (codes "PORT")))
variables_iff_example = variables_iff reads first_char (codes "PORT") (codes "8080") b'8'

abbrev panic : PanicInfo
panic = record { message = codes "boom"; backtrace = []; location = none }

-- The hook is set twice: two reports, and one call of the hook of before.
hook_set_twice :
    on_panic (set_panic_hook (set_panic_hook default_hook)) panic (metrics none false) ≡ (
      logged (codes "boom") [] none
          ∷ counter_incremented
          ∷ logged (codes "boom") [] none
          ∷ counter_incremented
          ∷ default_called panic
          ∷ [],
      some (metrics (some 2) false),
    )
unfolding on_panic set_panic_hook
hook_set_twice = refl

panics_counted_example :
    handle (installed_times 1 default_hook) (panic ∷ panic ∷ []) (metrics (some 5) true) ≡ (
      all_reports 1 (panic ∷ panic ∷ []),
      some (added (length (panic ∷ panic ∷ []) * 1) (metrics (some 5) true)),
    )
panics_counted_example = panics_counted 1 (panic ∷ panic ∷ []) (metrics (some 5) true) (λ e. cc)

abbrev waiting : DeadlockedThread
waiting = record { thread_id = codes "7"; backtrace = codes "lock" }

deadlocks_logged_example :
    (watch (([] ∷ []) ++ (([] ∷ []) ++ (waiting ∷ []) ∷ []) ∷ [])
      ≡ watch ([] ∷ [])
        ++ sleep 5 ∷ check_deadlock ∷ (lines ([] ∷ []) (waiting ∷ []) [] ++ watch []))
    × (watch (([] ∷ []) ++ [] ∷ []) ≡ watch ([] ∷ []) ++ sleep 5 ∷ check_deadlock ∷ watch [])
deadlocks_logged_example = deadlocks_logged ([] ∷ []) [] ([] ∷ []) [] (waiting ∷ [])

-- A context is a number that stands in one field.
abbrev carrier : ℕ → W3cTrace
carrier n = (codes "traceparent", n ∷ []) ∷ []

abbrev read_fields : W3cTrace → ℕ
read_fields [] = 0
read_fields ((k, []) ∷ fields) = 0
read_fields ((k, n ∷ v) ∷ fields) = n

abbrev write_json : W3cTrace → Text
write_json [] = []
write_json ((k, v) ∷ fields) = v

abbrev read_json : Text → Option W3cTrace
read_json [] = none
read_json (n ∷ s) = some (carrier n)

abbrev open_telemetry : OpenTelemetry
open_telemetry = record {
  Context = ℕ;
  new_context = 0;
  Span = ℕ;
  current_span = 1;
  span_context = λ span. span;
  set_parent = λ c span. c;
  inject_context = λ c fields. carrier c;
  extract = read_fields;
  to_string = write_json;
  from_str = read_json;
}

abbrev built : Built
built = record {
  pkg_version = codes "0.1.0";
  git_commit_hash_short = some (codes "abc1234");
  git_dirty = some true;
  kiseki_release = none;
}
