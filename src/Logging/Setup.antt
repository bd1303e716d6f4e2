-- ===== src/Logging/Setup.antt =====
-- crates/common/src/telemetry/logging.rs: `init_global_logging` with its `Once`, and
-- `init_tracing_subscriber`. A panic inside leaves the changes that were made before it.
pub mod Expected
pub mod First
pub mod Second
pub mod Unittest
use filestore.Base.{ℕ, Bool, true, false, List, [], ◌∷◌, ◌++◌, Option, none, some, if◌then◌else◌}
use filestore.Text.{Text, codes, is_empty}
use filestore.Net.{SocketAddr}
use filestore.Logging.Console.{console_layer}
use filestore.Logging.{
  TracingOptions, default_tracing_options, LogFormat, json, text, LoggingOptions, default_options,
  exporter_config, ExporterConfig, Writer, stdout, rolling_file, FormatLayer, Once, incomplete,
  complete, poisoned, root_sampler, Otlp, Subscriber, Globals, Telemetry, is_json,
}

module _ (M : Telemetry) where
  open M use {
    Targets, is_terminal, build_appender, rust_log, parse_targets, build_exporter, tokio_console,
  }

  stdout_layer : LoggingOptions → FormatLayer
  unfolding is_json
  stdout_layer o = record {
    writer = stdout;
    json_lines = is_json o.log_format;
    ansi = is_terminal;
    spans = is_json o.log_format;
    errors_only = false;
  }

  file_layer : LoggingOptions → FormatLayer
  unfolding is_json
  file_layer o = record {
    writer = rolling_file (codes "rsketch") o.dir o.max_log_files;
    json_lines = is_json o.log_format;
    ansi = false;
    spans = is_json o.log_format;
    errors_only = false;
  }

  -- The layer of the error file never adds the spans.
  err_file_layer : LoggingOptions → FormatLayer
  unfolding is_json
  err_file_layer o = record {
    writer = rolling_file (codes "rsketch-err") o.dir o.max_log_files;
    json_lines = is_json o.log_format;
    ansi = false;
    spans = false;
    errors_only = true;
  }

  stdout_layers : LoggingOptions → List FormatLayer
  unfolding stdout_layer
  stdout_layers o = if o.append_stdout then stdout_layer o ∷ [] else []

  can_build : LoggingOptions → Text → Bool
  can_build o prefix = build_appender prefix o.dir o.max_log_files

  -- `none` is a panic: an appender that cannot be built.
  file_layers : LoggingOptions → Option (List FormatLayer)
  unfolding is_empty file_layer err_file_layer can_build
  file_layers o =
      if is_empty o.dir
      then some []
      else if can_build o (codes "rsketch")
      then (if can_build o (codes "rsketch-err")
          then some (file_layer o ∷ err_file_layer o ∷ [])
          else none)
      else none

  -- `.level`, or `RUST_LOG`, or `DEFAULT_LOG_TARGETS`
  filter_of : Option Text → Option Text → Text
  filter_of (some level) variable = level
  filter_of none (some value) = value
  filter_of none none = codes "info"

  instance_of : Option Text → Text
  instance_of none = codes "none"
  instance_of (some node) = node

  otlp_of : Text → Option Text → LoggingOptions → Otlp
  unfolding exporter_config root_sampler instance_of
  otlp_of app_name node_id o = record {
    exporter = exporter_config o;
    sampler = root_sampler o.tracing_sample_ratio;
    service_name = app_name;
    service_instance_id = instance_of node_id;
  }

  -- The state after a part of the closure, and what it produced; `none` is a panic.
  abbrev Outcome : Type 0 → Type 0
  Outcome A = Globals Targets × Option A

  set_if_absent :
      Option (Subscriber Targets) → Subscriber Targets → Globals Targets → Outcome (Unit {0})
  set_if_absent (some other) s g = (g, none)
  set_if_absent none s g = (record g { global_default = some s }, some tt)

  set_global_default : Subscriber Targets → Globals Targets → Outcome (Unit {0})
  unfolding set_if_absent
  set_global_default s g = set_if_absent g.global_default s g

  -- By whether OTLP tracing is on, and whether its exporter can be built.
  subscribe : Bool → Bool → Otlp → Subscriber Targets → Globals Targets → Outcome (Unit {0})
  unfolding set_global_default
  subscribe false buildable otlp s g = set_global_default s g
  subscribe true false otlp s g = (record g { propagator_set = true }, none)
  subscribe true true otlp s g =
      set_global_default (record s { otlp = some otlp }) (record g { propagator_set = true })

  set_subscriber :
      Text
      → Option Text
      → LoggingOptions
      → Subscriber Targets
      → Globals Targets
      → Outcome (Unit {0})
  unfolding subscribe otlp_of
  set_subscriber app_name node_id o s g =
      subscribe o.enable_otlp_tracing (build_exporter (exporter_config o))
        (otlp_of app_name node_id o) s g

  -- The layer of the console, or the panic of its address.
  subscribe_with :
      Option (Option SocketAddr)
      → Text
      → Option Text
      → LoggingOptions
      → Targets
      → List FormatLayer
      → Globals Targets
      → Outcome (Unit {0})
  unfolding set_subscriber
  subscribe_with none app_name node_id o filter layers g = (g, none)
  subscribe_with (some console) app_name node_id o filter layers g =
      set_subscriber app_name node_id o
        (record { dyn_filter = filter; layers = layers; console = console; otlp = none }) g

  -- `RELOAD_HANDLE.set` fails if there is a handle.
  install_if_absent :
      Option Targets
      → Text
      → Option Text
      → LoggingOptions
      → TracingOptions
      → Targets
      → List FormatLayer
      → Globals Targets
      → Outcome (Unit {0})
  unfolding subscribe_with console_layer
  install_if_absent (some other) app_name node_id o t filter layers g = (g, none)
  install_if_absent none app_name node_id o t filter layers g =
      subscribe_with (console_layer tokio_console t) app_name node_id o filter layers
        (record g { reload_handle = some filter })

  install :
      Text
      → Option Text
      → LoggingOptions
      → TracingOptions
      → Targets
      → List FormatLayer
      → Globals Targets
      → Outcome (Unit {0})
  unfolding install_if_absent
  install app_name node_id o t filter layers g =
      install_if_absent g.reload_handle app_name node_id o t filter layers g

  guards_of : List FormatLayer → List Writer
  guards_of [] = []
  guards_of (l ∷ ls) = l.writer ∷ guards_of ls

  -- The layers and the filter, whose failures come in this order.
  prepare : LoggingOptions → Option (Targets × List FormatLayer)
  unfolding file_layers stdout_layers filter_of
  prepare o = elim (file_layers o) [
    | none ↦ none
    | some files ↦ elim (parse_targets (filter_of o.level rust_log)) [
      | none ↦ none
      | some filter ↦ some (filter, stdout_layers o ++ files)
    ]
  ]

  keep_guards : List Writer → Outcome (Unit {0}) → Outcome (List Writer)
  keep_guards guards (g, none) = (g, none)
  keep_guards guards (g, some _) = (g, some guards)

  -- The closure after `LogTracer::init`.
  install_prepared :
      Text
      → Option Text
      → LoggingOptions
      → TracingOptions
      → Option (Targets × List FormatLayer)
      → Globals Targets
      → Outcome (List Writer)
  unfolding install guards_of keep_guards
  install_prepared app_name node_id o t none g = (g, none)
  install_prepared app_name node_id o t (some (filter, layers)) g =
      keep_guards (guards_of layers) (install app_name node_id o t filter layers g)

  closure :
      Text → Option Text → LoggingOptions → TracingOptions → Globals Targets → Outcome (List Writer)
  unfolding install_prepared prepare
  closure app_name node_id o t g =
      if g.logger_set
      then (g, none)
      else install_prepared app_name node_id o t (prepare o) (record g { logger_set = true })

  settle : Outcome (List Writer) → Outcome (List Writer)
  settle (g, none) = (record g { once = poisoned }, none)
  settle (g, some guards) = (record g { once = complete }, some guards)

  call_once :
      Once
      → Text
      → Option Text
      → LoggingOptions
      → TracingOptions
      → Globals Targets
      → Outcome (List Writer)
  unfolding settle closure
  call_once incomplete app_name node_id o t g = settle (closure app_name node_id o t g)
  call_once complete app_name node_id o t g = (g, some [])
  call_once poisoned app_name node_id o t g = (g, none)

  -- The state after a call, and the guards; `none` is a panic.
  unfoldable pub init_global_logging :
      Text
      → Option Text
      → LoggingOptions
      → TracingOptions
      → Globals Targets
      → Globals Targets × Option (List Writer)
  unfolding call_once
  init_global_logging app_name node_id o t g = call_once g.once app_name node_id o t g

  unfoldable pub init_tracing_subscriber :
      Text → Globals Targets → Globals Targets × Option (List Writer)
  unfolding init_global_logging default_options default_tracing_options
  init_tracing_subscriber app_name g =
      init_global_logging app_name none default_options default_tracing_options g
