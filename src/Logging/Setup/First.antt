-- ===== src/Logging/Setup/First.antt =====
-- `init_global_logging`: what the first call installs.
use mathlib.Core.Bool.{false≢true}
use filestore.Base.{
  ◌≡◌, inl, inr, refl, ap, sym, ◌∙◌, Bool, true, false, List, [], ◌∷◌, ◌++◌, Option, none, some,
  Bool-cases, if◌then◌else◌,
}
use filestore.Text.{Text, codes, is_empty}
use filestore.Net.{SocketAddr}
use filestore.Logging.Console.{ConsoleIs, console_layer_lem}
use filestore.Sampler.{TracingSampleOptions}
use filestore.Logging.Setup.Expected.{
  expected_exporter, expected_sampler, AppendersBuild, FilterIs, Installs, IsUntouched,
  expected_guards, expected_layers, writes_json,
}
use filestore.Logging.{
  TracingOptions, LogFormat, is_json, LoggingOptions, Writer, stdout, FormatLayer, Once, incomplete,
  complete, poisoned, Subscriber, Globals, Telemetry, exporter_config, OtlpExportProtocol,
  protocol_of, exporter_for, endpoint, with_scheme, default_endpoint, default_otlp_grpc_endpoint,
  default_otlp_http_endpoint, root_sampler,
}
use filestore.Logging.Setup.{
  init_global_logging, call_once, settle, closure, install_prepared, prepare, install,
  subscribe_with, set_subscriber, set_if_absent, subscribe, install_if_absent, keep_guards,
  guards_of, file_layers, stdout_layers, filter_of, file_layer, err_file_layer, stdout_layer,
  can_build, otlp_of, instance_of,
}

is_json_lem : (f : LogFormat) → is_json f ≡ writes_json f
unfolding is_json
is_json_lem LogFormat.json = refl
is_json_lem LogFormat.text = refl

by_protocol :
    (p : Option OtlpExportProtocol) (e : Option Text) (headers : List (Text × Text))
    → exporter_for (protocol_of p) (endpoint e (protocol_of p)) headers
      ≡ expected_exporter p e headers
unfolding exporter_for protocol_of endpoint with_scheme default_endpoint default_otlp_grpc_endpoint
    default_otlp_http_endpoint
by_protocol none none headers = refl
by_protocol none (some e) headers = refl
by_protocol (some OtlpExportProtocol.grpc) none headers = refl
by_protocol (some OtlpExportProtocol.grpc) (some e) headers = refl
by_protocol (some OtlpExportProtocol.http) none headers = refl
by_protocol (some OtlpExportProtocol.http) (some e) headers = refl

exporter_lem :
    (o : LoggingOptions)
    → exporter_config o ≡ expected_exporter o.otlp_export_protocol o.otlp_endpoint o.otlp_headers
unfolding exporter_config
exporter_lem o = by_protocol o.otlp_export_protocol o.otlp_endpoint o.otlp_headers

root_sampler_lem :
    (sampling : Option TracingSampleOptions) → root_sampler sampling ≡ expected_sampler sampling
unfolding root_sampler
root_sampler_lem none = refl
root_sampler_lem (some opt) = refl

module _ (M : Telemetry) where
  built :
      (o : LoggingOptions)
      → AppendersBuild M o
      → is_empty o.dir ≡ false
      → (M.build_appender (codes "rsketch") o.dir o.max_log_files ≡ true)
        × (M.build_appender (codes "rsketch-err") o.dir o.max_log_files ≡ true)
  built o (inl empty) named = absurd (false≢true (sym named ∙ empty))
  built o (inr h) named = h

  FilesAre : LoggingOptions → Option (List FormatLayer) → Type 0
  FilesAre o files =
      (ls : List FormatLayer) × (files ≡ some ls)
      × (guards_of M (stdout_layers M o ++ ls) ≡ expected_guards M o)
      × (stdout_layers M o ++ ls ≡ expected_layers M o)

  guards_of_stdout :
      (o : LoggingOptions) (files : List FormatLayer)
      → guards_of M (stdout_layers M o ++ files)
        ≡ (if o.append_stdout then stdout ∷ [] else []) ++ guards_of M files
  unfolding stdout_layers stdout_layer guards_of
  guards_of_stdout o files = elim (Bool-cases o.append_stdout) [
    | inl e ↦ rw e refl
    | inr e ↦ rw e refl
  ]

  files-FilesAre : (o : LoggingOptions) → AppendersBuild M o → FilesAre o (file_layers M o)
  unfolding FilesAre file_layers can_build guards_of file_layer err_file_layer stdout_layers
      stdout_layer
  files-FilesAre o h = elim (Bool-cases (is_empty o.dir)) [
    | inl empty ↦ rw empty ([], refl, guards_of_stdout o [], rw (is_json_lem o.log_format) refl)
    | inr named ↦
        rw (named, (built o h named).0, (built o h named).1)
          (_, refl, guards_of_stdout o _, rw (is_json_lem o.log_format) refl)
  ]

  filter_parses :
      (o : LoggingOptions) (f : M.Targets)
      → FilterIs M o f
      → M.parse_targets (filter_of M o.level M.rust_log) ≡ some f
  unfolding filter_of
  filter_parses o f (inl (l, e, p)) = rw e p
  filter_parses o f (inr (inl (v, e, d, p))) = rw (e, d) p
  filter_parses o f (inr (inr (e, d, p))) = rw (e, d) p

  prepared :
      (o : LoggingOptions) (f : M.Targets) (files : List FormatLayer)
      → file_layers M o ≡ some files
      → FilterIs M o f
      → prepare M o ≡ some (f, stdout_layers M o ++ files)
  unfolding prepare
  prepared o f files e h = rw (prepare, e, filter_parses o f h) refl

  installed :
      (a : Text) (n : Option Text) (o : LoggingOptions) (p : Bool) (f : M.Targets)
      (ls : List FormatLayer) (c : Option SocketAddr) (e b : Bool)
      → o.enable_otlp_tracing ≡ e
      → (e ≡ true → b ≡ true)
      → ls ≡ expected_layers M o
      → (guards : List Writer) → guards ≡ expected_guards M o
      → Installs M a n o f c (
          settle M (
            keep_guards M guards (
              subscribe M e b
                (otlp_of M a n o)
                (record { dyn_filter = f; layers = ls; console = c; otlp = none })
                (record {
                  once = incomplete;
                  logger_set = true;
                  reload_handle = some f;
                  propagator_set = p;
                  global_default = none;
                }))))
  unfolding settle subscribe otlp_of set_if_absent keep_guards instance_of
  installed a none o p f ls c true true on ok shown guards same = (
    ap some same,
    refl,
    refl,
    (
      _,
      refl,
      refl,
      shown,
      refl,
      inr (_, on, refl, exporter_lem o, root_sampler_lem o.tracing_sample_ratio, refl, refl),
    ),
  )
  installed a (some n) o p f ls c true true on ok shown guards same = (
    ap some same,
    refl,
    refl,
    (
      _,
      refl,
      refl,
      shown,
      refl,
      inr (_, on, refl, exporter_lem o, root_sampler_lem o.tracing_sample_ratio, refl, refl),
    ),
  )
  installed a n o p f ls c true false on ok shown guards same = absurd (false≢true (ok refl))
  installed a n o p f ls c false b off ok shown guards same =
      (ap some same, refl, refl, (_, refl, refl, shown, refl, inl (off, refl)))

  fresh_call :
      (a : Text) (n : Option Text) (o : LoggingOptions) (t : TracingOptions) (f : M.Targets)
      (c : Option SocketAddr)
      → ConsoleIs M.tokio_console t c
      → AppendersBuild M o
      → FilterIs M o f
      → (o.enable_otlp_tracing ≡ true → M.build_exporter (exporter_config o) ≡ true)
      → (p : Bool)
      → Installs M a n o f c (
          init_global_logging M a n o t (record {
            once = incomplete;
            logger_set = false;
            reload_handle = none;
            propagator_set = p;
            global_default = none;
          }))
  unfolding FilesAre init_global_logging call_once closure install_prepared install
      install_if_absent subscribe_with set_subscriber
  fresh_call a n o t f c console appenders filter exporter p =
      let (files, found, guards, shown) = files-FilesAre o appenders in
      rw (prepared o f files found filter, console_layer_lem M.tokio_console t c console)
        (installed a n o p f (stdout_layers M o ++ files) c o.enable_otlp_tracing
          (M.build_exporter (exporter_config o)) refl exporter shown
          (guards_of M (stdout_layers M o ++ files)) guards)

  by_fields :
      (a : Text) (n : Option Text) (o : LoggingOptions) (t : TracingOptions) (f : M.Targets)
      (c : Option SocketAddr)
      → ConsoleIs M.tokio_console t c
      → AppendersBuild M o
      → FilterIs M o f
      → (o.enable_otlp_tracing ≡ true → M.build_exporter (exporter_config o) ≡ true)
      → (p : Bool) (once : Once) (logger : Bool) (reload : Option M.Targets)
        (default : Option (Subscriber M.Targets))
      → once ≡ incomplete
      → logger ≡ false
      → reload ≡ none
      → default ≡ none
      → Installs M a n o f c (
          init_global_logging M a n o t (record {
            once = once;
            logger_set = logger;
            reload_handle = reload;
            propagator_set = p;
            global_default = default;
          }))
  by_fields a n o t f c v k l x p incomplete false none none h i j m =
      fresh_call a n o t f c v k l x p
  by_fields a n o t f c v k l x p incomplete false none (some d) h i j m = cc
  by_fields a n o t f c v k l x p incomplete false (some r) d h i j m = cc
  by_fields a n o t f c v k l x p incomplete true r d h i j m = cc
  by_fields a n o t f c v k l x p complete b r d h i j m = cc
  by_fields a n o t f c v k l x p poisoned b r d h i j m = cc

  -- The first call in a process that nothing else has set up returns, when the appenders, the
  -- filter and, if OTLP tracing is on, the exporter can be built, and when the address of the
  -- console, if the feature is on and there is one, can be parsed: with one guard for stdout if it
  -- is on and two for the files if a directory is given, and with a subscriber that has the filter,
  -- the layers of these writers, the console and the exporter that the options ask for: JSON lines
  -- with their spans exactly for the JSON format, and in the error file errors only, without spans;
  -- the exporter, there exactly when OTLP tracing is on, has the root sampler of the options and
  -- names the application and the node, or `none`.
  pub first_call :
      (app_name : Text) (node_id : Option Text) (o : LoggingOptions) (t : TracingOptions)
      (g : Globals M.Targets) (f : M.Targets) (c : Option SocketAddr)
      → IsUntouched M g
      → ConsoleIs M.tokio_console t c
      → AppendersBuild M o
      → FilterIs M o f
      → (o.enable_otlp_tracing ≡ true → M.build_exporter (exporter_config o) ≡ true)
      → Installs M app_name node_id o f c (init_global_logging M app_name node_id o t g)
  first_call a n o t g f c (fresh, logger, reload, default) console appenders filter exporter =
      by_fields a n o t f c console appenders filter exporter g.propagator_set g.once g.logger_set
        g.reload_handle g.global_default fresh logger reload default
