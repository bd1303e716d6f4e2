-- ===== src/Logging/Setup/Expected.antt =====
-- `init_global_logging`: what its options ask for.
use filestore.Base.{
  ◌≡◌, ◌⊎◌, Bool, true, false, List, [], ◌∷◌, ◌++◌, Option, none, some, if◌then◌else◌,
}
use filestore.Text.{Text, codes, is_empty, starts_with}
use filestore.Net.{SocketAddr}
use filestore.Sampler.{TracingSampleOptions, create_sampler}
use filestore.Logging.{
  LogFormat, LoggingOptions, Writer, stdout, rolling_file, FormatLayer, incomplete, complete, Otlp,
  Subscriber, Globals, Telemetry, OtlpExportProtocol, ExporterConfig, tonic, http_binary,
  RootSampler, always_on, configured,
}

-- Whether lines are written as JSON, or as text.
abbrev pub writes_json : LogFormat → Bool
writes_json LogFormat.json = true
writes_json LogFormat.text = false

-- The instance that OTLP names.
abbrev pub instance_name : Option Text → Text
instance_name none = codes "none"
instance_name (some node_id) = node_id

-- Where the spans go: over HTTP unless the options say gRPC, to the collector's default port of
-- that protocol unless they name an endpoint.
abbrev pub expected_exporter :
    Option OtlpExportProtocol → Option Text → List (Text × Text) → ExporterConfig
expected_exporter (some OtlpExportProtocol.grpc) none headers =
    tonic (codes "http://localhost:4317")
expected_exporter (some OtlpExportProtocol.grpc) (some e) headers =
    tonic (if starts_with e (codes "http") then e else codes "http://" ++ e)
expected_exporter _ none headers = http_binary (codes "http://localhost:4318/v1/traces") headers
expected_exporter _ (some e) headers =
    http_binary (if starts_with e (codes "http") then e else codes "http://" ++ e) headers

-- Everything is sampled, unless the options configure a sampler.
abbrev pub expected_sampler : Option TracingSampleOptions → RootSampler
expected_sampler none = always_on
expected_sampler (some sampling) = configured (create_sampler sampling)

module _ (M : Telemetry) where
  -- The filter is `level`, or else `RUST_LOG`, or else `info`.
  abbrev pub FilterIs : LoggingOptions → M.Targets → Type 0
  FilterIs o f =
      ((l : Text) × (o.level ≡ some l) × (M.parse_targets l ≡ some f))
      ⊎ (((v : Text) × (o.level ≡ none) × (M.rust_log ≡ some v) × (M.parse_targets v ≡ some f))
          ⊎ ((o.level ≡ none) × (M.rust_log ≡ none) × (M.parse_targets (codes "info") ≡ some f)))

  abbrev pub AppendersBuild : LoggingOptions → Type 0
  AppendersBuild o =
      (is_empty o.dir ≡ true)
      ⊎ ((M.build_appender (codes "rsketch") o.dir o.max_log_files ≡ true)
          × (M.build_appender (codes "rsketch-err") o.dir o.max_log_files ≡ true))

  -- Nothing else in the process has installed a logger or a subscriber.
  abbrev pub IsUntouched : Globals M.Targets → Type 0
  IsUntouched g =
      (g.once ≡ incomplete)
      × (g.logger_set ≡ false)
      × (g.reload_handle ≡ none)
      × (g.global_default ≡ none)

  -- The layers of `o`: stdout if it is on, in colour on a terminal, and two files if a directory is
  -- given, the second for errors only and without the spans.
  abbrev pub expected_layers : LoggingOptions → List FormatLayer
  expected_layers o =
      (if o.append_stdout
        then record {
          writer = stdout;
          json_lines = writes_json o.log_format;
          ansi = M.is_terminal;
          spans = writes_json o.log_format;
          errors_only = false;
        }
          ∷ []
        else [])
      ++ (if is_empty o.dir
          then []
          else record {
            writer = rolling_file (codes "rsketch") o.dir o.max_log_files;
            json_lines = writes_json o.log_format;
            ansi = false;
            spans = writes_json o.log_format;
            errors_only = false;
          }
            ∷ record {
              writer = rolling_file (codes "rsketch-err") o.dir o.max_log_files;
              json_lines = writes_json o.log_format;
              ansi = false;
              spans = false;
              errors_only = true;
            }
            ∷ [])

  -- The guards that the caller has to keep.
  abbrev pub expected_guards : LoggingOptions → List Writer
  expected_guards o =
      (if o.append_stdout then stdout ∷ [] else [])
      ++ (if is_empty o.dir
          then []
          else rolling_file (codes "rsketch") o.dir o.max_log_files
            ∷ rolling_file (codes "rsketch-err") o.dir o.max_log_files
            ∷ [])

  -- What the first call leaves: the given filter behind the reload handle and in the subscriber,
  -- the layer of the console if there is one, and the exporter of the options exactly when OTLP tracing is on.
  abbrev pub Installs :
      Text
      → Option Text
      → LoggingOptions
      → M.Targets
      → Option SocketAddr
      → Globals M.Targets × Option (List Writer)
      → Type 0
  Installs app_name node_id o f c result =
      (result.1 ≡ some (expected_guards o))
      × (result.0.once ≡ complete)
      × (result.0.reload_handle ≡ some f)
      × ((s : Subscriber M.Targets) × (result.0.global_default ≡ some s)
          × (s.dyn_filter ≡ f)
          × (s.layers ≡ expected_layers o)
          × (s.console ≡ c)
          × (((o.enable_otlp_tracing ≡ false) × (s.otlp ≡ none))
              ⊎ ((x : Otlp) × (o.enable_otlp_tracing ≡ true)
                  × (s.otlp ≡ some x)
                  × (x.exporter
                      ≡ expected_exporter o.otlp_export_protocol o.otlp_endpoint o.otlp_headers)
                  × (x.sampler ≡ expected_sampler o.tracing_sample_ratio)
                  × (x.service_name ≡ app_name)
                  × (x.service_instance_id ≡ instance_name node_id))))
