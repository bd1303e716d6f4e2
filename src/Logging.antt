-- ===== src/Logging.antt =====
-- crates/common/src/telemetry/logging.rs: the options, the OTLP exporter and the initialisation.
-- The file appenders, the parser of filters and the exporter belong to other crates: they are
-- parameters, and so is whether the feature `tokio-console` is on.
pub mod Endpoint
pub mod Console
pub mod Setup
pub mod Serde
use filestore.Base.{
  ℕ, ◌+◌, ◌*◌, Bool, true, false, not, List, [], ◌∷◌, ◌++◌, Option, none, some, if◌then◌else◌,
}
use filestore.Text.{Text, codes, is_empty, starts_with}
use filestore.Net.{SocketAddr}
use filestore.Sampler.{TracingSampleOptions, CreatedSampler, create_sampler}

pub data LogFormat : Type 0 where
  json text : LogFormat

pub data OtlpExportProtocol : Type 0 where
  grpc http : OtlpExportProtocol

-- `otlp_headers`, a `HashMap`, is a list of pairs.
pub record LoggingOptions : Type 0 where
  pub dir : Text
  pub level : Option Text
  pub log_format : LogFormat
  pub max_log_files : ℕ
  pub append_stdout : Bool
  pub enable_otlp_tracing : Bool
  pub otlp_endpoint : Option Text
  pub tracing_sample_ratio : Option TracingSampleOptions
  pub otlp_export_protocol : Option OtlpExportProtocol
  pub otlp_headers : List (Text × Text)

unfoldable pub default_options : LoggingOptions
default_options = record {
  dir = [];
  level = none;
  log_format = text;
  max_log_files = 720;
  append_stdout = true;
  enable_otlp_tracing = false;
  otlp_endpoint = none;
  tracing_sample_ratio = none;
  otlp_export_protocol = none;
  otlp_headers = [];
}

-- The field exists only with the feature `tokio-console`.
pub record TracingOptions : Type 0 where
  pub tokio_console_addr : Option Text

unfoldable pub default_tracing_options : TracingOptions
default_tracing_options = record { tokio_console_addr = none }

-- `empty_string_as_default` on a string, with the type's own deserializer as a parameter.
unfoldable pub empty_string_as_default {ℓ} : {A : Type ℓ} → A → (Text → Option A) → Text → Option A
unfolding is_empty
empty_string_as_default default deserialize s = if is_empty s then some default else deserialize s

unfoldable pub default_otlp_grpc_endpoint : Text
default_otlp_grpc_endpoint = codes "http://localhost:4317"

unfoldable pub default_otlp_http_endpoint : Text
default_otlp_http_endpoint = codes "http://localhost:4318/v1/traces"

protocol_of : Option OtlpExportProtocol → OtlpExportProtocol
protocol_of none = http
protocol_of (some p) = p

default_endpoint : OtlpExportProtocol → Text
unfolding default_otlp_grpc_endpoint default_otlp_http_endpoint
default_endpoint grpc = default_otlp_grpc_endpoint
default_endpoint http = default_otlp_http_endpoint

unfoldable pub with_scheme : Text → Text
unfolding starts_with
with_scheme e = if starts_with e (codes "http") then e else codes "http://" ++ e

-- `endpoint` of `build_otlp_exporter`
unfoldable pub endpoint : Option Text → OtlpExportProtocol → Text
unfolding with_scheme default_endpoint
endpoint none protocol = default_endpoint protocol
endpoint (some e) protocol = with_scheme e

-- What the builder of the exporter is given.
pub data ExporterConfig : Type 0 where
  tonic : Text → ExporterConfig
  http_binary : Text → List (Text × Text) → ExporterConfig

exporter_for : OtlpExportProtocol → Text → List (Text × Text) → ExporterConfig
exporter_for grpc e headers = tonic e
exporter_for http e headers = http_binary e headers

unfoldable pub exporter_config : LoggingOptions → ExporterConfig
unfolding protocol_of endpoint exporter_for
exporter_config o =
    let protocol = protocol_of o.otlp_export_protocol in
    exporter_for protocol (endpoint o.otlp_endpoint protocol) o.otlp_headers

-- What a layer writes to, and the guard that stands for its background thread.
pub data Writer : Type 0 where
  stdout : Writer
  rolling_file : Text → Text → ℕ → Writer

pub record FormatLayer : Type 0 where
  pub writer : Writer
  pub json_lines : Bool
  pub ansi : Bool
  -- `with_current_span` and `with_span_list`; a layer of text lines has neither
  pub spans : Bool
  pub errors_only : Bool

pub is_json : LogFormat → Bool
is_json json = true
is_json text = false

-- `Once`: a closure that panics poisons it.
pub data Once : Type 0 where
  incomplete complete poisoned : Once

-- The sampler of the exporter, always under `ParentBased`.
pub data RootSampler : Type 0 where
  always_on : RootSampler
  configured : CreatedSampler → RootSampler

unfoldable pub root_sampler : Option TracingSampleOptions → RootSampler
root_sampler none = always_on
root_sampler (some opt) = configured (create_sampler opt)

-- The attributes of the exporter's resource, without the version and the process id.
pub record Otlp : Type 0 where
  pub exporter : ExporterConfig
  pub sampler : RootSampler
  pub service_name : Text
  pub service_instance_id : Text

module _ (Targets : Type 0) where
  pub record Subscriber : Type 0 where
    pub dyn_filter : Targets
    pub layers : List FormatLayer
    -- where the layer of tokio-console serves, if it is there
    pub console : Option SocketAddr
    pub otlp : Option Otlp

  -- The process-wide state that the initialisation changes.
  pub record Globals : Type 0 where
    pub once : Once
    pub logger_set : Bool
    pub reload_handle : Option Targets
    pub propagator_set : Bool
    pub global_default : Option Subscriber

-- `is_terminal` of stdout, whether a rolling appender can be built, the environment's `RUST_LOG`,
-- the parser of filters, whether an exporter can be built, and the feature `tokio-console`.
pub record Telemetry : Type 1 where
  pub Targets : Type 0
  pub is_terminal : Bool
  pub build_appender : Text → Text → ℕ → Bool
  pub rust_log : Option Text
  pub parse_targets : Text → Option Targets
  pub build_exporter : ExporterConfig → Bool
  pub tokio_console : Bool
