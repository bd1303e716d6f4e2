-- ===== src/Logging/Serde.antt =====
-- crates/common/src/telemetry/logging.rs: the derived `Serialize` and `Deserialize` of the logging
-- options, with the attributes of the fields.
pub mod RoundTrip
use filestore.Base.{
  ℕ, Bool, true, false, ◌||◌, ◌&&◌, List, [], ◌∷◌, ◌++◌, Option, none, some, if◌then◌else◌,
}
use filestore.Text.{Text, codes, ◌≟◌}
use filestore.Serde.{
  Value, null, bool, number, string, object, Fields, no_fields, field, Reader, read_string,
  read_bool, read_usize, read_option, read_field, read_struct, ◌>>=◌,
}
use filestore.Sampler.{TracingSampleOptions}
use filestore.Logging.{
  LogFormat, json, text, OtlpExportProtocol, grpc, http, LoggingOptions, default_options,
  empty_string_as_default,
}

format_name : LogFormat → Text
format_name json = codes "json"
format_name text = codes "text"

protocol_name : OtlpExportProtocol → Text
protocol_name grpc = codes "grpc"
protocol_name http = codes "http"

option_value : {A : Type 0} → (A → Value) → Option A → Value
option_value write none = null
option_value write (some a) = write a

header_fields : List (Text × Text) → Fields
header_fields [] = no_fields
header_fields ((k, v) ∷ headers) = field k (string v) (header_fields headers)

-- `skip_serializing_if = "HashMap::is_empty"`
headers_field : List (Text × Text) → Fields
unfolding header_fields
headers_field [] = no_fields
headers_field (h ∷ headers) =
    field (codes "otlp_headers") (object (header_fields (h ∷ headers))) no_fields

unfoldable pub serialize : LoggingOptions → Value
unfolding format_name protocol_name option_value headers_field filestore.Sampler.Serde.options_value
serialize o = object (
    field (codes "dir") (string o.dir) (
      field (codes "level") (option_value string o.level) (
        field (codes "log_format") (string (format_name o.log_format)) (
          field (codes "max_log_files") (number o.max_log_files) (
            field (codes "append_stdout") (bool o.append_stdout) (
              field (codes "enable_otlp_tracing") (bool o.enable_otlp_tracing) (
                field (codes "otlp_endpoint") (option_value string o.otlp_endpoint) (
                  field (codes "tracing_sample_ratio")
                    (option_value filestore.Sampler.Serde.options_value o.tracing_sample_ratio)
                    (field (codes "otlp_export_protocol")
                      (option_value (λ p. string (protocol_name p)) o.otlp_export_protocol)
                      (headers_field o.otlp_headers))))))))))

-- The names of the variants, `rename_all = "snake_case"`.
format_of : Text → Option LogFormat
unfolding ◌≟◌
format_of s = if s ≟ codes "json" then some json else if s ≟ codes "text" then some text else none

protocol_of_name : Text → Option OtlpExportProtocol
unfolding ◌≟◌
protocol_of_name s =
    if s ≟ codes "grpc" then some grpc else if s ≟ codes "http" then some http else none

-- `deserialize_with = "empty_string_as_default"`
read_format : Reader LogFormat
unfolding empty_string_as_default format_of
read_format (string s) = empty_string_as_default text format_of s
read_format _ = none

read_protocol : Reader OtlpExportProtocol
unfolding protocol_of_name
read_protocol (string s) = protocol_of_name s
read_protocol _ = none

unfoldable pub has_key : List (Text × Text) → Text → Bool
unfolding ◌≟◌
has_key [] key = false
has_key ((k, v) ∷ headers) key = k ≟ key || has_key headers key

-- The map of the entries: a later one with the same key takes the place of an earlier one.
insert : Text → Option Text → Option (List (Text × Text)) → Option (List (Text × Text))
unfolding has_key
insert k (some v) (some headers) =
    if has_key headers k then some headers else some ((k, v) ∷ headers)
insert k _ _ = none

header_map : Fields → Option (List (Text × Text))
unfolding insert read_string
header_map no_fields = some []
header_map (field k v fs) = insert k (read_string v) (header_map fs)

read_headers : Reader (List (Text × Text))
unfolding header_map
read_headers (object fs) = header_map fs
read_headers _ = none

-- The readers of the fields in their order, each with the field of `LoggingOptions::default()`.
read_fields : LoggingOptions → Fields → Option LoggingOptions
unfolding read_field read_string read_bool read_usize read_option read_format read_protocol
    read_headers filestore.Sampler.Serde.read_options
read_fields d fs = do
  dir ← read_field read_string d.dir (codes "dir") fs
  level ← read_field (read_option read_string) d.level (codes "level") fs
  log_format ← read_field read_format d.log_format (codes "log_format") fs
  max_log_files ← read_field read_usize d.max_log_files (codes "max_log_files") fs
  append_stdout ← read_field read_bool d.append_stdout (codes "append_stdout") fs
  enabled ← read_field read_bool d.enable_otlp_tracing (codes "enable_otlp_tracing") fs
  endpoint ← read_field (read_option read_string) d.otlp_endpoint (codes "otlp_endpoint") fs
  ratio ←
      read_field (read_option filestore.Sampler.Serde.read_options) d.tracing_sample_ratio
        (codes "tracing_sample_ratio") fs
  protocol ←
      read_field (read_option read_protocol) d.otlp_export_protocol (codes "otlp_export_protocol")
        fs
  headers ← read_field read_headers d.otlp_headers (codes "otlp_headers") fs
  some (record {
    dir = dir;
    level = level;
    log_format = log_format;
    max_log_files = max_log_files;
    append_stdout = append_stdout;
    enable_otlp_tracing = enabled;
    otlp_endpoint = endpoint;
    tracing_sample_ratio = ratio;
    otlp_export_protocol = protocol;
    otlp_headers = headers;
  })

field_names : List Text
field_names =
    codes "dir"
    ∷ codes "level"
    ∷ codes "log_format"
    ∷ codes "max_log_files"
    ∷ codes "append_stdout"
    ∷ codes "enable_otlp_tracing"
    ∷ codes "otlp_endpoint"
    ∷ codes "tracing_sample_ratio"
    ∷ codes "otlp_export_protocol"
    ∷ codes "otlp_headers"
    ∷ []

unfoldable pub deserialize : Reader LoggingOptions
unfolding field_names read_struct read_fields default_options
deserialize = read_struct field_names (read_fields default_options)
