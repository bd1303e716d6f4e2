-- ===== src/Logging/Serde/RoundTrip.antt =====
-- What the logging options are written as is read back.
use filestore.Base.{ℕ, ◌^◌, ◌<◌, ◌≡◌, refl, lt→ltb, false, List, [], ◌∷◌, Option, none, some, All}
use filestore.Text.{Text, ◌≟◌}
use filestore.Serde.{
  Value, Fields, no_fields, field, object, string, read_string, read_bool, read_usize, read_option,
  read_field, find, fields_of, read_struct,
}
use filestore.Sampler.{TracingSampleOptions}
use filestore.Sampler.Serde.{RuleIsValid, read_options-value, options_value}
use filestore.Logging.{
  LogFormat, json, text, OtlpExportProtocol, grpc, http, LoggingOptions, empty_string_as_default,
}
use filestore.Logging.Serde.{
  serialize, deserialize, read_fields, format_name, protocol_name, option_value, header_fields,
  headers_field, format_of, protocol_of_name, read_format, read_protocol, has_key, insert,
  header_map, read_headers,
}

-- The keys of a `HashMap` are distinct.
abbrev pub DistinctKeys : List (Text × Text) → Type 0
DistinctKeys [] = Unit {0}
DistinctKeys ((k, v) ∷ headers) = (has_key headers k ≡ false) × DistinctKeys headers

abbrev pub RatioIsValid : Option TracingSampleOptions → Type 0
RatioIsValid none = Unit {0}
RatioIsValid (some ratio) = All RuleIsValid ratio.rules

-- The collections are those of Rust's sets and maps, and the number is a `usize`.
abbrev pub IsValid : LoggingOptions → Type 0
IsValid o =
    (o.max_log_files < 2 ^ 64) × RatioIsValid o.tracing_sample_ratio × DistinctKeys o.otlp_headers

read_option-string : (o : Option Text) → read_option read_string (option_value string o) ≡ some o
unfolding read_option read_string option_value
read_option-string none = refl
read_option-string (some s) = refl

read_option-ratio :
    (o : Option TracingSampleOptions)
    → RatioIsValid o
    → read_option filestore.Sampler.Serde.read_options (option_value options_value o) ≡ some o
unfolding read_option option_value options_value
read_option-ratio none h = refl
read_option-ratio (some ratio) h = rw (read_options-value ratio h) refl

read_option-protocol :
    (o : Option OtlpExportProtocol)
    → read_option read_protocol (option_value (λ p. string (protocol_name p)) o) ≡ some o
unfolding read_option option_value read_protocol protocol_name protocol_of_name ◌≟◌
read_option-protocol none = refl
read_option-protocol (some grpc) = refl
read_option-protocol (some http) = refl

read_format-name : (f : LogFormat) → read_format (string (format_name f)) ≡ some f
unfolding read_format format_name format_of empty_string_as_default ◌≟◌
read_format-name json = refl
read_format-name text = refl

header_map-fields :
    (headers : List (Text × Text))
    → DistinctKeys headers
    → header_map (header_fields headers) ≡ some headers
unfolding header_map header_fields read_string insert
header_map-fields [] h = refl
header_map-fields ((k, v) ∷ headers) (h, hs) = rw (header_map-fields headers hs, insert, h) refl

read_usize-number : (n : ℕ) → n < 2 ^ 64 → read_usize (filestore.Serde.number n) ≡ some n
unfolding read_usize
read_usize-number n h = rw (lt→ltb n (2 ^ 64) h) refl

options : LoggingOptions → List (Text × Text) → LoggingOptions
options o headers = record o { otlp_headers = headers }

with_headers :
    (o : LoggingOptions) (headers : List (Text × Text))
    → o.max_log_files < 2 ^ 64
    → RatioIsValid o.tracing_sample_ratio
    → DistinctKeys headers
    → deserialize (serialize (options o headers)) ≡ some (options o headers)
unfolding deserialize serialize read_struct fields_of read_fields read_field find headers_field ◌≟◌
    read_headers read_string read_bool options
with_headers o [] bound ratio keys =
    rw
      (
        read_option-string o.level,
        read_format-name o.log_format,
        read_usize-number o.max_log_files bound,
        read_option-string o.otlp_endpoint,
        read_option-ratio o.tracing_sample_ratio ratio,
        read_option-protocol o.otlp_export_protocol,
      )
      refl
with_headers o (h ∷ headers) bound ratio keys =
    rw
      (
        read_option-string o.level,
        read_format-name o.log_format,
        read_usize-number o.max_log_files bound,
        read_option-string o.otlp_endpoint,
        read_option-ratio o.tracing_sample_ratio ratio,
        read_option-protocol o.otlp_export_protocol,
        header_map-fields (h ∷ headers) keys,
      )
      refl

-- Logging options are read back from what they are written as: `None`, an empty map, which is not
-- written, and the ratios of the sampling rules, whatever number they are, included. The sets and
-- maps have no repetitions, and the number of files fits a `usize`.
pub deserialize-serialize : (o : LoggingOptions) → IsValid o → deserialize (serialize o) ≡ some o
unfolding options
deserialize-serialize o (bound, ratio, keys) = with_headers o o.otlp_headers bound ratio keys
