-- ===== src/Tests/Options.antt =====
-- Logging options as values.
use filestore.Base.{◌≡◌, refl, arith, true, [], ◌∷◌, none, some}
use filestore.Text.{codes, ◌≟◌}
use filestore.F64.{nan}
use filestore.Serde.{Value, bool, number, string, object, no_fields, field}
use filestore.Sampler.{TracingSampleOptions, TracingSampleRule}
use filestore.Logging.{LoggingOptions, grpc, default_options}
use filestore.Logging.Serde.{serialize, deserialize, has_key}
use filestore.Logging.Serde.RoundTrip.{deserialize-serialize}

-- Nothing is given: every field has its default.
empty_config : deserialize (object no_fields) ≡ some default_options
unfolding deserialize default_options
empty_config = refl

-- An empty format is the default, and a field that nobody knows is ignored.
abbrev lenient : Value
lenient = object (
    field (codes "log_format") (string [])
      (field (codes "colour") (bool true) (field (codes "max_log_files") (number 24) no_fields)))

lenient_config : deserialize lenient ≡ some (record default_options { max_log_files = 24 })
unfolding deserialize default_options
lenient_config = refl

unknown_format :
    deserialize (object (field (codes "log_format") (string (codes "xml")) no_fields)) ≡ none
unfolding deserialize
unknown_format = refl

repeated_field :
    deserialize (
      object
        (field (codes "dir") (string []) (field (codes "dir") (string (codes "logs")) no_fields)))
    ≡ none
unfolding deserialize
repeated_field = refl

abbrev grpc_rule : TracingSampleRule
grpc_rule = record {
  protocol = codes "grpc";
  request_types = codes "hello" ∷ codes "health" ∷ [];
  ratio = nan;
}

abbrev full : LoggingOptions
unfolding default_options
full = record default_options {
  level = some (codes "debug");
  tracing_sample_ratio = some (record { default_ratio = nan; rules = grpc_rule ∷ [] });
  otlp_export_protocol = some grpc;
  otlp_headers = (codes "authorization", codes "token") ∷ [];
}

deserialize-serialize_example : deserialize (serialize full) ≡ some full
unfolding full default_options filestore.Sampler.contains has_key ◌≟◌
deserialize-serialize_example =
    deserialize-serialize full (omega arith, ((refl, (refl, tt)), tt), (refl, tt))
