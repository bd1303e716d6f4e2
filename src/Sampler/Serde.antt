-- ===== src/Sampler/Serde.antt =====
-- crates/common/src/telemetry/tracing_sampler.rs: the derived `Serialize` and `Deserialize` of the
-- sampling options.
use filestore.Base.{◌≡◌, refl, false, List, [], ◌∷◌, Option, none, some, if◌then◌else◌, All}
use filestore.Text.{Text, codes, ◌≟◌}
use filestore.F64.{F64}
use filestore.Serde.{
  Value, float, string, array, object, Values, no_items, item, no_fields, field, Reader,
  read_string, read_f64, read_values, read_list, read_field, find, fields_of, read_struct,
}
use filestore.Sampler.{
  TracingSampleRule, TracingSampleOptions, default_rule, default_options, contains,
}

-- A set is written as a sequence.
strings : List Text → Values
strings [] = no_items
strings (t ∷ ts) = item (string t) (strings ts)

rule_value : TracingSampleRule → Value
unfolding strings
rule_value r = object (
    field (codes "protocol") (string r.protocol) (
      field (codes "request_types") (array (strings r.request_types))
        (field (codes "ratio") (float r.ratio) no_fields)))

rule_values : List TracingSampleRule → Values
unfolding rule_value
rule_values [] = no_items
rule_values (r ∷ rs) = item (rule_value r) (rule_values rs)

unfoldable pub options_value : TracingSampleOptions → Value
unfolding rule_values
options_value o = object (
    field (codes "default_ratio") (float o.default_ratio)
      (field (codes "rules") (array (rule_values o.rules)) no_fields))

-- The set of a sequence.
collect : List Text → List Text
unfolding contains
collect [] = []
collect (t ∷ ts) = let rest = collect ts in if contains rest t then rest else t ∷ rest

set_of : Option (List Text) → Option (List Text)
unfolding collect
set_of none = none
set_of (some ts) = some (collect ts)

read_set : Reader (List Text)
unfolding set_of read_list read_string
read_set v = set_of (read_list read_string v)

rule_of : Option Text → Option (List Text) → Option F64 → Option TracingSampleRule
rule_of (some p) (some ts) (some x) = some (record { protocol = p; request_types = ts; ratio = x })
rule_of _ _ _ = none

read_rule : Reader TracingSampleRule
unfolding rule_of read_struct read_set read_field read_string read_f64 default_rule
read_rule = read_struct (codes "protocol" ∷ codes "request_types" ∷ codes "ratio" ∷ []) λ fs.
    rule_of (read_field read_string default_rule.protocol (codes "protocol") fs)
      (read_field read_set default_rule.request_types (codes "request_types") fs)
      (read_field read_f64 default_rule.ratio (codes "ratio") fs)

options_of : Option F64 → Option (List TracingSampleRule) → Option TracingSampleOptions
options_of (some x) (some rs) = some (record { default_ratio = x; rules = rs })
options_of _ _ = none

unfoldable pub read_options : Reader TracingSampleOptions
unfolding options_of read_struct read_rule read_list read_field read_f64 default_options
read_options = read_struct (codes "default_ratio" ∷ codes "rules" ∷ []) λ fs.
    options_of (read_field read_f64 default_options.default_ratio (codes "default_ratio") fs)
      (read_field (read_list read_rule) default_options.rules (codes "rules") fs)

-- No repetitions, as in a `HashSet`.
abbrev pub Distinct : List Text → Type 0
Distinct [] = Unit {0}
Distinct (t ∷ ts) = (contains ts t ≡ false) × Distinct ts

abbrev pub RuleIsValid : TracingSampleRule → Type 0
RuleIsValid r = Distinct r.request_types

collect-Distinct : (ts : List Text) → Distinct ts → collect ts ≡ ts
unfolding collect
collect-Distinct [] h = refl
collect-Distinct (t ∷ ts) (h, hs) = rw (collect-Distinct ts hs, h) refl

read_values-strings : (ts : List Text) → read_values read_string (strings ts) ≡ some ts
unfolding read_values read_string strings
read_values-strings [] = refl
read_values-strings (t ∷ ts) = rw (read_values-strings ts) refl

read_rule-value : (r : TracingSampleRule) → RuleIsValid r → read_rule (rule_value r) ≡ some r
unfolding read_rule rule_value read_struct fields_of read_field find ◌≟◌ read_set read_list
    read_string read_f64 set_of rule_of
read_rule-value r h =
    rw (read_values-strings r.request_types, set_of, collect-Distinct r.request_types h) refl

read_values-rules :
    (rs : List TracingSampleRule)
    → All RuleIsValid rs
    → read_values read_rule (rule_values rs) ≡ some rs
unfolding read_values rule_values
read_values-rules [] h = refl
read_values-rules (r ∷ rs) (h, hs) = rw (read_rule-value r h, read_values-rules rs hs) refl

pub read_options-value :
    (o : TracingSampleOptions) → All RuleIsValid o.rules → read_options (options_value o) ≡ some o
unfolding read_options options_value read_struct fields_of read_field find ◌≟◌ read_list read_f64
    options_of
read_options-value o h = rw (read_values-rules o.rules h) refl
