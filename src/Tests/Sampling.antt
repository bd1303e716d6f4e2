-- ===== src/Tests/Sampling.antt =====
-- Sampling: concrete rules, spans and trace ids.
use filestore.Base.{
  ℕ, ◌≡◌, ◌↔◌, inl, refl, true, false, List, [], ◌∷◌, none, some, ◌^◌, ◌/◌, ◌<◌, arith, All,
}
use filestore.Text.{Text, codes}
use filestore.F64.{F64, finite, nan, one_steps, nought, le}
use filestore.Sampler.{
  TracingSampleRule, TracingSampleOptions, match_rule, Telemetry, KeyValue, read_attributes,
  should_sample, sample_based_on_probability, record_and_sample, parent_state, trace_id_low,
  eq_options,
}
use filestore.Sampler.Rules.{Prescribes, should_sample_lem}
use filestore.Sampler.Alike.{should_sample_eq}
use filestore.Sampler.Serde.{RuleIsValid}
use filestore.Sampler.Attributes.{attributes_last}
use filestore.Sampler.Probability.{IsRepresentable, threshold, sample_iff}

-- A half and a quarter, in steps of 2^-1074.
abbrev half : F64
half = finite false (2 ^ 1073)

abbrev quarter : F64
quarter = finite false (2 ^ 1072)

abbrev reads : TracingSampleRule
reads = record {
  protocol = codes "grpc";
  request_types = codes "get" ∷ codes "scan" ∷ [];
  ratio = half;
}

abbrev options : TracingSampleOptions
options = record { default_ratio = nought; rules = reads ∷ [] }

abbrev trace_id : List ℕ
trace_id = 1 ∷ 2 ∷ 3 ∷ 4 ∷ 5 ∷ 6 ∷ 7 ∷ 8 ∷ 0 ∷ 0 ∷ 0 ∷ 0 ∷ 0 ∷ 0 ∷ 0 ∷ 9 ∷ []

low_half : trace_id_low trace_id ≡ 9
unfolding trace_id_low
low_half = refl

-- Ids that are bytes, and values that are texts.
abbrev telemetry : Telemetry
telemetry = record {
  TraceId = List ℕ;
  to_bytes = λ bytes. bytes;
  Context = ℕ;
  TraceState = ℕ;
  default_state = 0;
  state_of = λ state. state;
  AttributeValue = Text;
  as_str = λ value. value;
}

abbrev entry : Text → Text → KeyValue telemetry
entry k v = record { key = k; val = v }

abbrev attributes : List (KeyValue telemetry)
attributes =
    entry (codes "protocol") (codes "grpc") ∷ entry (codes "request_type") (codes "get") ∷ []

should_sample_lem_example :
    let (p, t) = read_attributes telemetry attributes none none in
    let result = should_sample telemetry options none trace_id attributes in
    (x : F64) × Prescribes options p t x
    × (result.decision ≡ sample_based_on_probability x trace_id)
    × (result.attributes ≡ [])
    × (result.trace_state ≡ parent_state telemetry none)
should_sample_lem_example = should_sample_lem telemetry options none trace_id attributes

half-IsRepresentable : IsRepresentable half
half-IsRepresentable = (1, 1073, omega arith, refl)

quarter-IsRepresentable : IsRepresentable quarter
quarter-IsRepresentable = (1, 1072, omega arith, refl)

id_fits : trace_id_low trace_id < 2 ^ 64
unfolding trace_id_low
id_fits = omega arith

sampled_at_quarter : sample_based_on_probability quarter trace_id ≡ record_and_sample
unfolding threshold one_steps trace_id_low
sampled_at_quarter = (sample_iff quarter trace_id quarter-IsRepresentable id_fits).1 (omega arith)

sample_iff_example :
    (sample_based_on_probability half trace_id ≡ record_and_sample)
    ↔ (trace_id_low trace_id / 2 < threshold half)
sample_iff_example = sample_iff half trace_id half-IsRepresentable id_fits

attributes_last_example :
    read_attributes telemetry attributes none none ≡ (some (codes "grpc"), some (codes "get"))
unfolding filestore.Text.◌≟◌
attributes_last_example =
    attributes_last telemetry attributes (some (codes "grpc")) (some (codes "get"))
      (inl (
        [],
        entry (codes "protocol") (codes "grpc"),
        entry (codes "request_type") (codes "get") ∷ [],
        refl,
        refl,
        (refl, tt),
        refl,
      ))
      (inl (
        entry (codes "protocol") (codes "grpc") ∷ [],
        entry (codes "request_type") (codes "get"),
        [],
        refl,
        refl,
        tt,
        refl,
      ))

-- Request types in two orders, and ratios 0 of both signs.
abbrev ordered : TracingSampleOptions
ordered = record {
  default_ratio = nought;
  rules =
      record {
        protocol = codes "grpc";
        request_types = codes "get" ∷ codes "put" ∷ [];
        ratio = half;
      }
      ∷ [];
}

abbrev reordered : TracingSampleOptions
reordered = record {
  default_ratio = finite true 0;
  rules =
      record {
        protocol = codes "grpc";
        request_types = codes "put" ∷ codes "get" ∷ [];
        ratio = half;
      }
      ∷ [];
}

are_equal : eq_options ordered reordered ≡ true
unfolding eq_options filestore.Text.◌≟◌ filestore.Sampler.contains filestore.F64.le
    filestore.Sampler.eq_rule filestore.Sampler.eq_f64
are_equal = refl

types-Distinct : All RuleIsValid ordered.rules
unfolding filestore.Sampler.contains filestore.Text.◌≟◌
types-Distinct = ((refl, (refl, tt)), tt)

should_sample_eq_example :
    should_sample telemetry ordered none trace_id attributes
    ≡ should_sample telemetry reordered none trace_id attributes
should_sample_eq_example =
    should_sample_eq telemetry ordered reordered types-Distinct are_equal none trace_id attributes
