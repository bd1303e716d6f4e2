-- ===== src/Sampler.antt =====
-- crates/common/src/telemetry/tracing_sampler.rs: sampling rules, their equality, and the decision.
-- A `HashSet` is a list without repetitions. The trace id, the contexts and the attribute values
-- belong to OpenTelemetry: they are parameters.
pub mod Rules
pub mod Attributes
pub mod Probability
pub mod Equality
pub mod Serde
pub mod Sets
pub mod Alike
use filestore.Base.{
  ℕ, zero, suc, ◌+◌, ◌*◌, ◌/◌, ◌^◌, Bool, true, false, ◌&&◌, ◌||◌, List, [], ◌∷◌, Option, none,
  some, ltb, ◌==◌, if◌then◌else◌, length,
}
use filestore.Text.{Text, codes, ◌≟◌}
use filestore.F64.{F64, le, max, mul, of_u64, to_u64, one, nought}

pub record TracingSampleRule : Type 0 where
  pub protocol : Text
  pub request_types : List Text
  pub ratio : F64

pub record TracingSampleOptions : Type 0 where
  pub default_ratio : F64
  pub rules : List TracingSampleRule

unfoldable pub default_rule : TracingSampleRule
default_rule = record { protocol = []; request_types = []; ratio = nought }

unfoldable pub default_options : TracingSampleOptions
default_options = record { default_ratio = nought; rules = [] }

unfoldable pub contains : List Text → Text → Bool
unfolding ◌≟◌
contains [] t = false
contains (u ∷ us) t = u ≟ t || contains us t

-- The inner `if let … && …`.
contains_type : List Text → Option Text → Bool
contains_type types none = false
contains_type types (some t) = contains types t

unfoldable pub match_types : List Text → Option Text → F64 → Option F64
unfolding contains_type
match_types [] request_type ratio = some ratio
match_types (u ∷ us) request_type ratio =
    if contains_type (u ∷ us) request_type then some ratio else none

unfoldable pub match_rule : TracingSampleRule → Text → Option Text → Option F64
unfolding match_types
match_rule r protocol request_type =
    if protocol ≟ r.protocol then match_types r.request_types request_type r.ratio else none

-- `==` on `f64`: NaN is not equal to itself.
unfoldable pub eq_f64 : F64 → F64 → Bool
eq_f64 x y = le x y && le y x

all_contained : List Text → List Text → Bool
all_contained [] other = true
all_contained (t ∷ ts) other = contains other t && all_contained ts other

-- `==` on `HashSet`
pub eq_sets : List Text → List Text → Bool
unfolding all_contained
eq_sets a b = length a == length b && all_contained a b

unfoldable pub eq_rule : TracingSampleRule → TracingSampleRule → Bool
unfolding eq_sets
eq_rule r s =
    r.protocol ≟ s.protocol && eq_sets r.request_types s.request_types && eq_f64 r.ratio s.ratio

pub eq_rules : List TracingSampleRule → List TracingSampleRule → Bool
eq_rules [] [] = true
eq_rules [] (s ∷ ss) = false
eq_rules (r ∷ rs) [] = false
eq_rules (r ∷ rs) (s ∷ ss) = eq_rule r s && eq_rules rs ss

unfoldable pub eq_options : TracingSampleOptions → TracingSampleOptions → Bool
unfolding eq_rules
eq_options a b = eq_f64 a.default_ratio b.default_ratio && eq_rules a.rules b.rules

-- The boxed `ShouldSample`: OpenTelemetry's ratio sampler, or the options themselves.
pub data CreatedSampler : Type 0 where
  trace_id_ratio_based : F64 → CreatedSampler
  rule_based : TracingSampleOptions → CreatedSampler

created : TracingSampleOptions → List TracingSampleRule → CreatedSampler
created opt [] = trace_id_ratio_based opt.default_ratio
created opt (r ∷ rs) = rule_based opt

unfoldable pub create_sampler : TracingSampleOptions → CreatedSampler
unfolding created
create_sampler opt = created opt opt.rules

pub data SamplingDecision : Type 0 where
  discard record_and_sample : SamplingDecision

-- `u64::from_be_bytes`
unfoldable pub from_be_bytes : ℕ → List ℕ → ℕ
from_be_bytes acc [] = acc
from_be_bytes acc (b ∷ bytes) = from_be_bytes (acc * 256 + b) bytes

-- The second half of `split_at`.
abbrev pub drop : ℕ → List ℕ → List ℕ
drop zero bytes = bytes
drop (suc n) [] = []
drop (suc n) (b ∷ bytes) = drop n bytes

unfoldable pub trace_id_low : List ℕ → ℕ
unfolding from_be_bytes
trace_id_low bytes = from_be_bytes 0 (drop 8 bytes)

unfoldable pub sample_based_on_probability : F64 → List ℕ → SamplingDecision
sample_based_on_probability prob bytes =
    let prob_upper_bound = to_u64 (mul (max prob nought) (of_u64 (2 ^ 63))) in
    let rnd_from_trace_id = trace_id_low bytes / 2 in
    if le one prob
    then record_and_sample
    else if ltb rnd_from_trace_id prob_upper_bound
    then record_and_sample
    else discard

-- What the sampler uses of OpenTelemetry.
pub record Telemetry : Type 1 where
  pub TraceId : Type 0
  pub to_bytes : TraceId → List ℕ
  pub Context : Type 0
  pub TraceState : Type 0
  pub default_state : TraceState
  -- `ctx.span().span_context().trace_state()`
  pub state_of : Context → TraceState
  pub AttributeValue : Type 0
  pub as_str : AttributeValue → Text

-- `rules.iter().find_map(..)`
unfoldable pub find_ratio : List TracingSampleRule → Text → Option Text → Option F64
find_ratio [] protocol request_type = none
find_ratio (r ∷ rs) protocol request_type =
    let later = find_ratio rs protocol request_type in
    elim (match_rule r protocol request_type) [ some ratio ↦ some ratio | none ↦ later ]

pub ratio_for : TracingSampleOptions → Option Text → Option Text → F64
ratio_for o none request_type = o.default_ratio
ratio_for o (some protocol) request_type = elim (find_ratio o.rules protocol request_type) [
  | some ratio ↦ ratio
  | none ↦ o.default_ratio
]

module _ (T : Telemetry) where
  open T use {
    TraceId, to_bytes, Context, TraceState, default_state, state_of, AttributeValue, as_str,
  }

  pub record KeyValue : Type 0 where
    pub key : Text
    pub val : AttributeValue

  pub record SamplingResult : Type 0 where
    pub decision : SamplingDecision
    pub attributes : List KeyValue
    pub trace_state : TraceState

  -- The loop over the attributes: a later entry overwrites an earlier one.
  unfoldable pub read_attributes :
      List KeyValue → Option Text → Option Text → Option Text × Option Text
  read_attributes [] protocol request_type = (protocol, request_type)
  read_attributes (kv ∷ kvs) protocol request_type =
      read_attributes kvs (if kv.key ≟ codes "protocol" then some (as_str kv.val) else protocol) (
        if kv.key ≟ codes "protocol"
        then request_type
        else if kv.key ≟ codes "request_type"
        then some (as_str kv.val)
        else request_type)

  pub parent_state : Option Context → TraceState
  parent_state none = default_state
  parent_state (some ctx) = state_of ctx

  unfoldable pub should_sample :
      TracingSampleOptions → Option Context → TraceId → List KeyValue → SamplingResult
  unfolding ratio_for parent_state
  should_sample o parent_context trace_id attributes =
      let (protocol, request_type) = read_attributes attributes none none in
      record {
        decision =
            sample_based_on_probability (ratio_for o protocol request_type) (to_bytes trace_id);
        attributes = [];
        trace_state = parent_state parent_context;
      }
