-- ===== src/Context.antt =====
-- crates/common/src/telemetry/tracing_context.rs: carrying a trace between services.
-- OpenTelemetry's contexts and propagator, and `serde_json`, are parameters.
use filestore.Base.{◌≡◌, ap, ◌∙◌, List, [], Option, none, some}
use filestore.Text.{Text}

-- `W3cTrace`, a `HashMap`, is a list of pairs.
abbrev pub W3cTrace : Type 0
W3cTrace = List (Text × Text)

pub record OpenTelemetry : Type 1 where
  pub Context : Type 0
  pub new_context : Context
  pub Span : Type 0
  pub current_span : Span
  pub span_context : Span → Context
  pub set_parent : Context → Span → Span
  pub inject_context : Context → W3cTrace → W3cTrace
  pub extract : W3cTrace → Context
  pub to_string : W3cTrace → Text
  pub from_str : Text → Option W3cTrace

-- `FutureExt::trace`, with `Instrument::instrument` of the tracing crate.
unfoldable trace :
    {Future Span Instrumented : Type 0}
    → (Future → Span → Instrumented)
    → Future
    → Span
    → Instrumented
trace instrument future span = instrument future span

module _ (O : OpenTelemetry) where
  open O use {
    Context, new_context, Span, current_span, span_context, set_parent, inject_context, extract,
    to_string, from_str,
  }

  unfoldable pub from_span : Span → Context
  from_span span = span_context span

  unfoldable pub from_current_span : Context
  unfolding from_span
  from_current_span = from_span current_span

  unfoldable pub new : Context
  new = new_context

  unfoldable pub attach : Context → Span → Span
  attach c span = set_parent c span

  unfoldable pub to_w3c : Context → W3cTrace
  to_w3c c = inject_context c []

  unfoldable pub from_w3c : W3cTrace → Context
  from_w3c fields = extract fields

  -- `unwrap` on `to_string` cannot fail: the keys are strings.
  unfoldable pub to_json : Context → Text
  unfolding to_w3c
  to_json c = to_string (to_w3c c)

  or_default : Option W3cTrace → W3cTrace
  or_default none = []
  or_default (some fields) = fields

  unfoldable pub from_json : Text → Context
  unfolding from_w3c or_default
  from_json json = from_w3c (or_default (from_str json))

  -- A trace that is sent as JSON to another service, whose new span is attached to it, gives that
  -- span the parent it would have had at home, if the propagator and the serialiser keep the
  -- context. A text that is no JSON object, of which the propagator makes a new context, reads as
  -- a new context.
  pub from_json-to_json :
      (c : Context) (span : Span) (bad : Text)
      → from_str (to_string (inject_context c [])) ≡ some (inject_context c [])
      → extract (inject_context c []) ≡ c
      → extract [] ≡ new_context
      → from_str bad ≡ none
      → (attach (from_json (to_json c)) span ≡ attach c span) × (from_json bad ≡ new)
  unfolding from_json to_json attach new from_w3c to_w3c or_default
  from_json-to_json c span bad keeps carries empty broken = (
    ap (λ d. set_parent d span) (ap (λ fields. extract (or_default fields)) keeps ∙ carries),
    ap (λ fields. extract (or_default fields)) broken ∙ empty,
  )
