-- ===== src/Server/Rest.antt =====
-- crates/server/src/http.rs: the REST server. The router of axum is a parameter.
pub mod Routing
pub mod Serde
use filestore.Base.{
  ℕ, ◌*◌, ◌^◌, Bool, true, false, List, [], ◌∷◌, Option, none, some, if◌then◌else◌,
}
use filestore.Text.{Text, codes}
use filestore.Tokio.{Tokio}
use filestore.ReadableSize.{ReadableSize, as_bytes, mib}
use filestore.Errors.{network, parse_address_error}
use filestore.Server.{Error, socket_addr, Service, spawned}

-- `DEFAULT_MAX_HTTP_BODY_SIZE`, `ReadableSize::mb(100)`
unfoldable pub default_max_http_body_size : ReadableSize
default_max_http_body_size = record { bytes = 100 * mib }

pub record RestServerConfig : Type 0 where
  pub bind_address : Text
  pub max_body_size : ReadableSize
  pub enable_cors : Bool

unfoldable pub default_config : RestServerConfig
unfolding default_max_http_body_size
default_config = record {
  bind_address = codes "127.0.0.1:3000";
  max_body_size = default_max_http_body_size;
  enable_cors = true;
}

-- The functions that answer requests: the two of the program, and whatever else a route handler
-- that is given to `start_rest_server` adds, by its name.
pub data Endpoint : Type 0 where
  health_check api_health_handler : Endpoint
  of_handler : Text → Endpoint

-- The layers that the program adds; a body limit is in bytes.
pub data Layer : Type 0 where
  otel_in_response otel_axum : Layer
  body_limit : ℕ → Layer
  cors_any : Layer

-- What the program uses of axum's `Router`, and how a router answers: the endpoint of a path, and
-- the layers around it, outermost first.
pub record Axum : Type 1 where
  pub Router : Type 0
  pub empty : Router
  pub route : Text → Endpoint → Router → Router
  pub layer : Layer → Router → Router
  pub find : Router → Text → Option (Endpoint × List Layer)

-- `axum::http::StatusCode::OK` and the body.
pub record Response : Type 0 where
  pub status : ℕ
  pub body : Text

unfoldable pub health_check_response : Response
health_check_response = record { status = 200; body = codes "OK" }

-- The object that `api_health_handler` serialises; the time and the package's version are parameters.
pub record HealthInfo : Type 0 where
  pub status : Text
  pub timestamp : Text
  pub service : Text
  pub version : Text

unfoldable pub health_info : Text → Text → HealthInfo
health_info now version = record {
  status = codes "healthy";
  timestamp = now;
  service = codes "rsketch";
  version = version;
}

module _ (A : Axum) where
  open A use {Router, empty, route, layer}

  unfoldable pub health_routes : Router → Router
  health_routes r =
      route (codes "/api/health") api_health_handler
        (route (codes "/api/v1/health") api_health_handler r)

  unfoldable pub with_cors : Bool → Router → Router
  with_cors true r = layer cors_any r
  with_cors false r = r

  -- The router before the handlers are registered, on a target whose pointers have 64 bits.
  unfoldable pub base_router : RestServerConfig → Router
  unfolding as_bytes
  base_router c =
      layer (body_limit (as_bytes c.max_body_size))
        (layer otel_axum (layer otel_in_response (route (codes "/health") health_check empty)))

  unfoldable pub register_handlers : List (Router → Router) → Router → Router
  register_handlers [] r = r
  register_handlers (handler ∷ handlers) r = register_handlers handlers (handler r)

  unfoldable pub build_router : RestServerConfig → List (Router → Router) → Router
  unfolding base_router with_cors register_handlers
  build_router c handlers = register_handlers handlers (with_cors c.enable_cors (base_router c))

  -- A refusal, or the handler and the router that its task serves.
  pub data RestStart (T : Tokio) : Type 0 where
    refused : Error → RestStart T
    started : Service T → Router → RestStart T

  -- `parse` is the standard library's `str::parse::<SocketAddr>`, up to whether it succeeds.
  unfoldable pub start_rest_server :
      (T : Tokio) → (Text → Bool) → RestServerConfig → List (Router → Router) → RestStart T
  start_rest_server T parse c handlers =
      if parse c.bind_address
      then started (spawned T []) (build_router c handlers)
      else refused (network (parse_address_error c.bind_address socket_addr))
