-- ===== src/Server/Grpc.antt =====
-- crates/server/src/grpc.rs: the gRPC server. Tonic's builders are parameters.
pub mod Start
pub mod Serde
use filestore.Base.{ℕ, ◌*◌, ◌^◌, Bool, List, [], ◌∷◌, Option, none, some, if◌then◌else◌}
use filestore.Text.{Text, codes}
use filestore.Tokio.{Tokio}
use filestore.ReadableSize.{ReadableSize, mib}
use filestore.Errors.{network, parse_address_error}
use filestore.Server.{Error, socket_addr, Service, spawned, TaskState, running}

-- `DEFAULT_MAX_GRPC_RECV_MESSAGE_SIZE` and `DEFAULT_MAX_GRPC_SEND_MESSAGE_SIZE`
unfoldable pub default_max_message_size : ReadableSize
default_max_message_size = record { bytes = 512 * mib }

pub record GrpcServerConfig : Type 0 where
  pub bind_address : Text
  pub server_address : Text
  pub max_recv_message_size : ReadableSize
  pub max_send_message_size : ReadableSize

unfoldable pub default_config : GrpcServerConfig
unfolding default_max_message_size
default_config = record {
  bind_address = codes "127.0.0.1:50051";
  server_address = codes "127.0.0.1:50051";
  max_recv_message_size = default_max_message_size;
  max_send_message_size = default_max_message_size;
}

pub data ServingStatus : Type 0 where
  unknown serving_status not_serving : ServingStatus

-- What the program uses of tonic and of its reflection and health crates.
pub record Tonic : Type 1 where
  -- an encoded file descriptor set
  pub DescriptorSet : Type 0
  pub reflection_descriptor_set : DescriptorSet
  pub Builder : Type 0
  pub configure : Builder
  pub register_encoded_file_descriptor_set : DescriptorSet → Builder → Builder
  -- a service that the routes can hold
  pub GrpcService : Type 0
  pub build_v1 : Builder → Option GrpcService
  pub health_service : GrpcService
  pub RoutesBuilder : Type 0
  pub default_routes : RoutesBuilder
  pub add_service : GrpcService → RoutesBuilder → RoutesBuilder
  pub HealthReporter : Type 0
  pub set_service_status : Text → ServingStatus → HealthReporter → HealthReporter

module _ (N : Tonic) where
  open N use {
    DescriptorSet, reflection_descriptor_set, Builder, configure,
    register_encoded_file_descriptor_set, GrpcService, build_v1, health_service, RoutesBuilder,
    default_routes, add_service, HealthReporter, set_service_status,
  }

  -- The trait: the methods of one implementation. `readiness_reporting` does not use its token in
  -- any implementation of the program, so it is what it does to the reporter.
  pub record GrpcServiceHandler : Type 0 where
    pub service_name : Text
    pub file_descriptor_set : DescriptorSet
    pub register_service : RoutesBuilder → RoutesBuilder
    pub readiness_reporting : HealthReporter → HealthReporter

  -- The trait's own body of `readiness_reporting`.
  unfoldable pub default_readiness_reporting : HealthReporter → HealthReporter
  default_readiness_reporting reporter = set_service_status [] serving_status reporter

  -- The sets of the services in their order, and then that of the reflection service.
  unfoldable pub file_descriptor_sets : List GrpcServiceHandler → List DescriptorSet
  file_descriptor_sets [] = reflection_descriptor_set ∷ []
  file_descriptor_sets (service ∷ services) =
      service.file_descriptor_set ∷ file_descriptor_sets services

  unfoldable pub register_sets : List DescriptorSet → Builder → Builder
  register_sets [] builder = builder
  register_sets (set ∷ sets) builder =
      register_sets sets (register_encoded_file_descriptor_set set builder)

  -- `none` is the panic of `expect`.
  unfoldable pub build_reflection_service : List DescriptorSet → Option GrpcService
  unfolding register_sets
  build_reflection_service sets = build_v1 (register_sets sets configure)

  unfoldable pub register_services : List GrpcServiceHandler → RoutesBuilder → RoutesBuilder
  register_services [] routes = routes
  register_services (service ∷ services) routes =
      register_services services (service.register_service routes)

  -- One readiness task for each service.
  unfoldable pub spawn_reporters : List GrpcServiceHandler → List TaskState
  spawn_reporters [] = []
  spawn_reporters (service ∷ services) = running ∷ spawn_reporters services

  -- A refusal, the panic of the reflection service, or the handler with the routes it serves.
  pub data GrpcStart (T : Tokio) : Type 0 where
    refused : Error → GrpcStart T
    reflection_panics : GrpcStart T
    started : Service T → RoutesBuilder → GrpcStart T

  unfoldable pub serve : (T : Tokio) → List GrpcServiceHandler → Option GrpcService → GrpcStart T
  unfolding register_services spawn_reporters
  serve T services none = reflection_panics
  serve T services (some reflection) = started (spawned T (spawn_reporters services)) (
      register_services services
        (add_service reflection (add_service health_service default_routes)))

  -- `parse` is the standard library's `str::parse::<SocketAddr>`, up to whether it succeeds.
  unfoldable pub start_grpc_server :
      (T : Tokio) → (Text → Bool) → GrpcServerConfig → List GrpcServiceHandler → GrpcStart T
  unfolding serve build_reflection_service file_descriptor_sets
  start_grpc_server T parse c services =
      if parse c.bind_address
      then serve T services (build_reflection_service (file_descriptor_sets services))
      else refused (network (parse_address_error c.bind_address socket_addr))
