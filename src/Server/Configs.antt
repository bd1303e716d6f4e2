-- ===== src/Server/Configs.antt =====
-- crates/server/src/http.rs and grpc.rs: the configurations of both servers as serde values.
use filestore.Base.{◌≡◌, ◌↔◌, some}
use filestore.Serde.{Fields, object}
use filestore.ReadableSize.Serde.{Kept}
use filestore.Server.Rest
use filestore.Server.Rest.{RestServerConfig}
use filestore.Server.Grpc
use filestore.Server.Grpc.{GrpcServerConfig}

-- The configurations of both servers are read back from what they are written as, if their sizes
-- fit a u64 and are below 2^63 or whole numbers of MiB.
pub configs_survive :
    (rest : RestServerConfig) (grpc : GrpcServerConfig)
    → Kept rest.max_body_size
    → Kept grpc.max_recv_message_size
    → Kept grpc.max_send_message_size
    → (Rest.Serde.read_config (Rest.Serde.config_value rest) ≡ some rest)
      × (Grpc.Serde.read_config (Grpc.Serde.config_value grpc) ≡ some grpc)
configs_survive rest grpc body recv send =
    (Rest.Serde.read_config-value rest body, Grpc.Serde.read_config-value grpc recv send)

-- An object is read as the configuration of a server exactly if each of its fields is there once,
-- with a value that is read as the configuration's: their order and other fields do not matter, and
-- no field has a default.
pub configs_read_iff :
    (fs : Fields) (rest : RestServerConfig) (grpc : GrpcServerConfig)
    → ((Rest.Serde.read_config (object fs) ≡ some rest) ↔ Rest.Serde.Describes fs rest)
      × ((Grpc.Serde.read_config (object fs) ≡ some grpc) ↔ Grpc.Serde.Describes fs grpc)
configs_read_iff fs rest grpc =
    (Rest.Serde.read_config-Describes fs rest, Grpc.Serde.read_config-Describes fs grpc)
