-- ===== src/Server/Grpc/Serde.antt =====
-- crates/server/src/grpc.rs: the derived `Serialize` and `Deserialize` of `GrpcServerConfig`, whose
-- fields have no defaults for serde.
use filestore.Base.{◌≡◌, refl, ◌↔◌, List, [], ◌∷◌, Option, none, some}
use filestore.Text.{Text, codes, ◌≟◌}
use filestore.Serde.{
  Value, string, object, Fields, no_fields, field, Reader, read_string, find, read_once,
  read_required, fields_of, read_struct, ◌>>=◌,
}
use filestore.Serde.Required.{Given, read_required-Given, Given-read_required}
use filestore.ReadableSize.{ReadableSize}
use filestore.ReadableSize.Serde.{size_value, read_size, Kept, read_size-value}
use filestore.Server.Grpc.{GrpcServerConfig}

unfoldable pub config_value : GrpcServerConfig → Value
unfolding size_value
config_value c = object (
    field (codes "bind_address") (string c.bind_address) (
      field (codes "server_address") (string c.server_address) (
        field (codes "max_recv_message_size") (size_value c.max_recv_message_size)
          (field (codes "max_send_message_size") (size_value c.max_send_message_size) no_fields))))

-- The config of the fields, all of which must be readable.
config_of :
    Option Text → Option Text → Option ReadableSize → Option ReadableSize → Option GrpcServerConfig
config_of bind server recv send = do
  bind_address ← bind
  server_address ← server
  max_recv_message_size ← recv
  max_send_message_size ← send
  some (record {
    bind_address = bind_address;
    server_address = server_address;
    max_recv_message_size = max_recv_message_size;
    max_send_message_size = max_send_message_size;
  })

read_fields : Fields → Option GrpcServerConfig
unfolding config_of read_required read_string read_size
read_fields fs =
    config_of (read_required read_string (codes "bind_address") fs)
      (read_required read_string (codes "server_address") fs)
      (read_required read_size (codes "max_recv_message_size") fs)
      (read_required read_size (codes "max_send_message_size") fs)

field_names : List Text
field_names =
    codes "bind_address"
    ∷ codes "server_address"
    ∷ codes "max_recv_message_size"
    ∷ codes "max_send_message_size"
    ∷ []

unfoldable pub read_config : Reader GrpcServerConfig
unfolding field_names read_struct read_fields
read_config = read_struct field_names read_fields

pub read_config-value :
    (c : GrpcServerConfig)
    → Kept c.max_recv_message_size
    → Kept c.max_send_message_size
    → read_config (config_value c) ≡ some c
unfolding read_config config_value read_struct fields_of read_fields config_of read_required
    read_once read_string find ◌≟◌
read_config-value c recv send =
    rw (read_size-value c.max_recv_message_size recv, read_size-value c.max_send_message_size send)
      refl

-- Each field is there once, with a value of its type; what else is there does not matter.
pub record Describes (fs : Fields) (c : GrpcServerConfig) : Type 0 where
  pub bind_address : Given read_string (codes "bind_address") fs c.bind_address
  pub server_address : Given read_string (codes "server_address") fs c.server_address
  pub max_recv : Given read_size (codes "max_recv_message_size") fs c.max_recv_message_size
  pub max_send : Given read_size (codes "max_send_message_size") fs c.max_send_message_size

config_of_fields :
    (bind server : Option Text) (recv send : Option ReadableSize) (c : GrpcServerConfig)
    → config_of bind server recv send ≡ some c
    → (bind ≡ some c.bind_address)
      × (server ≡ some c.server_address)
      × (recv ≡ some c.max_recv_message_size)
      × (send ≡ some c.max_send_message_size)
unfolding config_of
config_of_fields none server recv send c h = cc
config_of_fields (some b) none recv send c h = cc
config_of_fields (some b) (some a) none send c h = cc
config_of_fields (some b) (some a) (some r) none c h = cc
config_of_fields (some b) (some a) (some r) (some s) c h = (cc, cc, cc, cc)

read_fields-Describes :
    (fs : Fields) (c : GrpcServerConfig) → read_fields fs ≡ some c → Describes fs c
unfolding read_fields
read_fields-Describes fs c h =
    let (bind, server, recv, send) = config_of_fields _ _ _ _ c h in
    record {
      bind_address = read_required-Given read_string (codes "bind_address") fs bind;
      server_address = read_required-Given read_string (codes "server_address") fs server;
      max_recv = read_required-Given read_size (codes "max_recv_message_size") fs recv;
      max_send = read_required-Given read_size (codes "max_send_message_size") fs send;
    }

Describes-read_fields :
    (fs : Fields) (c : GrpcServerConfig) → Describes fs c → read_fields fs ≡ some c
unfolding read_fields config_of
Describes-read_fields fs c d =
    rw
      (
        Given-read_required read_string (codes "bind_address") fs d.bind_address,
        Given-read_required read_string (codes "server_address") fs d.server_address,
        Given-read_required read_size (codes "max_recv_message_size") fs d.max_recv,
        Given-read_required read_size (codes "max_send_message_size") fs d.max_send,
      )
      refl

pub read_config-Describes :
    (fs : Fields) (c : GrpcServerConfig) → (read_config (object fs) ≡ some c) ↔ Describes fs c
unfolding read_config read_struct fields_of
read_config-Describes fs c = (read_fields-Describes fs c, Describes-read_fields fs c)
