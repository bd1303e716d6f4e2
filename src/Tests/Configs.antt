-- ===== src/Tests/Configs.antt =====
-- Server configurations as values.
use filestore.Base.{◌*◌, ◌≡◌, ◌↔◌, refl, arith, true, false, [], none, some}
use filestore.Text.{codes}
use filestore.Serde.{
  null, bool, number, negative, string, array, object, Fields, no_fields, field, no_items, item,
}
use filestore.ReadableSize.{mib}
use filestore.Server.Rest
use filestore.Server.Rest.{RestServerConfig}
use filestore.Server.Grpc
use filestore.Server.Grpc.{GrpcServerConfig}
use filestore.Server.Configs.{configs_survive, configs_read_iff}

abbrev rest : RestServerConfig
rest = record {
  bind_address = codes "0.0.0.0:80";
  max_body_size = record { bytes = 1500 };
  enable_cors = false;
}

abbrev grpc : GrpcServerConfig
grpc = record {
  bind_address = codes "[::1]:50051";
  server_address = codes "example.org:50051";
  max_recv_message_size = record { bytes = 3 * mib };
  max_send_message_size = record { bytes = 0 };
}

-- In another order, with a field that nobody knows.
abbrev reordered : Fields
reordered = field (codes "enable_cors") (bool false) (
    field (codes "workers") (number 4) (
      field (codes "max_body_size") (string (codes "1KiB"))
        (field (codes "bind_address") (string (codes "[::]:0")) no_fields)))

reordered_config : RestServerConfig
reordered_config = record {
  bind_address = codes "[::]:0";
  max_body_size = record { bytes = 1024 };
  enable_cors = false;
}

reads_reordered : Rest.Serde.read_config (object reordered) ≡ some reordered_config
unfolding Rest.Serde.read_config reordered_config
reads_reordered = refl

-- The fields of a sequence are in their order, and none may be left out.
reads_sequence :
    Rest.Serde.read_config
      (array (item (string (codes "[::]:0")) (item (number 1024) (item (bool false) no_items))))
    ≡ some reordered_config
unfolding Rest.Serde.read_config reordered_config
reads_sequence = refl

short_sequence :
    Rest.Serde.read_config (array (item (string (codes "[::]:0")) (item (number 1024) no_items)))
    ≡ none
unfolding Rest.Serde.read_config
short_sequence = refl

long_sequence :
    Rest.Serde.read_config (
      array (
        item
          (string (codes "[::]:0"))
          (item (number 1024) (item (bool false) (item null no_items)))))
    ≡ none
unfolding Rest.Serde.read_config
long_sequence = refl

-- Unlike the logging options, the configuration of a server has no defaults for serde.
empty_config : Rest.Serde.read_config (object no_fields) ≡ none
unfolding Rest.Serde.read_config
empty_config = refl

negative_size :
    Rest.Serde.read_config (
      object (
        field (codes "bind_address") (string []) (
          field
            (codes "enable_cors")
            (bool true)
            (field (codes "max_body_size") (negative 0) no_fields))))
    ≡ none
unfolding Rest.Serde.read_config
negative_size = refl

configs_survive_example :
    (Rest.Serde.read_config (Rest.Serde.config_value rest) ≡ some rest)
    × (Grpc.Serde.read_config (Grpc.Serde.config_value grpc) ≡ some grpc)
configs_survive_example =
    configs_survive rest grpc (omega arith, λ _. omega arith) (omega arith, λ _. omega arith)
      (omega arith, λ _. omega arith)

configs_read_iff_example :
    ((Rest.Serde.read_config (object reordered) ≡ some reordered_config)
      ↔ Rest.Serde.Describes reordered reordered_config)
    × ((Grpc.Serde.read_config (object reordered) ≡ some grpc)
        ↔ Grpc.Serde.Describes reordered grpc)
configs_read_iff_example = configs_read_iff reordered reordered_config grpc
