-- ===== src/Server/Rest/Serde.antt =====
-- crates/server/src/http.rs: the derived `Serialize` and `Deserialize` of `RestServerConfig`, whose
-- fields have no defaults for serde.
use filestore.Base.{◌≡◌, refl, ◌↔◌, Bool, [], ◌∷◌, Option, none, some}
use filestore.Text.{Text, codes, ◌≟◌}
use filestore.Serde.{
  Value, bool, string, object, Fields, no_fields, field, Reader, read_string, read_bool, find,
  read_once, read_required, fields_of, read_struct, ◌>>=◌,
}
use filestore.Serde.Required.{Given, read_required-Given, Given-read_required}
use filestore.ReadableSize.{ReadableSize}
use filestore.ReadableSize.Serde.{size_value, read_size, Kept, read_size-value}
use filestore.Server.Rest.{RestServerConfig}

unfoldable pub config_value : RestServerConfig → Value
unfolding size_value
config_value c = object (
    field (codes "bind_address") (string c.bind_address) (
      field (codes "max_body_size") (size_value c.max_body_size)
        (field (codes "enable_cors") (bool c.enable_cors) no_fields)))

-- The config of the fields, all of which must be readable.
config_of : Option Text → Option ReadableSize → Option Bool → Option RestServerConfig
config_of bind size cors = do
  bind_address ← bind
  max_body_size ← size
  enable_cors ← cors
  some (record {
    bind_address = bind_address;
    max_body_size = max_body_size;
    enable_cors = enable_cors;
  })

read_fields : Fields → Option RestServerConfig
unfolding config_of read_required read_string read_size read_bool
read_fields fs =
    config_of (read_required read_string (codes "bind_address") fs)
      (read_required read_size (codes "max_body_size") fs)
      (read_required read_bool (codes "enable_cors") fs)

unfoldable pub read_config : Reader RestServerConfig
unfolding read_struct read_fields
read_config =
    read_struct (codes "bind_address" ∷ codes "max_body_size" ∷ codes "enable_cors" ∷ [])
      read_fields

pub read_config-value :
    (c : RestServerConfig) → Kept c.max_body_size → read_config (config_value c) ≡ some c
unfolding read_config config_value read_struct fields_of read_fields config_of read_required
    read_once read_string read_bool find ◌≟◌
read_config-value c h = rw (read_size-value c.max_body_size h) refl

-- Each field is there once, with a value of its type; what else is there does not matter.
pub record Describes (fs : Fields) (c : RestServerConfig) : Type 0 where
  pub bind_address : Given read_string (codes "bind_address") fs c.bind_address
  pub max_body_size : Given read_size (codes "max_body_size") fs c.max_body_size
  pub enable_cors : Given read_bool (codes "enable_cors") fs c.enable_cors

config_of_fields :
    (bind : Option Text) (size : Option ReadableSize) (cors : Option Bool) (c : RestServerConfig)
    → config_of bind size cors ≡ some c
    → (bind ≡ some c.bind_address) × (size ≡ some c.max_body_size) × (cors ≡ some c.enable_cors)
unfolding config_of
config_of_fields none size cors c h = cc
config_of_fields (some b) none cors c h = cc
config_of_fields (some b) (some s) none c h = cc
config_of_fields (some b) (some s) (some e) c h = (cc, cc, cc)

read_fields-Describes :
    (fs : Fields) (c : RestServerConfig) → read_fields fs ≡ some c → Describes fs c
unfolding read_fields
read_fields-Describes fs c h =
    let (bind, size, cors) = config_of_fields _ _ _ c h in
    record {
      bind_address = read_required-Given read_string (codes "bind_address") fs bind;
      max_body_size = read_required-Given read_size (codes "max_body_size") fs size;
      enable_cors = read_required-Given read_bool (codes "enable_cors") fs cors;
    }

Describes-read_fields :
    (fs : Fields) (c : RestServerConfig) → Describes fs c → read_fields fs ≡ some c
unfolding read_fields config_of
Describes-read_fields fs c d =
    rw
      (
        Given-read_required read_string (codes "bind_address") fs d.bind_address,
        Given-read_required read_size (codes "max_body_size") fs d.max_body_size,
        Given-read_required read_bool (codes "enable_cors") fs d.enable_cors,
      )
      refl

pub read_config-Describes :
    (fs : Fields) (c : RestServerConfig) → (read_config (object fs) ≡ some c) ↔ Describes fs c
unfolding read_config read_struct fields_of
read_config-Describes fs c = (read_fields-Describes fs c, Describes-read_fields fs c)
