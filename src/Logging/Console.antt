-- ===== src/Logging/Console.antt =====
-- crates/common/src/telemetry/logging.rs with the feature `tokio-console`: the layer that serves the
-- console, in `init_global_logging`.
use filestore.Base.{◌≡◌, ◌⊎◌, inl, inr, refl, Bool, true, false, Option, none, some}
use filestore.Text.{Text}
use filestore.Net.{SocketAddr, parse_socket_addr}
use filestore.Logging.{TracingOptions, default_tracing_options}

layer_at : Option SocketAddr → Option (Option SocketAddr)
layer_at none = none
layer_at (some addr) = some (some addr)

console_at : Option Text → Option (Option SocketAddr)
unfolding layer_at parse_socket_addr
console_at none = some none
console_at (some addr) = layer_at (parse_socket_addr addr)

-- By whether the feature is on. An address that cannot be parsed is a panic, `none`; the layer is
-- there only if there is an address.
unfoldable pub console_layer : Bool → TracingOptions → Option (Option SocketAddr)
unfolding console_at
console_layer false t = some none
console_layer true t = console_at t.tokio_console_addr

-- The layer serves at the configured address; without the feature or an address there is no layer.
abbrev pub ConsoleIs : Bool → TracingOptions → Option SocketAddr → Type 0
ConsoleIs feature t c =
    ((feature ≡ false) × (c ≡ none))
    ⊎ (((feature ≡ true) × (t.tokio_console_addr ≡ none) × (c ≡ none))
        ⊎ ((s : Text) × (addr : SocketAddr) × (feature ≡ true)
            × (t.tokio_console_addr ≡ some s)
            × (parse_socket_addr s ≡ some addr)
            × (c ≡ some addr)))

pub console_layer_lem :
    (feature : Bool) (t : TracingOptions) (c : Option SocketAddr)
    → ConsoleIs feature t c
    → console_layer feature t ≡ some c
unfolding console_layer layer_at
console_layer_lem feature t c (inl (off, e)) = rw (off, e) refl
console_layer_lem feature t c (inr (inl (on, unset, e))) = rw (on, unset, e) refl
console_layer_lem feature t c (inr (inr (s, addr, on, given, parsed, e))) =
    rw (on, given, parsed, e) refl

-- The default options have no console.
pub default_tracing-ConsoleIs : (feature : Bool) → ConsoleIs feature default_tracing_options none
unfolding default_tracing_options
default_tracing-ConsoleIs true = inr (inl (refl, refl, refl))
default_tracing-ConsoleIs false = inl (refl, refl)
