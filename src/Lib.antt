-- ===== src/Lib.antt =====
-- filestore: a server application with a gRPC and a REST server, its telemetry, and the first part
-- of a file store.
--
-- Parts, and the files that model them. Paths are from the root of the repository.
--
-- - crates/store/src/core.rs: `Location` packs a page id, an offset and a size in a `u64`
--   (Store/Location; `new`, the accessors, `raw`, `from_raw`). The trait `Store`, its errors and
--   `Options::open`, a `todo!()`, are Store/Operations; nothing in the repository implements the
--   trait, which is a record of operations.
-- - crates/common/src/readable_size.rs: `ReadableSize` (ReadableSize): `kb`, `mb`, `gb`, `as_mb`,
--   the divisions `div_by` and `div_size`, `mul_by`, `serialize`, `from_str`, `visit` for the three
--   methods of the visitor, `read_size` for `deserialize` (ReadableSize/Serde), `display`. A
--   `Profile` says whether `*` panics on overflow (debug) or wraps (release). `f64` is the type
--   F64: a sign and a number of steps of 2^-1074, rounded to 53 bits, with the infinities and NaN;
--   F64/Parse is `str::parse::<f64>`. Text is the list of code points, with the methods of `str`
--   that are called.
-- - crates/common/src/telemetry/tracing_sampler.rs: the sampling rules and the decision for a trace
--   (Sampler), and the derived serialization of the options (Sampler/Serde).
-- - crates/server/src/lib.rs: `ServiceHandler` is the record `Service` (Server). It shares a token
--   and a oneshot channel with the server task; the task's states are `Phase`, and `step` is what
--   the blocks spawned in http.rs and grpc.rs do at each event, the readiness tasks included.
--   `wait_for_start`, `shutdown`, `is_finished` and `wait_for_stop` are functions on it.
-- - crates/server/src/http.rs (Server/Rest), crates/server/src/grpc.rs (Server/Grpc) and
--   crates/server/src/grpc/hello.rs (Server/Hello): configurations with their derived serialization
--   (Serde below them), routers, the two start functions and the greeting service. Server/Configs
--   is about both configurations.
-- - crates/app/src/lib.rs: `App`, `AppHandle` and the main task (App). `System` is what they share:
--   the flag, the token, the shutdown channel, the two servers, and the statement that the main
--   task and a caller of `shutdown` are at; `step` is one statement, a signal, or a step of a
--   server, so that every interleaving is a list of actions. `start` initialises the logging
--   (App/Logged), and then composes the two start functions (`start_after_logging`). App/Schedules
--   counts what the tasks have left after a `shutdown`, as Server/Schedules does for one server.
--   App/Run is `run`: its wait for the shutdown, and the guards of the logging that `start` drops.
-- - examples/hello-server.rs: the example program (Example), from its start to its end, with the
--   steps of the server beside it.
-- - crates/cmd/src/main.rs: the commands (Command), from the arguments to the wait of the server.
-- - crates/common/src/env.rs (Env), crates/common/src/telemetry/logging.rs (Logging, and
--   Logging/Setup for `init_global_logging` and `init_default_ut_logging`, Logging/Console for the
--   feature `tokio-console`, and Logging/Serde for the derived serialization of the options),
--   crates/common/src/error.rs (Errors, whose types the start functions return), panic_hook.rs
--   (PanicHook, with the loop that looks for deadlocks in PanicHook/Deadlocks) and
--   tracing_context.rs (Context) beside it, crates/cmd/src/build_info.rs (BuildInfo).
--
-- Net is what `parse::<SocketAddr>` of the standard library accepts, and Serde the values of
-- serde's data model with the readers of structs, from a map or from a sequence, with defaults or
-- without.
--
-- Base has the shared names, tests and lists, and Tests the runs and the instances.
--
-- Parameters. Code of other crates is an argument: tokio's tokens and channels (Tokio), axum's
-- router, tonic's builders, OpenTelemetry, dotenvy, serde_json, clap, tonic-health's reporter,
-- value_log's `Slice`, `join_all`, the file appenders. The server and start functions take the
-- parser of socket addresses as an argument too, which Command and App/Addresses fill with that of
-- Net. Where a theorem relies on what they document, it takes a record of laws, each of which Tests
-- meets with a concrete instance.
--
-- Bounds and fuel. A `u64` is a natural number with its wrap-around written out. Two functions take
-- fuel: `decimal_from`, whose fuel is the number itself, and `bits_from` of F64, likewise; both
-- divide the number at each call, and reach zero before the fuel ends.
--
-- Not modelled: generated code, log output other than the logging layers.
pub mod App
pub mod Base
pub mod BuildInfo
pub mod Command
pub mod Context
pub mod Env
pub mod Errors
pub mod Example
pub mod F64
pub mod Logging
pub mod Net
pub mod PanicHook
pub mod ReadableSize
pub mod Sampler
pub mod Serde
pub mod Server
pub mod Store
pub mod Tests
pub mod Text
pub mod Tokio
