-- ===== src/Tests/Servers.antt =====
-- The servers, on a small runtime.
use filestore.Base.{◌≡◌, ◌≢◌, ◌↔◌, inl, inr, refl, true, false, List, [], ◌∷◌, some}
use filestore.Text.{codes, ◌≟◌}
use filestore.Server.{
  Error, ServerKind, rest, grpc, Event, bind_succeeds, bind_fails, shutdown_future_polled,
  cancellation_seen, Service, spawned, step, TaskState, running, finished, failed, Poll, waiting,
  panics, ready, wait_for_start, shutdown, is_finished, wait_for_stop, serving, completed,
}
use filestore.Server.Lifecycle.{
  Reach, start, runs, IsConsistent, Reach-IsConsistent, wait_for_start_lem,
}
use filestore.Server.Stop.{AllDone, wait_for_stop_iff}
use filestore.Server.Rest.{health_check, api_health_handler, build_router, default_config}
use filestore.Server.Rest.Routing.{
  Routes, Distinct, Avoids, all_routes, handlers_of, layers_of, handler_routes_unlayered,
}
use filestore.Server.Grpc.{GrpcServiceHandler, start_grpc_server, refused, reflection_panics}
use filestore.Server.Grpc.Start.{Starts, start_grpc_server_lem}
use filestore.Server.Hello.{hello_service}
use filestore.Tests.Runtime.{
  tokio, tokio-IsLawful, join_all, join_all-JoinsAll, axum, axum-IsLawful, tonic, tonic-IsLawful,
}

-- A gRPC server with one readiness task, bound.
abbrev pub fresh : Service tokio
fresh = record {
  join_handle = filestore.Server.binding;
  cancellation_token = false;
  started = filestore.Tokio.pending;
  started_rx = some tt;
  reporter_handles = running ∷ [];
}

abbrev pub after_bind : Service tokio
after_bind = record fresh { join_handle = filestore.Server.bound }

binds : step tokio grpc (spawned tokio (running ∷ [])) bind_succeeds ≡ some after_bind
unfolding step spawned
binds = refl

after_bind-Reach : Reach tokio tokio-IsLawful grpc (running ∷ []) after_bind
after_bind-Reach = runs start bind_succeeds after_bind binds

Reach-IsConsistent_example : IsConsistent tokio tokio-IsLawful grpc after_bind
Reach-IsConsistent_example = Reach-IsConsistent tokio tokio-IsLawful after_bind-Reach

-- A gRPC server that could not bind.
abbrev unbound : Service tokio
unbound = record fresh { join_handle = completed; started = filestore.Tokio.closed }

cannot_bind : step tokio grpc (spawned tokio (running ∷ [])) bind_fails ≡ some unbound
unfolding step spawned
cannot_bind = refl

wait_for_start_lem_example :
    ((wait_for_start tokio unbound).1 ≡ panics)
    × ((wait_for_start tokio (wait_for_start tokio unbound).0).1 ≡ panics)
wait_for_start_lem_example =
    wait_for_start_lem tokio tokio-IsLawful (runs start bind_fails unbound cannot_bind) refl

abbrev over : Service tokio
over = record fresh { join_handle = completed; reporter_handles = failed ∷ finished ∷ [] }

wait_for_stop_iff_example :
    ((wait_for_stop tokio join_all over ≡ ready tt) ↔ AllDone tokio over)
    × (wait_for_stop tokio join_all over ≢ panics)
wait_for_stop_iff_example = wait_for_stop_iff tokio join_all over join_all-JoinsAll

-- The routes of the program's own handler.
abbrev health : List Routes
health =
    ((codes "/api/v1/health", api_health_handler) ∷ (codes "/api/health", api_health_handler) ∷ [])
    ∷ []

health-Distinct : Distinct (all_routes axum health)
unfolding ◌≟◌
health-Distinct = ((refl, tt), (tt, tt))

health-Avoids : Avoids (codes "/health") (all_routes axum health)
unfolding ◌≟◌
health-Avoids = (refl, (refl, tt))

handler_routes_unlayered_example :
    (axum.find (build_router axum default_config (handlers_of axum health)) (codes "/api/health")
      ≡ some (api_health_handler, []))
    × (axum.find (build_router axum default_config (handlers_of axum health)) (codes "/health")
        ≡ some (health_check, layers_of default_config))
handler_routes_unlayered_example =
    handler_routes_unlayered axum axum-IsLawful default_config health (codes "/api/health")
      api_health_handler health-Distinct health-Avoids (inr (inl (refl, refl)))

abbrev greeter : GrpcServiceHandler tonic
greeter = hello_service tonic 7 (codes "hello.Hello") true

start_grpc_server_lem_example :
    let c = filestore.Server.Grpc.default_config in
    Starts tonic tonic-IsLawful tokio
      (λ a. true)
      c
      (greeter ∷ [])
      (7 ∷ [])
      (start_grpc_server tonic tokio (λ a. true) c (greeter ∷ []))
unfolding hello_service
start_grpc_server_lem_example =
    start_grpc_server_lem tonic tonic-IsLawful tokio (λ a. true)
      filestore.Server.Grpc.default_config (greeter ∷ []) (7 ∷ []) ((λ r. refl), tt)
