-- ===== src/Server/Grpc/Start.antt =====
-- `start_grpc_server`: when it succeeds, and what the server then serves.
use filestore.Base.{
  subst, ◌≡◌, ◌↔◌, ◌⊎◌, inl, inr, refl, ap, sym, ◌∙◌, Bool, true, false, List, [], ◌∷◌, ◌++◌,
  Option, none, some, map, Option-cases, Bool-cases, All,
}
use mathlib.Core.List.{append_assoc, append-nil}
use filestore.Text.{Text}
use filestore.Tokio.{Tokio}
use filestore.Errors.{network, parse_address_error}
use filestore.Server.{socket_addr, spawned, TaskState, running}
use filestore.Server.Grpc.{
  GrpcServerConfig, Tonic, GrpcServiceHandler, file_descriptor_sets, register_sets,
  build_reflection_service, register_services, spawn_reporters, GrpcStart, refused,
  reflection_panics, started, serve, start_grpc_server,
}

-- What tonic documents: a routes builder serves what was added, and a reflection builder succeeds
-- exactly when every registered set decodes, then knowing the sets in their order.
pub record IsLawful (N : Tonic) : Type 1 where
  pub decodes : N.DescriptorSet → Bool
  pub registered : N.Builder → List N.DescriptorSet
  pub registered-configure : registered N.configure ≡ []
  pub registered-register :
      (d : N.DescriptorSet) (b : N.Builder)
      → registered (N.register_encoded_file_descriptor_set d b) ≡ registered b ++ d ∷ []
  pub build_v1_iff :
      (b : N.Builder)
      → ((s : N.GrpcService) × (N.build_v1 b ≡ some s)) ↔ All (λ d. decodes d ≡ true) (registered b)
  pub services : N.RoutesBuilder → List N.GrpcService
  pub services-default : services N.default_routes ≡ []
  pub services-add :
      (s : N.GrpcService) (r : N.RoutesBuilder)
      → services (N.add_service s r) ≡ services r ++ s ∷ []

module _ (N : Tonic) (L : IsLawful N) where
  -- A handler that adds one service, as the trait asks.
  abbrev pub Adds : GrpcServiceHandler N → N.GrpcService → Type 0
  Adds h s = (r : N.RoutesBuilder) → h.register_service r ≡ N.add_service s r

  abbrev pub AddsAll : List (GrpcServiceHandler N) → List N.GrpcService → Type 0
  AddsAll [] [] = Unit {0}
  AddsAll [] (s ∷ ss) = ⊥
  AddsAll (h ∷ hs) [] = ⊥
  AddsAll (h ∷ hs) (s ∷ ss) = Adds h s × AddsAll hs ss

  registered-register_sets :
      (ds : List N.DescriptorSet) (b : N.Builder)
      → L.registered (register_sets N ds b) ≡ L.registered b ++ ds
  unfolding register_sets
  registered-register_sets [] b = rw (append-nil (L.registered b))
  registered-register_sets (d ∷ ds) b =
      registered-register_sets ds (N.register_encoded_file_descriptor_set d b)
      ∙ ap (λ l. l ++ ds) (L.registered-register d b)
      ∙ append_assoc (L.registered b) (d ∷ []) ds

  services-register :
      (hs : List (GrpcServiceHandler N)) (ss : List N.GrpcService) (r : N.RoutesBuilder)
      → AddsAll hs ss
      → L.services (register_services N hs r) ≡ L.services r ++ ss
  unfolding register_services
  services-register [] [] r a = rw (append-nil (L.services r))
  services-register [] (s ∷ ss) r a = absurd a
  services-register (h ∷ hs) [] r a = absurd a
  services-register (h ∷ hs) (s ∷ ss) r a =
      services-register hs ss (h.register_service r) a.1
      ∙ ap (λ l. l ++ ss) (ap L.services (a.0 r) ∙ L.services-add s r)
      ∙ append_assoc (L.services r) (s ∷ []) ss

  spawn_reporters_lem :
      (hs : List (GrpcServiceHandler N)) → spawn_reporters N hs ≡ map (λ h. running) hs
  unfolding spawn_reporters
  spawn_reporters_lem [] = refl
  spawn_reporters_lem (h ∷ hs) = ap (λ (l : List TaskState). running ∷ l) (spawn_reporters_lem hs)

  -- What the reflection service is built from: the sets of the services in their order, then its own.
  abbrev pub all_sets : List (GrpcServiceHandler N) → List N.DescriptorSet
  all_sets hs = map (λ h. h.file_descriptor_set) hs ++ N.reflection_descriptor_set ∷ []

  file_descriptor_sets_lem :
      (hs : List (GrpcServiceHandler N)) → file_descriptor_sets N hs ≡ all_sets hs
  unfolding file_descriptor_sets
  file_descriptor_sets_lem [] = refl
  file_descriptor_sets_lem (h ∷ hs) = rw (file_descriptor_sets_lem hs)

  registered_sets :
      (hs : List (GrpcServiceHandler N))
      → L.registered (register_sets N (file_descriptor_sets N hs) N.configure) ≡ all_sets hs
  registered_sets hs =
      registered-register_sets (file_descriptor_sets N hs) N.configure
      ∙ rw (L.registered-configure, file_descriptor_sets_lem hs)

  -- A started server, with one running readiness task for each handler: health first, then the
  -- reflection service that a builder makes which knows all the sets, then the services.
  abbrev pub IsServing :
      (T : Tokio) → List (GrpcServiceHandler N) → List N.GrpcService → GrpcStart N T → Type 0
  IsServing T hs ss start =
      (routes : N.RoutesBuilder) × (reflection : N.GrpcService) × (builder : N.Builder) × (start
        ≡ started (spawned T (map (λ h. running) hs)) routes)
      × (L.services routes ≡ N.health_service ∷ reflection ∷ ss)
      × (L.registered builder ≡ all_sets hs)
      × (N.build_v1 builder ≡ some reflection)

  build_v1_of : List (GrpcServiceHandler N) → Option N.GrpcService
  build_v1_of hs = N.build_v1 (register_sets N (file_descriptor_sets N hs) N.configure)

  serve-IsServing :
      (T : Tokio) (hs : List (GrpcServiceHandler N)) (ss : List N.GrpcService)
      → AddsAll hs ss
      → (r : N.GrpcService) → build_v1_of hs ≡ some r
      → IsServing T hs ss (serve N T hs (some r))
  unfolding serve build_v1_of
  serve-IsServing T hs ss a r e = (
    register_services N hs (N.add_service r (N.add_service N.health_service N.default_routes)),
    r,
    register_sets N (file_descriptor_sets N hs) N.configure,
    rw (spawn_reporters_lem hs) refl,
    services-register hs ss _ a
        ∙ rw (
          L.services-add r (N.add_service N.health_service N.default_routes),
          L.services-add N.health_service N.default_routes,
          L.services-default,
        ),
    registered_sets hs,
    e,
  )

  -- What a start comes to: exactly one of three.
  abbrev pub Starts :
      (T : Tokio)
      → (Text → Bool)
      → GrpcServerConfig
      → List (GrpcServiceHandler N)
      → List N.GrpcService
      → GrpcStart N T
      → Type 0
  Starts T parse c hs ss start =
      ((parse c.bind_address ≡ false)
        × (start ≡ refused (network (parse_address_error c.bind_address socket_addr))))
      ⊎ (((parse c.bind_address ≡ true)
            × All (λ d. L.decodes d ≡ true) (all_sets hs)
            × IsServing T hs ss start)
          ⊎ ((parse c.bind_address ≡ true)
              × ¬ All (λ d. L.decodes d ≡ true) (all_sets hs)
              × (start ≡ reflection_panics)))

  decodable :
      (hs : List (GrpcServiceHandler N)) (r : N.GrpcService)
      → build_v1_of hs ≡ some r
      → All (λ d. L.decodes d ≡ true) (all_sets hs)
  unfolding build_v1_of
  decodable hs r e =
      subst (All (λ d. L.decodes d ≡ true)) (registered_sets hs) ((L.build_v1_iff _).0 (r, e))

  refuted :
      (hs : List (GrpcServiceHandler N))
      → build_v1_of hs ≡ none
      → ¬ All (λ d. L.decodes d ≡ true) (all_sets hs)
  unfolding build_v1_of
  refuted hs e ok =
      let (r, built) =
        (L.build_v1_iff _).1
          (subst (All (λ d. L.decodes d ≡ true)) (sym (registered_sets hs)) ok) in
      let bad : none ≡ some r = sym e ∙ built in cc

  -- For handlers that each add one service: the start is refused when the address does not parse.
  -- Otherwise, when every descriptor set decodes, the server serves the health service, the
  -- reflection service and all these services in their order, where the reflection service is what
  -- tonic's builder makes of all these sets and its own, in their order; the server task has just
  -- been spawned, and so has one readiness task for each handler. When one does not decode, the start
  -- panics.
  pub start_grpc_server_lem :
      (T : Tokio) (parse : Text → Bool) (c : GrpcServerConfig) (hs : List (GrpcServiceHandler N))
      (ss : List N.GrpcService)
      → AddsAll hs ss
      → Starts T parse c hs ss (start_grpc_server N T parse c hs)
  unfolding start_grpc_server build_reflection_service build_v1_of serve
  start_grpc_server_lem T parse c hs ss a = elim (Bool-cases (parse c.bind_address)) [
    | inl valid ↦ elim (Option-cases (build_v1_of hs)) [
      | inl fails ↦ inr (inr (valid, refuted hs fails, rw (valid, serve, fails) refl))
      | inr (r, builds) ↦ inr (
          inl
            (valid, decodable hs r builds, rw (valid, builds) (serve-IsServing T hs ss a r builds)))
    ]
    | inr invalid ↦ inl (invalid, rw invalid refl)
  ]
