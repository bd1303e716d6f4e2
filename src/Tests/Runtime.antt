-- ===== src/Tests/Runtime.antt =====
-- A small runtime, a router and gRPC builders that keep the laws.
use filestore.Base.{
  ℕ, ◌≡◌, ◌↔◌, inl, inr, refl, Bool, true, false, List, [], ◌∷◌, ◌++◌, map, Option, none, some, All,
  if◌then◌else◌, Bool-cases,
}
use filestore.Text.{Text, ◌≟◌}
use filestore.Tokio.{Tokio, Received, pending, arrived, closed}
use filestore.Server.{Poll, waiting, panics, ready}
use filestore.Server.Stop.{HasWaiting, JoinsAll}
use filestore.Server.Rest.{Endpoint, Layer, Axum}
use filestore.Server.Rest.Routing.{add_layer}
use filestore.Server.Grpc.{Tonic, ServingStatus}

abbrev pub send : Received → Received
send pending = arrived
send other = other

abbrev pub drop_sender : Received → Received
drop_sender pending = closed
drop_sender other = other

-- A token is whether it is cancelled, and a channel what its receiver sees.
abbrev pub tokio : Tokio
tokio = record {
  Token = Bool;
  new_token = false;
  cancel = λ t. true;
  is_cancelled = λ t. t;
  Oneshot = Received;
  channel = pending;
  send = send;
  drop_sender = drop_sender;
  received = λ c. c;
}

send_pending : (c : Received) → c ≡ pending → send c ≡ arrived
send_pending c h = rw h refl

drop_pending : (c : Received) → c ≡ pending → drop_sender c ≡ closed
drop_pending c h = rw h refl

drop_arrived : (c : Received) → c ≡ arrived → drop_sender c ≡ arrived
drop_arrived c h = rw h refl

pub tokio-IsLawful : filestore.Tokio.IsLawful tokio
tokio-IsLawful = record {
  new_token_live = refl;
  cancel_cancels = λ t. refl;
  received-channel = refl;
  received-send = send_pending;
  received-drop = drop_pending;
  received-drop_sent = drop_arrived;
}

abbrev pub collect : Poll Bool → Poll (List Bool) → Poll (List Bool)
collect (ready b) (ready bs) = ready (b ∷ bs)
collect _ _ = waiting

pub join_all : List (Poll Bool) → Poll (List Bool)
join_all [] = ready []
join_all (p ∷ ps) = collect p (join_all ps)

collect-waiting : (p : Poll Bool) → collect p waiting ≡ waiting
collect-waiting waiting = refl
collect-waiting panics = refl
collect-waiting (ready b) = refl

join_all_waits : (ps : List (Poll Bool)) → HasWaiting ps → join_all ps ≡ waiting
unfolding join_all
join_all_waits [] h = absurd h
join_all_waits (p ∷ ps) (inl e) = rw e refl
join_all_waits (p ∷ ps) (inr h) = rw (join_all_waits ps h) (collect-waiting p)

join_all_collects : (bs : List Bool) → join_all (map ready bs) ≡ ready bs
unfolding join_all
join_all_collects [] = refl
join_all_collects (b ∷ bs) = rw (join_all_collects bs) refl

pub join_all-JoinsAll : JoinsAll join_all
join_all-JoinsAll = record { waits = join_all_waits; collects = join_all_collects }

-- A router is its routes, the latest first.
abbrev pub Table : Type 0
Table = List (Text × Endpoint × List Layer)

abbrev pub find : Table → Text → Option (Endpoint × List Layer)
find [] q = none
find ((p, e, ls) ∷ r) q = if p ≟ q then some (e, ls) else find r q

abbrev pub wrap : Layer → Table → Table
wrap l [] = []
wrap l ((p, e, ls) ∷ r) = (p, e, l ∷ ls) ∷ wrap l r

abbrev pub axum : Axum
axum = record {
  Router = Table;
  empty = [];
  route = λ p e r. (p, e, []) ∷ r;
  layer = wrap;
  find = find;
}

find-wrap : (l : Layer) (r : Table) (q : Text) → find (wrap l r) q ≡ add_layer l (find r q)
find-wrap l [] q = refl
find-wrap l ((p, e, ls) ∷ r) q = elim (Bool-cases (p ≟ q)) [
  | inl h ↦ rw h refl
  | inr h ↦ rw h (find-wrap l r q)
]

pub axum-IsLawful : filestore.Server.Rest.Routing.IsLawful axum
axum-IsLawful = record {
  find-empty = λ p. refl;
  find-route = λ p q e r h. refl;
  find-layer = find-wrap;
}

-- A descriptor set is whether it decodes, and a service a number.
abbrev pub both : Bool → Option ℕ → Option ℕ
both true o = o
both false o = none

abbrev pub build : List Bool → Option ℕ
build [] = some 1
build (d ∷ ds) = both d (build ds)

abbrev pub tonic : Tonic
tonic = record {
  DescriptorSet = Bool;
  reflection_descriptor_set = true;
  Builder = List Bool;
  configure = [];
  register_encoded_file_descriptor_set = λ d b. b ++ d ∷ [];
  GrpcService = ℕ;
  build_v1 = build;
  health_service = 0;
  RoutesBuilder = List ℕ;
  default_routes = [];
  add_service = λ s r. r ++ s ∷ [];
  HealthReporter = List (Text × ServingStatus);
  set_service_status = λ name status reporter. (name, status) ∷ reporter;
}

build_iff : (ds : List Bool) → ((s : ℕ) × (build ds ≡ some s)) ↔ All (λ d. d ≡ true) ds
build_iff [] = (λ _. tt, λ _. (1, refl))
build_iff (true ∷ ds) = (λ h. (refl, (build_iff ds).0 h), λ h. (build_iff ds).1 h.1)
build_iff (false ∷ ds) = (λ (s, e). cc, λ (e, h). cc)

pub tonic-IsLawful : filestore.Server.Grpc.Start.IsLawful tonic
tonic-IsLawful = record {
  decodes = λ d. d;
  registered = λ b. b;
  registered-configure = refl;
  registered-register = λ d b. refl;
  build_v1_iff = build_iff;
  services = λ r. r;
  services-default = refl;
  services-add = λ s r. refl;
}
