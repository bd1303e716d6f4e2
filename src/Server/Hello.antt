-- ===== src/Server/Hello.antt =====
-- crates/server/src/grpc/hello.rs: the service that greets.
use mathlib.Core.List.{append_cancel_left, append_cancel_right}
use filestore.Base.{◌≡◌, ◌↔◌, ◌⊎◌, inl, inr, refl, sym, [], ◌∷◌, ◌++◌, if◌then◌else◌}
use filestore.Text.{Text, codes, is_empty}
use filestore.Server.Grpc.{Tonic, GrpcServiceHandler, serving_status}

unfoldable pub hello : Text → Text
unfolding is_empty
hello name = if is_empty name then codes "Hello, World!" else codes "Hello, " ++ name ++ codes "!"

-- The trait's methods. `HelloServiceServer`, its name and its descriptor set are generated code:
-- parameters.
unfoldable pub hello_service :
    (N : Tonic) → N.GrpcService → Text → N.DescriptorSet → GrpcServiceHandler N
hello_service N server name descriptor = record {
  service_name = codes "HelloService";
  file_descriptor_set = descriptor;
  register_service = λ routes. N.add_service server routes;
  readiness_reporting = λ reporter. N.set_service_status name serving_status reporter;
}

greeting_cancel :
    (a b : Text) → codes "Hello, " ++ a ++ codes "!" ≡ codes "Hello, " ++ b ++ codes "!" → a ≡ b
greeting_cancel a b h =
    append_cancel_left (codes "Hello, ") a b
      (append_cancel_right (codes "Hello, " ++ a) (codes "Hello, " ++ b) (codes "!") h)

Agree : Text → Text → Type 0
Agree a b = (a ≡ b) ⊎ (((a ≡ []) × (b ≡ codes "World")) ⊎ ((a ≡ codes "World") × (b ≡ [])))

Agree-hello : (a b : Text) → Agree a b → hello a ≡ hello b
unfolding hello is_empty Agree
Agree-hello a b (inl e) = rw e refl
Agree-hello a b (inr (inl (e, f))) = rw (e, f) refl
Agree-hello a b (inr (inr (e, f))) = rw (e, f) refl

hello-Agree : (a b : Text) → hello a ≡ hello b → Agree a b
unfolding hello is_empty Agree
hello-Agree [] [] h = inl refl
hello-Agree [] (c ∷ b) h = inr (inl (refl, sym (greeting_cancel (codes "World") (c ∷ b) h)))
hello-Agree (c ∷ a) [] h = inr (inr (greeting_cancel (c ∷ a) (codes "World") h, refl))
hello-Agree (c ∷ a) (d ∷ b) h = inl (greeting_cancel (c ∷ a) (d ∷ b) h)

-- Two requests get one answer exactly when their names are equal, or one is empty and the other
-- is `World`.
pub hello_iff :
    (a b : Text)
    → (hello a ≡ hello b)
      ↔ ((a ≡ b) ⊎ (((a ≡ []) × (b ≡ codes "World")) ⊎ ((a ≡ codes "World") × (b ≡ []))))
unfolding Agree
hello_iff a b = (hello-Agree a b, Agree-hello a b)
