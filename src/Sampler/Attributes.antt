-- ===== src/Sampler/Attributes.antt =====
-- Which attributes of a span give the protocol and the request type.
use filestore.Base.{
  ◌≡◌, ◌⊎◌, inl, inr, refl, sym, none, ap, ◌∙◌, true, false, List, [], ◌∷◌, ◌++◌, Option, some, All,
  Bool-cases,
}
use filestore.Text.{Text, codes, ◌≟◌}
use filestore.Text.Equal.{≟_refl}
use filestore.Sampler.{Telemetry, KeyValue, read_attributes}

other_key : (codes "request_type" ≟ codes "protocol") ≡ false
unfolding ◌≟◌
other_key = refl

module _ (T : Telemetry) where
  open T use {as_str}

  -- No entry has the key.
  abbrev pub Lacks : Text → List (KeyValue T) → Type 0
  Lacks k = All λ kv. (kv.key ≟ k) ≡ false

  protocol-Lacks :
      (kvs : List (KeyValue T)) (p t : Option Text)
      → Lacks (codes "protocol") kvs
      → (read_attributes T kvs p t).0 ≡ p
  unfolding read_attributes
  protocol-Lacks [] p t h = refl
  protocol-Lacks (kv ∷ kvs) p t h = rw (h.0, read_attributes) (protocol-Lacks kvs p _ h.1)

  request_type-Lacks :
      (kvs : List (KeyValue T)) (p t : Option Text)
      → Lacks (codes "request_type") kvs
      → (read_attributes T kvs p t).1 ≡ t
  unfolding read_attributes
  request_type-Lacks [] p t h = refl
  request_type-Lacks (kv ∷ kvs) p t h = elim (Bool-cases (kv.key ≟ codes "protocol")) [
    | inl e ↦ rw (e, read_attributes) (request_type-Lacks kvs _ t h.1)
    | inr e ↦ rw (e, h.0, read_attributes) (request_type-Lacks kvs _ t h.1)
  ]

  -- The last entry with the key has the value, or none has the key and the value is the one from
  -- before.
  abbrev pub Gives : Text → List (KeyValue T) → Option Text → Option Text → Type 0
  Gives k kvs from x =
      ((before : List (KeyValue T)) × (kv : KeyValue T) × (after : List (KeyValue T)) × (kvs
          ≡ before ++ kv ∷ after)
        × (kv.key ≡ k)
        × Lacks k after
        × (x ≡ some (as_str kv.val)))
      ⊎ (Lacks k kvs × (x ≡ from))

  protocol_last :
      (before : List (KeyValue T)) (kv : KeyValue T) (after : List (KeyValue T)) (p t : Option Text)
      → kv.key ≡ codes "protocol"
      → Lacks (codes "protocol") after
      → (read_attributes T (before ++ kv ∷ after) p t).0 ≡ some (as_str kv.val)
  unfolding read_attributes
  protocol_last [] kv after p t e h =
      let own : (kv.key ≟ codes "protocol") ≡ true =
        ap (λ k. k ≟ codes "protocol") e ∙ ≟_refl (codes "protocol") in
      rw (own, read_attributes) (protocol-Lacks after (some (as_str kv.val)) t h)
  protocol_last (kw ∷ before) kv after p t e h = protocol_last before kv after _ _ e h

  request_type_last :
      (before : List (KeyValue T)) (kv : KeyValue T) (after : List (KeyValue T)) (p t : Option Text)
      → kv.key ≡ codes "request_type"
      → Lacks (codes "request_type") after
      → (read_attributes T (before ++ kv ∷ after) p t).1 ≡ some (as_str kv.val)
  unfolding read_attributes
  request_type_last [] kv after p t e h =
      let own : (kv.key ≟ codes "request_type") ≡ true =
        ap (λ k. k ≟ codes "request_type") e ∙ ≟_refl (codes "request_type") in
      let other : (kv.key ≟ codes "protocol") ≡ false =
        ap (λ k. k ≟ codes "protocol") e ∙ other_key in
      rw (own, other, read_attributes) (request_type-Lacks after p (some (as_str kv.val)) h)
  request_type_last (kw ∷ before) kv after p t e h = request_type_last before kv after _ _ e h

  Gives-protocol :
      (kvs : List (KeyValue T)) (p t x : Option Text)
      → Gives (codes "protocol") kvs p x
      → (read_attributes T kvs p t).0 ≡ x
  Gives-protocol kvs p t x (inl (before, kv, after, split, e, h, x_eq)) =
      ap (λ l. (read_attributes T l p t).0) split ∙ protocol_last before kv after p t e h ∙ sym x_eq
  Gives-protocol kvs p t x (inr (h, x_eq)) = protocol-Lacks kvs p t h ∙ sym x_eq

  Gives-request_type :
      (kvs : List (KeyValue T)) (p t y : Option Text)
      → Gives (codes "request_type") kvs t y
      → (read_attributes T kvs p t).1 ≡ y
  Gives-request_type kvs p t y (inl (before, kv, after, split, e, h, y_eq)) =
      ap (λ l. (read_attributes T l p t).1) split
      ∙ request_type_last before kv after p t e h
      ∙ sym y_eq
  Gives-request_type kvs p t y (inr (h, y_eq)) = request_type-Lacks kvs p t h ∙ sym y_eq

  -- The attributes of a span give the protocol and the request type: each is the value of the last
  -- attribute of its name, whatever the others are, or is absent if there is none.
  pub attributes_last :
      (kvs : List (KeyValue T)) (x y : Option Text)
      → Gives (codes "protocol") kvs none x
      → Gives (codes "request_type") kvs none y
      → read_attributes T kvs none none ≡ (x, y)
  attributes_last kvs x y gives asks =
      λ i. (Gives-protocol kvs none none x gives i, Gives-request_type kvs none none y asks i)
