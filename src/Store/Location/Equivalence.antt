-- ===== src/Store/Location/Equivalence.antt =====
-- Locations are exactly the triples of their fields.
use mathlib.Core.HLevel.{Σ_prop_path}
use mathlib.Core.Equiv.{IsEquiv, iso_to_equiv}
use native.Mathlib.Bridge.{le_prop}
use filestore.Base.{ℕ, ◌<◌, ◌≡◌}
use filestore.Store.Location.{
  Location, u16_mod, u32_mod, u64_mod, new, page_id, page_offset, object_size,
}
use filestore.Store.Location.Packing.{packed-new, fields-new, new-fields}

abbrev pub Below : ℕ → Type 0
Below n = (k : ℕ) × (k < n)

Below-ext : {n : ℕ} (a b : Below n) → a.0 ≡ b.0 → a ≡ b
Below-ext {n} a b p = Σ_prop_path (λ (k : ℕ). le_prop) p

-- A `u32` and two `u16`.
abbrev pub Fields : Type 0
Fields = Below u32_mod × Below u16_mod × Below u16_mod

-- A location whose word is a `u64`.
abbrev pub Word : Type 0
Word = (l : Location) × (l.packed < u64_mod)

Word-ext : (a b : Word) → a.0 ≡ b.0 → a ≡ b
Word-ext a b p = Σ_prop_path (λ (l : Location). le_prop) p

pub pack : Fields → Word
pack ((p, hp), (o, ho), (s, hs)) = (new p o s, (packed-new p o s hp ho hs).1)

unpack : Word → Fields
unpack (l, h) =
    let (same, hp, ho, hs) = new-fields l h in
    ((page_id l, hp), (page_offset l, ho), (object_size l, hs))

pack-unpack : (w : Word) → pack (unpack w) ≡ w
unfolding pack unpack
pack-unpack (l, h) = Word-ext _ _ (new-fields l h).0

unpack-pack : (f : Fields) → unpack (pack f) ≡ f
unfolding pack unpack
unpack-pack ((p, hp), (o, ho), (s, hs)) =
    let (page, offset, size) = fields-new p o s hp ho hs in
    let fields = unpack (pack ((p, hp), (o, ho), (s, hs))) in
    λ i. (
      Below-ext fields.0 (p, hp) page i,
      Below-ext fields.1 (o, ho) offset i,
      Below-ext fields.2 (s, hs) size i,
    )

-- `new` is an equivalence from the triples of a 32-bit page id, a 16-bit offset and a 16-bit size
-- to the locations whose word is a `u64`: each location is packed from exactly one triple.
pub pack-IsEquiv : IsEquiv pack
pack-IsEquiv =
    (iso_to_equiv (record { fun = pack; inv = unpack; rinv = pack-unpack; linv = unpack-pack })).1
