-- ===== src/Store/Location/Packing.antt =====
-- The fields of a `Location` do not overlap.
use Prim.Native.Nat.{bit_or}
use filestore.Base.{◌%◌, ℕ, ◌+◌, ◌*◌, ◌^◌, ◌<◌, ◌≡◌, refl, arith, ap}
use filestore.Base.Bits.{bit_or_field}
use filestore.Store.Location.{
  Location, u16_mod, u32_mod, u64_mod, new, page_id, page_offset, object_size, raw, from_raw,
}

module _ (p o s : ℕ) (hp : p < u32_mod) (ho : o < u16_mod) (hs : s < u16_mod) where
  -- The shifted fields keep all their bits.
  upper_fields : bit_or (p * 2 ^ 32 % u64_mod) (o * 2 ^ 16 % u64_mod) ≡ (p * 2 ^ 16 + o) * 2 ^ 16
  upper_fields =
      let page : p * 2 ^ 32 % u64_mod ≡ p * 2 ^ 32 = omega arith in
      let offset : o * 2 ^ 16 % u64_mod ≡ o * 2 ^ 16 = omega arith in
      rw (page, offset) (omega (arith, bit_or_field 32 p (o * 2 ^ 16) (omega arith)))

  -- For a 32-bit page id, a 16-bit offset and a 16-bit size, `new` adds the three fields at their
  -- places: no bit is lost or shared, and the word fits a `u64`.
  pub packed-new :
      ((new p o s).packed ≡ p * 2 ^ 32 + o * 2 ^ 16 + s) × ((new p o s).packed < u64_mod)
  unfolding new
  packed-new =
      let sum : (new p o s).packed ≡ (p * 2 ^ 16 + o) * 2 ^ 16 + s =
        rw upper_fields (bit_or_field 16 (p * 2 ^ 16 + o) s hs) in
      (omega arith, omega arith)

  -- For a 32-bit page id, a 16-bit offset and a 16-bit size, each accessor gives back the field
  -- that `new` was given.
  pub fields-new :
      (page_id (new p o s) ≡ p) × (page_offset (new p o s) ≡ o) × (object_size (new p o s) ≡ s)
  unfolding page_id page_offset object_size
  fields-new =
      (omega (arith, packed-new.0), omega (arith, packed-new.0), omega (arith, packed-new.0))

-- Taking any 64-bit location apart and packing the parts again gives the same location; the parts
-- are in range.
pub new-fields :
    (l : Location)
    → l.packed < u64_mod
    → (new (page_id l) (page_offset l) (object_size l) ≡ l)
      × (page_id l < u32_mod)
      × (page_offset l < u16_mod)
      × (object_size l < u16_mod)
unfolding page_id page_offset object_size
new-fields l h = (
  ap {B = Location} (λ w. record { packed = w })
      (omega (
        arith,
        packed-new (page_id l) (page_offset l) (object_size l) (omega arith) (omega arith)
            (omega arith),
      )),
  omega arith,
  omega arith,
  omega arith,
)

-- Two locations built from fields in range are equal only if all their fields are.
pub new_injective :
    (p o s p' o' s' : ℕ)
    → p < u32_mod
    → o < u16_mod
    → s < u16_mod
    → p' < u32_mod
    → o' < u16_mod
    → s' < u16_mod
    → new p o s ≡ new p' o' s'
    → (p ≡ p') × (o ≡ o') × (s ≡ s')
new_injective p o s p' o' s' hp ho hs hp' ho' hs' e =
    let same : (new p o s).packed ≡ (new p' o' s').packed = ap (λ (l : Location). l.packed) e in
    omega (arith, packed-new p o s hp ho hs, packed-new p' o' s' hp' ho' hs')

-- A `Location` is determined by its raw word, and every word is one.
pub raw-from_raw : (r : ℕ) (l : Location) → (raw (from_raw r) ≡ r) × (from_raw (raw l) ≡ l)
unfolding raw from_raw
raw-from_raw r l = (refl, refl)
