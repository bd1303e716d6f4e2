-- ===== src/Store/Location.antt =====
-- `Location` of crates/store/src/core.rs: a page id, an offset and a size packed in a `u64`.
pub mod Packing
pub mod Equivalence
use Prim.Native.Nat.{bit_or}
use filestore.Base.{ℕ, ◌*◌, ◌/◌, ◌%◌, ◌^◌}

abbrev pub u16_mod : ℕ
u16_mod = 2 ^ 16

abbrev pub u32_mod : ℕ
u32_mod = 2 ^ 32

abbrev pub u64_mod : ℕ
u64_mod = 2 ^ 64

-- The tuple struct, whose field is a `u64`.
pub record Location : Type 0 where
  pub packed : ℕ

-- `new`: `<<` drops what leaves the 64 bits.
unfoldable pub new : ℕ → ℕ → ℕ → Location
new page_id offset size = record {
  packed = bit_or (bit_or (page_id * 2 ^ 32 % u64_mod) (offset * 2 ^ 16 % u64_mod)) size;
}

-- `as u32` and `as u16` keep the low bits.
unfoldable pub page_id : Location → ℕ
page_id l = l.packed / 2 ^ 32 % u32_mod

unfoldable pub page_offset : Location → ℕ
page_offset l = l.packed / 2 ^ 16 % u16_mod

unfoldable pub object_size : Location → ℕ
object_size l = l.packed % u16_mod

unfoldable pub raw : Location → ℕ
raw l = l.packed

unfoldable pub from_raw : ℕ → Location
from_raw r = record { packed = r }
