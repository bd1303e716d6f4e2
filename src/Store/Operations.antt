-- ===== src/Store/Operations.antt =====
-- crates/store/src/core.rs: the errors, and the trait `Store`, which the repository does not
-- implement. `Slice` is a type of the crate value_log. A method may change the store behind its
-- `&self`, which is state passing here, and a stream is the list of its items.
use filestore.Base.{List, ◌++◌}
use filestore.Text.{Text, codes}
use filestore.Store.Location.{Location}

-- The source of an I/O error is a `std::io::Error`, by what it prints.
pub data Error : Type 0 where
  key_not_found : Error
  io : Text → Error
  corrupted : Text → Error
  unsupported : Text → Error

-- `Display`
unfoldable pub display : Error → Text
display key_not_found = codes "Key not found"
display (io source) = codes "I/O error: " ++ source
display (corrupted message) = codes "Store corrupted: " ++ message
display (unsupported operation) = codes "Operation not supported: " ++ operation

pub data Result (A : Type 0) : Type 0 where
  ok : A → Result A
  err : Error → Result A

abbrev pub KeyStream : Type 0 → Type 0
KeyStream Slice = List (Result Slice)

pub record Store (Slice : Type 0) : Type 1 where
  pub State : Type 0
  pub get : Location → State → Result Slice
  pub put : Slice → State → Result Location × State
  pub delete : List Location → State → Result (Unit {0}) × State
  pub scan : Location → State → Result (KeyStream Slice)

-- `Options::open`: it panics, whatever the path.
pub data Opened (Slice : Type 0) : Type 1 where
  opens : Store Slice → Opened Slice
  not_implemented : Opened Slice

unfoldable pub open_options : (Slice : Type 0) → Text → Opened Slice
open_options Slice path = not_implemented
