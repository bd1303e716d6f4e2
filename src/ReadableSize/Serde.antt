-- ===== src/ReadableSize/Serde.antt =====
-- `Deserialize` of crates/common/src/readable_size.rs on the values of a self-describing format, which
-- calls the method of the visitor that fits the value.
use filestore.Base.{
  ℕ, ◌%◌, ◌^◌, ◌<◌, ◌≡◌, ◌≢◌, refl, ap, ◌∙◌, Option, none, some, ltb, lt→ltb, if◌then◌else◌,
}
use filestore.Base.Int.{negsuc}
use filestore.Serde.{Value, number, negative, string, Reader}
use filestore.ReadableSize.{
  ReadableSize, Serialized, serialize_str, serialize_u64, serialize, mib, i64, u64, str, Visited,
  value, invalid_value, custom, visit,
}
use filestore.ReadableSize.RoundTrip.{
  reread, Shape, with_unit, plain, serialize-Shape, visit-serialize,
}

written : Serialized → Value
written (serialize_str s) = string s
written (serialize_u64 n) = number n

unfoldable pub size_value : ReadableSize → Value
unfolding written
size_value s = written (serialize s)

unfoldable pub visited : Visited → Option ReadableSize
visited (value s) = some s
visited (invalid_value n) = none
visited (custom e) = none

-- `deserialize_any`: the visitor has no method for the other values.
unfoldable pub read_size : Reader ReadableSize
unfolding visit visited
read_size (number n) = if ltb n (2 ^ 64) then visited (visit (u64 n)) else none
read_size (negative n) = visited (visit (i64 (negsuc n)))
read_size (string s) = visited (visit (str s))
read_size _ = none

-- A size that `visit-serialize` is about.
abbrev pub Kept : ReadableSize → Type 0
Kept s = (s.bytes < 2 ^ 64) × (s.bytes % mib ≢ 0 → s.bytes < 2 ^ 63)

read_size-Shape :
    (size : ℕ) {w : Serialized}
    → size < 2 ^ 64
    → Shape size w
    → read_size (written w) ≡ visited (visit (reread w))
unfolding read_size written
read_size-Shape size h (with_unit n i u good unit ten hi e fits) = refl
read_size-Shape size h plain = rw (lt→ltb size (2 ^ 64) h) refl

pub read_size-value : (s : ReadableSize) → Kept s → read_size (size_value s) ≡ some s
unfolding size_value visited
read_size-value s (h, small) =
    read_size-Shape s.bytes h (serialize-Shape s.bytes h) ∙ ap visited (visit-serialize s h small)
