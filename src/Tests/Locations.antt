-- ===== src/Tests/Locations.antt =====
-- Locations: the theorems at fields and words that are in range.
use filestore.Base.{◌≡◌, refl}
use filestore.Store.Location.{Location, page_id}

abbrev word : Location
word = record { packed = 0x123456789abcdef0 }

page_of_word : page_id word ≡ 0x12345678
unfolding page_id
page_of_word = refl
