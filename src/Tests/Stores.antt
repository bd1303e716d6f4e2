-- ===== src/Tests/Stores.antt =====
-- What an error of a store prints.
use filestore.Base.{◌≡◌, refl}
use filestore.Text.{codes}
use filestore.Store.Operations.{io, display}

io_text : display (io (codes "disk full")) ≡ codes "I/O error: disk full"
unfolding display
io_text = refl
