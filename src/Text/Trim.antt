-- ===== src/Text/Trim.antt =====
-- Text without white space is not trimmed.
use filestore.Base.{◌≡◌, refl, false, [], ◌∷◌, All}
use filestore.Text.{Text, is_whitespace, trim_start, trim_end, trim}

abbrev pub Solid : Text → Type 0
Solid = All λ c. is_whitespace c ≡ false

trim_start-Solid : (s : Text) → Solid s → trim_start s ≡ s
unfolding trim_start
trim_start-Solid [] h = refl
trim_start-Solid (c ∷ s) h = rw h.0

trim_end-Solid : (s : Text) → Solid s → trim_end s ≡ s
unfolding trim_end
trim_end-Solid [] h = refl
trim_end-Solid (c ∷ []) h = rw h.0
trim_end-Solid (c ∷ d ∷ s) h = rw (trim_end-Solid (d ∷ s) h.1)

pub trim-Solid : (s : Text) → Solid s → trim s ≡ s
unfolding trim
trim-Solid s h = rw (trim_start-Solid s h) (trim_end-Solid s h)
