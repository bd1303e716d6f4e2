-- ===== src/Serde/Required.antt =====
-- Structs whose fields have no defaults.
use filestore.Base.{◌≡◌, refl, some}
use filestore.Text.{Text}
use filestore.Serde.{
  Value, Reader, Fields, Found, once, missing, twice, find, read_once, read_required,
}

-- The field is there once, and its value is read as `a`.
pub record Given {A : Type 0} (read : Reader A) (key : Text) (fs : Fields) (a : A) : Type 0 where
  pub given : Value
  pub found : find key fs ≡ once given
  pub read_as : read given ≡ some a

read_once-Given :
    {A : Type 0} (read : Reader A) (f : Found) {a : A}
    → read_once read f ≡ some a
    → (v : Value) × (f ≡ once v) × (read v ≡ some a)
unfolding read_once
read_once-Given read (once v) h = (v, refl, h)
read_once-Given read missing h = cc
read_once-Given read twice h = cc

pub read_required-Given :
    {A : Type 0} (read : Reader A) (key : Text) (fs : Fields) {a : A}
    → read_required read key fs ≡ some a
    → Given read key fs a
unfolding read_required
read_required-Given read key fs h =
    let (v, found, read_as) = read_once-Given read (find key fs) h in
    record { given = v; found = found; read_as = read_as }

pub Given-read_required :
    {A : Type 0} (read : Reader A) (key : Text) (fs : Fields) {a : A}
    → Given read key fs a
    → read_required read key fs ≡ some a
unfolding read_required read_once
Given-read_required read key fs g = rw (g.found) g.read_as
