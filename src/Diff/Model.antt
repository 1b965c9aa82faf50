-- ===== src/Diff/Model.antt =====
-- The data types of internal/diff/diff.go, and its errors as values.
-- An error keeps the sentinel that errors.Is finds; the text wrapped round it is left out.
use letopis.Prelude.{Str, Option, Bool, true, false}
use letopis.Json.{Value}

-- `other` is an operation that is none of the three constants.
pub data Op : Type 0 where
  add change remove : Op
  other : Str → Op

-- An unset `Old` or `New` is nil, which is the JSON null.
pub record Change : Type 0 where
  pub path : Str
  pub op : Op
  pub old : Value
  pub new : Value

-- `array_keys` looks a path up in the map `ArrayKeys`.
pub record Options : Type 0 where
  pub array_keys : Str → Option Str

pub data Error : Type 0 where
  path_not_found type_mismatch unknown_op keyed_path_not_exportable : Error

pub data Result {ℓ} (A : Type ℓ) : Type ℓ where
  ok : A → Result A
  err : Error → Result A

infixl 5 ◌>>=◌
abbrev pub ◌>>=◌ {ℓ κ} : {A : Type ℓ} {B : Type κ} → Result A → (A → Result B) → Result B
ok a >>= f = f a
err e >>= f = err e

abbrev pub or_err {ℓ} : {A : Type ℓ} → Option A → Error → Result A
or_err Option.none e = err e
or_err (Option.some a) e = ok a

abbrev pub require : Bool → Error → Result (Unit {0})
require true e = ok tt
require false e = err e
