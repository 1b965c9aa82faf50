-- ===== src/Diff/Plain.antt =====
-- The values that dot-notation can carry.
use letopis.Prelude.{
  ◌≤◌, ◌≡◌, sym, subst, Str, str_eq, str_eq→eq, some, Bool-cases, inl, inr, arith,
}
use letopis.Json.{Value, arr, obj, Items, nil, cons, Fields, end, field}
use letopis.Json.Slice
use letopis.Json.Object.{lookup}
use letopis.Diff.Path.{sign_bit}
use letopis.Diff.Path.Parse.{IsPlainKey}

-- Dot-notation can carry the value: every object key is plain, and no array is longer than an int
-- can count.
abbrev mutual
  pub IsPlain : Value → Type 0
  IsPlain (arr xs) = (Slice.length xs ≤ sign_bit) × IsPlainItems xs
  IsPlain (obj fs) = IsPlainFields fs
  IsPlain _ = Unit {0}

  pub IsPlainItems : Items → Type 0
  IsPlainItems nil = Unit {0}
  IsPlainItems (cons v xs) = IsPlain v × IsPlainItems xs

  pub IsPlainFields : Fields → Type 0
  IsPlainFields end = Unit {0}
  IsPlainFields (field k v r) = IsPlainKey k × IsPlain v × IsPlainFields r

pub lookup-IsPlain :
    (k : Str) (fs : Fields) (v : Value)
    → IsPlainFields fs
    → lookup k fs ≡ some v
    → IsPlainKey k × IsPlain v
unfolding lookup
lookup-IsPlain k end v h e = ground arith
lookup-IsPlain k (field j w r) v h e = elim (Bool-cases (str_eq k j)) [
  | inl p ↦ (subst IsPlainKey (sym (str_eq→eq k j p)) h.0, subst IsPlain (ground arith) h.1)
  | inr n ↦ lookup-IsPlain k r v h.2 (ground arith)
]
