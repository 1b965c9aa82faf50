-- ===== src/Json.antt =====
-- The JSON value space of encoding/json, on which internal/diff works (`any` in diff.go).
-- A float64 is its bit pattern (no NaN, and negative zero is left out: Go compares numbers by `==`).
-- The constructors `int` and `int64` are the integer types that diff.go's `keyValString` admits.
-- A `map[string]any` is the list of its entries in ascending key order (`IsValue`), so that two
-- maps are deeply equal exactly when their lists are equal.
pub mod Slice
pub mod Object
use Prim.Native.Nat.{max}
use letopis.Prelude.{ℕ, zero, suc, Str, str_lt, ◌≡◌, refl, Bool, true, false, arith}
use letopis.Prelude.Int.{ℤ}
use native.Mathlib.Decide.{ℕ_discrete}

mutual
  pub data Value : Type 0 where
    null : Value
    bool : Bool → Value
    num : ℕ → Value
    int : ℤ → Value
    int64 : ℤ → Value
    str : Str → Value
    arr : Items → Value
    obj : Fields → Value

  pub data Items : Type 0 where
    nil : Items
    cons : Value → Items → Items

  pub data Fields : Type 0 where
    end : Fields
    field : Str → Value → Fields → Fields

pub Value-discrete : Discrete Value
Value-discrete = hlevel ℕ_discrete

-- reflect.DeepEqual
unfoldable pub json_equal : Value → Value → Bool
unfolding Value-discrete ℕ_discrete
json_equal a b = elim (Value-discrete a b) [ yes p ↦ true | no p ↦ false ]

-- The first key of the entries, if there is one, is above `k`.
abbrev pub HeadAbove : Str → Fields → Type 0
HeadAbove k end = Unit {0}
HeadAbove k (field j v r) = str_lt k j ≡ true

abbrev pub IsSorted : Fields → Type 0
IsSorted end = Unit {0}
IsSorted (field k v r) = HeadAbove k r × IsSorted r

-- Every object inside has ascending keys.
abbrev mutual
  pub IsValue : Value → Type 0
  IsValue (arr xs) = IsItems xs
  IsValue (obj fs) = IsFields fs
  IsValue _ = Unit {0}

  pub IsItems : Items → Type 0
  IsItems nil = Unit {0}
  IsItems (cons v xs) = IsValue v × IsItems xs

  pub IsFields : Fields → Type 0
  IsFields end = Unit {0}
  IsFields (field k v r) = HeadAbove k r × IsValue v × IsFields r

pub json_equal→eq : (a b : Value) → json_equal a b ≡ true → a ≡ b
unfolding json_equal
json_equal→eq a b h = ground arith

pub json_equal_refl : (a : Value) → json_equal a a ≡ true
unfolding json_equal
json_equal_refl a = ground arith

json_equal_runs : json_equal (arr (cons (num 1) nil)) (arr (cons (num 2) nil)) ≡ false
unfolding json_equal
json_equal_runs = refl

unfoldable mutual
  pub depth : Value → ℕ
  depth (arr xs) = suc (depth_items xs)
  depth (obj fs) = suc (depth_fields fs)
  depth _ = 0

  pub depth_items : Items → ℕ
  depth_items nil = 0
  depth_items (cons x xs) = max (depth x) (depth_items xs)

  pub depth_fields : Fields → ℕ
  depth_fields end = 0
  depth_fields (field k v r) = max (depth v) (depth_fields r)
