-- ===== src/Diff/Apply.antt =====
-- internal/diff/apply.go: Apply. A value is a pure value here: the deep copy that Apply works on is
-- an operation of its own, and the value that a change carries is not shared with another change.
use letopis.Prelude.{
  ℕ, suc, Str, str_eq, Bool, Option, none, some, List, [], ◌∷◌, ◌||◌, ltb, leb, if◌then◌else◌,
}
use letopis.Json.{
  Value, null, bool, num, int, int64, str, arr, obj, Items, nil, cons, Fields, end, field,
}
use letopis.Json.Slice
use letopis.Json.Slice.{◌+++◌}
use letopis.Json.Object.{lookup, put, delete}
use letopis.Diff.Model.{
  Op, add, change, remove, other, Change, Result, ok, err, path_not_found, type_mismatch,
  unknown_op, ◌>>=◌, or_err,
}
use letopis.Diff.Path.{PathSeg, key, index, keyed, sign_bit, parse_path}
use letopis.Diff.Compute.{element_key}

unfoldable mutual
  pub deep_copy : Value → Value
  deep_copy (obj fs) = obj (deep_copy_fields fs)
  deep_copy (arr xs) = arr (deep_copy_items xs)
  deep_copy null = null
  deep_copy (bool b) = bool b
  deep_copy (num n) = num n
  deep_copy (int n) = int n
  deep_copy (int64 n) = int64 n
  deep_copy (str s) = str s

  pub deep_copy_items : Items → Items
  deep_copy_items nil = nil
  deep_copy_items (cons x xs) = cons (deep_copy x) (deep_copy_items xs)

  pub deep_copy_fields : Fields → Fields
  deep_copy_fields end = end
  deep_copy_fields (field k v r) = field k (deep_copy v) (deep_copy_fields r)

-- `none` stands for the index -1.
unfoldable pub index_of_key : (ℕ → Str) → Items → Str → Str → Option ℕ
unfolding element_key
index_of_key format_float nil key_field key_val = none
index_of_key format_float (cons el els) key_field key_val =
    let rest = index_of_key format_float els key_field key_val in
    let behind : Option ℕ = elim rest [ some j ↦ some (suc j) | none ↦ none ] in
    elim (element_key format_float key_field el) [
      | some ks ↦ if str_eq ks key_val then some 0 else behind
      | none ↦ behind
    ]

abbrev pub as_object : Value → Result Fields
as_object (obj m) = ok m
as_object _ = err type_mismatch

abbrev pub as_array : Value → Result Items
as_array (arr xs) = ok xs
as_array _ = err type_mismatch

-- i < 0 || i >= n, for the bit pattern `i` of an int
abbrev pub out_of_range : ℕ → ℕ → Bool
out_of_range i n = leb sign_bit i || leb n i

-- the leaf of a key segment
unfoldable pub apply_key : Str → Fields → Change → Op → Result Fields
unfolding lookup put delete
apply_key name m ch add = ok (put name ch.new m)
apply_key name m ch change = ok (put name ch.new m)
apply_key name m ch remove = elim (lookup name m) [
  | none ↦ err path_not_found
  | some v ↦ ok (delete name m)
]
apply_key name m ch (other o) = err unknown_op

-- the leaf of an index segment
unfoldable pub apply_index : ℕ → Items → Change → Op → Result Items
apply_index i xs ch add =
    if leb sign_bit i || ltb (Slice.length xs) i
    then err path_not_found
    else ok (Slice.insert_at xs i ch.new)
apply_index i xs ch change =
    if out_of_range i (Slice.length xs) then err path_not_found else ok (Slice.set xs i ch.new)
apply_index i xs ch remove =
    if out_of_range i (Slice.length xs) then err path_not_found else ok (Slice.remove_at xs i)
apply_index i xs ch (other o) = err unknown_op

-- the leaf of a keyed segment, at the position that `indexOfKey` found
unfoldable pub apply_keyed : Option ℕ → Items → Change → Op → Result Items
apply_keyed idx xs ch add = ok (xs +++ cons ch.new nil)
apply_keyed none xs ch change = err path_not_found
apply_keyed (some i) xs ch change = ok (Slice.set xs i ch.new)
apply_keyed none xs ch remove = err path_not_found
apply_keyed (some i) xs ch remove = ok (Slice.remove_at xs i)
apply_keyed idx xs ch (other o) = err unknown_op

-- arr[i], where the source has tested the index
abbrev pub element : Items → ℕ → Result Value
element xs i =
    if out_of_range i (Slice.length xs)
    then err path_not_found
    else or_err (Slice.get_elem? xs i) path_not_found

-- applyStep on the segments s ∷ rest
unfoldable pub apply_step : (ℕ → Str) → PathSeg → List PathSeg → Value → Change → Result Value
unfolding apply_key apply_index apply_keyed index_of_key lookup put
apply_step format_float (key name) [] node ch = do
  m ← as_object node
  m' ← apply_key name m ch ch.op
  ok (obj m')
apply_step format_float (key name) (s ∷ ss) node ch = do
  m ← as_object node
  child ← or_err (lookup name m) path_not_found
  nv ← apply_step format_float s ss child ch
  ok (obj (put name nv m))
apply_step format_float (index i) [] node ch = do
  xs ← as_array node
  xs' ← apply_index i xs ch ch.op
  ok (arr xs')
apply_step format_float (index i) (s ∷ ss) node ch = do
  xs ← as_array node
  child ← element xs i
  nv ← apply_step format_float s ss child ch
  ok (arr (Slice.set xs i nv))
apply_step format_float (keyed key_field key_val) [] node ch = do
  xs ← as_array node
  xs' ← apply_keyed (index_of_key format_float xs key_field key_val) xs ch ch.op
  ok (arr xs')
apply_step format_float (keyed key_field key_val) (s ∷ ss) node ch = do
  xs ← as_array node
  i ← or_err (index_of_key format_float xs key_field key_val) path_not_found
  child ← or_err (Slice.get_elem? xs i) path_not_found
  nv ← apply_step format_float s ss child ch
  ok (arr (Slice.set xs i nv))

-- the empty path, on which only a replacement is admitted
abbrev pub apply_root : Change → Op → Result Value
apply_root ch change = ok ch.new
apply_root ch _ = err unknown_op

unfoldable pub apply_segs : (ℕ → Str) → List PathSeg → Value → Change → Result Value
unfolding apply_step
apply_segs format_float [] node ch = apply_root ch ch.op
apply_segs format_float (s ∷ ss) node ch = apply_step format_float s ss node ch

-- the loop of Apply
unfoldable pub apply_all : (ℕ → Str) → Value → List Change → Result Value
unfolding apply_segs parse_path
apply_all format_float result [] = ok result
apply_all format_float result (ch ∷ chs) = do
  segs ← parse_path ch.path
  result' ← apply_segs format_float segs result ch
  apply_all format_float result' chs

unfoldable pub apply : (ℕ → Str) → Value → List Change → Result Value
unfolding apply_all deep_copy
apply format_float state changes = apply_all format_float (deep_copy state) changes
