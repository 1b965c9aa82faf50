-- ===== src/Diff/Compute.antt =====
-- internal/diff/diff.go: Diff and the functions that it calls. Each `diff…` function of the source
-- appends to `out`; here it returns what it appends. `format_float` is strconv.FormatFloat of a
-- float64 given by its bit pattern.
pub mod Union
use letopis.Prelude.{
  ℕ, zero, suc, ◌+◌, Str, str_eq, str_lt, codes, Bool, true, false, Option, none, some, List, [],
  ◌∷◌, ◌++◌, ◌&&◌, if◌then◌else◌,
}
use letopis.Json.{
  Value, null, bool, num, int, int64, str, arr, obj, Items, nil, cons, Fields, end, json_equal,
  depth,
}
use letopis.Json.Slice
use letopis.Json.Object.{lookup, put, keys}
use letopis.Diff.Model.{Op, add, change, remove, Change, Options}
use letopis.Diff.Text.{format_int}
use letopis.Diff.Path.{child_path, index_path, keyed_path}

abbrev pub contains : List Str → Str → Bool
contains [] k = false
contains (x ∷ xs) k = if str_eq k x then true else contains xs k

-- sort.Strings, by insertion
unfoldable pub insert_sorted : Str → List Str → List Str
insert_sorted k [] = k ∷ []
insert_sorted k (x ∷ xs) = if str_lt x k then x ∷ insert_sorted k xs else k ∷ x ∷ xs

unfoldable pub sort_strings : List Str → List Str
unfolding insert_sorted
sort_strings [] = []
sort_strings (k ∷ ks) = insert_sorted k (sort_strings ks)

-- the keys that the loop of `sortedUnion` adds to `seen`
unfoldable pub union : List Str → List Str → List Str
union seen [] = seen
union seen (k ∷ ks) = union (if contains seen k then seen else seen ++ k ∷ []) ks

unfoldable pub sorted_union : Fields → Fields → List Str
unfolding sort_strings union
sorted_union a b = sort_strings (union (union [] (keys a)) (keys b))

-- `none` stands for the result `"", false`.
unfoldable pub key_val_string : (ℕ → Str) → Value → Option Str
unfolding format_int
key_val_string format_float (str t) = some t
key_val_string format_float (bool true) = some (codes "true")
key_val_string format_float (bool false) = some (codes "false")
key_val_string format_float (num t) = some (format_float t)
key_val_string format_float (int t) = some (format_int t)
key_val_string format_float (int64 t) = some (format_int t)
key_val_string format_float _ = none

-- m[k], where a missing key reads as nil
abbrev pub at_key : Str → Fields → Value
at_key k m = elim (lookup k m) [ some v ↦ v | none ↦ null ]

-- The key of an element: none if it is no object or its key field is no scalar.
unfoldable pub element_key : (ℕ → Str) → Str → Value → Option Str
unfolding key_val_string lookup
element_key format_float key_field (obj m) = key_val_string format_float (at_key key_field m)
element_key format_float key_field _ = none

-- the loop of `keyable`
unfoldable pub keyable_from : (ℕ → Str) → List Str → Items → Str → Bool
unfolding element_key
keyable_from format_float seen nil key_field = true
keyable_from format_float seen (cons el els) key_field =
    elim (element_key format_float key_field el) [
      | none ↦ false
      | some ks ↦
          if contains seen ks then false else keyable_from format_float (ks ∷ seen) els key_field
    ]

unfoldable pub keyable : (ℕ → Str) → Items → Str → Bool
unfolding keyable_from
keyable format_float els key_field = keyable_from format_float [] els key_field

-- Any change that Diff reports: nil where the source leaves a field unset.
abbrev pub added : Str → Value → Change
added path v = record { path = path; op = add; old = null; new = v }

abbrev pub changed : Str → Value → Value → Change
changed path a b = record { path = path; op = change; old = a; new = b }

abbrev pub removed : Str → Value → Change
removed path v = record { path = path; op = remove; old = v; new = null }

-- The functions below take `diff_value`, one level down, as `rec`.
abbrev pub Rec : Type 0
Rec = Str → Value → Value → List Change

-- one round of the loop of `diffMap`
unfoldable pub diff_key : Rec → Str → Str → Option Value → Option Value → List Change
unfolding child_path
diff_key rec path k (some av) (some bv) = rec (child_path path k) av bv
diff_key rec path k none (some bv) = added (child_path path k) bv ∷ []
diff_key rec path k (some av) none = removed (child_path path k) av ∷ []
diff_key rec path k none none = removed (child_path path k) null ∷ []

unfoldable pub diff_keys : Rec → Str → Fields → Fields → List Str → List Change
unfolding diff_key lookup
diff_keys rec path a b [] = []
diff_keys rec path a b (k ∷ ks) =
    diff_key rec path k (lookup k a) (lookup k b) ++ diff_keys rec path a b ks

unfoldable pub diff_map : Rec → Str → Fields → Fields → List Change
unfolding diff_keys sorted_union
diff_map rec path a b = diff_keys rec path a b (sorted_union a b)

-- the tail additions of `diffIndexArray`, ascending from index `i`
unfoldable pub index_adds : Str → ℕ → Items → List Change
unfolding index_path
index_adds path i nil = []
index_adds path i (cons v vs) = added (index_path path i) v ∷ index_adds path (suc i) vs

-- its tail removals, descending to index `i`
unfoldable pub index_removes : Str → ℕ → Items → List Change
unfolding index_path
index_removes path i nil = []
index_removes path i (cons v vs) =
    index_removes path (suc i) vs ++ removed (index_path path i) v ∷ []

-- its three loops, from index `i` on
unfoldable pub diff_index_from : Rec → Str → ℕ → Items → Items → List Change
unfolding index_path index_adds index_removes
diff_index_from rec path i (cons x xs) (cons y ys) =
    rec (index_path path i) x y ++ diff_index_from rec path (suc i) xs ys
diff_index_from rec path i nil ys = index_adds path i ys
diff_index_from rec path i (cons x xs) nil = index_removes path i (cons x xs)

unfoldable pub diff_index_array : Rec → Str → Items → Items → List Change
unfolding diff_index_from
diff_index_array rec path a b = diff_index_from rec path 0 a b

-- `ks, _ := keyValString(el.(map[string]any)[keyField])`, which runs on keyable arrays only
abbrev pub key_of : (ℕ → Str) → Str → Value → Str
key_of format_float key_field el = elim (element_key format_float key_field el) [
  | some ks ↦ ks
  | none ↦ []
]

unfoldable pub by_key : (ℕ → Str) → Str → Items → Fields → Fields
unfolding element_key put
by_key format_float key_field nil m = m
by_key format_float key_field (cons el els) m =
    by_key format_float key_field els (put (key_of format_float key_field el) el m)

unfoldable pub keys_of : (ℕ → Str) → Str → Items → List Str
unfolding element_key
keys_of format_float key_field nil = []
keys_of format_float key_field (cons el els) =
    key_of format_float key_field el ∷ keys_of format_float key_field els

unfoldable pub keyed_source : (ℕ → Str) → Rec → Str → Str → Fields → Items → List Change
unfolding element_key keyed_path lookup
keyed_source format_float rec path kf b_by_key nil = []
keyed_source format_float rec path kf b_by_key (cons el els) =
    let ks = key_of format_float kf el in
    elim (lookup ks b_by_key) [
      | some bel ↦ rec (keyed_path path kf ks) el bel
      | none ↦ removed (keyed_path path kf ks) el ∷ []
    ]
    ++ keyed_source format_float rec path kf b_by_key els

unfoldable pub keyed_adds : (ℕ → Str) → Str → Str → List Str → Items → List Change
unfolding element_key keyed_path
keyed_adds format_float path kf a_keys nil = []
keyed_adds format_float path kf a_keys (cons el els) =
    let ks = key_of format_float kf el in
    let rest = keyed_adds format_float path kf a_keys els in
    if contains a_keys ks then rest else added (keyed_path path kf ks) el ∷ rest

unfoldable pub diff_keyed_array : (ℕ → Str) → Rec → Str → Str → Items → Items → List Change
unfolding by_key keyed_source keyed_adds keys_of
diff_keyed_array format_float rec path kf a b =
    keyed_source format_float rec path kf (by_key format_float kf b end) a
    ++ keyed_adds format_float path kf (keys_of format_float kf a) b

unfoldable pub diff_arrays : (ℕ → Str) → Options → Rec → Str → Items → Items → List Change
unfolding diff_keyed_array diff_index_array keyable
diff_arrays format_float opts rec path a b = elim (opts.array_keys path) [
  | none ↦ diff_index_array rec path a b
  | some kf ↦
      if keyable format_float a kf && keyable format_float b kf
      then diff_keyed_array format_float rec path kf a b
      else diff_index_array rec path a b
]

unfoldable pub diff_unequal : (ℕ → Str) → Options → Rec → Rec
unfolding diff_map diff_arrays
diff_unequal format_float opts rec path (obj am) (obj bm) = diff_map rec path am bm
diff_unequal format_float opts rec path (arr aa) (arr ba) =
    diff_arrays format_float opts rec path aa ba
diff_unequal format_float opts rec path a b = changed path a b ∷ []

-- The fuel is above the depth of the two values.
unfoldable pub diff_value : (ℕ → Str) → Options → ℕ → Rec
unfolding diff_unequal json_equal
diff_value format_float opts zero path a b = []
diff_value format_float opts (suc n) path a b =
    let rest = diff_unequal format_float opts (diff_value format_float opts n) path a b in
    if json_equal a b then [] else rest

unfoldable pub diff : (ℕ → Str) → Value → Value → Options → List Change
unfolding diff_value depth
diff format_float a b opts = diff_value format_float opts (suc (depth a)) [] a b
