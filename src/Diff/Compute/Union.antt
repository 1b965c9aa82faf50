-- ===== src/Diff/Compute/Union.antt =====
-- The keys that sortedUnion returns: those of the two objects, each once, in ascending order.
use letopis.Prelude.{
  Str, str_eq, str_lt, str_eq→eq, str_eq_refl, str_lt_total, str_lt_trans, str_lt_irrefl, ◌≡◌, refl,
  ◌∙◌, Bool, true, false, ◌||◌, Option, none, some, List, [], ◌∷◌, ◌++◌, Bool-cases, inl, inr,
  arith,
}
use letopis.Json.{Fields, end, field}
use letopis.Json.Object.{lookup, keys}
use letopis.Diff.Compute.{contains, insert_sorted, sort_strings, union, sorted_union}

abbrev pub is_some {ℓ} : {A : Type ℓ} → Option A → Bool
is_some none = false
is_some (some a) = true

-- No key stands twice.
abbrev pub IsDistinct : List Str → Type 0
IsDistinct [] = Unit {0}
IsDistinct (k ∷ ks) = (contains ks k ≡ false) × IsDistinct ks

abbrev pub AllBelow : Str → List Str → Type 0
AllBelow k [] = Unit {0}
AllBelow k (x ∷ xs) = (str_lt k x ≡ true) × AllBelow k xs

abbrev pub IsAscending : List Str → Type 0
IsAscending [] = Unit {0}
IsAscending (k ∷ ks) = AllBelow k ks × IsAscending ks

contains-append :
    (xs ys : List Str) (k : Str) → contains (xs ++ ys) k ≡ (contains xs k || contains ys k)
contains-append [] ys k = refl
contains-append (x ∷ xs) ys k = ground (arith, contains-append xs ys k)

contains-insert_sorted :
    (k j : Str) (xs : List Str) → contains (insert_sorted k xs) j ≡ (str_eq j k || contains xs j)
unfolding insert_sorted
contains-insert_sorted k j [] = ground arith
contains-insert_sorted k j (x ∷ xs) = ground (arith, contains-insert_sorted k j xs)

contains-sort_strings : (xs : List Str) (j : Str) → contains (sort_strings xs) j ≡ contains xs j
unfolding sort_strings
contains-sort_strings [] j = refl
contains-sort_strings (x ∷ xs) j =
    contains-insert_sorted x j (sort_strings xs) ∙ ground (arith, contains-sort_strings xs j)

contains-union :
    (seen ks : List Str) (j : Str) → contains (union seen ks) j ≡ (contains seen j || contains ks j)
unfolding union
contains-union seen [] j = ground arith
contains-union seen (k ∷ ks) j = elim (Bool-cases (contains seen k)) [
  | inl old ↦ rw old (ground (arith, contains-union seen ks j, str_eq→eq j k, old))
  | inr new ↦
      rw new (ground (arith, contains-union (seen ++ k ∷ []) ks j, contains-append seen (k ∷ []) j))
]

contains-keys : (fs : Fields) (j : Str) → contains (keys fs) j ≡ is_some (lookup j fs)
unfolding lookup
contains-keys end j = refl
contains-keys (field k v r) j = ground (arith, contains-keys r j)

-- A key is in the union exactly if one of the objects has it.
pub contains-sorted_union :
    (a b : Fields) (j : Str)
    → contains (sorted_union a b) j ≡ (is_some (lookup j a) || is_some (lookup j b))
unfolding sorted_union
contains-sorted_union a b j =
    contains-sort_strings (union (union [] (keys a)) (keys b)) j
    ∙ ground (
      arith,
      contains-union (union [] (keys a)) (keys b) j,
      contains-union [] (keys a) j,
      contains-keys a j,
      contains-keys b j,
    )

AllBelow-insert_sorted :
    (j k : Str) (xs : List Str)
    → str_lt j k ≡ true
    → AllBelow j xs
    → AllBelow j (insert_sorted k xs)
unfolding insert_sorted
AllBelow-insert_sorted j k [] p h = (p, tt)
AllBelow-insert_sorted j k (x ∷ xs) p h = elim (Bool-cases (str_lt x k)) [
  | inl l ↦ rw l (h.0, AllBelow-insert_sorted j k xs p h.1)
  | inr g ↦ rw g (p, h)
]

AllBelow-trans : (j k : Str) (xs : List Str) → str_lt j k ≡ true → AllBelow k xs → AllBelow j xs
AllBelow-trans j k [] p h = tt
AllBelow-trans j k (x ∷ xs) p h = (str_lt_trans j k x p h.0, AllBelow-trans j k xs p h.1)

insert_sorted-IsAscending :
    (k : Str) (xs : List Str)
    → contains xs k ≡ false
    → IsAscending xs
    → IsAscending (insert_sorted k xs)
unfolding insert_sorted
insert_sorted-IsAscending k [] n h = (tt, tt)
insert_sorted-IsAscending k (x ∷ xs) n h = elim (Bool-cases (str_lt x k)) [
  | inl l ↦
      rw l (AllBelow-insert_sorted x k xs l h.0, insert_sorted-IsAscending k xs (ground arith) h.1)
  | inr g ↦
      let below : str_lt k x ≡ true =
        ground (arith, str_lt_total x k, str_eq→eq x k, str_eq_refl k) in
      rw g ((below, AllBelow-trans k x xs below h.0), h)
]

sort_strings-IsAscending : (xs : List Str) → IsDistinct xs → IsAscending (sort_strings xs)
unfolding sort_strings
sort_strings-IsAscending [] h = tt
sort_strings-IsAscending (x ∷ xs) h =
    insert_sorted-IsAscending x (sort_strings xs) (contains-sort_strings xs x ∙ h.0)
      (sort_strings-IsAscending xs h.1)

IsDistinct-append :
    (xs : List Str) (k : Str) → contains xs k ≡ false → IsDistinct xs → IsDistinct (xs ++ k ∷ [])
IsDistinct-append [] k n h = (refl, tt)
IsDistinct-append (x ∷ xs) k n h = (
  ground (arith, contains-append xs (k ∷ []) x, h.0, str_eq→eq x k, str_eq_refl k),
  IsDistinct-append xs k (ground arith) h.1,
)

union-IsDistinct : (seen ks : List Str) → IsDistinct seen → IsDistinct (union seen ks)
unfolding union
union-IsDistinct seen [] h = h
union-IsDistinct seen (k ∷ ks) h = elim (Bool-cases (contains seen k)) [
  | inl old ↦ rw old (union-IsDistinct seen ks h)
  | inr new ↦ rw new (union-IsDistinct (seen ++ k ∷ []) ks (IsDistinct-append seen k new h))
]

-- The loop of diffMap visits the keys in strictly ascending order.
pub sorted_union-IsAscending : (a b : Fields) → IsAscending (sorted_union a b)
unfolding sorted_union
sorted_union-IsAscending a b =
    sort_strings-IsAscending (union (union [] (keys a)) (keys b))
      (union-IsDistinct (union [] (keys a)) (keys b) (union-IsDistinct [] (keys a) tt))

contains-AllBelow : (k : Str) (ks : List Str) → AllBelow k ks → contains ks k ≡ false
contains-AllBelow k [] h = refl
contains-AllBelow k (x ∷ xs) h =
    ground (arith, contains-AllBelow k xs h.1, str_eq→eq k x, str_lt_irrefl k, h.0)

pub IsAscending-IsDistinct : (ks : List Str) → IsAscending ks → IsDistinct ks
IsAscending-IsDistinct [] h = tt
IsAscending-IsDistinct (k ∷ ks) h = (contains-AllBelow k ks h.0, IsAscending-IsDistinct ks h.1)
