-- ===== src/Json/Object.antt =====
-- The operations of a Go map with string keys, on entries in ascending key order.
use letopis.Prelude.{
  Str, str_eq, str_lt, str_eq→eq, str_eq_refl, str_lt_irrefl, str_lt_trans, str_lt_total, ◌≡◌, ◌≤◌,
  refl, sym, subst, true, false, Option, none, some, List, [], ◌∷◌, if◌then◌else◌, Bool-cases, inl,
  inr, arith,
}
use native.Mathlib.Nat.{le_trans}
use letopis.Json.{
  Value, Fields, end, field, HeadAbove, IsSorted, IsValue, IsFields, depth, depth_fields,
}

-- m[k], with the presence flag
unfoldable pub lookup : Str → Fields → Option Value
lookup k end = none
lookup k (field j v r) = if str_eq k j then some v else lookup k r

-- m[k] = v
unfoldable pub put : Str → Value → Fields → Fields
put k v end = field k v end
put k v (field j w r) =
    if str_eq k j
    then field j v r
    else if str_lt k j
    then field k v (field j w r)
    else field j w (put k v r)

-- delete(m, k)
unfoldable pub delete : Str → Fields → Fields
delete k end = end
delete k (field j w r) = let rest = delete k r in if str_eq k j then rest else field j w rest

abbrev pub keys : Fields → List Str
keys end = []
keys (field k v r) = k ∷ keys r

pub str_eq_sym : (a b : Str) → str_eq a b ≡ str_eq b a
unfolding str_eq
str_eq_sym [] [] = refl
str_eq_sym [] (y ∷ ys) = refl
str_eq_sym (x ∷ xs) [] = refl
str_eq_sym (x ∷ xs) (y ∷ ys) = ground (arith, str_eq_sym xs ys)

pub lookup-put :
    (j k : Str) (v : Value) (fs : Fields)
    → lookup j (put k v fs) ≡ (if str_eq j k then some v else lookup j fs)
unfolding lookup put
lookup-put j k v end = refl
lookup-put j k v (field i w r) = ground (
  arith,
  lookup-put j k v r,
  str_eq→eq k i,
  str_eq→eq j i,
  str_eq→eq j k,
  str_eq_refl k,
  str_eq_refl j,
)

pub lookup-delete :
    (j k : Str) (fs : Fields) → lookup j (delete k fs) ≡ (if str_eq j k then none else lookup j fs)
unfolding lookup delete
lookup-delete j k end = ground arith
lookup-delete j k (field i w r) = ground (
  arith,
  lookup-delete j k r,
  str_eq→eq k i,
  str_eq→eq j i,
  str_eq→eq j k,
  str_eq_refl k,
  str_eq_refl j,
)

str_lt-ne : (a b : Str) → str_lt a b ≡ true → str_eq a b ≡ false
str_lt-ne a b h = ground (arith, str_eq→eq a b, str_lt_irrefl a, str_lt_irrefl b)

HeadAbove-trans : (j k : Str) (fs : Fields) → str_lt j k ≡ true → HeadAbove k fs → HeadAbove j fs
HeadAbove-trans j k end p h = tt
HeadAbove-trans j k (field i v r) p h = str_lt_trans j k i p h

-- A key below the first one is absent.
pub lookup-HeadAbove : (k : Str) (fs : Fields) → HeadAbove k fs → IsSorted fs → lookup k fs ≡ none
unfolding lookup
lookup-HeadAbove k end h s = refl
lookup-HeadAbove k (field j v r) h s =
    ground (arith, str_lt-ne k j h, lookup-HeadAbove k r (HeadAbove-trans k j r h s.0) s.1)

HeadAbove-put :
    (j k : Str) (v : Value) (fs : Fields)
    → str_lt j k ≡ true
    → HeadAbove j fs
    → HeadAbove j (put k v fs)
unfolding put
HeadAbove-put j k v end p h = p
HeadAbove-put j k v (field i w r) p h = ground arith

pub put-IsSorted : (k : Str) (v : Value) (fs : Fields) → IsSorted fs → IsSorted (put k v fs)
unfolding put
put-IsSorted k v end s = (tt, tt)
put-IsSorted k v (field j w r) s = elim (Bool-cases (str_eq k j)) [
  | inl e ↦ rw e s
  | inr n ↦ elim (Bool-cases (str_lt k j)) [
    | inl l ↦ rw n (rw l (l, s))
    | inr g ↦ rw n (rw g (HeadAbove-put j k v r (str_lt_total k j n g) s.0, put-IsSorted k v r s.1))
  ]
]

-- Two maps with the same entries are the same map.
pub lookup_ext :
    (fs gs : Fields) → IsSorted fs → IsSorted gs → ((j : Str) → lookup j fs ≡ lookup j gs) → fs ≡ gs
unfolding lookup
lookup_ext end end s t h = refl
lookup_ext end (field k v r) s t h = ground (arith, h k, str_eq_refl k)
lookup_ext (field k v r) end s t h = ground (arith, h k, str_eq_refl k)
lookup_ext (field k v r) (field j w q) s t h =
    ground (arith, same_head, h k, str_eq_refl k, lookup_ext r q s.1 t.1 (λ i. same_tail i))
  where
    same_head : k ≡ j
    same_head = ground (
      arith,
      str_eq→eq k j,
      str_eq_refl k,
      str_eq_refl j,
      h k,
      h j,
      str_lt_total k j,
      λ (p : str_lt k j ≡ true). lookup-HeadAbove k (field j w q) p t,
      λ (p : str_lt j k ≡ true). lookup-HeadAbove j (field k v r) p s,
    )

    same_tail : (i : Str) → lookup i r ≡ lookup i q
    same_tail i = ground (
      arith,
      h i,
      same_head,
      str_eq→eq i k,
      lookup-HeadAbove k r s.0 s.1,
      subst (λ x. lookup x q ≡ none) (sym same_head) (lookup-HeadAbove j q t.0 t.1),
    )

pub IsSorted-IsFields : (fs : Fields) → IsFields fs → IsSorted fs
IsSorted-IsFields end h = tt
IsSorted-IsFields (field k v r) h = (h.0, IsSorted-IsFields r h.2)

pub lookup-IsValue :
    (k : Str) (fs : Fields) {v : Value} → IsFields fs → lookup k fs ≡ some v → IsValue v
unfolding lookup
lookup-IsValue k end h e = ground arith
lookup-IsValue k (field j w r) {v} h e = elim (Bool-cases (str_eq k j)) [
  | inl p ↦ subst IsValue (ground arith) h.1
  | inr p ↦ lookup-IsValue k r h.2 (ground arith)
]

pub put-put : (k : Str) (v w : Value) (fs : Fields) → put k w (put k v fs) ≡ put k w fs
unfolding put
put-put k v w end = ground (arith, str_eq_refl k)
put-put k v w (field j u r) = ground (arith, str_eq_refl k, put-put k v w r)

-- Writing the value that is there changes nothing.
pub put_self :
    (k : Str) (v : Value) (fs : Fields) → IsSorted fs → lookup k fs ≡ some v → put k v fs ≡ fs
unfolding put lookup
put_self k v end s h = ground arith
put_self k v (field j w r) s h =
    ground
      (arith, put_self k v r s.1, λ (p : str_lt k j ≡ true). lookup-HeadAbove k (field j w r) p s)

HeadAbove-delete :
    (j k : Str) (fs : Fields) → HeadAbove j fs → IsSorted fs → HeadAbove j (delete k fs)
unfolding delete
HeadAbove-delete j k end h s = tt
HeadAbove-delete j k (field i w r) h s = elim (Bool-cases (str_eq k i)) [
  | inl e ↦ rw e (HeadAbove-delete j k r (HeadAbove-trans j i r h s.0) s.1)
  | inr n ↦ rw n h
]

pub delete-IsSorted : (k : Str) (fs : Fields) → IsSorted fs → IsSorted (delete k fs)
unfolding delete
delete-IsSorted k end s = tt
delete-IsSorted k (field j w r) s = elim (Bool-cases (str_eq k j)) [
  | inl e ↦ rw e (delete-IsSorted k r s.1)
  | inr n ↦ rw n (HeadAbove-delete j k r s.0 s.1, delete-IsSorted k r s.1)
]

depth-field :
    (j : Str) (w : Value) (r : Fields)
    → (depth w ≤ depth_fields (field j w r)) × (depth_fields r ≤ depth_fields (field j w r))
unfolding depth
depth-field j w r = (omega arith, omega arith)

pub lookup-depth :
    (k : Str) (fs : Fields) (v : Value) → lookup k fs ≡ some v → depth v ≤ depth_fields fs
unfolding lookup
lookup-depth k end v h = ground arith
lookup-depth k (field j w r) v h =
    let (head, tail) = depth-field j w r in
    elim (Bool-cases (str_eq k j)) [
      | inl e ↦ subst (λ x. depth x ≤ depth_fields (field j w r)) (ground arith) head
      | inr n ↦ le_trans (lookup-depth k r v (ground arith)) tail
    ]
