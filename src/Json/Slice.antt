-- ===== src/Json/Slice.antt =====
-- The operations of a Go slice of JSON values that internal/diff uses.
use letopis.Prelude.{ℕ, zero, suc, ◌+◌, ◌≡◌, refl, ap, Option, none, some, List, [], ◌∷◌, arith}
use letopis.Json.{Value, Items, nil, cons}

-- len(arr)
abbrev pub length : Items → ℕ
length nil = 0
length (cons x xs) = suc (length xs)

-- arr[i]
abbrev pub get_elem? : Items → ℕ → Option Value
get_elem? nil i = none
get_elem? (cons x xs) zero = some x
get_elem? (cons x xs) (suc i) = get_elem? xs i

-- arr[i] = v
abbrev pub set : Items → ℕ → Value → Items
set nil i v = nil
set (cons x xs) zero v = cons v xs
set (cons x xs) (suc i) v = cons x (set xs i v)

-- arr = append(arr, nil); copy(arr[i+1:], arr[i:]); arr[i] = v
abbrev pub insert_at : Items → ℕ → Value → Items
insert_at xs zero v = cons v xs
insert_at nil (suc i) v = nil
insert_at (cons x xs) (suc i) v = cons x (insert_at xs i v)

-- append(arr[:i], arr[i+1:]...)
abbrev pub remove_at : Items → ℕ → Items
remove_at nil i = nil
remove_at (cons x xs) zero = xs
remove_at (cons x xs) (suc i) = cons x (remove_at xs i)

infixr 65 ◌+++◌
abbrev pub ◌+++◌ : Items → Items → Items
nil +++ ys = ys
cons x xs +++ ys = cons x (xs +++ ys)

abbrev pub to_list : Items → List Value
to_list nil = []
to_list (cons x xs) = x ∷ to_list xs

abbrev pub of_list : List Value → Items
of_list [] = nil
of_list (x ∷ xs) = cons x (of_list xs)

pub of_list-to_list : (xs : Items) → of_list (to_list xs) ≡ xs
of_list-to_list nil = refl
of_list-to_list (cons x xs) = ap (cons x) (of_list-to_list xs)

-- The element behind a prefix is at the prefix's length, for each of the operations.
pub get_elem?-length :
    (xs : Items) (v : Value) (ys : Items) → get_elem? (xs +++ cons v ys) (length xs) ≡ some v
get_elem?-length nil v ys = refl
get_elem?-length (cons x xs) v ys = get_elem?-length xs v ys

pub set-length :
    (xs : Items) (v w : Value) (ys : Items)
    → set (xs +++ cons v ys) (length xs) w ≡ (xs +++ cons w ys)
set-length nil v w ys = refl
set-length (cons x xs) v w ys = ap (cons x) (set-length xs v w ys)

pub insert_at-length : (xs : Items) (v : Value) → insert_at xs (length xs) v ≡ (xs +++ cons v nil)
insert_at-length nil v = refl
insert_at-length (cons x xs) v = ap (cons x) (insert_at-length xs v)

pub remove_at-length :
    (xs : Items) (v : Value) (ys : Items) → remove_at (xs +++ cons v ys) (length xs) ≡ (xs +++ ys)
remove_at-length nil v ys = refl
remove_at-length (cons x xs) v ys = ap (cons x) (remove_at-length xs v ys)

pub length-+++ : (xs ys : Items) → length (xs +++ ys) ≡ length xs + length ys
length-+++ nil ys = omega arith
length-+++ (cons x xs) ys = omega (arith, length-+++ xs ys)

pub +++_assoc : (xs ys zs : Items) → ((xs +++ ys) +++ zs) ≡ (xs +++ (ys +++ zs))
+++_assoc nil ys zs = refl
+++_assoc (cons x xs) ys zs = ap (cons x) (+++_assoc xs ys zs)

pub +++-nil : (xs : Items) → (xs +++ nil) ≡ xs
+++-nil nil = refl
+++-nil (cons x xs) = ap (cons x) (+++-nil xs)

pub set-get_elem? :
    (xs : Items) (i : ℕ) (v w : Value) → get_elem? xs i ≡ some w → get_elem? (set xs i v) i ≡ some v
set-get_elem? nil i v w h = ground arith
set-get_elem? (cons x xs) zero v w h = refl
set-get_elem? (cons x xs) (suc i) v w h = set-get_elem? xs i v w h

pub set-set : (xs : Items) (i : ℕ) (v w : Value) → set (set xs i v) i w ≡ set xs i w
set-set nil i v w = refl
set-set (cons x xs) zero v w = refl
set-set (cons x xs) (suc i) v w = ap (cons x) (set-set xs i v w)

pub length-set : (xs : Items) (i : ℕ) (v : Value) → length (set xs i v) ≡ length xs
length-set nil i v = refl
length-set (cons x xs) zero v = refl
length-set (cons x xs) (suc i) v = ap suc (length-set xs i v)
