-- ===== src/Batch/Order.antt =====
-- The keys of a map in the order of their first use.
use letopis.Prelude.{
  ◌≡◌, sym, ap, ◌∙◌, Str, str_eq, str_eq→eq, true, false, List, [], ◌∷◌, ◌++◌, if◌then◌else◌,
  Bool-cases, inl, inr, arith,
}
use letopis.Batch.Fold.{contains}

pub contains-append :
    (e x : Str) (xs : List Str)
    → contains e (xs ++ x ∷ []) ≡ (if contains e xs then true else str_eq e x)
unfolding contains
contains-append e x [] = ground arith
contains-append e x (y ∷ ys) = ground (arith, contains-append e x ys)

-- An entity that is not in the order after `e` is enlisted is another one.
pub enlisted :
    (j e : Str) (xs : List Str)
    → contains j (if contains e xs then xs else xs ++ e ∷ []) ≡ false
    → (str_eq j e ≡ false) × (contains j xs ≡ false)
enlisted j e xs r = elim (Bool-cases (contains e xs)) [
  | inl listed ↦
      let out : contains j xs ≡ false =
        ap (λ b. contains j (if b then xs else xs ++ e ∷ [])) (sym listed) ∙ r in
      elim (Bool-cases (str_eq j e)) [
        | inl here ↦
            absurd (ground (arith, out, listed, ap (λ y. contains y xs) (str_eq→eq j e here)))
        | inr other ↦ (other, out)
      ]
  | inr missing ↦
      let out : (if contains j xs then true else str_eq j e) ≡ false =
        sym (contains-append j e xs)
        ∙ ap (λ b. contains j (if b then xs else xs ++ e ∷ [])) (sym missing)
        ∙ r in
      ground (arith, out)
]
