-- ===== src/HashChain/Text.antt =====
-- The text of a hash determines the digest, and hashes of digests of one length have one length.
use letopis.Prelude.{
  head_eq, tail_eq, ℕ, ◌*◌, ◌/◌, ◌%◌, ◌≡◌, refl, Str, List, [], ◌∷◌, ◌++◌, length, arith,
}
use letopis.HashChain.Link.{hex_digit, hex}

module _ {ℓ} {A : Type ℓ} where
  -- Of two equal concatenations whose first parts have one length, the parts are equal.
  pub split_eq :
      (xs ys : List A) {us vs : List A}
      → length xs ≡ length ys
      → xs ++ us ≡ ys ++ vs
      → (xs ≡ ys) × (us ≡ vs)
  split_eq [] [] h e = (refl, e)
  split_eq [] (y ∷ ys) h e = absurd (omega arith)
  split_eq (x ∷ xs) [] h e = absurd (omega arith)
  split_eq (x ∷ xs) (y ∷ ys) h e =
      let r = split_eq xs ys (omega arith) (tail_eq e) in (cc (head_eq e, r.0), r.1)

hex_digit_eq : (a b : ℕ) → hex_digit a ≡ hex_digit b → a ≡ b
hex_digit_eq a b h = ground arith

pub hex_eq : (xs ys : Str) → hex xs ≡ hex ys → xs ≡ ys
unfolding hex
hex_eq [] [] h = refl
hex_eq [] (y ∷ ys) h = ground arith
hex_eq (x ∷ xs) [] h = ground arith
hex_eq (x ∷ xs) (y ∷ ys) h =
    let high = hex_digit_eq (x / 16) (y / 16) (head_eq h) in
    let low = hex_digit_eq (x % 16) (y % 16) (head_eq (tail_eq h)) in
    let same : x ≡ y = omega arith in cc (same, hex_eq xs ys (tail_eq (tail_eq h)))

pub length-hex : (xs : Str) → length (hex xs) ≡ 2 * length xs
unfolding hex
length-hex [] = refl
length-hex (x ∷ xs) = omega (arith, length-hex xs)
