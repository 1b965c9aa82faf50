-- ===== src/HashChain/Tamper.antt =====
-- Two verified chains of a collection that end in the same hash tell the same story, or the digest
-- has a collision.
use letopis.Prelude.{
  head_eq, append_nil, ℕ, ◌≡◌, ◌≢◌, ◌⊎◌, inl, inr, refl, sym, ap, ◌∙◌, subst, Str, str_eq,
  str_eq→eq, str_eq_refl, true, Option, List, [], ◌∷◌, ◌++◌, map, length, arith, Bool-cases,
}
use letopis.Json.{Value}
use letopis.Domain.Event.{Event}
use letopis.HashChain.Link.{canonical, seal, genesis, genesis_prefix, hash_scheme, hex}
use letopis.HashChain.Text.{split_eq, hex_eq, length-hex}
use letopis.HashChain.Verify.{reverse_onto, verify, last_hash, IsChain, verify-IsChain}

module _ {ℓ κ} {A : Type ℓ} {B : Type κ} where
  map-reverse_onto :
      (f : A → B) (xs ys : List A) → map f (reverse_onto xs ys) ≡ reverse_onto (map f xs) (map f ys)
  map-reverse_onto f [] ys = refl
  map-reverse_onto f (x ∷ xs) ys = map-reverse_onto f xs (x ∷ ys)

reverse_onto_twice {ℓ} :
    {A : Type ℓ} (xs ys zs : List A)
    → reverse_onto (reverse_onto xs ys) zs ≡ reverse_onto ys (xs ++ zs)
reverse_onto_twice [] ys zs = refl
reverse_onto_twice (x ∷ xs) ys zs = reverse_onto_twice xs (x ∷ ys) zs

reverse_onto_eq {ℓ} :
    {A : Type ℓ} (xs ys : List A) → reverse_onto xs [] ≡ reverse_onto ys [] → xs ≡ ys
reverse_onto_eq xs ys h =
    sym (reverse_onto_twice xs [] [] ∙ append_nil xs)
    ∙ ap (λ zs. reverse_onto zs []) h
    ∙ reverse_onto_twice ys [] []
    ∙ append_nil ys

-- Two different texts have one digest.
abbrev pub Collision : (Str → Str) → Type 0
Collision sha256 = (x : Str) × (y : Str) × (x ≢ y) × (sha256 x ≡ sha256 y)

-- Equal digests come from equal texts, or there is a collision.
eq_or_Collision :
    (sha256 : Str → Str) (x y : Str) → sha256 x ≡ sha256 y → (x ≡ y) ⊎ Collision sha256
eq_or_Collision sha256 x y h = elim (Bool-cases (str_eq x y)) [
  | inl same ↦ inl (str_eq→eq x y same)
  | inr other ↦ inr (x, y, (λ e. ground (arith, str_eq_refl x, ap (str_eq x) e)), h)
]

module _ (sha256 : Str → Str) (json_text : Value → Option Str) (format_time : ℕ → Str)
    (size : (x : Str) → length (sha256 x) ≡ 32) where
  abbrev text : Event → Option Str
  text ev = canonical sha256 json_text format_time ev

  IsHash : Str → Type 0
  IsHash h = (x : Str) × (h ≡ hash_scheme ++ hex (sha256 x))

  length_hash : (h : Str) → IsHash h → length h ≡ 71
  unfolding IsHash
  length_hash h w = ap length w.1 ∙ omega (arith, length-hex (sha256 w.0), size w.0)

  digest_eq :
      (x y : Str)
      → hash_scheme ++ hex (sha256 x) ≡ hash_scheme ++ hex (sha256 y)
      → sha256 x ≡ sha256 y
  digest_eq x y e = hex_eq (sha256 x) (sha256 y) (split_eq hash_scheme hash_scheme refl e).1

  module _ (collection : Str) where
    abbrev start : Str
    start = genesis sha256 json_text format_time collection

    IsChain-IsHash :
        (evs : List Event) (h : Str) → IsChain sha256 json_text format_time start evs h → IsHash h
    unfolding IsHash genesis seal
    IsChain-IsHash [] h c = (genesis_prefix ++ collection, c)
    IsChain-IsHash (ev ∷ older) h c = (c.0 ++ c.2.0, c.2.2)

    -- No sealed event has the hash of the genesis.
    genesis-seal :
        (prev t : Str)
        → IsHash prev
        → start ≡ seal sha256 json_text format_time prev t
        → Collision sha256
    unfolding IsHash genesis seal
    genesis-seal prev t w e =
        elim (eq_or_Collision sha256 (genesis_prefix ++ collection) (prev ++ t) (digest_eq _ _ e)) [
          | inr c ↦ c
          | inl same ↦ let first = head_eq (same ∙ ap (λ p. p ++ t) w.1) in absurd (omega arith)
        ]

    chain_eq :
        (a b : List Event) (h : Str)
        → IsChain sha256 json_text format_time start a h
        → IsChain sha256 json_text format_time start b h
        → (map text a ≡ map text b) ⊎ Collision sha256
    unfolding seal
    chain_eq [] [] h c d = inl refl
    chain_eq [] (y ∷ ys) h c d =
        inr (genesis-seal d.0 d.2.0 (IsChain-IsHash ys d.0 d.1) (sym c ∙ d.2.2))
    chain_eq (x ∷ xs) [] h c d =
        inr (genesis-seal c.0 c.2.0 (IsChain-IsHash xs c.0 c.1) (sym d ∙ c.2.2))
    chain_eq (x ∷ xs) (y ∷ ys) h c d =
        elim (eq_or_Collision sha256 (c.0 ++ c.2.0) (d.0 ++ d.2.0)
          (digest_eq _ _ (sym c.2.2 ∙ d.2.2))) [
            | inr clash ↦ inr clash
            | inl same ↦
                let parts =
                  split_eq c.0 d.0
                    (length_hash c.0 (IsChain-IsHash xs c.0 c.1)
                      ∙ sym (length_hash d.0 (IsChain-IsHash ys d.0 d.1)))
                    same in
                elim (chain_eq xs ys d.0
                  (subst (IsChain sha256 json_text format_time start xs) parts.0 c.1) d.1) [
                    | inr clash ↦ inr clash
                    | inl rest ↦ inl (cc (c.2.1, d.2.1, parts.1, rest))
                  ]
          ]

    -- Two histories of a collection that are verified from its genesis and end in the same hash
    -- have the same signed texts, event by event, in number as in content; otherwise two different
    -- texts with the same SHA-256 digest are at hand. A digest has 32 bytes.
    pub verify-last_hash :
        (a b : List Event)
        → verify sha256 json_text format_time start a ≡ true
        → verify sha256 json_text format_time start b ≡ true
        → last_hash sha256 json_text format_time start a
          ≡ last_hash sha256 json_text format_time start b
        → (map text a ≡ map text b) ⊎ Collision sha256
    verify-last_hash a b v w e =
        let c = verify-IsChain sha256 json_text format_time start start a [] v refl in
        let d = verify-IsChain sha256 json_text format_time start start b [] w refl in
        elim (chain_eq (reverse_onto a []) (reverse_onto b [])
          (last_hash sha256 json_text format_time start b)
          (subst (IsChain sha256 json_text format_time start (reverse_onto a [])) e c) d) [
            | inr clash ↦ inr clash
            | inl same ↦ inl (
                reverse_onto_eq (map text a) (map text b)
                  (sym (map-reverse_onto text a []) ∙ same ∙ map-reverse_onto text b []))
          ]
