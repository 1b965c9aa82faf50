-- ===== src/Diff/Text/Decimal.antt =====
-- Pieces of a text between separators, and the bytes of decimal numbers.
use letopis.Prelude.{
  ℕ, zero, suc, ◌+◌, ◌/◌, ◌%◌, ◌≤◌, ◌≡◌, refl, ◌≢◌, Str, false, List, [], ◌∷◌, ◌++◌, ltb, ltb→lt,
  ◌==◌, Bool-cases, inl, inr, arith,
}
use letopis.Diff.Text.{prepend, split, cut, contains_byte, digits, itoa}

abbrev pub AllDigits : Str → Type 0
AllDigits [] = Unit {0}
AllDigits (c ∷ cs) = (b'0' ≤ c) × (c ≤ b'9') × AllDigits cs

AllDigits-append : (s : Str) (c : ℕ) → AllDigits s → b'0' ≤ c → c ≤ b'9' → AllDigits (s ++ c ∷ [])
AllDigits-append [] c h p q = (p, q, tt)
AllDigits-append (x ∷ s) c h p q = (h.0, h.1, AllDigits-append s c h.2 p q)

digits-AllDigits : (f n : ℕ) → AllDigits (digits f n)
unfolding digits
digits-AllDigits zero n = tt
digits-AllDigits (suc f) n = elim (Bool-cases (ltb n 10)) [
  | inl small ↦ rw small (omega (arith, ltb→lt n 10 small), omega (arith, ltb→lt n 10 small), tt)
  | inr large ↦ rw large (
      AllDigits-append (digits f (n / 10)) (b'0' + n % 10) (digits-AllDigits f (n / 10))
        (omega arith) (omega arith))
]

pub itoa-AllDigits : (n : ℕ) → AllDigits (itoa n)
unfolding itoa
itoa-AllDigits n = digits-AllDigits (suc n) n

append-ne-nil : (s : Str) (c : ℕ) → (s ++ c ∷ []) ≢ []
append-ne-nil [] c h = cc
append-ne-nil (x ∷ s) c h = cc

pub itoa-ne-nil : (n : ℕ) → itoa n ≢ []
unfolding itoa digits
itoa-ne-nil n h = elim (Bool-cases (ltb n 10)) [
  | inl small ↦ absurd (append-ne-nil [] (b'0' + n) (rw small at h))
  | inr large ↦ absurd (append-ne-nil (digits n (n / 10)) (b'0' + n % 10) (rw large at h))
]

-- A byte that is no digit is in no decimal number.
pub contains_byte-AllDigits :
    (c : ℕ) (s : Str)
    → AllDigits s
    → ((d : ℕ) → b'0' ≤ d → d ≤ b'9' → (d == c) ≡ false)
    → contains_byte c s ≡ false
unfolding contains_byte
contains_byte-AllDigits c [] h k = refl
contains_byte-AllDigits c (x ∷ s) h k = rw (k x h.0 h.1) (contains_byte-AllDigits c s h.2 k)

prepend-append : (x : ℕ) (ps qs : List Str) → ps ≢ [] → prepend x (ps ++ qs) ≡ prepend x ps ++ qs
prepend-append x [] qs h = absurd (h refl)
prepend-append x (p ∷ ps) qs h = refl

prepend-ne-nil : (x : ℕ) (ps : List Str) → prepend x ps ≢ []
prepend-ne-nil x [] h = cc
prepend-ne-nil x (p ∷ ps) h = cc

split-ne-nil : (sep : ℕ) (s : Str) → split sep s ≢ []
unfolding split
split-ne-nil sep [] h = cc
split-ne-nil sep (x ∷ s) h = ground (arith, prepend-ne-nil x (split sep s))

-- The pieces of a text that is put together at a separator.
pub split-append : (sep : ℕ) (s t : Str) → split sep (s ++ sep ∷ t) ≡ split sep s ++ split sep t
unfolding split
split-append sep [] t = ground arith
split-append sep (x ∷ s) t = elim (Bool-cases (x == sep)) [
  | inl e ↦ rw e (rw (split-append sep s t))
  | inr n ↦ rw n (
      rw (split-append sep s t) (prepend-append x (split sep s) (split sep t) (split-ne-nil sep s)))
]

pub split-no_sep : (sep : ℕ) (s : Str) → contains_byte sep s ≡ false → split sep s ≡ s ∷ []
unfolding split contains_byte
split-no_sep sep [] h = refl
split-no_sep sep (x ∷ s) h = ground (arith, split-no_sep sep s)

pub cut-no_sep : (sep : ℕ) (s : Str) → contains_byte sep s ≡ false → cut sep s ≡ (s, [], false)
unfolding cut contains_byte
cut-no_sep sep [] h = refl
cut-no_sep sep (x ∷ s) h = ground (arith, cut-no_sep sep s)
