-- ===== src/Diff/Path/Parse.antt =====
-- A path that childPath or indexPath built parses to the segments that it was built from.
use letopis.Prelude.{
  ℕ, zero, suc, ◌+◌, ◌-◌, ◌*◌, ◌/◌, ◌%◌, ◌≤◌, ◌<◌, ◌≡◌, refl, sym, ap, ◌∙◌, ◌≢◌, Str, false, Option,
  none, some, List, [], ◌∷◌, ◌++◌, ltb, ltb→lt, Bool-cases, inl, inr, arith,
}
use mathlib.Core.List.{append_assoc}
use letopis.Diff.Model.{Result, ok, err, ◌>>=◌}
use letopis.Diff.Text.{split, contains_byte, digits, itoa}
use letopis.Diff.Text.Decimal.{
  itoa-AllDigits, itoa-ne-nil, contains_byte-AllDigits, split-append, split-no_sep, cut-no_sep,
}
use letopis.Diff.Path.{
  PathSeg, key, index, word_mod, child_path, index_path, atoi_from, atoi_index, key_or_index,
  parse_raw, parse_raws, parse_path,
}

-- A piece that stands for itself in a path: not empty, and with no dot and no bracket.
pub record IsPiece (s : Str) : Type 0 where
  pub not_empty : s ≢ []
  pub no_dot : contains_byte b'.' s ≡ false
  pub no_bracket : contains_byte b'[' s ≡ false

-- An object key that dot-notation can carry: a piece that is no number.
pub record IsPlainKey (k : Str) : Type 0 where
  pub piece : IsPiece k
  pub not_index : atoi_index k ≡ none

abbrev then_digit : Option ℕ → ℕ → Option ℕ
then_digit none c = none
then_digit (some v) c = some ((v * 10 + (c - b'0')) % word_mod)

atoi_from-append :
    (m c : ℕ) (s : Str)
    → b'0' ≤ c
    → c ≤ b'9'
    → atoi_from m (s ++ c ∷ []) ≡ then_digit (atoi_from m s) c
unfolding atoi_from
atoi_from-append m c [] p q = ground arith
atoi_from-append m c (x ∷ s) p q =
    ground (arith, atoi_from-append ((m * 10 + (x - b'0')) % word_mod) c s p q)

atoi_from-digits : (f n : ℕ) → n < f → n < word_mod → atoi_from 0 (digits f n) ≡ some n
unfolding digits atoi_from
atoi_from-digits zero n h w = absurd (omega arith)
atoi_from-digits (suc f) n h w = elim (Bool-cases (ltb n 10)) [
  | inl small ↦ rw small (one_digit n (ltb→lt n 10 small))
  | inr large ↦ rw large (
      atoi_from-append 0 (b'0' + n % 10) (digits f (n / 10)) (omega arith) (omega arith)
      ∙ ap (λ o. then_digit o (b'0' + n % 10))
          (atoi_from-digits f (n / 10) (ground arith) (omega arith))
      ∙ ap some (omega arith))
]
  where
    one_digit : (d : ℕ) → d < 10 → atoi_from 0 ((b'0' + d) ∷ []) ≡ some d
    one_digit d l =
        atoi_from-append 0 (b'0' + d) [] (omega arith) (omega arith) ∙ ap some (omega arith)

atoi_index_lem : (s : Str) → s ≢ [] → atoi_index s ≡ atoi_from 0 s
unfolding atoi_index
atoi_index_lem [] h = absurd (h refl)
atoi_index_lem (c ∷ cs) h = refl

-- strconv.Itoa and atoiIndex are inverse below the modulus of the word.
pub atoi_index-itoa : (n : ℕ) → n < word_mod → atoi_index (itoa n) ≡ some n
unfolding itoa
atoi_index-itoa n w =
    atoi_index_lem (digits (suc n) n) (itoa-ne-nil n) ∙ atoi_from-digits (suc n) n (omega arith) w

itoa-IsPiece : (n : ℕ) → IsPiece (itoa n)
itoa-IsPiece n = record {
  not_empty = itoa-ne-nil n;
  no_dot = contains_byte-AllDigits b'.' (itoa n) (itoa-AllDigits n) (λ d p q. ground arith);
  no_bracket = contains_byte-AllDigits b'[' (itoa n) (itoa-AllDigits n) (λ d p q. ground arith);
}

parse_raw-piece : (s : Str) → IsPiece s → parse_raw s ≡ ok (key_or_index s ∷ [])
unfolding parse_raw
parse_raw-piece s h = rw (cut-no_sep b'[' s h.no_bracket)

ok_append :
    {ss ts : List PathSeg} (r rs both : Result (List PathSeg))
    → (r >>= λ segs. rs >>= λ rest. ok (segs ++ rest)) ≡ ok ss
    → ((b : List PathSeg) → rs ≡ ok b → both ≡ ok (b ++ ts))
    → (r >>= λ segs. both >>= λ rest. ok (segs ++ rest)) ≡ ok (ss ++ ts)
ok_append {ss} {ts} (ok a) (ok b) both h k =
    rw (k b refl) (ap ok (sym (append_assoc a b ts)) ∙ ground (arith, h))
ok_append (ok a) (err x) both h k = cc
ok_append (err x) rs both h k = cc

parse_raws-append :
    (xs ys : List Str) (ss ts : List PathSeg)
    → parse_raws xs ≡ ok ss
    → parse_raws ys ≡ ok ts
    → parse_raws (xs ++ ys) ≡ ok (ss ++ ts)
unfolding parse_raws
parse_raws-append [] ys ss ts p q = ground arith
parse_raws-append (x ∷ xs) ys ss ts p q =
    ok_append (parse_raw x) (parse_raws xs) (parse_raws (xs ++ ys)) p
      (λ b e. parse_raws-append xs ys b ts e q)

parse_raws-piece : (s : Str) → IsPiece s → parse_raws (s ∷ []) ≡ ok (key_or_index s ∷ [])
unfolding parse_raws
parse_raws-piece s h = rw (parse_raw-piece s h)

key_or_index-none : (k : Str) → atoi_index k ≡ none → key_or_index k ≡ key k
unfolding key_or_index
key_or_index-none k h = ground arith

key_or_index-some : (k : Str) (i : ℕ) → atoi_index k ≡ some i → key_or_index k ≡ index i
unfolding key_or_index
key_or_index-some k i h = ground arith

-- A child path parses to the parent's segments and the child's.
pub parse_path-child_path :
    (path k : Str) (ss : List PathSeg)
    → parse_path path ≡ ok ss
    → IsPiece k
    → parse_path (child_path path k) ≡ ok (ss ++ key_or_index k ∷ [])
unfolding parse_path child_path
parse_path-child_path [] [] ss p h = absurd (h.not_empty refl)
parse_path-child_path [] (c ∷ cs) ss p h =
    rw (split-no_sep b'.' (c ∷ cs) h.no_dot) (ground (arith, parse_raws-piece (c ∷ cs) h, p))
parse_path-child_path (x ∷ xs) k ss p h = rw (split-append b'.' (x ∷ xs) k) (
    rw (split-no_sep b'.' k h.no_dot) (
      parse_raws-append (split b'.' (x ∷ xs)) (k ∷ []) ss (key_or_index k ∷ []) p
        (parse_raws-piece k h)))

-- The path of a field parses to the segments of its object and the field's key, when the key is
-- not empty, has no dot and no bracket, and does not read as an index.
pub parse_path-key :
    (path k : Str) (ss : List PathSeg)
    → parse_path path ≡ ok ss
    → IsPlainKey k
    → parse_path (child_path path k) ≡ ok (ss ++ key k ∷ [])
parse_path-key path k ss p h =
    rw (parse_path-child_path path k ss p h.piece) (rw (key_or_index-none k h.not_index))

-- The path of an element parses to the segments of its array and the element's index, while the
-- index is below the modulus of the machine word.
pub parse_path-index :
    (path : Str) (i : ℕ) (ss : List PathSeg)
    → parse_path path ≡ ok ss
    → i < word_mod
    → parse_path (index_path path i) ≡ ok (ss ++ index i ∷ [])
unfolding index_path
parse_path-index path i ss p h =
    rw (parse_path-child_path path (itoa i) ss p (itoa-IsPiece i))
      (rw (key_or_index-some (itoa i) i (atoi_index-itoa i h)))
