-- ===== src/Diff/Path.antt =====
-- The dot-notation of paths: childPath, indexPath and keyedPath of internal/diff/diff.go, and
-- parsePath of internal/diff/apply.go.
pub mod Parse
use letopis.Prelude.{
  ℕ, zero, suc, ◌+◌, ◌-◌, ◌*◌, ◌%◌, Str, str_eq, Bool, true, false, Option, none, some, List, [],
  ◌∷◌, ◌++◌, ltb, leb, if◌then◌else◌,
}
use letopis.Diff.Model.{Result, ok, err, path_not_found, ◌>>=◌}
use letopis.Diff.Text.{split, cut, trim_suffix, is_digit, itoa}

-- An index is a 64-bit `int`, held as its bit pattern.
pub data PathSeg : Type 0 where
  key : Str → PathSeg
  index : ℕ → PathSeg
  keyed : Str → Str → PathSeg

abbrev pub word_mod : ℕ
word_mod = 18446744073709551616

-- The sign bit of a 64-bit int.
abbrev pub sign_bit : ℕ
sign_bit = 9223372036854775808

unfoldable pub child_path : Str → Str → Str
child_path [] k = k
child_path (c ∷ cs) k = (c ∷ cs) ++ b'.' ∷ k

unfoldable pub index_path : Str → ℕ → Str
unfolding child_path itoa
index_path path i = child_path path (itoa i)

unfoldable pub keyed_path : Str → Str → Str → Str
keyed_path path key_field key_val = path ++ b'[' ∷ (key_field ++ b'=' ∷ (key_val ++ b']' ∷ []))

-- the loop of `atoiIndex`; `n*10 + int(r-'0')` wraps
unfoldable pub atoi_from : ℕ → Str → Option ℕ
atoi_from n [] = some n
atoi_from n (c ∷ cs) =
    let rest = atoi_from ((n * 10 + (c - b'0')) % word_mod) cs in if is_digit c then rest else none

unfoldable pub atoi_index : Str → Option ℕ
unfolding atoi_from
atoi_index [] = none
atoi_index (c ∷ cs) = atoi_from 0 (c ∷ cs)

unfoldable pub key_or_index : Str → PathSeg
unfolding atoi_index
key_or_index seg = elim (atoi_index seg) [ some i ↦ index i | none ↦ key seg ]

-- the segments of one piece between dots
unfoldable pub parse_selector : Str → Str × Str × Bool → Result (List PathSeg)
unfolding key_or_index
parse_selector name (field, val, false) = err path_not_found
parse_selector [] (field, val, true) = ok (keyed field val ∷ [])
parse_selector (c ∷ cs) (field, val, true) = ok (key_or_index (c ∷ cs) ∷ keyed field val ∷ [])

unfoldable pub parse_cut : Str → Str × Str × Bool → Result (List PathSeg)
unfolding key_or_index parse_selector cut trim_suffix
parse_cut raw (name, sel, true) = parse_selector name (cut b'=' (trim_suffix b']' sel))
parse_cut raw (name, sel, false) = ok (key_or_index raw ∷ [])

unfoldable pub parse_raw : Str → Result (List PathSeg)
unfolding parse_cut cut
parse_raw raw = parse_cut raw (cut b'[' raw)

unfoldable pub parse_raws : List Str → Result (List PathSeg)
unfolding parse_raw
parse_raws [] = ok []
parse_raws (raw ∷ raws) = do segs ← parse_raw raw; rest ← parse_raws raws; ok (segs ++ rest)

unfoldable pub parse_path : Str → Result (List PathSeg)
unfolding parse_raws split
parse_path [] = ok []
parse_path (c ∷ cs) = parse_raws (split b'.' (c ∷ cs))
