-- ===== src/Diff/Text.antt =====
-- What internal/diff uses of the packages strings and strconv, on bytes.
pub mod Decimal
use letopis.Prelude.{
  ℕ, zero, suc, ◌+◌, ◌-◌, ◌*◌, ◌/◌, ◌%◌, Str, str_eq, Bool, true, false, Option, none, some, List,
  [], ◌∷◌, ◌++◌, ◌&&◌, ltb, leb, ◌==◌, if◌then◌else◌,
}
use letopis.Prelude.Int.{ℤ, pos, negsuc}

-- x in front of the first piece
abbrev pub prepend : ℕ → List Str → List Str
prepend x [] = (x ∷ []) ∷ []
prepend x (p ∷ ps) = (x ∷ p) ∷ ps

-- strings.Split by a separator of one byte
unfoldable pub split : ℕ → Str → List Str
split sep [] = [] ∷ []
split sep (x ∷ xs) = let rest = split sep xs in if x == sep then [] ∷ rest else prepend x rest

-- strings.Cut by a separator of one byte: what is before it, behind it, and whether it is there
unfoldable pub cut : ℕ → Str → Str × Str × Bool
cut sep [] = ([], [], false)
cut sep (x ∷ xs) =
    let (before, after, found) = cut sep xs in
    if x == sep then ([], xs, true) else (x ∷ before, after, found)

-- strings.TrimSuffix by a suffix of one byte
unfoldable pub trim_suffix : ℕ → Str → Str
trim_suffix c [] = []
trim_suffix c (x ∷ []) = if x == c then [] else x ∷ []
trim_suffix c (x ∷ y ∷ ys) = x ∷ trim_suffix c (y ∷ ys)

-- strings.ContainsRune for a rune of one byte
unfoldable pub contains_byte : ℕ → Str → Bool
contains_byte c [] = false
contains_byte c (x ∷ xs) = if x == c then true else contains_byte c xs

abbrev pub is_digit : ℕ → Bool
is_digit c = leb b'0' c && leb c b'9'

-- The decimal digits of `n`; the fuel is above the number of digits.
unfoldable pub digits : ℕ → ℕ → Str
digits zero n = []
digits (suc f) n =
    let front = digits f (n / 10) in
    if ltb n 10 then (b'0' + n) ∷ [] else front ++ (b'0' + n % 10) ∷ []

-- strconv.Itoa for a number that is not negative
unfoldable pub itoa : ℕ → Str
unfolding digits
itoa n = digits (suc n) n

-- strconv.Itoa, and strconv.FormatInt in base 10
unfoldable pub format_int : ℤ → Str
unfolding itoa
format_int (pos n) = itoa n
format_int (negsuc n) = b'-' ∷ itoa (n + 1)
