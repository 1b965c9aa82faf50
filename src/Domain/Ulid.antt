-- ===== src/Domain/Ulid.antt =====
-- internal/domain/id.go: the text of a ULID. The 128 bits are two halves of 64 bits; `|` joins parts
-- with no common bit, so it is a sum, and a shift that drops no bit is a product.
use letopis.Prelude.{
  head_eq, tail_eq, ℕ, zero, suc, ◌+◌, ◌*◌, ◌/◌, ◌%◌, ◌^◌, ◌≡◌, ◌<◌, refl, ap, Str, codes, [], ◌∷◌,
  length, ltb, Bool, true, ◌&&◌, arith,
}

abbrev pub crockford : Str
crockford = codes "0123456789ABCDEFGHJKMNPQRSTVWXYZ"

-- `crockford[i]`
abbrev pub char_at : Str → ℕ → ℕ
char_at [] i = 0
char_at (c ∷ cs) zero = c
char_at (c ∷ cs) (suc i) = char_at cs i

-- the loop over the characters, the last one first
unfoldable pub encode_chars : ℕ → ℕ → ℕ → Str → Str
encode_chars zero hi lo out = out
encode_chars (suc i) hi lo out =
    encode_chars i (hi / 32) (lo / 32 + hi % 32 * 2 ^ 59) (char_at crockford (lo % 32) ∷ out)

unfoldable pub encode_ulid : ℕ → ℕ → Str
unfolding encode_chars
encode_ulid hi lo = encode_chars 26 hi lo []

abbrev IsAbove : ℕ → Str → Type 0
IsAbove c [] = Unit {0}
IsAbove c (d ∷ ds) = (c < d) × IsAbove d ds

char_at-above : (c : ℕ) (cs : Str) (i : ℕ) → IsAbove c cs → i < length cs → c < char_at cs i
char_at-above c [] i h l = absurd (omega arith)
char_at-above c (d ∷ ds) zero h l = h.0
char_at-above c (d ∷ ds) (suc i) h l =
    let above = char_at-above d ds i h.1 (omega arith) in omega (arith, h.0)

char_at_eq :
    (c : ℕ) (cs : Str) (i j : ℕ)
    → IsAbove c cs
    → i < length cs
    → j < length cs
    → char_at cs i ≡ char_at cs j
    → i ≡ j
char_at_eq c [] i j h k l e = absurd (omega arith)
char_at_eq c (d ∷ ds) zero zero h k l e = refl
char_at_eq c (d ∷ ds) zero (suc j) h k l e =
    absurd (omega (arith, char_at-above d ds j h.1 (omega arith)))
char_at_eq c (d ∷ ds) (suc i) zero h k l e =
    absurd (omega (arith, char_at-above d ds i h.1 (omega arith)))
char_at_eq c (d ∷ ds) (suc i) (suc j) h k l e =
    ap suc (char_at_eq d ds i j h.1 (omega arith) (omega arith) e)

is_above : ℕ → Str → Bool
is_above c [] = true
is_above c (d ∷ ds) = ltb c d && is_above d ds

is_above-IsAbove : (c : ℕ) (cs : Str) → is_above c cs ≡ true → IsAbove c cs
unfolding is_above
is_above-IsAbove c [] h = tt
is_above-IsAbove c (d ∷ ds) h = (ground arith, is_above-IsAbove d ds (ground arith))

crockford-IsAbove : IsAbove 0 crockford
unfolding is_above
crockford-IsAbove = is_above-IsAbove 0 crockford refl

crockford_eq : (a b : ℕ) → char_at crockford (a % 32) ≡ char_at crockford (b % 32) → a % 32 ≡ b % 32
crockford_eq a b h =
    char_at_eq 0 crockford (a % 32) (b % 32) crockford-IsAbove (omega arith) (omega arith) h

abbrev whole : ℕ → ℕ → ℕ
whole hi lo = hi * 2 ^ 64 + lo

half : (hi lo : ℕ) → lo < 2 ^ 64 → whole (hi / 32) (lo / 32 + hi % 32 * 2 ^ 59) ≡ whole hi lo / 32
half hi lo h = omega arith

-- The number of values that some characters can show.
abbrev room : ℕ → ℕ
room zero = 1
room (suc i) = 32 * room i

encode_chars_eq :
    (i hi lo hi' lo' : ℕ) (out out' : Str)
    → lo < 2 ^ 64
    → lo' < 2 ^ 64
    → whole hi lo < room i
    → whole hi' lo' < room i
    → encode_chars i hi lo out ≡ encode_chars i hi' lo' out'
    → (whole hi lo ≡ whole hi' lo') × (out ≡ out')
unfolding encode_chars
encode_chars_eq zero hi lo hi' lo' out out' a b f g e = (omega arith, e)
encode_chars_eq (suc i) hi lo hi' lo' out out' a b f g e =
    let h = half hi lo a in
    let h' = half hi' lo' b in
    let (same, outs) =
      encode_chars_eq i (hi / 32) (lo / 32 + hi % 32 * 2 ^ 59) (hi' / 32)
        (lo' / 32 + hi' % 32 * 2 ^ 59) (char_at crockford (lo % 32) ∷ out)
        (char_at crockford (lo' % 32) ∷ out') (omega arith) (omega arith) (omega (arith, h))
        (omega (arith, h')) e in
    let low = crockford_eq lo lo' (head_eq outs) in (omega (arith, same, low, h, h'), tail_eq outs)

-- Two ULIDs with the same text are the same 128 bits, in both of their halves.
pub encode_ulid_eq :
    (hi lo hi' lo' : ℕ)
    → hi < 2 ^ 64
    → lo < 2 ^ 64
    → hi' < 2 ^ 64
    → lo' < 2 ^ 64
    → encode_ulid hi lo ≡ encode_ulid hi' lo'
    → (hi ≡ hi') × (lo ≡ lo')
unfolding encode_ulid
encode_ulid_eq hi lo hi' lo' a b c d e =
    let same = (encode_chars_eq 26 hi lo hi' lo' [] [] b d (omega arith) (omega arith) e).0 in
    (omega (arith, same), omega (arith, same))
