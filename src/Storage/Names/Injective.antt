-- ===== src/Storage/Names/Injective.antt =====
-- A physical name leads back to the one logical name that it stands for.
use letopis.Prelude.{
  ℕ, ◌≡◌, refl, sym, ◌∙◌, Str, Bool, true, false, ◌==◌, [], ◌∷◌, arith, Bool-cases, inl, inr,
}
use letopis.Storage.Names.{
  is_name_char, matches_segments, validate_logical, replace_char, replace_all, physical_name,
  events_collection, has_prefix, drop_prefix, trim_prefix, logical_from_events,
  is_user_event_collection,
}

-- A character of a segment is no underscore, and no dot.
same_char : (c : ℕ) → (c == b'_') ≡ false → replace_char b'_' b'.' (replace_char b'.' b'_' c) ≡ c
same_char c h = ground (arith, h)

not_underscore : (c : ℕ) → is_name_char c ≡ true → (c == b'_') ≡ false
not_underscore c h = ground (arith, h)

replace-replace_all :
    (begun : Bool) (s : Str)
    → matches_segments begun s ≡ true
    → replace_all b'_' b'.' (replace_all b'.' b'_' s) ≡ s
unfolding matches_segments replace_all
replace-replace_all begun [] h = refl
replace-replace_all begun (c ∷ cs) h = elim (Bool-cases (is_name_char c)) [
  | inl inside ↦
      let rest : matches_segments true cs ≡ true = sym (rw inside refl) ∙ h in
      rw (same_char c (not_underscore c inside)) (rw (replace-replace_all true cs rest) refl)
  | inr outside ↦ elim (Bool-cases (c == b'.')) [
    | inl dot ↦
        let rest : matches_segments false cs ≡ true = ground (arith, outside, dot, h) in
        rw (same_char c (ground (arith, dot))) (rw (replace-replace_all false cs rest) refl)
    | inr other ↦ absurd (ground (arith, outside, other, h))
  ]
]

-- A name starts with a character of a segment, which stays as it is.
first_char :
    (c : ℕ) (cs : Str)
    → validate_logical (c ∷ cs) ≡ true
    → (replace_char b'.' b'_' c == b'_') ≡ false
unfolding validate_logical matches_segments
first_char c cs h = ground (arith, h)

matches-valid : (s : Str) → validate_logical s ≡ true → matches_segments false s ≡ true
unfolding validate_logical
matches-valid [] h = absurd (ground (arith, h))
matches-valid (c ∷ cs) h = h

is_user-events :
    (s : Str) → validate_logical s ≡ true → is_user_event_collection (events_collection s) ≡ true
unfolding is_user_event_collection physical_name has_prefix replace_all validate_logical
is_user-events [] h = absurd (ground (arith, h))
is_user-events (c ∷ cs) h = rw (first_char c cs h) refl

-- The events of a valid collection lie in a physical collection whose name leads back to it, so two
-- collections never share one, and that name is not one of the system's.
pub logical_from_events-events_collection :
    (s : Str)
    → validate_logical s ≡ true
    → (logical_from_events (events_collection s) ≡ s)
      × (is_user_event_collection (events_collection s) ≡ true)
unfolding logical_from_events physical_name trim_prefix has_prefix drop_prefix
logical_from_events-events_collection s h =
    (replace-replace_all false s (matches-valid s h), is_user-events s h)
