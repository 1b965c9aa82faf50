-- ===== src/Storage/Names.antt =====
-- internal/storage/mongo/names.go: logical collection names, and the physical ones that they map to.
pub mod Injective
use letopis.Prelude.{
  ℕ, Str, str_eq, codes, Bool, true, false, not, ◌&&◌, ◌||◌, leb, ◌==◌, List, [], ◌∷◌, ◌++◌, map,
  if◌then◌else◌,
}

-- [a-z0-9]
abbrev pub is_name_char : ℕ → Bool
is_name_char c = leb b'a' c && leb c b'z' || leb b'0' c && leb c b'9'

-- ^[a-z0-9]+(?:\.[a-z0-9]+)*$, where `begun` says that a segment has begun
unfoldable pub matches_segments : Bool → Str → Bool
matches_segments begun [] = begun
matches_segments begun (c ∷ cs) =
    let inside = matches_segments true cs in
    let next = matches_segments false cs in
    if is_name_char c then inside else if c == b'.' then begun && next else false

-- validateLogical: true for no error
unfoldable pub validate_logical : Str → Bool
unfolding matches_segments
validate_logical [] = false
validate_logical (c ∷ cs) = matches_segments false (c ∷ cs)

abbrev pub replace_char : ℕ → ℕ → ℕ → ℕ
replace_char old new c = if c == old then new else c

-- strings.ReplaceAll of one character by another
unfoldable pub replace_all : ℕ → ℕ → Str → Str
replace_all old new s = map (replace_char old new) s

unfoldable pub physical_name : Str → Str → Str
unfolding replace_all
physical_name prefix logical = prefix ++ replace_all b'.' b'_' logical

abbrev pub prefix_events : Str
prefix_events = codes "ev_"

abbrev pub events_collection : Str → Str
events_collection logical = physical_name prefix_events logical

-- strings.HasPrefix
unfoldable pub has_prefix : Str → Str → Bool
has_prefix s [] = true
has_prefix [] (p ∷ ps) = false
has_prefix (c ∷ cs) (p ∷ ps) = if c == p then has_prefix cs ps else false

unfoldable pub drop_prefix : Str → Str → Str
drop_prefix s [] = s
drop_prefix [] (p ∷ ps) = []
drop_prefix (c ∷ cs) (p ∷ ps) = drop_prefix cs ps

-- strings.TrimPrefix
unfoldable pub trim_prefix : Str → Str → Str
unfolding has_prefix drop_prefix
trim_prefix s p = if has_prefix s p then drop_prefix s p else s

unfoldable pub logical_from_events : Str → Str
unfolding trim_prefix replace_all
logical_from_events physical = replace_all b'_' b'.' (trim_prefix physical prefix_events)

unfoldable pub is_user_event_collection : Str → Bool
unfolding has_prefix
is_user_event_collection name =
    has_prefix name prefix_events && not (has_prefix name (prefix_events ++ codes "_"))
