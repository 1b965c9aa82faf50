-- ===== src/Rules/Engine/Messages.antt =====
-- Invalidate of the rules engine, and internal/storage/redis/rule_invalidator.go.
use letopis.Prelude.{Str, Option, none, some, [], ◌∷◌, ◌++◌, ◌==◌, if◌then◌else◌}
use letopis.Rules.Engine.Effects.{Cache}
use letopis.Rules.Engine.Cached.{put}

-- Invalidate
abbrev pub invalidate : Str → Str → Cache → Cache
invalidate db collection = put (record { tenant = db; collection = collection }) none

-- InvalidateRules: the message of an edit
abbrev pub invalidate_msg : Str → Str → Str
invalidate_msg db collection = db ++ b'|' ∷ collection

-- the text before the first bar and the text behind it
unfoldable pub cut_bar : Str → Option (Str × Str)
cut_bar [] = none
cut_bar (c ∷ cs) =
    let rest = cut_bar cs in
    if c == b'|' then some ([], cs) else elim rest [ none ↦ none | some p ↦ some (c ∷ p.0, p.1) ]

-- A bar at the start or at the end is malformed.
abbrev pub both_named : Option (Str × Str) → Option (Str × Str)
both_named none = none
both_named (some ([], b)) = none
both_named (some (a ∷ r, [])) = none
both_named (some (a ∷ r, b ∷ s)) = some (a ∷ r, b ∷ s)

unfoldable pub parse_invalidate_msg : Str → Option (Str × Str)
unfolding cut_bar
parse_invalidate_msg payload = both_named (cut_bar payload)

abbrev pub drop_named : Option (Str × Str) → Cache → Cache
drop_named none cache = cache
drop_named (some (db, collection)) cache = invalidate db collection cache

-- the loop of Subscribe on one message, with Invalidate as its callback
unfoldable pub on_message : Str → Cache → Cache
unfolding parse_invalidate_msg
on_message payload cache = drop_named (parse_invalidate_msg payload) cache
