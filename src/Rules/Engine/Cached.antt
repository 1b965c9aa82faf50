-- ===== src/Rules/Engine/Cached.antt =====
-- internal/service/rules_engine.go: the cache of compiled rules, and Evaluate.
use letopis.Prelude.{ℕ, ◌+◌, ltb, Str, codes, Option, none, some, List, [], ◌∷◌, if◌then◌else◌}
use letopis.Domain.Event.{Event}
use letopis.Rules.Model.{Externals, Predicate, Rule, Result, ok, err}
use letopis.Rules.Compile.{compile}
use letopis.Rules.Engine.Effects.{
  Cache, CompiledRule, Effect, Entry, Key, Principal, Wiring, fire_rules, same_key,
}

abbrev pub compiled_or_skipped : Rule → Result Predicate → List CompiledRule → List CompiledRule
compiled_or_skipped r (ok p) rest =
    record { id = r.id; name = r.name; pred = p; actions = r.actions } ∷ rest
compiled_or_skipped r (err e) rest = rest

unfoldable pub compile_enabled : Externals → List Rule → List CompiledRule
unfolding compile
compile_enabled x [] = []
compile_enabled x (r ∷ rest) =
    let more = compile_enabled x rest in
    if r.enabled
    then compiled_or_skipped r (compile x r.condition (codes "condition")) more
    else more

abbrev pub put : Key → Option Entry → Cache → Cache
put key o cache k = if same_key k key then o else cache k

-- the entry of a key, unless it has expired
unfoldable pub cached : ℕ → Option Entry → Option (List CompiledRule)
cached now none = none
cached now (some ent) = if ltb now ent.expires_at then some ent.rules else none

-- One call of rulesFor reads the clock twice.
pub record Reading : Type 0 where
  pub checked : ℕ
  pub stored : ℕ

module _ (x : Externals) (ttl : ℕ) where
  unfoldable pub load_entry : ℕ → List Rule → Entry
  unfolding compile_enabled
  load_entry stored rs = record { rules = compile_enabled x rs; expires_at = stored + ttl }

  -- what the repository lists; none is its error
  abbrev pub load : Reading → Key → Option (List Rule) → Cache → Cache × List CompiledRule
  load t key none cache = (cache, [])
  load t key (some rs) cache =
      let ent = load_entry t.stored rs in (put key (some ent) cache, ent.rules)

  abbrev pub hit_or_load :
      Option (List CompiledRule)
      → Reading
      → Key
      → Option (List Rule)
      → Cache
      → Cache × List CompiledRule
  hit_or_load (some rs) t key listed cache = (cache, rs)
  hit_or_load none t key listed cache = load t key listed cache

  unfoldable pub rules_for : Reading → Key → Option (List Rule) → Cache → Cache × List CompiledRule
  unfolding load_entry cached
  rules_for t key listed cache = hit_or_load (cached t.checked (cache key)) t key listed cache

  -- Evaluate: without a principal nothing is evaluated
  unfoldable pub evaluate :
      Wiring
      → Reading
      → Option (List Rule)
      → Option Principal
      → Str
      → Event
      → Cache
      → Cache × List Effect
  unfolding rules_for fire_rules
  evaluate w t listed none collection ev cache = (cache, [])
  evaluate w t listed (some p) collection ev cache =
      let r = rules_for t (record { tenant = p.database; collection = collection }) listed cache in
      (r.0, fire_rules w p.tenant_id collection ev x r.1)
