-- ===== src/Plugin/Host.antt =====
-- internal/plugin/host.go: HasPreStore and RunPreStore, over the plugins that are registered.
use letopis.Prelude.{
  ◌≡◌, refl, Str, str_eq, Bool, true, false, Option, none, some, List, [], ◌∷◌, if◌then◌else◌,
  arith,
}
use letopis.Json.{Fields}
use letopis.Domain.Event.{Event, Integrity, CurrentState}
use letopis.Domain.Collection.{CollectionConfig, PluginConfig, closed}

pub record EntityView : Type 0 where
  pub last_event : Option Event
  pub current : Option CurrentState

-- What a call of PreStore leaves behind. The setters of EventDraft reach the integrity block and
-- the metadata only, and `failed` tells whether an error was returned.
pub record PreStore : Type 0 where
  pub integrity : Option Integrity
  pub meta : Fields
  pub failed : Bool

pub record Plugin : Type 0 where
  pub name : Str
  pub pre_store : Str → Event → EntityView → PreStore

abbrev pub plugin_config : List (Str × PluginConfig) → Str → Option PluginConfig
plugin_config [] name = none
plugin_config ((n, p) ∷ ps) name = if str_eq name n then some p else plugin_config ps name

-- `pc, ok := cfg.Plugins[p.Name()]; ok && pc.Enabled`
abbrev pub enabled_in : Option PluginConfig → Bool
enabled_in none = false
enabled_in (some pc) = pc.enabled

abbrev pub fails_closed : Option PluginConfig → Bool
fails_closed (some pc) = elim (pc.fail_mode) [ closed ↦ true | _ ↦ false ]
fails_closed none = false

unfoldable pub has_pre_store : CollectionConfig → List Plugin → Bool
has_pre_store cfg [] = false
has_pre_store cfg (p ∷ ps) =
    if enabled_in (plugin_config cfg.plugins p.name) then true else has_pre_store cfg ps

-- the draft after a plugin
abbrev pub amend : Event → PreStore → Event
amend ev o = record ev { integrity = o.integrity; meta = o.meta }

-- The first component names the plugin that failed closed.
unfoldable pub run_pre_store :
    CollectionConfig → Str → EntityView → List Plugin → Event → Option Str × Event
run_pre_store cfg collection prev [] ev = (none, ev)
run_pre_store cfg collection prev (p ∷ ps) ev =
    let pc = plugin_config cfg.plugins p.name in
    let o = p.pre_store collection ev prev in
    let skipped = run_pre_store cfg collection prev ps ev in
    let amended = run_pre_store cfg collection prev ps (amend ev o) in
    if enabled_in pc
    then (if o.failed
        then (if fails_closed pc then (some p.name, amend ev o) else amended)
        else amended)
    else skipped

-- Plugins leave alone what Reconstruct reads of an event.
pub record IsSameWrite (a b : Event) : Type 0 where
  pub op : a.op ≡ b.op
  pub changes : a.changes ≡ b.changes
  pub entity_id : a.entity_id ≡ b.entity_id
  pub version : a.version ≡ b.version
  pub event_id : a.event_id ≡ b.event_id
  pub ts_received : a.ts_received ≡ b.ts_received

-- Whatever the plugins do, the event that they hand back has the operation, the changes, the
-- entity, the version and the event id of the planned one.
pub run_pre_store-IsSameWrite :
    (cfg : CollectionConfig) (collection : Str) (prev : EntityView) (ps : List Plugin) (ev : Event)
    → IsSameWrite (run_pre_store cfg collection prev ps ev).1 ev
unfolding run_pre_store
run_pre_store-IsSameWrite cfg collection prev [] ev = record {
  op = refl;
  changes = refl;
  entity_id = refl;
  version = refl;
  event_id = refl;
  ts_received = refl;
}
run_pre_store-IsSameWrite cfg collection prev (p ∷ ps) ev = ground (
  arith,
  run_pre_store-IsSameWrite cfg collection prev ps ev,
  run_pre_store-IsSameWrite cfg collection prev ps (amend ev (p.pre_store collection ev prev)),
)
