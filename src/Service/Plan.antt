-- ===== src/Service/Plan.antt =====
-- internal/service/ingest.go: planEvent, the pure part of a write, and the functions that it calls.
use letopis.Prelude.{
  ℕ, Str, str_eq, codes, Bool, true, false, Option, none, some, List, [], ◌∷◌, ◌==◌, if◌then◌else◌,
}
use letopis.Json.{Value, str, obj, Fields, end}
use letopis.Json.Object
use letopis.Diff.Model.{Change, Options, Result, ok, err}
use letopis.Diff.Compute
use letopis.Diff.Apply
use letopis.Domain.Event.{EntityOp, Event, CurrentState}
use letopis.Domain.Collection.{CollectionConfig, FirstEventOp}
use letopis.Service.Command.{
  Kind, IngestCommand, Planned, no_change, invalid_diff, unknown_kind, planned,
}

-- the state that a diff is computed against, and the entity's version
unfoldable pub base_state : Option CurrentState → Fields × ℕ
base_state none = (end, 0)
base_state (some cur) = (if cur.deleted then end else cur.state, cur.version)

abbrev pub is_live : Option CurrentState → Bool
is_live none = false
is_live (some cur) = if cur.deleted then false else true

abbrev pub first_op : FirstEventOp → EntityOp
first_op FirstEventOp.update = EntityOp.update
first_op _ = EntityOp.create

unfoldable pub resolve_op : EntityOp → Option CurrentState → CollectionConfig → EntityOp
resolve_op EntityOp.unset cur cfg =
    if is_live cur then EntityOp.update else first_op cfg.first_event_op
resolve_op explicit cur cfg = explicit

unfoldable pub version_matches : Option ℕ → ℕ → Bool
version_matches none current = true
version_matches (some expected) current = expected == current

abbrev pub ip_key : Str
ip_key = codes "ip"

unfoldable pub server_meta : Fields → Str → Fields
unfolding Object.lookup Object.put
server_meta client [] = client
server_meta client (c ∷ cs) = elim (Object.lookup ip_key client) [
  | some v ↦ client
  | none ↦ Object.put ip_key (str (c ∷ cs)) client
]

-- The version and the stored time are assigned by the store.
unfoldable pub build_event : ℕ → IngestCommand → EntityOp → List Change → Event
unfolding server_meta
build_event now cmd op changes = record {
  entity_id = cmd.entity_id;
  version = 0;
  op = op;
  author = cmd.author;
  source = cmd.source;
  ts_source = cmd.ts_source;
  ts_received = now;
  ts_stored = 0;
  event_id = cmd.event_id;
  request_id = cmd.request_id;
  changes = changes;
  meta = server_meta cmd.meta cmd.client_ip;
  flow = cmd.flow;
  integrity = none;
}

abbrev pub lookup_path : List (Str × Str) → Str → Option Str
lookup_path [] p = none
lookup_path ((q, k) ∷ r) p = if str_eq p q then some k else lookup_path r p

abbrev pub diff_options : CollectionConfig → Options
diff_options cfg = record { array_keys = lookup_path cfg.array_keys }

abbrev pub list_of : Option (List Change) → List Change
list_of none = []
list_of (some cs) = cs

-- `len(changes) == 0` ends in a no-op
abbrev pub unless_empty : List Change → Planned → Planned
unless_empty [] p = no_change
unless_empty (c ∷ cs) p = p

-- The result of Apply must be an object.
abbrev pub apply_changes : Result Value → (Fields → Planned) → Planned
apply_changes (err e) k = invalid_diff
apply_changes (ok (obj m)) k = k m
apply_changes (ok _) k = invalid_diff

module _ (format_float : ℕ → Str) (now : ℕ) (cfg : CollectionConfig) where
  -- case KindState
  unfoldable pub plan_state : IngestCommand → Option CurrentState → Planned
  unfolding base_state resolve_op
  plan_state cmd cur =
      let changes =
        Compute.diff format_float (obj (base_state cur).0) (obj cmd.state) (diff_options cfg) in
      unless_empty changes
        (planned (build_event now cmd (resolve_op cmd.op cur cfg) changes) cmd.state false)

  -- case KindDiff with the changes of the command
  unfoldable pub plan_changes : IngestCommand → EntityOp → Fields → List Change → Planned
  plan_changes cmd op base changes =
      apply_changes (Apply.apply format_float (obj base) changes)
        λ m. unless_empty changes (planned (build_event now cmd op changes) m false)

  -- case KindDiff of a create with no changes: the diff from the empty object
  unfoldable pub plan_create : IngestCommand → EntityOp → Planned
  plan_create cmd op =
      let changes = Compute.diff format_float (obj end) (obj cmd.state) (diff_options cfg) in
      unless_empty changes (planned (build_event now cmd op changes) cmd.state false)

  unfoldable pub plan_diff : IngestCommand → EntityOp → Fields → Option (List Change) → Planned
  unfolding plan_changes plan_create
  plan_diff cmd EntityOp.delete base changes =
      planned (build_event now cmd EntityOp.delete (list_of changes)) base true
  plan_diff cmd EntityOp.create base none = plan_create cmd EntityOp.create
  plan_diff cmd op base changes = plan_changes cmd op base (list_of changes)

  -- planEvent
  unfoldable pub plan_event : Kind → IngestCommand → Option CurrentState → Planned
  unfolding plan_state plan_diff base_state resolve_op
  plan_event Kind.state cmd cur = plan_state cmd cur
  plan_event Kind.diff cmd cur =
      plan_diff cmd (resolve_op cmd.op cur cfg) (base_state cur).0 cmd.changes
  plan_event Kind.delete cmd cur =
      planned (build_event now cmd EntityOp.delete []) (base_state cur).0 true
  plan_event (Kind.unknown k) cmd cur = unknown_kind
