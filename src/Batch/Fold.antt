-- ===== src/Batch/Fold.antt =====
-- internal/service/batch.go: the loop of batchCollection, which folds the items of a collection. An
-- entity of a map is a key of a function, and the order of first use is a list.
use letopis.Prelude.{
  ℕ, ◌+◌, Str, str_eq, Bool, true, false, Option, none, some, List, [], ◌∷◌, ◌++◌, ◌==◌,
  if◌then◌else◌,
}
use letopis.Json.{Fields}
use letopis.Domain.Event.{Event, CurrentState, Snapshot}
use letopis.Domain.Collection.{CollectionConfig}
use letopis.Plugin.Host.{Plugin, EntityView, has_pre_store, run_pre_store}
use letopis.Service.Command.{
  Kind, IngestCommand, Planned, no_change, invalid_diff, unknown_kind, planned,
}
use letopis.Service.Plan.{plan_event}
use letopis.Service.Ingest.{
  Store, WriteError, diff_invalid, kind_unknown, store_failed, fail_closed, last_event,
}

pub record BatchItem : Type 0 where
  pub kind : Kind
  pub command : IngestCommand

-- The calls that fail: the load of an entity's state or last event, the whole insert, the refresh of
-- an entity's state, the snapshots.
pub record BatchFaults : Type 0 where
  pub load_fails : Str → Bool
  pub last_fails : Str → Bool
  pub insert_fails : Bool
  pub upsert_fails : Str → Bool
  pub snapshot_fails : Bool

-- The variables of batchCollection as its loop advances. A missing entry of `running` is an entity
-- that was not loaded yet. The error of an item stands with its index.
pub record Fold : Type 0 where
  pub running : Str → Option (Option CurrentState)
  pub last : Str → Option Event
  pub events : List Event
  pub event_index : List ℕ
  pub snaps : List Snapshot
  pub finals : Str → Option CurrentState
  pub final_order : List Str
  pub errors : List (ℕ × WriteError)

abbrev pub assign {ℓ} : {A : Type ℓ} → Str → A → (Str → A) → Str → A
assign k a f j = if str_eq j k then a else f j

unfoldable pub contains : Str → List Str → Bool
contains k [] = false
contains k (x ∷ xs) = if str_eq k x then true else contains k xs

abbrev pub fail : Fold → ℕ → WriteError → Fold
fail f k e = record f { errors = f.errors ++ (k, e) ∷ [] }

abbrev pub next_version : Option CurrentState → ℕ
next_version none = 1
next_version (some cur) = cur.version + 1

-- the event with its version and its stored time
abbrev pub with_version : ℕ → Option CurrentState → Event → Event
with_version now cur ev = record ev {
  version = next_version cur;
  ts_stored = if ev.ts_stored == 0 then now else ev.ts_stored;
}

-- the fold once an event is accepted
abbrev pub gather : Fold → ℕ → Str → Bool → Event → Fields → Bool → Fold
gather f k e has_pre ev s deleted =
    let cur : CurrentState = record {
      entity_id = e;
      version = ev.version;
      ts = ev.ts_received;
      deleted = deleted;
      state = s;
    } in
    record {
      running = assign e (some (some cur)) f.running;
      last = if has_pre then assign e (some ev) f.last else f.last;
      events = f.events ++ ev ∷ [];
      event_index = f.event_index ++ k ∷ [];
      snaps =
          f.snaps
          ++ record {
            entity_id = e;
            version = ev.version;
            ts = ev.ts_received;
            deleted = deleted;
            state = s;
          }
            ∷ [];
      finals = assign e (some cur) f.finals;
      final_order = if contains e f.final_order then f.final_order else f.final_order ++ e ∷ [];
      errors = f.errors;
    }

abbrev pub gather_unless_closed : Fold → ℕ → Str → Option Str × Event → Fields → Bool → Fold
gather_unless_closed f k e (none, ev) s deleted = gather f k e true ev s deleted
gather_unless_closed f k e (some name, ev) s deleted = fail f k (fail_closed name)

module _ (format_float : ℕ → Str) (plugins : List Plugin) (now : ℕ) (cfg : CollectionConfig) where
  unfoldable pub fold_planned : Fold → ℕ → IngestCommand → Option CurrentState → Planned → Fold
  unfolding has_pre_store run_pre_store contains
  fold_planned f k cmd cur no_change = f
  fold_planned f k cmd cur invalid_diff = fail f k diff_invalid
  fold_planned f k cmd cur unknown_kind = fail f k kind_unknown
  fold_planned f k cmd cur (planned ev s deleted) =
      let ev' = with_version now cur ev in
      let prev : EntityView = record { last_event = f.last cmd.entity_id; current = cur } in
      if has_pre_store cfg plugins
      then gather_unless_closed f k cmd.entity_id
          (run_pre_store cfg cmd.collection prev plugins ev') s deleted
      else gather f k cmd.entity_id false ev' s deleted

  abbrev pub fold_current : Fold → ℕ → BatchItem → Option CurrentState → Fold
  fold_current f k item cur =
      fold_planned f k item.command cur (plan_event format_float now cfg item.kind item.command cur)

  -- the first use of an entity: its state, and its last event where plugins want it
  unfoldable pub fold_first : BatchFaults → Store → Fold → ℕ → BatchItem → Fold
  unfolding fold_planned last_event
  fold_first fl st f k item =
      let e = item.command.entity_id in
      let loaded = record f { running = assign e (some (st.current e)) f.running } in
      let with_last = record loaded { last = assign e (last_event e st.events) f.last } in
      if fl.load_fails e
      then fail f k store_failed
      else if has_pre_store cfg plugins
      then (if fl.last_fails e
          then fail loaded k store_failed
          else fold_current with_last k item (st.current e))
      else fold_current loaded k item (st.current e)

  abbrev pub fold_running :
      BatchFaults → Store → Fold → ℕ → BatchItem → Option (Option CurrentState) → Fold
  fold_running fl st f k item none = fold_first fl st f k item
  fold_running fl st f k item (some cur) = fold_current f k item cur

  -- one round of the loop
  unfoldable pub fold_item : BatchFaults → Store → Fold → ℕ → BatchItem → Fold
  unfolding fold_first
  fold_item fl st f k item = fold_running fl st f k item (f.running item.command.entity_id)

  unfoldable pub fold_items : BatchFaults → Store → Fold → List (ℕ × BatchItem) → Fold
  unfolding fold_item
  fold_items fl st f [] = f
  fold_items fl st f ((k, item) ∷ rest) = fold_items fl st (fold_item fl st f k item) rest
