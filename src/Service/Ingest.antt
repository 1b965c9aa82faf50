-- ===== src/Service/Ingest.antt =====
-- internal/service/ingest.go: applyOne, the synchronous write that the strict path and the worker
-- share, over the store of one collection (internal/storage/mongo/event_repo.go: AppendEvent with
-- its unique indexes, with no concurrent writer). `Faults` are the calls of the store that fail.
use letopis.Prelude.{
  ℕ, ◌+◌, Str, str_eq, Bool, true, false, ◌&&◌, Option, none, some, List, [], ◌∷◌, ◌++◌, length,
  ◌==◌, if◌then◌else◌,
}
use letopis.Json.{Fields}
use letopis.Domain.Event.{Event, EntityOp, CurrentState, Snapshot}
use letopis.Domain.Collection.{CollectionConfig}
use letopis.Domain.Reconstruct.{should_snapshot}
use letopis.Plugin.Host.{Plugin, EntityView, has_pre_store, run_pre_store}
use letopis.Service.Command.{
  Kind, IngestCommand, IngestResult, Planned, no_change, invalid_diff, unknown_kind, planned,
}
use letopis.Service.Plan.{base_state, version_matches, plan_event}

-- `evaluated` lists the events that were handed to the rules engine and the post-store plugins.
pub record Store : Type 0 where
  pub events : List Event
  pub current : Str → Option CurrentState
  pub snapshots : List Snapshot
  pub evaluated : List Event

pub record Faults : Type 0 where
  pub load_fails : Bool
  pub last_event_fails : Bool
  pub append_fails : Bool
  pub upsert_fails : Bool
  pub snapshot_fails : Bool

pub data WriteError : Type 0 where
  config_unresolved version_conflict diff_invalid kind_unknown store_failed : WriteError
  fail_closed : Str → WriteError

pub data Outcome : Type 0 where
  done : IngestResult → Outcome
  failed : WriteError → Outcome

-- the entity's events, oldest first
unfoldable pub history : Str → List Event → List Event
history e [] = []
history e (ev ∷ evs) = let rest = history e evs in if str_eq ev.entity_id e then ev ∷ rest else rest

abbrev pub last_of : Option Event → List Event → Option Event
last_of o [] = o
last_of o (ev ∷ evs) = last_of (some ev) evs

-- LastEvent: versions ascend along the history, so the last one is the highest
unfoldable pub last_event : Str → List Event → Option Event
unfolding history
last_event e evs = last_of none (history e evs)

abbrev pub version_of : Option Event → ℕ
version_of none = 0
version_of (some ev) = ev.version

abbrev pub is_empty : Str → Bool
is_empty [] = true
is_empty (c ∷ cs) = false

-- the sparse unique index on event_id
unfoldable pub has_event_id : Str → List Event → Bool
has_event_id id [] = false
has_event_id id (ev ∷ evs) = if str_eq ev.event_id id then true else has_event_id id evs

abbrev pub is_duplicate : Str → List Event → Bool
is_duplicate id evs = if is_empty id then false else has_event_id id evs

-- AppendEvent's assignment of the version and the stored time
unfoldable pub stamp : ℕ → List Event → Event → Event
unfolding last_event
stamp now evs ev = record ev {
  version = version_of (last_event ev.entity_id evs) + 1;
  ts_stored = if ev.ts_stored == 0 then now else ev.ts_stored;
}

abbrev pub upsert : (Str → Option CurrentState) → CurrentState → Str → Option CurrentState
upsert current st e = if str_eq e st.entity_id then some st else current e

-- Save upserts by entity and version.
unfoldable pub save_snapshot : Snapshot → List Snapshot → List Snapshot
save_snapshot sn [] = sn ∷ []
save_snapshot sn (x ∷ xs) =
    let rest = save_snapshot sn xs in
    if str_eq x.entity_id sn.entity_id && x.version == sn.version then sn ∷ xs else x ∷ rest

-- SnapshotBuilder.Build
unfoldable pub build_snapshot : Bool → CollectionConfig → Snapshot → List Snapshot → List Snapshot
unfolding save_snapshot should_snapshot
build_snapshot fails cfg sn xs =
    if should_snapshot sn.version cfg.snapshot_interval
    then (if fails then xs else save_snapshot sn xs)
    else xs

abbrev pub result : IngestCommand → ℕ → IngestResult
result cmd v = record {
  entity_id = cmd.entity_id;
  version = v;
  changes_count = 0;
  op = EntityOp.unset;
  no_changes = false;
  async = false;
  ticket = [];
  deduplicated = false;
}

-- the post-store side effects
unfoldable pub after_store : Faults → CollectionConfig → Store → Event → Fields → Bool → Store
unfolding build_snapshot
after_store f cfg st ev s deleted = record st {
  snapshots =
      build_snapshot f.snapshot_fails cfg
        (record {
          entity_id = ev.entity_id;
          version = ev.version;
          ts = ev.ts_received;
          deleted = deleted;
          state = s;
        })
        st.snapshots;
  evaluated = st.evaluated ++ ev ∷ [];
}

-- the current state that commitEvent writes
abbrev pub new_current : IngestCommand → Event → Fields → Bool → CurrentState
new_current cmd ev s deleted = record {
  entity_id = cmd.entity_id;
  version = ev.version;
  ts = ev.ts_received;
  deleted = deleted;
  state = s;
}

-- commitEvent, and what applyOne makes of its result
unfoldable pub commit :
    ℕ
    → Faults
    → CollectionConfig
    → IngestCommand
    → ℕ
    → Store
    → Event
    → Fields
    → Bool
    → Store × Outcome
unfolding has_event_id stamp after_store
commit now f cfg cmd cur_version st ev s deleted =
    let ev' = stamp now st.events ev in
    let stored = record st { events = st.events ++ ev' ∷ [] } in
    let refreshed = record stored { current = upsert st.current (new_current cmd ev' s deleted) } in
    if f.append_fails
    then (st, failed store_failed)
    else if is_duplicate ev.event_id st.events
    then (st, done (record (result cmd cur_version) { deduplicated = true }))
    else if f.upsert_fails
    then (stored, failed store_failed)
    else (
      after_store f cfg refreshed ev' s deleted,
      done (record (result cmd ev'.version) { changes_count = length ev'.changes; op = ev'.op }),
    )

abbrev pub commit_unless_closed :
    (Event → Store × Outcome) → Store → Option Str × Event → Store × Outcome
commit_unless_closed k st (none, ev) = k ev
commit_unless_closed k st (some name, ev) = (st, failed (fail_closed name))

-- the pre-store hooks, then the commit
unfoldable pub hooks_then_commit :
    ℕ
    → Faults
    → List Plugin
    → CollectionConfig
    → IngestCommand
    → Option CurrentState
    → Store
    → Event
    → Fields
    → Bool
    → Store × Outcome
unfolding commit has_pre_store run_pre_store last_event base_state
hooks_then_commit now f plugins cfg cmd cur st ev s deleted =
    let go = λ (e : Event). commit now f cfg cmd (base_state cur).1 st e s deleted in
    let prev : EntityView = record {
      last_event = last_event cmd.entity_id st.events;
      current = cur;
    } in
    let hooked = run_pre_store cfg cmd.collection prev plugins ev in
    if has_pre_store cfg plugins
    then (if f.last_event_fails
        then (st, failed store_failed)
        else commit_unless_closed go st hooked)
    else go ev

module _ (format_float : ℕ → Str) (plugins : List Plugin) where
  unfoldable pub run_plan :
      ℕ
      → Faults
      → CollectionConfig
      → IngestCommand
      → Option CurrentState
      → Store
      → Planned
      → Store × Outcome
  unfolding hooks_then_commit base_state
  run_plan now f cfg cmd cur st no_change =
      (st, done (record (result cmd (base_state cur).1) { no_changes = true }))
  run_plan now f cfg cmd cur st invalid_diff = (st, failed diff_invalid)
  run_plan now f cfg cmd cur st unknown_kind = (st, failed kind_unknown)
  run_plan now f cfg cmd cur st (planned ev s deleted) =
      hooks_then_commit now f plugins cfg cmd cur st ev s deleted

  -- applyOne behind `prepare`, which resolves the configuration: none stands for its error
  unfoldable pub apply_one :
      ℕ → Faults → Option CollectionConfig → Kind → IngestCommand → Store → Store × Outcome
  unfolding run_plan plan_event version_matches base_state
  apply_one now f none kind cmd st = (st, failed config_unresolved)
  apply_one now f (some cfg) kind cmd st =
      let cur = st.current cmd.entity_id in
      if f.load_fails
      then (st, failed store_failed)
      else if version_matches cmd.expected_version (base_state cur).1
      then run_plan now f cfg cmd cur st (plan_event format_float now cfg kind cmd cur)
      else (st, failed version_conflict)
