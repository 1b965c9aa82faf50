-- ===== src/Batch/Flush.antt =====
-- internal/service/batch.go: what follows the loop of batchCollection, and IngestBatch around it, with
-- AppendEvents of internal/storage/mongo/event_repo.go as an ordered insert against the unique indexes.
use letopis.Prelude.{
  ℕ, Str, str_eq, Bool, true, false, ◌||◌, Option, none, some, List, [], ◌∷◌, ◌++◌, if◌then◌else◌,
}
use letopis.Domain.Event.{Event, CurrentState, Snapshot}
use letopis.Domain.Collection.{CollectionConfig}
use letopis.Plugin.Host.{Plugin}
use letopis.Append.Writers.{has_version}
use letopis.Service.Ingest.{
  Store, WriteError, config_unresolved, store_failed, is_duplicate, upsert, build_snapshot,
}
use letopis.Batch.Fold.{BatchFaults, BatchItem, Fold, assign, contains, fold_items}

-- InsertMany in order: it stops at the first event that an index refuses.
unfoldable pub insert_many : List Event → List Event → List Event × Bool
unfolding has_version
insert_many stored [] = (stored, true)
insert_many stored (ev ∷ evs) =
    let rest = insert_many (stored ++ ev ∷ []) evs in
    if has_version ev.entity_id ev.version stored || is_duplicate ev.event_id stored
    then (stored, false)
    else rest

abbrev pub refresh : (Str → Option CurrentState) → Option CurrentState → Str → Option CurrentState
refresh current none = current
refresh current (some c) = upsert current c

-- the loop over finalOrder
unfoldable pub refresh_all :
    (Str → Bool)
    → (Str → Option CurrentState)
    → List Str
    → (Str → Option CurrentState)
    → Str
    → Option CurrentState
refresh_all fails finals [] current = current
refresh_all fails finals (e ∷ es) current =
    refresh_all fails finals es (if fails e then current else refresh current (finals e))

unfoldable pub build_all : Bool → CollectionConfig → List Snapshot → List Snapshot → List Snapshot
unfolding build_snapshot
build_all fails cfg [] xs = xs
build_all fails cfg (sn ∷ sns) xs = build_all fails cfg sns (build_snapshot fails cfg sn xs)

abbrev pub blame : List ℕ → List (ℕ × WriteError)
blame [] = []
blame (k ∷ ks) = (k, store_failed) ∷ blame ks

abbrev pub inserted :
    BatchFaults
    → CollectionConfig
    → Store
    → Fold
    → List Event × Bool
    → Store × List (ℕ × WriteError)
inserted fl cfg st f (evs, false) = (record st { events = evs }, f.errors ++ blame f.event_index)
inserted fl cfg st f (evs, true) = (
  record {
    events = evs;
    current = refresh_all fl.upsert_fails f.finals f.final_order st.current;
    snapshots = build_all fl.snapshot_fails cfg f.snaps st.snapshots;
    evaluated = st.evaluated ++ f.events;
  },
  f.errors,
)

-- what follows the loop
unfoldable pub store_fold :
    BatchFaults → CollectionConfig → Store → Fold → List Event → Store × List (ℕ × WriteError)
unfolding insert_many refresh_all build_all
store_fold fl cfg st f [] = (st, f.errors)
store_fold fl cfg st f (ev ∷ evs) =
    if fl.insert_fails
    then (st, f.errors ++ blame f.event_index)
    else inserted fl cfg st f (insert_many st.events (ev ∷ evs))

abbrev pub start : Fold
start = record {
  running = λ e. none;
  last = λ e. none;
  events = [];
  event_index = [];
  snaps = [];
  finals = λ e. none;
  final_order = [];
  errors = [];
}

abbrev pub all_unresolved : List (ℕ × BatchItem) → List (ℕ × WriteError)
all_unresolved [] = []
all_unresolved ((k, item) ∷ rest) = (k, config_unresolved) ∷ all_unresolved rest

-- batchCollection: the store of a collection after its items, and the errors by index
unfoldable pub batch_collection :
    (ℕ → Str)
    → List Plugin
    → ℕ
    → BatchFaults
    → Option CollectionConfig
    → List (ℕ × BatchItem)
    → Store
    → Store × List (ℕ × WriteError)
unfolding fold_items store_fold
batch_collection format_float plugins now fl none items st = (st, all_unresolved items)
batch_collection format_float plugins now fl (some cfg) items st =
    let f = fold_items format_float plugins now cfg fl st start items in
    store_fold fl cfg st f f.events

-- the collections in the order of their first item
unfoldable pub first_used : List (ℕ × BatchItem) → List Str → List Str
unfolding contains
first_used [] order = order
first_used ((k, item) ∷ rest) order =
    let c = item.command.collection in
    first_used rest (if contains c order then order else order ++ c ∷ [])

unfoldable pub items_of : Str → List (ℕ × BatchItem) → List (ℕ × BatchItem)
items_of c [] = []
items_of c ((k, item) ∷ rest) =
    let more = items_of c rest in
    if str_eq item.command.collection c then (k, item) ∷ more else more

module _ (format_float : ℕ → Str) (plugins : List Plugin) (now : ℕ) (fl : Str → BatchFaults)
    (config : Str → Option CollectionConfig) where
  unfoldable pub each_collection :
      List Str
      → List (ℕ × BatchItem)
      → (Str → Store) × List (ℕ × WriteError)
      → (Str → Store) × List (ℕ × WriteError)
  unfolding batch_collection items_of
  each_collection [] items r = r
  each_collection (c ∷ order) items (stores, errors) =
      let o =
        batch_collection format_float plugins now (fl c) (config c) (items_of c items) (stores c) in
      each_collection order items (assign c o.0 stores, errors ++ o.1)

  -- IngestBatch over the stores of the collections
  unfoldable pub ingest_batch :
      List (ℕ × BatchItem) → (Str → Store) → (Str → Store) × List (ℕ × WriteError)
  unfolding first_used each_collection
  ingest_batch items stores = each_collection (first_used items []) items (stores, [])
