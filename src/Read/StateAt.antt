-- ===== src/Read/StateAt.antt =====
-- internal/service/read.go: StateAt and the functions that it calls, and Nearest of
-- internal/storage/mongo/snapshot_repo.go, over the store of one collection.
use letopis.Prelude.{
  ℕ, zero, suc, Str, str_eq, Bool, false, ◌&&◌, Option, none, some, List, [], ◌∷◌, length, ltb, leb,
  if◌then◌else◌,
}
use letopis.Json.{Fields, end}
use letopis.Diff.Model
use letopis.Domain.Event.{EntityOp, Event, Snapshot}
use letopis.Domain.Reconstruct.{reconstruct}
use letopis.Service.Ingest.{Store, last_event}
use letopis.Read.Query.{
  by_version, SortOrder, ascending, descending, Position, EventFilter, list_events,
}

-- Of an unset version and an unset time the latest version is meant.
pub record PointInTimeQuery : Type 0 where
  pub version : Option ℕ
  pub at : Option ℕ

pub record ReconstructedState : Type 0 where
  pub entity_id : Str
  pub version : ℕ
  pub ts : ℕ
  pub deleted : Bool
  pub state : Fields
  pub snapshot_version : ℕ
  pub events_applied : ℕ

pub data ReadError : Type 0 where
  not_found store_failed : ReadError
  unapplied : Model.Error → ReadError

pub data ReadResult (A : Type 0) : Type 0 where
  ok : A → ReadResult A
  err : ReadError → ReadResult A

infixl 5 ◌>>=◌
abbrev pub ◌>>=◌ : {A B : Type 0} → ReadResult A → (A → ReadResult B) → ReadResult B
ok a >>= f = f a
err e >>= f = err e

-- The calls of the store that fail. A reader may have no snapshot store.
pub record ReadFaults : Type 0 where
  pub last_fails : Bool
  pub cutoff_fails : Bool
  pub list_fails : Bool
  pub has_snapshots : Bool
  pub nearest_fails : Bool

-- the query of an entity's events by version
abbrev pub by_entity : Str → SortOrder → EventFilter
by_entity e order = record {
  entity_id = e;
  from_time = 0;
  to_time = 0;
  author = [];
  op = EntityOp.unset;
  path = [];
  source = [];
  order_by = by_version;
  order = order;
  limit = 0;
  after = none;
  max_version = 0;
}

-- the newer one of the snapshot in hand and a match
abbrev pub newer : Option Snapshot → Snapshot → Snapshot
newer none sn = sn
newer (some best) sn = if ltb best.version sn.version then sn else best

-- Nearest: the entity's snapshot with the highest version up to the target
unfoldable pub nearest : Str → ℕ → List Snapshot → Option Snapshot → Option Snapshot
nearest e target [] best = best
nearest e target (sn ∷ sns) best =
    nearest e target sns
      (if str_eq sn.entity_id e && leb sn.version target then some (newer best sn) else best)

-- what anchor returns: a state, its deletion flag, its version and its time
pub record Anchor : Type 0 where
  pub state : Fields
  pub deleted : Bool
  pub version : ℕ
  pub ts : ℕ

abbrev pub genesis : Anchor
genesis = record { state = end; deleted = false; version = 0; ts = 0 }

abbrev pub anchor_of : Option Snapshot → Anchor
anchor_of none = genesis
anchor_of (some sn) = record {
  state = sn.state;
  deleted = sn.deleted;
  version = sn.version;
  ts = sn.ts;
}

unfoldable pub anchor : ReadFaults → Store → Str → ℕ → Anchor
unfolding nearest
anchor f st e target =
    if f.has_snapshots
    then (if f.nearest_fails then genesis else anchor_of (nearest e target st.snapshots none))
    else genesis

abbrev pub first_version : List Event → ReadResult ℕ
first_version [] = err not_found
first_version (ev ∷ evs) = ok ev.version

abbrev pub smaller : ℕ → ℕ → ℕ
smaller a b = if leb a b then a else b

-- the query of the highest version that was received up to a cutoff
abbrev pub cutoff_filter : Str → ℕ → EventFilter
cutoff_filter e at = record (by_entity e descending) { to_time = at; limit = 1 }

abbrev pub target_at : ReadFaults → Store → Str → Event → Option ℕ → ReadResult ℕ
target_at f st e last none = ok last.version
target_at f st e last (some at) =
    if f.cutoff_fails
    then err store_failed
    else first_version (list_events (cutoff_filter e at) st.events)

unfoldable pub resolve_target :
    ReadFaults → Store → Str → Event → Option ℕ → Option ℕ → ReadResult ℕ
unfolding list_events
resolve_target f st e last (some v) at = ok (smaller v last.version)
resolve_target f st e last none at = target_at f st e last at

abbrev pub after_snapshot : ℕ → Option Position
after_snapshot zero = none
after_snapshot (suc v) = some (record { version = suc v; ts = 0 })

-- the query of the events behind an anchor, up to the target
abbrev pub tail_filter : Str → ℕ → ℕ → EventFilter
tail_filter e version target = record (by_entity e ascending) {
  after = after_snapshot version;
  max_version = target;
}

-- the received time of the last event, or that of the anchor
abbrev pub last_time : ℕ → List Event → ℕ
last_time ts [] = ts
last_time ts (ev ∷ evs) = last_time ev.ts_received evs

abbrev pub or_not_found : Option Event → ReadResult Event
or_not_found none = err not_found
or_not_found (some ev) = ok ev

abbrev pub replayed : Model.Result (Fields × Bool) → ReadResult (Fields × Bool)
replayed (Model.ok r) = ok r
replayed (Model.err e) = err (unapplied e)

module _ (format_float : ℕ → Str) where
  -- the end of StateAt, from the anchor and the tail
  unfoldable pub rebuild : Str → ℕ → Anchor → List Event → ReadResult ReconstructedState
  unfolding reconstruct
  rebuild e target base tail =
      replayed (reconstruct format_float base.state base.deleted tail) >>= λ r. ok (record {
        entity_id = e;
        version = target;
        ts = last_time base.ts tail;
        deleted = r.1;
        state = r.0;
        snapshot_version = base.version;
        events_applied = length tail;
      })

  unfoldable pub state_at :
      ReadFaults → Store → Str → PointInTimeQuery → ReadResult ReconstructedState
  unfolding last_event resolve_target anchor list_events rebuild
  state_at f st e q =
      if f.last_fails
      then err store_failed
      else (or_not_found (last_event e st.events) >>= λ last.
          resolve_target f st e last q.version q.at >>= λ target.
          let base = anchor f st e target in
          if f.list_fails
          then err store_failed
          else rebuild e target base (list_events (tail_filter e base.version target) st.events))
