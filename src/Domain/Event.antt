-- ===== src/Domain/Event.antt =====
-- internal/domain/event.go: events, the current state and snapshots. A time is its nanoseconds, and
-- the zero time is 0. A version is a number: int64 versions start at 1 and count up by one.
use letopis.Prelude.{ℕ, Str, Bool, Option, List}
use letopis.Json.{Fields}
use letopis.Diff.Model.{Change}

-- `unset` is the empty string, and `other` any text that is no constant of the source.
pub data EntityOp : Type 0 where
  unset create update delete : EntityOp
  other : Str → EntityOp

pub record FlowRef : Type 0 where
  pub activity_id : Str
  pub collection : Str
  pub entity_id : Str
  pub version : ℕ
  pub event_id : Str

pub record Flow : Type 0 where
  pub id : Str
  pub caused_by : List FlowRef
  pub step : Str

pub record Integrity : Type 0 where
  pub hash : Str
  pub prev_hash : Str

pub record Event : Type 0 where
  pub entity_id : Str
  pub version : ℕ
  pub op : EntityOp
  pub author : Str
  pub source : Str
  pub ts_source : ℕ
  pub ts_received : ℕ
  pub ts_stored : ℕ
  pub event_id : Str
  pub request_id : Str
  pub changes : List Change
  pub meta : Fields
  pub flow : Option Flow
  pub integrity : Option Integrity

-- cur_*: the materialized latest state of an entity.
pub record CurrentState : Type 0 where
  pub entity_id : Str
  pub version : ℕ
  pub ts : ℕ
  pub deleted : Bool
  pub state : Fields

-- sn_*: a state pinned to a version.
pub record Snapshot : Type 0 where
  pub entity_id : Str
  pub version : ℕ
  pub ts : ℕ
  pub deleted : Bool
  pub state : Fields
