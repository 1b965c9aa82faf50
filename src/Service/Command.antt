-- ===== src/Service/Command.antt =====
-- internal/service/ingest.go and envelope.go: the data of a write.
use letopis.Prelude.{ℕ, Str, Bool, Option, List}
use letopis.Json.{Fields}
use letopis.Diff.Model.{Change}
use letopis.Domain.Event.{EntityOp, Event, Flow}
use letopis.Domain.Collection.{ReliabilityMode}

-- `unknown` is any text that is no constant of the source.
pub data Kind : Type 0 where
  state diff delete : Kind
  unknown : Str → Kind

-- A nil `Changes` is none; a nil `State` or `Meta` is the empty object.
pub record IngestCommand : Type 0 where
  pub collection : Str
  pub entity_id : Str
  pub op : EntityOp
  pub mode : ReliabilityMode
  pub expected_version : Option ℕ
  pub author : Str
  pub source : Str
  pub ts_source : ℕ
  pub event_id : Str
  pub request_id : Str
  pub client_ip : Str
  pub meta : Fields
  pub state : Fields
  pub changes : Option (List Change)
  pub flow : Option Flow

pub record IngestResult : Type 0 where
  pub entity_id : Str
  pub version : ℕ
  pub changes_count : ℕ
  pub op : EntityOp
  pub no_changes : Bool
  pub async : Bool
  pub ticket : Str
  pub deduplicated : Bool

-- what planEvent returns
pub data Planned : Type 0 where
  no_change : Planned
  invalid_diff : Planned
  unknown_kind : Planned
  planned : Event → Fields → Bool → Planned
