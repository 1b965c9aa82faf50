-- ===== src/Domain/Collection.antt =====
-- internal/domain/collection.go: the configuration of a collection, its validation and defaults.
-- Each string type is a data type: `unset` is the empty string and `other` any text that is no
-- constant of the source. A map is the list of its entries: Validate looks for an invalid plugin
-- in an order that Go leaves open.
mod Validity
pub mod Accepted
use letopis.Prelude.{
  ℕ, zero, suc, Str, codes, Bool, true, false, not, ◌&&◌, Option, none, some, List, [], ◌∷◌, ◌++◌,
  if◌then◌else◌,
}
use letopis.Prelude.Int.{ℤ, pos, negsuc, is_neg}
use letopis.Json.{Fields}

pub data ReliabilityMode : Type 0 where
  unset strict durable fast : ReliabilityMode
  other : Str → ReliabilityMode

pub data FirstEventOp : Type 0 where
  unset create update : FirstEventOp
  other : Str → FirstEventOp

pub data OrderingMode : Type 0 where
  unset received source : OrderingMode
  other : Str → OrderingMode

pub data RetentionType : Type 0 where
  unset forever days versions : RetentionType
  other : Str → RetentionType

pub data FailMode : Type 0 where
  unset open_mode closed : FailMode
  other : Str → FailMode

unfoldable pub valid_reliability_mode : ReliabilityMode → Bool
valid_reliability_mode strict = true
valid_reliability_mode durable = true
valid_reliability_mode fast = true
valid_reliability_mode _ = false

unfoldable pub valid_first_event_op : FirstEventOp → Bool
valid_first_event_op FirstEventOp.create = true
valid_first_event_op FirstEventOp.update = true
valid_first_event_op _ = false

unfoldable pub valid_ordering_mode : OrderingMode → Bool
valid_ordering_mode received = true
valid_ordering_mode source = true
valid_ordering_mode _ = false

unfoldable pub valid_retention_type : RetentionType → Bool
valid_retention_type forever = true
valid_retention_type days = true
valid_retention_type versions = true
valid_retention_type _ = false

unfoldable pub valid_fail_mode : FailMode → Bool
valid_fail_mode open_mode = true
valid_fail_mode closed = true
valid_fail_mode _ = false

-- `x == ""` for each of the enums
abbrev pub no_reliability_mode : ReliabilityMode → Bool
no_reliability_mode ReliabilityMode.unset = true
no_reliability_mode _ = false

abbrev pub no_first_event_op : FirstEventOp → Bool
no_first_event_op FirstEventOp.unset = true
no_first_event_op _ = false

abbrev pub no_ordering_mode : OrderingMode → Bool
no_ordering_mode OrderingMode.unset = true
no_ordering_mode _ = false

abbrev pub no_retention_type : RetentionType → Bool
no_retention_type RetentionType.unset = true
no_retention_type _ = false

abbrev pub no_fail_mode : FailMode → Bool
no_fail_mode FailMode.unset = true
no_fail_mode _ = false

pub record Retention : Type 0 where
  pub type : RetentionType
  pub days : ℤ
  pub keep : ℤ

pub record Ordering : Type 0 where
  pub mode : OrderingMode
  pub reorder_window_ms : ℤ

pub record PluginConfig : Type 0 where
  pub enabled : Bool
  pub fail_mode : FailMode
  pub params : Fields

pub record CollectionConfig : Type 0 where
  pub name : Str
  pub reliability_mode : ReliabilityMode
  pub snapshot_interval : ℤ
  pub retention : Retention
  pub max_event_size_bytes : ℤ
  pub first_event_op : FirstEventOp
  pub ordering : Ordering
  pub array_keys : List (Str × Str)
  pub plugins : List (Str × PluginConfig)

pub record ConfigError : Type 0 where
  pub field : Str
  pub reason : Str

abbrev pub config_error : Str → Str → Option ConfigError
config_error f r = some (record { field = f; reason = r })

-- `x != "" && !Valid…(x)`
abbrev pub bad : Bool → Bool → Bool
bad absent valid = not absent && not valid

unfoldable pub validate_plugins : List (Str × PluginConfig) → Option ConfigError
unfolding valid_fail_mode
validate_plugins [] = none
validate_plugins ((name, p) ∷ ps) =
    let rest = validate_plugins ps in
    if bad (no_fail_mode p.fail_mode) (valid_fail_mode p.fail_mode)
    then config_error (codes "plugins." ++ (name ++ codes ".fail_mode")) (codes "unknown fail mode")
    else rest

unfoldable pub validate : CollectionConfig → Option ConfigError
unfolding valid_reliability_mode valid_first_event_op valid_ordering_mode valid_retention_type
    validate_plugins
validate cfg =
    if bad (no_reliability_mode cfg.reliability_mode) (valid_reliability_mode cfg.reliability_mode)
    then config_error (codes "reliability_mode") (codes "unknown mode")
    else if bad (no_first_event_op cfg.first_event_op) (valid_first_event_op cfg.first_event_op)
    then config_error (codes "first_event_op") (codes "unknown op")
    else if bad (no_ordering_mode cfg.ordering.mode) (valid_ordering_mode cfg.ordering.mode)
    then config_error (codes "ordering.mode") (codes "unknown mode")
    else if bad (no_retention_type cfg.retention.type) (valid_retention_type cfg.retention.type)
    then config_error (codes "retention.type") (codes "unknown type")
    else if is_neg cfg.snapshot_interval
    then config_error (codes "snapshot_interval") (codes "must be positive")
    else if is_neg cfg.max_event_size_bytes
    then config_error (codes "max_event_size_bytes") (codes "must be positive")
    else validate_plugins cfg.plugins

abbrev pub default_snapshot_interval : ℤ
default_snapshot_interval = pos 100

abbrev pub default_max_event_size_bytes : ℤ
default_max_event_size_bytes = pos 1048576

-- a number, with a default for 0
abbrev pub or_default : ℤ → ℤ → ℤ
or_default (pos zero) d = d
or_default n d = n

unfoldable pub with_defaults : CollectionConfig → CollectionConfig
with_defaults cfg = record cfg {
  reliability_mode =
      if no_reliability_mode cfg.reliability_mode then durable else cfg.reliability_mode;
  first_event_op =
      if no_first_event_op cfg.first_event_op then FirstEventOp.create else cfg.first_event_op;
  ordering = record (cfg.ordering) {
    mode = if no_ordering_mode cfg.ordering.mode then received else cfg.ordering.mode;
  };
  snapshot_interval = or_default cfg.snapshot_interval default_snapshot_interval;
  retention = record (cfg.retention) {
    type = if no_retention_type cfg.retention.type then forever else cfg.retention.type;
  };
  max_event_size_bytes = or_default cfg.max_event_size_bytes default_max_event_size_bytes;
}
