-- ===== src/Domain/Collection/Validity.antt =====
-- What a configuration that passes validation has, once the defaults are filled in.
use letopis.Prelude.{
  zero, suc, ◌<◌, ◌≡◌, refl, Str, Bool, true, false, Option, none, some, List, [], ◌∷◌, arith,
  if◌then◌else◌,
}
use letopis.Prelude.Int.{ℤ, pos, negsuc, is_neg}
use letopis.Domain.Collection.{
  CollectionConfig, ConfigError, PluginConfig, ReliabilityMode, FirstEventOp, OrderingMode,
  RetentionType, valid_reliability_mode, valid_first_event_op, valid_ordering_mode,
  valid_retention_type, valid_fail_mode, no_reliability_mode, no_first_event_op, no_ordering_mode,
  no_retention_type, no_fail_mode, bad, durable, received, forever, default_snapshot_interval,
  default_max_event_size_bytes, validate, validate_plugins, or_default, with_defaults,
}

abbrev pub IsPositive : ℤ → Type 0
IsPositive (pos n) = 0 < n
IsPositive (negsuc n) = ⊥

IsPositive-not_neg : (n : ℤ) → IsPositive n → is_neg n ≡ false
IsPositive-not_neg (pos n) h = refl
IsPositive-not_neg (negsuc n) h = absurd h

-- Each of the four enums passes its test, and the two numbers are positive.
pub record HasDefaults (cfg : CollectionConfig) : Type 0 where
  pub mode : valid_reliability_mode cfg.reliability_mode ≡ true
  pub first_op : valid_first_event_op cfg.first_event_op ≡ true
  pub order : valid_ordering_mode cfg.ordering.mode ≡ true
  pub retained : valid_retention_type cfg.retention.type ≡ true
  pub interval : IsPositive cfg.snapshot_interval
  pub size : IsPositive cfg.max_event_size_bytes

or_default-IsPositive : (n d : ℤ) → is_neg n ≡ false → IsPositive d → IsPositive (or_default n d)
or_default-IsPositive (pos zero) d h p = p
or_default-IsPositive (pos (suc n)) d h p = omega arith
or_default-IsPositive (negsuc n) d h p = cc

-- An enum field that is set has a known value.
abbrev pub IsKnown : Bool → Bool → Type 0
IsKnown absent valid = bad absent valid ≡ false

abbrev pub ArePluginsKnown : List (Str × PluginConfig) → Type 0
ArePluginsKnown [] = Unit {0}
ArePluginsKnown ((name, p) ∷ ps) =
    IsKnown (no_fail_mode p.fail_mode) (valid_fail_mode p.fail_mode) × ArePluginsKnown ps

-- The guards of Validate.
pub record PassesGuards (cfg : CollectionConfig) : Type 0 where
  pub mode :
      IsKnown
        (no_reliability_mode cfg.reliability_mode)
        (valid_reliability_mode cfg.reliability_mode)
  pub first_op :
      IsKnown (no_first_event_op cfg.first_event_op) (valid_first_event_op cfg.first_event_op)
  pub order : IsKnown (no_ordering_mode cfg.ordering.mode) (valid_ordering_mode cfg.ordering.mode)
  pub retained :
      IsKnown (no_retention_type cfg.retention.type) (valid_retention_type cfg.retention.type)
  pub interval : is_neg cfg.snapshot_interval ≡ false
  pub size : is_neg cfg.max_event_size_bytes ≡ false
  pub plugin_modes : ArePluginsKnown cfg.plugins

if-none :
    (b : Bool) (e : ConfigError) (rest : Option ConfigError)
    → (if b then some e else rest) ≡ none
    → (b ≡ false) × (rest ≡ none)
if-none true e rest h = cc
if-none false e rest h = (refl, h)

validate_plugins-ArePluginsKnown :
    (ps : List (Str × PluginConfig)) → validate_plugins ps ≡ none → ArePluginsKnown ps
unfolding validate_plugins
validate_plugins-ArePluginsKnown [] h = tt
validate_plugins-ArePluginsKnown ((name, p) ∷ ps) h =
    let (known, rest) = if-none _ _ _ h in (known, validate_plugins-ArePluginsKnown ps rest)

ArePluginsKnown-validate_plugins :
    (ps : List (Str × PluginConfig)) → ArePluginsKnown ps → validate_plugins ps ≡ none
unfolding validate_plugins
ArePluginsKnown-validate_plugins [] h = refl
ArePluginsKnown-validate_plugins ((name, p) ∷ ps) h =
    rw h.0 (ArePluginsKnown-validate_plugins ps h.1)

pub PassesGuards-of_none : (cfg : CollectionConfig) → validate cfg ≡ none → PassesGuards cfg
unfolding validate
PassesGuards-of_none cfg h =
    let (p1, h1) = if-none _ _ _ h in
    let (p2, h2) = if-none _ _ _ h1 in
    let (p3, h3) = if-none _ _ _ h2 in
    let (p4, h4) = if-none _ _ _ h3 in
    let (p5, h5) = if-none _ _ _ h4 in
    let (p6, h6) = if-none _ _ _ h5 in
    record {
      mode = p1;
      first_op = p2;
      order = p3;
      retained = p4;
      interval = p5;
      size = p6;
      plugin_modes = validate_plugins-ArePluginsKnown cfg.plugins h6;
    }

pub none-of_PassesGuards : (cfg : CollectionConfig) → PassesGuards cfg → validate cfg ≡ none
unfolding validate
none-of_PassesGuards cfg a = rw a.mode (
    rw a.first_op (
      rw a.order (
        rw a.retained (
          rw a.interval
            (rw a.size (ArePluginsKnown-validate_plugins cfg.plugins a.plugin_modes))))))

complete_mode :
    (m : ReliabilityMode)
    → IsKnown (no_reliability_mode m) (valid_reliability_mode m)
    → valid_reliability_mode (if no_reliability_mode m then durable else m) ≡ true
unfolding valid_reliability_mode
complete_mode m h = ground arith

complete_op :
    (m : FirstEventOp)
    → IsKnown (no_first_event_op m) (valid_first_event_op m)
    → valid_first_event_op (if no_first_event_op m then FirstEventOp.create else m) ≡ true
unfolding valid_first_event_op
complete_op m h = ground arith

complete_order :
    (m : OrderingMode)
    → IsKnown (no_ordering_mode m) (valid_ordering_mode m)
    → valid_ordering_mode (if no_ordering_mode m then received else m) ≡ true
unfolding valid_ordering_mode
complete_order m h = ground arith

complete_retention :
    (m : RetentionType)
    → IsKnown (no_retention_type m) (valid_retention_type m)
    → valid_retention_type (if no_retention_type m then forever else m) ≡ true
unfolding valid_retention_type
complete_retention m h = ground arith

pub with_defaults-HasDefaults :
    (cfg : CollectionConfig)
    → validate cfg ≡ none
    → HasDefaults (with_defaults cfg) × (validate (with_defaults cfg) ≡ none)
unfolding with_defaults
with_defaults-HasDefaults cfg h =
    let a = PassesGuards-of_none cfg h in
    let complete : HasDefaults (with_defaults cfg) = record {
      mode = complete_mode cfg.reliability_mode a.mode;
      first_op = complete_op cfg.first_event_op a.first_op;
      order = complete_order cfg.ordering.mode a.order;
      retained = complete_retention cfg.retention.type a.retained;
      interval =
          or_default-IsPositive cfg.snapshot_interval default_snapshot_interval a.interval
            (omega arith);
      size =
          or_default-IsPositive cfg.max_event_size_bytes default_max_event_size_bytes a.size
            (omega arith);
    } in
    (
      complete,
      none-of_PassesGuards (with_defaults cfg) (record {
        mode = ground (arith, complete.mode);
        first_op = ground (arith, complete.first_op);
        order = ground (arith, complete.order);
        retained = ground (arith, complete.retained);
        interval = IsPositive-not_neg _ complete.interval;
        size = IsPositive-not_neg _ complete.size;
        plugin_modes = a.plugin_modes;
      }),
    )
