-- ===== src/Domain/Collection/Accepted.antt =====
-- Validate and WithDefaults by the values of a configuration: an enum holds a constant of its type, no
-- text at all, or another text.
use letopis.Prelude.{All, ℕ, ◌≡◌, ◌≢◌, ◌↔◌, refl, Str, true, false, none, List, [], ◌∷◌, arith}
use letopis.Prelude.Int.{ℤ, pos, negsuc, is_neg}
use letopis.Domain.Collection.{
  CollectionConfig, PluginConfig, ReliabilityMode, FirstEventOp, OrderingMode, RetentionType,
  FailMode, valid_reliability_mode, valid_first_event_op, valid_ordering_mode, valid_retention_type,
  valid_fail_mode, no_reliability_mode, no_first_event_op, no_ordering_mode, no_retention_type,
  no_fail_mode, validate, with_defaults,
}
use letopis.Domain.Collection.Validity.{
  IsPositive, IsKnown, ArePluginsKnown, PassesGuards-of_none, none-of_PassesGuards,
  with_defaults-HasDefaults,
}

mode_known :
    (m : ReliabilityMode)
    → IsKnown (no_reliability_mode m) (valid_reliability_mode m)
      ↔ ((t : Str) → m ≢ ReliabilityMode.other t)
unfolding valid_reliability_mode
mode_known ReliabilityMode.unset = (λ h t e. cc e, λ h. refl)
mode_known ReliabilityMode.strict = (λ h t e. cc e, λ h. refl)
mode_known ReliabilityMode.durable = (λ h t e. cc e, λ h. refl)
mode_known ReliabilityMode.fast = (λ h t e. cc e, λ h. refl)
mode_known (ReliabilityMode.other s) = (λ h t e. absurd (ground (arith, h)), λ h. absurd (h s refl))

op_known :
    (m : FirstEventOp)
    → IsKnown (no_first_event_op m) (valid_first_event_op m)
      ↔ ((t : Str) → m ≢ FirstEventOp.other t)
unfolding valid_first_event_op
op_known FirstEventOp.unset = (λ h t e. cc e, λ h. refl)
op_known FirstEventOp.create = (λ h t e. cc e, λ h. refl)
op_known FirstEventOp.update = (λ h t e. cc e, λ h. refl)
op_known (FirstEventOp.other s) = (λ h t e. absurd (ground (arith, h)), λ h. absurd (h s refl))

order_known :
    (m : OrderingMode)
    → IsKnown (no_ordering_mode m) (valid_ordering_mode m) ↔ ((t : Str) → m ≢ OrderingMode.other t)
unfolding valid_ordering_mode
order_known OrderingMode.unset = (λ h t e. cc e, λ h. refl)
order_known OrderingMode.received = (λ h t e. cc e, λ h. refl)
order_known OrderingMode.source = (λ h t e. cc e, λ h. refl)
order_known (OrderingMode.other s) = (λ h t e. absurd (ground (arith, h)), λ h. absurd (h s refl))

retention_known :
    (m : RetentionType)
    → IsKnown (no_retention_type m) (valid_retention_type m)
      ↔ ((t : Str) → m ≢ RetentionType.other t)
unfolding valid_retention_type
retention_known RetentionType.unset = (λ h t e. cc e, λ h. refl)
retention_known RetentionType.forever = (λ h t e. cc e, λ h. refl)
retention_known RetentionType.days = (λ h t e. cc e, λ h. refl)
retention_known RetentionType.versions = (λ h t e. cc e, λ h. refl)
retention_known (RetentionType.other s) =
    (λ h t e. absurd (ground (arith, h)), λ h. absurd (h s refl))

fail_known :
    (m : FailMode)
    → IsKnown (no_fail_mode m) (valid_fail_mode m) ↔ ((t : Str) → m ≢ FailMode.other t)
unfolding valid_fail_mode
fail_known FailMode.unset = (λ h t e. cc e, λ h. refl)
fail_known FailMode.open_mode = (λ h t e. cc e, λ h. refl)
fail_known FailMode.closed = (λ h t e. cc e, λ h. refl)
fail_known (FailMode.other s) = (λ h t e. absurd (ground (arith, h)), λ h. absurd (h s refl))

mode_set :
    (m : ReliabilityMode)
    → valid_reliability_mode m ≡ true
    → (m ≢ ReliabilityMode.unset) × ((t : Str) → m ≢ ReliabilityMode.other t)
unfolding valid_reliability_mode
mode_set ReliabilityMode.unset h = absurd (ground (arith, h))
mode_set ReliabilityMode.strict h = (λ e. cc e, λ t e. cc e)
mode_set ReliabilityMode.durable h = (λ e. cc e, λ t e. cc e)
mode_set ReliabilityMode.fast h = (λ e. cc e, λ t e. cc e)
mode_set (ReliabilityMode.other s) h = absurd (ground (arith, h))

op_set :
    (m : FirstEventOp)
    → valid_first_event_op m ≡ true
    → (m ≢ FirstEventOp.unset) × ((t : Str) → m ≢ FirstEventOp.other t)
unfolding valid_first_event_op
op_set FirstEventOp.unset h = absurd (ground (arith, h))
op_set FirstEventOp.create h = (λ e. cc e, λ t e. cc e)
op_set FirstEventOp.update h = (λ e. cc e, λ t e. cc e)
op_set (FirstEventOp.other s) h = absurd (ground (arith, h))

order_set :
    (m : OrderingMode)
    → valid_ordering_mode m ≡ true
    → (m ≢ OrderingMode.unset) × ((t : Str) → m ≢ OrderingMode.other t)
unfolding valid_ordering_mode
order_set OrderingMode.unset h = absurd (ground (arith, h))
order_set OrderingMode.received h = (λ e. cc e, λ t e. cc e)
order_set OrderingMode.source h = (λ e. cc e, λ t e. cc e)
order_set (OrderingMode.other s) h = absurd (ground (arith, h))

retention_set :
    (m : RetentionType)
    → valid_retention_type m ≡ true
    → (m ≢ RetentionType.unset) × ((t : Str) → m ≢ RetentionType.other t)
unfolding valid_retention_type
retention_set RetentionType.unset h = absurd (ground (arith, h))
retention_set RetentionType.forever h = (λ e. cc e, λ t e. cc e)
retention_set RetentionType.days h = (λ e. cc e, λ t e. cc e)
retention_set RetentionType.versions h = (λ e. cc e, λ t e. cc e)
retention_set (RetentionType.other s) h = absurd (ground (arith, h))

-- What a configuration that Validate accepts has. An enum that is set holds a constant of its type, and
-- the two numbers are not negative.
pub record IsAccepted (cfg : CollectionConfig) : Type 0 where
  pub mode : (t : Str) → cfg.reliability_mode ≢ ReliabilityMode.other t
  pub first_op : (t : Str) → cfg.first_event_op ≢ FirstEventOp.other t
  pub order : (t : Str) → cfg.ordering.mode ≢ OrderingMode.other t
  pub retained : (t : Str) → cfg.retention.type ≢ RetentionType.other t
  pub interval : (n : ℕ) × (cfg.snapshot_interval ≡ pos n)
  pub size : (n : ℕ) × (cfg.max_event_size_bytes ≡ pos n)
  pub plugin_modes :
      All (λ (p : Str × PluginConfig). (t : Str) → p.1.fail_mode ≢ FailMode.other t) cfg.plugins

natural : (x : ℤ) → is_neg x ≡ false → (n : ℕ) × (x ≡ pos n)
natural (pos n) h = (n, refl)
natural (negsuc n) h = absurd (ground (arith, h))

not_negative : (x : ℤ) → (n : ℕ) × (x ≡ pos n) → is_neg x ≡ false
not_negative x (n, e) = rw e refl

plugins_known :
    (ps : List (Str × PluginConfig))
    → ArePluginsKnown ps
      ↔ All (λ (p : Str × PluginConfig). (t : Str) → p.1.fail_mode ≢ FailMode.other t) ps
plugins_known [] = (λ h. tt, λ h. tt)
plugins_known ((name, p) ∷ ps) =
    let here = fail_known p.fail_mode in
    let later = plugins_known ps in (λ h. (here.0 h.0, later.0 h.1), λ h. (here.1 h.0, later.1 h.1))

-- Validate reports no error exactly if each enum that is set holds a constant of its type, the fail
-- modes of the plugins included, and the snapshot interval and the maximal event size are not
-- negative. It asks nothing of the other numbers.
pub validate-IsAccepted : (cfg : CollectionConfig) → (validate cfg ≡ none) ↔ IsAccepted cfg
validate-IsAccepted cfg = (
  λ h.
      let g = PassesGuards-of_none cfg h in
      record {
        mode = (mode_known cfg.reliability_mode).0 g.mode;
        first_op = (op_known cfg.first_event_op).0 g.first_op;
        order = (order_known cfg.ordering.mode).0 g.order;
        retained = (retention_known cfg.retention.type).0 g.retained;
        interval = natural cfg.snapshot_interval g.interval;
        size = natural cfg.max_event_size_bytes g.size;
        plugin_modes = (plugins_known cfg.plugins).0 g.plugin_modes;
      },
  λ a. none-of_PassesGuards cfg (record {
    mode = (mode_known cfg.reliability_mode).1 a.mode;
    first_op = (op_known cfg.first_event_op).1 a.first_op;
    order = (order_known cfg.ordering.mode).1 a.order;
    retained = (retention_known cfg.retention.type).1 a.retained;
    interval = not_negative cfg.snapshot_interval a.interval;
    size = not_negative cfg.max_event_size_bytes a.size;
    plugin_modes = (plugins_known cfg.plugins).1 a.plugin_modes;
  }),
)

-- Each of the four enums holds a constant of its type, and the two numbers are positive.
pub record IsComplete (cfg : CollectionConfig) : Type 0 where
  pub mode :
      (cfg.reliability_mode ≢ ReliabilityMode.unset)
      × ((t : Str) → cfg.reliability_mode ≢ ReliabilityMode.other t)
  pub op :
      (cfg.first_event_op ≢ FirstEventOp.unset)
      × ((t : Str) → cfg.first_event_op ≢ FirstEventOp.other t)
  pub order :
      (cfg.ordering.mode ≢ OrderingMode.unset)
      × ((t : Str) → cfg.ordering.mode ≢ OrderingMode.other t)
  pub retention :
      (cfg.retention.type ≢ RetentionType.unset)
      × ((t : Str) → cfg.retention.type ≢ RetentionType.other t)
  pub interval : IsPositive cfg.snapshot_interval
  pub size : IsPositive cfg.max_event_size_bytes

-- After WithDefaults, a configuration that Validate accepts has a constant of its type in each of the
-- reliability mode, the first event op, the ordering mode and the retention type, and a positive
-- snapshot interval and maximal event size; Validate still accepts it. An interval or a size of 0 counts as
-- not set. The fail modes of the plugins, the days and the number of kept versions, and the
-- reorder window are not among them.
pub with_defaults-IsComplete :
    (cfg : CollectionConfig)
    → validate cfg ≡ none
    → IsComplete (with_defaults cfg) × (validate (with_defaults cfg) ≡ none)
with_defaults-IsComplete cfg h =
    let (d, still) = with_defaults-HasDefaults cfg h in
    (
      record {
        mode = mode_set _ d.mode;
        op = op_set _ d.first_op;
        order = order_set _ d.order;
        retention = retention_set _ d.retained;
        interval = d.interval;
        size = d.size;
      },
      still,
    )
