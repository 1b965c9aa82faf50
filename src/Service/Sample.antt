-- ===== src/Service/Sample.antt =====
-- A collection with a few writes, for the tests.
use letopis.Prelude.{ℕ, ◌+◌, refl, Str, codes, false, none, some, List, [], ◌∷◌}
use letopis.Prelude.Int.{pos}
use letopis.Json.{num, Fields, end, field}
use letopis.Diff.Path.{atoi_index}
use letopis.Diff.Text.{contains_byte}
use letopis.Diff.Path.Parse.{IsPlainKey}
use letopis.Domain.Event.{EntityOp}
use letopis.Domain.Collection.{
  CollectionConfig, ReliabilityMode, FirstEventOp, OrderingMode, RetentionType,
}
use letopis.Service.Command.{Kind, IngestCommand}
use letopis.Service.Plan.{base_state, resolve_op}
use letopis.Service.Ingest.{Faults}
use letopis.Service.History.{Write, empty_store, AreRecorded}

abbrev pub format_small : ℕ → Str
format_small n = (b'0' + n) ∷ []

abbrev pub config : CollectionConfig
config = record {
  name = codes "crm.deals";
  reliability_mode = ReliabilityMode.strict;
  snapshot_interval = pos 2;
  retention = record { type = RetentionType.forever; days = pos 0; keep = pos 0 };
  max_event_size_bytes = pos 1048576;
  first_event_op = FirstEventOp.create;
  ordering = record { mode = OrderingMode.received; reorder_window_ms = pos 0 };
  array_keys = [];
  plugins = [];
}

abbrev pub command : EntityOp → Fields → IngestCommand
command op s = record {
  collection = codes "crm.deals";
  entity_id = codes "deal-1";
  op = op;
  mode = ReliabilityMode.unset;
  expected_version = none;
  author = [];
  source = [];
  ts_source = 0;
  event_id = [];
  request_id = [];
  client_ip = [];
  meta = end;
  state = s;
  changes = none;
  flow = none;
}

abbrev pub no_faults : Faults
no_faults = record {
  load_fails = false;
  last_event_fails = false;
  append_fails = false;
  upsert_fails = false;
  snapshot_fails = false;
}

abbrev pub deal : Fields
deal = field (codes "amount") (num 1) end

-- A full state, then a delete.
abbrev pub two_writes : List Write
two_writes =
    record {
      now = 1;
      faults = no_faults;
      config = some config;
      kind = Kind.state;
      cmd = command EntityOp.unset deal;
    }
    ∷ record {
      now = 2;
      faults = no_faults;
      config = some config;
      kind = Kind.delete;
      cmd = command EntityOp.delete end;
    }
    ∷ []

pub amount-IsPlainKey : IsPlainKey (codes "amount")
unfolding contains_byte atoi_index
amount-IsPlainKey = record {
  piece = record { not_empty = λ e. cc; no_dot = refl; no_bracket = refl };
  not_index = refl;
}

pub two_writes_recorded : AreRecorded format_small [] empty_store two_writes
unfolding base_state resolve_op
two_writes_recorded = (
  refl,
  (λ p. refl, (λ e. cc, (tt, tt), ((tt, tt, tt), (amount-IsPlainKey, tt, tt)))),
  (refl, (λ p. refl, tt), tt),
)
