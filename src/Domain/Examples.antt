-- ===== src/Domain/Examples.antt =====
-- Tests of internal/domain, and its theorems at concrete inputs.
use letopis.Domain.Ulid.{encode_ulid, encode_ulid_eq}
use letopis.Prelude.{
  ℕ, ◌≡◌, ◌↔◌, refl, Str, str_eq, str_eq→eq, ◌+◌, codes, true, false, none, some, List, [], ◌∷◌,
  ◌++◌, arith,
}
use letopis.Prelude.Int.{pos}
use letopis.Json.{num, end, field}
use letopis.Diff.Model.{ok, ◌>>=◌}
use letopis.Diff.Model.{Change}
use letopis.Diff.Compute.{added}
use letopis.Diff.Apply.{apply}
use letopis.Domain.Event.{EntityOp, Event}
use letopis.Domain.Reconstruct.{reconstruct}
use letopis.Domain.Reconstruct.Anchor.{reconstruct-append}
use letopis.Domain.Collection.{
  CollectionConfig, ReliabilityMode, FirstEventOp, OrderingMode, RetentionType, validate,
  with_defaults,
}
use letopis.Domain.Collection.Accepted.{
  IsAccepted, IsComplete, validate-IsAccepted, with_defaults-IsComplete,
}
use letopis.Domain.Ticket.{
  Ticket, Store, processing, stored, failed, terminal, no_fault, get_fails, save_fails, save,
}
use letopis.Domain.Ticket.Lifecycle.{IsKeyed, Follows, Call, marks, marks-Follows, marks-terminal}

abbrev format_small : ℕ → Str
format_small n = (b'0' + n) ∷ []

abbrev event : ℕ → EntityOp → List Change → Event
event v op changes = record {
  entity_id = codes "deal-1";
  version = v;
  op = op;
  author = [];
  source = [];
  ts_source = 0;
  ts_received = v;
  ts_stored = v;
  event_id = [];
  request_id = [];
  changes = changes;
  meta = end;
  flow = none;
  integrity = none;
}

abbrev first_events : List Event
first_events =
    event 1 EntityOp.create (added (codes "amount") (num 1) ∷ []) ∷ event 2 EntityOp.delete [] ∷ []

abbrev later_events : List Event
later_events = event 3 EntityOp.create (added (codes "stage") (num 2) ∷ []) ∷ []

-- A delete keeps the last value, and a later create starts afresh.
reconstruct_runs :
    reconstruct format_small end false first_events ≡ ok (field (codes "amount") (num 1) end, true)
unfolding reconstruct apply str_eq
reconstruct_runs = refl

reconstruct_recreated :
    reconstruct format_small end false (first_events ++ later_events)
    ≡ ok (field (codes "stage") (num 2) end, false)
unfolding reconstruct apply str_eq
reconstruct_recreated = refl

reconstruct-append_example : reconstruct format_small end false (first_events ++ later_events) ≡ (
    reconstruct format_small end false first_events >>= λ s.
    reconstruct format_small s.0 s.1 later_events)
reconstruct-append_example = reconstruct-append format_small end false first_events later_events

abbrev submitted : CollectionConfig
submitted = record {
  name = codes "crm.deals";
  reliability_mode = ReliabilityMode.fast;
  snapshot_interval = pos 0;
  retention = record { type = RetentionType.unset; days = pos 0; keep = pos 0 };
  max_event_size_bytes = pos 0;
  first_event_op = FirstEventOp.unset;
  ordering = record { mode = OrderingMode.source; reorder_window_ms = pos 0 };
  array_keys = [];
  plugins = [];
}

validate-IsAccepted_example : (validate submitted ≡ none) ↔ IsAccepted submitted
validate-IsAccepted_example = validate-IsAccepted submitted

with_defaults-IsComplete_example :
    IsComplete (with_defaults submitted) × (validate (with_defaults submitted) ≡ none)
unfolding validate
with_defaults-IsComplete_example = with_defaults-IsComplete submitted refl

abbrev finished : Ticket
finished = record {
  id = codes "tkt_1";
  status = stored;
  entity_collection = codes "crm.deals";
  entity_id = codes "deal-1";
  error = [];
  created_at = 1;
  updated_at = 3;
}

abbrev tickets : Store
tickets = save (λ id. none) finished

tickets-IsKeyed : IsKeyed tickets
tickets-IsKeyed = record { keyed = λ id t e. ground (arith, str_eq→eq id (codes "tkt_1"), e) }

-- The calls of a redelivered message, with a store that fails in between.
abbrev redelivery : List Call
redelivery =
    record { now = 5; fault = no_fault; id = codes "tkt_1"; status = processing; reason = [] }
    ∷ record { now = 6; fault = save_fails; id = codes "tkt_1"; status = failed; reason = [] }
    ∷ record { now = 7; fault = get_fails; id = codes "tkt_2"; status = stored; reason = [] }
    ∷ []

settled_stays : marks tickets redelivery (codes "tkt_1") ≡ some finished
unfolding str_eq terminal
settled_stays = marks-terminal redelivery tickets (codes "tkt_1") finished tickets-IsKeyed refl refl

marks-Follows_example :
    (u : Ticket) × (marks tickets redelivery (codes "tkt_1") ≡ some u) × Follows finished u
unfolding str_eq
marks-Follows_example =
    marks-Follows redelivery tickets (codes "tkt_1") finished tickets-IsKeyed refl

encode_ulid_runs : encode_ulid 1 33 ≡ codes "0000000000000G000000000011"
unfolding encode_ulid
encode_ulid_runs = refl

encode_ulid_eq_example : (◌≡◌ {A = ℕ} 1 1) × (◌≡◌ {A = ℕ} 33 33)
encode_ulid_eq_example =
    encode_ulid_eq 1 33 1 33 (omega arith) (omega arith) (omega arith) (omega arith) refl
