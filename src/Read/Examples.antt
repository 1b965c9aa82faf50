-- ===== src/Read/Examples.antt =====
-- The reads of a small history, and their theorems at concrete inputs.
use letopis.Prelude.{
  ℕ, ◌≡◌, ◌<◌, refl, Str, str_eq, codes, true, false, none, List, [], ◌∷◌, length, arith,
}
use letopis.Json.{end}
use letopis.Diff.Model
use letopis.Domain.Event.{EntityOp, Event}
use letopis.Service.Ingest.{history, apply_one}
use letopis.Service.Plan.{build_event}
use letopis.Diff.Compute.{diff}
use letopis.Service.History.{writes, empty_store, current_view}
use letopis.Service.Sample.{format_small, two_writes, two_writes_recorded}
use letopis.Read.Query.{by_received, descending, EventFilter, list_events}
use letopis.Read.Paging.{page_filter, whole_filter, follow_pages, follow_pages-list_events}
use letopis.Read.StateAt.{ReconstructedState, ReadFaults, ok, state_at}
use letopis.Read.PointInTime.{state_at-current}

abbrev event : Str → ℕ → ℕ → Event
event e v ts = record {
  entity_id = e;
  version = v;
  op = EntityOp.update;
  author = [];
  source = [];
  ts_source = 0;
  ts_received = ts;
  ts_stored = ts;
  event_id = [];
  request_id = [];
  changes = [];
  meta = end;
  flow = none;
  integrity = none;
}

-- Two of the three events of `a` were received at the same time.
abbrev events : List Event
events =
    event (codes "a") 1 5
    ∷ event (codes "b") 1 6
    ∷ event (codes "a") 2 7
    ∷ event (codes "a") 3 7
    ∷ []

abbrev newest_first : EventFilter
newest_first = record {
  entity_id = codes "a";
  from_time = 0;
  to_time = 0;
  author = [];
  op = EntityOp.unset;
  path = [];
  source = [];
  order_by = by_received;
  order = descending;
  limit = 0;
  after = none;
  max_version = 0;
}

newest_first_runs :
    list_events newest_first events
    ≡ event (codes "a") 3 7 ∷ event (codes "a") 2 7 ∷ event (codes "a") 1 5 ∷ []
unfolding list_events str_eq
newest_first_runs = refl

follow_pages-list_events_example :
    follow_pages 4 (page_filter newest_first 0 none) events
    ≡ list_events (whole_filter newest_first) events
unfolding list_events str_eq
follow_pages-list_events_example =
    follow_pages-list_events newest_first refl 4 0 events
      (
        (λ e v. ground arith, (λ e v. omega arith, (λ e v. omega arith, tt))),
        ((λ e v. ground arith, (λ e v. ground arith, tt)), ((λ e v. omega arith, tt), (tt, tt))),
      )
      (omega arith)

abbrev no_read_faults : ReadFaults
no_read_faults = record {
  last_fails = false;
  cutoff_fails = false;
  list_fails = false;
  has_snapshots = true;
  nearest_fails = false;
}

two_events :
    length (history (codes "deal-1") (writes format_small [] empty_store two_writes).events) ≡ 2
unfolding history apply_one build_event diff str_eq
two_events = refl

some_events :
    0 < length (history (codes "deal-1") (writes format_small [] empty_store two_writes).events)
some_events = omega (arith, two_events)

latest_read :
    let st = writes format_small [] empty_store two_writes in
    (rs : ReconstructedState) × (state_at format_small no_read_faults st
        (codes "deal-1")
        (record { version = none; at = none })
      ≡ ok rs)
    × ((rs.state, rs.deleted) ≡ current_view (st.current (codes "deal-1")))
latest_read =
    state_at-current format_small [] two_writes (codes "deal-1") no_read_faults two_writes_recorded
      refl refl refl some_events
