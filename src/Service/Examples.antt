-- ===== src/Service/Examples.antt =====
-- Tests of the write use-case, and its theorems at concrete inputs.
use letopis.Prelude.{◌≡◌, refl, codes, true, false, none, []}
use letopis.Json.{end}
use letopis.Domain.Event.{EntityOp, Event}
use letopis.Service.Ingest.{commit, done, result}
use letopis.Service.Dedup.{commit-commit}
use letopis.Service.History.{empty_store}
use letopis.Service.Sample.{config, command, no_faults, deal}

-- an event with the event_id e1
abbrev named_event : Event
named_event = record {
  entity_id = codes "deal-1";
  version = 0;
  op = EntityOp.create;
  author = [];
  source = [];
  ts_source = 0;
  ts_received = 1;
  ts_stored = 0;
  event_id = codes "e1";
  request_id = [];
  changes = [];
  meta = end;
  flow = none;
  integrity = none;
}

commit-commit_example :
    commit 2 no_faults config
      (command EntityOp.create deal)
      0
      (commit 1 no_faults config
        (command EntityOp.create deal)
        0
        empty_store
        named_event
        deal
        false).0
      named_event
      deal
      false
    ≡ (
      (commit 1 no_faults config
          (command EntityOp.create deal)
          0
          empty_store
          named_event
          deal
          false).0,
      done (record (result (command EntityOp.create deal) 0) { deduplicated = true }),
    )
commit-commit_example =
    commit-commit no_faults no_faults config (command EntityOp.create deal) named_event deal false 1
      2 0 0 empty_store refl refl refl
