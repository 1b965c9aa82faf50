-- ===== src/Worker/Examples.antt =====
-- Tests of the worker, and its theorems at a concrete delivery.
use letopis.Prelude.{
  ◌≡◌, ◌≤◌, ◌⊎◌, refl, Str, codes, true, Option, none, some, List, [], ◌∷◌, inl, arith,
}
use letopis.Diff.Compute.{diff}
use letopis.Domain.Event.{EntityOp}
use letopis.Domain.Collection.{ReliabilityMode}
use letopis.Domain.Ticket
use letopis.Domain.Ticket.{Ticket, accepted, no_fault}
use letopis.Service.Command.{Kind}
use letopis.Service.Plan.{build_event}
use letopis.Service.Ingest.{WriteError, Faults}
use letopis.Service.History.{empty_store}
use letopis.Service.Sample.{format_small, config, command, no_faults, deal}
use letopis.Queue.Shard.{Delivery}
use letopis.Worker.Process.{Task, World, Attempt, handle, attempts}
use letopis.Worker.Loop.{Database, Signal, received, ticked, cancelled, run_shard}
use letopis.Worker.Loop.Once.{count_events, run_shard-count_events}
use letopis.Worker.Redelivery.{handle_all, handle-handle}
use letopis.Worker.Settled.{IsToldBy, Has, attempts-IsToldBy}

abbrev task : Task
task = record {
  tenant = record { id = codes "t"; db_uri = []; db_name = [] };
  kind = Kind.state;
  mode = ReliabilityMode.strict;
  ticket_id = codes "k1";
  command = record (command EntityOp.unset deal) { event_id = codes "e1" };
}

abbrev decode : Str → Option Task
decode payload = some task

abbrev error_text : WriteError → Str
error_text e = codes "error"

abbrev delivery : Delivery
delivery = record {
  message = record { key = codes "t|crm.deals|deal-1"; payload = []; attrs = [] };
  id = 1;
  shard = 0;
  deliveries = 1;
}

abbrev ticket : Ticket
ticket = record {
  id = codes "k1";
  status = accepted;
  entity_collection = codes "crm.deals";
  entity_id = codes "deal-1";
  error = [];
  created_at = 0;
  updated_at = 0;
}

abbrev tickets : Ticket.Store
tickets id = some ticket

abbrev world : World
world = record { collections = λ c. empty_store; tickets = tickets }

abbrev attempt : Faults → Attempt
attempt f = record {
  now = 7;
  config = λ c. some config;
  faults = f;
  first_mark = no_fault;
  last_mark = no_fault;
}

-- The first attempt fails on a call of the store, the second one works.
abbrev lost : Faults
lost = record no_faults { load_fails = true }

handle-handle_example :
    let first = (handle decode error_text format_small [] (attempt no_faults) world delivery).0 in
    let later =
      handle_all decode error_text format_small [] first ((attempt lost, delivery) ∷ []) in
    (first.collections (codes "crm.deals") ≡ world.collections (codes "crm.deals"))
    ⊎ ((handle decode error_text format_small [] (attempt no_faults) later delivery).0.collections
          (codes "crm.deals")
        ≡ later.collections (codes "crm.deals"))
handle-handle_example =
    handle-handle decode error_text format_small [] (attempt no_faults) (attempt no_faults) world
      delivery task ((attempt lost, delivery) ∷ []) (codes "crm.deals") refl refl

attempts-IsToldBy_example :
    let r =
      attempts decode error_text format_small [] world delivery
        (attempt lost ∷ attempt no_faults ∷ []) in
    Has (IsToldBy error_text r.1) (codes "k1") r.0.tickets
attempts-IsToldBy_example =
    attempts-IsToldBy decode error_text format_small [] delivery task b'k' (b'1' ∷ []) refl refl
      (attempt lost ∷ attempt no_faults ∷ []) world ((refl, refl), ((refl, refl), tt))
      (ticket, refl, refl, inl refl)

abbrev home : Database
home = record { uri = []; name = codes "hm_t_t" }

abbrev worlds : Database → World
worlds d = world

-- The first attempt fails, a reclaim repeats it, and the delivery comes once more.
abbrev signals : List Signal
signals =
    received (attempt lost) delivery
    ∷ ticked none
    ∷ ticked (some ((attempt no_faults, delivery) ∷ []))
    ∷ received (attempt no_faults) delivery
    ∷ cancelled
    ∷ []

run_shard-count_events_example :
    let after = (run_shard decode error_text format_small [] signals worlds).0 in
    (count_events (codes "e1") ((worlds home).collections (codes "crm.deals")).events
      ≤ count_events (codes "e1") ((after home).collections (codes "crm.deals")).events)
    × (count_events (codes "e1") ((after home).collections (codes "crm.deals")).events ≤ 1)
unfolding count_events
run_shard-count_events_example =
    run_shard-count_events decode error_text format_small [] (codes "e1") refl signals worlds home
      (codes "crm.deals") (omega arith)

stored_once :
    let r = run_shard decode error_text format_small [] signals worlds in
    (count_events (codes "e1") ((r.0 home).collections (codes "crm.deals")).events ≡ 1)
    × (r.1 ≡ delivery ∷ delivery ∷ [])
unfolding count_events run_shard diff build_event
stored_once = (refl, refl)
