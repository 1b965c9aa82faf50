-- ===== src/Worker/Batcher/Examples.antt =====
-- Tests of the batch worker, and its theorems at concrete flushes.
use letopis.Prelude.{
  ℕ, ◌<◌, ◌≡◌, refl, Str, str_eq, codes, false, Option, none, some, List, [], ◌∷◌, ◌++◌, All,
  length, if◌then◌else◌,
}
use letopis.Prelude.Int.{pos}
use letopis.Domain.Event.{EntityOp}
use letopis.Domain.Collection.{ReliabilityMode}
use letopis.Domain.Ticket
use letopis.Domain.Ticket.{Ticket, accepted, no_fault}
use letopis.Service.Command.{Kind}
use letopis.Service.Ingest.{WriteError}
use letopis.Service.History.{empty_store}
use letopis.Service.Sample.{config, command, deal}
use letopis.Queue.Shard.{Delivery}
use letopis.Batch.Fold.{BatchItem, BatchFaults}
use letopis.Worker.Process.{Task, World}
use letopis.Worker.Batcher.{FlushEnv, Signal, received, lingered, closed, run_shard, batch_size}
use letopis.Worker.Batcher.Buffer.{joined, taken, IsBatch, run_shard-IsInOrder}

abbrev task : Str → Task
task id = record {
  tenant = record { id = codes "t"; db_uri = []; db_name = [] };
  kind = Kind.state;
  mode = ReliabilityMode.fast;
  ticket_id = id;
  command = command EntityOp.unset deal;
}

-- A payload is the id of its ticket, and the empty one is malformed.
abbrev decode : Str → Option Task
decode payload = if str_eq payload [] then none else some (task payload)

abbrev error_text : WriteError → Str
error_text e = codes "error"

abbrev delivery : Str → Delivery
delivery payload = record {
  message = record { key = codes "t|crm.deals|deal-1"; payload = payload; attrs = [] };
  id = 1;
  shard = 0;
  deliveries = 1;
}

-- every ticket is accepted
abbrev tickets : Ticket.Store
tickets id = some (record {
  id = id;
  status = accepted;
  entity_collection = codes "crm.deals";
  entity_id = codes "deal-1";
  error = [];
  created_at = 0;
  updated_at = 0;
})

abbrev worlds : Str → World
worlds k = record { collections = λ c. empty_store; tickets = tickets }

abbrev works : BatchFaults
works = record {
  load_fails = λ e. false;
  last_fails = λ e. false;
  insert_fails = false;
  upsert_fails = λ e. false;
  snapshot_fails = false;
}

abbrev env : FlushEnv
env = record {
  now = 7;
  config = λ k c. some config;
  faults = λ k c. works;
  mark_fault = λ k. no_fault;
}

abbrev before : List Delivery
before = delivery (codes "k1") ∷ delivery [] ∷ []

abbrev after : List Delivery
after = delivery (codes "k3") ∷ []

-- The item of the malformed delivery is left out.
abbrev items : List (ℕ × BatchItem)
items =
    (0, record { kind = Kind.state; command = (task (codes "k1")).command })
    ∷ (1, record { kind = Kind.state; command = (task (codes "k2")).command })
    ∷ (2, record { kind = Kind.state; command = (task (codes "k3")).command })
    ∷ []

abbrev signals : List Signal
signals =
    received (delivery (codes "k1"))
    ∷ received (delivery (codes "k2"))
    ∷ received (delivery (codes "k3"))
    ∷ lingered
    ∷ []

run_shard-IsInOrder_example :
    let r = run_shard (batch_size (pos 2)) signals [] in
    (joined r.0 ++ r.1 ≡ taken signals)
    × All (IsBatch (batch_size (pos 2))) r.0
    × (length r.1 < batch_size (pos 2))
run_shard-IsInOrder_example = run_shard-IsInOrder (pos 2) signals

full_batch_then_deadline :
    (run_shard 2 signals []).0
    ≡ (delivery (codes "k1") ∷ delivery (codes "k2") ∷ []) ∷ (delivery (codes "k3") ∷ []) ∷ []
unfolding run_shard
full_batch_then_deadline = refl

-- What is in the buffer when the channel is closed is in no batch.
closed_drops_buffer :
    run_shard 2 (received (delivery (codes "k1")) ∷ closed ∷ []) []
    ≡ ([], delivery (codes "k1") ∷ [])
unfolding run_shard
closed_drops_buffer = refl
