-- ===== src/Intake/Examples.antt =====
-- The theorems on accepted writes at concrete calls.
use letopis.Prelude.{◌≡◌, refl, Str, codes, true, false, Option, none, some, List, [], ◌∷◌}
use letopis.Domain.Event.{EntityOp}
use letopis.Domain.Collection.{ReliabilityMode}
use letopis.Tenant.Access.{Tenant}
use letopis.Service.Command.{Kind, IngestCommand, IngestResult}
use letopis.Service.Ingest.{WriteError}
use letopis.Service.History.{empty_store}
use letopis.Service.Sample.{format_small, config, command, no_faults, deal}
use letopis.Queue.Shard.{Message}
use letopis.Domain.Ticket.{no_fault}
use letopis.Worker.Process.{Task, Attempt, attempts}
use letopis.Worker.Settled.{Has, IsToldBy}
use letopis.Intake.Reserve.{reserve}
use letopis.Intake.Accept
use letopis.Intake.Accept.{
  Wiring, Intake, Io, ok, err, queue_unavailable, task_of, enqueue, accepted, open_and_publish,
  idemp_key,
}
use letopis.Intake.Kept.{Call, enqueue_all}
use letopis.Intake.Once.{enqueue-enqueue}
use letopis.Intake.Settled.{enqueue-attempts}
use letopis.Intake.Errors.{IsUntouched, enqueue-IsUntouched}
use letopis.Intake.Batch
use letopis.Intake.Batch.{
  Site, Step, BatchEntry, BatchReject, too_large, resolved, auto_create_disabled,
}

abbrev acme : Tenant
acme = record { id = codes "acme"; db_uri = []; db_name = [] }

abbrev wiring : Wiring
wiring = record { has_tickets = true; has_idempotency = true; has_fast = false }

abbrev idle : Intake
idle = record { tickets = λ id. none; keys = λ k. none; durable = []; fast = [] }

abbrev io : Str → Io
io id = record {
  now = 5;
  new_id = id;
  refused = none;
  rounds = [];
  open_fails = false;
  publish_fails = false;
  is_closed = false;
  release_fails = false;
}

abbrev deal_command : IngestCommand
deal_command = record (command EntityOp.unset deal) { event_id = codes "e1" }

abbrev encode : Task → Option Str
encode task = some []

abbrev call : Str → Call
call id = record {
  io = io id;
  kind = Kind.state;
  mode = ReliabilityMode.durable;
  cmd = deal_command;
}

abbrev answer : IngestResult
answer = accepted encode wiring acme deal_command (codes "k1") false

first_accepted :
    (enqueue encode wiring acme
      (io (codes "k1"))
      Kind.state
      ReliabilityMode.durable
      deal_command
      idle).1
    ≡ ok answer
unfolding enqueue open_and_publish Accept.publish reserve idemp_key
first_accepted = refl

enqueue-enqueue_example :
    let s =
      enqueue_all encode wiring acme
        (enqueue encode wiring acme
          (io (codes "k1"))
          Kind.state
          ReliabilityMode.durable
          deal_command
          idle).0
        (call (codes "k2") ∷ []) in
    enqueue encode wiring acme (io (codes "k3")) Kind.state ReliabilityMode.durable deal_command s
    ≡ (s, ok (accepted encode wiring acme deal_command (codes "k1") true))
enqueue-enqueue_example =
    enqueue-enqueue encode wiring acme (call (codes "k1")) (call (codes "k3"))
      (call (codes "k2") ∷ []) idle answer refl refl refl first_accepted ((λ q. cc q), tt) refl refl
      refl refl

abbrev attempt : Attempt
attempt = record {
  now = 7;
  config = λ c. some config;
  faults = no_faults;
  first_mark = no_fault;
  last_mark = no_fault;
}

abbrev decode : Str → Option Task
decode payload = some (task_of acme Kind.state ReliabilityMode.durable (codes "k1") deal_command)

abbrev error_text : WriteError → Str
error_text e = []

enqueue-attempts_example :
    let u =
      (enqueue encode wiring acme
        (io (codes "k1"))
        Kind.state
        ReliabilityMode.durable
        deal_command
        idle).0 in
    (msg : Message) × (u.durable ≡ msg ∷ [])
    × (let r =
          attempts decode error_text format_small []
            (record { collections = λ c. empty_store; tickets = u.tickets })
            (record { message = msg; id = 1; shard = 0; deliveries = 1 })
            (attempt ∷ []) in
        Has (IsToldBy error_text r.1) (codes "k1") r.0.tickets)
enqueue-attempts_example =
    enqueue-attempts encode decode error_text format_small [] wiring acme (io (codes "k1"))
      Kind.state ReliabilityMode.durable deal_command idle answer b'k' (b'1' ∷ []) 1 0 1
      (λ c. empty_store) (attempt ∷ []) (λ payload e. refl) refl refl refl first_accepted refl
      ((refl, refl), tt)

-- The queue cannot be reached.
abbrev broken : Io
broken = record (io (codes "k1")) { publish_fails = true }

broken_fails :
    (enqueue encode wiring acme broken Kind.state ReliabilityMode.durable deal_command idle).1
    ≡ err queue_unavailable
unfolding enqueue open_and_publish Accept.publish reserve idemp_key
broken_fails = refl

enqueue-IsUntouched_example :
    IsUntouched idle
      (enqueue encode wiring acme broken Kind.state ReliabilityMode.durable deal_command idle).0
enqueue-IsUntouched_example =
    enqueue-IsUntouched encode wiring acme broken Kind.state ReliabilityMode.durable deal_command
      idle queue_unavailable refl (λ q. cc q) broken_fails

abbrev site : Site
site = record { collections = λ c. empty_store; intake = idle }

abbrev entries : List (BatchEntry × Step)
entries =
    (
      record { index = 1; kind = Kind.state; command = deal_command; body_size = 9000000 },
      record { io = io []; faults = no_faults; config = resolved config },
    )
    ∷ (
      record { index = 0; kind = Kind.state; command = deal_command; body_size = 10 },
      record { io = io []; faults = no_faults; config = auto_create_disabled },
    )
    ∷ []

abbrev batch_result : Batch.BatchResult
batch_result = record {
  ticket = codes "b1";
  accepted = 0;
  rejected =
      record { index = 0; code = Batch.collection_not_found }
      ∷ record { index = 1; code = too_large }
      ∷ [];
}
