-- ===== src/Intake/Accept.antt =====
-- internal/service/pipeline.go: AsyncIngester and Pipeline, for one tenant. What the clock and the
-- generator of ids give, and the calls that fail, are in `Io`; the envelope of a task is encoded by a
-- parameter (encoding/json).
use letopis.Prelude.{
  ℕ, Str, codes, ◌++◌, Bool, true, false, ◌&&◌, Option, none, some, List, [], ◌∷◌, if◌then◌else◌,
}
use letopis.Diff.Text.{itoa}
use letopis.Domain.Collection.{CollectionConfig, ReliabilityMode}
use letopis.Domain.Ticket
use letopis.Domain.Ticket.{open_ticket}
use letopis.Tenant.Access.{Tenant, database_name}
use letopis.Service.Command.{Kind, IngestCommand, IngestResult}
use letopis.Service.Ingest.{result}
use letopis.Queue.Shard.{Message}
use letopis.Worker.Process.{Task}
use letopis.Intake.Reserve.{
  Keys, Round, Reservation, reserved, held, unavailable, reserve, release, redis_key,
}

-- the optional collaborators that are there
pub record Wiring : Type 0 where
  pub has_tickets : Bool
  pub has_idempotency : Bool
  pub has_fast : Bool

-- The tickets, the keys, and the messages that each queue has accepted, the newest first.
pub record Intake : Type 0 where
  pub tickets : Ticket.Store
  pub keys : Keys
  pub durable : List Message
  pub fast : List Message

-- One call: its time, the id that is drawn for a ticket, the wait of a limiter that refuses, the
-- rounds of a reservation, and which other calls fail. A publish fails since the queue is closed, or
-- since it cannot be reached.
pub record Io : Type 0 where
  pub now : ℕ
  pub new_id : Str
  pub refused : Option ℕ
  pub rounds : List Round
  pub open_fails : Bool
  pub publish_fails : Bool
  pub is_closed : Bool
  pub release_fails : Bool

pub data AcceptError : Type 0 where
  backpressure : ℕ → AcceptError
  ticket_store encoding queue_unavailable queue_closed : AcceptError

pub data Accepted (A : Type 0) : Type 0 where
  ok : A → Accepted A
  err : AcceptError → Accepted A

-- ShardKey
unfoldable pub shard_key : Str → Str → Str → Str
shard_key tenant collection entity = tenant ++ (b'|' ∷ (collection ++ (b'|' ∷ entity)))

-- effectiveMode of a resolved configuration
abbrev pub or_durable : ReliabilityMode → ReliabilityMode
or_durable ReliabilityMode.unset = ReliabilityMode.durable
or_durable m = m

unfoldable pub effective_mode : ReliabilityMode → CollectionConfig → ReliabilityMode
effective_mode ReliabilityMode.unset cfg = or_durable cfg.reliability_mode
effective_mode override cfg = override

-- idempKey
abbrev pub key_of : IngestCommand → Str → Option Str
key_of cmd [] = none
key_of cmd (c ∷ cs) = some (cmd.collection ++ (b'|' ∷ (c ∷ cs)))

unfoldable pub idemp_key : Wiring → IngestCommand → Option Str
idemp_key w cmd = if w.has_idempotency then key_of cmd cmd.event_id else none

abbrev pub task_of : Tenant → Kind → ReliabilityMode → Str → IngestCommand → Task
task_of t kind mode ticket cmd = record {
  tenant = record { id = t.id; db_uri = t.db_uri; db_name = t.db_name };
  kind = kind;
  mode = mode;
  ticket_id = ticket;
  command = cmd;
}

abbrev pub event_attr : Str → List (Str × Str) → List (Str × Str)
event_attr [] attrs = attrs
event_attr (c ∷ cs) attrs = (codes "event_id", c ∷ cs) ∷ attrs

abbrev pub message_of : ℕ → Task → Str → Message
message_of now task payload = record {
  key = shard_key task.tenant.id task.command.collection task.command.entity_id;
  payload = payload;
  attrs = event_attr task.command.event_id ((codes "enq", itoa now) ∷ []);
}

abbrev pub is_fast : ReliabilityMode → Bool
is_fast ReliabilityMode.fast = true
is_fast _ = false

-- append to the queue of the mode that is used
abbrev pub append_to : Bool → Message → Intake → Intake
append_to true msg s = record s { fast = msg ∷ s.fast }
append_to false msg s = record s { durable = msg ∷ s.durable }

module _ (encode : Task → Option Str) (w : Wiring) (t : Tenant) where
  abbrev pub publish_encoded :
      Io → ReliabilityMode → Task → Intake → Option Str → Intake × Option AcceptError
  publish_encoded io mode task s none = (s, some encoding)
  publish_encoded io mode task s (some payload) =
      if io.publish_fails
      then (s, some (if io.is_closed then queue_closed else queue_unavailable))
      else (append_to (is_fast mode && w.has_fast) (message_of io.now task payload) s, none)

  -- Pipeline.Publish, without the mode that it reports
  unfoldable pub publish : Io → ReliabilityMode → Task → Intake → Intake × Option AcceptError
  publish io mode task s = publish_encoded io mode task s (encode task)

  -- openAndPublish
  unfoldable pub open_and_publish :
      Io → Kind → ReliabilityMode → IngestCommand → Intake → Intake × Option AcceptError
  unfolding publish
  open_and_publish io kind mode cmd s =
      let task = task_of t kind mode io.new_id cmd in
      let opened = record s {
        tickets = open_ticket io.now s.tickets io.new_id cmd.collection cmd.entity_id;
      } in
      if w.has_tickets
      then (if io.open_fails then (s, some ticket_store) else publish io mode task opened)
      else publish io mode task s

  -- the answer of 202
  abbrev pub accepted : IngestCommand → Str → Bool → IngestResult
  accepted cmd ticket again = record (result cmd 0) {
    async = true;
    ticket = ticket;
    deduplicated = again;
  }

  abbrev pub settle :
      IngestCommand
      → Str
      → (Intake → Intake)
      → Intake × Option AcceptError
      → Intake × Accepted IngestResult
  settle cmd ticket undo (s, none) = (s, ok (accepted cmd ticket false))
  settle cmd ticket undo (s, some e) = (undo s, err e)

  abbrev pub keep : Intake → Intake
  keep s = s

  abbrev pub free_key : Io → Str → Intake → Intake
  free_key io k s = record s { keys = release io.release_fails s.keys k }

  -- enqueue after Reserve has returned
  abbrev pub after_reserve :
      Io
      → Kind
      → ReliabilityMode
      → IngestCommand
      → Str
      → Intake
      → Keys × Reservation
      → Intake × Accepted IngestResult
  after_reserve io kind mode cmd k s (keys, reserved) =
      settle cmd io.new_id (free_key io k)
        (open_and_publish io kind mode cmd (record s { keys = keys }))
  after_reserve io kind mode cmd k s (keys, held r) =
      (record s { keys = keys }, ok (accepted cmd r.ticket_id true))
  after_reserve io kind mode cmd k s (keys, unavailable) =
      settle cmd io.new_id keep (open_and_publish io kind mode cmd (record s { keys = keys }))

  abbrev pub enqueue_keyed :
      Io
      → Kind
      → ReliabilityMode
      → IngestCommand
      → Intake
      → Option Str
      → Intake × Accepted IngestResult
  enqueue_keyed io kind mode cmd s none =
      settle cmd io.new_id keep (open_and_publish io kind mode cmd s)
  enqueue_keyed io kind mode cmd s (some logical) =
      let k = redis_key (database_name t) logical in
      after_reserve io kind mode cmd k s
        (reserve io.rounds s.keys k (record { ticket_id = io.new_id; status_code = 202 }))

  abbrev pub unless_refused :
      Option ℕ → Intake → Intake × Accepted IngestResult → Intake × Accepted IngestResult
  unless_refused none s r = r
  unless_refused (some wait) s r = (s, err (backpressure wait))

  -- enqueue, for a context with a principal
  unfoldable pub enqueue :
      Io → Kind → ReliabilityMode → IngestCommand → Intake → Intake × Accepted IngestResult
  unfolding open_and_publish reserve idemp_key
  enqueue io kind mode cmd s =
      unless_refused io.refused s (enqueue_keyed io kind mode cmd s (idemp_key w cmd))
