-- ===== src/Worker/Process.antt =====
-- internal/worker/worker.go: process and handle, over the data of the tenant that a task names.
-- The decoding of a payload (internal/service/envelope.go, by encoding/json) and the text of an
-- error are parameters; a task of another version of the envelope is what the decoder makes of it.
use letopis.Prelude.{
  ℕ, Str, str_eq, Bool, true, false, Option, none, some, List, [], ◌∷◌, if◌then◌else◌,
}
use letopis.Domain.Collection.{CollectionConfig, ReliabilityMode}
use letopis.Domain.Ticket
use letopis.Domain.Ticket.{TicketStatus, processing, stored, failed, mark}
use letopis.Plugin.Host.{Plugin}
use letopis.Service.Command.{Kind, IngestCommand}
use letopis.Service.Ingest
use letopis.Service.Ingest.{
  Faults, WriteError, config_unresolved, version_conflict, diff_invalid, kind_unknown, store_failed,
  fail_closed, Outcome, done, apply_one,
}
use letopis.Queue.Shard.{Delivery}

pub record TenantRef : Type 0 where
  pub id : Str
  pub db_uri : Str
  pub db_name : Str

pub record Task : Type 0 where
  pub tenant : TenantRef
  pub kind : Kind
  pub mode : ReliabilityMode
  pub ticket_id : Str
  pub command : IngestCommand

-- the collections and the tickets of a tenant
pub record World : Type 0 where
  pub collections : Str → Ingest.Store
  pub tickets : Ticket.Store

-- The clock, the configurations and the failing calls of one attempt.
pub record Attempt : Type 0 where
  pub now : ℕ
  pub config : Str → Option CollectionConfig
  pub faults : Faults
  pub first_mark : Ticket.Fault
  pub last_mark : Ticket.Fault

-- what process returns
pub data Verdict : Type 0 where
  applied : Verdict
  poison retryable : WriteError → Verdict
  malformed : Verdict

-- isPermanent; an unknown kind is wrapped as poison where it is found
unfoldable pub is_permanent : WriteError → Bool
is_permanent diff_invalid = true
is_permanent kind_unknown = true
is_permanent (fail_closed name) = true
is_permanent config_unresolved = false
is_permanent version_conflict = false
is_permanent store_failed = false

abbrev pub with_store : World → Str → Ingest.Store → World
with_store w collection st = record w {
  collections = λ c. if str_eq c collection then st else w.collections c;
}

-- markTicket, where the service is configured; its error is only logged
unfoldable pub mark_ticket : ℕ → Ticket.Fault → World → Str → TicketStatus → Str → World
unfolding mark
mark_ticket now fault w id status reason = record w {
  tickets = (mark now fault w.tickets id status reason).0;
}

-- the cases of the switch on the kind
abbrev pub has_entry_point : Kind → Bool
has_entry_point (Kind.unknown k) = false
has_entry_point _ = true

module _ (decode : Str → Option Task) (error_text : WriteError → Str) (format_float : ℕ → Str)
    (plugins : List Plugin) where
  -- the entry point for the kind of a task
  unfoldable pub dispatch : Attempt → World → Task → World × Outcome
  unfolding apply_one
  dispatch a w task =
      let collection = task.command.collection in
      let (st, out) =
        apply_one format_float plugins a.now a.faults (a.config collection) task.kind task.command
          (w.collections collection) in
      if has_entry_point task.kind
      then (with_store w collection st, out)
      else (w, Ingest.failed kind_unknown)

  -- process after the entry point has returned
  unfoldable pub conclude : Attempt → Task → World × Outcome → World × Verdict
  unfolding mark_ticket is_permanent
  conclude a task (w, done r) = (mark_ticket a.now a.last_mark w task.ticket_id stored [], applied)
  conclude a task (w, Ingest.failed e) =
      if is_permanent e
      then (mark_ticket a.now a.last_mark w task.ticket_id failed (error_text e), poison e)
      else (w, retryable e)

  abbrev process_task : Attempt → World → Option Task → World × Verdict
  process_task a w none = (w, malformed)
  process_task a w (some task) =
      conclude a task
        (dispatch a (mark_ticket a.now a.first_mark w task.ticket_id processing []) task)

  unfoldable pub process : Attempt → World → Delivery → World × Verdict
  unfolding conclude dispatch mark_ticket
  process a w d = process_task a w (decode d.message.payload)

  -- A delivery is acknowledged after success, and as poison.
  abbrev pub acks : Verdict → Bool
  acks (retryable e) = false
  acks _ = true

  unfoldable pub handle : Attempt → World → Delivery → World × Bool
  unfolding process
  handle a w d = let (w', v) = process a w d in (w', acks v)

  abbrev pub settled_by :
      World × Verdict → (World → World × Option Verdict) → World × Option Verdict
  settled_by (w, retryable e) k = k w
  settled_by (w, v) k = (w, some v)

  -- The attempts of a delivery, the reclaimed ones included, up to the one that is acknowledged,
  -- whose verdict is returned.
  abbrev pub attempts : World → Delivery → List Attempt → World × Option Verdict
  attempts w d [] = (w, none)
  attempts w d (a ∷ rest) = settled_by (process a w d) (λ w'. attempts w' d rest)
