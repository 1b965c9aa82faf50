-- ===== src/Intake/Batch.antt =====
-- internal/service/pipeline.go: dispatch, writeStrict and acceptBatchItem, and
-- internal/service/batch_ingest.go: a batch of writes, each accepted or rejected on its own.
use letopis.Prelude.{
  ℕ, zero, suc, Str, str_eq, Bool, true, false, ◌&&◌, Option, none, some, List, [], ◌∷◌, ◌++◌, ltb,
  if◌then◌else◌,
}
use letopis.Prelude.Int.{ℤ, pos, negsuc}
use letopis.Domain.Collection.{CollectionConfig, ReliabilityMode}
use letopis.Domain.Ticket
use letopis.Domain.Ticket.{TicketStatus, accepted, partial, open_batch}
use letopis.Plugin.Host.{Plugin}
use letopis.Tenant.Access.{Tenant, database_name}
use letopis.Service.Command.{Kind, IngestCommand, IngestResult}
use letopis.Service.Ingest
use letopis.Service.Ingest.{
  Faults, WriteError, version_conflict, diff_invalid, Outcome, done, apply_one,
}
use letopis.Worker.Process.{Task, has_entry_point}
use letopis.Intake.Reserve.{Keys, Reservation, reserved, held, unavailable, reserve, redis_key}
use letopis.Intake.Accept
use letopis.Intake.Accept.{
  Wiring, Intake, Io, Accepted, AcceptError, queue_unavailable, backpressure, effective_mode,
  idemp_key, publish, task_of, free_key, enqueue,
}

-- what EnsureCollection answers
pub data ConfigAnswer : Type 0 where
  resolved : CollectionConfig → ConfigAnswer
  auto_create_disabled config_failed : ConfigAnswer

pub data ItemError : Type 0 where
  not_created config_lost : ItemError
  write : WriteError → ItemError
  accept : AcceptError → ItemError

pub data Done (A : Type 0) : Type 0 where
  ok : A → Done A
  err : ItemError → Done A

-- the collections of a tenant, and its tickets, keys and queues
pub record Site : Type 0 where
  pub collections : Str → Ingest.Store
  pub intake : Intake

-- What the collaborators do in one write.
pub record Step : Type 0 where
  pub io : Io
  pub faults : Faults
  pub config : ConfigAnswer

abbrev pub with_collection : Site → Str → Ingest.Store → Site
with_collection s collection st = record s {
  collections = λ c. if str_eq c collection then st else s.collections c;
}

abbrev pub written : Site → Str → Ingest.Store × Outcome → Site × Done IngestResult
written s collection (st, done r) = (with_collection s collection st, ok r)
written s collection (st, Ingest.failed e) = (with_collection s collection st, err (write e))

abbrev pub enqueued : Site → Intake × Accepted IngestResult → Site × Done IngestResult
enqueued s (u, Accept.ok r) = (record s { intake = u }, ok r)
enqueued s (u, Accept.err e) = (record s { intake = u }, err (accept e))

abbrev pub is_strict : ReliabilityMode → Bool
is_strict ReliabilityMode.strict = true
is_strict _ = false

pub record BatchEntry : Type 0 where
  pub index : ℕ
  pub kind : Kind
  pub command : IngestCommand
  pub body_size : ℕ

pub data RejectCode : Type 0 where
  collection_not_found too_large invalid_diff conflict unreachable internal : RejectCode

pub record BatchReject : Type 0 where
  pub index : ℕ
  pub code : RejectCode

pub record BatchResult : Type 0 where
  pub ticket : Str
  pub accepted : ℕ
  pub rejected : List BatchReject

-- mapErr
unfoldable pub code_of : ItemError → RejectCode
code_of not_created = collection_not_found
code_of (write diff_invalid) = invalid_diff
code_of (write version_conflict) = conflict
code_of (accept queue_unavailable) = unreachable
code_of config_lost = internal
code_of (write _) = internal
code_of (accept _) = internal

abbrev pub reject : ℕ → ItemError → Option BatchReject
reject i e = some (record { index = i; code = code_of e })

-- `max <= 0` falls back to the default size
abbrev pub size_limit : ℤ → ℕ
size_limit (pos zero) = 1048576
size_limit (pos (suc n)) = suc n
size_limit (negsuc n) = 1048576

-- sort.Slice by index
unfoldable pub insert_reject : BatchReject → List BatchReject → List BatchReject
insert_reject r [] = r ∷ []
insert_reject r (x ∷ xs) =
    let rest = insert_reject r xs in if ltb x.index r.index then x ∷ rest else r ∷ x ∷ xs

unfoldable pub sort_rejects : List BatchReject → List BatchReject
unfolding insert_reject
sort_rejects [] = []
sort_rejects (r ∷ rs) = insert_reject r (sort_rejects rs)

module _ (encode : Task → Option Str) (format_float : ℕ → Str) (plugins : List Plugin) (w : Wiring)
    (t : Tenant) where
  -- the synchronous write; an unknown kind has no entry point
  unfoldable pub write_strict :
      Step → CollectionConfig → Kind → IngestCommand → Site → Site × Done IngestResult
  unfolding apply_one
  write_strict p cfg kind cmd s =
      if has_entry_point kind
      then written s cmd.collection (
          apply_one format_float plugins p.io.now p.faults (some cfg) kind cmd
            (s.collections cmd.collection))
      else (s, err (write Ingest.kind_unknown))

  -- dispatch
  unfoldable pub dispatch : Step → Kind → IngestCommand → Site → Site × Done IngestResult
  unfolding write_strict effective_mode enqueue
  dispatch p kind cmd s = elim (p.config) [
    | auto_create_disabled ↦ (s, err not_created)
    | config_failed ↦ (s, err config_lost)
    | resolved cfg ↦
        let mode = effective_mode cmd.mode cfg in
        if is_strict mode
        then write_strict p cfg kind cmd s
        else enqueued s (enqueue encode w t p.io kind mode cmd s.intake)
  ]

  abbrev pub publish_item :
      Io
      → ReliabilityMode
      → Kind
      → IngestCommand
      → (Intake → Intake)
      → Intake
      → Intake × Option AcceptError
  publish_item io mode kind cmd undo s =
      let r = publish encode w t io mode (task_of t kind mode [] cmd) s in
      (elim (r.1) [ none ↦ r.0 | some e ↦ undo r.0 ], r.1)

  abbrev pub reserved_item :
      Io
      → ReliabilityMode
      → Kind
      → IngestCommand
      → Str
      → Intake
      → Keys × Reservation
      → Intake × Option AcceptError
  reserved_item io mode kind cmd k s (keys, reserved) =
      publish_item io mode kind cmd (free_key encode w t io k) (record s { keys = keys })
  reserved_item io mode kind cmd k s (keys, held r) = (record s { keys = keys }, none)
  reserved_item io mode kind cmd k s (keys, unavailable) =
      publish_item io mode kind cmd (λ u. u) (record s { keys = keys })

  abbrev pub keyed_item :
      Io
      → Str
      → ReliabilityMode
      → Kind
      → IngestCommand
      → Intake
      → Option Str
      → Intake × Option AcceptError
  keyed_item io receipt mode kind cmd s none = publish_item io mode kind cmd (λ u. u) s
  keyed_item io receipt mode kind cmd s (some logical) =
      let k = redis_key (database_name t) logical in
      reserved_item io mode kind cmd k s
        (reserve io.rounds s.keys k (record { ticket_id = receipt; status_code = 202 }))

  -- acceptBatchItem; a repeat is a success too
  unfoldable pub accept_batch_item :
      Io → Str → Kind → ReliabilityMode → IngestCommand → Intake → Intake × Option AcceptError
  unfolding idemp_key reserve publish
  accept_batch_item io receipt kind mode cmd s =
      keyed_item io receipt mode kind cmd s (idemp_key w cmd)

  abbrev pub strict_item : ℕ → Site × Done IngestResult → Site × Option BatchReject
  strict_item i (s, ok r) = (s, none)
  strict_item i (s, err e) = (s, reject i e)

  abbrev pub queued_item : ℕ → Site → Intake × Option AcceptError → Site × Option BatchReject
  queued_item i s (u, none) = (record s { intake = u }, none)
  queued_item i s (u, some e) = (record s { intake = u }, reject i (accept e))

  -- accept, from what EnsureCollection answers
  unfoldable pub accept_with :
      Step → Str → BatchEntry → Site → ConfigAnswer → Site × Option BatchReject
  unfolding write_strict accept_batch_item effective_mode code_of
  accept_with p receipt e s auto_create_disabled = (s, reject e.index not_created)
  accept_with p receipt e s config_failed = (s, reject e.index config_lost)
  accept_with p receipt e s (resolved cfg) =
      let mode = effective_mode e.command.mode cfg in
      if ltb (size_limit cfg.max_event_size_bytes) e.body_size
      then (s, some (record { index = e.index; code = too_large }))
      else if is_strict mode
      then strict_item e.index (write_strict p cfg e.kind e.command s)
      else queued_item e.index s (accept_batch_item p.io receipt e.kind mode e.command s.intake)

  unfoldable pub accept_entry : Step → Str → BatchEntry → Site → Site × Option BatchReject
  unfolding accept_with
  accept_entry p receipt e s = accept_with p receipt e s p.config

  abbrev pub counted : BatchResult → Option BatchReject → BatchResult
  counted r none = record r { accepted = suc r.accepted }
  counted r (some x) = record r { rejected = r.rejected ++ x ∷ [] }

  -- the loop of Ingest
  unfoldable pub accept_all :
      Str → List (BatchEntry × Step) → Site → BatchResult → Site × BatchResult
  unfolding accept_entry
  accept_all receipt [] s r = (s, r)
  accept_all receipt ((e, p) ∷ rest) s r =
      let (s', x) = accept_entry p receipt e s in accept_all receipt rest s' (counted r x)

  abbrev pub status_of : List BatchReject → TicketStatus
  status_of [] = Ticket.accepted
  status_of (r ∷ rs) = partial

  -- the receipt; its failure is only logged
  unfoldable pub open_receipt : Io → Str → TicketStatus → Site → Site
  open_receipt io id status s =
      if w.has_tickets && (if io.open_fails then false else true)
      then record s {
        intake = record s.intake { tickets = open_batch io.now s.intake.tickets id status };
      }
      else s

  abbrev pub finish : Io → Site × BatchResult → Site × Done BatchResult
  finish io (s, r) =
      let sorted = sort_rejects r.rejected in
      (open_receipt io r.ticket (status_of sorted) s, ok (record r { rejected = sorted }))

  abbrev pub gated : Option ℕ → Site → Site × Done BatchResult → Site × Done BatchResult
  gated none s r = r
  gated (some wait) s r = (s, err (accept (backpressure wait)))

  -- Ingest
  unfoldable pub ingest :
      Io → List (BatchEntry × Step) → List BatchReject → Site → Site × Done BatchResult
  unfolding accept_all sort_rejects open_receipt
  ingest io entries prior s = gated io.refused s (
      finish io (
        accept_all io.new_id entries s
          (record { ticket = io.new_id; accepted = 0; rejected = prior })))
