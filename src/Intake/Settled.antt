-- ===== src/Intake/Settled.antt =====
-- A write that is accepted into a queue is settled by the worker under the ticket of the answer.
use letopis.Prelude.{
  All, ℕ, ◌≡◌, refl, sym, ap, ◌∙◌, subst, Str, str_eq_refl, true, false, ◌&&◌, Option, none, some,
  List, [], ◌∷◌, Bool-cases, inl, inr, arith,
}
use letopis.Domain.Collection.{ReliabilityMode}
use letopis.Domain.Ticket
use letopis.Domain.Ticket.{Ticket, open_ticket, no_fault, accepted}
use letopis.Plugin.Host.{Plugin}
use letopis.Tenant.Access.{Tenant, database_name}
use letopis.Service.Command.{Kind, IngestCommand, IngestResult}
use letopis.Service.Ingest
use letopis.Service.Ingest.{WriteError}
use letopis.Queue.Shard.{Message, Delivery}
use letopis.Worker.Process.{Task, Attempt, attempts}
use letopis.Worker.Settled.{IsLive, IsToldBy, Has, attempts-IsToldBy}
use letopis.Intake.Reserve.{Keys, Reservation, reserved, held, unavailable, reserve, redis_key}
use letopis.Intake.Accept
use letopis.Intake.Accept.{
  Wiring, Intake, Io, Accepted, AcceptError, ok, err, idemp_key, task_of, message_of, is_fast,
  append_to, enqueue, open_and_publish, publish, publish_encoded, settle, after_reserve,
  enqueue_keyed, unless_refused, free_key,
}

module _ (encode : Task → Option Str) (w : Wiring) (t : Tenant) (io : Io) (kind : Kind)
    (mode : ReliabilityMode) (cmd : IngestCommand) where
  abbrev task : Task
  task = task_of t kind mode io.new_id cmd

  -- The message with an encoded task is the newest one of the durable queue unless the mode and the
  -- wiring lead to the fast one, and the ticket is opened.
  pub record IsShipped (s u : Intake) (payload : Str) : Type 0 where
    pub encoded : encode task ≡ some payload
    pub queued :
        (is_fast mode && w.has_fast) ≡ false
        → u.durable ≡ message_of io.now task payload ∷ s.durable
    pub opened : u.tickets ≡ open_ticket io.now s.tickets io.new_id cmd.collection cmd.entity_id

  Shipped : Intake → Intake → Type 0
  Shipped s u = (payload : Str) × IsShipped s u payload

  encoded-Shipped :
      (s : Intake) (o : Option Str)
      → encode task ≡ o
      → let opened = record s {
        tickets = open_ticket io.now s.tickets io.new_id cmd.collection cmd.entity_id;
      } in
        let x = publish_encoded encode w t io mode task opened o in x.1 ≡ none → Shipped s x.0
  unfolding Shipped
  encoded-Shipped s none e h = absurd (ground arith)
  encoded-Shipped s (some payload) e h = elim (Bool-cases io.publish_fails) [
    | inl lost ↦ absurd (ground (arith, lost))
    | inr fine ↦ elim (Bool-cases (is_fast mode && w.has_fast)) [
      | inl quick ↦ rw fine (
          rw quick (
            payload,
            record {
              encoded = e;
              queued = λ slow. absurd (ground (arith, quick, slow));
              opened = refl;
            },
          ))
      | inr slow ↦
          rw fine (rw slow (payload, record { encoded = e; queued = λ h. refl; opened = refl }))
    ]
  ]

  opened-Shipped :
      (s : Intake)
      → w.has_tickets ≡ true
      → (open_and_publish encode w t io kind mode cmd s).1 ≡ none
      → Shipped s (open_and_publish encode w t io kind mode cmd s).0
  unfolding open_and_publish publish
  opened-Shipped s on h = elim (Bool-cases io.open_fails) [
    | inl lost ↦ absurd (ground (arith, on, lost))
    | inr fine ↦
        let opened = record s {
          tickets = open_ticket io.now s.tickets io.new_id cmd.collection cmd.entity_id;
        } in
        let x = publish_encoded encode w t io mode task opened (encode task) in
        let shut : open_and_publish encode w t io kind mode cmd s ≡ x = ground (arith, on, fine) in
        subst (λ y. Shipped s y.0) (sym shut)
          (encoded-Shipped s (encode task) refl (sym (ap (λ y. y.1) shut) ∙ h))
  ]

  settled-Shipped :
      (s : Intake) (undo : Intake → Intake) (x : Intake × Option AcceptError) (res : IngestResult)
      → (x.1 ≡ none → Shipped s x.0)
      → (settle encode w t cmd io.new_id undo x).1 ≡ ok res
      → Shipped s (settle encode w t cmd io.new_id undo x).0
  settled-Shipped s undo (u, none) res h e = h refl
  settled-Shipped s undo (u, some q) res h e = absurd (ground arith)

  -- Only tickets, messages and the result matter here, not the keys.
  rekeyed-Shipped :
      (s u : Intake) (keys : Keys) → Shipped (record s { keys = keys }) u → Shipped s u
  unfolding Shipped
  rekeyed-Shipped s u keys (payload, h) =
      (payload, record { encoded = h.encoded; queued = h.queued; opened = h.opened })

  reserve-Shipped :
      (s : Intake) (k : Str) (x : Keys × Reservation) (res : IngestResult)
      → w.has_tickets ≡ true
      → (after_reserve encode w t io kind mode cmd k s x).1 ≡ ok res
      → res.deduplicated ≡ false
      → Shipped s (after_reserve encode w t io kind mode cmd k s x).0
  reserve-Shipped s k (keys, reserved) res on h new = rekeyed-Shipped s _ keys (
      settled-Shipped (record s { keys = keys }) (free_key encode w t io k)
        (open_and_publish encode w t io kind mode cmd (record s { keys = keys })) res
        (opened-Shipped (record s { keys = keys }) on) h)
  reserve-Shipped s k (keys, unavailable) res on h new = rekeyed-Shipped s _ keys (
      settled-Shipped (record s { keys = keys }) (λ u. u)
        (open_and_publish encode w t io kind mode cmd (record s { keys = keys })) res
        (opened-Shipped (record s { keys = keys }) on) h)
  reserve-Shipped s k (keys, held r) res on h new =
      let same : Accept.accepted encode w t cmd r.ticket_id true ≡ res = cc h in
      absurd (ground (arith, ap (λ x. x.deduplicated) same))

  keyed-Shipped :
      (s : Intake) (o : Option Str) (res : IngestResult)
      → w.has_tickets ≡ true
      → (enqueue_keyed encode w t io kind mode cmd s o).1 ≡ ok res
      → res.deduplicated ≡ false
      → Shipped s (enqueue_keyed encode w t io kind mode cmd s o).0
  keyed-Shipped s none res on h new =
      settled-Shipped s (λ u. u) (open_and_publish encode w t io kind mode cmd s) res
        (opened-Shipped s on) h
  keyed-Shipped s (some logical) res on h new =
      reserve-Shipped s (redis_key (database_name t) logical)
        (reserve io.rounds s.keys (redis_key (database_name t) logical)
          (record { ticket_id = io.new_id; status_code = 202 }))
        res on h new

  refused-Shipped :
      (s : Intake) (o : Option ℕ) (x : Intake × Accepted IngestResult) (res : IngestResult)
      → (x.1 ≡ ok res → Shipped s x.0)
      → (unless_refused encode w t o s x).1 ≡ ok res
      → Shipped s (unless_refused encode w t o s x).0
  refused-Shipped s none x res h e = h e
  refused-Shipped s (some wait) x res h e = absurd (ground arith)

  enqueue-Shipped :
      (s : Intake) (res : IngestResult)
      → w.has_tickets ≡ true
      → (enqueue encode w t io kind mode cmd s).1 ≡ ok res
      → res.deduplicated ≡ false
      → Shipped s (enqueue encode w t io kind mode cmd s).0
  unfolding enqueue
  enqueue-Shipped s res on h new =
      refused-Shipped s io.refused _ res (λ e. keyed-Shipped s (idemp_key w cmd) res on e new) h

opened-Has :
    (now : ℕ) (s : Ticket.Store) (id collection entity : Str)
    → Has IsLive id (open_ticket now s id collection entity)
unfolding open_ticket
opened-Has now s id collection entity =
    let t : Ticket = record {
      id = id;
      status = accepted;
      entity_collection = collection;
      entity_id = entity;
      error = [];
      created_at = now;
      updated_at = now;
    } in
    (t, rw (str_eq_refl id) refl, refl, inl refl)

-- A write that is accepted into the durable queue, and is no repeat, is its newest message. When the
-- durable worker takes the message with the tickets as they were left, however many attempts it
-- makes: the ticket of the write ends as stored if the write was applied, as failed with the text
-- of the error if it was dropped as poison, and it is live as long as no attempt was acknowledged.
-- It is asked that the mode is not fast or the fast queue is not wired, that tickets are
-- configured and each Mark of each attempt succeeds, that the ticket's id is not empty, and
-- that the envelope of the task is decoded to this task.
pub enqueue-attempts :
    (encode : Task → Option Str) (decode : Str → Option Task) (error_text : WriteError → Str)
    (format_float : ℕ → Str) (plugins : List Plugin) (w : Wiring) (t : Tenant) (io : Io)
    (kind : Kind) (mode : ReliabilityMode) (cmd : IngestCommand) (s : Intake) (res : IngestResult)
    (c : ℕ) (cs : Str) (id shard deliveries : ℕ) (collections : Str → Ingest.Store)
    (tries : List Attempt)
    → ((payload : Str)
        → encode (task_of t kind mode io.new_id cmd) ≡ some payload
        → decode payload ≡ some (task_of t kind mode io.new_id cmd))
    → (is_fast mode && w.has_fast) ≡ false
    → w.has_tickets ≡ true
    → io.new_id ≡ c ∷ cs
    → (enqueue encode w t io kind mode cmd s).1 ≡ ok res
    → res.deduplicated ≡ false
    → All (λ (a : Attempt). (a.first_mark ≡ no_fault) × (a.last_mark ≡ no_fault)) tries
    → let u = (enqueue encode w t io kind mode cmd s).0 in
      (msg : Message) × (u.durable ≡ msg ∷ s.durable)
      × (let d : Delivery = record {
        message = msg;
        id = id;
        shard = shard;
        deliveries = deliveries;
      } in
          let r =
            attempts decode error_text format_float plugins
              (record { collections = collections; tickets = u.tickets })
              d
              tries in
          Has (IsToldBy error_text r.1) (c ∷ cs) r.0.tickets)
unfolding Shipped
enqueue-attempts encode decode error_text format_float plugins w t io kind mode cmd s res c cs id
      shard deliveries collections tries faithful slow on named taken new fine =
    let (payload, h) = enqueue-Shipped encode w t io kind mode cmd s res on taken new in
    let msg = message_of io.now (task_of t kind mode io.new_id cmd) payload in
    (
      msg,
      h.queued slow,
      attempts-IsToldBy decode error_text format_float plugins
          (record { message = msg; id = id; shard = shard; deliveries = deliveries })
          (task_of t kind mode io.new_id cmd) c cs (faithful payload h.encoded) named tries _ fine
          (subst (λ x. Has IsLive x (enqueue encode w t io kind mode cmd s).0.tickets) named
            (subst (Has IsLive io.new_id) (sym h.opened)
              (opened-Has io.now s.tickets io.new_id cmd.collection cmd.entity_id))),
    )
