-- ===== src/Worker/Settled.antt =====
-- The ticket of a task tells what became of its delivery.
use letopis.Prelude.{
  All, ℕ, ◌≡◌, ◌⊎◌, refl, Str, str_eq_refl, true, false, Option, none, some, List, [], ◌∷◌,
  Bool-cases, inl, inr, arith,
}
use letopis.Domain.Ticket
use letopis.Domain.Ticket.{
  TicketStatus, accepted, processing, stored, failed, Ticket, no_fault, refuses, advance, mark,
  mark_found, save,
}
use letopis.Plugin.Host.{Plugin}
use letopis.Service.Ingest
use letopis.Service.Ingest.{WriteError, Outcome, done}
use letopis.Queue.Shard.{Delivery}
use letopis.Worker.Process.{
  Task, World, Attempt, Verdict, applied, poison, retryable, malformed, mark_ticket, is_permanent,
  dispatch, conclude, process, attempts, settled_by,
}

-- A ticket that is not settled.
abbrev pub IsLive : Ticket → Type 0
IsLive t = (t.status ≡ accepted) ⊎ (t.status ≡ processing)

abbrev pub IsToldBy : (WriteError → Str) → Option Verdict → Ticket → Type 0
IsToldBy error_text none t = IsLive t
IsToldBy error_text (some applied) t = t.status ≡ stored
IsToldBy error_text (some (poison e)) t = (t.status ≡ failed) × (t.error ≡ error_text e)
IsToldBy error_text (some (retryable e)) t = IsLive t
IsToldBy error_text (some malformed) t = Unit {0}

-- A store has a ticket under the id of a task.
abbrev pub Has : (Ticket → Type 0) → Str → Ticket.Store → Type 0
Has P id s = (t : Ticket) × (s id ≡ some t) × (t.id ≡ id) × P t

module _ (now : ℕ) (s : Ticket.Store) (t : Ticket) (reason : Str) where
  advance-allowed :
      (id : Str) (status : TicketStatus)
      → t.id ≡ id
      → refuses t status ≡ false
      → (advance now no_fault s t status reason).0 id
        ≡ some (record t { status = status; error = reason; updated_at = now })
  advance-allowed id status own free = rw free (rw own (rw (str_eq_refl id) refl))

  refuses-processing : t.status ≡ processing → refuses t processing ≡ true
  refuses-processing p = ground (arith, p)

  live-accepts :
      (status : TicketStatus)
      → IsLive t
      → (status ≡ stored) ⊎ (status ≡ failed)
      → refuses t status ≡ false
  unfolding Ticket.can_transition
  live-accepts status l k = ground arith

  accepted-processing : t.status ≡ accepted → refuses t processing ≡ false
  unfolding Ticket.can_transition
  accepted-processing p = ground (arith, p)

  module _ (c : ℕ) (cs : Str) (there : s (c ∷ cs) ≡ some t) (own : t.id ≡ c ∷ cs)
      (live : IsLive t) where
    pub mark-settles :
        (status : TicketStatus)
        → (status ≡ stored) ⊎ (status ≡ failed)
        → (mark now no_fault s (c ∷ cs) status reason).0 (c ∷ cs)
          ≡ some (record t { status = status; error = reason; updated_at = now })
    unfolding mark
    mark-settles status k =
        rw there (advance-allowed (c ∷ cs) status own (live-accepts status live k))

    mark-processing : Has IsLive (c ∷ cs) (mark now no_fault s (c ∷ cs) processing reason).0
    unfolding mark
    mark-processing = elim live [
      | inl p ↦ (
        record t { status = processing; error = reason; updated_at = now },
        rw there (advance-allowed (c ∷ cs) processing own (accepted-processing p)),
        own,
        inr refl,
      )
      | inr p ↦ (t, rw there (rw (refuses-processing p) there), own, inr p)
    ]

module _ (decode : Str → Option Task) (error_text : WriteError → Str) (format_float : ℕ → Str)
    (plugins : List Plugin) where
  dispatch-tickets :
      (a : Attempt) (w : World) (task : Task)
      → (dispatch decode error_text format_float plugins a w task).0.tickets ≡ w.tickets
  unfolding dispatch
  dispatch-tickets a w task = ground arith

  abbrev IsToldIn : Str → World × Option Verdict → Type 0
  IsToldIn id r = Has (IsToldBy error_text r.1) id r.0.tickets

  module _ (task : Task) (c : ℕ) (cs : Str) (named : task.ticket_id ≡ c ∷ cs) (a : Attempt)
      (works : a.last_mark ≡ no_fault) where
    conclude-told :
        (w : World) (out : Outcome)
        → Has IsLive (c ∷ cs) w.tickets
        → let r = conclude decode error_text format_float plugins a task (w, out) in
          IsToldIn (c ∷ cs) (r.0, some r.1)
    unfolding conclude mark_ticket
    conclude-told w (done r) (t, there, own, live) = (
      record t { status = stored; error = []; updated_at = a.now },
      rw named (rw works (mark-settles a.now w.tickets t [] c cs there own live stored (inl refl))),
      own,
      refl,
    )
    conclude-told w (Ingest.failed e) (t, there, own, live) = elim (Bool-cases (is_permanent e)) [
      | inr passing ↦ rw passing (t, there, own, live)
      | inl permanent ↦ rw permanent (
        record t { status = failed; error = error_text e; updated_at = a.now },
        rw named (
            rw works (
              mark-settles a.now w.tickets t (error_text e) c cs there own live failed (inr refl))),
        own,
        (refl, refl),
      )
    ]

  module _ (d : Delivery) (task : Task) (c : ℕ) (cs : Str)
      (decoded : decode d.message.payload ≡ some task) (named : task.ticket_id ≡ c ∷ cs) where
    process-told :
        (a : Attempt) (w : World)
        → a.first_mark ≡ no_fault
        → a.last_mark ≡ no_fault
        → Has IsLive (c ∷ cs) w.tickets
        → let r = process decode error_text format_float plugins a w d in
          IsToldIn (c ∷ cs) (r.0, some r.1)
    unfolding process mark_ticket
    process-told a w first last (t, there, own, live) =
        let marked = mark_ticket a.now a.first_mark w task.ticket_id processing [] in
        let out = dispatch decode error_text format_float plugins a marked task in
        rw decoded (
          conclude-told task c cs named a last out.0 out.1 (
            rw (dispatch-tickets a marked task)
              (rw named (rw first (mark-processing a.now w.tickets t [] c cs there own live)))))

    settled-told :
        (r : World × Verdict) (k : World → World × Option Verdict)
        → IsToldIn (c ∷ cs) (r.0, some r.1)
        → ((w : World) → Has IsLive (c ∷ cs) w.tickets → IsToldIn (c ∷ cs) (k w))
        → IsToldIn (c ∷ cs) (settled_by decode error_text format_float plugins r k)
    settled-told (w, applied) k h later = h
    settled-told (w, poison e) k h later = h
    settled-told (w, malformed) k h later = h
    settled-told (w, retryable e) k h later = later w h

    -- A delivery is attempted until it is acknowledged, and its ticket is live at the start. Then
    -- the ticket ends as stored if the write was applied, as failed with the text of the error if
    -- the delivery was dropped as poison, and it is live as long as no attempt was acknowledged.
    -- It is asked that the task has a ticket and that the calls of the ticket store succeed.
    pub attempts-IsToldBy :
        (tries : List Attempt) (w : World)
        → All (λ (a : Attempt). (a.first_mark ≡ no_fault) × (a.last_mark ≡ no_fault)) tries
        → Has IsLive (c ∷ cs) w.tickets
        → let r = attempts decode error_text format_float plugins w d tries in
          Has (IsToldBy error_text r.1) (c ∷ cs) r.0.tickets
    attempts-IsToldBy [] w fine h = h
    attempts-IsToldBy (a ∷ tries) w fine h =
        settled-told (process decode error_text format_float plugins a w d)
          (λ w'. attempts decode error_text format_float plugins w' d tries)
          (process-told a w fine.0.0 fine.0.1 h) (λ w' live. attempts-IsToldBy tries w' fine.1 live)
