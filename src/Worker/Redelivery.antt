-- ===== src/Worker/Redelivery.antt =====
-- A delivery that the worker handles more than once changes the stores at most once.
use letopis.Prelude.{
  ℕ, ◌≡◌, ◌⊎◌, refl, sym, ap, Str, str_eq, str_eq→eq, true, false, Option, none, some, List, [],
  ◌∷◌, Bool-cases, inl, inr, arith,
}
use letopis.Domain.Ticket.{processing}
use letopis.Plugin.Host.{Plugin}
use letopis.Service.Ingest
use letopis.Service.Ingest.{Store, WriteError, Outcome, done, has_event_id, is_empty, apply_one}
use letopis.Service.Repeat.{Records, apply_one-Records, has_event_id-append}
use letopis.Service.Dedup.{has_event_id-last}
use letopis.Queue.Shard.{Delivery}
use letopis.Worker.Process.{
  Task, World, Attempt, mark_ticket, has_entry_point, is_permanent, dispatch, conclude, process,
  handle,
}

-- The event with an id is stored already.
Stored : Str → Store → Type 0
Stored id st = has_event_id id st.events ≡ true

Records-Stored : (id other : Str) (st u : Store) → Records other st u → Stored id st → Stored id u
unfolding Stored
Records-Stored id other st u (inl same) h = rw same h
Records-Stored id other st u (inr (fresh, (ev, own, grown))) h =
    rw grown (has_event_id-append id st.events ev h)

Records-unchanged :
    (id : Str) (st u : Store) → Records id st u → is_empty id ≡ false → Stored id st → u ≡ st
unfolding Stored
Records-unchanged id st u (inl same) named h = same
Records-unchanged id st u (inr (fresh, (ev, own, grown))) named h =
    absurd (ground (arith, fresh named))

module _ (decode : Str → Option Task) (error_text : WriteError → Str) (format_float : ℕ → Str)
    (plugins : List Plugin) where
  conclude-collections :
      (a : Attempt) (task : Task) (w : World) (out : Outcome)
      → (conclude decode error_text format_float plugins a task (w, out)).0.collections
        ≡ w.collections
  unfolding conclude mark_ticket
  conclude-collections a task w (done r) = refl
  conclude-collections a task w (Ingest.failed e) = elim (Bool-cases (is_permanent e)) [
    | inl p ↦ rw p refl
    | inr p ↦ rw p refl
  ]

  -- What one handled task does to a collection.
  dispatch-Records :
      (a : Attempt) (w : World) (task : Task) (c : Str)
      → Records task.command.event_id
          (w.collections c)
          ((dispatch decode error_text format_float plugins a w task).0.collections c)
  unfolding dispatch
  dispatch-Records a w task c = elim (Bool-cases (has_entry_point task.kind)) [
    | inr unknown ↦ rw unknown (inl refl)
    | inl known ↦ elim (Bool-cases (str_eq c task.command.collection)) [
      | inr other ↦ rw known (rw other (inl refl))
      | inl own ↦
          let here = str_eq→eq c task.command.collection own in
          rw known (
            rw own (
              rw here (
                apply_one-Records format_float plugins a.now a.faults
                  (a.config task.command.collection) task.kind task.command
                  (w.collections task.command.collection))))
    ]
  ]

  pub process-Records :
      (a : Attempt) (w : World) (d : Delivery) (task : Task)
      → decode d.message.payload ≡ some task
      → (c : Str)
      → Records task.command.event_id
          (w.collections c)
          ((handle decode error_text format_float plugins a w d).0.collections c)
  unfolding handle process mark_ticket
  process-Records a w d task e c =
      let marked = mark_ticket a.now a.first_mark w task.ticket_id processing [] in
      let r = dispatch decode error_text format_float plugins a marked task in
      rw e (
        rw (ap (λ f. f c) (conclude-collections a task r.0 r.1)) (dispatch-Records a marked task c))

  handle-Stored :
      (a : Attempt) (w : World) (d : Delivery) (c id : Str) (o : Option Task)
      → decode d.message.payload ≡ o
      → Stored id (w.collections c)
      → Stored id ((handle decode error_text format_float plugins a w d).0.collections c)
  unfolding handle process
  handle-Stored a w d c id none e h = rw e h
  handle-Stored a w d c id (some task) e h =
      Records-Stored id task.command.event_id _ _ (process-Records a w d task e c) h

  -- Deliveries that are handled one after the other, each with its attempt.
  abbrev pub handle_all : World → List (Attempt × Delivery) → World
  handle_all w [] = w
  handle_all w ((a, d) ∷ rest) =
      handle_all (handle decode error_text format_float plugins a w d).0 rest

  handle_all-Stored :
      (later : List (Attempt × Delivery)) (w : World) (c id : Str)
      → Stored id (w.collections c)
      → Stored id ((handle_all w later).collections c)
  handle_all-Stored [] w c id h = h
  handle_all-Stored ((a, d) ∷ rest) w c id h =
      handle_all-Stored rest (handle decode error_text format_float plugins a w d).0 c id
        (handle-Stored a w d c id (decode d.message.payload) refl h)

  -- Of two handlings of a delivery, with any handlings of any deliveries in between, at most one
  -- changes a given collection, however their calls fail. The delivery decodes to a task whose
  -- command has an event id.
  pub handle-handle :
      (a again : Attempt) (w : World) (d : Delivery) (task : Task)
      (later : List (Attempt × Delivery)) (c : Str)
      → decode d.message.payload ≡ some task
      → is_empty task.command.event_id ≡ false
      → let w1 = (handle decode error_text format_float plugins a w d).0 in
        let w2 = handle_all w1 later in
        (w1.collections c ≡ w.collections c)
        ⊎ ((handle decode error_text format_float plugins again w2 d).0.collections c
            ≡ w2.collections c)
  unfolding Stored
  handle-handle a again w d task later c e named =
      let w1 = (handle decode error_text format_float plugins a w d).0 in
      let w2 = handle_all w1 later in
      elim (process-Records a w d task e c) [
        | inl same ↦ inl same
        | inr (fresh, (ev, own, grown)) ↦
            let there : Stored task.command.event_id (w1.collections c) =
              rw grown (rw (sym own) (has_event_id-last (w.collections c).events ev)) in
            inr (
              Records-unchanged task.command.event_id (w2.collections c) _
                (process-Records again w2 d task e c) named
                (handle_all-Stored later w1 c task.command.event_id there))
      ]
