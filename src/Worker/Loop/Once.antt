-- ===== src/Worker/Loop/Once.antt =====
-- How often an event is stored in a run of the loop of the durable worker.
use letopis.Prelude.{
  ℕ, ◌+◌, ◌∙◌, ◌≤◌, ◌≡◌, refl, sym, subst, Str, str_eq, str_eq→eq, true, false, Option, none, some,
  List, [], ◌∷◌, ◌++◌, if◌then◌else◌, Bool-cases, inl, inr, arith,
}
use letopis.Domain.Event.{Event}
use letopis.Plugin.Host.{Plugin}
use letopis.Service.Ingest
use letopis.Service.Ingest.{WriteError, has_event_id, is_empty}
use letopis.Service.Repeat.{Records}
use letopis.Queue.Shard.{Delivery}
use letopis.Worker.Process.{Task, World, Attempt, process, handle}
use letopis.Worker.Redelivery.{process-Records}
use letopis.Worker.Loop.{
  Database, Signal, received, ticked, cancelled, closed, same_database, task_database, Run,
  followed_by, handle_delivery, handle_each, reclaim, run_shard,
}

-- the number of events with an id
unfoldable pub count_events : Str → List Event → ℕ
count_events id [] = 0
count_events id (ev ∷ evs) = (if str_eq ev.event_id id then 1 else 0) + count_events id evs

count_events-append :
    (id : Str) (evs : List Event) (ev : Event)
    → count_events id (evs ++ ev ∷ [])
      ≡ count_events id evs + (if str_eq ev.event_id id then 1 else 0)
unfolding count_events
count_events-append id [] ev = omega arith
count_events-append id (x ∷ xs) ev = ground (arith, count_events-append id xs ev)

count_events-fresh :
    (id : Str) (evs : List Event) → has_event_id id evs ≡ false → count_events id evs ≡ 0
unfolding count_events has_event_id
count_events-fresh id [] h = refl
count_events-fresh id (x ∷ xs) h = ground (arith, h, count_events-fresh id xs)

-- A store in which an event with the id is at most once is followed by one that has it as often, or
-- once.
IsOnce : Str → Ingest.Store → Ingest.Store → Type 0
IsOnce id st u =
    count_events id st.events ≤ 1
    → (count_events id st.events ≤ count_events id u.events) × (count_events id u.events ≤ 1)

IsOnce-refl : (id : Str) (st : Ingest.Store) → IsOnce id st st
unfolding IsOnce
IsOnce-refl id st h = (omega arith, h)

IsOnce-trans : (id : Str) (a b c : Ingest.Store) → IsOnce id a b → IsOnce id b c → IsOnce id a c
unfolding IsOnce
IsOnce-trans id a b c f g h =
    let (grown, once) = f h in let (more, last) = g once in (omega (arith, grown, more), last)

Records-IsOnce :
    (id other : Str) (st u : Ingest.Store)
    → is_empty id ≡ false
    → Records other st u
    → IsOnce id st u
unfolding IsOnce
Records-IsOnce id other st u named (inl same) h = rw same (omega arith, h)
Records-IsOnce id other st u named (inr (fresh, (ev, own, grown))) h =
    elim (Bool-cases (str_eq ev.event_id id)) [
      | inl here ↦
          let same : other ≡ id = sym own ∙ str_eq→eq ev.event_id id here in
          let none_yet =
            count_events-fresh id st.events (
              subst (λ x. is_empty x ≡ false → has_event_id x st.events ≡ false) same fresh
                named) in
          rw grown (
            rw (count_events-append id st.events ev)
              (rw here (omega arith, omega (arith, none_yet))))
      | inr away ↦
          rw grown
            (rw (count_events-append id st.events ev) (rw away (omega arith, omega (arith, h))))
    ]

same_database→eq : (a b : Database) → same_database a b ≡ true → a ≡ b
unfolding same_database
same_database→eq a b h =
    let uri : str_eq a.uri b.uri ≡ true = ground (arith, h) in
    let name : str_eq a.name b.name ≡ true = ground (arith, h) in
    λ i. record { uri = str_eq→eq a.uri b.uri uri i; name = str_eq→eq a.name b.name name i }

module _ (decode : Str → Option Task) (error_text : WriteError → Str) (format_float : ℕ → Str)
    (plugins : List Plugin) (id : Str) (named : is_empty id ≡ false) where
  handle-IsOnce :
      (a : Attempt) (d : Delivery) (w : World) (c : Str) (o : Option Task)
      → decode d.message.payload ≡ o
      → IsOnce id
          (w.collections c)
          ((handle decode error_text format_float plugins a w d).0.collections c)
  unfolding handle process
  handle-IsOnce a d w c none e = rw e (IsOnce-refl id (w.collections c))
  handle-IsOnce a d w c (some task) e =
      Records-IsOnce id task.command.event_id (w.collections c) _ named
        (process-Records decode error_text format_float plugins a w d task e c)

  -- every collection of every database
  AllOnce : (before after : Database → World) → Type 0
  AllOnce before after =
      (t : Database) (c : Str) → IsOnce id ((before t).collections c) ((after t).collections c)

  AllOnce-refl : (x : Database → World) → AllOnce x x
  unfolding AllOnce
  AllOnce-refl x t c = IsOnce-refl id ((x t).collections c)

  AllOnce-trans : (x y z : Database → World) → AllOnce x y → AllOnce y z → AllOnce x z
  unfolding AllOnce
  AllOnce-trans x y z f g t c =
      IsOnce-trans id ((x t).collections c) ((y t).collections c) ((z t).collections c) (f t c)
        (g t c)

  followed_by-AllOnce :
      (worlds : Database → World) (r : Run) (next : (Database → World) → Run)
      → AllOnce worlds r.0
      → ((x : Database → World) → AllOnce x (next x).0)
      → AllOnce worlds (followed_by r next).0
  followed_by-AllOnce worlds r next f g = AllOnce-trans worlds r.0 (next r.0).0 f (g r.0)

  handle_delivery-AllOnce :
      (a : Attempt) (d : Delivery) (worlds : Database → World)
      → AllOnce worlds (handle_delivery decode error_text format_float plugins a d worlds).0
  unfolding AllOnce handle_delivery
  handle_delivery-AllOnce a d worlds t c =
      let ref = task_database (decode d.message.payload) in
      elim (Bool-cases (same_database t ref)) [
        | inl here ↦ rw here (
            rw (same_database→eq t ref here)
              (handle-IsOnce a d (worlds ref) c (decode d.message.payload) refl))
        | inr away ↦ rw away (IsOnce-refl id ((worlds t).collections c))
      ]

  handle_each-AllOnce :
      (ds : List (Attempt × Delivery)) (worlds : Database → World)
      → AllOnce worlds (handle_each decode error_text format_float plugins ds worlds).0
  unfolding AllOnce handle_each
  handle_each-AllOnce [] worlds = AllOnce-refl worlds
  handle_each-AllOnce ((a, d) ∷ ds) worlds =
      followed_by-AllOnce worlds (handle_delivery decode error_text format_float plugins a d worlds)
        (handle_each decode error_text format_float plugins ds) (handle_delivery-AllOnce a d worlds)
        (handle_each-AllOnce ds)

  run_shard-AllOnce :
      (signals : List Signal) (worlds : Database → World)
      → AllOnce worlds (run_shard decode error_text format_float plugins signals worlds).0
  unfolding AllOnce run_shard reclaim
  run_shard-AllOnce [] worlds = AllOnce-refl worlds
  run_shard-AllOnce (received a d ∷ signals) worlds =
      followed_by-AllOnce worlds (handle_delivery decode error_text format_float plugins a d worlds)
        (run_shard decode error_text format_float plugins signals)
        (handle_delivery-AllOnce a d worlds) (run_shard-AllOnce signals)
  run_shard-AllOnce (ticked none ∷ signals) worlds = run_shard-AllOnce signals worlds
  run_shard-AllOnce (ticked (some ds) ∷ signals) worlds =
      followed_by-AllOnce worlds (handle_each decode error_text format_float plugins ds worlds)
        (run_shard decode error_text format_float plugins signals) (handle_each-AllOnce ds worlds)
        (run_shard-AllOnce signals)
  run_shard-AllOnce (cancelled ∷ signals) worlds = AllOnce-refl worlds
  run_shard-AllOnce (closed ∷ signals) worlds = AllOnce-refl worlds

  -- Whatever deliveries come and come again in a run of the loop, in whichever order they are received
  -- and reclaimed, and whichever calls fail: a collection of a database that has at most one event
  -- with an id before has at most one after, and at least as many as before. The event id is
  -- not empty.
  pub run_shard-count_events :
      (signals : List Signal) (worlds : Database → World) (t : Database) (c : Str)
      → count_events id ((worlds t).collections c).events ≤ 1
      → let after = (run_shard decode error_text format_float plugins signals worlds).0 in
        (count_events id ((worlds t).collections c).events
          ≤ count_events id ((after t).collections c).events)
        × (count_events id ((after t).collections c).events ≤ 1)
  unfolding AllOnce IsOnce
  run_shard-count_events signals worlds t c h = run_shard-AllOnce signals worlds t c h
