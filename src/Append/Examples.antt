-- ===== src/Append/Examples.antt =====
-- Writers of one entity, and what is proved of them at concrete runs.
use letopis.Prelude.{
  ℕ, ◌+◌, ◌≡◌, ◌≤◌, refl, str_eq, codes, false, none, length, List, zero, suc, Bool, true, [], ◌∷◌,
  ◌++◌,
}
use letopis.Json.{end}
use letopis.Domain.Event.{EntityOp, Event}
use letopis.Service.Ingest.{history, last_event, stamp, is_duplicate}
use letopis.Service.History.Synced.{IsNumbered}
use letopis.Append.Writers.{
  Place, idle, duplicate, failed, inserted, repeated, start, tailed, appended, conflict, System,
  last_version, versioned, moved, call, read_tail, clash, insert, give_up, Reach, here, next,
  max_append_retries, has_version,
}
use letopis.Append.Versions.{count}
use letopis.Append.Progress.{initial, Reach-IsNumbered, conflict-count}
use letopis.Append.Alone.{alone-stamp}

abbrev event : Event
event = record {
  entity_id = codes "a";
  version = 0;
  op = EntityOp.update;
  author = [];
  source = [];
  ts_source = 0;
  ts_received = 1;
  ts_stored = 0;
  event_id = [];
  request_id = [];
  changes = [];
  meta = end;
  flow = none;
  integrity = none;
}

-- the insert of a writer, decided by the indexes
try_insert :
    (s : System) (i : ℕ) (ev : Event) (left v : ℕ)
    → s.writer i ≡ tailed ev left v
    → (taken : Bool) → has_version ev.entity_id (suc v) s.events ≡ taken
    → (known : Bool) → is_duplicate ev.event_id s.events ≡ known
    → (t : System) × Reach s t
try_insert s i ev left v at true c k e =
    (moved s i (start (versioned 9 v ev) left), next here (clash i 9 ev left v at c))
try_insert s i ev left v at false c true e =
    (moved s i duplicate, next here (repeated i ev left v at e))
try_insert s i ev left v at false c false e =
    (inserted s i (versioned 9 v ev), next here (insert i 9 ev left v at c e))

-- The next step of a writer, with its derivation.
take_step : (s : System) (i : ℕ) (p : Place) → s.writer i ≡ p → (t : System) × Reach s t
take_step s i idle at = (moved s i (start event max_append_retries), next here (call i event at))
take_step s i (start ev zero) at = (moved s i conflict, next here (give_up i ev at))
take_step s i (start ev (suc left)) at = (
  moved s i (tailed ev left (last_version ev.entity_id s.events)),
  next here (read_tail i ev left at),
)
take_step s i (tailed ev left v) at =
    try_insert s i ev left v at (has_version ev.entity_id (suc v) s.events) refl
      (is_duplicate ev.event_id s.events) refl
take_step s i (appended ev) at = (s, here)
take_step s i duplicate at = (s, here)
take_step s i conflict at = (s, here)
take_step s i failed at = (s, here)

Reach-Reach : {s t u : System} → Reach s t → Reach t u → Reach s u
Reach-Reach a here = a
Reach-Reach a (next r st) = next (Reach-Reach a r) st

-- the writers, each with its next step, in the given order
run : (s : System) → List ℕ → (t : System) × Reach s t
unfolding take_step Reach-Reach try_insert
run s [] = (s, here)
run s (i ∷ rest) =
    let (t, first) = take_step s i (s.writer i) refl in
    let (u, others) = run t rest in (u, Reach-Reach first others)

-- Both writers read the tail; the second one loses the race and goes round again.
abbrev race : List ℕ
race = 0 ∷ 1 ∷ 0 ∷ 1 ∷ 0 ∷ 1 ∷ 1 ∷ 1 ∷ []

race_runs : length ((run initial race).0.events) ≡ 2
unfolding run str_eq last_event history has_version last_version
race_runs = refl

Reach-IsNumbered_example : IsNumbered 0 (history (codes "a") (run initial race).0.events)
Reach-IsNumbered_example = Reach-IsNumbered (run initial race).0 (run initial race).1 (codes "a")

-- Writer 0 is overtaken by another writer in each of its rounds.
abbrev overtaken : ℕ → List ℕ
overtaken zero = 0 ∷ []
overtaken (suc k) = 0 ∷ suc k ∷ suc k ∷ suc k ∷ 0 ∷ overtaken k

abbrev begun : System
begun = moved initial 0 (start event max_append_retries)

loses : ((run begun (overtaken 16)).0).writer 0 ≡ conflict
unfolding run str_eq last_event history has_version last_version
loses = refl

conflict-count_example :
    count (codes "a") begun.events + max_append_retries
    ≤ count (codes "a") (run begun (overtaken 16)).0.events
conflict-count_example =
    conflict-count {s = begun} {t = (run begun (overtaken 16)).0} 0 event
      (next here (call 0 event refl)) refl (run begun (overtaken 16)).1 loses

abbrev halfway : System
halfway = moved begun 0 (tailed event 15 0)

abbrev over : System
over = inserted halfway 0 (versioned 9 0 event)

alone-stamp_example :
    (now : ℕ) × (over.events ≡ begun.events ++ stamp now begun.events event ∷ [])
    × (over.writer 0 ≡ appended (stamp now begun.events event))
unfolding last_version last_event history has_version
alone-stamp_example =
    alone-stamp {s = begun} {mid = halfway} {t = over} 0 15 event (next here (call 0 event refl))
      refl refl (read_tail 0 event 15 refl) (insert 0 9 event 15 0 refl refl refl) refl refl
