-- ===== src/Worker/Loop.antt =====
-- internal/worker/worker.go: runShard and reclaim, the loop of one shard of the durable queue over the
-- data of all tenants. What the queue gives back for a reclaim is part of a run, and so is what the
-- calls of each attempt meet. An acknowledgement only logs its error.
pub mod Once
use letopis.Prelude.{
  ℕ, Str, str_eq, Bool, Option, none, some, List, [], ◌∷◌, ◌++◌, ◌&&◌, if◌then◌else◌,
}
use letopis.Tenant.Access.{database_name}
use letopis.Plugin.Host.{Plugin}
use letopis.Service.Ingest.{WriteError}
use letopis.Queue.Shard.{Delivery}
use letopis.Worker.Process.{Task, World, Attempt, handle}

-- What the select of runShard takes; a tick comes with the result of Reclaim, none when it fails.
pub data Signal : Type 0 where
  received : Attempt → Delivery → Signal
  ticked : Option (List (Attempt × Delivery)) → Signal
  cancelled closed : Signal

-- Where the data of a tenant is. Two tenants may share a database.
pub record Database : Type 0 where
  pub uri : Str
  pub name : Str

unfoldable pub same_database : Database → Database → Bool
same_database a b = str_eq a.uri b.uri && str_eq a.name b.name

-- taskPrincipal: the database that the context of a task names; a malformed payload has none
unfoldable pub task_database : Option Task → Database
unfolding database_name
task_database none = record { uri = []; name = [] }
task_database (some task) =
    let ref = task.tenant in
    record {
      uri = ref.db_uri;
      name = database_name (record { id = ref.id; db_uri = ref.db_uri; db_name = ref.db_name });
    }

-- the data of all tenants, and the deliveries that are acknowledged
abbrev pub Run : Type 0
Run = (Database → World) × List Delivery

abbrev pub followed_by : Run → ((Database → World) → Run) → Run
followed_by (worlds, acked) next = let (worlds', more) = next worlds in (worlds', acked ++ more)

module _ (decode : Str → Option Task) (error_text : WriteError → Str) (format_float : ℕ → Str)
    (plugins : List Plugin) where
  -- handle, on the data of the tenant of the delivery
  unfoldable pub handle_delivery : Attempt → Delivery → (Database → World) → Run
  unfolding handle same_database task_database
  handle_delivery a d worlds =
      let ref = task_database (decode d.message.payload) in
      let (w, acks) = handle decode error_text format_float plugins a (worlds ref) d in
      (λ r. if same_database r ref then w else worlds r, if acks then d ∷ [] else [])

  -- the loop of reclaim
  unfoldable pub handle_each : List (Attempt × Delivery) → (Database → World) → Run
  unfolding handle_delivery
  handle_each [] worlds = (worlds, [])
  handle_each ((a, d) ∷ ds) worlds = followed_by (handle_delivery a d worlds) (handle_each ds)

  unfoldable pub reclaim : Option (List (Attempt × Delivery)) → (Database → World) → Run
  unfolding handle_each
  reclaim none worlds = (worlds, [])
  reclaim (some ds) worlds = handle_each ds worlds

  unfoldable pub run_shard : List Signal → (Database → World) → Run
  unfolding handle_delivery reclaim
  run_shard [] worlds = (worlds, [])
  run_shard (received a d ∷ signals) worlds =
      followed_by (handle_delivery a d worlds) (run_shard signals)
  run_shard (ticked r ∷ signals) worlds = followed_by (reclaim r worlds) (run_shard signals)
  run_shard (cancelled ∷ signals) worlds = (worlds, [])
  run_shard (closed ∷ signals) worlds = (worlds, [])
