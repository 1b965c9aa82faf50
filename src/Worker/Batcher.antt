-- ===== src/Worker/Batcher.antt =====
-- internal/worker/batch.go: the worker of the fast queue. runShard gathers deliveries, flush applies
-- them grouped by tenant. The data of a tenant is found by the text that tells the tenants of a flush
-- apart. An acknowledgement only logs its error. The ticket store is wired, as app.go does it.
mod Groups
mod Tickets
mod Outcome
mod Told
mod Buffer
mod Examples
use letopis.Prelude.{
  ℕ, suc, ◌==◌, leb, Str, str_eq, Bool, Option, none, some, List, [], ◌∷◌, ◌++◌, length,
  if◌then◌else◌,
}
use letopis.Prelude.Int.{ℤ, pos, negsuc}
use letopis.Domain.Collection.{CollectionConfig}
use letopis.Domain.Ticket
use letopis.Domain.Ticket.{stored, failed}
use letopis.Plugin.Host.{Plugin}
use letopis.Service.Ingest.{WriteError}
use letopis.Queue.Shard.{Delivery}
use letopis.Batch.Fold.{BatchItem, BatchFaults, assign}
use letopis.Batch.Flush.{ingest_batch}
use letopis.Worker.Process.{TenantRef, Task, World, mark_ticket}

abbrev pub default_batch_size : ℕ
default_batch_size = 500

-- withDefaults of the batch size
abbrev pub batch_size : ℤ → ℕ
batch_size (pos n) = if n == 0 then default_batch_size else n
batch_size (negsuc n) = default_batch_size

-- an item of a group, and its ticket
pub record Entry : Type 0 where
  pub item : BatchItem
  pub ticket : Str

pub record TenantGroup : Type 0 where
  pub key : Str
  pub entries : List Entry

abbrev pub tenant_key : TenantRef → Str
tenant_key ref = ref.id ++ (b'|' ∷ (ref.db_name ++ (b'|' ∷ ref.db_uri)))

abbrev pub entry_of : Task → Entry
entry_of task = record {
  item = record { kind = task.kind; command = task.command };
  ticket = task.ticket_id;
}

unfoldable pub add_entry : Str → Entry → List TenantGroup → List TenantGroup
add_entry k e [] = record { key = k; entries = e ∷ [] } ∷ []
add_entry k e (g ∷ gs) =
    let rest = add_entry k e gs in
    if str_eq g.key k then record g { entries = g.entries ++ e ∷ [] } ∷ gs else g ∷ rest

-- a malformed payload is skipped
abbrev pub add_decoded : Option Task → List TenantGroup → List TenantGroup
add_decoded none gs = gs
add_decoded (some task) gs = add_entry (tenant_key task.tenant) (entry_of task) gs

-- the items of a group under their indexes
unfoldable pub numbered_items : ℕ → List Entry → List (ℕ × BatchItem)
numbered_items i [] = []
numbered_items i (e ∷ es) = (i, e.item) ∷ numbered_items (suc i) es

-- errs[i]: the last assignment counts
unfoldable pub error_at : ℕ → List (ℕ × WriteError) → Option WriteError
error_at i [] = none
error_at i ((k, e) ∷ es) =
    let rest = error_at i es in
    elim rest [ none ↦ if k == i then some e else none | some last ↦ some last ]

module _ (error_text : WriteError → Str) (now : ℕ) (fault : Ticket.Fault) where
  -- settle
  abbrev pub settle : World → Str → Option WriteError → World
  settle w id none = mark_ticket now fault w id stored []
  settle w id (some e) = mark_ticket now fault w id failed (error_text e)

  unfoldable pub settle_all : List (ℕ × WriteError) → ℕ → List Entry → World → World
  unfolding mark_ticket error_at
  settle_all errs i [] w = w
  settle_all errs i (e ∷ es) w = settle_all errs (suc i) es (settle w e.ticket (error_at i errs))

-- What a flush meets: the clock, the configurations and the failing calls, by tenant and collection.
pub record FlushEnv : Type 0 where
  pub now : ℕ
  pub config : Str → Str → Option CollectionConfig
  pub faults : Str → Str → BatchFaults
  pub mark_fault : Str → Ticket.Fault

module _ (decode : Str → Option Task) where
  unfoldable pub group : List Delivery → List TenantGroup → List TenantGroup
  unfolding add_entry
  group [] gs = gs
  group (d ∷ ds) gs = group ds (add_decoded (decode d.message.payload) gs)

  module _ (error_text : WriteError → Str) (format_float : ℕ → Str) (plugins : List Plugin)
      (env : FlushEnv) where
    -- the body of the loop over the groups
    unfoldable pub flush_group : TenantGroup → World → World
    unfolding ingest_batch numbered_items settle_all
    flush_group g w =
        let r =
          ingest_batch format_float plugins env.now (env.faults g.key) (env.config g.key)
            (numbered_items 0 g.entries) w.collections in
        settle_all error_text env.now (env.mark_fault g.key) r.1 0 g.entries
          (record w { collections = r.0 })

    unfoldable pub flush_groups : List TenantGroup → (Str → World) → Str → World
    unfolding flush_group
    flush_groups [] worlds = worlds
    flush_groups (g ∷ gs) worlds =
        flush_groups gs (assign g.key (flush_group g (worlds g.key)) worlds)

    -- flush: the data of the tenants, and the deliveries that are acknowledged
    unfoldable pub flush : List Delivery → (Str → World) → (Str → World) × List Delivery
    unfolding group flush_groups
    flush batch worlds = (flush_groups (group batch []) worlds, batch)

-- what the select of runShard takes
pub data Signal : Type 0 where
  received : Delivery → Signal
  lingered cancelled closed : Signal

-- the closure `flush`: an empty buffer is no batch
abbrev pub flush_buffer : List Delivery → List (List Delivery) → List (List Delivery)
flush_buffer [] batches = batches
flush_buffer (d ∷ ds) batches = (d ∷ ds) ∷ batches

-- The loop of runShard from a buffer: the batches that it flushes, and what is left in the buffer.
unfoldable pub run_shard : ℕ → List Signal → List Delivery → List (List Delivery) × List Delivery
run_shard size [] buf = ([], buf)
run_shard size (received d ∷ signals) buf =
    let buf' = buf ++ d ∷ [] in
    let full = leb size (length buf') in
    let (batches, left) = run_shard size signals (if full then [] else buf') in
    (if full then flush_buffer buf' batches else batches, left)
run_shard size (lingered ∷ signals) buf =
    let (batches, left) = run_shard size signals [] in (flush_buffer buf batches, left)
run_shard size (cancelled ∷ signals) buf = (flush_buffer buf [], [])
run_shard size (closed ∷ signals) buf = ([], buf)
