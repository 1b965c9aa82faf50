-- ===== src/Worker/Batcher/Told.antt =====
-- What a flush of the fast worker makes of the ticket of a delivery.
use letopis.Prelude.{ℕ, Str, Option, List, ◌∷◌, ◌++◌}
use letopis.Plugin.Host.{Plugin}
use letopis.Service.Ingest
use letopis.Service.Ingest.{WriteError}
use letopis.Queue.Shard.{Delivery}
use letopis.Batch.Flush.{ingest_batch}
use letopis.Worker.Process.{Task, World}
use letopis.Worker.Batcher.{tenant_key, numbered_items, FlushEnv}
use letopis.Worker.Batcher.Groups.{entries_of}

module _ (decode : Str → Option Task) where
  module _ (error_text : WriteError → Str) (format_float : ℕ → Str) (plugins : List Plugin)
      (env : FlushEnv) (pre post : List Delivery) (d : Delivery) (task : Task) (c : ℕ) (cs : Str)
      (worlds : Str → World) where
    abbrev pub k : Str
    k = tenant_key task.tenant

    abbrev pub batch : List Delivery
    batch = pre ++ d ∷ post

    -- what IngestBatch returns for the items of the tenant
    abbrev ingested : (Str → Ingest.Store) × List (ℕ × WriteError)
    ingested =
        ingest_batch format_float plugins env.now (env.faults k) (env.config k)
          (numbered_items 0 (entries_of decode k batch)) (worlds k).collections
