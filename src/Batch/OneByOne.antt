-- ===== src/Batch/OneByOne.antt =====
-- The items of a batch as single writes of internal/service/ingest.go, one after another.
use letopis.Prelude.{ℕ, ◌≡◌, Str, false, none, some, List, [], ◌∷◌, ◌++◌}
use letopis.Domain.Collection.{CollectionConfig}
use letopis.Plugin.Host.{Plugin}
use letopis.Service.Ingest.{Store, Outcome, done, failed, WriteError, is_duplicate, apply_one}
use letopis.Batch.Fold.{BatchItem, BatchFaults}
use letopis.Batch.Agrees.{fine}

abbrev pub no_faults : BatchFaults
no_faults = record {
  load_fails = λ e. false;
  last_fails = λ e. false;
  insert_fails = false;
  upsert_fails = λ e. false;
  snapshot_fails = false;
}

abbrev pub error_of : ℕ → Outcome → List (ℕ × WriteError)
error_of k (done r) = []
error_of k (failed e) = (k, e) ∷ []

module _ (format_float : ℕ → Str) (plugins : List Plugin) (now : ℕ) (cfg : CollectionConfig) where
  -- The same writes one after another, with no call that fails: the store, and the errors by index.
  abbrev pub one_by_one :
      List (ℕ × BatchItem) → Store → List (ℕ × WriteError) → Store × List (ℕ × WriteError)
  one_by_one [] s errors = (s, errors)
  one_by_one ((k, item) ∷ rest) s errors =
      let o = apply_one format_float plugins now fine (some cfg) item.kind item.command s in
      one_by_one rest o.0 (errors ++ error_of k o.1)

  -- No item expects a version, and none has an event id that is stored when its turn comes.
  abbrev pub IsFresh : List (ℕ × BatchItem) → Store → Type 0
  IsFresh [] s = Unit {0}
  IsFresh ((k, item) ∷ rest) s =
      (item.command.expected_version ≡ none)
      × (is_duplicate item.command.event_id s.events ≡ false)
      × IsFresh rest (apply_one format_float plugins now fine (some cfg) item.kind item.command s).0
