-- ===== src/Batch/Examples.antt =====
-- Tests of fast-mode batches, and their theorems at concrete inputs.
use letopis.Prelude.{
  arith, str_eq_refl, ◌∙◌, sym, ap, false, ◌≢◌, true, Option, str_eq, ℕ, ◌≡◌, refl, Str, codes,
  some, none, List, [], ◌∷◌, length,
}
use letopis.Domain.Event.{EntityOp}
use letopis.Json.{end}
use letopis.Service.Command.{Kind}
use letopis.Service.Plan
use letopis.Service.Plan.{base_state, build_event}
use letopis.Diff.Compute
use letopis.Service.Ingest.{store_failed, history, has_event_id}
use letopis.Service.History.{empty_store}
use letopis.Service.Sample.{format_small, config, command, deal}
use letopis.Plugin.Host.{Plugin}
use letopis.HashChain.Link.{hash_chain}
use letopis.Domain.Collection.{CollectionConfig, closed}
use letopis.Batch.Tails.{hash_chain-IsBlind}
use letopis.Batch.Fold.{BatchItem}
use letopis.Batch.Flush.{batch_collection, ingest_batch}
use letopis.Batch.OneByOne.{no_faults, one_by_one}
use letopis.Batch.Single.{batch_collection-one_by_one}
use letopis.Batch.Collections.{IsPicked, taken, left_out, nothing_left, ingest_batch-alone}

abbrev write_to : Str → Str → Kind → EntityOp → BatchItem
write_to c e kind op = record {
  kind = kind;
  command = record (command op deal) { collection = c; entity_id = e };
}

-- Two deals in turn, the first one deleted at last.
abbrev three : List (ℕ × BatchItem)
three =
    (0, write_to (codes "crm.deals") (codes "deal-1") Kind.state EntityOp.unset)
    ∷ (1, write_to (codes "crm.deals") (codes "deal-2") Kind.state EntityOp.unset)
    ∷ (2, write_to (codes "crm.deals") (codes "deal-1") Kind.delete EntityOp.delete)
    ∷ []

-- a digest of one byte, for the hash chain
abbrev chain : Plugin
chain = hash_chain (λ text. length text ∷ []) (λ v. some (codes "{}")) (λ t. t ∷ [])

abbrev chained : CollectionConfig
chained = record config {
  plugins = (codes "hash_chain", record { enabled = true; fail_mode = closed; params = end }) ∷ [];
}

batch_collection-one_by_one_example :
    batch_collection format_small (chain ∷ []) 7 no_faults (some chained) three empty_store
    ≡ one_by_one format_small (chain ∷ []) 7 chained three empty_store []
unfolding history base_state
batch_collection-one_by_one_example =
    batch_collection-one_by_one format_small (chain ∷ []) 7 chained
      (hash_chain-IsBlind (λ text. length text ∷ []) (λ v. some (codes "{}")) (λ t. t ∷ []), tt)
      empty_store three (λ e. (tt, refl)) (refl, refl, (refl, refl, (refl, refl, tt)))

abbrev two_collections : List (ℕ × BatchItem)
two_collections =
    (0, write_to (codes "crm.deals") (codes "deal-1") Kind.state EntityOp.unset)
    ∷ (1, write_to (codes "crm.notes") (codes "note-1") Kind.state EntityOp.unset)
    ∷ (2, write_to (codes "crm.deals") (codes "deal-1") Kind.delete EntityOp.delete)
    ∷ []

abbrev deals_of_two : List (ℕ × BatchItem)
deals_of_two =
    (0, write_to (codes "crm.deals") (codes "deal-1") Kind.state EntityOp.unset)
    ∷ (2, write_to (codes "crm.deals") (codes "deal-1") Kind.delete EntityOp.delete)
    ∷ []

differ : (a b : Str) → str_eq a b ≡ false → a ≢ b
differ a b h e =
    let same : str_eq a b ≡ true = ap (str_eq a) (sym e) ∙ str_eq_refl a in
    absurd (ground (arith, h, same))

deals_of_two-IsPicked : IsPicked (codes "crm.deals") two_collections deals_of_two
unfolding str_eq
deals_of_two-IsPicked =
    taken refl
      (left_out (differ (codes "crm.notes") (codes "crm.deals") refl) (taken refl nothing_left))

ingest_batch-alone_example :
    (ingest_batch format_small [] 7
        (λ c. no_faults)
        (λ c. some config)
        two_collections
        (λ c. empty_store)).0
      (codes "crm.deals")
    ≡ (batch_collection format_small [] 7 no_faults (some config) deals_of_two empty_store).0
ingest_batch-alone_example =
    ingest_batch-alone format_small [] 7 (λ c. no_faults) (λ c. some config) two_collections
      deals_of_two (λ c. empty_store) (codes "crm.deals") deals_of_two-IsPicked

three_versions :
    length (
      history
        (codes "deal-1")
        (batch_collection format_small [] 7 no_faults (some config) three empty_store).0.events)
    ≡ 2
unfolding batch_collection history Plan.plan_event Compute.diff str_eq build_event has_event_id
three_versions = refl

abbrev named : Str → Str → Option ℕ → BatchItem
named e id expected = record {
  kind = Kind.state;
  command = record (command EntityOp.unset deal) {
    entity_id = e;
    event_id = id;
    expected_version = expected;
  };
}

-- the same event id twice in one flush
abbrev repeated : List (ℕ × BatchItem)
repeated =
    (0, named (codes "deal-1") (codes "e1") none)
    ∷ (1, named (codes "deal-2") (codes "e1") none)
    ∷ []

-- The insert stops at the second event. Both items are reported as failed, the first event is
-- stored, and the entity's current state is not refreshed.
repeated_half_stored :
    let r = batch_collection format_small [] 7 no_faults (some config) repeated empty_store in
    (r.1 ≡ (0, store_failed) ∷ (1, store_failed) ∷ [])
    × (length r.0.events ≡ 1)
    × (r.0.current (codes "deal-1") ≡ none)
unfolding batch_collection history Plan.plan_event Compute.diff str_eq build_event has_event_id
repeated_half_stored = (refl, refl, refl)

-- The next flush of that entity takes version 1 again, and fails.
repeated_then_stuck :
    let st = (batch_collection format_small [] 7 no_faults (some config) repeated empty_store).0 in
    (batch_collection format_small [] 7 no_faults
      (some config)
      ((0, named (codes "deal-1") (codes "e2") none) ∷ [])
      st).1
    ≡ (0, store_failed) ∷ []
unfolding batch_collection history Plan.plan_event Compute.diff str_eq build_event has_event_id
repeated_then_stuck = refl

-- An expected version is not looked at.
expected_version_ignored :
    let r =
      batch_collection format_small [] 7 no_faults
        (some config)
        ((0, named (codes "deal-1") (codes "e1") (some 5)) ∷ [])
        empty_store in
    (r.1 ≡ []) × (length r.0.events ≡ 1)
unfolding batch_collection history Plan.plan_event Compute.diff str_eq build_event has_event_id
expected_version_ignored = (refl, refl)
