-- ===== src/Batch/Collections.antt =====
-- IngestBatch over several collections: each collection sees its own items alone.
use letopis.Prelude.{
  ℕ, ◌≡◌, refl, sym, ap, ◌∙◌, Str, str_eq, str_eq→eq, str_eq_refl, ◌≢◌, true, false, Option, none,
  some, List, [], ◌∷◌, ◌++◌, if◌then◌else◌, Bool-cases, inl, inr, arith,
}
use letopis.Json.Object.{str_eq_sym}
use letopis.Domain.Collection.{CollectionConfig}
use letopis.Plugin.Host.{Plugin}
use letopis.Service.Ingest.{Store, WriteError}
use letopis.Batch.Fold.{BatchItem, BatchFaults, assign, contains, fold_items}
use letopis.Batch.Flush.{
  first_used, items_of, batch_collection, store_fold, each_collection, ingest_batch,
}
use letopis.Batch.Order.{contains-append, enlisted}

-- No collection stands twice in the order.
IsDistinct : List Str → Type 0
IsDistinct [] = Unit {0}
IsDistinct (c ∷ order) = (contains c order ≡ false) × IsDistinct order

IsDistinct-append :
    (order : List Str) (c : Str)
    → contains c order ≡ false
    → IsDistinct order
    → IsDistinct (order ++ c ∷ [])
unfolding IsDistinct contains
IsDistinct-append [] c h d = (refl, tt)
IsDistinct-append (x ∷ order) c h d = elim (Bool-cases (str_eq c x)) [
  | inl here ↦ absurd (ground (arith, h, here))
  | inr other ↦
      let apart : str_eq x c ≡ false = str_eq_sym x c ∙ other in
      let rest : contains c order ≡ false = ground (arith, h, other) in
      (contains-append x c order ∙ rw d.0 apart, IsDistinct-append order c rest d.1)
]

first_used-IsDistinct :
    (items : List (ℕ × BatchItem)) (order : List Str)
    → IsDistinct order
    → IsDistinct (first_used items order)
unfolding first_used
first_used-IsDistinct [] order d = d
first_used-IsDistinct ((k, item) ∷ rest) order d =
    elim (Bool-cases (contains item.command.collection order)) [
      | inl used ↦ rw used (first_used-IsDistinct rest order d)
      | inr new ↦
          rw new
            (first_used-IsDistinct rest _ (IsDistinct-append order item.command.collection new d))
    ]

-- A collection that is not in the order has no item.
first_used-items_of :
    (c : Str) (items : List (ℕ × BatchItem)) (order : List Str)
    → contains c (first_used items order) ≡ false
    → (contains c order ≡ false) × (items_of c items ≡ [])
unfolding first_used items_of
first_used-items_of c [] order h = (h, refl)
first_used-items_of c ((k, item) ∷ rest) order h =
    let on = first_used-items_of c rest _ h in
    let apart = enlisted c item.command.collection order on.0 in
    let other = str_eq_sym item.command.collection c ∙ apart.0 in (apart.1, rw other on.1)

-- The second list has the items of a collection, in the order of the first one.
pub data IsPicked (c : Str) : List (ℕ × BatchItem) → List (ℕ × BatchItem) → Type 0 where
  nothing_left : IsPicked c [] []
  taken :
      {k : ℕ} {item : BatchItem} {rest own : List (ℕ × BatchItem)}
      → item.command.collection ≡ c
      → IsPicked c rest own
      → IsPicked c ((k, item) ∷ rest) ((k, item) ∷ own)
  left_out :
      {k : ℕ} {item : BatchItem} {rest own : List (ℕ × BatchItem)}
      → item.command.collection ≢ c
      → IsPicked c rest own
      → IsPicked c ((k, item) ∷ rest) own

items_of-IsPicked :
    (c : Str) {items own : List (ℕ × BatchItem)} → IsPicked c items own → items_of c items ≡ own
unfolding items_of
items_of-IsPicked c nothing_left = refl
items_of-IsPicked c (taken {k} {item} same h) =
    let here : str_eq item.command.collection c ≡ true =
      ap (λ x. str_eq x c) same ∙ str_eq_refl c in
    rw here ((ap (λ xs. (k, item) ∷ xs) (items_of-IsPicked c h)))
items_of-IsPicked c (left_out {k} {item} apart h) =
    elim (Bool-cases (str_eq item.command.collection c)) [
      | inl here ↦ absurd (apart (str_eq→eq item.command.collection c here))
      | inr other ↦ rw other (items_of-IsPicked c h)
    ]

module _ (format_float : ℕ → Str) (plugins : List Plugin) (now : ℕ) (fl : Str → BatchFaults)
    (config : Str → Option CollectionConfig) where
  -- what the items of collection `c` alone make of its store
  abbrev pub alone : List (ℕ × BatchItem) → Str → Store → Store
  alone items c st =
      (batch_collection format_float plugins now (fl c) (config c) (items_of c items) st).0

  each_collection-lookup :
      (order : List Str) (items : List (ℕ × BatchItem)) (stores : Str → Store)
      (errors : List (ℕ × WriteError)) (c : Str)
      → IsDistinct order
      → (each_collection format_float plugins now fl config order items (stores, errors)).0 c
        ≡ (if contains c order then alone items c (stores c) else stores c)
  unfolding each_collection contains IsDistinct
  each_collection-lookup [] items stores errors c d = refl
  each_collection-lookup (x ∷ order) items stores errors c d =
      let o =
        batch_collection format_float plugins now (fl x) (config x) (items_of x items) (stores x) in
      let on = each_collection-lookup order items (assign x o.0 stores) (errors ++ o.1) c d.1 in
      elim (Bool-cases (str_eq c x)) [
        | inl here ↦
            let is = str_eq→eq c x here in
            let done_with = ap (λ y. contains y order) is ∙ d.0 in
            on ∙ rw done_with (rw here (ap (λ y. alone items y (stores y)) (sym is)))
        | inr other ↦ on ∙ rw other refl
      ]

  nothing :
      (o : Option CollectionConfig) (f : BatchFaults) (st : Store)
      → (batch_collection format_float plugins now f o [] st).0 ≡ st
  unfolding batch_collection fold_items store_fold
  nothing none f st = refl
  nothing (some cfg) f st = refl

  flush-alone :
      (items : List (ℕ × BatchItem)) (stores : Str → Store) (c : Str)
      → (ingest_batch format_float plugins now fl config items stores).0 c
        ≡ alone items c (stores c)
  unfolding ingest_batch IsDistinct
  flush-alone items stores c =
      each_collection-lookup (first_used items []) items stores [] c
        (first_used-IsDistinct items [] tt)
      ∙ elim (Bool-cases (contains c (first_used items []))) [
        | inl used ↦ rw used refl
        | inr unused ↦
            let empty = (first_used-items_of c items [] unused).1 in
            rw unused (
              sym (
                ap
                  (λ xs.
                    (batch_collection format_float plugins now (fl c) (config c) xs (stores c)).0)
                  empty
                ∙ nothing (config c) (fl c) (stores c)))
      ]

  -- Whatever the items are, after a flush the store of a collection is what batchCollection makes
  -- of it with the items of that collection and no others, in the order of the batch.
  pub ingest_batch-alone :
      (items own : List (ℕ × BatchItem)) (stores : Str → Store) (c : Str)
      → IsPicked c items own
      → (ingest_batch format_float plugins now fl config items stores).0 c
        ≡ (batch_collection format_float plugins now (fl c) (config c) own (stores c)).0
  ingest_batch-alone items own stores c picked =
      flush-alone items stores c
      ∙ ap (λ xs. (batch_collection format_float plugins now (fl c) (config c) xs (stores c)).0)
          (items_of-IsPicked c picked)
