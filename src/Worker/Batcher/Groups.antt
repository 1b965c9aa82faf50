-- ===== src/Worker/Batcher/Groups.antt =====
-- A flush by tenants: each tenant's data is changed as by a flush of its own deliveries alone.
use letopis.Prelude.{
  ℕ, ◌≡◌, refl, sym, ap, ◌∙◌, Str, str_eq, str_eq→eq, Bool, true, false, Option, none, some, List,
  [], ◌∷◌, ◌++◌, append_assoc, append_nil, Bool-cases, inl, inr, arith, if◌then◌else◌,
}
use letopis.Json.Object.{str_eq_sym}
use letopis.Plugin.Host.{Plugin}
use letopis.Service.Ingest.{WriteError}
use letopis.Queue.Shard.{Delivery}
use letopis.Batch.Fold.{assign}
use letopis.Batch.Flush.{ingest_batch, first_used, each_collection}
use letopis.Worker.Process.{Task, World}
use letopis.Worker.Batcher.{
  Entry, TenantGroup, tenant_key, entry_of, add_entry, add_decoded, numbered_items, settle_all,
  FlushEnv, group, flush_group, flush_groups, flush,
}

-- the entries of a tenant among the groups
unfoldable pub find_group : Str → List TenantGroup → List Entry
find_group k [] = []
find_group k (g ∷ gs) = if str_eq g.key k then g.entries else find_group k gs

has_key : Str → List TenantGroup → Bool
has_key k [] = false
has_key k (g ∷ gs) = if str_eq g.key k then true else has_key k gs

IsDistinct : List TenantGroup → Type 0
IsDistinct [] = Unit {0}
IsDistinct (g ∷ gs) = (has_key g.key gs ≡ false) × IsDistinct gs

module _ (j : Str) (e : Entry) where
  find-add_entry :
      (k : Str) (gs : List TenantGroup)
      → find_group k (add_entry j e gs)
        ≡ (if str_eq j k then find_group k gs ++ e ∷ [] else find_group k gs)
  unfolding find_group add_entry
  find-add_entry k [] = ground arith
  find-add_entry k (g ∷ gs) = elim (Bool-cases (str_eq g.key j)) [
    | inl here ↦
        let same = ap (λ y. str_eq y k) (sym (str_eq→eq g.key j here)) in
        rw here (rw same (ground arith))
    | inr other ↦ elim (Bool-cases (str_eq g.key k)) [
      | inl own ↦
          let apart = ap (str_eq j) (sym (str_eq→eq g.key k own)) ∙ str_eq_sym j g.key ∙ other in
          rw other (rw own (rw apart refl))
      | inr off ↦ rw other (rw off (find-add_entry k gs))
    ]
  ]

  has_key-add_entry :
      (k : Str) (gs : List TenantGroup)
      → has_key k (add_entry j e gs) ≡ (if has_key k gs then true else str_eq j k)
  unfolding has_key add_entry
  has_key-add_entry k [] = ground arith
  has_key-add_entry k (g ∷ gs) = elim (Bool-cases (str_eq g.key j)) [
    | inl here ↦
        let same = ap (λ y. str_eq y k) (sym (str_eq→eq g.key j here)) in
        rw here (rw same (ground arith))
    | inr other ↦ rw other (ground (arith, has_key-add_entry k gs))
  ]

  IsDistinct-add_entry : (gs : List TenantGroup) → IsDistinct gs → IsDistinct (add_entry j e gs)
  unfolding IsDistinct add_entry has_key
  IsDistinct-add_entry [] d = (refl, tt)
  IsDistinct-add_entry (g ∷ gs) d = elim (Bool-cases (str_eq g.key j)) [
    | inl here ↦ rw here d
    | inr other ↦ rw other (
      has_key-add_entry g.key gs ∙ rw d.0 (str_eq_sym j g.key ∙ other),
      IsDistinct-add_entry gs d.1,
    )
  ]

missing-find_group : (k : Str) (gs : List TenantGroup) → has_key k gs ≡ false → find_group k gs ≡ []
unfolding has_key find_group
missing-find_group k [] h = refl
missing-find_group k (g ∷ gs) h = ground (arith, h, missing-find_group k gs)

module _ (decode : Str → Option Task) where
  -- one delivery's entry, where it is the tenant's
  abbrev pub own_entry : Str → Option Task → List Entry → List Entry
  own_entry k none es = es
  own_entry k (some task) es =
      if str_eq (tenant_key task.tenant) k
      then record {
        item = record { kind = task.kind; command = task.command };
        ticket = task.ticket_id;
      }
        ∷ es
      else es

  -- the entries of a tenant, in the order of arrival
  unfoldable pub entries_of : Str → List Delivery → List Entry
  entries_of k [] = []
  entries_of k (d ∷ ds) = own_entry k (decode d.message.payload) (entries_of k ds)

  find-add_decoded :
      (k : Str) (o : Option Task) (gs : List TenantGroup) (es : List Entry)
      → find_group k (add_decoded o gs) ++ es ≡ find_group k gs ++ own_entry k o es
  find-add_decoded k none gs es = refl
  find-add_decoded k (some task) gs es = elim (Bool-cases (str_eq (tenant_key task.tenant) k)) [
    | inl here ↦
        rw (find-add_entry (tenant_key task.tenant) (entry_of task) k gs)
          (rw here (append_assoc (find_group k gs) (entry_of task ∷ []) es))
    | inr other ↦ rw (find-add_entry (tenant_key task.tenant) (entry_of task) k gs) (rw other refl)
  ]

  find-group :
      (k : Str) (ds : List Delivery) (gs : List TenantGroup)
      → find_group k (group decode ds gs) ≡ find_group k gs ++ entries_of k ds
  unfolding group entries_of
  find-group k [] gs = sym (append_nil (find_group k gs))
  find-group k (d ∷ ds) gs =
      let o = decode d.message.payload in
      find-group k ds (add_decoded o gs) ∙ find-add_decoded k o gs (entries_of k ds)

  IsDistinct-decoded :
      (o : Option Task) (gs : List TenantGroup) → IsDistinct gs → IsDistinct (add_decoded o gs)
  IsDistinct-decoded none gs d = d
  IsDistinct-decoded (some task) gs d =
      IsDistinct-add_entry (tenant_key task.tenant) (entry_of task) gs d

  IsDistinct-group :
      (ds : List Delivery) (gs : List TenantGroup) → IsDistinct gs → IsDistinct (group decode ds gs)
  unfolding group
  IsDistinct-group [] gs h = h
  IsDistinct-group (d ∷ ds) gs h =
      IsDistinct-group ds (add_decoded (decode d.message.payload) gs)
        (IsDistinct-decoded (decode d.message.payload) gs h)

  module _ (error_text : WriteError → Str) (format_float : ℕ → Str) (plugins : List Plugin)
      (env : FlushEnv) where
    -- what the entries of one tenant make of its data
    abbrev pub flush_alone : Str → List Entry → World → World
    flush_alone k es w =
        flush_group decode error_text format_float plugins env (record { key = k; entries = es }) w

    flush_groups-lookup :
        (gs : List TenantGroup) (worlds : Str → World) (k : Str)
        → IsDistinct gs
        → flush_groups decode error_text format_float plugins env gs worlds k
          ≡ (if has_key k gs then flush_alone k (find_group k gs) (worlds k) else worlds k)
    unfolding flush_groups has_key find_group IsDistinct
    flush_groups-lookup [] worlds k h = refl
    flush_groups-lookup (g ∷ gs) worlds k h =
        let w = flush_group decode error_text format_float plugins env g (worlds g.key) in
        let on = flush_groups-lookup gs (assign g.key w worlds) k h.1 in
        elim (Bool-cases (str_eq g.key k)) [
          | inl here ↦
              let is = str_eq→eq g.key k here in
              let done_with : has_key k gs ≡ false = ap (λ y. has_key y gs) (sym is) ∙ h.0 in
              on
              ∙ rw done_with (
                  rw here (
                    rw (str_eq_sym k g.key ∙ here)
                      (ap (λ y. flush_alone y g.entries (worlds y)) is)))
          | inr other ↦ on ∙ rw (str_eq_sym k g.key ∙ other) (rw other refl)
        ]

    nothing : (k : Str) (w : World) → flush_alone k [] w ≡ w
    unfolding flush_group ingest_batch first_used each_collection numbered_items settle_all
    nothing k w = refl

    pub flush-alone :
        (batch : List Delivery) (worlds : Str → World) (k : Str)
        → (flush decode error_text format_float plugins env batch worlds).0 k
          ≡ flush_alone k (entries_of k batch) (worlds k)
    unfolding flush IsDistinct find_group
    flush-alone batch worlds k =
        let gs = group decode batch [] in
        let found = find-group k batch [] in
        flush_groups-lookup gs worlds k (IsDistinct-group batch [] tt)
        ∙ elim (Bool-cases (has_key k gs)) [
          | inl used ↦ rw used (ap (λ es. flush_alone k es (worlds k)) found)
          | inr unused ↦
              let empty = sym found ∙ missing-find_group k gs unused in
              rw unused (sym (ap (λ es. flush_alone k es (worlds k)) empty ∙ nothing k (worlds k)))
        ]
