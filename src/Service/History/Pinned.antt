-- ===== src/Service/History/Pinned.antt =====
-- The snapshots that a write takes hold what the history replays to.
use letopis.Prelude.{
  ℕ, ◌≡◌, ap, ◌∙◌, subst, Str, str_eq, Bool, some, List, [], ◌∷◌, length, take-length, All, ◌&&◌,
  ◌==◌, Bool-cases, inl, inr, arith,
}
use letopis.Json.{Fields}
use letopis.Diff.Model.{ok}
use letopis.Domain.Event.{Event, CurrentState, Snapshot}
use letopis.Domain.Collection.{CollectionConfig}
use letopis.Domain.Reconstruct.{should_snapshot}
use letopis.Service.Plan.{base_state}
use letopis.Service.Ingest.{Store, Faults, history, after_store, save_snapshot, build_snapshot}
use letopis.Service.History.Synced.{IsSyncedAt, IsSynced, IsPinned}

module _ (format_float : ℕ → Str) where
  save_snapshot-All :
      (P : Snapshot → Type 0) (sn : Snapshot) (xs : List Snapshot)
      → P sn
      → All P xs
      → All P (save_snapshot sn xs)
  unfolding save_snapshot
  save_snapshot-All P sn [] p h = (p, tt)
  save_snapshot-All P sn (x ∷ xs) p h =
      elim (Bool-cases (str_eq x.entity_id sn.entity_id && x.version == sn.version)) [
        | inl same ↦ rw same (p, h.1)
        | inr other ↦ rw other (h.0, save_snapshot-All P sn xs p h.1)
      ]

  build_snapshot-All :
      (P : Snapshot → Type 0) (fails : Bool) (cfg : CollectionConfig) (sn : Snapshot)
      (xs : List Snapshot)
      → P sn
      → All P xs
      → All P (build_snapshot fails cfg sn xs)
  unfolding build_snapshot
  build_snapshot-All P fails cfg sn xs p h =
      elim (Bool-cases (should_snapshot sn.version cfg.snapshot_interval)) [
        | inr skipped ↦ rw skipped h
        | inl due ↦ elim (Bool-cases fails) [
          | inl lost ↦ rw due (rw lost h)
          | inr saved ↦ rw due (rw saved (save_snapshot-All P sn xs p h))
        ]
      ]

  -- The snapshot of the current state is pinned.
  current-IsPinned :
      (evs : List Event) (cur : CurrentState) (sn : Snapshot)
      → IsSyncedAt format_float (history sn.entity_id evs) (some cur)
      → sn.version ≡ cur.version
      → sn.state ≡ cur.state
      → sn.deleted ≡ cur.deleted
      → IsPinned format_float evs sn
  unfolding base_state
  current-IsPinned evs cur sn h v s d =
      let whole : sn.version ≡ length (history sn.entity_id evs) = v ∙ h.version in
      (
        omega arith,
        rw (take-length sn.version (history sn.entity_id evs) (omega arith))
            (h.replays ∙ ap (λ m. ok m) (rw s (rw d))),
      )

  pub after_store-IsSynced :
      (f : Faults) (cfg : CollectionConfig) (st : Store) (ev : Event) (s : Fields) (deleted : Bool)
      (cur : CurrentState)
      → IsSynced format_float st
      → st.current ev.entity_id ≡ some cur
      → ev.version ≡ cur.version
      → s ≡ cur.state
      → deleted ≡ cur.deleted
      → IsSynced format_float (after_store f cfg st ev s deleted)
  unfolding after_store
  after_store-IsSynced f cfg st ev s deleted cur h here v same gone =
      let sn : Snapshot = record {
        entity_id = ev.entity_id;
        version = ev.version;
        ts = ev.ts_received;
        deleted = deleted;
        state = s;
      } in
      record {
        entities = h.entities;
        snapshots =
            build_snapshot-All (IsPinned format_float st.events) f.snapshot_fails cfg sn
              st.snapshots
              (current-IsPinned st.events cur sn
                (subst (λ c. IsSyncedAt format_float (history ev.entity_id st.events) c) here
                  (h.entities ev.entity_id))
                v same gone)
              h.snapshots;
      }
