-- ===== src/Service/History/Commit.antt =====
-- commitEvent and the pre-store hooks keep the store in step with its histories.
use letopis.Prelude.{
  ℕ, suc, ◌≡◌, refl, sym, ap, ◌∙◌, subst, Str, str_eq, str_eq→eq, str_eq_refl, Bool, true, false,
  Option, none, some, List, [], ◌∷◌, ◌++◌, length, All-map, Bool-cases, inl, inr,
}
use letopis.Json.{Fields}
use letopis.Json.Object.{str_eq_sym}
use letopis.Diff.Model.{ok}
use letopis.Domain.Event.{Event}
use letopis.Domain.Collection.{CollectionConfig}
use letopis.Domain.Reconstruct.{replay_event}
use letopis.Plugin.Host.{
  Plugin, EntityView, run_pre_store, has_pre_store, run_pre_store-IsSameWrite,
}
use letopis.Service.Command.{IngestCommand}
use letopis.Service.Plan.{base_state}
use letopis.Service.Replay.{reached}
use letopis.Service.Ingest.{
  Store, Faults, Outcome, history, last_event, stamp, upsert, is_duplicate, new_current, commit,
  commit_unless_closed, hooks_then_commit,
}
use letopis.Service.History.Pinned.{after_store-IsSynced}
use letopis.Service.History.Synced.{
  reached_current, IsNumbered, IsSyncedAt, IsSynced, history-append, IsSyncedAt-snoc, stamp-version,
  IsPinned, IsPinned-append, replay_event-stamp, replay_event-IsSameWrite,
}

module _ (format_float : ℕ → Str) where
  module _ (now : ℕ) (cmd : IngestCommand) (st : Store) (ev : Event) (s : Fields)
      (deleted : Bool) where
    abbrev next : Event
    next = stamp now st.events ev

    next_entity : next.entity_id ≡ ev.entity_id
    unfolding stamp
    next_entity = refl

    own_history :
        (e : Str)
        → ev.entity_id ≡ e
        → IsSyncedAt format_float (history e st.events) (st.current e)
        → replay_event format_float (reached_current (st.current e)) ev ≡ ok (reached s deleted)
        → IsSyncedAt format_float
            (history e st.events ++ next ∷ [])
            (some (new_current cmd next s deleted))
    own_history e same h r =
        IsSyncedAt-snoc format_float (history e st.events) (st.current e) next
          (new_current cmd next s deleted) h
          (subst (λ x. next.version ≡ suc (length (history x st.events))) same
            (stamp-version format_float now st.events ev
              (subst (λ x. IsNumbered 0 (history x st.events)) (sym same) h.numbered)))
          refl
          (replay_event-stamp format_float (reached_current (st.current e)) now st.events ev ∙ r)

    entity_hit :
        (e : Str)
        → e ≡ cmd.entity_id
        → ev.entity_id ≡ cmd.entity_id
        → str_eq next.entity_id e ≡ true
    entity_hit e here same = ap (λ x. str_eq x e) (next_entity ∙ same ∙ sym here) ∙ str_eq_refl e

    entity_miss :
        (e : Str)
        → str_eq e cmd.entity_id ≡ false
        → ev.entity_id ≡ cmd.entity_id
        → str_eq next.entity_id e ≡ false
    entity_miss e h same =
        ap (λ x. str_eq x e) (next_entity ∙ same) ∙ str_eq_sym cmd.entity_id e ∙ h

    -- The store after the append and the refresh of the current state.
    refreshed_synced :
        IsSynced format_float st
        → ev.entity_id ≡ cmd.entity_id
        → replay_event format_float (reached_current (st.current cmd.entity_id)) ev
          ≡ ok (reached s deleted)
        → (e : Str)
        → IsSyncedAt format_float
            (history e (st.events ++ next ∷ []))
            (upsert st.current (new_current cmd next s deleted) e)
    refreshed_synced synced same r e = elim (Bool-cases (str_eq e cmd.entity_id)) [
      | inl own ↦
          let here : e ≡ cmd.entity_id = str_eq→eq e cmd.entity_id own in
          rw own (
            rw (history-append e st.events next) (
              rw (entity_hit e here same) (
                own_history e (same ∙ sym here) (synced.entities e) (
                  subst
                    (λ x.
                      replay_event format_float (reached_current (st.current x)) ev
                      ≡ ok (reached s deleted))
                    (sym here) r))))
      | inr elsewhere ↦ rw elsewhere (
          rw (history-append e st.events next)
            (rw (entity_miss e elsewhere same) (synced.entities e)))
    ]

    commit-IsSynced :
        (f : Faults) (cfg : CollectionConfig) (v : ℕ)
        → f.upsert_fails ≡ false
        → IsSynced format_float st
        → ev.entity_id ≡ cmd.entity_id
        → replay_event format_float (reached_current (st.current cmd.entity_id)) ev
          ≡ ok (reached s deleted)
        → IsSynced format_float (commit now f cfg cmd v st ev s deleted).0
    unfolding commit
    commit-IsSynced f cfg v up synced same r = elim (Bool-cases f.append_fails) [
      | inl a ↦ rw a synced
      | inr a ↦ elim (Bool-cases (is_duplicate ev.event_id st.events)) [
        | inl d ↦ rw a (rw d synced)
        | inr d ↦ rw a (
            rw d (
              rw up (
                after_store-IsSynced format_float f cfg
                  (record st {
                    events = st.events ++ next ∷ [];
                    current = upsert st.current (new_current cmd next s deleted);
                  })
                  next s deleted (new_current cmd next s deleted)
                  (record {
                    entities = refreshed_synced synced same r;
                    snapshots =
                        All-map (IsPinned format_float st.events)
                          (IsPinned format_float (st.events ++ next ∷ [])) st.snapshots
                          (λ sn p. IsPinned-append format_float st.events next sn p)
                          synced.snapshots;
                  })
                  (rw (
                    ap (λ x. str_eq x cmd.entity_id) (next_entity ∙ same)
                    ∙ str_eq_refl cmd.entity_id))
                  refl refl refl)))
      ]
    ]

commit_unless_closed-IsSynced :
    (format_float : ℕ → Str) (k : Event → Store × Outcome) (st : Store)
    (hooked : Option Str × Event)
    → IsSynced format_float st
    → IsSynced format_float (k hooked.1).0
    → IsSynced format_float (commit_unless_closed k st hooked).0
commit_unless_closed-IsSynced format_float k st (none, ev) h c = c
commit_unless_closed-IsSynced format_float k st (some name, ev) h c = h

module _ (format_float : ℕ → Str) (now : ℕ) (f : Faults) (plugins : List Plugin)
    (cfg : CollectionConfig) where
  pub hooks-IsSynced :
      (cmd : IngestCommand) (st : Store) (ev : Event) (s : Fields) (deleted : Bool)
      → f.upsert_fails ≡ false
      → IsSynced format_float st
      → ev.entity_id ≡ cmd.entity_id
      → replay_event format_float (reached_current (st.current cmd.entity_id)) ev
        ≡ ok (reached s deleted)
      → IsSynced format_float
          (hooks_then_commit now f plugins cfg cmd (st.current cmd.entity_id) st ev s deleted).0
  unfolding hooks_then_commit
  hooks-IsSynced cmd st ev s deleted up synced same r =
      let cur = st.current cmd.entity_id in
      let prev : EntityView = record {
        last_event = last_event cmd.entity_id st.events;
        current = cur;
      } in
      let hooked = run_pre_store cfg cmd.collection prev plugins ev in
      let kept = run_pre_store-IsSameWrite cfg cmd.collection prev plugins ev in
      let v = (base_state cur).1 in
      elim (Bool-cases (has_pre_store cfg plugins)) [
        | inr none_on ↦
            rw none_on
              (commit-IsSynced format_float now cmd st ev s deleted f cfg v up synced same r)
        | inl some_on ↦ elim (Bool-cases f.last_event_fails) [
          | inl lost ↦ rw some_on (rw lost synced)
          | inr found ↦ rw some_on (
              rw found (
                commit_unless_closed-IsSynced format_float
                  (λ e. commit now f cfg cmd v st e s deleted) st hooked synced
                  (commit-IsSynced format_float now cmd st hooked.1 s deleted f cfg v up synced
                    (kept.entity_id ∙ same)
                    (replay_event-IsSameWrite format_float (reached_current cur) hooked.1 ev kept
                      ∙ r))))
        ]
      ]
