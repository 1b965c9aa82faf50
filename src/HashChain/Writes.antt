-- ===== src/HashChain/Writes.antt =====
-- The writes of internal/service/ingest.go with the hash-chain plugin as the last one of the host.
use letopis.Prelude.{
  ℕ, ◌≡◌, refl, ◌∙◌, subst, Str, str_eq, str_eq→eq, Bool, true, Option, none, some, List, [], ◌∷◌,
  ◌++◌, Bool-cases, inl, inr,
}
use letopis.Json.{Value, Fields}
use letopis.Domain.Event.{Event, CurrentState}
use letopis.Domain.Collection.{CollectionConfig}
use letopis.Plugin.Host.{Plugin, EntityView, run_pre_store, run_pre_store-IsSameWrite}
use letopis.Service.Command.{
  Kind, IngestCommand, Planned, no_change, invalid_diff, unknown_kind, planned,
}
use letopis.Service.Plan.{base_state, version_matches, plan_event}
use letopis.Service.Ingest.{
  Store, Faults, Outcome, history, last_event, stamp, is_duplicate, after_store, commit,
  commit_unless_closed, hooks_then_commit, run_plan, apply_one,
}
use letopis.Service.History.{Owns, Owns-plan, Write, empty_store, write, writes}
use letopis.Service.History.Synced.{history-append}
use letopis.HashChain.Link.{genesis, hash, link_or, canonical, projection}
use letopis.HashChain.Verify.{links, verify, verify-append, last_hash}
use letopis.HashChain.Sealed.{
  IsChained, chain, first, link_or-last_hash, run-links, has_pre_store-chain,
}

abbrev pub AreChained : Str → List Write → Type 0
AreChained collection [] = Unit {0}
AreChained collection (w ∷ ws) =
    (w.cmd.collection ≡ collection) × IsChained w.config × AreChained collection ws

module _ (sha256 : Str → Str) (json_text : Value → Option Str) (format_time : ℕ → Str)
    (format_float : ℕ → Str) where
  -- Every entity's history is verified from the genesis of the collection.
  abbrev IsVerified : Str → List Event → Type 0
  IsVerified collection evs =
      (e : Str)
      → verify sha256 json_text format_time (first sha256 json_text format_time collection)
          (history e evs)
        ≡ true

  abbrev reads : Str → Str → List Event → Str
  reads collection e evs =
      link_or sha256 json_text format_time (first sha256 json_text format_time collection)
        (last_event e evs)

  IsVerified-append :
      (collection : Str) (evs : List Event) (ev : Event)
      → IsVerified collection evs
      → links sha256 json_text format_time (reads collection ev.entity_id evs) ev ev.integrity
        ≡ true
      → IsVerified collection (evs ++ ev ∷ [])
  unfolding last_event
  IsVerified-append collection evs ev h l e = elim (Bool-cases (str_eq ev.entity_id e)) [
    | inr other ↦ rw (history-append e evs ev) (rw other (h e))
    | inl own ↦
        let here = str_eq→eq ev.entity_id e own in
        let last =
          link_or-last_hash sha256 json_text format_time
            (first sha256 json_text format_time collection)
            (first sha256 json_text format_time collection) none (history ev.entity_id evs) refl
            (h ev.entity_id) in
        rw (history-append e evs ev) (
          rw own (
            rw
              (verify-append sha256 json_text format_time
                (first sha256 json_text format_time collection) (history e evs) ev)
              (rw (h e) (
                subst
                  (λ x.
                    links sha256 json_text format_time
                      (last_hash sha256 json_text format_time
                        (first sha256 json_text format_time collection) (history x evs))
                      ev ev.integrity
                    ≡ true)
                  here
                  (subst (λ p. links sha256 json_text format_time p ev ev.integrity ≡ true) last
                    l)))))
  ]

  links-stamp :
      (prev : Str) (now : ℕ) (evs : List Event) (ev : Event)
      → links sha256 json_text format_time prev (stamp now evs ev) (stamp now evs ev).integrity
        ≡ links sha256 json_text format_time prev ev ev.integrity
  unfolding stamp hash canonical projection
  links-stamp prev now evs ev = refl

  stamp-entity_id :
      (now : ℕ) (evs : List Event) (ev : Event) → (stamp now evs ev).entity_id ≡ ev.entity_id
  unfolding stamp
  stamp-entity_id now evs ev = refl

  module _ (collection : Str) (now : ℕ) (f : Faults) (cfg : CollectionConfig) (cmd : IngestCommand)
      (st : Store) where
    commit-IsVerified :
        (v : ℕ) (ev : Event) (s : Fields) (deleted : Bool)
        → IsVerified collection st.events
        → links sha256 json_text format_time
            (reads collection ev.entity_id st.events)
            ev
            ev.integrity
          ≡ true
        → IsVerified collection (commit now f cfg cmd v st ev s deleted).0.events
    unfolding commit after_store
    commit-IsVerified v ev s deleted h l =
        let grown = IsVerified-append collection st.events (stamp now st.events ev) h (
          rw (stamp-entity_id now st.events ev)
            (rw (links-stamp (reads collection ev.entity_id st.events) now st.events ev) l)) in
        elim (Bool-cases f.append_fails) [
          | inl a ↦ rw a h
          | inr a ↦ elim (Bool-cases (is_duplicate ev.event_id st.events)) [
            | inl d ↦ rw a (rw d h)
            | inr d ↦ elim (Bool-cases f.upsert_fails) [
              | inl u ↦ rw a (rw d (rw u grown))
              | inr u ↦ rw a (rw d (rw u grown))
            ]
          ]
        ]

    hooked-IsVerified :
        (k : Event → Store × Outcome) (hooked : Option Str × Event)
        → IsVerified collection st.events
        → (hooked.0 ≡ none → IsVerified collection (k hooked.1).0.events)
        → IsVerified collection (commit_unless_closed k st hooked).0.events
    hooked-IsVerified k (none, ev) h c = c refl
    hooked-IsVerified k (some name, ev) h c = h

    module _ (others : List Plugin) (on : IsChained (some cfg)) where
      hooks-IsVerified :
          (cur : Option CurrentState) (ev : Event) (s : Fields) (deleted : Bool)
          → cmd.collection ≡ collection
          → IsVerified collection st.events
          → ev.entity_id ≡ cmd.entity_id
          → IsVerified collection
              (hooks_then_commit now f
                (others ++ chain sha256 json_text format_time ∷ [])
                cfg
                cmd
                cur
                st
                ev
                s
                deleted).0.events
      unfolding hooks_then_commit
      hooks-IsVerified cur ev s deleted same h own =
          let prev : EntityView = record {
            last_event = last_event cmd.entity_id st.events;
            current = cur;
          } in
          let plugins = others ++ chain sha256 json_text format_time ∷ [] in
          let hooked = run_pre_store cfg cmd.collection prev plugins ev in
          let kept = run_pre_store-IsSameWrite cfg cmd.collection prev plugins ev in
          let go = λ (e : Event). commit now f cfg cmd (base_state cur).1 st e s deleted in
          rw (has_pre_store-chain sha256 json_text format_time cfg cmd.collection prev on others)
            (elim (Bool-cases f.last_event_fails) [
              | inl lost ↦ rw lost h
              | inr found ↦ rw found (
                  hooked-IsVerified go hooked h (λ accepted.
                    commit-IsVerified (base_state cur).1 hooked.1 s deleted h (
                      rw (kept.entity_id ∙ own) (
                        subst
                          (λ c.
                            links sha256 json_text format_time (reads c cmd.entity_id st.events)
                              hooked.1 hooked.1.integrity
                            ≡ true)
                          same
                          (run-links sha256 json_text format_time cfg cmd.collection prev on others
                            ev accepted)))))
            ])

      plan-IsVerified :
          (cur : Option CurrentState) (p : Planned)
          → cmd.collection ≡ collection
          → IsVerified collection st.events
          → Owns cmd p
          → IsVerified collection
              (run_plan format_float
                (others ++ chain sha256 json_text format_time ∷ [])
                now
                f
                cfg
                cmd
                cur
                st
                p).0.events
      unfolding run_plan
      plan-IsVerified cur no_change same h own = h
      plan-IsVerified cur invalid_diff same h own = h
      plan-IsVerified cur unknown_kind same h own = h
      plan-IsVerified cur (planned ev s deleted) same h own =
          hooks-IsVerified cur ev s deleted same h own.0

  module _ (collection : Str) (others : List Plugin) where
    write-IsVerified :
        (now : ℕ) (f : Faults) (c : Option CollectionConfig) (kind : Kind) (cmd : IngestCommand)
        (st : Store)
        → cmd.collection ≡ collection
        → IsChained c
        → IsVerified collection st.events
        → IsVerified collection
            (apply_one format_float
              (others ++ chain sha256 json_text format_time ∷ [])
              now
              f
              c
              kind
              cmd
              st).0.events
    unfolding apply_one
    write-IsVerified now f none kind cmd st same on h = h
    write-IsVerified now f (some cfg) kind cmd st same on h =
        let cur = st.current cmd.entity_id in
        elim (Bool-cases f.load_fails) [
          | inl lost ↦ rw lost h
          | inr loaded ↦
              elim (Bool-cases (version_matches cmd.expected_version (base_state cur).1)) [
                | inr stale ↦ rw loaded (rw stale h)
                | inl fresh ↦ rw loaded (
                    rw fresh (
                      plan-IsVerified collection now f cfg cmd st others on cur
                        (plan_event format_float now cfg kind cmd cur) same h
                        (Owns-plan now cmd format_float cfg kind cur)))
              ]
        ]

    grown-IsVerified :
        (ws : List Write) (st : Store)
        → AreChained collection ws
        → IsVerified collection st.events
        → IsVerified collection
            (writes format_float (others ++ chain sha256 json_text format_time ∷ []) st ws).events
    grown-IsVerified [] st on h = h
    grown-IsVerified (w ∷ ws) st on h =
        grown-IsVerified ws
          (write format_float (others ++ chain sha256 json_text format_time ∷ []) st w) on.2
          (write-IsVerified w.now w.faults w.config w.kind w.cmd st on.0 on.1 h)

    -- After any single synchronous writes to an empty store of one collection, made one after the
    -- other with whatever failing calls of each, the stored history of each entity is verified from
    -- the genesis of the collection. The hash-chain plugin is the last one of the host and each
    -- configuration enables it as fail-closed; the other plugins do as they like. Overlapping writers
    -- and batches in fast mode are not covered.
    pub writes-verify :
        (ws : List Write) (e : Str)
        → AreChained collection ws
        → verify sha256 json_text format_time (genesis sha256 json_text format_time collection) (
            history e
              (writes format_float
                (others ++ chain sha256 json_text format_time ∷ [])
                empty_store
                ws).events)
          ≡ true
    unfolding history verify
    writes-verify ws e on = grown-IsVerified ws empty_store on (λ x. refl) e
