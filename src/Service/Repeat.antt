-- ===== src/Service/Repeat.antt =====
-- internal/service/ingest.go: a write that is applied again, by the unique index on event_id.
use letopis.Prelude.{
  ℕ, ◌≡◌, ◌⊎◌, refl, sym, ap, ◌∙◌, Str, Bool, true, false, Option, none, some, List, [], ◌∷◌, ◌++◌,
  Bool-cases, inl, inr, arith,
}
use letopis.Json.{Fields}
use letopis.Domain.Event.{Event, CurrentState}
use letopis.Domain.Collection.{CollectionConfig}
use letopis.Plugin.Host.{
  Plugin, EntityView, has_pre_store, run_pre_store, run_pre_store-IsSameWrite,
}
use letopis.Service.Command.{
  Kind, IngestCommand, Planned, no_change, invalid_diff, unknown_kind, planned,
}
use letopis.Service.Plan.{base_state, version_matches, plan_event}
use letopis.Service.Ingest.{
  Store, Faults, Outcome, last_event, stamp, has_event_id, is_empty, is_duplicate, after_store,
  commit, commit_unless_closed, hooks_then_commit, run_plan, apply_one,
}
use letopis.Service.History.{Owns, Owns-plan}

pub has_event_id-append :
    (id : Str) (evs : List Event) (ev : Event)
    → has_event_id id evs ≡ true
    → has_event_id id (evs ++ ev ∷ []) ≡ true
unfolding has_event_id
has_event_id-append id [] ev h = absurd (ground arith)
has_event_id-append id (x ∷ xs) ev h = ground (arith, has_event_id-append id xs ev)

-- A write leaves the store as it is, or appends an event with the given id to it, where no stored
-- event has it unless it is empty.
abbrev pub Records : Str → Store → Store → Type 0
Records id st u =
    (u ≡ st)
    ⊎ ((is_empty id ≡ false → has_event_id id st.events ≡ false)
        × ((ev : Event) × (ev.event_id ≡ id) × (u.events ≡ st.events ++ ev ∷ [])))

unless_duplicate :
    (id : Str) (evs : List Event)
    → is_duplicate id evs ≡ false
    → is_empty id ≡ false
    → has_event_id id evs ≡ false
unless_duplicate [] evs h named = absurd (ground arith)
unless_duplicate (c ∷ cs) evs h named = h

module _ (now : ℕ) (f : Faults) (cfg : CollectionConfig) (cmd : IngestCommand) (st : Store) where
  commit-Records :
      (v : ℕ) (ev : Event) (s : Fields) (deleted : Bool)
      → ev.event_id ≡ cmd.event_id
      → Records cmd.event_id st (commit now f cfg cmd v st ev s deleted).0
  unfolding commit after_store stamp
  commit-Records v ev s deleted same = elim (Bool-cases f.append_fails) [
    | inl a ↦ rw a (inl refl)
    | inr a ↦ elim (Bool-cases (is_duplicate ev.event_id st.events)) [
      | inl d ↦ rw a (rw d (inl refl))
      | inr d ↦
          let unseen =
            unless_duplicate cmd.event_id st.events
              (ap (λ x. is_duplicate x st.events) (sym same) ∙ d) in
          elim (Bool-cases f.upsert_fails) [
            | inl u ↦ rw a (rw d (rw u (inr (unseen, (stamp now st.events ev, same, refl)))))
            | inr u ↦ rw a (rw d (rw u (inr (unseen, (stamp now st.events ev, same, refl)))))
          ]
    ]
  ]

  closed-Records :
      (k : Event → Store × Outcome) (hooked : Option Str × Event)
      → Records cmd.event_id st (k hooked.1).0
      → Records cmd.event_id st (commit_unless_closed k st hooked).0
  closed-Records k (none, ev) h = h
  closed-Records k (some name, ev) h = inl refl

  module _ (plugins : List Plugin) (cur : Option CurrentState) where
    hooks-Records :
        (ev : Event) (s : Fields) (deleted : Bool)
        → ev.event_id ≡ cmd.event_id
        → Records cmd.event_id st (hooks_then_commit now f plugins cfg cmd cur st ev s deleted).0
    unfolding hooks_then_commit
    hooks-Records ev s deleted same =
        let prev : EntityView = record {
          last_event = last_event cmd.entity_id st.events;
          current = cur;
        } in
        let v = (base_state cur).1 in
        let hooked = run_pre_store cfg cmd.collection prev plugins ev in
        let kept = run_pre_store-IsSameWrite cfg cmd.collection prev plugins ev in
        elim (Bool-cases (has_pre_store cfg plugins)) [
          | inr none_on ↦ rw none_on (commit-Records v ev s deleted same)
          | inl some_on ↦ elim (Bool-cases f.last_event_fails) [
            | inl lost ↦ rw some_on (rw lost (inl refl))
            | inr found ↦ rw some_on (
                rw found (
                  closed-Records (λ e. commit now f cfg cmd v st e s deleted) hooked
                    (commit-Records v hooked.1 s deleted (kept.event_id ∙ same))))
          ]
        ]

    plan-Records :
        (format_float : ℕ → Str) (p : Planned)
        → Owns cmd p
        → Records cmd.event_id st (run_plan format_float plugins now f cfg cmd cur st p).0
    unfolding run_plan
    plan-Records format_float no_change own = inl refl
    plan-Records format_float invalid_diff own = inl refl
    plan-Records format_float unknown_kind own = inl refl
    plan-Records format_float (planned ev s deleted) own = hooks-Records ev s deleted own.1

module _ (format_float : ℕ → Str) (plugins : List Plugin) where
  -- A write leaves the store as it is, or appends one event with its event id. Unless the id is
  -- empty, no event was stored with it before.
  pub apply_one-Records :
      (now : ℕ) (f : Faults) (c : Option CollectionConfig) (kind : Kind) (cmd : IngestCommand)
      (st : Store)
      → Records cmd.event_id st (apply_one format_float plugins now f c kind cmd st).0
  unfolding apply_one
  apply_one-Records now f none kind cmd st = inl refl
  apply_one-Records now f (some cfg) kind cmd st =
      let cur = st.current cmd.entity_id in
      elim (Bool-cases f.load_fails) [
        | inl lost ↦ rw lost (inl refl)
        | inr loaded ↦ elim (Bool-cases (version_matches cmd.expected_version (base_state cur).1)) [
          | inr stale ↦ rw loaded (rw stale (inl refl))
          | inl fresh ↦ rw loaded (
              rw fresh (
                plan-Records now f cfg cmd st plugins cur format_float
                  (plan_event format_float now cfg kind cmd cur)
                  (Owns-plan now cmd format_float cfg kind cur)))
        ]
      ]
