-- ===== src/Service/History.antt =====
-- The store of a collection after any writes: each entity's events replay to its current state.
pub mod Synced
mod Pinned
mod Commit
use letopis.Prelude.{
  ℕ, zero, suc, ◌≡◌, refl, sym, ap, ◌∙◌, Str, Bool, true, false, Option, none, some, List, [], ◌∷◌,
  length, if◌then◌else◌, Bool-cases, inl, inr, arith,
}
use letopis.Json.{Value, null, bool, num, int, int64, str, arr, obj, Fields, end}
use letopis.Diff.Model.{Change, Result, ok, err, ◌>>=◌}
use letopis.Diff.Compute.{diff}
use letopis.Diff.Apply.{apply}
use letopis.Domain.Event.{EntityOp, Event, CurrentState}
use letopis.Domain.Collection.{CollectionConfig}
use letopis.Domain.Reconstruct
use letopis.Domain.Reconstruct.{start, replay, reconstruct}
use letopis.Plugin.Host.{Plugin}
use letopis.Service.Command.{
  Kind, IngestCommand, Planned, no_change, invalid_diff, unknown_kind, planned,
}
use letopis.Service.Plan.{
  base_state, resolve_op, version_matches, diff_options, build_event, plan_state, plan_changes,
  plan_create, plan_diff, plan_event, unless_empty, apply_changes, list_of,
}
use letopis.Service.Replay.{reached, IsRecorded, replay-plan_event}
use letopis.Service.Ingest.{Store, Faults, Outcome, history, run_plan, apply_one}
use Synced.{reached_current, IsNumbered, IsSyncedAt, IsSynced}
use Commit.{hooks-IsSynced}

-- A planned event is one of the command's entity and event id.
abbrev pub Owns : IngestCommand → Planned → Type 0
Owns cmd (planned ev s deleted) = (ev.entity_id ≡ cmd.entity_id) × (ev.event_id ≡ cmd.event_id)
Owns cmd _ = Unit {0}

module _ (now : ℕ) (cmd : IngestCommand) where
  Owns-unless :
      (op : EntityOp) (cs : List Change) (m : Fields)
      → Owns cmd (unless_empty cs (planned (build_event now cmd op cs) m false))
  unfolding build_event
  Owns-unless op [] m = tt
  Owns-unless op (c ∷ cs) m = (refl, refl)

  Owns-apply :
      (op : EntityOp) (cs : List Change) (o : Result Value)
      → Owns cmd
          (apply_changes o λ m. unless_empty cs (planned (build_event now cmd op cs) m false))
  Owns-apply op cs (ok (obj m)) = Owns-unless op cs m
  Owns-apply op cs (err e) = tt
  Owns-apply op cs (ok null) = tt
  Owns-apply op cs (ok (bool b)) = tt
  Owns-apply op cs (ok (num n)) = tt
  Owns-apply op cs (ok (int n)) = tt
  Owns-apply op cs (ok (int64 n)) = tt
  Owns-apply op cs (ok (str s)) = tt
  Owns-apply op cs (ok (arr xs)) = tt

  module _ (format_float : ℕ → Str) (cfg : CollectionConfig) where
    Owns-diff :
        (op : EntityOp) (base : Fields) (cs : Option (List Change))
        → Owns cmd (plan_diff format_float now cfg cmd op base cs)
    unfolding plan_diff build_event
    Owns-diff EntityOp.delete base cs = (refl, refl)
    Owns-diff EntityOp.create base none = Owns-unless EntityOp.create _ _
    Owns-diff EntityOp.create base (some cs) = Owns-apply EntityOp.create cs _
    Owns-diff EntityOp.unset base cs = Owns-apply EntityOp.unset (list_of cs) _
    Owns-diff EntityOp.update base cs = Owns-apply EntityOp.update (list_of cs) _
    Owns-diff (EntityOp.other o) base cs = Owns-apply (EntityOp.other o) (list_of cs) _

    pub Owns-plan :
        (kind : Kind) (cur : Option CurrentState)
        → Owns cmd (plan_event format_float now cfg kind cmd cur)
    unfolding plan_event build_event
    Owns-plan Kind.state cur = Owns-unless (resolve_op cmd.op cur cfg) _ _
    Owns-plan Kind.diff cur = Owns-diff (resolve_op cmd.op cur cfg) (base_state cur).0 cmd.changes
    Owns-plan Kind.delete cur = (refl, refl)
    Owns-plan (Kind.unknown k) cur = tt

-- One write, with the configuration that it resolves to.
pub record Write : Type 0 where
  pub now : ℕ
  pub faults : Faults
  pub config : Option CollectionConfig
  pub kind : Kind
  pub cmd : IngestCommand

-- The configuration compares no array by key, and the write's event says all that the current
-- state takes over.
abbrev pub IsRecordedWith :
    Option CollectionConfig → Kind → IngestCommand → Option CurrentState → Type 0
IsRecordedWith none kind cmd cur = Unit {0}
IsRecordedWith (some cfg) kind cmd cur =
    ((p : Str) → (diff_options cfg).array_keys p ≡ none) × IsRecorded cfg kind cmd cur

reached_work : (cur : Option CurrentState) → (reached_current cur).work ≡ (base_state cur).0
unfolding base_state
reached_work none = refl
reached_work (some st) = refl

abbrev pub empty_store : Store
empty_store = record { events = []; current = λ e. none; snapshots = []; evaluated = [] }

-- The state and deletion flag of a current state, where a missing one is the empty object.
abbrev pub current_view : Option CurrentState → Fields × Bool
current_view none = (end, false)
current_view (some st) = (st.state, st.deleted)

view_of_reached :
    (cur : Option CurrentState) → Reconstruct.outcome (reached_current cur) ≡ current_view cur
view_of_reached none = refl
view_of_reached (some st) = refl

module _ (format_float : ℕ → Str) (plugins : List Plugin) where
  plan-IsSynced :
      (now : ℕ) (f : Faults) (cfg : CollectionConfig) (cmd : IngestCommand) (st : Store)
      (p : Planned)
      → f.upsert_fails ≡ false
      → IsSynced format_float st
      → Owns cmd p
      → ((ev : Event) (s : Fields) (deleted : Bool)
          → p ≡ planned ev s deleted
          → Reconstruct.replay_event format_float (reached_current (st.current cmd.entity_id)) ev
            ≡ ok (reached s deleted))
      → IsSynced format_float
          (run_plan format_float plugins now f cfg cmd (st.current cmd.entity_id) st p).0
  unfolding run_plan
  plan-IsSynced now f cfg cmd st no_change up h o r = h
  plan-IsSynced now f cfg cmd st invalid_diff up h o r = h
  plan-IsSynced now f cfg cmd st unknown_kind up h o r = h
  plan-IsSynced now f cfg cmd st (planned ev s deleted) up h o r =
      hooks-IsSynced format_float now f plugins cfg cmd st ev s deleted up h o.0
        (r ev s deleted refl)

  resolved-IsSynced :
      (now : ℕ) (f : Faults) (cfg : CollectionConfig) (kind : Kind) (cmd : IngestCommand)
      (st : Store)
      → f.upsert_fails ≡ false
      → IsRecordedWith (some cfg) kind cmd (st.current cmd.entity_id)
      → IsSynced format_float st
      → IsSynced format_float (apply_one format_float plugins now f (some cfg) kind cmd st).0
  unfolding apply_one
  resolved-IsSynced now f cfg kind cmd st up rec h =
      let cur = st.current cmd.entity_id in
      elim (Bool-cases f.load_fails) [
        | inl lost ↦ rw lost h
        | inr loaded ↦ elim (Bool-cases (version_matches cmd.expected_version (base_state cur).1)) [
          | inr stale ↦ rw loaded (rw stale h)
          | inl current ↦ rw loaded (
              rw current (
                plan-IsSynced now f cfg cmd st (plan_event format_float now cfg kind cmd cur) up h
                  (Owns-plan now cmd format_float cfg kind cur)
                  (λ ev s deleted e.
                    replay-plan_event format_float now cfg rec.0 kind cmd cur (reached_current cur)
                      (reached_work cur) rec.1 ev s deleted e)))
        ]
      ]

  config-IsSynced :
      (now : ℕ) (f : Faults) (c : Option CollectionConfig) (kind : Kind) (cmd : IngestCommand)
      (st : Store)
      → f.upsert_fails ≡ false
      → IsRecordedWith c kind cmd (st.current cmd.entity_id)
      → IsSynced format_float st
      → IsSynced format_float (apply_one format_float plugins now f c kind cmd st).0
  unfolding apply_one
  config-IsSynced now f none kind cmd st up rec h = h
  config-IsSynced now f (some cfg) kind cmd st up rec h =
      resolved-IsSynced now f cfg kind cmd st up rec h

  abbrev pub write : Store → Write → Store
  write st w = (apply_one format_float plugins w.now w.faults w.config w.kind w.cmd st).0

  abbrev pub writes : Store → List Write → Store
  writes st [] = st
  writes st (w ∷ ws) = writes (write st w) ws

  -- Each write is recorded at the state that it meets, and its refresh of the current state works.
  abbrev pub AreRecorded : Store → List Write → Type 0
  AreRecorded st [] = Unit {0}
  AreRecorded st (w ∷ ws) =
      (w.faults.upsert_fails ≡ false)
      × IsRecordedWith w.config w.kind w.cmd (st.current w.cmd.entity_id)
      × AreRecorded (write st w) ws

  pub writes-IsSynced :
      (ws : List Write) (st : Store)
      → AreRecorded st ws
      → IsSynced format_float st
      → IsSynced format_float (writes st ws)
  writes-IsSynced [] st rec h = h
  writes-IsSynced (w ∷ ws) st rec h =
      writes-IsSynced ws (write st w) rec.2
        (config-IsSynced w.now w.faults w.config w.kind w.cmd st rec.0 rec.1 h)

  pub empty-IsSynced : IsSynced format_float empty_store
  unfolding history replay base_state
  empty-IsSynced = record {
    entities = λ e. record { replays = refl; numbered = tt; version = refl };
    snapshots = tt;
  }

  pub writes-reconstruct :
      (ws : List Write) (e : Str)
      → AreRecorded empty_store ws
      → let st = writes empty_store ws in
        (reconstruct format_float end false (history e st.events)
          ≡ ok (current_view (st.current e)))
        × IsNumbered 0 (history e st.events)
        × ((base_state (st.current e)).1 ≡ length (history e st.events))
  unfolding reconstruct start
  writes-reconstruct ws e rec =
      let h = (writes-IsSynced ws empty_store rec empty-IsSynced).entities e in
      (
        rw h.replays (ap ok (view_of_reached ((writes empty_store ws).current e))),
        h.numbered,
        h.version,
      )
