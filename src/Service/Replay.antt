-- ===== src/Service/Replay.antt =====
-- A planned event, replayed by Reconstruct, leads to the state that the plan stores as current.
use letopis.Prelude.{
  ℕ, ◌≡◌, ◌≢◌, refl, sym, ◌∙◌, subst, Str, Bool, true, false, Option, none, some, List, [], ◌∷◌,
  if◌then◌else◌,
}
use letopis.Json.{Value, null, bool, num, int, int64, str, arr, obj, Fields, end, IsValue}
use letopis.Diff.Model.{Change, Result, ok, err}
use letopis.Diff.Compute.{diff}
use letopis.Diff.Apply.{apply}
use letopis.Diff.Plain.{IsPlain}
use letopis.Diff.Roundtrip.{apply-diff}
use letopis.Domain.Event.{EntityOp, Event, CurrentState}
use letopis.Domain.Collection.{CollectionConfig}
use letopis.Domain.Reconstruct
use letopis.Domain.Reconstruct.{replay_event}
use letopis.Service.Command.{Kind, IngestCommand, Planned, planned}
use letopis.Service.Plan.{
  base_state, resolve_op, build_event, diff_options, plan_state, plan_diff, plan_event,
  unless_empty, apply_changes, list_of,
}

-- The replay that has reached a state with its deletion flag.
abbrev pub reached : Fields → Bool → Reconstruct.Replay
reached s deleted = record { work = if deleted then end else s; report = s; deleted = deleted }

-- A map that Diff and Apply carry over.
abbrev pub IsCarried : Fields → Type 0
IsCarried m = IsValue (obj m) × IsPlain (obj m)

module _ (format_float : ℕ → Str) (now : ℕ) (cfg : CollectionConfig)
    (by_index : (p : Str) → (diff_options cfg).array_keys p ≡ none) (r : Reconstruct.Replay) where
  -- The plan is a no-op, an error, or an event whose replay from `r` reaches the planned state.
  abbrev pub Replays : Planned → Type 0
  Replays (planned ev s deleted) = replay_event format_float r ev ≡ ok (reached s deleted)
  Replays _ = Unit {0}

  Replays-changes :
      (cmd : IngestCommand) (op : EntityOp) (changes : List Change) (m : Fields)
      → op ≢ EntityOp.delete
      → apply format_float (obj r.work) changes ≡ ok (obj m)
      → Replays (unless_empty changes (planned (build_event now cmd op changes) m false))
  unfolding replay_event build_event
  Replays-changes cmd op [] m live h = tt
  Replays-changes cmd EntityOp.delete (c ∷ cs) m live h = absurd (live refl)
  Replays-changes cmd EntityOp.unset (c ∷ cs) m live h = rw h
  Replays-changes cmd EntityOp.create (c ∷ cs) m live h = rw h
  Replays-changes cmd EntityOp.update (c ∷ cs) m live h = rw h
  Replays-changes cmd (EntityOp.other o) (c ∷ cs) m live h = rw h

  Replays-delete :
      (cmd : IngestCommand) (changes : List Change)
      → Replays (planned (build_event now cmd EntityOp.delete changes) r.work true)
  unfolding replay_event build_event
  Replays-delete cmd changes = refl

  Replays-apply :
      (cmd : IngestCommand) (op : EntityOp) (changes : List Change) (o : Result Value)
      → op ≢ EntityOp.delete
      → apply format_float (obj r.work) changes ≡ o
      → Replays (
          apply_changes o
            λ m. unless_empty changes (planned (build_event now cmd op changes) m false))
  Replays-apply cmd op changes (ok (obj m)) live h = Replays-changes cmd op changes m live h
  Replays-apply cmd op changes (err e) live h = tt
  Replays-apply cmd op changes (ok null) live h = tt
  Replays-apply cmd op changes (ok (bool b)) live h = tt
  Replays-apply cmd op changes (ok (num n)) live h = tt
  Replays-apply cmd op changes (ok (int n)) live h = tt
  Replays-apply cmd op changes (ok (int64 n)) live h = tt
  Replays-apply cmd op changes (ok (str s)) live h = tt
  Replays-apply cmd op changes (ok (arr xs)) live h = tt

  Replays-state :
      (cmd : IngestCommand) (op : EntityOp)
      → op ≢ EntityOp.delete
      → IsCarried r.work
      → IsCarried cmd.state
      → let changes = diff format_float (obj r.work) (obj cmd.state) (diff_options cfg) in
        Replays (unless_empty changes (planned (build_event now cmd op changes) cmd.state false))
  Replays-state cmd op live gr gs =
      Replays-changes cmd op (diff format_float (obj r.work) (obj cmd.state) (diff_options cfg))
        cmd.state live
        (apply-diff format_float (diff_options cfg) by_index (obj r.work) (obj cmd.state) gr gs)

  Replays-diff :
      (cmd : IngestCommand) (op : EntityOp) (changes : Option (List Change))
      → (op ≡ EntityOp.create → changes ≡ none → (r.work ≡ end) × IsCarried cmd.state)
      → Replays (plan_diff format_float now cfg cmd op r.work changes)
  unfolding plan_diff
  Replays-diff cmd EntityOp.delete changes h = Replays-delete cmd (list_of changes)
  Replays-diff cmd EntityOp.create none h =
      let (fresh, carried) = h refl refl in
      subst
        (λ w.
          let changes = diff format_float (obj w) (obj cmd.state) (diff_options cfg) in
          Replays (
            unless_empty changes
              (planned (build_event now cmd EntityOp.create changes) cmd.state false)))
        fresh
        (Replays-state cmd EntityOp.create (λ e. cc) (subst IsCarried (sym fresh) (tt, tt)) carried)
  Replays-diff cmd EntityOp.create (some cs) h =
      Replays-apply cmd EntityOp.create cs (apply format_float (obj r.work) cs) (λ e. cc) refl
  Replays-diff cmd EntityOp.unset changes h =
      Replays-apply cmd EntityOp.unset (list_of changes)
        (apply format_float (obj r.work) (list_of changes)) (λ e. cc) refl
  Replays-diff cmd EntityOp.update changes h =
      Replays-apply cmd EntityOp.update (list_of changes)
        (apply format_float (obj r.work) (list_of changes)) (λ e. cc) refl
  Replays-diff cmd (EntityOp.other o) changes h =
      Replays-apply cmd (EntityOp.other o) (list_of changes)
        (apply format_float (obj r.work) (list_of changes)) (λ e. cc) refl

-- The writes whose event says all that the current state takes over: a full state that is not sent
-- as a delete, and a create with a full state only where there is no live state.
abbrev pub IsRecorded : CollectionConfig → Kind → IngestCommand → Option CurrentState → Type 0
IsRecorded cfg Kind.state cmd cur =
    (resolve_op cmd.op cur cfg ≢ EntityOp.delete)
    × IsCarried (base_state cur).0
    × IsCarried cmd.state
IsRecorded cfg Kind.diff cmd cur =
    resolve_op cmd.op cur cfg ≡ EntityOp.create
    → cmd.changes ≡ none
    → ((base_state cur).0 ≡ end) × IsCarried cmd.state
IsRecorded cfg _ cmd cur = Unit {0}

-- A replay that has reached what planEvent starts from reaches, with the planned event, the state
-- and the deletion flag that planEvent returns.
pub replay-plan_event :
    (format_float : ℕ → Str) (now : ℕ) (cfg : CollectionConfig)
    → ((p : Str) → (diff_options cfg).array_keys p ≡ none)
    → (kind : Kind) (cmd : IngestCommand) (cur : Option CurrentState) (r : Reconstruct.Replay)
    → r.work ≡ (base_state cur).0
    → IsRecorded cfg kind cmd cur
    → (ev : Event) (s : Fields) (deleted : Bool)
    → plan_event format_float now cfg kind cmd cur ≡ planned ev s deleted
    → replay_event format_float r ev ≡ ok (reached s deleted)
unfolding plan_event plan_state
replay-plan_event format_float now cfg by_index Kind.state cmd cur r w h ev s deleted e =
    subst (Replays format_float now cfg by_index r) e (
      subst
        (λ b.
          let changes = diff format_float (obj b) (obj cmd.state) (diff_options cfg) in
          Replays format_float now cfg by_index r (
            unless_empty changes
              (planned (build_event now cmd (resolve_op cmd.op cur cfg) changes) cmd.state false)))
        w
        (Replays-state format_float now cfg by_index r cmd (resolve_op cmd.op cur cfg) h.0
          (subst IsCarried (sym w) h.1) h.2))
replay-plan_event format_float now cfg by_index Kind.diff cmd cur r w h ev s deleted e =
    subst (Replays format_float now cfg by_index r) e (
      subst
        (λ b.
          Replays format_float now cfg by_index r
            (plan_diff format_float now cfg cmd (resolve_op cmd.op cur cfg) b cmd.changes))
        w
        (Replays-diff format_float now cfg by_index r cmd (resolve_op cmd.op cur cfg) cmd.changes
          (λ p q. (w ∙ (h p q).0, (h p q).1))))
replay-plan_event format_float now cfg by_index Kind.delete cmd cur r w h ev s deleted e =
    subst (Replays format_float now cfg by_index r) e (
      subst
        (λ b.
          Replays format_float now cfg by_index r
            (planned (build_event now cmd EntityOp.delete []) b true))
        w (Replays-delete format_float now cfg by_index r cmd []))
replay-plan_event format_float now cfg by_index (Kind.unknown k) cmd cur r w h ev s deleted e = cc
