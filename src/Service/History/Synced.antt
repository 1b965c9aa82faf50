-- ===== src/Service/History/Synced.antt =====
-- What the store of a collection knows of an entity, and one more event of its history.
use letopis.Prelude.{
  ℕ, suc, ◌+◌, ◌≡◌, refl, ap, ◌∙◌, Str, str_eq, false, Option, none, some, List, [], ◌∷◌, ◌++◌,
  length, length-append, take, take-append_short, All, ◌≤◌, if◌then◌else◌, arith, Bool-cases, inl,
  inr, str_eq,
}
use letopis.Json.{end}
use letopis.Diff.Model.{ok}
use letopis.Domain.Event.{Event, CurrentState, Snapshot}
use letopis.Domain.Reconstruct
use letopis.Domain.Reconstruct.{start, replay, replay_event, reconstruct}
use letopis.Domain.Reconstruct.Anchor.{replay-append}
use letopis.Plugin.Host.{IsSameWrite}
use letopis.Service.Plan.{base_state}
use letopis.Service.Replay.{reached}
use letopis.Service.Ingest.{Store, history, last_of, last_event, version_of, stamp}

-- The replay that ends in the current state.
abbrev pub reached_current : Option CurrentState → Reconstruct.Replay
reached_current none = reached end false
reached_current (some st) = reached st.state st.deleted

-- Versions count up by one from `n`.
abbrev pub IsNumbered : ℕ → List Event → Type 0
IsNumbered n [] = Unit {0}
IsNumbered n (ev ∷ evs) = (ev.version ≡ suc n) × IsNumbered (suc n) evs

-- What the store knows of one entity: its events replay to its current state, their versions are
-- 1, 2, 3 and so on, and the current state has the last one.
pub record IsSyncedAt (format_float : ℕ → Str) (evs : List Event) (cur : Option CurrentState)
    : Type 0 where
  pub replays : replay format_float (reached end false) evs ≡ ok (reached_current cur)
  pub numbered : IsNumbered 0 evs
  pub version : (base_state cur).1 ≡ length evs

-- A snapshot holds what the events up to its version replay to.
abbrev pub IsPinned : (ℕ → Str) → List Event → Snapshot → Type 0
IsPinned format_float evs sn =
    let own = history sn.entity_id evs in
    (sn.version ≤ length own)
    × (replay format_float (reached end false) (take sn.version own)
        ≡ ok (reached sn.state sn.deleted))

pub record IsSynced (format_float : ℕ → Str) (st : Store) : Type 0 where
  pub entities : (e : Str) → IsSyncedAt format_float (history e st.events) (st.current e)
  pub snapshots : All (IsPinned format_float st.events) st.snapshots

pub history-append :
    (e : Str) (evs : List Event) (ev : Event)
    → history e (evs ++ ev ∷ [])
      ≡ (if str_eq ev.entity_id e then history e evs ++ ev ∷ [] else history e evs)
unfolding history
history-append e [] ev = refl
history-append e (x ∷ evs) ev = ground (arith, history-append e evs ev)

pub IsNumbered-append :
    (n : ℕ) (evs : List Event) (ev : Event)
    → IsNumbered n evs
    → ev.version ≡ suc (n + length evs)
    → IsNumbered n (evs ++ ev ∷ [])
IsNumbered-append n [] ev h e = (omega arith, tt)
IsNumbered-append n (x ∷ evs) ev h e = (h.0, IsNumbered-append (suc n) evs ev h.1 (omega arith))

-- One more event leaves a snapshot pinned.
pub IsPinned-append :
    (format_float : ℕ → Str) (evs : List Event) (ev : Event) (sn : Snapshot)
    → IsPinned format_float evs sn
    → IsPinned format_float (evs ++ ev ∷ []) sn
IsPinned-append format_float evs ev sn h = elim (Bool-cases (str_eq ev.entity_id sn.entity_id)) [
  | inr other ↦ rw (history-append sn.entity_id evs ev) (rw other h)
  | inl own ↦ rw (history-append sn.entity_id evs ev) (
      rw own (
        omega (arith, length-append (history sn.entity_id evs) (ev ∷ [])),
        rw (take-append_short sn.version (history sn.entity_id evs) (ev ∷ []) h.0) h.1,
      ))
]

pub version_of-last_of :
    (n : ℕ) (o : Option Event) (evs : List Event)
    → version_of o ≡ n
    → IsNumbered n evs
    → version_of (last_of o evs) ≡ n + length evs
version_of-last_of n o [] e h = omega arith
version_of-last_of n o (x ∷ evs) e h = version_of-last_of (suc n) (some x) evs h.0 h.1 ∙ omega arith

length-snoc : (evs : List Event) (ev : Event) → length (evs ++ ev ∷ []) ≡ suc (length evs)
length-snoc [] ev = refl
length-snoc (x ∷ evs) ev = ap suc (length-snoc evs ev)

module _ (format_float : ℕ → Str) where
  replay-snoc :
      (r s t : Reconstruct.Replay) (evs : List Event) (ev : Event)
      → replay format_float r evs ≡ ok s
      → replay_event format_float s ev ≡ ok t
      → replay format_float r (evs ++ ev ∷ []) ≡ ok t
  unfolding replay
  replay-snoc r s t evs ev h k = rw (replay-append format_float r evs (ev ∷ [])) (rw h (rw k))

  pub replay_event-IsSameWrite :
      (r : Reconstruct.Replay) (a b : Event)
      → IsSameWrite a b
      → replay_event format_float r a ≡ replay_event format_float r b
  unfolding replay_event
  replay_event-IsSameWrite r a b h = rw (h.op, h.changes)

  -- One more event, stamped with the next version.
  pub IsSyncedAt-snoc :
      (evs : List Event) (cur : Option CurrentState) (ev : Event) (st : CurrentState)
      → IsSyncedAt format_float evs cur
      → ev.version ≡ suc (length evs)
      → st.version ≡ ev.version
      → replay_event format_float (reached_current cur) ev ≡ ok (reached st.state st.deleted)
      → IsSyncedAt format_float (evs ++ ev ∷ []) (some st)
  unfolding base_state
  IsSyncedAt-snoc evs cur ev st h v w r = record {
    replays =
        replay-snoc (reached end false) (reached_current cur) (reached st.state st.deleted) evs ev
          h.replays r;
    numbered = IsNumbered-append 0 evs ev h.numbered (omega arith);
    version = omega (arith, length-snoc evs ev);
  }

  pub stamp-version :
      (now : ℕ) (evs : List Event) (ev : Event)
      → IsNumbered 0 (history ev.entity_id evs)
      → (stamp now evs ev).version ≡ suc (length (history ev.entity_id evs))
  unfolding stamp last_event
  stamp-version now evs ev h =
      omega (arith, version_of-last_of 0 none (history ev.entity_id evs) refl h)

  pub replay_event-stamp :
      (r : Reconstruct.Replay) (now : ℕ) (evs : List Event) (ev : Event)
      → replay_event format_float r (stamp now evs ev) ≡ replay_event format_float r ev
  unfolding replay_event stamp
  replay_event-stamp r now evs ev = refl
