-- ===== src/Read/PointInTime.antt =====
-- Point-in-time reads of a store that any writes have left: the state at a version is what the
-- events up to it reconstruct to, with or without a snapshot.
use letopis.Prelude.{
  ℕ, Bool, ◌≡◌, ◌≤◌, ◌<◌, sym, ap, ◌∙◌, Str, false, Option, none, some, List, [], ◌∷◌, length,
  take-length, arith,
}
use letopis.Json.{Fields, end}
use letopis.Diff.Model
use letopis.Domain.Event.{Event}
use letopis.Domain.Reconstruct.{reconstruct}
use letopis.Plugin.Host.{Plugin}
use letopis.Service.Ingest.{Store, history, last_of, last_event}
use letopis.Service.History.{
  Write, writes, empty_store, AreRecorded, writes-IsSynced, empty-IsSynced, writes-reconstruct,
  current_view,
}
use letopis.Service.History.Synced.{IsNumbered, IsSynced}
use letopis.Read.Query.{is_empty}
use letopis.Read.StateAt.{
  PointInTimeQuery, ReconstructedState, ok, ReadFaults, smaller, resolve_target, state_at,
}
use letopis.Read.Anchored.{IsRebuilt, read_at-IsRebuilt, last_of-numbered}

module _ (format_float : ℕ → Str) (st : Store) (synced : IsSynced format_float st) (e : Str)
    (f : ReadFaults) where
  -- the newest event, which has the highest version
  newest :
      (own : List Event)
      → IsNumbered 0 own
      → 0 < length own
      → (ev : Event) × ((last_of none own ≡ some ev) × (ev.version ≡ length own))
  newest [] n h = absurd (omega arith)
  newest (x ∷ xs) n h =
      let (ev, (found, v)) = last_of-numbered 0 none x xs n in (ev, (found, omega arith))

  -- StateAt, once the target is known
  state_at-IsRebuilt :
      (q : PointInTimeQuery) (last : Event) (target : ℕ)
      → f.last_fails ≡ false
      → f.list_fails ≡ false
      → is_empty e ≡ false
      → last_of none (history e st.events) ≡ some last
      → resolve_target f st e last q.version q.at ≡ ok target
      → 0 < target
      → target ≤ length (history e st.events)
      → (rs : ReconstructedState) × ((state_at format_float f st e q ≡ ok rs)
          × IsRebuilt format_float st synced e target rs)
  unfolding state_at last_event
  state_at-IsRebuilt q last target fine listed named found to positive fits =
      let (rs, (built, right)) =
        read_at-IsRebuilt format_float st synced e f target named positive fits in
      (rs, (simp (fine, found, to, listed) built, right))

  smaller_bounds : (a b : ℕ) → 0 < a → 0 < b → (0 < smaller a b) × (smaller a b ≤ b)
  smaller_bounds a b h k = ground arith

  -- StateAt at a version
  pub version-IsRebuilt :
      (v : ℕ) (at : Option ℕ)
      → f.last_fails ≡ false
      → f.list_fails ≡ false
      → is_empty e ≡ false
      → 0 < v
      → 0 < length (history e st.events)
      → (rs : ReconstructedState) × ((state_at format_float f st e
              (record { version = some v; at = at })
            ≡ ok rs)
          × IsRebuilt format_float st synced e (smaller v (length (history e st.events))) rs)
  unfolding resolve_target
  version-IsRebuilt v at fine listed named positive some_events =
      let own = history e st.events in
      let (last, (found, v_last)) = newest own (synced.entities e).numbered some_events in
      let bounds = smaller_bounds v (length own) positive some_events in
      state_at-IsRebuilt (record { version = some v; at = at }) last (smaller v (length own)) fine
        listed named found (ap (λ n. ok (smaller v n)) v_last) bounds.0 bounds.1

  -- StateAt at the latest version
  pub latest-IsRebuilt :
      f.last_fails ≡ false
      → f.list_fails ≡ false
      → is_empty e ≡ false
      → 0 < length (history e st.events)
      → (rs : ReconstructedState) × ((state_at format_float f st e
              (record { version = none; at = none })
            ≡ ok rs)
          × IsRebuilt format_float st synced e (length (history e st.events)) rs)
  unfolding resolve_target
  latest-IsRebuilt fine listed named some_events =
      let own = history e st.events in
      let (last, (found, v_last)) = newest own (synced.entities e).numbered some_events in
      state_at-IsRebuilt (record { version = none; at = none }) last (length own) fine listed named
        found (ap (λ n. ok n) v_last) some_events (omega arith)

ok_pair :
    (a b : Fields × Bool) → ◌≡◌ {A = Model.Result (Fields × Bool)} (Model.ok a) (Model.ok b) → a ≡ b
ok_pair a b h = cc

module _ (format_float : ℕ → Str) (plugins : List Plugin) (ws : List Write) (e : Str)
    (f : ReadFaults) (rec : AreRecorded format_float plugins empty_store ws) where
  abbrev store : Store
  store = writes format_float plugins empty_store ws

  -- A read of the latest version, under the same conditions, gives the stored current state with
  -- its deletion flag.
  pub state_at-current :
      f.last_fails ≡ false
      → f.list_fails ≡ false
      → is_empty e ≡ false
      → 0 < length (history e store.events)
      → (rs : ReconstructedState) × (state_at format_float f store e
            (record { version = none; at = none })
          ≡ ok rs)
        × ((rs.state, rs.deleted) ≡ current_view (store.current e))
  state_at-current fine listed named some_events =
      let synced =
        writes-IsSynced format_float plugins ws empty_store rec
          (empty-IsSynced format_float plugins) in
      let (rs, (read, (version, right))) =
        latest-IsRebuilt format_float store synced e f fine listed named some_events in
      let own = history e store.events in
      let whole = writes-reconstruct format_float plugins ws e rec in
      (
        rs,
        read,
        ok_pair (rs.state, rs.deleted) (current_view (store.current e))
            (sym right
              ∙ ap (reconstruct format_float end false) (take-length (length own) own (omega arith))
              ∙ whole.0),
      )
