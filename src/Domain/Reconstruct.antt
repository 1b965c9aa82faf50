-- ===== src/Domain/Reconstruct.antt =====
-- internal/domain/snapshot_recon.go: ShouldSnapshot and Reconstruct.
-- A nil map is the empty object here, as `emptyIfNil` has it.
pub mod Anchor
use letopis.Prelude.{
  ℕ, zero, suc, ◌%◌, Str, Bool, true, false, ◌||◌, List, [], ◌∷◌, ltb, ◌==◌, if◌then◌else◌,
}
use letopis.Prelude.Int.{ℤ, pos, negsuc}
use letopis.Json.{Value, obj, Fields, end}
use letopis.Diff.Model.{Change, Result, ok, err, ◌>>=◌}
use letopis.Diff.Apply.{apply}
use letopis.Domain.Event.{Event, EntityOp, unset, create, update, delete, other}

-- Versions are never negative; the interval is an int of the configuration.
unfoldable pub should_snapshot : ℕ → ℤ → Bool
should_snapshot version (negsuc i) = false
should_snapshot version (pos zero) = false
should_snapshot zero (pos (suc i)) = false
should_snapshot (suc v) (pos (suc i)) = (suc v % suc i) == 0

-- what the loop of Reconstruct carries
pub record Replay : Type 0 where
  pub work : Fields
  pub report : Fields
  pub deleted : Bool

-- `m, _ := applied.(map[string]any)`, with the empty object for nil
abbrev pub as_map : Value → Fields
as_map (obj m) = m
as_map _ = end

unfoldable pub start : Fields → Bool → Replay
start base base_deleted = record {
  work = if base_deleted then end else base;
  report = base;
  deleted = base_deleted;
}

-- what Reconstruct returns
abbrev pub outcome : Replay → Fields × Bool
outcome r = (r.report, r.deleted)

abbrev pub is_delete : EntityOp → Bool
is_delete delete = true
is_delete _ = false

module _ (format_float : ℕ → Str) where
  -- one round of the loop
  unfoldable pub replay_event : Replay → Event → Result Replay
  replay_event r ev =
      if is_delete ev.op then ok (record { work = end; report = r.work; deleted = true }) else do
        applied ← apply format_float (obj r.work) ev.changes
        let m = as_map applied
        ok (record { work = m; report = m; deleted = false })

  unfoldable pub replay : Replay → List Event → Result Replay
  unfolding replay_event
  replay r [] = ok r
  replay r (ev ∷ evs) = do r' ← replay_event r ev; replay r' evs

  unfoldable pub reconstruct : Fields → Bool → List Event → Result (Fields × Bool)
  unfolding replay start
  reconstruct base base_deleted events = do
    r ← replay (start base base_deleted) events
    ok (outcome r)
