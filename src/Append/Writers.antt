-- ===== src/Append/Writers.antt =====
-- internal/storage/mongo/event_repo.go: AppendEvent as steps of writers that run at the same time.
-- Between the read of the tail and the insert of one writer any other writer may take steps. The
-- unique indexes decide each insert; where both are violated, the driver may report either.
use letopis.Prelude.{
  ℕ, suc, ◌≡◌, Str, str_eq, Bool, true, false, ◌&&◌, List, [], ◌∷◌, ◌++◌, ◌==◌, if◌then◌else◌,
}
use letopis.Domain.Event.{Event}
use letopis.Service.Ingest.{last_event, version_of, is_duplicate}

-- the rounds of the loop
abbrev pub max_append_retries : ℕ
max_append_retries = 16

-- The place of a writer: before the read of the tail with the rounds that are left, behind it with
-- the version that it found, or returned.
pub data Place : Type 0 where
  idle : Place
  start : Event → ℕ → Place
  tailed : Event → ℕ → ℕ → Place
  appended : Event → Place
  duplicate conflict failed : Place

pub record System : Type 0 where
  pub events : List Event
  pub writer : ℕ → Place

-- lastVersion
unfoldable pub last_version : Str → List Event → ℕ
unfolding last_event
last_version e evs = version_of (last_event e evs)

-- the unique index on entity and version
unfoldable pub has_version : Str → ℕ → List Event → Bool
has_version e v [] = false
has_version e v (ev ∷ evs) =
    if str_eq ev.entity_id e && ev.version == v then true else has_version e v evs

-- The event as it is inserted. Its stored time stays set for the next round.
abbrev pub versioned : ℕ → ℕ → Event → Event
versioned now v ev = record ev {
  version = suc v;
  ts_stored = if ev.ts_stored == 0 then now else ev.ts_stored;
}

abbrev pub update : ℕ → Place → (ℕ → Place) → ℕ → Place
update i p w j = if i == j then p else w j

abbrev pub moved : System → ℕ → Place → System
moved s i p = record s { writer = update i p s.writer }

abbrev pub inserted : System → ℕ → Event → System
inserted s i ev = record { events = s.events ++ ev ∷ []; writer = update i (appended ev) s.writer }

pub data Step (s : System) : System → Type 0 where
  call : (i : ℕ) (ev : Event) → s.writer i ≡ idle → Step s (moved s i (start ev max_append_retries))
  read_tail :
      (i : ℕ) (ev : Event) (left : ℕ)
      → s.writer i ≡ start ev (suc left)
      → Step s (moved s i (tailed ev left (last_version ev.entity_id s.events)))
  give_up : (i : ℕ) (ev : Event) → s.writer i ≡ start ev 0 → Step s (moved s i conflict)
  clash :
      (i now : ℕ) (ev : Event) (left v : ℕ)
      → s.writer i ≡ tailed ev left v
      → has_version ev.entity_id (suc v) s.events ≡ true
      → Step s (moved s i (start (versioned now v ev) left))
  repeated :
      (i : ℕ) (ev : Event) (left v : ℕ)
      → s.writer i ≡ tailed ev left v
      → is_duplicate ev.event_id s.events ≡ true
      → Step s (moved s i duplicate)
  insert :
      (i now : ℕ) (ev : Event) (left v : ℕ)
      → s.writer i ≡ tailed ev left v
      → has_version ev.entity_id (suc v) s.events ≡ false
      → is_duplicate ev.event_id s.events ≡ false
      → Step s (inserted s i (versioned now v ev))
  read_fails :
      (i : ℕ) (ev : Event) (left : ℕ) → s.writer i ≡ start ev (suc left) → Step s (moved s i failed)
  insert_fails :
      (i : ℕ) (ev : Event) (left v : ℕ) → s.writer i ≡ tailed ev left v → Step s (moved s i failed)

pub data Reach (s : System) : System → Type 0 where
  here : Reach s s
  next : {t u : System} → Reach s t → Step t u → Reach s u
