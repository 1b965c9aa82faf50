-- ===== src/Read/Query.antt =====
-- internal/domain/ports.go: EventFilter, and internal/storage/mongo/event_repo.go: ListEvents, with
-- historyFilter, timeWindow, cursorPredicate and historyOptions. A query document is read as the
-- documents that it selects, in its sort order, up to its limit.
use letopis.Prelude.{
  ℕ, zero, suc, Str, str_eq, Bool, true, false, ◌&&◌, ◌||◌, Option, none, some, List, [], ◌∷◌, take,
  length, ltb, leb, ◌==◌, if◌then◌else◌,
}
use letopis.Diff.Model.{Change}
use letopis.Domain.Event.{Event, EntityOp}

pub data OrderField : Type 0 where
  by_version by_source by_received : OrderField

pub data SortOrder : Type 0 where
  ascending descending : SortOrder

-- The time of a version cursor is the zero time.
pub record Position : Type 0 where
  pub version : ℕ
  pub ts : ℕ

-- An empty text, an unset op and a zero impose nothing. The transport sends no negative limit or
-- version.
pub record EventFilter : Type 0 where
  pub entity_id : Str
  pub from_time : ℕ
  pub to_time : ℕ
  pub author : Str
  pub op : EntityOp
  pub path : Str
  pub source : Str
  pub order_by : OrderField
  pub order : SortOrder
  pub limit : ℕ
  pub after : Option Position
  pub max_version : ℕ

-- the stored field that a query sorts by
unfoldable pub sort_field : OrderField → Event → ℕ
sort_field by_version ev = ev.version
sort_field by_source ev = ev.ts_source
sort_field by_received ev = ev.ts_received

abbrev pub is_empty : Str → Bool
is_empty [] = true
is_empty (c ∷ cs) = false

abbrev pub same_text : Str → Str → Bool
same_text wanted s = if is_empty wanted then true else str_eq s wanted

abbrev pub op_eq : EntityOp → EntityOp → Bool
op_eq EntityOp.create EntityOp.create = true
op_eq EntityOp.update EntityOp.update = true
op_eq EntityOp.delete EntityOp.delete = true
op_eq (EntityOp.other a) (EntityOp.other b) = str_eq a b
op_eq _ _ = false

abbrev pub same_op : EntityOp → EntityOp → Bool
same_op EntityOp.unset o = true
same_op wanted o = op_eq wanted o

-- `$gte` and `$lte` on the received time
unfoldable pub in_window : ℕ → ℕ → ℕ → Bool
in_window from_time to_time ts =
    (if from_time == 0 then true else leb from_time ts)
    && (if to_time == 0 then true else leb ts to_time)

-- `($|\.|\[)`, where `$` also stands before a final newline
abbrev pub ends_path : Str → Bool
ends_path [] = true
ends_path (c ∷ []) = c == b'.' || (c == b'[' || c == 10)
ends_path (c ∷ d ∷ cs) = c == b'.' || c == b'['

-- the anchored pattern of a path, on one changed path
unfoldable pub touches : Str → Str → Bool
touches [] s = ends_path s
touches (p ∷ ps) [] = false
touches (p ∷ ps) (c ∷ cs) = p == c && touches ps cs

unfoldable pub some_touches : Str → List Change → Bool
unfolding touches
some_touches path [] = false
some_touches path (ch ∷ chs) = if touches path ch.path then true else some_touches path chs

abbrev pub same_path : Str → List Change → Bool
same_path [] chs = true
same_path (c ∷ cs) chs = some_touches (c ∷ cs) chs

-- Does the first key stand before the second in the order of the query?
unfoldable pub comes_before : SortOrder → ℕ → ℕ → Bool
comes_before ascending a b = ltb a b
comes_before descending a b = ltb b a

-- cursorPredicate: one comparison on the version, or one on the time and then the version
unfoldable pub is_after : OrderField → SortOrder → Position → Event → Bool
unfolding comes_before sort_field
is_after by_version order pos ev = comes_before order pos.version ev.version
is_after field order pos ev =
    comes_before order pos.ts (sort_field field ev)
    || (sort_field field ev == pos.ts && comes_before order pos.version ev.version)

abbrev pub after_cursor : OrderField → SortOrder → Option Position → Event → Bool
after_cursor field order none ev = true
after_cursor field order (some pos) ev = is_after field order pos ev

-- historyFilter without its cursor
unfoldable pub selects : EventFilter → Event → Bool
unfolding in_window some_touches
selects f ev =
    same_text f.entity_id ev.entity_id
    && (same_op f.op ev.op
        && (same_text f.author ev.author
            && (same_text f.source ev.source
                && (in_window f.from_time f.to_time ev.ts_received
                    && (same_path f.path ev.changes
                        && (if f.max_version == 0 then true else leb ev.version f.max_version))))))

unfoldable pub history_filter : EventFilter → Event → Bool
unfolding selects is_after
history_filter f ev = selects f ev && after_cursor f.order_by f.order f.after ev

-- the sort of historyOptions: the field, then the version
unfoldable pub precedes : OrderField → SortOrder → Event → Event → Bool
unfolding comes_before sort_field
precedes field order a b =
    comes_before order (sort_field field a) (sort_field field b)
    || (sort_field field b == sort_field field a && comes_before order a.version b.version)

abbrev pub filter_by : (Event → Bool) → List Event → List Event
filter_by p [] = []
filter_by p (ev ∷ evs) = let rest = filter_by p evs in if p ev then ev ∷ rest else rest

unfoldable pub insert_by : (Event → Event → Bool) → Event → List Event → List Event
insert_by before ev [] = ev ∷ []
insert_by before ev (x ∷ xs) =
    let rest = insert_by before ev xs in if before x ev then x ∷ rest else ev ∷ x ∷ xs

unfoldable pub sort_by : (Event → Event → Bool) → List Event → List Event
unfolding insert_by
sort_by before [] = []
sort_by before (ev ∷ evs) = insert_by before ev (sort_by before evs)

-- SetLimit, where 0 sets none
abbrev pub limited : ℕ → List Event → List Event
limited zero evs = evs
limited (suc n) evs = take (suc n) evs

unfoldable pub list_events : EventFilter → List Event → List Event
unfolding history_filter precedes sort_by
list_events f evs =
    limited f.limit (sort_by (precedes f.order_by f.order) (filter_by (history_filter f) evs))

-- internal/server/read.go: positionOf
unfoldable pub position_of : OrderField → Event → Position
position_of by_version ev = record { version = ev.version; ts = 0 }
position_of by_source ev = record { version = ev.version; ts = ev.ts_source }
position_of by_received ev = record { version = ev.version; ts = ev.ts_received }

abbrev pub last_position : OrderField → List Event → Option Position
last_position field [] = none
last_position field (ev ∷ []) = some (position_of field ev)
last_position field (ev ∷ x ∷ evs) = last_position field (x ∷ evs)

-- the next_cursor of historyBody: set only if the page is full
unfoldable pub next_cursor : EventFilter → List Event → Option Position
unfolding position_of
next_cursor f page =
    if ltb 0 f.limit && length page == f.limit then last_position f.order_by page else none
