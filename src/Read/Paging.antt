-- ===== src/Read/Paging.antt =====
-- The pages of a history, each asked for with the cursor of the page before it
-- (internal/server/read.go and internal/storage/mongo/event_repo.go).
use mathlib.Core.List.{append-nil, append_assoc}
use letopis.Prelude.{
  ℕ, zero, suc, ◌≡◌, ◌≢◌, ◌≤◌, ◌<◌, refl, sym, ap, ◌∙◌, str_eq→eq, Bool, true, false, ◌&&◌, Option,
  none, some, List, [], ◌∷◌, ◌++◌, All, take, drop, length, take-append_drop, take-length,
  length-take, length-drop, leb, Bool-cases, inl, inr, arith, subst, leb→le,
}
use letopis.Domain.Event.{Event}
use letopis.Read.Query.{
  OrderField, by_version, by_source, by_received, SortOrder, ascending, descending, Position,
  EventFilter, is_after, selects, history_filter, precedes, filter_by, sort_by, list_events,
  position_of, last_position, next_cursor, is_empty,
}
use letopis.Read.Sorting.{
  IsStrict, last_or, Differs, IsSorted, AreDistinct, filter_by-All, filter_by-and, filter_by_ext,
  sort_by-IsSorted, filter_by-sort_by, filter_by-drop, not_before, All-last,
}

pub precedes-IsStrict : (field : OrderField) (order : SortOrder) → IsStrict (precedes field order)
unfolding precedes
precedes-IsStrict field ascending = record {
  irrefl = λ a. ground arith;
  trans = λ a b c p q. ground arith;
}
precedes-IsStrict field descending = record {
  irrefl = λ a. ground arith;
  trans = λ a b c p q. ground arith;
}

precedes-Differs :
    (field : OrderField) (order : SortOrder) (a b : Event)
    → a.version ≢ b.version
    → Differs (precedes field order) a b
unfolding precedes
precedes-Differs field ascending a b d h = ground arith
precedes-Differs field descending a b d h = ground arith

-- The cursor of an event selects what the sort puts behind it.
is_after-position_of :
    (field : OrderField) (order : SortOrder) (p ev : Event)
    → is_after field order (position_of field p) ev ≡ precedes field order p ev
unfolding is_after position_of precedes
is_after-position_of by_version ascending p ev = ground arith
is_after-position_of by_version descending p ev = ground arith
is_after-position_of by_source order p ev = refl
is_after-position_of by_received order p ev = refl

-- the unique index on entity and version
abbrev pub IsUnique : List Event → Type 0
IsUnique [] = Unit {0}
IsUnique (x ∷ xs) = All (λ y. y.entity_id ≡ x.entity_id → x.version ≢ y.version) xs × IsUnique xs

-- the query from a cursor on, in pages of `m + 1` events
abbrev pub page_filter : EventFilter → ℕ → Option Position → EventFilter
page_filter f m pos = record f { limit = suc m; after = pos }

-- the query for all at once
abbrev pub whole_filter : EventFilter → EventFilter
whole_filter f = record f { limit = 0; after = none }

abbrev pub at_cursor : EventFilter → Position → EventFilter
at_cursor f pos = record f { after = some pos }

-- The pages from a filter on, joined, at most as many as the bound.
unfoldable pub follow_pages : ℕ → EventFilter → List Event → List Event
follow_pages zero f evs = []
follow_pages (suc n) f evs =
    let page = list_events f evs in
    page ++ elim (next_cursor f page) as (λ c. List Event) [
      | none ↦ []
      | some pos ↦ follow_pages n (at_cursor f pos) evs
    ]

not-leb : (a b : ℕ) → leb a b ≡ false → b < a
not-leb a b h = ground arith

last_position_lem :
    (field : OrderField) (y : Event) (ys : List Event)
    → last_position field (y ∷ ys) ≡ some (position_of field (last_or y ys))
last_position_lem field y [] = refl
last_position_lem field y (z ∷ zs) = last_position_lem field z zs

next_cursor_short :
    (f : EventFilter) (page : List Event) → length page < f.limit → next_cursor f page ≡ none
unfolding next_cursor
next_cursor_short f page h = ground arith

next_cursor_full :
    (f : EventFilter) (y : Event) (ys : List Event)
    → length (y ∷ ys) ≡ f.limit
    → next_cursor f (y ∷ ys) ≡ some (position_of f.order_by (last_or y ys))
unfolding next_cursor
next_cursor_full f y ys h = ground (arith, last_position_lem f.order_by y ys)

All-both :
    (P Q R : Event → Type 0) (xs : List Event)
    → ((x : Event) → P x → Q x → R x)
    → All P xs
    → All Q xs
    → All R xs
All-both P Q R [] f h k = tt
All-both P Q R (x ∷ xs) f h k = (f x h.0 k.0, All-both P Q R xs f h.1 k.1)

All-filter_by : (p : Event → Bool) (xs : List Event) → All (λ x. p x ≡ true) (filter_by p xs)
All-filter_by p [] = tt
All-filter_by p (x ∷ xs) = elim (Bool-cases (p x)) [
  | inl kept ↦ rw kept (kept, All-filter_by p xs)
  | inr dropped ↦ rw dropped (All-filter_by p xs)
]

module _ (f : EventFilter) (named : is_empty f.entity_id ≡ false) where
  abbrev before : Event → Event → Bool
  before = precedes f.order_by f.order

  selects-entity : (ev : Event) → selects f ev ≡ true → ev.entity_id ≡ f.entity_id
  unfolding selects
  selects-entity ev h = str_eq→eq ev.entity_id f.entity_id (ground arith)

  selected-AreDistinct :
      (evs : List Event) → IsUnique evs → AreDistinct before (filter_by (selects f) evs)
  selected-AreDistinct [] u = tt
  selected-AreDistinct (x ∷ xs) u = elim (Bool-cases (selects f x)) [
    | inr dropped ↦ rw dropped (selected-AreDistinct xs u.1)
    | inl kept ↦ rw kept (
      All-both (λ y. y.entity_id ≡ x.entity_id → x.version ≢ y.version) (λ y. selects f y ≡ true)
          (λ y. Differs before x y) (filter_by (selects f) xs)
          (λ y d chosen.
            precedes-Differs f.order_by f.order x y
              (d (selects-entity y chosen ∙ sym (selects-entity x kept))))
          (filter_by-All (λ y. y.entity_id ≡ x.entity_id → x.version ≢ y.version) (selects f) xs
            u.0)
          (All-filter_by (selects f) xs),
      selected-AreDistinct xs u.1,
    )
  ]

  -- the matching events in the order of the query
  abbrev sorted : List Event → List Event
  sorted evs = sort_by before (filter_by (selects f) evs)

  behind_cursor :
      (m : ℕ) (evs : List Event) (p : Event)
      → IsUnique evs
      → sort_by before
          (filter_by (history_filter (page_filter f m (some (position_of f.order_by p)))) evs)
        ≡ filter_by (before p) (sorted evs)
  unfolding history_filter selects
  behind_cursor m evs p u =
      ap (sort_by before) (
        filter_by_ext (history_filter (page_filter f m (some (position_of f.order_by p))))
          (λ ev. selects f ev && before p ev) evs
          (λ ev. ap (λ t. selects f ev && t) (is_after-position_of f.order_by f.order p ev))
        ∙ filter_by-and (selects f) (before p) evs)
      ∙ sym (
          filter_by-sort_by before (precedes-IsStrict f.order_by f.order) (before p)
            (filter_by (selects f) evs) (selected-AreDistinct evs u))

  -- The events in front of a page are not behind its last one.
  filter_by-prefix :
      (pre : List Event) (y : Event) (ys : List Event) (n : ℕ)
      → IsSorted before (pre ++ y ∷ ys)
      → n ≤ length ys
      → filter_by (before (last_or y (take n ys))) (pre ++ y ∷ ys) ≡ drop n ys
  filter_by-prefix [] y ys n h le =
      filter_by-drop before (precedes-IsStrict f.order_by f.order) n y ys h le
  filter_by-prefix (z ∷ pre) y ys n h le =
      rw
        (not_before before (precedes-IsStrict f.order_by f.order) z z (last_or y (take n ys))
          ((precedes-IsStrict f.order_by f.order).irrefl z)
          (All-last (λ w. before z w ≡ true) pre y ys n h.0))
        (filter_by-prefix pre y ys n h.1 le)

  module _ (m : ℕ) (evs : List Event) (u : IsUnique evs) where
    abbrev page_of : List Event → List Event
    page_of rest = take (suc m) rest

    follow_pages-rest :
        (n : ℕ) (pre rest : List Event) (pos : Option Position)
        → sorted evs ≡ pre ++ rest
        → sort_by before (filter_by (history_filter (page_filter f m pos)) evs) ≡ rest
        → length rest < n
        → follow_pages n (page_filter f m pos) evs ≡ rest
    unfolding follow_pages list_events
    follow_pages-rest zero pre rest pos split here h = absurd (omega arith)
    follow_pages-rest (suc n) pre [] pos split here h =
        rw here (rw (next_cursor_short (page_filter f m pos) [] (omega arith)) refl)
    follow_pages-rest (suc n) pre (y ∷ ys) pos split here h =
        elim (Bool-cases (leb m (length ys))) [
          | inl full ↦
              let last = last_or y (take m ys) in
              let le : m ≤ length ys = leb→le m (length ys) full in
              rw here (
                rw
                  (next_cursor_full (page_filter f m pos) y (take m ys)
                    (omega (arith, length-take m ys le)))
                  (ap (λ zs. (y ∷ take m ys) ++ zs)
                      (follow_pages-rest n (pre ++ y ∷ take m ys) (drop m ys)
                        (some (position_of f.order_by last))
                        (split
                          ∙ ap (λ zs. pre ++ y ∷ zs) (sym (take-append_drop m ys))
                          ∙ sym (append_assoc pre (y ∷ take m ys) (drop m ys)))
                        (behind_cursor m evs last u
                          ∙ ap (λ zs. filter_by (before last) zs) split
                          ∙ filter_by-prefix pre y ys m
                              (subst (IsSorted before) split (
                                sort_by-IsSorted before (precedes-IsStrict f.order_by f.order)
                                  (filter_by (selects f) evs) (selected-AreDistinct evs u)))
                              le)
                        (omega (arith, length-drop m ys)))
                    ∙ ap (λ zs. y ∷ zs) (take-append_drop m ys)))
          | inr short ↦
              let lt : length ys < m = not-leb m (length ys) short in
              let all : take m ys ≡ ys = take-length m ys (omega arith) in
              rw here (
                rw all (
                  rw (next_cursor_short (page_filter f m pos) (y ∷ ys) (omega arith))
                    (append-nil (y ∷ ys))))
        ]

  and_true : (b : Bool) → (b && true) ≡ b
  and_true b = ground arith

  first_page :
      (m : ℕ) (evs : List Event)
      → sort_by before (filter_by (history_filter (page_filter f m none)) evs) ≡ sorted evs
  unfolding history_filter selects
  first_page m evs = ap (sort_by before) (
      filter_by_ext (history_filter (page_filter f m none)) (selects f) evs
        (λ ev. and_true (selects f ev)))

  list_events-whole : (evs : List Event) → list_events (whole_filter f) evs ≡ sorted evs
  unfolding list_events history_filter selects
  list_events-whole evs = ap (sort_by before) (
      filter_by_ext (history_filter (whole_filter f)) (selects f) evs
        (λ ev. and_true (selects f ev)))

  -- The pages of a query for one entity, each asked for with the cursor of the one before it, are
  -- together the events that the query selects, each once and in its order, whatever the size of a
  -- page, the field and the direction. No two stored events share their entity and version, and
  -- the number of pages that are asked for is above the number of selected events.
  pub follow_pages-list_events :
      (n m : ℕ) (evs : List Event)
      → IsUnique evs
      → length (list_events (whole_filter f) evs) < n
      → follow_pages n (page_filter f m none) evs ≡ list_events (whole_filter f) evs
  follow_pages-list_events n m evs u h =
      let all = list_events-whole evs in
      follow_pages-rest m evs u n [] (list_events (whole_filter f) evs) none (sym all)
        (first_page m evs ∙ sym all) h
