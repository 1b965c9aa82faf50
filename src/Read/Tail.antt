-- ===== src/Read/Tail.antt =====
-- The events between an anchor and a target version, as ListEvents gives them to StateAt.
use letopis.Prelude.{
  ℕ, zero, suc, ◌-◌, ◌≡◌, ◌≤◌, ◌<◌, refl, sym, ap, ◌∙◌, subst, Str, str_eq, Bool, true, false, ◌&&◌,
  ◌||◌, ◌==◌, List, [], ◌∷◌, All, All-map, take, drop, ltb, leb, Bool-cases, inl, inr, arith,
}
use letopis.Domain.Event.{Event}
use letopis.Service.Ingest.{history}
use letopis.Service.History.Synced.{IsNumbered}
use letopis.Read.Query.{
  by_version, ascending, history_filter, selects, is_after, precedes, filter_by, sort_by,
  list_events, is_empty, in_window, after_cursor,
}
use letopis.Read.Sorting.{
  IsStrict, IsSorted, AreDistinct, Differs, insert_by-first, filter_by-sort_by,
}
use letopis.Read.Paging.{precedes-IsStrict}
use letopis.Read.StateAt.{tail_filter, after_snapshot}

-- versions above `lo`, which 0 leaves open, and up to `hi`
abbrev in_range : ℕ → ℕ → Event → Bool
in_range lo hi ev = (lo == 0 || ltb lo ev.version) && leb ev.version hi

take-nil : (n : ℕ) → take {A = Event} n [] ≡ []
take-nil zero = refl
take-nil (suc n) = refl

drop-nil : (n : ℕ) → drop {A = Event} n [] ≡ []
drop-nil zero = refl
drop-nil (suc n) = refl

range_above :
    (k lo hi : ℕ) (xs : List Event)
    → IsNumbered k xs
    → lo ≤ k
    → filter_by (in_range lo hi) xs ≡ take (hi - k) xs
range_above k lo hi [] h le = sym (take-nil (hi - k))
range_above k lo hi (x ∷ xs) h le = elim (Bool-cases (ltb k hi)) [
  | inl more ↦
      let step : hi - k ≡ suc (hi - suc k) = ground arith in
      rw step (ground (arith, range_above (suc k) lo hi xs h.1 (omega arith), h.0, more))
  | inr past ↦
      let step : hi - k ≡ 0 = ground arith in
      let next : hi - suc k ≡ 0 = ground arith in
      rw step (ground (arith, range_above (suc k) lo hi xs h.1 (omega arith), h.0, past, next))
]

range_from :
    (k lo hi : ℕ) (xs : List Event)
    → IsNumbered k xs
    → k ≤ lo
    → filter_by (in_range lo hi) xs ≡ take (hi - lo) (drop (lo - k) xs)
range_from k lo hi [] h le = rw (drop-nil (lo - k)) (sym (take-nil (hi - lo)))
range_from k lo hi (x ∷ xs) h le = elim (Bool-cases (ltb k lo)) [
  | inl below ↦
      let step : lo - k ≡ suc (lo - suc k) = ground arith in
      rw step (ground (arith, range_from (suc k) lo hi xs h.1 (ground arith), h.0, below))
  | inr here ↦
      let same : k ≡ lo = ground arith in
      let step : lo - k ≡ 0 = omega arith in
      rw step (
        subst (λ z. filter_by (in_range lo hi) (x ∷ xs) ≡ take (hi - z) (x ∷ xs)) same
          (range_above k lo hi (x ∷ xs) h (omega arith)))
]

above : (k : ℕ) (xs : List Event) → IsNumbered k xs → All (λ y. k < y.version) xs
above k [] h = tt
above k (x ∷ xs) h = (
  omega arith,
  All-map (λ y. suc k < y.version) (λ y. k < y.version) xs (λ y g. omega arith)
      (above (suc k) xs h.1),
)

numbered-IsSorted :
    (k : ℕ) (xs : List Event) → IsNumbered k xs → IsSorted (precedes by_version ascending) xs
unfolding precedes
numbered-IsSorted k [] h = tt
numbered-IsSorted k (x ∷ xs) h = (
  All-map (λ y. suc k < y.version) (λ y. precedes by_version ascending x y ≡ true) xs
      (λ y g. ground arith) (above (suc k) xs h.1),
  numbered-IsSorted (suc k) xs h.1,
)

module _ (before : Event → Event → Bool) (s : IsStrict before) where
  IsSorted-AreDistinct : (xs : List Event) → IsSorted before xs → AreDistinct before xs
  IsSorted-AreDistinct [] h = tt
  IsSorted-AreDistinct (x ∷ xs) h = (
    All-map (λ y. before x y ≡ true) (λ y. Differs before x y) xs (λ y b. λ f. b) h.0,
    IsSorted-AreDistinct xs h.1,
  )

  sort_by-sorted : (xs : List Event) → IsSorted before xs → sort_by before xs ≡ xs
  unfolding sort_by
  sort_by-sorted [] h = refl
  sort_by-sorted (x ∷ xs) h = rw (sort_by-sorted xs h.1) (
      insert_by-first before s x xs (
        All-map (λ y. before x y ≡ true) (λ y. before y x ≡ false) xs (λ y b. asymmetric x y b)
          h.0))
    where
      asymmetric : (a b : Event) → before a b ≡ true → before b a ≡ false
      asymmetric a b h = elim (Bool-cases (before b a)) [
        | inl back ↦ cc (s.irrefl a, s.trans a b a h back)
        | inr f ↦ f
      ]

module _ (e : Str) (lo hi : ℕ) (named : is_empty e ≡ false) (positive : 0 < hi) where
  after_snapshot-in_range :
      (v : ℕ) (ev : Event)
      → after_cursor by_version ascending (after_snapshot v) ev ≡ (v == 0 || ltb v ev.version)
  unfolding is_after
  after_snapshot-in_range zero ev = refl
  after_snapshot-in_range (suc v) ev = ground arith

  tail_filter-in_range :
      (ev : Event)
      → history_filter (tail_filter e lo hi) ev ≡ (str_eq ev.entity_id e && in_range lo hi ev)
  unfolding history_filter selects in_window
  tail_filter-in_range ev = ground (arith, after_snapshot-in_range lo ev)

  filter_tail :
      (evs : List Event)
      → filter_by (history_filter (tail_filter e lo hi)) evs
        ≡ filter_by (in_range lo hi) (history e evs)
  unfolding history
  filter_tail [] = refl
  filter_tail (x ∷ xs) = ground (arith, tail_filter-in_range x, filter_tail xs)

  pub list_events-tail :
      (evs : List Event)
      → IsNumbered 0 (history e evs)
      → list_events (tail_filter e lo hi) evs ≡ take (hi - lo) (drop lo (history e evs))
  unfolding list_events
  list_events-tail evs n =
      let before = precedes by_version ascending in
      let strict = precedes-IsStrict by_version ascending in
      let sorted = numbered-IsSorted 0 (history e evs) n in
      ap (sort_by before) (filter_tail evs)
      ∙ sym (
          filter_by-sort_by before strict (in_range lo hi) (history e evs)
            (IsSorted-AreDistinct before strict (history e evs) sorted))
      ∙ ap (filter_by (in_range lo hi)) (sort_by-sorted before strict (history e evs) sorted)
      ∙ range_from 0 lo hi (history e evs) n (omega arith)
      ∙ ap (λ z. take (hi - lo) (drop z (history e evs))) (omega arith)
