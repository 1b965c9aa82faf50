-- ===== src/Append/Alone.antt =====
-- A writer that is left alone.
use letopis.Prelude.{
  ℕ, suc, ◌≡◌, refl, sym, ap, ◌∙◌, subst, Str, false, List, [], ◌∷◌, ◌++◌, ◌==◌, if◌then◌else◌,
  arith, ==_refl,
}
use letopis.Domain.Event.{Event}
use letopis.Service.Ingest.{stamp, is_duplicate}
use letopis.Append.Writers.{
  Place, idle, start, tailed, appended, System, last_version, has_version, versioned, update, Step,
  call, read_tail, give_up, clash, repeated, insert, read_fails, insert_fails, Reach,
}
use letopis.Append.Versions.{IsCounted, last_version-count, has_version-count, Reach-IsSound}
use letopis.Append.Progress.{initial, initial-IsSound}

versioned-stamp :
    (now : ℕ) (evs : List Event) (ev : Event)
    → versioned now (last_version ev.entity_id evs) ev ≡ stamp now evs ev
unfolding stamp last_version
versioned-stamp now evs ev =
    ap (λ n. record ev { version = n; ts_stored = if ev.ts_stored == 0 then now else ev.ts_stored })
      (omega arith)

free :
    (e : Str) (evs : List Event)
    → IsCounted evs
    → has_version e (suc (last_version e evs)) evs ≡ false
free e evs c =
    ground (arith, has_version-count e (last_version e evs) evs c, last_version-count e evs c)

-- A step of one writer whose calls of the database work.
abbrev pub IsBy : (i : ℕ) {s t : System} → Step s t → Type 0
IsBy i (call j ev at) = j ≡ i
IsBy i (read_tail j ev left at) = j ≡ i
IsBy i (give_up j ev at) = j ≡ i
IsBy i (clash j now ev left v at taken) = j ≡ i
IsBy i (repeated j ev left v at known) = j ≡ i
IsBy i (insert j now ev left v at open_slot new) = j ≡ i
IsBy i (read_fails j ev left at) = ⊥
IsBy i (insert_fails j ev left v at) = ⊥

own_place : (s : System) {i j : ℕ} {p : Place} → s.writer j ≡ p → j ≡ i → s.writer i ≡ p
own_place s {i} {j} {p} at same = subst (λ k. s.writer k ≡ p) same at

updated : (w : ℕ → Place) (i j : ℕ) (p : Place) → j ≡ i → update j p w i ≡ p
updated w i j p same = rw (ap (λ k. k == i) same ∙ ==_refl i) refl

-- the first step of a writer with a round left
first_step :
    {s t : System} (i left : ℕ) (ev : Event)
    → s.writer i ≡ start ev (suc left)
    → (a : Step s t) → IsBy i a
    → (t.events ≡ s.events) × (t.writer i ≡ tailed ev left (last_version ev.entity_id s.events))
first_step {s} i left ev placed (read_tail j x n at) k =
    let e : start ev (suc left) ≡ start x (suc n) = sym placed ∙ own_place s at k in
    let same : x ≡ ev = cc e in
    let rounds : n ≡ left = cc e in
    (
      refl,
      updated s.writer i j _ k ∙ λ m.
          tailed (same m) (rounds m) (last_version (same m).entity_id s.events),
    )
first_step {s} i left ev placed (call j x at) k =
    let e : start ev (suc left) ≡ idle = sym placed ∙ own_place s at k in absurd (cc e)
first_step {s} i left ev placed (give_up j x at) k =
    let e : start ev (suc left) ≡ start x 0 = sym placed ∙ own_place s at k in absurd (cc e)
first_step {s} i left ev placed (clash j now x n v at taken) k =
    let e : start ev (suc left) ≡ tailed x n v = sym placed ∙ own_place s at k in absurd (cc e)
first_step {s} i left ev placed (repeated j x n v at known) k =
    let e : start ev (suc left) ≡ tailed x n v = sym placed ∙ own_place s at k in absurd (cc e)
first_step {s} i left ev placed (insert j now x n v at open_slot new) k =
    let e : start ev (suc left) ≡ tailed x n v = sym placed ∙ own_place s at k in absurd (cc e)
first_step i left ev placed (read_fails j x n at) k = absurd k
first_step i left ev placed (insert_fails j x n v at) k = absurd k

abbrev IsAppended : System → System → ℕ → Event → Type 0
IsAppended s t i ev =
    (now : ℕ) × (t.events ≡ s.events ++ stamp now s.events ev ∷ [])
    × (t.writer i ≡ appended (stamp now s.events ev))

-- its step after the read of the tail
second_step :
    {s t : System} (i left : ℕ) (ev : Event)
    → s.writer i ≡ tailed ev left (last_version ev.entity_id s.events)
    → has_version ev.entity_id (suc (last_version ev.entity_id s.events)) s.events ≡ false
    → is_duplicate ev.event_id s.events ≡ false
    → (a : Step s t) → IsBy i a
    → IsAppended s t i ev
second_step {s} i left ev placed room fresh (insert j now x n v at open_slot new) k =
    let e : tailed ev left (last_version ev.entity_id s.events) ≡ tailed x n v =
      sym placed ∙ own_place s at k in
    let same : x ≡ ev = cc e in
    let found : v ≡ last_version ev.entity_id s.events = cc e in
    let stamped : versioned now v x ≡ stamp now s.events ev =
      (λ m. versioned now (found m) (same m)) ∙ versioned-stamp now s.events ev in
    (now, ap (λ y. s.events ++ y ∷ []) stamped, updated s.writer i j _ k ∙ ap appended stamped)
second_step {s} i left ev placed room fresh (clash j now x n v at taken) k =
    let e : tailed ev left (last_version ev.entity_id s.events) ≡ tailed x n v =
      sym placed ∙ own_place s at k in
    let same : x ≡ ev = cc e in
    let found : v ≡ last_version ev.entity_id s.events = cc e in
    let there : has_version x.entity_id (suc v) s.events
        ≡ has_version ev.entity_id (suc (last_version ev.entity_id s.events)) s.events =
      λ m. has_version (same m).entity_id (suc (found m)) s.events in
    absurd (ground (arith, room, taken, there))
second_step {s} i left ev placed room fresh (repeated j x n v at known) k =
    let e : tailed ev left (last_version ev.entity_id s.events) ≡ tailed x n v =
      sym placed ∙ own_place s at k in
    let same : x ≡ ev = cc e in
    let there = ap (λ y. is_duplicate y.event_id s.events) same in
    absurd (ground (arith, fresh, known, there))
second_step {s} i left ev placed room fresh (call j x at) k =
    let e : tailed ev left (last_version ev.entity_id s.events) ≡ idle =
      sym placed ∙ own_place s at k in
    absurd (cc e)
second_step {s} i left ev placed room fresh (read_tail j x n at) k =
    let e : tailed ev left (last_version ev.entity_id s.events) ≡ start x (suc n) =
      sym placed ∙ own_place s at k in
    absurd (cc e)
second_step {s} i left ev placed room fresh (give_up j x at) k =
    let e : tailed ev left (last_version ev.entity_id s.events) ≡ start x 0 =
      sym placed ∙ own_place s at k in
    absurd (cc e)
second_step i left ev placed room fresh (read_fails j x n at) k = absurd k
second_step i left ev placed room fresh (insert_fails j x n v at) k = absurd k

-- Two steps of a writer, one after the other, with no step of another writer in between and no failing
-- call of the database: if the writer had a round left and its event is no duplicate, the event is
-- appended after them, as `stamp` has it at some time.
pub alone-stamp :
    {s mid t : System} (i left : ℕ) (ev : Event)
    → Reach initial s
    → s.writer i ≡ start ev (suc left)
    → is_duplicate ev.event_id s.events ≡ false
    → (a : Step s mid) (b : Step mid t) → IsBy i a
    → IsBy i b
    → (now : ℕ) × (t.events ≡ s.events ++ stamp now s.events ev ∷ [])
      × (t.writer i ≡ appended (stamp now s.events ev))
alone-stamp {s} {mid} {t} i left ev before placed new a b own_a own_b =
    let (same, there) = first_step i left ev placed a own_a in
    let room = free ev.entity_id s.events (Reach-IsSound initial-IsSound before).counted in
    let (now, events, place) =
      second_step i left ev
        (there ∙ ap (λ evs. tailed ev left (last_version ev.entity_id evs)) (sym same))
        (ap (λ evs. has_version ev.entity_id (suc (last_version ev.entity_id evs)) evs) same ∙ room)
        (ap (is_duplicate ev.event_id) same ∙ new) b own_b in
    (
      now,
      events ∙ ap (λ evs. evs ++ stamp now evs ev ∷ []) same,
      place ∙ ap (λ evs. appended (stamp now evs ev)) same,
    )
