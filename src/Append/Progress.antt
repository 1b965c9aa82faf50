-- ===== src/Append/Progress.antt =====
-- What the writers of a store achieve: gapless versions, and a cause for each version conflict.
use letopis.Prelude.{
  ℕ, suc, ◌+◌, ◌≡◌, ◌≤◌, refl, sym, ap, ◌∙◌, subst, Str, true, List, [], ◌∷◌, ◌++◌, ◌==◌,
  Bool-cases, inl, inr, arith, ==→eq,
}
use letopis.Domain.Event.{Event}
use letopis.Service.Ingest.{history}
use letopis.Service.History.Synced.{IsNumbered}
use letopis.Append.Writers.{
  Place, idle, start, tailed, appended, duplicate, conflict, failed, System, last_version,
  has_version, versioned, update, Step, call, read_tail, give_up, clash, repeated, insert,
  read_fails, insert_fails, Reach, here, next, max_append_retries,
}
use letopis.Append.Versions.{
  count, IsCounted, IsSound, last_version-count, has_version-count, count-append, Reach-IsSound,
}

-- no events, and no writer has begun
abbrev pub initial : System
initial = record { events = []; writer = λ i. idle }

pub initial-IsSound : IsSound initial
unfolding history
initial-IsSound = record { counted = λ e. tt; reads = λ i. tt }

-- Whatever several writers do at the same time, in whichever order their reads and inserts fall,
-- the stored versions of each entity are 1, 2, 3 and so on, with no gap and no repetition.
pub Reach-IsNumbered :
    (s : System) → Reach initial s → (e : Str) → IsNumbered 0 (history e s.events)
Reach-IsNumbered s r e = (Reach-IsSound initial-IsSound r).counted e

module _ (i : ℕ) (e : Str) (base : ℕ) where
  -- Each round that the writer has used up is an event that was appended since it began.
  abbrev IsPaid : List Event → Place → Type 0
  IsPaid evs idle = ⊥
  IsPaid evs (start ev left) = (ev.entity_id ≡ e) × (base + max_append_retries ≤ count e evs + left)
  IsPaid evs (tailed ev left v) = (ev.entity_id ≡ e) × (base + max_append_retries ≤ v + suc left)
  IsPaid evs conflict = base + max_append_retries ≤ count e evs
  IsPaid evs _ = Unit {0}

  count-grows : (evs : List Event) (ev : Event) → count e evs ≤ count e (evs ++ ev ∷ [])
  count-grows evs ev = ground (arith, count-append e evs ev)

  IsPaid-append :
      (evs : List Event) (ev : Event) (p : Place) → IsPaid evs p → IsPaid (evs ++ ev ∷ []) p
  IsPaid-append evs ev idle h = h
  IsPaid-append evs ev (start x left) h = (h.0, omega (arith, count-grows evs ev))
  IsPaid-append evs ev (tailed x left v) h = h
  IsPaid-append evs ev conflict h = omega (arith, count-grows evs ev)
  IsPaid-append evs ev (appended x) h = tt
  IsPaid-append evs ev duplicate h = tt
  IsPaid-append evs ev failed h = tt

  -- a step of another writer, or one of this writer to a place that is paid for
  moved-IsPaid :
      (s : System) (j : ℕ) (p : Place)
      → IsPaid s.events (s.writer i)
      → (j ≡ i → IsPaid s.events p)
      → IsPaid s.events (update j p s.writer i)
  moved-IsPaid s j p h k = elim (Bool-cases (j == i)) [
    | inl own ↦ rw own (k (==→eq j i own))
    | inr other ↦ rw other h
  ]

  IsPaid-at :
      (s : System) (j : ℕ) (p : Place)
      → IsPaid s.events (s.writer i)
      → s.writer j ≡ p
      → j ≡ i
      → IsPaid s.events p
  IsPaid-at s j p h at same = subst (IsPaid s.events) (ap (λ k. s.writer k) (sym same) ∙ at) h

  read_tail-IsPaid :
      (evs : List Event) (ev : Event) (left : ℕ)
      → IsCounted evs
      → IsPaid evs (start ev (suc left))
      → IsPaid evs (tailed ev left (last_version ev.entity_id evs))
  read_tail-IsPaid evs ev left c h =
      (h.0, omega (arith, last_version-count ev.entity_id evs c, ap (λ x. count x evs) h.0))

  clash-IsPaid :
      (evs : List Event) (now : ℕ) (ev : Event) (left v : ℕ)
      → IsCounted evs
      → has_version ev.entity_id (suc v) evs ≡ true
      → IsPaid evs (tailed ev left v)
      → IsPaid evs (start (versioned now v ev) left)
  clash-IsPaid evs now ev left v c taken h =
      let n : suc v ≤ count ev.entity_id evs =
        ground (arith, has_version-count ev.entity_id v evs c) in
      (h.0, omega (arith, ap (λ x. count x evs) h.0))

  Step-IsPaid :
      {s t : System}
      → Step s t
      → IsSound s
      → IsPaid s.events (s.writer i)
      → IsPaid t.events (t.writer i)
  Step-IsPaid {s} (call j ev at) sound h =
      moved-IsPaid s j (start ev max_append_retries) h (λ q. absurd (IsPaid-at s j idle h at q))
  Step-IsPaid {s} (read_tail j ev left at) sound h =
      moved-IsPaid s j (tailed ev left (last_version ev.entity_id s.events)) h (λ q.
        read_tail-IsPaid s.events ev left sound.counted
          (IsPaid-at s j (start ev (suc left)) h at q))
  Step-IsPaid {s} (give_up j ev at) sound h =
      moved-IsPaid s j conflict h (λ q. let p = IsPaid-at s j (start ev 0) h at q in omega arith)
  Step-IsPaid {s} (clash j now ev left v at taken) sound h =
      moved-IsPaid s j (start (versioned now v ev) left) h (λ q.
        clash-IsPaid s.events now ev left v sound.counted taken
          (IsPaid-at s j (tailed ev left v) h at q))
  Step-IsPaid {s} (repeated j ev left v at known) sound h = moved-IsPaid s j duplicate h (λ q. tt)
  Step-IsPaid {s} (insert j now ev left v at free new) sound h = elim (Bool-cases (j == i)) [
    | inl own ↦ rw own tt
    | inr other ↦ rw other (IsPaid-append s.events (versioned now v ev) (s.writer i) h)
  ]
  Step-IsPaid {s} (read_fails j ev left at) sound h = moved-IsPaid s j failed h (λ q. tt)
  Step-IsPaid {s} (insert_fails j ev left v at) sound h = moved-IsPaid s j failed h (λ q. tt)

  Reach-IsPaid :
      {s t : System}
      → Reach s t
      → IsSound s
      → IsPaid s.events (s.writer i)
      → IsPaid t.events (t.writer i)
  Reach-IsPaid here sound h = h
  Reach-IsPaid (next r st) sound h = Step-IsPaid st (Reach-IsSound sound r) (Reach-IsPaid r sound h)

-- A writer reports a version conflict only if others made progress: from its call to its report at
-- least as many events of its entity were appended as it had rounds. The call is made in a state
-- that the writers can reach.
pub conflict-count :
    {s t : System} (i : ℕ) (ev : Event)
    → Reach initial s
    → s.writer i ≡ start ev max_append_retries
    → Reach s t
    → t.writer i ≡ conflict
    → count ev.entity_id s.events + max_append_retries ≤ count ev.entity_id t.events
conflict-count {s} {t} i ev before at r ends =
    let paid =
      Reach-IsPaid i ev.entity_id (count ev.entity_id s.events) r
        (Reach-IsSound initial-IsSound before)
        (subst (IsPaid i ev.entity_id (count ev.entity_id s.events) s.events) (sym at)
          (refl, omega arith)) in
    subst (IsPaid i ev.entity_id (count ev.entity_id s.events) t.events) ends paid
