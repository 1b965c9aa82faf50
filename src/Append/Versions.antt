-- ===== src/Append/Versions.antt =====
-- The versions of an entity count up by one, whatever the writers do.
use letopis.Prelude.{
  ℕ, suc, ◌+◌, ◌≡◌, ◌≤◌, refl, ap, ◌∙◌, subst, Str, str_eq, str_eq→eq, true, false, ◌&&◌, none,
  List, [], ◌∷◌, ◌++◌, ◌==◌, length, length-append, All, ltb, leb, if◌then◌else◌, Bool-cases, inl,
  inr, arith,
}
use letopis.Domain.Event.{Event}
use letopis.Service.Ingest.{history}
use letopis.Service.History.Synced.{
  IsNumbered, history-append, IsNumbered-append, version_of-last_of,
}
use letopis.Append.Writers.{
  Place, idle, start, tailed, appended, duplicate, conflict, failed, System, last_version,
  has_version, versioned, moved, inserted, Step, call, read_tail, give_up, clash, repeated, insert,
  read_fails, insert_fails, Reach, here, next,
}

-- the number of an entity's events
abbrev pub count : Str → List Event → ℕ
count e evs = length (history e evs)

abbrev pub IsCounted : List Event → Type 0
IsCounted evs = (e : Str) → IsNumbered 0 (history e evs)

pub last_version-count :
    (e : Str) (evs : List Event) → IsCounted evs → last_version e evs ≡ count e evs
unfolding last_version
last_version-count e evs h = version_of-last_of 0 none (history e evs) refl (h e) ∙ omega arith

has_version-history :
    (e : Str) (v : ℕ) (evs : List Event) → has_version e v evs ≡ has_version e v (history e evs)
unfolding has_version history
has_version-history e v [] = refl
has_version-history e v (x ∷ xs) = ground (arith, has_version-history e v xs)

own_entity : (e : Str) (evs : List Event) → All (λ x. str_eq x.entity_id e ≡ true) (history e evs)
unfolding history
own_entity e [] = tt
own_entity e (x ∷ xs) = elim (Bool-cases (str_eq x.entity_id e)) [
  | inl own ↦ rw own (own, own_entity e xs)
  | inr other ↦ rw other (own_entity e xs)
]

-- In events numbered from `k` on, a version is found exactly if it is above `k` and counted.
has_version-numbered :
    (e : Str) (k v : ℕ) (xs : List Event)
    → IsNumbered k xs
    → All (λ x. str_eq x.entity_id e ≡ true) xs
    → has_version e v xs ≡ (ltb k v && leb v (k + length xs))
unfolding has_version
has_version-numbered e k v [] n own = ground arith
has_version-numbered e k v (x ∷ xs) n own =
    ground (arith, has_version-numbered e (suc k) v xs n.1 own.1, n.0, own.0)

pub has_version-count :
    (e : Str) (v : ℕ) (evs : List Event)
    → IsCounted evs
    → has_version e (suc v) evs ≡ leb (suc v) (count e evs)
has_version-count e v evs h =
    has_version-history e (suc v) evs
    ∙ has_version-numbered e 0 (suc v) (history e evs) (h e) (own_entity e evs)
    ∙ ground arith

-- No writer has read a version that the store has not reached.
abbrev pub IsRead : List Event → Place → Type 0
IsRead evs (tailed ev left v) = v ≤ count ev.entity_id evs
IsRead evs _ = Unit {0}

pub record IsSound (s : System) : Type 0 where
  pub counted : IsCounted s.events
  pub reads : (i : ℕ) → IsRead s.events (s.writer i)

pub count-append :
    (e : Str) (evs : List Event) (ev : Event)
    → count e (evs ++ ev ∷ []) ≡ (if str_eq ev.entity_id e then suc (count e evs) else count e evs)
count-append e evs ev = elim (Bool-cases (str_eq ev.entity_id e)) [
  | inl own ↦
      rw (history-append e evs ev) (rw own (length-append (history e evs) (ev ∷ []) ∙ omega arith))
  | inr other ↦ rw (history-append e evs ev) (rw other refl)
]

IsRead-append :
    (evs : List Event) (ev : Event) (p : Place) → IsRead evs p → IsRead (evs ++ ev ∷ []) p
IsRead-append evs ev (tailed x left v) h = ground (arith, count-append x.entity_id evs ev)
IsRead-append evs ev idle h = tt
IsRead-append evs ev (start x left) h = tt
IsRead-append evs ev (appended x) h = tt
IsRead-append evs ev duplicate h = tt
IsRead-append evs ev conflict h = tt
IsRead-append evs ev failed h = tt

-- An insert that the version index lets through has the next version.
insert-IsCounted :
    (evs : List Event) (now v : ℕ) (ev : Event)
    → IsCounted evs
    → v ≤ count ev.entity_id evs
    → has_version ev.entity_id (suc v) evs ≡ false
    → IsCounted (evs ++ versioned now v ev ∷ [])
insert-IsCounted evs now v ev h le free e = elim (Bool-cases (str_eq ev.entity_id e)) [
  | inr other ↦ rw (history-append e evs (versioned now v ev)) (rw other (h e))
  | inl own ↦
      let same : ev.entity_id ≡ e = str_eq→eq ev.entity_id e own in
      let last : v ≡ count ev.entity_id evs =
        ground (arith, has_version-count ev.entity_id v evs h) in
      rw (history-append e evs (versioned now v ev)) (
        rw own (
          IsNumbered-append 0 (history e evs) (versioned now v ev) (h e)
            (ap suc (last ∙ ap (λ x. count x evs) same) ∙ omega arith)))
]

moved-IsSound :
    (s : System) (i : ℕ) (p : Place) → IsSound s → IsRead s.events p → IsSound (moved s i p)
moved-IsSound s i p h r = record {
  counted = h.counted;
  reads = λ j. elim (Bool-cases (i == j)) [ inl own ↦ rw own r | inr other ↦ rw other (h.reads j) ];
}

inserted-IsSound :
    (s : System) (i now v : ℕ) (ev : Event)
    → IsSound s
    → v ≤ count ev.entity_id s.events
    → has_version ev.entity_id (suc v) s.events ≡ false
    → IsSound (inserted s i (versioned now v ev))
inserted-IsSound s i now v ev h le free = record {
  counted = insert-IsCounted s.events now v ev h.counted le free;
  reads = λ j. elim (Bool-cases (i == j)) [
    | inl own ↦ rw own tt
    | inr other ↦ rw other (IsRead-append s.events (versioned now v ev) (s.writer j) (h.reads j))
  ];
}

pub read_bound :
    (s : System) (i : ℕ) (ev : Event) (left v : ℕ)
    → IsSound s
    → s.writer i ≡ tailed ev left v
    → v ≤ count ev.entity_id s.events
read_bound s i ev left v h at = subst (IsRead s.events) at (h.reads i)

pub Step-IsSound : {s t : System} → Step s t → IsSound s → IsSound t
Step-IsSound {s} (call i ev at) h = moved-IsSound s i _ h tt
Step-IsSound {s} (read_tail i ev left at) h =
    moved-IsSound s i _ h (omega (arith, last_version-count ev.entity_id s.events h.counted))
Step-IsSound {s} (give_up i ev at) h = moved-IsSound s i conflict h tt
Step-IsSound {s} (clash i now ev left v at taken) h =
    moved-IsSound s i (start (versioned now v ev) left) h tt
Step-IsSound {s} (repeated i ev left v at known) h = moved-IsSound s i duplicate h tt
Step-IsSound {s} (insert i now ev left v at free new) h =
    inserted-IsSound s i now v ev h (read_bound s i ev left v h at) free
Step-IsSound {s} (read_fails i ev left at) h = moved-IsSound s i failed h tt
Step-IsSound {s} (insert_fails i ev left v at) h = moved-IsSound s i failed h tt

pub Reach-IsSound : {s t : System} → IsSound s → Reach s t → IsSound t
Reach-IsSound h here = h
Reach-IsSound h (next r st) = Step-IsSound st (Reach-IsSound h r)
