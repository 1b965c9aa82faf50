-- ===== src/Read/Anchored.antt =====
-- The anchor of a point-in-time read, and what is rebuilt from it.
use letopis.Prelude.{
  ℕ, zero, suc, ◌+◌, ◌-◌, ◌≡◌, ◌≤◌, ◌<◌, refl, sym, ap, ◌∙◌, subst, Str, str_eq, str_eq→eq, true,
  false, ◌&&◌, Option, none, some, List, [], ◌∷◌, ◌++◌, All, take, drop, length, take-append_drop,
  ltb, leb, Bool-cases, inl, inr, arith,
}
use letopis.Json.{end}
use letopis.Diff.Model
use letopis.Domain.Event.{Event, Snapshot}
use letopis.Domain.Reconstruct
use letopis.Domain.Reconstruct.{start, replay, reconstruct}
use letopis.Domain.Reconstruct.Anchor.{replay-append}
use letopis.Service.Replay.{reached}
use letopis.Service.Ingest.{Store, history, last_of}
use letopis.Service.History.Synced.{IsNumbered, IsSynced, IsPinned, reached_current}
use letopis.Read.Query.{is_empty, list_events}
use letopis.Read.StateAt.{
  ReconstructedState, ok, ReadFaults, newer, nearest, Anchor, genesis, anchor_of, anchor,
  tail_filter, rebuild, last_time,
}
use letopis.Read.Tail.{list_events-tail}

-- the newest event of a history that has one
pub last_of-numbered :
    (n : ℕ) (o : Option Event) (x : Event) (xs : List Event)
    → IsNumbered n (x ∷ xs)
    → (ev : Event) × ((last_of o (x ∷ xs) ≡ some ev) × (ev.version ≡ n + length (x ∷ xs)))
last_of-numbered n o x [] h = (x, (refl, omega arith))
last_of-numbered n o x (y ∷ ys) h =
    let (ev, (found, v)) = last_of-numbered (suc n) (some x) y ys h.1 in (ev, (found, omega arith))

take-split : (a b : ℕ) (xs : List Event) → a ≤ b → take a xs ++ take (b - a) (drop a xs) ≡ take b xs
take-split zero b xs h = ap (λ n. take n xs) (omega arith)
take-split (suc a) zero xs h = absurd (omega arith)
take-split (suc a) (suc b) [] h = take_nil (suc b - suc a)
  where
    take_nil : (n : ℕ) → take {A = Event} n [] ≡ []
    take_nil zero = refl
    take_nil (suc n) = refl
take-split (suc a) (suc b) (x ∷ xs) h =
    ap (λ ys. x ∷ ys)
      (ap (λ n. take a xs ++ take n (drop a xs)) (omega arith) ∙ take-split a b xs (omega arith))

module _ (format_float : ℕ → Str) where
  -- A prefix of a history that replays does so too.
  replay-take :
      (r s : Reconstruct.Replay) (n : ℕ) (xs : List Event)
      → replay format_float r xs ≡ Model.ok s
      → (t : Reconstruct.Replay) × (replay format_float r (take n xs) ≡ Model.ok t)
  replay-take r s n xs h = go (replay format_float r (take n xs)) refl (
      sym (replay-append format_float r (take n xs) (drop n xs))
      ∙ ap (replay format_float r) (take-append_drop n xs)
      ∙ h)
    where
      go :
          (m : Model.Result Reconstruct.Replay)
          → replay format_float r (take n xs) ≡ m
          → Model.◌>>=◌ (replay format_float r (take n xs)) (λ t. replay format_float t (drop n xs))
            ≡ Model.ok s
          → (t : Reconstruct.Replay) × (replay format_float r (take n xs) ≡ Model.ok t)
      go (Model.ok t) e k = (t, e)
      go (Model.err x) e k = cc

  module _ (st : Store) (synced : IsSynced format_float st) (e : Str) where
    abbrev pub own : List Event
    own = history e st.events

    -- What a replay of the first `v` events gives.
    abbrev Reaches : ℕ → Reconstruct.Replay → Type 0
    Reaches v r = replay format_float (reached end false) (take v own) ≡ Model.ok r

    abbrev IsBelow : ℕ → Snapshot → Type 0
    IsBelow target sn = (sn.version ≤ target) × Reaches sn.version (reached sn.state sn.deleted)

    abbrev IsBest : ℕ → Option Snapshot → Type 0
    IsBest target none = Unit {0}
    IsBest target (some sn) = IsBelow target sn

    newer-IsBelow :
        (target : ℕ) (best : Option Snapshot) (sn : Snapshot)
        → IsBest target best
        → IsBelow target sn
        → IsBelow target (newer best sn)
    newer-IsBelow target none sn b h = h
    newer-IsBelow target (some best) sn b h = elim (Bool-cases (ltb best.version sn.version)) [
      | inl up ↦ rw up h
      | inr old ↦ rw old b
    ]

    pinned-IsBelow :
        (target : ℕ) (sn : Snapshot)
        → IsPinned format_float st.events sn
        → (str_eq sn.entity_id e && leb sn.version target) ≡ true
        → IsBelow target sn
    pinned-IsBelow target sn h fits =
        let same : sn.entity_id ≡ e = str_eq→eq sn.entity_id e (ground arith) in
        (
          ground arith,
          subst
              (λ x.
                replay format_float (reached end false) (take sn.version (history x st.events))
                ≡ Model.ok (reached sn.state sn.deleted))
              same h.1,
        )

    nearest-IsBest :
        (target : ℕ) (sns : List Snapshot) (best : Option Snapshot)
        → All (IsPinned format_float st.events) sns
        → IsBest target best
        → IsBest target (nearest e target sns best)
    unfolding nearest
    nearest-IsBest target [] best h b = b
    nearest-IsBest target (sn ∷ sns) best h b =
        elim (Bool-cases (str_eq sn.entity_id e && leb sn.version target)) [
          | inl fits ↦ rw fits (
              nearest-IsBest target sns (some (newer best sn)) h.1
                (newer-IsBelow target best sn b (pinned-IsBelow target sn h.0 fits)))
          | inr other ↦ rw other (nearest-IsBest target sns best h.1 b)
        ]

    abbrev IsAnchor : ℕ → Anchor → Type 0
    IsAnchor target base =
        (base.version ≤ target) × Reaches base.version (reached base.state base.deleted)

    genesis-IsAnchor : (target : ℕ) → IsAnchor target genesis
    unfolding replay
    genesis-IsAnchor target = (omega arith, refl)

    anchor_of-IsAnchor :
        (target : ℕ) (o : Option Snapshot) → IsBest target o → IsAnchor target (anchor_of o)
    anchor_of-IsAnchor target none h = genesis-IsAnchor target
    anchor_of-IsAnchor target (some sn) h = h

    anchor-IsAnchor : (f : ReadFaults) (target : ℕ) → IsAnchor target (anchor f st e target)
    unfolding anchor
    anchor-IsAnchor f target = elim (Bool-cases f.has_snapshots) [
      | inr nil ↦ rw nil (genesis-IsAnchor target)
      | inl wired ↦ elim (Bool-cases f.nearest_fails) [
        | inl lost ↦ rw wired (rw lost (genesis-IsAnchor target))
        | inr found ↦ rw wired (
            rw found (
              anchor_of-IsAnchor target (nearest e target st.snapshots none)
                (nearest-IsBest target st.snapshots none synced.snapshots tt)))
      ]
    ]

    -- A read of a version whose state is what the events up to it reconstruct to.
    abbrev pub IsRebuilt : ℕ → ReconstructedState → Type 0
    IsRebuilt target rs =
        (rs.version ≡ target)
        × (reconstruct format_float end false (take target own) ≡ Model.ok (rs.state, rs.deleted))

    rebuild-IsRebuilt :
        (target : ℕ) (base : Anchor)
        → target ≤ length own
        → IsAnchor target base
        → (rs : ReconstructedState) × ((rebuild format_float e target base
                (take (target - base.version) (drop base.version own))
              ≡ ok rs)
            × IsRebuilt target rs)
    unfolding rebuild reconstruct start
    rebuild-IsRebuilt target base fits a =
        let tail = take (target - base.version) (drop base.version own) in
        let (r, whole) =
          replay-take (reached end false) (reached_current (st.current e)) target own
            (synced.entities e).replays in
        let behind : replay format_float (reached base.state base.deleted) tail ≡ Model.ok r =
          ap (λ m. Model.◌>>=◌ m (λ s. replay format_float s tail)) (sym a.1)
          ∙ sym (replay-append format_float (reached end false) (take base.version own) tail)
          ∙ ap (replay format_float (reached end false)) (take-split base.version target own a.0)
          ∙ whole in
        (
          record {
            entity_id = e;
            version = target;
            ts = last_time base.ts tail;
            deleted = r.deleted;
            state = r.report;
            snapshot_version = base.version;
            events_applied = length tail;
          },
          (rw behind refl, (refl, rw whole refl)),
        )

    -- the part of StateAt behind its target
    pub read_at-IsRebuilt :
        (f : ReadFaults) (target : ℕ)
        → is_empty e ≡ false
        → 0 < target
        → target ≤ length own
        → (rs : ReconstructedState) × ((rebuild format_float e target
                (anchor f st e target)
                (list_events (tail_filter e (anchor f st e target).version target) st.events)
              ≡ ok rs)
            × IsRebuilt target rs)
    read_at-IsRebuilt f target named positive fits =
        let base = anchor f st e target in
        let (rs, (built, right)) = rebuild-IsRebuilt target base fits (anchor-IsAnchor f target) in
        (
          rs,
          (
            ap (rebuild format_float e target base) (
                  list_events-tail e base.version target named positive st.events
                    (synced.entities e).numbered)
                ∙ built,
            right,
          ),
        )
