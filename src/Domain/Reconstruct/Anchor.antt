-- ===== src/Domain/Reconstruct/Anchor.antt =====
-- A replay that starts from a snapshot gives what the replay from the first event gives.
use letopis.Prelude.{
  ℕ, ◌≡◌, refl, subst, Str, Bool, List, [], ◌∷◌, ◌++◌, Bool-cases, inl, inr, arith,
}
use letopis.Json.{Fields}
use letopis.Diff.Model.{Result, ok, err, ◌>>=◌}
use letopis.Domain.Event.{Event}
use letopis.Domain.Reconstruct.{
  Replay, start, is_delete, outcome, replay_event, replay, reconstruct,
}

-- Between two events the replay is what a start from its own result would be.
abbrev pub IsAnchored : Replay → Type 0
IsAnchored r = start r.report r.deleted ≡ r

start-IsAnchored : (base : Fields) (d : Bool) → IsAnchored (start base d)
unfolding start
start-IsAnchored base d = refl

ok-injective : {A : Type 0} {x y : A} → ok x ≡ ok y → x ≡ y
ok-injective h = cc

module _ (format_float : ℕ → Str) where
  replay_event-IsAnchored :
      (r s : Replay) (ev : Event) → replay_event format_float r ev ≡ ok s → IsAnchored s
  unfolding replay_event start
  replay_event-IsAnchored r s ev h = elim (Bool-cases (is_delete ev.op)) [
    | inl gone ↦ ground (arith, gone)
    | inr kept ↦ ground (arith, kept)
  ]

  replay-IsAnchored :
      (r s : Replay) (evs : List Event)
      → IsAnchored r
      → replay format_float r evs ≡ ok s
      → IsAnchored s
  unfolding replay
  replay-IsAnchored r s [] a h = subst IsAnchored (ok-injective h) a
  replay-IsAnchored r s (ev ∷ evs) a h =
      go (replay_event format_float r ev) refl h (λ t. replay-IsAnchored t s evs)
    where
      go :
          (m : Result Replay)
          → replay_event format_float r ev ≡ m
          → (m >>= λ t. replay format_float t evs) ≡ ok s
          → ((t : Replay) → IsAnchored t → replay format_float t evs ≡ ok s → IsAnchored s)
          → IsAnchored s
      go (ok t) e k ih = ih t (replay_event-IsAnchored r t ev e) k
      go (err x) e k ih = cc

  pub replay-append :
      (r : Replay) (xs ys : List Event)
      → replay format_float r (xs ++ ys)
        ≡ (replay format_float r xs >>= λ s. replay format_float s ys)
  unfolding replay
  replay-append r [] ys = refl
  replay-append r (ev ∷ xs) ys = go (replay_event format_float r ev) (λ s. replay-append s xs ys)
    where
      go :
          (m : Result Replay)
          → ((s : Replay)
              → replay format_float s (xs ++ ys)
                ≡ (replay format_float s xs >>= λ t. replay format_float t ys))
          → (m >>= λ s. replay format_float s (xs ++ ys))
            ≡ ((m >>= λ s. replay format_float s xs) >>= λ t. replay format_float t ys)
      go (ok s) h = h s
      go (err e) h = refl

  -- Replaying a tail from the state and the deletion flag that the events before it lead to gives
  -- the result of replaying all events: an anchored read and a full one agree, across deletes too.
  pub reconstruct-append :
      (base : Fields) (d : Bool) (xs ys : List Event)
      → reconstruct format_float base d (xs ++ ys)
        ≡ (reconstruct format_float base d xs >>= λ s. reconstruct format_float s.0 s.1 ys)
  unfolding reconstruct
  reconstruct-append base d xs ys =
      rw (replay-append (start base d) xs ys) (go (replay format_float (start base d) xs) refl)
    where
      go :
          (m : Result Replay)
          → replay format_float (start base d) xs ≡ m
          → ((m >>= λ s. replay format_float s ys) >>= λ r. ok (outcome r)) ≡ (
              (m >>= λ r. ok (outcome r)) >>= λ s.
              replay format_float (start s.0 s.1) ys >>= λ r. ok (outcome r))
      go (ok s) e = rw (replay-IsAnchored (start base d) s xs (start-IsAnchored base d) e)
      go (err x) e = refl
