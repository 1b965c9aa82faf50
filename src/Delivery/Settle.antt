-- ===== src/Delivery/Settle.antt =====
-- internal/delivery/dispatcher.go: a task followed through its retries until it is settled.
use letopis.Prelude.{
  ◌≡◌, refl, ℕ, zero, suc, ◌+◌, ◌≤◌, ◌<◌, Str, leb, Option, none, some, if◌then◌else◌, arith, Bool,
  true, false, subst,
}
use letopis.Prelude.Int.{pos}
use letopis.Delivery.Backoff.{next_delay}
use letopis.Delivery.Task.{Task, Config, DeadLetter}
use letopis.Delivery.Dispatch
use letopis.Delivery.Dispatch.{
  Response, Attempt, delivered, refused, failed, deliver, Verdict, done, parked, retry, to_dlq,
  cap_of, with_attempt, retry_or_park, process, publish, PublishError, not_encoded, not_published,
}

-- how a delivery ends: no letter is a delivered task
abbrev pub Settled : Type 0
Settled = Option DeadLetter

-- The letter tells of no more tries than the cap. Nothing is what an exhausted bound gives.
abbrev pub IsWithin : ℕ → Option Settled → Type 0
IsWithin cap none = ⊥
IsWithin cap (some none) = Unit {0}
IsWithin cap (some (some letter)) = letter.attempts ≤ cap

module _ (secrets : Str → Option Str) (status_error : ℕ → Str) (cfg : Config)
    (jitter : Option (ℕ → ℕ)) (post : Str → Task → Response)
    (publish_fails : Task → Option PublishError) where
  -- what comes after a verdict, given what comes of its retry
  abbrev pub after_publish : Option DeadLetter → Option Settled → Option Settled
  after_publish none rest = rest
  after_publish (some letter) rest = some (some letter)

  abbrev pub after : (Task → Option Settled) → Verdict → Option Settled
  after rest done = some none
  after rest (parked letter) = some (some letter)
  after rest (retry u delay) = after_publish (publish (publish_fails u) u) (rest u)

  -- the runs of process on a task and on its scheduled retries, at most as many as the bound
  unfoldable pub follow : ℕ → Task → Option Settled
  unfolding process publish
  follow zero t = none
  follow (suc n) t = after (λ u. follow n u) (process secrets status_error cfg jitter post t)

  -- What process promises of a task below its cap: a letter tells of at most as many tries as the
  -- cap, and a retry has one more try and is still below the cap.
  abbrev IsStep : Task → Verdict → Type 0
  IsStep t done = Unit {0}
  IsStep t (parked letter) = letter.attempts ≤ cap_of cfg t
  IsStep t (retry u delay) =
      u.attempt ≡ t.attempt + 1 × cap_of cfg u ≡ cap_of cfg t × u.attempt < cap_of cfg t

  retry_or_park-IsStep :
      (t : Task) (e : Str) → t.attempt < cap_of cfg t → IsStep t (retry_or_park cfg jitter t e)
  unfolding retry_or_park to_dlq
  retry_or_park-IsStep t e h = split (leb (cap_of cfg t) (t.attempt + 1)) refl
    where
      split :
          (full : Bool)
          → leb (cap_of cfg t) (t.attempt + 1) ≡ full
          → IsStep t (
              if full
              then parked (to_dlq (with_attempt t (t.attempt + 1)) e)
              else retry
                  (with_attempt t (t.attempt + 1))
                  (next_delay (pos t.attempt) cfg.backoff jitter))
      split true q = omega arith
      split false q = (refl, refl, ground arith)

  after_attempt-IsStep :
      (t : Task) (a : Attempt)
      → t.attempt < cap_of cfg t
      → IsStep t (Dispatch.after_attempt cfg jitter t a)
  unfolding to_dlq
  after_attempt-IsStep t delivered h = tt
  after_attempt-IsStep t (refused e) h = omega arith
  after_attempt-IsStep t (failed e) h = retry_or_park-IsStep t e h

  with_secret-IsStep :
      (t : Task) (secret : Option Str) (f : Str → Verdict)
      → t.attempt < cap_of cfg t
      → ((s : Str) → IsStep t (f s))
      → IsStep t (Dispatch.with_secret secret t f)
  unfolding to_dlq
  with_secret-IsStep t none f h k = omega arith
  with_secret-IsStep t (some s) f h k = k s

  process-IsStep :
      (t : Task)
      → t.attempt < cap_of cfg t
      → IsStep t (process secrets status_error cfg jitter post t)
  unfolding process
  process-IsStep t h =
      with_secret-IsStep t (secrets t.secret_ref) _ h
        (λ s. after_attempt-IsStep t (deliver status_error (post s t)) h)

  after_publish-IsWithin :
      (u : Task) (failure : Option PublishError) (rest : Option Settled)
      → u.attempt ≤ cap_of cfg u
      → IsWithin (cap_of cfg u) rest
      → IsWithin (cap_of cfg u) (after_publish (publish failure u) rest)
  unfolding publish to_dlq
  after_publish-IsWithin u none rest below h = h
  after_publish-IsWithin u (some (not_encoded e)) rest below h = below
  after_publish-IsWithin u (some (not_published e)) rest below h = below

  after_process :
      (n : ℕ) (t : Task) (v : Verdict)
      → IsStep t v
      → ((u : Task)
          → u.attempt < cap_of cfg u
          → cap_of cfg u ≤ u.attempt + n
          → IsWithin (cap_of cfg u) (follow n u))
      → cap_of cfg t ≤ t.attempt + suc n
      → IsWithin (cap_of cfg t) (after (λ u. follow n u) v)
  after_process n t done step rest h = tt
  after_process n t (parked letter) step rest h = step
  after_process n t (retry u delay) step rest h =
      subst (λ c. IsWithin c (after (λ w. follow n w) (retry u delay))) step.1
        (after_publish-IsWithin u (publish_fails u) (follow n u) (omega arith)
          (rest u (omega arith) (omega arith)))

  -- A task that is below its cap of tries is settled, whatever the receiver and the queue do, after
  -- no more runs of process than the tries that are left: it is delivered, or it is parked
  -- with a letter that tells of no more tries than the cap.
  pub follow-IsWithin :
      (n : ℕ) (t : Task)
      → t.attempt < cap_of cfg t
      → cap_of cfg t ≤ t.attempt + n
      → IsWithin (cap_of cfg t) (follow n t)
  unfolding follow
  follow-IsWithin zero t h k = omega arith
  follow-IsWithin (suc n) t h k =
      after_process n t (process secrets status_error cfg jitter post t) (process-IsStep t h)
        (λ u a b. follow-IsWithin n u a b) k
