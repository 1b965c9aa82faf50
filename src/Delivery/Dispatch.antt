-- ===== src/Delivery/Dispatch.antt =====
-- internal/delivery/dispatcher.go: withDefaults, process, deliver, publish, toDLQ and handle.
use letopis.Prelude.{ℕ, ◌+◌, Str, codes, leb, ltb, ◌&&◌, Option, none, some, ◌++◌, if◌then◌else◌}
use letopis.Prelude.Int.{pos}
use letopis.Delivery.Backoff.{positive_or, base_of, max_of, next_delay}
use letopis.Delivery.Task.{Task, Config, DeadLetter}

abbrev pub default_timeout : ℕ
default_timeout = 5000000000

abbrev pub default_max_attempts : ℕ
default_max_attempts = 5

unfoldable pub with_defaults : Config → Config
with_defaults c = record {
  default_timeout = pos (positive_or default_timeout c.default_timeout);
  max_attempts = pos (positive_or default_max_attempts c.max_attempts);
  backoff = record { base = pos (base_of c.backoff); max = pos (max_of c.backoff) };
  reclaim_interval = pos (positive_or 5000000000 c.reclaim_interval);
  reclaim_min_idle = pos (positive_or 30000000000 c.reclaim_min_idle);
}

-- What a POST of the HTTP client comes to: a status, a refusal of the guarded transport, or
-- another error, each with its text.
pub data Response : Type 0 where
  status : ℕ → Response
  blocked : Str → Response
  transport_error : Str → Response

-- What deliver returns. `status_error` is the text of an httpStatusError.
pub data Attempt : Type 0 where
  delivered : Attempt
  refused : Str → Attempt
  failed : Str → Attempt

unfoldable pub deliver : (ℕ → Str) → Response → Attempt
deliver status_error (status n) =
    if leb 200 n && ltb n 300 then delivered else failed (status_error n)
deliver status_error (blocked e) = refused e
deliver status_error (transport_error e) = failed e

-- What becomes of a delivery: a retry is scheduled after a delay.
pub data Verdict : Type 0 where
  done : Verdict
  parked : DeadLetter → Verdict
  retry : Task → ℕ → Verdict

unfoldable pub to_dlq : Task → Str → DeadLetter
to_dlq t reason = record {
  rule_id = t.rule_id;
  collection = t.collection;
  delivery_id = t.delivery_id;
  url = t.url;
  secret_ref = t.secret_ref;
  body = t.body;
  attempts = t.attempt;
  last_error = reason;
}

-- the cap of a task: its own, or that of the configuration after withDefaults
abbrev pub cap_of : Config → Task → ℕ
cap_of cfg t = positive_or (positive_or default_max_attempts cfg.max_attempts) t.max_attempts

abbrev pub with_attempt : Task → ℕ → Task
with_attempt t n = record t { attempt = n }

-- the end of process, after a failure that can be retried
unfoldable pub retry_or_park : Config → Option (ℕ → ℕ) → Task → Str → Verdict
unfolding to_dlq next_delay
retry_or_park cfg jitter t e =
    let made = t.attempt + 1 in
    if leb (cap_of cfg t) made
    then parked (to_dlq (with_attempt t made) e)
    else retry (with_attempt t made) (next_delay (pos t.attempt) cfg.backoff jitter)

-- what process does with the error of deliver
abbrev pub after_attempt : Config → Option (ℕ → ℕ) → Task → Attempt → Verdict
after_attempt cfg jitter t delivered = done
after_attempt cfg jitter t (refused e) = parked (to_dlq t e)
after_attempt cfg jitter t (failed e) = retry_or_park cfg jitter t e

-- the guard on the secret of the task
abbrev pub with_secret : Option Str → Task → (Str → Verdict) → Verdict
with_secret none t post = parked (to_dlq t (codes "unknown_secret"))
with_secret (some secret) t post = post secret

-- The configuration is the one given to New. `post` is the POST with the signature of a secret.
unfoldable pub process :
    (Str → Option Str)
    → (ℕ → Str)
    → Config
    → Option (ℕ → ℕ)
    → (Str → Task → Response)
    → Task
    → Verdict
unfolding deliver to_dlq retry_or_park
process secrets status_error cfg jitter post t =
    with_secret (secrets t.secret_ref) t
      (λ secret. after_attempt cfg jitter t (deliver status_error (post secret t)))

-- the text of a failing EncodeTask, or of a failing Publish of the queue
pub data PublishError : Type 0 where
  not_encoded not_published : Str → PublishError

unfoldable pub publish : Option PublishError → Task → Option DeadLetter
unfolding to_dlq
publish none t = none
publish (some (not_encoded e)) t = some (to_dlq t (codes "encode_retry: " ++ e))
publish (some (not_published e)) t = some (to_dlq t (codes "republish_failed: " ++ e))
