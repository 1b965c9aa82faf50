-- ===== src/Delivery/Examples.antt =====
-- The delivery of a webhook on concrete tasks and delays.
use letopis.Prelude.{
  ◌≡◌, refl, ◌+◌, ◌*◌, ◌^◌, ◌<◌, ◌≤◌, Str, codes, str_eq, true, false, Option, none, some, List, [],
  ◌∷◌, length, arith, if◌then◌else◌, ltb,
}
use letopis.Prelude.Int.{pos}
use letopis.Delivery.Backoff.{BackoffConfig, base_of, max_of, schedule, next_delay}
use letopis.Delivery.Schedule.{next_delay_bounds, next_delay_min}
use letopis.Delivery.Task.{Task, Config}
use letopis.Queue.Shard.{Delivery}
use letopis.Delivery.Dispatch.{Response, status, transport_error, to_dlq, with_attempt}
use letopis.Delivery.Loop.{empty_state, Meeting, Publishing, Signal, received, ticked, fired, run}
use letopis.Delivery.Loop.Count.{settled, total, count_handled}
use letopis.Delivery.Loop.Kept.{run-total}
use letopis.Delivery.Settle.{IsWithin, follow, follow-IsWithin}

abbrev backoff : BackoffConfig
backoff = record { base = pos 500000000; max = pos 30000000000 }

-- the third retry waits 4 s, the tenth the cap
fourth_delay : next_delay (pos 3) backoff none ≡ 4000000000
unfolding next_delay schedule
fourth_delay = refl

tenth_delay : next_delay (pos 10) backoff none ≡ 30000000000
unfolding next_delay schedule
tenth_delay = refl

-- a base of 18 minutes and a cap of 7 days: the shift wraps, and the retry waits 17 ms
wrapped_delay :
    next_delay (pos 24) (record { base = pos 1099511627777; max = pos 604800000000000 }) none
    ≡ 16777216
unfolding next_delay schedule
wrapped_delay = refl

next_delay_bounds_example :
    0 < next_delay (pos 70) backoff none
    × next_delay (pos 70) backoff none ≤ 30000000000
    × next_delay (pos 70) backoff (some (λ d. d)) ≤ 30000000000
next_delay_bounds_example = next_delay_bounds (pos 70) backoff (λ d. d) (λ d. omega arith)

next_delay_min_example : next_delay (pos 3) backoff none ≡ (
    if ltb (base_of backoff * 2 ^ 3) (max_of backoff)
    then base_of backoff * 2 ^ 3
    else max_of backoff)
next_delay_min_example = next_delay_min 3 backoff (omega arith) (omega arith)

abbrev task : Task
task = record {
  tenant = record { id = codes "t1"; db_uri = []; db_name = [] };
  delivery_id = codes "d1";
  rule_id = codes "r1";
  rule_name = [];
  collection = codes "crm.deals";
  url = codes "https://example.org";
  secret_ref = codes "main";
  timeout_ms = pos 0;
  max_attempts = pos 3;
  attempt = 0;
  body = codes "{}";
}

abbrev config : Config
config = record {
  default_timeout = pos 0;
  max_attempts = pos 0;
  backoff = backoff;
  reclaim_interval = pos 0;
  reclaim_min_idle = pos 0;
}

-- a receiver that always answers 503
abbrev unavailable : Str → Task → Response
unavailable secret t = status 503

follow-IsWithin_example :
    IsWithin 3 (follow (λ r. some r) (λ n. []) config none unavailable (λ t. none) 3 task)
follow-IsWithin_example =
    follow-IsWithin (λ r. some r) (λ n. []) config none unavailable (λ t. none) 3 task (omega arith)
      (omega arith)

-- an empty payload is malformed
abbrev decode : Str → Option Task
decode payload = if str_eq payload [] then none else some task

abbrev message : Str → Delivery
message payload = record {
  message = record { key = codes "r1"; payload = payload; attrs = [] };
  id = 1;
  shard = 0;
  deliveries = 1;
}

abbrev answers : Response → Meeting
answers r = record { response = r; jitter = none; save_fails = false }

abbrev publishes : Publishing
publishes = record { failure = none; save_fails = false }

-- Two failures and a success; the first retry is published, the second one waits to the end.
abbrev signals : List Signal
signals =
    received (answers (status 503)) (message (codes "x"))
    ∷ ticked none
    ∷ fired 0 publishes
    ∷ received (answers (status 200)) (message [])
    ∷ ticked (some ((answers (status 200), message (codes "x")) ∷ []))
    ∷ received (answers (transport_error (codes "reset"))) (message (codes "x"))
    ∷ []

run-total_example :
    let st = run true decode (λ r. some r) (λ n. []) config (λ t. publishes) signals empty_state in
    (st.waiting ≡ [])
    × (settled (codes "d1") st
        ≡ count_handled (codes "d1") decode signals + total (codes "d1") empty_state)
run-total_example =
    run-total true (codes "d1") decode (λ r. some r) (λ n. []) config (λ t. publishes) signals
      empty_state

outcomes :
    let st = run true decode (λ r. some r) (λ n. []) config (λ t. publishes) signals empty_state in
    (st.delivered ≡ task ∷ [])
    × (st.published ≡ with_attempt task 1 ∷ with_attempt task 1 ∷ [])
    × (length st.acked ≡ 4)
unfolding run str_eq
outcomes = (refl, refl, refl)

-- An unknown secret parks the task, and a letter that cannot be saved is lost.
lost_letter :
    (run false decode
      (λ r. none)
      (λ n. [])
      config
      (λ t. publishes)
      (received (answers (status 200)) (message (codes "x")) ∷ [])
      empty_state).lost
    ≡ (task.tenant, to_dlq task (codes "unknown_secret")) ∷ []
unfolding run str_eq
lost_letter = refl
