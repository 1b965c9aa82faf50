-- ===== src/Delivery/Loop.antt =====
-- internal/delivery/dispatcher.go: handle, reclaim, scheduleRetry and Run. The loops of the shards and
-- the goroutines of the scheduled retries share the state of this model; a run is the order in which
-- they act. A delay is over when its retry acts. Metrics and logs are left out.
pub mod Count
pub mod Kept
use letopis.Prelude.{
  ℕ, zero, suc, Str, Bool, not, ◌&&◌, Option, none, some, List, [], ◌∷◌, if◌then◌else◌,
}
use letopis.Queue.Shard.{Delivery}
use letopis.Delivery.Task.{TenantRef, Task, Config, DeadLetter}
use letopis.Delivery.Dispatch.{
  Response, Verdict, done, parked, retry, process, publish, PublishError,
}

-- What is delivered, waits for its retry, is on the queue again, is saved as a letter of a tenant, or
-- is lost with its letter, and which messages are acknowledged; each list with the last one first.
pub record State : Type 0 where
  pub delivered : List Task
  pub waiting : List Task
  pub published : List Task
  pub letters : List (TenantRef × DeadLetter)
  pub lost : List (TenantRef × DeadLetter)
  pub acked : List Delivery

abbrev pub empty_state : State
empty_state = record {
  delivered = [];
  waiting = [];
  published = [];
  letters = [];
  lost = [];
  acked = [];
}

-- what the handling of a message meets
pub record Meeting : Type 0 where
  pub response : Response
  pub jitter : Option (ℕ → ℕ)
  pub save_fails : Bool

-- what a retry meets
pub record Publishing : Type 0 where
  pub failure : Option PublishError
  pub save_fails : Bool

-- What happens to a dispatcher; a tick comes with the result of Reclaim, none when it fails, and a
-- retry is named by its place among the ones that wait.
pub data Signal : Type 0 where
  received : Meeting → Delivery → Signal
  ticked : Option (List (Meeting × Delivery)) → Signal
  fired : ℕ → Publishing → Signal

unfoldable pub remove_at : ℕ → List Task → Option (Task × List Task)
remove_at n [] = none
remove_at zero (t ∷ ts) = some (t, ts)
remove_at (suc n) (t ∷ ts) =
    let rest = remove_at n ts in
    elim rest [ none ↦ none | some found ↦ some (found.0, t ∷ found.1) ]

module _ (has_sink : Bool) where
  -- the end of toDLQ
  unfoldable pub save_letter : Bool → TenantRef → DeadLetter → State → State
  save_letter fails ref letter st =
      if has_sink && not fails
      then record st { letters = (ref, letter) ∷ st.letters }
      else record st { lost = (ref, letter) ∷ st.lost }

  abbrev pub save_unpublished : Bool → Task → Option DeadLetter → State → State
  save_unpublished fails t none st = record st { published = t ∷ st.published }
  save_unpublished fails t (some letter) st = save_letter fails t.tenant letter st

  -- a retry that publishes its task
  unfoldable pub publish_retry : Publishing → Task → State → State
  unfolding publish save_letter
  publish_retry p t st = save_unpublished p.save_fails t (publish p.failure t) st

  abbrev pub retry_found : Publishing → Option (Task × List Task) → State → State
  retry_found p none st = st
  retry_found p (some (t, rest)) st = publish_retry p t (record st { waiting = rest })

  unfoldable pub run_retry : ℕ → Publishing → State → State
  unfolding remove_at publish_retry
  run_retry n p st = retry_found p (remove_at n st.waiting) st

  -- what follows the verdict of process
  abbrev pub after_verdict : Bool → Task → Verdict → State → State
  after_verdict fails t done st = record st { delivered = t ∷ st.delivered }
  after_verdict fails t (parked letter) st = save_letter fails t.tenant letter st
  after_verdict fails t (retry u delay) st = record st { waiting = u ∷ st.waiting }

  -- the retries that wait when the loops have returned
  unfoldable pub drain : (Task → Publishing) → List Task → State → State
  unfolding publish_retry
  drain p [] st = st
  drain p (t ∷ ts) st = drain p ts (publish_retry (p t) t st)

  module _ (decode : Str → Option Task) (secrets : Str → Option Str) (status_error : ℕ → Str)
      (cfg : Config) where
    abbrev pub handle_decoded : Meeting → Option Task → State → State
    handle_decoded m none st = st
    handle_decoded m (some t) st =
        after_verdict m.save_fails t
          (process secrets status_error cfg m.jitter (λ secret u. m.response) t) st

    -- each message is acknowledged, a malformed one too
    unfoldable pub handle : Meeting → Delivery → State → State
    unfolding process save_letter
    handle m d st =
        let st' = handle_decoded m (decode d.message.payload) st in
        record st' { acked = d ∷ st'.acked }

    unfoldable pub handle_each : List (Meeting × Delivery) → State → State
    unfolding handle
    handle_each [] st = st
    handle_each ((m, d) ∷ ds) st = handle_each ds (handle m d st)

    abbrev pub reclaim : Option (List (Meeting × Delivery)) → State → State
    reclaim none st = st
    reclaim (some ds) st = handle_each ds st

    unfoldable pub run_shards : List Signal → State → State
    unfolding handle handle_each run_retry
    run_shards [] st = st
    run_shards (received m d ∷ signals) st = run_shards signals (handle m d st)
    run_shards (ticked r ∷ signals) st = run_shards signals (reclaim r st)
    run_shards (fired n p ∷ signals) st = run_shards signals (run_retry n p st)

    -- Run: it returns after the retries that wait have acted
    unfoldable pub run : (Task → Publishing) → List Signal → State → State
    unfolding run_shards drain
    run p signals st =
        let st' = run_shards signals st in drain p st'.waiting (record st' { waiting = [] })
