-- ===== src/Delivery/Loop/Kept.antt =====
-- What becomes of the webhooks that a dispatcher handles.
use letopis.Prelude.{
  ℕ, zero, suc, ◌+◌, ◌≡◌, refl, sym, ap, ◌∙◌, Str, Bool, not, ◌&&◌, leb, Option, none, some, List,
  [], ◌∷◌, Bool-cases, inl, inr, arith,
}
use letopis.Queue.Shard.{Delivery}
use letopis.Delivery.Task.{TenantRef, Task, Config, DeadLetter}
use letopis.Delivery.Dispatch
use letopis.Delivery.Dispatch.{
  PublishError, not_encoded, not_published, Attempt, delivered, refused, failed, Response, deliver,
  Verdict, done, parked, retry, to_dlq, retry_or_park, process, publish, cap_of,
}
use letopis.Delivery.Loop.{
  State, Meeting, Publishing, Signal, received, ticked, fired, remove_at, save_letter,
  save_unpublished, publish_retry, retry_found, run_retry, after_verdict, drain, handle_decoded,
  handle, handle_each, run_shards, run,
}
use letopis.Delivery.Loop.Count.{
  one, count_tasks, count_letters, settled, total, count_decoded, count_each, count_handled,
}

module _ (has_sink : Bool) (id : Str) where
  save_letter-total :
      (fails : Bool) (ref : TenantRef) (letter : DeadLetter) (st : State)
      → total id (save_letter has_sink fails ref letter st)
        ≡ one id letter.delivery_id + total id st
  unfolding save_letter count_letters
  save_letter-total fails ref letter st = elim (Bool-cases (has_sink && not fails)) [
    | inl kept ↦ rw kept (omega arith)
    | inr lost ↦ rw lost (omega arith)
  ]

  save_unpublished-total :
      (fails : Bool) (t : Task) (failure : Option PublishError) (st : State)
      → total id (save_unpublished has_sink fails t (publish failure t) st)
        ≡ one id t.delivery_id + total id st
  unfolding publish to_dlq count_tasks
  save_unpublished-total fails t none st = omega arith
  save_unpublished-total fails t (some (not_encoded e)) st = save_letter-total fails t.tenant _ st
  save_unpublished-total fails t (some (not_published e)) st = save_letter-total fails t.tenant _ st

  publish_retry-total :
      (p : Publishing) (t : Task) (st : State)
      → total id (publish_retry has_sink p t st) ≡ one id t.delivery_id + total id st
  unfolding publish_retry
  publish_retry-total p t st = save_unpublished-total p.save_fails t p.failure st

  -- what is removed is one of the tasks
  abbrev IsPart : List Task → Option (Task × List Task) → Type 0
  IsPart ts none = Unit {0}
  IsPart ts (some (t, rest)) = count_tasks id ts ≡ one id t.delivery_id + count_tasks id rest

  IsPart-cons :
      (t : Task) (ts : List Task) (o : Option (Task × List Task))
      → IsPart ts o
      → IsPart (t ∷ ts) (elim o [ none ↦ none | some found ↦ some (found.0, t ∷ found.1) ])
  unfolding count_tasks
  IsPart-cons t ts none h = tt
  IsPart-cons t ts (some found) h = omega (arith, h)

  remove_at-IsPart : (n : ℕ) (ts : List Task) → IsPart ts (remove_at n ts)
  unfolding remove_at count_tasks
  remove_at-IsPart n [] = tt
  remove_at-IsPart zero (t ∷ ts) = refl
  remove_at-IsPart (suc n) (t ∷ ts) = IsPart-cons t ts (remove_at n ts) (remove_at-IsPart n ts)

  retry_found-total :
      (p : Publishing) (st : State) (o : Option (Task × List Task))
      → IsPart st.waiting o
      → total id (retry_found has_sink p o st) ≡ total id st
  retry_found-total p st none h = refl
  retry_found-total p st (some (t, rest)) h =
      publish_retry-total p t (record st { waiting = rest }) ∙ omega (arith, h)

  run_retry-total :
      (n : ℕ) (p : Publishing) (st : State) → total id (run_retry has_sink n p st) ≡ total id st
  unfolding run_retry
  run_retry-total n p st =
      retry_found-total p st (remove_at n st.waiting) (remove_at-IsPart n st.waiting)

  drain-total :
      (p : Task → Publishing) (ts : List Task) (st : State)
      → total id (drain has_sink p ts st) ≡ count_tasks id ts + total id st
  unfolding drain count_tasks
  drain-total p [] st = omega arith
  drain-total p (t ∷ ts) st =
      drain-total p ts (publish_retry has_sink (p t) t st)
      ∙ omega (arith, publish_retry-total (p t) t st)

  save_unpublished-waiting :
      (fails : Bool) (t : Task) (o : Option DeadLetter) (st : State)
      → (save_unpublished has_sink fails t o st).waiting ≡ st.waiting
  unfolding save_letter
  save_unpublished-waiting fails t none st = refl
  save_unpublished-waiting fails t (some letter) st = elim (Bool-cases (has_sink && not fails)) [
    | inl kept ↦ rw kept refl
    | inr lost ↦ rw lost refl
  ]

  drain-waiting :
      (p : Task → Publishing) (ts : List Task) (st : State)
      → (drain has_sink p ts st).waiting ≡ st.waiting
  unfolding drain publish_retry
  drain-waiting p [] st = refl
  drain-waiting p (t ∷ ts) st =
      drain-waiting p ts (publish_retry has_sink (p t) t st)
      ∙ save_unpublished-waiting (p t).save_fails t (publish (p t).failure t) st

  settled-total : (st : State) → st.waiting ≡ [] → settled id st ≡ total id st
  unfolding count_tasks
  settled-total st h = omega (arith, ap (λ ts. count_tasks id ts) h)

  without_waiting :
      (st : State) → total id st ≡ count_tasks id st.waiting + total id (record st { waiting = [] })
  unfolding count_tasks
  without_waiting st = omega arith

  -- a verdict on a task is about its delivery
  abbrev IsOf : Task → Verdict → Type 0
  IsOf t done = Unit {0}
  IsOf t (parked letter) = letter.delivery_id ≡ t.delivery_id
  IsOf t (retry u delay) = u.delivery_id ≡ t.delivery_id

  after_verdict-total :
      (fails : Bool) (t : Task) (v : Verdict) (st : State)
      → IsOf t v
      → total id (after_verdict has_sink fails t v st) ≡ one id t.delivery_id + total id st
  unfolding count_tasks
  after_verdict-total fails t done st h = omega arith
  after_verdict-total fails t (parked letter) st h =
      save_letter-total fails t.tenant letter st ∙ ap (λ x. one id x + total id st) h
  after_verdict-total fails t (retry u delay) st h = rw h (omega arith)

  module _ (decode : Str → Option Task) (secrets : Str → Option Str) (status_error : ℕ → Str)
      (cfg : Config) where
    after_attempt-IsOf :
        (jitter : Option (ℕ → ℕ)) (t : Task) (a : Attempt)
        → IsOf t (Dispatch.after_attempt cfg jitter t a)
    unfolding to_dlq retry_or_park
    after_attempt-IsOf jitter t delivered = tt
    after_attempt-IsOf jitter t (refused e) = refl
    after_attempt-IsOf jitter t (failed e) =
        elim (Bool-cases (leb (cap_of cfg t) (t.attempt + 1))) [
          | inl full ↦ rw full refl
          | inr below ↦ rw below refl
        ]

    with_secret-IsOf :
        (jitter : Option (ℕ → ℕ)) (r : Response) (t : Task) (secret : Option Str)
        → IsOf t (
            Dispatch.with_secret secret t
              (λ s. Dispatch.after_attempt cfg jitter t (deliver status_error r)))
    unfolding to_dlq
    with_secret-IsOf jitter r t none = refl
    with_secret-IsOf jitter r t (some s) = after_attempt-IsOf jitter t (deliver status_error r)

    handle_decoded-total :
        (m : Meeting) (o : Option Task) (st : State)
        → total id (handle_decoded has_sink decode secrets status_error cfg m o st)
          ≡ count_decoded id decode o + total id st
    unfolding process
    handle_decoded-total m none st = omega arith
    handle_decoded-total m (some t) st =
        after_verdict-total m.save_fails t _ st
          (with_secret-IsOf m.jitter m.response t (secrets t.secret_ref))

    handle-total :
        (m : Meeting) (d : Delivery) (st : State)
        → total id (handle has_sink decode secrets status_error cfg m d st)
          ≡ count_decoded id decode (decode d.message.payload) + total id st
    unfolding handle
    handle-total m d st = handle_decoded-total m (decode d.message.payload) st

    handle_each-total :
        (ds : List (Meeting × Delivery)) (st : State)
        → total id (handle_each has_sink decode secrets status_error cfg ds st)
          ≡ count_each id decode ds + total id st
    unfolding handle_each count_each
    handle_each-total [] st = omega arith
    handle_each-total ((m, d) ∷ ds) st =
        handle_each-total ds (handle has_sink decode secrets status_error cfg m d st)
        ∙ omega (arith, handle-total m d st)

    run_shards-total :
        (signals : List Signal) (st : State)
        → total id (run_shards has_sink decode secrets status_error cfg signals st)
          ≡ count_handled id decode signals + total id st
    unfolding run_shards count_handled
    run_shards-total [] st = omega arith
    run_shards-total (received m d ∷ signals) st =
        run_shards-total signals (handle has_sink decode secrets status_error cfg m d st)
        ∙ omega (arith, handle-total m d st)
    run_shards-total (ticked none ∷ signals) st = run_shards-total signals st
    run_shards-total (ticked (some ds) ∷ signals) st =
        run_shards-total signals (handle_each has_sink decode secrets status_error cfg ds st)
        ∙ omega (arith, handle_each-total ds st)
    run_shards-total (fired n p ∷ signals) st =
        run_shards-total signals (run_retry has_sink n p st) ∙ omega (arith, run_retry-total n p st)

    -- Whatever messages a dispatcher receives and reclaims, whatever the receivers answer, and
    -- whichever calls of the queue and of the store of letters fail: when Run returns, no retry
    -- waits, and each handled message with a task is settled once. As many deliveries with an id
    -- are delivered, back on the queue, saved as letters or lost with a letter as messages with that
    -- id were handled, besides those that the dispatcher had before.
    pub run-total :
        (p : Task → Publishing) (signals : List Signal) (st : State)
        → let st' = run has_sink decode secrets status_error cfg p signals st in
          (st'.waiting ≡ []) × (settled id st' ≡ count_handled id decode signals + total id st)
    unfolding run
    run-total p signals st =
        let mid = run_shards has_sink decode secrets status_error cfg signals st in
        let none_left = drain-waiting p mid.waiting (record mid { waiting = [] }) in
        let end = drain has_sink p mid.waiting (record mid { waiting = [] }) in
        (
          none_left,
          settled-total end none_left
              ∙ drain-total p mid.waiting (record mid { waiting = [] })
              ∙ sym (without_waiting mid)
              ∙ run_shards-total signals st,
        )
