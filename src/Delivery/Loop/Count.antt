-- ===== src/Delivery/Loop/Count.antt =====
-- The webhooks of a run of the dispatcher, counted by the ids of their deliveries.
use letopis.Prelude.{ℕ, ◌+◌, Str, str_eq, Option, none, some, List, [], ◌∷◌, if◌then◌else◌}
use letopis.Queue.Shard.{Delivery}
use letopis.Delivery.Task.{TenantRef, Task, DeadLetter}
use letopis.Delivery.Loop.{State, Meeting, Signal, received, ticked, fired}

-- one for an id that is counted
abbrev pub one : Str → Str → ℕ
one id x = if str_eq x id then 1 else 0

unfoldable pub count_tasks : Str → List Task → ℕ
count_tasks id [] = 0
count_tasks id (t ∷ ts) = one id t.delivery_id + count_tasks id ts

unfoldable pub count_letters : Str → List (TenantRef × DeadLetter) → ℕ
count_letters id [] = 0
count_letters id ((ref, letter) ∷ ls) = one id letter.delivery_id + count_letters id ls

-- all that a dispatcher has of a delivery
abbrev pub settled : Str → State → ℕ
settled id st =
    count_tasks id st.delivered
    + count_tasks id st.published
    + (count_letters id st.letters + count_letters id st.lost)

abbrev pub total : Str → State → ℕ
total id st = settled id st + count_tasks id st.waiting

module _ (id : Str) (decode : Str → Option Task) where
  -- the deliveries with the id among the messages that are handled
  abbrev pub count_decoded : Option Task → ℕ
  count_decoded none = 0
  count_decoded (some t) = one id t.delivery_id

  unfoldable pub count_each : List (Meeting × Delivery) → ℕ
  count_each [] = 0
  count_each ((m, d) ∷ ds) = count_decoded (decode d.message.payload) + count_each ds

  -- over the messages that are received and reclaimed
  unfoldable pub count_handled : List Signal → ℕ
  count_handled [] = 0
  count_handled (received m d ∷ signals) =
      count_decoded (decode d.message.payload) + count_handled signals
  count_handled (ticked none ∷ signals) = count_handled signals
  count_handled (ticked (some ds) ∷ signals) = count_each ds + count_handled signals
  count_handled (fired n p ∷ signals) = count_handled signals
