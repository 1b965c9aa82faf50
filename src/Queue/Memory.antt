-- ===== src/Queue/Memory.antt =====
-- internal/queue/memory/memory.go: the in-process queue as a step relation. Publish draws an id and
-- then sends to the channel of its shard; one subscriber per shard, as the workers have, pumps the
-- channel; what the pump hands out is acknowledged or reclaimed later. A step is one access to
-- the shared state, and its label says what happened.
use letopis.Prelude.{
  ℕ, zero, suc, ◌+◌, ◌≡◌, ◌<◌, ◌%◌, ◌^◌, Bool, true, false, List, [], ◌∷◌, ◌++◌, length, ◌==◌, leb,
  if◌then◌else◌,
}
use letopis.Queue.Shard.{Message, Delivery, shard}

pub record Pending : Type 0 where
  pub delivery : Delivery
  pub since : ℕ

-- Where the pump of a shard is: at its channel, with a message that it has read, with one that it
-- has recorded as pending, or done.
pub data Pump : Type 0 where
  at_channel stopped : Pump
  read recorded : Delivery → Pump

pub record Queue : Type 0 where
  pub shards : ℕ
  pub chans : ℕ → List Delivery
  pub pending : ℕ → List Pending
  pub pump : ℕ → Pump
  pub sending : List Delivery
  pub seq : ℕ
  pub closed : Bool

abbrev pub buffer_size : ℕ
buffer_size = 1024

-- New
unfoldable pub make_queue : ℕ → Queue
make_queue n = record {
  shards = if leb 1 n then n else 1;
  chans = λ i. [];
  pending = λ i. [];
  pump = λ i. at_channel;
  sending = [];
  seq = 0;
  closed = false;
}

abbrev pub set {ℓ} : {A : Type ℓ} → ℕ → A → (ℕ → A) → ℕ → A
set i a f j = if i == j then a else f j

-- `pending[id] = p`
unfoldable pub record_pending : Pending → List Pending → List Pending
record_pending p [] = p ∷ []
record_pending p (x ∷ xs) =
    let rest = record_pending p xs in if x.delivery.id == p.delivery.id then p ∷ xs else x ∷ rest

-- `delete(pending, id)`
unfoldable pub remove_pending : ℕ → List Pending → List Pending
remove_pending id [] = []
remove_pending id (x ∷ xs) =
    let rest = remove_pending id xs in if x.delivery.id == id then rest else x ∷ rest

abbrev pub redelivered : ℕ → Pending → Pending
redelivered now p = record {
  delivery = record p.delivery { deliveries = suc p.delivery.deliveries };
  since = now;
}

-- The pending messages after a Reclaim; those that it hands out again are the renewed ones.
unfoldable pub reclaim : ℕ → ℕ → List Pending → List Pending
reclaim now min_idle [] = []
reclaim now min_idle (p ∷ ps) =
    let rest = reclaim now min_idle ps in
    if leb (p.since + min_idle) now then redelivered now p ∷ rest else p ∷ rest

-- the messages that Reclaim returns
unfoldable pub reclaimed : ℕ → ℕ → List Pending → List Delivery
reclaimed now min_idle [] = []
reclaimed now min_idle (p ∷ ps) =
    let rest = reclaimed now min_idle ps in
    if leb (p.since + min_idle) now then (redelivered now p).delivery ∷ rest else rest

-- The number of messages of the shards below `n` that wait or are not acknowledged.
unfoldable pub depth_below : Queue → ℕ → ℕ
depth_below q zero = 0
depth_below q (suc i) = depth_below q i + (length (q.chans i) + length (q.pending i))

unfoldable pub depth : Queue → ℕ
unfolding depth_below
depth q = depth_below q q.shards

-- the delivery that Publish makes of a message
abbrev pub numbered : Queue → Message → Delivery
numbered q msg = record {
  message = msg;
  id = (q.seq + 1) % 2 ^ 64;
  shard = shard msg.key q.shards;
  deliveries = 1;
}

pub data Label : Type 0 where
  draws sends quits acks : Delivery → Label
  reads records hands drops : ℕ → Delivery → Label
  reclaims : ℕ → List Delivery → Label
  stops : ℕ → Label
  closes : Label

pub data Step (q : Queue) : Label → Queue → Type 0 where
  draw :
      (msg : Message)
      → q.closed ≡ false
      → Step q
          (draws (numbered q msg))
          (record q { seq = (q.seq + 1) % 2 ^ 64; sending = numbered q msg ∷ q.sending })
  send :
      (before after : List Delivery) (d : Delivery)
      → q.sending ≡ before ++ d ∷ after
      → length (q.chans d.shard) < buffer_size
      → Step q (sends d) (record q {
        sending = before ++ after;
        chans = set d.shard (q.chans d.shard ++ d ∷ []) q.chans;
      })
  quit :
      (before after : List Delivery) (d : Delivery)
      → q.sending ≡ before ++ d ∷ after
      → Step q (quits d) (record q { sending = before ++ after })
  read_channel :
      (i : ℕ) (d : Delivery) (rest : List Delivery)
      → q.pump i ≡ at_channel
      → q.chans i ≡ d ∷ rest
      → Step q (reads i d) (record q { chans = set i rest q.chans; pump = set i (read d) q.pump })
  record_read :
      (i now : ℕ) (d : Delivery)
      → q.pump i ≡ read d
      → Step q (records i d) (record q {
        pending =
            if q.closed
            then q.pending
            else set i
                (record_pending (record { delivery = d; since = now }) (q.pending i))
                q.pending;
        pump = set i (recorded d) q.pump;
      })
  hand_out :
      (i : ℕ) (d : Delivery)
      → q.pump i ≡ recorded d
      → Step q (hands i d) (record q { pump = set i at_channel q.pump })
  drop_it :
      (i : ℕ) (d : Delivery)
      → q.pump i ≡ recorded d
      → Step q (drops i d) (record q { pump = set i stopped q.pump })
  stop :
      (i : ℕ) → q.pump i ≡ at_channel → Step q (stops i) (record q { pump = set i stopped q.pump })
  ack :
      (d : Delivery)
      → Step q
          (acks d)
          (record q { pending = set d.shard (remove_pending d.id (q.pending d.shard)) q.pending })
  reclaim_idle :
      (i now min_idle : ℕ)
      → Step q
          (reclaims i (reclaimed now min_idle (q.pending i)))
          (record q { pending = set i (reclaim now min_idle (q.pending i)) q.pending })
  close : Step q closes (record q { closed = true })

-- the labels of a run, the first one first
pub data Run : Queue → List Label → Queue → Type 0 where
  here : {q : Queue} → Run q [] q
  next : {ls : List Label} {l : Label} {q t u : Queue} → Step q l t → Run t ls u → Run q (l ∷ ls) u
