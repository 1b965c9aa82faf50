-- ===== src/Queue/Examples.antt =====
-- Tests of the queue, and its theorems at a concrete run.
use letopis.Prelude.{◌≡◌, ◌++◌, refl, codes, List, [], ◌∷◌, arith}
use letopis.Queue.Shard.{Message, Delivery, shard}
use letopis.Queue.Memory.{
  Queue, make_queue, numbered, Label, draws, sends, reads, records, hands, draw, send, read_channel,
  record_read, hand_out, Run, here, next,
}
use letopis.Queue.Order.{waiting, sent, left, Run-waiting}

abbrev message : Message
message = record { key = codes "a"; payload = []; attrs = [] }

abbrev start : Queue
start = make_queue 1

-- A message is published, read, recorded and handed out.
abbrev labels : Delivery → List Label
labels d = draws d ∷ sends d ∷ reads 0 d ∷ records 0 d ∷ hands 0 d ∷ []

published : (u : Queue) × Run start (labels (numbered start message)) u
unfolding make_queue shard
published = (
  _,
  next (draw message refl) (
      next (send [] [] (numbered start message) refl (omega arith)) (
        next (read_channel 0 (numbered start message) [] refl refl) (
          next (record_read 0 5 (numbered start message) refl)
            (next (hand_out 0 (numbered start message) refl) here)))),
)

Run-waiting_example :
    waiting start 0 ++ sent 0 (labels (numbered start message))
    ≡ left 0 (labels (numbered start message)) ++ waiting published.0 0
Run-waiting_example = Run-waiting start published.0 (labels (numbered start message)) published.1 0
