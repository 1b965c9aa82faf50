-- ===== src/Worker/Batcher/Buffer.antt =====
-- The batches of runShard: they hold what was received, in order, and are neither empty nor too large.
use letopis.Prelude.{
  ℕ, ◌≤◌, ◌<◌, ◌≡◌, refl, sym, ap, ◌∙◌, leb, List, [], ◌∷◌, ◌++◌, append_assoc, append_nil, length,
  length-append, All, Bool-cases, inl, inr, arith,
}
use letopis.Prelude.Int.{ℤ, pos, negsuc}
use letopis.Queue.Shard.{Delivery}
use letopis.Worker.Batcher.{
  batch_size, Signal, received, lingered, cancelled, closed, flush_buffer, run_shard,
}

-- the deliveries that the loop takes before it ends
unfoldable pub taken : List Signal → List Delivery
taken [] = []
taken (received d ∷ signals) = d ∷ taken signals
taken (lingered ∷ signals) = taken signals
taken (cancelled ∷ signals) = []
taken (closed ∷ signals) = []

abbrev pub joined : List (List Delivery) → List Delivery
joined [] = []
joined (b ∷ bs) = b ++ joined bs

joined-flush_buffer :
    (buf : List Delivery) (bs : List (List Delivery))
    → joined (flush_buffer buf bs) ≡ buf ++ joined bs
joined-flush_buffer [] bs = refl
joined-flush_buffer (d ∷ ds) bs = refl

abbrev pub IsBatch : ℕ → List Delivery → Type 0
IsBatch size b = (1 ≤ length b) × (length b ≤ size)

flush_buffer-All :
    (size : ℕ) (buf : List Delivery) (bs : List (List Delivery))
    → length buf ≤ size
    → All (IsBatch size) bs
    → All (IsBatch size) (flush_buffer buf bs)
flush_buffer-All size [] bs l h = h
flush_buffer-All size (d ∷ ds) bs l h = ((omega arith, l), h)

batch_size-positive : (z : ℤ) → 1 ≤ batch_size z
batch_size-positive (pos n) = ground arith
batch_size-positive (negsuc n) = omega arith

one_more :
    (size : ℕ) (buf : List Delivery) (d : Delivery)
    → length buf < size
    → length (buf ++ d ∷ []) ≤ size
one_more size buf d h = omega (arith, h, length-append buf (d ∷ []))

module _ (size : ℕ) where
  abbrev IsKept : List Signal → List Delivery → Type 0
  IsKept signals buf =
      let r = run_shard size signals buf in joined r.0 ++ r.1 ≡ buf ++ taken signals

  flush-IsKept :
      (signals : List Signal) (buf : List Delivery)
      → IsKept signals []
      → let r = run_shard size signals [] in
        joined (flush_buffer buf r.0) ++ r.1 ≡ buf ++ taken signals
  flush-IsKept signals buf h =
      let r = run_shard size signals [] in
      ap (λ xs. xs ++ r.1) (joined-flush_buffer buf r.0)
      ∙ append_assoc buf (joined r.0) r.1
      ∙ ap (λ xs. buf ++ xs) h

  run_shard-IsKept : (signals : List Signal) (buf : List Delivery) → IsKept signals buf
  unfolding run_shard taken
  run_shard-IsKept [] buf = sym (append_nil buf)
  run_shard-IsKept (received d ∷ signals) buf =
      elim (Bool-cases (leb size (length (buf ++ d ∷ [])))) [
        | inl full ↦
            rw full (flush-IsKept signals (buf ++ d ∷ []) (run_shard-IsKept signals []))
            ∙ append_assoc buf (d ∷ []) (taken signals)
        | inr space ↦
            rw space (run_shard-IsKept signals (buf ++ d ∷ []))
            ∙ append_assoc buf (d ∷ []) (taken signals)
      ]
  run_shard-IsKept (lingered ∷ signals) buf = flush-IsKept signals buf (run_shard-IsKept signals [])
  run_shard-IsKept (cancelled ∷ signals) buf =
      append_nil (joined (flush_buffer buf [])) ∙ joined-flush_buffer buf []
  run_shard-IsKept (closed ∷ signals) buf = sym (append_nil buf)

  -- from a buffer that is not full
  run_shard-sizes :
      (signals : List Signal) (buf : List Delivery)
      → length buf < size
      → let r = run_shard size signals buf in All (IsBatch size) r.0 × (length r.1 < size)
  unfolding run_shard
  run_shard-sizes [] buf h = (tt, h)
  run_shard-sizes (received d ∷ signals) buf h =
      elim (Bool-cases (leb size (length (buf ++ d ∷ [])))) [
        | inl full ↦
            let on = run_shard-sizes signals [] (omega (arith, h)) in
            rw full (flush_buffer-All size (buf ++ d ∷ []) _ (one_more size buf d h) on.0, on.1)
        | inr space ↦ rw space (run_shard-sizes signals (buf ++ d ∷ []) (ground (arith, space)))
      ]
  run_shard-sizes (lingered ∷ signals) buf h =
      let on = run_shard-sizes signals [] (omega (arith, h)) in
      (flush_buffer-All size buf _ (omega (arith, h)) on.0, on.1)
  run_shard-sizes (cancelled ∷ signals) buf h =
      (flush_buffer-All size buf [] (omega (arith, h)) tt, omega (arith, h))
  run_shard-sizes (closed ∷ signals) buf h = (tt, h)

-- Whatever the configured size is, and in whichever order deliveries, deadlines and the end come: the
-- batches of the loop and what is left in its buffer are together the deliveries that it took, in
-- order; no batch is empty or larger than the size, and what is left is less than a batch.
pub run_shard-IsInOrder :
    (configured : ℤ) (signals : List Signal)
    → let size = batch_size configured in
      let r = run_shard size signals [] in
      (joined r.0 ++ r.1 ≡ taken signals) × All (IsBatch size) r.0 × (length r.1 < size)
run_shard-IsInOrder configured signals =
    let size = batch_size configured in
    let sizes = run_shard-sizes size signals [] (omega (arith, batch_size-positive configured)) in
    (run_shard-IsKept size signals [], sizes.0, sizes.1)
