-- ===== src/Queue/Order.antt =====
-- The messages of a shard leave the queue in the order in which they were sent to it.
use letopis.Prelude.{
  append_assoc, append_nil, ℕ, ◌≡◌, refl, sym, ap, ◌∙◌, Bool, false, List, [], ◌∷◌, ◌++◌, ◌==◌,
  if◌then◌else◌, Bool-cases, inl, inr, ==→eq, ==_refl,
}
use letopis.Queue.Shard.{Delivery}
use letopis.Queue.Memory.{
  Queue, Pump, at_channel, stopped, read, recorded, set, Label, sends, hands, drops, Step, draw,
  send, quit, read_channel, record_read, hand_out, drop_it, stop, ack, reclaim_idle, close, Run,
  here, next,
}

abbrev only {ℓ} : {A : Type ℓ} → Bool → A → List A
only b a = if b then a ∷ [] else []

abbrev held : Pump → List Delivery
held (read d) = d ∷ []
held (recorded d) = d ∷ []
held _ = []

-- The messages that a shard has accepted and its pump has not let go.
abbrev pub waiting : Queue → ℕ → List Delivery
waiting q i = held (q.pump i) ++ q.chans i

abbrev sent_by : ℕ → Label → List Delivery
sent_by i (sends d) = only (d.shard == i) d
sent_by i _ = []

abbrev left_by : ℕ → Label → List Delivery
left_by i (hands j d) = only (j == i) d
left_by i (drops j d) = only (j == i) d
left_by i _ = []

-- what was sent to a shard in a run, and what its pump handed out or dropped
abbrev pub sent : ℕ → List Label → List Delivery
sent i [] = []
sent i (l ∷ ls) = sent_by i l ++ sent i ls

abbrev pub left : ℕ → List Label → List Delivery
left i [] = []
left i (l ∷ ls) = left_by i l ++ left i ls

module _ (q : Queue) (i : ℕ) where
  -- What the pump of the shard `j` does, seen from the shard `i`.
  pump_step :
      (j : ℕ) (p : Pump) (chans : ℕ → List Delivery) (out : List Delivery)
      → held (q.pump j) ++ q.chans j ≡ out ++ (held p ++ chans j)
      → ((k : ℕ) → (j == k) ≡ false → q.chans k ≡ chans k)
      → waiting q i ++ [] ≡ (if j == i then out else []) ++ (held (set j p q.pump i) ++ chans i)
  pump_step j p chans out e same = elim (Bool-cases (j == i)) [
    | inr other ↦
        rw other (append_nil (waiting q i) ∙ ap (λ cs. held (q.pump i) ++ cs) (same i other))
    | inl own ↦
        let here : j ≡ i = ==→eq j i own in
        rw own (
          append_nil (waiting q i)
          ∙ sym (ap (λ k. waiting q k) here)
          ∙ e
          ∙ ap (λ k. out ++ (held p ++ chans k)) here)
  ]

  no_output : (j : ℕ) (xs : List Delivery) → (if j == i then [] else []) ++ xs ≡ xs
  no_output j xs = elim (Bool-cases (j == i)) [ inl own ↦ rw own refl | inr other ↦ rw other refl ]

Step-waiting :
    {q t : Queue} {l : Label}
    → Step q l t
    → (i : ℕ) → waiting q i ++ sent_by i l ≡ left_by i l ++ waiting t i
Step-waiting {q = q} (draw msg is_open) i = append_nil (waiting q i)
Step-waiting {q = q} (send before after d at room) i = elim (Bool-cases (d.shard == i)) [
  | inr other ↦ rw other (append_nil (waiting q i))
  | inl own ↦
      let here : d.shard ≡ i = ==→eq d.shard i own in
      rw own (
        append_assoc (held (q.pump i)) (q.chans i) (d ∷ [])
        ∙ sym (ap (λ k. held (q.pump i) ++ (q.chans k ++ d ∷ [])) here))
]
Step-waiting {q = q} (quit before after d at) i = append_nil (waiting q i)
Step-waiting {q = q} (read_channel j d rest at some_left) i =
    pump_step q i j (read d) (set j rest q.chans) [] (rw at (rw some_left (rw (==_refl j) refl)))
      (λ k other. rw other refl)
    ∙ no_output q i j _
Step-waiting {q = q} (record_read j now d at) i =
    pump_step q i j (recorded d) q.chans [] (rw at refl) (λ k other. refl) ∙ no_output q i j _
Step-waiting {q = q} (hand_out j d at) i =
    pump_step q i j at_channel q.chans (d ∷ []) (rw at refl) (λ k other. refl)
Step-waiting {q = q} (drop_it j d at) i =
    pump_step q i j stopped q.chans (d ∷ []) (rw at refl) (λ k other. refl)
Step-waiting {q = q} (stop j at) i =
    pump_step q i j stopped q.chans [] (rw at refl) (λ k other. refl) ∙ no_output q i j _
Step-waiting {q = q} (ack d) i = append_nil (waiting q i)
Step-waiting {q = q} (reclaim_idle j now min_idle) i = append_nil (waiting q i)
Step-waiting {q = q} close i = append_nil (waiting q i)

-- In any run, whatever publishers, pumps, acknowledgements and reclaims do in between: what waited
-- in a shard followed by what was sent to it is, in this order, what its pump handed out or dropped
-- followed by what still waits.
pub Run-waiting :
    (q u : Queue) (ls : List Label)
    → Run q ls u
    → (i : ℕ) → waiting q i ++ sent i ls ≡ left i ls ++ waiting u i
Run-waiting q u [] here i = append_nil (waiting q i)
Run-waiting q u (l ∷ ls) (next {t = t} st r) i =
    sym (append_assoc (waiting q i) (sent_by i l) (sent i ls))
    ∙ ap (λ xs. xs ++ sent i ls) (Step-waiting st i)
    ∙ append_assoc (left_by i l) (waiting t i) (sent i ls)
    ∙ ap (λ xs. left_by i l ++ xs) (Run-waiting t u ls r i)
    ∙ sym (append_assoc (left_by i l) (left i ls) (waiting u i))
