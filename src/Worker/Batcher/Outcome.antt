-- ===== src/Worker/Batcher/Outcome.antt =====
-- The items of a group by their indexes, and what a ticket says of the errors that come back.
use letopis.Prelude.{
  All, ℕ, suc, ◌≡◌, ◌≢◌, ◌⊎◌, refl, sym, ap, Str, Option, none, some, List, [], ◌∷◌, ◌++◌, ◌==◌,
  if◌then◌else◌, Bool-cases, inl, inr, arith, ==→eq,
}
use letopis.Domain.Ticket.{Ticket, stored, failed}
use letopis.Service.Ingest.{WriteError}
use letopis.Batch.Fold.{BatchItem}
use letopis.Worker.Batcher.{Entry, numbered_items, error_at}
use letopis.Worker.Batcher.Tickets.{Tells}

-- The items of some entries, with the indexes from `i` on.
abbrev pub IsIndexed : ℕ → List Entry → List (ℕ × BatchItem) → Type 0
IsIndexed i [] [] = Unit {0}
IsIndexed i (e ∷ es) ((k, item) ∷ items) = (k ≡ i) × (item ≡ e.item) × IsIndexed (suc i) es items
IsIndexed i [] (x ∷ items) = ⊥
IsIndexed i (e ∷ es) [] = ⊥

pub IsIndexed-numbered_items :
    (i : ℕ) (es : List Entry) (items : List (ℕ × BatchItem))
    → IsIndexed i es items
    → numbered_items i es ≡ items
unfolding numbered_items
IsIndexed-numbered_items i [] [] h = refl
IsIndexed-numbered_items i [] (x ∷ items) h = absurd h
IsIndexed-numbered_items i (e ∷ es) [] h = absurd h
IsIndexed-numbered_items i (e ∷ es) ((k, item) ∷ items) h =
    let rest = IsIndexed-numbered_items (suc i) es items h.2 in λ j. (sym h.0 j, sym h.1 j) ∷ rest j

-- No error has the index.
abbrev pub IsClear : ℕ → List (ℕ × WriteError) → Type 0
IsClear n errs = All (λ (x : ℕ × WriteError). x.0 ≢ n) errs

-- The last error that has the index.
abbrev pub IsLast : ℕ → WriteError → List (ℕ × WriteError) → Type 0
IsLast n e errs =
    (before : List (ℕ × WriteError)) × (after : List (ℕ × WriteError)) × (errs
      ≡ before ++ (n, e) ∷ after)
    × IsClear n after

-- The ticket says what the errors say of the index.
abbrev pub EndsAs : (WriteError → Str) → ℕ → List (ℕ × WriteError) → Ticket → Type 0
EndsAs error_text n errs t =
    (IsClear n errs × (t.status ≡ stored) × (t.error ≡ []))
    ⊎ ((e : WriteError) × IsLast n e errs × (t.status ≡ failed) × (t.error ≡ error_text e))

abbrev Answers : ℕ → List (ℕ × WriteError) → Option WriteError → Type 0
Answers n errs none = IsClear n errs
Answers n errs (some e) = IsLast n e errs

Answers-cons :
    (n k : ℕ) (e : WriteError) (errs : List (ℕ × WriteError)) (o : Option WriteError)
    → Answers n errs o
    → Answers n
        ((k, e) ∷ errs)
        (elim o [ none ↦ if k == n then some e else none | some last ↦ some last ])
Answers-cons n k e errs (some last) (before, after, same, clear) =
    ((k, e) ∷ before, after, ap (λ xs. (k, e) ∷ xs) same, clear)
Answers-cons n k e errs none clear = elim (Bool-cases (k == n)) [
  | inl here ↦ rw here ([], errs, ap (λ x. (x, e) ∷ errs) (==→eq k n here), clear)
  | inr other ↦ rw other ((λ same. ground (arith, other, same)), clear)
]

pub error_at-Answers : (n : ℕ) (errs : List (ℕ × WriteError)) → Answers n errs (error_at n errs)
unfolding error_at
error_at-Answers n [] = tt
error_at-Answers n ((k, e) ∷ errs) =
    Answers-cons n k e errs (error_at n errs) (error_at-Answers n errs)

pub Tells-EndsAs :
    (error_text : WriteError → Str) (n : ℕ) (errs : List (ℕ × WriteError)) (o : Option WriteError)
    (t : Ticket)
    → Answers n errs o
    → Tells error_text o t
    → EndsAs error_text n errs t
Tells-EndsAs error_text n errs none t clear h = inl (clear, h.0, h.1)
Tells-EndsAs error_text n errs (some e) t last h = inr (e, last, h.0, h.1)
