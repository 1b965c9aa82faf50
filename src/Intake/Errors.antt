-- ===== src/Intake/Errors.antt =====
-- A write that is refused leaves no message and no key behind.
use letopis.Prelude.{
  ℕ, ◌≡◌, ◌≢◌, refl, sym, ap, ◌∙◌, Str, str_eq, str_eq→eq, Bool, true, false, Option, none, some,
  if◌then◌else◌, Bool-cases, inl, inr, arith,
}
use letopis.Domain.Collection.{ReliabilityMode}
use letopis.Tenant.Access.{Tenant, database_name}
use letopis.Service.Command.{Kind, IngestCommand, IngestResult}
use letopis.Worker.Process.{Task}
use letopis.Intake.Reserve.{
  IdempotencyRecord, Keys, Reservation, claim, first_round, release, redis_key,
}
use letopis.Intake.Accept.{
  Wiring, Intake, Io, Accepted, AcceptError, err, idemp_key, enqueue, open_and_publish, publish,
  publish_encoded, settle, after_reserve, enqueue_keyed, unless_refused, free_key, task_of,
}
use letopis.Intake.Kept.{IsLasting, Reserved, is_won, is_lost, is_down, reserve-Reserved}

-- The queues and the keys are as before.
pub record IsUntouched (s u : Intake) : Type 0 where
  pub durable : u.durable ≡ s.durable
  pub fast : u.fast ≡ s.fast
  pub keys : (k : Str) → u.keys k ≡ s.keys k

-- A key that was free is free again after its claim and release.
freed :
    (keys : Keys) (k j : Str) (r : Option IdempotencyRecord)
    → keys k ≡ r
    → r ≡ none
    → (o : Option IdempotencyRecord) → claim (claim keys k o) k none j ≡ keys j
freed keys k j r e n o = elim (Bool-cases (str_eq j k)) [
  | inr other ↦ rw other refl
  | inl same ↦ rw same (sym (ap keys (str_eq→eq j k same) ∙ e ∙ n))
]

IsUntouched-same : (s : Intake) → IsUntouched s s
IsUntouched-same s = record { durable = refl; fast = refl; keys = λ k. refl }

-- An error means that nothing is touched.
abbrev IsQuiet : Intake → Intake × Option AcceptError → Type 0
IsQuiet s x = (e : AcceptError) → x.1 ≡ some e → IsUntouched s x.0

IsQuiet-if :
    (s : Intake) (b : Bool) (x y : Intake × Option AcceptError)
    → IsQuiet s x
    → IsQuiet s y
    → IsQuiet s (if b then x else y)
IsQuiet-if s true x y h k = h
IsQuiet-if s false x y h k = k

released_as :
    (keys other : Keys) (k j : Str) → keys j ≡ other j → claim keys k none j ≡ claim other k none j
released_as keys other k j h = elim (Bool-cases (str_eq j k)) [
  | inl same ↦ rw same refl
  | inr apart ↦ rw apart h
]

module _ (encode : Task → Option Str) (w : Wiring) (t : Tenant) (io : Io) (kind : Kind)
    (mode : ReliabilityMode) (cmd : IngestCommand) where
  published-IsQuiet :
      (s u : Intake) (o : Option Str)
      → IsUntouched s u
      → IsQuiet s (publish_encoded encode w t io mode (task_of t kind mode io.new_id cmd) u o)
  published-IsQuiet s u none h = λ e q. h
  published-IsQuiet s u (some p) h =
      IsQuiet-if s io.publish_fails _ _ (λ e q. h) (λ e q. absurd (ground arith))

  opened-IsQuiet : (s : Intake) → IsQuiet s (open_and_publish encode w t io kind mode cmd s)
  unfolding open_and_publish publish
  opened-IsQuiet s =
      let task = task_of t kind mode io.new_id cmd in
      IsQuiet-if s w.has_tickets _ _
        (IsQuiet-if s io.open_fails _ _ (λ e q. IsUntouched-same s)
          (published-IsQuiet s _ (encode task)
            (record { durable = refl; fast = refl; keys = λ k. refl })))
        (published-IsQuiet s s (encode task) (IsUntouched-same s))

  abbrev IsCalm : Intake → Intake × Accepted IngestResult → Type 0
  IsCalm s x = (e : AcceptError) → x.1 ≡ err e → IsUntouched s x.0

  settle-IsCalm :
      (s : Intake) (undo : Intake → Intake) (x : Intake × Option AcceptError)
      → (x.1 ≢ none → IsUntouched s (undo x.0))
      → IsCalm s (settle encode w t cmd io.new_id undo x)
  settle-IsCalm s undo (u, none) h e q = absurd (ground arith)
  settle-IsCalm s undo (u, some a) h e q = h (λ z. cc z)

  IsQuiet-IsUntouched :
      (s : Intake) (x : Intake × Option AcceptError) → IsQuiet s x → x.1 ≢ none → IsUntouched s x.0
  IsQuiet-IsUntouched s (u, none) h n = absurd (n refl)
  IsQuiet-IsUntouched s (u, some e) h n = h e refl

  Reserved-IsCalm :
      (s : Intake) (k : Str) (rec : IdempotencyRecord) (x : Keys × Reservation)
      → io.release_fails ≡ false
      → Reserved s.keys k rec (first_round io.rounds) x
      → IsCalm s (after_reserve encode w t io kind mode cmd k s x)
  unfolding release
  Reserved-IsCalm s k rec x works (is_lost r held_by q) = rw q (λ e z. absurd (ground arith))
  Reserved-IsCalm s k rec x works (is_down broken q) = rw q (
      settle-IsCalm s (λ u. u) (open_and_publish encode w t io kind mode cmd s)
        (IsQuiet-IsUntouched s _ (opened-IsQuiet s)))
  Reserved-IsCalm s k rec x works (is_won free q) =
      let claimed = record s { keys = claim s.keys k (some rec) } in
      let out = open_and_publish encode w t io kind mode cmd claimed in
      rw q (
        settle-IsCalm s (free_key encode w t io k) out (λ n.
          let h = IsQuiet-IsUntouched claimed out (opened-IsQuiet claimed) n in
          record {
            durable = h.durable;
            fast = h.fast;
            keys = λ j.
                ap (λ b. release b out.0.keys k j) works
                ∙ released_as out.0.keys claimed.keys k j (h.keys j)
                ∙ freed s.keys k j none free refl (some rec);
          }))

  keyed-IsCalm :
      (s : Intake) (o : Option Str)
      → io.release_fails ≡ false
      → IsLasting io.rounds
      → IsCalm s (enqueue_keyed encode w t io kind mode cmd s o)
  keyed-IsCalm s none works l =
      settle-IsCalm s (λ u. u) (open_and_publish encode w t io kind mode cmd s)
        (IsQuiet-IsUntouched s _ (opened-IsQuiet s))
  keyed-IsCalm s (some logical) works l =
      let k = redis_key (database_name t) logical in
      let rec : IdempotencyRecord = record { ticket_id = io.new_id; status_code = 202 } in
      Reserved-IsCalm s k rec _ works (reserve-Reserved io.rounds s.keys k rec l)

  refused-IsCalm :
      (s : Intake) (o : Option ℕ) (x : Intake × Accepted IngestResult)
      → IsCalm s x
      → IsCalm s (unless_refused encode w t o s x)
  refused-IsCalm s none x h = h
  refused-IsCalm s (some wait) x h = λ e q. IsUntouched-same s

  -- A write that is refused, by the limiter, the ticket store, the encoder or a queue, leaves both
  -- queues and all keys as they were, so that a retry is not taken for a repeat. Its key does not
  -- expire within the call, and the release of the key works.
  pub enqueue-IsUntouched :
      (s : Intake) (e : AcceptError)
      → io.release_fails ≡ false
      → IsLasting io.rounds
      → (enqueue encode w t io kind mode cmd s).1 ≡ err e
      → IsUntouched s (enqueue encode w t io kind mode cmd s).0
  unfolding enqueue
  enqueue-IsUntouched s e works l h =
      refused-IsCalm s io.refused _ (keyed-IsCalm s (idemp_key w cmd) works l) e h
