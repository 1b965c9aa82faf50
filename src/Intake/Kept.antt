-- ===== src/Intake/Kept.antt =====
-- A key that is held stays with its record, whatever writes are tried.
use letopis.Prelude.{
  All, ℕ, ◌≡◌, ◌≢◌, refl, ap, ◌∙◌, Str, str_eq, str_eq→eq, Bool, true, false, Option, none, some,
  List, [], ◌∷◌, Bool-cases, inl, inr, arith,
}
use letopis.Domain.Collection.{ReliabilityMode}
use letopis.Tenant.Access.{Tenant, database_name}
use letopis.Service.Command.{Kind, IngestCommand, IngestResult}
use letopis.Worker.Process.{Task}
use letopis.Intake.Reserve
use letopis.Intake.Reserve.{
  IdempotencyRecord, Keys, Round, works, set_fails, get_fails, expires, Reservation, reserved, held,
  unavailable, claim, won, lost, round_of, first_round, later_rounds, reserve, release, redis_key,
}
use letopis.Intake.Accept.{
  Wiring, Intake, Io, Accepted, AcceptError, idemp_key, enqueue, open_and_publish, publish, settle,
  after_reserve, enqueue_keyed, unless_refused, free_key,
}

-- No key expires within the call.
abbrev pub IsLasting : List Round → Type 0
IsLasting rs = first_round rs ≢ expires

-- What a reservation does when its key does not expire meanwhile.
pub data Reserved (keys : Keys) (k : Str) (rec : IdempotencyRecord) (round : Round)
    (x : Keys × Reservation) : Type 0 where
  is_won : keys k ≡ none → x ≡ (claim keys k (some rec), reserved) → Reserved keys k rec round x
  is_lost :
      (r : IdempotencyRecord) → keys k ≡ some r → x ≡ (keys, held r) → Reserved keys k rec round x
  is_down : round ≢ works → x ≡ (keys, unavailable) → Reserved keys k rec round x

round-Reserved :
    (keys : Keys) (k : Str) (rec : IdempotencyRecord) (o : Option IdempotencyRecord) (r : Round)
    (again : Keys × Reservation)
    → keys k ≡ o
    → r ≢ expires
    → Reserved keys k rec r (round_of keys k rec o r again)
round-Reserved keys k rec none works again e l = is_won e refl
round-Reserved keys k rec none set_fails again e l = is_down (λ q. cc q) refl
round-Reserved keys k rec none get_fails again e l = is_won e refl
round-Reserved keys k rec none expires again e l = absurd (l refl)
round-Reserved keys k rec (some x) works again e l = is_lost x e refl
round-Reserved keys k rec (some x) set_fails again e l = is_down (λ q. cc q) refl
round-Reserved keys k rec (some x) get_fails again e l = is_down (λ q. cc q) refl
round-Reserved keys k rec (some x) expires again e l = absurd (l refl)

pub reserve-Reserved :
    (rs : List Round) (keys : Keys) (k : Str) (rec : IdempotencyRecord)
    → IsLasting rs
    → Reserved keys k rec (first_round rs) (reserve rs keys k rec)
unfolding reserve Reserve.reserve_rounds
reserve-Reserved rs keys k rec l = round-Reserved keys k rec (keys k) (first_round rs) _ refl l

-- a call of enqueue
pub record Call : Type 0 where
  pub io : Io
  pub kind : Kind
  pub mode : ReliabilityMode
  pub cmd : IngestCommand

module _ (encode : Task → Option Str) (w : Wiring) (t : Tenant) where
  pub open_and_publish-keys :
      (io : Io) (kind : Kind) (mode : ReliabilityMode) (cmd : IngestCommand) (s : Intake)
      → (open_and_publish encode w t io kind mode cmd s).0.keys ≡ s.keys
  unfolding open_and_publish publish
  open_and_publish-keys io kind mode cmd s = ground arith

  abbrev pub Keeps : Str → IdempotencyRecord → Intake → Type 0
  Keeps k r s = s.keys k ≡ some r

  settle-Keeps :
      (k : Str) (r : IdempotencyRecord) (cmd : IngestCommand) (id : Str) (undo : Intake → Intake)
      (x : Intake × Option AcceptError)
      → Keeps k r x.0
      → Keeps k r (undo x.0)
      → Keeps k r (settle encode w t cmd id undo x).0
  settle-Keeps k r cmd id undo (s, none) h u = h
  settle-Keeps k r cmd id undo (s, some e) h u = u

  claim_other :
      (keys : Keys) (j k : Str) (o : Option IdempotencyRecord)
      → str_eq k j ≡ false
      → claim keys j o k ≡ keys k
  claim_other keys j k o h = rw h refl

  released_other :
      (keys : Keys) (j k : Str) (fails : Bool)
      → str_eq k j ≡ false
      → release fails keys j k ≡ keys k
  unfolding release
  released_other keys j k true h = refl
  released_other keys j k false h = rw h refl

  free_is_other :
      (keys : Keys) (j k : Str) (r : IdempotencyRecord)
      → keys k ≡ some r
      → keys j ≡ none
      → str_eq k j ≡ false
  free_is_other keys j k r h e = elim (Bool-cases (str_eq k j)) [
    | inr other ↦ other
    | inl same ↦ absurd (ground (arith, h, e, str_eq→eq k j same, ap keys (str_eq→eq k j same)))
  ]

  module _ (k : Str) (r : IdempotencyRecord) (io : Io) (kind : Kind) (mode : ReliabilityMode)
      (cmd : IngestCommand) (s : Intake) (there : s.keys k ≡ some r) where
    Reserved-Keeps :
        (j : Str) (rec : IdempotencyRecord) (x : Keys × Reservation)
        → Reserved s.keys j rec (first_round io.rounds) x
        → Keeps k r (after_reserve encode w t io kind mode cmd j s x).0
    Reserved-Keeps j rec x (is_won free e) =
        let other = free_is_other s.keys j k r there free in
        let claimed = record s { keys = claim s.keys j (some rec) } in
        let same = open_and_publish-keys io kind mode cmd claimed in
        let kept = claim_other s.keys j k (some rec) other ∙ there in
        let out = open_and_publish encode w t io kind mode cmd claimed in
        rw e (
          settle-Keeps k r cmd io.new_id (free_key encode w t io j) out (ap (λ f. f k) same ∙ kept)
            (released_other out.0.keys j k io.release_fails other ∙ ap (λ f. f k) same ∙ kept))
    Reserved-Keeps j rec x (is_lost q held_by e) = rw e there
    Reserved-Keeps j rec x (is_down broken e) =
        let kept = ap (λ f. f k) (open_and_publish-keys io kind mode cmd s) ∙ there in
        rw e (
          settle-Keeps k r cmd io.new_id (λ x. x) (open_and_publish encode w t io kind mode cmd s)
            kept kept)

    keyed-Keeps :
        (o : Option Str)
        → IsLasting io.rounds
        → Keeps k r (enqueue_keyed encode w t io kind mode cmd s o).0
    keyed-Keeps none l =
        let kept = ap (λ f. f k) (open_and_publish-keys io kind mode cmd s) ∙ there in
        settle-Keeps k r cmd io.new_id (λ x. x) (open_and_publish encode w t io kind mode cmd s)
          kept kept
    keyed-Keeps (some logical) l =
        Reserved-Keeps (redis_key (database_name t) logical)
          (record { ticket_id = io.new_id; status_code = 202 }) _
          (reserve-Reserved io.rounds s.keys (redis_key (database_name t) logical)
            (record { ticket_id = io.new_id; status_code = 202 }) l)

    refused-Keeps :
        (o : Option ℕ) (x : Intake × Accepted IngestResult)
        → Keeps k r x.0
        → Keeps k r (unless_refused encode w t o s x).0
    refused-Keeps none x h = h
    refused-Keeps (some wait) x h = there

    enqueue-Keeps : IsLasting io.rounds → Keeps k r (enqueue encode w t io kind mode cmd s).0
    unfolding enqueue
    enqueue-Keeps l = refused-Keeps io.refused _ (keyed-Keeps (idemp_key w cmd) l)

  abbrev pub enqueue_all : Intake → List Call → Intake
  enqueue_all s [] = s
  enqueue_all s (c ∷ cs) = enqueue_all (enqueue encode w t c.io c.kind c.mode c.cmd s).0 cs

  pub enqueue_all-Keeps :
      (cs : List Call) (k : Str) (r : IdempotencyRecord) (s : Intake)
      → All (λ (c : Call). IsLasting c.io.rounds) cs
      → Keeps k r s
      → Keeps k r (enqueue_all s cs)
  enqueue_all-Keeps [] k r s l h = h
  enqueue_all-Keeps (c ∷ cs) k r s l h =
      enqueue_all-Keeps cs k r (enqueue encode w t c.io c.kind c.mode c.cmd s).0 l.1
        (enqueue-Keeps k r c.io c.kind c.mode c.cmd s h l.0)
