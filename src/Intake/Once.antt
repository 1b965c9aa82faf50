-- ===== src/Intake/Once.antt =====
-- A write whose event id is already accepted is not enqueued again.
use letopis.Prelude.{
  All, ℕ, ◌≡◌, refl, sym, ap, ◌∙◌, subst, Str, str_eq_refl, ◌++◌, true, false, Option, none, some,
  List, [], ◌∷◌, if◌then◌else◌, arith,
}
use letopis.Domain.Collection.{ReliabilityMode}
use letopis.Tenant.Access.{Tenant, database_name}
use letopis.Service.Ingest.{is_empty}
use letopis.Service.Command.{Kind, IngestCommand, IngestResult}
use letopis.Worker.Process.{Task}
use letopis.Intake.Reserve.{
  IdempotencyRecord, Keys, works, Reservation, claim, first_round, reserve, redis_key,
}
use letopis.Intake.Accept.{
  Wiring, Intake, Io, Accepted, AcceptError, ok, idemp_key, key_of, enqueue, open_and_publish,
  accepted, settle, after_reserve, enqueue_keyed, unless_refused, free_key,
}
use letopis.Intake.Kept.{
  Call, IsLasting, Reserved, enqueue_all, enqueue_all-Keeps, is_down, is_lost, is_won,
  open_and_publish-keys, reserve-Reserved,
}

module _ (encode : Task → Option Str) (w : Wiring) (t : Tenant) where
  settled-ticket :
      (cmd : IngestCommand) (id : Str) (undo : Intake → Intake) (x : Intake × Option AcceptError)
      (res : IngestResult)
      → (settle encode w t cmd id undo x).1 ≡ ok res
      → (res.ticket ≡ id) × ((settle encode w t cmd id undo x).0 ≡ x.0)
  settled-ticket cmd id undo (s, none) res h =
      let same : accepted encode w t cmd id false ≡ res = cc h in
      (sym (ap (λ x. x.ticket) same), refl)
  settled-ticket cmd id undo (s, some e) res h = absurd (ground arith)

  ok-ticket :
      (a b : IngestResult) → ◌≡◌ {A = Accepted IngestResult} (ok a) (ok b) → a.ticket ≡ b.ticket
  ok-ticket a b h = let same : a ≡ b = cc h in ap (λ x. x.ticket) same

  -- The key of an accepted write is held with its ticket.
  abbrev HeldFor : Str → Str → Intake → Type 0
  HeldFor k ticket s = (r : IdempotencyRecord) × (s.keys k ≡ some r) × (r.ticket_id ≡ ticket)

  module _ (io : Io) (kind : Kind) (mode : ReliabilityMode) (cmd : IngestCommand) (s : Intake)
      (res : IngestResult) (k : Str) where
    accepted-HeldFor :
        (x : Keys × Reservation)
        → Reserved s.keys k
            (record { ticket_id = io.new_id; status_code = 202 })
            (first_round io.rounds)
            x
        → first_round io.rounds ≡ works
        → (after_reserve encode w t io kind mode cmd k s x).1 ≡ ok res
        → HeldFor k res.ticket (after_reserve encode w t io kind mode cmd k s x).0
    accepted-HeldFor x (is_down broken e) fine h = absurd (broken fine)
    accepted-HeldFor x (is_lost r held_by e) fine h = rw e (
      r,
      held_by,
      ok-ticket (accepted encode w t cmd r.ticket_id true) res
          (sym (ap (λ y. (after_reserve encode w t io kind mode cmd k s y).1) e) ∙ h),
    )
    accepted-HeldFor x (is_won free e) fine h =
        let rec : IdempotencyRecord = record { ticket_id = io.new_id; status_code = 202 } in
        let claimed = record s { keys = claim s.keys k (some rec) } in
        let out = open_and_publish encode w t io kind mode cmd claimed in
        let done =
          settled-ticket cmd io.new_id (free_key encode w t io k) out res
            (sym (ap (λ y. (after_reserve encode w t io kind mode cmd k s y).1) e) ∙ h) in
        rw e (
          rec,
          ap (λ y. y.keys k) done.1
              ∙ ap (λ f. f k) (open_and_publish-keys encode w t io kind mode cmd claimed)
              ∙ rw (str_eq_refl k) refl,
          sym done.0,
        )

  repeat-held :
      (io : Io) (kind : Kind) (mode : ReliabilityMode) (cmd : IngestCommand) (s : Intake) (k : Str)
      (r : IdempotencyRecord) (x : Keys × Reservation)
      → Reserved s.keys k
          (record { ticket_id = io.new_id; status_code = 202 })
          (first_round io.rounds)
          x
      → first_round io.rounds ≡ works
      → s.keys k ≡ some r
      → after_reserve encode w t io kind mode cmd k s x
        ≡ (s, ok (accepted encode w t cmd r.ticket_id true))
  repeat-held io kind mode cmd s k r x (is_down broken e) fine h = absurd (broken fine)
  repeat-held io kind mode cmd s k r x (is_won free e) fine h = absurd (ground (arith, h, free))
  repeat-held io kind mode cmd s k r x (is_lost q held_by e) fine h =
      let same : q ≡ r = cc (held_by, h) in
      rw e (ap (λ y. (s, ok (accepted encode w t cmd y.ticket_id true))) same)

  accepted-unrefused :
      (o : Option ℕ) (s : Intake) (x : Intake × Accepted IngestResult) (res : IngestResult)
      → (unless_refused encode w t o s x).1 ≡ ok res
      → unless_refused encode w t o s x ≡ x
  accepted-unrefused none s x res h = refl
  accepted-unrefused (some wait) s x res h = absurd (ground arith)

  abbrev full_key : IngestCommand → Str
  full_key cmd = redis_key (database_name t) (cmd.collection ++ (b'|' ∷ cmd.event_id))

  key_of-some :
      (cmd : IngestCommand) (id : Str)
      → is_empty id ≡ false
      → key_of cmd id ≡ some (cmd.collection ++ (b'|' ∷ id))
  key_of-some cmd [] h = absurd (ground arith)
  key_of-some cmd (c ∷ cs) h = refl

  idemp_key-some :
      (cmd : IngestCommand)
      → w.has_idempotency ≡ true
      → is_empty cmd.event_id ≡ false
      → idemp_key w cmd ≡ some (cmd.collection ++ (b'|' ∷ cmd.event_id))
  unfolding idemp_key
  idemp_key-some cmd on named =
      ap (λ b. if b then key_of cmd cmd.event_id else none) on ∙ key_of-some cmd cmd.event_id named

  -- what enqueue does with a key, once the limiter has let it pass
  abbrev keyed : Call → Intake → Intake × Accepted IngestResult
  keyed c s = after_reserve encode w t c.io c.kind c.mode c.cmd (full_key c.cmd) s (
      reserve c.io.rounds s.keys (full_key c.cmd)
        (record { ticket_id = c.io.new_id; status_code = 202 }))

  abbrev tried : Call → Intake → Intake × Accepted IngestResult
  tried c s = enqueue encode w t c.io c.kind c.mode c.cmd s

  enqueue-keyed :
      (c : Call) (s : Intake)
      → w.has_idempotency ≡ true
      → is_empty c.cmd.event_id ≡ false
      → tried c s ≡ unless_refused encode w t c.io.refused s (keyed c s)
  unfolding enqueue
  enqueue-keyed c s on named =
      ap
        (λ o.
          unless_refused encode w t c.io.refused s
            (enqueue_keyed encode w t c.io c.kind c.mode c.cmd s o))
        (idemp_key-some c.cmd on named)

  enqueue-HeldFor :
      (c : Call) (s : Intake) (res : IngestResult)
      → w.has_idempotency ≡ true
      → is_empty c.cmd.event_id ≡ false
      → first_round c.io.rounds ≡ works
      → (tried c s).1 ≡ ok res
      → HeldFor (full_key c.cmd) res.ticket (tried c s).0
  enqueue-HeldFor c s res on named fine taken =
      let keyed_eq = enqueue-keyed c s on named in
      let passed =
        accepted-unrefused c.io.refused s (keyed c s) res (sym (ap (λ x. x.1) keyed_eq) ∙ taken) in
      let same = keyed_eq ∙ passed in
      subst (λ x. HeldFor (full_key c.cmd) res.ticket x.0) (sym same)
        (accepted-HeldFor c.io c.kind c.mode c.cmd s res (full_key c.cmd) _
          (reserve-Reserved c.io.rounds s.keys (full_key c.cmd)
            (record { ticket_id = c.io.new_id; status_code = 202 }) (λ q. cc (fine, q)))
          fine (sym (ap (λ x. x.1) same) ∙ taken))

  module _ (first again : Call) (later : List Call) (s : Intake) (res : IngestResult) where
    abbrev s1 : Intake
    s1 = (enqueue encode w t first.io first.kind first.mode first.cmd s).0

    abbrev s2 : Intake
    s2 = enqueue_all encode w t s1 later

    -- After the asynchronous acceptance of a write with an event id, that of any writes may be tried.
    -- That of a write of the same collection with the same event id then changes nothing: it opens no
    -- ticket, publishes no message, and its answer names the ticket of the first one, whether that has
    -- been stored by then or not. It is asked that the store of keys
    -- is configured and answers both writes, that no key expires, and that the limiter lets the
    -- second one pass.
    pub enqueue-enqueue :
        w.has_idempotency ≡ true
        → is_empty first.cmd.event_id ≡ false
        → first_round first.io.rounds ≡ works
        → (enqueue encode w t first.io first.kind first.mode first.cmd s).1 ≡ ok res
        → All (λ (c : Call). IsLasting c.io.rounds) later
        → again.io.refused ≡ none
        → first_round again.io.rounds ≡ works
        → again.cmd.collection ≡ first.cmd.collection
        → again.cmd.event_id ≡ first.cmd.event_id
        → enqueue encode w t again.io again.kind again.mode again.cmd s2
          ≡ (s2, ok (accepted encode w t again.cmd res.ticket true))
    enqueue-enqueue on named fine taken lasting free works_again c e =
        let (r, there, ticket) = enqueue-HeldFor first s res on named fine taken in
        let kept = enqueue_all-Keeps encode w t later (full_key first.cmd) r s1 lasting there in
        let same_key : full_key again.cmd ≡ full_key first.cmd =
          ap (λ x. redis_key (database_name t) (x ++ (b'|' ∷ again.cmd.event_id))) c
          ∙ ap (λ x. redis_key (database_name t) (first.cmd.collection ++ (b'|' ∷ x))) e in
        enqueue-keyed again s2 on (ap is_empty e ∙ named)
        ∙ ap (λ o. unless_refused encode w t o s2 (keyed again s2)) free
        ∙ repeat-held again.io again.kind again.mode again.cmd s2 (full_key again.cmd) r _
            (reserve-Reserved again.io.rounds s2.keys (full_key again.cmd)
              (record { ticket_id = again.io.new_id; status_code = 202 })
              (λ q. cc (works_again, q)))
            works_again (ap s2.keys same_key ∙ kept)
        ∙ ap (λ x. (s2, ok (accepted encode w t again.cmd x true))) ticket
