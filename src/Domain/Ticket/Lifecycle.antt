-- ===== src/Domain/Ticket/Lifecycle.antt =====
-- What TicketService.Mark keeps of a ticket, over any sequence of calls and store failures.
use letopis.Prelude.{
  ℕ, ◌≤◌, ◌<◌, ◌≡◌, refl, sym, ap, ◌∙◌, subst, ◌⊎◌, Str, str_eq, str_eq→eq, str_eq_refl, true,
  false, Option, none, some, List, [], ◌∷◌, Bool-cases, inl, inr, arith,
}
use letopis.Domain.Ticket.{
  TicketStatus, accepted, processing, terminal, can_transition, Ticket, Fault, no_fault, get_fails,
  save_fails, Store, save, save_unless, refuses, advance, mark_found, mark,
}

-- Each ticket stands under its own id.
pub record IsKeyed (s : Store) : Type 0 where
  pub keyed : (id : Str) (t : Ticket) → s id ≡ some t → t.id ≡ id

-- How far a ticket has come.
abbrev pub rank : TicketStatus → ℕ
rank accepted = 0
rank processing = 1
rank _ = 2

-- A ticket after a call: what it was, or a later status of the same write.
abbrev pub Follows : Ticket → Ticket → Type 0
Follows t u =
    (t ≡ u)
    ⊎ ((rank t.status < rank u.status)
        × (u.id ≡ t.id)
        × (u.entity_collection ≡ t.entity_collection)
        × (u.entity_id ≡ t.entity_id)
        × (u.created_at ≡ t.created_at))

can_transition-rank : (a b : TicketStatus) → can_transition a b ≡ true → rank a < rank b
unfolding can_transition
can_transition-rank accepted processing h = omega arith
can_transition-rank _ b h = ground arith

can_transition-terminal : (a b : TicketStatus) → terminal a ≡ true → can_transition a b ≡ false
unfolding can_transition terminal
can_transition-terminal accepted b h = cc
can_transition-terminal _ b h = ground arith

refuses-false :
    (t : Ticket) (status : TicketStatus)
    → refuses t status ≡ false
    → can_transition t.status status ≡ true
refuses-false t status h = ground arith

refuses-terminal :
    (t : Ticket) (status : TicketStatus) → terminal t.status ≡ true → refuses t status ≡ true
refuses-terminal t status h = ground (arith, can_transition-terminal t.status status h)

save_self : (s : Store) (t : Ticket) (id : Str) → t.id ≡ id → save s t id ≡ some t
save_self s t id h = ground (arith, h, str_eq_refl id)

save_other : (s : Store) (t : Ticket) (id : Str) → str_eq id t.id ≡ false → save s t id ≡ s id
save_other s t id h = ground (arith, h)

save-IsKeyed : (s : Store) (t : Ticket) → IsKeyed s → IsKeyed (save s t)
save-IsKeyed s t h = record { keyed = λ id u e. kept id u e }
  where
    kept : (id : Str) (u : Ticket) → save s t id ≡ some u → u.id ≡ id
    kept id u e = ground (arith, h.keyed id u, str_eq→eq id t.id)

save_unless-IsKeyed :
    (f : Fault) (s : Store) (t : Ticket) → IsKeyed s → IsKeyed (save_unless f s t).0
save_unless-IsKeyed save_fails s t h = h
save_unless-IsKeyed _ s t h = save-IsKeyed s t h

-- The state of one ticket after a call that found ticket `t` under the called id.
module _ (now : ℕ) (fault : Fault) (s : Store) (t : Ticket) (status : TicketStatus)
    (reason : Str) where
  abbrev updated : Ticket
  updated = record t { status = status; error = reason; updated_at = now }

  advance-IsKeyed : IsKeyed s → IsKeyed (advance now fault s t status reason).0
  advance-IsKeyed h = elim (Bool-cases (refuses t status)) [
    | inl e ↦ rw e h
    | inr e ↦ rw e (save_unless-IsKeyed fault s updated h)
  ]

  save_unless-Follows :
      (f : Fault) (id : Str)
      → s id ≡ some t
      → t.id ≡ id
      → can_transition t.status status ≡ true
      → (u : Ticket) × ((save_unless f s updated).0 id ≡ some u) × Follows t u
  save_unless-Follows save_fails id found k c = (t, found, inl refl)
  save_unless-Follows no_fault id found k c = (
    updated,
    save_self s updated id k,
    inr (can_transition-rank t.status status c, refl, refl, refl, refl),
  )
  save_unless-Follows get_fails id found k c = (
    updated,
    save_self s updated id k,
    inr (can_transition-rank t.status status c, refl, refl, refl, refl),
  )

  advance-Follows :
      (id : Str)
      → s id ≡ some t
      → t.id ≡ id
      → (u : Ticket) × ((advance now fault s t status reason).0 id ≡ some u) × Follows t u
  advance-Follows id found k = elim (Bool-cases (refuses t status)) [
    | inl e ↦ rw e (t, found, inl refl)
    | inr e ↦ rw e (save_unless-Follows fault id found k (refuses-false t status e))
  ]

  save_unless_other :
      (f : Fault) (id : Str) → str_eq id t.id ≡ false → (save_unless f s updated).0 id ≡ s id
  save_unless_other save_fails id h = refl
  save_unless_other no_fault id h = save_other s updated id h
  save_unless_other get_fails id h = save_other s updated id h

  pub advance_other :
      (id : Str) → str_eq id t.id ≡ false → (advance now fault s t status reason).0 id ≡ s id
  advance_other id h = elim (Bool-cases (refuses t status)) [
    | inl e ↦ rw e
    | inr e ↦ rw e (save_unless_other fault id h)
  ]

-- One call of Mark, as the worker and the batch worker make it.
pub record Call : Type 0 where
  pub now : ℕ
  pub fault : Fault
  pub id : Str
  pub status : TicketStatus
  pub reason : Str

unfoldable pub marks : Store → List Call → Store
unfolding mark
marks s [] = s
marks s (c ∷ cs) = marks (mark c.now c.fault s c.id c.status c.reason).0 cs

mark_found-IsKeyed :
    (now : ℕ) (fault : Fault) (s : Store) (found : Option Ticket) (status : TicketStatus)
    (reason : Str)
    → IsKeyed s
    → IsKeyed (mark_found now fault s found status reason).0
mark_found-IsKeyed now get_fails s found status reason h = h
mark_found-IsKeyed now no_fault s none status reason h = h
mark_found-IsKeyed now save_fails s none status reason h = h
mark_found-IsKeyed now no_fault s (some t) status reason h =
    advance-IsKeyed now no_fault s t status reason h
mark_found-IsKeyed now save_fails s (some t) status reason h =
    advance-IsKeyed now save_fails s t status reason h

pub mark-IsKeyed :
    (now : ℕ) (fault : Fault) (s : Store) (id : Str) (status : TicketStatus) (reason : Str)
    → IsKeyed s
    → IsKeyed (mark now fault s id status reason).0
unfolding mark
mark-IsKeyed now fault s [] status reason h = h
mark-IsKeyed now fault s (c ∷ cs) status reason h =
    mark_found-IsKeyed now fault s (s (c ∷ cs)) status reason h

module _ (s : Store) (j : Str) (t : Ticket) (found : s j ≡ some t) (h : IsKeyed s) where
  advance_any :
      (now : ℕ) (fault : Fault) (id : Str) (v : Ticket) (status : TicketStatus) (reason : Str)
      → s id ≡ some v
      → (u : Ticket) × ((advance now fault s v status reason).0 j ≡ some u) × Follows t u
  advance_any now fault id v status reason e = elim (Bool-cases (str_eq j id)) [
    | inl same ↦
        let same_ticket : v ≡ t = ground (arith, str_eq→eq j id same) in
        subst
          (λ w. (u : Ticket) × ((advance now fault s w status reason).0 j ≡ some u) × Follows t u)
          (sym same_ticket)
          (advance-Follows now fault s t status reason j found (h.keyed j t found))
    | inr differ ↦ (
      t,
      advance_other now fault s v status reason j
            (subst (λ k. str_eq j k ≡ false) (sym (h.keyed id v e)) differ)
          ∙ found,
      inl refl,
    )
  ]

  mark_found-Follows :
      (now : ℕ) (fault : Fault) (id : Str) (o : Option Ticket) (status : TicketStatus)
      (reason : Str)
      → s id ≡ o
      → (u : Ticket) × ((mark_found now fault s o status reason).0 j ≡ some u) × Follows t u
  mark_found-Follows now get_fails id o status reason e = (t, found, inl refl)
  mark_found-Follows now no_fault id none status reason e = (t, found, inl refl)
  mark_found-Follows now save_fails id none status reason e = (t, found, inl refl)
  mark_found-Follows now no_fault id (some v) status reason e =
      advance_any now no_fault id v status reason e
  mark_found-Follows now save_fails id (some v) status reason e =
      advance_any now save_fails id v status reason e

  mark-Follows :
      (now : ℕ) (fault : Fault) (id : Str) (status : TicketStatus) (reason : Str)
      → (u : Ticket) × ((mark now fault s id status reason).0 j ≡ some u) × Follows t u
  unfolding mark
  mark-Follows now fault [] status reason = (t, found, inl refl)
  mark-Follows now fault (c ∷ cs) status reason =
      mark_found-Follows now fault (c ∷ cs) (s (c ∷ cs)) status reason refl

Follows-trans : (t u v : Ticket) → Follows t u → Follows u v → Follows t v
Follows-trans t u v (inl e) q = rw e q
Follows-trans t u v (inr p) (inl e) = subst (λ w. Follows t w) e (inr p)
Follows-trans t u v (inr p) (inr q) = inr (omega arith, q.1 ∙ p.1, q.2 ∙ p.2, q.3 ∙ p.3, q.4 ∙ p.4)

-- Any calls of Mark, on any tickets and with any failures of the store, leave a ticket what it was
-- or move it on: to a status of a higher rank, for the same write.
pub marks-Follows :
    (cs : List Call) (s : Store) (j : Str) (t : Ticket)
    → IsKeyed s
    → s j ≡ some t
    → (u : Ticket) × (marks s cs j ≡ some u) × Follows t u
unfolding marks
marks-Follows [] s j t h e = (t, e, inl refl)
marks-Follows (c ∷ cs) s j t h e =
    let (u, eu, fu) = mark-Follows s j t e h c.now c.fault c.id c.status c.reason in
    let s' : Store = (mark c.now c.fault s c.id c.status c.reason).0 in
    let (v, ev, fv) =
      marks-Follows cs s' j u (mark-IsKeyed c.now c.fault s c.id c.status c.reason h) eu in
    (v, ev, Follows-trans t u v fu fv)

rank-terminal : (a : TicketStatus) → terminal a ≡ true → rank a ≡ 2
unfolding terminal
rank-terminal accepted h = cc
rank-terminal _ h = ground arith

rank-le : (a : TicketStatus) → rank a ≤ 2
rank-le accepted = omega arith
rank-le processing = omega arith
rank-le _ = omega arith

-- A ticket in a terminal status is never changed again: not by a redelivered message either.
pub marks-terminal :
    (cs : List Call) (s : Store) (j : Str) (t : Ticket)
    → IsKeyed s
    → s j ≡ some t
    → terminal t.status ≡ true
    → marks s cs j ≡ some t
marks-terminal cs s j t h e done =
    let (u, eu, fu) = marks-Follows cs s j t h e in
    elim fu [
      | inl same ↦ eu ∙ ap some (sym same)
      | inr later ↦ absurd (omega (arith, rank-terminal t.status done, rank-le u.status))
    ]
