-- ===== src/Worker/Batcher/Tickets.antt =====
-- What the settling of a group makes of the tickets of its items.
use letopis.Prelude.{
  All, ℕ, suc, ◌+◌, ◌≡◌, refl, ap, ◌∙◌, subst, Str, str_eq, false, Option, none, some, List, [],
  ◌∷◌, ◌++◌, length, arith, inl, inr,
}
use letopis.Domain.Ticket
use letopis.Domain.Ticket.{
  Ticket, TicketStatus, stored, failed, Fault, no_fault, get_fails, save_fails, mark, mark_found,
  advance,
}
use letopis.Domain.Ticket.Lifecycle.{IsKeyed, mark-IsKeyed, advance_other}
use letopis.Service.Ingest.{WriteError}
use letopis.Worker.Process.{World, mark_ticket}
use letopis.Worker.Settled.{IsLive, Has, mark-settles}
use letopis.Worker.Batcher.{Entry, error_at, settle, settle_all}

mark_other :
    (now : ℕ) (fault : Fault) (s : Ticket.Store) (j id : Str) (status : TicketStatus) (reason : Str)
    → IsKeyed s
    → str_eq j id ≡ false
    → (mark now fault s id status reason).0 j ≡ s j
unfolding mark
mark_other now fault s j [] status reason h apart = refl
mark_other now fault s j (c ∷ cs) status reason h apart = found fault (s (c ∷ cs)) refl
  where
    found :
        (f : Fault) (o : Option Ticket)
        → s (c ∷ cs) ≡ o
        → (mark_found now f s o status reason).0 j ≡ s j
    found get_fails o e = refl
    found no_fault none e = refl
    found save_fails none e = refl
    found no_fault (some t) e =
        advance_other now no_fault s t status reason j
          (ap (str_eq j) (h.keyed (c ∷ cs) t e) ∙ apart)
    found save_fails (some t) e =
        advance_other now save_fails s t status reason j
          (ap (str_eq j) (h.keyed (c ∷ cs) t e) ∙ apart)

module _ (error_text : WriteError → Str) where
  -- The ticket says how its write ended.
  abbrev pub Tells : Option WriteError → Ticket → Type 0
  Tells none t = (t.status ≡ stored) × (t.error ≡ [])
  Tells (some e) t = (t.status ≡ failed) × (t.error ≡ error_text e)

  module _ (now : ℕ) (fault : Fault) (errs : List (ℕ × WriteError)) where
    settle-IsKeyed :
        (w : World) (id : Str) (o : Option WriteError)
        → IsKeyed w.tickets
        → IsKeyed (settle error_text now fault w id o).tickets
    unfolding mark_ticket
    settle-IsKeyed w id none h = mark-IsKeyed now fault w.tickets id stored [] h
    settle-IsKeyed w id (some e) h = mark-IsKeyed now fault w.tickets id failed (error_text e) h

    settle_other :
        (w : World) (j id : Str) (o : Option WriteError)
        → IsKeyed w.tickets
        → str_eq j id ≡ false
        → (settle error_text now fault w id o).tickets j ≡ w.tickets j
    unfolding mark_ticket
    settle_other w j id none h apart = mark_other now fault w.tickets j id stored [] h apart
    settle_other w j id (some e) h apart =
        mark_other now fault w.tickets j id failed (error_text e) h apart

    settle-collections :
        (w : World) (id : Str) (o : Option WriteError)
        → (settle error_text now fault w id o).collections ≡ w.collections
    unfolding mark_ticket
    settle-collections w id none = refl
    settle-collections w id (some e) = refl

    pub settle_all-collections :
        (i : ℕ) (es : List Entry) (w : World)
        → (settle_all error_text now fault errs i es w).collections ≡ w.collections
    unfolding settle_all
    settle_all-collections i [] w = refl
    settle_all-collections i (e ∷ es) w =
        settle_all-collections (suc i) es _ ∙ settle-collections w e.ticket (error_at i errs)

    module _ (j : Str) where
      -- no entry has ticket `j`
      abbrev pub AreOthers : List Entry → Type 0
      AreOthers es = All (λ (e : Entry). str_eq j e.ticket ≡ false) es

      settle_all-others :
          (i : ℕ) (es : List Entry) (w : World)
          → IsKeyed w.tickets
          → AreOthers es
          → (settle_all error_text now fault errs i es w).tickets j ≡ w.tickets j
      unfolding settle_all
      settle_all-others i [] w h o = refl
      settle_all-others i (e ∷ es) w h o =
          let x = error_at i errs in
          settle_all-others (suc i) es _ (settle-IsKeyed w e.ticket x h) o.1
          ∙ settle_other w j e.ticket x h o.0

  module _ (now : ℕ) (errs : List (ℕ × WriteError)) (c : ℕ) (cs : Str) where
    settle-Tells :
        (w : World) (o : Option WriteError)
        → Has IsLive (c ∷ cs) w.tickets
        → Has (Tells o) (c ∷ cs) (settle error_text now no_fault w (c ∷ cs) o).tickets
    unfolding mark_ticket
    settle-Tells w none (t, there, own, live) = (
      record t { status = stored; error = []; updated_at = now },
      mark-settles now w.tickets t [] c cs there own live stored (inl refl),
      own,
      (refl, refl),
    )
    settle-Tells w (some e) (t, there, own, live) = (
      record t { status = failed; error = error_text e; updated_at = now },
      mark-settles now w.tickets t (error_text e) c cs there own live failed (inr refl),
      own,
      (refl, refl),
    )

    pub settle_all-Tells :
        (pre post : List Entry) (e : Entry) (i : ℕ) (w : World)
        → e.ticket ≡ c ∷ cs
        → IsKeyed w.tickets
        → Has IsLive (c ∷ cs) w.tickets
        → All (λ (y : Entry). str_eq (c ∷ cs) y.ticket ≡ false) pre
        → All (λ (y : Entry). str_eq (c ∷ cs) y.ticket ≡ false) post
        → Has
            (Tells (error_at (length pre + i) errs))
            (c ∷ cs)
            (settle_all error_text now no_fault errs i (pre ++ e ∷ post) w).tickets
    unfolding settle_all
    settle_all-Tells [] post e i w named h live none_before others =
        let o = error_at i errs in
        let (t, there, own, says) = settle-Tells w o live in
        let same : i ≡ 0 + i = omega arith in
        let kept =
          settle_all-others now no_fault errs (c ∷ cs) (suc i) post
            (settle error_text now no_fault w (c ∷ cs) o)
            (settle-IsKeyed now no_fault errs w (c ∷ cs) o h) others in
        rw named (t, kept ∙ there, own, subst (λ n. Tells (error_at n errs) t) same says)
    settle_all-Tells (y ∷ pre) post e i w named h live before others =
        let o = error_at i errs in
        let (t, there, own, alive) = live in
        let w' = settle error_text now no_fault w y.ticket o in
        let kept = settle_other now no_fault errs w (c ∷ cs) y.ticket o h before.0 in
        let index : length pre + suc i ≡ suc (length pre) + i = omega arith in
        subst
          (λ n.
            Has (Tells (error_at n errs)) (c ∷ cs)
              (settle_all error_text now no_fault errs (suc i) (pre ++ e ∷ post) w').tickets)
          index
          (settle_all-Tells pre post e (suc i) w' named
            (settle-IsKeyed now no_fault errs w y.ticket o h) (t, kept ∙ there, own, alive) before.1
            others)
