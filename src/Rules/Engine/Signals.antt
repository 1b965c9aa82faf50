-- ===== src/Rules/Engine/Signals.antt =====
-- The signal of an edited rule, and the evaluations after it.
use letopis.Prelude.{
  ℕ, ◌≡◌, ◌≢◌, refl, sym, subst, ap, ◌∙◌, Str, str_eq_refl, ◌==◌, false, some, List, [], ◌∷◌, ◌++◌,
  arith, Bool-cases, inl, inr,
}
use letopis.Diff.Text.{contains_byte}
use letopis.Domain.Event.{Event}
use letopis.Rules.Model.{Externals, Rule}
use letopis.Rules.Engine.Effects.{Wiring, Principal, Cache}
use letopis.Rules.Engine.Cached.{Reading, cached, load_entry, rules_for, evaluate}
use letopis.Rules.Engine.Messages.{
  invalidate_msg, cut_bar, parse_invalidate_msg, both_named, on_message,
}
use letopis.Rules.Engine.Firing.{expected, fire_rules-expected}
use letopis.Rules.Engine.Asked.{Answers, expected-Answers}

cut_bar-append :
    (db collection : Str)
    → contains_byte b'|' db ≡ false
    → cut_bar (db ++ b'|' ∷ collection) ≡ some (db, collection)
unfolding cut_bar contains_byte
cut_bar-append [] collection h = refl
cut_bar-append (c ∷ db) collection h = elim (Bool-cases (c == b'|')) [
  | inl bar ↦ absurd (ground (arith, h, bar))
  | inr other ↦
      let rest : contains_byte b'|' db ≡ false = ground (arith, h, other) in
      rw other (rw (cut_bar-append db collection rest) refl)
]

both_named-same :
    (db collection : Str)
    → db ≢ []
    → collection ≢ []
    → both_named (some (db, collection)) ≡ some (db, collection)
both_named-same [] collection d c = absurd (d refl)
both_named-same (x ∷ db) [] d c = absurd (c refl)
both_named-same (x ∷ db) (y ∷ collection) d c = refl

-- A subscriber reads back the database and the collection of a signal, where neither is empty and the
-- database has no bar.
pub parse-invalidate_msg :
    (db collection : Str)
    → db ≢ []
    → collection ≢ []
    → contains_byte b'|' db ≡ false
    → parse_invalidate_msg (invalidate_msg db collection) ≡ some (db, collection)
unfolding parse_invalidate_msg
parse-invalidate_msg db collection d c h =
    ap both_named (cut_bar-append db collection h) ∙ both_named-same db collection d c

evaluate-expected :
    (x : Externals) (ttl : ℕ) (w : Wiring) (t : Reading) (rs : List Rule) (p : Principal)
    (collection : Str) (ev : Event) (cache : Cache)
    → p.database ≢ []
    → collection ≢ []
    → contains_byte b'|' p.database ≡ false
    → (evaluate x ttl w t
        (some rs)
        (some p)
        collection
        ev
        (on_message (invalidate_msg p.database collection) cache)).1
      ≡ expected x w p.tenant_id collection ev rs
unfolding evaluate rules_for on_message cached load_entry
evaluate-expected x ttl w t rs p collection ev cache d c h =
    rw (parse-invalidate_msg p.database collection d c h) (
      rw (str_eq_refl p.database)
        (rw (str_eq_refl collection) (fire_rules-expected x w p.tenant_id collection ev rs)))

-- Once an instance has handled the signal of an edit, and before anything loads the rules again, an
-- evaluation that can list the rules answers with what they ask for, in order: for each enabled
-- rule whose condition is well formed and holds for the event, every one of its actions. A log action
-- gives an alert, a webhook with its configuration a call of the publisher, another action a call of
-- its plugin, each if that is wired, and a count. The database and the collection are not empty,
-- and the database has no bar.
pub evaluate-on_message :
    (x : Externals) (ttl : ℕ) (w : Wiring) (t : Reading) (rs : List Rule) (p : Principal)
    (collection : Str) (ev : Event) (cache : Cache)
    → p.database ≢ []
    → collection ≢ []
    → contains_byte b'|' p.database ≡ false
    → Answers w p.tenant_id collection ev x rs
        (evaluate x ttl w t
          (some rs)
          (some p)
          collection
          ev
          (on_message (invalidate_msg p.database collection) cache)).1
evaluate-on_message x ttl w t rs p collection ev cache d c h =
    subst (Answers w p.tenant_id collection ev x rs)
      (sym (evaluate-expected x ttl w t rs p collection ev cache d c h))
      (expected-Answers w p.tenant_id collection ev x rs)
