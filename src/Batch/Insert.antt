-- ===== src/Batch/Insert.antt =====
-- An ordered insert that goes through, and stores whose versions and current states are in step.
use letopis.Prelude.{
  suc, ◌≡◌, refl, sym, ap, ◌∙◌, subst, Str, str_eq, str_eq→eq, true, false, ◌||◌, Option, none,
  some, List, [], ◌∷◌, ◌++◌, length, length-append, Bool-cases, inl, inr, arith,
}
use letopis.Json.Object.{str_eq_sym}
use letopis.Domain.Event.{Event, CurrentState}
use letopis.Service.Plan.{base_state}
use letopis.Service.Ingest.{history, is_duplicate, upsert}
use letopis.Service.History.Synced.{IsNumbered, IsNumbered-append, history-append}
use letopis.Append.Writers.{has_version}
use letopis.Batch.Fold.{next_version}
use letopis.Batch.Flush.{insert_many}

-- One more event that no index refuses.
pub insert_many-append :
    (stored evs out : List Event) (ev : Event)
    → insert_many stored evs ≡ (out, true)
    → has_version ev.entity_id ev.version out ≡ false
    → is_duplicate ev.event_id out ≡ false
    → insert_many stored (evs ++ ev ∷ []) ≡ (out ++ ev ∷ [], true)
unfolding insert_many
insert_many-append stored [] out ev h v d =
    let same = ap (λ x. x.0) h in
    let one : insert_many out (ev ∷ []) ≡ (out ++ ev ∷ [], true) = rw v (rw d refl) in
    subst (λ x. insert_many x (ev ∷ []) ≡ (out ++ ev ∷ [], true)) (sym same) one
insert_many-append stored (x ∷ evs) out ev h v d =
    elim (Bool-cases (has_version x.entity_id x.version stored || is_duplicate x.event_id stored)) [
      | inl refused ↦ absurd (ground (arith, refused))
      | inr free ↦
          let on : insert_many stored (x ∷ evs) ≡ insert_many (stored ++ x ∷ []) evs =
            rw free refl in
          rw free (insert_many-append (stored ++ x ∷ []) evs out ev (sym on ∙ h) v d)
    ]

-- The versions of each entity are 1, 2, 3 and so on up to the version of its current state.
abbrev pub IsVersioned : (Str → Option CurrentState) → List Event → Type 0
IsVersioned current evs =
    (e : Str) → IsNumbered 0 (history e evs) × ((base_state (current e)).1 ≡ length (history e evs))

pub next_version-base_state :
    (cur : Option CurrentState) → next_version cur ≡ suc (base_state cur).1
unfolding base_state
next_version-base_state none = refl
next_version-base_state (some cur) = omega arith

pub IsVersioned-append :
    (current : Str → Option CurrentState) (evs : List Event) (ev : Event) (st : CurrentState)
    → IsVersioned current evs
    → ev.entity_id ≡ st.entity_id
    → ev.version ≡ suc (length (history st.entity_id evs))
    → st.version ≡ ev.version
    → IsVersioned (upsert current st) (evs ++ ev ∷ [])
unfolding base_state
IsVersioned-append current evs ev st h own next same e = elim (Bool-cases (str_eq e st.entity_id)) [
  | inr other ↦
      let apart = ap (λ x. str_eq x e) own ∙ str_eq_sym st.entity_id e ∙ other in
      rw (history-append e evs ev) (rw apart (rw other (h e)))
  | inl here ↦
      let e_is = str_eq→eq e st.entity_id here in
      let hit = ap (λ x. str_eq x e) own ∙ str_eq_sym st.entity_id e ∙ here in
      let count = next ∙ ap (λ x. suc (length (history x evs))) (sym e_is) in
      rw (history-append e evs ev) (
        rw hit (
          rw here (
            IsNumbered-append 0 (history e evs) ev (h e).0 (omega (arith, count)),
            omega (arith, same, count, length-append (history e evs) (ev ∷ [])),
          )))
]
