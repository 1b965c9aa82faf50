-- ===== src/Batch/Refresh.antt =====
-- The refresh of the current states after the insert, read entity by entity.
use letopis.Prelude.{
  ◌≡◌, refl, sym, ap, ◌∙◌, Str, str_eq, str_eq→eq, false, Option, none, some, List, [], ◌∷◌,
  if◌then◌else◌, Bool-cases, inl, inr, arith,
}
use letopis.Domain.Event.{CurrentState}
use letopis.Batch.Fold.{contains}
use letopis.Batch.Flush.{refresh, refresh_all}
use letopis.Batch.Agrees.{final_or}

refresh-lookup :
    (current : Str → Option CurrentState) (e j : Str) (o : Option CurrentState)
    → ((c : CurrentState) → o ≡ some c → c.entity_id ≡ e)
    → refresh current o j ≡ (if str_eq j e then final_or o (current j) else current j)
refresh-lookup current e j none h = ground arith
refresh-lookup current e j (some c) h = rw (h c refl) refl

final_or-final_or : (o c : Option CurrentState) → final_or o (final_or o c) ≡ final_or o c
final_or-final_or none c = refl
final_or-final_or (some x) c = refl

pub refresh_all-lookup :
    (finals current : Str → Option CurrentState) (order : List Str)
    → ((e : Str) (c : CurrentState) → finals e ≡ some c → c.entity_id ≡ e)
    → (j : Str)
    → refresh_all (λ e. false) finals order current j
      ≡ (if contains j order then final_or (finals j) (current j) else current j)
unfolding refresh_all contains
refresh_all-lookup finals current [] keyed j = refl
refresh_all-lookup finals current (e ∷ es) keyed j =
    let then_rest = refresh_all-lookup finals (refresh current (finals e)) es keyed j in
    let one = refresh-lookup current e j (finals e) (keyed e) in
    elim (Bool-cases (str_eq j e)) [
      | inl here ↦
          let same = ap finals (sym (str_eq→eq j e here)) in
          let now_j : refresh current (finals e) j ≡ final_or (finals j) (current j) =
            one ∙ rw here (ap (λ o. final_or o (current j)) same) in
          then_rest
          ∙ rw here (
              rw now_j (elim (Bool-cases (contains j es)) [
                | inl listed ↦ rw listed (final_or-final_or (finals j) (current j))
                | inr missing ↦ rw missing refl
              ]))
      | inr other ↦
          let now_j : refresh current (finals e) j ≡ current j = one ∙ rw other refl in
          then_rest ∙ rw other (rw now_j refl)
    ]
