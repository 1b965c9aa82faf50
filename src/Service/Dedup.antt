-- ===== src/Service/Dedup.antt =====
-- internal/service/ingest.go: a repeated commit of an event, by the unique index on event_id.
use letopis.Prelude.{
  ◌≡◌, refl, ℕ, str_eq_refl, Bool, true, false, List, [], ◌∷◌, ◌++◌, if◌then◌else◌, arith,
}
use letopis.Json.{Fields}
use letopis.Domain.Event.{Event}
use letopis.Domain.Collection.{CollectionConfig}
use letopis.Service.Command.{IngestCommand}
use letopis.Service.Ingest.{
  Store, Faults, Outcome, done, result, commit, stamp, has_event_id, after_store, is_empty,
  is_duplicate,
}

pub has_event_id-last :
    (evs : List Event) (ev : Event) → has_event_id ev.event_id (evs ++ ev ∷ []) ≡ true
unfolding has_event_id
has_event_id-last [] ev = rw (str_eq_refl ev.event_id)
has_event_id-last (x ∷ xs) ev = ground (arith, has_event_id-last xs ev)

true-ne-false : true ≡ false → ⊥
true-ne-false h = cc

-- the store after the three guards of a commit
chosen :
    (P : Store → Type 0) (a d u : Bool) (st stored full : Store) (o1 o2 o3 o4 : Outcome)
    → a ≡ false
    → (d ≡ true → P st)
    → P stored
    → P full
    → P
        (if◌then◌else◌ {A = Store × Outcome} a
          (st, o1)
          (if d then (st, o2) else if u then (stored, o3) else (full, o4))).0
chosen P false true u st stored full p q r o h x y z = x refl
chosen P false false true st stored full p q r o h x y z = y
chosen P false false false st stored full p q r o h x y z = z
chosen P true d u st stored full p q r o h x y z = absurd (true-ne-false h)

duplicate-has_event_id :
    (e there : Bool) → e ≡ false → (if e then false else there) ≡ true → there ≡ true
duplicate-has_event_id e there named d = ground arith

module _ (f : Faults) (cfg : CollectionConfig) (cmd : IngestCommand) (ev : Event) (s : Fields)
    (deleted : Bool) where
  commit-has_event_id :
      (now v : ℕ) (st : Store)
      → f.append_fails ≡ false
      → is_empty ev.event_id ≡ false
      → has_event_id ev.event_id (commit now f cfg cmd v st ev s deleted).0.events ≡ true
  unfolding commit after_store stamp
  commit-has_event_id now v st fine named =
      chosen (λ w. has_event_id ev.event_id w.events ≡ true) f.append_fails
        (is_duplicate ev.event_id st.events) f.upsert_fails st _ _ _ _ _ _ fine
        (λ d.
          duplicate-has_event_id (is_empty ev.event_id) (has_event_id ev.event_id st.events) named
            d)
        (has_event_id-last st.events (stamp now st.events ev))
        (has_event_id-last st.events (stamp now st.events ev))

  commit_duplicate :
      (now v : ℕ) (st : Store)
      → f.append_fails ≡ false
      → is_empty ev.event_id ≡ false
      → has_event_id ev.event_id st.events ≡ true
      → commit now f cfg cmd v st ev s deleted
        ≡ (st, done (record (result cmd v) { deduplicated = true }))
  unfolding commit
  commit_duplicate now v st fine named there = rw fine (rw named (rw there))

-- A commit that is sent again, after one whose append did not fail, changes nothing and reports
-- the event as deduplicated. The event has an event_id, and the second append does not fail.
pub commit-commit :
    (f g : Faults) (cfg : CollectionConfig) (cmd : IngestCommand) (ev : Event) (s : Fields)
    (deleted : Bool) (now later v w : ℕ) (st : Store)
    → f.append_fails ≡ false
    → g.append_fails ≡ false
    → is_empty ev.event_id ≡ false
    → commit later g cfg cmd w (commit now f cfg cmd v st ev s deleted).0 ev s deleted ≡ (
      (commit now f cfg cmd v st ev s deleted).0,
      done (record (result cmd w) { deduplicated = true }),
    )
commit-commit f g cfg cmd ev s deleted now later v w st fine again named =
    commit_duplicate g cfg cmd ev s deleted later w (commit now f cfg cmd v st ev s deleted).0 again
      named (commit-has_event_id f cfg cmd ev s deleted now v st fine named)
