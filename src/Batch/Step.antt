-- ===== src/Batch/Step.antt =====
-- One round of the loop of batchCollection against one single write, and the whole loop against all.
use letopis.Prelude.{
  str_eq_refl, All, Bool, Bool-cases, inl, inr, arith, ℕ, suc, ◌≡◌, refl, sym, ap, ◌∙◌, subst, Str,
  true, false, Option, none, some, List, [], ◌∷◌, ◌++◌, append_nil, length, if◌then◌else◌, ◌==◌,
}
use letopis.Json.{Fields}
use letopis.Domain.Event.{Event, CurrentState}
use letopis.Domain.Collection.{CollectionConfig}
use letopis.Plugin.Host.{
  Plugin, EntityView, has_pre_store, run_pre_store, run_pre_store-IsSameWrite,
}
use letopis.Service.Command.{
  IngestResult, IngestCommand, Planned, no_change, invalid_diff, unknown_kind, planned,
}
use letopis.Service.Plan.{base_state, plan_event, version_matches}
use letopis.Service.Ingest.{
  fail_closed, last_event, commit_unless_closed, Store, Outcome, done, failed, WriteError, history,
  is_duplicate, upsert, stamp, new_current, after_store, commit, hooks_then_commit, run_plan,
  apply_one,
}
use letopis.Service.History.{Owns, Owns-plan}
use letopis.Service.History.Synced.{stamp-version}
use letopis.Batch.Fold.{
  assign, fail, next_version, gather_unless_closed, BatchItem, Fold, gather, with_version,
  fold_planned, fold_current, fold_first, fold_running, fold_item, fold_items,
}
use letopis.Batch.Tails.{
  IsBlind, run_pre_store-restamp, IsTailed, fail-IsTailed, loaded-IsTailed, gather-IsTailed,
}
use letopis.Batch.Insert.{IsVersioned, next_version-base_state}
use letopis.Batch.Agrees.{fine, Agrees, fail-Agrees, loaded-Agrees, gather-Agrees}
use letopis.Batch.OneByOne.{no_faults, error_of, one_by_one, IsFresh}

module _ (format_float : ℕ → Str) (plugins : List Plugin) (now : ℕ) (cfg : CollectionConfig) where
  with_version-stamp :
      (s : Store) (cmd : IngestCommand) (ev : Event)
      → ev.entity_id ≡ cmd.entity_id
      → IsVersioned s.current s.events
      → with_version now (s.current cmd.entity_id) ev ≡ stamp now s.events ev
  unfolding stamp
  with_version-stamp s cmd ev own h =
      let left = next_version-base_state (s.current cmd.entity_id) ∙ ap suc (h cmd.entity_id).1 in
      let right = stamp-version format_float now s.events ev (h ev.entity_id).0 in
      let count = ap (λ y. suc (length (history y s.events))) own in
      ap
        (λ v. record ev {
          version = v;
          ts_stored = if ev.ts_stored == 0 then now else ev.ts_stored;
        })
        (left ∙ sym count ∙ sym right)

  module _ (blind : All IsBlind plugins) (st : Store) where
    -- The loop and the single writes are in step; the last events matter where plugins are enabled.
    unfoldable pub Keeps : Fold → Store → Type 0
    Keeps f s = Agrees cfg st f s × (has_pre_store cfg plugins ≡ true → IsTailed st f s)

    Stays : Fold → List (ℕ × WriteError) → ℕ → Store × Outcome → Type 0
    Stays f errors k o = Keeps f o.0 × (f.errors ≡ errors ++ error_of k o.1)

    module _ (f : Fold) (s : Store) (k : ℕ) (cmd : IngestCommand) (h : Keeps f s) where
      abbrev cur : Option CurrentState
      cur = s.current cmd.entity_id

      fail-Stays : (e : WriteError) → Stays (fail f k e) f.errors k (s, failed e)
      unfolding Keeps Stays
      fail-Stays e = ((fail-Agrees cfg st f s k e h.0, λ r. fail-IsTailed st f s k e (h.1 r)), refl)

      same-Stays : (res : IngestResult) → Stays f f.errors k (s, done res)
      unfolding Stays
      same-Stays res = (h, sym (append_nil f.errors))

      -- an event that the hooks let pass, in the loop and in `commit`
      commit-Stays :
          (has_pre : Bool) (ev : Event) (x : Fields) (deleted : Bool)
          → (has_pre_store cfg plugins ≡ true → has_pre ≡ true)
          → ev.entity_id ≡ cmd.entity_id
          → is_duplicate ev.event_id s.events ≡ false
          → Stays
              (gather f k cmd.entity_id has_pre (with_version now cur ev) x deleted)
              f.errors
              k
              (commit now fine cfg cmd (base_state cur).1 s ev x deleted)
      unfolding commit stamp Stays Keeps after_store
      commit-Stays has_pre ev x deleted on own dup =
          let same = with_version-stamp s cmd ev own h.0.in_step in
          let next =
            stamp-version format_float now s.events ev (h.0.in_step ev.entity_id).0
            ∙ ap (λ y. suc (length (history y s.events))) own in
          let step =
            gather-Agrees cfg st f s h.0 k cmd has_pre (stamp now s.events ev) x deleted own next
              dup in
          let stored =
            after_store fine cfg
              (record s {
                events = s.events ++ stamp now s.events ev ∷ [];
                current = upsert s.current (new_current cmd (stamp now s.events ev) x deleted);
              })
              (stamp now s.events ev) x deleted in
          let both =
            subst (λ y. Agrees cfg st (gather f k cmd.entity_id has_pre y x deleted) stored)
              (sym same) step in
          let tailed = λ (r : has_pre_store cfg plugins ≡ true).
            subst (λ y. IsTailed st (gather f k cmd.entity_id has_pre y x deleted) stored)
              (sym same)
              (subst
                (λ b.
                  IsTailed st (gather f k cmd.entity_id b (stamp now s.events ev) x deleted) stored)
                (sym (on r))
                (gather-IsTailed st f s (h.1 r) cmd.entity_id k (stamp now s.events ev) x deleted
                  own stored refl)) in
          rw dup ((both, tailed), sym (append_nil f.errors))

      hooked-Stays :
          (x : Fields) (deleted : Bool) (o : Option Str × Event)
          → o.1.entity_id ≡ cmd.entity_id
          → is_duplicate o.1.event_id s.events ≡ false
          → Stays
              (gather_unless_closed f k cmd.entity_id (o.0, with_version now cur o.1) x deleted)
              f.errors
              k
              (commit_unless_closed
                (λ (y : Event). commit now fine cfg cmd (base_state cur).1 s y x deleted)
                s
                o)
      hooked-Stays x deleted (some name, ev) own dup = fail-Stays (fail_closed name)
      hooked-Stays x deleted (none, ev) own dup = commit-Stays true ev x deleted (λ r. refl) own dup

    planned-Agrees :
        (f : Fold) (s : Store) (k : ℕ) (cmd : IngestCommand) (p : Planned)
        → Keeps f s
        → (has_pre_store cfg plugins ≡ true
            → f.last cmd.entity_id ≡ last_event cmd.entity_id s.events)
        → Owns cmd p
        → is_duplicate cmd.event_id s.events ≡ false
        → Stays
            (fold_planned format_float plugins now cfg f k cmd (s.current cmd.entity_id) p)
            f.errors
            k
            (run_plan format_float plugins now fine cfg cmd (s.current cmd.entity_id) s p)
    unfolding fold_planned run_plan hooks_then_commit
    planned-Agrees f s k cmd no_change h tail own fresh = same-Stays f s k cmd h _
    planned-Agrees f s k cmd invalid_diff h tail own fresh =
        fail-Stays f s k cmd h WriteError.diff_invalid
    planned-Agrees f s k cmd unknown_kind h tail own fresh =
        fail-Stays f s k cmd h WriteError.kind_unknown
    planned-Agrees f s k cmd (planned ev x deleted) h tail own fresh =
        let e = cmd.entity_id in
        let cur = s.current e in
        let prev : EntityView = record { last_event = last_event e s.events; current = cur } in
        let hooked = run_pre_store cfg cmd.collection prev plugins ev in
        let kept = run_pre_store-IsSameWrite cfg cmd.collection prev plugins ev in
        let stamped =
          run_pre_store-restamp cfg cmd.collection prev plugins blind now (next_version cur) ev in
        elim (Bool-cases (has_pre_store cfg plugins)) [
          | inr off ↦ rw off (
              commit-Stays f s k cmd h false ev x deleted (λ r. absurd (ground (arith, off, r)))
                own.0 (ap (λ y. is_duplicate y s.events) own.1 ∙ fresh))
          | inl on ↦ rw on (
              rw (tail on) (
                rw stamped (
                  hooked-Stays f s k cmd h x deleted hooked (kept.entity_id ∙ own.0)
                    (ap (λ y. is_duplicate y s.events) (kept.event_id ∙ own.1) ∙ fresh))))
        ]

    module _ (f : Fold) (s : Store) (k : ℕ) (item : BatchItem) (h : Keeps f s)
        (fresh : is_duplicate item.command.event_id s.events ≡ false) where
      abbrev cmd : IngestCommand
      cmd = item.command

      abbrev alone : Store × Outcome
      alone =
          let cur = s.current cmd.entity_id in
          run_plan format_float plugins now fine cfg cmd cur s
            (plan_event format_float now cfg item.kind cmd cur)

      current-Agrees :
          (g : Fold) (cur : Option CurrentState)
          → Keeps g s
          → (has_pre_store cfg plugins ≡ true
              → g.last cmd.entity_id ≡ last_event cmd.entity_id s.events)
          → cur ≡ s.current cmd.entity_id
          → Stays (fold_current format_float plugins now cfg g k item cur) g.errors k alone
      current-Agrees g cur hg tail same = rw same (
          planned-Agrees g s k cmd
            (plan_event format_float now cfg item.kind cmd (s.current cmd.entity_id)) hg tail
            (Owns-plan now cmd format_float cfg item.kind (s.current cmd.entity_id)) fresh)

      running-Agrees :
          (o : Option (Option CurrentState))
          → f.running cmd.entity_id ≡ o
          → Stays
              (fold_running format_float plugins now cfg no_faults st f k item o)
              f.errors
              k
              alone
      unfolding fold_first Keeps
      running-Agrees none new =
          let e = cmd.entity_id in
          elim (Bool-cases (has_pre_store cfg plugins)) [
            | inr off ↦
                let was = loaded-Agrees cfg st f s e f.last new h.0 in
                let none_on : ¬ (has_pre_store cfg plugins ≡ true) = λ r. ground (arith, off, r) in
                rw off (
                  current-Agrees _ (st.current e) (was.1, λ r. absurd (none_on r))
                    (λ r. absurd (none_on r)) was.0)
            | inl on ↦
                let was =
                  loaded-Agrees cfg st f s e (assign e (last_event e st.events) f.last) new h.0 in
                let tailed = loaded-IsTailed st f s (h.1 on) e new in
                rw on (
                  current-Agrees _ (st.current e) (was.1, λ r. tailed)
                    (λ r. tailed.last e (st.current e) (rw (str_eq_refl e) refl)) was.0)
          ]
      running-Agrees (some known_cur) known =
          current-Agrees f known_cur h (λ r. (h.1 r).last cmd.entity_id known_cur known)
            (h.0.running cmd.entity_id known_cur known)

      item-Agrees :
          cmd.expected_version ≡ none
          → Stays
              (fold_item format_float plugins now cfg no_faults st f k item)
              f.errors
              k
              (apply_one format_float plugins now fine (some cfg) item.kind cmd s)
      unfolding fold_item apply_one version_matches
      item-Agrees free =
          let matches : version_matches cmd.expected_version
                (base_state (s.current cmd.entity_id)).1
              ≡ true =
            ap (λ o. version_matches o (base_state (s.current cmd.entity_id)).1) free in
          rw matches (running-Agrees (f.running cmd.entity_id) refl)

    -- the loop against the single writes
    pub items-Agrees :
        (items : List (ℕ × BatchItem)) (f : Fold) (s : Store)
        → Keeps f s
        → IsFresh format_float plugins now cfg items s
        → let g = fold_items format_float plugins now cfg no_faults st f items in
          let o = one_by_one format_float plugins now cfg items s f.errors in
          Keeps g o.0 × (g.errors ≡ o.1)
    unfolding fold_items Stays
    items-Agrees [] f s h fresh = (h, refl)
    items-Agrees ((k, item) ∷ rest) f s h fresh =
        let step = item-Agrees f s k item h fresh.1 fresh.0 in
        let g = fold_item format_float plugins now cfg no_faults st f k item in
        let u = (apply_one format_float plugins now fine (some cfg) item.kind item.command s).0 in
        let all = fold_items format_float plugins now cfg no_faults st g rest in
        subst
          (λ es.
            Keeps all (one_by_one format_float plugins now cfg rest u es).0
            × (all.errors ≡ (one_by_one format_float plugins now cfg rest u es).1))
          step.1 (items-Agrees rest g u step.0 fresh.2)
