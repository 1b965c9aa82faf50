-- ===== src/Batch/Single.antt =====
-- IngestBatch against single writes: what follows the loop of batchCollection makes the store that
-- the same writes make one after another.
use letopis.Prelude.{
  All, ℕ, ◌≡◌, refl, sym, ap, ◌∙◌, Str, true, false, some, List, [], ◌∷◌, ◌++◌, append_nil,
  if◌then◌else◌, Bool-cases, inl, inr, arith,
}
use letopis.Domain.Event.{Event}
use letopis.Domain.Collection.{CollectionConfig}
use letopis.Plugin.Host.{Plugin}
use letopis.Service.Ingest.{Store}
use letopis.Batch.Fold.{BatchItem, Fold, contains, fold_items}
use letopis.Batch.Flush.{build_all, insert_many, inserted, store_fold, start, batch_collection}
use letopis.Batch.Insert.{IsVersioned}
use letopis.Batch.Agrees.{final_or, Agrees}
use letopis.Batch.Refresh.{refresh_all-lookup}
use letopis.Batch.Tails.{IsBlind, IsTailed}
use letopis.Batch.Step
use letopis.Batch.OneByOne.{no_faults, one_by_one, IsFresh}
use letopis.Batch.Step.{items-Agrees}

store_ext :
    (a b : Store)
    → a.events ≡ b.events
    → ((e : Str) → a.current e ≡ b.current e)
    → a.snapshots ≡ b.snapshots
    → a.evaluated ≡ b.evaluated
    → a ≡ b
store_ext a b events current snapshots evaluated i = record {
  events = events i;
  current = λ e. current e i;
  snapshots = snapshots i;
  evaluated = evaluated i;
}

module _ (format_float : ℕ → Str) (plugins : List Plugin) (now : ℕ) (cfg : CollectionConfig)
    (blind : All IsBlind plugins) (st : Store) where
  start-Agrees : IsVersioned st.current st.events → Agrees cfg st start st
  unfolding insert_many contains build_all
  start-Agrees h = record {
    events = sym (append_nil st.events);
    evaluated = sym (append_nil st.evaluated);
    snapshots = refl;
    current = λ e. refl;
    running = λ e c r. absurd (ground (arith, r));
    idle = λ e r. refl;
    in_step = h;
    landed = refl;
    quiet = λ r. (refl, λ e. refl);
    keyed = λ e c r. absurd (ground (arith, r));
    ordered = λ e r. refl;
  }

  Agrees-store :
      (f : Fold) (s : Store) (evs : List Event)
      → Agrees cfg st f s
      → f.events ≡ evs
      → store_fold no_faults cfg st f evs ≡ (s, f.errors)
  unfolding store_fold
  Agrees-store f s [] h none_yet =
      let quiet = h.quiet none_yet in
      ap (λ u. (u, f.errors))
        (store_ext st s
          (sym (h.events ∙ ap (λ es. st.events ++ es) none_yet ∙ append_nil st.events))
          (λ e. ap (λ o. final_or o (st.current e)) (sym (quiet.1 e)) ∙ sym (h.current e))
          (ap (λ sns. build_all false cfg sns st.snapshots) (sym quiet.0) ∙ sym h.snapshots)
          (sym (h.evaluated ∙ ap (λ es. st.evaluated ++ es) none_yet ∙ append_nil st.evaluated)))
  Agrees-store f s (ev ∷ evs) h some_yet =
      let landed : insert_many st.events (ev ∷ evs) ≡ (s.events, true) =
        ap (insert_many st.events) (sym some_yet) ∙ h.landed in
      ap (inserted no_faults cfg st f) landed
      ∙ ap (λ u. (u, f.errors))
          (store_ext _ s refl
            (λ j.
              refresh_all-lookup f.finals st.current f.final_order h.keyed j
              ∙ listed j
              ∙ sym (h.current j))
            (sym h.snapshots) (sym h.evaluated))
    where
      listed :
          (j : Str)
          → (if contains j f.final_order
              then final_or (f.finals j) (st.current j)
              else st.current j)
            ≡ final_or (f.finals j) (st.current j)
      listed j = elim (Bool-cases (contains j f.final_order)) [
        | inl in_order ↦ rw in_order refl
        | inr missing ↦ rw missing (ap (λ o. final_or o (st.current j)) (sym (h.ordered j missing)))
      ]

  start-IsTailed : IsTailed st start st
  start-IsTailed = record { last = λ e c r. absurd (ground (arith, r)); idle = λ e r. refl }

  -- A fast-mode batch makes the store and the errors that its writes make one after another, where no
  -- call fails, no plugin reads the version or the stored time of its draft, no write expects a
  -- version, no event id is stored already when its turn comes, and every entity's versions were
  -- 1, 2, 3 and so on up to that of its current state.
  pub batch_collection-one_by_one :
      (items : List (ℕ × BatchItem))
      → IsVersioned st.current st.events
      → IsFresh format_float plugins now cfg items st
      → batch_collection format_float plugins now no_faults (some cfg) items st
        ≡ one_by_one format_float plugins now cfg items st []
  unfolding batch_collection Step.Keeps
  batch_collection-one_by_one items h fresh =
      let f = fold_items format_float plugins now cfg no_faults st start items in
      let all =
        items-Agrees format_float plugins now cfg blind st items start st
          (start-Agrees h, λ r. start-IsTailed) fresh in
      Agrees-store f (one_by_one format_float plugins now cfg items st []).0 f.events all.0.0 refl
      ∙ ap (λ es. ((one_by_one format_float plugins now cfg items st []).0, es)) all.1
