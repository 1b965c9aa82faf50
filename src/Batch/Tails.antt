-- ===== src/Batch/Tails.antt =====
-- The pre-store hooks in a batch: they see the same last events as in single writes, and a plugin
-- that reads neither the version nor the stored time answers the same.
use letopis.Prelude.{
  ℕ, ◌≡◌, refl, sym, ap, ◌∙◌, Str, str_eq, str_eq→eq, str_eq_refl, Bool, true, false, Option, none,
  some, List, [], ◌∷◌, ◌++◌, All, if◌then◌else◌, ◌==◌, Bool-cases, inl, inr, arith,
}
use letopis.Json.{Value, Fields}
use letopis.HashChain.Link.{hash_chain, pre_store, hash, canonical, projection}
use letopis.Json.Object.{str_eq_sym}
use letopis.Domain.Event.{Event, CurrentState}
use letopis.Domain.Collection.{CollectionConfig}
use letopis.Plugin.Host.{
  Plugin, EntityView, plugin_config, enabled_in, fails_closed, amend, run_pre_store,
}
use letopis.Service.Ingest.{Store, WriteError, history, last_of, last_event}
use letopis.Service.History.Synced.{history-append}
use letopis.Batch.Fold.{Fold, assign, fail, gather}

-- the event with a version and, unless it has one, a stored time
abbrev pub restamp : ℕ → ℕ → Event → Event
restamp now v ev = record ev {
  version = v;
  ts_stored = if ev.ts_stored == 0 then now else ev.ts_stored;
}

-- The plugin answers the same whatever the version and the stored time are.
abbrev pub IsBlind : Plugin → Type 0
IsBlind p =
    (collection : Str) (ev : Event) (prev : EntityView) (now v : ℕ)
    → p.pre_store collection (restamp now v ev) prev ≡ p.pre_store collection ev prev

pub run_pre_store-restamp :
    (cfg : CollectionConfig) (collection : Str) (prev : EntityView) (ps : List Plugin)
    → All IsBlind ps
    → (now v : ℕ) (ev : Event)
    → run_pre_store cfg collection prev ps (restamp now v ev) ≡ (
      (run_pre_store cfg collection prev ps ev).0,
      restamp now v (run_pre_store cfg collection prev ps ev).1,
    )
unfolding run_pre_store
run_pre_store-restamp cfg collection prev [] b now v ev = refl
run_pre_store-restamp cfg collection prev (p ∷ ps) b now v ev =
    let o = p.pre_store collection ev prev in
    let same = b.0 collection ev prev now v in
    let on = run_pre_store-restamp cfg collection prev ps b.1 now v (amend ev o) in
    let skipped = run_pre_store-restamp cfg collection prev ps b.1 now v ev in
    elim (Bool-cases (enabled_in (plugin_config cfg.plugins p.name))) [
      | inr off ↦ rw off skipped
      | inl enabled ↦ elim (Bool-cases o.failed) [
        | inr fine ↦ rw enabled (rw same (rw fine on))
        | inl broken ↦ elim (Bool-cases (fails_closed (plugin_config cfg.plugins p.name))) [
          | inl closed ↦ rw enabled (rw same (rw broken (rw closed refl)))
          | inr lenient ↦ rw enabled (rw same (rw broken (rw lenient on)))
        ]
      ]
    ]

-- The loop knows the last event of each entity that it has loaded; the history of the others is
-- still that of the store before the batch.
pub record IsTailed (st : Store) (f : Fold) (s : Store) : Type 0 where
  pub last :
      (e : Str) (c : Option CurrentState) → f.running e ≡ some c → f.last e ≡ last_event e s.events
  pub idle : (e : Str) → f.running e ≡ none → history e s.events ≡ history e st.events

pub fail-IsTailed :
    (st : Store) (f : Fold) (s : Store) (k : ℕ) (e : WriteError)
    → IsTailed st f s
    → IsTailed st (fail f k e) s
fail-IsTailed st f s k e h = record { last = h.last; idle = h.idle }

last_of-append :
    (o : Option Event) (xs : List Event) (ev : Event) → last_of o (xs ++ ev ∷ []) ≡ some ev
last_of-append o [] ev = refl
last_of-append o (x ∷ xs) ev = last_of-append (some x) xs ev

module _ (st : Store) (f : Fold) (s : Store) (h : IsTailed st f s) (e : Str) where
  pub loaded-IsTailed :
      f.running e ≡ none
      → IsTailed st
          (record f {
            running = assign e (some (st.current e)) f.running;
            last = assign e (last_event e st.events) f.last;
          })
          s
  unfolding last_event
  loaded-IsTailed new = record {
    last = λ j c r. elim (Bool-cases (str_eq j e)) [
      | inl here ↦
          let is = str_eq→eq j e here in
          rw here (
            ap (last_of none) (sym (h.idle e new))
            ∙ ap (λ y. last_of none (history y s.events)) (sym is))
      | inr other ↦
          let was : assign e (some (st.current e)) f.running j ≡ f.running j = rw other refl in
          rw other (h.last j c (sym was ∙ r))
    ];
    idle = λ j r. elim (Bool-cases (str_eq j e)) [
      | inl here ↦ absurd (ground (arith, here, r))
      | inr other ↦
          let was : assign e (some (st.current e)) f.running j ≡ f.running j = rw other refl in
          h.idle j (sym was ∙ r)
    ];
  }

  module _ (k : ℕ) (ev : Event) (x : Fields) (deleted : Bool) (own : ev.entity_id ≡ e) (s' : Store)
      (grown : s'.events ≡ s.events ++ ev ∷ []) where
    abbrev f' : Fold
    f' = gather f k e true ev x deleted

    other_history : (j : Str) → str_eq j e ≡ false → history j s'.events ≡ history j s.events
    other_history j other =
        let apart = ap (λ y. str_eq y j) own ∙ str_eq_sym e j ∙ other in
        ap (history j) grown ∙ history-append j s.events ev ∙ rw apart refl

    own_history : history e s'.events ≡ history e s.events ++ ev ∷ []
    own_history =
        let same = ap (λ y. str_eq y e) own ∙ str_eq_refl e in
        ap (history e) grown ∙ history-append e s.events ev ∙ rw same refl

    pub gather-IsTailed : IsTailed st f' s'
    unfolding last_event
    gather-IsTailed = record {
      last = λ j c r. elim (Bool-cases (str_eq j e)) [
        | inl here ↦
            let is = str_eq→eq j e here in
            rw here (
              sym (ap (last_of none) own_history ∙ last_of-append none (history e s.events) ev)
              ∙ ap (λ y. last_of none (history y s'.events)) (sym is))
        | inr other ↦
            let was : f'.running j ≡ f.running j = rw other refl in
            rw other (h.last j c (sym was ∙ r) ∙ ap (last_of none) (sym (other_history j other)))
      ];
      idle = λ j r. elim (Bool-cases (str_eq j e)) [
        | inl here ↦ absurd (ground (arith, here, r))
        | inr other ↦
            let was : f'.running j ≡ f.running j = rw other refl in
            other_history j other ∙ h.idle j (sym was ∙ r)
      ];
    }

-- The hash chain seals neither the version nor the stored time.
pub hash_chain-IsBlind :
    (sha256 : Str → Str) (json_text : Value → Option Str) (format_time : ℕ → Str)
    → IsBlind (hash_chain sha256 json_text format_time)
unfolding pre_store hash canonical projection
hash_chain-IsBlind sha256 json_text format_time collection ev prev now v = refl
