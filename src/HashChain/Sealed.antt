-- ===== src/HashChain/Sealed.antt =====
-- What the hash-chain plugin leaves on an event when it comes last and the configuration closes on its failure.
use letopis.Prelude.{
  ℕ, ◌≡◌, refl, sym, Str, str_eq, str_eq→eq, str_eq_refl, codes, Bool, true, false, Option, none,
  some, List, [], ◌∷◌, ◌++◌, if◌then◌else◌, arith,
}
use letopis.Json.{Value}
use letopis.Domain.Event.{Event, Integrity}
use letopis.Domain.Collection.{CollectionConfig}
use letopis.Plugin.Host.{
  Plugin, EntityView, PreStore, amend, plugin_config, enabled_in, fails_closed, has_pre_store,
  run_pre_store,
}
use letopis.Service.Ingest.{last_of}
use letopis.HashChain.Link.{
  genesis, hash, hash_chain, link_or, hash_or, seal_draft, pre_store, canonical, projection, seal,
  seal_text,
}
use letopis.HashChain.Verify.{links, verify, last_hash, stored_hash, matches}

-- The configuration turns the plugin on, and lets it reject a write.
abbrev pub IsChained : Option CollectionConfig → Type 0
IsChained none = Unit {0}
IsChained (some cfg) =
    let pc = plugin_config cfg.plugins (codes "hash_chain") in
    (enabled_in pc ≡ true) × (fails_closed pc ≡ true)

module _ (sha256 : Str → Str) (json_text : Value → Option Str) (format_time : ℕ → Str) where
  abbrev pub chain : Plugin
  chain = hash_chain sha256 json_text format_time

  abbrev pub first : Str → Str
  first collection = genesis sha256 json_text format_time collection

  matches-hash_or :
      (default prev : Str) (o : Option Str) (i : Integrity)
      → matches (seal_text sha256 json_text format_time prev o) i.hash ≡ true
      → hash_or sha256 json_text format_time default (some i) ≡ i.hash
  unfolding seal str_eq
  matches-hash_or default prev none i h = absurd (ground arith)
  matches-hash_or default prev (some text) i h =
      let same = sym (str_eq→eq (seal sha256 json_text format_time prev text) i.hash h) in
      rw same same

  links-link_or :
      (default prev : Str) (ev : Event) (o : Option Integrity)
      → links sha256 json_text format_time prev ev o ≡ true
      → hash_or sha256 json_text format_time default o ≡ stored_hash o
  unfolding hash
  links-link_or default prev ev none h = absurd (ground arith)
  links-link_or default prev ev (some i) h =
      matches-hash_or default prev (canonical sha256 json_text format_time ev) i (ground arith)

  -- The plugin reads the hash that ends a verified history.
  pub link_or-last_hash :
      (default prev : Str) (o : Option Event) (evs : List Event)
      → link_or sha256 json_text format_time default o ≡ prev
      → verify sha256 json_text format_time prev evs ≡ true
      → link_or sha256 json_text format_time default (last_of o evs)
        ≡ last_hash sha256 json_text format_time prev evs
  unfolding verify last_hash
  link_or-last_hash default prev o [] e h = e
  link_or-last_hash default prev o (ev ∷ evs) e h =
      link_or-last_hash default (stored_hash ev.integrity) (some ev) evs
        (links-link_or default prev ev ev.integrity (ground arith)) (ground arith)

  module _ (cfg : CollectionConfig) (collection : Str) (prev : EntityView)
      (on : IsChained (some cfg)) where
    abbrev pub prev_hash : Str
    prev_hash = link_or sha256 json_text format_time (first collection) prev.last_event

    abbrev pub IsLinkedResult : Option Str × Event → Type 0
    IsLinkedResult r =
        r.0 ≡ none → links sha256 json_text format_time prev_hash r.1 r.1.integrity ≡ true

    hash-amend :
        (ev : Event) (o : PreStore)
        → hash sha256 json_text format_time prev_hash (amend ev o)
          ≡ hash sha256 json_text format_time prev_hash ev
    unfolding hash canonical projection
    hash-amend ev o = refl

    abbrev draft : Event → Option Str → PreStore
    draft ev o = seal_draft sha256 json_text format_time prev_hash ev o

    -- what one call of the plugin leaves
    draft-links :
        (ev : Event) (o : Option Str)
        → hash sha256 json_text format_time prev_hash ev ≡ o
        → IsLinkedResult (
            if (draft ev o).failed
            then (some chain.name, amend ev (draft ev o))
            else (none, amend ev (draft ev o)))
    draft-links ev none e h = absurd (ground arith)
    draft-links ev (some x) e h =
        rw (hash-amend ev (draft ev (some x))) (rw e (rw (str_eq_refl prev_hash) (str_eq_refl x)))

    -- the three outcomes of one plugin, where `rejected` names it
    IsLinkedResult-if :
        (on failed closed : Bool) (name : Str) (ev : Event) (amended skipped : Option Str × Event)
        → IsLinkedResult amended
        → IsLinkedResult skipped
        → IsLinkedResult (
            if on
            then (if failed then (if closed then (some name, ev) else amended) else amended)
            else skipped)
    IsLinkedResult-if false failed closed name ev amended skipped a s = s
    IsLinkedResult-if true false closed name ev amended skipped a s = a
    IsLinkedResult-if true true false name ev amended skipped a s = a
    IsLinkedResult-if true true true name ev amended skipped a s = λ h. absurd (ground arith)

    pub run-links :
        (others : List Plugin) (ev : Event)
        → IsLinkedResult (run_pre_store cfg collection prev (others ++ chain ∷ []) ev)
    unfolding run_pre_store pre_store
    run-links [] ev =
        rw on.0 (rw on.1 (draft-links ev (hash sha256 json_text format_time prev_hash ev) refl))
    run-links (p ∷ ps) ev =
        IsLinkedResult-if (enabled_in (plugin_config cfg.plugins p.name))
          (p.pre_store collection ev prev).failed (fails_closed (plugin_config cfg.plugins p.name))
          p.name (amend ev (p.pre_store collection ev prev)) _ _
          (run-links ps (amend ev (p.pre_store collection ev prev))) (run-links ps ev)

    pub has_pre_store-chain :
        (others : List Plugin) → has_pre_store cfg (others ++ chain ∷ []) ≡ true
    unfolding has_pre_store
    has_pre_store-chain [] = rw on.0 refl
    has_pre_store-chain (p ∷ ps) = ground (arith, has_pre_store-chain ps)
