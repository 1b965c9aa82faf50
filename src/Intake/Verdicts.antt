-- ===== src/Intake/Verdicts.antt =====
-- internal/service/batch_ingest.go, by the elements of a batch: which ones are rejected, and why.
use letopis.Prelude.{
  ℕ, suc, ◌+◌, ◌≡◌, ◌≢◌, ◌<◌, ◌≤◌, refl, sym, ap, ◌∙◌, Str, Bool, true, false, Option, none, some,
  List, [], ◌∷◌, ◌++◌, append_assoc, append_nil, ltb, arith, if◌then◌else◌,
}
use letopis.Domain.Collection.{CollectionConfig, ReliabilityMode}
use letopis.Plugin.Host.{Plugin}
use letopis.Tenant.Access.{Tenant}
use letopis.Service.Command.{IngestResult}
use letopis.Service.Ingest
use letopis.Service.Ingest.{WriteError, Outcome, done, apply_one}
use letopis.Worker.Process.{Task, has_entry_point}
use letopis.Intake.Accept.{Wiring, Intake, AcceptError, effective_mode}
use letopis.Intake.Batch.{
  ConfigAnswer, resolved, auto_create_disabled, config_failed, Site, Step, written, strict_item,
  queued_item, BatchEntry, BatchReject, RejectCode, collection_not_found, too_large, internal,
  BatchResult, write, accept, code_of, size_limit, is_strict, write_strict, accept_batch_item,
  accept_with, accept_entry, accept_all, counted,
}

either :
    {A : Type 0} (P : A → Type 0) (b : Bool) (x y : A)
    → (b ≡ true → P x)
    → (b ≡ false → P y)
    → P (if b then x else y)
either P true x y f g = f refl
either P false x y f g = g refl

module _ (encode : Task → Option Str) (format_float : ℕ → Str) (plugins : List Plugin) (w : Wiring)
    (t : Tenant) (receipt : Str) where
  -- What an element comes to in a site: a rejection with its code, or none.
  pub data Verdict (e : BatchEntry) (p : Step) (s : Site) : Option RejectCode → Type 0 where
    not_created : p.config ≡ auto_create_disabled → Verdict e p s (some collection_not_found)
    config_lost : p.config ≡ config_failed → Verdict e p s (some internal)
    large :
        {cfg : CollectionConfig}
        → p.config ≡ resolved cfg
        → size_limit cfg.max_event_size_bytes < e.body_size
        → Verdict e p s (some too_large)
    without_entry_point :
        {cfg : CollectionConfig}
        → p.config ≡ resolved cfg
        → e.body_size ≤ size_limit cfg.max_event_size_bytes
        → effective_mode e.command.mode cfg ≡ ReliabilityMode.strict
        → has_entry_point e.kind ≡ false
        → Verdict e p s (some internal)
    stored :
        {cfg : CollectionConfig} {r : IngestResult}
        → p.config ≡ resolved cfg
        → e.body_size ≤ size_limit cfg.max_event_size_bytes
        → effective_mode e.command.mode cfg ≡ ReliabilityMode.strict
        → (apply_one format_float plugins p.io.now p.faults
            (some cfg)
            e.kind
            e.command
            (s.collections e.command.collection)).1
          ≡ done r
        → Verdict e p s none
    not_stored :
        {cfg : CollectionConfig} {x : WriteError}
        → p.config ≡ resolved cfg
        → e.body_size ≤ size_limit cfg.max_event_size_bytes
        → effective_mode e.command.mode cfg ≡ ReliabilityMode.strict
        → (apply_one format_float plugins p.io.now p.faults
            (some cfg)
            e.kind
            e.command
            (s.collections e.command.collection)).1
          ≡ Ingest.failed x
        → Verdict e p s (some (code_of (write x)))
    queued :
        {cfg : CollectionConfig}
        → p.config ≡ resolved cfg
        → e.body_size ≤ size_limit cfg.max_event_size_bytes
        → effective_mode e.command.mode cfg ≢ ReliabilityMode.strict
        → (accept_batch_item encode format_float plugins w t p.io receipt e.kind
            (effective_mode e.command.mode cfg)
            e.command
            s.intake).1
          ≡ none
        → Verdict e p s none
    not_queued :
        {cfg : CollectionConfig} {x : AcceptError}
        → p.config ≡ resolved cfg
        → e.body_size ≤ size_limit cfg.max_event_size_bytes
        → effective_mode e.command.mode cfg ≢ ReliabilityMode.strict
        → (accept_batch_item encode format_float plugins w t p.io receipt e.kind
            (effective_mode e.command.mode cfg)
            e.command
            s.intake).1
          ≡ some x
        → Verdict e p s (some (code_of (accept x)))

  -- the rejection of an element with its index
  abbrev pub IsReject : BatchEntry → Option BatchReject → Option RejectCode → Type 0
  IsReject e none none = Unit {0}
  IsReject e (some x) (some code) = (x.index ≡ e.index) × (x.code ≡ code)
  IsReject e none (some code) = ⊥
  IsReject e (some x) none = ⊥

  Answered : BatchEntry → Step → Site → Option BatchReject → Type 0
  Answered e p s o = (v : Option RejectCode) × Verdict e p s v × IsReject e o v

  strict_mode : (m : ReliabilityMode) → is_strict m ≡ true → m ≡ ReliabilityMode.strict
  strict_mode ReliabilityMode.strict h = refl
  strict_mode ReliabilityMode.unset h = absurd (ground (arith, h))
  strict_mode ReliabilityMode.durable h = absurd (ground (arith, h))
  strict_mode ReliabilityMode.fast h = absurd (ground (arith, h))
  strict_mode (ReliabilityMode.other o) h = absurd (ground (arith, h))

  other_mode : (m : ReliabilityMode) → is_strict m ≡ false → m ≢ ReliabilityMode.strict
  other_mode m h e = let same = ap is_strict e in absurd (ground (arith, h, same))

  written-Answered :
      (e : BatchEntry) (p : Step) (s : Site) (cfg : CollectionConfig) (o : Ingest.Store × Outcome)
      → p.config ≡ resolved cfg
      → e.body_size ≤ size_limit cfg.max_event_size_bytes
      → effective_mode e.command.mode cfg ≡ ReliabilityMode.strict
      → apply_one format_float plugins p.io.now p.faults
          (some cfg)
          e.kind
          e.command
          (s.collections e.command.collection)
        ≡ o
      → Answered e p s
          (strict_item encode format_float plugins w t e.index (written s e.command.collection o)).1
  unfolding Answered
  written-Answered e p s cfg (st, done r) at fits mode h =
      (none, stored at fits mode (ap (λ x. x.1) h), tt)
  written-Answered e p s cfg (st, Ingest.failed x) at fits mode h =
      (some (code_of (write x)), not_stored at fits mode (ap (λ y. y.1) h), (refl, refl))

  queued-Answered :
      (e : BatchEntry) (p : Step) (s : Site) (cfg : CollectionConfig)
      (o : Intake × Option AcceptError)
      → p.config ≡ resolved cfg
      → e.body_size ≤ size_limit cfg.max_event_size_bytes
      → effective_mode e.command.mode cfg ≢ ReliabilityMode.strict
      → accept_batch_item encode format_float plugins w t p.io receipt e.kind
          (effective_mode e.command.mode cfg)
          e.command
          s.intake
        ≡ o
      → Answered e p s (queued_item encode format_float plugins w t e.index s o).1
  unfolding Answered
  queued-Answered e p s cfg (u, none) at fits mode h =
      (none, queued at fits mode (ap (λ x. x.1) h), tt)
  queued-Answered e p s cfg (u, some x) at fits mode h =
      (some (code_of (accept x)), not_queued at fits mode (ap (λ y. y.1) h), (refl, refl))

  strict-Answered :
      (e : BatchEntry) (p : Step) (s : Site) (cfg : CollectionConfig)
      → p.config ≡ resolved cfg
      → e.body_size ≤ size_limit cfg.max_event_size_bytes
      → effective_mode e.command.mode cfg ≡ ReliabilityMode.strict
      → Answered e p s
          (strict_item encode format_float plugins w t e.index
            (write_strict encode format_float plugins w t p cfg e.kind e.command s)).1
  unfolding Answered write_strict code_of
  strict-Answered e p s cfg at fits mode =
      either (λ z. Answered e p s (strict_item encode format_float plugins w t e.index z).1)
        (has_entry_point e.kind) _ _ (λ known. written-Answered e p s cfg _ at fits mode refl)
        (λ unknown. (some internal, without_entry_point at fits mode unknown, (refl, refl)))

  accept_with-Answered :
      (e : BatchEntry) (p : Step) (s : Site) (c : ConfigAnswer)
      → p.config ≡ c
      → Answered e p s (accept_with encode format_float plugins w t p receipt e s c).1
  unfolding accept_with Answered code_of
  accept_with-Answered e p s auto_create_disabled at =
      (some collection_not_found, not_created at, (refl, refl))
  accept_with-Answered e p s config_failed at = (some internal, config_lost at, (refl, refl))
  accept_with-Answered e p s (resolved cfg) at =
      either (λ (z : Site × Option BatchReject). Answered e p s z.1)
        (ltb (size_limit cfg.max_event_size_bytes) e.body_size) _ _
        (λ big. (some too_large, large at (ground (arith, big)), (refl, refl)))
        (λ small.
          let fits : e.body_size ≤ size_limit cfg.max_event_size_bytes = ground (arith, small) in
          either (λ (z : Site × Option BatchReject). Answered e p s z.1)
            (is_strict (effective_mode e.command.mode cfg)) _ _
            (λ yes_strict. strict-Answered e p s cfg at fits (strict_mode _ yes_strict))
            (λ not_strict. queued-Answered e p s cfg _ at fits (other_mode _ not_strict) refl))

  accept_entry-Answered :
      (e : BatchEntry) (p : Step) (s : Site)
      → Answered e p s (accept_entry encode format_float plugins w t p receipt e s).1
  unfolding accept_entry
  accept_entry-Answered e p s = accept_with-Answered e p s p.config refl

  -- The elements one after another: how many are accepted, and the rejections with their indexes.
  pub data Judged : List (BatchEntry × Step) → Site → ℕ → List BatchReject → Type 0 where
    none_left : {s : Site} → Judged [] s 0 []
    taken :
        {e : BatchEntry} {p : Step} {rest : List (BatchEntry × Step)} {s : Site} {n : ℕ}
        {xs : List BatchReject}
        → Verdict e p s none
        → Judged rest (accept_entry encode format_float plugins w t p receipt e s).0 n xs
        → Judged ((e, p) ∷ rest) s (suc n) xs
    turned_down :
        {e : BatchEntry} {p : Step} {rest : List (BatchEntry × Step)} {s : Site} {n : ℕ}
        {xs : List BatchReject} {code : RejectCode}
        → Verdict e p s (some code)
        → Judged rest (accept_entry encode format_float plugins w t p receipt e s).0 n xs
        → Judged ((e, p) ∷ rest) s n (record { index = e.index; code = code } ∷ xs)

  -- What the loop adds to a result.
  abbrev pub AddsUp : List (BatchEntry × Step) → Site → BatchResult → BatchResult → Type 0
  AddsUp es s r u =
      (n : ℕ) × (xs : List BatchReject) × Judged es s n xs
      × (u.accepted ≡ r.accepted + n)
      × (u.rejected ≡ r.rejected ++ xs)

  counted-AddsUp :
      (e : BatchEntry) (p : Step) (rest : List (BatchEntry × Step)) (s : Site) (r u : BatchResult)
      (o : Option BatchReject)
      → Answered e p s o
      → AddsUp rest
          (accept_entry encode format_float plugins w t p receipt e s).0
          (counted encode format_float plugins w t r o)
          u
      → AddsUp ((e, p) ∷ rest) s r u
  unfolding Answered
  counted-AddsUp e p rest s r u none (none, v, k) (n, xs, j, a, b) =
      (suc n, xs, taken v j, a ∙ omega arith, b)
  counted-AddsUp e p rest s r u none (some code, v, k) h = absurd k
  counted-AddsUp e p rest s r u (some x) (none, v, k) h = absurd k
  counted-AddsUp e p rest s r u (some x) (some code, v, k) (n, xs, j, a, b) = (
    n,
    record { index = e.index; code = code } ∷ xs,
    turned_down v j,
    a,
    b ∙ append_assoc r.rejected (x ∷ []) xs ∙ λ i.
        r.rejected ++ record { index = k.0 i; code = k.1 i } ∷ xs,
  )

  pub accept_all-AddsUp :
      (es : List (BatchEntry × Step)) (s : Site) (r : BatchResult)
      → AddsUp es s r (accept_all encode format_float plugins w t receipt es s r).1
  unfolding accept_all
  accept_all-AddsUp [] s r = (0, [], none_left, omega arith, sym (append_nil r.rejected))
  accept_all-AddsUp ((e, p) ∷ rest) s r =
      let x = accept_entry encode format_float plugins w t p receipt e s in
      let r' = counted encode format_float plugins w t r x.1 in
      counted-AddsUp e p rest s r (accept_all encode format_float plugins w t receipt rest x.0 r').1
        x.1 (accept_entry-Answered e p s) (accept_all-AddsUp rest x.0 r')
