-- ===== src/Rules/Engine/Firing.antt =====
-- The actions that the rules engine fires, read off the rules without compiling them.
use letopis.Prelude.{
  ◌≡◌, refl, Str, codes, Bool, true, false, ◌&&◌, List, [], ◌∷◌, ◌++◌, Bool-cases, inl, inr,
  if◌then◌else◌,
}
use letopis.Domain.Event.{Event}
use letopis.Rules.Model.{Externals, Rule, Predicate, Result, ok, err}
use letopis.Rules.Compile.{compile}
use letopis.Rules.Meaning.{holds}
use letopis.Rules.Refinement.{compile-holds}
use letopis.Rules.Engine.Effects.{Wiring, Effect, CompiledRule, to_eval_event, fire_all, fire_rules}
use letopis.Rules.Engine.Cached.{compile_enabled, compiled_or_skipped}

abbrev is_ok : Result Predicate → Bool
is_ok (ok p) = true
is_ok (err e) = false

-- The rule is enabled, its condition is well formed, and it holds for the event.
abbrev pub applies : Externals → Event → Rule → Bool
applies x ev r =
    r.enabled
    && (is_ok (compile x r.condition (codes "condition")) && holds x r.condition (to_eval_event ev))

module _ (x : Externals) (w : Wiring) (tenant_id collection : Str) (ev : Event) where
  -- what the rules ask for, in their order
  unfoldable pub expected : List Rule → List Effect
  unfolding fire_all compile holds
  expected [] = []
  expected (r ∷ rest) =
      let more = expected rest in
      if applies x ev r
      then fire_all w tenant_id collection ev r.id r.name r.actions ++ more
      else more

  -- one enabled rule, from what its condition compiles to
  fire_rules-compiled :
      (r : Rule) (o : Result Predicate) (rest : List CompiledRule) (more : List Effect)
      → compile x r.condition (codes "condition") ≡ o
      → fire_rules w tenant_id collection ev x rest ≡ more
      → fire_rules w tenant_id collection ev x (compiled_or_skipped r o rest) ≡ (
          if is_ok o && holds x r.condition (to_eval_event ev)
          then fire_all w tenant_id collection ev r.id r.name r.actions ++ more
          else more)
  unfolding fire_rules
  fire_rules-compiled r (ok p) rest more h on =
      rw (compile-holds x (to_eval_event ev) r.condition (codes "condition") p h) (rw on refl)
  fire_rules-compiled r (err e) rest more h on = on

  -- The compiled rules fire what the rules ask for.
  pub fire_rules-expected :
      (rs : List Rule) → fire_rules w tenant_id collection ev x (compile_enabled x rs) ≡ expected rs
  unfolding compile_enabled expected fire_rules
  fire_rules-expected [] = refl
  fire_rules-expected (r ∷ rest) =
      let on = fire_rules-expected rest in
      let one =
        fire_rules-compiled r (compile x r.condition (codes "condition")) (compile_enabled x rest)
          (expected rest) refl on in
      elim (Bool-cases r.enabled) [ inl enabled ↦ rw enabled one | inr disabled ↦ rw disabled on ]
