-- ===== src/Rules/Runnable.antt =====
-- internal/rules/validate.go: what a rule that passes ValidateRule is good for.
use letopis.Prelude.{
  ◌≡◌, refl, ◌≢◌, ℕ, suc, Str, codes, Bool, true, false, Option, none, some, List, [], ◌∷◌, ◌++◌,
  arith, if◌then◌else◌,
}
use letopis.Prelude.Int.{is_neg}
use letopis.Rules.Model.{
  Externals, ActionType, Webhook, Action, Rule, EvalEvent, Predicate, Result, ok, err, RuleError,
}
use letopis.Rules.Compile.{compile}
use letopis.Rules.Eval.{eval}
use letopis.Rules.Meaning.{holds}
use letopis.Rules.Leaves.{ok-bind}
use letopis.Rules.Refinement.{compile-holds}
use letopis.Rules.Validate
use letopis.Rules.Validate.{
  is_blank, check_webhook, validate_webhook, action_path, validate_action, validate_each,
  validate_actions, validate_rule,
}

-- A webhook can be delivered: it has a URL, and neither its timeout nor its attempts are negative.
abbrev pub IsDeliverable : Option Webhook → Type 0
IsDeliverable none = ⊥
IsDeliverable (some w) =
    is_blank w.url ≡ false × is_neg w.timeout_ms ≡ false × is_neg w.retry.max_attempts ≡ false

abbrev pub IsOfKind : ActionType → Option Webhook → Type 0
IsOfKind ActionType.webhook w = IsDeliverable w
IsOfKind ActionType.log w = Unit {0}
IsOfKind (ActionType.other t) w = ⊥

abbrev pub IsAction : Action → Type 0
IsAction a = IsOfKind a.kind a.webhook

abbrev pub AreActions : List Action → Type 0
AreActions [] = Unit {0}
AreActions (a ∷ rest) = IsAction a × AreActions rest

-- The condition compiles, and what it compiles to tells of every event what the condition means.
abbrev pub IsRunnable : Externals → Rule → Type 0
IsRunnable x r =
    is_blank r.name ≡ false
    × r.actions ≢ []
    × AreActions r.actions
    × ((p : Predicate) × (compile x r.condition (codes "condition") ≡ ok p
          × ((e : EvalEvent) → eval x p e ≡ holds x r.condition e)))

validate_webhook-IsDeliverable :
    (w : Option Webhook) (path : Str) → validate_webhook w path ≡ ok tt → IsDeliverable w
unfolding validate_webhook check_webhook
validate_webhook-IsDeliverable none path h = cc
validate_webhook-IsDeliverable (some w) path h = ground arith

guarded :
    (t : Bool) (e : RuleError) (r : Result (Unit {0}))
    → (if t then err e else r) ≡ ok tt
    → t ≡ false × r ≡ ok tt
guarded true e r h = cc
guarded false e r h = (refl, h)

module _ (x : Externals) where
  validate_kind-IsOfKind :
      (k : ActionType) (w : Option Webhook) (path : Str)
      → Validate.validate_kind x k w path ≡ ok tt
      → IsOfKind k w
  validate_kind-IsOfKind ActionType.webhook w path h =
      validate_webhook-IsDeliverable w (path ++ codes ".webhook") h
  validate_kind-IsOfKind ActionType.log w path h = tt
  validate_kind-IsOfKind (ActionType.other t) w path h = cc

  validate_action-IsAction :
      (a : Action) (path : Str) → validate_action x a path ≡ ok tt → IsAction a
  unfolding validate_action
  validate_action-IsAction a path h = validate_kind-IsOfKind a.kind a.webhook path h

  validate_each-AreActions :
      (rest : List Action) (i : ℕ) → validate_each x rest i ≡ ok tt → AreActions rest
  unfolding validate_each
  validate_each-AreActions [] i h = tt
  validate_each-AreActions (a ∷ rest) i h =
      let first = ok-bind (validate_action x a (action_path i)) _ tt h in
      (
        validate_action-IsAction a (action_path i) first.1.0,
        validate_each-AreActions rest (suc i) first.1.1,
      )

  validate_actions-AreActions :
      (rest : List Action) → validate_actions x rest ≡ ok tt → (rest ≢ []) × AreActions rest
  unfolding validate_actions
  validate_actions-AreActions [] h = cc
  validate_actions-AreActions (a ∷ rest) h = ((λ n. cc), validate_each-AreActions (a ∷ rest) 0 h)

  -- A rule that passes validation has a name and at least one action, each of its webhooks can be
  -- delivered, and its condition compiles to a predicate that tells of every event what the
  -- condition means.
  pub validate_rule-IsRunnable : (r : Rule) → validate_rule x r ≡ ok tt → IsRunnable x r
  unfolding validate_rule
  validate_rule-IsRunnable r h =
      let named = guarded (is_blank r.name) _ _ h in
      let compiled = ok-bind (compile x r.condition (codes "condition")) _ tt named.1 in
      let acts = validate_actions-AreActions r.actions compiled.1.1 in
      (
        named.0,
        acts.0,
        acts.1,
        (
          compiled.0,
          (
            compiled.1.0,
            λ e. compile-holds x e r.condition (codes "condition") compiled.0 compiled.1.0,
          ),
        ),
      )
