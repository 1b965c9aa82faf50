-- ===== src/Rules/Validate.antt =====
-- internal/rules/validate.go: ValidateRule and the functions that it calls.
use letopis.Prelude.{
  ℕ, suc, Str, codes, Bool, true, false, Option, none, some, List, [], ◌∷◌, ◌++◌, if◌then◌else◌,
}
use letopis.Prelude.Int.{is_neg}
use letopis.Diff.Text.{itoa}
use letopis.Rules.Model.{Result, ok, ◌>>=◌, Externals, ActionType, Webhook, Action, Rule}
use letopis.Rules.Compile.{rule_error, compile}

-- the guards of validateWebhook behind its first one
unfoldable pub check_webhook : Webhook → Str → Result (Unit {0})
check_webhook w path =
    if is_neg w.timeout_ms
    then rule_error (path ++ codes ".timeout_ms") (codes "must not be negative")
    else if is_neg w.retry.max_attempts
    then rule_error (path ++ codes ".retry.max_attempts") (codes "must not be negative")
    else ok tt

abbrev pub is_blank : Str → Bool
is_blank [] = true
is_blank (c ∷ cs) = false

unfoldable pub validate_webhook : Option Webhook → Str → Result (Unit {0})
unfolding check_webhook
validate_webhook none path = rule_error (path ++ codes ".url") (codes "must not be empty")
validate_webhook (some w) path =
    if is_blank w.url
    then rule_error (path ++ codes ".url") (codes "must not be empty")
    else check_webhook w path

abbrev pub action_path : ℕ → Str
action_path i = codes "actions[" ++ (itoa i ++ codes "]")

module _ (x : Externals) where
  -- the switch on the type of an action
  abbrev pub validate_kind : ActionType → Option Webhook → Str → Result (Unit {0})
  validate_kind ActionType.webhook w path = validate_webhook w (path ++ codes ".webhook")
  validate_kind ActionType.log w path = ok tt
  validate_kind (ActionType.other t) w path =
      rule_error (path ++ codes ".type") (codes "unknown action type " ++ x.quote t)

  -- one action, the body of the loop
  unfoldable pub validate_action : Action → Str → Result (Unit {0})
  unfolding validate_webhook
  validate_action a path = validate_kind a.kind a.webhook path

  -- the loop, from the index of its first action
  unfoldable pub validate_each : List Action → ℕ → Result (Unit {0})
  unfolding validate_action
  validate_each [] i = ok tt
  validate_each (a ∷ rest) i = validate_action a (action_path i) >>= λ u. validate_each rest (suc i)

  unfoldable pub validate_actions : List Action → Result (Unit {0})
  unfolding validate_each
  validate_actions [] = rule_error (codes "actions") (codes "must not be empty")
  validate_actions (a ∷ rest) = validate_each (a ∷ rest) 0

  unfoldable pub validate_rule : Rule → Result (Unit {0})
  unfolding compile validate_actions
  validate_rule r =
      if is_blank r.name
      then rule_error (codes "name") (codes "must not be empty")
      else compile x r.condition (codes "condition") >>= λ p. validate_actions r.actions
