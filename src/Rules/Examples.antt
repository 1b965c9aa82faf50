-- ===== src/Rules/Examples.antt =====
-- The rules of internal/rules on a concrete rule and a concrete event.
use letopis.Prelude.{◌≡◌, refl, str_eq, codes, true, false, none, some, [], ◌∷◌}
use letopis.Prelude.Int.{pos}
use letopis.Json.{Value, null, num, str}
use letopis.Diff.Model
use letopis.Diff.Model.{Change}
use letopis.Rules.Model.{
  ok, Op, Field, only, Match, Condition, node, nil, empty, more, absent, negated, Predicate,
  all_pred, not_pred, eq_pred, match_pred, none_left, one_more, EvalEvent, ActionType, Rule,
}
use letopis.Rules.Sample.{externals}
use letopis.Rules.Compile.{compile, classify, compile_scalar, compile_match}
use letopis.Rules.Eval.{eval, scalar_field, some_change}
use letopis.Rules.Meaning.{holds, scalar_holds}
use letopis.Rules.Refinement.{compile-holds}
use letopis.Rules.Validate.{validate_rule}

abbrev leaf : Field → Op → Value → Condition
leaf field op v = node nil nil absent field op v none

abbrev price_change : Match
price_change = record {
  path = codes "items.*.price";
  op = only Model.Op.change;
  old = null;
  new = num 7;
  has_old = false;
  has_new = true;
}

abbrev match_leaf : Condition
match_leaf = node nil nil absent Field.unset Op.unset null (some price_change)

abbrev from_crm : Condition
from_crm = leaf Field.source Op.eq (str (codes "crm"))

abbrev not_deleted : Condition
not_deleted =
    node nil nil (negated (leaf Field.op Op.eq (str (codes "delete")))) Field.unset Op.unset null
      none

-- every part holds: the source, the operation and the change of a price
abbrev condition : Condition
condition =
    node (more from_crm (more not_deleted (more match_leaf nil))) nil absent Field.unset Op.unset
      null none

abbrev predicate : Predicate
predicate = all_pred (
    one_more (eq_pred Field.source (codes "crm")) (
      one_more (not_pred (eq_pred Field.op (codes "delete"))) (
        one_more (match_pred (codes "items" ∷ codes "*" ∷ codes "price" ∷ []) price_change)
          none_left)))

abbrev event : EvalEvent
event = record {
  op = codes "update";
  entity_id = codes "order-1";
  author = codes "ann";
  source = codes "crm";
  changes =
      record { path = codes "items.0.price"; op = Model.Op.change; old = num 5; new = num 7 } ∷ [];
}

matching_event : holds externals condition event ≡ true
unfolding holds scalar_holds scalar_field str_eq some_change
matching_event = refl

compile-holds_example : eval externals predicate event ≡ holds externals condition event
unfolding compile classify compile_scalar compile_match str_eq
compile-holds_example = compile-holds externals event condition (codes "condition") predicate refl

-- an empty list of alternatives is false, an ambiguous node is refused
no_alternative :
    holds externals (node nil empty absent Field.unset Op.unset null none) event ≡ false
unfolding holds
no_alternative = refl

abbrev rule : Rule
rule = record {
  id = codes "r1";
  name = codes "prices";
  enabled = true;
  condition = condition;
  actions =
      record {
        kind = ActionType.webhook;
        webhook = some (record {
          url = codes "https://example.org";
          secret_ref = [];
          timeout_ms = pos 500;
          retry = record { max_attempts = pos 3; backoff = [] };
        });
        log = none;
        params = [];
      }
      ∷ [];
  version = pos 1;
  updated_at = 0;
}

validates_rule : validate_rule externals rule ≡ ok tt
unfolding validate_rule classify compile_scalar compile_match str_eq
validates_rule = refl
