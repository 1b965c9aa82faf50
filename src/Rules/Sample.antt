-- ===== src/Rules/Sample.antt =====
-- Libraries and rules for the tests.
use letopis.Prelude.{Str, str_eq, Bool, false, none, some, [], ◌∷◌}
use letopis.Prelude.Int.{pos}
use letopis.Json.{str}
use letopis.Rules.Model.{Op, Field, node, nil, absent, Externals, ActionType, Action, Rule}

-- Libraries whose only numbers and patterns are those of no text at all.
abbrev pub externals : Externals
externals = record {
  format_float = λ n. [];
  parse_float = λ s. none;
  of_int = λ n. 0;
  float_lt = λ a b. false;
  float_le = λ a b. false;
  compile_regex = λ s. some (λ t. str_eq s t);
  regex_error = λ s. [];
  quote = λ s. s;
}

abbrev pub log_action : Action
log_action = record { kind = ActionType.log; webhook = none; log = none; params = [] }

abbrev pub rule : Str → Bool → Str → Rule
rule id enabled source = record {
  id = id;
  name = id;
  enabled = enabled;
  condition = node nil nil absent Field.source Op.eq (str source) none;
  actions = log_action ∷ [];
  version = pos 1;
  updated_at = 0;
}
