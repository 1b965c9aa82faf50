-- ===== src/Rules/Meaning.antt =====
-- What a condition means for an event, read off the tree without compiling it, and the evaluator
-- of internal/rules/compile.go measured against it.
use letopis.Prelude.{
  ℕ, Str, str_eq, Bool, true, false, not, ◌&&◌, Option, none, some, List, [], ◌∷◌, map,
  if◌then◌else◌,
}
use letopis.Json.{Value, str, arr}
use letopis.Json.Slice.{to_list}
use letopis.Diff.Text.{split}
use letopis.Diff.Compute.{contains}
use letopis.Rules.Model.{
  Op, Match, Condition, node, Conditions, nil, empty, more, Negated, absent, negated, Externals,
  EvalEvent,
}
use letopis.Rules.Compile.{is_nil, no_scalar, to_str, to_float}
use letopis.Rules.Eval.{scalar_field, present, some_change, compare_value}

-- the segments of a glob
abbrev pub glob_parts : Str → List Str
glob_parts [] = []
glob_parts (c ∷ cs) = split b'.' (c ∷ cs)

module _ (x : Externals) where
  abbrev pub value_in : Str → Value → Bool
  value_in v (arr vs) = present v && contains (map (to_str x) (to_list vs)) v
  value_in v _ = false

  abbrev pub value_ordered : Op → Str → Option ℕ → Bool
  value_ordered op v (some n) = compare_value x op n (x.parse_float v)
  value_ordered op v none = false

  abbrev pub matches : Option (Str → Bool) → Str → Bool
  matches (some re) v = present v && re v
  matches none v = false

  abbrev pub value_matches : Str → Value → Bool
  value_matches v (str s) = matches (x.compile_regex s) v
  value_matches v _ = false

  -- a field's value against the operator and the operand of a scalar leaf
  unfoldable pub scalar_holds : Op → Str → Value → Bool
  unfolding to_str to_float
  scalar_holds Op.eq v o = present v && str_eq v (to_str x o)
  scalar_holds Op.ne v o = not (str_eq v (to_str x o))
  scalar_holds Op.in_list v o = value_in v o
  scalar_holds Op.gt v o = value_ordered Op.gt v (to_float x o)
  scalar_holds Op.gte v o = value_ordered Op.gte v (to_float x o)
  scalar_holds Op.lt v o = value_ordered Op.lt v (to_float x o)
  scalar_holds Op.lte v o = value_ordered Op.lte v (to_float x o)
  scalar_holds Op.regex v o = value_matches v o
  scalar_holds Op.exists v o = present v
  scalar_holds _ v o = false

  abbrev pub match_holds : Option Match → EvalEvent → Bool
  match_holds none e = true
  match_holds (some m) e = some_change (glob_parts m.path) m e.changes

  -- Every part of a node that is set has to hold.
  unfoldable mutual
    pub holds : Condition → EvalEvent → Bool
    holds (node all_of any_of inner field op v m) e =
        let every = all_hold all_of e in
        let one = if is_nil any_of then true else some_holds any_of e in
        let other_way = negated_holds inner e in
        let leaf = if no_scalar field op then true else scalar_holds op (scalar_field e field) v in
        every && (one && (other_way && (match_holds m e && leaf)))

    pub all_hold : Conditions → EvalEvent → Bool
    all_hold nil e = true
    all_hold empty e = true
    all_hold (more c cs) e = let rest = all_hold cs e in holds c e && rest

    pub some_holds : Conditions → EvalEvent → Bool
    some_holds nil e = false
    some_holds empty e = false
    some_holds (more c cs) e = let rest = some_holds cs e in if holds c e then true else rest

    pub negated_holds : Negated → EvalEvent → Bool
    negated_holds absent e = true
    negated_holds (negated c) e = not (holds c e)
