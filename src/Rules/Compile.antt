-- ===== src/Rules/Compile.antt =====
-- internal/rules/compile.go: Compile and the functions that it calls. `path` tells where a node is.
use letopis.Prelude.{
  ℕ, suc, Str, str_eq, codes, Bool, true, false, Option, none, some, List, [], ◌∷◌, ◌++◌, map,
  if◌then◌else◌, ◌&&◌,
}
use letopis.Json.{Value, bool, num, int, int64, str, arr}
use letopis.Json.Slice.{to_list}
use letopis.Diff.Model
use letopis.Diff.Text.{split, itoa, format_int}
use letopis.Rules.Model.{
  Op, Field, ChangeOp, only, Match, Condition, node, Conditions, nil, empty, more, Negated, absent,
  negated, Result, ok, err, ◌>>=◌, Externals, Predicate, all_pred, any_pred, not_pred, eq_pred,
  ne_pred, in_pred, num_pred, regex_pred, exists_pred, match_pred, Predicates, none_left, one_more,
}

pub data CondKind : Type 0 where
  scalar all any not_kind match_kind : CondKind

abbrev pub rule_error {ℓ} : {A : Type ℓ} → Str → Str → Result A
rule_error f r = err (record { field = f; reason = r })

abbrev pub is_nil : Conditions → Bool
is_nil nil = true
is_nil _ = false

abbrev pub is_absent : Negated → Bool
is_absent absent = true
is_absent (negated c) = false

abbrev pub no_match : Option Match → Bool
no_match none = true
no_match (some m) = false

abbrev pub unset_field : Field → Bool
unset_field Field.unset = true
unset_field _ = false

abbrev pub unset_op : Op → Bool
unset_op Op.unset = true
unset_op _ = false

-- `c.Field != "" || c.Op != ""` is the negation.
abbrev pub no_scalar : Field → Op → Bool
no_scalar field op = unset_field field && unset_op op

-- one `append` of classify, with its condition negated
abbrev pub unless : Bool → CondKind → List CondKind
unless true k = []
unless false k = k ∷ []

abbrev pub single_kind : Str → List CondKind → Result CondKind
single_kind path [] =
    rule_error path (codes "empty condition: set one of all/any/not/match or field+op")
single_kind path (k ∷ []) = ok k
single_kind path (k ∷ l ∷ ks) =
    rule_error path
      (codes "ambiguous condition: set exactly one of all/any/not/match or a scalar field")

unfoldable pub classify :
    Conditions → Conditions → Negated → Field → Op → Option Match → Str → Result CondKind
classify all_of any_of inner field op m path = single_kind path (
    unless (is_nil all_of) all
    ++ (unless (is_nil any_of) any
        ++ (unless (is_absent inner) not_kind
            ++ (unless (no_match m) match_kind ++ unless (no_scalar field op) scalar))))

unfoldable pub valid_field : Field → Bool
valid_field Field.unset = false
valid_field (Field.other f) = false
valid_field _ = true

-- the text of a field that is not valid
abbrev pub field_text : Field → Str
field_text (Field.other f) = f
field_text _ = []

module _ (x : Externals) where
  unfoldable pub to_str : Value → Str
  unfolding format_int
  to_str (str t) = t
  to_str (bool true) = codes "true"
  to_str (bool false) = codes "false"
  to_str (num t) = x.format_float t
  to_str (int t) = format_int t
  to_str (int64 t) = format_int t
  to_str _ = []

  unfoldable pub to_float : Value → Option ℕ
  to_float (num t) = some t
  to_float (int t) = some (x.of_int t)
  to_float (int64 t) = some (x.of_int t)
  to_float (str t) = x.parse_float t
  to_float _ = none

  abbrev pub numeric : Field → Op → Str → Option ℕ → Result Predicate
  numeric field op path (some n) = ok (num_pred field op n)
  numeric field op path none = rule_error path (codes "value must be numeric")

  abbrev pub in_values : Field → Str → Value → Result Predicate
  in_values field path (arr vs) = ok (in_pred field (map to_str (to_list vs)))
  in_values field path _ = rule_error (path ++ codes ".in") (codes "value must be a list")

  abbrev pub with_regex : Field → Str → Str → Option (Str → Bool) → Result Predicate
  with_regex field s path (some re) = ok (regex_pred field re)
  with_regex field s path none =
      rule_error (path ++ codes ".regex") (codes "invalid pattern: " ++ x.regex_error s)

  abbrev pub regex_value : Field → Str → Value → Result Predicate
  regex_value field path (str s) = with_regex field s path (x.compile_regex s)
  regex_value field path _ = rule_error (path ++ codes ".regex") (codes "value must be a string")

  -- the switch of compileScalar
  unfoldable pub compile_op : Field → Op → Value → Str → Result Predicate
  unfolding to_str to_float
  compile_op field Op.eq v path = ok (eq_pred field (to_str v))
  compile_op field Op.ne v path = ok (ne_pred field (to_str v))
  compile_op field Op.in_list v path = in_values field path v
  compile_op field Op.gt v path = numeric field Op.gt (path ++ codes ".gt") (to_float v)
  compile_op field Op.gte v path = numeric field Op.gte (path ++ codes ".gte") (to_float v)
  compile_op field Op.lt v path = numeric field Op.lt (path ++ codes ".lt") (to_float v)
  compile_op field Op.lte v path = numeric field Op.lte (path ++ codes ".lte") (to_float v)
  compile_op field Op.regex v path = regex_value field path v
  compile_op field Op.exists v path = ok (exists_pred field)
  compile_op field Op.unset v path = rule_error (path ++ codes ".op") (codes "unknown operator ")
  compile_op field (Op.other o) v path =
      rule_error (path ++ codes ".op") (codes "unknown operator " ++ o)

  unfoldable pub compile_scalar : Field → Op → Value → Str → Result Predicate
  unfolding compile_op valid_field
  compile_scalar field op v path =
      if valid_field field
      then compile_op field op v path
      else rule_error (path ++ codes ".field") (codes "unknown field " ++ field_text field)

  abbrev pub has_empty : List Str → Bool
  has_empty [] = false
  has_empty (s ∷ ss) = if str_eq s [] then true else has_empty ss

  unfoldable pub compile_glob : Str → Str → Result (List Str)
  unfolding split
  compile_glob [] path = ok []
  compile_glob (c ∷ cs) path =
      let pieces = split b'.' (c ∷ cs) in
      if has_empty pieces
      then rule_error path (codes "empty path segment in glob " ++ x.quote (c ∷ cs))
      else ok pieces

  abbrev pub known_change_op : ChangeOp → Bool
  known_change_op (only (Model.Op.other o)) = false
  known_change_op _ = true

  abbrev pub change_op_text : ChangeOp → Str
  change_op_text (only (Model.Op.other o)) = o
  change_op_text _ = []

  unfoldable pub compile_match : Match → Str → Result Predicate
  unfolding compile_glob
  compile_match m path = do
    pieces ← compile_glob m.path (path ++ codes ".path")
    if known_change_op m.op
        then ok (match_pred pieces m)
        else rule_error (path ++ codes ".op") (codes "unknown change op " ++ change_op_text m.op)

  -- the node, once its kind is known and the parts are compiled
  abbrev pub compile_optional : Option Match → Str → Result Predicate
  compile_optional none path = rule_error path []
  compile_optional (some m) path = compile_match m (path ++ codes ".match")

  abbrev pub element_path : Str → ℕ → Str
  element_path path i = path ++ b'[' ∷ (itoa i ++ b']' ∷ [])

  -- the switch of compile, over what each of its cases gives
  abbrev pub compile_kind :
      CondKind
      → Result Predicates
      → Result Predicates
      → Result Predicate
      → Result Predicate
      → Result Predicate
      → Result Predicate
  compile_kind all every some_of inner matched leaf = every >>= λ ps. ok (all_pred ps)
  compile_kind any every some_of inner matched leaf = some_of >>= λ ps. ok (any_pred ps)
  compile_kind not_kind every some_of inner matched leaf = inner
  compile_kind match_kind every some_of inner matched leaf = matched
  compile_kind scalar every some_of inner matched leaf = leaf

  unfoldable mutual
    pub compile : Condition → Str → Result Predicate
    compile (node all_of any_of inner field op value m) path =
        classify all_of any_of inner field op m path >>= λ kind.
        compile_kind kind (compile_list all_of (path ++ codes ".all") 0)
          (compile_list any_of (path ++ codes ".any") 0)
          (compile_negated inner (path ++ codes ".not")) (compile_optional m path)
          (compile_scalar field op value path)

    pub compile_list : Conditions → Str → ℕ → Result Predicates
    compile_list nil path i = ok none_left
    compile_list empty path i = ok none_left
    compile_list (more c cs) path i = compile c (element_path path i) >>= λ p.
        compile_list cs path (suc i) >>= λ ps. ok (one_more p ps)

    pub compile_negated : Negated → Str → Result Predicate
    compile_negated absent path = rule_error path []
    compile_negated (negated c) path = compile c path >>= λ p. ok (not_pred p)
