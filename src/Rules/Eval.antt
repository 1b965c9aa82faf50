-- ===== src/Rules/Eval.antt =====
-- internal/rules/compile.go: the evaluation of a compiled condition.
use letopis.Prelude.{
  ℕ, Str, str_eq, codes, Bool, true, false, not, ◌&&◌, Option, none, some, List, [], ◌∷◌,
  if◌then◌else◌,
}
use letopis.Json.{json_equal}
use letopis.Diff.Model
use letopis.Diff.Model.{Change}
use letopis.Diff.Text.{split}
use letopis.Rules.Model.{
  Op, Field, ChangeOp, any_op, only, Match, EvalEvent, Externals, Predicate, all_pred, any_pred,
  not_pred, eq_pred, ne_pred, in_pred, num_pred, regex_pred, exists_pred, match_pred, Predicates,
  none_left, one_more,
}
use letopis.Diff.Compute.{contains}

-- the value of a field; the empty string counts as absent
unfoldable pub scalar_field : EvalEvent → Field → Str
scalar_field e Field.op = e.op
scalar_field e Field.entity_id = e.entity_id
scalar_field e Field.author_id = e.author
scalar_field e Field.source = e.source
scalar_field e _ = []

abbrev pub present : Str → Bool
present [] = false
present (c ∷ cs) = true

-- one segment: `*` stands for any
abbrev pub glob_segment : Str → Str → Bool
glob_segment s part = if str_eq s (codes "*") then true else str_eq s part

-- the loop of globMatch, on as many segments as parts
unfoldable pub glob_segments : List Str → List Str → Bool
glob_segments [] [] = true
glob_segments (s ∷ ss) (p ∷ ps) = if glob_segment s p then glob_segments ss ps else false
glob_segments _ _ = false

abbrev pub no_segments : List Str → Bool
no_segments [] = true
no_segments (s ∷ ss) = false

unfoldable pub glob_match : List Str → Str → Bool
unfolding glob_segments split
glob_match segs [] = no_segments segs
glob_match segs (c ∷ cs) = glob_segments segs (split b'.' (c ∷ cs))

abbrev pub same_op : Model.Op → Model.Op → Bool
same_op Model.Op.add Model.Op.add = true
same_op Model.Op.change Model.Op.change = true
same_op Model.Op.remove Model.Op.remove = true
same_op (Model.Op.other a) (Model.Op.other b) = str_eq a b
same_op _ _ = false

abbrev pub op_fits : ChangeOp → Model.Op → Bool
op_fits any_op o = true
op_fits (only k) o = same_op o k

-- one change against the criteria of a match, in the order of the source
unfoldable pub change_fits : List Str → Match → Change → Bool
unfolding glob_match json_equal
change_fits segs m ch =
    if op_fits m.op ch.op
    then (if glob_match segs ch.path
        then (if m.has_old && not (json_equal ch.old m.old)
            then false
            else if m.has_new && not (json_equal ch.new m.new)
            then false
            else true)
        else false)
    else false

unfoldable pub some_change : List Str → Match → List Change → Bool
unfolding change_fits
some_change segs m [] = false
some_change segs m (ch ∷ chs) = if change_fits segs m ch then true else some_change segs m chs

module _ (x : Externals) where
  unfoldable pub compare_num : Op → ℕ → ℕ → Bool
  compare_num Op.gt a b = x.float_lt b a
  compare_num Op.gte a b = x.float_le b a
  compare_num Op.lt a b = x.float_lt a b
  compare_num Op.lte a b = x.float_le a b
  compare_num _ a b = false

  abbrev pub compare_value : Op → ℕ → Option ℕ → Bool
  compare_value op n none = false
  compare_value op n (some v) = compare_num op v n

  unfoldable mutual
    pub eval : Predicate → EvalEvent → Bool
    eval (all_pred ps) e = eval_all ps e
    eval (any_pred ps) e = eval_any ps e
    eval (not_pred p) e = not (eval p e)
    eval (eq_pred f s) e = present (scalar_field e f) && str_eq (scalar_field e f) s
    eval (ne_pred f s) e = not (str_eq (scalar_field e f) s)
    eval (in_pred f ss) e = present (scalar_field e f) && contains ss (scalar_field e f)
    eval (num_pred f op n) e = compare_value op n (x.parse_float (scalar_field e f))
    eval (regex_pred f re) e = present (scalar_field e f) && re (scalar_field e f)
    eval (exists_pred f) e = present (scalar_field e f)
    eval (match_pred segs m) e = some_change segs m e.changes

    pub eval_all : Predicates → EvalEvent → Bool
    eval_all none_left e = true
    eval_all (one_more p ps) e = let rest = eval_all ps e in if eval p e then rest else false

    pub eval_any : Predicates → EvalEvent → Bool
    eval_any none_left e = false
    eval_any (one_more p ps) e = let rest = eval_any ps e in if eval p e then true else rest
