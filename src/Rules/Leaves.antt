-- ===== src/Rules/Leaves.antt =====
-- internal/rules/compile.go: the leaves of a condition, compiled and evaluated.
use letopis.Prelude.{
  ◌≡◌, refl, sym, ap, subst, ℕ, Str, codes, Bool, true, false, ◌&&◌, Option, none, some, List, [],
  ◌∷◌, ◌++◌, if◌then◌else◌, arith,
}
use letopis.Json.{Value, null, bool, num, int, int64, str, arr, obj}
use letopis.Rules.Model.{
  Op, Field, Match, Conditions, nil, empty, more, Negated, absent, negated, Result, ok, err, ◌>>=◌,
  Externals, Predicate, EvalEvent, RuleError, match_pred,
}
use letopis.Rules.Compile
use letopis.Rules.Compile.{
  CondKind, scalar, all, any, not_kind, match_kind, classify, single_kind, unless, is_nil,
  is_absent, no_match, no_scalar, compile, compile_list, compile_negated, to_str, to_float,
  compile_op, compile_match, compile_scalar, valid_field, compile_glob,
}
use letopis.Rules.Eval.{scalar_field, some_change, eval}
use letopis.Rules.Meaning.{
  glob_parts, value_in, value_ordered, matches, value_matches, scalar_holds, match_holds, all_hold,
  negated_holds,
}

pub ok-injective : {A : Type 0} {a b : A} → ok a ≡ ok b → a ≡ b
ok-injective h = cc

-- the two steps of a result that is fine
pub ok-bind :
    {A B : Type 0} (r : Result A) (f : A → Result B) (b : B)
    → (r >>= f) ≡ ok b
    → (a : A) × (r ≡ ok a × f a ≡ ok b)
ok-bind (ok a) f b h = (a, (refl, h))
ok-bind (err e) f b h = cc

pub ok-if :
    {A : Type 0} (t : Bool) (a : A) (other : RuleError) (b : A)
    → (if t then ok a else err other) ≡ ok b
    → a ≡ b
ok-if true a other b h = ok-injective h
ok-if false a other b h = cc

pub ok-guard :
    {A : Type 0} (t : Bool) (r : Result A) (other : RuleError) (b : A)
    → (if t then r else err other) ≡ ok b
    → r ≡ ok b
ok-guard true r other b h = h
ok-guard false r other b h = cc

pub if-both :
    (b c r s t u : Bool)
    → b ≡ c
    → r ≡ s
    → t ≡ u
    → (if b then r else false) ≡ c && s × (if b then true else t) ≡ (if c then true else u)
if-both b c r s t u bc rs tu = ground arith

module _ (x : Externals) (e : EvalEvent) where
  pub numeric-ordered :
      (field : Field) (op : Op) (path : Str) (n : Option ℕ) (p : Predicate)
      → Compile.numeric x field op path n ≡ ok p
      → eval x p e ≡ value_ordered x op (scalar_field e field) n
  unfolding eval
  numeric-ordered field op path none p h = cc
  numeric-ordered field op path (some n) p h =
      subst (λ q. eval x q e ≡ value_ordered x op (scalar_field e field) (some n)) (ok-injective h)
        refl

  pub in_values-value_in :
      (field : Field) (path : Str) (v : Value) (p : Predicate)
      → Compile.in_values x field path v ≡ ok p
      → eval x p e ≡ value_in x (scalar_field e field) v
  unfolding eval
  in_values-value_in field path null p h = cc
  in_values-value_in field path (bool b) p h = cc
  in_values-value_in field path (num n) p h = cc
  in_values-value_in field path (int n) p h = cc
  in_values-value_in field path (int64 n) p h = cc
  in_values-value_in field path (str s) p h = cc
  in_values-value_in field path (arr vs) p h =
      subst (λ q. eval x q e ≡ value_in x (scalar_field e field) (arr vs)) (ok-injective h) refl
  in_values-value_in field path (obj fs) p h = cc

  pub with_regex-matches :
      (field : Field) (s path : Str) (re : Option (Str → Bool)) (p : Predicate)
      → Compile.with_regex x field s path re ≡ ok p
      → eval x p e ≡ matches x re (scalar_field e field)
  unfolding eval
  with_regex-matches field s path none p h = cc
  with_regex-matches field s path (some re) p h =
      subst (λ q. eval x q e ≡ matches x (some re) (scalar_field e field)) (ok-injective h) refl

  pub regex-value_matches :
      (field : Field) (path : Str) (v : Value) (p : Predicate)
      → Compile.regex_value x field path v ≡ ok p
      → eval x p e ≡ value_matches x (scalar_field e field) v
  unfolding eval
  regex-value_matches field path null p h = cc
  regex-value_matches field path (bool b) p h = cc
  regex-value_matches field path (num n) p h = cc
  regex-value_matches field path (int n) p h = cc
  regex-value_matches field path (int64 n) p h = cc
  regex-value_matches field path (str s) p h =
      with_regex-matches field s path (x.compile_regex s) p h
  regex-value_matches field path (arr vs) p h = cc
  regex-value_matches field path (obj fs) p h = cc

  pub compile_op-holds :
      (field : Field) (op : Op) (v : Value) (path : Str) (p : Predicate)
      → Compile.compile_op x field op v path ≡ ok p
      → eval x p e ≡ scalar_holds x op (scalar_field e field) v
  unfolding eval scalar_holds compile_op
  compile_op-holds field Op.eq v path p h =
      subst (λ q. eval x q e ≡ scalar_holds x Op.eq (scalar_field e field) v) (ok-injective h) refl
  compile_op-holds field Op.ne v path p h =
      subst (λ q. eval x q e ≡ scalar_holds x Op.ne (scalar_field e field) v) (ok-injective h) refl
  compile_op-holds field Op.exists v path p h =
      subst (λ q. eval x q e ≡ scalar_holds x Op.exists (scalar_field e field) v) (ok-injective h)
        refl
  compile_op-holds field Op.in_list v path p h = in_values-value_in field path v p h
  compile_op-holds field Op.gt v path p h =
      numeric-ordered field Op.gt (path ++ codes ".gt") (to_float x v) p h
  compile_op-holds field Op.gte v path p h =
      numeric-ordered field Op.gte (path ++ codes ".gte") (to_float x v) p h
  compile_op-holds field Op.lt v path p h =
      numeric-ordered field Op.lt (path ++ codes ".lt") (to_float x v) p h
  compile_op-holds field Op.lte v path p h =
      numeric-ordered field Op.lte (path ++ codes ".lte") (to_float x v) p h
  compile_op-holds field Op.regex v path p h = regex-value_matches field path v p h
  compile_op-holds field Op.unset v path p h = cc
  compile_op-holds field (Op.other o) v path p h = cc

  pub compile_glob-parts :
      (g path : Str) (ps : List Str) → compile_glob x g path ≡ ok ps → ps ≡ glob_parts g
  unfolding compile_glob
  compile_glob-parts [] path ps h = sym (ok-injective h)
  compile_glob-parts (c ∷ cs) path ps h = ground arith

  pub compile_match-holds :
      (m : Match) (path : Str) (p : Predicate)
      → Compile.compile_match x m path ≡ ok p
      → eval x p e ≡ some_change (glob_parts m.path) m e.changes
  unfolding eval compile_match
  compile_match-holds m path p h =
      let glob = ok-bind (compile_glob x m.path (path ++ codes ".path")) _ p h in
      let parts = compile_glob-parts m.path (path ++ codes ".path") glob.0 glob.1.0 in
      let node = ok-if (Compile.known_change_op x m.op) (match_pred glob.0 m) _ p glob.1.1 in
      subst (λ q. eval x q e ≡ some_change (glob_parts m.path) m e.changes) node
        (ap (λ ps. some_change ps m e.changes) parts)

  pub compile_optional-holds :
      (m : Option Match) (path : Str) (p : Predicate)
      → Compile.compile_optional x m path ≡ ok p
      → eval x p e ≡ match_holds x m e
  compile_optional-holds none path p h = cc
  compile_optional-holds (some m) path p h = compile_match-holds m (path ++ codes ".match") p h

  pub compile_scalar-holds :
      (field : Field) (op : Op) (v : Value) (path : Str) (p : Predicate)
      → compile_scalar x field op v path ≡ ok p
      → eval x p e ≡ scalar_holds x op (scalar_field e field) v
  unfolding compile_scalar
  compile_scalar-holds field op v path p h =
      compile_op-holds field op v path p (ok-guard (valid_field field) _ _ p h)

  pub all_hold-nil : (cs : Conditions) → is_nil cs ≡ true → all_hold x cs e ≡ true
  unfolding all_hold
  all_hold-nil nil n = refl
  all_hold-nil empty n = cc
  all_hold-nil (more c cs) n = cc

  pub negated_holds-absent : (n : Negated) → is_absent n ≡ true → negated_holds x n e ≡ true
  unfolding negated_holds
  negated_holds-absent absent n = refl
  negated_holds-absent (negated c) n = cc

  pub match_holds-none : (m : Option Match) → no_match m ≡ true → match_holds x m e ≡ true
  match_holds-none none n = refl
  match_holds-none (some m) n = cc
