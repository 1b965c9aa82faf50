-- ===== src/Rules/Refinement.antt =====
-- internal/rules/compile.go: a compiled condition against its meaning.
use letopis.Prelude.{
  ◌≡◌, refl, sym, ap, ◌∙◌, subst, ℕ, suc, Str, codes, Bool, true, not, ◌&&◌, ◌++◌, if◌then◌else◌,
}
use letopis.Rules.Model.{
  Condition, node, Conditions, nil, empty, more, Negated, absent, negated, Result, ok, Externals,
  Predicate, Predicates, EvalEvent,
}
use letopis.Rules.Compile
use letopis.Rules.Compile.{
  CondKind, scalar, all, any, not_kind, match_kind, classify, single_kind, unless, is_nil,
  is_absent, no_match, no_scalar, compile, compile_list, compile_negated, to_str, to_float,
  compile_op, compile_match, compile_scalar, valid_field, compile_glob,
}
use letopis.Rules.Eval.{eval, eval_all, eval_any}
use letopis.Rules.Meaning.{holds, all_hold, some_holds, negated_holds}
use letopis.Rules.Kinds.{unset_parts, single_kind-parts, part_of-whole}
use letopis.Rules.Leaves.{
  ok-injective, ok-bind, if-both, compile_optional-holds, compile_scalar-holds, all_hold-nil,
  negated_holds-absent, match_holds-none,
}

module _ (x : Externals) (e : EvalEvent) where
  -- what a node means, from what its one set part means
  compile_kind-holds :
      (k : CondKind) (ra rb : Result Predicates) (rn rm rs : Result Predicate)
      (na nb ni nm ns every one inner matched leaf : Bool) (p : Predicate)
      → (na, nb, ni, nm, ns) ≡ unset_parts k
      → ((ps : Predicates) → ra ≡ ok ps → eval_all x ps e ≡ every)
      → ((ps : Predicates) → rb ≡ ok ps → eval_any x ps e ≡ one)
      → ((q : Predicate) → rn ≡ ok q → eval x q e ≡ inner)
      → ((q : Predicate) → rm ≡ ok q → eval x q e ≡ matched)
      → ((q : Predicate) → rs ≡ ok q → eval x q e ≡ leaf)
      → (na ≡ true → every ≡ true)
      → (ni ≡ true → inner ≡ true)
      → (nm ≡ true → matched ≡ true)
      → Compile.compile_kind x k ra rb rn rm rs ≡ ok p
      → eval x p e
        ≡ every
          && ((if nb then true else one) && (inner && (matched && (if ns then true else leaf))))
  unfolding eval
  compile_kind-holds all ra rb rn rm rs na nb ni nm ns every one inner matched leaf p parts fa fb fn
        fm fs ua un um h =
      let got = ok-bind ra _ p h in
      let g = ap (λ q. eval x q e) (sym (ok-injective got.1.1)) ∙ fa got.0 got.1.0 in
      g ∙ part_of-whole all na nb ni nm ns every one inner matched leaf parts ua un um
  compile_kind-holds any ra rb rn rm rs na nb ni nm ns every one inner matched leaf p parts fa fb fn
        fm fs ua un um h =
      let got = ok-bind rb _ p h in
      let g = ap (λ q. eval x q e) (sym (ok-injective got.1.1)) ∙ fb got.0 got.1.0 in
      g ∙ part_of-whole any na nb ni nm ns every one inner matched leaf parts ua un um
  compile_kind-holds not_kind ra rb rn rm rs na nb ni nm ns every one inner matched leaf p parts fa
        fb fn fm fs ua un um h =
      fn p h ∙ part_of-whole not_kind na nb ni nm ns every one inner matched leaf parts ua un um
  compile_kind-holds match_kind ra rb rn rm rs na nb ni nm ns every one inner matched leaf p parts
        fa fb fn fm fs ua un um h =
      fm p h ∙ part_of-whole match_kind na nb ni nm ns every one inner matched leaf parts ua un um
  compile_kind-holds scalar ra rb rn rm rs na nb ni nm ns every one inner matched leaf p parts fa fb
        fn fm fs ua un um h =
      fs p h ∙ part_of-whole scalar na nb ni nm ns every one inner matched leaf parts ua un um

  mutual
    unfolding compile compile_list compile_negated eval eval_all eval_any holds all_hold some_holds
        negated_holds classify

    compile_tree-holds :
        (c : Condition) (path : Str) (p : Predicate)
        → compile x c path ≡ ok p
        → eval x p e ≡ holds x c e
    compile_tree-holds (node as_ bs inner field op v m) path p h =
        let known = ok-bind (classify as_ bs inner field op m path) _ p h in
        let parts =
          single_kind-parts path (is_nil as_) (is_nil bs) (is_absent inner) (no_match m)
            (no_scalar field op) known.0 known.1.0 in
        compile_kind-holds known.0 _ _ _ _ _ _ _ _ _ _ _ _ _ _ _ p parts
          (λ ps g. (compile_list-holds as_ (path ++ codes ".all") 0 ps g).0)
          (λ ps g. (compile_list-holds bs (path ++ codes ".any") 0 ps g).1)
          (λ q g. compile_negated-holds inner (path ++ codes ".not") q g)
          (λ q g. compile_optional-holds x e m path q g)
          (λ q g. compile_scalar-holds x e field op v path q g) (λ n. all_hold-nil x e as_ n)
          (λ n. negated_holds-absent x e inner n) (λ n. match_holds-none x e m n) known.1.1

    compile_list-holds :
        (cs : Conditions) (path : Str) (i : ℕ) (ps : Predicates)
        → compile_list x cs path i ≡ ok ps
        → eval_all x ps e ≡ all_hold x cs e × eval_any x ps e ≡ some_holds x cs e
    compile_list-holds nil path i ps h =
        subst (λ q. eval_all x q e ≡ all_hold x nil e × eval_any x q e ≡ some_holds x nil e)
          (ok-injective h) (refl, refl)
    compile_list-holds empty path i ps h =
        subst (λ q. eval_all x q e ≡ all_hold x empty e × eval_any x q e ≡ some_holds x empty e)
          (ok-injective h) (refl, refl)
    compile_list-holds (more c cs) path i ps h =
        let first = ok-bind (compile x c (Compile.element_path x path i)) _ ps h in
        let later = ok-bind (compile_list x cs path (suc i)) _ ps first.1.1 in
        let here = compile_tree-holds c (Compile.element_path x path i) first.0 first.1.0 in
        let there = compile_list-holds cs path (suc i) later.0 later.1.0 in
        let whole = ok-injective later.1.1 in
        subst
          (λ q.
            eval_all x q e ≡ all_hold x (more c cs) e × eval_any x q e ≡ some_holds x (more c cs) e)
          whole (if-both (eval x first.0 e) (holds x c e) _ _ _ _ here there.0 there.1)

    compile_negated-holds :
        (n : Negated) (path : Str) (p : Predicate)
        → compile_negated x n path ≡ ok p
        → eval x p e ≡ negated_holds x n e
    compile_negated-holds absent path p h = cc
    compile_negated-holds (negated c) path p h =
        let inner = ok-bind (compile x c path) _ p h in
        subst (λ q. eval x q e ≡ negated_holds x (negated c) e) (ok-injective inner.1.1)
          (ap not (compile_tree-holds c path inner.0 inner.1.0))

  -- A condition that compiles evaluates, on every event, to what its tree means: every part of a
  -- node that is set holds.
  pub compile-holds :
      (c : Condition) (path : Str) (p : Predicate)
      → compile x c path ≡ ok p
      → eval x p e ≡ holds x c e
  compile-holds c path p h = compile_tree-holds c path p h
