-- ===== src/Rules/Kinds.antt =====
-- internal/rules/compile.go: which parts of a node are unset, by the kind that classify gives.
use letopis.Prelude.{◌≡◌, Str, Bool, true, false, ◌&&◌, ◌++◌, if◌then◌else◌, arith}
use letopis.Rules.Model.{ok}
use letopis.Rules.Compile.{CondKind, scalar, all, any, not_kind, match_kind, single_kind, unless}

-- which of the five parts are unset at a node of a kind
abbrev pub unset_parts : CondKind → Bool × Bool × Bool × Bool × Bool
unset_parts all = (false, true, true, true, true)
unset_parts any = (true, false, true, true, true)
unset_parts not_kind = (true, true, false, true, true)
unset_parts match_kind = (true, true, true, false, true)
unset_parts scalar = (true, true, true, true, false)

pub single_kind-parts :
    (path : Str) (a b c d s : Bool) (k : CondKind)
    → single_kind path (
        unless a all
        ++ (unless b any ++ (unless c not_kind ++ (unless d match_kind ++ unless s scalar))))
      ≡ ok k
    → (a, b, c, d, s) ≡ unset_parts k
single_kind-parts path a b c d s k h = ground arith

-- The parts that are unset hold, so a node stands and falls with the one that is set.
abbrev pub part_of : CondKind → Bool → Bool → Bool → Bool → Bool → Bool
part_of all every one inner matched leaf = every
part_of any every one inner matched leaf = one
part_of not_kind every one inner matched leaf = inner
part_of match_kind every one inner matched leaf = matched
part_of scalar every one inner matched leaf = leaf

pub part_of-whole :
    (k : CondKind) (na nb ni nm ns every one inner matched leaf : Bool)
    → (na, nb, ni, nm, ns) ≡ unset_parts k
    → (na ≡ true → every ≡ true)
    → (ni ≡ true → inner ≡ true)
    → (nm ≡ true → matched ≡ true)
    → part_of k every one inner matched leaf
      ≡ every && ((if nb then true else one) && (inner && (matched && (if ns then true else leaf))))
part_of-whole all na nb ni nm ns every one inner matched leaf parts ua un um = ground arith
part_of-whole any na nb ni nm ns every one inner matched leaf parts ua un um = ground arith
part_of-whole not_kind na nb ni nm ns every one inner matched leaf parts ua un um = ground arith
part_of-whole match_kind na nb ni nm ns every one inner matched leaf parts ua un um = ground arith
part_of-whole scalar na nb ni nm ns every one inner matched leaf parts ua un um = ground arith
