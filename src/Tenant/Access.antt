-- ===== src/Tenant/Access.antt =====
-- internal/tenant/tenant.go: tenants, scopes and the collection mask of a key.
use letopis.Prelude.{
  ℕ, ◌≡◌, refl, sym, ap, ◌∙◌, subst, ◌↔◌, Str, str_eq, str_eq→eq, str_eq_refl, codes, Bool, true,
  false, ◌&&◌, ◌||◌, Option, none, some, List, [], ◌∷◌, ◌++◌, ◌==◌, if◌then◌else◌, arith, ==→eq,
  ==_refl, Bool-cases, inl, inr,
}

pub data Scope : Type 0 where
  write read admin : Scope

pub record Tenant : Type 0 where
  pub id : Str
  pub db_uri : Str
  pub db_name : Str

pub record ApiKey : Type 0 where
  pub scopes : List Scope
  pub collections : List Str

pub record Principal : Type 0 where
  pub tenant : Tenant
  pub key : ApiKey

-- DatabaseName
unfoldable pub database_name : Tenant → Str
database_name t = elim (t.db_name) [ [] ↦ codes "hm_t_" ++ t.id | c ∷ cs ↦ t.db_name ]

abbrev pub same_scope : Scope → Scope → Bool
same_scope write write = true
same_scope read read = true
same_scope admin admin = true
same_scope _ _ = false

-- slices.Contains
abbrev pub contains : List Scope → Scope → Bool
contains [] s = false
contains (x ∷ xs) s = if same_scope x s then true else contains xs s

unfoldable pub has_scope : Principal → Scope → Bool
has_scope p s = contains p.key.scopes s

-- ParseScope: none stands for its error
unfoldable pub parse_scope : Str → Option Scope
unfolding str_eq
parse_scope s =
    if str_eq s (codes "write")
    then some write
    else if str_eq s (codes "read")
    then some read
    else if str_eq s (codes "admin")
    then some admin
    else none

-- strings.HasPrefix
unfoldable pub has_prefix : Str → Str → Bool
has_prefix s [] = true
has_prefix [] (p ∷ ps) = false
has_prefix (c ∷ cs) (p ∷ ps) = c == p && has_prefix cs ps

abbrev extended : Bool → ℕ → Option Str → Option Str
extended true c o = some []
extended false c none = none
extended false c (some prefix) = some (c ∷ prefix)

-- strings.HasSuffix of ".*" and strings.TrimSuffix: the part before it, where it is there
unfoldable pub before_wildcard : Str → Option Str
before_wildcard [] = none
before_wildcard (c ∷ cs) = extended (str_eq (c ∷ cs) (codes ".*")) c (before_wildcard cs)

-- one pattern of the loop of matchCollection
abbrev pub admits : Str → Str → Option Str → Bool
admits pat name (some prefix) = str_eq name prefix || has_prefix name (prefix ++ codes ".")
admits pat name none = str_eq pat name

unfoldable pub match_pattern : Str → Str → Bool
unfolding before_wildcard has_prefix
match_pattern pat name =
    if str_eq pat (codes "*") then true else admits pat name (before_wildcard pat)

unfoldable pub match_collection : List Str → Str → Bool
unfolding match_pattern
match_collection [] name = false
match_collection (pat ∷ pats) name =
    if match_pattern pat name then true else match_collection pats name

unfoldable pub can_access : Principal → Str → Bool
unfolding match_collection
can_access p collection = match_collection p.key.collections collection

-- What a pattern means: any name, the names of a branch and the branch itself, or one name.
pub data Grants : Str → Str → Type 0 where
  any : {name : Str} → Grants (codes "*") name
  branch : (prefix : Str) → Grants (prefix ++ codes ".*") prefix
  below : (prefix rest : Str) → Grants (prefix ++ codes ".*") ((prefix ++ codes ".") ++ rest)
  exact : (name : Str) → Grants name name

before_wildcard-append :
    (pat prefix : Str) → before_wildcard pat ≡ some prefix → pat ≡ prefix ++ codes ".*"
unfolding before_wildcard
before_wildcard-append [] prefix h = absurd (ground arith)
before_wildcard-append (c ∷ cs) prefix h =
    go (str_eq (c ∷ cs) (codes ".*")) (before_wildcard cs) refl
      (λ rest q. before_wildcard-append cs rest q) h
  where
    go :
        (b : Bool) (o : Option Str)
        → str_eq (c ∷ cs) (codes ".*") ≡ b
        → ((rest : Str) → o ≡ some rest → cs ≡ rest ++ codes ".*")
        → extended b c o ≡ some prefix
        → c ∷ cs ≡ prefix ++ codes ".*"
    go true o p q k =
        let none_left : [] ≡ prefix = cc k in
        subst (λ x. c ∷ cs ≡ x ++ codes ".*") none_left (str_eq→eq (c ∷ cs) (codes ".*") p)
    go false none p q k = absurd (ground arith)
    go false (some rest) p q k =
        let grown : c ∷ rest ≡ prefix = cc k in
        subst (λ x. c ∷ cs ≡ x ++ codes ".*") grown (ap (λ x. c ∷ x) (q rest refl))

has_prefix-append : (s p : Str) → has_prefix s p ≡ true → (rest : Str) × (s ≡ p ++ rest)
unfolding has_prefix
has_prefix-append s [] h = (s, refl)
has_prefix-append [] (p ∷ ps) h = absurd (ground arith)
has_prefix-append (c ∷ cs) (p ∷ ps) h =
    let r = has_prefix-append cs ps (ground arith) in
    let same : c ≡ p = ==→eq c p (ground arith) in (r.0, cc (same, r.1))

admits-Grants :
    (pat name : Str) (o : Option Str)
    → before_wildcard pat ≡ o
    → admits pat name o ≡ true
    → Grants pat name
admits-Grants pat name none e h =
    subst (λ x. Grants x name) (sym (str_eq→eq pat name h)) (exact name)
admits-Grants pat name (some prefix) e h = elim (Bool-cases (str_eq name prefix)) [
  | inl same ↦
      subst (λ x. Grants x name) (sym (before_wildcard-append pat prefix e))
        (subst (λ x. Grants (prefix ++ codes ".*") x) (sym (str_eq→eq name prefix same))
          (branch prefix))
  | inr other ↦
      let r = has_prefix-append name (prefix ++ codes ".") (ground arith) in
      subst (λ x. Grants x name) (sym (before_wildcard-append pat prefix e))
        (subst (λ x. Grants (prefix ++ codes ".*") x) (sym r.1) (below prefix r.0))
]

match_pattern-Grants : (pat name : Str) → match_pattern pat name ≡ true → Grants pat name
unfolding match_pattern
match_pattern-Grants pat name h = elim (Bool-cases (str_eq pat (codes "*"))) [
  | inl all ↦ subst (λ x. Grants x name) (sym (str_eq→eq pat (codes "*") all)) any
  | inr other ↦ admits-Grants pat name (before_wildcard pat) refl (ground arith)
]

not_star : (cs : Str) → str_eq (cs ++ codes ".*") (codes "*") ≡ false
unfolding str_eq
not_star [] = refl
not_star (x ∷ []) = ground arith
not_star (x ∷ y ∷ ys) = ground arith

longer : (c : ℕ) (cs : Str) → str_eq (c ∷ (cs ++ codes ".*")) (codes ".*") ≡ false
unfolding str_eq
longer c cs = ground (arith, not_star cs)

-- The wildcard is found at the end of a pattern.
before_wildcard-wildcard : (prefix : Str) → before_wildcard (prefix ++ codes ".*") ≡ some prefix
unfolding before_wildcard str_eq
before_wildcard-wildcard [] = refl
before_wildcard-wildcard (c ∷ cs) = rw (longer c cs) (rw (before_wildcard-wildcard cs) refl)

has_prefix_self : (p rest : Str) → has_prefix (p ++ rest) p ≡ true
unfolding has_prefix
has_prefix_self [] rest = refl
has_prefix_self (c ∷ cs) rest = ground (arith, has_prefix_self cs rest)

or_right : (a b : Bool) → b ≡ true → (a || b) ≡ true
or_right true b h = refl
or_right false b h = h

under_star : (b x : Bool) → x ≡ true → (if b then true else x) ≡ true
under_star true x h = refl
under_star false x h = h

admits-wildcard :
    (prefix name : Str)
    → (str_eq name prefix || has_prefix name (prefix ++ codes ".")) ≡ true
    → match_pattern (prefix ++ codes ".*") name ≡ true
unfolding match_pattern
admits-wildcard prefix name h =
    under_star (str_eq (prefix ++ codes ".*") (codes "*")) _
      (rw (before_wildcard-wildcard prefix) h)

has_prefix_both : (p a b : Str) → has_prefix (p ++ a) (p ++ b) ≡ has_prefix a b
unfolding has_prefix
has_prefix_both [] a b = refl
has_prefix_both (c ∷ cs) a b = rw (==_refl c) (has_prefix_both cs a b)

admits_self : (name : Str) (o : Option Str) → before_wildcard name ≡ o → admits name name o ≡ true
unfolding has_prefix
admits_self name none e = str_eq_refl name
admits_self name (some prefix) e = or_right (str_eq name prefix) _ (
    subst (λ x. has_prefix x (prefix ++ codes ".") ≡ true)
      (sym (before_wildcard-append name prefix e))
      (has_prefix_both prefix (codes ".*") (codes ".") ∙ refl))

Grants-match_pattern : (pat name : Str) → Grants pat name → match_pattern pat name ≡ true
unfolding match_pattern
Grants-match_pattern pat name any = rw (str_eq_refl (codes "*")) refl
Grants-match_pattern pat name (branch prefix) =
    admits-wildcard prefix prefix (rw (str_eq_refl prefix) refl)
Grants-match_pattern pat name (below prefix rest) =
    admits-wildcard prefix ((prefix ++ codes ".") ++ rest)
      (or_right _ _ (has_prefix_self (prefix ++ codes ".") rest))
Grants-match_pattern pat name (exact n) =
    under_star (str_eq name (codes "*")) _ (admits_self name (before_wildcard name) refl)

-- One of the patterns admits the name.
pub data Granted (name : Str) : List Str → Type 0 where
  here : {pat : Str} {pats : List Str} → Grants pat name → Granted name (pat ∷ pats)
  there : {pat : Str} {pats : List Str} → Granted name pats → Granted name (pat ∷ pats)

match_collection-Granted :
    (pats : List Str) (name : Str) → match_collection pats name ≡ true → Granted name pats
unfolding match_collection
match_collection-Granted [] name h = absurd (ground arith)
match_collection-Granted (pat ∷ pats) name h = elim (Bool-cases (match_pattern pat name)) [
  | inl hit ↦ here (match_pattern-Grants pat name hit)
  | inr miss ↦ there (match_collection-Granted pats name (ground arith))
]

Granted-match_collection :
    (pats : List Str) (name : Str) → Granted name pats → match_collection pats name ≡ true
unfolding match_collection
Granted-match_collection [] name g = elim g [ ]
Granted-match_collection (pat ∷ pats) name (here g) = rw (Grants-match_pattern pat name g) refl
Granted-match_collection (pat ∷ pats) name (there g) =
    under_star (match_pattern pat name) _ (Granted-match_collection pats name g)

-- A key may access a collection exactly if one of its patterns grants it: `*` grants every name,
-- a pattern that ends in `.*` the branch before it and the names below that branch, and any
-- pattern its own name.
pub can_access-Granted :
    (p : Principal) (collection : Str)
    → (can_access p collection ≡ true) ↔ Granted collection p.key.collections
unfolding can_access
can_access-Granted p collection = (
  (λ h. match_collection-Granted p.key.collections collection h),
  (λ g. Granted-match_collection p.key.collections collection g),
)
