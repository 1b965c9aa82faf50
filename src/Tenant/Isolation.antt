-- ===== src/Tenant/Isolation.antt =====
-- A raw key is resolved only to the tenant that configured it.
use letopis.Prelude.{
  codes, ◌≢◌, ◌++◌, ◌∙◌, ℕ, suc, ◌≡◌, ◌⊎◌, refl, sym, ap, subst, Str, str_eq, str_eq→eq, Bool, true,
  false, Option, none, some, List, [], ◌∷◌, if◌then◌else◌, inl, inr, arith,
}
use letopis.Tenant.Access.{Scope, Principal, parse_scope}
use letopis.HashChain.Link.{hex}
use letopis.Tenant.Resolver.{
  KeySpec, Spec, Resolver, ResolveError, Result, ok, err, ◌>>=◌, lookup, parsed, parse_all,
  parse_scopes, tenant_of, digest_of, key_hash, entered, add_key, add_keys, add_tenant, add_tenants,
  new_resolver, found, resolve,
}

bind-ok {ℓ κ} :
    {A : Type ℓ} {B : Type κ} (x : Result A) (f : A → Result B) (b : B)
    → x >>= f ≡ ok b
    → (a : A) × (x ≡ ok a) × (f a ≡ ok b)
bind-ok (ok a) f b h = (a, refl, h)
bind-ok (err e) f b h = absurd (ground arith)

ok_eq : {A : Type 0} (x y : A) → ◌≡◌ {A = Result A} (ok x) (ok y) → x ≡ y
ok_eq x y h = cc h

chosen :
    {A : Type 0} (p : A) (b : Bool) (q : A) (o : Option A)
    → (if b then some q else o) ≡ some p
    → ((b ≡ true) × (q ≡ p)) ⊎ (o ≡ some p)
chosen p true q o h = inl (refl, cc h)
chosen p false q o h = inr h

accepted_only :
    {A : Type 0} (b : Bool) (x y : A) (e : ResolveError)
    → ◌≡◌ {A = Result A} (if b then ok x else err e) (ok y)
    → x ≡ y
accepted_only true x y e h = ok_eq x y h
accepted_only false x y e h = absurd (ground (arith, h))

set_text : {s cs : Str} {c : ℕ} → s ≡ c ∷ cs → s ≢ []
set_text e f = let same = sym e ∙ f in absurd (ground (arith, same))

-- the scope of a name
pub IsNamed : Str → Scope → Type 0
IsNamed s Scope.write = s ≡ codes "write"
IsNamed s Scope.read = s ≡ codes "read"
IsNamed s Scope.admin = s ≡ codes "admin"

-- the scopes of some names, in the same order
pub data AreNamed : List Str → List Scope → Type 0 where
  none_left : AreNamed [] []
  one_more :
      {s : Str} {sc : Scope} {ss : List Str} {scs : List Scope}
      → IsNamed s sc
      → AreNamed ss scs
      → AreNamed (s ∷ ss) (sc ∷ scs)

parse_scope-IsNamed : (s : Str) (sc : Scope) → parse_scope s ≡ some sc → IsNamed s sc
unfolding parse_scope IsNamed
parse_scope-IsNamed s sc h = elim (chosen sc (str_eq s (codes "write")) Scope.write _ h) [
  | inl (is, same) ↦ subst (IsNamed s) same (str_eq→eq s (codes "write") is)
  | inr h1 ↦ elim (chosen sc (str_eq s (codes "read")) Scope.read _ h1) [
    | inl (is, same) ↦ subst (IsNamed s) same (str_eq→eq s (codes "read") is)
    | inr h2 ↦ elim (chosen sc (str_eq s (codes "admin")) Scope.admin _ h2) [
      | inl (is, same) ↦ subst (IsNamed s) same (str_eq→eq s (codes "admin") is)
      | inr h3 ↦ absurd (ground (arith, h3))
    ]
  ]
]

parsed-AreNamed :
    (tenant s : Str) (ss : List Str) (scs : List Scope) (o : Option Scope)
    (rest : Result (List Scope))
    → parse_scope s ≡ o
    → ((xs : List Scope) → rest ≡ ok xs → AreNamed ss xs)
    → parsed tenant s o rest ≡ ok scs
    → AreNamed (s ∷ ss) scs
parsed-AreNamed tenant s ss scs none rest e f h = absurd (ground arith)
parsed-AreNamed tenant s ss scs (some sc) (err x) e f h = absurd (ground arith)
parsed-AreNamed tenant s ss scs (some sc) (ok xs) e f h =
    subst (AreNamed (s ∷ ss)) (ok_eq (sc ∷ xs) scs h)
      (one_more (parse_scope-IsNamed s sc e) (f xs refl))

parse_all-AreNamed :
    (tenant : Str) (ss : List Str) (scs : List Scope)
    → parse_all tenant ss ≡ ok scs
    → AreNamed ss scs
unfolding parse_all
parse_all-AreNamed tenant [] scs h = subst (AreNamed []) (ok_eq [] scs h) none_left
parse_all-AreNamed tenant (s ∷ ss) scs h =
    parsed-AreNamed tenant s ss scs (parse_scope s) (parse_all tenant ss) refl
      (λ xs e. parse_all-AreNamed tenant ss xs e) h

AreNamed-some : (s : Str) (ss : List Str) (scs : List Scope) → AreNamed (s ∷ ss) scs → scs ≢ []
AreNamed-some s ss [] h e = elim h [ ]
AreNamed-some s ss (sc ∷ scs) h e = cc e

parse_scopes-AreNamed :
    (tenant : Str) (ss : List Str) (scs : List Scope)
    → parse_scopes tenant ss ≡ ok scs
    → AreNamed ss scs × (scs ≢ [])
unfolding parse_scopes
parse_scopes-AreNamed tenant [] scs h = absurd (ground arith)
parse_scopes-AreNamed tenant (s ∷ ss) scs h =
    let named = parse_all-AreNamed tenant (s ∷ ss) scs h in (named, AreNamed-some s ss scs named)

module _ (sha256 : Str → Str) (normal : Str → Str) where
  -- The hash of a key: of its plain text, or as it is configured, in its normal form. One is set.
  pub IsHashOf : KeySpec → Str → Type 0
  IsHashOf ks h =
      ((ks.hash ≡ []) × (ks.plaintext ≢ []) × (h ≡ codes "sha256:" ++ hex (sha256 ks.plaintext)))
      ⊎ ((ks.plaintext ≡ []) × (ks.hash ≢ []) × (h ≡ normal ks.hash))

  -- A key of a tenant of the configuration has the hash and the rights.
  pub record IsKey (s : Spec) (ks : KeySpec) (h : Str) (p : Principal) : Type 0 where
    pub hashed : IsHashOf ks h
    pub id : p.tenant.id ≡ s.id
    pub db_uri : p.tenant.db_uri ≡ s.db_uri
    pub db_name : p.tenant.db_name ≡ s.db_name
    pub scopes : AreNamed ks.scopes p.key.scopes
    pub some_scope : p.key.scopes ≢ []
    pub collections : p.key.collections ≡ ks.collections

  pub data InKeys (s : Spec) (h : Str) (p : Principal) : List KeySpec → Type 0 where
    here : {ks : KeySpec} {rest : List KeySpec} → IsKey s ks h p → InKeys s h p (ks ∷ rest)
    there : {ks : KeySpec} {rest : List KeySpec} → InKeys s h p rest → InKeys s h p (ks ∷ rest)

  -- Some tenant of the configuration has such a key.
  pub data Configured (h : Str) (p : Principal) : List Spec → Type 0 where
    here : {s : Spec} {rest : List Spec} → InKeys s h p s.keys → Configured h p (s ∷ rest)
    there : {s : Spec} {rest : List Spec} → Configured h p rest → Configured h p (s ∷ rest)

  key_hash-IsHashOf :
      (tenant : Str) (i : ℕ) (ks : KeySpec) (h : Str) (warns : Bool) (hash plain : Str)
      → ks.hash ≡ hash
      → ks.plaintext ≡ plain
      → key_hash sha256 normal tenant i hash plain ≡ ok (h, warns)
      → IsHashOf ks h
  unfolding key_hash digest_of IsHashOf
  key_hash-IsHashOf tenant i ks h warns [] [] e f g = absurd (ground arith)
  key_hash-IsHashOf tenant i ks h warns [] (c ∷ cs) e f g =
      inl (e, set_text f, sym (ap (λ x. x.0) (ok_eq _ _ g)) ∙ ap (digest_of sha256 normal) (sym f))
  key_hash-IsHashOf tenant i ks h warns (x ∷ xs) [] e f g =
      inr (f, set_text e, sym (ap (λ y. y.0) (accepted_only _ _ _ _ g)) ∙ ap normal (sym e))
  key_hash-IsHashOf tenant i ks h warns (x ∷ xs) (c ∷ cs) e f g = absurd (ground arith)

  module _ (h : Str) (p : Principal) where
    abbrev Knows : Resolver → Type 0
    Knows r = lookup h r.by_hash ≡ some p

    entered-IsKey :
        (s : Spec) (i : ℕ) (ks : KeySpec) (k : Str) (warns : Bool) (scs : List Scope)
        (r t : Resolver) (o : Option Principal)
        → key_hash sha256 normal s.id i ks.hash ks.plaintext ≡ ok (k, warns)
        → parse_scopes s.id ks.scopes ≡ ok scs
        → entered sha256 normal s i ks k warns scs r o ≡ ok t
        → Knows t
        → Knows r ⊎ IsKey s ks h p
    unfolding lookup
    entered-IsKey s i ks k warns scs r t (some q) e f g l = absurd (ground arith)
    entered-IsKey s i ks k warns scs r t none e f g l =
        let q : Principal = record {
          tenant = tenant_of s;
          key = record { scopes = scs; collections = ks.collections };
        } in
        let same : (k, q) ∷ r.by_hash ≡ t.by_hash = ap (λ x. x.by_hash) (ok_eq _ t g) in
        let found_here = subst (λ x. lookup h x ≡ some p) (sym same) l in
        elim (chosen p (str_eq k h) q (lookup h r.by_hash) found_here) [
          | inr older ↦ inl older
          | inl (own, equal) ↦
              let entry : IsKey s ks k q = record {
                hashed = key_hash-IsHashOf s.id i ks k warns ks.hash ks.plaintext refl refl e;
                id = refl;
                db_uri = refl;
                db_name = refl;
                scopes = (parse_scopes-AreNamed s.id ks.scopes scs f).0;
                some_scope = (parse_scopes-AreNamed s.id ks.scopes scs f).1;
                collections = refl;
              } in
              inr
                (subst (IsKey s ks h) equal (subst (λ x. IsKey s ks x q) (str_eq→eq k h own) entry))
        ]

    add_key-IsKey :
        (s : Spec) (i : ℕ) (ks : KeySpec) (r t : Resolver)
        → add_key sha256 normal s i ks r ≡ ok t
        → Knows t
        → Knows r ⊎ IsKey s ks h p
    unfolding add_key
    add_key-IsKey s i ks r t e l =
        let (k, hashed, next) =
          bind-ok (key_hash sha256 normal s.id i ks.hash ks.plaintext) _ t e in
        let (scs, parsed, last) = bind-ok (parse_scopes s.id ks.scopes) _ t next in
        entered-IsKey s i ks k.0 k.1 scs r t (lookup k.0 r.by_hash) hashed parsed last l

    add_keys-InKeys :
        (s : Spec) (keys : List KeySpec) (i : ℕ) (r t : Resolver)
        → add_keys sha256 normal s i keys r ≡ ok t
        → Knows t
        → Knows r ⊎ InKeys s h p keys
    unfolding add_keys
    add_keys-InKeys s [] i r t e l = inl (subst Knows (sym (ok_eq r t e)) l)
    add_keys-InKeys s (ks ∷ rest) i r t e l =
        let (m, first, later) = bind-ok (add_key sha256 normal s i ks r) _ t e in
        elim (add_keys-InKeys s rest (suc i) m t later l) [
          | inr k ↦ inr (there k)
          | inl before ↦ elim (add_key-IsKey s i ks r m first before) [
            | inl old ↦ inl old
            | inr k ↦ inr (here k)
          ]
        ]

    add_tenant-InKeys :
        (s : Spec) (id : Str) (r t : Resolver)
        → add_tenant sha256 normal s id r ≡ ok t
        → Knows t
        → Knows r ⊎ InKeys s h p s.keys
    add_tenant-InKeys s [] r t e l = absurd (ground arith)
    add_tenant-InKeys s (c ∷ cs) r t e l = add_keys-InKeys s s.keys 0 r t e l

    add_tenants-Configured :
        (specs : List Spec) (r t : Resolver)
        → add_tenants sha256 normal specs r ≡ ok t
        → Knows t
        → Knows r ⊎ Configured h p specs
    unfolding add_tenants
    add_tenants-Configured [] r t e l = inl (subst Knows (sym (ok_eq r t e)) l)
    add_tenants-Configured (s ∷ rest) r t e l =
        let (m, first, later) = bind-ok (add_tenant sha256 normal s s.id r) _ t e in
        elim (add_tenants-Configured rest m t later l) [
          | inr k ↦ inr (there k)
          | inl before ↦ elim (add_tenant-InKeys s s.id r m first before) [
            | inl old ↦ inl old
            | inr k ↦ inr (here k)
          ]
        ]

    new_resolver-Knows :
        (specs : List Spec) (t : Resolver)
        → new_resolver sha256 normal specs ≡ ok t
        → Knows t
        → Configured h p specs
    unfolding new_resolver lookup
    new_resolver-Knows specs t e l = elim (add_tenants-Configured specs _ t e l) [
      | inr k ↦ k
      | inl nothing ↦ absurd (ground arith)
    ]

  found-ok : (o : Option Principal) (p : Principal) → found sha256 normal o ≡ ok p → o ≡ some p
  found-ok none p h = absurd (ground arith)
  found-ok (some q) p h = ap some (ok_eq q p h)

  -- A raw key that is resolved belongs to the configuration: the hash of the raw key is that of one
  -- of its keys, and the principal has the id, the URI and the database of the tenant of that
  -- key, the scopes that the key names, in their order and at least one, and its collections.
  pub resolve-Configured :
      (specs : List Spec) (r : Resolver) (raw : Str) (p : Principal)
      → new_resolver sha256 normal specs ≡ ok r
      → resolve sha256 normal r raw ≡ ok p
      → Configured (codes "sha256:" ++ hex (sha256 raw)) p specs
  unfolding resolve digest_of
  resolve-Configured specs r [] p e h = absurd (ground arith)
  resolve-Configured specs r (c ∷ cs) p e h =
      new_resolver-Knows (digest_of sha256 normal (c ∷ cs)) p specs r e (found-ok _ p h)
