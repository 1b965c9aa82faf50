-- ===== src/Tenant/Resolver.antt =====
-- internal/tenant/resolver.go: NewResolver and Resolve. The digest and the normal form of a hash
-- in the configuration (strings.ToLower of strings.TrimSpace) are parameters.
use letopis.Prelude.{
  ℕ, suc, Str, str_eq, codes, Bool, true, false, ◌&&◌, Option, none, some, List, [], ◌∷◌, ◌++◌,
  length, ◌==◌, if◌then◌else◌,
}
use letopis.HashChain.Link.{hex}
use letopis.Tenant.Access.{Scope, Tenant, Principal, parse_scope, has_prefix}

pub record KeySpec : Type 0 where
  pub hash : Str
  pub plaintext : Str
  pub scopes : List Str
  pub collections : List Str

pub record Spec : Type 0 where
  pub id : Str
  pub db_uri : Str
  pub db_name : Str
  pub keys : List KeySpec

-- The errors of NewResolver and Resolve, with the tenant and the key or the text that they name.
pub data ResolveError : Type 0 where
  id_missing no_key unknown_key : ResolveError
  both_set malformed_hash none_set : Str → ℕ → ResolveError
  scope_missing : Str → ResolveError
  unknown_scope duplicate_hash : Str → Str → ResolveError

pub data Result {ℓ} (A : Type ℓ) : Type ℓ where
  ok : A → Result A
  err : ResolveError → Result A

infixl 5 ◌>>=◌
abbrev pub ◌>>=◌ {ℓ κ} : {A : Type ℓ} {B : Type κ} → Result A → (A → Result B) → Result B
ok a >>= f = f a
err e >>= f = err e

-- byHash and the warnings, each by its tenant and key
pub record Resolver : Type 0 where
  pub by_hash : List (Str × Principal)
  pub warnings : List (Str × ℕ)

unfoldable pub lookup : Str → List (Str × Principal) → Option Principal
lookup h [] = none
lookup h ((k, p) ∷ rest) = if str_eq k h then some p else lookup h rest

abbrev pub parsed : Str → Str → Option Scope → Result (List Scope) → Result (List Scope)
parsed tenant s none rest = err (unknown_scope tenant s)
parsed tenant s (some sc) rest = rest >>= λ scs. ok (sc ∷ scs)

unfoldable pub parse_all : Str → List Str → Result (List Scope)
unfolding parse_scope
parse_all tenant [] = ok []
parse_all tenant (s ∷ ss) = parsed tenant s (parse_scope s) (parse_all tenant ss)

-- parseScopes
unfoldable pub parse_scopes : Str → List Str → Result (List Scope)
unfolding parse_all
parse_scopes tenant [] = err (scope_missing tenant)
parse_scopes tenant (s ∷ ss) = parse_all tenant (s ∷ ss)

abbrev pub hash_prefix : Str
hash_prefix = codes "sha256:"

abbrev pub tenant_of : Spec → Tenant
tenant_of s = record { id = s.id; db_uri = s.db_uri; db_name = s.db_name }

module _ (sha256 : Str → Str) (normal : Str → Str) where
  unfoldable pub digest_of : Str → Str
  unfolding hex
  digest_of raw = hash_prefix ++ hex (sha256 raw)

  -- keyHash: the hash, and whether there is a warning
  unfoldable pub key_hash : Str → ℕ → Str → Str → Result (Str × Bool)
  unfolding has_prefix digest_of
  key_hash tenant i [] [] = err (none_set tenant i)
  key_hash tenant i [] (c ∷ cs) = ok (digest_of (c ∷ cs), true)
  key_hash tenant i (h ∷ hs) [] =
      let n = normal (h ∷ hs) in
      if has_prefix n hash_prefix && length n == 71
      then ok (n, false)
      else err (malformed_hash tenant i)
  key_hash tenant i (h ∷ hs) (c ∷ cs) = err (both_set tenant i)

  abbrev pub entered :
      Spec → ℕ → KeySpec → Str → Bool → List Scope → Resolver → Option Principal → Result Resolver
  entered s i ks h warns scopes r (some p) = err (duplicate_hash s.id h)
  entered s i ks h warns scopes r none = ok (record {
    by_hash =
        (
          h,
          record {
            tenant = tenant_of s;
            key = record { scopes = scopes; collections = ks.collections };
          },
        )
        ∷ r.by_hash;
    warnings = if warns then r.warnings ++ (s.id, i) ∷ [] else r.warnings;
  })

  -- the body of the loop over the keys of a tenant
  unfoldable pub add_key : Spec → ℕ → KeySpec → Resolver → Result Resolver
  unfolding key_hash parse_scopes lookup
  add_key s i ks r = key_hash s.id i ks.hash ks.plaintext >>= λ (h, warns).
      parse_scopes s.id ks.scopes >>= λ scopes. entered s i ks h warns scopes r (lookup h r.by_hash)

  unfoldable pub add_keys : Spec → ℕ → List KeySpec → Resolver → Result Resolver
  unfolding add_key
  add_keys s i [] r = ok r
  add_keys s i (ks ∷ rest) r = add_key s i ks r >>= λ r'. add_keys s (suc i) rest r'

  abbrev pub add_tenant : Spec → Str → Resolver → Result Resolver
  add_tenant s [] r = err id_missing
  add_tenant s (c ∷ cs) r = add_keys s 0 s.keys r

  unfoldable pub add_tenants : List Spec → Resolver → Result Resolver
  unfolding add_keys
  add_tenants [] r = ok r
  add_tenants (s ∷ rest) r = add_tenant s s.id r >>= λ r'. add_tenants rest r'

  unfoldable pub new_resolver : List Spec → Result Resolver
  unfolding add_tenants
  new_resolver specs = add_tenants specs (record { by_hash = []; warnings = [] })

  abbrev pub found : Option Principal → Result Principal
  found none = err unknown_key
  found (some p) = ok p

  unfoldable pub resolve : Resolver → Str → Result Principal
  unfolding lookup digest_of
  resolve r [] = err no_key
  resolve r (c ∷ cs) = found (lookup (digest_of (c ∷ cs)) r.by_hash)
