-- ===== src/Tenant/Examples.antt =====
-- Tests of the resolver and of the collection mask, and their theorems at a concrete key.
use letopis.Prelude.{List, ◌++◌, ◌≡◌, ◌↔◌, refl, str_eq, codes, true, false, [], ◌∷◌}
use letopis.Tenant.Resolver.{Spec, Resolver, ok, new_resolver, resolve}
use letopis.HashChain.Link.{hex}
use letopis.Tenant.Isolation.{Configured, resolve-Configured}
use letopis.Tenant.Access.{
  Principal, read, match_collection, before_wildcard, has_prefix, can_access, Granted,
  can_access-Granted,
}

abbrev reader : Principal
reader = record {
  tenant = record { id = codes "acme"; db_uri = []; db_name = [] };
  key = record { scopes = read ∷ []; collections = codes "crm.*" ∷ [] };
}

outside : can_access reader (codes "crmx") ≡ false
unfolding can_access match_collection before_wildcard has_prefix str_eq
outside = refl

can_access-Granted_example :
    (can_access reader (codes "crm.deals") ≡ true)
    ↔ Granted (codes "crm.deals") (codes "crm.*" ∷ [])
can_access-Granted_example = can_access-Granted reader (codes "crm.deals")

abbrev specs : List Spec
specs =
    record {
      id = codes "acme";
      db_uri = [];
      db_name = [];
      keys =
          record {
            hash = [];
            plaintext = codes "secret";
            scopes = codes "read" ∷ [];
            collections = codes "crm.*" ∷ [];
          }
          ∷ [];
    }
    ∷ []

-- the resolver of the configuration, where every text is its own digest
abbrev built : Resolver
built = record {
  by_hash = (codes "sha256:736563726574", reader) ∷ [];
  warnings = (codes "acme", 0) ∷ [];
}

specs_accepted : new_resolver (λ x. x) (λ x. x) specs ≡ ok built
unfolding new_resolver str_eq
specs_accepted = refl

secret_resolves : resolve (λ x. x) (λ x. x) built (codes "secret") ≡ ok reader
unfolding resolve str_eq
secret_resolves = refl

resolve-Configured_example :
    Configured (λ x. x) (λ x. x) (codes "sha256:" ++ hex (codes "secret")) reader specs
resolve-Configured_example =
    resolve-Configured (λ x. x) (λ x. x) specs built (codes "secret") reader specs_accepted
      secret_resolves
