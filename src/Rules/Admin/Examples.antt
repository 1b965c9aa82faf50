-- ===== src/Rules/Admin/Examples.antt =====
-- Tests of the rule service, and its theorem at a concrete run.
use letopis.Prelude.{◌≡◌, refl, str_eq, codes, true, false, List, [], ◌∷◌, All, map}
use letopis.Prelude.Int.{pos}
use letopis.Rules.Model.{Rule}
use letopis.Rules.Compile.{classify, compile_scalar}
use letopis.Rules.Validate.{validate_rule}
use letopis.Rules.Runnable.{IsRunnable}
use letopis.Rules.Sample.{externals, rule}
use letopis.Storage.Names.{validate_logical}
use letopis.Rules.Admin.{
  AdminEnv, AdminCall, create, update, delete, administer_all, no_rules, list_rules, remove_rule,
}
use letopis.Rules.Admin.Apart.{AreApart}
use letopis.Rules.Admin.Sound.{administer_all-IsRunnable}

abbrev env : AdminEnv
env = record { has_cache = true; has_audit = true; storage_fails = false; audit_fails = false }

-- Two rules are created, the second one is changed and the first one deleted.
abbrev calls : List (AdminEnv × AdminCall)
calls =
    (env, create [] 1 (codes "crm.deals") (rule (codes "r1") true (codes "crm")))
    ∷ (env, create [] 2 (codes "crm.deals") (rule (codes "r2") true (codes "crm")))
    ∷ (env, update 3 (codes "crm.deals") (codes "r2") (rule (codes "r3") false (codes "erp")))
    ∷ (env, delete (codes "crm.deals") (codes "r1"))
    ∷ []

administer_all-IsRunnable_example :
    let st = administer_all externals calls no_rules in
    All (IsRunnable externals) (list_rules (codes "crm.deals") st.docs) × AreApart st.docs
administer_all-IsRunnable_example = administer_all-IsRunnable externals calls (codes "crm.deals")

version_counts_up :
    map
      (λ (r : Rule). r.version)
      (list_rules (codes "crm.deals") (administer_all externals calls no_rules).docs)
    ≡ pos 2 ∷ []
unfolding administer_all validate_logical validate_rule classify compile_scalar str_eq list_rules
    remove_rule
version_counts_up = refl
