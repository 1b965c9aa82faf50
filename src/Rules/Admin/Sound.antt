-- ===== src/Rules/Admin/Sound.antt =====
-- The rules of a tenant stay valid and distinct, whatever is asked of the service.
use letopis.Prelude.{
  ℕ, ◌≡◌, refl, ap, Str, str_eq, Option, none, some, List, [], ◌∷◌, ◌++◌, map, All, suc, Bool-cases,
  inl, inr,
}
use letopis.Rules.Model
use letopis.Rules.Model.{Externals, Action, Rule, ◌>>=◌}
use letopis.Rules.Validate.{
  validate_each, validate_action, validate_actions, validate_rule, action_path,
}
use letopis.Rules.Runnable.{IsRunnable, validate_rule-IsRunnable}
use letopis.Storage.Names.{validate_logical}
use letopis.Rules.Admin.{
  RuleDoc, RuleStore, AdminEnv, AdminResult, AdminCall, create, update, delete, to_action_doc,
  to_rule_doc, is_at, has_id, has_name, list_rules, set_body, insert_rule, replace_rule, drop_rule,
  if_valid, create_rule, update_rule, delete_rule, administer, administer_all, no_rules,
}
use letopis.Rules.Admin.Apart.{
  AreApart, AreApart-append, unused-IsApart, set_body-AreApart, remove_rule-All,
  remove_rule-AreApart,
}

All-snoc :
    {A : Type 0} (P : A → Type 0) (xs : List A) (y : A) → All P xs → P y → All P (xs ++ y ∷ [])
All-snoc P [] y h p = (p, tt)
All-snoc P (x ∷ xs) y h p = (h.0, All-snoc P xs y h.1 p)

module _ (x : Externals) where
  -- Validation looks at no params.
  validate_each-stored :
      (xs : List Action) (i : ℕ) → validate_each x (map to_action_doc xs) i ≡ validate_each x xs i
  unfolding validate_each validate_action
  validate_each-stored [] i = refl
  validate_each-stored (a ∷ xs) i =
      ap (λ k. validate_action x a (action_path i) >>= k) (λ j u. validate_each-stored xs (suc i) j)

  validate_actions-stored :
      (xs : List Action) → validate_actions x (map to_action_doc xs) ≡ validate_actions x xs
  unfolding validate_actions
  validate_actions-stored [] = refl
  validate_actions-stored (a ∷ xs) = validate_each-stored (a ∷ xs) 0

  abbrev IsValid : Rule → Type 0
  IsValid r = validate_rule x r ≡ Model.ok tt

  -- what a valid rule becomes in the store is valid
  stored-IsValid :
      (r : Rule) → IsValid r → IsValid (record r { actions = map to_action_doc r.actions })
  unfolding validate_rule
  stored-IsValid r h = rw (validate_actions-stored r.actions) h

  -- Every stored rule is valid, ids are distinct and names are distinct in a collection.
  abbrev IsSound : RuleStore → Type 0
  IsSound st = All (λ d. IsValid d.rule) st.docs × AreApart st.docs

  module _ (env : AdminEnv) (collection : Str) (st : RuleStore) (h : IsSound st) where
    set_body-one :
        (r : Rule)
        → IsValid r
        → (d : RuleDoc) → IsValid d.rule
        → IsValid (set_body collection r d).rule
    unfolding validate_rule
    set_body-one r v d w = elim (Bool-cases (is_at collection r.id d)) [
      | inl here ↦ rw here (stored-IsValid r v)
      | inr other ↦ rw other w
    ]

    set_body-IsValid :
        (r : Rule)
        → IsValid r
        → (ds : List RuleDoc) → All (λ d. IsValid d.rule) ds
        → All (λ d. IsValid d.rule) (map (set_body collection r) ds)
    set_body-IsValid r v [] p = tt
    set_body-IsValid r v (d ∷ ds) p = (set_body-one r v d p.0, set_body-IsValid r v ds p.1)

    insert_rule-IsSound : (r : Rule) → IsValid r → IsSound (insert_rule env collection r st).0
    unfolding insert_rule
    insert_rule-IsSound r v = elim (Bool-cases (validate_logical collection)) [
      | inr wrong ↦ rw wrong h
      | inl right ↦ elim (Bool-cases env.storage_fails) [
        | inl down ↦ rw right (rw down h)
        | inr up ↦ elim (Bool-cases (has_id r.id st.docs)) [
          | inl used ↦ rw right (rw up (rw used h))
          | inr new ↦ elim (Bool-cases (has_name r.id collection r.name st.docs)) [
            | inl taken ↦ rw right (rw up (rw new (rw taken h)))
            | inr free ↦
                let doc = to_rule_doc collection r in
                rw right (
                  rw up (
                    rw new (
                      rw free (
                        All-snoc _ st.docs doc h.0 (stored-IsValid r v),
                        AreApart-append st.docs doc h.1 (unused-IsApart st.docs doc new free),
                      ))))
          ]
        ]
      ]
    ]

    replace_rule-IsSound :
        (r : Rule) (o : Option Rule) → IsValid r → IsSound (replace_rule env collection r o st).0
    unfolding replace_rule
    replace_rule-IsSound r none v = h
    replace_rule-IsSound r (some old) v =
        elim (Bool-cases (has_name r.id collection r.name st.docs)) [
          | inl taken ↦ rw taken h
          | inr free ↦
              rw free
                (set_body-IsValid r v st.docs h.0, set_body-AreApart collection r st.docs h.1 free)
        ]

    drop_rule-IsSound : (id : Str) (o : Option Rule) → IsSound (drop_rule env collection id o st).0
    unfolding drop_rule
    drop_rule-IsSound id none = h
    drop_rule-IsSound id (some old) = (
      remove_rule-All _ collection id st.docs h.0,
      remove_rule-AreApart collection id st.docs h.1,
    )

  module _ (env : AdminEnv) (st : RuleStore) (h : IsSound st) where
    if_valid-IsSound :
        (o : Model.Result (Unit {0})) (go : RuleStore × AdminResult)
        → (o ≡ Model.ok tt → IsSound go.0)
        → IsSound (if_valid env x o go st).0
    if_valid-IsSound (Model.ok u) go k = k refl
    if_valid-IsSound (Model.err e) go k = h

    administer-IsSound : (c : AdminCall) → IsSound (administer x env c st).0
    unfolding administer create_rule update_rule delete_rule validate_rule
    administer-IsSound (create new_id now collection r) =
        if_valid-IsSound (validate_rule x r) _ λ v. insert_rule-IsSound env collection st h _ v
    administer-IsSound (update now collection id r) = if_valid-IsSound (validate_rule x r) _ λ v.
        elim (Bool-cases (validate_logical collection)) [
          | inr wrong ↦ rw wrong h
          | inl right ↦ elim (Bool-cases env.storage_fails) [
            | inl down ↦ rw right (rw down h)
            | inr up ↦ rw right (
                rw up (
                  replace_rule-IsSound env collection st h (record r { id = id; updated_at = now })
                    _ v))
          ]
        ]
    administer-IsSound (delete collection id) = elim (Bool-cases (validate_logical collection)) [
      | inr wrong ↦ rw wrong h
      | inl right ↦ elim (Bool-cases env.storage_fails) [
        | inl down ↦ rw right (rw down h)
        | inr up ↦ rw right (rw up (drop_rule-IsSound env collection st h id _))
      ]
    ]

  administer_all-IsSound :
      (calls : List (AdminEnv × AdminCall)) (st : RuleStore)
      → IsSound st
      → IsSound (administer_all x calls st)
  unfolding administer_all
  administer_all-IsSound [] st h = h
  administer_all-IsSound ((env, c) ∷ rest) st h =
      administer_all-IsSound rest (administer x env c st).0 (administer-IsSound env st h c)

  list_rules-All :
      (collection : Str) (ds : List RuleDoc)
      → All (λ d. IsValid d.rule) ds
      → All (IsRunnable x) (list_rules collection ds)
  unfolding list_rules
  list_rules-All collection [] h = tt
  list_rules-All collection (d ∷ ds) h = elim (Bool-cases (str_eq d.collection collection)) [
    | inl here ↦ rw here (validate_rule-IsRunnable x d.rule h.0, list_rules-All collection ds h.1)
    | inr other ↦ rw other (list_rules-All collection ds h.1)
  ]

  -- Whatever calls of the service come, in any order and with any failures, every rule that a
  -- collection lists can be run, no two rules have the same id, and no two of one collection
  -- have the same name.
  pub administer_all-IsRunnable :
      (calls : List (AdminEnv × AdminCall)) (collection : Str)
      → let st = administer_all x calls no_rules in
        All (IsRunnable x) (list_rules collection st.docs) × AreApart st.docs
  administer_all-IsRunnable calls collection =
      let h = administer_all-IsSound calls no_rules (tt, tt) in
      (list_rules-All collection (administer_all x calls no_rules).docs h.0, h.1)
