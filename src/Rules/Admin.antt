-- ===== src/Rules/Admin.antt =====
-- internal/service/rule_admin.go: RuleService over the rules of one tenant, with the documents and
-- the unique indexes of internal/storage/mongo/rule_repo.go. A value of a condition comes back as it was
-- stored, and the documents stand in the order of their creation.
mod Apart
mod Sound
mod Examples
use letopis.Prelude.{
  ℕ, Str, str_eq, codes, Bool, true, false, not, ◌&&◌, Option, none, some, List, [], ◌∷◌, ◌++◌, map,
  if◌then◌else◌,
}
use letopis.Prelude.Int.{ℤ, pos, suc_int}
use letopis.Rules.Model
use letopis.Rules.Model.{Externals, Action, Rule, RuleError}
use letopis.Rules.Validate.{is_blank, validate_rule}
use letopis.Storage.Names.{validate_logical}

-- a document of `_rules`
pub record RuleDoc : Type 0 where
  pub collection : Str
  pub rule : Rule

pub data AuditAction : Type 0 where
  rule_created rule_updated rule_deleted : AuditAction

pub record Audit : Type 0 where
  pub action : AuditAction
  pub collection : Str
  pub rule_id : Str
  pub name : Str
  pub version : ℤ

-- `signals` are the collections whose cached rules were invalidated, the last one first.
pub record RuleStore : Type 0 where
  pub docs : List RuleDoc
  pub audits : List Audit
  pub signals : List Str

-- What is wired, and which calls fail.
pub record AdminEnv : Type 0 where
  pub has_cache : Bool
  pub has_audit : Bool
  pub storage_fails : Bool
  pub audit_fails : Bool

pub data AdminError : Type 0 where
  rule_invalid : RuleError → AdminError
  name_conflict not_found storage_failed : AdminError

pub data AdminResult : Type 0 where
  saved : Rule → AdminResult
  deleted : AdminResult
  refused : AdminError → AdminResult

-- toActionDocs has no place for the params.
abbrev pub to_action_doc : Action → Action
to_action_doc a = record a { params = [] }

abbrev pub to_rule_doc : Str → Rule → RuleDoc
to_rule_doc collection r = record {
  collection = collection;
  rule = record r { actions = map to_action_doc r.actions };
}

abbrev pub is_at : Str → Str → RuleDoc → Bool
is_at collection id d = str_eq d.rule.id id && str_eq d.collection collection

-- the primary key
unfoldable pub has_id : Str → List RuleDoc → Bool
has_id id [] = false
has_id id (d ∷ ds) = if str_eq d.rule.id id then true else has_id id ds

-- the unique index on the collection and the name, for a document of the given id
abbrev pub takes_name : Str → Str → Str → RuleDoc → Bool
takes_name id collection name d =
    not (str_eq d.rule.id id) && (str_eq d.collection collection && str_eq d.rule.name name)

unfoldable pub has_name : Str → Str → Str → List RuleDoc → Bool
has_name id collection name [] = false
has_name id collection name (d ∷ ds) =
    if takes_name id collection name d then true else has_name id collection name ds

unfoldable pub find_rule : Str → Str → List RuleDoc → Option Rule
find_rule collection id [] = none
find_rule collection id (d ∷ ds) =
    let rest = find_rule collection id ds in if is_at collection id d then some d.rule else rest

unfoldable pub list_rules : Str → List RuleDoc → List Rule
list_rules collection [] = []
list_rules collection (d ∷ ds) =
    let rest = list_rules collection ds in
    if str_eq d.collection collection then d.rule ∷ rest else rest

-- the update of one document: its body is set and its version counted up
abbrev pub set_body : Str → Rule → RuleDoc → RuleDoc
set_body collection r d =
    if is_at collection r.id d
    then record d {
      rule = record r { actions = map to_action_doc r.actions; version = suc_int d.rule.version };
    }
    else d

unfoldable pub remove_rule : Str → Str → List RuleDoc → List RuleDoc
remove_rule collection id [] = []
remove_rule collection id (d ∷ ds) =
    let rest = remove_rule collection id ds in if is_at collection id d then ds else d ∷ rest

module _ (env : AdminEnv) where
  -- audited and invalidate, which follow every change
  abbrev pub after_change : AuditAction → Str → Rule → RuleStore → RuleStore
  after_change action collection r st = record st {
    audits =
        if env.has_audit && not env.audit_fails
        then record {
          action = action;
          collection = collection;
          rule_id = r.id;
          name = r.name;
          version = r.version;
        }
          ∷ st.audits
        else st.audits;
    signals = if env.has_cache then collection ∷ st.signals else st.signals;
  }

  -- RuleRepo.Create of a rule with its id, version and time
  unfoldable pub insert_rule : Str → Rule → RuleStore → RuleStore × AdminResult
  unfolding has_id has_name
  insert_rule collection r st =
      if not (validate_logical collection)
      then (st, refused storage_failed)
      else if env.storage_fails
      then (st, refused storage_failed)
      else if has_id r.id st.docs
      then (st, refused storage_failed)
      else if has_name r.id collection r.name st.docs
      then (st, refused name_conflict)
      else (
        after_change rule_created collection r
            (record st { docs = st.docs ++ to_rule_doc collection r ∷ [] }),
        saved r,
      )

  -- RuleRepo.Update, once the document was looked for
  unfoldable pub replace_rule : Str → Rule → Option Rule → RuleStore → RuleStore × AdminResult
  unfolding has_name
  replace_rule collection r none st = (st, refused not_found)
  replace_rule collection r (some old) st =
      let r' = record r { version = suc_int old.version } in
      if has_name r.id collection r.name st.docs then (st, refused name_conflict) else (
        after_change rule_updated collection r'
            (record st { docs = map (set_body collection r) st.docs }),
        saved r',
      )

  -- Delete, once the rule was read
  unfoldable pub drop_rule : Str → Str → Option Rule → RuleStore → RuleStore × AdminResult
  unfolding remove_rule
  drop_rule collection id none st = (st, refused not_found)
  drop_rule collection id (some old) st = (
    after_change rule_deleted collection old
        (record st { docs = remove_rule collection id st.docs }),
    deleted,
  )

  module _ (x : Externals) where
    abbrev pub if_valid :
        Model.Result (Unit {0}) → RuleStore × AdminResult → RuleStore → RuleStore × AdminResult
    if_valid (Model.ok u) go st = go
    if_valid (Model.err e) go st = (st, refused (rule_invalid e))

    -- Create, with the id that NewRuleID would give
    unfoldable pub create_rule : Str → ℕ → Str → Rule → RuleStore → RuleStore × AdminResult
    unfolding validate_rule insert_rule
    create_rule new_id now collection r st =
        let r' = record r {
          id = if is_blank r.id then new_id else r.id;
          version = pos 1;
          updated_at = now;
        } in
        if_valid (validate_rule x r) (insert_rule collection r' st) st

    unfoldable pub update_rule : ℕ → Str → Str → Rule → RuleStore → RuleStore × AdminResult
    unfolding validate_rule replace_rule find_rule
    update_rule now collection id r st =
        let r' = record r { id = id; updated_at = now } in
        if_valid (validate_rule x (record r { id = id }))
          (if not (validate_logical collection)
            then (st, refused storage_failed)
            else if env.storage_fails
            then (st, refused storage_failed)
            else replace_rule collection r' (find_rule collection id st.docs) st)
          st

  unfoldable pub delete_rule : Str → Str → RuleStore → RuleStore × AdminResult
  unfolding drop_rule find_rule
  delete_rule collection id st =
      if not (validate_logical collection)
      then (st, refused storage_failed)
      else if env.storage_fails
      then (st, refused storage_failed)
      else drop_rule collection id (find_rule collection id st.docs) st

-- the calls of the service
pub data AdminCall : Type 0 where
  create : Str → ℕ → Str → Rule → AdminCall
  update : ℕ → Str → Str → Rule → AdminCall
  delete : Str → Str → AdminCall

unfoldable pub administer : Externals → AdminEnv → AdminCall → RuleStore → RuleStore × AdminResult
unfolding create_rule update_rule delete_rule
administer x env (create new_id now collection r) st = create_rule env x new_id now collection r st
administer x env (update now collection id r) st = update_rule env x now collection id r st
administer x env (delete collection id) st = delete_rule env collection id st

-- calls in turn, each with its own failures
unfoldable pub administer_all : Externals → List (AdminEnv × AdminCall) → RuleStore → RuleStore
unfolding administer
administer_all x [] st = st
administer_all x ((env, c) ∷ rest) st = administer_all x rest (administer x env c st).0

abbrev pub no_rules : RuleStore
no_rules = record { docs = []; audits = []; signals = [] }
