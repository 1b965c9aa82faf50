-- ===== src/Rules/Model.antt =====
-- internal/rules/rules.go: the data types. Strings with constants are data types, where `unset` is
-- the empty string and `other` any text that is no constant of the source.
use letopis.Prelude.{ℕ, Str, Bool, Option, List}
use letopis.Prelude.Int.{ℤ}
use letopis.Json.{Value}
use letopis.Diff.Model
use letopis.Diff.Model.{Change}

pub data Op : Type 0 where
  unset eq ne in_list gt gte lt lte regex exists : Op
  other : Str → Op

pub data Field : Type 0 where
  unset op entity_id author_id source : Field
  other : Str → Field

-- The empty string is no criterion.
pub data ChangeOp : Type 0 where
  any_op : ChangeOp
  only : Model.Op → ChangeOp

pub record Match : Type 0 where
  pub path : Str
  pub op : ChangeOp
  pub old : Value
  pub new : Value
  pub has_old : Bool
  pub has_new : Bool

-- A node has every field of the struct. `nil` is a nil slice and `empty` an empty one; `absent` is
-- a nil pointer.
mutual
  pub data Condition : Type 0 where
    node : Conditions → Conditions → Negated → Field → Op → Value → Option Match → Condition

  pub data Conditions : Type 0 where
    nil : Conditions
    empty : Conditions
    more : Condition → Conditions → Conditions

  pub data Negated : Type 0 where
    absent : Negated
    negated : Condition → Negated

pub record EvalEvent : Type 0 where
  pub op : Str
  pub entity_id : Str
  pub author : Str
  pub source : Str
  pub changes : List Change

pub record RuleError : Type 0 where
  pub field : Str
  pub reason : Str

pub data Result {ℓ} (A : Type ℓ) : Type ℓ where
  ok : A → Result A
  err : RuleError → Result A

infixl 5 ◌>>=◌
abbrev pub ◌>>=◌ {ℓ κ} : {A : Type ℓ} {B : Type κ} → Result A → (A → Result B) → Result B
ok a >>= f = f a
err e >>= f = err e

-- What the package takes from strconv and regexp: floats are bit patterns, and a pattern that
-- compiles is its matcher.
pub record Externals : Type 0 where
  pub format_float : ℕ → Str
  pub parse_float : Str → Option ℕ
  pub of_int : ℤ → ℕ
  pub float_lt : ℕ → ℕ → Bool
  pub float_le : ℕ → ℕ → Bool
  pub compile_regex : Str → Option (Str → Bool)
  pub regex_error : Str → Str
  pub quote : Str → Str

-- The compiled form. A scalar predicate has the operand that its operator needs.
mutual
  pub data Predicate : Type 0 where
    all_pred : Predicates → Predicate
    any_pred : Predicates → Predicate
    not_pred : Predicate → Predicate
    eq_pred : Field → Str → Predicate
    ne_pred : Field → Str → Predicate
    in_pred : Field → List Str → Predicate
    num_pred : Field → Op → ℕ → Predicate
    regex_pred : Field → (Str → Bool) → Predicate
    exists_pred : Field → Predicate
    match_pred : List Str → Match → Predicate

  pub data Predicates : Type 0 where
    none_left : Predicates
    one_more : Predicate → Predicates → Predicates

pub data ActionType : Type 0 where
  webhook log : ActionType
  other : Str → ActionType

pub record Retry : Type 0 where
  pub max_attempts : ℤ
  pub backoff : Str

pub record Webhook : Type 0 where
  pub url : Str
  pub secret_ref : Str
  pub timeout_ms : ℤ
  pub retry : Retry

pub record LogAction : Type 0 where
  pub level : Str

pub record Action : Type 0 where
  pub kind : ActionType
  pub webhook : Option Webhook
  pub log : Option LogAction
  pub params : Str

pub record Rule : Type 0 where
  pub id : Str
  pub name : Str
  pub enabled : Bool
  pub condition : Condition
  pub actions : List Action
  pub version : ℤ
  pub updated_at : ℕ
