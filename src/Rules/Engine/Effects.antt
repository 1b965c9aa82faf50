-- ===== src/Rules/Engine/Effects.antt =====
-- internal/service/rules_engine.go: the data of the engine, and the actions that a matched rule fires.
-- Effects are values; warnings of the log are left out, since nothing depends on them.
use letopis.Prelude.{
  ℕ, Str, str_eq, codes, Bool, ◌&&◌, Option, none, some, List, [], ◌∷◌, ◌++◌, if◌then◌else◌,
}
use letopis.Domain.Event.{EntityOp, Event}
use letopis.Rules.Model.{Externals, Predicate, Action, ActionType, LogAction, Webhook, EvalEvent}
use letopis.Rules.Eval.{eval}

pub record DeliveryRequest : Type 0 where
  pub collection : Str
  pub event : Event
  pub rule_id : Str
  pub rule_name : Str
  pub webhook : Webhook

pub record Key : Type 0 where
  pub tenant : Str
  pub collection : Str

pub record CompiledRule : Type 0 where
  pub id : Str
  pub name : Str
  pub pred : Predicate
  pub actions : List Action

pub record Entry : Type 0 where
  pub rules : List CompiledRule
  pub expires_at : ℕ

abbrev pub Cache : Type 0
Cache = Key → Option Entry

pub data Level : Type 0 where
  debug info warn error : Level

-- what an action does: a line of the log, a call of the publisher or of a plugin, a count
pub data Effect : Type 0 where
  alert : Level → Str → Str → Str → Event → Effect
  published : DeliveryRequest → Effect
  executed : Str → Event → Str → Effect
  counted : Str → Str → Effect

-- What is wired: the publisher, the types that the plugin host has a plugin for, the counter.
pub record Wiring : Type 0 where
  pub has_publisher : Bool
  pub has_action : Str → Bool
  pub has_metrics : Bool

-- Tenant.DatabaseName and Tenant.ID of the principal
pub record Principal : Type 0 where
  pub database : Str
  pub tenant_id : Str

abbrev pub same_key : Key → Key → Bool
same_key a b = str_eq a.tenant b.tenant && str_eq a.collection b.collection

abbrev pub op_text : EntityOp → Str
op_text EntityOp.unset = []
op_text EntityOp.create = codes "create"
op_text EntityOp.update = codes "update"
op_text EntityOp.delete = codes "delete"
op_text (EntityOp.other o) = o

abbrev pub to_eval_event : Event → EvalEvent
to_eval_event ev = record {
  op = op_text ev.op;
  entity_id = ev.entity_id;
  author = ev.author;
  source = ev.source;
  changes = ev.changes;
}

unfoldable pub parse_log_level : Str → Level
unfolding str_eq
parse_log_level l =
    if str_eq l (codes "debug")
    then debug
    else if str_eq l (codes "warn")
    then warn
    else if str_eq l (codes "warning")
    then warn
    else if str_eq l (codes "error")
    then error
    else info

abbrev pub level_of : Option LogAction → Level
level_of none = info
level_of (some l) = parse_log_level l.level

module _ (w : Wiring) (tenant_id : Str) (collection : Str) (ev : Event) where
  abbrev pub count : Str → List Effect
  count action = if w.has_metrics then counted tenant_id action ∷ [] else []

  abbrev pub fire_log : Str → Str → Action → List Effect
  fire_log id name a = alert (level_of a.log) collection id name ev ∷ []

  abbrev pub fire_webhook : Str → Str → Option Webhook → List Effect
  fire_webhook id name none = []
  fire_webhook id name (some hook) =
      if w.has_publisher
      then published (record {
        collection = collection;
        event = ev;
        rule_id = id;
        rule_name = name;
        webhook = hook;
      })
        ∷ []
      else []

  abbrev pub fire_plugin : Str → Action → List Effect
  fire_plugin kind a = if w.has_action kind then executed kind ev a.params ∷ count kind else []

  abbrev pub fire_kind : ActionType → Str → Str → Action → List Effect
  fire_kind ActionType.log id name a = fire_log id name a ++ count (codes "log")
  fire_kind ActionType.webhook id name a = fire_webhook id name a.webhook ++ count (codes "webhook")
  fire_kind (ActionType.other kind) id name a = fire_plugin kind a

  unfoldable pub fire : Str → Str → Action → List Effect
  unfolding parse_log_level
  fire id name a = fire_kind a.kind id name a

  unfoldable pub fire_all : Str → Str → List Action → List Effect
  unfolding fire
  fire_all id name [] = []
  fire_all id name (a ∷ rest) = fire id name a ++ fire_all id name rest

  -- the loop of Evaluate over the compiled rules
  unfoldable pub fire_rules : Externals → List CompiledRule → List Effect
  unfolding fire_all eval
  fire_rules x [] = []
  fire_rules x (r ∷ rest) =
      let more = fire_rules x rest in
      if eval x r.pred (to_eval_event ev) then fire_all r.id r.name r.actions ++ more else more
