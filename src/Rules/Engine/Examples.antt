-- ===== src/Rules/Engine/Examples.antt =====
-- Tests of the rules engine, and its theorems at concrete inputs.
use letopis.Prelude.{
  arith, ℕ, ◌≡◌, leb, refl, str_eq, codes, true, false, none, some, List, [], ◌∷◌, length,
  if◌then◌else◌,
}
use letopis.Json.{end}
use letopis.Diff.Text.{contains_byte}
use letopis.Domain.Event.{EntityOp, Event}
use letopis.Rules.Model.{Rule}
use letopis.Rules.Compile.{classify, compile_scalar}
use letopis.Rules.Eval.{scalar_field}
use letopis.Rules.Meaning.{scalar_holds}
use letopis.Rules.Sample.{externals, rule}
use letopis.Rules.Engine.Effects.{Wiring, Principal, Key, Cache}
use letopis.Rules.Engine.Cached.{Reading, evaluate, rules_for, compile_enabled, put, load_entry}
use letopis.Rules.Engine.Messages.{invalidate_msg, parse_invalidate_msg, on_message}
use letopis.Rules.Engine.Firing.{expected}
use letopis.Rules.Engine.Asked.{Answers}
use letopis.Rules.Engine.Signals.{parse-invalidate_msg, evaluate-on_message}
use letopis.Rules.Engine.Fresh.{Reach, IsRecent, Reach-rules_for}

abbrev wiring : Wiring
wiring = record { has_publisher = true; has_action = λ kind. false; has_metrics = true }

abbrev principal : Principal
principal = record { database = codes "hm_acme"; tenant_id = codes "acme" }

-- one rule that holds, one that is off and one that does not hold
abbrev three_rules : List Rule
three_rules =
    rule (codes "r1") true (codes "crm")
    ∷ rule (codes "r2") false (codes "crm")
    ∷ rule (codes "r3") true (codes "erp")
    ∷ []

abbrev event : Event
event = record {
  entity_id = codes "deal-1";
  version = 1;
  op = EntityOp.create;
  author = [];
  source = codes "crm";
  ts_source = 0;
  ts_received = 1;
  ts_stored = 1;
  event_id = [];
  request_id = [];
  changes = [];
  meta = end;
  flow = none;
  integrity = none;
}

abbrev reading : Reading
reading = record { checked = 5; stored = 6 }

evaluate-on_message_example :
    Answers wiring
      (codes "acme")
      (codes "crm.deals")
      event
      externals
      three_rules
      (evaluate externals 30 wiring reading
        (some three_rules)
        (some principal)
        (codes "crm.deals")
        event
        (on_message (invalidate_msg (codes "hm_acme") (codes "crm.deals")) (λ key. none))).1
unfolding contains_byte
evaluate-on_message_example =
    evaluate-on_message externals 30 wiring reading three_rules principal (codes "crm.deals") event
      (λ key. none) (λ e. cc) (λ e. cc) refl

parse-invalidate_msg_example :
    parse_invalidate_msg (invalidate_msg (codes "hm_acme") (codes "crm.deals"))
    ≡ some (codes "hm_acme", codes "crm.deals")
unfolding contains_byte
parse-invalidate_msg_example =
    parse-invalidate_msg (codes "hm_acme") (codes "crm.deals") (λ e. cc) (λ e. cc) refl

-- An alert and its count.
one_alert :
    length (expected externals wiring (codes "acme") (codes "crm.deals") event three_rules) ≡ 2
unfolding expected classify compile_scalar scalar_holds scalar_field
one_alert = refl

abbrev deals : Key
deals = record { tenant = codes "hm_acme"; collection = codes "crm.deals" }

-- The repository's rules are removed at time 2.
abbrev repo : ℕ → Key → List Rule
repo t key = if leb t 1 then three_rules else []

-- A load reads the rules at 1, their removal is signalled at 2, and the load stores them at 3.
abbrev overtaken_cache : Cache
overtaken_cache =
    put deals (some (load_entry externals 30 3 (repo 1 deals))) (put deals none (λ key. none))

abbrev overtaken : Reach externals 30 4 repo overtaken_cache
overtaken = Reach.stores (Reach.evicts Reach.start deals) deals 1 3 (omega arith)

Reach-rules_for_example :
    IsRecent externals 30 4 repo 5 deals
      (rules_for externals 30 reading deals (some (repo 5 deals)) overtaken_cache).1
Reach-rules_for_example =
    Reach-rules_for externals 30 4 repo overtaken reading deals (omega arith) 5 (omega arith)

-- The removed rules are run at time 5, although the signal of their removal was handled at 2.
stale_after_signal :
    (rules_for externals 30 reading deals (some (repo 5 deals)) overtaken_cache).1
    ≡ compile_enabled externals three_rules
unfolding rules_for load_entry classify str_eq
stale_after_signal = refl
