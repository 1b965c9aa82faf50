-- ===== src/Rules/Engine/Asked.antt =====
-- What a rule asks for: the effects of its actions one by one, told by the kind of the action and what
-- is wired.
use letopis.Prelude.{
  ◌≡◌, ◌≢◌, ◌⊎◌, refl, sym, ap, ◌∙◌, Str, str_eq, str_eq→eq, str_eq_refl, codes, Bool, true, false,
  Option, none, some, List, [], ◌∷◌, ◌++◌, if◌then◌else◌, Bool-cases, inl, inr, arith,
}
use letopis.Domain.Event.{Event}
use letopis.Rules.Model.{Externals, Rule, Action, ActionType, LogAction, Webhook}
use letopis.Rules.Engine.Effects.{
  Wiring, Effect, alert, published, executed, counted, Level, debug, info, warn, error,
  parse_log_level, level_of, count, fire_kind, fire_webhook, fire, fire_all,
}
use letopis.Rules.Engine.Firing.{applies, expected}

-- the level of an alert by the text of the action
abbrev pub IsLevel : Option LogAction → Level → Type 0
IsLevel none l = l ≡ info
IsLevel (some a) debug = a.level ≡ codes "debug"
IsLevel (some a) warn = (a.level ≡ codes "warn") ⊎ (a.level ≡ codes "warning")
IsLevel (some a) error = a.level ≡ codes "error"
IsLevel (some a) info =
    (a.level ≢ codes "debug")
    × (a.level ≢ codes "warn")
    × (a.level ≢ codes "warning")
    × (a.level ≢ codes "error")

differ : (a b : Str) → str_eq a b ≡ false → a ≢ b
differ a b h e =
    let same : str_eq a b ≡ true = ap (str_eq a) (sym e) ∙ str_eq_refl a in
    absurd (ground (arith, h, same))

level_of-IsLevel : (o : Option LogAction) → IsLevel o (level_of o)
unfolding parse_log_level
level_of-IsLevel none = refl
level_of-IsLevel (some a) = elim (Bool-cases (str_eq a.level (codes "debug"))) [
  | inl d ↦ rw d (str_eq→eq a.level (codes "debug") d)
  | inr d ↦ elim (Bool-cases (str_eq a.level (codes "warn"))) [
    | inl w ↦ rw d (rw w (inl (str_eq→eq a.level (codes "warn") w)))
    | inr w ↦ elim (Bool-cases (str_eq a.level (codes "warning"))) [
      | inl g ↦ rw d (rw w (rw g (inr (str_eq→eq a.level (codes "warning") g))))
      | inr g ↦ elim (Bool-cases (str_eq a.level (codes "error"))) [
        | inl e ↦ rw d (rw w (rw g (rw e (str_eq→eq a.level (codes "error") e))))
        | inr e ↦ rw d (rw w (rw g (rw e (differ _ _ d, differ _ _ w, differ _ _ g, differ _ _ e))))
      ]
    ]
  ]
]

either :
    (P : List Effect → Type 0) (b : Bool) (xs ys : List Effect)
    → (b ≡ true → P xs)
    → (b ≡ false → P ys)
    → P (if b then xs else ys)
either P true xs ys f g = f refl
either P false xs ys f g = g refl

module _ (w : Wiring) (tenant_id collection : Str) (ev : Event) where
  -- a count of the action, where there is a counter
  pub data Counts (action : Str) : List Effect → Type 0 where
    once : w.has_metrics ≡ true → Counts action (counted tenant_id action ∷ [])
    never : w.has_metrics ≡ false → Counts action []

  -- the effects of one action of a rule
  pub data Asks (r : Rule) (a : Action) : List Effect → Type 0 where
    logs :
        {l : Level} {c : List Effect}
        → a.kind ≡ ActionType.log
        → IsLevel a.log l
        → Counts (codes "log") c
        → Asks r a (alert l collection r.id r.name ev ∷ c)
    publishes :
        {hook : Webhook} {c : List Effect}
        → a.kind ≡ ActionType.webhook
        → a.webhook ≡ some hook
        → w.has_publisher ≡ true
        → Counts (codes "webhook") c
        → Asks r a (
            published (record {
              collection = collection;
              event = ev;
              rule_id = r.id;
              rule_name = r.name;
              webhook = hook;
            })
            ∷ c)
    drops :
        {c : List Effect}
        → a.kind ≡ ActionType.webhook
        → (a.webhook ≡ none) ⊎ (w.has_publisher ≡ false)
        → Counts (codes "webhook") c
        → Asks r a c
    executes :
        {kind : Str} {c : List Effect}
        → a.kind ≡ ActionType.other kind
        → w.has_action kind ≡ true
        → Counts kind c
        → Asks r a (executed kind ev a.params ∷ c)
    skips : {kind : Str} → a.kind ≡ ActionType.other kind → w.has_action kind ≡ false → Asks r a []

  -- those of its actions, all of them and in order
  pub data AskAll (r : Rule) : List Action → List Effect → Type 0 where
    none_left : AskAll r [] []
    one_more :
        {a : Action} {rest : List Action} {xs ys : List Effect}
        → Asks r a xs
        → AskAll r rest ys
        → AskAll r (a ∷ rest) (xs ++ ys)

  count-Counts : (action : Str) → Counts action (count w tenant_id collection ev action)
  count-Counts action = either (Counts action) w.has_metrics _ _ (λ on. once on) (λ off. never off)

  webhook-Asks :
      (r : Rule) (a : Action) (o : Option Webhook)
      → a.kind ≡ ActionType.webhook
      → a.webhook ≡ o
      → Asks r a (
          fire_webhook w tenant_id collection ev r.id r.name o
          ++ count w tenant_id collection ev (codes "webhook"))
  webhook-Asks r a none k e = drops k (inl e) (count-Counts (codes "webhook"))
  webhook-Asks r a (some hook) k e =
      let c = count-Counts (codes "webhook") in
      either (λ xs. Asks r a (xs ++ count w tenant_id collection ev (codes "webhook")))
        w.has_publisher _ _ (λ on. publishes k e on c) (λ off. drops k (inr off) c)

  fire_kind-Asks :
      (r : Rule) (a : Action) (k : ActionType)
      → a.kind ≡ k
      → Asks r a (fire_kind w tenant_id collection ev k r.id r.name a)
  fire_kind-Asks r a ActionType.log k = logs k (level_of-IsLevel a.log) (count-Counts (codes "log"))
  fire_kind-Asks r a ActionType.webhook k = webhook-Asks r a a.webhook k refl
  fire_kind-Asks r a (ActionType.other kind) k =
      either (Asks r a) (w.has_action kind) _ _ (λ on. executes k on (count-Counts kind))
        (λ off. skips k off)

  fire_all-AskAll :
      (r : Rule) (rest : List Action)
      → AskAll r rest (fire_all w tenant_id collection ev r.id r.name rest)
  unfolding fire_all fire
  fire_all-AskAll r [] = none_left
  fire_all-AskAll r (a ∷ rest) = one_more (fire_kind-Asks r a a.kind refl) (fire_all-AskAll r rest)

  module _ (x : Externals) where
    -- The effects of the rules that apply, in the order of the rules.
    pub data Answers : List Rule → List Effect → Type 0 where
      none_left : Answers [] []
      fired :
          {r : Rule} {rs : List Rule} {xs ys : List Effect}
          → applies x ev r ≡ true
          → AskAll r r.actions xs
          → Answers rs ys
          → Answers (r ∷ rs) (xs ++ ys)
      passed :
          {r : Rule} {rs : List Rule} {ys : List Effect}
          → applies x ev r ≡ false
          → Answers rs ys
          → Answers (r ∷ rs) ys

    pub expected-Answers : (rs : List Rule) → Answers rs (expected x w tenant_id collection ev rs)
    unfolding expected
    expected-Answers [] = none_left
    expected-Answers (r ∷ rs) =
        let later = expected-Answers rs in
        either (Answers (r ∷ rs)) (applies x ev r) _ _
          (λ on. fired on (fire_all-AskAll r r.actions) later) (λ off. passed off later)
