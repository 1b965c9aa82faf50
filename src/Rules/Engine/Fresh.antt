-- ===== src/Rules/Engine/Fresh.antt =====
-- How old the rules can be that an evaluation runs: loads, evictions and hits in any interleaving.
use letopis.Prelude.{
  ℕ, ◌+◌, ltb, ◌≤◌, ◌<◌, ◌≡◌, refl, sym, ap, subst, ◌∙◌, true, Option, none, some, List, arith,
  Bool-cases, inl, inr, str_eq→eq,
}
use letopis.Rules.Model.{Externals, Rule}
use letopis.Rules.Engine.Effects.{Key, Entry, Cache, CompiledRule, same_key}
use letopis.Rules.Engine.Cached.{
  put, cached, compile_enabled, load_entry, hit_or_load, Reading, rules_for,
}

same_key→eq : (a b : Key) → same_key a b ≡ true → a ≡ b
same_key→eq a b h i = record {
  tenant = str_eq→eq a.tenant b.tenant (ground (arith, h)) i;
  collection = str_eq→eq a.collection b.collection (ground (arith, h)) i;
}

some-injective : {A : Type 0} (a b : A) → some a ≡ some b → a ≡ b
some-injective a b h = ap (λ o. elim o [ none ↦ a | some y ↦ y ]) h

module _ (x : Externals) (ttl d : ℕ) (repo : ℕ → Key → List Rule) where
  -- What happens to the cache: a load stores what the repository listed at `read`, at most `d` before,
  -- and a signal evicts an entry. Loads that overlap store in any order.
  pub data Reach : Cache → Type 0 where
    start : Reach (λ key. none)
    stores :
        {cache : Cache}
        → Reach cache
        → (key : Key) (read stored : ℕ) → stored ≤ read + d
        → Reach (put key (some (load_entry x ttl stored (repo read key))) cache)
    evicts : {cache : Cache} → Reach cache → (key : Key) → Reach (put key none cache)

  -- The rules are those that the repository listed at a time less than `d + ttl` before `now`.
  abbrev pub IsRecent : ℕ → Key → List CompiledRule → Type 0
  IsRecent now key rules =
      (read : ℕ) × (now < read + d + ttl) × (rules ≡ compile_enabled x (repo read key))

  abbrev AreRecent : Cache → Type 0
  AreRecent cache =
      (key : Key) (ent : Entry) (now : ℕ)
      → cache key ≡ some ent
      → ltb now ent.expires_at ≡ true
      → IsRecent now key ent.rules

  put-AreRecent :
      (cache : Cache) (key : Key) (o : Option Entry)
      → AreRecent cache
      → ((ent : Entry) (now : ℕ)
          → o ≡ some ent
          → ltb now ent.expires_at ≡ true
          → IsRecent now key ent.rules)
      → AreRecent (put key o cache)
  put-AreRecent cache key o h new k ent now e l = elim (Bool-cases (same_key k key)) [
    | inl same ↦
        let is : put key o cache k ≡ o = rw same refl in
        subst (λ j. IsRecent now j ent.rules) (sym (same_key→eq k key same))
          (new ent now (sym is ∙ e) l)
    | inr other ↦ let is : put key o cache k ≡ cache k = rw other refl in h k ent now (sym is ∙ e) l
  ]

  Reach-AreRecent : {cache : Cache} → Reach cache → AreRecent cache
  unfolding load_entry
  Reach-AreRecent start = λ k ent now e l. absurd (ground (arith, e))
  Reach-AreRecent (stores r key read stored late) =
      put-AreRecent _ key _ (Reach-AreRecent r) λ ent now e l.
        let is = some-injective _ ent e in
        (read, ground (arith, late, l, ap (λ y. y.expires_at) is), ap (λ y. y.rules) (sym is))
  Reach-AreRecent (evicts r key) =
      put-AreRecent _ key none (Reach-AreRecent r) λ ent now e l. absurd (ground (arith, e))

  hit_or_load-IsRecent :
      (o : Option Entry) (t : Reading) (key : Key) (cache : Cache)
      → ((ent : Entry)
          → o ≡ some ent
          → ltb t.checked ent.expires_at ≡ true
          → IsRecent t.checked key ent.rules)
      → 1 ≤ ttl
      → (read : ℕ) → t.checked ≤ read
      → IsRecent t.checked key
          (hit_or_load x ttl (cached t.checked o) t key (some (repo read key)) cache).1
  unfolding cached load_entry
  hit_or_load-IsRecent none t key cache h some_time read begun =
      (read, omega (arith, some_time, begun), refl)
  hit_or_load-IsRecent (some ent) t key cache h some_time read begun =
      elim (Bool-cases (ltb t.checked ent.expires_at)) [
        | inl live ↦ rw live (h ent refl live)
        | inr expired ↦ rw expired (read, omega (arith, some_time, begun), refl)
      ]

  -- The rules that an evaluation runs are those of the repository at a time less than the lifetime
  -- of an entry and the length of a load ago, in whatever order loads and evictions came before, where the
  -- lifetime is positive and no load takes longer than `d`.
  pub Reach-rules_for :
      {cache : Cache}
      → Reach cache
      → (t : Reading) (key : Key) → 1 ≤ ttl
      → (read : ℕ) → t.checked ≤ read
      → IsRecent t.checked key (rules_for x ttl t key (some (repo read key)) cache).1
  unfolding rules_for
  Reach-rules_for {cache} r t key some_time read begun =
      hit_or_load-IsRecent (cache key) t key cache
        (λ ent e live. Reach-AreRecent r key ent t.checked e live) some_time read begun
