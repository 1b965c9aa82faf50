-- ===== src/Rules/Admin/Apart.antt =====
-- Documents of rules with distinct ids, and distinct names in a collection, and what keeps them so.
use letopis.Prelude.{
  ◌≡◌, refl, sym, ap, subst, ◌∙◌, Str, str_eq, str_eq→eq, str_eq_refl, true, false, ◌&&◌, List, [],
  ◌∷◌, ◌++◌, map, All, arith, Bool-cases, inl, inr,
}
use letopis.Json.Object.{str_eq_sym}
use letopis.Rules.Model.{Rule}
use letopis.Rules.Admin.{RuleDoc, is_at, has_id, takes_name, has_name, set_body, remove_rule}

-- Two documents with another id, and with another name where they are of one collection.
abbrev pub IsApart : RuleDoc → RuleDoc → Type 0
IsApart a b =
    (str_eq a.rule.id b.rule.id ≡ false)
    × ((str_eq a.collection b.collection && str_eq a.rule.name b.rule.name) ≡ false)

abbrev pub AreApart : List RuleDoc → Type 0
AreApart [] = Unit {0}
AreApart (d ∷ ds) = All (IsApart d) ds × AreApart ds

pub AreApart-append :
    (ds : List RuleDoc) (d : RuleDoc)
    → AreApart ds
    → All (λ a. IsApart a d) ds
    → AreApart (ds ++ d ∷ [])
AreApart-append [] d h n = (tt, tt)
AreApart-append (a ∷ ds) d h n = (snoc ds h.0, AreApart-append ds d h.1 n.1)
  where
    snoc : (xs : List RuleDoc) → All (IsApart a) xs → All (IsApart a) (xs ++ d ∷ [])
    snoc [] p = (n.0, tt)
    snoc (y ∷ xs) p = (p.0, snoc xs p.1)

pub unused-IsApart :
    (ds : List RuleDoc) (d : RuleDoc)
    → has_id d.rule.id ds ≡ false
    → has_name d.rule.id d.collection d.rule.name ds ≡ false
    → All (λ a. IsApart a d) ds
unfolding has_id has_name
unused-IsApart [] d i n = tt
unused-IsApart (a ∷ ds) d i n = elim (Bool-cases (str_eq a.rule.id d.rule.id)) [
  | inl same ↦ absurd (ground (arith, i, same))
  | inr other ↦ (
    (other, ground (arith, n, other)),
    unused-IsApart ds d (ground (arith, i, other)) (ground (arith, n)),
  )
]

IsApart-sym : (a b : RuleDoc) → IsApart a b → IsApart b a
IsApart-sym a b h = (
  str_eq_sym b.rule.id a.rule.id ∙ h.0,
  rw (str_eq_sym b.collection a.collection) (rw (str_eq_sym b.rule.name a.rule.name) h.1),
)

module _ (collection : Str) (r : Rule) where
  at-equal :
      (a : RuleDoc)
      → is_at collection r.id a ≡ true
      → (a.rule.id ≡ r.id) × (a.collection ≡ collection)
  at-equal a h =
      let both : (str_eq a.rule.id r.id ≡ true) × (str_eq a.collection collection ≡ true) =
        ground (arith, h) in
      (str_eq→eq a.rule.id r.id both.0, str_eq→eq a.collection collection both.1)

  -- the updated document against one that does not have the name it takes
  updated-IsApart :
      (a b : RuleDoc)
      → IsApart a b
      → is_at collection r.id a ≡ true
      → takes_name r.id collection r.name b ≡ false
      → IsApart (set_body collection r a) b
  updated-IsApart a b h at_a nb =
      let is = at-equal a at_a in
      let other : str_eq r.id b.rule.id ≡ false = ap (λ y. str_eq y b.rule.id) (sym is.0) ∙ h.0 in
      let back : str_eq b.rule.id r.id ≡ false = str_eq_sym b.rule.id r.id ∙ other in
      let place : str_eq a.collection b.collection ≡ str_eq b.collection collection =
        ap (λ y. str_eq y b.collection) is.1 ∙ str_eq_sym collection b.collection in
      let named = str_eq_sym r.name b.rule.name in
      rw at_a (other, rw place (rw named (ground (arith, nb, back))))

  -- no other document has the name that the update takes
  set_body-IsApart :
      (a b : RuleDoc)
      → IsApart a b
      → takes_name r.id collection r.name a ≡ false
      → takes_name r.id collection r.name b ≡ false
      → IsApart (set_body collection r a) (set_body collection r b)
  set_body-IsApart a b h na nb = elim (Bool-cases (is_at collection r.id a)) [
    | inl at_a ↦ elim (Bool-cases (is_at collection r.id b)) [
      | inl at_b ↦
          let same = (at-equal a at_a).0 ∙ sym (at-equal b at_b).0 in
          absurd (ground (arith, h.0, ap (λ y. str_eq y b.rule.id) same, str_eq_refl b.rule.id))
      | inr off_b ↦
          let kept : b ≡ set_body collection r b = rw off_b refl in
          subst (IsApart (set_body collection r a)) kept (updated-IsApart a b h at_a nb)
    ]
    | inr off_a ↦
        let kept : a ≡ set_body collection r a = rw off_a refl in
        elim (Bool-cases (is_at collection r.id b)) [
          | inl at_b ↦
              subst (λ y. IsApart y (set_body collection r b)) kept
                (IsApart-sym (set_body collection r b) a
                  (updated-IsApart b a (IsApart-sym a b h) at_b na))
          | inr off_b ↦ rw off_a (rw off_b h)
        ]
  ]

  -- the head of the names, and the rest
  free_head :
      (d : RuleDoc) (ds : List RuleDoc)
      → has_name r.id collection r.name (d ∷ ds) ≡ false
      → (takes_name r.id collection r.name d ≡ false) × (has_name r.id collection r.name ds ≡ false)
  unfolding has_name
  free_head d ds n = elim (Bool-cases (takes_name r.id collection r.name d)) [
    | inl taken ↦ absurd (ground (arith, n, taken))
    | inr free ↦ (free, sym (rw free refl) ∙ n)
  ]

  set_body-others :
      (d : RuleDoc) (ds : List RuleDoc)
      → takes_name r.id collection r.name d ≡ false
      → has_name r.id collection r.name ds ≡ false
      → All (IsApart d) ds
      → All (IsApart (set_body collection r d)) (map (set_body collection r) ds)
  set_body-others d [] free n h = tt
  set_body-others d (y ∷ ds) free n h =
      let head = free_head y ds n in
      (set_body-IsApart d y h.0 free head.0, set_body-others d ds free head.1 h.1)

  pub set_body-AreApart :
      (ds : List RuleDoc)
      → AreApart ds
      → has_name r.id collection r.name ds ≡ false
      → AreApart (map (set_body collection r) ds)
  set_body-AreApart [] h n = tt
  set_body-AreApart (d ∷ ds) h n =
      let head = free_head d ds n in
      (set_body-others d ds head.0 head.1 h.0, set_body-AreApart ds h.1 head.1)

pub remove_rule-All :
    (P : RuleDoc → Type 0) (collection id : Str) (ds : List RuleDoc)
    → All P ds
    → All P (remove_rule collection id ds)
unfolding remove_rule
remove_rule-All P collection id [] h = tt
remove_rule-All P collection id (d ∷ ds) h = elim (Bool-cases (is_at collection id d)) [
  | inl here ↦ rw here h.1
  | inr other ↦ rw other (h.0, remove_rule-All P collection id ds h.1)
]

pub remove_rule-AreApart :
    (collection id : Str) (ds : List RuleDoc)
    → AreApart ds
    → AreApart (remove_rule collection id ds)
unfolding remove_rule
remove_rule-AreApart collection id [] h = tt
remove_rule-AreApart collection id (d ∷ ds) h = elim (Bool-cases (is_at collection id d)) [
  | inl here ↦ rw here h.1
  | inr other ↦
      rw other (
        remove_rule-All (IsApart d) collection id ds h.0,
        remove_rule-AreApart collection id ds h.1,
      )
]
