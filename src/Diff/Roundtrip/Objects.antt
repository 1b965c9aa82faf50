-- ===== src/Diff/Roundtrip/Objects.antt =====
-- The loop of diffMap, one key at a time.
use letopis.Prelude.{
  ℕ, ◌<◌, ◌≡◌, refl, sym, ap, ◌∙◌, Str, str_eq→eq, str_eq_refl, true, false, ◌||◌, Option, none,
  some, List, [], ◌∷◌, if◌then◌else◌, arith,
}
use letopis.Json.{Value, obj, Fields, IsSorted, IsValue, IsFields, depth_fields}
use letopis.Json.Object.{
  lookup, put, delete, lookup-put, lookup-delete, put-IsSorted, delete-IsSorted, lookup_ext,
  IsSorted-IsFields, lookup-IsValue, lookup-depth,
}
use letopis.Diff.Model.{ok}
use letopis.Diff.Path.{parse_path}
use letopis.Diff.Compute.{Rec, contains, diff_key, diff_keys, diff_map, sorted_union}
use letopis.Diff.Compute.Union.{
  is_some, IsDistinct, contains-sorted_union, sorted_union-IsAscending, IsAscending-IsDistinct,
}
use letopis.Diff.Plain.{IsPlain, IsPlainFields, lookup-IsPlain}
use letopis.Diff.Apply.{apply_all}
use letopis.Diff.Context.{Frame, plug, segs, IsNarrow}
use letopis.Diff.Roundtrip.Steps.{
  RecIsRight, apply_all_then, at_key_recurse, at_key_add, at_key_remove,
}

module _ (format_float : ℕ → Str) (ctx : List Frame) (path : Str)
    (parsed : parse_path path ≡ ok (segs ctx)) (narrow : IsNarrow ctx) (rec : Rec) (n : ℕ) where
  -- The entries of the state between two rounds: those of `b` for the keys that were visited, those
  -- of `a` for the keys that are left.
  abbrev Between : Fields → Fields → List Str → Fields → Type 0
  Between a b ks cur = (j : Str) → lookup j cur ≡ (if contains ks j then lookup j a else lookup j b)

  module _ (am bm : Fields) (right : RecIsRight format_float rec n)
      (ga : IsFields am × IsPlainFields am) (gb : IsFields bm × IsPlainFields bm)
      (deep : depth_fields am < n) where
    -- What one round makes of the state.
    after : Str → Option Value → Fields → Fields
    after k (some v) cur = put k v cur
    after k none cur = delete k cur

    after-Between :
        (k j : Str) (ks : List Str) (cur : Fields) (ob : Option Value)
        → lookup k bm ≡ ob
        → contains ks k ≡ false
        → Between am bm (k ∷ ks) cur
        → lookup j (after k ob cur) ≡ (if contains ks j then lookup j am else lookup j bm)
    unfolding after
    after-Between k j ks cur (some v) eb fresh between =
        ground (arith, lookup-put j k v cur, between j, str_eq→eq j k)
    after-Between k j ks cur none eb fresh between =
        ground (arith, lookup-delete j k cur, between j, str_eq→eq j k)

    after-IsSorted :
        (k : Str) (cur : Fields) (ob : Option Value) → IsSorted cur → IsSorted (after k ob cur)
    unfolding after
    after-IsSorted k cur (some v) s = put-IsSorted k v cur s
    after-IsSorted k cur none s = delete-IsSorted k cur s

    good_a : (k : Str) (v : Value) → lookup k am ≡ some v → IsValue v × IsPlain v
    good_a k v e = (lookup-IsValue k am ga.0 e, (lookup-IsPlain k am v ga.1 e).1)

    good_b : (k : Str) (v : Value) → lookup k bm ≡ some v → IsValue v × IsPlain v
    good_b k v e = (lookup-IsValue k bm gb.0 e, (lookup-IsPlain k bm v gb.1 e).1)

    one_round :
        (k : Str) (cur : Fields) (oa ob : Option Value)
        → lookup k am ≡ oa
        → lookup k bm ≡ ob
        → (is_some oa || is_some ob) ≡ true
        → IsSorted cur
        → lookup k cur ≡ oa
        → apply_all format_float (plug ctx (obj cur)) (diff_key rec path k oa ob)
          ≡ ok (plug ctx (obj (after k ob cur)))
    unfolding diff_key after
    one_round k cur (some av) (some bv) ea eb h s e =
        at_key_recurse format_float ctx path parsed narrow rec n k cur av bv right
          (lookup-IsPlain k am av ga.1 ea).0 s e (good_a k av ea) (good_b k bv eb)
          (omega (arith, lookup-depth k am av ea))
    one_round k cur (some av) none ea eb h s e =
        at_key_remove format_float ctx path parsed narrow k cur av
          (lookup-IsPlain k am av ga.1 ea).0 e
    one_round k cur none (some bv) ea eb h s e =
        at_key_add format_float ctx path parsed narrow k cur bv (lookup-IsPlain k bm bv gb.1 eb).0
    one_round k cur none none ea eb h s e = cc

    -- Every key that is left is in one of the objects.
    abbrev Known : List Str → Type 0
    Known [] = Unit {0}
    Known (k ∷ ks) = ((is_some (lookup k am) || is_some (lookup k bm)) ≡ true) × Known ks

    rounds :
        (ks : List Str) (cur : Fields)
        → IsDistinct ks
        → Known ks
        → IsSorted cur
        → Between am bm ks cur
        → apply_all format_float (plug ctx (obj cur)) (diff_keys rec path am bm ks)
          ≡ ok (plug ctx (obj bm))
    unfolding diff_keys apply_all
    rounds [] cur d kn s between =
        ap (λ m. ok (plug ctx (obj m))) (lookup_ext cur bm s (IsSorted-IsFields bm gb.0) between)
    rounds (k ∷ ks) cur d kn s between =
        apply_all_then format_float (plug ctx (obj cur))
          (plug ctx (obj (after k (lookup k bm) cur)))
          (diff_key rec path k (lookup k am) (lookup k bm)) (diff_keys rec path am bm ks)
          (one_round k cur (lookup k am) (lookup k bm) refl refl kn.0 s
            (between k ∙ ground (arith, str_eq_refl k)))
        ∙ rounds ks (after k (lookup k bm) cur) d.1 kn.1 (after-IsSorted k cur (lookup k bm) s)
            (λ j. after-Between k j ks cur (lookup k bm) refl d.0 between)

    Known-of :
        (ks all : List Str)
        → ((j : Str) → contains ks j ≡ true → contains all j ≡ true)
        → ((j : Str) → contains all j ≡ (is_some (lookup j am) || is_some (lookup j bm)))
        → Known ks
    Known-of [] all sub h = tt
    Known-of (k ∷ ks) all sub h = (
      sym (h k) ∙ sub k (ground (arith, str_eq_refl k)),
      Known-of ks all (λ j e. sub j (ground arith)) h,
    )

    start_Between :
        (j : Str)
        → lookup j am ≡ (if contains (sorted_union am bm) j then lookup j am else lookup j bm)
    start_Between j = ground (arith, contains-sorted_union am bm j)

    pub diff_map_right :
        apply_all format_float (plug ctx (obj am)) (diff_map rec path am bm)
        ≡ ok (plug ctx (obj bm))
    unfolding diff_map
    diff_map_right =
        rounds (sorted_union am bm) am
          (IsAscending-IsDistinct (sorted_union am bm) (sorted_union-IsAscending am bm))
          (Known-of (sorted_union am bm) (sorted_union am bm) (λ j e. e)
            (contains-sorted_union am bm))
          (IsSorted-IsFields am ga.0) start_Between
