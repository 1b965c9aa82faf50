-- ===== src/Diff/Roundtrip/Steps.antt =====
-- Apply on the changes of one part of a value: how it goes through a list of changes, and what the
-- change that Diff reports for a key or an index does at its place.
use letopis.Prelude.{ℕ, ◌<◌, ◌≡◌, refl, sym, ap, ◌∙◌, subst, Str, some, List, [], ◌∷◌, ◌++◌, arith}
use mathlib.Core.List.{append-nil}
use letopis.Json.{Value, arr, obj, Items, nil, cons, Fields, IsSorted, IsValue, depth}
use letopis.Json.Slice
use letopis.Json.Slice.{◌+++◌}
use letopis.Json.Object.{lookup, put, delete, put_self}
use letopis.Diff.Model.{Change, Result, ok, err, ◌>>=◌}
use letopis.Diff.Path.{PathSeg, key, index, sign_bit, child_path, index_path, parse_path}
use letopis.Diff.Path.Parse.{IsPlainKey, parse_path-key, parse_path-index}
use letopis.Diff.Compute.{Rec, added, changed, removed}
use letopis.Diff.Plain.{IsPlain}
use letopis.Diff.Apply.{apply_segs, apply_step, apply_key, apply_index, apply_all}
use letopis.Diff.Context.{
  Frame, in_key, in_index, plug, segs, IsNarrow, plug-append, segs-append, IsNarrow-key,
  IsNarrow-index, apply_segs-plug,
}

>>=_assoc :
    {A B C : Type 0} (m : Result A) (f : A → Result C) (g : A → Result B) (k : B → Result C)
    → ((a : A) → f a ≡ (g a >>= k))
    → (m >>= f) ≡ ((m >>= g) >>= k)
>>=_assoc (ok a) f g k h = h a
>>=_assoc (err e) f g k h = refl

module _ (format_float : ℕ → Str) where
  pub apply_all-append :
      (r : Value) (xs ys : List Change)
      → apply_all format_float r (xs ++ ys)
        ≡ (apply_all format_float r xs >>= λ v. apply_all format_float v ys)
  unfolding apply_all
  apply_all-append r [] ys = refl
  apply_all-append r (ch ∷ xs) ys =
      >>=_assoc (parse_path ch.path) _ _ _
        λ ss. >>=_assoc (apply_segs format_float ss r ch) _ _ _ λ v. apply_all-append v xs ys

  -- The first part of the changes leads to `v`.
  pub apply_all_then :
      (r v : Value) (xs ys : List Change)
      → apply_all format_float r xs ≡ ok v
      → apply_all format_float r (xs ++ ys) ≡ apply_all format_float v ys
  apply_all_then r v xs ys h = rw (apply_all-append r xs ys) (rw h)

  apply_one :
      (r v : Value) (ch : Change) (ss : List PathSeg)
      → parse_path ch.path ≡ ok ss
      → apply_segs format_float ss r ch ≡ ok v
      → apply_all format_float r (ch ∷ []) ≡ ok v
  unfolding apply_all
  apply_one r v ch ss p h = rw p (rw h)

  -- `rec` finds the changes of a part less deep than `n`, at every place.
  abbrev pub RecIsRight : Rec → ℕ → Type 0
  RecIsRight rec n =
      (ctx : List Frame) (path : Str) (a b : Value)
      → parse_path path ≡ ok (segs ctx)
      → IsNarrow ctx
      → IsValue a × IsPlain a
      → IsValue b × IsPlain b
      → depth a < n
      → apply_all format_float (plug ctx a) (rec path a b) ≡ ok (plug ctx b)

  module _ (ctx : List Frame) (path : Str) (parsed : parse_path path ≡ ok (segs ctx))
      (narrow : IsNarrow ctx) where
    -- The change of a whole part.
    pub apply_root_change :
        (a b : Value)
        → apply_all format_float (plug ctx a) (changed path a b ∷ []) ≡ ok (plug ctx b)
    unfolding apply_segs
    apply_root_change a b =
        apply_one (plug ctx a) (plug ctx b) (changed path a b) (segs ctx) parsed (
          subst (λ ss. apply_segs format_float ss (plug ctx a) (changed path a b) ≡ ok (plug ctx b))
            (append-nil (segs ctx))
            (apply_segs-plug format_float (changed path a b) ctx [] a b narrow refl))

    key_segs :
        (k : Str) (m : Fields)
        → IsPlainKey k
        → parse_path (child_path path k) ≡ ok (segs (ctx ++ in_key k m ∷ []))
    key_segs k m h =
        parse_path-key path k (segs ctx) parsed h ∙ ap ok (sym (segs-append ctx (in_key k m)))

    pub at_key_recurse :
        (rec : Rec) (n : ℕ) (k : Str) (cur : Fields) (av bv : Value)
        → RecIsRight rec n
        → IsPlainKey k
        → IsSorted cur
        → lookup k cur ≡ some av
        → IsValue av × IsPlain av
        → IsValue bv × IsPlain bv
        → depth av < n
        → apply_all format_float (plug ctx (obj cur)) (rec (child_path path k) av bv)
          ≡ ok (plug ctx (obj (put k bv cur)))
    at_key_recurse rec n k cur av bv right plain sorted found ga gb deep =
        ap (λ m. apply_all format_float (plug ctx (obj m)) (rec (child_path path k) av bv))
          (sym (put_self k av cur sorted found))
        ∙ ap (λ r. apply_all format_float r (rec (child_path path k) av bv))
            (sym (plug-append ctx (in_key k cur) av))
        ∙ right (ctx ++ in_key k cur ∷ []) (child_path path k) av bv (key_segs k cur plain)
            (IsNarrow-key ctx k cur narrow) ga gb deep
        ∙ ap ok (plug-append ctx (in_key k cur) bv)

    pub at_key_add :
        (k : Str) (cur : Fields) (v : Value)
        → IsPlainKey k
        → apply_all format_float (plug ctx (obj cur)) (added (child_path path k) v ∷ [])
          ≡ ok (plug ctx (obj (put k v cur)))
    unfolding apply_segs apply_step apply_key
    at_key_add k cur v plain =
        apply_one (plug ctx (obj cur)) (plug ctx (obj (put k v cur))) (added (child_path path k) v)
          (segs ctx ++ key k ∷ []) (parse_path-key path k (segs ctx) parsed plain)
          (apply_segs-plug format_float (added (child_path path k) v) ctx (key k ∷ []) (obj cur)
            (obj (put k v cur)) narrow refl)

    pub at_key_remove :
        (k : Str) (cur : Fields) (v : Value)
        → IsPlainKey k
        → lookup k cur ≡ some v
        → apply_all format_float (plug ctx (obj cur)) (removed (child_path path k) v ∷ [])
          ≡ ok (plug ctx (obj (delete k cur)))
    unfolding apply_segs apply_step apply_key
    at_key_remove k cur v plain found =
        apply_one (plug ctx (obj cur)) (plug ctx (obj (delete k cur)))
          (removed (child_path path k) v) (segs ctx ++ key k ∷ [])
          (parse_path-key path k (segs ctx) parsed plain)
          (apply_segs-plug format_float (removed (child_path path k) v) ctx (key k ∷ []) (obj cur)
            (obj (delete k cur)) narrow (ground arith))

    index_parsed :
        (pre : Items)
        → Slice.length pre < sign_bit
        → parse_path (index_path path (Slice.length pre))
          ≡ ok (segs ctx ++ index (Slice.length pre) ∷ [])
    index_parsed pre h = parse_path-index path (Slice.length pre) (segs ctx) parsed (omega arith)

    pub at_index_recurse :
        (rec : Rec) (n : ℕ) (pre post : Items) (av bv : Value)
        → RecIsRight rec n
        → Slice.length pre < sign_bit
        → IsValue av × IsPlain av
        → IsValue bv × IsPlain bv
        → depth av < n
        → apply_all format_float
            (plug ctx (arr (pre +++ cons av post)))
            (rec (index_path path (Slice.length pre)) av bv)
          ≡ ok (plug ctx (arr (pre +++ cons bv post)))
    at_index_recurse rec n pre post av bv right small ga gb deep =
        ap (λ r. apply_all format_float r (rec (index_path path (Slice.length pre)) av bv))
          (sym (plug-append ctx (in_index pre post) av))
        ∙ right (ctx ++ in_index pre post ∷ []) (index_path path (Slice.length pre)) av bv
            (index_parsed pre small ∙ ap ok (sym (segs-append ctx (in_index pre post))))
            (IsNarrow-index ctx pre post small narrow) ga gb deep
        ∙ ap ok (plug-append ctx (in_index pre post) bv)

    pub at_index_add :
        (pre : Items) (v : Value)
        → Slice.length pre < sign_bit
        → apply_all format_float
            (plug ctx (arr pre))
            (added (index_path path (Slice.length pre)) v ∷ [])
          ≡ ok (plug ctx (arr (pre +++ cons v nil)))
    unfolding apply_segs apply_step apply_index
    at_index_add pre v small =
        let ch = added (index_path path (Slice.length pre)) v in
        apply_one (plug ctx (arr pre)) (plug ctx (arr (pre +++ cons v nil))) ch
          (segs ctx ++ index (Slice.length pre) ∷ []) (index_parsed pre small)
          (apply_segs-plug format_float ch ctx (index (Slice.length pre) ∷ []) (arr pre)
            (arr (pre +++ cons v nil)) narrow (ground (arith, Slice.insert_at-length pre v)))

    pub at_index_remove :
        (pre : Items) (v : Value)
        → Slice.length pre < sign_bit
        → apply_all format_float
            (plug ctx (arr (pre +++ cons v nil)))
            (removed (index_path path (Slice.length pre)) v ∷ [])
          ≡ ok (plug ctx (arr pre))
    unfolding apply_segs apply_step apply_index
    at_index_remove pre v small =
        let ch = removed (index_path path (Slice.length pre)) v in
        apply_one (plug ctx (arr (pre +++ cons v nil))) (plug ctx (arr pre)) ch
          (segs ctx ++ index (Slice.length pre) ∷ []) (index_parsed pre small)
          (apply_segs-plug format_float ch ctx (index (Slice.length pre) ∷ [])
            (arr (pre +++ cons v nil)) (arr pre) narrow
            (ground (
              arith,
              Slice.remove_at-length pre v nil,
              Slice.+++-nil pre,
              Slice.length-+++ pre (cons v nil),
            )))
