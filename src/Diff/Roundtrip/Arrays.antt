-- ===== src/Diff/Roundtrip/Arrays.antt =====
-- The loops of diffIndexArray, one index at a time.
use letopis.Prelude.{ℕ, suc, ◌+◌, ◌≤◌, ◌<◌, ◌≡◌, sym, ap, ◌∙◌, Str, List, [], ◌∷◌, arith}
use letopis.Json.{Value, arr, Items, nil, cons, IsValue, IsItems, depth, depth_items}
use letopis.Json.Slice
use letopis.Json.Slice.{◌+++◌, +++_assoc, +++-nil, length-+++}
use letopis.Diff.Model.{ok}
use letopis.Diff.Path.{sign_bit, parse_path, index_path}
use letopis.Diff.Compute.{
  Rec, added, removed, index_adds, index_removes, diff_index_from, diff_index_array,
}
use letopis.Diff.Plain.{IsPlain, IsPlainItems}
use letopis.Diff.Apply.{apply_all}
use letopis.Diff.Context.{Frame, plug, segs, IsNarrow}
use letopis.Diff.Roundtrip.Steps.{
  RecIsRight, apply_all_then, at_index_recurse, at_index_add, at_index_remove,
}

length-snoc : (pre : Items) (x : Value) → Slice.length (pre +++ cons x nil) ≡ suc (Slice.length pre)
length-snoc pre x = omega (arith, length-+++ pre (cons x nil))

module _ (format_float : ℕ → Str) (ctx : List Frame) (path : Str)
    (parsed : parse_path path ≡ ok (segs ctx)) (narrow : IsNarrow ctx) where
  adds_right :
      (pre ys : Items)
      → Slice.length pre + Slice.length ys ≤ sign_bit
      → apply_all format_float (plug ctx (arr pre)) (index_adds path (Slice.length pre) ys)
        ≡ ok (plug ctx (arr (pre +++ ys)))
  unfolding index_adds apply_all
  adds_right pre nil small = rw (+++-nil pre)
  adds_right pre (cons y ys) small =
      apply_all_then format_float (plug ctx (arr pre)) (plug ctx (arr (pre +++ cons y nil)))
        (added (index_path path (Slice.length pre)) y ∷ [])
        (index_adds path (suc (Slice.length pre)) ys)
        (at_index_add format_float ctx path parsed narrow pre y (omega arith))
      ∙ ap
          (λ i. apply_all format_float (plug ctx (arr (pre +++ cons y nil))) (index_adds path i ys))
          (sym (length-snoc pre y))
      ∙ adds_right (pre +++ cons y nil) ys (omega (arith, length-snoc pre y))
      ∙ ap (λ xs. ok (plug ctx (arr xs))) (+++_assoc pre (cons y nil) ys)

  removes_right :
      (pre xs : Items)
      → Slice.length pre + Slice.length xs ≤ sign_bit
      → apply_all format_float
          (plug ctx (arr (pre +++ xs)))
          (index_removes path (Slice.length pre) xs)
        ≡ ok (plug ctx (arr pre))
  unfolding index_removes apply_all
  removes_right pre nil small = rw (+++-nil pre)
  removes_right pre (cons x xs) small =
      apply_all_then format_float (plug ctx (arr (pre +++ cons x xs)))
        (plug ctx (arr (pre +++ cons x nil))) (index_removes path (suc (Slice.length pre)) xs)
        (removed (index_path path (Slice.length pre)) x ∷ [])
        (ap
            (λ ys.
              apply_all format_float (plug ctx (arr ys))
                (index_removes path (suc (Slice.length pre)) xs))
            (sym (+++_assoc pre (cons x nil) xs))
          ∙ ap
              (λ i.
                apply_all format_float (plug ctx (arr ((pre +++ cons x nil) +++ xs)))
                  (index_removes path i xs))
              (sym (length-snoc pre x))
          ∙ removes_right (pre +++ cons x nil) xs (omega (arith, length-snoc pre x)))
      ∙ at_index_remove format_float ctx path parsed narrow pre x (omega arith)

  depth-cons :
      (x : Value) (xs : Items)
      → (depth x ≤ depth_items (cons x xs)) × (depth_items xs ≤ depth_items (cons x xs))
  unfolding depth
  depth-cons x xs = (omega arith, omega arith)

  module _ (rec : Rec) (n : ℕ) (right : RecIsRight format_float rec n) where
    index_from_right :
        (pre xs ys : Items)
        → IsItems xs × IsPlainItems xs
        → IsItems ys × IsPlainItems ys
        → depth_items xs < n
        → Slice.length pre + Slice.length xs ≤ sign_bit
        → Slice.length pre + Slice.length ys ≤ sign_bit
        → apply_all format_float
            (plug ctx (arr (pre +++ xs)))
            (diff_index_from rec path (Slice.length pre) xs ys)
          ≡ ok (plug ctx (arr (pre +++ ys)))
    unfolding diff_index_from
    index_from_right pre nil ys ga gb deep sx sy =
        ap
          (λ zs. apply_all format_float (plug ctx (arr zs)) (index_adds path (Slice.length pre) ys))
          (+++-nil pre)
        ∙ adds_right pre ys sy
    index_from_right pre (cons x xs) nil ga gb deep sx sy =
        removes_right pre (cons x xs) sx ∙ ap (λ zs. ok (plug ctx (arr zs))) (sym (+++-nil pre))
    index_from_right pre (cons x xs) (cons y ys) ga gb deep sx sy =
        apply_all_then format_float (plug ctx (arr (pre +++ cons x xs)))
          (plug ctx (arr (pre +++ cons y xs))) (rec (index_path path (Slice.length pre)) x y)
          (diff_index_from rec path (suc (Slice.length pre)) xs ys)
          (at_index_recurse format_float ctx path parsed narrow rec n pre xs x y right (omega arith)
            (ga.0.0, ga.1.0) (gb.0.0, gb.1.0) (omega (arith, (depth-cons x xs).0)))
        ∙ ap
            (λ zs.
              apply_all format_float (plug ctx (arr zs))
                (diff_index_from rec path (suc (Slice.length pre)) xs ys))
            (sym (+++_assoc pre (cons y nil) xs))
        ∙ ap
            (λ i.
              apply_all format_float (plug ctx (arr ((pre +++ cons y nil) +++ xs)))
                (diff_index_from rec path i xs ys))
            (sym (length-snoc pre y))
        ∙ index_from_right (pre +++ cons y nil) xs ys (ga.0.1, ga.1.1) (gb.0.1, gb.1.1)
            (omega (arith, (depth-cons x xs).1)) (omega (arith, length-snoc pre y))
            (omega (arith, length-snoc pre y))
        ∙ ap (λ zs. ok (plug ctx (arr zs))) (+++_assoc pre (cons y nil) ys)

    pub diff_index_array_right :
        (xs ys : Items)
        → IsValue (arr xs) × IsPlain (arr xs)
        → IsValue (arr ys) × IsPlain (arr ys)
        → depth_items xs < n
        → apply_all format_float (plug ctx (arr xs)) (diff_index_array rec path xs ys)
          ≡ ok (plug ctx (arr ys))
    unfolding diff_index_array
    diff_index_array_right xs ys ga gb deep =
        index_from_right nil xs ys (ga.0, ga.1.1) (gb.0, gb.1.1) deep (omega (arith, ga.1.0))
          (omega (arith, gb.1.0))
