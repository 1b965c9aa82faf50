-- ===== src/Diff/Roundtrip.antt =====
-- Apply undoes Diff: the changes from one value to another, applied to the first, give the second.
mod Steps
mod Objects
mod Arrays
use letopis.Prelude.{
  ℕ, zero, suc, ◌+◌, ◌≤◌, ◌<◌, ◌≡◌, refl, sym, ap, ◌∙◌, Str, Bool, true, false, Option, none, some,
  List, [], ◌∷◌, if◌then◌else◌, Bool-cases, inl, inr, arith,
}
use letopis.Json.{
  Value, null, bool, num, int, int64, str, arr, obj, Items, nil, cons, Fields, end, field, IsValue,
  depth, json_equal, json_equal→eq,
}
use letopis.Diff.Model.{Change, Options, Result, ok}
use letopis.Diff.Path.{parse_path}
use letopis.Diff.Compute.{
  Rec, changed, diff_index_array, diff_arrays, diff_unequal, diff_value, diff,
}
use letopis.Diff.Plain.{IsPlain}
use letopis.Diff.Apply.{apply_segs, apply_all, apply, deep_copy, deep_copy_items, deep_copy_fields}
use letopis.Diff.Context.{Frame, plug, segs, IsNarrow, apply_segs-plug}
use Steps.{RecIsRight, apply_root_change}
use Objects.{diff_map_right}
use Arrays.{diff_index_array_right}

mutual
  unfolding deep_copy

  deep_copy_same : (v : Value) → deep_copy v ≡ v
  deep_copy_same (obj fs) = ap obj (deep_copy_fields_same fs)
  deep_copy_same (arr xs) = ap arr (deep_copy_items_same xs)
  deep_copy_same null = refl
  deep_copy_same (bool b) = refl
  deep_copy_same (num n) = refl
  deep_copy_same (int n) = refl
  deep_copy_same (int64 n) = refl
  deep_copy_same (str s) = refl

  deep_copy_items_same : (xs : Items) → deep_copy_items xs ≡ xs
  deep_copy_items_same nil = refl
  deep_copy_items_same (cons x xs) = λ i. cons (deep_copy_same x i) (deep_copy_items_same xs i)

  deep_copy_fields_same : (fs : Fields) → deep_copy_fields fs ≡ fs
  deep_copy_fields_same end = refl
  deep_copy_fields_same (field k v r) =
      λ i. field k (deep_copy_same v i) (deep_copy_fields_same r i)

module _ (format_float : ℕ → Str) (opts : Options)
    (no_keys : (p : Str) → opts.array_keys p ≡ none) where
  by_index :
      (rec : Rec) (path : Str) (xs ys : Items)
      → diff_arrays format_float opts rec path xs ys ≡ diff_index_array rec path xs ys
  unfolding diff_arrays
  by_index rec path xs ys = ground (arith, no_keys path)

  diff_unequal_right :
      (n : ℕ) (a b : Value) (ctx : List Frame) (path : Str)
      → RecIsRight format_float (diff_value format_float opts n) n
      → parse_path path ≡ ok (segs ctx)
      → IsNarrow ctx
      → IsValue a × IsPlain a
      → IsValue b × IsPlain b
      → depth a < suc n
      → apply_all format_float
          (plug ctx a)
          (diff_unequal format_float opts (diff_value format_float opts n) path a b)
        ≡ ok (plug ctx b)
  unfolding diff_unequal depth
  diff_unequal_right n (obj am) (obj bm) ctx path right p w ga gb deep =
      diff_map_right format_float ctx path p w (diff_value format_float opts n) n am bm right ga gb
        (omega arith)
  diff_unequal_right n (arr xs) (arr ys) ctx path right p w ga gb deep =
      ap (λ cs. apply_all format_float (plug ctx (arr xs)) cs)
        (by_index (diff_value format_float opts n) path xs ys)
      ∙ (diff_index_array_right format_float ctx path p w (diff_value format_float opts n) n right
          xs ys ga gb (omega arith))
  diff_unequal_right n a b ctx path right p w ga gb deep =
      apply_root_change format_float ctx path p w a b

  diff_value_right : (n : ℕ) → RecIsRight format_float (diff_value format_float opts n) n
  unfolding diff_value apply_all
  diff_value_right zero ctx path a b p w ga gb deep = absurd (omega arith)
  diff_value_right (suc n) ctx path a b p w ga gb deep = elim (Bool-cases (json_equal a b)) [
    | inl same ↦ rw same (ap (λ v. ok (plug ctx v)) (json_equal→eq a b same))
    | inr differ ↦ rw differ (diff_unequal_right n a b ctx path (diff_value_right n) p w ga gb deep)
  ]

  -- Applying the diff of two values to the first gives the second, for values whose keys
  -- dot-notation can carry and when no array is compared by key.
  pub apply-diff :
      (a b : Value)
      → IsValue a × IsPlain a
      → IsValue b × IsPlain b
      → apply format_float a (diff format_float a b opts) ≡ ok b
  unfolding apply diff parse_path
  apply-diff a b ga gb =
      rw (deep_copy_same a) (diff_value_right (suc (depth a)) [] [] a b refl tt ga gb (omega arith))
