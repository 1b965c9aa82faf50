-- ===== src/Diff/Examples.antt =====
-- Tests of internal/diff, and its theorems at concrete inputs.
use letopis.Prelude.{ℕ, ◌≡◌, refl, Str, str_eq, str_lt, codes, ◌+◌, none, [], ◌∷◌, arith}
use letopis.Json.{Fields, Value, null, num, arr, obj, nil, cons, end, field}
use letopis.Diff.Model.{Options, ok}
use letopis.Diff.Path.{atoi_index, parse_path, key, keyed, index, child_path, index_path}
use letopis.Diff.Text.{contains_byte, itoa}
use letopis.Diff.Path.Parse.{IsPlainKey, parse_path-index, parse_path-key}
use letopis.Diff.Compute.{added, changed, removed, diff}
use letopis.Diff.Apply.{apply}
use letopis.Diff.Roundtrip.{apply-diff}

-- strconv.FormatFloat at the numbers of the tests, which are small and whole
abbrev format_small : ℕ → Str
format_small n = (b'0' + n) ∷ []

abbrev by_index : Options
by_index = record { array_keys = λ p. none }

abbrev before_fields : Fields
before_fields =
    field (codes "amount") (num 1)
      (field (codes "items") (arr (cons (num 1) (cons (num 2) (cons (num 3) nil)))) end)

abbrev before : Value
before = obj before_fields

abbrev later_fields : Fields
later_fields =
    field (codes "amount") (num 2)
      (field (codes "items") (arr (cons (num 1) nil)) (field (codes "stage") null end))

abbrev later : Value
later = obj later_fields

diff_runs :
    diff format_small before later by_index
    ≡ changed (codes "amount") (num 1) (num 2)
      ∷ removed (codes "items.2") (num 3)
      ∷ removed (codes "items.1") (num 2)
      ∷ added (codes "stage") null
      ∷ []
unfolding diff itoa str_eq str_lt
diff_runs = refl

apply_runs : apply format_small before (diff format_small before later by_index) ≡ ok later
unfolding diff apply itoa str_eq str_lt
apply_runs = refl

parse_selector_runs :
    parse_path (codes "items[sku=A].n")
    ≡ ok (key (codes "items") ∷ keyed (codes "sku") (codes "A") ∷ key (codes "n") ∷ [])
unfolding parse_path
parse_selector_runs = refl

amount-IsPlainKey : IsPlainKey (codes "amount")
unfolding contains_byte atoi_index
amount-IsPlainKey = record {
  piece = record { not_empty = λ e. cc; no_dot = refl; no_bracket = refl };
  not_index = refl;
}

items-IsPlainKey : IsPlainKey (codes "items")
unfolding contains_byte atoi_index
items-IsPlainKey = record {
  piece = record { not_empty = λ e. cc; no_dot = refl; no_bracket = refl };
  not_index = refl;
}

stage-IsPlainKey : IsPlainKey (codes "stage")
unfolding contains_byte atoi_index
stage-IsPlainKey = record {
  piece = record { not_empty = λ e. cc; no_dot = refl; no_bracket = refl };
  not_index = refl;
}

apply-diff_example : apply format_small before (diff format_small before later by_index) ≡ ok later
unfolding str_lt
apply-diff_example =
    apply-diff format_small by_index (λ p. refl) before later
      (
        (refl, tt, (tt, (tt, (tt, (tt, tt))), tt)),
        (amount-IsPlainKey, tt, (items-IsPlainKey, (omega arith, (tt, (tt, (tt, tt)))), tt)),
      )
      (
        (refl, tt, (refl, (tt, tt), (tt, tt, tt))),
        (
          amount-IsPlainKey,
          tt,
          (items-IsPlainKey, (omega arith, (tt, tt)), (stage-IsPlainKey, tt, tt)),
        ),
      )

items_path : parse_path (codes "items") ≡ ok (key (codes "items") ∷ [])
unfolding parse_path
items_path = refl

parse_path-index_example :
    parse_path (index_path (codes "items") 12) ≡ ok (key (codes "items") ∷ index 12 ∷ [])
parse_path-index_example =
    parse_path-index (codes "items") 12 (key (codes "items") ∷ []) items_path (omega arith)

parse_path-key_example :
    parse_path (child_path (codes "items") (codes "amount"))
    ≡ ok (key (codes "items") ∷ key (codes "amount") ∷ [])
parse_path-key_example =
    parse_path-key (codes "items") (codes "amount") (key (codes "items") ∷ []) items_path
      amount-IsPlainKey
