-- ===== src/Read/Sorting.antt =====
-- Lists of events that are sorted by a strict order, and the sort and the selection of a query.
use letopis.Prelude.{
  ℕ, zero, suc, ◌≡◌, refl, sym, ap, ◌∙◌, Bool, true, false, ◌&&◌, List, [], ◌∷◌, ◌++◌, All, All-map,
  take, drop, length, if◌then◌else◌, Bool-cases, inl, inr, arith, ◌≤◌,
}
use letopis.Domain.Event.{Event}
use letopis.Read.Query.{filter_by, insert_by, sort_by}

pub record IsStrict (before : Event → Event → Bool) : Type 0 where
  pub irrefl : (a : Event) → before a a ≡ false
  pub trans : (a b c : Event) → before a b ≡ true → before b c ≡ true → before a c ≡ true

-- the last event of a list that is not empty
abbrev pub last_or : Event → List Event → Event
last_or ev [] = ev
last_or ev (x ∷ xs) = last_or x xs

pub filter_by-All :
    (P : Event → Type 0) (p : Event → Bool) (xs : List Event) → All P xs → All P (filter_by p xs)
filter_by-All P p [] h = tt
filter_by-All P p (x ∷ xs) h = elim (Bool-cases (p x)) [
  | inl kept ↦ rw kept (h.0, filter_by-All P p xs h.1)
  | inr dropped ↦ rw dropped (filter_by-All P p xs h.1)
]

pub filter_by-and :
    (p q : Event → Bool) (xs : List Event)
    → filter_by (λ ev. p ev && q ev) xs ≡ filter_by q (filter_by p xs)
filter_by-and p q [] = refl
filter_by-and p q (x ∷ xs) = ground (arith, filter_by-and p q xs)

pub filter_by-none :
    (p : Event → Bool) (xs : List Event) → All (λ x. p x ≡ true) xs → filter_by p xs ≡ xs
filter_by-none p [] h = refl
filter_by-none p (x ∷ xs) h = rw (h.0) (ap (λ ys. x ∷ ys) (filter_by-none p xs h.1))

pub filter_by_ext :
    (p q : Event → Bool) (xs : List Event)
    → ((x : Event) → p x ≡ q x)
    → filter_by p xs ≡ filter_by q xs
filter_by_ext p q [] h = refl
filter_by_ext p q (x ∷ xs) h = ground (arith, h x, filter_by_ext p q xs h)

All-last_or :
    (P : Event → Type 0) (ev : Event) (xs : List Event) → P ev → All P xs → P (last_or ev xs)
All-last_or P ev [] h hs = h
All-last_or P ev (x ∷ xs) h hs = All-last_or P x xs hs.0 hs.1

All-take : (P : Event → Type 0) (n : ℕ) (xs : List Event) → All P xs → All P (take n xs)
All-take P zero xs h = tt
All-take P (suc n) [] h = tt
All-take P (suc n) (x ∷ xs) h = (h.0, All-take P n xs h.1)

pub All-last :
    (P : Event → Type 0) (pre : List Event) (y : Event) (ys : List Event) (n : ℕ)
    → All P (pre ++ y ∷ ys)
    → P (last_or y (take n ys))
All-last P [] y ys n h = All-last_or P y (take n ys) h.0 (All-take P n ys h.1)
All-last P (z ∷ pre) y ys n h = All-last P pre y ys n h.1

module _ (before : Event → Event → Bool) where
  -- The two are never tied.
  abbrev pub Differs : Event → Event → Type 0
  Differs a b = before b a ≡ false → before a b ≡ true

  abbrev pub IsSorted : List Event → Type 0
  IsSorted [] = Unit {0}
  IsSorted (x ∷ xs) = All (λ y. before x y ≡ true) xs × IsSorted xs

  -- No two events are tied, in whichever order they stand.
  abbrev pub AreDistinct : List Event → Type 0
  AreDistinct [] = Unit {0}
  AreDistinct (x ∷ xs) = All (λ y. Differs x y) xs × AreDistinct xs

  insert_by-All :
      (P : Event → Type 0) (ev : Event) (xs : List Event)
      → P ev
      → All P xs
      → All P (insert_by before ev xs)
  unfolding insert_by
  insert_by-All P ev [] p h = (p, tt)
  insert_by-All P ev (x ∷ xs) p h = elim (Bool-cases (before x ev)) [
    | inl later ↦ rw later (h.0, insert_by-All P ev xs p h.1)
    | inr here ↦ rw here (p, h)
  ]

  pub sort_by-All : (P : Event → Type 0) (xs : List Event) → All P xs → All P (sort_by before xs)
  unfolding sort_by
  sort_by-All P [] h = tt
  sort_by-All P (x ∷ xs) h = insert_by-All P x (sort_by before xs) h.0 (sort_by-All P xs h.1)

  module _ (s : IsStrict before) where
    insert_by-IsSorted :
        (ev : Event) (xs : List Event)
        → IsSorted xs
        → All (λ y. Differs ev y) xs
        → IsSorted (insert_by before ev xs)
    unfolding insert_by
    insert_by-IsSorted ev [] h d = (tt, tt)
    insert_by-IsSorted ev (x ∷ xs) h d = elim (Bool-cases (before x ev)) [
      | inl later ↦
          rw later (
            insert_by-All (λ y. before x y ≡ true) ev xs later h.0,
            insert_by-IsSorted ev xs h.1 d.1,
          )
      | inr here ↦ rw here (
        (
          d.0 here,
          All-map (λ y. before x y ≡ true) (λ y. before ev y ≡ true) xs
              (λ y b. s.trans ev x y (d.0 here) b) h.0,
        ),
        h,
      )
    ]

    pub sort_by-IsSorted : (xs : List Event) → AreDistinct xs → IsSorted (sort_by before xs)
    unfolding sort_by
    sort_by-IsSorted [] d = tt
    sort_by-IsSorted (x ∷ xs) d =
        insert_by-IsSorted x (sort_by before xs) (sort_by-IsSorted xs d.1)
          (sort_by-All (λ y. Differs x y) xs d.0)

    pub insert_by-first :
        (ev : Event) (xs : List Event)
        → All (λ y. before y ev ≡ false) xs
        → insert_by before ev xs ≡ ev ∷ xs
    unfolding insert_by
    insert_by-first ev [] h = refl
    insert_by-first ev (x ∷ xs) h = rw (h.0)

    pub not_before :
        (ev x y : Event) → before x ev ≡ false → before x y ≡ true → before y ev ≡ false
    not_before ev x y h b = elim (Bool-cases (before y ev)) [
      | inl t ↦ cc (s.trans x y ev b t)
      | inr f ↦ f
    ]

    filter_by-insert_by :
        (p : Event → Bool) (ev : Event) (xs : List Event)
        → IsSorted xs
        → filter_by p (insert_by before ev xs)
          ≡ (if p ev then insert_by before ev (filter_by p xs) else filter_by p xs)
    unfolding insert_by
    filter_by-insert_by p ev [] h = refl
    filter_by-insert_by p ev (x ∷ xs) h = elim (Bool-cases (before x ev)) [
      | inl later ↦ ground (arith, filter_by-insert_by p ev xs h.1, later)
      | inr here ↦
          let first = insert_by-first ev (filter_by p (x ∷ xs)) (
            filter_by-All (λ y. before y ev ≡ false) p (x ∷ xs)
              (
                here,
                All-map (λ y. before x y ≡ true) (λ y. before y ev ≡ false) xs
                    (λ y b. not_before ev x y here b) h.0,
              )) in
          rw here (ap (λ zs. if p ev then zs else filter_by p (x ∷ xs)) (sym first))
    ]

    -- Selecting from the sorted events is sorting the selected ones.
    pub filter_by-sort_by :
        (p : Event → Bool) (xs : List Event)
        → AreDistinct xs
        → filter_by p (sort_by before xs) ≡ sort_by before (filter_by p xs)
    unfolding sort_by
    filter_by-sort_by p [] d = refl
    filter_by-sort_by p (x ∷ xs) d =
        filter_by-insert_by p x (sort_by before xs) (sort_by-IsSorted xs d.1)
        ∙ ground (arith, filter_by-sort_by p xs d.1)

    -- What stands after the last one of the first events is the rest.
    pub filter_by-drop :
        (n : ℕ) (x : Event) (xs : List Event)
        → IsSorted (x ∷ xs)
        → n ≤ length xs
        → filter_by (before (last_or x (take n xs))) (x ∷ xs) ≡ drop n xs
    filter_by-drop zero x xs h le = rw (s.irrefl x) (filter_by-none (before x) xs h.0)
    filter_by-drop (suc n) x [] h le = absurd (omega arith)
    filter_by-drop (suc n) x (y ∷ ys) h le =
        let last = last_or y (take n ys) in
        let first : before x last ≡ true =
          All-last_or (λ z. before x z ≡ true) y (take n ys) h.0.0
            (All-take (λ z. before x z ≡ true) n ys h.0.1) in
        rw (not_before x x last (s.irrefl x) first) (filter_by-drop n y ys h.1 (omega arith))
