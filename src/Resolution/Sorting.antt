-- ===== src/Resolution/Sorting.antt =====
-- The order of the rows of a query: a filter commutes with it, for the queries of
-- octonomy/tags/alias_selectors.py.
use octonomy.Prelude.{
  ℕ, ◌≡◌, inl, inr, refl, ap, sym, ◌∙◌, Bool, true, false, ◌&&◌, ◌||◌, not, Option, List, [], ◌∷◌,
  filter, All, All-filter, arith, Bool-cases, nat_eq, if◌then◌else◌,
}
use octonomy.Catalog.{Pairs}
use octonomy.Resolution.{insert_by, order_by, precedes}
use octonomy.Resolution.Order.{All-insert_by, All-order_by}

-- A strict order in which rows may tie, as an ORDER BY clause gives it.
pub record IsOrder {ℓ} {A : Type ℓ} (before : A → A → Bool) : Type ℓ where
  pub asym : (x y : A) → before x y ≡ true → before y x ≡ false
  pub trans : (x y z : A) → before y x ≡ false → before z y ≡ false → before z x ≡ false

-- By one order, and within its ties by another.
abbrev pub then_by {ℓ} : {A : Type ℓ} → (A → A → Bool) → (A → A → Bool) → A → A → Bool
then_by f g x y = f x y || (not (f y x) && g x y)

pub then_by-IsOrder {ℓ} :
    {A : Type ℓ} (f g : A → A → Bool) → IsOrder f → IsOrder g → IsOrder (then_by f g)
then_by-IsOrder f g a b = record {
  asym = λ x y h. ground (arith, a.asym x y, a.asym y x, b.asym x y);
  trans = λ x y z h k. ground (
    arith,
    a.asym y x,
    a.asym z y,
    a.asym x y,
    a.asym y z,
    a.asym z x,
    a.trans x y z,
    a.trans z y x,
    b.trans x y z,
    a.trans y z x,
    a.trans z x y,
    a.trans x z y,
    a.trans y x z,
  );
}

pub precedes-IsOrder {ℓ} :
    {A : Type ℓ} (priority : A → Option ℕ) (before : A → A → Bool)
    → IsOrder before
    → IsOrder (precedes priority before)
unfolding precedes
precedes-IsOrder priority before o = record {
  asym = λ x y h. ground (arith, o.asym x y);
  trans = λ x y z h k. ground (arith, o.trans x y z);
}

module _ {ℓ} {A : Type ℓ} (before : A → A → Bool) (o : IsOrder before) where
  abbrev pub Sorted : List A → Type 0
  Sorted xs = Pairs (λ a b. before b a ≡ false) xs

  All-after :
      (x y : A) (ys : List A)
      → before y x ≡ false
      → All (λ z. before z y ≡ false) ys
      → All (λ z. before z x ≡ false) ys
  All-after x y [] h k = tt
  All-after x y (z ∷ zs) h k = (o.trans x y z h k.0, All-after x y zs h k.1)

  insert_by-Sorted : (x : A) (xs : List A) → Sorted xs → Sorted (insert_by before x xs)
  unfolding insert_by
  insert_by-Sorted x [] h = (tt, tt)
  insert_by-Sorted x (y ∷ ys) h = elim (Bool-cases (before y x)) [
    | inl b ↦ rw b (
      All-insert_by before (λ z. before z y ≡ false) x ys (o.asym y x b) h.0,
      insert_by-Sorted x ys h.1,
    )
    | inr b ↦ rw b ((b, All-after x y ys b h.0), h)
  ]

  pub order_by-Sorted : (xs : List A) → Sorted (order_by before xs)
  unfolding order_by
  order_by-Sorted [] = tt
  order_by-Sorted (x ∷ xs) = insert_by-Sorted x (order_by before xs) (order_by-Sorted xs)

  insert_by-first :
      (x : A) (ys : List A) → All (λ z. before z x ≡ false) ys → insert_by before x ys ≡ x ∷ ys
  unfolding insert_by
  insert_by-first x [] h = refl
  insert_by-first x (y ∷ ys) h = rw h.0 refl

  filter-insert_by :
      (p : A → Bool) (x : A) (ys : List A)
      → Sorted ys
      → filter p (insert_by before x ys)
        ≡ (if p x then insert_by before x (filter p ys) else filter p ys)
  unfolding insert_by filter
  filter-insert_by p x [] h = refl
  filter-insert_by p x (y ∷ ys) h = elim (Bool-cases (before y x)) [
    | inl b ↦ elim (Bool-cases (p y)) [
      | inl hit ↦ elim (Bool-cases (p x)) [
        | inl own ↦ let rest = filter-insert_by p x ys h.1 in ground (arith, rest)
        | inr other ↦ let rest = filter-insert_by p x ys h.1 in ground (arith, rest)
      ]
      | inr miss ↦ let rest = filter-insert_by p x ys h.1 in ground (arith, rest)
    ]
    | inr b ↦ elim (Bool-cases (p x)) [
      | inl own ↦
          let first =
            insert_by-first x (filter p (y ∷ ys))
              (All-filter (λ z. before z x ≡ false) p (y ∷ ys) (b, All-after x y ys b h.0)) in
          rw (b, own) (sym first)
      | inr other ↦ rw (b, other) refl
    ]
  ]

  -- A filter of the ordered rows is the order of the filtered rows.
  pub filter-order_by :
      (p : A → Bool) (xs : List A) → filter p (order_by before xs) ≡ order_by before (filter p xs)
  unfolding order_by filter
  filter-order_by p [] = refl
  filter-order_by p (x ∷ xs) =
      let step = filter-insert_by p x (order_by before xs) (order_by-Sorted xs) in
      let rest = filter-order_by p xs in
      elim (Bool-cases (p x)) [
        | inl own ↦ step ∙ rw own (ap (insert_by before x) rest)
        | inr other ↦ step ∙ rw other rest
      ]

module _ {ℓ κ} {A : Type ℓ} (P : A → Type κ) (f g : A → A → Bool)
    (same : (x y : A) → P x → P y → f x y ≡ g x y) where
  insert_by-agree : (x : A) (ys : List A) → P x → All P ys → insert_by f x ys ≡ insert_by g x ys
  unfolding insert_by
  insert_by-agree x [] p h = refl
  insert_by-agree x (y ∷ ys) p h = rw (same y x h.0 p, insert_by-agree x ys p h.1) refl

  -- Orders that agree on the rows order them alike.
  pub order_by-agree : (xs : List A) → All P xs → order_by f xs ≡ order_by g xs
  unfolding order_by
  order_by-agree [] h = refl
  order_by-agree (x ∷ xs) h =
      rw (order_by-agree xs h.1) (insert_by-agree x (order_by g xs) h.0 (All-order_by g P xs h.1))
