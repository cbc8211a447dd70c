-- ===== src/Resolution/Order.antt =====
-- What sorting and filtering rows keeps, for the queries of octonomy/tags/alias_selectors.py.
use octonomy.Prelude.{
  ℕ, ◌≤◌, inl, inr, subst, Bool, Option, List, [], ◌∷◌, filter, All, All-filter, arith, Bool-cases,
  nat_eq, option_eq, if◌then◌else◌, In,
}
use octonomy.Catalog.{Pairs}
use octonomy.Resolution.{rank, insert_by, order_by, precedes}

module _ {ℓ} {A : Type ℓ} (before : A → A → Bool) where
  pub All-insert_by {κ} :
      (P : A → Type κ) (x : A) (xs : List A) → P x → All P xs → All P (insert_by before x xs)
  unfolding insert_by
  All-insert_by P x [] p h = (p, tt)
  All-insert_by P x (y ∷ ys) p h = elim (Bool-cases (before y x)) [
    | inl b ↦ rw b (h.0, All-insert_by P x ys p h.1)
    | inr b ↦ rw b (p, h)
  ]

  pub All-order_by {κ} : (P : A → Type κ) (xs : List A) → All P xs → All P (order_by before xs)
  unfolding order_by
  All-order_by P [] h = tt
  All-order_by P (x ∷ xs) h = All-insert_by P x (order_by before xs) h.0 (All-order_by P xs h.1)

  In-insert_by : (x : A) (xs : List A) (a : A) → In a (insert_by before x xs) → In a (x ∷ xs)
  unfolding insert_by
  In-insert_by x [] a h = h
  In-insert_by x (y ∷ ys) a h = elim (Bool-cases (before y x)) [
    | inl b ↦
        split (In-insert_by x ys a)
          (subst (λ c. In a (if c then y ∷ insert_by before x ys else x ∷ y ∷ ys)) b h)
    | inr b ↦ subst (λ c. In a (if c then y ∷ insert_by before x ys else x ∷ y ∷ ys)) b h
  ]
    where
      after : In a (x ∷ ys) → In a (x ∷ y ∷ ys)
      after (inl e) = inl e
      after (inr i) = inr (inr i)

      split :
          (In a (insert_by before x ys) → In a (x ∷ ys))
          → In a (y ∷ insert_by before x ys)
          → In a (x ∷ y ∷ ys)
      split rest (inl e) = inr (inl e)
      split rest (inr i) = after (rest i)

  pub In-order_by : (xs : List A) (a : A) → In a (order_by before xs) → In a xs
  unfolding order_by
  In-order_by [] a h = h
  In-order_by (x ∷ xs) a h = elim (In-insert_by x (order_by before xs) a h) [
    | inl e ↦ inl e
    | inr i ↦ inr (In-order_by xs a i)
  ]

  In-insert_by_intro : (x : A) (xs : List A) (a : A) → In a (x ∷ xs) → In a (insert_by before x xs)
  unfolding insert_by
  In-insert_by_intro x [] a h = h
  In-insert_by_intro x (y ∷ ys) a h = elim (Bool-cases (before y x)) [
    | inl b ↦ rw b (place (In-insert_by_intro x ys a) h)
    | inr b ↦ rw b h
  ]
    where
      place :
          (In a (x ∷ ys) → In a (insert_by before x ys))
          → In a (x ∷ y ∷ ys)
          → In a (y ∷ insert_by before x ys)
      place rest (inl e) = inr (rest (inl e))
      place rest (inr (inl e)) = inl e
      place rest (inr (inr i)) = inr (rest (inr i))

  pub In-order_by_intro : (xs : List A) (a : A) → In a xs → In a (order_by before xs)
  unfolding order_by
  In-order_by_intro [] a h = h
  In-order_by_intro (x ∷ xs) a (inl e) = In-insert_by_intro x (order_by before xs) a (inl e)
  In-order_by_intro (x ∷ xs) a (inr i) =
      In-insert_by_intro x (order_by before xs) a (inr (In-order_by_intro xs a i))

  -- A symmetric relation on all pairs survives sorting.
  Pairs-insert_by {κ} :
      (R : A → A → Type κ)
      → ((x y : A) → R x y → R y x)
      → (x : A) (xs : List A) → All (R x) xs
      → Pairs R xs
      → Pairs R (insert_by before x xs)
  unfolding insert_by
  Pairs-insert_by R s x [] h p = (tt, tt)
  Pairs-insert_by R s x (y ∷ ys) h p = elim (Bool-cases (before y x)) [
    | inl b ↦ rw b (All-insert_by (R y) x ys (s x y h.0) p.0, Pairs-insert_by R s x ys h.1 p.1)
    | inr b ↦ rw b (h, p)
  ]

  pub Pairs-order_by {κ} :
      (R : A → A → Type κ)
      → ((x y : A) → R x y → R y x)
      → (xs : List A) → Pairs R xs
      → Pairs R (order_by before xs)
  unfolding order_by
  Pairs-order_by R s [] p = tt
  Pairs-order_by R s (x ∷ xs) p =
      Pairs-insert_by R s x (order_by before xs) (All-order_by (R x) xs p.0)
        (Pairs-order_by R s xs p.1)

pub Pairs-filter {ℓ κ} :
    {A : Type ℓ} (R : A → A → Type κ) (p : A → Bool) (xs : List A)
    → Pairs R xs
    → Pairs R (filter p xs)
unfolding filter
Pairs-filter R p [] h = tt
Pairs-filter R p (x ∷ xs) h = elim (Bool-cases (p x)) [
  | inl t ↦ rw t (All-filter (R x) p xs h.0, Pairs-filter R p xs h.1)
  | inr f ↦ rw f (Pairs-filter R p xs h.1)
]

-- Sorted by priority.
module _ {ℓ} {A : Type ℓ} (priority : A → Option ℕ) (before : A → A → Bool) where
  abbrev pub NoLater : A → A → Type 0
  NoLater x y = rank (priority x) ≤ rank (priority y)

  All-NoLater : (x y : A) (xs : List A) → NoLater x y → All (NoLater y) xs → All (NoLater x) xs
  All-NoLater x y [] h r = tt
  All-NoLater x y (z ∷ zs) h r = (omega (arith, h, r.0), All-NoLater x y zs h r.1)

  Sorted-insert_by :
      (x : A) (xs : List A)
      → Pairs NoLater xs
      → Pairs NoLater (insert_by (precedes priority before) x xs)
  unfolding insert_by
  Sorted-insert_by x [] h = (tt, tt)
  Sorted-insert_by x (y ∷ ys) h = elim (Bool-cases (precedes priority before y x)) [
    | inl b ↦
        let le : NoLater y x = unfold precedes in ground arith in
        rw b (
          All-insert_by (precedes priority before) (NoLater y) x ys le h.0,
          Sorted-insert_by x ys h.1,
        )
    | inr b ↦
        let le : NoLater x y = unfold precedes in ground arith in
        rw b ((le, All-NoLater x y ys le h.0), h)
  ]

  pub Sorted-order_by : (xs : List A) → Pairs NoLater (order_by (precedes priority before) xs)
  unfolding order_by
  Sorted-order_by [] = tt
  Sorted-order_by (x ∷ xs) =
      Sorted-insert_by x (order_by (precedes priority before) xs) (Sorted-order_by xs)
