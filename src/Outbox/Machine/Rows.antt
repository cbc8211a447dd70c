-- ===== src/Outbox/Machine/Rows.antt =====
-- Tables compared row by row: the first row of a query, and the saving of a row.
use octonomy.Prelude.{
  ℕ, ◌≡◌, ◌≢◌, ◌⊎◌, inl, inr, refl, ap, sym, subst, ◌∙◌, Bool, true, false, none, some, List, [],
  ◌∷◌, map, filter, All, Any, arith, nat_beq, Bool-cases, Option-cases, nat_beq_iff,
}
use octonomy.Outbox.{OutboxEvent}
use octonomy.Outbox.World.{first_by, replace}

-- The rows of two tables, one by one.
abbrev pub Rows :
    (OutboxEvent → OutboxEvent → Type 0) → List OutboxEvent → List OutboxEvent → Type 0
Rows R [] [] = Unit
Rows R [] (y ∷ ys) = ⊥
Rows R (x ∷ xs) [] = ⊥
Rows R (x ∷ xs) (y ∷ ys) = R x y × Rows R xs ys

-- The primary key.
abbrev pub UniqueIds : List OutboxEvent → Type 0
UniqueIds [] = Unit
UniqueIds (x ∷ xs) = All (λ y. y.id ≢ x.id) xs × UniqueIds xs

-- A row that a query returns is in the table and meets the query's condition.
pub first_by-filter :
    (before : OutboxEvent → OutboxEvent → Bool) (p : OutboxEvent → Bool) (es : List OutboxEvent)
    (e : OutboxEvent)
    → first_by before (filter p es) ≡ some e
    → Any (λ x. (x ≡ e) × (p x ≡ true)) es
unfolding first_by filter
first_by-filter before p [] e h = cc
first_by-filter before p (x ∷ es) e h = elim (Bool-cases (p x)) [
  | inl t ↦ elim (Option-cases (first_by before (filter p es))) [
    | inl none_after ↦ inl (ground arith, t)
    | inr (f, found) ↦ elim (Bool-cases (before f x)) [
      | inl b ↦ inr (first_by-filter before p es e (ground arith))
      | inr b ↦ inl (ground arith, t)
    ]
  ]
  | inr f ↦ inr (first_by-filter before p es e (ground arith))
]

untouched :
    (new : OutboxEvent) (es : List OutboxEvent)
    → All (λ y. y.id ≢ new.id) es
    → map (replace new) es ≡ es
untouched new [] h = refl
untouched new (x ∷ es) h =
    let other : nat_beq x.id new.id ≡ false = ground (arith, h.0) in
    rw other (ap (λ (ys : List OutboxEvent). x ∷ ys) (untouched new es h.1))

-- At most one row differs, and that one by `R`.
abbrev pub One : (OutboxEvent → OutboxEvent → Type 0) → List OutboxEvent → List OutboxEvent → Type 0
One R [] [] = Unit
One R [] (y ∷ ys) = ⊥
One R (x ∷ xs) [] = ⊥
One R (x ∷ xs) (y ∷ ys) = ((y ≡ x) × One R xs ys) ⊎ (R x y × (ys ≡ xs))

pub Rows-refl :
    (R : OutboxEvent → OutboxEvent → Type 0)
    → ((x : OutboxEvent) → R x x)
    → (es : List OutboxEvent) → Rows R es es
Rows-refl R R-refl [] = tt
Rows-refl R R-refl (x ∷ es) = (R-refl x, Rows-refl R R-refl es)

-- Rows that one transaction may move, under a relation that also lets a row stay.
pub Rows-One :
    (R S : OutboxEvent → OutboxEvent → Type 0)
    → ((x : OutboxEvent) → S x x)
    → ((x y : OutboxEvent) → R x y → S x y)
    → (es fs : List OutboxEvent) → One R es fs
    → Rows S es fs
Rows-One R S S-refl f [] [] h = tt
Rows-One R S S-refl f [] (y ∷ ys) h = absurd h
Rows-One R S S-refl f (x ∷ xs) [] h = absurd h
Rows-One R S S-refl f (x ∷ xs) (y ∷ ys) (inl (same, h)) =
    (subst (S x) (sym same) (S-refl x), Rows-One R S S-refl f xs ys h)
Rows-One R S S-refl f (x ∷ xs) (y ∷ ys) (inr (r, same)) =
    (f x y r, subst (Rows S xs) (sym same) (Rows-refl S S-refl xs))

module _ (R : OutboxEvent → OutboxEvent → Type 0) where
  pub One-refl : (es : List OutboxEvent) → One R es es
  One-refl [] = tt
  One-refl (x ∷ es) = inl (refl, One-refl es)

  apart :
      (old : OutboxEvent) (P : OutboxEvent → Type 0) (i : ℕ) (es : List OutboxEvent)
      → All (λ y. y.id ≢ i) es
      → Any (λ x. (x ≡ old) × P x) es
      → old.id ≢ i
  apart old P i [] h found = absurd found.lower
  apart old P i (x ∷ es) h (inl (e, p)) = λ same. h.0 (ap (λ (y : OutboxEvent). y.id) e ∙ same)
  apart old P i (x ∷ es) h (inr found) = apart old P i es h.1 found

  -- Saving the row that was selected changes that row, and no other.
  pub One-replace :
      (new old : OutboxEvent) (P : OutboxEvent → Type 0) (es : List OutboxEvent)
      → UniqueIds es
      → Any (λ x. (x ≡ old) × P x) es
      → new.id ≡ old.id
      → (P old → R old new)
      → One R es (map (replace new) es)
  One-replace new old P [] u found same step = absurd found.lower
  One-replace new old P (x ∷ es) u (inl (e, p)) same step =
      let ids : x.id ≡ new.id = ap (λ (y : OutboxEvent). y.id) e ∙ sym same in
      let hit : nat_beq x.id new.id ≡ true = (nat_beq_iff x.id new.id).1 ids in
      rw hit (
        inr (
          subst (λ y. R y new) (sym e) (step (subst P e p)),
          untouched new es (subst (λ i. All (λ y. y.id ≢ i) es) ids u.0),
        ))
  One-replace new old P (x ∷ es) u (inr found) same step =
      let other : old.id ≢ x.id = apart old P x.id es u.0 found in
      let miss : nat_beq x.id new.id ≡ false = ground (arith, other) in
      rw miss (inl (refl, One-replace new old P es u.1 found same step))

  -- A row that is in the table, saved by `R`, is one row that differs by `R`.
  pub One-saved :
      (x y : OutboxEvent) (es : List OutboxEvent)
      → UniqueIds es
      → Any (λ z. z ≡ x) es
      → y.id ≡ x.id
      → R x y
      → One R es (map (replace y) es)
  One-saved x y es u is_in same r = One-replace y x (λ _. Unit) es u (paired es is_in) same (λ _. r)
    where
      paired : (zs : List OutboxEvent) → Any (λ z. z ≡ x) zs → Any (λ z. (z ≡ x) × Unit {0}) zs
      paired [] h = absurd h.lower
      paired (z ∷ zs) (inl e) = inl (e, tt)
      paired (z ∷ zs) (inr h) = inr (paired zs h)

-- What a query returns meets its condition, and where it returns nothing, no row does.
pub selected :
    (before : OutboxEvent → OutboxEvent → Bool) (p : OutboxEvent → Bool) (es : List OutboxEvent)
    (e : OutboxEvent)
    → first_by before (filter p es) ≡ some e
    → Any (λ x. x ≡ e) es × (p e ≡ true)
selected before p es e h = split es (first_by-filter before p es e h)
  where
    split :
        (xs : List OutboxEvent)
        → Any (λ x. (x ≡ e) × (p x ≡ true)) xs
        → Any (λ x. x ≡ e) xs × (p e ≡ true)
    split [] m = absurd m.lower
    split (x ∷ xs) (inl (same, t)) = (inl same, ap p (sym same) ∙ t)
    split (x ∷ xs) (inr m) = let (i, t) = split xs m in (inr i, t)

pub first_by-none :
    (before : OutboxEvent → OutboxEvent → Bool) (es : List OutboxEvent)
    → first_by before es ≡ none
    → es ≡ []
unfolding first_by
first_by-none before [] h = refl
first_by-none before (e ∷ es) h = ground arith

pub none_selected :
    (before : OutboxEvent → OutboxEvent → Bool) (p : OutboxEvent → Bool) (es : List OutboxEvent)
    → first_by before (filter p es) ≡ none
    → All (λ x. p x ≡ false) es
none_selected before p es h = refused es (first_by-none before (filter p es) h)
  where
    refused : (xs : List OutboxEvent) → filter p xs ≡ [] → All (λ x. p x ≡ false) xs
    refused [] e = tt
    refused (x ∷ xs) e = elim (Bool-cases (p x)) [
      | inl t ↦ absurd (unfold filter in ground arith)
      | inr f ↦ (f, refused xs (unfold filter in ground arith))
    ]
