-- ===== src/Prelude/Lists.antt =====
-- Lists measured by native numbers, and the query-set operations on lists of rows.
use Prim.Native.Nat.{ℕ, suc, ◌+◌, ◌≤◌}
use mathlib.Core.Path.{◌≡◌, refl, ap}
use mathlib.Core.Logic.{inl, inr}
use mathlib.Core.Bool.{Bool, true, false, ◌&&◌, ◌||◌, not}
use mathlib.Core.Logic.{◌⊎◌, inl, inr, Lift}
use mathlib.Core.Option.{Option, none, some}
use mathlib.Core.List.{List, [], ◌∷◌, ◌++◌, map}
use native.Mathlib.Omega.{arith}
use octonomy.Prelude.Tests.{if◌then◌else◌, Eq, ◌==◌, Bool-cases, beq_refl}

module _ {ℓ} {A : Type ℓ} where
  abbrev pub length : List A → ℕ
  length [] = 0
  length (x ∷ xs) = suc (length xs)

  -- `queryset.filter(...)`, and a list comprehension with a test.
  unfoldable pub filter : (A → Bool) → List A → List A
  filter p [] = []
  filter p (x ∷ xs) = if p x then x ∷ filter p xs else filter p xs

  -- Python's `any` and `all`.
  unfoldable pub any : (A → Bool) → List A → Bool
  any p [] = false
  any p (x ∷ xs) = p x || any p xs

  unfoldable pub all : (A → Bool) → List A → Bool
  all p [] = true
  all p (x ∷ xs) = p x && all p xs

  unfoldable pub find : (A → Bool) → List A → Option A
  find p [] = none
  find p (x ∷ xs) = if p x then some x else find p xs

  abbrev pub head? : List A → Option A
  head? [] = none
  head? (x ∷ xs) = some x

  abbrev pub is_empty : List A → Bool
  is_empty [] = true
  is_empty (x ∷ xs) = false

  -- A predicate on every element, by recursion, so that the tactics read it.
  abbrev pub All {κ} : (A → Type κ) → List A → Type κ
  All P [] = Unit
  All P (x ∷ xs) = P x × All P xs

module _ {ℓ} {A : Type ℓ} where
  pub length-append : (xs ys : List A) → length (xs ++ ys) ≡ length xs + length ys
  length-append [] ys = omega arith
  length-append (x ∷ xs) ys = omega (arith, length-append xs ys)

  pub length-filter-le : (p : A → Bool) (xs : List A) → length (filter p xs) ≤ length xs
  unfolding filter
  length-filter-le p [] = omega arith
  length-filter-le p (x ∷ xs) = ground (arith, length-filter-le p xs)

  -- What every row satisfies, every selected row does; and a selected row passes the test.
  pub All-filter {κ} :
      (P : A → Type κ) (p : A → Bool) (xs : List A) → All P xs → All P (filter p xs)
  unfolding filter
  All-filter P p [] h = tt
  All-filter P p (x ∷ xs) h = elim (Bool-cases (p x)) [
    | inl e ↦ rw e (h.0, All-filter P p xs h.1)
    | inr e ↦ rw e (All-filter P p xs h.1)
  ]

  pub All-filter_test : (p : A → Bool) (xs : List A) → All (λ x. p x ≡ true) (filter p xs)
  unfolding filter
  All-filter_test p [] = tt
  All-filter_test p (x ∷ xs) = elim (Bool-cases (p x)) [
    | inl e ↦ rw e (e, All-filter_test p xs)
    | inr e ↦ rw e (All-filter_test p xs)
  ]

  pub All-map_imp {κ μ} :
      {P : A → Type κ} {Q : A → Type μ} (xs : List A) → ((x : A) → P x → Q x) → All P xs → All Q xs
  All-map_imp [] f h = tt
  All-map_imp (x ∷ xs) f h = (f x h.0, All-map_imp xs f h.1)

  pub filter_cong :
      (p q : A → Bool) → ((x : A) → p x ≡ q x) → (xs : List A) → filter p xs ≡ filter q xs
  unfolding filter
  filter_cong p q e [] = refl
  filter_cong p q e (x ∷ xs) = rw (e x, filter_cong p q e xs)

module _ {ℓ} {A : Type ℓ} ⦃e : Eq A⦄ where
  -- `x in xs`
  unfoldable pub contains : List A → A → Bool
  contains [] a = false
  contains (x ∷ xs) a = a == x || contains xs a

  -- `set.add(x)`: a set is a list without repetitions.
  unfoldable pub set_add : A → List A → List A
  unfolding contains
  set_add a xs = if contains xs a then xs else xs ++ a ∷ []

module _ {ℓ} {A : Type ℓ} where
  -- A predicate on some element, with the element kept.
  abbrev pub Any {κ} : (A → Type κ) → List A → Type κ
  Any P [] = Lift ⊥
  Any P (x ∷ xs) = P x ⊎ Any P xs

module _ {ℓ} {A : Type ℓ} ⦃e : Eq A⦄ where
  pub contains-append :
      (xs ys : List A) (a : A) → contains (xs ++ ys) a ≡ (contains xs a || contains ys a)
  unfolding contains
  contains-append [] ys a = refl
  contains-append (x ∷ xs) ys a = ground (arith, contains-append xs ys a)

  pub contains_here : (a : A) (xs : List A) → contains (a ∷ xs) a ≡ true
  unfolding contains
  contains_here a xs = rw (beq_refl a)

  pub contains-set_add :
      (a : A) (xs : List A) (b : A) → contains (set_add a xs) b ≡ (contains xs b || b == a)
  unfolding set_add
  contains-set_add a xs b = elim (Bool-cases (contains xs a)) [
    | inl old ↦ rw old (old_case old)
    | inr new ↦ rw new (ground (arith, contains-append xs (a ∷ []) b))
  ]
    where
      old_case : contains xs a ≡ true → contains xs b ≡ (contains xs b || b == a)
      old_case old = elim (Bool-cases (b == a)) [
        | inl same ↦ let p : b ≡ a = (e.beq_iff b a).0 same in rw p (ground (arith, old))
        | inr other ↦ ground arith
      ]

  pub contains-filter :
      (p : A → Bool) (xs : List A) (a : A) → contains (filter p xs) a ≡ (p a && contains xs a)
  unfolding filter contains
  contains-filter p [] a = ground arith
  contains-filter p (x ∷ xs) a = elim (Bool-cases (a == x)) [
    | inl same ↦
        let q : a ≡ x = (e.beq_iff a x).0 same in
        elim (Bool-cases (p x)) [
          | inl t ↦ rw (q, t) (ground (arith, beq_refl x))
          | inr f ↦ rw (q, f) (ground (arith, contains-filter p xs a, beq_refl x, ap p q))
        ]
    | inr other ↦ ground (arith, contains-filter p xs a)
  ]

module _ {ℓ} {A : Type ℓ} where
  pub append_nil : (xs : List A) → xs ++ [] ≡ xs
  append_nil [] = refl
  append_nil (x ∷ xs) = ap (λ ys. x ∷ ys) (append_nil xs)

  -- A list that grew at its end, followed by another.
  pub map-snoc {κ} :
      {B : Type κ} (f : A → B) (xs : List A) (x : A) (ys : List B)
      → map f (xs ++ x ∷ []) ++ ys ≡ map f xs ++ f x ∷ ys
  map-snoc f [] x ys = refl
  map-snoc f (z ∷ xs) x ys = ap (λ zs. f z ∷ zs) (map-snoc f xs x ys)

  -- A test splits a list.
  pub length-filter_split :
      (p : A → Bool) (xs : List A)
      → length (filter p xs) + length (filter (λ x. not (p x)) xs) ≡ length xs
  unfolding filter
  length-filter_split p [] = refl
  length-filter_split p (x ∷ xs) = ground (arith, length-filter_split p xs)
