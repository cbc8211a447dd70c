-- ===== src/Prelude/Members.antt =====
-- Membership in a list of rows.
use mathlib.Core.Path.{◌≡◌, refl, sym, subst}
use mathlib.Core.Logic.{inl, inr}
use mathlib.Core.Bool.{Bool, true}
use mathlib.Core.Option.{some}
use mathlib.Core.List.{List, [], ◌∷◌, ◌++◌, map}
use octonomy.Prelude.Tests.{if◌then◌else◌, Bool-cases}
use octonomy.Prelude.Lists.{filter, head?, All, Any}

module _ {ℓ} {A : Type ℓ} where
  abbrev pub In : A → List A → Type ℓ
  In a xs = Any (λ x. x ≡ a) xs

  pub In-filter : (p : A → Bool) (xs : List A) (a : A) → In a (filter p xs) → In a xs × (p a ≡ true)
  unfolding filter
  In-filter p [] a h = absurd h.lower
  In-filter p (x ∷ xs) a h = elim (Bool-cases (p x)) [
    | inl t ↦
        split (In-filter p xs a) t
          (subst (λ b. In a (if b then x ∷ filter p xs else filter p xs)) t h)
    | inr f ↦
        let (i, q) =
          In-filter p xs a (subst (λ b. In a (if b then x ∷ filter p xs else filter p xs)) f h) in
        (inr i, q)
  ]
    where
      split :
          (In a (filter p xs) → In a xs × (p a ≡ true))
          → p x ≡ true
          → In a (x ∷ filter p xs)
          → In a (x ∷ xs) × (p a ≡ true)
      split rest t (inl e) = (inl e, subst (λ y. p y ≡ true) e t)
      split rest t (inr i) = let (j, q) = rest i in (inr j, q)

  pub In-filter_intro :
      (p : A → Bool) (xs : List A) (a : A) → In a xs → p a ≡ true → In a (filter p xs)
  unfolding filter
  In-filter_intro p [] a h t = absurd h.lower
  In-filter_intro p (x ∷ xs) a (inl e) t =
      let hit : p x ≡ true = subst (λ y. p y ≡ true) (sym e) t in rw hit (inl e)
  In-filter_intro p (x ∷ xs) a (inr i) t = elim (Bool-cases (p x)) [
    | inl hit ↦ rw hit (inr (In-filter_intro p xs a i t))
    | inr miss ↦ rw miss (In-filter_intro p xs a i t)
  ]

  pub In-All {κ} : (P : A → Type κ) (xs : List A) (a : A) → In a xs → All P xs → P a
  In-All P [] a h all = absurd h.lower
  In-All P (x ∷ xs) a (inl e) all = subst P e all.0
  In-All P (x ∷ xs) a (inr i) all = In-All P xs a i all.1

  pub In-head : (xs : List A) (a : A) → head? xs ≡ some a → In a xs
  In-head [] a h = cc
  In-head (x ∷ xs) a h = inl (cc)

  pub All-append {κ} :
      (P : A → Type κ) (xs : List A) (a : A) → All P xs → P a → All P (xs ++ a ∷ [])
  All-append P [] a h p = (p, tt)
  All-append P (x ∷ xs) a h p = (h.0, All-append P xs a h.1 p)

  pub In-append_old : (xs : List A) (b a : A) → In a xs → In a (xs ++ b ∷ [])
  In-append_old [] b a h = absurd h.lower
  In-append_old (x ∷ xs) b a (inl e) = inl e
  In-append_old (x ∷ xs) b a (inr i) = inr (In-append_old xs b a i)

  pub All-In {κ} : (P : A → Type κ) (xs : List A) → ((a : A) → In a xs → P a) → All P xs
  All-In P [] h = tt
  All-In P (x ∷ xs) h = (h x (inl refl), All-In P xs (λ a i. h a (inr i)))

  pub All-both {κ μ} :
      (P : A → Type κ) (Q : A → Type μ) (xs : List A)
      → All P xs
      → All Q xs
      → All (λ x. P x × Q x) xs
  All-both P Q [] p q = tt
  All-both P Q (x ∷ xs) p q = ((p.0, q.0), All-both P Q xs p.1 q.1)

module _ {ℓ} {A : Type ℓ} where
  pub All-map_In {κ} :
      (P : A → Type κ) (f : A → A) (xs : List A) → ((a : A) → In a xs → P (f a)) → All P (map f xs)
  All-map_In P f [] h = tt
  All-map_In P f (x ∷ xs) h = (h x (inl refl), All-map_In P f xs (λ a i. h a (inr i)))
