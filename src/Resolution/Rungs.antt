-- ===== src/Resolution/Rungs.antt =====
-- Lists of rows on one rung of the ladder of octonomy/tags/alias_services.py.
use octonomy.Prelude.{
  All-both, ℕ, String, ◌≡◌, ◌⊎◌, inl, inr, refl, ap, Bool, true, false, Option, none, some, List,
  [], ◌∷◌, filter, All, All-filter, All-filter_test, All-map_imp, arith, Bool-cases, Option-cases,
  string_eq, option_eq, option_beq_iff, nat_eq, nat_beq, is_empty, ◌==◌,
}
use octonomy.Errors.{ok}
use octonomy.Scope.{Namespace, namespace_eq}
use octonomy.Catalog.{Tag, TagAlias, tag_of, Pairs}
use octonomy.Resolution.{truthy, resolution_priority, most_specific_matches, own_tags, alias_match}
use octonomy.Resolution.Order.{Pairs-filter}

module _ {A : Type 0} (priority : A → Option ℕ) where
  pub top_rung :
      (x : A) (xs : List A) (n : ℕ)
      → priority x ≡ some n
      → most_specific_matches priority (x ∷ xs) ≡ filter (λ y. priority y == some n) (x ∷ xs)
  unfolding most_specific_matches
  top_rung x xs n e =
      ap
        (λ (o : Option ℕ). elim o [
          | none ↦ x ∷ xs
          | some first ↦ filter (λ y. priority y == some first) (x ∷ xs)
        ])
        e

  pub unranked :
      (x : A) (xs : List A) → priority x ≡ none → most_specific_matches priority (x ∷ xs) ≡ x ∷ xs
  unfolding most_specific_matches
  unranked x xs e =
      ap
        (λ (o : Option ℕ). elim o [
          | none ↦ x ∷ xs
          | some first ↦ filter (λ y. priority y == some first) (x ∷ xs)
        ])
        e

  pub All-most_specific :
      (P : A → Type 0)
      → ((x : A) → (n : ℕ) × (priority x ≡ some n))
      → (xs : List A) → All P xs
      → (n : ℕ) × All (λ y. P y × (priority y ≡ some n)) (most_specific_matches priority xs)
  unfolding most_specific_matches
  All-most_specific P total [] h = (0, tt)
  All-most_specific P total (x ∷ xs) h =
      let (n, e) = total x in
      let test = λ (y : A). priority y == some n in
      let kept = All-filter P test (x ∷ xs) h in
      let on =
        All-map_imp (filter test (x ∷ xs)) (λ y t. (option_beq_iff (priority y) (some n)).0 t)
          (All-filter_test test (x ∷ xs)) in
      (
        n,
        rw (top_rung x xs n e)
            (All-both P (λ y. priority y ≡ some n) (filter test (x ∷ xs)) kept on),
      )

  pub Pairs-most_specific :
      (R : A → A → Type 0) (xs : List A) → Pairs R xs → Pairs R (most_specific_matches priority xs)
  unfolding most_specific_matches
  Pairs-most_specific R [] h = tt
  Pairs-most_specific R (x ∷ xs) h = elim (Option-cases (priority x)) [
    | inl e ↦ rw (unranked x xs e) h
    | inr (n, e) ↦ rw (top_rung x xs n e) (Pairs-filter R (λ y. priority y == some n) (x ∷ xs) h)
  ]

  pub is_empty-most_specific :
      (xs : List A) → is_empty (most_specific_matches priority xs) ≡ is_empty xs
  unfolding most_specific_matches filter
  is_empty-most_specific [] = refl
  is_empty-most_specific (x ∷ xs) = elim (Option-cases (priority x)) [
    | inl e ↦ rw (unranked x xs e) refl
    | inr (n, e) ↦
        let self : nat_beq n n ≡ true = ground arith in rw (top_rung x xs n e) (ground arith)
  ]

  -- One row at most where any two would clash.
  pub at_most_one :
      (P : A → Type 0) (clash : A → A → Bool)
      → ((x y : A) → P x → P y → clash x y ≡ true)
      → (xs : List A) → All P xs
      → Pairs (λ x y. clash x y ≡ false) xs
      → (xs ≡ []) ⊎ ((x : A) × (xs ≡ x ∷ []) × P x)
  at_most_one P clash f [] h p = inl refl
  at_most_one P clash f (x ∷ []) h p = inr (x, refl, h.0)
  at_most_one P clash f (x ∷ y ∷ ys) h p =
      let meets = f x y h.0 h.1.0 in
      let parts : clash x y ≡ false = p.0.0 in absurd (ground (arith, meets, parts))

pub is_empty-own_tags : (a : String) (ts : List Tag) → is_empty (own_tags (some a) ts) ≡ is_empty ts
unfolding own_tags filter
is_empty-own_tags a [] = refl
is_empty-own_tags a (t ∷ ts) = ground arith

pub Pairs-own_tags :
    (R : Tag → Tag → Type 0) (a : String) (ts : List Tag)
    → Pairs R ts
    → Pairs R (own_tags (some a) ts)
unfolding own_tags
Pairs-own_tags R a ts h =
    elim (Bool-cases (is_empty (filter (λ u. u.application_id == some a) ts))) [
      | inl e ↦ rw e h
      | inr e ↦ rw e (Pairs-filter R (λ u. u.application_id == some a) ts h)
    ]

pub All-own_tags :
    (P : Tag → Type 0) (a : String) (ts : List Tag) → All P ts → All P (own_tags (some a) ts)
unfolding own_tags
All-own_tags P a ts h = elim (Bool-cases (is_empty (filter (λ u. u.application_id == some a) ts))) [
  | inl e ↦ rw e h
  | inr e ↦ rw e (All-filter P (λ u. u.application_id == some a) ts h)
]

pub priority_total :
    (a : String) (s : Namespace) (application_id : Option String) (row : Namespace)
    → (a == "") ≡ false
    → (n : ℕ) × (resolution_priority (truthy (some a)) s application_id row ≡ some n)
unfolding resolution_priority truthy
priority_total a s application_id row h =
    elim (Option-cases (resolution_priority (truthy (some a)) s application_id row)) [
      | inl none_given ↦ absurd (ground arith)
      | inr ranked ↦ ranked
    ]

pub alias_match-found :
    (tags : List Tag) (b : TagAlias) (t : Tag)
    → tag_of tags b ≡ some t
    → alias_match tags (some b) ≡ ok (record { matched_alias = some b; tag = t })
unfolding alias_match
alias_match-found tags b t e = ground arith
