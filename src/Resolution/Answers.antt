-- ===== src/Resolution/Answers.antt =====
-- What the helpers of octonomy/tags/alias_services.py answer, one by one.
use octonomy.Prelude.{
  ℕ, String, ◌≤◌, ◌≡◌, inl, inr, ap, sym, subst, ◌∙◌, Bool, true, false, Option, none, some, List,
  [], ◌∷◌, filter, head?, is_empty, arith, Bool-cases, Option-cases, nat_beq, nat_eq, string_eq,
  option_eq, ◌==◌, if◌then◌else◌, In, In-All, In-filter, In-filter_intro, In-head,
}
use octonomy.Errors.{ok}
use octonomy.Scope.{Namespace}
use octonomy.Catalog.{Tag, TagAlias, tag_of, Pairs}
use octonomy.Resolution.{
  rank, resolution_priority, most_specific_matches, unique_resolution_match, own_tags, Match,
  only_candidate, alias_match,
}
use octonomy.Resolution.Order.{NoLater, Pairs-filter}

pub In-most_specific {ℓ} :
    {A : Type ℓ} (priority : A → Option ℕ) (xs : List A) (a : A)
    → In a (most_specific_matches priority xs)
    → In a xs
unfolding most_specific_matches
In-most_specific priority [] a h = h
In-most_specific priority (x ∷ xs) a h = elim (Option-cases (priority x)) [
  | inl e ↦
      subst
        (λ o.
          In a (elim o [
            | none ↦ x ∷ xs
            | some first ↦ filter (λ y. priority y == some first) (x ∷ xs)
          ]))
        e h
  | inr (n, e) ↦
      (In-filter (λ y. priority y == some n) (x ∷ xs) a
        (subst
          (λ o. In a (elim o [
            | none ↦ x ∷ xs
            | some first ↦ filter (λ y. priority y == some first) (x ∷ xs)
          ]))
          e h)).0
]

pub In-own_tags :
    (application_id : Option String) (tags : List Tag) (t : Tag)
    → In t (own_tags application_id tags)
    → In t tags
unfolding own_tags
In-own_tags none tags t h = h
In-own_tags (some a) tags t h =
    elim (Bool-cases (is_empty (filter (λ u. u.application_id == some a) tags))) [
      | inl e ↦
          subst (λ b. In t (if b then tags else filter (λ u. u.application_id == some a) tags)) e h
      | inr e ↦
          (In-filter (λ u. u.application_id == some a) tags t
            (subst (λ b. In t (if b then tags else filter (λ u. u.application_id == some a) tags)) e
              h)).0
    ]

pub only_candidate-inv :
    (tag_type : Option String) (ts : List Tag) (m : Match)
    → only_candidate tag_type ts ≡ ok m
    → (m.matched_alias ≡ none) × (head? ts ≡ some m.tag)
unfolding only_candidate
only_candidate-inv tag_type [] m h = cc
only_candidate-inv tag_type (t ∷ []) m h = ground arith
only_candidate-inv tag_type (t ∷ u ∷ ts) m h = ground arith

pub alias_match-inv :
    (tags : List Tag) (found : Option TagAlias) (m : Match)
    → alias_match tags found ≡ ok m
    → (a : TagAlias) × (found ≡ some a) × (m.matched_alias ≡ some a) × (tag_of tags a ≡ some m.tag)
unfolding alias_match
alias_match-inv tags none m h = cc
alias_match-inv tags (some a) m h = elim (Option-cases (tag_of tags a)) [
  | inl e ↦ ground arith
  | inr (t, e) ↦ ground arith
]

pub unique-inv {ℓ} :
    {A : Type ℓ} (priority : A → Option ℕ) (xs : List A) (a : A)
    → unique_resolution_match priority xs ≡ ok (some a)
    → head? (most_specific_matches priority xs) ≡ some a
unfolding unique_resolution_match
unique-inv priority xs a h = ground arith

pub head-most_specific {ℓ} :
    {A : Type ℓ} (priority : A → Option ℕ) (xs : List A) (a : A)
    → head? (most_specific_matches priority xs) ≡ some a
    → head? xs ≡ some a
unfolding most_specific_matches filter
head-most_specific priority [] a h = h
head-most_specific priority (x ∷ xs) a h = elim (Option-cases (priority x)) [
  | inl e ↦ ground arith
  | inr (n, e) ↦ let self : nat_beq n n ≡ true = ground arith in ground arith
]

-- The first of a list that is sorted by priority.
pub sorted_head {ℓ} :
    {A : Type ℓ} (priority : A → Option ℕ) (before : A → A → Bool) (xs : List A) (a b : A)
    → Pairs (NoLater priority before) xs
    → head? xs ≡ some a
    → In b xs
    → rank (priority a) ≤ rank (priority b)
sorted_head priority before [] a b p h i = absurd i.lower
sorted_head priority before (x ∷ xs) a b p h (inl e) =
    let q : x ≡ a = ground arith in
    let r : a ≡ b = sym q ∙ e in
    let same : rank (priority a) ≡ rank (priority b) = ap (λ y. rank (priority y)) r in
    omega (arith, same)
sorted_head priority before (x ∷ xs) a b p h (inr i) =
    let q : x ≡ a = ground arith in
    subst (λ y. rank (priority y) ≤ rank (priority b)) q
      (In-All (NoLater priority before x) xs b i p.0)

-- The application's own rows come before the shared ones.
pub own_first :
    (a : String) (s : Namespace) (t u : Tag)
    → (t.application_id == some a) ≡ true
    → (u.application_id == some a) ≡ false
    → rank (resolution_priority (some a) s t.application_id t.namespace)
      ≤ rank (resolution_priority (some a) s u.application_id u.namespace)
unfolding resolution_priority rank
own_first a s t u own other = ground arith

pub least_own :
    (application_id : Option String) (s : Namespace) (before : Tag → Tag → Bool) (ts : List Tag)
    (t u : Tag)
    → let priority =
        λ (v : Tag). resolution_priority application_id s v.application_id v.namespace in
      Pairs (NoLater priority before) ts
      → head? (own_tags application_id ts) ≡ some t
      → In u ts
      → rank (priority t) ≤ rank (priority u)
unfolding own_tags
least_own none s before ts t u p h i =
    sorted_head (λ v. resolution_priority none s v.application_id v.namespace) before ts t u p h i
least_own (some a) s before ts t u p h i =
    let priority = λ (v : Tag). resolution_priority (some a) s v.application_id v.namespace in
    let own = λ (v : Tag). v.application_id == some a in
    elim (Bool-cases (is_empty (filter own ts))) [
      | inl e ↦
          sorted_head priority before ts t u p
            (subst (λ b. head? (if b then ts else filter own ts) ≡ some t) e h) i
      | inr e ↦
          let first = subst (λ b. head? (if b then ts else filter own ts) ≡ some t) e h in
          elim (Bool-cases (own u)) [
            | inl mine ↦
                sorted_head priority before (filter own ts) t u
                  (Pairs-filter (NoLater priority before) own ts p) first
                  (In-filter_intro own ts u i mine)
            | inr other ↦
                own_first a s t u (In-filter own ts t (In-head (filter own ts) t first)).1 other
          ]
    ]
