-- ===== src/Resolution.antt =====
-- octonomy/tags/alias_selectors.py and the resolution of a slug in octonomy/tags/alias_services.py.
-- The database's order of names, which depends on its collation, is a parameter of the queries.
pub mod Resolve
pub mod Order
pub mod Sorting
pub mod Bulk
pub mod Singly
pub mod Answers
pub mod Ladder
pub mod Laws
pub mod Isolation
pub mod Assignable
pub mod Deterministic
pub mod Rungs
pub mod Decided
mod Tests
use octonomy.Prelude.{
  ℕ, String, Bool, true, false, ◌&&◌, ◌||◌, not, Option, none, some, List, [], ◌∷◌, filter, any,
  head?, is_empty, is_none, length, ltb, nat_beq, nat_eq, ◌==◌, string_eq, option_eq, if◌then◌else◌,
  find,
}
use octonomy.Errors.{
  Error, Result, ok, err, ◌>>=◌, value_error, validation, ambiguous_resolution,
  application_mismatch, does_not_exist,
}
use octonomy.Scope.{
  Namespace, global_scope, is_global, same_namespace, row_is_global, namespace_q, row_matches_scope,
}
use octonomy.Catalog.{Tag, TagAlias, tag_of}

-- `if value:` of an optional text.
unfoldable pub truthy : Option String → Option String
truthy none = none
truthy (some value) = if value == "" then none else some value

-- `resolution_priority` of a row with this application and namespace, in a request with this
-- application and scope: none where the query is not annotated with it.
unfoldable pub resolution_priority :
    Option String → Namespace → Option String → Namespace → Option ℕ
unfolding is_global
resolution_priority none s row_application row =
    if is_global s then none else some (if same_namespace row s then 0 else 1)
resolution_priority (some a) s row_application row =
    if is_global s
    then some (if row_application == some a then 0 else 1)
    else if row_application == some a && same_namespace row s
    then some 0
    else if row_application == some a && row_is_global row
    then some 1
    else some 2

-- The position that `order_by("resolution_priority", ...)` gives a row.
unfoldable pub rank : Option ℕ → ℕ
rank none = 0
rank (some n) = n

-- `order_by(...)`
unfoldable pub insert_by {ℓ} : {A : Type ℓ} → (A → A → Bool) → A → List A → List A
insert_by before x [] = x ∷ []
insert_by before x (y ∷ ys) =
    let rest = insert_by before x ys in if before y x then y ∷ rest else x ∷ y ∷ ys

unfoldable pub order_by {ℓ} : {A : Type ℓ} → (A → A → Bool) → List A → List A
unfolding insert_by
order_by before [] = []
order_by before (x ∷ xs) = insert_by before x (order_by before xs)

-- The applications whose rows a request with this application may resolve to; without one,
-- `filter_no_application_resolution`.
unfoldable pub in_application : Option String → Namespace → Option String → Namespace → Bool
unfolding is_global
in_application (some a) s row_application row = row_application == some a || is_none row_application
in_application none s row_application row =
    if is_global s then is_none row_application else same_namespace row s || is_none row_application

-- `if tag_type: queryset.filter(type=tag_type)`
unfoldable pub has_type : Option String → Tag → Bool
has_type none t = true
has_type (some value) t = t.type == value

-- The conditions of `active_tags_for_resolution`.
unfoldable pub resolves_tag :
    String → String → Option String → Option String → Namespace → Bool → Tag → Bool
unfolding has_type in_application truthy
resolves_tag tenant_id slug application_id tag_type s include_global t =
    t.tenant_id == tenant_id
    && t.is_active
    && t.slug == slug
    && namespace_q s include_global t.namespace
    && has_type (truthy tag_type) t
    && in_application (truthy application_id) s t.application_id t.namespace

-- The conditions of `active_aliases_for_resolution` on the alias and on its tag.
unfoldable pub resolves_alias :
    List Tag → String → String → Option String → Namespace → Bool → TagAlias → Bool
unfolding in_application truthy
resolves_alias tags tenant_id slug application_id s include_global a =
    a.tenant_id == tenant_id
    && a.is_active
    && a.slug == slug
    && namespace_q s include_global a.namespace
    && (elim (tag_of tags a) [
      | none ↦ false
      | some t ↦ t.is_active && namespace_q s include_global t.namespace
    ])
    && in_application (truthy application_id) s a.application_id a.namespace

-- The priority of a row, by the application that the request names, if it names one.
abbrev pub tag_priority : Option String → Namespace → Tag → Option ℕ
tag_priority application_id s t =
    resolution_priority (truthy application_id) s t.application_id t.namespace

abbrev pub alias_priority : Option String → Namespace → TagAlias → Option ℕ
alias_priority application_id s a =
    resolution_priority (truthy application_id) s a.application_id a.namespace

-- First the priority, then the database's order of the tie-breakers.
unfoldable pub precedes {ℓ} : {A : Type ℓ} → (A → Option ℕ) → (A → A → Bool) → A → A → Bool
unfolding rank
precedes priority before a b =
    ltb (rank (priority a)) (rank (priority b))
    || (nat_beq (rank (priority a)) (rank (priority b)) && before a b)

-- `effective_resolution_scope`
unfoldable pub effective_resolution_scope :
    Namespace → Option String → Bool → Result (Namespace × Bool)
unfolding is_global
effective_resolution_scope s none authorized_global = ok (s, authorized_global)
effective_resolution_scope s (some scope_qualifier) authorized_global =
    if scope_qualifier == "global"
    then (if authorized_global then ok (global_scope, false) else err (validation "slug"))
    else if scope_qualifier == "merchant"
    then (if is_global s then err (validation "scope") else ok (s, false))
    else err (validation "scope")

-- `most_specific_matches`, which is asked only of a list with a row.
unfoldable pub most_specific_matches {ℓ} : {A : Type ℓ} → (A → Option ℕ) → List A → List A
most_specific_matches priority [] = []
most_specific_matches priority (x ∷ xs) = elim (priority x) [
  | none ↦ x ∷ xs
  | some first ↦ filter (λ y. priority y == some first) (x ∷ xs)
]

-- `unique_resolution_match`
unfoldable pub unique_resolution_match {ℓ} :
    {A : Type ℓ} → (A → Option ℕ) → List A → Result (Option A)
unfolding most_specific_matches
unique_resolution_match priority rows =
    let top = most_specific_matches priority rows in
    if ltb 1 (length top) then err (ambiguous_resolution "application_id") else ok (head? top)

-- `len({tag.type for tag in candidate_tags}) > 1`
several_types : List Tag → Bool
several_types [] = false
several_types (t ∷ ts) = any (λ u. not (u.type == t.type)) ts

-- `raise_canonical_ambiguity`
unfoldable pub canonical_ambiguity : Option String → List Tag → Error
unfolding several_types
canonical_ambiguity tag_type candidates =
    if is_none tag_type && several_types candidates
    then validation "type"
    else ambiguous_resolution "application_id"

-- `if application_id: ...`: the application's own tags, where there are any.
unfoldable pub own_tags : Option String → List Tag → List Tag
own_tags none tags = tags
own_tags (some a) tags =
    let app_tags = filter (λ t. t.application_id == some a) tags in
    if is_empty app_tags then tags else app_tags

-- The answer of `resolve_tag_reference`: its `matched_type` is "alias" where an alias matched.
pub record Match : Type 0 where
  pub matched_alias : Option TagAlias
  pub tag : Tag

-- `candidate_tags[0]`, if it is the only candidate. The program has always one here: its
-- two selections keep a row of a list that has one.
unfoldable pub only_candidate : Option String → List Tag → Result Match
unfolding canonical_ambiguity
only_candidate tag_type [] = err value_error
only_candidate tag_type (t ∷ []) = ok (record { matched_alias = none; tag = t })
only_candidate tag_type (t ∷ u ∷ ts) = err (canonical_ambiguity tag_type (t ∷ u ∷ ts))

-- `{"matched_type": "alias", ...}` of the alias that matched, or no match.
unfoldable pub alias_match : List Tag → Option TagAlias → Result Match
alias_match tags none = err (validation "slug")
alias_match tags (some a) = elim (tag_of tags a) [
  | none ↦ err does_not_exist
  | some t ↦ ok (record { matched_alias = some a; tag = t })
]
