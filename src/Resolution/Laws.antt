-- ===== src/Resolution/Laws.antt =====
-- The row that a slug resolves to, in octonomy/tags/alias_services.py, among those of its kind.
use octonomy.Prelude.{
  String, ◌≡◌, ◌⊎◌, inl, inr, ap, ◌∙◌, Bool, true, false, Option, none, some, List, [], ◌∷◌, filter,
  is_empty, arith, Bool-cases, nat_eq, string_eq, option_eq, In, In-filter, In-filter_intro,
  In-head,
}
use octonomy.Errors.{ok, >>=-eq-ok}
use octonomy.Scope.{Namespace}
use octonomy.Catalog.{Tag, TagAlias, tag_of}
use octonomy.Resolution.{
  truthy, order_by, resolves_tag, resolves_alias, tag_priority, alias_priority, precedes,
  most_specific_matches, unique_resolution_match, own_tags, Match, only_candidate,
}
use octonomy.Resolution.Resolve.{
  active_tags_for_resolution, active_aliases_for_resolution, resolve_alias, resolve_in_scope,
}
use octonomy.Resolution.Ladder.{Shadows, unshadowed_lem}
use octonomy.Resolution.Order.{In-order_by, In-order_by_intro, Sorted-order_by}
use octonomy.Resolution.Answers.{
  In-own_tags, only_candidate-inv, alias_match-inv, unique-inv, head-most_specific, sorted_head,
  least_own,
}

-- What matched: a tag that the query finds, or an alias that it finds where it finds no tag; and no
-- row of its kind that it finds shadows it.
pub record IsCanonical (tags : List Tag) (tenant_id slug : String)
    (application_id tag_type : Option String) (s : Namespace) (include_global : Bool) (m : Match)
    : Type 0 where
  pub unaliased : m.matched_alias ≡ none
  pub is_in : In m.tag tags
  pub found : resolves_tag tenant_id slug application_id tag_type s include_global m.tag ≡ true
  pub least :
      (u : Tag)
      → In u tags
      → resolves_tag tenant_id slug application_id tag_type s include_global u ≡ true
      → ¬ (
          Shadows
            (truthy application_id)
            s
            u.application_id
            u.namespace
            m.tag.application_id
            m.tag.namespace)

pub record IsAliased (tags : List Tag) (aliases : List TagAlias) (tenant_id slug : String)
    (application_id tag_type : Option String) (s : Namespace) (include_global : Bool) (m : Match)
    : Type 0 where
  pub alias : TagAlias
  pub matched : m.matched_alias ≡ some alias
  pub is_in : In alias aliases
  pub found : resolves_alias tags tenant_id slug application_id s include_global alias ≡ true
  pub target : tag_of tags alias ≡ some m.tag
  pub least :
      (b : TagAlias)
      → In b aliases
      → resolves_alias tags tenant_id slug application_id s include_global b ≡ true
      → ¬ (
          Shadows
            (truthy application_id)
            s
            b.application_id
            b.namespace
            alias.application_id
            alias.namespace)
  pub unshadowed :
      (u : Tag)
      → In u tags
      → resolves_tag tenant_id slug application_id tag_type s include_global u ≡ false

empty_none {ℓ} : {A : Type ℓ} (xs : List A) (a : A) → is_empty xs ≡ true → In a xs → ⊥
empty_none [] a e i = i.lower
empty_none (x ∷ xs) a e i = cc

module _ (tags : List Tag) (aliases : List TagAlias) (tag_before : Tag → Tag → Bool)
    (alias_before : TagAlias → TagAlias → Bool) (tenant_id slug : String)
    (application_id tag_type : Option String) (s : Namespace) (include_global : Bool) where
  canonical_lem :
      (m : Match)
      → only_candidate tag_type (
          most_specific_matches (tag_priority application_id s) (
            own_tags (truthy application_id) (
              active_tags_for_resolution tags aliases tag_before alias_before tenant_id slug
                application_id tag_type s include_global)))
        ≡ ok m
      → IsCanonical tags tenant_id slug application_id tag_type s include_global m
  unfolding active_tags_for_resolution
  canonical_lem m h =
      let priority = tag_priority application_id s in
      let test = resolves_tag tenant_id slug application_id tag_type s include_global in
      let sorted = order_by (precedes priority tag_before) (filter test tags) in
      let (bare, first) = only_candidate-inv tag_type _ m h in
      let first_own =
        head-most_specific priority (own_tags (truthy application_id) sorted) m.tag first in
      let found = In-filter test tags m.tag (
        In-order_by (precedes priority tag_before) (filter test tags) m.tag
          (In-own_tags (truthy application_id) sorted m.tag (In-head _ m.tag first_own))) in
      record {
        unaliased = bare;
        is_in = found.0;
        found = found.1;
        least = λ u i t.
            unshadowed_lem (truthy application_id) s u.application_id u.namespace
              m.tag.application_id m.tag.namespace
              (least_own (truthy application_id) s tag_before sorted m.tag u
                (Sorted-order_by priority tag_before (filter test tags)) first_own
                (In-order_by_intro (precedes priority tag_before) (filter test tags) u
                  (In-filter_intro test tags u i t)));
      }

  aliased_lem :
      (m : Match)
      → is_empty (
          active_tags_for_resolution tags aliases tag_before alias_before tenant_id slug
            application_id tag_type s include_global)
        ≡ true
      → resolve_alias tags aliases tag_before alias_before tenant_id slug application_id s
          include_global
        ≡ ok m
      → IsAliased tags aliases tenant_id slug application_id tag_type s include_global m
  unfolding active_tags_for_resolution active_aliases_for_resolution resolve_alias
  aliased_lem m e h =
      let priority = alias_priority application_id s in
      let test = resolves_alias tags tenant_id slug application_id s include_global in
      let tag_test = resolves_tag tenant_id slug application_id tag_type s include_global in
      let sorted = order_by (precedes priority alias_before) (filter test aliases) in
      let (matched, m₁, h₁) = >>=-eq-ok (unique_resolution_match priority sorted) _ h in
      let (a, same, is_alias, target) = alias_match-inv tags matched m h₁ in
      let first =
        head-most_specific priority sorted a (unique-inv priority sorted a (m₁ ∙ ap ok same)) in
      let found = In-filter test aliases a (
        In-order_by (precedes priority alias_before) (filter test aliases) a (In-head _ a first)) in
      record {
        alias = a;
        matched = is_alias;
        is_in = found.0;
        found = found.1;
        target = target;
        least = λ b i t.
            unshadowed_lem (truthy application_id) s b.application_id b.namespace a.application_id
              a.namespace
              (sorted_head priority alias_before sorted a b
                (Sorted-order_by priority alias_before (filter test aliases)) first
                (In-order_by_intro (precedes priority alias_before) (filter test aliases) b
                  (In-filter_intro test aliases b i t)));
        unshadowed = λ u i. elim (Bool-cases (tag_test u)) [
          | inr f ↦ f
          | inl t ↦ absurd (
              empty_none _ u e (
                In-order_by_intro (precedes (tag_priority application_id s) tag_before)
                  (filter tag_test tags) u (In-filter_intro tag_test tags u i t)))
        ];
      }

  -- What a slug resolves to in one scope is a tag that the query finds, and that no tag which it
  -- finds shadows; or, where it finds no tag, the tag of an alias that it finds, and that no alias
  -- which it finds shadows. In the global scope the rows of the application that the request names
  -- shadow the shared ones; in a namespace its rows there shadow all others, and its global rows
  -- those that are not the application's; and where no application is named, the rows of the
  -- namespace shadow the others.
  pub resolve_in_scope-most_specific :
      (m : Match)
      → resolve_in_scope tags aliases tag_before alias_before tenant_id slug application_id tag_type
          s include_global
        ≡ ok m
      → IsCanonical tags tenant_id slug application_id tag_type s include_global m
        ⊎ IsAliased tags aliases tenant_id slug application_id tag_type s include_global m
  unfolding resolve_in_scope
  resolve_in_scope-most_specific m h =
      elim (Bool-cases (
        is_empty (
          active_tags_for_resolution tags aliases tag_before alias_before tenant_id slug
            application_id tag_type s include_global))) [
              | inl e ↦ inr (aliased_lem m e (ground arith))
              | inr e ↦ inl (canonical_lem m (ground arith))
            ]
