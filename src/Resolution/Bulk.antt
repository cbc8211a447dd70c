-- ===== src/Resolution/Bulk.antt =====
-- Resolving a list of alias slugs: active_aliases_for_resolution_bulk of
-- octonomy/tags/alias_selectors.py, and resolve_tag_ids of octonomy/assignments/serializers.py.
use octonomy.Prelude.{
  ℕ, ◌+◌, String, Bool, false, ◌&&◌, Option, none, some, List, [], ◌∷◌, ◌++◌, filter, find,
  is_empty, is_none, length, ltb, contains, nat_eq, ◌==◌, string_eq, option_eq, if◌then◌else◌,
}
use octonomy.Errors.{Result, ok, err, validation}
use octonomy.Scope.{Settings, Namespace, namespace_q}
use octonomy.Catalog.{Tag, TagAlias, tag_of}
use octonomy.Resolution.{truthy, order_by, in_application, alias_priority, precedes}
use octonomy.Resolution.Sorting.{then_by}

-- The conditions of `active_aliases_for_resolution_bulk` on the alias and on its tag.
unfoldable pub resolves_some_alias :
    List Tag → String → List String → Option String → Namespace → Bool → TagAlias → Bool
unfolding in_application truthy
resolves_some_alias tags tenant_id slugs application_id s include_global a =
    a.tenant_id == tenant_id
    && a.is_active
    && contains slugs a.slug
    && namespace_q s include_global a.namespace
    && (elim (tag_of tags a) [
      | none ↦ false
      | some t ↦ t.is_active && namespace_q s include_global t.namespace
    ])
    && in_application (truthy application_id) s a.application_id a.namespace

-- The rows, and the database's orders: of slugs, of tags, and of aliases by name and id.
module _ (settings : Settings) (tags : List Tag) (aliases : List TagAlias)
    (slug_before : String → String → Bool) (tag_before : Tag → Tag → Bool)
    (alias_before : TagAlias → TagAlias → Bool) where
  -- `order_by("slug", "resolution_priority", "name", "id")`, and without an application
  -- `namespace_resolution_order(..., "slug", "name", "id")`, where the priority comes first.
  abbrev pub bulk_order : Option String → (TagAlias → Option ℕ) → TagAlias → TagAlias → Bool
  bulk_order none priority =
      precedes priority (then_by (λ a b. slug_before a.slug b.slug) alias_before)
  bulk_order (some named) priority =
      then_by (λ a b. slug_before a.slug b.slug) (precedes priority alias_before)

  abbrev pub bulk_before : Option String → Namespace → TagAlias → TagAlias → Bool
  bulk_before application_id s =
      bulk_order (truthy application_id) (alias_priority application_id s)

  -- `active_aliases_for_resolution_bulk`
  unfoldable pub active_aliases_for_resolution_bulk :
      String → List String → Option String → Namespace → Bool → List TagAlias
  active_aliases_for_resolution_bulk tenant_id slugs application_id s include_global =
      order_by (bulk_before application_id s)
        (filter (resolves_some_alias tags tenant_id slugs application_id s include_global) aliases)

  -- `resolved`, which keeps the first alias of each slug.
  abbrev pub resolved : List TagAlias → String → Option TagAlias
  resolved rows slug = find (λ a. a.slug == slug) rows

  -- `tag_ids.append(resolved[alias_slug].id)` for each slug; none of them is missing.
  unfoldable pub resolved_ids : List TagAlias → List String → List ℕ
  resolved_ids rows [] = []
  resolved_ids rows (slug ∷ slugs) =
      let rest = resolved_ids rows slugs in
      elim (resolved rows slug) [ none ↦ rest | some a ↦ a.tag_id ∷ rest ]

  -- `resolve_tag_ids`
  unfoldable pub resolve_tag_ids :
      String → String → Namespace → Bool → List ℕ → List String → Result (List ℕ)
  unfolding resolved_ids
  resolve_tag_ids tenant_id application_id s include_global tag_ids alias_slugs =
      let rows =
        active_aliases_for_resolution_bulk tenant_id alias_slugs (some application_id) s
          include_global in
      if is_empty alias_slugs
      then ok tag_ids
      else if ltb settings.max_bulk_tags (length tag_ids + length alias_slugs)
      then err (validation "alias_slugs")
      else if is_empty (filter (λ slug. is_none (resolved rows slug)) alias_slugs)
      then ok (tag_ids ++ resolved_ids rows alias_slugs)
      else err (validation "alias_slugs")
