-- ===== src/Resolution/Resolve.antt =====
-- resolve_tag_reference and resolve_assignable_alias of octonomy/tags/alias_services.py.
use octonomy.Prelude.{
  ℕ, String, Bool, ◌&&◌, not, Option, none, some, List, filter, find, head?, is_empty, is_none,
  nat_beq, nat_eq, ◌==◌, string_eq, option_eq, if◌then◌else◌,
}
use octonomy.Errors.{Result, ok, err, ◌>>=◌, validation, application_mismatch, does_not_exist}
use octonomy.Scope.{Namespace, row_matches_scope}
use octonomy.Catalog.{Tag, TagAlias, tag_of}
use octonomy.Resolution.{
  truthy, order_by, resolves_tag, resolves_alias, tag_priority, alias_priority, precedes,
  effective_resolution_scope, most_specific_matches, unique_resolution_match, own_tags, Match,
  only_candidate, alias_match,
}

-- The checks that follow the lookup in `resolve_assignable_alias`.
unfoldable pub check_alias : String → String → TagAlias → Tag → Result Tag
check_alias application_id field a t =
    if not a.is_active
    then err (validation field)
    else if not t.is_active
    then err (validation field)
    else if not (is_none a.application_id) && not (a.application_id == some application_id)
    then err (application_mismatch "application_id")
    else ok t

-- An alias that was named by its id, found in the tenant.
unfoldable pub check_alias_scope : Namespace → Bool → TagAlias → Tag → Result Tag
check_alias_scope s include_global a t =
    if not (row_matches_scope a.namespace s include_global)
    then err (validation "alias_id")
    else if not (row_matches_scope t.namespace s include_global)
    then err (validation "alias_id")
    else ok t

-- The rows, and the database's order of the tie-breakers: type, name and id of tags, name and id of
-- aliases.
module _ (tags : List Tag) (aliases : List TagAlias) (tag_before : Tag → Tag → Bool)
    (alias_before : TagAlias → TagAlias → Bool) where
  -- `active_tags_for_resolution`
  unfoldable pub active_tags_for_resolution :
      String → String → Option String → Option String → Namespace → Bool → List Tag
  active_tags_for_resolution tenant_id slug application_id tag_type s include_global =
      order_by (precedes (tag_priority application_id s) tag_before)
        (filter (resolves_tag tenant_id slug application_id tag_type s include_global) tags)

  -- `active_aliases_for_resolution`
  unfoldable pub active_aliases_for_resolution :
      String → String → Option String → Namespace → Bool → List TagAlias
  active_aliases_for_resolution tenant_id slug application_id s include_global =
      order_by (precedes (alias_priority application_id s) alias_before)
        (filter (resolves_alias tags tenant_id slug application_id s include_global) aliases)

  -- The aliases' part of `resolve_tag_reference`.
  unfoldable pub resolve_alias : String → String → Option String → Namespace → Bool → Result Match
  resolve_alias tenant_id slug application_id s include_global = do
    found ←
        unique_resolution_match (alias_priority application_id s)
          (active_aliases_for_resolution tenant_id slug application_id s include_global)
    alias_match tags found

  -- Canonical tags win over aliases.
  unfoldable pub resolve_in_scope :
      String → String → Option String → Option String → Namespace → Bool → Result Match
  resolve_in_scope tenant_id slug application_id tag_type s include_global =
      let found =
        active_tags_for_resolution tenant_id slug application_id tag_type s include_global in
      if is_empty found
      then resolve_alias tenant_id slug application_id s include_global
      else only_candidate tag_type (
          most_specific_matches (tag_priority application_id s)
            (own_tags (truthy application_id) found))

  -- `resolve_tag_reference`
  unfoldable pub resolve_tag_reference :
      String
      → String
      → Option String
      → Option String
      → Namespace
      → Option String
      → Bool
      → Result Match
  resolve_tag_reference tenant_id slug application_id tag_type scope_context scope_qualifier
        authorized_global =
      effective_resolution_scope scope_context scope_qualifier authorized_global >>= λ effective.
      resolve_in_scope tenant_id slug application_id tag_type effective.0 effective.1

  abbrev pub loaded_tag : TagAlias → Result Tag
  loaded_tag a = elim (tag_of tags a) [ none ↦ err does_not_exist | some t ↦ ok t ]

  unfoldable pub alias_by_id : String → ℕ → Result TagAlias
  alias_by_id tenant_id alias_id =
      elim (find (λ a. a.tenant_id == tenant_id && nat_beq a.id alias_id) aliases) [
        | none ↦ err (validation "alias_id")
        | some a ↦ ok a
      ]

  unfoldable pub alias_by_slug :
      String → String → Option String → Namespace → Bool → Result TagAlias
  alias_by_slug tenant_id application_id none s include_global = err (validation "alias_slug")
  alias_by_slug tenant_id application_id (some slug) s include_global =
      elim (head?
        (active_aliases_for_resolution tenant_id slug (some application_id) s include_global)) [
          | none ↦ err (validation "alias_slug")
          | some a ↦ ok a
        ]

  -- `resolve_assignable_alias`
  unfoldable pub resolve_assignable_alias :
      String → String → Namespace → Bool → Option ℕ → Option String → Result Tag
  resolve_assignable_alias tenant_id application_id s include_global (some alias_id) alias_slug = do
    a ← alias_by_id tenant_id alias_id
    t ← loaded_tag a
    v ← check_alias_scope s include_global a t
    check_alias application_id "alias_id" a v
  resolve_assignable_alias tenant_id application_id s include_global none alias_slug = do
    a ← alias_by_slug tenant_id application_id alias_slug s include_global
    t ← loaded_tag a
    check_alias application_id "alias_slug" a t
