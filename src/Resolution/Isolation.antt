-- ===== src/Resolution/Isolation.antt =====
-- The scope that a resolution of octonomy/tags/alias_services.py works in, and what it answers from.
use octonomy.Prelude.{
  String, ◌≡◌, ◌⊎◌, inl, inr, refl, sym, ◌∙◌, Bool, true, false, Option, none, some, List, arith,
  Bool-cases, string_eq, ◌==◌,
}
use text.Mathlib.TextEquality.{eq_iff}
use octonomy.Errors.{ok, >>=-eq-ok}
use octonomy.Scope.{Namespace, IsScope, global_scope, namespace_q}
use octonomy.Scope.Laws.{namespace_q-eq-row_matches_scope, row_matches_scope_iff}
use octonomy.Catalog.{Tag, TagAlias, tag_of}
use octonomy.Resolution.{resolves_tag, resolves_alias, effective_resolution_scope, Match}
use octonomy.Resolution.Resolve.{resolve_tag_reference}
use octonomy.Resolution.Laws.{IsCanonical, IsAliased, resolve_in_scope-most_specific}

-- A row that a caller may see: one of its own scope, or a global one that it is authorized for.
abbrev pub IsVisible : Namespace → Bool → Namespace → Type 0
IsVisible s authorized_global row = (row ≡ s) ⊎ ((authorized_global ≡ true) × (row ≡ global_scope))

namespace_q-IsVisible :
    (s : Namespace) (include_global : Bool) (row : Namespace)
    → IsScope s
    → namespace_q s include_global row ≡ true
    → IsVisible s include_global row
namespace_q-IsVisible s g row w h =
    (row_matches_scope_iff row s g w).0 (sym (namespace_q-eq-row_matches_scope s row g) ∙ h)

-- The scope that a resolution works in lets it see no more than the caller may.
effective-IsVisible :
    (s : Namespace) (scope_qualifier : Option String) (authorized_global : Bool) (s' : Namespace)
    (include_global : Bool) (row : Namespace)
    → IsScope s
    → effective_resolution_scope s scope_qualifier authorized_global ≡ ok (s', include_global)
    → namespace_q s' include_global row ≡ true
    → IsVisible s authorized_global row
unfolding effective_resolution_scope
effective-IsVisible s none authorized s' g row w e h =
    let seen : namespace_q s authorized row ≡ true = ground arith in
    namespace_q-IsVisible s authorized row w seen
effective-IsVisible s (some q) authorized s' g row w e h = elim (Bool-cases (q == "global")) [
  | inl pinned ↦
      let allowed : authorized ≡ true = ground arith in
      let seen : namespace_q global_scope false row ≡ true = ground arith in
      elim (namespace_q-IsVisible global_scope false row (inl refl) seen) [
        | inl same ↦ inr (allowed, same)
        | inr (shut, same) ↦ inr (allowed, same)
      ]
  | inr other ↦
      let seen : namespace_q s false row ≡ true = ground arith in
      elim (namespace_q-IsVisible s false row w seen) [
        | inl same ↦ inl same
        | inr (shut, same) ↦ absurd (ground arith)
      ]
]

resolves_tag-inv :
    (tenant_id slug : String) (application_id tag_type : Option String) (s : Namespace) (g : Bool)
    (t : Tag)
    → resolves_tag tenant_id slug application_id tag_type s g t ≡ true
    → ((t.tenant_id == tenant_id) ≡ true)
      × (t.is_active ≡ true)
      × ((t.slug == slug) ≡ true)
      × (namespace_q s g t.namespace ≡ true)
unfolding resolves_tag
resolves_tag-inv tenant_id slug a ty s g t h = ground arith

resolves_alias-inv :
    (tags : List Tag) (tenant_id slug : String) (application_id : Option String) (s : Namespace)
    (g : Bool) (a : TagAlias) (t : Tag)
    → resolves_alias tags tenant_id slug application_id s g a ≡ true
    → tag_of tags a ≡ some t
    → ((a.tenant_id == tenant_id) ≡ true)
      × ((a.slug == slug) ≡ true)
      × (namespace_q s g a.namespace ≡ true)
      × (t.is_active ≡ true)
      × (namespace_q s g t.namespace ≡ true)
unfolding resolves_alias
resolves_alias-inv tags tenant_id slug ap s g a t h e = ground arith

-- What a caller learns from a resolution.
pub record IsDisclosed (tenant_id slug : String) (s : Namespace) (authorized_global : Bool)
    (m : Match) : Type 0 where
  pub active : m.tag.is_active ≡ true
  pub tag_visible : IsVisible s authorized_global m.tag.namespace
  pub matched :
      ((m.matched_alias ≡ none) × (m.tag.tenant_id ≡ tenant_id) × (m.tag.slug ≡ slug))
      ⊎ ((a : TagAlias) × (m.matched_alias ≡ some a)
          × (a.tenant_id ≡ tenant_id)
          × (a.slug ≡ slug)
          × IsVisible s authorized_global a.namespace)

module _ (tags : List Tag) (aliases : List TagAlias) (tag_before : Tag → Tag → Bool)
    (alias_before : TagAlias → TagAlias → Bool) (tenant_id slug : String)
    (application_id tag_type : Option String) (s : Namespace) (scope_qualifier : Option String)
    (authorized_global : Bool) where
  disclosed :
      (s' : Namespace) (g : Bool) (m : Match)
      → IsScope s
      → effective_resolution_scope s scope_qualifier authorized_global ≡ ok (s', g)
      → IsCanonical tags tenant_id slug application_id tag_type s' g m
        ⊎ IsAliased tags aliases tenant_id slug application_id tag_type s' g m
      → IsDisclosed tenant_id slug s authorized_global m
  disclosed s' g m w e (inl c) =
      let (tenant, active, named, seen) =
        resolves_tag-inv tenant_id slug application_id tag_type s' g m.tag c.found in
      record {
        active = active;
        tag_visible =
            effective-IsVisible s scope_qualifier authorized_global s' g m.tag.namespace w e seen;
        matched = inl (
          c.unaliased,
          (eq_iff m.tag.tenant_id tenant_id).0 tenant,
          (eq_iff m.tag.slug slug).0 named,
        );
      }
  disclosed s' g m w e (inr c) =
      let (tenant, named, seen, active, tag_seen) =
        resolves_alias-inv tags tenant_id slug application_id s' g c.alias m.tag c.found c.target in
      record {
        active = active;
        tag_visible =
            effective-IsVisible s scope_qualifier authorized_global s' g m.tag.namespace w e
              tag_seen;
        matched = inr (
          c.alias,
          c.matched,
          (eq_iff c.alias.tenant_id tenant_id).0 tenant,
          (eq_iff c.alias.slug slug).0 named,
          effective-IsVisible s scope_qualifier authorized_global s' g c.alias.namespace w e seen,
        );
      }

  -- For a well-formed request scope, whatever the caller asks for: the tag that a slug resolves to
  -- is active and lies in the request's own scope, or is global with the caller authorized for
  -- global rows; the matched row has the slug and the tenant of the request, and an alias that
  -- matched is visible in the same way.
  pub resolve_tag_reference-IsDisclosed :
      (m : Match)
      → IsScope s
      → resolve_tag_reference tags aliases tag_before alias_before tenant_id slug application_id
          tag_type s scope_qualifier authorized_global
        ≡ ok m
      → IsDisclosed tenant_id slug s authorized_global m
  unfolding resolve_tag_reference
  resolve_tag_reference-IsDisclosed m w h =
      let ((s', g), e, h₁) =
        >>=-eq-ok (effective_resolution_scope s scope_qualifier authorized_global) _ h in
      disclosed s' g m w e (
        resolve_in_scope-most_specific tags aliases tag_before alias_before tenant_id slug
          application_id tag_type s' g m h₁)
