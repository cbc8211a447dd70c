-- ===== src/Resolution/Assignable.antt =====
-- The alias that an assignment names, by its id or its slug: resolve_assignable_alias of
-- octonomy/tags/alias_services.py.
use octonomy.Prelude.{
  ℕ, String, ◌≡◌, ◌⊎◌, inl, inr, sym, subst, ap, ◌∙◌, Bool, true, ◌&&◌, Option, none, some, List,
  [], ◌∷◌, filter, find, head?, arith, Bool-cases, Option-cases, string_eq, option_eq,
  option_beq_iff, nat_eq, nat_beq, ◌==◌, In, In-filter, In-head,
}
use text.Mathlib.TextEquality.{eq_iff}
use octonomy.Errors.{ok, >>=-eq-ok}
use octonomy.Scope.{Namespace, IsScope, namespace_q, row_matches_scope}
use octonomy.Scope.Laws.{row_matches_scope_iff, namespace_q-eq-row_matches_scope}
use octonomy.Catalog.{Tag, TagAlias, tag_of}
use octonomy.Resolution.{resolves_alias, order_by, precedes, alias_priority}
use octonomy.Resolution.Resolve.{
  check_alias, check_alias_scope, loaded_tag, alias_by_id, alias_by_slug,
  active_aliases_for_resolution, resolve_assignable_alias,
}
use octonomy.Resolution.Order.{In-order_by}
use octonomy.Resolution.Isolation.{IsVisible}

-- What an assignment by alias may rest on.
pub record IsAssignable (tags : List Tag) (aliases : List TagAlias)
    (tenant_id application_id : String) (s : Namespace) (include_global : Bool) (t : Tag)
    : Type 0 where
  pub alias : TagAlias
  pub is_in : In alias aliases
  pub tenant : alias.tenant_id ≡ tenant_id
  pub target : tag_of tags alias ≡ some t
  pub alias_active : alias.is_active ≡ true
  pub tag_active : t.is_active ≡ true
  pub application : (alias.application_id ≡ none) ⊎ (alias.application_id ≡ some application_id)
  pub alias_visible : IsVisible s include_global alias.namespace
  pub tag_visible : IsVisible s include_global t.namespace

find-In :
    (p : TagAlias → Bool) (xs : List TagAlias) (a : TagAlias)
    → find p xs ≡ some a
    → In a xs × (p a ≡ true)
unfolding find
find-In p [] a h = cc
find-In p (x ∷ xs) a h = elim (Bool-cases (p x)) [
  | inl t ↦ let same : x ≡ a = ground arith in (inl same, subst (λ y. p y ≡ true) same t)
  | inr f ↦ let (i, q) = find-In p xs a (ground arith) in (inr i, q)
]

check_alias-inv :
    (application_id field : String) (a : TagAlias) (t v : Tag)
    → check_alias application_id field a t ≡ ok v
    → (v ≡ t)
      × (a.is_active ≡ true)
      × (t.is_active ≡ true)
      × ((a.application_id ≡ none) ⊎ (a.application_id ≡ some application_id))
unfolding check_alias
check_alias-inv application_id field a t v h =
    ground (arith, option_beq_iff a.application_id (some application_id))

check_alias_scope-inv :
    (s : Namespace) (g : Bool) (a : TagAlias) (t v : Tag)
    → check_alias_scope s g a t ≡ ok v
    → (v ≡ t)
      × (row_matches_scope a.namespace s g ≡ true)
      × (row_matches_scope t.namespace s g ≡ true)
unfolding check_alias_scope
check_alias_scope-inv s g a t v h = ground arith

module _ (tags : List Tag) (aliases : List TagAlias) (tag_before : Tag → Tag → Bool)
    (alias_before : TagAlias → TagAlias → Bool) (tenant_id application_id : String) (s : Namespace)
    (g : Bool) where
  loaded_tag-inv :
      (a : TagAlias) (t : Tag)
      → loaded_tag tags aliases tag_before alias_before a ≡ ok t
      → tag_of tags a ≡ some t
  loaded_tag-inv a t h = elim (Option-cases (tag_of tags a)) [
    | inl e ↦ absurd (ground arith)
    | inr (u, e) ↦ ground arith
  ]

  alias_by_id-inv :
      (alias_id : ℕ) (a : TagAlias)
      → alias_by_id tags aliases tag_before alias_before tenant_id alias_id ≡ ok a
      → In a aliases × ((a.tenant_id == tenant_id) ≡ true)
  unfolding alias_by_id
  alias_by_id-inv alias_id a h =
      let test = λ (x : TagAlias). x.tenant_id == tenant_id && nat_beq x.id alias_id in
      elim (Option-cases (find test aliases)) [
        | inl e ↦ absurd (ground arith)
        | inr (b, e) ↦
            let same : b ≡ a = ground arith in
            let (i, q) = find-In test aliases b e in
            subst (λ x. In x aliases × ((x.tenant_id == tenant_id) ≡ true)) same (i, ground arith)
      ]

  alias_by_slug-inv :
      (alias_slug : Option String) (a : TagAlias)
      → alias_by_slug tags aliases tag_before alias_before tenant_id application_id alias_slug s g
        ≡ ok a
      → (slug : String) × In a aliases
        × (resolves_alias tags tenant_id slug (some application_id) s g a ≡ true)
  unfolding alias_by_slug active_aliases_for_resolution
  alias_by_slug-inv none a h = absurd (ground arith)
  alias_by_slug-inv (some slug) a h =
      let test = resolves_alias tags tenant_id slug (some application_id) s g in
      let before = precedes (alias_priority (some application_id) s) alias_before in
      elim (Option-cases (head? (order_by before (filter test aliases)))) [
        | inl e ↦ absurd (ground arith)
        | inr (b, e) ↦
            let same : b ≡ a = ground arith in
            let found =
              In-filter test aliases b
                (In-order_by before (filter test aliases) b (In-head _ b e)) in
            subst
              (λ x.
                (named : String) × In x aliases
                × (resolves_alias tags tenant_id named (some application_id) s g x ≡ true))
              same (slug, found.0, found.1)
      ]

  queried :
      (slug : String) (a : TagAlias) (t : Tag)
      → resolves_alias tags tenant_id slug (some application_id) s g a ≡ true
      → tag_of tags a ≡ some t
      → ((a.tenant_id == tenant_id) ≡ true)
        × (namespace_q s g a.namespace ≡ true)
        × (namespace_q s g t.namespace ≡ true)
  unfolding resolves_alias
  queried slug a t h e = ground arith

  row_lem : (row : Namespace) → IsScope s → row_matches_scope row s g ≡ true → IsVisible s g row
  row_lem row w h = (row_matches_scope_iff row s g w).0 h

  -- For a well-formed scope: the tag that an assignment by alias gets is an active one, of an active
  -- alias of the tenant that is shared or of the assignment's application, and both the tag and the
  -- alias lie in the scope, or are global while global rows are asked for.
  pub resolve_assignable_alias-IsAssignable :
      (alias_id : Option ℕ) (alias_slug : Option String) (t : Tag)
      → IsScope s
      → resolve_assignable_alias tags aliases tag_before alias_before tenant_id application_id s g
          alias_id alias_slug
        ≡ ok t
      → IsAssignable tags aliases tenant_id application_id s g t
  unfolding resolve_assignable_alias
  resolve_assignable_alias-IsAssignable (some alias_id) alias_slug t w h =
      let (a, by_id, h₁) =
        >>=-eq-ok (alias_by_id tags aliases tag_before alias_before tenant_id alias_id) _ h in
      let (u, loaded, h₂) = >>=-eq-ok (loaded_tag tags aliases tag_before alias_before a) _ h₁ in
      let (v, scoped, h₃) = >>=-eq-ok (check_alias_scope s g a u) _ h₂ in
      let (i, tenant) = alias_by_id-inv alias_id a by_id in
      let (same, seen, tag_seen) = check_alias_scope-inv s g a u v scoped in
      let (same', active, tag_active, app) = check_alias-inv application_id "alias_id" a v t h₃ in
      let u_t : u ≡ t = sym (same' ∙ same) in
      record {
        alias = a;
        is_in = i;
        tenant = (eq_iff a.tenant_id tenant_id).0 tenant;
        target = loaded_tag-inv a u loaded ∙ ap some u_t;
        alias_active = active;
        tag_active = subst (λ (x : Tag). x.is_active ≡ true) (sym same') tag_active;
        application = app;
        alias_visible = row_lem a.namespace w seen;
        tag_visible =
            subst (λ (x : Tag). IsVisible s g x.namespace) u_t (row_lem u.namespace w tag_seen);
      }
  resolve_assignable_alias-IsAssignable none alias_slug t w h =
      let (a, by_slug, h₁) =
        >>=-eq-ok
          (alias_by_slug tags aliases tag_before alias_before tenant_id application_id alias_slug s
            g)
          _ h in
      let (u, loaded, h₂) = >>=-eq-ok (loaded_tag tags aliases tag_before alias_before a) _ h₁ in
      let (slug, i, found) = alias_by_slug-inv alias_slug a by_slug in
      let (same, active, tag_active, app) = check_alias-inv application_id "alias_slug" a u t h₂ in
      let target = loaded_tag-inv a u loaded in
      let (tenant, seen, tag_seen) = queried slug a u found target in
      record {
        alias = a;
        is_in = i;
        tenant = (eq_iff a.tenant_id tenant_id).0 tenant;
        target = target ∙ ap some (sym same);
        alias_active = active;
        tag_active = subst (λ (x : Tag). x.is_active ≡ true) (sym same) tag_active;
        application = app;
        alias_visible =
            row_lem a.namespace w (sym (namespace_q-eq-row_matches_scope s a.namespace g) ∙ seen);
        tag_visible =
            subst (λ (x : Tag). IsVisible s g x.namespace) (sym same)
              (row_lem u.namespace w
                (sym (namespace_q-eq-row_matches_scope s u.namespace g) ∙ tag_seen));
      }
