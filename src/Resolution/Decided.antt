-- ===== src/Resolution/Decided.antt =====
-- The outcomes of a resolution of octonomy/tags/alias_services.py in a named application and type.
use octonomy.Prelude.{
  ℕ, String, ◌≡◌, ◌⊎◌, inl, inr, refl, ap, sym, ◌∙◌, Bool, true, false, none, some, List, [], ◌∷◌,
  filter, All-filter, All-filter_test, arith, Bool-cases, Option-cases, string_eq, option_eq,
  nat_eq, is_empty, ◌==◌, All-both,
}
use octonomy.Errors.{ok, err, validation}
use octonomy.Scope.{Namespace, IsScope, namespace_eq, namespace_scope_check}
use octonomy.Catalog.{
  Tag, TagAlias, tag_of, tags_clash, aliases_clash, TagConstraints, AliasConstraints,
}
use octonomy.Resolution.{
  truthy, resolves_tag, resolves_alias, tag_priority, alias_priority, precedes, order_by,
  most_specific_matches, unique_resolution_match, own_tags, Match, only_candidate, alias_match,
}
use octonomy.Resolution.Resolve.{
  active_tags_for_resolution, active_aliases_for_resolution, resolve_alias, resolve_in_scope,
}
use octonomy.Resolution.Order.{Pairs-order_by, Pairs-filter, All-order_by}
use octonomy.Catalog.Clash.{tags_clash_sym, aliases_clash_sym}
use octonomy.Resolution.Deterministic.{tags_clash-OnRung, aliases_clash-OnRung}
use octonomy.Resolution.Rungs.{
  All-most_specific, Pairs-most_specific, is_empty-most_specific, at_most_one, is_empty-own_tags,
  Pairs-own_tags, All-own_tags, priority_total, alias_match-found,
}

module _ (tags : List Tag) (aliases : List TagAlias) (tag_before : Tag → Tag → Bool)
    (alias_before : TagAlias → TagAlias → Bool) (tenant_id slug a ty : String) (s : Namespace)
    (include_global : Bool) (w : IsScope s) (app : (a == "") ≡ false)
    (typed : (ty == "") ≡ false) where
  tag_total : (t : Tag) → (n : ℕ) × (tag_priority (some a) s t ≡ some n)
  tag_total t = priority_total a s t.application_id t.namespace app

  alias_total : (b : TagAlias) → (n : ℕ) × (alias_priority (some a) s b ≡ some n)
  alias_total b = priority_total a s b.application_id b.namespace app

  one_candidate :
      TagConstraints tags
      → let found =
          active_tags_for_resolution tags aliases tag_before alias_before tenant_id slug
            (some a)
            (some ty)
            s
            include_global in
        let top = most_specific_matches (tag_priority (some a) s) (own_tags (some a) found) in
        (top ≡ []) ⊎ ((t : Tag) × (top ≡ t ∷ []))
  unfolding active_tags_for_resolution
  one_candidate (unique, checked) =
      let priority = tag_priority (some a) s in
      let test = resolves_tag tenant_id slug (some a) (some ty) s include_global in
      let before = precedes priority tag_before in
      let P = λ (t : Tag).
        (test t ≡ true) × (namespace_scope_check t.namespace t.application_id ≡ true) in
      let R = λ (t u : Tag). tags_clash t u ≡ false in
      let passing =
        All-both (λ t. test t ≡ true)
          (λ t. namespace_scope_check t.namespace t.application_id ≡ true) (filter test tags)
          (All-filter_test test tags)
          (All-filter (λ t. namespace_scope_check t.namespace t.application_id ≡ true) test tags
            checked) in
      let sorted = order_by before (filter test tags) in
      let own = own_tags (some a) sorted in
      let (n, on) =
        All-most_specific priority P tag_total own
          (All-own_tags P a sorted (All-order_by before P (filter test tags) passing)) in
      let apart = Pairs-most_specific priority R own (
        Pairs-own_tags R a sorted (
          Pairs-order_by before R tags_clash_sym (filter test tags)
            (Pairs-filter R test tags unique))) in
      elim (at_most_one priority (λ t. P t × (priority t ≡ some n)) tags_clash
        (λ t u h k.
          tags_clash-OnRung tenant_id slug a ty s include_global w app typed n t u
            (h.0.0, h.0.1, h.1) (k.0.0, k.0.1, k.1))
        (most_specific_matches priority own) on apart) [
          | inl e ↦ inl e
          | inr (t, e, _) ↦ inr (t, e)
        ]

  one_alias :
      AliasConstraints aliases
      → let top = most_specific_matches (alias_priority (some a) s) (
          active_aliases_for_resolution tags aliases tag_before alias_before tenant_id slug
            (some a)
            s
            include_global) in
        (top ≡ [])
        ⊎ ((b : TagAlias) × (top ≡ b ∷ [])
            × (resolves_alias tags tenant_id slug (some a) s include_global b ≡ true))
  unfolding active_aliases_for_resolution
  one_alias (unique, checked) =
      let priority = alias_priority (some a) s in
      let test = resolves_alias tags tenant_id slug (some a) s include_global in
      let before = precedes priority alias_before in
      let P = λ (b : TagAlias).
        (test b ≡ true) × (namespace_scope_check b.namespace b.application_id ≡ true) in
      let R = λ (b c : TagAlias). aliases_clash b c ≡ false in
      let passing =
        All-both (λ b. test b ≡ true)
          (λ b. namespace_scope_check b.namespace b.application_id ≡ true) (filter test aliases)
          (All-filter_test test aliases)
          (All-filter (λ b. namespace_scope_check b.namespace b.application_id ≡ true) test aliases
            checked) in
      let sorted = order_by before (filter test aliases) in
      let (n, on) =
        All-most_specific priority P alias_total sorted
          (All-order_by before P (filter test aliases) passing) in
      let apart = Pairs-most_specific priority R sorted (
        Pairs-order_by before R aliases_clash_sym (filter test aliases)
          (Pairs-filter R test aliases unique)) in
      elim (at_most_one priority (λ b. P b × (priority b ≡ some n)) aliases_clash
        (λ b c h k.
          aliases_clash-OnRung tenant_id slug a ty s include_global w app typed tags n b c
            (h.0.0, h.0.1, h.1) (k.0.0, k.0.1, k.1))
        (most_specific_matches priority sorted) on apart) [
          | inl e ↦ inl e
          | inr (b, e, p) ↦ inr (b, e, p.0.0)
        ]

  alias_decided :
      AliasConstraints aliases
      → let r =
          resolve_alias tags aliases tag_before alias_before tenant_id slug
            (some a)
            s
            include_global in
        ((m : Match) × (r ≡ ok m))
        ⊎ ((r ≡ err (validation "slug"))
            × (is_empty (
                  active_aliases_for_resolution tags aliases tag_before alias_before tenant_id slug
                    (some a)
                    s
                    include_global)
                ≡ true))
  unfolding resolve_alias unique_resolution_match alias_match
  alias_decided c = elim (one_alias c) [
    | inl nothing ↦ inr (
      rw nothing refl,
      sym (
            is_empty-most_specific (alias_priority (some a) s) (
              active_aliases_for_resolution tags aliases tag_before alias_before tenant_id slug
                (some a) s include_global))
          ∙ ap is_empty nothing,
    )
    | inr (b, one, found) ↦ elim (Option-cases (tag_of tags b)) [
      | inl dangling ↦ absurd (unfold resolves_alias in ground arith)
      | inr (t, e) ↦
          inl (record { matched_alias = some b; tag = t }, rw one (alias_match-found tags b t e))
    ]
  ]

  truthy_named : truthy (some a) ≡ some a
  unfolding truthy
  truthy_named = ground arith

  -- For a well-formed scope, and rows that keep the constraints of their tables: a slug asked for
  -- in a named application and type resolves, or is refused because neither query finds a row. No
  -- ambiguity is ever reported.
  pub resolve_in_scope-decided :
      TagConstraints tags
      → AliasConstraints aliases
      → let r =
          resolve_in_scope tags aliases tag_before alias_before tenant_id slug
            (some a)
            (some ty)
            s
            include_global in
        ((m : Match) × (r ≡ ok m))
        ⊎ ((r ≡ err (validation "slug"))
            × (is_empty (
                  active_tags_for_resolution tags aliases tag_before alias_before tenant_id slug
                    (some a)
                    (some ty)
                    s
                    include_global)
                ≡ true)
            × (is_empty (
                  active_aliases_for_resolution tags aliases tag_before alias_before tenant_id slug
                    (some a)
                    s
                    include_global)
                ≡ true))
  unfolding resolve_in_scope only_candidate
  resolve_in_scope-decided ct ca =
      let found =
        active_tags_for_resolution tags aliases tag_before alias_before tenant_id slug (some a)
          (some ty) s include_global in
      elim (Bool-cases (is_empty found)) [
        | inl e ↦ elim (alias_decided ca) [
          | inl (m, r) ↦ inl (m, rw e r)
          | inr (r, none_left) ↦ inr (rw e r, e, none_left)
        ]
        | inr e ↦ elim (one_candidate ct) [
          | inl nothing ↦
              let void : is_empty found ≡ true =
                sym (is_empty-own_tags a found)
                ∙ sym (is_empty-most_specific (tag_priority (some a) s) (own_tags (some a) found))
                ∙ ap is_empty nothing in
              absurd (ground (arith, void, e))
          | inr (t, one) ↦
              inl (record { matched_alias = none; tag = t }, rw e (rw truthy_named (rw one refl)))
        ]
      ]
