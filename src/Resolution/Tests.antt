-- ===== src/Resolution/Tests.antt =====
-- A slug that a merchant, an application and the tenant each define.
use octonomy.Prelude.{
  ℕ, ltb, ◌≡◌, ◌⊎◌, inl, inr, refl, Bool, true, false, String, Option, none, some, List, [], ◌∷◌,
  arith, is_empty, map, contains, ◌==◌, string_eq, if◌then◌else◌,
}
use octonomy.Prelude.Text.{is_blank}
use octonomy.Json.{empty_object}
use octonomy.Errors.{ok, err, validation}
use octonomy.Scope.{Settings, Namespace, IsScope, global_scope, namespace_scope_check}
use octonomy.Scope.Laws.{partition}
use octonomy.Catalog.{Tag, TagAlias, TagConstraints, AliasConstraints, tags_clash}
use octonomy.Resolution.{Match}
use octonomy.Resolution.Resolve.{
  resolve_assignable_alias, active_tags_for_resolution, active_aliases_for_resolution,
  resolve_in_scope, resolve_tag_reference,
}
use octonomy.Resolution.Laws.{IsCanonical, IsAliased, resolve_in_scope-most_specific}
use octonomy.Resolution.Isolation.{IsDisclosed, resolve_tag_reference-IsDisclosed}
use octonomy.Resolution.Assignable.{IsAssignable, resolve_assignable_alias-IsAssignable}
use octonomy.Resolution.Sorting.{IsOrder}
use octonomy.Resolution.Bulk.{resolve_tag_ids}
use octonomy.Resolution.Singly.{singly, resolve_tag_ids-singly}
use octonomy.Resolution.Decided.{resolve_in_scope-decided}

abbrev shared_tag : Tag
shared_tag = record {
  id = 1;
  tenant_id = "t1";
  application_id = none;
  namespace = global_scope;
  name = "Red";
  slug = "red";
  type = "colour";
  description = none;
  parent_id = none;
  vocabulary_id = none;
  metadata = empty_object;
  is_active = true;
  created_at = 1;
  updated_at = 1;
}

abbrev merchant_tag : Tag
merchant_tag = record shared_tag {
  id = 2;
  application_id = some "shop";
  namespace = partition "merchant" "a";
}

abbrev crimson : TagAlias
crimson = record {
  id = 3;
  tenant_id = "t1";
  application_id = some "shop";
  namespace = global_scope;
  tag_id = 1;
  name = "Crimson";
  slug = "crimson";
  metadata = empty_object;
  is_active = true;
  created_at = 1;
  updated_at = 1;
}

abbrev rows : List Tag
rows = shared_tag ∷ merchant_tag ∷ []

abbrev alias_rows : List TagAlias
alias_rows = crimson ∷ []

abbrev by_id : Tag → Tag → Bool
by_id t u = ltb t.id u.id

abbrev alias_by_id_order : TagAlias → TagAlias → Bool
alias_by_id_order b c = ltb b.id c.id

abbrev merchant : Namespace
merchant = partition "merchant" "a"

merchant-IsScope : IsScope merchant
unfolding is_blank
merchant-IsScope = inr ("merchant", "a", refl, refl, refl, refl)

abbrev red_match : Match
red_match = record { matched_alias = none; tag = merchant_tag }

-- The merchant's own tag shadows the tenant's.
red_resolves :
    resolve_tag_reference rows alias_rows by_id alias_by_id_order "t1" "red"
      (some "shop")
      (some "colour")
      merchant
      none
      true
    ≡ ok red_match
unfolding resolve_tag_reference octonomy.Resolution.effective_resolution_scope resolve_in_scope
    active_tags_for_resolution octonomy.Resolution.order_by octonomy.Prelude.filter
    octonomy.Resolution.resolves_tag octonomy.Scope.namespace_q octonomy.Resolution.precedes
    octonomy.Resolution.resolution_priority octonomy.Resolution.only_candidate
    octonomy.Resolution.most_specific_matches octonomy.Resolution.own_tags
red_resolves = refl

red_in_scope :
    resolve_in_scope rows alias_rows by_id alias_by_id_order "t1" "red"
      (some "shop")
      (some "colour")
      merchant
      true
    ≡ ok red_match
unfolding resolve_in_scope active_tags_for_resolution octonomy.Resolution.order_by
    octonomy.Prelude.filter octonomy.Resolution.resolves_tag octonomy.Scope.namespace_q
    octonomy.Resolution.precedes octonomy.Resolution.resolution_priority
    octonomy.Resolution.only_candidate octonomy.Resolution.most_specific_matches
    octonomy.Resolution.own_tags
red_in_scope = refl

resolve_tag_reference-IsDisclosed_example : IsDisclosed "t1" "red" merchant true red_match
resolve_tag_reference-IsDisclosed_example =
    resolve_tag_reference-IsDisclosed rows alias_rows by_id alias_by_id_order "t1" "red"
      (some "shop") (some "colour") merchant none true red_match merchant-IsScope red_resolves

resolve_in_scope-most_specific_example :
    IsCanonical rows "t1" "red" (some "shop") (some "colour") merchant true red_match
    ⊎ IsAliased rows alias_rows "t1" "red" (some "shop") (some "colour") merchant true red_match
resolve_in_scope-most_specific_example =
    resolve_in_scope-most_specific rows alias_rows by_id alias_by_id_order "t1" "red" (some "shop")
      (some "colour") merchant true red_match red_in_scope

rows-TagConstraints : TagConstraints rows
unfolding tags_clash namespace_scope_check
rows-TagConstraints = (((refl, tt), (tt, tt)), (refl, (refl, tt)))

alias_rows-AliasConstraints : AliasConstraints alias_rows
unfolding namespace_scope_check
alias_rows-AliasConstraints = ((tt, tt), (refl, tt))

resolve_in_scope-decided_example :
    ((m : Match) × (resolve_in_scope rows alias_rows by_id alias_by_id_order "t1" "crimson"
          (some "shop")
          (some "colour")
          merchant
          true
        ≡ ok m))
    ⊎ ((resolve_in_scope rows alias_rows by_id alias_by_id_order "t1" "crimson"
            (some "shop")
            (some "colour")
            merchant
            true
          ≡ err (validation "slug"))
        × (is_empty (
              active_tags_for_resolution rows alias_rows by_id alias_by_id_order "t1" "crimson"
                (some "shop")
                (some "colour")
                merchant
                true)
            ≡ true)
        × (is_empty (
              active_aliases_for_resolution rows alias_rows by_id alias_by_id_order "t1" "crimson"
                (some "shop")
                merchant
                true)
            ≡ true))
resolve_in_scope-decided_example =
    resolve_in_scope-decided rows alias_rows by_id alias_by_id_order "t1" "crimson" "shop" "colour"
      merchant true merchant-IsScope refl refl rows-TagConstraints alias_rows-AliasConstraints

crimson_assignable :
    resolve_assignable_alias rows alias_rows by_id alias_by_id_order "t1" "shop" merchant true none
      (some "crimson")
    ≡ ok shared_tag
unfolding resolve_assignable_alias octonomy.Resolution.Resolve.alias_by_slug
    active_aliases_for_resolution octonomy.Resolution.order_by octonomy.Prelude.filter
    octonomy.Resolution.resolves_alias octonomy.Scope.namespace_q octonomy.Catalog.tag_of
    octonomy.Prelude.find octonomy.Resolution.Resolve.check_alias
crimson_assignable = refl

resolve_assignable_alias-IsAssignable_example :
    IsAssignable rows alias_rows "t1" "shop" merchant true shared_tag
resolve_assignable_alias-IsAssignable_example =
    resolve_assignable_alias-IsAssignable rows alias_rows by_id alias_by_id_order "t1" "shop"
      merchant true none (some "crimson") shared_tag merchant-IsScope crimson_assignable

-- Two slugs at once, one of them on two rungs.
abbrev merchant_crimson : TagAlias
merchant_crimson = record crimson { id = 4; namespace = merchant; tag_id = 2 }

abbrev scarlet : TagAlias
scarlet = record crimson { id = 5; slug = "scarlet"; name = "Scarlet"; tag_id = 2 }

abbrev bulk_rows : List TagAlias
bulk_rows = crimson ∷ merchant_crimson ∷ scarlet ∷ []

abbrev bulk_settings : Settings
bulk_settings = record {
  namespace_write_enabled = true;
  namespace_v2_api_enabled = true;
  max_bulk_tags = 200;
}

-- An order of slugs that puts one of them first.
abbrev position : String → ℕ
position slug = if slug == "crimson" then 0 else 1

abbrev slug_order : String → String → Bool
slug_order a b = ltb (position a) (position b)

numbered {ℓ} : {A : Type ℓ} (f : A → ℕ) → IsOrder (λ (a : A) (b : A). ltb (f a) (f b))
numbered f = record { asym = λ x y h. ground arith; trans = λ x y z h k. ground arith }

slugs_resolved :
    resolve_tag_ids bulk_settings rows bulk_rows slug_order by_id alias_by_id_order "t1" "shop"
      merchant true
      (7 ∷ [])
      ("scarlet" ∷ "crimson" ∷ [])
    ≡ ok (7 ∷ 2 ∷ 2 ∷ [])
unfolding resolve_tag_ids octonomy.Resolution.Bulk.active_aliases_for_resolution_bulk
    octonomy.Resolution.Bulk.resolved_ids octonomy.Resolution.Bulk.resolves_some_alias
    octonomy.Resolution.order_by octonomy.Prelude.filter octonomy.Scope.namespace_q
    octonomy.Resolution.precedes octonomy.Resolution.resolution_priority octonomy.Prelude.contains
    octonomy.Prelude.find octonomy.Resolution.in_application octonomy.Resolution.truthy
    octonomy.Catalog.tag_of
slugs_resolved = refl

resolve_tag_ids-singly_example :
    let one =
      singly bulk_settings rows bulk_rows slug_order by_id alias_by_id_order
        (numbered position)
        (numbered (λ (b : TagAlias). b.id))
        "t1"
        "shop"
        merchant
        true in
    let all =
      resolve_tag_ids bulk_settings rows bulk_rows slug_order by_id alias_by_id_order "t1" "shop"
        merchant true
        (7 ∷ [])
        ("scarlet" ∷ "crimson" ∷ []) in
    ((ts : List Tag) × (map one ("scarlet" ∷ "crimson" ∷ []) ≡ map ok ts)
      × (all ≡ ok (7 ∷ map (λ t. t.id) ts)))
    ⊎ ((slug : String) × (contains ("scarlet" ∷ "crimson" ∷ []) slug ≡ true)
        × (one slug ≡ err (validation "alias_slug"))
        × (all ≡ err (validation "alias_slugs")))
resolve_tag_ids-singly_example =
    resolve_tag_ids-singly bulk_settings rows bulk_rows slug_order by_id alias_by_id_order
      (numbered position) (numbered (λ b. b.id)) "t1" "shop" merchant true (7 ∷ [])
      ("scarlet" ∷ "crimson" ∷ []) refl refl
