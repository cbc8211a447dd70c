-- ===== src/Resolution/Singly.antt =====
-- That resolve_tag_ids of octonomy/assignments/serializers.py, with one query for all the slugs, gives each
-- slug the tag of resolve_assignable_alias of octonomy/tags/alias_services.py.
use octonomy.Prelude.{
  ℕ, ◌+◌, String, ◌≡◌, ◌⊎◌, inl, inr, refl, ap, sym, ◌∙◌, Bool, true, false, ◌&&◌, Option, none,
  some, List, [], ◌∷◌, ◌++◌, map, filter, find, head?, In-filter, In-head, is_empty, is_none,
  length, ltb, contains, append_nil, All-filter_test, arith, Bool-cases, Option-cases, nat_beq,
  nat_beq_iff, beq_refl, nat_eq, ◌==◌, string_eq, option_eq,
}
use octonomy.Errors.{Result, ok, err, validation}
use octonomy.Scope.{Settings, Namespace}
use octonomy.Catalog.{Tag, TagAlias, tag_of}
use octonomy.Resolution.{truthy, order_by, in_application, resolves_alias, alias_priority, precedes}
use octonomy.Resolution.Sorting.{
  then_by, IsOrder, then_by-IsOrder, precedes-IsOrder, filter-order_by, order_by-agree,
}
use octonomy.Resolution.Order.{In-order_by}
use octonomy.Resolution.Resolve.{
  check_alias, alias_by_slug, active_aliases_for_resolution, resolve_assignable_alias,
}
use octonomy.Resolution.Bulk.{
  bulk_order, resolves_some_alias, bulk_before, active_aliases_for_resolution_bulk, resolved,
  resolved_ids, resolve_tag_ids,
}

find-filter : (p : TagAlias → Bool) (xs : List TagAlias) → find p xs ≡ head? (filter p xs)
unfolding find filter
find-filter p [] = refl
find-filter p (x ∷ xs) = ground (arith, find-filter p xs)

resolves_one :
    (tags : List Tag) (tenant_id : String) (slugs : List String) (application_id : Option String)
    (s : Namespace) (g : Bool) (slug : String) (x : TagAlias)
    → contains slugs slug ≡ true
    → (resolves_some_alias tags tenant_id slugs application_id s g x && x.slug == slug)
      ≡ resolves_alias tags tenant_id slug application_id s g x
unfolding resolves_some_alias resolves_alias
resolves_one tags tenant_id slugs application_id s g slug x h = elim (Bool-cases (x.slug == slug)) [
  | inl hit ↦
      let named : contains slugs x.slug ≡ true =
        ap (contains slugs) ((string_eq.beq_iff x.slug slug).0 hit) ∙ h in
      ground arith
  | inr miss ↦ ground arith
]

filter-resolves :
    (tags : List Tag) (tenant_id : String) (slugs : List String) (application_id : Option String)
    (s : Namespace) (g : Bool) (slug : String) (xs : List TagAlias)
    → contains slugs slug ≡ true
    → filter
        (λ a. a.slug == slug)
        (filter (resolves_some_alias tags tenant_id slugs application_id s g) xs)
      ≡ filter (resolves_alias tags tenant_id slug application_id s g) xs
unfolding filter
filter-resolves tags tenant_id slugs application_id s g slug [] h = refl
filter-resolves tags tenant_id slugs application_id s g slug (x ∷ xs) h =
    let rest = filter-resolves tags tenant_id slugs application_id s g slug xs h in
    let one = resolves_one tags tenant_id slugs application_id s g slug x h in
    ground (arith, rest, one)

named_first : (slug : String) (wanted : List String) → contains (slug ∷ wanted) slug ≡ true
unfolding contains
named_first slug wanted = rw (beq_refl slug) refl

named_later :
    (slug : String) (wanted : List String) (x : String)
    → contains wanted x ≡ true
    → contains (slug ∷ wanted) x ≡ true
unfolding contains
named_later slug wanted x h = ground arith

tag_of-id : (tags : List Tag) (a : TagAlias) (t : Tag) → tag_of tags a ≡ some t → t.id ≡ a.tag_id
unfolding tag_of find
tag_of-id [] a t h = cc
tag_of-id (u ∷ tags) a t h = elim (Bool-cases (nat_beq u.id a.tag_id)) [
  | inl hit ↦
      let same : u ≡ t = ground arith in
      ap (λ (x : Tag). x.id) (sym same) ∙ (nat_beq_iff u.id a.tag_id).0 hit
  | inr miss ↦ tag_of-id tags a t (ground arith)
]

module _ (settings : Settings) (tags : List Tag) (aliases : List TagAlias)
    (slug_before : String → String → Bool) (tag_before : Tag → Tag → Bool)
    (alias_before : TagAlias → TagAlias → Bool) (by_slug : IsOrder slug_before)
    (by_name : IsOrder alias_before) (tenant_id application_id : String) (s : Namespace)
    (g : Bool) where
  -- The order of the rows of a named application.
  abbrev slug_then_rung : TagAlias → TagAlias → Bool
  slug_then_rung =
      then_by (λ a b. slug_before a.slug b.slug)
        (precedes (alias_priority (some application_id) s) alias_before)

  bulk_before_named :
      (application_id == "") ≡ false
      → bulk_before settings tags aliases slug_before tag_before alias_before
          (some application_id)
          s
        ≡ slug_then_rung
  bulk_before_named app =
      let named : truthy (some application_id) ≡ some application_id =
        unfold truthy in rw app refl in
      ap
        (λ application.
          bulk_order settings tags aliases slug_before tag_before alias_before application
            (alias_priority (some application_id) s))
        named

  slug_then_rung-IsOrder : IsOrder slug_then_rung
  slug_then_rung-IsOrder =
      then_by-IsOrder (λ a b. slug_before a.slug b.slug)
        (precedes (alias_priority (some application_id) s) alias_before)
        (record {
          asym = λ a b. by_slug.asym a.slug b.slug;
          trans = λ a b c. by_slug.trans a.slug b.slug c.slug;
        })
        (precedes-IsOrder (alias_priority (some application_id) s) alias_before by_name)

  same_slug_order :
      (slug : String) (a b : TagAlias)
      → (a.slug == slug) ≡ true
      → (b.slug == slug) ≡ true
      → slug_then_rung a b ≡ precedes (alias_priority (some application_id) s) alias_before a b
  same_slug_order slug a b h k =
      let first = (string_eq.beq_iff a.slug slug).0 h in
      let second = (string_eq.beq_iff b.slug slug).0 k in
      let here = by_slug.asym slug slug in
      let tie : slug_before slug slug ≡ false = ground arith in
      let f : slug_before a.slug b.slug ≡ false =
        ap (λ x. slug_before x b.slug) first ∙ ap (slug_before slug) second ∙ tie in
      let b : slug_before b.slug a.slug ≡ false =
        ap (λ x. slug_before x a.slug) second ∙ ap (slug_before slug) first ∙ tie in
      rw (f, b) refl

  -- The alias that the list of all slugs keeps for one of them is the first of that slug's query.
  resolved_lem :
      (slugs : List String) (slug : String)
      → (application_id == "") ≡ false
      → contains slugs slug ≡ true
      → resolved settings tags aliases slug_before tag_before alias_before
          (active_aliases_for_resolution_bulk settings tags aliases slug_before tag_before
            alias_before tenant_id slugs
            (some application_id)
            s
            g)
          slug
        ≡ head? (
            active_aliases_for_resolution tags aliases tag_before alias_before tenant_id slug
              (some application_id)
              s
              g)
  unfolding active_aliases_for_resolution_bulk active_aliases_for_resolution
  resolved_lem slugs slug app h =
      let single = precedes (alias_priority (some application_id) s) alias_before in
      let chosen =
        filter (resolves_some_alias tags tenant_id slugs (some application_id) s g) aliases in
      let own = λ (a : TagAlias). a.slug == slug in
      ap (λ order. find own (order_by order chosen)) (bulk_before_named app)
      ∙ find-filter own (order_by slug_then_rung chosen)
      ∙ ap head? (filter-order_by slug_then_rung slug_then_rung-IsOrder own chosen)
      ∙ ap head? (
          order_by-agree (λ a. (a.slug == slug) ≡ true) slug_then_rung single (same_slug_order slug)
            (filter own chosen) (All-filter_test own chosen))
      ∙ ap (λ xs. head? (order_by single xs))
          (filter-resolves tags tenant_id slugs (some application_id) s g slug aliases h)

  -- The tag of one slug, as an assignment by alias gets it.
  abbrev pub singly : String → Result Tag
  singly slug =
      resolve_assignable_alias tags aliases tag_before alias_before tenant_id application_id s g
        none (some slug)

  abbrev first_alias : String → Option TagAlias
  first_alias slug = head? (
      active_aliases_for_resolution tags aliases tag_before alias_before tenant_id slug
        (some application_id) s g)

  singly-missing :
      (slug : String) → first_alias slug ≡ none → singly slug ≡ err (validation "alias_slug")
  unfolding resolve_assignable_alias alias_by_slug
  singly-missing slug e = ground arith

  target_of :
      (slug : String) (a : TagAlias)
      → (application_id == "") ≡ false
      → first_alias slug ≡ some a
      → (t : Tag) × (tag_of tags a ≡ some t) × (check_alias application_id "alias_slug" a t ≡ ok t)
  unfolding active_aliases_for_resolution
  target_of slug a app e =
      let test = resolves_alias tags tenant_id slug (some application_id) s g in
      let before = precedes (alias_priority (some application_id) s) alias_before in
      let (_, found) =
        In-filter test aliases a (In-order_by before (filter test aliases) a (In-head _ a e)) in
      elim (Option-cases (tag_of tags a)) [
        | inl none_there ↦ absurd (unfold resolves_alias in ground arith)
        | inr (t, there) ↦ (
          t,
          there,
          unfold resolves_alias in
              unfold in_application in unfold truthy in unfold check_alias in ground arith,
        )
      ]

  singly-found :
      (slug : String) (a : TagAlias)
      → (application_id == "") ≡ false
      → first_alias slug ≡ some a
      → (t : Tag) × (singly slug ≡ ok t) × (t.id ≡ a.tag_id)
  unfolding resolve_assignable_alias alias_by_slug
  singly-found slug a app e =
      let (t, there, checked) = target_of slug a app e in
      (t, ground (arith, e, there, checked), tag_of-id tags a t there)

  abbrev rows_of : List String → List TagAlias
  rows_of slugs =
      active_aliases_for_resolution_bulk settings tags aliases slug_before tag_before alias_before
        tenant_id slugs (some application_id) s g

  abbrev kept : List String → String → Option TagAlias
  kept slugs = resolved settings tags aliases slug_before tag_before alias_before (rows_of slugs)

  ids_step :
      (slugs : List String) (slug : String) (wanted : List String) (a : TagAlias)
      → kept slugs slug ≡ some a
      → resolved_ids settings tags aliases slug_before tag_before alias_before
          (rows_of slugs)
          (slug ∷ wanted)
        ≡ a.tag_id
          ∷ resolved_ids settings tags aliases slug_before tag_before alias_before
              (rows_of slugs)
              wanted
  unfolding resolved_ids
  ids_step slugs slug wanted a h = ground (arith, h)

  -- Some of the slugs of a list, each among those of the query.
  each :
      (slugs wanted : List String)
      → (application_id == "") ≡ false
      → ((slug : String) → contains wanted slug ≡ true → contains slugs slug ≡ true)
      → ((ts : List Tag) × (map singly wanted ≡ map ok ts)
          × (is_empty (filter (λ slug. is_none (kept slugs slug)) wanted) ≡ true)
          × (resolved_ids settings tags aliases slug_before tag_before alias_before
                (rows_of slugs)
                wanted
              ≡ map (λ t. t.id) ts))
        ⊎ ((slug : String) × (contains wanted slug ≡ true)
            × (singly slug ≡ err (validation "alias_slug"))
            × (is_empty (filter (λ x. is_none (kept slugs x)) wanted) ≡ false))
  unfolding filter contains resolved_ids
  each slugs [] app sub = inl ([], refl, refl, refl)
  each slugs (slug ∷ wanted) app sub =
      let here : contains slugs slug ≡ true = sub slug (named_first slug wanted) in
      let found = resolved_lem slugs slug app here in
      elim (Option-cases (first_alias slug)) [
        | inl e ↦ inr (slug, named_first slug wanted, singly-missing slug e, rw (found ∙ e) refl)
        | inr (a, e) ↦
            let (t, run, id) = singly-found slug a app e in
            let hit : kept slugs slug ≡ some a = found ∙ e in
            elim (each slugs wanted app (λ x h. sub x (named_later slug wanted x h))) [
              | inl (ts, runs, full, ids) ↦ inl (
                t ∷ ts,
                rw (run, runs) refl,
                rw hit full,
                ids_step slugs slug wanted a hit ∙ rw (ids, id) refl,
              )
              | inr (other, m, fails, lack) ↦
                  inr (other, named_later slug wanted other m, fails, rw hit lack)
            ]
      ]

  -- For a named application and at most as many slugs and tags as a bulk request may have: the slugs
  -- of a bulk assignment resolve, by one query for all of them, exactly when each of them is found by
  -- itself, and then to the tags that an assignment by that slug alone gets, in the order of the
  -- slugs, behind the ids that were given; otherwise the answer is a validation error. The database
  -- may order slugs, and aliases by name and id, in any strict way with ties.
  pub resolve_tag_ids-singly :
      (tag_ids : List ℕ) (slugs : List String)
      → (application_id == "") ≡ false
      → ltb settings.max_bulk_tags (length tag_ids + length slugs) ≡ false
      → ((ts : List Tag) × (map singly slugs ≡ map ok ts)
          × (resolve_tag_ids settings tags aliases slug_before tag_before alias_before tenant_id
                application_id s g tag_ids slugs
              ≡ ok (tag_ids ++ map (λ t. t.id) ts)))
        ⊎ ((slug : String) × (contains slugs slug ≡ true)
            × (singly slug ≡ err (validation "alias_slug"))
            × (resolve_tag_ids settings tags aliases slug_before tag_before alias_before tenant_id
                  application_id s g tag_ids slugs
                ≡ err (validation "alias_slugs")))
  unfolding resolve_tag_ids
  resolve_tag_ids-singly tag_ids [] app small = inl ([], refl, ap ok (sym (append_nil tag_ids)))
  resolve_tag_ids-singly tag_ids (x ∷ slugs) app small =
      elim (each (x ∷ slugs) (x ∷ slugs) app (λ y h. h)) [
        | inl (ts, runs, full, same) ↦ inl (ts, runs, rw (small, full, same) refl)
        | inr (slug, m, fails, lack) ↦ inr (slug, m, fails, rw (small, lack) refl)
      ]
