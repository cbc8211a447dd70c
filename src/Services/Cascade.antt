-- ===== src/Services/Cascade.antt =====
-- The cascade of `deactivate_tag` in octonomy/tags/services.py: it turns the tag and its active aliases
-- off, and nothing else.
use octonomy.Prelude.{
  ℕ, ◌≡◌, ◌⊎◌, inl, inr, refl, ap, sym, ◌∙◌, true, false, ◌&&◌, some, List, [], ◌∷◌, map, contains,
  All, In, In-filter_intro, nat_beq, nat_beq_iff, nat_eq, arith, Bool-cases, ◌==◌, string_eq,
  beq_refl,
}
use octonomy.Catalog.{Tag, TagAlias, Pairs, aliases_clash}
use octonomy.Catalog.Table.{Apart, IsTable, find_row, write_over}
use octonomy.Catalog.Table.Laws.{find_row-write_over}
use octonomy.Services.{tag_table, alias_table}
use octonomy.Services.References.{
  Extends, Extends-write_over, tag_place, tag_place_at, place_at-found, alias_place, may_refer,
  refers, refers-Extends, active_at, alias_fits,
}
use octonomy.Services.Tags.{cascaded, cascade_row}

-- A row of the cascade is as it was, or off.
pub cascade_row-cases :
    (ids : List ℕ) (now : ℕ) (a : TagAlias)
    → ((contains ids a.id ≡ false) × (cascade_row ids now a ≡ a))
      ⊎ ((contains ids a.id ≡ true)
          × (cascade_row ids now a ≡ record a { is_active = false; updated_at = now }))
unfolding cascade_row
cascade_row-cases ids now a = elim (Bool-cases (contains ids a.id)) [
  | inl hit ↦ inr (hit, rw hit refl)
  | inr miss ↦ inl (miss, rw miss refl)
]

cascade_row-id : (ids : List ℕ) (now : ℕ) (a : TagAlias) → (cascade_row ids now a).id ≡ a.id
cascade_row-id ids now a = elim (cascade_row-cases ids now a) [
  | inl (_, e) ↦ ap (λ (x : TagAlias). x.id) e
  | inr (_, e) ↦ ap (λ (x : TagAlias). x.id) e
]

cascade_row-clash :
    (ids : List ℕ) (now : ℕ) (a b : TagAlias)
    → aliases_clash a b ≡ false
    → aliases_clash (cascade_row ids now a) (cascade_row ids now b) ≡ false
cascade_row-clash ids now a b h = elim (cascade_row-cases ids now a) [
  | inl (_, e) ↦ elim (cascade_row-cases ids now b) [
    | inl (_, f) ↦ rw (e, f) h
    | inr (_, f) ↦ rw (e, f) (unfold aliases_clash in ground arith)
  ]
  | inr (_, e) ↦ rw e (unfold aliases_clash in refl)
]

All-cascaded :
    (ids : List ℕ) (now : ℕ) (a : TagAlias) (rows : List TagAlias)
    → All (Apart alias_table a) rows
    → All (Apart alias_table (cascade_row ids now a)) (map (cascade_row ids now) rows)
All-cascaded ids now a [] h = tt
All-cascaded ids now a (b ∷ rows) h = (
  (
    λ e. h.0.0 (sym (cascade_row-id ids now b) ∙ e ∙ cascade_row-id ids now a),
    cascade_row-clash ids now a b h.0.1,
  ),
  All-cascaded ids now a rows h.1,
)

Pairs-cascaded :
    (ids : List ℕ) (now : ℕ) (rows : List TagAlias)
    → Pairs (Apart alias_table) rows
    → Pairs (Apart alias_table) (map (cascade_row ids now) rows)
Pairs-cascaded ids now [] p = tt
Pairs-cascaded ids now (a ∷ rows) p =
    (All-cascaded ids now a rows p.0, Pairs-cascaded ids now rows p.1)

pub cascade-IsTable :
    (ids : List ℕ) (now : ℕ) (rows : List TagAlias)
    → IsTable alias_table rows
    → IsTable alias_table (map (cascade_row ids now) rows)
cascade-IsTable ids now rows w = (Pairs-cascaded ids now rows w.0, checked rows w.1)
  where
    checked :
        (xs : List TagAlias)
        → All (λ x. alias_table.checks x ≡ true) xs
        → All (λ x. alias_table.checks x ≡ true) (map (cascade_row ids now) xs)
    checked [] h = tt
    checked (x ∷ xs) h = elim (cascade_row-cases ids now x) [
      | inl (_, e) ↦ (rw e h.0, checked xs h.1)
      | inr (_, e) ↦ (rw e h.0, checked xs h.1)
    ]

-- The ids of selected rows contain each of them.
pub contains-ids :
    (rows : List TagAlias) (a : TagAlias) → In a rows → contains (map (λ x. x.id) rows) a.id ≡ true
unfolding contains
contains-ids [] a m = absurd m.lower
contains-ids (x ∷ rows) a (inl e) =
    ground (arith, (nat_beq_iff a.id x.id).1 (ap (λ (y : TagAlias). y.id) (sym e)))
contains-ids (x ∷ rows) a (inr m) = ground (arith, contains-ids rows a m)

-- After the cascade, an alias of the tag in the tag's tenant is off.
pub cascade-off :
    (t : Tag) (rows : List TagAlias) (now : ℕ) (a : TagAlias)
    → In a rows
    → a.tenant_id ≡ t.tenant_id
    → a.tag_id ≡ t.id
    → (cascade_row (map (λ x. x.id) (cascaded t rows)) now a).is_active ≡ false
unfolding cascaded
cascade-off t rows now a m tenant target =
    let ids = map (λ x. x.id) (cascaded t rows) in
    elim (cascade_row-cases ids now a) [
      | inr (_, e) ↦ ap (λ (x : TagAlias). x.is_active) e
      | inl (miss, e) ↦ ap (λ (x : TagAlias). x.is_active) e ∙ (elim (Bool-cases a.is_active) [
        | inr off ↦ off
        | inl on ↦ absurd (ground (arith, contains-ids (cascaded t rows) a (selected on), miss))
      ])
    ]
  where
    selected : a.is_active ≡ true → In a (cascaded t rows)
    selected on =
        In-filter_intro (λ x. x.tenant_id == t.tenant_id && nat_beq x.tag_id t.id && x.is_active)
          rows a m (rw (tenant, target) (ground (arith, beq_refl t.tenant_id)))

-- An alias that fits is its tag's tenant's.
alias_fits-tenant :
    (tags : List Tag) (t : Tag) (a : TagAlias)
    → find_row tag_table a.tag_id tags ≡ some t
    → alias_fits tags a ≡ true
    → a.tenant_id ≡ t.tenant_id
unfolding alias_fits refers may_refer
alias_fits-tenant tags t a was fits = sym (
    (string_eq.beq_iff t.tenant_id a.tenant_id).0
      (ground (arith, place_at-found tag_table tag_place tags a.tag_id t was)))

module _ (tags : List Tag) (t off : Tag) (rows : List TagAlias) (now : ℕ)
    (was : find_row tag_table t.id tags ≡ some t) (same : off.id ≡ t.id)
    (stays : tag_place off ≡ tag_place t) where
  off_Extends : Extends (tag_place_at tags) (tag_place_at (write_over tag_table off tags))
  off_Extends =
      Extends-write_over tag_table tag_place tags off t
        (ap (λ i. find_row tag_table i tags) same ∙ was) stays

  active_at-other :
      (i : ℕ)
      → nat_beq i t.id ≡ false
      → active_at tags i ≡ true
      → active_at (write_over tag_table off tags) i ≡ true
  unfolding active_at
  active_at-other i other h = ground (arith, find_row-write_over tag_table i tags off, same)

  -- An alias that fits beside the tag fits beside the tag turned off, as the cascade leaves it.
  pub cascade-alias_fits :
      (a : TagAlias)
      → In a rows
      → alias_fits tags a ≡ true
      → alias_fits
          (write_over tag_table off tags)
          (cascade_row (map (λ x. x.id) (cascaded t rows)) now a)
        ≡ true
  unfolding alias_fits
  cascade-alias_fits a m fits =
      let kept =
        refers-Extends (some a.tag_id) (tag_place_at tags)
          (tag_place_at (write_over tag_table off tags)) (alias_place a) off_Extends
          (ground arith) in
      elim (cascade_row-cases (map (λ x. x.id) (cascaded t rows)) now a) [
        | inr (_, e) ↦ rw e (ground (arith, kept))
        | inl (_, e) ↦ rw e (elim (Bool-cases (nat_beq a.tag_id t.id)) [
          | inl hit ↦
              let target : a.tag_id ≡ t.id = (nat_beq_iff a.tag_id t.id).0 hit in
              let tenant =
                alias_fits-tenant tags t a (ap (λ i. find_row tag_table i tags) target ∙ was)
                  fits in
              let silent : a.is_active ≡ false =
                ap (λ (x : TagAlias). x.is_active) (sym e)
                ∙ cascade-off t rows now a m tenant target in
              ground (arith, kept, silent)
          | inr other ↦ elim (Bool-cases (active_at tags a.tag_id)) [
            | inl on ↦ ground (arith, kept, active_at-other a.tag_id other on)
            | inr quiet ↦ ground (arith, kept)
          ]
        ])
      ]
