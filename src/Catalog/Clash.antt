-- ===== src/Catalog/Clash.antt =====
-- That the unique constraints of octonomy/tags/models.py put two rows in conflict, in either order.
use octonomy.Prelude.{
  Eq, ◌≡◌, inl, inr, sym, ◌∙◌, false, arith, Bool-cases, string_eq, option_eq, ◌==◌,
}
use octonomy.Scope.{namespace_eq}
use octonomy.Catalog.{Tag, TagAlias, Vocabulary, tags_clash, aliases_clash, vocabularies_clash}

pub beq_sym : {A : Type 0} ⦃e : Eq A⦄ (x y : A) → (x == y) ≡ (y == x)
beq_sym ⦃e⦄ x y = elim (Bool-cases (x == y)) [
  | inl t ↦ t ∙ sym ((e.beq_iff y x).1 (sym ((e.beq_iff x y).0 t)))
  | inr f ↦ elim (Bool-cases (y == x)) [
    | inl t ↦
        let back = (e.beq_iff x y).1 (sym ((e.beq_iff y x).0 t)) in absurd (ground (arith, back, f))
    | inr f' ↦ f ∙ sym f'
  ]
]

pub tags_clash_sym : (t u : Tag) → tags_clash t u ≡ false → tags_clash u t ≡ false
unfolding tags_clash
tags_clash_sym t u h = ground (
  arith,
  beq_sym u.tenant_id t.tenant_id,
  beq_sym u.application_id t.application_id,
  beq_sym u.namespace t.namespace,
  beq_sym u.type t.type,
  beq_sym u.slug t.slug,
)

pub aliases_clash_sym : (b c : TagAlias) → aliases_clash b c ≡ false → aliases_clash c b ≡ false
unfolding aliases_clash
aliases_clash_sym b c h = ground (
  arith,
  beq_sym c.tenant_id b.tenant_id,
  beq_sym c.application_id b.application_id,
  beq_sym c.namespace b.namespace,
  beq_sym c.slug b.slug,
)

pub vocabularies_clash_sym :
    (v w : Vocabulary) → vocabularies_clash v w ≡ false → vocabularies_clash w v ≡ false
unfolding vocabularies_clash
vocabularies_clash_sym v w h = ground (
  arith,
  beq_sym w.tenant_id v.tenant_id,
  beq_sym w.application_id v.application_id,
  beq_sym w.namespace v.namespace,
  beq_sym w.slug v.slug,
)
