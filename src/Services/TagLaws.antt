-- ===== src/Services/TagLaws.antt =====
-- What the services of octonomy/tags/services.py do when they succeed.
use octonomy.Prelude.{
  ℕ, suc, String, ◌≡◌, refl, ap, sym, ◌∙◌, subst, true, Option, none, some, arith,
}
use octonomy.Errors.{ok}
use octonomy.Json.{single}
use octonomy.Scope.{Settings, guard_namespace_write_enabled}
use octonomy.Catalog.{Tag, Vocabulary}
use octonomy.Catalog.Table.{find_row, get_row, insert_row}
use octonomy.Catalog.Table.Laws.{get_row-inv, find_row-inv}
use octonomy.Store.{AuditContext, Db, Source, Tx, lift}
use octonomy.Store.Snapshots.{tag_snapshot}
use octonomy.Store.Kept.{lift-inv}
use octonomy.Services.{tag_table, vocabulary_table, put_tags, scope_of_columns}
use octonomy.Services.Tags.{
  validate_tag_parent, validate_tag_vocabulary, TagData, new_tag, tag_change, related_tag,
  related_vocabulary, create_tag,
}
use octonomy.Services.Writes.{Wrote, or_conflict-Wrote}
use octonomy.Services.References.{
  place_at-found, tag_place, vocabulary_place, tag_fits, HasCatalog, HasCatalog-Kept,
}
use octonomy.Services.Tables.{insert_tag-IsCatalog}
use octonomy.Services.Loaded.{
  LoadedTag, LoadedVocabulary, scope_of_columns-same, validate_tag_parent-refers,
  validate_tag_vocabulary-refers,
}

pub related_tag-inv :
    (o : Option ℕ) (db : Db) (r : Option Tag) (v : Db)
    → related_tag o db ≡ ok (r, v)
    → (db ≡ v) × LoadedTag db.tags r × (o ≡ elim r [ none ↦ none | some t ↦ some t.id ])
unfolding related_tag
related_tag-inv none db none v h = (ground arith, tt, refl)
related_tag-inv none db (some t) v h = cc
related_tag-inv (some i) db r v h =
    let (t, found, rest) = lift-inv (get_row tag_table i db.tags) _ db h in
    let same : some t ≡ r = ground arith in
    let (_, id) = find_row-inv tag_table i db.tags t (get_row-inv tag_table i db.tags t found) in
    (
      ground arith,
      subst (LoadedTag db.tags) same (
          place_at-found tag_table tag_place db.tags t.id t
            (ap (λ j. find_row tag_table j db.tags) id ∙ get_row-inv tag_table i db.tags t found)),
      subst (λ (x : Option Tag). some i ≡ elim x [ none ↦ none | some y ↦ some y.id ]) same
          (ap some (sym id)),
    )

pub related_vocabulary-inv :
    (o : Option ℕ) (db : Db) (r : Option Vocabulary) (v : Db)
    → related_vocabulary o db ≡ ok (r, v)
    → (db ≡ v)
      × LoadedVocabulary db.vocabularies r
      × (o ≡ elim r [ none ↦ none | some t ↦ some t.id ])
unfolding related_vocabulary
related_vocabulary-inv none db none v h = (ground arith, tt, refl)
related_vocabulary-inv none db (some t) v h = cc
related_vocabulary-inv (some i) db r v h =
    let (t, found, rest) = lift-inv (get_row vocabulary_table i db.vocabularies) _ db h in
    let same : some t ≡ r = ground arith in
    let row = get_row-inv vocabulary_table i db.vocabularies t found in
    let (_, id) = find_row-inv vocabulary_table i db.vocabularies t row in
    (
      ground arith,
      subst (LoadedVocabulary db.vocabularies) same (
          place_at-found vocabulary_table vocabulary_place db.vocabularies t.id t
            (ap (λ j. find_row vocabulary_table j db.vocabularies) id ∙ row)),
      subst (λ (x : Option Vocabulary). some i ≡ elim x [ none ↦ none | some y ↦ some y.id ]) same
          (ap some (sym id)),
    )

module _ (settings : Settings) (source : Source) (context : Option AuditContext) where
  -- What `create_tag` went through.
  pub record Created (tenant_id : String) (payload : TagData) (db : Db) (t : Tag) (v : Db)
      : Type 0 where
    pub scope : scope_of_columns payload.namespace ≡ ok payload.namespace
    pub allowed : guard_namespace_write_enabled settings payload.namespace ≡ ok tt
    pub parent :
        validate_tag_parent tenant_id payload.application_id payload.parent payload.namespace
        ≡ ok tt
    pub vocabulary :
        validate_tag_vocabulary tenant_id payload.application_id payload.vocabulary
          payload.namespace true
        ≡ ok tt
    pub row :
        (created : ℕ) × (updated : ℕ) × (t
          ≡ new_tag tenant_id payload (source.uuid4 db.draws) created updated)
    pub wrote :
        Wrote
          (λ db. db.tags)
          put_tags
          (insert_row tag_table t)
          context
          (tag_change "tag.created" t (single "after" (tag_snapshot t)))
          (record db { reads = suc (suc db.reads); draws = suc db.draws })
          v

  pub create_tag-Created :
      (tenant_id : String) (payload : TagData) (db : Db) (t : Tag) (v : Db)
      → create_tag settings source context tenant_id payload db ≡ ok (t, v)
      → Created tenant_id payload db t v
  unfolding create_tag octonomy.Store.draw_uuid octonomy.Store.read_clock
  create_tag-Created tenant_id payload db t v h =
      let (scope, e, h₁) = lift-inv (scope_of_columns payload.namespace) _ db h in
      let (_, g, h₂) = lift-inv (guard_namespace_write_enabled settings scope) _ db h₁ in
      let (_, p, h₃) =
        lift-inv (validate_tag_parent tenant_id payload.application_id payload.parent scope) _ db
          h₂ in
      let (_, q, h₄) =
        lift-inv
          (validate_tag_vocabulary tenant_id payload.application_id payload.vocabulary scope true) _
          db h₃ in
      let same = scope_of_columns-same payload.namespace scope e in
      let (wrote, row) =
        or_conflict-Wrote (λ x. x.tags) put_tags (insert_row tag_table _) source context _ _ t _ v
          h₄ in
      record {
        scope = subst (λ s. scope_of_columns payload.namespace ≡ ok s) same e;
        allowed = subst (λ s. guard_namespace_write_enabled settings s ≡ ok tt) same g;
        parent =
            subst
              (λ s. validate_tag_parent tenant_id payload.application_id payload.parent s ≡ ok tt)
              same p;
        vocabulary =
            subst
              (λ s.
                validate_tag_vocabulary tenant_id payload.application_id payload.vocabulary s true
                ≡ ok tt)
              same q;
        row = (source.now db.reads, source.now (suc db.reads), row);
        wrote =
            subst
              (λ (x : Tag).
                Wrote (λ y. y.tags) put_tags (insert_row tag_table x) context
                  (tag_change "tag.created" x (single "after" (tag_snapshot x)))
                  (record db { reads = suc (suc db.reads); draws = suc db.draws }) v)
              (sym row) wrote;
      }

  Created-tag_fits :
      (tenant_id : String) (payload : TagData) (db : Db) (t : Tag) (v : Db)
      → Created tenant_id payload db t v
      → LoadedTag db.tags payload.parent
      → LoadedVocabulary db.vocabularies payload.vocabulary
      → tag_fits db.tags db.vocabularies t ≡ true
  unfolding tag_fits
  Created-tag_fits tenant_id payload db t v c p q =
      let (_, _, row) = c.row in
      rw row (
        ground (
          arith,
          validate_tag_parent-refers db.tags tenant_id payload.application_id payload.namespace
              payload.parent p c.parent,
          validate_tag_vocabulary-refers db.vocabularies tenant_id payload.application_id
              payload.namespace payload.vocabulary true q c.vocabulary,
        ))

  pub create_tag-HasCatalog :
      (tenant_id : String) (payload : TagData) (db : Db) (t : Tag) (v : Db)
      → create_tag settings source context tenant_id payload db ≡ ok (t, v)
      → LoadedTag db.tags payload.parent
      → LoadedVocabulary db.vocabularies payload.vocabulary
      → HasCatalog db
      → HasCatalog v
  create_tag-HasCatalog tenant_id payload db t v h p q w =
      let c = create_tag-Created tenant_id payload db t v h in
      HasCatalog-Kept (put_tags c.wrote.after (record db { reads = _; draws = _ })) v c.wrote.kept (
        insert_tag-IsCatalog db.tags db.aliases db.vocabularies w t c.wrote.after c.wrote.wrote
          (Created-tag_fits tenant_id payload db t v c p q))
