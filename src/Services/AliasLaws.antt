-- ===== src/Services/AliasLaws.antt =====
-- `create_tag_alias` and `update_tag_alias` of octonomy/tags/alias_services.py when they succeed.
use octonomy.Prelude.{
  ℕ, suc, String, ◌≡◌, ◌⊎◌, inl, inr, ap, sym, ◌∙◌, subst, true, false, Option, none, some, List,
  arith, Bool-cases, string_eq, option_eq,
}
use octonomy.Errors.{ok}
use octonomy.Scope.{Settings, guard_namespace_write_enabled, guard_scope_immutable}
use octonomy.Catalog.{Tag, TagAlias}
use octonomy.Catalog.Clash.{beq_sym}
use octonomy.Catalog.Table.{find_row, get_row, insert_row, save_row}
use octonomy.Catalog.Table.Laws.{get_row-inv, find_row-inv}
use octonomy.Json.{single}
use octonomy.Store.{AuditContext, Db, Source, Tx, pure}
use octonomy.Store.Kept.{lift-inv}
use octonomy.Store.Snapshots.{tag_alias_snapshot}
use octonomy.Services.{tag_table, alias_table, put_aliases, scope_of_columns, validate_metadata}
use octonomy.Services.Patch.{AliasPatch, is_unchanged, diff_body, alias_diff, patched_alias}
use octonomy.Services.Tags.{given}
use octonomy.Services.Aliases.{
  validate_alias_tag, AliasData, alias_change, create_tag_alias, save_alias, update_tag_alias,
}
use octonomy.Services.Writes.{Wrote, or_conflict-Wrote}
use octonomy.Services.References.{
  tag_place, alias_place, tag_place_at, place_at-found, may_refer, refers_to, active_at-found,
  alias_fits, HasCatalog, HasCatalog-Kept,
}
use octonomy.Services.Tables.{insert_alias-IsCatalog, save_alias-IsCatalog}
use octonomy.Services.Loaded.{scope_of_columns-same}

-- An alias of a validated tag fits.
pub validate_alias_tag-alias_fits :
    (tags : List Tag) (t : Tag) (a : TagAlias)
    → find_row tag_table a.tag_id tags ≡ some t
    → validate_alias_tag a.tenant_id a.application_id t a.namespace ≡ ok tt
    → alias_fits tags a ≡ true
unfolding alias_fits validate_alias_tag may_refer
validate_alias_tag-alias_fits tags t a found h =
    let there =
      refers_to a.tag_id (tag_place_at tags) (alias_place a) (tag_place t)
        (place_at-found tag_table tag_place tags a.tag_id t found)
        (ground (arith, beq_sym a.application_id t.application_id)) in
    ground (arith, there, active_at-found tags a.tag_id t found)

module _ (settings : Settings) (source : Source) (context : Option AuditContext) where
  -- What `create_tag_alias` went through.
  pub record Aliased (tenant_id : String) (payload : AliasData) (db : Db) (a : TagAlias) (v : Db)
      : Type 0 where
    pub target : a.tag_id ≡ payload.tag.id
    pub fits : alias_fits db.tags a ≡ true
    pub wrote :
        Wrote
          (λ x. x.aliases)
          put_aliases
          (insert_row alias_table a)
          context
          (alias_change "tag_alias.created" a (single "after" (tag_alias_snapshot a)))
          (record db { reads = suc (suc db.reads); draws = suc db.draws })
          v

  pub create_tag_alias-Aliased :
      (tenant_id : String) (payload : AliasData) (db : Db) (a : TagAlias) (v : Db)
      → create_tag_alias settings source context tenant_id payload db ≡ ok (a, v)
      → Aliased tenant_id payload db a v
  unfolding create_tag_alias octonomy.Store.draw_uuid octonomy.Store.read_clock
  create_tag_alias-Aliased tenant_id payload db a v h =
      let (_, _, h₁) = lift-inv (validate_metadata payload.metadata) _ db h in
      let (scope, e, h₂) = lift-inv (scope_of_columns payload.namespace) _ db h₁ in
      let (_, _, h₃) = lift-inv (guard_namespace_write_enabled settings scope) _ db h₂ in
      let (t, f, h₄) = lift-inv (get_row tag_table payload.tag.id db.tags) _ db h₃ in
      let (_, k, h₅) =
        lift-inv (validate_alias_tag tenant_id payload.application_id t scope) _ db h₄ in
      let found = get_row-inv tag_table payload.tag.id db.tags t f in
      let (_, id) = find_row-inv tag_table payload.tag.id db.tags t found in
      let (wrote, row) =
        or_conflict-Wrote (λ x. x.aliases) put_aliases (insert_row alias_table _) source context _ _
          a _ v h₅ in
      record {
        target = ap (λ (x : TagAlias). x.tag_id) row ∙ id;
        fits =
            subst (λ x. alias_fits db.tags x ≡ true) (sym row)
              (validate_alias_tag-alias_fits db.tags t _
                (ap (λ i. find_row tag_table i db.tags) id ∙ found)
                (subst (λ s. validate_alias_tag tenant_id payload.application_id t s ≡ ok tt)
                  (scope_of_columns-same payload.namespace scope e) k));
        wrote =
            subst
              (λ (x : TagAlias).
                Wrote (λ y. y.aliases) put_aliases (insert_row alias_table x) context
                  (alias_change "tag_alias.created" x (single "after" (tag_alias_snapshot x)))
                  (record db { reads = suc (suc db.reads); draws = suc db.draws }) v)
              (sym row) wrote;
      }

  pub create_tag_alias-HasCatalog :
      (tenant_id : String) (payload : AliasData) (db : Db) (a : TagAlias) (v : Db)
      → create_tag_alias settings source context tenant_id payload db ≡ ok (a, v)
      → HasCatalog db
      → HasCatalog v
  create_tag_alias-HasCatalog tenant_id payload db a v h w =
      let c = create_tag_alias-Aliased tenant_id payload db a v h in
      HasCatalog-Kept (put_aliases c.wrote.after (record db { reads = _; draws = _ })) v
        c.wrote.kept
        (insert_alias-IsCatalog db.tags db.aliases db.vocabularies w a c.wrote.after c.wrote.wrote
          c.fits)

  -- The write of `update_tag_alias`.
  pub record SavedAlias (a : TagAlias) (patch : AliasPatch) (db : Db) (a' : TagAlias) (v : Db)
      : Type 0 where
    pub changed : is_unchanged (alias_diff a patch) ≡ false
    pub row :
        (tag_id : ℕ) × (now : ℕ) × (a'
          ≡ record (patched_alias a patch) { tag_id = tag_id; updated_at = now })
    pub fits : alias_fits db.tags a' ≡ true
    pub wrote :
        Wrote
          (λ x. x.aliases)
          put_aliases
          (save_row alias_table a')
          context
          (alias_change "tag_alias.updated" a' (diff_body (alias_diff a patch)))
          (record db { reads = suc db.reads })
          v

  save_alias-SavedAlias :
      (a : TagAlias) (patch : AliasPatch) (t : Tag) (db : Db) (a' : TagAlias) (v : Db)
      → is_unchanged (alias_diff a patch) ≡ false
      → save_alias settings source context a patch a.namespace t db ≡ ok (a', v)
      → SavedAlias a patch db a' v
  unfolding save_alias octonomy.Store.read_clock patched_alias
  save_alias-SavedAlias a patch t db a' v changed h =
      let (locked, f, h₁) = lift-inv (get_row tag_table t.id db.tags) _ db h in
      let (_, k, h₂) =
        lift-inv (validate_alias_tag a.tenant_id a.application_id locked a.namespace) _ db h₁ in
      let found = get_row-inv tag_table t.id db.tags locked f in
      let (_, id) = find_row-inv tag_table t.id db.tags locked found in
      let (wrote, row) =
        or_conflict-Wrote (λ x. x.aliases) put_aliases (save_row alias_table _) source context _ _
          a' _ v h₂ in
      record {
        changed = changed;
        row = (locked.id, source.now db.reads, row);
        fits =
            subst (λ x. alias_fits db.tags x ≡ true) (sym row)
              (validate_alias_tag-alias_fits db.tags locked _
                (ap (λ i. find_row tag_table i db.tags) id ∙ found) k);
        wrote =
            subst
              (λ (x : TagAlias).
                Wrote (λ y. y.aliases) put_aliases (save_row alias_table x) context
                  (alias_change "tag_alias.updated" x (diff_body (alias_diff a patch)))
                  (record db { reads = suc db.reads }) v)
              (sym row) wrote;
      }

  pub update_tag_alias-cases :
      (a : TagAlias) (patch : AliasPatch) (db : Db) (a' : TagAlias) (v : Db)
      → update_tag_alias settings source context a patch db ≡ ok (a', v)
      → ((is_unchanged (alias_diff a patch) ≡ true) × (a' ≡ a) × (v ≡ db))
        ⊎ SavedAlias a patch db a' v
  unfolding update_tag_alias
  update_tag_alias-cases a patch db a' v h =
      let (scope, e, h₁) = lift-inv (scope_of_columns a.namespace) _ db h in
      let (_, _, h₂) = lift-inv (guard_namespace_write_enabled settings scope) _ db h₁ in
      let (_, _, h₃) =
        lift-inv (guard_scope_immutable a.namespace a.application_id patch.scope) _ db h₂ in
      let (old, _, h₄) = lift-inv (get_row tag_table a.tag_id db.tags) _ db h₃ in
      let t = given patch.tag old in
      let (_, _, h₅) = lift-inv (validate_alias_tag a.tenant_id a.application_id t scope) _ db h₄ in
      let (_, _, h₆) =
        lift-inv (elim patch.metadata [ none ↦ ok tt | some value ↦ validate_metadata value ]) _ db
          h₅ in
      elim (Bool-cases (is_unchanged (alias_diff a patch))) [
        | inl quiet ↦ inl (quiet, ground arith, ground arith)
        | inr changed ↦
            let run : save_alias settings source context a patch scope t db ≡ ok (a', v) =
              ground arith in
            inr (
              save_alias-SavedAlias a patch t db a' v changed (
                subst (λ s. save_alias settings source context a patch s t db ≡ ok (a', v))
                  (scope_of_columns-same a.namespace scope e) run))
      ]

  pub update_tag_alias-HasCatalog :
      (a : TagAlias) (patch : AliasPatch) (db : Db) (a' : TagAlias) (v : Db)
      → update_tag_alias settings source context a patch db ≡ ok (a', v)
      → HasCatalog db
      → HasCatalog v
  update_tag_alias-HasCatalog a patch db a' v h w =
      elim (update_tag_alias-cases a patch db a' v h) [
        | inl (_, _, same) ↦ rw same w
        | inr saved ↦
            HasCatalog-Kept (put_aliases saved.wrote.after (record db { reads = _ })) v
              saved.wrote.kept
              (save_alias-IsCatalog db.tags db.aliases db.vocabularies w a' saved.wrote.after
                saved.wrote.wrote saved.fits)
      ]
