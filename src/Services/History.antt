-- ===== src/Services/History.antt =====
-- The states of the catalog that octonomy/tags/services.py, octonomy/tags/alias_services.py and
-- octonomy/tags/vocabulary_services.py lead to: any successful calls, one after the other.
use octonomy.Prelude.{ℕ, String, ◌≡◌, Bool, true, Option, some}
use octonomy.Errors.{ok}
use octonomy.Scope.{Settings}
use octonomy.Catalog.{Tag, TagAlias, Vocabulary}
use octonomy.Catalog.Table.{find_row}
use octonomy.Store.{AuditContext, Db, Source}
use octonomy.Services.{tag_table, vocabulary_table}
use octonomy.Services.Patch.{TagPatch, AliasPatch, VocabularyPatch, patched_tag}
use octonomy.Services.Tags.{TagData, create_tag, update_tag, reactivate_tag, deactivate_tag}
use octonomy.Services.Aliases.{
  AliasData, create_tag_alias, update_tag_alias, reactivate_tag_alias, deactivate_tag_alias,
}
use octonomy.Services.Vocabularies.{
  VocabularyData, create_vocabulary, update_vocabulary, reactivate_vocabulary,
  deactivate_vocabulary,
}
use octonomy.Services.References.{HasCatalog}
use octonomy.Services.Loaded.{LoadedTag, LoadedVocabulary}
use octonomy.Services.TagLaws.{create_tag-HasCatalog}
use octonomy.Services.TagUpdates.{LoadedPatch, update_tag-HasCatalog}
use octonomy.Services.TagFlags.{reactivate_tag-HasCatalog}
use octonomy.Services.Deactivation.{deactivate_tag-HasCatalog}
use octonomy.Services.AliasLaws.{create_tag_alias-HasCatalog, update_tag_alias-HasCatalog}
use octonomy.Services.AliasFlags.{reactivate_tag_alias-HasCatalog, deactivate_tag_alias-HasCatalog}
use octonomy.Services.VocabularyLaws.{
  create_vocabulary-HasCatalog, update_vocabulary-HasCatalog, reactivate_vocabulary-HasCatalog,
  deactivate_vocabulary-HasCatalog,
}

module _ (settings : Settings) (source : Source) where
  -- A successful call. A row that is updated or turned on is the stored one, as its caller loaded
  -- it; a parent or a vocabulary may have changed since, but for its place. An update of a tag
  -- does not turn it off. While an alias is being turned on, other calls may come in between.
  mutual
    pub data Call : Db → Db → Type 0 where
      tag_created :
          (context : Option AuditContext) (tenant_id : String) (payload : TagData) (db : Db)
          (t : Tag) (v : Db)
          → LoadedTag db.tags payload.parent
          → LoadedVocabulary db.vocabularies payload.vocabulary
          → create_tag settings source context tenant_id payload db ≡ ok (t, v)
          → Call db v
      tag_updated :
          (context : Option AuditContext) (t : Tag) (patch : TagPatch) (db : Db) (t' : Tag) (v : Db)
          → find_row tag_table t.id db.tags ≡ some t
          → LoadedPatch db patch
          → (t.is_active ≡ true → (patched_tag t patch).is_active ≡ true)
          → update_tag settings source context t patch db ≡ ok (t', v)
          → Call db v
      tag_reactivated :
          (context : Option AuditContext) (t : Tag) (db : Db) (t' : Tag) (v : Db)
          → ((x : Tag) → find_row tag_table t.id db.tags ≡ some x → x.namespace ≡ t.namespace)
          → reactivate_tag settings source context t db ≡ ok (t', v)
          → Call db v
      tag_deactivated :
          (context : Option AuditContext) (t : Tag) (db : Db) (b : Bool) (v : Db)
          → deactivate_tag settings source context t db ≡ ok (b, v)
          → Call db v
      alias_created :
          (context : Option AuditContext) (tenant_id : String) (payload : AliasData) (db : Db)
          (a : TagAlias) (v : Db)
          → create_tag_alias settings source context tenant_id payload db ≡ ok (a, v)
          → Call db v
      alias_updated :
          (context : Option AuditContext) (a : TagAlias) (patch : AliasPatch) (db : Db)
          (a' : TagAlias) (v : Db)
          → update_tag_alias settings source context a patch db ≡ ok (a', v)
          → Call db v
      alias_reactivated :
          (context : Option AuditContext) (meanwhile : ℕ → Db → Db) (a : TagAlias) (db : Db)
          (a' : TagAlias) (v : Db)
          → ((n : ℕ) (u : Db) → Calls u (meanwhile n u))
          → reactivate_tag_alias settings source context meanwhile a db ≡ ok (a', v)
          → Call db v
      alias_deactivated :
          (context : Option AuditContext) (a : TagAlias) (db : Db) (b : Bool) (v : Db)
          → deactivate_tag_alias settings source context a db ≡ ok (b, v)
          → Call db v
      vocabulary_created :
          (context : Option AuditContext) (tenant_id : String) (payload : VocabularyData) (db : Db)
          (c : Vocabulary) (v : Db)
          → create_vocabulary settings source context tenant_id payload db ≡ ok (c, v)
          → Call db v
      vocabulary_updated :
          (context : Option AuditContext) (c : Vocabulary) (patch : VocabularyPatch) (db : Db)
          (c' : Vocabulary) (v : Db)
          → find_row vocabulary_table c.id db.vocabularies ≡ some c
          → update_vocabulary settings source context c patch db ≡ ok (c', v)
          → Call db v
      vocabulary_reactivated :
          (context : Option AuditContext) (c : Vocabulary) (db : Db) (c' : Vocabulary) (v : Db)
          → reactivate_vocabulary settings source context c db ≡ ok (c', v)
          → Call db v
      vocabulary_deactivated :
          (context : Option AuditContext) (c : Vocabulary) (db : Db) (b : Bool) (v : Db)
          → deactivate_vocabulary settings source context c db ≡ ok (b, v)
          → Call db v

    pub data Calls : Db → Db → Type 0 where
      nothing : (db : Db) → Calls db db
      then_call : (db u v : Db) → Calls db u → Call u v → Calls db v

  mutual
    kept_by_one : (db v : Db) → Call db v → HasCatalog db → HasCatalog v
    kept_by_one db v (tag_created c i p _ t _ l m h) w =
        create_tag-HasCatalog settings source c i p db t v h l m w
    kept_by_one db v (tag_updated c t p _ t' _ was l on h) w =
        update_tag-HasCatalog settings source c t p db t' v h was l on w
    kept_by_one db v (tag_reactivated c t _ t' _ home h) w =
        reactivate_tag-HasCatalog settings source c t db t' v h home w
    kept_by_one db v (tag_deactivated c t _ b _ h) w =
        deactivate_tag-HasCatalog settings source c t db b v h w
    kept_by_one db v (alias_created c i p _ a _ h) w =
        create_tag_alias-HasCatalog settings source c i p db a v h w
    kept_by_one db v (alias_updated c a p _ a' _ h) w =
        update_tag_alias-HasCatalog settings source c a p db a' v h w
    kept_by_one db v (alias_reactivated c m a _ a' _ others h) w =
        reactivate_tag_alias-HasCatalog settings source c m a db a' v h
          (λ i u. kept_by_all u (m i u) (others i u)) w
    kept_by_one db v (alias_deactivated c a _ b _ h) w =
        deactivate_tag_alias-HasCatalog settings source c a db b v h w
    kept_by_one db v (vocabulary_created c i p _ x _ h) w =
        create_vocabulary-HasCatalog settings source c i p db x v h w
    kept_by_one db v (vocabulary_updated c x p _ x' _ was h) w =
        update_vocabulary-HasCatalog settings source c x p db x' v h was w
    kept_by_one db v (vocabulary_reactivated c x _ x' _ h) w =
        reactivate_vocabulary-HasCatalog settings source c x db x' v h w
    kept_by_one db v (vocabulary_deactivated c x _ b _ h) w =
        deactivate_vocabulary-HasCatalog settings source c x db b v h w

    kept_by_all : (db v : Db) → Calls db v → HasCatalog db → HasCatalog v
    kept_by_all db v (nothing _) w = w
    kept_by_all db v (then_call _ u _ before last) w =
        kept_by_one u v last (kept_by_all db u before w)

  -- From a store that keeps the catalog's invariant (the three tables keep their constraints, each
  -- parent, vocabulary and canonical tag is stored where its row may refer to it, and an active
  -- alias has an active tag), any sequence of successful calls leads to one that does, if an
  -- updated row is the stored one, a named parent or vocabulary is in its place, and no update
  -- turns an active tag off.
  pub Calls-HasCatalog : (db v : Db) → Calls db v → HasCatalog db → HasCatalog v
  Calls-HasCatalog db v calls w = kept_by_all db v calls w
