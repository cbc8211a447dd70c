-- ===== src/Views/Detail.antt =====
-- tag_detail of octonomy/tags/views.py, alias_detail of octonomy/tags/alias_views.py and
-- vocabulary_detail of octonomy/tags/vocabulary_views.py: the service that the method calls.
use octonomy.Prelude.{ℕ, String, Option, ◌==◌, string_eq, if◌then◌else◌}
use octonomy.Scope.{Settings}
use octonomy.Request.{reject_null_namespaced_application_id}
use octonomy.Catalog.{Tag, TagAlias, Vocabulary}
use octonomy.Store.{AuditContext, Source, Tx, ◌>>=◌, ◌>>◌, pure, lift}
use octonomy.Services.{tag_table, alias_table, vocabulary_table}
use octonomy.Services.Patch.{VocabularyPatch}
use octonomy.Services.Tags.{update_tag, deactivate_tag}
use octonomy.Services.Aliases.{update_tag_alias, deactivate_tag_alias}
use octonomy.Services.Vocabularies.{update_vocabulary, deactivate_vocabulary}
use octonomy.Services.References.{tag_place, alias_place, vocabulary_place}
use octonomy.Views.{
  Answer, shown, no_content, with_body_scope, TagPayload, AliasPayload, validated_tag,
  validated_alias, Asked, detail_object,
}

module _ (settings : Settings) (source : Source) (context : Option AuditContext) where
  -- The PATCH of a tag.
  unfoldable pub patch_tag : Asked TagPayload → String → Tag → Tx (Answer Tag)
  patch_tag c tenant_id t = do
    lift (reject_null_namespaced_application_id c.request.body c.scope_context)
    payload ← lift c.payload
    patch ← validated_tag tenant_id c.scope_context c.global_references payload
    t' ←
        update_tag settings source context t
          (record patch { scope = with_body_scope c.body_type c.body_id patch.scope })
    pure (shown t')

  unfoldable pub delete_tag : Tag → Tx (Answer Tag)
  delete_tag t = do deactivated ← deactivate_tag settings source context t; pure no_content

  -- `tag_detail`
  unfoldable pub tag_detail : Asked TagPayload → ℕ → Tx (Answer Tag)
  tag_detail c tag_id = do
    found ← λ db. lift (detail_object tag_table tag_place c tag_id db.tags) db
    if c.request.method == "GET"
        then pure (shown found.1)
        else if c.request.method == "DELETE"
        then delete_tag found.1
        else patch_tag c found.0 found.1

  -- The PATCH of an alias.
  unfoldable pub patch_alias : Asked AliasPayload → String → TagAlias → Tx (Answer TagAlias)
  patch_alias c tenant_id a = do
    lift (reject_null_namespaced_application_id c.request.body c.scope_context)
    payload ← lift c.payload
    patch ← validated_alias tenant_id c.scope_context c.global_references payload
    a' ←
        update_tag_alias settings source context a
          (record patch { scope = with_body_scope c.body_type c.body_id patch.scope })
    pure (shown a')

  unfoldable pub delete_alias : TagAlias → Tx (Answer TagAlias)
  delete_alias a = do deactivated ← deactivate_tag_alias settings source context a; pure no_content

  -- `alias_detail`
  unfoldable pub alias_detail : Asked AliasPayload → ℕ → Tx (Answer TagAlias)
  alias_detail c alias_id = do
    found ← λ db. lift (detail_object alias_table alias_place c alias_id db.aliases) db
    if c.request.method == "GET"
        then pure (shown found.1)
        else if c.request.method == "DELETE"
        then delete_alias found.1
        else patch_alias c found.0 found.1

  -- The PATCH of a vocabulary.
  unfoldable pub patch_vocabulary : Asked VocabularyPatch → Vocabulary → Tx (Answer Vocabulary)
  patch_vocabulary c v = do
    lift (reject_null_namespaced_application_id c.request.body c.scope_context)
    patch ← lift c.payload
    v' ←
        update_vocabulary settings source context v
          (record patch { scope = with_body_scope c.body_type c.body_id patch.scope })
    pure (shown v')

  unfoldable pub delete_vocabulary : Vocabulary → Tx (Answer Vocabulary)
  delete_vocabulary v = do
    deactivated ← deactivate_vocabulary settings source context v
    pure no_content

  -- `vocabulary_detail`
  unfoldable pub vocabulary_detail : Asked VocabularyPatch → ℕ → Tx (Answer Vocabulary)
  vocabulary_detail c vocabulary_id = do
    found ← λ db.
        lift (detail_object vocabulary_table vocabulary_place c vocabulary_id db.vocabularies) db
    if c.request.method == "GET"
        then pure (shown found.1)
        else if c.request.method == "DELETE"
        then delete_vocabulary found.1
        else patch_vocabulary c found.1
