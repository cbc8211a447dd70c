-- ===== src/Services/Vocabularies.antt =====
-- octonomy/tags/vocabulary_services.py. A service takes the row as the caller has loaded it.
use octonomy.Prelude.{ℕ, String, Bool, true, false, Option, none, some, if◌then◌else◌}
use octonomy.Errors.{ok}
use octonomy.Json.{Json, single}
use octonomy.Scope.{Settings, Namespace, guard_namespace_write_enabled, guard_scope_immutable}
use octonomy.Catalog.{Vocabulary}
use octonomy.Catalog.Table.{insert_row, save_row, update_row}
use octonomy.Store.{AuditContext, Source, Tx, ◌>>=◌, ◌>>◌, pure, lift, read_clock, draw_uuid}
use octonomy.Store.Changes.{Change}
use octonomy.Store.Snapshots.{vocabulary_snapshot}
use octonomy.Services.{
  vocabulary_table, on_vocabularies, get_in_tenant, scope_of_columns, validate_metadata,
  flag_change, or_conflict, written,
}
use octonomy.Services.Patch.{
  VocabularyPatch, is_unchanged, diff_body, vocabulary_diff, patched_vocabulary,
}

-- The payload of a create.
pub record VocabularyData : Type 0 where
  pub application_id : Option String
  pub namespace : Namespace
  pub name : String
  pub slug : String
  pub description : Option String
  pub metadata : Json
  pub is_active : Bool

abbrev pub new_vocabulary : String → VocabularyData → ℕ → ℕ → ℕ → Vocabulary
new_vocabulary tenant_id payload id created updated = record {
  id = id;
  tenant_id = tenant_id;
  application_id = payload.application_id;
  namespace = payload.namespace;
  name = payload.name;
  slug = payload.slug;
  description = payload.description;
  metadata = payload.metadata;
  is_active = payload.is_active;
  created_at = created;
  updated_at = updated;
}

-- The arguments of `create_audit_log` and `create_outbox_event`.
unfoldable pub vocabulary_change : String → Vocabulary → Json → Change
vocabulary_change action v body = record {
  tenant_id = v.tenant_id;
  application_id = v.application_id;
  namespace = v.namespace;
  action = action;
  entity_type = "vocabulary";
  entity_id = v.id;
  tag_id = none;
  resource_type = none;
  resource_id = none;
  body = body;
}

abbrev pub flag_vocabulary : Bool → ℕ → Vocabulary → Vocabulary
flag_vocabulary active now v = record v { is_active = active; updated_at = now }

module _ (settings : Settings) (source : Source) (context : Option AuditContext) where
  -- `create_vocabulary`
  unfoldable pub create_vocabulary : String → VocabularyData → Tx Vocabulary
  unfolding vocabulary_change
  create_vocabulary tenant_id payload = do
    lift (validate_metadata payload.metadata)
    scope ← lift (scope_of_columns payload.namespace)
    lift (guard_namespace_write_enabled settings scope)
    id ← draw_uuid source
    created ← read_clock source
    updated ← read_clock source
    let v = new_vocabulary tenant_id payload id created updated
    written source context (or_conflict (on_vocabularies (insert_row vocabulary_table v)))
        (vocabulary_change "vocabulary.created" v (single "after" (vocabulary_snapshot v))) v

  -- The write of `update_vocabulary`.
  unfoldable pub save_vocabulary : Vocabulary → VocabularyPatch → Tx Vocabulary
  unfolding vocabulary_change
  save_vocabulary v patch = do
    now ← read_clock source
    let v' = record (patched_vocabulary v patch) { updated_at = now }
    written source context (or_conflict (on_vocabularies (save_row vocabulary_table v')))
        (vocabulary_change "vocabulary.updated" v' (diff_body (vocabulary_diff v patch))) v'

  -- `update_vocabulary`
  unfoldable pub update_vocabulary : Vocabulary → VocabularyPatch → Tx Vocabulary
  update_vocabulary v patch = do
    scope ← lift (scope_of_columns v.namespace)
    lift (guard_namespace_write_enabled settings scope)
    lift (guard_scope_immutable v.namespace v.application_id patch.scope)
    lift (elim patch.metadata [ none ↦ ok tt | some value ↦ validate_metadata value ])
    if is_unchanged (vocabulary_diff v patch) then pure v else save_vocabulary v patch

  -- What `reactivate_vocabulary` does with the locked row.
  unfoldable pub revive_vocabulary : Vocabulary → Tx Vocabulary
  unfolding vocabulary_change
  revive_vocabulary locked = do
    now ← read_clock source
    let v = flag_vocabulary true now locked
    written source context
        (or_conflict
          (on_vocabularies (update_row vocabulary_table (flag_vocabulary true now) locked.id)))
        (vocabulary_change "vocabulary.updated" v (flag_change false true)) v

  -- `reactivate_vocabulary`
  unfoldable pub reactivate_vocabulary : Vocabulary → Tx Vocabulary
  reactivate_vocabulary v = do
    scope ← lift (scope_of_columns v.namespace)
    lift (guard_namespace_write_enabled settings scope)
    locked ← λ db.
        lift (get_in_tenant vocabulary_table (λ x. x.tenant_id) v.id v.tenant_id db.vocabularies) db
    if locked.is_active then pure locked else revive_vocabulary locked

  -- The write of `deactivate_vocabulary`.
  unfoldable pub retire_vocabulary : Vocabulary → Tx Bool
  unfolding vocabulary_change
  retire_vocabulary v = do
    now ← read_clock source
    written source context
        (on_vocabularies (update_row vocabulary_table (flag_vocabulary false now) v.id))
        (vocabulary_change "vocabulary.deactivated" v (flag_change true false)) true

  -- `deactivate_vocabulary`
  unfoldable pub deactivate_vocabulary : Vocabulary → Tx Bool
  deactivate_vocabulary v = do
    scope ← lift (scope_of_columns v.namespace)
    lift (guard_namespace_write_enabled settings scope)
    if v.is_active then retire_vocabulary v else pure false
