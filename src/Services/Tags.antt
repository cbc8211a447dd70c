-- ===== src/Services/Tags.antt =====
-- octonomy/tags/services.py. A service takes the row as the caller has loaded it, and its relations as
-- the rows that the payload names.
use octonomy.Prelude.{
  ℕ, String, Bool, true, false, ◌&&◌, ◌||◌, not, Option, none, some, List, [], ◌∷◌, map, filter,
  contains, is_none, is_some, nat_beq, nat_eq, ◌==◌, string_eq, option_eq, if◌then◌else◌,
}
use octonomy.Errors.{Result, ok, err, domain}
use octonomy.Json.{Json, Items, nil, cons, field, end, object, list, text, uuid, bool, single, pair}
use octonomy.Scope.{
  Settings, Namespace, guard_namespace_write_enabled, guard_scope_immutable, row_matches_scope,
}
use octonomy.Catalog.{Tag, TagAlias, Vocabulary}
use octonomy.Catalog.Table.{get_row, insert_row, save_row, update_row}
use octonomy.Store.{AuditContext, Source, Tx, ◌>>=◌, ◌>>◌, pure, lift, read_clock, draw_uuid}
use octonomy.Store.Changes.{Change, create_audit_logs, create_outbox_events}
use octonomy.Store.Snapshots.{tag_snapshot}
use octonomy.Services.{
  tag_table, vocabulary_table, on_tags, on_aliases, get_in_tenant, scope_of_columns, flag_change,
  or_conflict, written,
}
use octonomy.Services.Patch.{
  TagPatch, is_unchanged, diff_body, tag_diff, patched_tag, same_id, vocabulary_ids,
}

-- `validate_tag_parent`
unfoldable pub validate_tag_parent :
    String → Option String → Option Tag → Namespace → Result (Unit {0})
validate_tag_parent tenant_id application_id none s = ok tt
validate_tag_parent tenant_id application_id (some parent) s =
    if not (parent.tenant_id == tenant_id)
    then err (domain "parent_id")
    else if is_none application_id && is_some parent.application_id
    then err (domain "parent_id")
    else if is_some application_id
        && not (is_none parent.application_id || parent.application_id == application_id)
    then err (domain "parent_id")
    else if not (row_matches_scope parent.namespace s true)
    then err (domain "parent_id")
    else ok tt

-- `validate_tag_vocabulary`
unfoldable pub validate_tag_vocabulary :
    String → Option String → Option Vocabulary → Namespace → Bool → Result (Unit {0})
validate_tag_vocabulary tenant_id application_id none s require_active = ok tt
validate_tag_vocabulary tenant_id application_id (some vocabulary) s require_active =
    if not (vocabulary.tenant_id == tenant_id)
    then err (domain "vocabulary_id")
    else if require_active && not vocabulary.is_active
    then err (domain "vocabulary_id")
    else if is_none application_id && is_some vocabulary.application_id
    then err (domain "vocabulary_id")
    else if is_some application_id
        && not (is_none vocabulary.application_id || vocabulary.application_id == application_id)
    then err (domain "vocabulary_id")
    else if not (row_matches_scope vocabulary.namespace s true)
    then err (domain "vocabulary_id")
    else ok tt

-- The payload of a create.
pub record TagData : Type 0 where
  pub application_id : Option String
  pub namespace : Namespace
  pub name : String
  pub slug : String
  pub type : String
  pub description : Option String
  pub parent : Option Tag
  pub vocabulary : Option Vocabulary
  pub metadata : Json
  pub is_active : Bool

abbrev pub new_tag : String → TagData → ℕ → ℕ → ℕ → Tag
new_tag tenant_id payload id created updated = record {
  id = id;
  tenant_id = tenant_id;
  application_id = payload.application_id;
  namespace = payload.namespace;
  name = payload.name;
  slug = payload.slug;
  type = payload.type;
  description = payload.description;
  parent_id = elim payload.parent [ none ↦ none | some t ↦ some t.id ];
  vocabulary_id = elim payload.vocabulary [ none ↦ none | some v ↦ some v.id ];
  metadata = payload.metadata;
  is_active = payload.is_active;
  created_at = created;
  updated_at = updated;
}

-- The arguments of `create_audit_log` and `create_outbox_event`.
unfoldable pub tag_change : String → Tag → Json → Change
tag_change action t body = record {
  tenant_id = t.tenant_id;
  application_id = t.application_id;
  namespace = t.namespace;
  action = action;
  entity_type = "tag";
  entity_id = t.id;
  tag_id = some t.id;
  resource_type = none;
  resource_id = none;
  body = body;
}

abbrev pub flag_tag : Bool → ℕ → Tag → Tag
flag_tag active now t = record t { is_active = active; updated_at = now }

-- `tag.parent` and `tag.vocabulary`, which load the row of a foreign key.
unfoldable pub related_tag : Option ℕ → Tx (Option Tag)
related_tag none = pure none
related_tag (some i) = do t ← λ db. lift (get_row tag_table i db.tags) db; pure (some t)

unfoldable pub related_vocabulary : Option ℕ → Tx (Option Vocabulary)
related_vocabulary none = pure none
related_vocabulary (some i) = do
  v ← λ db. lift (get_row vocabulary_table i db.vocabularies) db
  pure (some v)

-- The vocabulary of a tag, locked with the tag's tenant.
unfoldable pub locked_vocabulary : Option ℕ → String → Tx (Option Vocabulary)
locked_vocabulary none tenant_id = pure none
locked_vocabulary (some i) tenant_id = do
  v ← λ db. lift (get_in_tenant vocabulary_table (λ v. v.tenant_id) i tenant_id db.vocabularies) db
  pure (some v)

-- `data.get(key, default)`
abbrev pub given : {A : Type 0} → Option A → A → A
given none default = default
given (some value) default = value

-- `"vocabulary" in data and data["vocabulary"] != tag.vocabulary`
unfoldable pub vocabulary_changed : Tag → TagPatch → Bool
vocabulary_changed t patch = elim (vocabulary_ids patch) [
  | none ↦ false
  | some i ↦ not (same_id i t.vocabulary_id)
]

-- The active aliases that `deactivate_tag` selects.
unfoldable pub cascaded : Tag → List TagAlias → List TagAlias
cascaded t aliases =
    filter (λ a. a.tenant_id == t.tenant_id && nat_beq a.tag_id t.id && a.is_active) aliases

-- `TagAlias.objects.filter(id__in=...).update(is_active=False, ...)` on one row.
unfoldable pub cascade_row : List ℕ → ℕ → TagAlias → TagAlias
cascade_row ids now a =
    if contains ids a.id then record a { is_active = false; updated_at = now } else a

abbrev id_items : List ℕ → Items
id_items [] = nil
id_items (i ∷ is) = cons (uuid i) (id_items is)

-- The changes that a deactivation notes for the tag, and for each alias of its cascade.
unfoldable pub deactivation_body : List ℕ → Json
deactivation_body [] = flag_change true false
deactivation_body (i ∷ is) = object (
    field "before" (single "is_active" (bool true)) (
      field "after" (single "is_active" (bool false))
        (field "cascaded_alias_ids" (list (id_items (i ∷ is))) end)))

unfoldable pub cascade_change : Tag → TagAlias → Change
cascade_change t a = record {
  tenant_id = a.tenant_id;
  application_id = a.application_id;
  namespace = a.namespace;
  action = "tag_alias.deactivated";
  entity_type = "tag_alias";
  entity_id = a.id;
  tag_id = some a.tag_id;
  resource_type = none;
  resource_id = none;
  body = object (
      field "before" (single "is_active" (bool true)) (
        field "after" (single "is_active" (bool false)) (
          field "cascade"
            (pair "source_event_type" (text "tag.deactivated") "source_tag_id" (uuid t.id)) end)));
}

module _ (settings : Settings) (source : Source) (context : Option AuditContext) where
  -- `create_tag`
  unfoldable pub create_tag : String → TagData → Tx Tag
  unfolding tag_change
  create_tag tenant_id payload = do
    scope ← lift (scope_of_columns payload.namespace)
    lift (guard_namespace_write_enabled settings scope)
    lift (validate_tag_parent tenant_id payload.application_id payload.parent scope)
    lift (validate_tag_vocabulary tenant_id payload.application_id payload.vocabulary scope true)
    id ← draw_uuid source
    created ← read_clock source
    updated ← read_clock source
    let t = new_tag tenant_id payload id created updated
    written source context (or_conflict (on_tags (insert_row tag_table t)))
        (tag_change "tag.created" t (single "after" (tag_snapshot t))) t

  -- The write of `update_tag`.
  unfoldable pub save_tag : Tag → TagPatch → Tx Tag
  unfolding tag_change
  save_tag t patch = do
    now ← read_clock source
    let t' = record (patched_tag t patch) { updated_at = now }
    written source context (or_conflict (on_tags (save_row tag_table t')))
        (tag_change "tag.updated" t' (diff_body (tag_diff t patch))) t'

  -- `update_tag`
  unfoldable pub update_tag : Tag → TagPatch → Tx Tag
  update_tag t patch = do
    scope ← lift (scope_of_columns t.namespace)
    lift (guard_namespace_write_enabled settings scope)
    lift (guard_scope_immutable t.namespace t.application_id patch.scope)
    old_parent ← related_tag t.parent_id
    old_vocabulary ← related_vocabulary t.vocabulary_id
    lift (validate_tag_parent t.tenant_id t.application_id (given patch.parent old_parent) scope)
    lift (
        validate_tag_vocabulary t.tenant_id t.application_id (given patch.vocabulary old_vocabulary)
          scope (vocabulary_changed t patch))
    if is_unchanged (tag_diff t patch) then pure t else save_tag t patch

  -- What `reactivate_tag` does with the locked row.
  unfoldable pub revive_tag : Tag → Namespace → Tx Tag
  unfolding tag_change
  revive_tag locked scope = do
    vocabulary ← locked_vocabulary locked.vocabulary_id locked.tenant_id
    parent ← related_tag locked.parent_id
    lift (validate_tag_parent locked.tenant_id locked.application_id parent scope)
    lift (validate_tag_vocabulary locked.tenant_id locked.application_id vocabulary scope true)
    now ← read_clock source
    let t = flag_tag true now locked
    written source context
        (or_conflict (on_tags (update_row tag_table (flag_tag true now) locked.id)))
        (tag_change "tag.updated" t (flag_change false true)) t

  -- `reactivate_tag`
  unfoldable pub reactivate_tag : Tag → Tx Tag
  reactivate_tag t = do
    scope ← lift (scope_of_columns t.namespace)
    lift (guard_namespace_write_enabled settings scope)
    locked ← λ db. lift (get_in_tenant tag_table (λ x. x.tenant_id) t.id t.tenant_id db.tags) db
    if locked.is_active then pure locked else revive_tag locked scope

  -- The guards on the aliases of a cascade.
  unfoldable pub guard_each : List TagAlias → Result (Unit {0})
  guard_each [] = ok tt
  guard_each (a ∷ rest) =
      let guarded = guard_each rest in
      elim (scope_of_columns a.namespace) [
        | err e ↦ err e
        | ok scope ↦ elim (guard_namespace_write_enabled settings scope) [
          | err e ↦ err e
          | ok _ ↦ guarded
        ]
      ]

  -- The update of the aliases, if there are any.
  unfoldable pub cascade : List ℕ → Tx (Unit {0})
  cascade [] = pure tt
  cascade (i ∷ is) = do
    now ← read_clock source
    on_aliases (λ rows. ok (map (cascade_row (i ∷ is) now) rows))

  -- The audit row of a deactivation, its event, and the events of its cascade.
  unfoldable pub record_deactivation : Tag → List TagAlias → Tx (Unit {0})
  unfolding tag_change cascade_change
  record_deactivation locked active = do
    let change = tag_change "tag.deactivated" locked (deactivation_body (map (λ a. a.id) active))
    create_audit_logs source context (change ∷ [])
    create_outbox_events source context (change ∷ [])
    create_outbox_events source context (map (cascade_change locked) active)

  -- What `deactivate_tag` does with the locked row.
  unfoldable pub retire_tag : Tag → Tx Bool
  retire_tag locked = do
    now ← read_clock source
    on_tags (update_row tag_table (flag_tag false now) locked.id)
    active ← λ db. ok (cascaded locked db.aliases, db)
    lift (guard_each active)
    cascade (map (λ a. a.id) active)
    record_deactivation locked active
    pure true

  -- `deactivate_tag`
  unfoldable pub deactivate_tag : Tag → Tx Bool
  deactivate_tag t = do
    scope ← lift (scope_of_columns t.namespace)
    lift (guard_namespace_write_enabled settings scope)
    locked ← λ db. lift (get_row tag_table t.id db.tags) db
    if locked.is_active then retire_tag locked else pure false
