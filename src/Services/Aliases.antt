-- ===== src/Services/Aliases.antt =====
-- The services of octonomy/tags/alias_services.py that write. A service takes the row as the caller
-- has loaded it.
use octonomy.Prelude.{
  ℕ, zero, suc, String, Bool, true, false, ◌&&◌, not, Option, none, some, is_none, nat_beq, ◌==◌,
  string_eq, option_eq, if◌then◌else◌,
}
use octonomy.Errors.{Result, ok, err, domain, application_mismatch, conflict}
use octonomy.Json.{Json, single}
use octonomy.Scope.{
  Settings, Namespace, guard_namespace_write_enabled, guard_scope_immutable, row_matches_scope,
}
use octonomy.Catalog.{Tag, TagAlias}
use octonomy.Catalog.Table.{get_row, insert_row, save_row, update_row}
use octonomy.Store.{AuditContext, Db, Source, Tx, ◌>>=◌, ◌>>◌, pure, lift, read_clock, draw_uuid}
use octonomy.Store.Changes.{Change}
use octonomy.Store.Snapshots.{tag_alias_snapshot}
use octonomy.Services.{
  tag_table, alias_table, on_aliases, get_in_tenant, scope_of_columns, validate_metadata,
  flag_change, or_conflict, written,
}
use octonomy.Services.Patch.{AliasPatch, is_unchanged, diff_body, alias_diff, patched_alias}
use octonomy.Services.Tags.{given}

-- `validate_alias_tag`
unfoldable pub validate_alias_tag : String → Option String → Tag → Namespace → Result (Unit {0})
validate_alias_tag tenant_id application_id t s =
    if not (t.tenant_id == tenant_id)
    then err (domain "tag_id")
    else if not t.is_active
    then err (domain "tag_id")
    else if not (is_none t.application_id) && not (application_id == t.application_id)
    then err (application_mismatch "application_id")
    else if not (row_matches_scope t.namespace s true)
    then err (domain "tag_id")
    else ok tt

-- The payload of a create.
pub record AliasData : Type 0 where
  pub application_id : Option String
  pub namespace : Namespace
  pub tag : Tag
  pub name : String
  pub slug : String
  pub metadata : Json
  pub is_active : Bool

abbrev pub new_alias : String → AliasData → ℕ → ℕ → ℕ → ℕ → TagAlias
new_alias tenant_id payload tag_id id created updated = record {
  id = id;
  tenant_id = tenant_id;
  application_id = payload.application_id;
  namespace = payload.namespace;
  tag_id = tag_id;
  name = payload.name;
  slug = payload.slug;
  metadata = payload.metadata;
  is_active = payload.is_active;
  created_at = created;
  updated_at = updated;
}

-- The arguments of `create_audit_log` and `create_outbox_event`.
unfoldable pub alias_change : String → TagAlias → Json → Change
alias_change action a body = record {
  tenant_id = a.tenant_id;
  application_id = a.application_id;
  namespace = a.namespace;
  action = action;
  entity_type = "tag_alias";
  entity_id = a.id;
  tag_id = some a.tag_id;
  resource_type = none;
  resource_id = none;
  body = body;
}

abbrev pub flag_alias : Bool → ℕ → TagAlias → TagAlias
flag_alias active now a = record a { is_active = active; updated_at = now }

-- `Tag.objects.select_for_update().get(id=...)`
abbrev pub locked_tag : ℕ → Tx Tag
locked_tag i db = lift (get_row tag_table i db.tags) db

-- `except _AliasRepointed: continue`
abbrev pub or_again : Tx TagAlias → Option TagAlias → Tx TagAlias
or_again again none = again
or_again again (some revived) = pure revived

module _ (settings : Settings) (source : Source) (context : Option AuditContext) where
  -- `create_tag_alias`
  unfoldable pub create_tag_alias : String → AliasData → Tx TagAlias
  unfolding alias_change
  create_tag_alias tenant_id payload = do
    lift (validate_metadata payload.metadata)
    scope ← lift (scope_of_columns payload.namespace)
    lift (guard_namespace_write_enabled settings scope)
    t ← locked_tag payload.tag.id
    lift (validate_alias_tag tenant_id payload.application_id t scope)
    id ← draw_uuid source
    created ← read_clock source
    updated ← read_clock source
    let a = new_alias tenant_id payload t.id id created updated
    written source context (or_conflict (on_aliases (insert_row alias_table a)))
        (alias_change "tag_alias.created" a (single "after" (tag_alias_snapshot a))) a

  -- The transaction of `update_tag_alias`.
  unfoldable pub save_alias : TagAlias → AliasPatch → Namespace → Tag → Tx TagAlias
  unfolding alias_change
  save_alias a patch scope t = do
    locked ← locked_tag t.id
    lift (validate_alias_tag a.tenant_id a.application_id locked scope)
    now ← read_clock source
    let a' = record (patched_alias a patch) { tag_id = locked.id; updated_at = now }
    written source context (or_conflict (on_aliases (save_row alias_table a')))
        (alias_change "tag_alias.updated" a' (diff_body (alias_diff a patch))) a'

  -- `update_tag_alias`
  unfoldable pub update_tag_alias : TagAlias → AliasPatch → Tx TagAlias
  update_tag_alias a patch = do
    scope ← lift (scope_of_columns a.namespace)
    lift (guard_namespace_write_enabled settings scope)
    lift (guard_scope_immutable a.namespace a.application_id patch.scope)
    old_tag ← locked_tag a.tag_id
    let t = given patch.tag old_tag
    lift (validate_alias_tag a.tenant_id a.application_id t scope)
    lift (elim patch.metadata [ none ↦ ok tt | some value ↦ validate_metadata value ])
    if is_unchanged (alias_diff a patch) then pure a else save_alias a patch scope t

  -- What an attempt of `reactivate_tag_alias` does with the locked rows.
  unfoldable pub revive_alias : TagAlias → Tag → Namespace → Tx TagAlias
  unfolding alias_change
  revive_alias locked t scope = do
    lift (validate_alias_tag locked.tenant_id locked.application_id t scope)
    now ← read_clock source
    let a = flag_alias true now locked
    written source context
        (or_conflict (on_aliases (update_row alias_table (flag_alias true now) locked.id)))
        (alias_change "tag_alias.updated" a (flag_change false true)) a

  -- The rest of an attempt, once the tag and the alias are locked; `none` is `_AliasRepointed`.
  unfoldable pub attempt_locked : Namespace → ℕ → Tag → TagAlias → Tx (Option TagAlias)
  attempt_locked scope tag_id t locked =
      if not (nat_beq locked.tag_id tag_id)
      then pure none
      else if locked.is_active
      then pure (some locked)
      else revive_alias locked t scope >>= λ a. pure (some a)

  -- The alias, read with the caller's id and tenant.
  abbrev pub alias_in_tenant : TagAlias → Tx TagAlias
  alias_in_tenant a db =
      lift (get_in_tenant alias_table (λ x. x.tenant_id) a.id a.tenant_id db.aliases) db

  -- One attempt of `reactivate_tag_alias`. The other transactions that commit between the read of
  -- the tag's id and the locks are a parameter.
  unfoldable pub attempt : (Db → Db) → TagAlias → Namespace → Tx (Option TagAlias)
  attempt meanwhile a scope = do
    seen ← alias_in_tenant a
    (λ db. ok (tt, meanwhile db))
    t ← λ db. lift (get_in_tenant tag_table (λ x. x.tenant_id) seen.tag_id a.tenant_id db.tags) db
    locked ← alias_in_tenant a
    attempt_locked scope seen.tag_id t locked

  -- `for _attempt in range(3)`, with the attempts that are left.
  unfoldable pub attempts : (ℕ → Db → Db) → TagAlias → Namespace → ℕ → Tx TagAlias
  attempts meanwhile a scope zero = λ db. err (conflict "tag_id")
  attempts meanwhile a scope (suc n) =
      let again = attempts meanwhile a scope n in
      attempt (meanwhile n) a scope >>= λ done. or_again again done

  -- `reactivate_tag_alias`
  unfoldable pub reactivate_tag_alias : (ℕ → Db → Db) → TagAlias → Tx TagAlias
  reactivate_tag_alias meanwhile a = do
    scope ← lift (scope_of_columns a.namespace)
    lift (guard_namespace_write_enabled settings scope)
    attempts meanwhile a scope 3

  -- The write of `deactivate_tag_alias`.
  unfoldable pub retire_alias : TagAlias → Tx Bool
  unfolding alias_change
  retire_alias a = do
    now ← read_clock source
    written source context (on_aliases (update_row alias_table (flag_alias false now) a.id))
        (alias_change "tag_alias.deactivated" a (flag_change true false)) true

  -- `deactivate_tag_alias`
  unfoldable pub deactivate_tag_alias : TagAlias → Tx Bool
  deactivate_tag_alias a = do
    scope ← lift (scope_of_columns a.namespace)
    lift (guard_namespace_write_enabled settings scope)
    if a.is_active then retire_alias a else pure false
