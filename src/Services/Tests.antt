-- ===== src/Services/Tests.antt =====
-- A small catalog, and calls of its services.
use octonomy.Prelude.{
  ℕ, ◌+◌, String, ◌≡◌, ◌⊎◌, inl, inr, refl, Bool, true, false, Option, none, some, List, [], ◌∷◌,
  In, is_empty, ◌==◌, string_eq, ltb, arith, any, not, ◌&&◌, nat_beq,
}
use octonomy.Json.{empty_object}
use octonomy.Errors.{Result, ok, err, conflict, validation}
use octonomy.Scope.{Settings, global_scope, ScopePatch}
use octonomy.Catalog.{Tag, TagAlias, Vocabulary, aliases_clash}
use octonomy.Catalog.Table.{find_row}
use octonomy.Store.{AuditContext, Db, Source}
use octonomy.Resolution.{Match}
use octonomy.Resolution.Resolve.{
  active_tags_for_resolution, active_aliases_for_resolution, resolve_in_scope,
}
use octonomy.Services.{tag_table, alias_table, vocabulary_table}
use octonomy.Services.Patch.{TagPatch}
use octonomy.Services.Tags.{TagData, create_tag, update_tag, reactivate_tag, deactivate_tag}
use octonomy.Services.Aliases.{reactivate_tag_alias, flag_alias}
use octonomy.Services.References.{HasCatalog, alias_fits}
use octonomy.Services.History.{Call, Calls, Calls-HasCatalog}
use octonomy.Services.Decided.{Calls-decided}
use octonomy.Services.Deactivation.{deactivate_tag-no_active_alias}
use octonomy.Services.Recorded.{IsUpdate, update_tag-IsUpdate, update_tag-leaves_aliases}
use octonomy.Services.Runs.{create_tag-conflict}
use octonomy.Services.Comeback.{reactivate_tag_alias-ok}
use octonomy.Services.Revival.{reactivate_tag-active}

abbrev test_settings : Settings
test_settings = record {
  namespace_write_enabled = false;
  namespace_v2_api_enabled = true;
  max_bulk_tags = 200;
}

abbrev colours : Vocabulary
colours = record {
  id = 20;
  tenant_id = "t1";
  application_id = none;
  namespace = global_scope;
  name = "Colours";
  slug = "colours";
  description = none;
  metadata = empty_object;
  is_active = true;
  created_at = 1;
  updated_at = 1;
}

abbrev blue : Tag
blue = record {
  id = 1;
  tenant_id = "t1";
  application_id = none;
  namespace = global_scope;
  name = "Blue";
  slug = "blue";
  type = "colour";
  description = none;
  parent_id = none;
  vocabulary_id = some 20;
  metadata = empty_object;
  is_active = true;
  created_at = 1;
  updated_at = 1;
}

abbrev navy : Tag
navy = record blue { id = 2; name = "Navy"; slug = "navy"; parent_id = some 1; is_active = false }

abbrev azure : TagAlias
azure = record {
  id = 10;
  tenant_id = "t1";
  application_id = none;
  namespace = global_scope;
  tag_id = 1;
  name = "Azure";
  slug = "azure";
  metadata = empty_object;
  is_active = true;
  created_at = 1;
  updated_at = 1;
}

abbrev sky : TagAlias
sky = record azure { id = 11; name = "Sky"; slug = "sky"; is_active = false }

abbrev database : Db
database = record {
  tags = blue ∷ navy ∷ [];
  aliases = azure ∷ sky ∷ [];
  vocabularies = colours ∷ [];
  assignments = [];
  audit_logs = [];
  outbox_events = [];
  reads = 0;
  draws = 0;
}

abbrev ticks : Source
ticks = record { now = λ n. 1000 + n; uuid4 = λ n. 100 + n }

abbrev context : Option AuditContext
context = some (record { actor_id = some "editor"; request_id = none; operation_id = 9 })

abbrev state_after : {A : Type 0} → Result (A × Db) → Db
state_after (ok done) = done.1
state_after (err raised) = database

abbrev tag_after : Result (Tag × Db) → Tag
tag_after (ok done) = done.0
tag_after (err raised) = blue

abbrev alias_after : Result (TagAlias × Db) → TagAlias
alias_after (ok done) = done.0
alias_after (err raised) = azure

database-HasCatalog : HasCatalog database
unfolding octonomy.Scope.scope_context octonomy.Scope.guard_namespace_write_enabled
    octonomy.Scope.is_global octonomy.Scope.row_is_global octonomy.Scope.same_namespace
    octonomy.Scope.row_matches_scope octonomy.Scope.namespace_scope_check octonomy.Prelude.find
    octonomy.Prelude.any octonomy.Catalog.tags_clash octonomy.Catalog.aliases_clash
    octonomy.Catalog.tag_checks octonomy.Catalog.Table.find_row octonomy.Catalog.Table.get_row
    octonomy.Catalog.Table.save_row octonomy.Catalog.Table.write_over octonomy.Store.read_clock
    octonomy.Store.except_integrity_error octonomy.Store.Changes.create_audit_logs
    octonomy.Store.Changes.create_outbox_events octonomy.Services.on_table
    octonomy.Services.References.tag_fits octonomy.Services.References.alias_fits
    octonomy.Services.References.refers octonomy.Services.References.may_refer
    octonomy.Services.References.place_at octonomy.Services.References.active_at
    octonomy.Catalog.vocabularies_clash
database-HasCatalog = record {
  tag_rows = ((((λ e. cc, refl), tt), (tt, tt)), (refl, (refl, tt)));
  alias_rows = ((((λ e. cc, refl), tt), (tt, tt)), (refl, (refl, tt)));
  vocabulary_rows = ((tt, tt), (refl, tt));
  tag_references = (refl, (refl, tt));
  alias_references = (refl, (refl, tt));
}

-- The alias comes back, and then the tag is deactivated with both of its aliases.
abbrev returning : Result (TagAlias × Db)
returning = reactivate_tag_alias test_settings ticks context (λ n x. x) sky database

returning_answers : returning ≡ ok (alias_after returning, state_after returning)
unfolding octonomy.Services.Aliases.reactivate_tag_alias octonomy.Services.Aliases.attempts
    octonomy.Services.Aliases.attempt octonomy.Services.get_in_tenant
    octonomy.Services.Aliases.attempt_locked octonomy.Services.Aliases.revive_alias
    octonomy.Services.Aliases.validate_alias_tag octonomy.Catalog.Table.update_row
    octonomy.Services.written octonomy.Services.or_conflict octonomy.Store.Changes.record_changes
    octonomy.Scope.scope_context octonomy.Scope.guard_namespace_write_enabled
    octonomy.Scope.is_global octonomy.Scope.row_is_global octonomy.Scope.same_namespace
    octonomy.Scope.row_matches_scope octonomy.Scope.namespace_scope_check octonomy.Prelude.find
    octonomy.Prelude.any octonomy.Catalog.tags_clash octonomy.Catalog.aliases_clash
    octonomy.Catalog.tag_checks octonomy.Catalog.Table.find_row octonomy.Catalog.Table.get_row
    octonomy.Catalog.Table.save_row octonomy.Catalog.Table.write_over octonomy.Store.read_clock
    octonomy.Store.except_integrity_error octonomy.Store.Changes.create_audit_logs
    octonomy.Store.Changes.create_outbox_events octonomy.Services.on_table
returning_answers = refl

abbrev retiring : Result (Bool × Db)
retiring = deactivate_tag test_settings ticks context blue (state_after returning)

retiring_answers : retiring ≡ ok (true, state_after retiring)
unfolding octonomy.Services.Tags.deactivate_tag octonomy.Services.Tags.retire_tag
    octonomy.Services.Tags.cascaded octonomy.Services.Tags.guard_each octonomy.Services.Tags.cascade
    octonomy.Services.Tags.cascade_row octonomy.Services.Tags.record_deactivation
    octonomy.Services.Tags.deactivation_body octonomy.Prelude.filter octonomy.Prelude.contains
    octonomy.Services.Aliases.reactivate_tag_alias octonomy.Services.Aliases.attempts
    octonomy.Services.Aliases.attempt octonomy.Services.get_in_tenant
    octonomy.Services.Aliases.attempt_locked octonomy.Services.Aliases.revive_alias
    octonomy.Services.Aliases.validate_alias_tag octonomy.Catalog.Table.update_row
    octonomy.Services.written octonomy.Services.or_conflict octonomy.Store.Changes.record_changes
    octonomy.Scope.scope_context octonomy.Scope.guard_namespace_write_enabled
    octonomy.Scope.is_global octonomy.Scope.row_is_global octonomy.Scope.same_namespace
    octonomy.Scope.row_matches_scope octonomy.Scope.namespace_scope_check octonomy.Prelude.find
    octonomy.Prelude.any octonomy.Catalog.tags_clash octonomy.Catalog.aliases_clash
    octonomy.Catalog.tag_checks octonomy.Catalog.Table.find_row octonomy.Catalog.Table.get_row
    octonomy.Catalog.Table.save_row octonomy.Catalog.Table.write_over octonomy.Store.read_clock
    octonomy.Store.except_integrity_error octonomy.Store.Changes.create_audit_logs
    octonomy.Store.Changes.create_outbox_events octonomy.Services.on_table
retiring_answers = refl

history : Calls test_settings ticks database (state_after retiring)
history =
    Calls.then_call database (state_after returning) (state_after retiring)
      (Calls.then_call database database (state_after returning) (Calls.nothing database) (
        Call.alias_reactivated context (λ n x. x) sky database (alias_after returning)
          (state_after returning) (λ n u. Calls.nothing u) returning_answers))
      (Call.tag_deactivated context blue (state_after returning) true (state_after retiring)
        retiring_answers)

Calls-HasCatalog_example : HasCatalog (state_after retiring)
Calls-HasCatalog_example =
    Calls-HasCatalog test_settings ticks database (state_after retiring) history database-HasCatalog

abbrev retiring_first : Result (Bool × Db)
retiring_first = deactivate_tag test_settings ticks context blue database

retiring_first_answers : retiring_first ≡ ok (true, state_after retiring_first)
unfolding octonomy.Services.Tags.deactivate_tag octonomy.Services.Tags.retire_tag
    octonomy.Services.Tags.cascaded octonomy.Services.Tags.guard_each octonomy.Services.Tags.cascade
    octonomy.Services.Tags.cascade_row octonomy.Services.Tags.record_deactivation
    octonomy.Services.Tags.deactivation_body octonomy.Prelude.filter octonomy.Prelude.contains
    octonomy.Catalog.Table.update_row octonomy.Services.written octonomy.Services.or_conflict
    octonomy.Store.Changes.record_changes octonomy.Scope.scope_context
    octonomy.Scope.guard_namespace_write_enabled octonomy.Scope.is_global
    octonomy.Scope.row_is_global octonomy.Scope.same_namespace octonomy.Scope.row_matches_scope
    octonomy.Scope.namespace_scope_check octonomy.Prelude.find octonomy.Prelude.any
    octonomy.Catalog.tags_clash octonomy.Catalog.aliases_clash octonomy.Catalog.tag_checks
    octonomy.Catalog.Table.find_row octonomy.Catalog.Table.get_row octonomy.Catalog.Table.save_row
    octonomy.Catalog.Table.write_over octonomy.Store.read_clock
    octonomy.Store.except_integrity_error octonomy.Store.Changes.create_audit_logs
    octonomy.Store.Changes.create_outbox_events octonomy.Services.on_table
retiring_first_answers = refl

abbrev azure_off : TagAlias
azure_off = record azure { is_active = false; updated_at = 1001 }

azure_off-In : In azure_off (state_after retiring_first).aliases
unfolding octonomy.Services.Tags.deactivate_tag octonomy.Services.Tags.retire_tag
    octonomy.Services.Tags.cascaded octonomy.Services.Tags.guard_each octonomy.Services.Tags.cascade
    octonomy.Services.Tags.cascade_row octonomy.Services.Tags.record_deactivation
    octonomy.Services.Tags.deactivation_body octonomy.Prelude.filter octonomy.Prelude.contains
    octonomy.Catalog.Table.update_row octonomy.Services.written octonomy.Services.or_conflict
    octonomy.Store.Changes.record_changes octonomy.Scope.scope_context
    octonomy.Scope.guard_namespace_write_enabled octonomy.Scope.is_global
    octonomy.Scope.row_is_global octonomy.Scope.same_namespace octonomy.Scope.row_matches_scope
    octonomy.Scope.namespace_scope_check octonomy.Prelude.find octonomy.Prelude.any
    octonomy.Catalog.tags_clash octonomy.Catalog.aliases_clash octonomy.Catalog.tag_checks
    octonomy.Catalog.Table.find_row octonomy.Catalog.Table.get_row octonomy.Catalog.Table.save_row
    octonomy.Catalog.Table.write_over octonomy.Store.read_clock
    octonomy.Store.except_integrity_error octonomy.Store.Changes.create_audit_logs
    octonomy.Store.Changes.create_outbox_events octonomy.Services.on_table
azure_off-In = inl refl

deactivate_tag-no_active_alias_example : azure_off.is_active ≡ false
deactivate_tag-no_active_alias_example =
    deactivate_tag-no_active_alias test_settings ticks context blue database true
      (state_after retiring_first) retiring_first_answers database-HasCatalog azure_off azure_off-In
      refl

-- The store after both, and a slug asked for in it.
abbrev by_id : Tag → Tag → Bool
by_id t u = ltb t.id u.id

abbrev alias_by_id : TagAlias → TagAlias → Bool
alias_by_id a b = ltb a.id b.id

Calls-decided_example :
    let v = state_after retiring in
    let r =
      resolve_in_scope v.tags v.aliases by_id alias_by_id "t1" "azure"
        (some "shop")
        (some "colour")
        global_scope
        true in
    ((m : Match) × (r ≡ ok m))
    ⊎ ((r ≡ err (validation "slug"))
        × (is_empty (
              active_tags_for_resolution v.tags v.aliases by_id alias_by_id "t1" "azure"
                (some "shop")
                (some "colour")
                global_scope
                true)
            ≡ true)
        × (is_empty (
              active_aliases_for_resolution v.tags v.aliases by_id alias_by_id "t1" "azure"
                (some "shop")
                global_scope
                true)
            ≡ true))
Calls-decided_example =
    Calls-decided test_settings ticks database (state_after retiring) history database-HasCatalog
      by_id alias_by_id "t1" "azure" "shop" "colour" global_scope true (inl refl) refl refl

abbrev no_patch : TagPatch
no_patch = record {
  scope = record { application_id = none; namespace_type = none; namespace_id = none };
  name = none;
  slug = none;
  type = none;
  description = none;
  metadata = none;
  is_active = none;
  parent = none;
  vocabulary = none;
}

abbrev renaming : Result (Tag × Db)
renaming =
    update_tag test_settings ticks context blue (record no_patch { name = some "Sapphire" })
      database

renaming_answers : renaming ≡ ok (tag_after renaming, state_after renaming)
unfolding octonomy.Services.Tags.update_tag octonomy.Services.Tags.save_tag
    octonomy.Services.Tags.related_tag octonomy.Services.Tags.related_vocabulary
    octonomy.Services.Tags.validate_tag_parent octonomy.Services.Tags.validate_tag_vocabulary
    octonomy.Services.Tags.vocabulary_changed octonomy.Services.Patch.tag_diff
    octonomy.Services.Patch.patched_tag octonomy.Services.Patch.noted
    octonomy.Services.Patch.assigned octonomy.Scope.guard_scope_immutable
    octonomy.Scope.scope_changed_fields octonomy.Services.written octonomy.Services.or_conflict
    octonomy.Store.Changes.record_changes octonomy.Scope.scope_context
    octonomy.Scope.guard_namespace_write_enabled octonomy.Scope.is_global
    octonomy.Scope.row_is_global octonomy.Scope.same_namespace octonomy.Scope.row_matches_scope
    octonomy.Scope.namespace_scope_check octonomy.Prelude.find octonomy.Prelude.any
    octonomy.Catalog.tags_clash octonomy.Catalog.aliases_clash octonomy.Catalog.tag_checks
    octonomy.Catalog.Table.find_row octonomy.Catalog.Table.get_row octonomy.Catalog.Table.save_row
    octonomy.Catalog.Table.write_over octonomy.Store.read_clock
    octonomy.Store.except_integrity_error octonomy.Store.Changes.create_audit_logs
    octonomy.Store.Changes.create_outbox_events octonomy.Services.on_table
renaming_answers = refl

blue-stored : find_row tag_table 1 database.tags ≡ some blue
unfolding octonomy.Catalog.Table.find_row octonomy.Prelude.find
blue-stored = refl

update_tag-IsUpdate_example :
    IsUpdate context blue
      (record no_patch { name = some "Sapphire" })
      database
      (tag_after renaming)
      (state_after renaming)
update_tag-IsUpdate_example =
    update_tag-IsUpdate test_settings ticks context blue
      (record no_patch { name = some "Sapphire" }) database (tag_after renaming)
      (state_after renaming) renaming_answers blue-stored

abbrev switching_off : Result (Tag × Db)
switching_off =
    update_tag test_settings ticks context blue (record no_patch { is_active = some false })
      database

switching_off_answers : switching_off ≡ ok (tag_after switching_off, state_after switching_off)
unfolding octonomy.Services.Tags.update_tag octonomy.Services.Tags.save_tag
    octonomy.Services.Tags.related_tag octonomy.Services.Tags.related_vocabulary
    octonomy.Services.Tags.validate_tag_parent octonomy.Services.Tags.validate_tag_vocabulary
    octonomy.Services.Tags.vocabulary_changed octonomy.Services.Patch.tag_diff
    octonomy.Services.Patch.patched_tag octonomy.Services.Patch.noted
    octonomy.Services.Patch.assigned octonomy.Scope.guard_scope_immutable
    octonomy.Scope.scope_changed_fields octonomy.Services.written octonomy.Services.or_conflict
    octonomy.Store.Changes.record_changes octonomy.Scope.scope_context
    octonomy.Scope.guard_namespace_write_enabled octonomy.Scope.is_global
    octonomy.Scope.row_is_global octonomy.Scope.same_namespace octonomy.Scope.row_matches_scope
    octonomy.Scope.namespace_scope_check octonomy.Prelude.find octonomy.Prelude.any
    octonomy.Catalog.tags_clash octonomy.Catalog.aliases_clash octonomy.Catalog.tag_checks
    octonomy.Catalog.Table.find_row octonomy.Catalog.Table.get_row octonomy.Catalog.Table.save_row
    octonomy.Catalog.Table.write_over octonomy.Store.read_clock
    octonomy.Store.except_integrity_error octonomy.Store.Changes.create_audit_logs
    octonomy.Store.Changes.create_outbox_events octonomy.Services.on_table
switching_off_answers = refl

update_tag-leaves_aliases_example :
    In azure (state_after switching_off).aliases
    × (alias_fits (state_after switching_off).tags azure ≡ false)
update_tag-leaves_aliases_example =
    update_tag-leaves_aliases test_settings ticks context blue
      (record no_patch { is_active = some false }) database (tag_after switching_off)
      (state_after switching_off) switching_off_answers blue-stored refl refl azure (inl refl) refl
      refl

abbrev second_blue : TagData
second_blue = record {
  application_id = none;
  namespace = global_scope;
  name = "Blue again";
  slug = "blue";
  type = "colour";
  description = none;
  parent = none;
  vocabulary = none;
  metadata = empty_object;
  is_active = true;
}

create_tag-conflict_example :
    create_tag test_settings ticks context "t1" second_blue database ≡ err (conflict "slug")
unfolding octonomy.Scope.scope_context octonomy.Scope.guard_namespace_write_enabled
    octonomy.Scope.is_global octonomy.Services.Tags.validate_tag_parent
    octonomy.Services.Tags.validate_tag_vocabulary octonomy.Catalog.tags_clash
    octonomy.Scope.same_namespace
create_tag-conflict_example =
    create_tag-conflict test_settings ticks context "t1" second_blue database blue refl refl refl
      refl (inl refl) refl

abbrev reviving : Result (Tag × Db)
reviving = reactivate_tag test_settings ticks context navy database

reviving_answers : reviving ≡ ok (tag_after reviving, state_after reviving)
unfolding octonomy.Services.Tags.reactivate_tag octonomy.Services.Tags.revive_tag
    octonomy.Services.Tags.locked_vocabulary octonomy.Services.get_in_tenant
    octonomy.Services.Tags.related_tag octonomy.Services.Tags.validate_tag_parent
    octonomy.Services.Tags.validate_tag_vocabulary octonomy.Catalog.Table.update_row
    octonomy.Services.written octonomy.Services.or_conflict octonomy.Store.Changes.record_changes
    octonomy.Scope.scope_context octonomy.Scope.guard_namespace_write_enabled
    octonomy.Scope.is_global octonomy.Scope.row_is_global octonomy.Scope.same_namespace
    octonomy.Scope.row_matches_scope octonomy.Scope.namespace_scope_check octonomy.Prelude.find
    octonomy.Prelude.any octonomy.Catalog.tags_clash octonomy.Catalog.aliases_clash
    octonomy.Catalog.tag_checks octonomy.Catalog.Table.find_row octonomy.Catalog.Table.get_row
    octonomy.Catalog.Table.save_row octonomy.Catalog.Table.write_over octonomy.Store.read_clock
    octonomy.Store.except_integrity_error octonomy.Store.Changes.create_audit_logs
    octonomy.Store.Changes.create_outbox_events octonomy.Services.on_table
reviving_answers = refl

navy-home : (x : Tag) → find_row tag_table 2 database.tags ≡ some x → x.namespace ≡ global_scope
unfolding octonomy.Catalog.Table.find_row octonomy.Prelude.find
navy-home x h = ground arith

reactivate_tag-active_example :
    ((tag_after reviving).is_active ≡ true)
    × (find_row tag_table 2 (state_after reviving).tags ≡ some (tag_after reviving))
    × ((x : Tag)
        → find_row tag_table 2 database.tags ≡ some x
        → x.is_active ≡ false
        → (i : ℕ) → x.vocabulary_id ≡ some i
        → (c : Vocabulary) × (find_row vocabulary_table i database.vocabularies ≡ some c)
          × (c.is_active ≡ true))
reactivate_tag-active_example =
    reactivate_tag-active test_settings ticks context navy database (tag_after reviving)
      (state_after reviving) reviving_answers navy-home

sky-stored : find_row alias_table 11 database.aliases ≡ some sky
unfolding octonomy.Catalog.Table.find_row octonomy.Prelude.find
sky-stored = refl

sky-free :
    any (λ x. not (nat_beq x.id 11) && aliases_clash x (flag_alias true 0 sky)) database.aliases
    ≡ false
unfolding octonomy.Prelude.any octonomy.Catalog.aliases_clash octonomy.Scope.same_namespace
sky-free = refl

reactivate_tag_alias-ok_example :
    (a' : TagAlias) × (v : Db) × (reactivate_tag_alias test_settings ticks context
        (λ n x. x)
        sky
        database
      ≡ ok (a', v))
    × (a'.is_active ≡ true)
    × (find_row alias_table 11 v.aliases ≡ some a')
unfolding octonomy.Scope.scope_context octonomy.Scope.guard_namespace_write_enabled
    octonomy.Scope.is_global
reactivate_tag_alias-ok_example =
    reactivate_tag_alias-ok test_settings ticks context sky blue database database-HasCatalog
      sky-stored refl blue-stored refl sky-free refl refl
