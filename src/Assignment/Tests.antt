-- ===== src/Assignment/Tests.antt =====
-- A resource whose tags are replaced.
use octonomy.Prelude.{
  ℕ, ◌+◌, ltb, ◌≡◌, inl, inr, refl, Bool, true, false, String, Option, none, some, List, [], ◌∷◌,
  arith, ◌&&◌, contains, nat_eq,
}
use octonomy.Json.{empty_object}
use octonomy.Errors.{Result, ok, err}
use octonomy.Scope.{Settings, global_scope}
use octonomy.Catalog.{Tag}
use octonomy.Store.{TagAssignment, AuditContext, Db, Source, Tx}
use octonomy.Assignment.{Resource, of_resource}
use octonomy.Assignment.Services.{
  Replaced, BulkAssigned, replace_resource_tags, bulk_remove_tags, bulk_assign_tags,
}
use octonomy.Assignment.Rows.{DistinctIds}
use octonomy.Assignment.Removal.{IsRemoved, bulk_remove_tags-IsRemoved}
use octonomy.Assignment.Bulk.{IsBulkAssigned, bulk_assign_tags-IsBulkAssigned}
use octonomy.Assignment.Replace.{IsReplaced, replace_resource_tags-IsReplaced}

abbrev test_settings : Settings
test_settings = record {
  namespace_write_enabled = false;
  namespace_v2_api_enabled = true;
  max_bulk_tags = 200;
}

abbrev blue : Tag
blue = record {
  id = 1;
  tenant_id = "t1";
  application_id = none;
  namespace = global_scope;
  name = "Blue";
  slug = "blue";
  type = "colour";
  description = none;
  parent_id = none;
  vocabulary_id = none;
  metadata = empty_object;
  is_active = true;
  created_at = 1;
  updated_at = 1;
}

abbrev green : Tag
green = record blue { id = 2; name = "Green"; slug = "green" }

abbrev post_1 : Resource
post_1 = record {
  tenant_id = "t1";
  application_id = "shop";
  namespace = global_scope;
  resource_type = "post";
  resource_id = "p1";
}

abbrev blue_post : TagAssignment
blue_post = record {
  id = 11;
  tenant_id = "t1";
  application_id = "shop";
  namespace = global_scope;
  tag_id = 1;
  resource_type = "post";
  resource_id = "p1";
  assigned_by = none;
  assigned_at = 5;
}

abbrev other_post : TagAssignment
other_post = record blue_post { id = 12; resource_id = "p2" }

abbrev green_post : TagAssignment
green_post = record blue_post { id = 102; tag_id = 2; assigned_at = 1002 }

abbrev database : Db
database = record {
  tags = blue ∷ green ∷ [];
  aliases = [];
  vocabularies = [];
  assignments = blue_post ∷ other_post ∷ [];
  audit_logs = [];
  outbox_events = [];
  reads = 0;
  draws = 0;
}

abbrev ticks : Source
ticks = record { now = λ n. 1000 + n; uuid4 = λ n. 100 + n }

abbrev context : Option AuditContext
context = some (record { actor_id = some "editor"; request_id = none; operation_id = 9 })

abbrev by_tag_id : Tag → Tag → Bool
by_tag_id t u = ltb t.id u.id

abbrev outcome : Result (Replaced × Db) → Option Replaced
outcome (ok done) = some done.0
outcome (err raised) = none

abbrev table_after : Result (Replaced × Db) → Db
table_after (ok done) = done.1
table_after (err raised) = database

abbrev replacing : Result (Replaced × Db)
replacing =
    replace_resource_tags test_settings ticks context by_tag_id post_1 true none (2 ∷ []) database

abbrev answer : Replaced
answer = record { created = 1; removed = 1; assignments = green_post ∷ [] }

replacing_answers : replacing ≡ ok (answer, table_after replacing)
unfolding replace_resource_tags octonomy.Scope.guard_namespace_write_enabled
    octonomy.Assignment.Services.load_tags octonomy.Assignment.get_assignable_tags
    octonomy.Prelude.any octonomy.Assignment.is_known octonomy.Resolution.order_by
    octonomy.Prelude.filter octonomy.Prelude.contains octonomy.Scope.row_matches_scope
    octonomy.Assignment.validate_all octonomy.Assignment.Services.replace_with
    octonomy.Assignment.Services.remove_selected octonomy.Assignment.Services.remove_rows
    octonomy.Store.Changes.record_changes octonomy.Store.Changes.create_audit_logs
    octonomy.Assignment.of_resource octonomy.Store.Changes.create_outbox_events
    octonomy.Assignment.Services.assign_missing octonomy.Assignment.Services.assign_row
    octonomy.Assignment.Services.assign_tag octonomy.Assignment.Services.delete_rows
    octonomy.Assignment.Services.newest_first octonomy.Resolution.insert_by
    octonomy.Assignment.Services.record_created octonomy.Assignment.create_assignment
    octonomy.Assignment.get_or_create octonomy.Assignment.is_resource_type
    octonomy.Assignment.matching octonomy.Assignment.row_checks
    octonomy.Assignment.validate_tag_for_assignment octonomy.Prelude.find octonomy.Scope.is_global
    octonomy.Scope.namespace_scope_check octonomy.Scope.row_is_global octonomy.Scope.same_namespace
    octonomy.Store.Changes.assignment_change octonomy.Store.except_integrity_error
replacing_answers = refl

database-DistinctIds : DistinctIds database.assignments
database-DistinctIds = ((λ e. cc, tt), (tt, tt))

replace_resource_tags-IsReplaced_example :
    IsReplaced post_1 (2 ∷ []) database.assignments (table_after replacing) answer
replace_resource_tags-IsReplaced_example =
    replace_resource_tags-IsReplaced test_settings ticks context by_tag_id post_1 true none (2 ∷ [])
      database answer (table_after replacing) database-DistinctIds replacing_answers

-- The same resource loses a tag, and gains one.
abbrev db_after : {A : Type 0} → Result (A × Db) → Db
db_after (ok done) = done.1
db_after (err raised) = database

abbrev editor : AuditContext
editor = record { actor_id = some "editor"; request_id = none; operation_id = 9 }

abbrev later_post : TagAssignment
later_post = record blue_post { id = 13; tag_id = 2; assigned_at = 7 }

abbrev two_tags : Db
two_tags = record database { assignments = blue_post ∷ other_post ∷ later_post ∷ [] }

two_tags-DistinctIds : DistinctIds two_tags.assignments
two_tags-DistinctIds = ((λ e. cc, (λ e. cc, tt)), ((λ e. cc, tt), (tt, tt)))

abbrev removing : Result (ℕ × Db)
removing = bulk_remove_tags test_settings ticks (some editor) post_1 (1 ∷ 2 ∷ []) two_tags

removing_answers : removing ≡ ok (2, db_after removing)
unfolding bulk_remove_tags octonomy.Scope.guard_namespace_write_enabled
    octonomy.Assignment.Services.load_tags octonomy.Assignment.get_assignable_tags
    octonomy.Prelude.any octonomy.Assignment.is_known octonomy.Resolution.order_by
    octonomy.Prelude.filter octonomy.Prelude.contains octonomy.Scope.row_matches_scope
    octonomy.Assignment.validate_all octonomy.Assignment.Services.replace_with
    octonomy.Assignment.Services.remove_selected octonomy.Assignment.Services.remove_rows
    octonomy.Store.Changes.record_changes octonomy.Store.Changes.create_audit_logs
    octonomy.Assignment.of_resource octonomy.Store.Changes.create_outbox_events
    octonomy.Assignment.Services.assign_missing octonomy.Assignment.Services.assign_row
    octonomy.Assignment.Services.assign_tag octonomy.Assignment.Services.delete_rows
    octonomy.Assignment.Services.newest_first octonomy.Resolution.insert_by
    octonomy.Assignment.Services.record_created octonomy.Assignment.create_assignment
    octonomy.Assignment.get_or_create octonomy.Assignment.is_resource_type
    octonomy.Assignment.matching octonomy.Assignment.row_checks
    octonomy.Assignment.validate_tag_for_assignment octonomy.Prelude.find octonomy.Scope.is_global
    octonomy.Scope.namespace_scope_check octonomy.Scope.row_is_global octonomy.Scope.same_namespace
    octonomy.Store.Changes.assignment_change octonomy.Store.except_integrity_error
removing_answers = refl

bulk_remove_tags-IsRemoved_example :
    IsRemoved
      (λ a. of_resource post_1 a && contains (1 ∷ 2 ∷ []) a.tag_id)
      two_tags
      (db_after removing)
      2
bulk_remove_tags-IsRemoved_example =
    bulk_remove_tags-IsRemoved test_settings ticks editor post_1 (1 ∷ 2 ∷ []) two_tags 2
      (db_after removing) two_tags-DistinctIds removing_answers

abbrev assigning : Result (BulkAssigned × Db)
assigning =
    bulk_assign_tags test_settings ticks context by_tag_id post_1 true none (1 ∷ 2 ∷ []) database

abbrev assigned : BulkAssigned
assigned = record {
  created = 1;
  existing = 1;
  assignments = blue_post ∷ (record green_post { id = 100; assigned_at = 1000 }) ∷ [];
}

assigning_answers : assigning ≡ ok (assigned, db_after assigning)
unfolding bulk_assign_tags octonomy.Assignment.Services.assign_each
    octonomy.Assignment.Services.get_or_create_assignment
    octonomy.Scope.guard_namespace_write_enabled octonomy.Assignment.Services.load_tags
    octonomy.Assignment.get_assignable_tags octonomy.Prelude.any octonomy.Assignment.is_known
    octonomy.Resolution.order_by octonomy.Prelude.filter octonomy.Prelude.contains
    octonomy.Scope.row_matches_scope octonomy.Assignment.validate_all
    octonomy.Assignment.Services.replace_with octonomy.Assignment.Services.remove_selected
    octonomy.Assignment.Services.remove_rows octonomy.Store.Changes.record_changes
    octonomy.Store.Changes.create_audit_logs octonomy.Assignment.of_resource
    octonomy.Store.Changes.create_outbox_events octonomy.Assignment.Services.assign_missing
    octonomy.Assignment.Services.assign_row octonomy.Assignment.Services.assign_tag
    octonomy.Assignment.Services.delete_rows octonomy.Assignment.Services.newest_first
    octonomy.Resolution.insert_by octonomy.Assignment.Services.record_created
    octonomy.Assignment.create_assignment octonomy.Assignment.get_or_create
    octonomy.Assignment.is_resource_type octonomy.Assignment.matching octonomy.Assignment.row_checks
    octonomy.Assignment.validate_tag_for_assignment octonomy.Prelude.find octonomy.Scope.is_global
    octonomy.Scope.namespace_scope_check octonomy.Scope.row_is_global octonomy.Scope.same_namespace
    octonomy.Store.Changes.assignment_change octonomy.Store.except_integrity_error
assigning_answers = refl

bulk_assign_tags-IsBulkAssigned_example :
    IsBulkAssigned post_1 (1 ∷ 2 ∷ []) database (db_after assigning) assigned
bulk_assign_tags-IsBulkAssigned_example =
    bulk_assign_tags-IsBulkAssigned test_settings ticks context by_tag_id post_1 true none
      (1 ∷ 2 ∷ []) database assigned (db_after assigning) assigning_answers
