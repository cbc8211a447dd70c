-- ===== src/Views/Tests.antt =====
-- Two tenants' tags, a deletion that one of them asks for, and a usage count.
use octonomy.Prelude.{
  ℕ, ◌+◌, String, ◌≡◌, ◌≢◌, ◌⊎◌, inl, inr, refl, Bool, true, false, Option, none, some, List, [],
  ◌∷◌, In, is_empty, filter, not, ◌==◌, string_eq, arith,
}
use mathlib.Core.Bool.{false≢true}
use octonomy.Json.{empty_object}
use octonomy.Errors.{Result, ok, err, validation}
use octonomy.Scope.{Settings, Namespace, global_scope}
use octonomy.Request.{Request, not_dict}
use octonomy.Catalog.{Tag}
use octonomy.Store.{Db, Source, TagAssignment}
use octonomy.Services.References.{HasCatalog}
use octonomy.Views.{Answer, no_content, Asked, TagPayload, require_tenant}
use octonomy.Views.Detail.{tag_detail}
use octonomy.Views.Isolation.{tag_detail-isolated}
use octonomy.Views.Listing.{usage_count, countable, usage_count-isolated}

abbrev test_settings : Settings
test_settings = record {
  namespace_write_enabled = false;
  namespace_v2_api_enabled = true;
  max_bulk_tags = 200;
}

abbrev blue : Tag
blue = record {
  id = 1;
  tenant_id = "t1";
  application_id = none;
  namespace = global_scope;
  name = "Blue";
  slug = "blue";
  type = "colour";
  description = none;
  parent_id = none;
  vocabulary_id = none;
  metadata = empty_object;
  is_active = true;
  created_at = 1;
  updated_at = 1;
}

abbrev foreign_blue : Tag
foreign_blue = record blue { id = 2; tenant_id = "t2" }

abbrev database : Db
database = record {
  tags = blue ∷ foreign_blue ∷ [];
  aliases = [];
  vocabularies = [];
  assignments = [];
  audit_logs = [];
  outbox_events = [];
  reads = 0;
  draws = 0;
}

abbrev ticks : Source
ticks = record { now = λ n. 1000 + n; uuid4 = λ n. 100 + n }

database-HasCatalog : HasCatalog database
unfolding octonomy.Scope.scope_context octonomy.Scope.guard_namespace_write_enabled
    octonomy.Scope.is_global octonomy.Scope.row_is_global octonomy.Scope.same_namespace
    octonomy.Scope.row_matches_scope octonomy.Scope.namespace_scope_check octonomy.Prelude.find
    octonomy.Prelude.any octonomy.Catalog.tags_clash octonomy.Catalog.aliases_clash
    octonomy.Catalog.tag_checks octonomy.Catalog.Table.find_row octonomy.Catalog.Table.get_row
    octonomy.Catalog.Table.save_row octonomy.Catalog.Table.write_over octonomy.Store.read_clock
    octonomy.Store.except_integrity_error octonomy.Store.Changes.create_audit_logs
    octonomy.Store.Changes.create_outbox_events octonomy.Services.on_table
    octonomy.Services.References.tag_fits octonomy.Services.References.alias_fits
    octonomy.Services.References.refers octonomy.Services.References.may_refer
    octonomy.Services.References.place_at octonomy.Services.References.active_at
    octonomy.Catalog.vocabularies_clash
database-HasCatalog = record {
  tag_rows = ((((λ e. cc, refl), tt), (tt, tt)), (refl, (refl, tt)));
  alias_rows = (tt, tt);
  vocabulary_rows = (tt, tt);
  tag_references = (refl, (refl, tt));
  alias_references = tt;
}

abbrev delete_request : Request
delete_request = record {
  method = "DELETE";
  authorization = none;
  tenant_id = some "t1";
  namespace_type = none;
  namespace_id = none;
  query_application_id = none;
  include_shared = none;
  include_global = none;
  scope = none;
  url_name = none;
  body = not_dict;
}

abbrev deletion : Asked TagPayload
deletion = record {
  request = delete_request;
  scope_context = global_scope;
  include_global = true;
  global_references = true;
  authorized = none;
  body_type = none;
  body_id = none;
  payload = err (validation "body");
}

abbrev deleting : Result (Answer Tag × Db)
deleting = tag_detail test_settings ticks none deletion 1 database

abbrev state_after : Result (Answer Tag × Db) → Db
state_after (ok done) = done.1
state_after (err raised) = database

deleting_answers : deleting ≡ ok (no_content, state_after deleting)
unfolding octonomy.Views.Detail.tag_detail octonomy.Views.detail_object
    octonomy.Views.require_tenant octonomy.Views.get_or_404 octonomy.Views.within
    octonomy.Views.detail_bounds octonomy.Views.Detail.delete_tag octonomy.Scope.namespace_q
    octonomy.Scope.application_q octonomy.Request.application_filter_params
    octonomy.Request.application_ids_from_request octonomy.Request.add_truthy
    octonomy.Request.body_application_id octonomy.Request.include_shared_param
    octonomy.Services.Tags.deactivate_tag octonomy.Services.Tags.retire_tag
    octonomy.Services.Tags.cascaded octonomy.Services.Tags.guard_each octonomy.Services.Tags.cascade
    octonomy.Services.Tags.cascade_row octonomy.Services.Tags.record_deactivation
    octonomy.Services.Tags.deactivation_body octonomy.Prelude.filter octonomy.Prelude.contains
    octonomy.Catalog.Table.update_row octonomy.Services.written octonomy.Services.or_conflict
    octonomy.Store.Changes.record_changes octonomy.Scope.scope_context
    octonomy.Scope.guard_namespace_write_enabled octonomy.Scope.is_global
    octonomy.Scope.row_is_global octonomy.Scope.same_namespace octonomy.Scope.row_matches_scope
    octonomy.Scope.namespace_scope_check octonomy.Prelude.find octonomy.Prelude.any
    octonomy.Catalog.tags_clash octonomy.Catalog.aliases_clash octonomy.Catalog.tag_checks
    octonomy.Catalog.Table.find_row octonomy.Catalog.Table.get_row octonomy.Catalog.Table.save_row
    octonomy.Catalog.Table.write_over octonomy.Store.read_clock
    octonomy.Store.except_integrity_error octonomy.Store.Changes.create_audit_logs
    octonomy.Store.Changes.create_outbox_events octonomy.Services.on_table
deleting_answers = refl

asked_tenant : require_tenant delete_request ≡ ok "t1"
unfolding octonomy.Views.require_tenant
asked_tenant = refl

other_tenant : foreign_blue.tenant_id ≢ "t1"
other_tenant e = false≢true ((string_eq.beq_iff foreign_blue.tenant_id "t1").1 e)

tag_detail-isolated_example : In foreign_blue (state_after deleting).tags
tag_detail-isolated_example =
    tag_detail-isolated deletion "t1" (inl refl) asked_tenant refl test_settings ticks none 1
      database no_content (state_after deleting) deleting_answers database-HasCatalog foreign_blue
      (inr (inl refl)) (inl other_tenant)

-- The same tag on a blog post of the merchant, and on one of another merchant.
abbrev merchant : String → Namespace
merchant name = record { namespace_type = some "merchant"; namespace_id = some name }

abbrev assignment : ℕ → String → TagAssignment
assignment id name = record {
  id = id;
  tenant_id = "t1";
  application_id = "blog";
  namespace = merchant name;
  tag_id = 1;
  resource_type = "post";
  resource_id = "p1";
  assigned_by = none;
  assigned_at = 1;
}

usage_count-isolated_example :
    let rows = assignment 1 "m1" ∷ assignment 2 "m2" ∷ [] in
    usage_count
      (merchant "m1")
      true
      ("blog" ∷ [])
      true
      (filter (countable (merchant "m1") ("blog" ∷ []) true) rows)
      blue
    ≡ usage_count (merchant "m1") true ("blog" ∷ []) true rows blue
unfolding octonomy.Prelude.filter
usage_count-isolated_example =
    usage_count-isolated (merchant "m1") ("blog" ∷ []) true
      (assignment 1 "m1" ∷ assignment 2 "m2" ∷ []) blue refl
