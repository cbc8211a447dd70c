-- ===== src/Assignment/Services.antt =====
-- The services of octonomy/assignments/services.py.
use octonomy.Prelude.{
  ℕ, ◌+◌, String, Bool, true, false, ◌&&◌, ◌||◌, not, Option, List, [], ◌∷◌, map, filter, length,
  ltb, contains, nat_beq, nat_eq, if◌then◌else◌,
}
use octonomy.Errors.{ok, err, validation}
use octonomy.Scope.{Settings, guard_namespace_write_enabled}
use octonomy.Catalog.{Tag}
use octonomy.Resolution.{order_by}
use octonomy.Store.{
  TagAssignment, AuditContext, Db, Source, Tx, ◌>>=◌, ◌>>◌, pure, lift, except_integrity_error,
}
use octonomy.Store.Changes.{assignment_change, record_changes}
use octonomy.Assignment.{
  Resource, of_resource, validate_tag_for_assignment, get_assignable_tags, get_or_create,
  get_existing,
}

-- What `bulk_assign_tags` and `replace_resource_tags` answer.
pub record BulkAssigned : Type 0 where
  pub created : ℕ
  pub existing : ℕ
  pub assignments : List TagAssignment

pub record Replaced : Type 0 where
  pub created : ℕ
  pub removed : ℕ
  pub assignments : List TagAssignment

-- `ordering = ["-assigned_at", "id"]` of the table, which every list of its rows has.
unfoldable pub newest_first : TagAssignment → TagAssignment → Bool
newest_first a b =
    ltb b.assigned_at a.assigned_at || (nat_beq a.assigned_at b.assigned_at && ltb a.id b.id)

-- `TagAssignment.objects.filter(id__in=...).delete()`
unfoldable pub delete_rows : List TagAssignment → Tx ℕ
delete_rows rows db =
    let gone = λ (a : TagAssignment). contains (map (λ b. b.id) rows) a.id in
    ok (
      length (filter gone db.assignments),
      record db { assignments = filter (λ a. not (gone a)) db.assignments },
    )

-- The tags that the resource has.
abbrev pub assigned_tags : Resource → Db → List ℕ
assigned_tags r db = map (λ a. a.tag_id) (filter (of_resource r) db.assignments)

module _ (settings : Settings) (source : Source) (context : Option AuditContext) where
  -- `if created: create_audit_log(...); create_outbox_event(...)`
  unfoldable pub record_created : TagAssignment × Bool → Tx (TagAssignment × Bool)
  record_created (a, false) = pure (a, false)
  record_created (a, true) = do
    record_changes source context (assignment_change "assignment.created" "after" a ∷ [])
    pure (a, true)

  -- The `try` block of `assign_tag`.
  unfoldable pub assign_row : Resource → ℕ → Option String → Tx (TagAssignment × Bool)
  assign_row r tag_id assigned_by = do
    found ← get_or_create source r tag_id assigned_by
    record_created found

  -- `assign_tag`
  unfoldable pub assign_tag : Resource → Bool → Option String → Tag → Tx (TagAssignment × Bool)
  assign_tag r include_global assigned_by t = do
    lift (guard_namespace_write_enabled settings r.namespace)
    lift (validate_tag_for_assignment t r.tenant_id r.application_id r.namespace include_global)
    except_integrity_error (assign_row r t.id assigned_by) (get_existing r t.id)

  -- `get_or_create_assignment`
  unfoldable pub get_or_create_assignment :
      Resource → Option String → Tag → Tx (TagAssignment × Bool)
  get_or_create_assignment r assigned_by t = do
    lift (guard_namespace_write_enabled settings r.namespace)
    lift (validate_tag_for_assignment t r.tenant_id r.application_id r.namespace true)
    except_integrity_error (get_or_create source r t.id assigned_by) (get_existing r t.id)

  -- The removals of a selection: audit rows, events, then the rows themselves.
  unfoldable pub remove_rows : List TagAssignment → Tx ℕ
  remove_rows rows = do
    record_changes source context (map (assignment_change "assignment.removed" "before") rows)
    delete_rows rows

  unfoldable pub remove_selected : (TagAssignment → Bool) → Tx ℕ
  remove_selected selected db =
      remove_rows (order_by newest_first (filter selected db.assignments)) db

  -- `remove_tag_assignment`
  unfoldable pub remove_tag_assignment : Resource → ℕ → Tx ℕ
  remove_tag_assignment r tag_id = do
    lift (guard_namespace_write_enabled settings r.namespace)
    remove_selected (λ a. of_resource r a && nat_beq a.tag_id tag_id)

  -- `bulk_remove_tags`
  unfoldable pub bulk_remove_tags : Resource → List ℕ → Tx ℕ
  bulk_remove_tags r tag_ids = do
    lift (guard_namespace_write_enabled settings r.namespace)
    lift (if ltb settings.max_bulk_tags (length tag_ids) then err (validation "tag_ids") else ok tt)
    remove_selected (λ a. of_resource r a && contains tag_ids a.tag_id)

  -- The loop of `bulk_assign_tags`: each row with whether it was created.
  unfoldable pub assign_each :
      Resource → Option String → List Tag → Tx (List (TagAssignment × Bool))
  assign_each r assigned_by [] = pure []
  assign_each r assigned_by (t ∷ ts) =
      let rest = assign_each r assigned_by ts in
      get_or_create_assignment r assigned_by t >>= λ done. rest >>= λ others. pure (done ∷ others)

  -- The loop of `replace_resource_tags`, with the tags that remain assigned.
  unfoldable pub assign_missing : Resource → Bool → Option String → List ℕ → List Tag → ℕ → Tx ℕ
  assign_missing r include_global assigned_by remaining [] created = pure created
  assign_missing r include_global assigned_by remaining (t ∷ ts) created =
      let rest = assign_missing r include_global assigned_by remaining ts in
      if contains remaining t.id
      then rest created
      else assign_tag r include_global assigned_by t >>= λ done.
          rest (if done.1 then created + 1 else created)

  -- What follows the loading of the tags in `replace_resource_tags`.
  unfoldable pub replace_with : Resource → Bool → Option String → List Tag → Tx Replaced
  replace_with r include_global assigned_by tags = do
    removed ←
        remove_selected (λ a. of_resource r a && not (contains (map (λ t. t.id) tags) a.tag_id))
    created ← λ db. assign_missing r include_global assigned_by (assigned_tags r db) tags 0 db
    λ db. ok (
      record {
        created = created;
        removed = removed;
        assignments = order_by newest_first (filter (of_resource r) db.assignments);
      },
      db,
    )

module _ (settings : Settings) (source : Source) (context : Option AuditContext)
    (tag_before : Tag → Tag → Bool) where
  -- The tags of a request, read from the table.
  unfoldable pub load_tags : Resource → List ℕ → Bool → Tx (List Tag)
  load_tags r tag_ids include_global db =
      lift
        (get_assignable_tags settings tag_before db.tags r.tenant_id r.application_id tag_ids
          r.namespace include_global)
        db

  -- `bulk_assign_tags`
  unfoldable pub bulk_assign_tags : Resource → Bool → Option String → List ℕ → Tx BulkAssigned
  bulk_assign_tags r include_global assigned_by tag_ids = do
    lift (guard_namespace_write_enabled settings r.namespace)
    tags ← load_tags r tag_ids include_global
    done ← assign_each settings source context r assigned_by tags
    let created = filter (λ d. d.1) done
    record_changes source context
        (map (λ d. assignment_change "assignment.created" "after" d.0) created)
    pure (record {
      created = length created;
      existing = length (filter (λ d. not d.1) done);
      assignments = map (λ d. d.0) done;
    })

  -- `replace_resource_tags`
  unfoldable pub replace_resource_tags : Resource → Bool → Option String → List ℕ → Tx Replaced
  replace_resource_tags r include_global assigned_by tag_ids = do
    lift (guard_namespace_write_enabled settings r.namespace)
    tags ← load_tags r tag_ids include_global
    replace_with settings source context r include_global assigned_by tags
