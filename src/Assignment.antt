-- ===== src/Assignment.antt =====
-- octonomy/assignments/services.py: assigning tags to external resources.
pub mod Services
pub mod Rows
pub mod Inserts
pub mod Steps
pub mod Newest
pub mod Replace
pub mod Removal
pub mod Bulk
mod Tests
use Prim.Native.Char.{Char, code}
use Prim.Native.String.{[] as empty, ◌∷◌ as prepend}
use octonomy.Prelude.{
  ℕ, suc, ◌+◌, String, Bool, true, false, ◌&&◌, ◌||◌, not, Option, none, some, List, [], ◌∷◌, ◌++◌,
  map, filter, any, find, head?, is_empty, is_none, length, ltb, contains, set_add, nat_beq, ◌==◌,
  string_eq, nat_eq, option_eq, if◌then◌else◌,
}
use octonomy.Errors.{
  Result, ok, err, ◌>>=◌, validation, inactive_tag, application_mismatch, integrity_error,
  does_not_exist,
}
use octonomy.Scope.{Settings, Namespace, same_namespace, namespace_scope_check, row_matches_scope}
use octonomy.Catalog.{Tag}
use octonomy.Store.{TagAssignment, Db, Source, Tx, pure}
use octonomy.Resolution.{order_by}

-- The resource of a request, with its exact scope.
pub record Resource : Type 0 where
  pub tenant_id : String
  pub application_id : String
  pub namespace : Namespace
  pub resource_type : String
  pub resource_id : String

-- The filter of `for_exact_scope` and the columns of a resource.
unfoldable pub of_resource : Resource → TagAssignment → Bool
of_resource r a =
    a.tenant_id == r.tenant_id
    && a.application_id == r.application_id
    && same_namespace a.namespace r.namespace
    && a.resource_type == r.resource_type
    && a.resource_id == r.resource_id

-- `validate_tag_for_assignment`
unfoldable pub validate_tag_for_assignment :
    Tag → String → String → Namespace → Bool → Result (Unit {0})
validate_tag_for_assignment t tenant_id application_id s include_global =
    if not (t.tenant_id == tenant_id)
    then err (validation "tag_id")
    else if not t.is_active
    then err inactive_tag
    else if not (is_none t.application_id) && not (t.application_id == some application_id)
    then err (application_mismatch "application_id")
    else if not (row_matches_scope t.namespace s include_global)
    then err (validation "tag_id")
    else ok tt

-- The validation loop of `get_assignable_tags`.
unfoldable pub validate_all : List Tag → String → String → Namespace → Bool → Result (Unit {0})
unfolding validate_tag_for_assignment
validate_all [] tenant_id application_id s include_global = ok tt
validate_all (t ∷ ts) tenant_id application_id s include_global =
    validate_tag_for_assignment t tenant_id application_id s include_global >>= λ done.
    validate_all ts tenant_id application_id s include_global

-- `tag_id in tags_by_id` with a tag in the caller's scope.
unfoldable pub is_known : List Tag → Namespace → Bool → ℕ → Bool
is_known tags s include_global tag_id =
    any (λ t. nat_beq t.id tag_id && row_matches_scope t.namespace s include_global) tags

-- `get_assignable_tags`, for the tags of the table and the order of its rows.
unfoldable pub get_assignable_tags :
    Settings
    → (Tag → Tag → Bool)
    → List Tag
    → String
    → String
    → List ℕ
    → Namespace
    → Bool
    → Result (List Tag)
get_assignable_tags settings tag_before tags tenant_id application_id tag_ids s include_global =
    let found =
      order_by tag_before (filter (λ t. t.tenant_id == tenant_id && contains tag_ids t.id) tags) in
    if ltb settings.max_bulk_tags (length tag_ids)
    then err (validation "tag_ids")
    else if any (λ i. not (is_known found s include_global i)) tag_ids
    then err (validation "tag_ids")
    else validate_all found tenant_id application_id s include_global >>= λ done. ok found

-- `[a-z0-9_-]` of the check constraint on resource types.
is_slug_code : ℕ → Bool
is_slug_code c =
    not (ltb c b'a') && not (ltb b'z' c)
    || not (ltb c b'0') && not (ltb b'9' c)
    || nat_beq c b'_'
    || nat_beq c b'-'

all_slug_codes : String → Bool
unfolding is_slug_code
all_slug_codes empty = true
all_slug_codes (prepend c s) = is_slug_code (code c) && all_slug_codes s

-- `^[a-z][a-z0-9_-]*$`
unfoldable pub is_resource_type : String → Bool
unfolding all_slug_codes
is_resource_type empty = false
is_resource_type (prepend c s) =
    not (ltb (code c) b'a') && not (ltb b'z' (code c)) && all_slug_codes s

-- The check constraints of the table.
unfoldable pub row_checks : TagAssignment → Bool
row_checks a =
    namespace_scope_check a.namespace (some a.application_id)
    && is_resource_type a.resource_type
    && not (a.resource_id == "")

-- The row that `get_or_create` looks for. The unique constraints leave one at most.
unfoldable pub matching : Resource → ℕ → List TagAssignment → Option TagAssignment
matching r tag_id rows = find (λ a. of_resource r a && nat_beq a.tag_id tag_id) rows

module _ (source : Source) where
  -- The row that `get_or_create` creates.
  abbrev pub new_assignment : Resource → ℕ → Option String → Db → TagAssignment
  new_assignment r tag_id assigned_by db = record {
    id = source.uuid4 db.draws;
    tenant_id = r.tenant_id;
    application_id = r.application_id;
    namespace = r.namespace;
    tag_id = tag_id;
    resource_type = r.resource_type;
    resource_id = r.resource_id;
    assigned_by = assigned_by;
    assigned_at = source.now db.reads;
  }

  unfoldable pub create_assignment : Resource → ℕ → Option String → Tx (TagAssignment × Bool)
  create_assignment r tag_id assigned_by db =
      let row = new_assignment r tag_id assigned_by db in
      if row_checks row
      then ok (
        (row, true),
        record db {
          assignments = db.assignments ++ row ∷ [];
          reads = suc db.reads;
          draws = suc db.draws;
        },
      )
      else err integrity_error

  -- `TagAssignment.objects.get_or_create(**lookup, defaults=...)`
  unfoldable pub get_or_create : Resource → ℕ → Option String → Tx (TagAssignment × Bool)
  get_or_create r tag_id assigned_by db = elim (matching r tag_id db.assignments) [
    | none ↦ create_assignment r tag_id assigned_by db
    | some a ↦ ok ((a, false), db)
  ]

-- `TagAssignment.objects.get(**lookup), False`
unfoldable pub get_existing : Resource → ℕ → Tx (TagAssignment × Bool)
get_existing r tag_id db = elim (matching r tag_id db.assignments) [
  | none ↦ err does_not_exist
  | some a ↦ ok ((a, false), db)
]
