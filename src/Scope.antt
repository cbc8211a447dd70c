-- ===== src/Scope.antt =====
-- octonomy/core/auth.py (ScopeContext and the write kill-switch), octonomy/core/models.py
-- (NamespaceScopedModel) and the scope helpers of octonomy/core/selectors.py.
pub mod Laws
mod Tests
use octonomy.Prelude.{
  ℕ, String, ◌≡◌, ◌⊎◌, ◌↔◌, arith, Bool, true, false, ◌&&◌, ◌||◌, not, Option, none, some, List, [],
  ◌∷◌, ◌++◌, filter, contains, Eq, option_beq_iff, is_none, is_some, is_empty, ◌==◌, string_eq,
  option_eq, if◌then◌else◌,
}
use octonomy.Prelude.Text.{is_blank}
use octonomy.Errors.{
  Result, ok, err, ◌>>=◌, ◌>>◌, value_error, validation, namespaced_writes_disabled,
  scope_immutable,
}

-- The deployment's settings that the core reads.
pub record Settings : Type 0 where
  pub namespace_write_enabled : Bool
  pub namespace_v2_api_enabled : Bool
  pub max_bulk_tags : ℕ

abbrev pub reserved_global : String
reserved_global = "global"

-- The namespace columns of a row, and the namespace of a request: both null, or a partition.
pub record Namespace : Type 0 where
  pub namespace_type : Option String
  pub namespace_id : Option String

abbrev pub global_scope : Namespace
global_scope = record { namespace_type = none; namespace_id = none }

unfoldable pub is_global : Namespace → Bool
is_global s = is_none s.namespace_type

-- `ScopeContext(namespace_type=..., namespace_id=...)` with its `__post_init__`.
unfoldable pub scope_context : Option String → Option String → Result Namespace
scope_context none none = ok global_scope
scope_context none (some i) = err value_error
scope_context (some t) none = err value_error
scope_context (some t) (some i) =
    if is_blank t
    then err value_error
    else if t == reserved_global
    then err value_error
    else if is_blank i
    then err value_error
    else ok (record { namespace_type = some t; namespace_id = some i })

-- What a constructed ScopeContext satisfies: global, or a type and an id that name a partition.
abbrev pub IsScope : Namespace → Type 0
IsScope s =
    (s ≡ global_scope)
    ⊎ ((t : String) × (i : String) × (s ≡ record { namespace_type = some t; namespace_id = some i })
        × (is_blank t ≡ false)
        × ((t == reserved_global) ≡ false)
        × (is_blank i ≡ false))

-- `guard_namespace_write_enabled`
unfoldable pub guard_namespace_write_enabled : Settings → Namespace → Result (Unit {0})
unfolding is_global
guard_namespace_write_enabled settings s =
    if is_global s
    then ok tt
    else if settings.namespace_write_enabled
    then ok tt
    else err namespaced_writes_disabled

-- `namespace_scope_check`, the check constraint of every namespaced table, on a row's namespace
-- and its application.
unfoldable pub namespace_scope_check : Namespace → Option String → Bool
namespace_scope_check s application_id =
    (is_none s.namespace_type && is_none s.namespace_id)
    || (is_some s.namespace_type
        && is_some s.namespace_id
        && is_some application_id
        && not (s.namespace_type == some "")
        && not (s.namespace_id == some "")
        && not (s.namespace_type == some reserved_global))

unfoldable pub row_is_global : Namespace → Bool
row_is_global row = is_none row.namespace_type && is_none row.namespace_id

unfoldable pub same_namespace : Namespace → Namespace → Bool
same_namespace row s = row.namespace_type == s.namespace_type && row.namespace_id == s.namespace_id

pub same_namespace_iff : (a b : Namespace) → (same_namespace a b ≡ true) ↔ (a ≡ b)
unfolding same_namespace
same_namespace_iff a b = (
  λ h. ground (
    arith,
    option_beq_iff a.namespace_type b.namespace_type,
    option_beq_iff a.namespace_id b.namespace_id,
  ),
  λ h. ground (
    arith,
    option_beq_iff a.namespace_type b.namespace_type,
    option_beq_iff a.namespace_id b.namespace_id,
  ),
)

-- The equality of the frozen dataclass.
instance abbrev pub namespace_eq : Eq Namespace
namespace_eq = record { beq = same_namespace; beq_iff = same_namespace_iff }

-- `namespace_q` as the condition that it puts on a row, SQL's NULL read as no match: a filter by
-- a null value is an IS NULL test.
unfoldable pub namespace_q : Namespace → Bool → Namespace → Bool
unfolding is_global row_is_global same_namespace
namespace_q s include_global row =
    if is_global s
    then row_is_global row
    else if include_global
    then same_namespace row s || row_is_global row
    else same_namespace row s

-- `row_matches_scope`, the same question asked of a loaded row.
unfoldable pub row_matches_scope : Namespace → Namespace → Bool → Bool
unfolding is_global row_is_global same_namespace
row_matches_scope row s include_global =
    if is_global s
    then row_is_global row
    else if same_namespace row s
    then true
    else include_global && row_is_global row

-- `apply_application_filter` as the condition that it puts on a row's application. `none` is the
-- unrestricted caller.
unfoldable pub application_q : Option (List String) → Bool → Option String → Bool
application_q none include_shared application_id = true
application_q (some ids) include_shared none = include_shared
application_q (some ids) include_shared (some a) = contains (filter (λ i. not (i == "")) ids) a

-- The scope fields of an update payload: an absent key is `none`, a null value `some none`.
pub record ScopePatch : Type 0 where
  pub application_id : Option (Option String)
  pub namespace_type : Option (Option String)
  pub namespace_id : Option (Option String)

abbrev no_patch : ScopePatch
no_patch = record { application_id = none; namespace_type = none; namespace_id = none }

-- `field in data and data[field] != getattr(instance, field)`
field_changed : Option (Option String) → Option String → Bool
field_changed none current = false
field_changed (some value) current = not (value == current)

-- `scope_changed_fields`
unfoldable pub scope_changed_fields : Namespace → Option String → ScopePatch → List String
unfolding field_changed
scope_changed_fields row application_id patch =
    (if field_changed patch.application_id application_id then "application_id" ∷ [] else [])
    ++ (if field_changed patch.namespace_type row.namespace_type then "namespace_type" ∷ [] else [])
    ++ (if field_changed patch.namespace_id row.namespace_id then "namespace_id" ∷ [] else [])

-- `guard_scope_immutable`
unfoldable pub guard_scope_immutable : Namespace → Option String → ScopePatch → Result (Unit {0})
unfolding scope_changed_fields
guard_scope_immutable row application_id patch =
    let changed = scope_changed_fields row application_id patch in
    if is_empty changed then ok tt else err (scope_immutable changed)
