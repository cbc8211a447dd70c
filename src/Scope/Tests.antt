-- ===== src/Scope/Tests.antt =====
-- The scope theorems at concrete scopes and rows.
use octonomy.Prelude.{◌≡◌, ◌≢◌, ◌↔◌, ◌⊎◌, refl, inr, true, none, some}
use mathlib.Core.Bool.{false≢true}
use octonomy.Prelude.Text.{is_blank}
use octonomy.Errors.{ok, err, value_error}
use octonomy.Scope.{
  Namespace, IsScope, global_scope, scope_context, namespace_q, row_matches_scope,
  guard_scope_immutable, ScopePatch, same_namespace, same_namespace_iff,
}
use octonomy.Scope.Laws.{
  partition, scope_context-IsScope, namespace_q_isolation, Keeps, row_matches_scope_iff,
  guard_scope_immutable_iff,
}

abbrev merchant_a : Namespace
merchant_a = partition "merchant" "a"

abbrev merchant_b : Namespace
merchant_b = partition "merchant" "b"

merchant_a-IsScope : IsScope merchant_a
unfolding is_blank
merchant_a-IsScope = inr ("merchant", "a", refl, refl, refl, refl)

merchants_differ : merchant_a ≢ merchant_b
unfolding same_namespace
merchants_differ e = false≢true ((same_namespace_iff merchant_a merchant_b).1 e)

scope_context_reserved : scope_context (some "global") (some "a") ≡ err value_error
unfolding scope_context is_blank
scope_context_reserved = refl

scope_context-IsScope_example : IsScope merchant_a
unfolding scope_context is_blank
scope_context-IsScope_example =
    (scope_context-IsScope (some "merchant") (some "a") merchant_a refl).0

namespace_q_isolation_example : global_scope ≡ global_scope
unfolding namespace_q
namespace_q_isolation_example =
    namespace_q_isolation merchant_a merchant_b global_scope true true merchants_differ refl refl

row_matches_scope_iff_example :
    (row_matches_scope merchant_b merchant_a true ≡ true)
    ↔ ((merchant_b ≡ merchant_a) ⊎ ((true ≡ true) × (merchant_b ≡ global_scope)))
row_matches_scope_iff_example = row_matches_scope_iff merchant_b merchant_a true merchant_a-IsScope

abbrev move_to_b : ScopePatch
move_to_b = record { application_id = none; namespace_type = none; namespace_id = some (some "b") }

guard_scope_immutable_iff_example :
    (guard_scope_immutable merchant_a (some "shop") move_to_b ≡ ok tt)
    ↔ (Unit {0} × Unit {0} × Keeps (some (some "b")) (some "a"))
guard_scope_immutable_iff_example = guard_scope_immutable_iff merchant_a (some "shop") move_to_b
