-- ===== src/Scope/Laws.antt =====
-- What ScopeContext, the namespace filters and the scope guards of the core promise.
use text.Mathlib.TextEquality.{eq_iff}
use octonomy.Prelude.{
  String, ◌≡◌, ◌≢◌, ◌↔◌, ◌⊎◌, inl, inr, refl, Bool, true, false, Option, none, some, is_some, ◌==◌,
  string_eq, option_eq, arith, option_beq_iff, Bool-cases,
}
use octonomy.Prelude.Text.{is_blank}
use octonomy.Errors.{ok}
use octonomy.Scope.{
  Namespace, IsScope, global_scope, is_global, scope_context, namespace_q, row_matches_scope,
  guard_scope_immutable, ScopePatch, namespace_scope_check, reserved_global, field_changed,
}

abbrev pub partition : String → String → Namespace
partition t i = record { namespace_type = some t; namespace_id = some i }

pub scope_context_cases :
    (t i : String)
    → (s : Namespace) → scope_context (some t) (some i) ≡ ok s
    → (s ≡ partition t i)
      × (is_blank t ≡ false)
      × ((t == reserved_global) ≡ false)
      × (is_blank i ≡ false)
unfolding scope_context
scope_context_cases t i s h = ground arith

-- A ScopeContext that is constructed holds exactly the two values it was given, and is global or
-- a partition whose type is neither blank nor reserved and whose id is not blank.
pub scope_context-IsScope :
    (t i : Option String) (s : Namespace)
    → scope_context t i ≡ ok s
    → IsScope s × (s ≡ record { namespace_type = t; namespace_id = i })
unfolding scope_context
scope_context-IsScope none none s h = (inl (cc), cc)
scope_context-IsScope none (some i) s h = cc
scope_context-IsScope (some t) none s h = cc
scope_context-IsScope (some t) (some i) s h =
    let (e, bt, rt, bi) = scope_context_cases t i s h in (inr (t, i, e, bt, rt, bi), e)

-- Every such value is constructed: its own two fields give it back.
pub scope_context_complete :
    (s : Namespace) → IsScope s → scope_context s.namespace_type s.namespace_id ≡ ok s
unfolding scope_context
scope_context_complete s (inl e) = rw e
scope_context_complete s (inr (t, i, e, bt, rt, bi)) = rw e (ground arith)

-- The query and the check on a loaded row agree, on every row and for every scope.
pub namespace_q-eq-row_matches_scope :
    (s row : Namespace) (include_global : Bool)
    → namespace_q s include_global row ≡ row_matches_scope row s include_global
unfolding namespace_q row_matches_scope
namespace_q-eq-row_matches_scope s row include_global = ground arith

-- What a filter lets through is global, or lies in the very partition of the request.
pub row_matches_scope_sound :
    (row s : Namespace) (include_global : Bool)
    → row_matches_scope row s include_global ≡ true
    → (row ≡ global_scope) ⊎ (row ≡ s)
unfolding row_matches_scope
row_matches_scope_sound row s g h = ground (
  arith,
  option_beq_iff row.namespace_type s.namespace_type,
  option_beq_iff row.namespace_id s.namespace_id,
)

-- A row that two different scopes both select is global.
pub namespace_q_isolation :
    (s t row : Namespace) (g g' : Bool)
    → s ≢ t
    → namespace_q s g row ≡ true
    → namespace_q t g' row ≡ true
    → row ≡ global_scope
namespace_q_isolation s t row g g' ne h h' =
    go (row_matches_scope_sound row s g (rw (← namespace_q-eq-row_matches_scope s row g) h))
      (row_matches_scope_sound row t g' (rw (← namespace_q-eq-row_matches_scope t row g') h'))
  where
    go : (row ≡ global_scope) ⊎ (row ≡ s) → (row ≡ global_scope) ⊎ (row ≡ t) → row ≡ global_scope
    go (inl e) _ = e
    go (inr e) (inl e') = e'
    go (inr e) (inr e') = absurd (ne (cc))

-- For a well-formed scope: a row matches it exactly when it lies in that very scope, or is
-- global while global rows are asked for.
pub row_matches_scope_iff :
    (row s : Namespace) (g : Bool)
    → IsScope s
    → (row_matches_scope row s g ≡ true) ↔ ((row ≡ s) ⊎ ((g ≡ true) × (row ≡ global_scope)))
unfolding row_matches_scope
row_matches_scope_iff row s g w = (forward w, backward)
  where
    forward :
        IsScope s
        → row_matches_scope row s g ≡ true
        → (row ≡ s) ⊎ ((g ≡ true) × (row ≡ global_scope))
    forward (inl e) h = inl (ground arith)
    forward (inr (t, i, e, bt, rt, bi)) h = ground (
      arith,
      option_beq_iff row.namespace_type s.namespace_type,
      option_beq_iff row.namespace_id s.namespace_id,
    )

    backward : (row ≡ s) ⊎ ((g ≡ true) × (row ≡ global_scope)) → row_matches_scope row s g ≡ true
    backward (inl e) = ground (
      arith,
      option_beq_iff row.namespace_type s.namespace_type,
      option_beq_iff row.namespace_id s.namespace_id,
    )
    backward (inr (e, e')) = ground (
      arith,
      option_beq_iff row.namespace_type s.namespace_type,
      option_beq_iff row.namespace_id s.namespace_id,
    )

blank_of_empty : (t : String) → is_blank t ≡ false → (t == "") ≡ false
unfolding is_blank
blank_of_empty t h = elim (Bool-cases (t == "")) [
  | inl e ↦ let blank : is_blank t ≡ true = rw ((eq_iff t "").0 e) in cc
  | inr e ↦ e
]

-- A row written under a constructed scope passes the table's check constraint, if it has an
-- application or is global.
pub scope_context-scope_check :
    (s : Namespace) (application_id : Option String)
    → IsScope s
    → (is_global s ≡ true) ⊎ (is_some application_id ≡ true)
    → namespace_scope_check s application_id ≡ true
unfolding namespace_scope_check is_global
scope_context-scope_check s a (inl e) h = ground arith
scope_context-scope_check s a (inr (t, i, e, bt, rt, bi)) h =
    ground (arith, blank_of_empty t bt, blank_of_empty i bi)

-- A payload leaves a scope field alone: it does not name it, or names the row's own value.
abbrev pub Keeps : Option (Option String) → Option String → Type 0
Keeps none current = Unit
Keeps (some value) current = value ≡ current

field_changed_lem :
    (value : Option (Option String)) (current : Option String)
    → (field_changed value current ≡ false) ↔ Keeps value current
unfolding field_changed
field_changed_lem none current = (λ _. tt, λ _. refl)
field_changed_lem (some value) current = (
  λ h. ground (arith, option_beq_iff value current),
  λ h. ground (arith, option_beq_iff value current),
)

guard_scope_immutable_tests :
    (row : Namespace) (application_id : Option String) (patch : ScopePatch)
    → (guard_scope_immutable row application_id patch ≡ ok tt) ↔ (
        (field_changed patch.application_id application_id ≡ false)
        × (field_changed patch.namespace_type row.namespace_type ≡ false)
        × (field_changed patch.namespace_id row.namespace_id ≡ false))
unfolding guard_scope_immutable
guard_scope_immutable_tests row a patch = (λ h. ground arith, λ h. ground arith)

-- An update passes the guard exactly when each scope field that its payload names has the row's
-- own value.
pub guard_scope_immutable_iff :
    (row : Namespace) (application_id : Option String) (patch : ScopePatch)
    → (guard_scope_immutable row application_id patch ≡ ok tt) ↔ (
        Keeps patch.application_id application_id
        × Keeps patch.namespace_type row.namespace_type
        × Keeps patch.namespace_id row.namespace_id)
guard_scope_immutable_iff row a patch = (
  λ h.
      let (ca, ct, ci) = (guard_scope_immutable_tests row a patch).0 h in
      (
        (field_changed_lem patch.application_id a).0 ca,
        (field_changed_lem patch.namespace_type row.namespace_type).0 ct,
        (field_changed_lem patch.namespace_id row.namespace_id).0 ci,
      ),
  λ (ka, kt, ki). (guard_scope_immutable_tests row a patch).1 (
    (field_changed_lem patch.application_id a).1 ka,
    (field_changed_lem patch.namespace_type row.namespace_type).1 kt,
    (field_changed_lem patch.namespace_id row.namespace_id).1 ki,
  ),
)
