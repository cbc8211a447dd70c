-- ===== src/Permission/Targets.antt =====
-- The intersection of the authorized scopes of octonomy/core/auth.py, and the write gate.
use octonomy.Prelude.{
  String, ◌≡◌, ◌↔◌, ◌⊎◌, inl, inr, refl, Bool, true, ◌&&◌, Option, none, some, List, [], ◌∷◌, all,
  map, contains, contains-filter, string_eq, option_eq, arith, Bool-cases,
}
use octonomy.Errors.{ok}
use octonomy.Scope.{Settings, Namespace, is_global, namespace_eq}
use octonomy.Request.{Request, safe_methods}
use octonomy.Grants.{Grant, some_grant_authorizes, authorized_scope_contexts}
use octonomy.Permission.{
  enforce_namespace_write_gate, application_targets, authorized_everywhere, intersection,
}

-- Every application that a request names is authorized for the scope, tenant and API scope.
abbrev pub everywhere : List Grant → String → List (Option String) → Namespace → String → Bool
everywhere grants tenant_id targets s required =
    all (λ a. some_grant_authorizes grants tenant_id a s required) targets

pub contains-authorized :
    (grants : List Grant) (tenant_id : String) (a : Option String) (requested : List Namespace)
    (required : String) (s : Namespace)
    → contains (authorized_scope_contexts grants tenant_id a requested required) s
      ≡ (some_grant_authorizes grants tenant_id a s required && contains requested s)
contains-authorized grants t a requested r s =
    unfold authorized_scope_contexts in
    contains-filter (λ s'. some_grant_authorizes grants t a s' r) requested s

pub all-contains :
    (grants : List Grant) (tenant_id : String) (targets : List (Option String))
    (requested : List Namespace) (required : String) (s : Namespace)
    → contains requested s ≡ true
    → all
        (λ ss. contains ss s)
        (map (λ a. authorized_scope_contexts grants tenant_id a requested required) targets)
      ≡ everywhere grants tenant_id targets s required
unfolding all
all-contains grants t [] requested r s h = refl
all-contains grants t (a ∷ rest) requested r s h = ground (
  arith,
  contains-authorized grants t a requested r s,
  all-contains grants t rest requested r s h,
)

-- The intersection of the authorized sets holds a scope exactly when it was requested and every
-- application that the request names is authorized for it.
pub contains-authorized_everywhere :
    (grants : List Grant) (tenant_id : String) (a : Option String) (targets : List (Option String))
    (requested : List Namespace) (required : String) (s : Namespace)
    → contains (authorized_everywhere grants tenant_id (a ∷ targets) requested required) s
      ≡ (contains requested s && everywhere grants tenant_id (a ∷ targets) s required)
contains-authorized_everywhere grants t a targets requested r s =
    elim (Bool-cases (contains requested s)) [
      | inl h ↦
          unfold authorized_everywhere intersection all in
          ground (
            arith,
            contains-filter
                (λ s'.
                  all (λ ss. contains ss s')
                    (map (λ b. authorized_scope_contexts grants t b requested r) targets))
                (authorized_scope_contexts grants t a requested r) s,
            contains-authorized grants t a requested r s,
            all-contains grants t targets requested r s h,
          )
      | inr h ↦
          unfold authorized_everywhere intersection all in
          ground (
            arith,
            contains-filter
                (λ s'.
                  all (λ ss. contains ss s')
                    (map (λ b. authorized_scope_contexts grants t b requested r) targets))
                (authorized_scope_contexts grants t a requested r) s,
            contains-authorized grants t a requested r s,
          )
    ]

-- A namespaced request that would write needs the kill-switch to be on.
abbrev pub IsWritable : Settings → Request → Namespace → Type 0
IsWritable settings r s =
    (contains safe_methods r.method ≡ true)
    ⊎ (is_global s ≡ true)
    ⊎ (settings.namespace_write_enabled ≡ true)

pub write_gate_iff :
    (settings : Settings) (r : Request) (s : Namespace)
    → (enforce_namespace_write_gate settings r s ≡ ok tt) ↔ IsWritable settings r s
unfolding enforce_namespace_write_gate
write_gate_iff settings r s = (λ h. ground arith, λ h. ground arith)

pub contains-targets :
    (grants : List Grant) (tenant_id : String) (ids : List String) (requested : List Namespace)
    (required : String) (s : Namespace)
    → contains
        (authorized_everywhere grants tenant_id (application_targets ids) requested required)
        s
      ≡ (contains requested s && everywhere grants tenant_id (application_targets ids) s required)
contains-targets grants t [] requested r s =
    unfold application_targets in contains-authorized_everywhere grants t none [] requested r s
contains-targets grants t (a ∷ ids) requested r s =
    unfold application_targets in
    contains-authorized_everywhere grants t (some a) (map some ids) requested r s
