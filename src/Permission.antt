-- ===== src/Permission.antt =====
-- BearerTokenPermission of octonomy/core/auth.py: the decision on one request whose scope
-- octonomy/core/versioning.py has resolved.
pub mod Targets
pub mod Laws
mod Tests
use octonomy.Prelude.{
  ℕ, String, Bool, true, false, ◌&&◌, ◌||◌, not, Option, none, some, List, [], ◌∷◌, map, filter,
  any, all, contains, is_empty, ◌==◌, string_eq, option_eq, Eq, if◌then◌else◌,
}
use octonomy.Prelude.Text.{before, after, strip, lower_is}
use octonomy.Errors.{
  Error, Result, ok, err, ◌>>=◌, ◌>>◌, validation, authentication_failed, permission_denied,
  tenant_mismatch, application_mismatch,
}
use octonomy.Scope.{
  Settings, Namespace, global_scope, is_global, namespace_eq, guard_namespace_write_enabled,
}
use octonomy.Request.{Request, safe_methods, application_ids_from_request}
use octonomy.Versioning.{Requested}
use octonomy.Grants.{
  Grant, has_scope, grant_application_matches, some_grant_authorizes, authorized_scope_contexts,
  tenant_grants,
}
use octonomy.Token.{Client, authenticate_client, mark_client_used}

-- `view.allow_unauthenticated` and `view.required_scopes`.
pub record View : Type 0 where
  pub allow_unauthenticated : Bool
  pub required_scopes : List (String × String)

-- What an authorized request carries on to its view.
pub record Granted : Type 0 where
  pub service_client : Client
  pub required_scope : String
  pub scope_context : Namespace
  pub authorized_scope_contexts : List Namespace
  pub authorized_global_references : Bool

lookup : String → List (String × String) → Option String
lookup k [] = none
lookup k ((j, v) ∷ m) = if j == k then some v else lookup k m

-- `required_scope_for_request`
unfoldable pub required_scope_for_request : View → Request → Result String
unfolding lookup
required_scope_for_request view r = elim (lookup r.method view.required_scopes) [
  | none ↦ err (permission_denied "undeclared scope")
  | some scope ↦ if scope == "" then err (permission_denied "undeclared scope") else ok scope
]

-- `enforce_namespace_write_gate`
unfoldable pub enforce_namespace_write_gate : Settings → Request → Namespace → Result (Unit {0})
unfolding guard_namespace_write_enabled
enforce_namespace_write_gate settings r s =
    if contains safe_methods r.method then ok tt else guard_namespace_write_enabled settings s

-- The token of an Authorization header with the scheme Bearer.
unfoldable pub bearer_token : Option String → Result String
bearer_token none = err authentication_failed
bearer_token (some header) =
    if not (lower_is (before b' ' header) "bearer") || after b' ' header == ""
    then err authentication_failed
    else ok (strip (after b' ' header))

-- `application_ids or {None}`
unfoldable pub application_targets : List String → List (Option String)
application_targets ids = if is_empty ids then none ∷ [] else map some ids

-- `frozenset.intersection(*sets)`
intersection : List (List Namespace) → List Namespace
intersection [] = []
intersection (first ∷ rest) = filter (λ s. all (λ ss. contains ss s) rest) first

-- `request.authorized_scope_contexts`
unfoldable pub authorized_everywhere :
    List Grant → String → List (Option String) → List Namespace → String → List Namespace
unfolding intersection authorized_scope_contexts
authorized_everywhere grants tenant_id targets requested required =
    intersection
      (map (λ a. authorized_scope_contexts grants tenant_id a requested required) targets)

-- `request.authorized_global_references`
unfoldable pub global_references : List Grant → String → List (Option String) → String → Bool
unfolding some_grant_authorizes
global_references grants tenant_id targets required =
    all (λ a. some_grant_authorizes grants tenant_id a global_scope required) targets

-- What a request is refused with whose scope no grant reaches.
unfoldable pub refusal : List Grant → Namespace → List String → Error
unfolding is_global grant_application_matches application_targets
refusal grants s ids =
    if not (is_global s)
    then permission_denied "namespace"
    else if all (λ a. any (λ g. grant_application_matches g a) grants) (application_targets ids)
    then permission_denied "namespace"
    else application_mismatch "application_id"

-- `request_include_global`, of an authenticated request.
unfoldable pub request_include_global : Granted → Bool
request_include_global g = contains g.authorized_scope_contexts global_scope

-- `request.tenant_id`, which must be there and not empty.
unfoldable pub tenant_of : Option String → Result String
tenant_of none = err (validation "X-Tenant-ID")
tenant_of (some t) = if t == "" then err (validation "X-Tenant-ID") else ok t

-- The part of `has_permission` that follows the tenant's grants.
unfoldable pub authorize :
    Settings → ℕ → Client → List Grant → String → String → Request → Requested → Result Granted
authorize settings now client grants tenant_id required r q =
    let ids = application_ids_from_request r in
    let targets = application_targets ids in
    let authorized =
      authorized_everywhere grants tenant_id targets q.requested_scope_contexts required in
    if contains authorized q.scope_context
    then (do
      enforce_namespace_write_gate settings r q.scope_context
      ok (record {
        service_client = mark_client_used now client;
        required_scope = required;
        scope_context = q.scope_context;
        authorized_scope_contexts = authorized;
        authorized_global_references = global_references grants tenant_id targets required;
      }))
    else err (refusal grants q.scope_context ids)

-- The tenant's grants, those with the required scope, and what they authorize.
unfoldable pub check_grants :
    Settings → ℕ → Client → String → String → Request → Requested → Result Granted
check_grants settings now client tenant_id required r q =
    let in_tenant = tenant_grants client.grants tenant_id in
    let grants = filter (λ g. has_scope g required) in_tenant in
    if is_empty in_tenant
    then err tenant_mismatch
    else if is_empty grants
    then err (permission_denied "scope")
    else authorize settings now client grants tenant_id required r q

-- `has_permission`. The clock is read at the check of the token's expiry, `now`, and again where
-- the client is marked as used, `later`.
module _ (hash_service_token : String → String) where
  -- What follows the test of `allow_unauthenticated`.
  unfoldable pub authenticate :
      Settings → List Client → ℕ → ℕ → View → Request → Requested → Result Granted
  authenticate settings clients now later view r q = do
    token ← bearer_token r.authorization
    client ← authenticate_client hash_service_token clients now token
    tenant_id ← tenant_of r.tenant_id
    required ← required_scope_for_request view r
    check_grants settings later client tenant_id required r q

  -- `none` for a view that lets everybody in.
  unfoldable pub has_permission :
      Settings → List Client → ℕ → ℕ → View → Request → Requested → Result (Option Granted)
  has_permission settings clients now later view r q =
      if view.allow_unauthenticated
      then ok none
      else authenticate settings clients now later view r q >>= λ granted. ok (some granted)
