-- ===== src/Grants.antt =====
-- octonomy/core/auth.py and octonomy/service_auth/services.py: what a service client's grants
-- authorize. The grants of one client are a list; a set of scopes or applications is a list too.
pub mod Laws
mod Tests
pub mod Applications
use octonomy.Prelude.{
  String, Bool, true, false, ◌&&◌, ◌||◌, not, Option, none, some, List, [], ◌∷◌, filter, any,
  contains, set_add, is_none, ◌==◌, string_eq, option_eq, if◌then◌else◌,
}
use octonomy.Errors.{Result, ok, err, ◌>>=◌}
use octonomy.Scope.{Namespace, is_global, same_namespace, row_is_global, scope_context}

-- A row of `service_client_grants`; `application_id` null is a tenant-wide grant.
pub record Grant : Type 0 where
  pub tenant_id : String
  pub application_id : Option String
  pub namespace : Namespace
  pub namespace_wildcard : Bool
  pub scopes : List String

-- `grant.has_scope(scope)`
unfoldable pub has_scope : Grant → String → Bool
has_scope g required = contains g.scopes required

-- `grant_matches_namespace`
unfoldable pub grant_matches_namespace : Grant → Namespace → Bool
unfolding is_global same_namespace row_is_global
grant_matches_namespace g s =
    if g.namespace_wildcard
    then true
    else if is_global s
    then row_is_global g.namespace
    else same_namespace g.namespace s

-- `grant_application_matches`
unfoldable pub grant_application_matches : Grant → Option String → Bool
grant_application_matches g application_id =
    is_none g.application_id || g.application_id == application_id

-- `grant_authorizes`
unfoldable pub grant_authorizes : Grant → String → Option String → Namespace → String → Bool
unfolding has_scope grant_matches_namespace grant_application_matches
grant_authorizes g tenant_id application_id s required =
    if not (g.tenant_id == tenant_id) || not (has_scope g required)
    then false
    else if not (is_none g.application_id) && not (g.application_id == application_id)
    then false
    else if not (is_global s) && is_none application_id
    then false
    else grant_matches_namespace g s

-- `any(grant_authorizes(grant, ...) for grant in grants)`
unfoldable pub some_grant_authorizes :
    List Grant → String → Option String → Namespace → String → Bool
some_grant_authorizes grants tenant_id application_id s required =
    any (λ g. grant_authorizes g tenant_id application_id s required) grants

-- `authorized_scope_contexts`
unfoldable pub authorized_scope_contexts :
    List Grant → String → Option String → List Namespace → String → List Namespace
unfolding some_grant_authorizes
authorized_scope_contexts grants tenant_id application_id requested required =
    filter (λ s. some_grant_authorizes grants tenant_id application_id s required) requested

-- `tenant_grants`
unfoldable pub tenant_grants : List Grant → String → List Grant
tenant_grants grants tenant_id = filter (λ g. g.tenant_id == tenant_id) grants

-- The two `continue` tests of `authorized_application_ids`.
skipped : Namespace → Option String → Grant → Bool
unfolding has_scope grant_matches_namespace
skipped s none g = not (grant_matches_namespace g s)
skipped s (some scope) g =
    (not (scope == "") && not (has_scope g scope)) || not (grant_matches_namespace g s)

-- The loop of `authorized_application_ids`: `none` once a tenant-wide grant is met.
unfoldable pub collect_applications :
    Namespace → Option String → List Grant → List String → Option (List String)
unfolding skipped
collect_applications s required [] ids = some ids
collect_applications s required (g ∷ gs) ids = elim (skipped s required g) [
  | true ↦ collect_applications s required gs ids
  | false ↦ elim g.application_id [
    | none ↦ none
    | some a ↦ collect_applications s required gs (set_add a ids)
  ]
]

-- `authorized_application_ids` of an authenticated request.
unfoldable pub authorized_application_ids :
    List Grant → String → Namespace → Option String → Option (List String)
unfolding collect_applications tenant_grants
authorized_application_ids grants tenant_id s required =
    collect_applications s required (tenant_grants grants tenant_id) []

-- `grant_allows`, of a client's grants.
unfoldable pub grant_allows :
    List Grant → String → Option String → String → Option String → Option String → Result Bool
unfolding scope_context some_grant_authorizes
grant_allows grants tenant_id application_id scope namespace_type namespace_id = do
  s ← scope_context namespace_type namespace_id
  ok (some_grant_authorizes grants tenant_id application_id s scope)
