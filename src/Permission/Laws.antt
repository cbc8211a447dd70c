-- ===== src/Permission/Laws.antt =====
-- What a request that BearerTokenPermission lets through has shown.
use octonomy.Prelude.{
  ℕ, String, ◌≡◌, ◌≢◌, inl, inr, refl, true, false, ◌&&◌, Option, none, some, List, [], ◌∷◌, filter,
  any, all, contains, string_eq, option_eq, arith, Bool-cases,
}
use octonomy.Errors.{ok, >>=-eq-ok}
use octonomy.Scope.{Settings, Namespace, is_global, namespace_eq}
use octonomy.Request.{Request, application_ids_from_request}
use octonomy.Versioning.{Requested}
use octonomy.Grants.{Grant, has_scope, grant_authorizes, some_grant_authorizes, tenant_grants}
use octonomy.Grants.Laws.{some_grant_authorizes-tenant_grants}
use octonomy.Token.{Client, authenticate_client}
use octonomy.Token.Laws.{IsAuthentic, authenticate_client-IsAuthentic}
use octonomy.Permission.{
  View, Granted, required_scope_for_request, enforce_namespace_write_gate, bearer_token,
  application_targets, authorized_everywhere, tenant_of, authorize, check_grants, authenticate,
  has_permission,
}
use octonomy.Permission.Targets.{everywhere, IsWritable, write_gate_iff, contains-targets}

-- Everything that the decision on a tenant's grants rests on.
pub record IsAuthorized (settings : Settings) (grants : List Grant) (tenant_id required : String)
    (r : Request) (q : Requested) : Type 0 where
  pub asked : contains q.requested_scope_contexts q.scope_context ≡ true
  pub covered :
      everywhere grants tenant_id
        (application_targets (application_ids_from_request r))
        q.scope_context
        required
      ≡ true
  pub writable : IsWritable settings r q.scope_context

authorize_inv :
    (settings : Settings) (now : ℕ) (client : Client) (grants : List Grant)
    (tenant_id required : String) (r : Request) (q : Requested) (g : Granted)
    → authorize settings now client grants tenant_id required r q ≡ ok g
    → (contains
          (authorized_everywhere grants tenant_id
            (application_targets (application_ids_from_request r))
            q.requested_scope_contexts
            required)
          q.scope_context
        ≡ true)
      × (enforce_namespace_write_gate settings r q.scope_context ≡ ok tt)
unfolding authorize
authorize_inv settings now client grants t required r q g h = ground arith

authorize-IsAuthorized :
    (settings : Settings) (now : ℕ) (client : Client) (grants : List Grant)
    (tenant_id required : String) (r : Request) (q : Requested) (g : Granted)
    → authorize settings now client grants tenant_id required r q ≡ ok g
    → IsAuthorized settings grants tenant_id required r q
authorize-IsAuthorized settings now client grants t required r q g h =
    let (c, w) = authorize_inv settings now client grants t required r q g h in
    let split =
      contains-targets grants t (application_ids_from_request r) q.requested_scope_contexts required
        q.scope_context in
    record {
      asked = ground arith;
      covered = ground arith;
      writable = (write_gate_iff settings r q.scope_context).0 w;
    }

-- A grant without the API scope, or of another tenant, authorizes nothing.
unscoped :
    (g : Grant) (tenant_id required : String) (a : Option String) (s : Namespace)
    → has_scope g required ≡ false
    → grant_authorizes g tenant_id a s required ≡ false
unfolding grant_authorizes
unscoped g t r a s h = ground arith

-- Selecting the grants with the API scope first changes nothing for what they authorize.
any-scoped :
    (gs : List Grant) (tenant_id required : String) (a : Option String) (s : Namespace)
    → some_grant_authorizes (filter (λ g. has_scope g required) gs) tenant_id a s required
      ≡ some_grant_authorizes gs tenant_id a s required
unfolding filter some_grant_authorizes any
any-scoped [] t r a s = refl
any-scoped (g ∷ gs) t r a s = elim (Bool-cases (has_scope g r)) [
  | inl has ↦ ground (arith, any-scoped gs t r a s)
  | inr lacks ↦ let shut = unscoped g t r a s lacks in ground (arith, any-scoped gs t r a s)
]

-- What a client's whole grant list covers.
covered_by_client :
    (gs : List Grant) (tenant_id required : String) (targets : List (Option String)) (s : Namespace)
    → everywhere
        (filter (λ g. has_scope g required) (tenant_grants gs tenant_id))
        tenant_id
        targets
        s
        required
      ≡ everywhere gs tenant_id targets s required
unfolding all
covered_by_client gs t r [] s = refl
covered_by_client gs t r (a ∷ rest) s = ground (
  arith,
  any-scoped (tenant_grants gs t) t r a s,
  some_grant_authorizes-tenant_grants gs t a s r,
  covered_by_client gs t r rest s,
)

-- What a request that was let in has shown: a tenant, an active client with a token that has not
-- run out and whose digest is on file, and a grant of that client, for the tenant and the API scope
-- of the view, for each application that the request names.
pub record IsAdmitted (hash_service_token : String → String) (settings : Settings)
    (clients : List Client) (now : ℕ) (view : View) (r : Request) (q : Requested) (client : Client)
    (tenant_id required : String) : Type 0 where
  pub token : String
  pub presented : bearer_token r.authorization ≡ ok token
  pub authentic : IsAuthentic hash_service_token clients now token client
  pub tenant : tenant_of r.tenant_id ≡ ok tenant_id
  pub scope : required_scope_for_request view r ≡ ok required
  pub authorized : IsAuthorized settings client.grants tenant_id required r q

check_grants-IsAuthorized :
    (settings : Settings) (now : ℕ) (client : Client) (tenant_id required : String) (r : Request)
    (q : Requested) (g : Granted)
    → check_grants settings now client tenant_id required r q ≡ ok g
    → IsAuthorized settings client.grants tenant_id required r q
check_grants-IsAuthorized settings now client t required r q g h =
    let i = authorize-IsAuthorized settings now client _ t required r q g (admitted h) in
    record {
      asked = i.asked;
      covered =
          rw
            (← covered_by_client client.grants t required
              (application_targets (application_ids_from_request r)) q.scope_context)
            i.covered;
      writable = i.writable;
    }
  where
    admitted :
        check_grants settings now client t required r q ≡ ok g
        → authorize settings now client
            (filter (λ x. has_scope x required) (tenant_grants client.grants t))
            t
            required
            r
            q
          ≡ ok g
    admitted e = unfold check_grants in ground arith

authenticate-IsAdmitted :
    (hash_service_token : String → String) (settings : Settings) (clients : List Client)
    (now later : ℕ) (view : View) (r : Request) (q : Requested) (g : Granted)
    → authenticate hash_service_token settings clients now later view r q ≡ ok g
    → (client : Client) × (tenant_id : String) × (required : String) × IsAdmitted hash_service_token
        settings clients now view r q client tenant_id required
unfolding authenticate
authenticate-IsAdmitted digest settings clients now later view r q g h =
    let (token, presented, h₁) = >>=-eq-ok (bearer_token r.authorization) _ h in
    let (client, authenticated, h₂) =
      >>=-eq-ok (authenticate_client digest clients now token) _ h₁ in
    let (tenant_id, tenant, h₃) = >>=-eq-ok (tenant_of r.tenant_id) _ h₂ in
    let (required, scope, h₄) = >>=-eq-ok (required_scope_for_request view r) _ h₃ in
    (
      client,
      tenant_id,
      required,
      record {
        token = token;
        presented = presented;
        authentic = authenticate_client-IsAuthentic digest clients now token client authenticated;
        tenant = tenant;
        scope = scope;
        authorized = check_grants-IsAuthorized settings later client tenant_id required r q g h₄;
      },
    )

-- A request that a view with a token check lets in has shown a token of a client on file that is
-- active and has not run out, of the client's key prefix and stored digest, a tenant, and a grant of
-- that client for the view's API scope, the request's namespace and every application that the
-- request names; and if it would write into a namespace, the kill-switch is on.
pub has_permission-IsAdmitted :
    (hash_service_token : String → String) (settings : Settings) (clients : List Client)
    (now later : ℕ) (view : View) (r : Request) (q : Requested) (g : Granted)
    → has_permission hash_service_token settings clients now later view r q ≡ ok (some g)
    → (client : Client) × (tenant_id : String) × (required : String) × IsAdmitted hash_service_token
        settings clients now view r q client tenant_id required
has_permission-IsAdmitted digest settings clients now later view r q g h =
    authenticate-IsAdmitted digest settings clients now later view r q g (passed h)
  where
    passed :
        has_permission digest settings clients now later view r q ≡ ok (some g)
        → authenticate digest settings clients now later view r q ≡ ok g
    passed e = unfold has_permission in ground arith

unnamed :
    (gs : List Grant) (tenant_id required : String) (s : Namespace)
    → is_global s ≡ false
    → some_grant_authorizes gs tenant_id none s required ≡ false
unfolding some_grant_authorizes grant_authorizes any
unnamed [] t r s h = refl
unnamed (g ∷ gs) t r s h = ground (arith, unnamed gs t r s h)

authorized_names_application :
    (settings : Settings) (grants : List Grant) (tenant_id required : String) (r : Request)
    (q : Requested)
    → IsAuthorized settings grants tenant_id required r q
    → is_global q.scope_context ≡ false
    → application_ids_from_request r ≢ []
unfolding application_targets all
authorized_names_application settings grants t required r q i namespaced none_named =
    let covered : (some_grant_authorizes grants t none q.scope_context required && true) ≡ true =
      rw none_named at i.covered in
    ground (arith, unnamed grants t required q.scope_context namespaced)

-- A request into a namespace that a view with a token check lets in names an application.
pub has_permission_names_application :
    (hash_service_token : String → String) (settings : Settings) (clients : List Client)
    (now later : ℕ) (view : View) (r : Request) (q : Requested) (g : Granted)
    → has_permission hash_service_token settings clients now later view r q ≡ ok (some g)
    → is_global q.scope_context ≡ false
    → application_ids_from_request r ≢ []
has_permission_names_application digest settings clients now later view r q g h namespaced =
    let (client, t, required, i) =
      has_permission-IsAdmitted digest settings clients now later view r q g h in
    authorized_names_application settings client.grants t required r q i.authorized namespaced
