-- ===== src/Request.antt =====
-- A request as the core reads it, octonomy/core/auth.py (application_ids_from_request) and the
-- payload helpers of octonomy/core/selectors.py.
use octonomy.Prelude.{
  String, Bool, true, not, Option, none, some, List, [], ◌∷◌, contains, set_add, is_empty, ◌==◌,
  string_eq, if◌then◌else◌,
}
use octonomy.Prelude.Text.{lower_is}
use octonomy.Errors.{Result, ok, err, ◌>>◌, validation}
use octonomy.Scope.{Namespace, is_global}

-- `request.data`: a JSON object, of which only the key `application_id` is read here (absent, null
-- or a text), or anything else.
pub data Body : Type 0 where
  not_dict : Body
  dict : Option (Option String) → Body

pub record Request : Type 0 where
  pub method : String
  -- headers
  pub authorization : Option String
  pub tenant_id : Option String
  pub namespace_type : Option String
  pub namespace_id : Option String
  -- query parameters
  pub query_application_id : Option String
  pub include_shared : Option String
  pub include_global : Option String
  pub scope : Option String
  -- the URL's name and the payload
  pub url_name : Option String
  pub body : Body

abbrev pub safe_methods : List String
safe_methods = "GET" ∷ "HEAD" ∷ "OPTIONS" ∷ []

abbrev pub move_capable_methods : List String
move_capable_methods = "PATCH" ∷ "PUT" ∷ []

-- `if value: application_ids.add(value)`
unfoldable pub add_truthy : Option String → List String → List String
add_truthy none ids = ids
add_truthy (some a) ids = if a == "" then ids else set_add a ids

-- `data.get("application_id")` of a payload that is a dict.
unfoldable pub body_application_id : Body → Option String
body_application_id not_dict = none
body_application_id (dict none) = none
body_application_id (dict (some value)) = value

-- `application_ids_from_request`
unfoldable pub application_ids_from_request : Request → List String
unfolding add_truthy body_application_id
application_ids_from_request r =
    let named = add_truthy r.query_application_id [] in
    if contains safe_methods r.method then named else add_truthy (body_application_id r.body) named

-- `request.query_params.get("include_shared", "true").lower() != "false"`
unfoldable pub include_shared_param : Request → Bool
include_shared_param r = elim r.include_shared [
  | none ↦ true
  | some value ↦ not (lower_is value "false")
]

-- `application_filter_params`, given what `authorized_application_ids` returns: the bound on an
-- object's application and `include_shared`.
unfoldable pub application_filter_params :
    Option (List String) → Request → Option (List String) × Bool
unfolding application_ids_from_request include_shared_param
application_filter_params authorized r =
    if contains move_capable_methods r.method
    then (authorized, include_shared_param r)
    else let ids = application_ids_from_request r in
      (if is_empty ids then none else some ids, include_shared_param r)

-- `reject_null_namespaced_application_id`
unfoldable pub reject_null_namespaced_application_id : Body → Namespace → Result (Unit {0})
reject_null_namespaced_application_id not_dict s = ok tt
reject_null_namespaced_application_id (dict (some none)) s =
    if is_global s then ok tt else err (validation "application_id")
reject_null_namespaced_application_id (dict value) s = ok tt

-- The query's application, put into a payload that lacks the key.
fold_query : Option String → Body → Body
fold_query none body = body
fold_query (some a) body = if a == "" then body else dict (some (some a))

-- `create_payload_with_scope`
unfoldable pub create_payload_with_scope : Request → Namespace → Result Body
unfolding fold_query reject_null_namespaced_application_id
create_payload_with_scope r s = if is_global s then ok r.body else elim r.body [
  | not_dict ↦ ok not_dict
  | dict none ↦ ok (fold_query r.query_application_id r.body)
  | dict (some value) ↦ do
    reject_null_namespaced_application_id (dict (some value)) s
    ok (dict (some value))
]
