-- ===== src/Permission/Tests.antt =====
-- One admitted request, with a digest that leaves a token as it is.
use octonomy.Prelude.{
  ◌≡◌, ◌≢◌, inl, inr, refl, ℕ, String, Bool, true, false, Option, none, some, List, [], ◌∷◌,
}
use octonomy.Prelude.Text.{is_blank}
use octonomy.Errors.{ok}
use octonomy.Scope.{Settings}
use octonomy.Scope.Laws.{partition}
use octonomy.Request.{Request, not_dict, application_ids_from_request}
use octonomy.Versioning.{Requested}
use octonomy.Grants.{Grant}
use octonomy.Token.{Client, authenticate_client, mark_client_used}
use octonomy.Permission.{
  View, Granted, has_permission, authenticate, check_grants, authorize, tenant_of, bearer_token,
  required_scope_for_request, enforce_namespace_write_gate, authorized_everywhere,
  global_references,
}
use octonomy.Permission.Laws.{IsAdmitted, has_permission-IsAdmitted}

abbrev digest : String → String
digest raw_token = raw_token

abbrev settings_on : Settings
settings_on = record {
  namespace_write_enabled = true;
  namespace_v2_api_enabled = true;
  max_bulk_tags = 200;
}

abbrev merchant_grant : Grant
merchant_grant = record {
  tenant_id = "t1";
  application_id = some "shop";
  namespace = partition "merchant" "a";
  namespace_wildcard = false;
  scopes = "tags:write" ∷ [];
}

abbrev shop_client : Client
shop_client = record {
  id = 1;
  key_prefix = "k1";
  hashed_key = "octo_k1_secret";
  is_active = true;
  expires_at = some 5000;
  last_used_at = none;
  grants = merchant_grant ∷ [];
}

abbrev tag_view : View
tag_view = record {
  allow_unauthenticated = false;
  required_scopes = ("GET", "tags:read") ∷ ("POST", "tags:write") ∷ [];
}

abbrev post_tag : Request
post_tag = record {
  method = "POST";
  authorization = some "Bearer octo_k1_secret";
  tenant_id = some "t1";
  namespace_type = some "merchant";
  namespace_id = some "a";
  query_application_id = some "shop";
  include_shared = none;
  include_global = none;
  scope = none;
  url_name = none;
  body = not_dict;
}

abbrev partition_requested : Requested
partition_requested = record {
  scope_context = partition "merchant" "a";
  requested_scope_contexts = partition "merchant" "a" ∷ [];
}

abbrev granted : Granted
granted = record {
  service_client = record shop_client { last_used_at = some 1001 };
  required_scope = "tags:write";
  scope_context = partition "merchant" "a";
  authorized_scope_contexts = partition "merchant" "a" ∷ [];
  authorized_global_references = false;
}

post_tag_admitted :
    has_permission digest settings_on
      (shop_client ∷ [])
      1000
      1001
      tag_view
      post_tag
      partition_requested
    ≡ ok (some granted)
unfolding has_permission authenticate check_grants authorize tenant_of bearer_token
    required_scope_for_request enforce_namespace_write_gate authorized_everywhere global_references
    authenticate_client mark_client_used application_ids_from_request octonomy.Prelude.Text.lower_is
    octonomy.Prelude.Text.before octonomy.Prelude.Text.after octonomy.Prelude.Text.strip
    octonomy.Prelude.Text.has_code octonomy.Prelude.find octonomy.Grants.tenant_grants
    octonomy.Prelude.filter octonomy.Grants.has_scope octonomy.Prelude.contains
    octonomy.Permission.application_targets octonomy.Prelude.set_add octonomy.Prelude.any
    octonomy.Grants.grant_authorizes octonomy.Prelude.all
post_tag_admitted = refl

has_permission-IsAdmitted_example :
    (client : Client) × (tenant_id : String) × (required : String) × IsAdmitted digest settings_on
      (shop_client ∷ [])
      1000
      tag_view
      post_tag
      partition_requested
      client
      tenant_id
      required
has_permission-IsAdmitted_example =
    has_permission-IsAdmitted digest settings_on (shop_client ∷ []) 1000 1001 tag_view post_tag
      partition_requested granted post_tag_admitted
