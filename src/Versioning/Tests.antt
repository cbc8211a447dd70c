-- ===== src/Versioning/Tests.antt =====
-- Scope resolution at concrete headers.
use octonomy.Prelude.{arith, ◌≡◌, refl, true, none, some, [], ◌∷◌}
use octonomy.Prelude.Text.{is_blank, has_code, lower_is}
use octonomy.Errors.{ok, err, namespace_header, namespace_not_supported}
use octonomy.Scope.{Settings, global_scope}
use octonomy.Scope.Laws.{partition}
use octonomy.Request.{Request, not_dict}
use octonomy.Versioning.{scope_from_headers, resolve_scope_context, wants_global, Requested}
use octonomy.Versioning.Laws.{
  IsRequested, scope_from_headers_iff, resolve_scope_context-IsRequested,
}

abbrev settings : Settings
settings = record {
  namespace_write_enabled = true;
  namespace_v2_api_enabled = true;
  max_bulk_tags = 200;
}

abbrev merchant_request : Request
merchant_request = record {
  method = "GET";
  authorization = none;
  tenant_id = some "t1";
  namespace_type = some "merchant";
  namespace_id = some "a";
  query_application_id = some "shop";
  include_shared = none;
  include_global = some "True";
  scope = none;
  url_name = none;
  body = not_dict;
}

abbrev merchant_requested : Requested
merchant_requested = record {
  scope_context = partition "merchant" "a";
  requested_scope_contexts = partition "merchant" "a" ∷ global_scope ∷ [];
}

resolve_merchant : resolve_scope_context settings merchant_request "v2" ≡ ok merchant_requested
unfolding resolve_scope_context wants_global is_blank has_code lower_is
resolve_merchant = refl

resolve_merchant_v1 :
    resolve_scope_context settings merchant_request "v1" ≡ err namespace_not_supported
unfolding resolve_scope_context
resolve_merchant_v1 = refl

folded_header : scope_from_headers (some "merchant") (some "a,b") ≡ err namespace_header
unfolding scope_from_headers is_blank has_code
folded_header = refl

resolve_scope_context-IsRequested_example :
    IsRequested settings merchant_request "v2" merchant_requested
resolve_scope_context-IsRequested_example =
    resolve_scope_context-IsRequested settings merchant_request "v2" merchant_requested
      resolve_merchant

scope_from_headers_iff_example :
    scope_from_headers (some "merchant") (some "a") ≡ ok (partition "merchant" "a")
unfolding is_blank has_code
scope_from_headers_iff_example =
    (scope_from_headers_iff "merchant" "a" (partition "merchant" "a")).1
      (refl, (refl, refl, omega arith), (refl, refl, omega arith), refl)
