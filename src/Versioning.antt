-- ===== src/Versioning.antt =====
-- octonomy/core/versioning.py: the namespace scope that a request of one API version asks for.
-- Mirroring the attributes for the request log is not modelled.
pub mod Laws
mod Tests
use octonomy.Prelude.{
  ℕ, String, Bool, true, false, ◌&&◌, ◌||◌, not, Option, none, some, List, [], ◌∷◌, is_some, ltb,
  ◌==◌, string_eq, option_eq, if◌then◌else◌,
}
use octonomy.Prelude.Text.{is_blank, has_code, len, lower_is}
use octonomy.Errors.{
  Result, ok, err, ◌>>=◌, ◌>>◌, validation, namespace_not_supported, namespace_header,
  namespace_api_disabled,
}
use octonomy.Scope.{Settings, Namespace, global_scope, is_global, scope_context}
use octonomy.Request.{Request}

abbrev pub namespace_field_max_length : ℕ
namespace_field_max_length = 100

-- `validate_external_id`
unfoldable pub validate_external_id : String → String → Result (Unit {0})
validate_external_id value field = if is_blank value then err (validation field) else ok tt

-- `_reject_folded`
unfoldable pub reject_folded : String → Result (Unit {0})
reject_folded value = if has_code b',' value then err namespace_header else ok tt

-- `_reject_overlong`
unfoldable pub reject_overlong : String → Result (Unit {0})
reject_overlong value =
    if ltb namespace_field_max_length (len value) then err namespace_header else ok tt

-- `except ValueError as exc: raise NamespaceHeaderError`
unfoldable pub as_header_error : Result Namespace → Result Namespace
as_header_error (ok s) = ok s
as_header_error (err e) = err namespace_header

-- `_scope_from_headers`
unfoldable pub scope_from_headers : Option String → Option String → Result Namespace
unfolding validate_external_id reject_folded reject_overlong as_header_error scope_context
scope_from_headers none none = ok global_scope
scope_from_headers none (some i) = err namespace_header
scope_from_headers (some t) none = err namespace_header
scope_from_headers (some t) (some i) = do
  validate_external_id t "X-Namespace-Type"
  validate_external_id i "X-Namespace-ID"
  reject_folded t
  reject_folded i
  reject_overlong t
  reject_overlong i
  as_header_error (scope_context (some t) (some i))

-- `_reject_if_v2_api_disabled`
unfoldable pub reject_if_v2_api_disabled : Settings → Namespace → Result (Unit {0})
unfolding is_global
reject_if_v2_api_disabled settings s =
    if is_global s
    then ok tt
    else if settings.namespace_v2_api_enabled
    then ok tt
    else err namespace_api_disabled

-- `params.get("include_global", "false").lower() == "true"`
asked_true : Option String → Bool
asked_true none = false
asked_true (some value) = lower_is value "true"

-- `_wants_global`
unfoldable pub wants_global : Request → Bool
unfolding asked_true
wants_global r =
    asked_true r.include_global || (r.url_name == some "tag-resolution" && r.scope == some "global")

-- What `_set` leaves on the request.
pub record Requested : Type 0 where
  pub scope_context : Namespace
  pub requested_scope_contexts : List Namespace

-- `_set`
unfoldable pub set_scope : Namespace → Bool → Requested
unfolding is_global
set_scope s include_global = record {
  scope_context = s;
  requested_scope_contexts =
      if include_global && not (is_global s) then s ∷ global_scope ∷ [] else s ∷ [];
}

-- `resolve_scope_context`
unfoldable pub resolve_scope_context : Settings → Request → String → Result Requested
unfolding scope_from_headers reject_if_v2_api_disabled set_scope
resolve_scope_context settings r version =
    if version == "v2"
    then (do
      s ← scope_from_headers r.namespace_type r.namespace_id
      reject_if_v2_api_disabled settings s
      ok (set_scope s (wants_global r)))
    else if is_some r.namespace_type || is_some r.namespace_id
    then err namespace_not_supported
    else ok (set_scope global_scope false)

-- `usage_count_mode_for_request`, true for "visible" and false for "legacy".
unfoldable pub usage_count_visible : Option String → Bool
usage_count_visible version = version == some "v2"
