-- ===== src/Errors.antt =====
-- octonomy/core/errors.py: the exceptions that services and permissions raise, and the envelope
-- that the exception handler answers with. Message texts are kept only where two raises of one
-- class differ in nothing else; the details keep the field that they are filed under.
use octonomy.Prelude.{ℕ, String, ◌≡◌, refl, List, Option, none, some, ◌==◌, nat_eq, if◌then◌else◌}

pub data Error : Type 0 where
  -- Python's ValueError, and what the database raises
  value_error integrity_error database_error does_not_exist improperly_configured : Error
  -- DRF: ValidationError by field, AuthenticationFailed and PermissionDenied by message
  validation : String → Error
  authentication_failed : Error
  permission_denied : String → Error
  http_404 : Error
  -- DomainError and its subclasses
  domain conflict : String → Error
  tenant_mismatch : Error
  application_mismatch : String → Error
  inactive_tag namespace_not_supported namespace_header : Error
  namespaced_writes_disabled namespace_api_disabled : Error
  ambiguous_resolution : String → Error
  scope_immutable : List String → Error

pub data Result {ℓ} (A : Type ℓ) : Type ℓ where
  err : Error → Result A
  ok : A → Result A

infixl 5 ◌>>=◌
abbrev pub ◌>>=◌ {ℓ κ} : {S : Type ℓ} {T : Type κ} → Result S → (S → Result T) → Result T
err raised >>= rest = err raised
ok value >>= rest = rest value

-- A chain that succeeds succeeded at its first step, and then with what that returned.
pub >>=-eq-ok {ℓ κ} :
    {S : Type ℓ} {T : Type κ} (m : Result S) (rest : S → Result T) {t : T}
    → (m >>= rest) ≡ ok t
    → (s : S) × (m ≡ ok s) × (rest s ≡ ok t)
>>=-eq-ok (err raised) rest h = cc
>>=-eq-ok (ok value) rest h = (value, refl, h)

infixl 5 ◌>>◌
abbrev pub ◌>>◌ {κ} : {T : Type κ} → Result (Unit {0}) → Result T → Result T
check >> rest = check >>= λ done. rest

-- What `error_response` puts into the response: the status and `error.code`.
pub record Envelope : Type 0 where
  pub status : ℕ
  pub code : String

abbrev envelope : ℕ → String → Option Envelope
envelope status code = some (record { status = status; code = code })

-- The code for an exception that DRF answered.
abbrev drf_code : Error → ℕ → String
drf_code authentication_failed status = "authentication_required"
drf_code (permission_denied message) status = "forbidden"
drf_code e status = if status == 404 then "not_found" else "validation_error"

-- `exception_handler`. DRF's own handler is the parameter `drf_status`: the status of the response
-- that it builds for an exception, or none, and then Django answers 500. Of the exceptions that
-- DRF knows, the class chooses the code, and else a 404 does.
unfoldable pub exception_handler : (Error → Option ℕ) → Error → Option Envelope
exception_handler drf_status (domain field) = envelope 400 "validation_error"
exception_handler drf_status (conflict field) = envelope 409 "conflict"
exception_handler drf_status tenant_mismatch = envelope 400 "tenant_mismatch"
exception_handler drf_status (application_mismatch field) = envelope 400 "application_mismatch"
exception_handler drf_status inactive_tag = envelope 400 "inactive_tag"
exception_handler drf_status namespace_not_supported = envelope 400 "namespace_not_supported"
exception_handler drf_status namespace_header = envelope 400 "namespace_invalid"
exception_handler drf_status namespaced_writes_disabled = envelope 403 "namespaced_writes_disabled"
exception_handler drf_status namespace_api_disabled = envelope 503 "namespace_api_disabled"
exception_handler drf_status (ambiguous_resolution field) = envelope 400 "ambiguous_resolution"
exception_handler drf_status (scope_immutable fields) = envelope 409 "scope_immutable"
exception_handler drf_status http_404 = envelope 404 "not_found"
exception_handler drf_status e = elim (drf_status e) [
  | none ↦ none
  | some status ↦ some (record { status = status; code = drf_code e status })
]
