-- ===== src/Token.antt =====
-- octonomy/service_auth/services.py and the client lookup of octonomy/core/auth.py. The peppered
-- HMAC is the parameter `hash_service_token`.
pub mod Laws
use octonomy.Prelude.{
  ℕ, ◌+◌, ◌-◌, ◌*◌, ◌≡◌, refl, String, Bool, true, false, ◌&&◌, ◌||◌, not, Option, none, some, find,
  ltb, leb, ◌==◌, nat_eq, string_eq, if◌then◌else◌,
}
use octonomy.Prelude as P
use octonomy.Prelude.Text.{before, after, has_code, len}
use octonomy.Errors.{Result, ok, err, authentication_failed, permission_denied}
use octonomy.Grants.{Grant}

abbrev pub token_prefix : String
token_prefix = "octo"

abbrev pub max_service_token_length : ℕ
max_service_token_length = 200

-- Times are counted in microseconds.
abbrev pub seconds : ℕ → ℕ
seconds n = n * 1000000

-- A row of `service_clients` with its grants.
pub record Client : Type 0 where
  pub id : ℕ
  pub key_prefix : String
  pub hashed_key : String
  pub is_active : Bool
  pub expires_at : Option ℕ
  pub last_used_at : Option ℕ
  pub grants : P.List Grant

-- `parse_service_token`: `token.split("_", 2)` has three parts where two underscores stand.
unfoldable pub parse_service_token : String → Option (String × String)
parse_service_token token =
    let rest = after b'_' token in
    let key_prefix = before b'_' rest in
    if ltb max_service_token_length (len token)
    then none
    else if not (has_code b'_' token && has_code b'_' rest)
    then none
    else if not (before b'_' token == token_prefix) || key_prefix == "" || after b'_' rest == ""
    then none
    else some (token, key_prefix)

-- `client.expires_at and client.expires_at <= timezone.now()`
unfoldable pub is_expired : Client → ℕ → Bool
is_expired client now = elim client.expires_at [ none ↦ false | some t ↦ leb t now ]

module _ (hash_service_token : String → String) where
  -- `ServiceClient.objects.get(key_prefix=..., hashed_key=...)`; both columns are unique.
  unfoldable pub get_client : P.List Client → String × String → Option Client
  get_client clients (raw_token, key_prefix) =
      find (λ c. c.key_prefix == key_prefix && c.hashed_key == hash_service_token raw_token) clients

  -- The tests that follow the lookup.
  unfoldable pub check_client : ℕ → Option Client → Result Client
  unfolding is_expired
  check_client now none = err authentication_failed
  check_client now (some client) =
      if not client.is_active
      then err (permission_denied "inactive")
      else if is_expired client now
      then err (permission_denied "expired")
      else ok client

  -- `authenticate_client`
  unfoldable pub authenticate_client : P.List Client → ℕ → String → Result Client
  unfolding parse_service_token get_client check_client
  authenticate_client clients now token = elim (parse_service_token token) [
    | none ↦ err authentication_failed
    | some parsed ↦ check_client now (get_client clients parsed)
  ]

  usable : ℕ → Option Client → Option Client
  unfolding is_expired
  usable now none = none
  usable now (some client) =
      if not client.is_active then none else if is_expired client now then none else some client

  -- `authenticate_service_token`
  unfoldable pub authenticate_service_token : P.List Client → ℕ → String → Option Client
  unfolding parse_service_token get_client usable
  authenticate_service_token clients now token = elim (parse_service_token token) [
    | none ↦ none
    | some parsed ↦ usable now (get_client clients parsed)
  ]

-- `mark_client_used`: the client's row after it, `last_used_at` written at most once in a minute.
unfoldable pub mark_client_used : ℕ → Client → Client
mark_client_used now client = elim client.last_used_at [
  | none ↦ record client { last_used_at = some now }
  | some last ↦
      if leb (now - last) (seconds 60) then client else record client { last_used_at = some now }
]
