-- ===== src/Token/Laws.antt =====
-- What a client has shown that authenticate_client of octonomy/core/auth.py accepts.
use octonomy.Prelude.{
  ℕ, ◌<◌, ◌≡◌, ◌≢◌, ◌≤◌, inl, inr, sym, ap, ◌∙◌, String, Bool, true, false, ◌&&◌, Option, none,
  some, List, [], ◌∷◌, find, In, arith, Bool-cases, Option-cases, ◌==◌, nat_eq, string_eq,
}
use mathlib.Core.Bool.{false≢true}
use octonomy.Prelude.Text.{before, after, len}
use octonomy.Errors.{ok}
use octonomy.Token.{
  Client, token_prefix, max_service_token_length, parse_service_token, is_expired, get_client,
  check_client, authenticate_client,
}

-- A client on file, active, with time left, whose stored digest is the token's, and a token of the
-- form `octo_<key prefix>_<secret>` that is not too long and carries the client's key prefix.
pub record IsAuthentic (hash_service_token : String → String) (clients : List Client) (now : ℕ)
    (token : String) (client : Client) : Type 0 where
  pub known : In client clients
  pub digest : client.hashed_key ≡ hash_service_token token
  pub active : client.is_active ≡ true
  pub unexpired : (t : ℕ) → client.expires_at ≡ some t → now < t
  pub short : len token ≤ max_service_token_length
  pub prefix : before b'_' token ≡ token_prefix
  pub key_prefix : before b'_' (after b'_' token) ≡ client.key_prefix
  pub secret : after b'_' (after b'_' token) ≢ ""

find-inv :
    (p : Client → Bool) (xs : List Client) (c : Client)
    → find p xs ≡ some c
    → In c xs × (p c ≡ true)
unfolding find
find-inv p [] c h = cc
find-inv p (x ∷ xs) c h = elim (Bool-cases (p x)) [
  | inl hit ↦ let same : x ≡ c = ground arith in (inl same, ap p (sym same) ∙ hit)
  | inr miss ↦ let (i, q) = find-inv p xs c (ground arith) in (inr i, q)
]

parse_service_token-inv :
    (token raw key : String)
    → parse_service_token token ≡ some (raw, key)
    → (raw ≡ token)
      × (len token ≤ max_service_token_length)
      × (before b'_' token ≡ token_prefix)
      × (before b'_' (after b'_' token) ≡ key)
      × ((after b'_' (after b'_' token) == "") ≡ false)
unfolding parse_service_token
parse_service_token-inv token raw key h =
    ground (arith, string_eq.beq_iff (before b'_' token) token_prefix)

check_client-inv :
    (hash_service_token : String → String) (now : ℕ) (found : Option Client) (client : Client)
    → check_client hash_service_token now found ≡ ok client
    → (found ≡ some client) × (client.is_active ≡ true) × (is_expired client now ≡ false)
unfolding check_client
check_client-inv digest now none client h = cc
check_client-inv digest now (some c) client h = ground arith

unexpired_lem :
    (client : Client) (now : ℕ)
    → is_expired client now ≡ false
    → (t : ℕ) → client.expires_at ≡ some t
    → now < t
unfolding is_expired
unexpired_lem client now h t e = ground (arith, h, e)

module _ (hash_service_token : String → String) (clients : List Client) (now : ℕ) (token : String)
    (client : Client) where
  parsed_lem :
      (raw key : String)
      → parse_service_token token ≡ some (raw, key)
      → check_client hash_service_token now (get_client hash_service_token clients (raw, key))
        ≡ ok client
      → IsAuthentic hash_service_token clients now token client
  unfolding get_client
  parsed_lem raw key parsed h =
      let (same, short, prefix, named, full) = parse_service_token-inv token raw key parsed in
      let (found, active, alive) = check_client-inv hash_service_token now _ client h in
      let (known, test) =
        find-inv (λ c. c.key_prefix == key && c.hashed_key == hash_service_token raw) clients client
          found in
      record {
        known = known;
        digest =
            (string_eq.beq_iff client.hashed_key (hash_service_token raw)).0 (ground arith)
            ∙ ap hash_service_token same;
        active = active;
        unexpired = unexpired_lem client now alive;
        short = short;
        prefix = prefix;
        key_prefix = named ∙ sym ((string_eq.beq_iff client.key_prefix key).0 (ground arith));
        secret = λ e. false≢true (sym full ∙ (string_eq.beq_iff _ "").1 e);
      }

  pub authenticate_client-IsAuthentic :
      authenticate_client hash_service_token clients now token ≡ ok client
      → IsAuthentic hash_service_token clients now token client
  unfolding authenticate_client
  authenticate_client-IsAuthentic h = elim (Option-cases (parse_service_token token)) [
    | inl e ↦ absurd (ground arith)
    | inr ((raw, key), e) ↦ parsed_lem raw key e (ground arith)
  ]
