-- ===== src/Auth/Token.antt =====
-- Bearer tokens: `issueAuthToken`, `parseBearerToken` and `validateAuthToken`.
pub mod Sessions
pub mod Issued
use singboxconfig.Prelude.{
  ℕ, ◌+◌, Str, Bool, true, false, not, ◌||◌, List, [], ◌∷◌, ◌++◌, Option, none, some, codes, equal,
  if◌then◌else◌,
}
use singboxconfig.Prelude.Int.{ℤ, leb_ℤ}
use singboxconfig.Prelude.Exec.{Result, ok, err}
use singboxconfig.Strings.{trim_space, is_empty, split, cut, to_lower}
use singboxconfig.Entity.{Time}
use singboxconfig.Auth.World.{AuthError, AuthConfig, invalid_token}
use singboxconfig.Auth.Config.{Claims, External, auth_token_ttl, unix}

-- `parts := strings.SplitN(…, " ", 2)`, with the tests on the parts
bearer : Option (Str × Str) → Option Str
bearer none = none
bearer (some (scheme, rest)) =
    let token = trim_space rest in
    if not (equal (to_lower scheme) (codes "bearer"))
    then none
    else if is_empty token
    then none
    else some token

-- `none` is `ok == false`
unfoldable pub parse_bearer_token : Str → Option Str
unfolding bearer
parse_bearer_token header_value =
    if is_empty (trim_space header_value) then none else bearer (cut b' ' (trim_space header_value))

-- `json.Marshal(map[string]string{"alg": "HS256", "typ": "JWT"})`
abbrev pub header_json : Str
header_json = codes "{\"alg\":\"HS256\",\"typ\":\"JWT\"}"

abbrev pub access : Str
access = codes "access"

unfoldable pub issued_claims : AuthConfig → Time → Claims
issued_claims config now = record {
  subject = config.username;
  expires_at_unix = unix (now + auth_token_ttl);
  issued_at_unix = unix now;
  session_version = config.session_version;
  type = access;
}

module _ (x : External) where
  -- the token and `expiresAt`; marshalling these values and writing to a MAC do not fail
  unfoldable pub issue_auth_token : AuthConfig → Time → Str × Time
  issue_auth_token config now =
      let signing_input =
        x.base64_encode header_json
        ++ (b'.' ∷ x.base64_encode (x.marshal_claims (issued_claims config now))) in
      let signature = x.base64_encode (x.hmac_sha256 config.token_secret signing_input) in
      (signing_input ++ (b'.' ∷ signature), now + auth_token_ttl)

  -- the tests on the decoded claims
  check_claims : AuthConfig → Time → Option Claims → Result AuthError Claims
  check_claims config now none = err invalid_token
  check_claims config now (some claims) =
      if not (equal claims.type access)
      then err invalid_token
      else if leb_ℤ claims.expires_at_unix (unix now)
      then err invalid_token
      else if not (equal claims.subject config.username)
      then err invalid_token
      else if not (equal claims.session_version config.session_version)
      then err invalid_token
      else ok claims

  unmarshalled : AuthConfig → Time → Option Str → Result AuthError Claims
  unfolding check_claims
  unmarshalled config now none = err invalid_token
  unmarshalled config now (some payload) = check_claims config now (x.unmarshal_claims payload)

  check_signature : AuthConfig → Time → Str → Str → Option Str → Result AuthError Claims
  unfolding unmarshalled
  check_signature config now header claims none = err invalid_token
  check_signature config now header claims (some actual) =
      let expected = x.hmac_sha256 config.token_secret (header ++ (b'.' ∷ claims)) in
      if not (equal actual expected)
      then err invalid_token
      else unmarshalled config now (x.base64_decode claims)

  -- the parts between the dots; there must be three
  validate_parts : AuthConfig → Time → List Str → Result AuthError Claims
  unfolding check_signature
  validate_parts config now (header ∷ claims ∷ signature ∷ []) =
      check_signature config now header claims (x.base64_decode signature)
  validate_parts config now _ = err invalid_token

  unfoldable pub validate_auth_token : Str → AuthConfig → Time → Result AuthError Claims
  unfolding validate_parts
  validate_auth_token token config now = validate_parts config now (split b'.' token)
