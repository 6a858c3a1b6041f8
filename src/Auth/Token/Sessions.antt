-- ===== src/Auth/Token/Sessions.antt =====
-- Which tokens are accepted: exactly the signed ones of the current session that have not expired.
use singboxconfig.Prelude.{
  Str, false, ◌≡◌, refl, ◌∙◌, ap, ◌↔◌, List, [], ◌∷◌, ◌++◌, Option, none, some, arith, equal,
  equal_iff, equal_refl,
}
use singboxconfig.Prelude.Int.{leb_ℤ}
use singboxconfig.Prelude.Exec.{ok, unless-eq-ok, if-eq-ok, ok-injective}
use singboxconfig.Strings.{split}
use singboxconfig.Strings.Split.{IsFree}
use singboxconfig.Entity.{Time}
use singboxconfig.Auth.World.{AuthConfig}
use singboxconfig.Auth.Config.{Claims, External, unix}
use singboxconfig.Auth.Token.{
  access, check_claims, unmarshalled, check_signature, validate_parts, validate_auth_token,
}

-- What the tokens rely on: base64 and JSON decode what they encode, and the URL alphabet of
-- base64 has no dot.
pub record TokenLaws (x : External) : Type 0 where
  pub decode-encode : (s : Str) → x.base64_decode (x.base64_encode s) ≡ some s
  pub encode-IsFree : (s : Str) → IsFree b'.' (x.base64_encode s)
  pub unmarshal-marshal : (c : Claims) → x.unmarshal_claims (x.marshal_claims c) ≡ some c

-- The claims that a configuration accepts at a time.
pub record IsCurrent (config : AuthConfig) (now : Time) (claims : Claims) : Type 0 where
  pub is_access : claims.type ≡ access
  pub unexpired : leb_ℤ claims.expires_at_unix (unix now) ≡ false
  pub subject : claims.subject ≡ config.username
  pub session : claims.session_version ≡ config.session_version

module _ (x : External) where
  -- A token of three parts, signed with the secret, whose middle part decodes to current claims.
  pub record Accepts (config : AuthConfig) (now : Time) (token : Str) (claims : Claims)
      : Type 0 where
    pub header : Str
    pub middle : Str
    pub signature : Str
    pub payload : Str
    pub parts : split b'.' token ≡ header ∷ middle ∷ signature ∷ []
    pub signed :
        x.base64_decode signature
        ≡ some (x.hmac_sha256 config.token_secret (header ++ (b'.' ∷ middle)))
    pub decoded : x.base64_decode middle ≡ some payload
    pub unmarshalled : x.unmarshal_claims payload ≡ some claims
    pub current : IsCurrent config now claims

  check_claims-ok :
      (config : AuthConfig) (now : Time) (o : Option Claims) (claims : Claims)
      → check_claims x config now o ≡ ok claims
      → (o ≡ some claims) × IsCurrent config now claims
  unfolding check_claims
  check_claims-ok config now none claims h = ground arith
  check_claims-ok config now (some c) claims h =
      let (typed, h₁) = unless-eq-ok (equal c.type access) _ _ _ h in
      let (alive, h₂) = if-eq-ok (leb_ℤ c.expires_at_unix (unix now)) _ _ _ h₁ in
      let (mine, h₃) = unless-eq-ok (equal c.subject config.username) _ _ _ h₂ in
      let (session, h₄) = unless-eq-ok (equal c.session_version config.session_version) _ _ _ h₃ in
      let e : c ≡ claims = ok-injective c claims h₄ in
      rw (← e) (
        refl,
        record {
          is_access = (equal_iff _ _).0 typed;
          unexpired = alive;
          subject = (equal_iff _ _).0 mine;
          session = (equal_iff _ _).0 session;
        },
      )

  check_claims-IsCurrent :
      (config : AuthConfig) (now : Time) (claims : Claims)
      → IsCurrent config now claims
      → check_claims x config now (some claims) ≡ ok claims
  unfolding check_claims
  check_claims-IsCurrent config now claims h =
      rw
        (
          (equal_iff claims.type access).1 h.is_access,
          h.unexpired,
          (equal_iff claims.subject config.username).1 h.subject,
          (equal_iff claims.session_version config.session_version).1 h.session,
        )
        refl

  unmarshalled-ok :
      (config : AuthConfig) (now : Time) (o : Option Str) (claims : Claims)
      → unmarshalled x config now o ≡ ok claims
      → (payload : Str) × (o ≡ some payload)
        × (x.unmarshal_claims payload ≡ some claims)
        × IsCurrent config now claims
  unfolding unmarshalled
  unmarshalled-ok config now none claims h = ground arith
  unmarshalled-ok config now (some payload) claims h =
      let (e, current) = check_claims-ok config now (x.unmarshal_claims payload) claims h in
      (payload, refl, e, current)

  check_signature-ok :
      (config : AuthConfig) (now : Time) (token header middle signature : Str) (o : Option Str)
      (claims : Claims)
      → split b'.' token ≡ header ∷ middle ∷ signature ∷ []
      → x.base64_decode signature ≡ o
      → check_signature x config now header middle o ≡ ok claims
      → Accepts config now token claims
  unfolding check_signature
  check_signature-ok config now token header middle signature none claims parts dec h = ground arith
  check_signature-ok config now token header middle signature (some actual) claims parts dec h =
      let expected = x.hmac_sha256 config.token_secret (header ++ (b'.' ∷ middle)) in
      let (signed, h₁) = unless-eq-ok (equal actual expected) _ _ _ h in
      let (payload, decoded, unmarshalled, current) =
        unmarshalled-ok config now (x.base64_decode middle) claims h₁ in
      record {
        header = header;
        middle = middle;
        signature = signature;
        payload = payload;
        parts = parts;
        signed = dec ∙ ap some ((equal_iff _ _).0 signed);
        decoded = decoded;
        unmarshalled = unmarshalled;
        current = current;
      }

  validate_parts-ok :
      (config : AuthConfig) (now : Time) (token : Str) (parts : List Str) (claims : Claims)
      → split b'.' token ≡ parts
      → validate_parts x config now parts ≡ ok claims
      → Accepts config now token claims
  unfolding validate_parts
  validate_parts-ok config now token (header ∷ middle ∷ signature ∷ []) claims parts h =
      check_signature-ok config now token header middle signature _ claims parts refl h
  validate_parts-ok config now token _ claims parts h = ground arith

  validate_auth_token-Accepts :
      (config : AuthConfig) (now : Time) (token : Str) (claims : Claims)
      → Accepts config now token claims
      → validate_auth_token x token config now ≡ ok claims
  unfolding validate_auth_token validate_parts check_signature unmarshalled
  validate_auth_token-Accepts config now token claims a =
      rw (a.parts, validate_parts, a.signed, check_signature, equal_refl)
        (rw (a.decoded, unmarshalled, a.unmarshalled)
          (check_claims-IsCurrent config now claims a.current))

  -- A token is accepted with the claims it holds exactly when it has three parts, its signature
  -- is that of the first two under the configuration's secret, and the second decodes to access
  -- claims of the configuration's user and session that expire later.
  pub validate_auth_token_iff :
      (token : Str) (config : AuthConfig) (now : Time) (claims : Claims)
      → (validate_auth_token x token config now ≡ ok claims) ↔ Accepts config now token claims
  validate_auth_token_iff token config now claims = (
    λ h.
        validate_parts-ok config now token (split b'.' token) claims refl
          (unfold validate_auth_token in h),
    validate_auth_token-Accepts config now token claims,
  )
