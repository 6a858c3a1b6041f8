-- ===== src/Auth/Token/Issued.antt =====
-- What becomes of an issued token: accepted in its session until it expires, and in no other.
use mathlib.Core.List.{append_assoc}
use singboxconfig.Prelude.{
  ◌+◌, Str, not, ◌≡◌, ◌≢◌, refl, ◌∙◌, [], ◌∷◌, ◌++◌, some, arith, equal, equal_iff, equal_refl,
  if◌then◌else◌,
}
use singboxconfig.Prelude.Int.{leb_ℤ}
use singboxconfig.Prelude.Exec.{ok, err}
use singboxconfig.Strings.{split}
use singboxconfig.Strings.Split.{split-append, split_free}
use singboxconfig.Entity.{Time}
use singboxconfig.Auth.World.{AuthConfig, invalid_token}
use singboxconfig.Auth.Config.{External, auth_token_ttl, unix}
use singboxconfig.Auth.Token.{
  header_json, issued_claims, issue_auth_token, check_claims, unmarshalled, check_signature,
  validate_parts, validate_auth_token,
}
use singboxconfig.Auth.Token.Sessions.{TokenLaws}

module _ (x : External) (laws : TokenLaws x) where
  -- the two signed parts of an issued token
  abbrev middle_of : AuthConfig → Time → Str
  middle_of config t = x.base64_encode (x.marshal_claims (issued_claims config t))

  abbrev signing_input : AuthConfig → Time → Str
  signing_input config t = x.base64_encode header_json ++ (b'.' ∷ middle_of config t)

  abbrev signature_of : AuthConfig → Time → Str
  signature_of config t =
      x.base64_encode (x.hmac_sha256 config.token_secret (signing_input config t))

  split-issue :
      (config : AuthConfig) (t : Time)
      → split b'.' (issue_auth_token x config t).0
        ≡ x.base64_encode header_json ∷ middle_of config t ∷ signature_of config t ∷ []
  unfolding issue_auth_token
  split-issue config t =
      rw
        (
          append_assoc,
          split-append b'.' (x.base64_encode header_json)
              (middle_of config t ++ (b'.' ∷ signature_of config t))
              (laws.encode-IsFree header_json),
          split-append b'.' (middle_of config t) (signature_of config t) (laws.encode-IsFree _),
          split_free b'.' (signature_of config t) (laws.encode-IsFree _),
        )
        refl

  validate-issue :
      (config config' : AuthConfig) (t now : Time)
      → validate_auth_token x (issue_auth_token x config t).0 config' now ≡ (
          if not (
            equal
              (x.hmac_sha256 config.token_secret (signing_input config t))
              (x.hmac_sha256 config'.token_secret (signing_input config t)))
          then err invalid_token
          else check_claims x config' now (some (issued_claims config t)))
  unfolding validate_auth_token validate_parts check_signature unmarshalled
  validate-issue config config' t now =
      rw (split-issue config t, validate_parts, laws.decode-encode, check_signature)
        (rw (laws.decode-encode, unmarshalled, laws.unmarshal-marshal) refl)

  -- A token that was issued under a configuration is accepted under it, with the issued claims,
  -- until the second in which it expires, and refused from then on.
  pub issue-validate :
      (config : AuthConfig) (t now : Time)
      → validate_auth_token x (issue_auth_token x config t).0 config now ≡ (
          if leb_ℤ (unix (t + auth_token_ttl)) (unix now)
          then err invalid_token
          else ok (issued_claims config t))
  issue-validate config t now =
      validate-issue config config t now ∙ (unfold check_claims issued_claims in simp equal_refl)

  -- A token of another session is refused at any time, whatever the secret and the user are.
  pub issue-validate_revoked :
      (config config' : AuthConfig) (t now : Time)
      → config.session_version ≢ config'.session_version
      → validate_auth_token x (issue_auth_token x config t).0 config' now ≡ err invalid_token
  issue-validate_revoked config config' t now ne =
      validate-issue config config' t now
      ∙ (unfold check_claims issued_claims in
          ground (arith, equal_iff config.session_version config'.session_version))

  -- A token of another user is refused too.
  pub issue-validate_renamed :
      (config config' : AuthConfig) (t now : Time)
      → config.username ≢ config'.username
      → validate_auth_token x (issue_auth_token x config t).0 config' now ≡ err invalid_token
  issue-validate_renamed config config' t now ne =
      validate-issue config config' t now
      ∙ (unfold check_claims issued_claims in
          ground (arith, equal_iff config.username config'.username))
