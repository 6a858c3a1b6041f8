-- ===== src/Auth/Config.antt =====
-- The external code that service/auth.go calls, the constants of the file and its small helpers.
use singboxconfig.Prelude.{
  ℕ, ◌+◌, ◌*◌, ◌/◌, Str, Bool, [], ◌∷◌, Option, none, some, ltb, ◌==◌, if◌then◌else◌, codes,
}
use singboxconfig.Prelude.Int.{ℤ, sub_ℕ}
use singboxconfig.Prelude.Exec.{Result, ok, err}
use singboxconfig.Strings.{trim_space, is_empty, has_prefix, to_lower}
use singboxconfig.Entity.{Time}
use singboxconfig.Auth.World.{AuthError, config_corrupt, password_too_short}

pub record Claims : Type 0 where
  pub subject : Str
  pub expires_at_unix : ℤ
  pub issued_at_unix : ℤ
  pub session_version : Str
  pub type : Str

-- bcrypt, HMAC-SHA256, base64, encoding/json and the layout RFC3339 of package time.
pub record External : Type 0 where
  -- `bcrypt.GenerateFromPassword`, with the salt that it draws, and `CompareHashAndPassword`
  pub generate_from_password : Str → Str → Option Str
  pub compare_hash_and_password : Str → Str → Bool
  pub hmac_sha256 : Str → Str → Str
  -- `base64.RawURLEncoding`
  pub base64_encode : Str → Str
  pub base64_decode : Str → Option Str
  pub marshal_claims : Claims → Str
  pub unmarshal_claims : Str → Option Claims
  -- `t.UTC().Format(time.RFC3339)` and `time.Parse(time.RFC3339, s)`
  pub format_time : Time → Str
  pub parse_time : Str → Option Time

abbrev pub auth_username_setting_key : Str
auth_username_setting_key = codes "auth.username"

abbrev pub auth_password_hash_setting_key : Str
auth_password_hash_setting_key = codes "auth.password_hash"

abbrev pub auth_initialized_at_setting_key : Str
auth_initialized_at_setting_key = codes "auth.initialized_at"

abbrev pub auth_password_changed_at_setting_key : Str
auth_password_changed_at_setting_key = codes "auth.password_changed_at"

abbrev pub auth_token_secret_setting_key : Str
auth_token_secret_setting_key = codes "auth.token_secret"

abbrev pub auth_session_version_setting_key : Str
auth_session_version_setting_key = codes "auth.session_version"

abbrev pub min_admin_password_length : ℕ
min_admin_password_length = 8

abbrev pub second : ℕ
second = 1000000000

-- `authTokenTTL`
abbrev pub auth_token_ttl : Time
auth_token_ttl = 24 * 3600 * second

-- `t.Unix()`: the seconds since 1970
abbrev pub unix : Time → ℤ
unix t = sub_ℕ (t / second) 62135596800

-- `isReservedGlobalSettingKey`
unfoldable pub is_reserved_global_setting_key : Str → Bool
is_reserved_global_setting_key key = has_prefix (to_lower (trim_space key)) (codes "auth.")

-- `len(s)` in bytes of UTF-8
byte_length : Str → ℕ
byte_length [] = 0
byte_length (c ∷ s) =
    (if ltb c 0x80 then 1 else if ltb c 0x800 then 2 else if ltb c 0x10000 then 3 else 4)
    + byte_length s

unfoldable pub validate_admin_password : Str → Result AuthError (Unit {0})
unfolding byte_length
validate_admin_password password =
    if ltb (byte_length password) min_admin_password_length then err password_too_short else ok tt

module _ (x : External) where
  unfoldable pub format_rfc3339 : Time → Str
  format_rfc3339 t = if t == 0 then [] else x.format_time t

  parsed : Option Time → Result AuthError Time
  parsed none = err config_corrupt
  parsed (some t) = ok t

  unfoldable pub parse_rfc3339_setting : Str → Result AuthError Time
  unfolding parsed
  parse_rfc3339_setting value =
      if is_empty (trim_space value) then ok 0 else parsed (x.parse_time value)
