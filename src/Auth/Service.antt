-- ===== src/Auth/Service.antt =====
-- The methods of `Service` in service/auth.go that load, save and change the credentials. Each
-- returns on the first error, with what it has written until then.
use singboxconfig.Prelude.{◌==◌, Str, Bool, true, false, ◌||◌, Option, none, some, if◌then◌else◌}
use singboxconfig.Prelude.Exec.{Result, ok, err, pure, raise, lift, attempt, ◌>>=◌, ◌>>◌}
use singboxconfig.Strings.{trim_space, is_empty}
use singboxconfig.Entity.{Time}
use singboxconfig.Auth.World.{
  AuthError, not_initialized, config_corrupt, not_found, AuthConfig, M, get_global_setting,
  set_global_setting, delete_global_setting, read_random, cache_set, cache_invalidate,
}
use singboxconfig.Auth.Config.{
  External, auth_username_setting_key, auth_password_hash_setting_key,
  auth_initialized_at_setting_key, auth_password_changed_at_setting_key,
  auth_token_secret_setting_key, auth_session_version_setting_key, format_rfc3339,
  parse_rfc3339_setting,
}

-- `none` is `exists == false`
unfoldable pub exists : Result AuthError Str → M (Option Str)
exists (ok value) = pure (some value)
exists (err not_found) = pure none
exists (err e) = raise e

unfoldable pub read_auth_setting : Str → M (Option Str)
unfolding exists
read_auth_setting key = do value ← attempt (get_global_setting key); exists value

unfoldable pub invalidate_auth_cache : M (Unit {0})
invalidate_auth_cache w = (ok tt, record w { cache = cache_invalidate w.cache })

-- one of the four tests for a missing field
unfoldable pub require_field : Str → M (Unit {0})
require_field value = if is_empty (trim_space value) then raise config_corrupt else pure tt

unfoldable pub ignore_not_found : Result AuthError (Unit {0}) → M (Unit {0})
ignore_not_found (ok u) = pure tt
ignore_not_found (err not_found) = pure tt
ignore_not_found (err e) = raise e

module _ (x : External) where
  unfoldable pub save_initialized_at : Time → M (Unit {0})
  save_initialized_at t =
      if t == 0
      then pure tt
      else set_global_setting auth_initialized_at_setting_key (format_rfc3339 x t)

  unfoldable pub save_password_changed_at : Option Time → M (Unit {0})
  unfolding ignore_not_found
  save_password_changed_at (some t) =
      set_global_setting auth_password_changed_at_setting_key (format_rfc3339 x t)
  save_password_changed_at none = do
    r ← attempt (delete_global_setting auth_password_changed_at_setting_key)
    ignore_not_found r

  unfoldable pub save_auth_config : AuthConfig → M (Unit {0})
  unfolding require_field save_initialized_at save_password_changed_at invalidate_auth_cache
  save_auth_config config = do
    require_field config.username
    require_field config.password_hash
    require_field config.token_secret
    require_field config.session_version
    set_global_setting auth_username_setting_key config.username
    set_global_setting auth_password_hash_setting_key config.password_hash
    set_global_setting auth_token_secret_setting_key config.token_secret
    set_global_setting auth_session_version_setting_key config.session_version
    save_initialized_at config.initialized_at
    save_password_changed_at config.password_changed_at
    invalidate_auth_cache

  unfoldable pub generate_random_url_safe_token : M Str
  generate_random_url_safe_token = do
    bytes ← λ w. read_random w.entropy w
    pure (x.base64_encode bytes)

  -- `initializedAt`, zero where the setting does not exist
  unfoldable pub read_initialized_at : Option Str → M Time
  read_initialized_at none = pure 0
  read_initialized_at (some value) = lift (parse_rfc3339_setting x value)

  unfoldable pub changed_at : Time → Option Time
  changed_at t = if t == 0 then none else some t

  unfoldable pub read_password_changed_at : Option Str → M (Option Time)
  unfolding changed_at
  read_password_changed_at none = pure none
  read_password_changed_at (some value) = do
    t ← lift (parse_rfc3339_setting x value)
    pure (changed_at t)

  -- a stored text and whether it is new: a missing or blank one is drawn
  unfoldable pub or_generated : Option Str → M (Str × Bool)
  or_generated none = do token ← generate_random_url_safe_token; pure (token, true)
  or_generated (some value) =
      if is_empty (trim_space value)
      then (do token ← generate_random_url_safe_token; pure (token, true))
      else pure (value, false)

  -- the switch on which of the two settings exist
  unfoldable pub both_exist : Option Str → Option Str → M (Str × Str)
  both_exist (some username) (some password_hash) = pure (username, password_hash)
  both_exist none none = raise not_initialized
  both_exist _ _ = raise config_corrupt

  -- `getAuthConfig` behind the look into the cache
  unfoldable pub load_auth_config : Time → M AuthConfig
  unfolding or_generated both_exist read_initialized_at read_password_changed_at
  load_auth_config now = do
    username ← read_auth_setting auth_username_setting_key
    password_hash ← read_auth_setting auth_password_hash_setting_key
    names ← both_exist username password_hash
    initialized ← read_auth_setting auth_initialized_at_setting_key
    initialized_at ← read_initialized_at initialized
    changed ← read_auth_setting auth_password_changed_at_setting_key
    password_changed_at ← read_password_changed_at changed
    secret ← read_auth_setting auth_token_secret_setting_key
    version ← read_auth_setting auth_session_version_setting_key
    token_secret ← or_generated secret
    session_version ← or_generated version
    let config : AuthConfig = record {
      username = names.0;
      password_hash = names.1;
      initialized_at = initialized_at;
      password_changed_at = password_changed_at;
      token_secret = token_secret.0;
      session_version = session_version.0;
    }
    (if token_secret.1 || session_version.1 then save_auth_config config else pure tt)
    (λ w. (ok config, record w { cache = cache_set w.cache config now }))
