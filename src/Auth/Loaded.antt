-- ===== src/Auth/Loaded.antt =====
-- `getAuthConfig` on a table that holds a configuration, where the storage does not fail.
use singboxconfig.Prelude.{Str, false, ◌≡◌, refl, List, [], Option, none, some, arith}
use singboxconfig.Prelude.Map.{lookup}
use singboxconfig.Prelude.Exec.{Result, ok, err}
use singboxconfig.Strings.{trim_space, is_empty}
use singboxconfig.Entity.{Time}
use singboxconfig.Auth.World.{AuthError, AuthConfig, World, get_global_setting, cache_set}
use singboxconfig.Auth.Config.{
  External, auth_username_setting_key, auth_password_hash_setting_key,
  auth_initialized_at_setting_key, auth_password_changed_at_setting_key,
  auth_token_secret_setting_key, auth_session_version_setting_key, parse_rfc3339_setting,
}
use singboxconfig.Auth.Service.{
  exists, read_auth_setting, read_initialized_at, changed_at, read_password_changed_at,
  or_generated, both_exist, load_auth_config,
}

-- No coming storage call fails.
abbrev pub IsCalm : World → Type 0
IsCalm w = w.faults ≡ []

read_calm : (k : Str) (w : World) → IsCalm w → read_auth_setting k w ≡ (ok (lookup k w.settings), w)
unfolding read_auth_setting get_global_setting exists
read_calm k w calm = ground arith

module _ (x : External) where
  abbrev pub read_time : Option Str → Result AuthError Time
  read_time none = ok 0
  read_time (some value) = parse_rfc3339_setting x value

  abbrev pub read_change : Option Str → Result AuthError (Option Time)
  read_change none = ok none
  read_change (some value) = elim (parse_rfc3339_setting x value) [
    | ok t ↦ ok (changed_at x t)
    | err e ↦ err e
  ]

  -- The table holds the configuration, with no field to be drawn anew.
  pub record Stores (config : AuthConfig) (s : List (Str × Str)) : Type 0 where
    pub username : lookup auth_username_setting_key s ≡ some config.username
    pub password_hash : lookup auth_password_hash_setting_key s ≡ some config.password_hash
    pub token_secret : lookup auth_token_secret_setting_key s ≡ some config.token_secret
    pub session_version : lookup auth_session_version_setting_key s ≡ some config.session_version
    pub secret_set : is_empty (trim_space config.token_secret) ≡ false
    pub version_set : is_empty (trim_space config.session_version) ≡ false
    pub initialized_at :
        read_time (lookup auth_initialized_at_setting_key s) ≡ ok config.initialized_at
    pub changed_at :
        read_change (lookup auth_password_changed_at_setting_key s) ≡ ok config.password_changed_at

  read_initialized_at-lift :
      (o : Option Str) (w : World) → read_initialized_at x o w ≡ (read_time o, w)
  unfolding read_initialized_at
  read_initialized_at-lift none w = refl
  read_initialized_at-lift (some value) w = refl

  read_password_changed_at-lift :
      (o : Option Str) (w : World) → read_password_changed_at x o w ≡ (read_change o, w)
  unfolding read_password_changed_at
  read_password_changed_at-lift none w = refl
  read_password_changed_at-lift (some value) w = ground arith

  or_generated-set :
      (value : Str) (w : World)
      → is_empty (trim_space value) ≡ false
      → or_generated x (some value) w ≡ (ok (value, false), w)
  unfolding or_generated
  or_generated-set value w h = ground arith

  pub load-calm :
      (config : AuthConfig) (now : Time) (w : World)
      → IsCalm w
      → Stores config w.settings
      → load_auth_config x now w ≡ (ok config, record w { cache = cache_set w.cache config now })
  unfolding load_auth_config both_exist
  load-calm config now w calm st =
      rw
        (
          read_calm auth_username_setting_key w calm,
          st.username,
          read_calm auth_password_hash_setting_key w calm,
          st.password_hash,
          read_calm auth_initialized_at_setting_key w calm,
          read_initialized_at-lift,
          st.initialized_at,
          read_calm auth_password_changed_at_setting_key w calm,
          read_password_changed_at-lift,
          st.changed_at,
          read_calm auth_token_secret_setting_key w calm,
          read_calm auth_session_version_setting_key w calm,
          st.token_secret,
          or_generated-set config.token_secret w st.secret_set,
          st.session_version,
          or_generated-set config.session_version w st.version_set,
        )
        refl
