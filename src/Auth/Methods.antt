-- ===== src/Auth/Methods.antt =====
-- The entry points of service/auth.go: first start, reset, login, change of credentials, and the
-- guard in front of the admin API.
use singboxconfig.Prelude.{
  ◌==◌, Str, Bool, true, false, not, ◌&&◌, [], Option, none, some, codes, equal, if◌then◌else◌,
}
use singboxconfig.Prelude.Exec.{Result, ok, err, pure, raise, lift, attempt, ◌>>=◌, ◌>>◌}
use singboxconfig.Strings.{trim_space, is_empty}
use singboxconfig.Entity.{Time}
use singboxconfig.Auth.World.{
  AuthError, not_initialized, invalid_token, hash_failed, old_password_incorrect, no_changes,
  same_password, AuthConfig, M, read_random, time_now, cache_get,
}
use singboxconfig.Auth.Config.{External, validate_admin_password}
use singboxconfig.Auth.Token.{parse_bearer_token, issue_auth_token, validate_auth_token}
use singboxconfig.Auth.Service.{save_auth_config, load_auth_config, generate_random_url_safe_token}

pub record AuthInitResult : Type 0 where
  pub initialized : Bool
  pub username : Str
  pub password : Str
  pub generated_password : Bool
  pub initialized_at : Time

pub record AuthResetResult : Type 0 where
  pub username : Str
  pub initialized : Bool
  pub initialized_at : Time
  pub password_changed_at : Time

pub record AuthLoginResult : Type 0 where
  pub username : Str
  pub token : Str
  pub expires_at : Time
  pub issued_at : Time
  pub initialized_at : Time
  pub password_changed_at : Option Time

-- how a request leaves `AuthMiddleware`: on to the handler with the user's name, or with a status
pub data Admission : Type 0 where
  next : Str → Admission
  unauthorized : Admission
  internal_server_error : Admission

module _ (x : External) where
  unfoldable pub cached_or_load : Bool → Time → Option AuthConfig → M AuthConfig
  cached_or_load false now (some config) = pure config
  cached_or_load _ now _ = load_auth_config x now

  unfoldable pub get_auth_config : Bool → M AuthConfig
  unfolding cached_or_load
  get_auth_config force_refresh = do
    now ← time_now
    (λ w. cached_or_load force_refresh now (cache_get w.cache now) w)

  unfoldable pub hashed : Option Str → M Str
  hashed none = raise hash_failed
  hashed (some hash) = pure hash

  -- `bcrypt.GenerateFromPassword`, which draws its salt
  unfoldable pub hash_password : Str → M Str
  unfolding hashed
  hash_password password = do
    salt ← λ w. read_random w.entropy w
    hashed (x.generate_from_password salt password)

  unfoldable pub initialize : Result AuthError AuthConfig → M AuthInitResult
  initialize (ok config) = pure (record {
    initialized = false;
    username = config.username;
    password = [];
    generated_password = false;
    initialized_at = config.initialized_at;
  })
  initialize (err not_initialized) = do
    password_hash ← hash_password (codes "admin")
    initialized_at ← time_now
    session_version ← generate_random_url_safe_token x
    token_secret ← generate_random_url_safe_token x
    save_auth_config x (record {
      username = codes "admin";
      password_hash = password_hash;
      initialized_at = initialized_at;
      password_changed_at = none;
      token_secret = token_secret;
      session_version = session_version;
    })
    pure (record {
      initialized = true;
      username = codes "admin";
      password = codes "admin";
      generated_password = false;
      initialized_at = initialized_at;
    })
  initialize (err e) = raise e

  unfoldable pub initialize_auth : M AuthInitResult
  unfolding initialize
  initialize_auth = do config ← attempt (get_auth_config true); initialize config

  -- the switch of `ResetPassword`: the loaded configuration, or a first one; and `initialized`
  unfoldable pub to_reset : Time → Result AuthError AuthConfig → M (AuthConfig × Bool)
  to_reset now (ok config) = pure (config, false)
  to_reset now (err not_initialized) = do
    session_version ← generate_random_url_safe_token x
    token_secret ← generate_random_url_safe_token x
    pure (
      record {
        username = codes "admin";
        password_hash = [];
        initialized_at = now;
        password_changed_at = none;
        token_secret = token_secret;
        session_version = session_version;
      },
      true,
    )
  to_reset now (err e) = raise e

  -- `ResetPassword` from the salting of the new password on
  unfoldable pub save_reset : Time → AuthConfig → Bool → M AuthResetResult
  save_reset now config initialized = do
    save_auth_config x config
    pure (record {
      username = config.username;
      initialized = initialized;
      initialized_at = config.initialized_at;
      password_changed_at = now;
    })

  -- the fields that a reset sets
  abbrev pub reset_config : Time → AuthConfig → Str → Str → AuthConfig
  reset_config now config password_hash session_version = record config {
    password_hash = password_hash;
    session_version = session_version;
    password_changed_at = some now;
    initialized_at = (if config.initialized_at == 0 then now else config.initialized_at);
  }

  unfoldable pub write_reset : Str → Time → AuthConfig × Bool → M AuthResetResult
  unfolding save_reset
  write_reset new_password now target = do
    password_hash ← hash_password new_password
    session_version ← generate_random_url_safe_token x
    save_reset now (reset_config now target.0 password_hash session_version) target.1

  unfoldable pub reset_password : Str → M AuthResetResult
  unfolding to_reset
  reset_password new_password = do
    lift (validate_admin_password new_password)
    now ← time_now
    loaded ← attempt (get_auth_config true)
    target ← to_reset now loaded
    write_reset new_password now target

  -- `now := time.Now().UTC()` and the token, at the end of a login and of a change
  unfoldable pub log_in : AuthConfig → M AuthLoginResult
  log_in config = do
    now ← time_now
    let issued : Str × Time = issue_auth_token x config now
    pure (record {
      username = config.username;
      token = issued.0;
      expires_at = issued.1;
      issued_at = now;
      initialized_at = config.initialized_at;
      password_changed_at = config.password_changed_at;
    })

  unfoldable pub login_with_password : Str → Str → M AuthLoginResult
  unfolding log_in
  login_with_password username password = do
    config ← get_auth_config false
    if not (equal username config.username)
        then raise invalid_token
        else if not (x.compare_hash_and_password config.password_hash password)
        then raise invalid_token
        else log_in config

  -- the block under `if passwordChanged`
  unfoldable pub change_password : Bool → Str → Str → AuthConfig → M AuthConfig
  change_password false old_password new_password updated = pure updated
  change_password true old_password new_password updated = do
    lift (validate_admin_password new_password)
    (if equal old_password new_password then raise same_password else pure tt)
    password_hash ← hash_password new_password
    now ← time_now
    pure (record updated { password_hash = password_hash; password_changed_at = some now })

  unfoldable pub change_credentials : Str → Str → Str → M AuthLoginResult
  unfolding log_in change_password
  change_credentials old_password new_username new_password = do
    config ← get_auth_config true
    (if x.compare_hash_and_password config.password_hash old_password
        then pure tt
        else raise old_password_incorrect)
    let next_username : Str = trim_space new_username
    let username_changed : Bool =
        not (is_empty next_username) && not (equal next_username config.username)
    let password_changed : Bool = not (is_empty (trim_space new_password))
    (if not username_changed && not password_changed then raise no_changes else pure tt)
    let username : Str = (if username_changed then next_username else config.username)
    updated ←
        change_password password_changed old_password new_password
          (record config { username = username })
    session_version ← generate_random_url_safe_token x
    save_auth_config x (record updated { session_version = session_version })
    log_in (record updated { session_version = session_version })

  unfoldable pub admit : Str → Result AuthError AuthConfig → M Admission
  admit token (err e) = pure internal_server_error
  admit token (ok config) = do
    now ← time_now
    elim (validate_auth_token x token config now) [
      | ok claims ↦ pure (next claims.subject)
      | err e ↦ pure unauthorized
    ]

  unfoldable pub bearer_admission : Option Str → M Admission
  unfolding admit
  bearer_admission none = pure unauthorized
  bearer_admission (some token) = do config ← attempt (get_auth_config false); admit token config

  unfoldable pub auth_middleware : Str → M Admission
  unfolding bearer_admission
  auth_middleware authorization = bearer_admission (parse_bearer_token authorization)
