-- ===== src/Settings.antt =====
-- service/system_host.go, and the handlers of service/service.go for the global settings, on the
-- table of settings that they share with service/auth.go.
pub mod Reserved
pub mod Stored
pub mod Tests
use singboxconfig.Prelude.{
  ◌==◌, Str, Bool, true, false, not, ◌&&◌, ◌||◌, List, [], ◌∷◌, Option, none, some, codes, equal,
  if◌then◌else◌,
}
use singboxconfig.Prelude.Exec.{Result, ok, err, pure, lift, raise, attempt, ◌>>=◌}
use singboxconfig.Prelude.Map.{remove}
use singboxconfig.Strings.{trim_space, trim_right, is_empty, to_lower}
use singboxconfig.Auth.World.{
  AuthError, not_found, M, get_global_setting, set_global_setting, delete_global_setting,
  list_global_settings,
}
use singboxconfig.Auth.Config.{is_reserved_global_setting_key}

abbrev pub system_host_setting_key : Str
system_host_setting_key = codes "system_host"

-- The only error of `validateSystemHost`.
pub data SettingError : Type 0 where
  invalid_system_host : SettingError

-- the two fields of `url.URL` that the program looks at
pub record Url : Type 0 where
  pub scheme : Str
  pub host : Str

-- What a handler writes: the status, and the body of a success.
pub data Response : Type 0 where
  setting : Str → Str → Response
  settings_list : List (Str × Str) → Response
  deleted bad_request forbidden missing internal_server_error : Response

-- `TrimRight(…, "/")` after `TrimSpace`
unfoldable pub normalize_system_host : Str → Str
normalize_system_host raw = trim_right (λ c. c == b'/') (trim_space raw)

unfoldable pub found_setting : Str → Result AuthError Str → M Response
found_setting key (ok value) = pure (setting key value)
found_setting key (err not_found) = pure missing
found_setting key (err e) = pure internal_server_error

unfoldable pub get_setting : Str → M Response
unfolding found_setting
get_setting key =
    if is_reserved_global_setting_key key
    then pure forbidden
    else do value ← attempt (get_global_setting key); found_setting key value

unfoldable pub get_setting_by_key : Str → M Response
unfolding found_setting
get_setting_by_key key =
    if is_reserved_global_setting_key key
    then pure forbidden
    else do value ← attempt (get_global_setting key); found_setting key value

unfoldable pub was_deleted : Result AuthError (Unit {0}) → M Response
was_deleted (ok u) = pure deleted
was_deleted (err e) = pure internal_server_error

unfoldable pub delete_setting : Str → M Response
unfolding was_deleted
delete_setting key =
    if is_reserved_global_setting_key key
    then pure forbidden
    else do r ← attempt (delete_global_setting key); was_deleted r

-- `for key := range settings`: the first argument lists the entries that the loop visits.
unfoldable pub delete_reserved : List (Str × Str) → List (Str × Str) → List (Str × Str)
delete_reserved [] settings = settings
delete_reserved ((key, value) ∷ visited) settings =
    delete_reserved visited
      (if is_reserved_global_setting_key key then remove key settings else settings)

unfoldable pub listed : Result AuthError (List (Str × Str)) → M Response
unfolding delete_reserved
listed (ok settings) = pure (settings_list (delete_reserved settings settings))
listed (err e) = pure internal_server_error

unfoldable pub list_settings : M Response
unfolding listed
list_settings = do settings ← attempt list_global_settings; listed settings

unfoldable pub was_saved : Str → Str → Result AuthError (Unit {0}) → M Response
was_saved key value (ok u) = pure (setting key value)
was_saved key value (err e) = pure internal_server_error

-- the end of both handlers that write, from the normalized value on
unfoldable pub save_setting : Str → Result SettingError Str → M Response
unfolding was_saved
save_setting key (err e) = pure bad_request
save_setting key (ok value) = do r ← attempt (set_global_setting key value); was_saved key value r

-- `url.Parse` is external.
module _ (parse_url : Str → Option Url) where
  valid_url : Option Url → Result SettingError (Unit {0})
  valid_url none = err invalid_system_host
  valid_url (some parsed) =
      let scheme = to_lower parsed.scheme in
      if not (equal scheme (codes "http")) && not (equal scheme (codes "https"))
      then err invalid_system_host
      else if is_empty parsed.host
      then err invalid_system_host
      else ok tt

  unfoldable pub validate_system_host : Str → Result SettingError (Unit {0})
  unfolding valid_url
  validate_system_host raw =
      let host = normalize_system_host raw in
      if is_empty host then ok tt else valid_url (parse_url host)

  or_empty : Str → Result SettingError (Unit {0}) → Str
  or_empty host (ok u) = host
  or_empty host (err e) = []

  unfoldable pub resolved_host : Result AuthError Str → M Str
  unfolding or_empty
  resolved_host (ok value) =
      let host = normalize_system_host value in pure (or_empty host (validate_system_host host))
  resolved_host (err not_found) = pure []
  resolved_host (err e) = raise e

  unfoldable pub resolve_system_host : M Str
  unfolding resolved_host
  resolve_system_host = do
    value ← attempt (get_global_setting system_host_setting_key)
    resolved_host value

  validated : Str → Result SettingError (Unit {0}) → Result SettingError Str
  validated host (ok u) = ok host
  validated host (err e) = err e

  unfoldable pub normalize_global_setting_value : Str → Str → Result SettingError Str
  unfolding validated
  normalize_global_setting_value key value =
      if equal key system_host_setting_key
      then (let host = normalize_system_host value in validated host (validate_system_host host))
      else ok value

  -- The body is `none` where it does not bind.
  unfoldable pub create_setting : Option (Str × Str) → M Response
  unfolding save_setting
  create_setting none = pure bad_request
  create_setting (some (key, value)) =
      if is_reserved_global_setting_key key
      then pure forbidden
      else save_setting key (normalize_global_setting_value key value)

  unfoldable pub update_key : Str → Str → Str → M Response
  unfolding save_setting
  update_key key body_key value =
      if is_empty key
      then pure bad_request
      else if is_reserved_global_setting_key key
          || (not (is_empty body_key) && is_reserved_global_setting_key body_key)
      then pure forbidden
      else save_setting key (normalize_global_setting_value key value)

  -- the key of the path, and the body
  unfoldable pub update_setting : Str → Option (Str × Str) → M Response
  unfolding update_key
  update_setting param none = pure bad_request
  update_setting param (some (key, value)) =
      update_key (if is_empty param then key else param) key value
