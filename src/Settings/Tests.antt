-- ===== src/Settings/Tests.antt =====
-- A table with a secret of service/auth.go, and requests to the settings API.
use singboxconfig.Prelude.{
  ◌⊎◌, Str, Bool, true, false, List, [], ◌∷◌, Option, none, some, ◌≡◌, refl, codes, equal,
  if◌then◌else◌,
}
use singboxconfig.Prelude.Exec.{ok}
use singboxconfig.Prelude.Map.{lookup}
use singboxconfig.Auth.World.{is_refused, World}
use singboxconfig.Auth.Config.{is_reserved_global_setting_key, auth_token_secret_setting_key}
use singboxconfig.Settings.{
  internal_server_error, Url, Response, setting, settings_list, bad_request, forbidden, get_setting,
  create_setting, resolve_system_host, list_settings, normalize_global_setting_value,
  system_host_setting_key,
}
use singboxconfig.Settings.Reserved.{
  Request, create, update, delete_one, get_one, list_all, handle, serve, serve-reserved,
}
use singboxconfig.Settings.Stored.{Hides, handle-Hides, create-get, lookup-delete_reserved}
use singboxconfig.Settings.{delete_reserved}

-- a `url.Parse` that knows one prefix
abbrev parse_url : Str → Option Url
parse_url raw =
    if equal raw (codes "http://a.b")
    then some (record { scheme = codes "http"; host = codes "a.b" })
    else none

abbrev world : World
world = record {
  settings = (auth_token_secret_setting_key, codes "s") ∷ (codes "k", codes "v") ∷ [];
  cache = record { ttl = 5; config = none; expires_at = 0 };
  now = 1;
  faults = [];
  entropy = [];
  delays = [];
}

abbrev requests : List Request
requests =
    create (some (codes " AUTH.token_secret", codes "x"))
    ∷ update (codes "auth.token_secret") (some ([], codes "x"))
    ∷ delete_one auth_token_secret_setting_key
    ∷ create (some (system_host_setting_key, codes " http://a.b/ "))
    ∷ list_all
    ∷ []

settings_tests :
    ((handle parse_url list_all world).0 ≡ ok (settings_list ((codes "k", codes "v") ∷ [])))
    × ((handle parse_url (get_one (codes "Auth.Token_Secret")) world).0 ≡ ok forbidden)
    × ((handle parse_url (create (some (system_host_setting_key, codes "ftp://a.b"))) world).0
        ≡ ok bad_request)
    × ((resolve_system_host parse_url (serve parse_url requests world)).0 ≡ ok (codes "http://a.b"))
unfolding list_settings is_reserved_global_setting_key get_setting create_setting
    normalize_global_setting_value resolve_system_host lookup delete_reserved
    singboxconfig.Settings.update_setting singboxconfig.Settings.update_key
    singboxconfig.Settings.validate_system_host singboxconfig.Settings.normalize_system_host
    singboxconfig.Settings.delete_setting singboxconfig.Settings.found_setting
    singboxconfig.Settings.listed singboxconfig.Settings.or_empty
    singboxconfig.Settings.resolved_host singboxconfig.Settings.save_setting
    singboxconfig.Settings.valid_url singboxconfig.Settings.validated
    singboxconfig.Settings.was_deleted singboxconfig.Settings.was_saved
    singboxconfig.Auth.World.list_global_settings singboxconfig.Auth.World.get_global_setting
    singboxconfig.Auth.World.set_global_setting singboxconfig.Auth.World.delete_global_setting
    singboxconfig.Auth.World.found singboxconfig.Auth.World.removed
    singboxconfig.Auth.World.storage_call singboxconfig.Strings.has_prefix
    singboxconfig.Strings.to_lower singboxconfig.Strings.trim_space singboxconfig.Strings.is_space
    singboxconfig.Strings.trim_left singboxconfig.Strings.trim_right singboxconfig.Strings.trim_step
    singboxconfig.Prelude.Map.remove singboxconfig.Prelude.Map.insert equal
settings_tests = (refl, refl, refl, refl)

-- `serve-reserved` on these requests.
serve-reserved_example :
    lookup auth_token_secret_setting_key (serve parse_url requests world).settings
    ≡ lookup auth_token_secret_setting_key world.settings
unfolding is_reserved_global_setting_key singboxconfig.Strings.has_prefix
    singboxconfig.Strings.to_lower singboxconfig.Strings.trim_space
serve-reserved_example = serve-reserved parse_url auth_token_secret_setting_key requests world refl

-- `handle-Hides` on the list of all settings.
handle-Hides_example : Hides auth_token_secret_setting_key (handle parse_url list_all world).0
unfolding is_reserved_global_setting_key singboxconfig.Strings.has_prefix
    singboxconfig.Strings.to_lower singboxconfig.Strings.trim_space
handle-Hides_example = handle-Hides parse_url auth_token_secret_setting_key list_all world refl

-- `lookup-delete_reserved` on a reserved key.
lookup-delete_reserved_example :
    lookup auth_token_secret_setting_key (delete_reserved world.settings world.settings) ≡ none
unfolding is_reserved_global_setting_key singboxconfig.Strings.has_prefix
    singboxconfig.Strings.to_lower singboxconfig.Strings.trim_space
lookup-delete_reserved_example = lookup-delete_reserved auth_token_secret_setting_key world.settings

-- `create-get` on the host of the system.
create-get_example :
    ((is_refused system_host_setting_key world.settings ≡ false)
      × ((get_setting system_host_setting_key
            (create_setting parse_url
              (some (system_host_setting_key, codes "http://a.b/"))
              world).1).0
          ≡ ok (setting system_host_setting_key (codes "http://a.b"))))
    ⊎ ((is_refused system_host_setting_key world.settings ≡ true)
        × (create_setting parse_url (some (system_host_setting_key, codes "http://a.b/")) world
            ≡ (ok internal_server_error, world)))
unfolding is_reserved_global_setting_key singboxconfig.Strings.has_prefix
    singboxconfig.Strings.to_lower singboxconfig.Strings.trim_space normalize_global_setting_value
    equal singboxconfig.Settings.validate_system_host singboxconfig.Settings.normalize_system_host
create-get_example =
    create-get parse_url system_host_setting_key (codes "http://a.b/") (codes "http://a.b") world
      refl refl refl

-- the key may be empty once
refused_test :
    (create_setting parse_url
      (some ([], codes "v"))
      (record world { settings = ([], codes "u") ∷ [] })).0
    ≡ ok internal_server_error
unfolding create_setting singboxconfig.Settings.save_setting singboxconfig.Settings.was_saved
    singboxconfig.Auth.World.set_global_setting singboxconfig.Auth.World.storage_call
    is_reserved_global_setting_key singboxconfig.Strings.has_prefix singboxconfig.Strings.to_lower
    singboxconfig.Strings.trim_space normalize_global_setting_value equal singboxconfig.Prelude.any
refused_test = refl
