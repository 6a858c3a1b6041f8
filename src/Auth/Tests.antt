-- ===== src/Auth/Tests.antt =====
-- Credentials and sessions at concrete inputs, with the external code of Auth.Toy.
use singboxconfig.Prelude.{
  ◌+◌, ◌*◌, Str, true, false, ◌≡◌, ◌↔◌, refl, [], ◌∷◌, none, some, arith, codes, if◌then◌else◌,
  equal, equal_iff,
}
use singboxconfig.Prelude.Int.{leb_ℤ}
use singboxconfig.Prelude.Exec.{ok, err}
use singboxconfig.Prelude.Map.{lookup, insert}
use singboxconfig.Strings.{trim_space}
use singboxconfig.Entity.{Time}
use singboxconfig.Auth.World.{AuthError, AuthConfig, World, invalid_token}
use singboxconfig.Auth.Config.{Claims, second, auth_token_ttl, unix, validate_admin_password}
use singboxconfig.Auth.Token.{issue_auth_token, issued_claims, validate_auth_token}
use singboxconfig.Auth.Token.Sessions.{Accepts, validate_auth_token_iff}
use singboxconfig.Auth.Token.Issued.{issue-validate, issue-validate_revoked}
use singboxconfig.Auth.Service.{save_auth_config}
use singboxconfig.Auth.Methods.{
  Admission, next, AuthResetResult, AuthLoginResult, get_auth_config, reset_password,
  login_with_password, auth_middleware, initialize_auth,
}
use singboxconfig.Auth.Loaded.{Stores}
use singboxconfig.Auth.RoundTrip.{rounded, get-save, IsDated}
use singboxconfig.Auth.Reset.{reset-login}
use singboxconfig.Auth.Guard.{Admits, auth_middleware_iff, initialize-Stores}
use singboxconfig.Auth.Toy.{toy, toy_tokens, toy_times, toy_hashes}

-- a time in the year 2025
abbrev noon : Time
noon = 63900000000 * second

abbrev stored : AuthConfig
stored = record {
  username = codes "admin";
  password_hash = codes "#secret";
  initialized_at = 63800000000 * second;
  password_changed_at = none;
  token_secret = codes "key";
  session_version = codes "v1";
}

abbrev renewed : AuthConfig
renewed = record stored { session_version = codes "v2" }

abbrev fresh : World
fresh = record {
  settings = [];
  cache = record { ttl = 5 * second; config = none; expires_at = 0 };
  now = noon;
  faults = [];
  entropy = some (codes "a") ∷ some (codes "b") ∷ some (codes "c") ∷ some (codes "d") ∷ [];
  delays = second ∷ [];
}

issue-validate_example :
    validate_auth_token toy (issue_auth_token toy stored noon).0 stored (noon + second) ≡ (
      if leb_ℤ (unix (noon + auth_token_ttl)) (unix (noon + second))
      then err invalid_token
      else ok (issued_claims stored noon))
issue-validate_example = issue-validate toy toy_tokens stored noon (noon + second)

issue-validate_revoked_example :
    validate_auth_token toy (issue_auth_token toy stored noon).0 renewed noon ≡ err invalid_token
issue-validate_revoked_example =
    issue-validate_revoked toy toy_tokens stored renewed noon noon
      (ground (arith, equal_iff (codes "v1") (codes "v2")))

validate_auth_token_iff_example :
    (validate_auth_token toy (issue_auth_token toy stored noon).0 stored noon
      ≡ ok (issued_claims stored noon))
    ↔ Accepts toy stored noon (issue_auth_token toy stored noon).0 (issued_claims stored noon)
validate_auth_token_iff_example =
    validate_auth_token_iff toy (issue_auth_token toy stored noon).0 stored noon
      (issued_claims stored noon)

abbrev saved_world : World
saved_world = (save_auth_config toy stored fresh).1

saving : save_auth_config toy stored fresh ≡ (ok tt, saved_world)
unfolding save_auth_config trim_space singboxconfig.Auth.World.set_global_setting
    singboxconfig.Auth.World.delete_global_setting lookup insert equal
saving = refl

stored-IsDated : IsDated toy toy_times stored
stored-IsDated = record { initialized = refl; early = omega arith; changed_early = tt }

calm : saved_world.faults ≡ []
unfolding save_auth_config trim_space singboxconfig.Auth.World.set_global_setting
    singboxconfig.Auth.World.delete_global_setting lookup insert equal
calm = refl

get-save_example : (get_auth_config toy false saved_world).0 ≡ ok (rounded toy toy_times stored)
get-save_example =
    get-save toy toy_times stored tt fresh saved_world false saving stored-IsDated calm

abbrev new_password : Str
new_password = codes "long enough"

abbrev reset_world : World
reset_world = (reset_password toy new_password fresh).1

abbrev reset_result : AuthResetResult
reset_result = record {
  username = codes "admin";
  initialized = true;
  initialized_at = noon;
  password_changed_at = noon;
}

resetting : reset_password toy new_password fresh ≡ (ok reset_result, reset_world)
unfolding reset_password validate_admin_password singboxconfig.Auth.World.time_now get_auth_config
    singboxconfig.Auth.Service.load_auth_config singboxconfig.Auth.Service.read_auth_setting
    singboxconfig.Auth.World.get_global_setting lookup
    singboxconfig.Auth.Service.generate_random_url_safe_token singboxconfig.Auth.World.read_random
    singboxconfig.Auth.Methods.write_reset singboxconfig.Auth.Methods.hash_password save_auth_config
    trim_space singboxconfig.Auth.World.set_global_setting
resetting = refl

reset_calm : reset_world.faults ≡ []
unfolding reset_password validate_admin_password singboxconfig.Auth.World.time_now get_auth_config
    singboxconfig.Auth.Service.load_auth_config singboxconfig.Auth.Service.read_auth_setting
    singboxconfig.Auth.World.get_global_setting lookup
    singboxconfig.Auth.Service.generate_random_url_safe_token singboxconfig.Auth.World.read_random
    singboxconfig.Auth.Methods.write_reset singboxconfig.Auth.Methods.hash_password save_auth_config
    trim_space singboxconfig.Auth.World.set_global_setting
reset_calm = refl

reset-login_example :
    (l : AuthLoginResult) × ((login_with_password toy reset_result.username new_password
        reset_world).0
      ≡ ok l)
    × (l.username ≡ reset_result.username)
reset-login_example =
    reset-login toy toy_times toy_hashes new_password reset_result fresh reset_world resetting
      reset_calm refl (omega arith) (omega arith)

abbrev header : Str
header = codes "Bearer x"

auth_middleware_iff_example :
    ((auth_middleware toy header saved_world).0 ≡ ok (next (codes "admin")))
    ↔ Admits toy header saved_world (codes "admin")
auth_middleware_iff_example = auth_middleware_iff toy header (codes "admin") saved_world

stored-Stores : Stores toy stored saved_world.settings
unfolding lookup save_auth_config trim_space singboxconfig.Auth.World.set_global_setting
    singboxconfig.Auth.World.delete_global_setting insert equal
    singboxconfig.Auth.Config.parse_rfc3339_setting singboxconfig.Auth.Config.format_rfc3339
stored-Stores = record {
  username = refl;
  password_hash = refl;
  token_secret = refl;
  session_version = refl;
  secret_set = refl;
  version_set = refl;
  initialized_at = refl;
  changed_at = refl;
}

initialize-Stores_example :
    ((initialize_auth toy saved_world).0
      ≡ ok (record {
        initialized = false;
        username = stored.username;
        password = [];
        generated_password = false;
        initialized_at = stored.initialized_at;
      }))
    × ((initialize_auth toy saved_world).1.settings ≡ saved_world.settings)
initialize-Stores_example = initialize-Stores toy stored saved_world calm stored-Stores
