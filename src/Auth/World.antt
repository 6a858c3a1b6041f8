-- ===== src/Auth/World.antt =====
-- What service/auth.go acts on: the table of global settings behind `s.storage`, the cache of the
-- loaded configuration, the clock and the source of random bytes. A storage call and a read of
-- random bytes may fail, and time may pass at each reading of the clock: the world says when.
use singboxconfig.Prelude.{
  ℕ, ◌+◌, Str, Bool, true, false, List, [], ◌∷◌, Option, none, some, ltb, any, if◌then◌else◌,
}
use singboxconfig.Prelude.Exec.{Result, ok, err, Exec}
use singboxconfig.Prelude.Map.{lookup, insert, remove}
use singboxconfig.Strings.{is_empty}
use singboxconfig.Entity.{Time}

-- `ErrAuthNotInitialized`, `ErrAuthConfigCorrupt`, `ErrInvalidAuthToken`, `storage.ErrNotFound`,
-- any other error of the storage, of `rand.Read` and of bcrypt, and the messages that
-- `ChangeCredentials` and `validateAdminPassword` return.
pub data AuthError : Type 0 where
  not_initialized config_corrupt invalid_token : AuthError
  not_found storage_failed random_failed hash_failed : AuthError
  password_too_short old_password_incorrect no_changes same_password : AuthError

pub record AuthConfig : Type 0 where
  pub username : Str
  pub password_hash : Str
  pub initialized_at : Time
  pub password_changed_at : Option Time
  pub token_secret : Str
  pub session_version : Str

pub record AuthCache : Type 0 where
  pub ttl : Time
  pub config : Option AuthConfig
  pub expires_at : Time

-- `faults` has the outcome of each coming storage call (true: it fails; none left: no more
-- fails), `entropy` that of each coming read of random bytes, and `delays` how much time passes
-- after each coming reading of the clock.
pub record World : Type 0 where
  pub settings : List (Str × Str)
  pub cache : AuthCache
  pub now : Time
  pub faults : List Bool
  pub entropy : List (Option Str)
  pub delays : List ℕ

abbrev pub M : Type 0 → Type 0
M A = Exec World AuthError A

-- One storage call: it fails, or goes on.
unfoldable pub storage_call : {A : Type 0} → List Bool → M A → M A
storage_call [] m w = m w
storage_call (true ∷ faults) m w = (err storage_failed, record w { faults = faults })
storage_call (false ∷ faults) m w = m (record w { faults = faults })

unfoldable pub found : Option Str → Result AuthError Str
found (some value) = ok value
found none = err not_found

-- `storage.GetGlobalSetting`
unfoldable pub get_global_setting : Str → M Str
unfolding storage_call found
get_global_setting key w = storage_call w.faults (λ v. (found (lookup key v.settings), v)) w

-- `Save` of GORM updates the row of a key or creates it. For an empty primary key it creates
-- a row at once, which is refused where there is one.
abbrev pub is_refused : Str → List (Str × Str) → Bool
is_refused (c ∷ key) settings = false
is_refused [] settings = any (λ row. is_empty row.0) settings

-- `storage.SetGlobalSetting`
unfoldable pub set_global_setting : Str → Str → M (Unit {0})
unfolding storage_call
set_global_setting key value w =
    storage_call w.faults
      (λ v.
        if is_refused key v.settings
        then (err storage_failed, v)
        else (ok tt, record v { settings = insert key value v.settings }))
      w

-- `storage.ListGlobalSettings`
unfoldable pub list_global_settings : M (List (Str × Str))
unfolding storage_call
list_global_settings w = storage_call w.faults (λ v. (ok v.settings, v)) w

unfoldable pub removed : Option Str → Str → M (Unit {0})
removed (some value) key v = (ok tt, record v { settings = remove key v.settings })
removed none key v = (err not_found, v)

-- `storage.DeleteGlobalSetting`
unfoldable pub delete_global_setting : Str → M (Unit {0})
unfolding storage_call removed
delete_global_setting key w = storage_call w.faults (λ v. removed (lookup key v.settings) key v) w

-- `rand.Read`
unfoldable pub read_random : List (Option Str) → M Str
read_random [] w = (err random_failed, w)
read_random (none ∷ entropy) w = (err random_failed, record w { entropy = entropy })
read_random (some bytes ∷ entropy) w = (ok bytes, record w { entropy = entropy })

later : List ℕ → Time → Time
later [] t = t
later (d ∷ delays) t = t + d

rest : List ℕ → List ℕ
rest [] = []
rest (d ∷ delays) = delays

-- `time.Now().UTC()`
unfoldable pub time_now : M Time
unfolding later rest
time_now w = (ok w.now, record w { now = later w.delays w.now; delays = rest w.delays })

-- `(*authCache).get`
unfoldable pub cache_get : AuthCache → Time → Option AuthConfig
cache_get c now = if ltb c.expires_at now then none else c.config

-- `(*authCache).set`
unfoldable pub cache_set : AuthCache → AuthConfig → Time → AuthCache
cache_set c config now = record c { config = some config; expires_at = now + c.ttl }

-- `(*authCache).invalidate`
unfoldable pub cache_invalidate : AuthCache → AuthCache
cache_invalidate c = record c { config = none; expires_at = 0 }
