-- ===== src/Auth/RoundTrip.antt =====
-- What is saved is loaded again, its times cut to seconds.
use singboxconfig.Prelude.{
  ◌*◌, ◌/◌, ◌<◌, ◌==◌, Str, Bool, false, ◌≡◌, refl, ◌∙◌, ap, List, Option, none, some, arith, equal,
  equal_iff, equal_refl, if◌then◌else◌, Bool-cases, inl, inr,
}
use singboxconfig.Prelude.Map.{lookup, lookup-insert, lookup-remove}
use singboxconfig.Prelude.Exec.{ok}
use singboxconfig.Strings.{trim_space, is_empty}
use singboxconfig.Entity.{Time}
use singboxconfig.Auth.World.{
  AuthConfig, AuthCache, World, cache_invalidate, cache_set, cache_get, time_now,
}
use singboxconfig.Auth.Config.{
  External, second, auth_username_setting_key, auth_password_hash_setting_key,
  auth_initialized_at_setting_key, auth_password_changed_at_setting_key,
  auth_token_secret_setting_key, auth_session_version_setting_key, format_rfc3339,
  parse_rfc3339_setting,
}
use singboxconfig.Auth.Service.{changed_at, save_auth_config, load_auth_config}
use singboxconfig.Auth.Methods.{get_auth_config, cached_or_load}
use singboxconfig.Auth.Saved.{
  cleared, with_names, with_initialized_at, with_changed_at, saved_settings, IsComplete, save-Saved,
}
use singboxconfig.Auth.Loaded.{IsCalm, read_change, Stores, load-calm}

-- January 1 of the year 10000, before which RFC3339 can write a time.
abbrev pub year_10000 : Time
year_10000 = 3652059 * 86400 * second

abbrev pub floor : Time → Time
floor t = t / second * second

pub record TimeLaws (x : External) : Type 0 where
  pub parse-format : (t : Time) → t < year_10000 → x.parse_time (x.format_time t) ≡ some (floor t)
  pub format_shown : (t : Time) → is_empty (trim_space (x.format_time t)) ≡ false

-- the world after one reading of the clock
abbrev pub after_clock : World → World
after_clock w = (time_now w).1

lookup-cleared :
    (j : Str) (s : List (Str × Str))
    → lookup j (cleared s)
      ≡ (if equal auth_password_changed_at_setting_key j then none else lookup j s)
lookup-cleared j s = ground (
  arith,
  lookup-remove auth_password_changed_at_setting_key j s,
  equal_iff auth_password_changed_at_setting_key j,
)

module _ (x : External) (laws : TimeLaws x) where
  abbrev pub rounded_change : Option Time → Option Time
  rounded_change none = none
  rounded_change (some t) = changed_at x (floor t)

  abbrev pub rounded : AuthConfig → AuthConfig
  rounded config = record config {
    initialized_at = floor config.initialized_at;
    password_changed_at = rounded_change config.password_changed_at;
  }

  parse-format_rfc3339 :
      (t : Time) → t < year_10000 → parse_rfc3339_setting x (format_rfc3339 x t) ≡ ok (floor t)
  unfolding parse_rfc3339_setting format_rfc3339
  parse-format_rfc3339 t early = elim (Bool-cases (t == 0)) [
    | inl z ↦ unfold trim_space in rw z (ground arith)
    | inr p ↦ rw (p, laws.format_shown t, laws.parse-format t early) refl
  ]

  -- The times of a configuration are before the year 10000, and it was initialized.
  pub record IsDated (config : AuthConfig) : Type 0 where
    pub initialized : (config.initialized_at == 0) ≡ false
    pub early : config.initialized_at < year_10000
    pub changed_early : elim config.password_changed_at as (λ o. Type 0) [
      | none ↦ Unit
      | some t ↦ t < year_10000
    ]

  lookup-with_changed_at :
      (j : Str) (o : Option Time) (s : List (Str × Str))
      → equal auth_password_changed_at_setting_key j ≡ false
      → equal j auth_password_changed_at_setting_key ≡ false
      → lookup j (with_changed_at x o s) ≡ lookup j s
  lookup-with_changed_at j none s e f = rw (lookup-cleared j s, e)
  lookup-with_changed_at j (some t) s e f = rw (lookup-insert, f)

  lookup-with_initialized_at :
      (j : Str) (t : Time) (s : List (Str × Str))
      → equal j auth_initialized_at_setting_key ≡ false
      → lookup j (with_initialized_at x t s) ≡ lookup j s
  lookup-with_initialized_at j t s e =
      ground (arith, lookup-insert auth_initialized_at_setting_key j (format_rfc3339 x t) s)

  read_change-with_changed_at :
      (o : Option Time) (s : List (Str × Str))
      → elim o as (λ o. Type 0) [ none ↦ Unit | some t ↦ t < year_10000 ]
      → read_change x (lookup auth_password_changed_at_setting_key (with_changed_at x o s))
        ≡ ok (rounded_change o)
  read_change-with_changed_at none s early = rw (lookup-cleared, equal_refl)
  read_change-with_changed_at (some t) s early =
      rw (lookup-insert, equal_refl) (ground (arith, parse-format_rfc3339 t early))

  names-Stored :
      (key value : Str) (config : AuthConfig) (s : List (Str × Str))
      → equal auth_password_changed_at_setting_key key ≡ false
      → equal key auth_password_changed_at_setting_key ≡ false
      → equal key auth_initialized_at_setting_key ≡ false
      → lookup key (with_names config s) ≡ some value
      → lookup key (saved_settings x config s) ≡ some value
  names-Stored key value config s a b c h =
      lookup-with_changed_at key config.password_changed_at _ a b
      ∙ lookup-with_initialized_at key config.initialized_at _ c
      ∙ h

  saved-Stores :
      (config : AuthConfig) (s : List (Str × Str))
      → IsComplete x config
      → IsDated config
      → Stores x (rounded config) (saved_settings x config s)
  unfolding equal
  saved-Stores config s complete dated = record {
    username =
        names-Stored auth_username_setting_key config.username config s refl refl refl
          (simp lookup-insert);
    password_hash =
        names-Stored auth_password_hash_setting_key config.password_hash config s refl refl refl
          (simp lookup-insert);
    token_secret =
        names-Stored auth_token_secret_setting_key config.token_secret config s refl refl refl
          (simp lookup-insert);
    session_version =
        names-Stored auth_session_version_setting_key config.session_version config s refl refl refl
          (simp lookup-insert);
    secret_set = complete.token_secret;
    version_set = complete.session_version;
    initialized_at =
        rw
          (
            lookup-with_changed_at auth_initialized_at_setting_key config.password_changed_at
                (with_initialized_at x config.initialized_at (with_names config s)) refl refl,
            dated.initialized,
            lookup-insert,
          )
          (parse-format_rfc3339 config.initialized_at dated.early);
    changed_at =
        read_change-with_changed_at config.password_changed_at
          (with_initialized_at x config.initialized_at (with_names config s)) dated.changed_early;
  }

  cache_get-invalidate : (c : AuthCache) (now : Time) → cache_get (cache_invalidate c) now ≡ none
  unfolding cache_get cache_invalidate
  cache_get-invalidate c now = ground arith

  load-saved :
      (config : AuthConfig) (u : Unit {0}) (w w' v : World) (now : Time)
      → save_auth_config x config w ≡ (ok u, w')
      → IsDated config
      → v.settings ≡ w'.settings
      → IsCalm v
      → load_auth_config x now v
        ≡ (ok (rounded config), record v { cache = cache_set v.cache (rounded config) now })
  load-saved config u w w' v now h dated same calm =
      let saved = save-Saved x config u w w' h in
      load-calm x (rounded config) now v calm
        (rw (same, saved.settings) (saved-Stores config w.settings saved.complete dated))

  cached_or_load-none :
      (force_refresh : Bool) (now : Time) (w : World)
      → cached_or_load x force_refresh now none w ≡ load_auth_config x now w
  unfolding cached_or_load
  cached_or_load-none false now w = refl
  cached_or_load-none _ now w = refl

  pub get_auth_config-saved :
      (config : AuthConfig) (u : Unit {0}) (w w' : World) (force_refresh : Bool)
      → save_auth_config x config w ≡ (ok u, w')
      → IsDated config
      → IsCalm w'
      → get_auth_config x force_refresh w' ≡ (
        ok (rounded config),
        record (after_clock w') { cache = cache_set w'.cache (rounded config) w'.now },
      )
  unfolding get_auth_config time_now
  get_auth_config-saved config u w w' force_refresh h dated calm =
      let saved = save-Saved x config u w w' h in
      let empty : cache_get w'.cache w'.now ≡ none =
        ap (λ c. cache_get c w'.now) saved.cache ∙ cache_get-invalidate w.cache w'.now in
      rw empty (
        cached_or_load-none force_refresh w'.now (after_clock w')
        ∙ load-saved config u w w' (after_clock w') w'.now h dated refl calm)

  -- After a save that succeeded, of a configuration whose first time is set and whose times lie
  -- before the year 10000, the next load, forced or not, returns the saved configuration with its
  -- times cut to seconds, where no storage call fails then.
  pub get-save :
      (config : AuthConfig) (u : Unit {0}) (w w' : World) (force_refresh : Bool)
      → save_auth_config x config w ≡ (ok u, w')
      → IsDated config
      → IsCalm w'
      → (get_auth_config x force_refresh w').0 ≡ ok (rounded config)
  get-save config u w w' force_refresh h dated calm =
      rw (get_auth_config-saved config u w w' force_refresh h dated calm)
