-- ===== src/Auth/Saved.antt =====
-- What `saveAuthConfig` leaves in the settings, and that `getAuthConfig` reads it back.
use singboxconfig.Prelude.{
  refl, ◌==◌, Str, false, ◌≡◌, ◌∙◌, ap, List, Option, none, some, arith, if◌then◌else◌,
}
use singboxconfig.Prelude.Map.{lookup, insert, remove}
use singboxconfig.Prelude.Exec.{ok, follow-eq-ok, ◌>>◌}
use singboxconfig.Strings.{trim_space, is_empty}
use singboxconfig.Entity.{Time}
use singboxconfig.Auth.World.{
  is_refused, AuthConfig, AuthCache, World, M, set_global_setting, delete_global_setting,
  cache_invalidate,
}
use singboxconfig.Auth.Config.{
  External, auth_username_setting_key, auth_password_hash_setting_key,
  auth_initialized_at_setting_key, auth_password_changed_at_setting_key,
  auth_token_secret_setting_key, auth_session_version_setting_key, format_rfc3339,
}
use singboxconfig.Auth.Service.{
  require_field, ignore_not_found, invalidate_auth_cache, save_initialized_at,
  save_password_changed_at, save_auth_config,
}

-- A successful run of `m` shows `p`, and changes the settings and the cache by functions.
record Leads (m : M (Unit {0})) (p : Type 0) (f : List (Str × Str) → List (Str × Str))
    (c : AuthCache → AuthCache) : Type 0 where
  at :
      (u : Unit {0}) (w w' : World)
      → m w ≡ (ok u, w')
      → p × (w'.settings ≡ f w.settings) × (w'.cache ≡ c w.cache)

Leads->> :
    {m n : M (Unit {0})} {p q : Type 0} {f g : List (Str × Str) → List (Str × Str)}
    {c d : AuthCache → AuthCache}
    → Leads m p f c
    → Leads n q g d
    → Leads (m >> n) (p × q) (λ s. g (f s)) (λ v. d (c v))
Leads->> {m} {n} {f = f} {g = g} {c = c} {d = d} a b = record {
  at = λ u w w' h.
      let (u₁, w₁, e₁, h₁) = follow-eq-ok (m w) (λ _. n) u w' h in
      let (p, s, v) = a.at u₁ w w₁ e₁ in
      let (q, s', v') = b.at u w₁ w' h₁ in ((p, q), s' ∙ ap g s, v' ∙ ap d v);
}

set-Leads :
    (k v : Str)
    → ((s : List (Str × Str)) → is_refused k s ≡ false)
    → Leads (set_global_setting k v) (Unit {0}) (insert k v) (λ c. c)
unfolding set_global_setting
set-Leads k v r = record {
  at = λ u w w' h. (tt, ground (arith, r w.settings), ground (arith, r w.settings));
}

require_field-Leads :
    (v : Str) → Leads (require_field v) (is_empty (trim_space v) ≡ false) (λ s. s) (λ c. c)
unfolding require_field
require_field-Leads v = record { at = λ u w w' h. (ground arith, ground arith, ground arith) }

invalidate-Leads : Leads invalidate_auth_cache (Unit {0}) (λ s. s) cache_invalidate
unfolding invalidate_auth_cache
invalidate-Leads = record { at = λ u w w' h. (tt, ground arith, ground arith) }

-- The table without the time of a password change.
abbrev pub cleared : List (Str × Str) → List (Str × Str)
cleared s = elim (lookup auth_password_changed_at_setting_key s) [
  | none ↦ s
  | some value ↦ remove auth_password_changed_at_setting_key s
]

abbrev pub with_names : AuthConfig → List (Str × Str) → List (Str × Str)
with_names config s = insert auth_session_version_setting_key config.session_version (
    insert auth_token_secret_setting_key config.token_secret (
      insert auth_password_hash_setting_key config.password_hash
        (insert auth_username_setting_key config.username s)))

module _ (x : External) where
  abbrev pub with_initialized_at : Time → List (Str × Str) → List (Str × Str)
  with_initialized_at t s =
      if t == 0 then s else insert auth_initialized_at_setting_key (format_rfc3339 x t) s

  abbrev pub with_changed_at : Option Time → List (Str × Str) → List (Str × Str)
  with_changed_at (some t) s = insert auth_password_changed_at_setting_key (format_rfc3339 x t) s
  with_changed_at none s = cleared s

  -- The table after a successful save.
  abbrev pub saved_settings : AuthConfig → List (Str × Str) → List (Str × Str)
  saved_settings config s =
      with_changed_at config.password_changed_at
        (with_initialized_at config.initialized_at (with_names config s))

  -- The fields that a saved configuration has.
  pub record IsComplete (config : AuthConfig) : Type 0 where
    pub username : is_empty (trim_space config.username) ≡ false
    pub password_hash : is_empty (trim_space config.password_hash) ≡ false
    pub token_secret : is_empty (trim_space config.token_secret) ≡ false
    pub session_version : is_empty (trim_space config.session_version) ≡ false

  save_initialized_at-Leads :
      (t : Time) → Leads (save_initialized_at x t) (Unit {0}) (with_initialized_at t) (λ c. c)
  unfolding save_initialized_at set_global_setting
  save_initialized_at-Leads t = record { at = λ u w w' h. (tt, ground arith, ground arith) }

  save_password_changed_at-Leads :
      (o : Option Time)
      → Leads (save_password_changed_at x o) (Unit {0}) (with_changed_at o) (λ c. c)
  unfolding save_password_changed_at set_global_setting delete_global_setting ignore_not_found
  save_password_changed_at-Leads (some t) = record {
    at = λ u w w' h. (tt, ground arith, ground arith);
  }
  save_password_changed_at-Leads none = record { at = λ u w w' h. (tt, ground arith, ground arith) }

  pub record Saved (config : AuthConfig) (w w' : World) : Type 0 where
    pub complete : IsComplete config
    pub settings : w'.settings ≡ saved_settings config w.settings
    pub cache : w'.cache ≡ cache_invalidate w.cache

  -- A save that succeeds had all fields, has written them all, and leaves an empty cache.
  pub save-Saved :
      (config : AuthConfig) (u : Unit {0}) (w w' : World)
      → save_auth_config x config w ≡ (ok u, w')
      → Saved config w w'
  save-Saved config u w w' h =
      let steps = Leads->> (require_field-Leads config.username) (
        Leads->> (require_field-Leads config.password_hash) (
          Leads->> (require_field-Leads config.token_secret) (
            Leads->> (require_field-Leads config.session_version) (
              Leads->> (set-Leads auth_username_setting_key config.username (λ s. refl)) (
                Leads->> (set-Leads auth_password_hash_setting_key config.password_hash (λ s. refl))
                  (Leads->>
                    (set-Leads auth_token_secret_setting_key config.token_secret (λ s. refl))
                    (Leads->>
                      (set-Leads auth_session_version_setting_key config.session_version
                        (λ s. refl))
                      (Leads->> (save_initialized_at-Leads config.initialized_at) (
                        Leads->> (save_password_changed_at-Leads config.password_changed_at)
                          invalidate-Leads))))))))) in
      let (c, s, v) = steps.at u w w' (unfold save_auth_config in h) in
      record {
        complete = record {
          username = c.0;
          password_hash = c.1.0;
          token_secret = c.1.1.0;
          session_version = c.1.1.1.0;
        };
        settings = s;
        cache = v;
      }
