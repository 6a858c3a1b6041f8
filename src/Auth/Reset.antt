-- ===== src/Auth/Reset.antt =====
-- After a reset the new password logs in.
use singboxconfig.Prelude.{
  ◌<◌, ◌==◌, Str, Bool, true, false, ◌≡◌, refl, sym, ◌∙◌, ap, some, arith, equal_iff,
}
use singboxconfig.Prelude.Exec.{Result, ok, pure, attempt, follow-eq-ok, ◌>>=◌}
use singboxconfig.Entity.{Time}
use singboxconfig.Auth.World.{AuthError, AuthConfig, World, time_now, read_random}
use singboxconfig.Auth.Config.{External, validate_admin_password}
use singboxconfig.Auth.Service.{save_auth_config, generate_random_url_safe_token}
use singboxconfig.Auth.Token.{issue_auth_token}
use singboxconfig.Auth.Methods.{
  AuthResetResult, AuthLoginResult, get_auth_config, hash_password, hashed, reset_config,
  save_reset, to_reset, write_reset, reset_password, log_in, login_with_password,
}
use singboxconfig.Auth.Loaded.{IsCalm}
use singboxconfig.Auth.RoundTrip.{
  TimeLaws, year_10000, rounded, IsDated, get_auth_config-saved, after_clock,
}

-- bcrypt accepts the password of a hash that it made.
pub record HashLaws (x : External) : Type 0 where
  pub compare-generate :
      (salt password hash : Str)
      → x.generate_from_password salt password ≡ some hash
      → x.compare_hash_and_password hash password ≡ true

module _ (x : External) where
  hash_password-ok :
      (password hash : Str) (w w' : World)
      → hash_password x password w ≡ (ok hash, w')
      → (salt : Str) × (x.generate_from_password salt password ≡ some hash)
  unfolding hash_password hashed
  hash_password-ok password hash w w' h =
      let (salt, w₁, e₁, h₁) =
        follow-eq-ok (read_random w.entropy w)
          (λ salt. hashed x (x.generate_from_password salt password)) hash w' h in
      (salt, ground arith)

  -- A successful reset ends in a successful save of a configuration with the new password.
  pub record Resets (p : Str) (r : AuthResetResult) (w' : World) : Type 0 where
    pub config : AuthConfig
    pub before : World
    pub saves : save_auth_config x config before ≡ (ok tt, w')
    pub salt : Str
    pub hash : x.generate_from_password salt p ≡ some config.password_hash
    pub username : config.username ≡ r.username
    pub initialized_at : config.initialized_at ≡ r.initialized_at
    pub password_changed_at : config.password_changed_at ≡ some r.password_changed_at

  save_reset-Resets :
      (p salt : Str) (now : Time) (config : AuthConfig) (initialized : Bool) (r : AuthResetResult)
      (w w' : World)
      → x.generate_from_password salt p ≡ some config.password_hash
      → config.password_changed_at ≡ some now
      → save_reset x now config initialized w ≡ (ok r, w')
      → Resets p r w'
  unfolding save_reset
  save_reset-Resets p salt now config initialized r w w' made changed h =
      let (u, w₁, e₁, h₁) =
        follow-eq-ok (save_auth_config x config w)
          (λ _. pure (record {
            username = config.username;
            initialized = initialized;
            initialized_at = config.initialized_at;
            password_changed_at = now;
          }))
          r w' h in
      let same : w₁ ≡ w' = ap (λ z. z.1) h₁ in
      record {
        config = config;
        before = w;
        saves = rw (← same) e₁;
        salt = salt;
        hash = made;
        username = ground arith;
        initialized_at = ground arith;
        password_changed_at = ground arith;
      }

  write_reset-Resets :
      (p : Str) (now : Time) (target : AuthConfig × Bool) (r : AuthResetResult) (w w' : World)
      → write_reset x p now target w ≡ (ok r, w')
      → Resets p r w'
  unfolding write_reset
  write_reset-Resets p now target r w w' h =
      let saving = λ (hash version : Str).
        save_reset x now (reset_config x now target.0 hash version) target.1 in
      let (hash, w₁, e₁, h₁) =
        follow-eq-ok (hash_password x p w)
          (λ hash. generate_random_url_safe_token x >>= saving hash) r w' h in
      let (version, w₂, e₂, h₂) =
        follow-eq-ok (generate_random_url_safe_token x w₁) (saving hash) r w' h₁ in
      let (salt, made) = hash_password-ok p hash w w₁ e₁ in
      save_reset-Resets p salt now (reset_config x now target.0 hash version) target.1 r w₂ w' made
        refl h₂

  reset-Resets :
      (p : Str) (r : AuthResetResult) (w w' : World)
      → reset_password x p w ≡ (ok r, w')
      → Resets p r w'
  unfolding reset_password time_now
  reset-Resets p r w w' h =
      let loading = λ (now : Time) (loaded : Result AuthError AuthConfig).
        to_reset x now loaded >>= write_reset x p now in
      let (u, w₁, e₁, h₁) =
        follow-eq-ok (validate_admin_password p, w)
          (λ _. time_now >>= λ now. attempt (get_auth_config x true) >>= loading now) r w' h in
      let v = after_clock w₁ in
      let got = get_auth_config x true v in
      let (target, w₄, e₄, h₄) =
        follow-eq-ok (to_reset x w₁.now got.0 got.1) (write_reset x p w₁.now) r w' h₁ in
      write_reset-Resets p w₁.now target r w₄ w' h₄

  log_in-ok :
      (config : AuthConfig) (w : World)
      → (l : AuthLoginResult) × ((log_in x config w).0 ≡ ok l) × (l.username ≡ config.username)
  unfolding log_in time_now
  log_in-ok config w = (
    record {
      username = config.username;
      token = (issue_auth_token x config w.now).0;
      expires_at = (issue_auth_token x config w.now).1;
      issued_at = w.now;
      initialized_at = config.initialized_at;
      password_changed_at = config.password_changed_at;
    },
    refl,
    refl,
  )

  -- After a reset that succeeded, the new password logs the reported user in, where no storage
  -- call fails then, the first time is set, and the reported times lie before the year 10000.
  pub reset-login :
      TimeLaws x
      → HashLaws x
      → (p : Str) (r : AuthResetResult) (w w' : World) → reset_password x p w ≡ (ok r, w')
      → IsCalm w'
      → (r.initialized_at == 0) ≡ false
      → r.initialized_at < year_10000
      → r.password_changed_at < year_10000
      → (l : AuthLoginResult) × ((login_with_password x r.username p w').0 ≡ ok l)
        × (l.username ≡ r.username)
  unfolding login_with_password
  reset-login times hashes p r w w' h calm initialized early changed =
      let z = reset-Resets p r w w' h in
      let dated : IsDated x times z.config = record {
        initialized = rw z.initialized_at initialized;
        early = rw z.initialized_at early;
        changed_early = rw z.password_changed_at changed;
      } in
      let loaded = get_auth_config-saved x times z.config tt z.before w' false z.saves dated calm in
      let fits = hashes.compare-generate z.salt p z.config.password_hash z.hash in
      rw (loaded, (equal_iff r.username z.config.username).1 (sym z.username), fits)
        (let (l, e, named) = log_in-ok (rounded x times z.config) _ in (l, e, named ∙ z.username))
