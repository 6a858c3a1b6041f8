-- ===== src/Auth/Guard.antt =====
-- The guard of the admin API, and what first start and a change of credentials do to a stored
-- configuration.
use singboxconfig.Prelude.{Str, false, ◌≡◌, ◌↔◌, refl, sym, ◌∙◌, ap, [], Option, none, some, arith}
use singboxconfig.Prelude.Exec.{Result, ok, err}
use singboxconfig.Auth.World.{AuthError, AuthConfig, World, time_now}
use singboxconfig.Auth.Config.{Claims, External}
use singboxconfig.Auth.Token.{parse_bearer_token, validate_auth_token}
use singboxconfig.Auth.Token.Sessions.{validate_auth_token_iff}
use singboxconfig.Auth.Methods.{
  next, get_auth_config, admit, bearer_admission, auth_middleware, initialize_auth, cached_or_load,
}
use singboxconfig.Auth.Loaded.{IsCalm, Stores, load-calm}

module _ (x : External) where
  -- A request whose header holds a token that the loaded configuration accepts for this user.
  pub record Admits (header : Str) (w : World) (s : Str) : Type 0 where
    pub token : Str
    pub config : AuthConfig
    pub claims : Claims
    pub bearer : parse_bearer_token header ≡ some token
    pub loaded : (get_auth_config x false w).0 ≡ ok config
    pub valid : validate_auth_token x token config (get_auth_config x false w).1.now ≡ ok claims
    pub subject : s ≡ config.username

  admit-next :
      (token s : Str) (r : Result AuthError AuthConfig) (w : World)
      → (admit x token r w).0 ≡ ok (next s)
      → (config : AuthConfig) × (claims : Claims) × (r ≡ ok config)
        × (validate_auth_token x token config w.now ≡ ok claims)
        × (claims.subject ≡ s)
  unfolding admit time_now
  admit-next token s (err e) w h = ground arith
  admit-next token s (ok config) w h = go (validate_auth_token x token config w.now) refl
    where
      go :
          (v : Result AuthError Claims)
          → validate_auth_token x token config w.now ≡ v
          → (c : AuthConfig) × (claims : Claims) × (◌≡◌ {A = Result AuthError AuthConfig}
              (ok config)
              (ok c))
            × (validate_auth_token x token c w.now ≡ ok claims)
            × (claims.subject ≡ s)
      go (ok claims) e = (config, claims, refl, e, ground arith)
      go (err e') e = ground arith

  bearer_admission-next :
      (o : Option Str) (header s : Str) (w : World)
      → parse_bearer_token header ≡ o
      → (bearer_admission x o w).0 ≡ ok (next s)
      → Admits header w s
  unfolding bearer_admission
  bearer_admission-next none header s w e h = ground arith
  bearer_admission-next (some token) header s w e h =
      let got = get_auth_config x false w in
      let (config, claims, loaded, valid, named) = admit-next token s got.0 got.1 h in
      let accepted = (validate_auth_token_iff x token config got.1.now claims).0 valid in
      record {
        token = token;
        config = config;
        claims = claims;
        bearer = e;
        loaded = loaded;
        valid = valid;
        subject = sym named ∙ accepted.current.subject;
      }

  admit-valid :
      (token : Str) (config : AuthConfig) (claims : Claims) (w : World)
      → validate_auth_token x token config w.now ≡ ok claims
      → (admit x token (ok config) w).0 ≡ ok (next claims.subject)
  unfolding admit time_now
  admit-valid token config claims w h = ground arith

  Admits-next :
      (header s : Str) (w : World)
      → Admits header w s
      → (auth_middleware x header w).0 ≡ ok (next s)
  unfolding auth_middleware bearer_admission
  Admits-next header s w a =
      let accepted =
        (validate_auth_token_iff x a.token a.config (get_auth_config x false w).1.now a.claims).0
          a.valid in
      rw (a.bearer, bearer_admission, a.loaded)
        (admit-valid a.token a.config a.claims (get_auth_config x false w).1 a.valid
          ∙ ap (λ v. ok (next v)) (accepted.current.subject ∙ sym a.subject))

  -- A request goes on to the handler, as a certain user, exactly when it has a bearer token that
  -- the loaded configuration accepts at that time, and the user is the configured one.
  pub auth_middleware_iff :
      (header s : Str) (w : World)
      → ((auth_middleware x header w).0 ≡ ok (next s)) ↔ Admits header w s
  auth_middleware_iff header s w = (
    λ h.
        bearer_admission-next (parse_bearer_token header) header s w refl
          (unfold auth_middleware in h),
    Admits-next header s w,
  )

  -- Where the table holds a configuration and no storage call fails, a start leaves the table as
  -- it is and reports the stored user, with its first time and no password.
  pub initialize-Stores :
      (config : AuthConfig) (w : World)
      → IsCalm w
      → Stores x config w.settings
      → ((initialize_auth x w).0
          ≡ ok (record {
            initialized = false;
            username = config.username;
            password = [];
            generated_password = false;
            initialized_at = config.initialized_at;
          }))
        × ((initialize_auth x w).1.settings ≡ w.settings)
  unfolding initialize_auth get_auth_config cached_or_load time_now
  initialize-Stores config w calm st =
      rw (load-calm x config w.now (time_now w).1 calm st) (refl, refl)
