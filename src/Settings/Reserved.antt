-- ===== src/Settings/Reserved.antt =====
-- The requests of the settings API, and what they cannot touch: the keys of service/auth.go.
use singboxconfig.Strings.{is_empty}
use singboxconfig.Prelude.{
  ◌||◌, Str, Bool, true, false, not, ◌&&◌, List, [], ◌∷◌, Option, none, some, equal, equal_iff, ◌≡◌,
  refl, ◌∙◌, arith, if◌then◌else◌,
}
use singboxconfig.Prelude.Exec.{pure, Result, ok, err, ◌>>=◌, attempt}
use singboxconfig.Prelude.Map.{lookup, insert, lookup-insert, lookup-remove}
use singboxconfig.Auth.World.{
  is_refused, storage_failed, World, AuthError, not_found, M, storage_call, found, removed,
  get_global_setting, set_global_setting, delete_global_setting, list_global_settings,
}
use singboxconfig.Auth.Config.{is_reserved_global_setting_key}
use singboxconfig.Settings.{
  Url, SettingError, Response, setting, settings_list, bad_request, forbidden, get_setting,
  get_setting_by_key, delete_setting, list_settings, create_setting, update_setting, found_setting,
  was_deleted, listed, was_saved, save_setting, update_key, normalize_global_setting_value,
}

-- The routes of the settings in the admin API.
pub data Request : Type 0 where
  create : Option (Str × Str) → Request
  update : Str → Option (Str × Str) → Request
  delete_one get_one get_one_by_key : Str → Request
  list_all : Request

-- The settings of a key stay as they are.
abbrev pub Keeps : {A : Type 0} → Str → M A → Type 0
Keeps key m = (w : World) → lookup key (m w).1.settings ≡ lookup key w.settings

-- A response shows the setting of a key.
unfoldable pub shows : Str → Response → Bool
shows key (setting k v) = equal k key
shows key (settings_list settings) = elim (lookup key settings) [ none ↦ false | some v ↦ true ]
shows key _ = false

storage_call-Keeps :
    {A : Type 0} (key : Str) (faults : List Bool) (m : M A)
    → Keeps key m
    → Keeps key (storage_call faults m)
unfolding storage_call
storage_call-Keeps key [] m h w = h w
storage_call-Keeps key (true ∷ faults) m h w = refl
storage_call-Keeps key (false ∷ faults) m h w = h (record w { faults = faults })

get_global_setting-Keeps : (key k : Str) → Keeps key (get_global_setting k)
unfolding get_global_setting
get_global_setting-Keeps key k w =
    storage_call-Keeps key w.faults (λ v. (found (lookup k v.settings), v)) (λ v. refl) w

list_global_settings-Keeps : (key : Str) → Keeps key list_global_settings
unfolding list_global_settings
list_global_settings-Keeps key w =
    storage_call-Keeps key w.faults (λ v. (ok v.settings, v)) (λ v. refl) w

-- A write to one key keeps another.
set_global_setting-Keeps :
    (key k value : Str) → equal key k ≡ false → Keeps key (set_global_setting k value)
unfolding set_global_setting
set_global_setting-Keeps key k value h w =
    storage_call-Keeps key w.faults
      (λ v.
        if is_refused k v.settings
        then (err storage_failed, v)
        else (ok tt, record v { settings = insert k value v.settings }))
      (λ v. ground (arith, lookup-insert k key value v.settings)) w

removed-Keeps :
    (key k : Str) (value : Option Str) → equal key k ≡ false → Keeps key (removed value k)
unfolding removed
removed-Keeps key k none h w = refl
removed-Keeps key k (some v) h w =
    ground (arith, equal_iff key k, equal_iff k key, lookup-remove k key w.settings)

delete_global_setting-Keeps :
    (key k : Str) → equal key k ≡ false → Keeps key (delete_global_setting k)
unfolding delete_global_setting
delete_global_setting-Keeps key k h w =
    storage_call-Keeps key w.faults (λ v. removed (lookup k v.settings) k v)
      (λ v. removed-Keeps key k (lookup k v.settings) h v) w

-- A reserved key is another key than one that is not.
pub other_key :
    (key k : Str)
    → is_reserved_global_setting_key key ≡ true
    → is_reserved_global_setting_key k ≡ false
    → equal key k ≡ false
other_key key k h n = ground (arith, equal_iff key k)

attempt-Keeps :
    {A B : Type 0} (key : Str) (m : M A) (f : Result AuthError A → M B)
    → Keeps key m
    → ((r : Result AuthError A) → Keeps key (f r))
    → Keeps key (attempt m >>= f)
attempt-Keeps key m f h k w = k (m w).0 (m w).1 ∙ h w

found_setting-Keeps : (key k : Str) (r : Result AuthError Str) → Keeps key (found_setting k r)
unfolding found_setting
found_setting-Keeps key k (ok value) w = refl
found_setting-Keeps key k (err not_found) w = refl
found_setting-Keeps key k (err e) w = refl

was_deleted-Keeps : (key : Str) (r : Result AuthError (Unit {0})) → Keeps key (was_deleted r)
unfolding was_deleted
was_deleted-Keeps key (ok u) w = refl
was_deleted-Keeps key (err e) w = refl

listed-Keeps : (key : Str) (r : Result AuthError (List (Str × Str))) → Keeps key (listed r)
unfolding listed
listed-Keeps key (ok u) w = refl
listed-Keeps key (err e) w = refl

was_saved-Keeps :
    (key k value : Str) (r : Result AuthError (Unit {0})) → Keeps key (was_saved k value r)
unfolding was_saved
was_saved-Keeps key k value (ok u) w = refl
was_saved-Keeps key k value (err e) w = refl

save_setting-Keeps :
    (key k : Str) (r : Result SettingError Str) → equal key k ≡ false → Keeps key (save_setting k r)
unfolding save_setting
save_setting-Keeps key k (err e) h w = refl
save_setting-Keeps key k (ok value) h w =
    attempt-Keeps key (set_global_setting k value) (λ r. was_saved k value r)
      (set_global_setting-Keeps key k value h) (was_saved-Keeps key k value) w

unless-Keeps :
    {A : Type 0} (key : Str) (b : Bool) (r m : M A)
    → Keeps key r
    → (b ≡ false → Keeps key m)
    → Keeps key (if b then r else m)
unless-Keeps key true r m h k w = h w
unless-Keeps key false r m h k w = k refl w

forbidden-Keeps :
    (key k : Str) (m : M Response)
    → (is_reserved_global_setting_key k ≡ false → Keeps key m)
    → Keeps key (if is_reserved_global_setting_key k then pure forbidden else m)
forbidden-Keeps key k m h =
    unless-Keeps key (is_reserved_global_setting_key k) (pure forbidden) m (λ w. refl) h

get_setting-Keeps : (key k : Str) → Keeps key (get_setting k)
unfolding get_setting
get_setting-Keeps key k w =
    forbidden-Keeps key k (attempt (get_global_setting k) >>= λ r. found_setting k r)
      (λ e.
        attempt-Keeps key (get_global_setting k) (λ r. found_setting k r)
          (get_global_setting-Keeps key k) (found_setting-Keeps key k))
      w

get_setting_by_key-Keeps : (key k : Str) → Keeps key (get_setting_by_key k)
unfolding get_setting_by_key
get_setting_by_key-Keeps key k w = unfold get_setting in get_setting-Keeps key k w

list_settings-Keeps : (key : Str) → Keeps key list_settings
unfolding list_settings
list_settings-Keeps key w =
    attempt-Keeps key list_global_settings (λ r. listed r) (list_global_settings-Keeps key)
      (listed-Keeps key) w

delete_setting-Keeps :
    (key k : Str) → is_reserved_global_setting_key key ≡ true → Keeps key (delete_setting k)
unfolding delete_setting
delete_setting-Keeps key k h w =
    forbidden-Keeps key k (attempt (delete_global_setting k) >>= λ r. was_deleted r)
      (λ e.
        attempt-Keeps key (delete_global_setting k) (λ r. was_deleted r)
          (delete_global_setting-Keeps key k (other_key key k h e)) (was_deleted-Keeps key))
      w

module _ (parse_url : Str → Option Url) where
  create_setting-Keeps :
      (key : Str) (body : Option (Str × Str))
      → is_reserved_global_setting_key key ≡ true
      → Keeps key (create_setting parse_url body)
  unfolding create_setting
  create_setting-Keeps key none h w = refl
  create_setting-Keeps key (some (k, value)) h w =
      let r = normalize_global_setting_value parse_url k value in
      forbidden-Keeps key k (save_setting k r)
        (λ e. save_setting-Keeps key k r (other_key key k h e)) w

  update_key-Keeps :
      (key k body_key value : Str)
      → is_reserved_global_setting_key key ≡ true
      → Keeps key (update_key parse_url k body_key value)
  unfolding update_key
  update_key-Keeps key k body_key value h w =
      let r = normalize_global_setting_value parse_url k value in
      let body_reserved = not (is_empty body_key) && is_reserved_global_setting_key body_key in
      unless-Keeps key (is_empty k) (pure bad_request)
        (if is_reserved_global_setting_key k || body_reserved
          then pure forbidden
          else save_setting k r)
        (λ w. refl)
        (λ f.
          unless-Keeps key (is_reserved_global_setting_key k || body_reserved) (pure forbidden)
            (save_setting k r) (λ w. refl)
            (λ e. save_setting-Keeps key k r (other_key key k h (ground arith))))
        w

  update_setting-Keeps :
      (key param : Str) (body : Option (Str × Str))
      → is_reserved_global_setting_key key ≡ true
      → Keeps key (update_setting parse_url param body)
  unfolding update_setting
  update_setting-Keeps key param none h w = refl
  update_setting-Keeps key param (some (k, value)) h w =
      update_key-Keeps key (if is_empty param then k else param) k value h w

  -- The handler of a route.
  abbrev pub handle : Request → M Response
  handle (create body) = create_setting parse_url body
  handle (update param body) = update_setting parse_url param body
  handle (delete_one key) = delete_setting key
  handle (get_one key) = get_setting key
  handle (get_one_by_key key) = get_setting_by_key key
  handle list_all = list_settings

  handle-Keeps :
      (key : Str) (request : Request)
      → is_reserved_global_setting_key key ≡ true
      → Keeps key (handle request)
  handle-Keeps key (create body) h = create_setting-Keeps key body h
  handle-Keeps key (update param body) h = update_setting-Keeps key param body h
  handle-Keeps key (delete_one k) h = delete_setting-Keeps key k h
  handle-Keeps key (get_one k) h = get_setting-Keeps key k
  handle-Keeps key (get_one_by_key k) h = get_setting_by_key-Keeps key k
  handle-Keeps key list_all h = list_settings-Keeps key

  -- The world after the requests, one after the other.
  abbrev pub serve : List Request → World → World
  serve [] w = w
  serve (request ∷ requests) w = serve requests (handle request w).1

  -- No sequence of requests to the settings API changes, adds or removes the setting of a
  -- reserved key.
  pub serve-reserved :
      (key : Str) (requests : List Request) (w : World)
      → is_reserved_global_setting_key key ≡ true
      → lookup key (serve requests w).settings ≡ lookup key w.settings
  serve-reserved key [] w h = refl
  serve-reserved key (request ∷ requests) w h =
      serve-reserved key requests (handle request w).1 h ∙ handle-Keeps key request h w
