-- ===== src/Settings/Stored.antt =====
-- What the handlers of the settings API answer: a setting that was stored, and the list.
use singboxconfig.Prelude.{
  ◌&&◌, ◌||◌, Str, Bool, true, false, not, List, [], ◌∷◌, Option, none, some, equal, equal_iff, ◌≡◌,
  refl, ◌∙◌, arith, ◌⊎◌, inl, inr, Bool-cases, if◌then◌else◌,
}
use singboxconfig.Strings.{is_empty}
use singboxconfig.Prelude.Exec.{Result, ok, err, ◌>>=◌, attempt, pure}
use singboxconfig.Prelude.Map.{lookup, remove, lookup-insert, lookup-remove}
use singboxconfig.Auth.World.{
  is_refused, World, AuthError, not_found, M, storage_call, found, get_global_setting,
  set_global_setting, delete_global_setting, list_global_settings,
}
use singboxconfig.Auth.Config.{is_reserved_global_setting_key}
use singboxconfig.Settings.{
  Url, SettingError, Response, setting, get_setting, get_setting_by_key, delete_setting,
  delete_reserved, list_settings, create_setting, update_setting, found_setting, was_deleted,
  listed, was_saved, save_setting, update_key, normalize_global_setting_value, forbidden,
  internal_server_error,
}
use singboxconfig.Settings.Reserved.{
  Request, create, update, delete_one, get_one, get_one_by_key, list_all, shows, handle, other_key,
}

delete_reserved-none :
    (key : Str) (visited settings : List (Str × Str))
    → lookup key settings ≡ none
    → lookup key (delete_reserved visited settings) ≡ none
unfolding delete_reserved
delete_reserved-none key [] settings h = h
delete_reserved-none key ((k, v) ∷ visited) settings h =
    delete_reserved-none key visited
      (if is_reserved_global_setting_key k then remove k settings else settings)
      (ground (arith, lookup-remove k key settings))

delete_reserved-gone :
    (key : Str) (visited settings : List (Str × Str))
    → is_reserved_global_setting_key key ≡ true
    → (lookup key visited ≡ none → lookup key settings ≡ none)
    → lookup key (delete_reserved visited settings) ≡ none
unfolding delete_reserved lookup
delete_reserved-gone key [] settings r h = h refl
delete_reserved-gone key ((k, v) ∷ visited) settings r h =
    delete_reserved-gone key visited
      (if is_reserved_global_setting_key k then remove k settings else settings) r
      (λ n. ground (arith, equal_iff key k, equal_iff k key, lookup-remove k key settings))

delete_reserved-other :
    (key : Str) (visited settings : List (Str × Str))
    → is_reserved_global_setting_key key ≡ false
    → lookup key (delete_reserved visited settings) ≡ lookup key settings
unfolding delete_reserved
delete_reserved-other key [] settings h = refl
delete_reserved-other key ((k, v) ∷ visited) settings h =
    delete_reserved-other key visited
      (if is_reserved_global_setting_key k then remove k settings else settings) h
    ∙ ground (arith, equal_iff k key, lookup-remove k key settings)

-- The loop over the listed settings deletes those of the reserved keys, and no others.
pub lookup-delete_reserved :
    (key : Str) (settings : List (Str × Str))
    → lookup key (delete_reserved settings settings)
      ≡ (if is_reserved_global_setting_key key then none else lookup key settings)
lookup-delete_reserved key settings =
    ground (
      arith,
      delete_reserved-gone key settings settings,
      delete_reserved-other key settings settings,
    )

-- A handler answers, and its answer does not show the key.
abbrev pub Hides : Str → Result AuthError Response → Type 0
Hides key (ok response) = shows key response ≡ false
Hides key (err e) = ⊥

found_setting-Hides :
    (key k : Str) (r : Result AuthError Str) (w : World)
    → equal key k ≡ false
    → Hides key (found_setting k r w).0
unfolding found_setting shows
found_setting-Hides key k (ok value) w h = ground (arith, equal_iff key k, equal_iff k key)
found_setting-Hides key k (err not_found) w h = refl
found_setting-Hides key k (err e) w h = refl

was_saved-Hides :
    (key k value : Str) (r : Result AuthError (Unit {0})) (w : World)
    → equal key k ≡ false
    → Hides key (was_saved k value r w).0
unfolding was_saved shows
was_saved-Hides key k value (ok u) w h = ground (arith, equal_iff key k, equal_iff k key)
was_saved-Hides key k value (err e) w h = refl

save_setting-Hides :
    (key k : Str) (r : Result SettingError Str) (w : World)
    → equal key k ≡ false
    → Hides key (save_setting k r w).0
unfolding save_setting shows
save_setting-Hides key k (err e) w h = refl
save_setting-Hides key k (ok value) w h =
    was_saved-Hides key k value (set_global_setting k value w).0 (set_global_setting k value w).1 h

was_deleted-Hides :
    (key : Str) (r : Result AuthError (Unit {0})) (w : World) → Hides key (was_deleted r w).0
unfolding was_deleted shows
was_deleted-Hides key (ok u) w = refl
was_deleted-Hides key (err e) w = refl

listed-Hides :
    (key : Str) (r : Result AuthError (List (Str × Str))) (w : World)
    → is_reserved_global_setting_key key ≡ true
    → Hides key (listed r w).0
unfolding listed shows
listed-Hides key (ok settings) w h = ground (arith, lookup-delete_reserved key settings)
listed-Hides key (err e) w h = refl

-- The guard of most handlers.
forbidden-Hides :
    (key : Str) (b : Bool) (m : M Response) (w : World)
    → (b ≡ false → Hides key (m w).0)
    → Hides key ((if b then pure forbidden else m) w).0
unfolding shows
forbidden-Hides key true m w h = refl
forbidden-Hides key false m w h = h refl

get_setting-Hides :
    (key k : Str) (w : World)
    → is_reserved_global_setting_key key ≡ true
    → Hides key (get_setting k w).0
unfolding get_setting
get_setting-Hides key k w h =
    forbidden-Hides key (is_reserved_global_setting_key k)
      (attempt (get_global_setting k) >>= λ r. found_setting k r) w
      (λ e.
        found_setting-Hides key k (get_global_setting k w).0 (get_global_setting k w).1
          (other_key key k h e))

get_setting_by_key-Hides :
    (key k : Str) (w : World)
    → is_reserved_global_setting_key key ≡ true
    → Hides key (get_setting_by_key k w).0
unfolding get_setting_by_key
get_setting_by_key-Hides key k w h = unfold get_setting in get_setting-Hides key k w h

delete_setting-Hides : (key k : Str) (w : World) → Hides key (delete_setting k w).0
unfolding delete_setting
delete_setting-Hides key k w =
    forbidden-Hides key (is_reserved_global_setting_key k)
      (attempt (delete_global_setting k) >>= λ r. was_deleted r) w
      (λ e. was_deleted-Hides key (delete_global_setting k w).0 (delete_global_setting k w).1)

list_settings-Hides :
    (key : Str) (w : World)
    → is_reserved_global_setting_key key ≡ true
    → Hides key (list_settings w).0
unfolding list_settings
list_settings-Hides key w h =
    listed-Hides key (list_global_settings w).0 (list_global_settings w).1 h

module _ (parse_url : Str → Option Url) where
  create_setting-Hides :
      (key : Str) (body : Option (Str × Str)) (w : World)
      → is_reserved_global_setting_key key ≡ true
      → Hides key (create_setting parse_url body w).0
  unfolding create_setting shows
  create_setting-Hides key none w h = refl
  create_setting-Hides key (some (k, value)) w h =
      let r = normalize_global_setting_value parse_url k value in
      forbidden-Hides key (is_reserved_global_setting_key k) (save_setting k r) w
        (λ e. save_setting-Hides key k r w (other_key key k h e))

  update_key-Hides :
      (key k body_key value : Str) (w : World)
      → is_reserved_global_setting_key key ≡ true
      → Hides key (update_key parse_url k body_key value w).0
  unfolding update_key shows
  update_key-Hides key [] body_key value w h = refl
  update_key-Hides key (c ∷ k) body_key value w h =
      let r = normalize_global_setting_value parse_url (c ∷ k) value in
      let body_reserved = not (is_empty body_key) && is_reserved_global_setting_key body_key in
      forbidden-Hides key (is_reserved_global_setting_key (c ∷ k) || body_reserved)
        (save_setting (c ∷ k) r) w
        (λ e. save_setting-Hides key (c ∷ k) r w (other_key key (c ∷ k) h (ground arith)))

  update_setting-Hides :
      (key param : Str) (body : Option (Str × Str)) (w : World)
      → is_reserved_global_setting_key key ≡ true
      → Hides key (update_setting parse_url param body w).0
  unfolding update_setting shows
  update_setting-Hides key param none w h = refl
  update_setting-Hides key param (some (k, value)) w h =
      update_key-Hides key (if is_empty param then k else param) k value w h

  -- Every request to the settings API is answered, and no answer shows the setting of a reserved
  -- key.
  pub handle-Hides :
      (key : Str) (request : Request) (w : World)
      → is_reserved_global_setting_key key ≡ true
      → Hides key (handle parse_url request w).0
  handle-Hides key (create body) w h = create_setting-Hides key body w h
  handle-Hides key (update param body) w h = update_setting-Hides key param body w h
  handle-Hides key (delete_one k) w h = delete_setting-Hides key k w
  handle-Hides key (get_one k) w h = get_setting-Hides key k w h
  handle-Hides key (get_one_by_key k) w h = get_setting_by_key-Hides key k w h
  handle-Hides key list_all w h = list_settings-Hides key w h

  -- Where no storage call fails, a setting with a key that is not reserved and a value that can be
  -- normalized is read back with the normalized value once it is created; but a second setting
  -- with the empty key is refused.
  pub create-get :
      (key value normalized : Str) (w : World)
      → is_reserved_global_setting_key key ≡ false
      → normalize_global_setting_value parse_url key value ≡ ok normalized
      → w.faults ≡ []
      → ((is_refused key w.settings ≡ false)
          × ((get_setting key (create_setting parse_url (some (key, value)) w).1).0
              ≡ ok (setting key normalized)))
        ⊎ ((is_refused key w.settings ≡ true)
            × (create_setting parse_url (some (key, value)) w ≡ (ok internal_server_error, w)))
  unfolding get_setting create_setting save_setting was_saved set_global_setting get_global_setting
      storage_call found_setting found
  create-get key value normalized w n h f = elim (Bool-cases (is_refused key w.settings)) [
    | inl refused ↦ inr (refused, ground arith)
    | inr free ↦
        inl (free, ground (arith, equal_iff key key, lookup-insert key key normalized w.settings))
  ]
