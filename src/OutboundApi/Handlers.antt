-- ===== src/OutboundApi/Handlers.antt =====
-- The handlers of service/outbound_api.go, and those of service/service.go for subscriptions.
use singboxconfig.Prelude.{
  ℕ, suc, Str, Bool, true, false, not, ◌&&◌, ◌||◌, List, [], ◌∷◌, Option, none, some, equal, keep,
  any, if◌then◌else◌, length,
}
use singboxconfig.Prelude.Int.{ℤ, pos, eqb_ℤ, leb_ℤ, ltb_ℤ}
use singboxconfig.Prelude.Exec.{Result, ok, err, Exec, pure, raise, ◌>>=◌, ◌>>◌}
use singboxconfig.Prelude.Sort.{Sorting}
use singboxconfig.Strings.{trim_space, is_empty}
use singboxconfig.Entity.{
  Time, Outbound, Subscribe, outbound_source_manual, outbound_source_subscription,
}
use singboxconfig.Cache.{RefreshResult, needs_refresh}
use singboxconfig.Cache.Store.{
  CacheError, not_found, Db, M, get_subscribe, create_or_update_outbounds, update_subscribe,
}
use singboxconfig.Cache.Refresh.{Fetcher, refresh_subscription_outbound_detailed}
use singboxconfig.Cache.Offered.{list_subscribes}
use singboxconfig.OutboundApi.{paginate_outbounds, outbound_matches_search, sort_outbounds}
use singboxconfig.OutboundApi.Rows.{
  OutboundFilter, list_outbounds, get_outbound, update_outbound, delete_outbound, create_subscribe,
  delete_subscribe, find_outbound_by_tag,
}

pub data Status : Type 0 where
  bad_request missing internal_server_error panicked : Status

abbrev pub Handler : Type 0 → Type 0
Handler A = Exec Db Status A

-- `handleStorageNotFound`
unfoldable pub missing_as : {A : Type 0} → Result CacheError A → Result Status A
missing_as (ok a) = ok a
missing_as (err not_found) = err missing
missing_as (err e) = err internal_server_error

unfoldable pub failed_as : {A : Type 0} → Result CacheError A → Result Status A
failed_as (ok a) = ok a
failed_as (err e) = err internal_server_error

-- `err != nil && !errors.Is(err, storage.ErrNotFound)`
unfoldable pub optional_as : {A : Type 0} → Result CacheError A → Result Status (Option A)
optional_as (ok a) = ok (some a)
optional_as (err not_found) = ok none
optional_as (err e) = err internal_server_error

abbrev pub answered : {A B : Type 0} → (Result CacheError A → Result Status B) → M A → Handler B
answered f m db = let (r, d) = m db in (f r, d)

unfoldable pub bind : {A : Type 0} → Option A → Handler A
bind none = raise bad_request
bind (some a) = pure a

unfoldable pub refuse_if : Bool → Handler (Unit {0})
refuse_if b = if b then raise bad_request else pure tt

-- `parseIDParam`, on what `strconv.ParseInt` gives
unfoldable pub parse_id_param : Option ℤ → Handler ℤ
parse_id_param none = raise bad_request
parse_id_param (some id) = if leb_ℤ id (pos 0) then raise bad_request else pure id

-- a page, or the panic of its slice
unfoldable pub page_or_panic : Option (List Outbound) → Handler (List Outbound)
page_or_panic none = raise panicked
page_or_panic (some items) = pure items

-- `ListOutbounds`, with the filters, the search and the page of the request: the items of the page,
-- and how many there are; `strings.ToLower` is external
unfoldable pub fetch_outbounds :
    (Str → Str)
    → Sorting Outbound
    → Option (List OutboundFilter)
    → Str
    → ℕ × ℕ
    → Handler (List Outbound × ℕ)
fetch_outbounds to_lower sorting filters search (page, limit) = do
  chosen ← bind filters
  items ← answered failed_as (list_outbounds chosen)
  let wanted = trim_space (to_lower search)
  let filtered =
      sort_outbounds sorting
        (keep (λ item. is_empty wanted || outbound_matches_search to_lower item wanted) items)
  shown ← page_or_panic (paginate_outbounds filtered page limit)
  pure (shown, length filtered)

unfoldable pub is_none : {A : Type 0} → Option A → Bool
is_none none = true
is_none (some a) = false

-- `CreateOutbound`
unfoldable pub post_outbound : Option Outbound → Handler Outbound
post_outbound body = do
  outbound ← bind body
  refuse_if (is_empty outbound.tag)
  existing ← answered optional_as (find_outbound_by_tag outbound.tag)
  refuse_if (not (is_none existing))
  answered failed_as (
      create_or_update_outbounds (
        some (record outbound {
          source = outbound_source_manual;
          subscribe_name = [];
          last_fetch_time = none;
        })
        ∷ []))
  answered failed_as (find_outbound_by_tag outbound.tag)

unfoldable pub is_other : Outbound → Option Outbound → Bool
is_other existing none = false
is_other existing (some duplicate) = not (eqb_ℤ duplicate.id existing.id)

-- the row with the fields of the request
unfoldable pub edited : Outbound → Outbound → Outbound
edited existing payload = record existing {
  tag = payload.tag;
  name = payload.name;
  description = payload.description;
  type = payload.type;
  enabled = payload.enabled;
  sort = payload.sort;
  visible_devices = payload.visible_devices;
  config_json = payload.config_json;
  source = outbound_source_manual;
  subscribe_name = [];
  last_fetch_time = none;
}

-- `UpdateOutbound`
unfoldable pub put_outbound : Option ℤ → Option Outbound → Handler Outbound
put_outbound path_id body = do
  id ← parse_id_param path_id
  payload ← bind body
  refuse_if (not (eqb_ℤ payload.id (pos 0)) && not (eqb_ℤ payload.id id))
  existing ← answered missing_as (get_outbound id)
  refuse_if (not (equal existing.source outbound_source_manual))
  refuse_if (is_empty payload.tag)
  duplicate ← answered optional_as (find_outbound_by_tag payload.tag)
  refuse_if (is_other existing duplicate)
  answered missing_as (update_outbound (edited existing payload))
  pure (edited existing payload)

-- `DeleteOutbound`
unfoldable pub remove_outbound : Option ℤ → Handler (Unit {0})
remove_outbound path_id = do id ← parse_id_param path_id; answered missing_as (delete_outbound id)

-- the loop of `BatchEnableOutbounds`, which returns `updated`
unfoldable pub enable_all : List ℤ → Bool → ℕ → Handler ℕ
enable_all [] enabled updated = pure updated
enable_all (id ∷ ids) enabled updated = do
  outbound ← answered missing_as (get_outbound id)
  answered missing_as (update_outbound (record outbound { enabled = enabled }))
  enable_all ids enabled (suc updated)

unfoldable pub batch_enable_outbounds : Option (List ℤ × Bool) → Handler ℕ
batch_enable_outbounds body = do
  (ids, enabled) ← bind body
  refuse_if (not (any (λ id. true) ids))
  enable_all ids enabled 0

-- `cacheDuration`: the first of two fields that is set
unfoldable pub cache_duration : Option ℤ → Option ℤ → Option ℤ
cache_duration (some duration) alternative = some duration
cache_duration none alternative = alternative

-- `UpdateSubscribeCacheConfig`
unfoldable pub put_cache_config : Str → Option (Option ℤ × Option ℤ) → Handler Subscribe
put_cache_config name body = do
  (first, second) ← bind body
  duration ← bind (cache_duration first second)
  refuse_if (ltb_ℤ duration (pos 0))
  subscribe ← answered missing_as (get_subscribe name)
  answered missing_as (update_subscribe (record subscribe { outbound_cache_duration = duration }))
  pure (record subscribe { outbound_cache_duration = duration })

-- `RefreshSubscribeOutbounds`
unfoldable pub refresh_subscribe_outbounds : Fetcher → Str → Handler RefreshResult
refresh_subscribe_outbounds x name =
    answered missing_as (refresh_subscription_outbound_detailed x name)

-- `ListSubscribeOutbounds`: the page, how many there are, and whether the cache has expired
unfoldable pub fetch_subscribe_outbounds :
    Sorting Outbound → Time → Str → ℕ × ℕ → Handler (List Outbound × (ℕ × Bool))
fetch_subscribe_outbounds sorting now name (page, limit) = do
  subscribe ← answered missing_as (get_subscribe name)
  items ← answered failed_as (
      list_outbounds (
        record { source = some outbound_source_subscription; subscribe_name = []; enabled = none }
        ∷ record { source = none; subscribe_name = subscribe.name; enabled = none }
        ∷ []))
  shown ← page_or_panic (paginate_outbounds (sort_outbounds sorting items) page limit)
  pure (shown, (length items, needs_refresh now (some subscribe)))

-- the handlers of subscriptions
unfoldable pub post_subscribe : Option Subscribe → Handler Subscribe
post_subscribe body = do
  subscribe ← bind body
  answered failed_as (create_subscribe subscribe)
  pure subscribe

unfoldable pub put_subscribe : Option Subscribe → Handler Subscribe
put_subscribe body = do
  subscribe ← bind body
  answered failed_as (update_subscribe subscribe)
  pure subscribe

unfoldable pub remove_subscribe : Str → Handler (Unit {0})
remove_subscribe name = answered failed_as (delete_subscribe name)

unfoldable pub fetch_subscribes : Handler (List Subscribe)
fetch_subscribes = answered failed_as list_subscribes
