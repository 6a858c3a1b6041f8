-- ===== src/Cache/Offered.antt =====
-- service/outbound_cache.go, the choice of the rows for a device: the loop over the subscriptions,
-- which refreshes those that are due, and the rows that are left of the hidden ones.
use singboxconfig.Prelude.{
  Str, Bool, not, ◌&&◌, ◌||◌, List, [], ◌∷◌, some, equal, keep, if◌then◌else◌,
}
use singboxconfig.Prelude.Exec.{ok, pure, attempt, ◌>>=◌, ◌>>◌}
use singboxconfig.Prelude.Keys.{has, add}
use singboxconfig.Entity.{Time, Outbound, Subscribe, outbound_source_subscription}
use singboxconfig.Visibility.{is_device_visible}
use singboxconfig.Singbox.DefaultTables.{get_default_extra_outbounds}
use singboxconfig.Cache.{needs_refresh}
use singboxconfig.Cache.Store.{M, storage_call}
use singboxconfig.Cache.Refresh.{Fetcher, refresh_subscription_outbound}

-- `ListSubscribes`
unfoldable pub list_subscribes : M (List Subscribe)
list_subscribes db = storage_call db.faults (λ d. (ok d.subscribes, d)) db

-- `GetOutboundsByDevice`; `databaseOutboundVisible` is the test of Visibility
unfoldable pub get_outbounds_by_device : Str → M (List Outbound)
get_outbounds_by_device device_code db =
    storage_call db.faults
      (λ d. (
        ok (
            keep (λ row. row.enabled && is_device_visible device_code row.visible_devices)
              d.outbounds),
        d,
      ))
      db

-- a subscription whose rows are not for the device
unfoldable pub is_hidden : Str → Subscribe → Bool
is_hidden device_code subscribe =
    not subscribe.status || not (is_device_visible device_code subscribe.visible_devices)

-- a row of a subscription among the names
unfoldable pub is_filtered : List Str → Outbound → Bool
is_filtered names item =
    equal item.source outbound_source_subscription && has item.subscribe_name names

abbrev pub or_default_outbounds : List Outbound → List Outbound
or_default_outbounds [] = get_default_extra_outbounds
or_default_outbounds (item ∷ items) = item ∷ items

abbrev pub without : List Str → List Outbound → List Outbound
without [] items = items
without (name ∷ names) items = keep (λ item. not (is_filtered (name ∷ names) item)) items

-- The clock and the network at each subscription of the loop.
pub record Visits : Type 0 where
  pub now : Subscribe → Time
  pub fetcher : Subscribe → Fetcher

-- a failed refresh is logged
unfoldable pub refresh_if_due : Visits → Subscribe → M (Unit {0})
refresh_if_due x subscribe =
    if needs_refresh (x.now subscribe) (some subscribe)
    then (do
      r ← attempt (refresh_subscription_outbound (x.fetcher subscribe) subscribe.name)
      pure tt)
    else pure tt

module _ (x : Visits) (device_code : Str) where
  -- the loop, which returns `disabledSubscribes`
  unfoldable pub visit_subscribes : List Str → List Subscribe → M (List Str)
  visit_subscribes disabled [] = pure disabled
  visit_subscribes disabled (subscribe ∷ subscribes) =
      if is_hidden device_code subscribe
      then visit_subscribes (add subscribe.name disabled) subscribes
      else (do refresh_if_due x subscribe; visit_subscribes disabled subscribes)

  -- `resolveGenerateOutbounds` up to the node groups
  unfoldable pub resolve_items : M (List Outbound)
  resolve_items = do
    subscribes ← list_subscribes
    disabled ← visit_subscribes [] subscribes
    items ← get_outbounds_by_device device_code
    pure (or_default_outbounds (without disabled items))

abbrev manual_or_default : List Outbound → List Outbound
manual_or_default [] = get_default_extra_outbounds
manual_or_default (item ∷ items) =
    keep (λ row. not (equal row.source outbound_source_subscription)) (item ∷ items)

-- `resolveManualGenerateOutbounds` up to the conversion
unfoldable pub resolve_manual_items : Str → M (List Outbound)
resolve_manual_items device_code = do
  items ← get_outbounds_by_device device_code
  pure (manual_or_default items)

unfoldable pub resolve_visible_subscribes : Str → M (List Subscribe)
resolve_visible_subscribes device_code = do
  subscribes ← list_subscribes
  pure (keep (λ subscribe. not (is_hidden device_code subscribe)) subscribes)
