-- ===== src/Cache/Calm.antt =====
-- A storage that does not fail: the rows for a device are found, whatever the refreshes do.
use singboxconfig.Prelude.{
  Str, Bool, true, false, ◌&&◌, List, [], ◌∷◌, Option, ◌≡◌, refl, ◌∙◌, ap, arith, any, keep, equal,
  if◌then◌else◌,
}
use singboxconfig.Prelude.Exec.{Result, ok, err, follow_ok}
use singboxconfig.Prelude.Ensures.{
  Leaves, Keeps, Keeps-pure, Keeps-if, Keeps-bind, keeps_rules, Leaves-both, Leaves-either,
}
use singboxconfig.Prelude.Keys.{add}
use singboxconfig.Entity.{Outbound, Subscribe, Time}
use singboxconfig.Cache.{RefreshResult}
use singboxconfig.Cache.Store.{
  CacheError, not_found, Db, M, storage_call, get_subscribe, list_outbounds_of,
  delete_outbounds_by_subscribe, create_or_update_outbounds, update_subscribe_row,
  update_outbound_cache_time, update_subscribe, update_named,
}
use singboxconfig.Cache.Refresh.{
  Fetcher, mark_subscribe_outbound_refresh_failed, fail, or_fail, write_rows, store_fetched,
  refresh_subscribe, refresh_subscription_outbound_detailed, refresh_subscription_outbound,
}
use singboxconfig.Cache.Shown.{is_shown, visit_subscribes_ok, resolve_items-shown}
use singboxconfig.Visibility.{is_device_visible}
use singboxconfig.Cache.Offered.{
  list_subscribes, get_outbounds_by_device, is_hidden, Visits, refresh_if_due, visit_subscribes,
  resolve_items,
}

-- No storage call fails from here on.
abbrev pub Calm : Db → Type 0
Calm db = db.faults ≡ []

storage_call-Calm :
    {A : Type 0} (m : M A) → Keeps Calm m → Keeps Calm (λ db. storage_call db.faults m db)
unfolding storage_call
storage_call-Calm m k = record { at = λ db h. go db.faults db h h }
  where
    go :
        (faults : List Bool) (db : Db)
        → faults ≡ []
        → Calm db
        → Leaves Calm (λ a. Calm) (storage_call faults m db)
    go [] db e h = k.at db h
    go (fault ∷ faults) db e h = absurd (cc)

-- a call that changes at most the tables
call-Calm :
    {A : Type 0} (f : Db → Result CacheError A) (g : Db → Db)
    → ((db : Db) → (g db).faults ≡ db.faults)
    → Keeps Calm (λ db. storage_call db.faults (λ d. (f d, g d)) db)
call-Calm f g e =
    storage_call-Calm _ (record { at = λ db h. Leaves-both Calm (f db) (g db) (cc (e db, h)) })

get_subscribe-Calm : (name : Str) → Keeps Calm (get_subscribe name)
unfolding get_subscribe
get_subscribe-Calm name = call-Calm _ (λ d. d) (λ d. refl)

list_outbounds_of-Calm : (name : Str) → Keeps Calm (list_outbounds_of name)
unfolding list_outbounds_of
list_outbounds_of-Calm name = call-Calm _ (λ d. d) (λ d. refl)

delete_outbounds_by_subscribe-Calm : (name : Str) → Keeps Calm (delete_outbounds_by_subscribe name)
unfolding delete_outbounds_by_subscribe
delete_outbounds_by_subscribe-Calm name = call-Calm _ _ (λ d. refl)

create_or_update_outbounds-Calm :
    (items : List (Option Outbound)) → Keeps Calm (create_or_update_outbounds items)
unfolding create_or_update_outbounds
create_or_update_outbounds-Calm [] = record { at = λ db h. h }
create_or_update_outbounds-Calm (item ∷ items) = call-Calm _ _ (λ d. refl)

update_subscribe_row-Calm :
    (name : Str) (f : Subscribe → Subscribe) → Keeps Calm (update_subscribe_row name f)
unfolding update_subscribe_row
update_subscribe_row-Calm name f =
    storage_call-Calm _
      (record { at = λ db h. updated (any (λ row. equal row.name name) db.subscribes) db h })
  where
    updated :
        (b : Bool) (db : Db)
        → Calm db
        → Leaves Calm
            (λ (u : Unit {0}). Calm)
            (if b
              then (ok tt, record db { subscribes = update_named name f db.subscribes })
              else (err not_found, db))
    updated true db h = h
    updated false db h = h

update_subscribe-Calm : (subscribe : Subscribe) → Keeps Calm (update_subscribe subscribe)
unfolding update_subscribe
update_subscribe-Calm subscribe = update_subscribe_row-Calm subscribe.name _

update_outbound_cache_time-Calm :
    (name : Str) (t : Time) → Keeps Calm (update_outbound_cache_time name t)
unfolding update_outbound_cache_time
update_outbound_cache_time-Calm name t = update_subscribe_row-Calm name _

list_subscribes-Calm : Keeps Calm list_subscribes
unfolding list_subscribes
list_subscribes-Calm = call-Calm _ (λ d. d) (λ d. refl)

ruleset calm_rules = (
  keeps_rules, get_subscribe-Calm, list_outbounds_of-Calm, delete_outbounds_by_subscribe-Calm,
  create_or_update_outbounds-Calm, update_subscribe-Calm, update_outbound_cache_time-Calm,
)

mark-Calm :
    (x : Fetcher) (s : Subscribe) (e : CacheError)
    → Keeps Calm (mark_subscribe_outbound_refresh_failed x s e)
unfolding mark_subscribe_outbound_refresh_failed
mark-Calm x s e = search (calm_rules)

fail-Calm :
    {A : Type 0} (x : Fetcher) (s : Subscribe) (e : CacheError) → Keeps {A = A} Calm (fail x s e)
unfolding fail
fail-Calm x s e = search (calm_rules, mark-Calm)

or_fail-Calm :
    {A : Type 0} (x : Fetcher) (s : Subscribe) (r : Result CacheError (Unit {0})) (k : M A)
    → Keeps Calm k
    → Keeps Calm (or_fail x s r k)
unfolding or_fail
or_fail-Calm x s (ok u) k h = h
or_fail-Calm x s (err e) k h = fail-Calm x s e

write_rows-Calm :
    (x : Fetcher) (s : Subscribe) (items : List (Option Outbound)) (r : RefreshResult)
    → Keeps Calm (write_rows x s items r)
unfolding write_rows
write_rows-Calm x s items r = search (calm_rules, or_fail-Calm) depth 14

store_fetched-Calm :
    (x : Fetcher) (s : Subscribe) (existing : List Outbound)
    (fetched : Result CacheError (List (Option Outbound)))
    → Keeps Calm (store_fetched x s existing fetched)
unfolding store_fetched
store_fetched-Calm x s existing (ok items) = write_rows-Calm x s items _
store_fetched-Calm x s existing (err e) = fail-Calm x s e

refresh_subscription_outbound-Calm :
    (x : Fetcher) (name : Str) → Keeps Calm (refresh_subscription_outbound x name)
unfolding refresh_subscription_outbound refresh_subscription_outbound_detailed refresh_subscribe
refresh_subscription_outbound-Calm x name = search (calm_rules, store_fetched-Calm)

refresh_if_due-Calm : (x : Visits) (s : Subscribe) → Keeps Calm (refresh_if_due x s)
unfolding refresh_if_due
refresh_if_due-Calm x s = search (keeps_rules, refresh_subscription_outbound-Calm)

visit_subscribes-Calm :
    (x : Visits) (device_code : Str) (disabled : List Str) (subscribes : List Subscribe)
    → Keeps Calm (visit_subscribes x device_code disabled subscribes)
unfolding visit_subscribes
visit_subscribes-Calm x device_code disabled [] = Keeps-pure disabled
visit_subscribes-Calm x device_code disabled (s ∷ subscribes) =
    Keeps-if (is_hidden device_code s) _ _
      (visit_subscribes-Calm x device_code (add s.name disabled) subscribes)
      (Keeps-bind (refresh_if_due x s) _ (refresh_if_due-Calm x s)
        (λ u. visit_subscribes-Calm x device_code disabled subscribes))

list_subscribes_ok : (db : Db) → db.faults ≡ [] → (list_subscribes db).0 ≡ ok db.subscribes
unfolding list_subscribes storage_call
list_subscribes_ok db h = ground arith

get_outbounds_by_device_ok :
    (device_code : Str) (db : Db)
    → db.faults ≡ []
    → (get_outbounds_by_device device_code db).0
      ≡ ok (
          keep
            (λ row. row.enabled && is_device_visible device_code row.visible_devices)
            db.outbounds)
unfolding get_outbounds_by_device storage_call
get_outbounds_by_device_ok device_code db h = ground arith

returned : {A : Type 0} {a : A} (r : Result CacheError A × Db) → r.0 ≡ ok a → r ≡ (ok a, r.1)
returned r h = ap (λ q. (q, r.1)) h

-- Where the storage does not fail, the rows for a device are found, whether or not the refreshes of
-- the subscriptions succeed.
pub resolve_items_ok :
    (x : Visits) (device_code : Str) (db : Db)
    → db.faults ≡ []
    → (resolve_items x device_code db).0
      ≡ ok (keep (is_shown device_code db.subscribes) (resolve_items x device_code db).1.outbounds)
unfolding resolve_items
resolve_items_ok x device_code db h =
    let d1 = (list_subscribes db).1 in
    let v : Result CacheError (List Str) × Db =
      visit_subscribes x device_code [] db.subscribes d1 in
    let c1 : Calm d1 =
      Leaves-either Calm (list_subscribes db).0 d1 (list_subscribes-Calm.at db h) in
    let c2 : Calm v.1 =
      Leaves-either Calm v.0 v.1
        ((visit_subscribes-Calm x device_code [] db.subscribes).at d1 c1) in
    let found = follow_ok (list_subscribes db) _ (list_subscribes_ok db h) (
      follow_ok v _ (visit_subscribes_ok x device_code [] db.subscribes d1) (
        follow_ok (get_outbounds_by_device device_code v.1) _
          (get_outbounds_by_device_ok device_code v.1 c2) refl)) in
    found ∙ ap ok (resolve_items-shown x device_code _ db _ (returned _ found))
