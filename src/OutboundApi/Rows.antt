-- ===== src/OutboundApi/Rows.antt =====
-- storage/database.go: the outbounds by id, and the subscriptions as rows.
use singboxconfig.Prelude.{
  Str, Bool, true, not, ◌&&◌, List, [], ◌∷◌, ◌++◌, Option, none, some, equal, keep, any, all,
  if◌then◌else◌,
}
use singboxconfig.Prelude.Int.{ℤ, pos, eqb_ℤ}
use singboxconfig.Prelude.Exec.{Result, ok, err, lift, ◌>>=◌}
use singboxconfig.Strings.{is_empty, trim_space}
use singboxconfig.Entity.{
  Outbound, OutboundSource, Subscribe, outbound_source_manual, outbound_source_subscription,
}
use singboxconfig.Cache.Store.{
  CacheError, not_found, storage_failed, Db, M, storage_call, with_values,
}

-- `storage.OutboundFilter`
pub record OutboundFilter : Type 0 where
  pub source : Option OutboundSource
  pub subscribe_name : Str
  pub enabled : Option Bool

unfoldable pub has_source : Option OutboundSource → Outbound → Bool
has_source none row = true
has_source (some source) row = equal row.source source

unfoldable pub has_enabled : Option Bool → Outbound → Bool
has_enabled none row = true
has_enabled (some enabled) row = if enabled then row.enabled else not row.enabled

unfoldable pub passes : Outbound → OutboundFilter → Bool
passes row filter =
    has_source filter.source row
    && (if is_empty filter.subscribe_name
        then true
        else equal row.subscribe_name filter.subscribe_name)
    && has_enabled filter.enabled row

-- `ListOutbounds`
unfoldable pub list_outbounds : List OutboundFilter → M (List Outbound)
list_outbounds filters db =
    storage_call db.faults (λ d. (ok (keep (λ row. all (passes row) filters) d.outbounds), d)) db

unfoldable pub find_outbound : (Outbound → Bool) → List Outbound → Result CacheError Outbound
find_outbound p [] = err not_found
find_outbound p (row ∷ rows) = let rest = find_outbound p rows in if p row then ok row else rest

-- `GetOutbound`
unfoldable pub get_outbound : ℤ → M Outbound
get_outbound id db =
    storage_call db.faults (λ d. (find_outbound (λ row. eqb_ℤ row.id id) d.outbounds, d)) db

-- `databaseOutboundValues` assigned to the row with the id
unfoldable pub replace_row : Outbound → List Outbound → List Outbound
replace_row item [] = []
replace_row item (row ∷ rows) =
    let rest = replace_row item rows in
    if eqb_ℤ row.id item.id
    then record (with_values row item) { tag = item.tag } ∷ rest
    else row ∷ rest

-- another row has the tag, which is unique
unfoldable pub tag_is_taken : Outbound → List Outbound → Bool
tag_is_taken item rows = any (λ row. equal row.tag item.tag && not (eqb_ℤ row.id item.id)) rows

unfoldable pub save_outbound : Outbound → Db → Result CacheError (Unit {0}) × Db
save_outbound item d =
    if not (any (λ row. eqb_ℤ row.id item.id) d.outbounds)
    then (err not_found, d)
    else if tag_is_taken item d.outbounds
    then (err storage_failed, d)
    else (ok tt, record d { outbounds = replace_row item d.outbounds })

-- `UpdateOutbound`
unfoldable pub update_outbound : Outbound → M (Unit {0})
update_outbound item db =
    if eqb_ℤ item.id (pos 0)
    then (err not_found, db)
    else storage_call db.faults (save_outbound item) db

-- `DeleteOutbound`
unfoldable pub delete_outbound : ℤ → M (Unit {0})
delete_outbound id db =
    storage_call db.faults
      (λ d.
        if any (λ row. eqb_ℤ row.id id) d.outbounds
        then (ok tt, record d { outbounds = keep (λ row. not (eqb_ℤ row.id id)) d.outbounds })
        else (err not_found, d))
      db

-- `CreateSubscribe`; the name is the primary key
unfoldable pub create_subscribe : Subscribe → M (Unit {0})
create_subscribe subscribe db =
    storage_call db.faults
      (λ d.
        if any (λ row. equal row.name subscribe.name) d.subscribes
        then (err storage_failed, d)
        else (ok tt, record d { subscribes = d.subscribes ++ (subscribe ∷ []) }))
      db

-- `DeleteSubscribe`, which leaves the outbounds of the subscription
unfoldable pub delete_subscribe : Str → M (Unit {0})
delete_subscribe name db =
    storage_call db.faults
      (λ d.
        if any (λ row. equal row.name name) d.subscribes
        then (ok tt, record d { subscribes = keep (λ row. not (equal row.name name)) d.subscribes })
        else (err not_found, d))
      db

-- `findOutboundByTag` of service/outbound_api.go
unfoldable pub find_outbound_by_tag : Str → M Outbound
find_outbound_by_tag tag = do
  items ← list_outbounds []
  lift (find_outbound (λ item. equal item.tag tag) items)

unfoldable pub source_filter : (Str → Str) → Str → Option (List OutboundFilter)
source_filter to_upper source_raw =
    let source = to_upper source_raw in
    if is_empty source_raw
    then some []
    else if not (equal source outbound_source_manual)
        && not (equal source outbound_source_subscription)
    then none
    else some (record { source = some source; subscribe_name = []; enabled = none } ∷ [])

unfoldable pub enabled_filter : Bool → Option Bool → Option (List OutboundFilter)
enabled_filter blank enabled = if blank then some [] else invalid_or enabled
  where
    -- the parsed value
    invalid_or : Option Bool → Option (List OutboundFilter)
    invalid_or none = none
    invalid_or (some b) =
        some (record { source = none; subscribe_name = []; enabled = some b } ∷ [])

abbrev joined :
    Option (List OutboundFilter)
    → Option (List OutboundFilter)
    → List OutboundFilter
    → Option (List OutboundFilter)
joined none enabled name = none
joined (some source) none name = none
joined (some source) (some enabled) name = some (source ++ enabled ++ name)

-- `parseOutboundFilters` of service/outbound_api.go, where `none` is an invalid parameter;
-- `strings.ToUpper` and `strconv.ParseBool` are external.
unfoldable pub parse_outbound_filters :
    (Str → Str) → (Str → Option Bool) → Str → Str → Str → Option (List OutboundFilter)
parse_outbound_filters to_upper parse_bool source enabled subscribe_name =
    let name = trim_space subscribe_name in
    joined (source_filter to_upper (trim_space source))
      (enabled_filter (is_empty (trim_space enabled)) (parse_bool (trim_space enabled)))
      (if is_empty name
        then []
        else record { source = none; subscribe_name = name; enabled = none } ∷ [])
