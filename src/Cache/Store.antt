-- ===== src/Cache/Store.antt =====
-- The tables of subscriptions and outbounds behind `s.storage`, as storage/database.go keeps them,
-- with the calls that service/outbound_cache.go makes.
use singboxconfig.Prelude.{
  ℕ, suc, Str, Bool, true, false, not, ◌&&◌, List, [], ◌∷◌, Option, none, some, equal, keep, any,
  if◌then◌else◌, codes,
}
use singboxconfig.Prelude.Int.{pos, eqb_ℤ}
use singboxconfig.Prelude.Exec.{Result, ok, err, Exec}
use singboxconfig.Strings.{is_empty}
use singboxconfig.Entity.{Time, Outbound, Subscribe, outbound_source_subscription}

-- `storage.ErrNotFound`, another error of the storage, and a failed `httpGetBytes`.
pub data CacheError : Type 0 where
  not_found storage_failed fetch_failed : CacheError

-- `faults` has the outcome of each coming storage call (true: it fails); a new row gets the id
-- `next_id`, and which later number is next is left open by the database: here every write of an
-- outbound takes one.
pub record Db : Type 0 where
  pub subscribes : List Subscribe
  pub outbounds : List Outbound
  pub next_id : ℕ
  pub faults : List Bool

abbrev pub M : Type 0 → Type 0
M A = Exec Db CacheError A

unfoldable pub storage_call : {A : Type 0} → List Bool → M A → M A
storage_call [] m db = m db
storage_call (true ∷ faults) m db = (err storage_failed, record db { faults = faults })
storage_call (false ∷ faults) m db = m (record db { faults = faults })

unfoldable pub find_subscribe : Str → List Subscribe → Result CacheError Subscribe
find_subscribe name [] = err not_found
find_subscribe name (row ∷ rows) =
    let rest = find_subscribe name rows in if equal row.name name then ok row else rest

-- `GetSubscribe`
unfoldable pub get_subscribe : Str → M Subscribe
get_subscribe name db = storage_call db.faults (λ d. (find_subscribe name d.subscribes, d)) db

-- a row that a subscription wrote
unfoldable pub is_owned : Str → Outbound → Bool
is_owned name row = equal row.source outbound_source_subscription && equal row.subscribe_name name

-- `ListOutbounds` with a filter on the source and one on the name; an empty name does not filter.
unfoldable pub list_outbounds_of : Str → M (List Outbound)
list_outbounds_of name db =
    storage_call db.faults
      (λ d. (
        ok (
            keep
              (λ row.
                equal row.source outbound_source_subscription
                && (if is_empty name then true else equal row.subscribe_name name))
              d.outbounds),
        d,
      ))
      db

-- `DeleteOutboundsBySubscribe`
unfoldable pub delete_outbounds_by_subscribe : Str → M (Unit {0})
delete_outbounds_by_subscribe name db =
    storage_call db.faults
      (λ d. (ok tt, record d { outbounds = keep (λ row. not (is_owned name row)) d.outbounds })) db

-- `databaseOutboundValues` assigned to a row with the same tag
unfoldable pub with_values : Outbound → Outbound → Outbound
with_values row item = record row {
  id = (if eqb_ℤ item.id (pos 0) then row.id else item.id);
  name = item.name;
  description = item.description;
  type = item.type;
  enabled = item.enabled;
  sort = item.sort;
  visible_devices = item.visible_devices;
  config_json = item.config_json;
  source = item.source;
  subscribe_name = item.subscribe_name;
  last_fetch_time = item.last_fetch_time;
}

-- `databaseOutboundValues` as a new row
unfoldable pub new_row : Outbound → ℕ → Outbound
new_row item next_id = record item {
  id = (if eqb_ℤ item.id (pos 0) then pos next_id else item.id);
  created_at = 0;
  updated_at = 0;
}

unfoldable pub upsert : Outbound → ℕ → List Outbound → List Outbound
upsert item next_id [] = new_row item next_id ∷ []
upsert item next_id (row ∷ rows) =
    let rest = upsert item next_id rows in
    if equal row.tag item.tag then with_values row item ∷ rows else row ∷ rest

-- the loop of the transaction
unfoldable pub upsert_all : List (Option Outbound) → ℕ → List Outbound → List Outbound
upsert_all [] next_id rows = rows
upsert_all (none ∷ items) next_id rows = upsert_all items next_id rows
upsert_all (some item ∷ items) next_id rows =
    upsert_all items (suc next_id) (if is_empty item.tag then rows else upsert item next_id rows)

unfoldable pub id_after : List (Option Outbound) → ℕ → ℕ
id_after [] next_id = next_id
id_after (item ∷ items) next_id = id_after items (suc next_id)

-- `CreateOrUpdateOutbounds`; the transaction is kept or undone as a whole
-- An item of a refresh has no id. That of a request may have one: that the primary key refuses it,
-- where a row of another tag has it, is a failure that `faults` has to say.
unfoldable pub create_or_update_outbounds : List (Option Outbound) → M (Unit {0})
create_or_update_outbounds [] db = (ok tt, db)
create_or_update_outbounds (item ∷ items) db =
    storage_call db.faults
      (λ d. (
        ok tt,
        record d {
          outbounds = upsert_all (item ∷ items) d.next_id d.outbounds;
          next_id = id_after (item ∷ items) d.next_id;
        },
      ))
      db

-- `UPDATE … WHERE name = ?`
unfoldable pub update_named : Str → (Subscribe → Subscribe) → List Subscribe → List Subscribe
update_named name f [] = []
update_named name f (row ∷ rows) =
    let rest = update_named name f rows in if equal row.name name then f row ∷ rest else row ∷ rest

unfoldable pub update_subscribe_row : Str → (Subscribe → Subscribe) → M (Unit {0})
update_subscribe_row name f db =
    storage_call db.faults
      (λ d.
        if any (λ row. equal row.name name) d.subscribes
        then (ok tt, record d { subscribes = update_named name f d.subscribes })
        else (err not_found, d))
      db

-- `UpdateOutboundCacheTime`
unfoldable pub update_outbound_cache_time : Str → Time → M (Unit {0})
update_outbound_cache_time name timestamp = update_subscribe_row name (λ row. record row {
  outbound_last_fetch_time = some timestamp;
  outbound_last_fetch_status = codes "SUCCESS";
  outbound_last_fetch_error = [];
})

unfoldable pub or_text : Str → Str → Str
or_text new old = if is_empty new then old else new

unfoldable pub or_time : Option Time → Option Time → Option Time
or_time none old = old
or_time (some t) old = some t

-- `UpdateSubscribe`: `Updates` with a struct leaves out its zero values.
unfoldable pub update_subscribe : Subscribe → M (Unit {0})
unfolding or_text or_time
update_subscribe new = update_subscribe_row new.name (λ old. record {
  name = new.name;
  url = or_text new.url old.url;
  user_agent = or_text new.user_agent old.user_agent;
  status = (if new.status then true else old.status);
  visible_devices = or_text new.visible_devices old.visible_devices;
  outbound_last_fetch_time = or_time new.outbound_last_fetch_time old.outbound_last_fetch_time;
  outbound_cache_duration =
      (if eqb_ℤ new.outbound_cache_duration (pos 0)
        then old.outbound_cache_duration
        else new.outbound_cache_duration);
  outbound_last_fetch_status =
      or_text new.outbound_last_fetch_status old.outbound_last_fetch_status;
  outbound_last_fetch_error = or_text new.outbound_last_fetch_error old.outbound_last_fetch_error;
})
