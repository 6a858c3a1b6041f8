-- ===== src/Cache/Replaced.antt =====
-- What a refresh does to the rows of the outbounds.
use singboxconfig.Prelude.{
  ℕ, suc, Str, Bool, true, false, not, ◌&&◌, ◌||◌, List, [], ◌∷◌, Option, none, some, ◌≡◌, refl,
  ◌∙◌, arith, equal, equal_iff, any, any-keep_list, any-never, keep, if◌then◌else◌, All,
}
use singboxconfig.Prelude.Exec.{Result, ok, err, pure, raise, follow, ◌>>=◌}
use singboxconfig.Strings.{is_empty}
use singboxconfig.Entity.{Outbound, Subscribe, outbound_source_subscription}
use singboxconfig.Cache.{RefreshResult, is_skipped, tag_of}
use singboxconfig.Cache.Counts.{has_tag}
use singboxconfig.Cache.Store.{
  CacheError, Db, M, storage_call, find_subscribe, get_subscribe, is_owned, list_outbounds_of,
  with_values, new_row, upsert, upsert_all, update_named, update_subscribe_row, update_subscribe,
}
use singboxconfig.Cache.Refresh.{
  Fetcher, fetch_subscription_outbounds, mark_subscribe_outbound_refresh_failed, fail,
  store_fetched, refresh_subscribe,
}

-- The rows of the outbounds stay as they are.
abbrev pub KeepsRows : {A : Type 0} → M A → Type 0
KeepsRows m = (db : Db) → (m db).1.outbounds ≡ db.outbounds

storage_call-KeepsRows :
    {A : Type 0} (faults : List Bool) (m : M A) → KeepsRows m → KeepsRows (storage_call faults m)
unfolding storage_call
storage_call-KeepsRows [] m h db = h db
storage_call-KeepsRows (true ∷ faults) m h db = refl
storage_call-KeepsRows (false ∷ faults) m h db = h (record db { faults = faults })

follow-KeepsRows :
    {A B : Type 0} (m : M A) (f : A → M B)
    → KeepsRows m
    → ((a : A) → KeepsRows (f a))
    → KeepsRows (m >>= f)
follow-KeepsRows m f h k db = go (m db) (h db)
  where
    go :
        (r : Result CacheError _ × Db)
        → r.1.outbounds ≡ db.outbounds
        → (follow r f).1.outbounds ≡ db.outbounds
    go (ok a, d) e = k a d ∙ e
    go (err x, d) e = e

get_subscribe-KeepsRows : (name : Str) → KeepsRows (get_subscribe name)
unfolding get_subscribe
get_subscribe-KeepsRows name db =
    storage_call-KeepsRows db.faults (λ d. (find_subscribe name d.subscribes, d)) (λ d. refl) db

pub list_outbounds_of-KeepsRows : (name : Str) → KeepsRows (list_outbounds_of name)
unfolding list_outbounds_of
list_outbounds_of-KeepsRows name db =
    storage_call-KeepsRows db.faults
      (λ d. (
        ok (
            keep
              (λ row.
                equal row.source outbound_source_subscription
                && (if is_empty name then true else equal row.subscribe_name name))
              d.outbounds),
        d,
      ))
      (λ d. refl) db

pub update_subscribe_row-KeepsRows :
    (name : Str) (f : Subscribe → Subscribe) → KeepsRows (update_subscribe_row name f)
unfolding update_subscribe_row
update_subscribe_row-KeepsRows name f db =
    storage_call-KeepsRows db.faults
      (λ d.
        if any (λ row. equal row.name name) d.subscribes
        then (ok tt, record d { subscribes = update_named name f d.subscribes })
        else (err CacheError.not_found, d))
      (λ d. ground arith) db

module _ (x : Fetcher) where
  mark-KeepsRows :
      (subscribe : Subscribe) (e : CacheError)
      → KeepsRows (mark_subscribe_outbound_refresh_failed x subscribe e)
  unfolding mark_subscribe_outbound_refresh_failed update_subscribe
  mark-KeepsRows subscribe e db = update_subscribe_row-KeepsRows subscribe.name _ db

  fail-KeepsRows :
      (A : Type 0) (subscribe : Subscribe) (e : CacheError) → KeepsRows (fail x {A = A} subscribe e)
  unfolding fail
  fail-KeepsRows A subscribe e =
      follow-KeepsRows (mark_subscribe_outbound_refresh_failed x subscribe e) (λ u. raise e)
        (mark-KeepsRows subscribe e) (λ u d. refl)

  fetched-KeepsRows :
      (subscribe : Subscribe) (existing : List Outbound) (e : CacheError)
      (r : Result CacheError (List (Option Outbound)))
      → r ≡ err e
      → KeepsRows (store_fetched x subscribe existing r)
  unfolding store_fetched
  fetched-KeepsRows subscribe existing e (ok rows) h db = ground arith
  fetched-KeepsRows subscribe existing e (err e') h db =
      fail-KeepsRows RefreshResult subscribe e' db

  -- A refresh whose fetch fails keeps all cached outbounds, whatever the storage does.
  pub refresh_subscribe-KeepsRows :
      (subscribe : Subscribe) (e : CacheError) (db : Db)
      → fetch_subscription_outbounds x subscribe ≡ err e
      → (refresh_subscribe x subscribe db).1.outbounds ≡ db.outbounds
  unfolding refresh_subscribe
  refresh_subscribe-KeepsRows subscribe e db h = go subscribe.status
    where
      go :
          (b : Bool)
          → ((if not b
                then pure (record { added = 0; updated = 0; deleted = 0; last_fetch_time = 0 })
                else (do
                  existing ← list_outbounds_of subscribe.name
                  store_fetched x subscribe existing (fetch_subscription_outbounds x subscribe)))
              db).1.outbounds
            ≡ db.outbounds
      go false = refl
      go true =
          follow-KeepsRows (list_outbounds_of subscribe.name)
            (λ existing.
              store_fetched x subscribe existing (fetch_subscription_outbounds x subscribe))
            (list_outbounds_of-KeepsRows subscribe.name)
            (λ existing.
              fetched-KeepsRows subscribe existing e (fetch_subscription_outbounds x subscribe) h)
            db

-- Rows of the tag that the subscription wrote.
abbrev pub owns_tag : Str → Str → List Outbound → Bool
owns_tag name tag = any (λ row. is_owned name row && equal tag row.tag)

-- The items are rows that the subscription would write.
abbrev pub AllOwned : Str → List (Option Outbound) → Type 0
AllOwned name = All (λ item. elim item [ none ↦ Unit {0} | some row ↦ is_owned name row ≡ true ])

owns_tag-upsert :
    (name tag : Str) (item : Outbound) (next_id : ℕ) (rows : List Outbound)
    → is_owned name item ≡ true
    → owns_tag name tag (upsert item next_id rows) ≡ (equal tag item.tag || owns_tag name tag rows)
unfolding upsert new_row with_values any is_owned
owns_tag-upsert name tag item next_id [] h = ground arith
owns_tag-upsert name tag item next_id (row ∷ rows) h = ground (
  arith,
  equal_iff row.tag item.tag,
  equal_iff tag item.tag,
  equal_iff tag row.tag,
  owns_tag-upsert name tag item next_id rows h,
)

pub owns_tag-upsert_all :
    (name tag : Str) (items : List (Option Outbound)) (next_id : ℕ) (rows : List Outbound)
    → AllOwned name items
    → owns_tag name tag (upsert_all items next_id rows)
      ≡ (has_tag tag items || owns_tag name tag rows)
unfolding upsert_all any is_skipped tag_of
owns_tag-upsert_all name tag [] next_id rows h = refl
owns_tag-upsert_all name tag (none ∷ items) next_id rows h =
    owns_tag-upsert_all name tag items next_id rows h.1
owns_tag-upsert_all name tag (some item ∷ items) next_id rows h =
    owns_tag-upsert_all name tag items (suc next_id)
      (if is_empty item.tag then rows else upsert item next_id rows) h.1
    ∙ ground (arith, owns_tag-upsert name tag item next_id rows h.0)

pub owns_tag-deleted :
    (name tag : Str) (rows : List Outbound)
    → owns_tag name tag (keep (λ row. not (is_owned name row)) rows) ≡ false
owns_tag-deleted name tag rows =
    any-keep_list (λ row. is_owned name row && equal tag row.tag) (λ row. not (is_owned name row))
      rows
    ∙ any-never (λ row. is_owned name row && equal tag row.tag && not (is_owned name row))
        (λ row. ground arith) rows

-- The rows of one tag.
abbrev pub of_tag : Str → List Outbound → List Outbound
of_tag tag = keep (λ row. equal tag row.tag)

of_tag-upsert :
    (tag : Str) (item : Outbound) (next_id : ℕ) (rows : List Outbound)
    → equal tag item.tag ≡ false
    → of_tag tag (upsert item next_id rows) ≡ of_tag tag rows
unfolding upsert new_row with_values keep
of_tag-upsert tag item next_id [] h = ground arith
of_tag-upsert tag item next_id (row ∷ rows) h = ground (
  arith,
  equal_iff row.tag item.tag,
  equal_iff tag item.tag,
  equal_iff tag row.tag,
  of_tag-upsert tag item next_id rows h,
)

pub of_tag-upsert_all :
    (tag : Str) (items : List (Option Outbound)) (next_id : ℕ) (rows : List Outbound)
    → has_tag tag items ≡ false
    → of_tag tag (upsert_all items next_id rows) ≡ of_tag tag rows
unfolding upsert_all any is_skipped tag_of
of_tag-upsert_all tag [] next_id rows h = refl
of_tag-upsert_all tag (none ∷ items) next_id rows h = of_tag-upsert_all tag items next_id rows h
of_tag-upsert_all tag (some item ∷ items) next_id rows h =
    of_tag-upsert_all tag items (suc next_id)
      (if is_empty item.tag then rows else upsert item next_id rows) (ground arith)
    ∙ ground (arith, of_tag-upsert tag item next_id rows)
