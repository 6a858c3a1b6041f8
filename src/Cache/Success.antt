-- ===== src/Cache/Success.antt =====
-- A refresh that succeeds, and when it does.
use singboxconfig.Prelude.{
  ℕ, suc, Str, true, false, not, ◌&&◌, List, [], ◌∷◌, Option, none, some, ◌≡◌, refl, ◌∙◌, ap, sym,
  arith, equal, equal_refl, any, keep, map, if◌then◌else◌,
}
use singboxconfig.Prelude.Exec.{Result, ok, err, pure, attempt, follow, ◌>>=◌}
use singboxconfig.Strings.{is_empty}
use singboxconfig.Entity.{Outbound, Subscribe, outbound_source_subscription}
use singboxconfig.Entity.SingBox.{SingBoxOut}
use singboxconfig.Cache.{RefreshResult, calculate_subscription_refresh_result}
use singboxconfig.Cache.Counts.{has_tag}
use singboxconfig.Cache.Store.{
  CacheError, Db, M, storage_call, is_owned, list_outbounds_of, delete_outbounds_by_subscribe,
  upsert_all, create_or_update_outbounds, update_subscribe_row, update_outbound_cache_time,
}
use singboxconfig.Cache.Refresh.{
  Fetcher, append_row, cached_row, cached_rows, rows_of, fetch_subscription_outbounds,
  mark_subscribe_outbound_refresh_failed, fail, or_fail, write_rows, store_fetched,
  refresh_subscribe, parse_subscription_outbounds,
}
use singboxconfig.Cache.Replaced.{
  AllOwned, owns_tag, of_tag, owns_tag-upsert_all, owns_tag-deleted, of_tag-upsert_all,
  update_subscribe_row-KeepsRows, list_outbounds_of-KeepsRows,
}

delete_outbounds_by_subscribe_lem :
    (name : Str) (db : Db)
    → (delete_outbounds_by_subscribe name db).0 ≡ ok tt
    → (delete_outbounds_by_subscribe name db).1.outbounds
      ≡ keep (λ row. not (is_owned name row)) db.outbounds
unfolding delete_outbounds_by_subscribe storage_call
delete_outbounds_by_subscribe_lem name db h = ground arith

create_or_update_outbounds_lem :
    (items : List (Option Outbound)) (db : Db)
    → (create_or_update_outbounds items db).0 ≡ ok tt
    → (create_or_update_outbounds items db).1.outbounds ≡ upsert_all items db.next_id db.outbounds
unfolding create_or_update_outbounds storage_call upsert_all
create_or_update_outbounds_lem [] db h = refl
create_or_update_outbounds_lem (item ∷ items) db h = ground arith

module _ (x : Fetcher) (subscribe : Subscribe) where
  or_fail-ok :
      {A : Type 0} (r : Result CacheError (Unit {0})) (k : M A) (db : Db) (a : A)
      → (or_fail x subscribe r k db).0 ≡ ok a
      → (r ≡ ok tt) × (or_fail x subscribe r k db ≡ k db)
  unfolding or_fail fail mark_subscribe_outbound_refresh_failed
  or_fail-ok (ok u) k db a h = (refl, refl)
  or_fail-ok (err e) k db a h = ground arith

  update_time-KeepsRows :
      (d : Db)
      → (update_outbound_cache_time subscribe.name x.fetched_at d).1.outbounds ≡ d.outbounds
  unfolding update_outbound_cache_time
  update_time-KeepsRows d = update_subscribe_row-KeepsRows subscribe.name _ d

  -- The rows after a successful write.
  write_rows-ok :
      (items : List (Option Outbound)) (result r : RefreshResult) (db : Db)
      → (write_rows x subscribe items result db).0 ≡ ok r
      → (n : ℕ) × ((write_rows x subscribe items result db).1.outbounds
          ≡ upsert_all items n (keep (λ row. not (is_owned subscribe.name row)) db.outbounds))
  unfolding write_rows
  write_rows-ok items result r db h =
      let d1 : Result CacheError (Unit {0}) × Db =
        delete_outbounds_by_subscribe subscribe.name db in
      let d2 : Result CacheError (Unit {0}) × Db = create_or_update_outbounds items d1.1 in
      let d3 : Result CacheError (Unit {0}) × Db =
        update_outbound_cache_time subscribe.name x.fetched_at d2.1 in
      let k3 : M RefreshResult = pure result in
      let k2 : M RefreshResult =
        attempt (update_outbound_cache_time subscribe.name x.fetched_at) >>= λ timed.
        or_fail x subscribe timed k3 in
      let k1 : M RefreshResult =
        attempt (create_or_update_outbounds items) >>= λ written. or_fail x subscribe written k2 in
      let (e1, f1) = or_fail-ok d1.0 k1 d1.1 r h in
      let (e2, f2) = or_fail-ok d2.0 k2 d2.1 r (sym (ap (λ q. q.0) f1) ∙ h) in
      let (e3, f3) = or_fail-ok d3.0 k3 d3.1 r (sym (ap (λ q. q.0) (f1 ∙ f2)) ∙ h) in
      (
        d1.1.next_id,
        ap (λ q. q.1.outbounds) (f1 ∙ f2 ∙ f3)
            ∙ update_time-KeepsRows d2.1
            ∙ create_or_update_outbounds_lem items d1.1 e2
            ∙ ap (upsert_all items d1.1.next_id)
                (delete_outbounds_by_subscribe_lem subscribe.name db e1),
      )

  append_row-AllOwned :
      (text : Option Str) (row : Str → Outbound) (rest : List (Option Outbound))
      → ((json : Str) → is_owned subscribe.name (row json) ≡ true)
      → AllOwned subscribe.name rest
      → AllOwned subscribe.name (append_row text row rest)
  unfolding append_row
  append_row-AllOwned none row rest h k = k
  append_row-AllOwned (some json) row rest h k = (h json, k)

  cached_rows-AllOwned :
      (index : ℕ) (nodes : List SingBoxOut)
      → AllOwned subscribe.name (cached_rows x subscribe index nodes)
  unfolding cached_rows cached_row is_owned
  cached_rows-AllOwned index [] = tt
  cached_rows-AllOwned index (node ∷ nodes) =
      append_row-AllOwned (x.marshal node) (cached_row subscribe x.fetched_at index node)
        (cached_rows x subscribe (suc index) nodes)
        (λ json. ground (arith, equal_refl outbound_source_subscription, equal_refl subscribe.name))
        (cached_rows-AllOwned (suc index) nodes)

  -- what a refresh writes for a fetched body
  abbrev pub fetched : Str → List (Option Outbound)
  fetched body = cached_rows x subscribe 0 (parse_subscription_outbounds x body)

  store_fetched-rows :
      (existing : List Outbound) (body : Str) (r : RefreshResult) (db : Db)
      → (store_fetched x subscribe existing (ok (fetched body)) db).0 ≡ ok r
      → (n : ℕ) × ((store_fetched x subscribe existing (ok (fetched body)) db).1.outbounds
          ≡ upsert_all
              (fetched body)
              n
              (keep (λ row. not (is_owned subscribe.name row)) db.outbounds))
  unfolding store_fetched
  store_fetched-rows existing body r db h =
      write_rows-ok (fetched body)
        (calculate_subscription_refresh_result (map some existing) (fetched body) x.fetched_at) r db
        h

  follow-ok :
      {A : Type 0} (p : Result CacheError A × Db) (f : A → M RefreshResult) (r : RefreshResult)
      → (follow p f).0 ≡ ok r
      → (a : A) × (follow p f ≡ f a p.1)
  follow-ok (ok a, d) f r h = (a, refl)
  follow-ok (err e, d) f r h = ground arith

  refresh_subscribe-stores :
      (body : Str) (db : Db)
      → subscribe.status ≡ true
      → x.http_get_bytes subscribe.url subscribe.user_agent ≡ some body
      → refresh_subscribe x subscribe db
        ≡ follow
            (list_outbounds_of subscribe.name db)
            (λ existing. store_fetched x subscribe existing (ok (fetched body)))
  unfolding refresh_subscribe fetch_subscription_outbounds rows_of
  refresh_subscribe-stores body db s h =
      ap
        (λ b.
          (if not b
              then pure (record { added = 0; updated = 0; deleted = 0; last_fetch_time = 0 })
              else (do
                existing ← list_outbounds_of subscribe.name
                store_fetched x subscribe existing (fetch_subscription_outbounds x subscribe)))
            db)
        s
      ∙ ap
          (λ t.
            follow (list_outbounds_of subscribe.name db)
              (λ existing. store_fetched x subscribe existing (rows_of x subscribe t)))
          h

  -- The body was fetched and the refresh of an enabled subscription succeeded: then the
  -- subscription has a row of a tag exactly where a fetched item has that tag, and the rows of any
  -- other tag are the old ones that were not the subscription's.
  pub refresh_subscribe-replaces :
      (body tag : Str) (r : RefreshResult) (db : Db)
      → subscribe.status ≡ true
      → x.http_get_bytes subscribe.url subscribe.user_agent ≡ some body
      → (refresh_subscribe x subscribe db).0 ≡ ok r
      → (owns_tag subscribe.name tag (refresh_subscribe x subscribe db).1.outbounds
          ≡ has_tag tag (cached_rows x subscribe 0 (parse_subscription_outbounds x body)))
        × (has_tag tag (cached_rows x subscribe 0 (parse_subscription_outbounds x body)) ≡ false
            → of_tag tag (refresh_subscribe x subscribe db).1.outbounds
              ≡ of_tag tag (keep (λ row. not (is_owned subscribe.name row)) db.outbounds))
  refresh_subscribe-replaces body tag r db s h k =
      let f : List Outbound → M RefreshResult =
        λ existing. store_fetched x subscribe existing (ok (fetched body)) in
      let stores = refresh_subscribe-stores body db s h in
      let p : Result CacheError (List Outbound) × Db = list_outbounds_of subscribe.name db in
      let (existing, e) = follow-ok p f r (sym (ap (λ q. q.0) stores) ∙ k) in
      let (n, rows) =
        store_fetched-rows existing body r p.1 (sym (ap (λ q. q.0) (stores ∙ e)) ∙ k) in
      let after : (refresh_subscribe x subscribe db).1.outbounds
          ≡ upsert_all (fetched body) n
              (keep (λ row. not (is_owned subscribe.name row)) db.outbounds) =
        ap (λ q. q.1.outbounds) (stores ∙ e)
        ∙ rows
        ∙ ap (λ o. upsert_all (fetched body) n (keep (λ row. not (is_owned subscribe.name row)) o))
            (list_outbounds_of-KeepsRows subscribe.name db) in
      let kept = keep (λ row. not (is_owned subscribe.name row)) db.outbounds in
      (
        ap (owns_tag subscribe.name tag) after
            ∙ owns_tag-upsert_all subscribe.name tag (fetched body) n kept
                (cached_rows-AllOwned 0 (parse_subscription_outbounds x body))
            ∙ ground (arith, owns_tag-deleted subscribe.name tag db.outbounds),
        λ m. ap (of_tag tag) after ∙ of_tag-upsert_all tag (fetched body) n kept m,
      )

  write_rows_total :
      (items : List (Option Outbound)) (result : RefreshResult) (db : Db)
      → any (λ row. equal row.name subscribe.name) db.subscribes ≡ true
      → (write_rows x subscribe items result (record db { faults = [] })).0 ≡ ok result
  unfolding write_rows delete_outbounds_by_subscribe create_or_update_outbounds
      update_outbound_cache_time update_subscribe_row storage_call or_fail
  write_rows_total [] result db a = ground arith
  write_rows_total (item ∷ items) result db a = ground arith

  -- Where the storage does not fail and has the subscription, the refresh of an enabled one whose
  -- body was fetched returns the counts against its cached rows.
  pub refresh_subscribe_ok :
      (body : Str) (db : Db)
      → subscribe.status ≡ true
      → x.http_get_bytes subscribe.url subscribe.user_agent ≡ some body
      → db.faults ≡ []
      → any (λ row. equal row.name subscribe.name) db.subscribes ≡ true
      → (refresh_subscribe x subscribe db).0
        ≡ ok (
            calculate_subscription_refresh_result
              (map some (
                keep
                  (λ row.
                    equal row.source outbound_source_subscription
                    && (if is_empty subscribe.name
                        then true
                        else equal row.subscribe_name subscribe.name))
                  db.outbounds))
              (cached_rows x subscribe 0 (parse_subscription_outbounds x body))
              x.fetched_at)
  unfolding list_outbounds_of storage_call store_fetched
  refresh_subscribe_ok body db s h f a =
      ap (λ q. (refresh_subscribe x subscribe (record db { faults = q })).0) f
      ∙ ap (λ q. q.0) (refresh_subscribe-stores body (record db { faults = [] }) s h)
      ∙ write_rows_total (fetched body)
          (calculate_subscription_refresh_result
            (map some (
              keep
                (λ row.
                  equal row.source outbound_source_subscription
                  && (if is_empty subscribe.name
                      then true
                      else equal row.subscribe_name subscribe.name))
                db.outbounds))
            (fetched body) x.fetched_at)
          db a
