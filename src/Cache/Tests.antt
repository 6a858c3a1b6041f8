-- ===== src/Cache/Tests.antt =====
-- A table with one subscription, one of its rows and a manual row, and a body of two nodes.
use singboxconfig.Prelude.{
  arith, ℕ, Str, Bool, true, false, not, ◌&&◌, List, [], ◌∷◌, ◌++◌, Option, none, some, ◌≡◌, refl,
  codes, equal, map, keep, if◌then◌else◌, any, length,
}
use singboxconfig.Prelude.Int.{pos}
use singboxconfig.Prelude.Exec.{ok, err}
use singboxconfig.Strings.{is_empty}
use singboxconfig.Entity.{Subscribe, Outbound, outbound_source_manual, outbound_source_subscription}
use singboxconfig.Entity.SingBox.{SingBoxOut, zero_out}
use singboxconfig.Cache.{
  RefreshResult, needs_refresh, calculate_subscription_refresh_result, is_skipped, tag_of,
}
use singboxconfig.Cache.Counts.{has_tag, needs_refresh_lem}
use singboxconfig.Cache.Store.{CacheError, fetch_failed, Db, is_owned}
use singboxconfig.Cache.Refresh.{
  Fetcher, fetch_subscription_outbounds, parse_subscription_outbounds, cached_rows,
  refresh_subscribe, refresh_subscription_outbound_detailed,
}
use singboxconfig.Cache.Replaced.{owns_tag, of_tag, refresh_subscribe-KeepsRows}
use singboxconfig.Cache.Success.{refresh_subscribe-replaces, refresh_subscribe_ok}

abbrev subscribe : Subscribe
subscribe = record {
  name = codes "s";
  url = codes "u";
  user_agent = [];
  status = true;
  visible_devices = [];
  outbound_last_fetch_time = some 5;
  outbound_cache_duration = pos 1;
  outbound_last_fetch_status = [];
  outbound_last_fetch_error = [];
}

abbrev body : Str
body = codes "ss://a\n STATUS=1\nhttp://x\n\nvless://b"

abbrev node : Str → SingBoxOut
node tag = record zero_out { tag = tag }

-- each decoder gives its node, and the server answers with `answer`
abbrev fetcher : Option Str → Fetcher
fetcher answer = record {
  http_get_bytes = λ url user_agent. answer;
  base64_decode = λ text. none;
  decode_ss = λ line. some (node (codes "a"));
  decode_ssr = λ line. none;
  decode_trojan = λ line. none;
  decode_vmess = λ line. none;
  decode_vless = λ line. some (node (codes "b"));
  marshal = λ out. some out.tag;
  error_text = λ e. codes "e";
  fetched_at = 100;
  failed_at = 101;
}

abbrev row : Str → Str → Outbound
row tag source = record {
  id = pos 1;
  tag = tag;
  name = tag;
  description = [];
  type = [];
  enabled = true;
  sort = pos 0;
  visible_devices = [];
  config_json = tag;
  source = source;
  subscribe_name = codes "s";
  last_fetch_time = none;
  created_at = 0;
  updated_at = 0;
}

abbrev table : Db
table = record {
  subscribes = subscribe ∷ [];
  outbounds =
      row (codes "old") outbound_source_subscription ∷ row (codes "m") outbound_source_manual ∷ [];
  next_id = 7;
  faults = [];
}

abbrev tags : List Outbound → List Str
tags [] = []
tags (o ∷ os) = o.tag ∷ tags os

refresh_tests :
    (tags
        (refresh_subscription_outbound_detailed (fetcher (some body)) (codes "s") table).1.outbounds
      ≡ codes "m" ∷ codes "a" ∷ codes "b" ∷ [])
    × ((refresh_subscription_outbound_detailed (fetcher none) (codes "s") table).0
        ≡ err fetch_failed)
unfolding refresh_subscription_outbound_detailed equal refresh_subscribe
    fetch_subscription_outbounds cached_rows parse_subscription_outbounds is_owned
    calculate_subscription_refresh_result is_skipped tag_of any keep
    singboxconfig.Cache.Store.get_subscribe singboxconfig.Cache.Store.storage_call
    singboxconfig.Cache.Store.find_subscribe singboxconfig.Cache.Store.list_outbounds_of
    singboxconfig.Cache.Store.delete_outbounds_by_subscribe
    singboxconfig.Cache.Store.create_or_update_outbounds singboxconfig.Cache.Store.id_after
    singboxconfig.Cache.Store.new_row singboxconfig.Cache.Store.update_named
    singboxconfig.Cache.Store.update_outbound_cache_time singboxconfig.Cache.Store.update_subscribe
    singboxconfig.Cache.Store.update_subscribe_row singboxconfig.Cache.Store.upsert
    singboxconfig.Cache.Store.upsert_all singboxconfig.Cache.Store.with_values
    singboxconfig.Cache.Refresh.store_fetched singboxconfig.Cache.Refresh.write_rows
    singboxconfig.Cache.Refresh.or_fail singboxconfig.Cache.Refresh.parse_lines
    singboxconfig.Cache.Refresh.append_row singboxconfig.Cache.Refresh.append_node
    singboxconfig.Cache.Refresh.or_content singboxconfig.Cache.Refresh.or_now
    singboxconfig.Cache.Refresh.cached_row singboxconfig.Cache.Refresh.convert
    singboxconfig.Cache.Refresh.fail
    singboxconfig.Cache.Refresh.mark_subscribe_outbound_refresh_failed
    singboxconfig.Cache.Refresh.rows_of singboxconfig.Cache.Refresh.scheme_of
    singboxconfig.Cache.by_tag singboxconfig.Cache.count_current singboxconfig.Cache.count_deleted
    singboxconfig.Cache.counted singboxconfig.Cache.is_missing singboxconfig.Cache.same_outbound
    singboxconfig.Cache.subscription_outbound_equal singboxconfig.Prelude.Map.insert
    singboxconfig.Prelude.Map.lookup singboxconfig.Strings.split singboxconfig.Strings.contains
    singboxconfig.Strings.has_prefix singboxconfig.Strings.is_space singboxconfig.Strings.trim_left
    singboxconfig.Strings.trim_right singboxconfig.Strings.trim_space
    singboxconfig.Strings.trim_step singboxconfig.Cache.Store.or_text
    singboxconfig.Cache.Store.or_time
refresh_tests = (refl, refl)

-- The third storage call is the deletion, the fourth the write of the fetched rows: its failure
-- leaves no row of the subscription.
lost_test :
    (tags
        (refresh_subscription_outbound_detailed
          (fetcher (some body))
          (codes "s")
          (record table { faults = false ∷ false ∷ false ∷ true ∷ [] })).1.outbounds
      ≡ codes "m" ∷ [])
unfolding refresh_subscription_outbound_detailed equal refresh_subscribe
    fetch_subscription_outbounds cached_rows parse_subscription_outbounds is_owned
    calculate_subscription_refresh_result is_skipped tag_of any keep
    singboxconfig.Cache.Store.get_subscribe singboxconfig.Cache.Store.storage_call
    singboxconfig.Cache.Store.find_subscribe singboxconfig.Cache.Store.list_outbounds_of
    singboxconfig.Cache.Store.delete_outbounds_by_subscribe
    singboxconfig.Cache.Store.create_or_update_outbounds singboxconfig.Cache.Store.id_after
    singboxconfig.Cache.Store.new_row singboxconfig.Cache.Store.update_named
    singboxconfig.Cache.Store.update_outbound_cache_time singboxconfig.Cache.Store.update_subscribe
    singboxconfig.Cache.Store.update_subscribe_row singboxconfig.Cache.Store.upsert
    singboxconfig.Cache.Store.upsert_all singboxconfig.Cache.Store.with_values
    singboxconfig.Cache.Refresh.store_fetched singboxconfig.Cache.Refresh.write_rows
    singboxconfig.Cache.Refresh.or_fail singboxconfig.Cache.Refresh.parse_lines
    singboxconfig.Cache.Refresh.append_row singboxconfig.Cache.Refresh.append_node
    singboxconfig.Cache.Refresh.or_content singboxconfig.Cache.Refresh.or_now
    singboxconfig.Cache.Refresh.cached_row singboxconfig.Cache.Refresh.convert
    singboxconfig.Cache.Refresh.fail
    singboxconfig.Cache.Refresh.mark_subscribe_outbound_refresh_failed
    singboxconfig.Cache.Refresh.rows_of singboxconfig.Cache.Refresh.scheme_of
    singboxconfig.Cache.by_tag singboxconfig.Cache.count_current singboxconfig.Cache.count_deleted
    singboxconfig.Cache.counted singboxconfig.Cache.is_missing singboxconfig.Cache.same_outbound
    singboxconfig.Cache.subscription_outbound_equal singboxconfig.Prelude.Map.insert
    singboxconfig.Prelude.Map.lookup singboxconfig.Strings.split singboxconfig.Strings.contains
    singboxconfig.Strings.has_prefix singboxconfig.Strings.is_space singboxconfig.Strings.trim_left
    singboxconfig.Strings.trim_right singboxconfig.Strings.trim_space
    singboxconfig.Strings.trim_step singboxconfig.Cache.Store.or_text
    singboxconfig.Cache.Store.or_time
lost_test = refl

-- `needs_refresh_lem` on a cache of one minute, a nanosecond too old.
needs_refresh_lem_example : needs_refresh 60000000006 (some subscribe) ≡ true
needs_refresh_lem_example = needs_refresh_lem 60000000006 5 1 subscribe refl refl refl (omega arith)

-- `refresh_subscribe-KeepsRows` where the server does not answer.
refresh_subscribe-KeepsRows_example :
    (refresh_subscribe (fetcher none) subscribe table).1.outbounds ≡ table.outbounds
unfolding refresh_subscription_outbound_detailed equal refresh_subscribe
    fetch_subscription_outbounds cached_rows parse_subscription_outbounds is_owned
    calculate_subscription_refresh_result is_skipped tag_of any keep
    singboxconfig.Cache.Store.get_subscribe singboxconfig.Cache.Store.storage_call
    singboxconfig.Cache.Store.find_subscribe singboxconfig.Cache.Store.list_outbounds_of
    singboxconfig.Cache.Store.delete_outbounds_by_subscribe
    singboxconfig.Cache.Store.create_or_update_outbounds singboxconfig.Cache.Store.id_after
    singboxconfig.Cache.Store.new_row singboxconfig.Cache.Store.update_named
    singboxconfig.Cache.Store.update_outbound_cache_time singboxconfig.Cache.Store.update_subscribe
    singboxconfig.Cache.Store.update_subscribe_row singboxconfig.Cache.Store.upsert
    singboxconfig.Cache.Store.upsert_all singboxconfig.Cache.Store.with_values
    singboxconfig.Cache.Refresh.store_fetched singboxconfig.Cache.Refresh.write_rows
    singboxconfig.Cache.Refresh.or_fail singboxconfig.Cache.Refresh.parse_lines
    singboxconfig.Cache.Refresh.append_row singboxconfig.Cache.Refresh.append_node
    singboxconfig.Cache.Refresh.or_content singboxconfig.Cache.Refresh.or_now
    singboxconfig.Cache.Refresh.cached_row singboxconfig.Cache.Refresh.convert
    singboxconfig.Cache.Refresh.fail
    singboxconfig.Cache.Refresh.mark_subscribe_outbound_refresh_failed
    singboxconfig.Cache.Refresh.rows_of singboxconfig.Cache.Refresh.scheme_of
    singboxconfig.Cache.by_tag singboxconfig.Cache.count_current singboxconfig.Cache.count_deleted
    singboxconfig.Cache.counted singboxconfig.Cache.is_missing singboxconfig.Cache.same_outbound
    singboxconfig.Cache.subscription_outbound_equal singboxconfig.Prelude.Map.insert
    singboxconfig.Prelude.Map.lookup singboxconfig.Strings.split singboxconfig.Strings.contains
    singboxconfig.Strings.has_prefix singboxconfig.Strings.is_space singboxconfig.Strings.trim_left
    singboxconfig.Strings.trim_right singboxconfig.Strings.trim_space
    singboxconfig.Strings.trim_step singboxconfig.Cache.Store.or_text
    singboxconfig.Cache.Store.or_time
refresh_subscribe-KeepsRows_example =
    refresh_subscribe-KeepsRows (fetcher none) subscribe fetch_failed table refl

abbrev counts : RefreshResult
counts = record { added = 2; updated = 0; deleted = 1; last_fetch_time = 100 }

-- `refresh_subscribe_ok` on the body of two nodes.
refresh_subscribe_ok_example :
    (refresh_subscribe (fetcher (some body)) subscribe table).0 ≡ ok counts
unfolding refresh_subscription_outbound_detailed equal refresh_subscribe
    fetch_subscription_outbounds cached_rows parse_subscription_outbounds is_owned
    calculate_subscription_refresh_result is_skipped tag_of any keep
    singboxconfig.Cache.Store.get_subscribe singboxconfig.Cache.Store.storage_call
    singboxconfig.Cache.Store.find_subscribe singboxconfig.Cache.Store.list_outbounds_of
    singboxconfig.Cache.Store.delete_outbounds_by_subscribe
    singboxconfig.Cache.Store.create_or_update_outbounds singboxconfig.Cache.Store.id_after
    singboxconfig.Cache.Store.new_row singboxconfig.Cache.Store.update_named
    singboxconfig.Cache.Store.update_outbound_cache_time singboxconfig.Cache.Store.update_subscribe
    singboxconfig.Cache.Store.update_subscribe_row singboxconfig.Cache.Store.upsert
    singboxconfig.Cache.Store.upsert_all singboxconfig.Cache.Store.with_values
    singboxconfig.Cache.Refresh.store_fetched singboxconfig.Cache.Refresh.write_rows
    singboxconfig.Cache.Refresh.or_fail singboxconfig.Cache.Refresh.parse_lines
    singboxconfig.Cache.Refresh.append_row singboxconfig.Cache.Refresh.append_node
    singboxconfig.Cache.Refresh.or_content singboxconfig.Cache.Refresh.or_now
    singboxconfig.Cache.Refresh.cached_row singboxconfig.Cache.Refresh.convert
    singboxconfig.Cache.Refresh.fail
    singboxconfig.Cache.Refresh.mark_subscribe_outbound_refresh_failed
    singboxconfig.Cache.Refresh.rows_of singboxconfig.Cache.Refresh.scheme_of
    singboxconfig.Cache.by_tag singboxconfig.Cache.count_current singboxconfig.Cache.count_deleted
    singboxconfig.Cache.counted singboxconfig.Cache.is_missing singboxconfig.Cache.same_outbound
    singboxconfig.Cache.subscription_outbound_equal singboxconfig.Prelude.Map.insert
    singboxconfig.Prelude.Map.lookup singboxconfig.Strings.split singboxconfig.Strings.contains
    singboxconfig.Strings.has_prefix singboxconfig.Strings.is_space singboxconfig.Strings.trim_left
    singboxconfig.Strings.trim_right singboxconfig.Strings.trim_space
    singboxconfig.Strings.trim_step singboxconfig.Cache.Store.or_text
    singboxconfig.Cache.Store.or_time
refresh_subscribe_ok_example =
    refresh_subscribe_ok (fetcher (some body)) subscribe body table refl refl refl refl

-- `refresh_subscribe-replaces` on the tag of the old row.
refresh_subscribe-replaces_example :
    (owns_tag
        (codes "s")
        (codes "old")
        (refresh_subscribe (fetcher (some body)) subscribe table).1.outbounds
      ≡ false)
    × (has_tag (codes "old") (
            cached_rows
              (fetcher (some body))
              subscribe
              0
              (parse_subscription_outbounds (fetcher (some body)) body))
          ≡ false
        → of_tag (codes "old") (refresh_subscribe (fetcher (some body)) subscribe table).1.outbounds
          ≡ of_tag (codes "old") (keep (λ o. not (is_owned (codes "s") o)) table.outbounds))
unfolding refresh_subscription_outbound_detailed equal refresh_subscribe
    fetch_subscription_outbounds cached_rows parse_subscription_outbounds is_owned
    calculate_subscription_refresh_result is_skipped tag_of any keep
    singboxconfig.Cache.Store.get_subscribe singboxconfig.Cache.Store.storage_call
    singboxconfig.Cache.Store.find_subscribe singboxconfig.Cache.Store.list_outbounds_of
    singboxconfig.Cache.Store.delete_outbounds_by_subscribe
    singboxconfig.Cache.Store.create_or_update_outbounds singboxconfig.Cache.Store.id_after
    singboxconfig.Cache.Store.new_row singboxconfig.Cache.Store.update_named
    singboxconfig.Cache.Store.update_outbound_cache_time singboxconfig.Cache.Store.update_subscribe
    singboxconfig.Cache.Store.update_subscribe_row singboxconfig.Cache.Store.upsert
    singboxconfig.Cache.Store.upsert_all singboxconfig.Cache.Store.with_values
    singboxconfig.Cache.Refresh.store_fetched singboxconfig.Cache.Refresh.write_rows
    singboxconfig.Cache.Refresh.or_fail singboxconfig.Cache.Refresh.parse_lines
    singboxconfig.Cache.Refresh.append_row singboxconfig.Cache.Refresh.append_node
    singboxconfig.Cache.Refresh.or_content singboxconfig.Cache.Refresh.or_now
    singboxconfig.Cache.Refresh.cached_row singboxconfig.Cache.Refresh.convert
    singboxconfig.Cache.Refresh.fail
    singboxconfig.Cache.Refresh.mark_subscribe_outbound_refresh_failed
    singboxconfig.Cache.Refresh.rows_of singboxconfig.Cache.Refresh.scheme_of
    singboxconfig.Cache.by_tag singboxconfig.Cache.count_current singboxconfig.Cache.count_deleted
    singboxconfig.Cache.counted singboxconfig.Cache.is_missing singboxconfig.Cache.same_outbound
    singboxconfig.Cache.subscription_outbound_equal singboxconfig.Prelude.Map.insert
    singboxconfig.Prelude.Map.lookup singboxconfig.Strings.split singboxconfig.Strings.contains
    singboxconfig.Strings.has_prefix singboxconfig.Strings.is_space singboxconfig.Strings.trim_left
    singboxconfig.Strings.trim_right singboxconfig.Strings.trim_space
    singboxconfig.Strings.trim_step singboxconfig.Cache.Store.or_text
    singboxconfig.Cache.Store.or_time
refresh_subscribe-replaces_example =
    refresh_subscribe-replaces (fetcher (some body)) subscribe body (codes "old") counts table refl
      refl refl
