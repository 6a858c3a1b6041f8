-- ===== src/Cache/Refresh.antt =====
-- service/outbound_cache.go, the refresh of one subscription: the text is fetched and parsed, then
-- the rows are replaced. What was written before a failure stays written.
use singboxconfig.Prelude.{
  ℕ, suc, Str, true, not, ◌||◌, List, [], ◌∷◌, Option, none, some, equal, map, codes, if◌then◌else◌,
}
use singboxconfig.Prelude.Int.{pos}
use singboxconfig.Prelude.Exec.{Result, ok, err, pure, raise, attempt, ◌>>=◌, ◌>>◌}
use singboxconfig.Strings.{trim_space, is_empty, split, has_prefix, contains}
use singboxconfig.Entity.{Time, Outbound, Subscribe, outbound_source_subscription}
use singboxconfig.Entity.SingBox.{SingBoxOut}
use singboxconfig.Cache.{RefreshResult, calculate_subscription_refresh_result}
use singboxconfig.Cache.Store.{
  CacheError, fetch_failed, M, get_subscribe, list_outbounds_of, delete_outbounds_by_subscribe,
  create_or_update_outbounds, update_outbound_cache_time, update_subscribe,
}

-- `httpGetBytes` (none: it fails) and base64; the decoders of package protocol; `json.Marshal`; the
-- texts of the errors; and the clock when the nodes are stored and when a failure is.
pub record Fetcher : Type 0 where
  pub http_get_bytes : Str → Str → Option Str
  pub base64_decode : Str → Option Str
  pub decode_ss : Str → Option SingBoxOut
  pub decode_ssr : Str → Option SingBoxOut
  pub decode_trojan : Str → Option SingBoxOut
  pub decode_vmess : Str → Option SingBoxOut
  pub decode_vless : Str → Option SingBoxOut
  pub marshal : SingBoxOut → Option Str
  pub error_text : CacheError → Str
  pub fetched_at : Time
  pub failed_at : Time

-- `strings.SplitN(line, "://", 2)[0]`
unfoldable pub scheme_of : Str → Str
scheme_of [] = []
scheme_of (c ∷ line) =
    let rest = scheme_of line in if has_prefix (c ∷ line) (codes "://") then [] else c ∷ rest

unfoldable pub append_node : Option SingBoxOut → List SingBoxOut → List SingBoxOut
append_node none rest = rest
append_node (some node) rest = node ∷ rest

unfoldable pub or_content : Str → Option Str → Str
or_content content none = content
or_content content (some body) = body

unfoldable pub append_row :
    Option Str → (Str → Outbound) → List (Option Outbound) → List (Option Outbound)
append_row none row rest = rest
append_row (some config_json) row rest = some (row config_json) ∷ rest

-- the row of a node
unfoldable pub cached_row : Subscribe → Time → ℕ → SingBoxOut → Str → Outbound
cached_row subscribe fetch_time index node config_json = record {
  id = pos 0;
  tag = node.tag;
  name = node.tag;
  description = [];
  type = node.type;
  enabled = true;
  sort = pos index;
  visible_devices = subscribe.visible_devices;
  config_json = config_json;
  source = outbound_source_subscription;
  subscribe_name = subscribe.name;
  last_fetch_time = some fetch_time;
  created_at = 0;
  updated_at = 0;
}

module _ (x : Fetcher) where
  -- `subscriptionOutboundConvertMap`, applied
  unfoldable pub convert : Str → Str → Option SingBoxOut
  convert protocol line =
      if equal protocol (codes "ss")
      then x.decode_ss line
      else if equal protocol (codes "ssr")
      then x.decode_ssr line
      else if equal protocol (codes "trojan")
      then x.decode_trojan line
      else if equal protocol (codes "vmess")
      then x.decode_vmess line
      else if equal protocol (codes "vless")
      then x.decode_vless line
      else none

  -- the loop over the lines
  unfoldable pub parse_lines : List Str → List SingBoxOut
  unfolding append_node
  parse_lines [] = []
  parse_lines (raw ∷ lines) =
      let rest = parse_lines lines in
      let line = trim_space raw in
      if is_empty line
      then rest
      else if has_prefix line (codes "STATUS=") || has_prefix line (codes "status=")
      then rest
      else if not (contains line (codes "://"))
      then rest
      else append_node (convert (scheme_of line) line) rest

  unfoldable pub parse_subscription_outbounds : Str → List SingBoxOut
  unfolding or_content
  parse_subscription_outbounds http_content =
      parse_lines (split b'\n' (or_content http_content (x.base64_decode http_content)))

  -- the loop over the nodes, from an index on
  unfoldable pub cached_rows : Subscribe → ℕ → List SingBoxOut → List (Option Outbound)
  unfolding append_row
  cached_rows subscribe index [] = []
  cached_rows subscribe index (node ∷ nodes) =
      append_row (x.marshal node) (cached_row subscribe x.fetched_at index node)
        (cached_rows subscribe (suc index) nodes)

  unfoldable pub rows_of : Subscribe → Option Str → Result CacheError (List (Option Outbound))
  rows_of subscribe none = err fetch_failed
  rows_of subscribe (some body) = ok (cached_rows subscribe 0 (parse_subscription_outbounds body))

  -- the rows; `fetchTime` is `x.fetched_at`
  unfoldable pub fetch_subscription_outbounds :
      Subscribe → Result CacheError (List (Option Outbound))
  unfolding rows_of
  fetch_subscription_outbounds subscribe =
      rows_of subscribe (x.http_get_bytes subscribe.url subscribe.user_agent)

  unfoldable pub or_now : Option Time → Option Time
  or_now none = some x.failed_at
  or_now (some t) = some t

  -- A failure of the update itself is logged.
  unfoldable pub mark_subscribe_outbound_refresh_failed : Subscribe → CacheError → M (Unit {0})
  unfolding or_now
  mark_subscribe_outbound_refresh_failed subscribe e = do
    r ← attempt (
        update_subscribe (record subscribe {
          outbound_last_fetch_status = codes "FAILED";
          outbound_last_fetch_error = x.error_text e;
          outbound_last_fetch_time = or_now subscribe.outbound_last_fetch_time;
        }))
    pure tt

  unfoldable pub fail : {A : Type 0} → Subscribe → CacheError → M A
  fail subscribe e = do mark_subscribe_outbound_refresh_failed subscribe e; raise e

  -- `if err := …; err != nil { mark; return }`, and what follows
  unfoldable pub or_fail : {A : Type 0} → Subscribe → Result CacheError (Unit {0}) → M A → M A
  or_fail subscribe (ok u) k = k
  or_fail subscribe (err e) k = fail subscribe e

  unfoldable pub write_rows : Subscribe → List (Option Outbound) → RefreshResult → M RefreshResult
  write_rows subscribe outbounds result = do
    deleted ← attempt (delete_outbounds_by_subscribe subscribe.name)
    or_fail subscribe deleted (do
      written ← attempt (create_or_update_outbounds outbounds)
      or_fail subscribe written (do
        timed ← attempt (update_outbound_cache_time subscribe.name x.fetched_at)
        or_fail subscribe timed (pure result)))

  unfoldable pub store_fetched :
      Subscribe → List Outbound → Result CacheError (List (Option Outbound)) → M RefreshResult
  store_fetched subscribe existing (err e) = fail subscribe e
  store_fetched subscribe existing (ok outbounds) =
      write_rows subscribe outbounds
        (calculate_subscription_refresh_result (map some existing) outbounds x.fetched_at)

  -- the refresh from the loaded subscription on
  unfoldable pub refresh_subscribe : Subscribe → M RefreshResult
  refresh_subscribe subscribe =
      if not subscribe.status
      then pure (record { added = 0; updated = 0; deleted = 0; last_fetch_time = 0 })
      else (do
        existing ← list_outbounds_of subscribe.name
        store_fetched subscribe existing (fetch_subscription_outbounds subscribe))

  unfoldable pub refresh_subscription_outbound_detailed : Str → M RefreshResult
  refresh_subscription_outbound_detailed name = do
    subscribe ← get_subscribe name
    refresh_subscribe subscribe

  unfoldable pub refresh_subscription_outbound : Str → M (Unit {0})
  refresh_subscription_outbound name = do r ← refresh_subscription_outbound_detailed name; pure tt
