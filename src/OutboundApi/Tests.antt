-- ===== src/OutboundApi/Tests.antt =====
-- Pages of five items, two to a page.
use singboxconfig.Prelude.{
  codes, true, Str, Option, ℕ, ◌-◌, ◌*◌, List, [], ◌∷◌, none, some, ◌≡◌, refl, arith,
}
use singboxconfig.OutboundApi.{drop, take, slice, paged, paginate_outbounds}
use singboxconfig.Prelude.Int.{pos}
use singboxconfig.Prelude.Exec.{err}
use singboxconfig.Entity.{Outbound, outbound_source_manual, outbound_source_subscription}
use singboxconfig.Cache.Store.{Db}
use singboxconfig.OutboundApi.Replaced.{fetched}
use singboxconfig.OutboundApi.Manual.{put_outbound-KeepsFetched}
use singboxconfig.OutboundApi.Handlers.{Status, put_outbound}
use singboxconfig.OutboundApi.Pages.{paginate_outbounds_lem}

abbrev items : List ℕ
items = 1 ∷ 2 ∷ 3 ∷ 4 ∷ 5 ∷ []

paginate_outbounds_lem_example :
    paginate_outbounds items 3 2 ≡ some (take 2 (drop ((3 - 1) * 2) items))
paginate_outbounds_lem_example = paginate_outbounds_lem items 3 2 (omega arith) (omega arith)

last_page_test : paginate_outbounds items 3 2 ≡ some (5 ∷ [])
unfolding paginate_outbounds paged slice take drop
last_page_test = refl

-- The product of a page number of 63 bits wraps to a negative start, and the slice panics.
overflow_test : paginate_outbounds items 9223372036854775807 20 ≡ none
unfolding paginate_outbounds paged slice take drop
overflow_test = refl

abbrev row : ℕ → Str → Str → Outbound
row id tag source = record {
  id = pos id;
  tag = tag;
  name = [];
  description = [];
  type = [];
  enabled = true;
  sort = pos 0;
  visible_devices = [];
  config_json = [];
  source = source;
  subscribe_name = [];
  last_fetch_time = none;
  created_at = 0;
  updated_at = 0;
}

-- one row of each source
abbrev db : Db
db = record {
  subscribes = [];
  outbounds =
      row 1 (codes "a") outbound_source_subscription
      ∷ row 2 (codes "b") outbound_source_manual
      ∷ [];
  next_id = 3;
  faults = [];
}

abbrev renamed : Option Outbound
renamed = some (row 0 (codes "c") outbound_source_subscription)

put_outbound-KeepsFetched_example :
    fetched (put_outbound (some (pos 2)) renamed db).1.outbounds ≡ fetched db.outbounds
unfolding singboxconfig.Prelude.any
put_outbound-KeepsFetched_example = put_outbound-KeepsFetched (some (pos 2)) renamed db refl

-- the manual row is renamed and stays manual, and the other one is refused
put_tests :
    ((put_outbound (some (pos 2)) renamed db).1.outbounds ≡ (
      row 1 (codes "a") outbound_source_subscription
      ∷ row 2 (codes "c") outbound_source_manual
      ∷ []))
    × ((put_outbound (some (pos 1)) renamed db).0 ≡ err Status.bad_request)
unfolding put_outbound singboxconfig.OutboundApi.Handlers.parse_id_param
    singboxconfig.OutboundApi.Handlers.bind singboxconfig.OutboundApi.Handlers.refuse_if
    singboxconfig.OutboundApi.Handlers.missing_as singboxconfig.OutboundApi.Rows.get_outbound
    singboxconfig.Cache.Store.storage_call singboxconfig.OutboundApi.Rows.find_outbound
    singboxconfig.Prelude.equal singboxconfig.OutboundApi.Handlers.optional_as
    singboxconfig.OutboundApi.Rows.find_outbound_by_tag
    singboxconfig.OutboundApi.Rows.list_outbounds singboxconfig.Prelude.keep
    singboxconfig.Prelude.all singboxconfig.OutboundApi.Handlers.is_other
    singboxconfig.OutboundApi.Rows.update_outbound singboxconfig.OutboundApi.Handlers.edited
    singboxconfig.Cache.Store.with_values singboxconfig.OutboundApi.Rows.has_enabled
    singboxconfig.OutboundApi.Rows.has_source singboxconfig.OutboundApi.Rows.passes
    singboxconfig.OutboundApi.Rows.replace_row singboxconfig.OutboundApi.Rows.save_outbound
    singboxconfig.OutboundApi.Rows.tag_is_taken singboxconfig.Prelude.any
put_tests = (refl, refl)
