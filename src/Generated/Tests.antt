-- ===== src/Generated/Tests.antt =====
-- A device, a subscription that is disabled, a row of it and a manual row.
use singboxconfig.Prelude.{
  ℕ, Str, Bool, true, false, List, [], ◌∷◌, Option, none, some, ◌≡◌, refl, codes, keep,
}
use singboxconfig.Prelude.Int.{pos}
use singboxconfig.Prelude.Exec.{Result, ok, err}
use singboxconfig.Prelude.Sort.{insertion_sort, insertion}
use singboxconfig.Entity.{
  Device, Outbound, Subscribe, outbound_source_manual, outbound_source_subscription,
}
use singboxconfig.Entity.SingBox.{SingBoxConfig, SingBoxOut, zero_out}
use singboxconfig.Auth.World.{World}
use singboxconfig.Cache.Store as CacheStore
use singboxconfig.Cache.Refresh.{Fetcher}
use singboxconfig.Cache.Offered.{Visits, resolve_items}
use singboxconfig.Cache.Shown.{is_shown}
use singboxconfig.Cache.Calm.{resolve_items_ok}
use singboxconfig.Inventory.Store as TableStore
use singboxconfig.Generated.Server.{ServerState}
use singboxconfig.Generated.{External, Status, Answer, generated, resolve_generate_device}
use singboxconfig.Generated.Admitted.{IsAdmitted}
use singboxconfig.Generated.Configured.{IsConfig, generated-IsConfig}
use singboxconfig.Generated.Total.{generated_ok}
use singboxconfig.Generated.Refused.{SameData, refusal, generated-refused}

abbrev device : Device
device = record {
  code = codes "tv";
  name = [];
  description = [];
  token = codes "t";
  enabled = true;
  sort = pos 0;
  wire_guard_tag = [];
  wire_guard_client_addr = [];
  wire_guard_client_key = [];
}

abbrev subscribe : Subscribe
subscribe = record {
  name = codes "s";
  url = codes "u";
  user_agent = [];
  status = false;
  visible_devices = [];
  outbound_last_fetch_time = none;
  outbound_cache_duration = pos 1;
  outbound_last_fetch_status = [];
  outbound_last_fetch_error = [];
}

abbrev row : Str → Str → Outbound
row tag source = record {
  id = pos 1;
  tag = tag;
  name = [];
  description = [];
  type = [];
  enabled = true;
  sort = pos 0;
  visible_devices = [];
  config_json = tag;
  source = source;
  subscribe_name = codes "s";
  last_fetch_time = none;
  created_at = 0;
  updated_at = 0;
}

abbrev cache : CacheStore.Db
cache = record {
  subscribes = subscribe ∷ [];
  outbounds =
      row (codes "a") outbound_source_manual ∷ row (codes "b") outbound_source_subscription ∷ [];
  next_id = 3;
  faults = [];
}

abbrev server : ServerState
server = record {
  world = record {
    settings = [];
    cache = record { ttl = 0; config = none; expires_at = 0 };
    now = 0;
    faults = [];
    entropy = [];
    delays = [];
  };
  cache = cache;
  db = record {
    tables = record {
      devices = device ∷ [];
      inbounds = [];
      device_inbounds = [];
      wire_guards = [];
      wire_guard_peers = [];
      next_peer_id = 1;
      node_groups = [];
      rule_sets = [];
    };
    faults = [];
  };
}

-- the network does not answer
abbrev fetcher : Fetcher
fetcher = record {
  http_get_bytes = λ url user_agent. none;
  base64_decode = λ text. none;
  decode_ss = λ line. none;
  decode_ssr = λ line. none;
  decode_trojan = λ line. none;
  decode_vmess = λ line. none;
  decode_vless = λ line. none;
  marshal = λ out. none;
  error_text = λ e. [];
  fetched_at = 0;
  failed_at = 0;
}

abbrev visits : Visits
visits = record { now = λ s. 0; fetcher = λ s. fetcher }

-- a text is the tag of its outbound
abbrev external : External
external = record {
  unmarshal_dns = λ text. none;
  unmarshal_inbound = λ text. none;
  unmarshal_outbound = λ text. some (record zero_out { tag = text });
  must_json = λ inbound. [];
  inbounds = insertion_sort;
  outbounds = insertion_sort;
  bindings = insertion_sort;
  peers = insertion_sort;
  rule_sets = insertion_sort;
  parse_url = λ text. none;
  contents = record {
    count_lines = λ text. none;
    inline_rules = λ text. none;
    path_escape = λ text. text;
    query_escape = λ text. text;
  };
  visits = visits;
}

resolve_items_ok_example :
    (resolve_items visits (codes "tv") cache).0
    ≡ ok (
        keep
          (is_shown (codes "tv") cache.subscribes)
          (resolve_items visits (codes "tv") cache).1.outbounds)
resolve_items_ok_example = resolve_items_ok visits (codes "tv") cache refl

-- a wrong token
wrong_token :
    refusal (codes "x") (resolve_generate_device (codes "tv") server).0 ≡ some Status.unauthorized
unfolding resolve_generate_device singboxconfig.Generated.Server.db_error
    singboxconfig.Inventory.Methods.list_devices TableStore.list_rows TableStore.query
    singboxconfig.Generated.stored_or_default singboxconfig.Inventory.Methods.get_device
    TableStore.get_row TableStore.first singboxconfig.Inventory.Table.find
    singboxconfig.Prelude.equal
wrong_token = refl

generated-refused_example :
    ((generated external (codes "tv") (codes "x") server).0 ≡ err Status.unauthorized)
    × SameData server (generated external (codes "tv") (codes "x") server).1
generated-refused_example =
    generated-refused external (codes "tv") (codes "x") server Status.unauthorized wrong_token

abbrev config_of : Result Status SingBoxConfig → SingBoxConfig → SingBoxConfig
config_of (ok config) other = config
config_of (err status) other = other

abbrev other : SingBoxConfig
other = record {
  dns = record { servers = []; rules = []; final = [] };
  endpoints = [];
  route = record {
    rules = [];
    rule_set = [];
    final = [];
    find_process = false;
    auto_detect_interface = false;
  };
  experimental = none;
  inbounds = [];
  outbounds = [];
}

-- the manual row and direct are sent
abbrev sent : Result Status SingBoxConfig × ServerState
sent = generated external (codes "tv") (codes "t") server

abbrev tags : List SingBoxOut → List Str
tags [] = []
tags (o ∷ os) = o.tag ∷ tags os

sent_test : tags (config_of sent.0 other).outbounds ≡ codes "a" ∷ codes "direct" ∷ []
unfolding singboxconfig.Generated.default_of singboxconfig.Generated.stored_or_default
    singboxconfig.Generated.or_blank singboxconfig.Generated.resolve_dns_config_json
    singboxconfig.Generated.inbound_map singboxconfig.Generated.bound_inbounds
    singboxconfig.Generated.or_default_wire_guard singboxconfig.Generated.failed_as
    singboxconfig.Generated.missing_as singboxconfig.Generated.or_failed
    singboxconfig.Generated.or_missing singboxconfig.Generated.admitted
    singboxconfig.Generated.authorized singboxconfig.Generated.resolve_generate_inbounds
    singboxconfig.Generated.resolve_generate_endpoints
    singboxconfig.Generated.resolve_generate_outbounds singboxconfig.Generated.generate_for
    singboxconfig.Generated.generated singboxconfig.Generated.resolve_generate_device
    singboxconfig.Generated.Server.world_error singboxconfig.Generated.Server.cache_error
    singboxconfig.Generated.Server.db_error singboxconfig.Cache.Offered.list_subscribes
    singboxconfig.Cache.Offered.get_outbounds_by_device singboxconfig.Cache.Offered.is_hidden
    singboxconfig.Cache.Offered.is_filtered singboxconfig.Cache.Offered.refresh_if_due
    singboxconfig.Cache.Offered.visit_subscribes singboxconfig.Cache.Offered.resolve_items
    singboxconfig.Cache.Store.storage_call singboxconfig.Inventory.Store.storage_call
    singboxconfig.Inventory.Store.query singboxconfig.Inventory.Store.first
    singboxconfig.Inventory.Store.get_row singboxconfig.Inventory.Store.list_rows
    singboxconfig.Inventory.Methods.list_devices singboxconfig.Inventory.Methods.get_device
    singboxconfig.Inventory.Methods.list_device_inbounds
    singboxconfig.Inventory.Methods.list_inbounds singboxconfig.Inventory.Methods.list_node_groups
    singboxconfig.Inventory.Methods.list_rule_sets singboxconfig.Inventory.Table.find
    singboxconfig.Auth.World.get_global_setting singboxconfig.Auth.World.storage_call
    singboxconfig.Auth.World.found singboxconfig.Settings.resolve_system_host
    singboxconfig.Prelude.Keys.has singboxconfig.Prelude.Keys.add singboxconfig.Prelude.any
    singboxconfig.Prelude.keep singboxconfig.Prelude.equal singboxconfig.Prelude.Map.lookup
    singboxconfig.Visibility.is_device_visible
    singboxconfig.Visibility.is_extra_outbound_visible_for_device singboxconfig.Strings.trim_space
    singboxconfig.Strings.trim_left singboxconfig.Strings.trim_right singboxconfig.Strings.split
    singboxconfig.Singbox.Templates.get_extra_outbounds
    singboxconfig.Singbox.Outbounds.get_outbounds
    singboxconfig.Singbox.Outbounds.construct_outbound_group
    singboxconfig.Singbox.Outbounds.get_tags_from_outbounds
    singboxconfig.Singbox.DefaultTables.get_default_extra_outbounds
    singboxconfig.Singbox.DefaultTables.get_default_device_inbounds
    singboxconfig.Singbox.DefaultTables.get_default_inbounds insertion
sent_test = refl

sending : sent ≡ (ok (config_of sent.0 other), sent.1)
unfolding singboxconfig.Generated.default_of singboxconfig.Generated.stored_or_default
    singboxconfig.Generated.or_blank singboxconfig.Generated.resolve_dns_config_json
    singboxconfig.Generated.inbound_map singboxconfig.Generated.bound_inbounds
    singboxconfig.Generated.or_default_wire_guard singboxconfig.Generated.failed_as
    singboxconfig.Generated.missing_as singboxconfig.Generated.or_failed
    singboxconfig.Generated.or_missing singboxconfig.Generated.admitted
    singboxconfig.Generated.authorized singboxconfig.Generated.resolve_generate_inbounds
    singboxconfig.Generated.resolve_generate_endpoints
    singboxconfig.Generated.resolve_generate_outbounds singboxconfig.Generated.generate_for
    singboxconfig.Generated.generated singboxconfig.Generated.resolve_generate_device
    singboxconfig.Generated.Server.world_error singboxconfig.Generated.Server.cache_error
    singboxconfig.Generated.Server.db_error singboxconfig.Cache.Offered.list_subscribes
    singboxconfig.Cache.Offered.get_outbounds_by_device singboxconfig.Cache.Offered.is_hidden
    singboxconfig.Cache.Offered.is_filtered singboxconfig.Cache.Offered.refresh_if_due
    singboxconfig.Cache.Offered.visit_subscribes singboxconfig.Cache.Offered.resolve_items
    singboxconfig.Cache.Store.storage_call singboxconfig.Inventory.Store.storage_call
    singboxconfig.Inventory.Store.query singboxconfig.Inventory.Store.first
    singboxconfig.Inventory.Store.get_row singboxconfig.Inventory.Store.list_rows
    singboxconfig.Inventory.Methods.list_devices singboxconfig.Inventory.Methods.get_device
    singboxconfig.Inventory.Methods.list_device_inbounds
    singboxconfig.Inventory.Methods.list_inbounds singboxconfig.Inventory.Methods.list_node_groups
    singboxconfig.Inventory.Methods.list_rule_sets singboxconfig.Inventory.Table.find
    singboxconfig.Auth.World.get_global_setting singboxconfig.Auth.World.storage_call
    singboxconfig.Auth.World.found singboxconfig.Settings.resolve_system_host
    singboxconfig.Prelude.Keys.has singboxconfig.Prelude.Keys.add singboxconfig.Prelude.any
    singboxconfig.Prelude.keep singboxconfig.Prelude.equal singboxconfig.Prelude.Map.lookup
    singboxconfig.Visibility.is_device_visible
    singboxconfig.Visibility.is_extra_outbound_visible_for_device singboxconfig.Strings.trim_space
    singboxconfig.Strings.trim_left singboxconfig.Strings.trim_right singboxconfig.Strings.split
    singboxconfig.Singbox.Templates.get_extra_outbounds
    singboxconfig.Singbox.Outbounds.get_outbounds
    singboxconfig.Singbox.Outbounds.construct_outbound_group
    singboxconfig.Singbox.Outbounds.get_tags_from_outbounds
    singboxconfig.Singbox.DefaultTables.get_default_extra_outbounds
    singboxconfig.Singbox.DefaultTables.get_default_device_inbounds
    singboxconfig.Singbox.DefaultTables.get_default_inbounds
sending = refl

generated-IsConfig_example :
    (d : Device) × IsAdmitted (codes "tv") (codes "t") server.db.tables.devices d
    × IsConfig external d server.cache sent.1.cache (config_of sent.0 other)
generated-IsConfig_example =
    generated-IsConfig external (codes "tv") (codes "t") server sent.1 (config_of sent.0 other)
      sending

admitting : IsAdmitted (codes "tv") (codes "t") server.db.tables.devices device
unfolding singboxconfig.Inventory.Table.find singboxconfig.Prelude.equal
admitting = record { known = refl; enabled = refl; same_token = refl }

generated_ok_example :
    (config : SingBoxConfig) × (after : ServerState) × (generated external
        (codes "tv")
        (codes "t")
        server
      ≡ (ok config, after))
generated_ok_example =
    generated_ok external (codes "tv") (codes "t") device server refl refl refl admitting
