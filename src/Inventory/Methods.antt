-- ===== src/Inventory/Methods.antt =====
-- The methods of `DatabaseStorage` on these tables. `Create` with a struct writes the default of
-- a field with a zero value, and the default of `Enabled` is true; `Updates` with a struct leaves
-- zero values out.
use singboxconfig.Prelude.{
  ℕ, suc, Str, Bool, true, false, not, ◌&&◌, List, [], ◌∷◌, ◌++◌, Option, none, some, any, keep,
  equal, if◌then◌else◌,
}
use singboxconfig.Prelude.Int.{ℤ, pos, eqb_ℤ, ltb_ℤ}
use singboxconfig.Prelude.Exec.{Result, ok, err}
use singboxconfig.Prelude.Sort.{Sorting}
use singboxconfig.Strings.{is_empty}
use singboxconfig.Entity.{
  Device, Inbound, DeviceInbound, WireGuard, WireGuardPeer, NodeGroup, RuleSet,
}
use singboxconfig.Inventory.Table.{create, erase, run}
use singboxconfig.Inventory.Store.{
  StorageError, not_found, storage_failed, Tables, M, query, statement, get_row, list_rows,
  create_row, update_row, delete_row, devices, inbounds, wire_guards, wire_guard_peers, node_groups,
  rule_sets,
}

abbrev pub or_text : Str → Str → Str
or_text new old = if is_empty new then old else new

abbrev pub or_int : ℤ → ℤ → ℤ
or_int new old = if eqb_ℤ new (pos 0) then old else new

abbrev pub or_true : Bool → Bool → Bool
or_true new old = if new then true else old

unfoldable pub create_device : Device → M (Unit {0})
create_device device = create_row devices (record device { enabled = true })

unfoldable pub get_device : Str → M Device
get_device code = get_row devices code

unfoldable pub list_devices : M (List Device)
list_devices = list_rows devices

unfoldable pub update_device : Device → M (Unit {0})
update_device new = update_row devices new.code (λ old. record old {
  name = or_text new.name old.name;
  description = or_text new.description old.description;
  token = or_text new.token old.token;
  enabled = or_true new.enabled old.enabled;
  sort = or_int new.sort old.sort;
  wire_guard_tag = or_text new.wire_guard_tag old.wire_guard_tag;
  wire_guard_client_addr = or_text new.wire_guard_client_addr old.wire_guard_client_addr;
  wire_guard_client_key = or_text new.wire_guard_client_key old.wire_guard_client_key;
})

-- the statements of a transaction: a first one that cannot be void, and a deletion that can
unfoldable pub delete_with : Bool → Tables → Tables → Result StorageError (Unit {0}) × Tables
delete_with true before after = (ok tt, after)
delete_with false before after = (err not_found, before)

unfoldable pub delete_device : Str → M (Unit {0})
delete_device code = statement (λ t.
    let (rows, done) = run devices.keyed (erase code) t.devices in
    delete_with done t (record t {
      device_inbounds = keep (λ b. not (equal b.device_code code)) t.device_inbounds;
      devices = rows;
    }))

unfoldable pub create_inbound : Inbound → M (Unit {0})
create_inbound inbound = create_row inbounds (record inbound { enabled = true })

unfoldable pub get_inbound : Str → M Inbound
get_inbound tag = get_row inbounds tag

unfoldable pub list_inbounds : M (List Inbound)
list_inbounds = list_rows inbounds

unfoldable pub update_inbound : Inbound → M (Unit {0})
update_inbound new = update_row inbounds new.tag (λ old. record old {
  name = or_text new.name old.name;
  description = or_text new.description old.description;
  type = or_text new.type old.type;
  enabled = or_true new.enabled old.enabled;
  sort = or_int new.sort old.sort;
  config_json = or_text new.config_json old.config_json;
})

unfoldable pub delete_inbound : Str → M (Unit {0})
delete_inbound tag = statement (λ t.
    let (rows, done) = run inbounds.keyed (erase tag) t.inbounds in
    delete_with done t (record t {
      device_inbounds = keep (λ b. not (equal b.inbound_tag tag)) t.device_inbounds;
      inbounds = rows;
    }))

-- the key of a binding is the pair of its codes
abbrev pub same_binding : DeviceInbound → DeviceInbound → Bool
same_binding a b = equal a.device_code b.device_code && equal a.inbound_tag b.inbound_tag

-- the loop of creations: a duplicate fails
unfoldable pub create_bindings :
    List (Option DeviceInbound) → List DeviceInbound → Option (List DeviceInbound)
create_bindings [] rows = some rows
create_bindings (none ∷ bindings) rows = create_bindings bindings rows
create_bindings (some b ∷ bindings) rows =
    let rest = create_bindings bindings (rows ++ (b ∷ [])) in
    if any (same_binding b) rows then none else rest

unfoldable pub set_bindings :
    Option (List DeviceInbound) → Tables → Result StorageError (Unit {0}) × Tables
set_bindings none t = (err storage_failed, t)
set_bindings (some rows) t = (ok tt, record t { device_inbounds = rows })

unfoldable pub set_device_inbounds : Str → List (Option DeviceInbound) → M (Unit {0})
set_device_inbounds device_code bindings = statement (λ t.
    set_bindings
      (create_bindings bindings
        (keep (λ b. not (equal b.device_code device_code)) t.device_inbounds))
      t)

abbrev pub binding_less : DeviceInbound → DeviceInbound → Bool
binding_less a b = ltb_ℤ a.sort b.sort

-- `ORDER BY sort`
unfoldable pub list_device_inbounds : Sorting DeviceInbound → Str → M (List DeviceInbound)
list_device_inbounds sorting device_code = query (λ t. ok (
    sorting.sort_slice binding_less
      (keep (λ b. equal b.device_code device_code) t.device_inbounds)))

unfoldable pub create_wire_guard : WireGuard → M (Unit {0})
create_wire_guard item = create_row wire_guards (record item { enabled = true })

unfoldable pub get_wire_guard : Str → M WireGuard
get_wire_guard tag = get_row wire_guards tag

unfoldable pub list_wire_guards : M (List WireGuard)
list_wire_guards = list_rows wire_guards

unfoldable pub update_wire_guard : WireGuard → M (Unit {0})
update_wire_guard new = update_row wire_guards new.tag (λ old. record old {
  name = or_text new.name old.name;
  description = or_text new.description old.description;
  enabled = or_true new.enabled old.enabled;
  sort = or_int new.sort old.sort;
  endpoint_tag = or_text new.endpoint_tag old.endpoint_tag;
  mtu = or_int new.mtu old.mtu;
})

-- the devices that used the template, without it
unfoldable pub unbound : Str → List Device → List Device
unbound tag [] = []
unbound tag (row ∷ rows) =
    (if equal row.wire_guard_tag tag
      then record row {
        wire_guard_tag = [];
        wire_guard_client_addr = [];
        wire_guard_client_key = [];
      }
      else row)
    ∷ unbound tag rows

unfoldable pub delete_wire_guard : Str → M (Unit {0})
delete_wire_guard tag = statement (λ t.
    let (rows, done) = run wire_guards.keyed (erase tag) t.wire_guards in
    delete_with done t (record t {
      devices = unbound tag t.devices;
      wire_guard_peers = keep (λ p. not (equal p.wire_guard_tag tag)) t.wire_guard_peers;
      wire_guards = rows;
    }))

-- the id of a created peer, and the counter after it
abbrev pub peer_id : WireGuardPeer → ℕ → ℤ
peer_id item next = if eqb_ℤ item.id (pos 0) then pos next else item.id

-- the row with its id, which the method also sets in its argument
unfoldable pub create_wire_guard_peer : WireGuardPeer → M WireGuardPeer
create_wire_guard_peer item = statement (λ t.
    let row : WireGuardPeer = record item { id = peer_id item t.next_peer_id; enabled = true } in
    let (rows, done) = run wire_guard_peers.keyed (create row) t.wire_guard_peers in
    (
      (if done then ok row else err storage_failed),
      record t {
        wire_guard_peers = rows;
        next_peer_id = (if eqb_ℤ item.id (pos 0) then suc t.next_peer_id else t.next_peer_id);
      },
    ))

unfoldable pub peer_before : WireGuardPeer → WireGuardPeer → Bool
peer_before a b = if eqb_ℤ a.sort b.sort then ltb_ℤ a.id b.id else ltb_ℤ a.sort b.sort

unfoldable pub list_wire_guard_peers : Sorting WireGuardPeer → Str → M (List WireGuardPeer)
list_wire_guard_peers sorting tag = query (λ t.
    ok (sorting.sort_slice peer_before (keep (λ p. equal p.wire_guard_tag tag) t.wire_guard_peers)))

unfoldable pub update_wire_guard_peer : WireGuardPeer → M (Unit {0})
update_wire_guard_peer new = update_row wire_guard_peers new.id (λ old. record old {
  wire_guard_tag = or_text new.wire_guard_tag old.wire_guard_tag;
  sort = or_int new.sort old.sort;
  address = or_text new.address old.address;
  port = or_int new.port old.port;
  public_key = or_text new.public_key old.public_key;
  pre_shared_key = or_text new.pre_shared_key old.pre_shared_key;
  allowed_ips = or_text new.allowed_ips old.allowed_ips;
  persistent_keepalive_interval =
      or_int new.persistent_keepalive_interval old.persistent_keepalive_interval;
  enabled = or_true new.enabled old.enabled;
})

unfoldable pub delete_wire_guard_peer : ℤ → M (Unit {0})
delete_wire_guard_peer id = delete_row wire_guard_peers id

unfoldable pub create_node_group : NodeGroup → M (Unit {0})
create_node_group group = create_row node_groups group

unfoldable pub get_node_group : Str → M NodeGroup
get_node_group tag = get_row node_groups tag

unfoldable pub list_node_groups : M (List NodeGroup)
list_node_groups = list_rows node_groups

unfoldable pub update_node_group : NodeGroup → M (Unit {0})
update_node_group new = update_row node_groups new.tag (λ old. record old {
  name = or_text new.name old.name;
  group_type = or_text new.group_type old.group_type;
  test_url = or_text new.test_url old.test_url;
  include = or_text new.include old.include;
  exclude = or_text new.exclude old.exclude;
  device_type_overrides = or_text new.device_type_overrides old.device_type_overrides;
})

unfoldable pub delete_node_group : Str → M (Unit {0})
delete_node_group tag = delete_row node_groups tag

unfoldable pub create_rule_set : RuleSet → M (Unit {0})
create_rule_set rule_set = create_row rule_sets rule_set

unfoldable pub get_rule_set : Str → M RuleSet
get_rule_set tag = get_row rule_sets tag

unfoldable pub list_rule_sets : M (List RuleSet)
list_rule_sets = list_rows rule_sets

unfoldable pub update_rule_set : RuleSet → M (Unit {0})
update_rule_set new = update_row rule_sets new.tag (λ old. record old {
  name = or_text new.name old.name;
  rule_set_type = or_text new.rule_set_type old.rule_set_type;
  format = or_text new.format old.format;
  content = or_text new.content old.content;
  url = or_text new.url old.url;
  outbound = or_text new.outbound old.outbound;
  download_detour = or_text new.download_detour old.download_detour;
  able_devices = or_text new.able_devices old.able_devices;
  sort = or_int new.sort old.sort;
})

unfoldable pub delete_rule_set : Str → M (Unit {0})
delete_rule_set tag = delete_row rule_sets tag
