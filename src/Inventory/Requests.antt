-- ===== src/Inventory/Requests.antt =====
-- The routes for these tables and their handlers (cmd/server/main.go): those of devices, inbounds,
-- bindings, WireGuard templates and peers, node groups and rule sets. The import of a configuration
-- (service/config_transfer.go) writes to the tables too, and is none of them.
use singboxconfig.Prelude.{Str, List, Option}
use singboxconfig.Prelude.Int.{ℤ}
use singboxconfig.Prelude.Sort.{Sorting}
use singboxconfig.Entity.{
  Device, Inbound, DeviceInbound, WireGuard, WireGuardPeer, NodeGroup, RuleSet,
}
use singboxconfig.Inventory.Handlers.{
  Body, Handler, post_device, fetch_device, fetch_devices, put_device, remove_device, post_inbound,
  fetch_inbound, fetch_inbounds, put_inbound, remove_inbound, put_device_inbounds,
  fetch_device_inbounds, post_wire_guard, fetch_wire_guard, fetch_wire_guards, put_wire_guard,
  remove_wire_guard, post_peer, fetch_peers, put_peer, remove_peer, post_node_group, put_node_group,
  remove_node_group, fetch_node_groups, post_rule_set, put_rule_set, remove_rule_set,
  fetch_rule_set_by_tag, fetch_rule_sets,
}

-- `sort.Slice` on each type of row, and `json.Unmarshal` of a content into a raw message.
pub record Sorters : Type 0 where
  pub devices : Sorting Device
  pub inbounds : Sorting Inbound
  pub bindings : Sorting DeviceInbound
  pub wire_guards : Sorting WireGuard
  pub peers : Sorting WireGuardPeer
  pub rule_sets : Sorting RuleSet
  pub raw_message : Str → Option Str

pub data InventoryRequest : Type 0 where
  create_device : Option Device → InventoryRequest
  get_device : Str → InventoryRequest
  list_devices : InventoryRequest
  update_device : Str → Option Device → InventoryRequest
  delete_device : Str → InventoryRequest
  create_inbound : Option Inbound → InventoryRequest
  get_inbound : Str → InventoryRequest
  list_inbounds : InventoryRequest
  update_inbound : Str → Option Inbound → InventoryRequest
  delete_inbound : Str → InventoryRequest
  set_device_inbounds : Str → Option (List (Option DeviceInbound)) → InventoryRequest
  list_device_inbounds : Str → InventoryRequest
  create_wire_guard : Option WireGuard → InventoryRequest
  get_wire_guard : Str → InventoryRequest
  list_wire_guards : InventoryRequest
  update_wire_guard : Str → Option WireGuard → InventoryRequest
  delete_wire_guard : Str → InventoryRequest
  create_peer : Str → Option WireGuardPeer → InventoryRequest
  list_peers : Str → InventoryRequest
  update_peer : Str → Option (Option ℤ) → Option WireGuardPeer → InventoryRequest
  delete_peer : Str → Option ℤ → InventoryRequest
  create_node_group : Option NodeGroup → InventoryRequest
  update_node_group : Option NodeGroup → InventoryRequest
  delete_node_group : Str → InventoryRequest
  list_node_groups : InventoryRequest
  create_rule_set : Option RuleSet → InventoryRequest
  update_rule_set : Option RuleSet → InventoryRequest
  delete_rule_set : Str → InventoryRequest
  get_rule_set : Str → InventoryRequest
  list_rule_sets : InventoryRequest

abbrev pub dispatch : Sorters → InventoryRequest → Handler Body
dispatch x (create_device body) = post_device body
dispatch x (get_device code) = fetch_device code
dispatch x list_devices = fetch_devices x.devices
dispatch x (update_device path body) = put_device path body
dispatch x (delete_device code) = remove_device code
dispatch x (create_inbound body) = post_inbound body
dispatch x (get_inbound tag) = fetch_inbound tag
dispatch x list_inbounds = fetch_inbounds x.inbounds
dispatch x (update_inbound path body) = put_inbound path body
dispatch x (delete_inbound tag) = remove_inbound tag
dispatch x (set_device_inbounds code body) = put_device_inbounds code body
dispatch x (list_device_inbounds code) = fetch_device_inbounds x.bindings code
dispatch x (create_wire_guard body) = post_wire_guard body
dispatch x (get_wire_guard tag) = fetch_wire_guard tag
dispatch x list_wire_guards = fetch_wire_guards x.wire_guards
dispatch x (update_wire_guard path body) = put_wire_guard path body
dispatch x (delete_wire_guard tag) = remove_wire_guard tag
dispatch x (create_peer tag body) = post_peer tag body
dispatch x (list_peers tag) = fetch_peers x.peers tag
dispatch x (update_peer tag id body) = put_peer tag id body
dispatch x (delete_peer tag id) = remove_peer tag id
dispatch x (create_node_group body) = post_node_group body
dispatch x (update_node_group body) = put_node_group body
dispatch x (delete_node_group tag) = remove_node_group tag
dispatch x list_node_groups = fetch_node_groups
dispatch x (create_rule_set body) = post_rule_set body
dispatch x (update_rule_set body) = put_rule_set body
dispatch x (delete_rule_set tag) = remove_rule_set tag
dispatch x (get_rule_set tag) = fetch_rule_set_by_tag x.raw_message tag
dispatch x list_rule_sets = fetch_rule_sets x.rule_sets
