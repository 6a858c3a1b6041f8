-- ===== src/Inventory/Linked/Handlers.antt =====
-- The handlers of one storage call that writes keep the references between the tables.
use singboxconfig.Prelude.{Str, Option}
use singboxconfig.Prelude.Int.{ℤ}
use singboxconfig.Prelude.Ensures.{Keeps}
use singboxconfig.Prelude.Sort.{Sorting}
use singboxconfig.Entity.{
  Device, Inbound, DeviceInbound, WireGuard, WireGuardPeer, NodeGroup, RuleSet,
}
use singboxconfig.Inventory.Linked.{Linked}
use singboxconfig.Inventory.Handlers.{
  post_device, fetch_device, fetch_devices, put_device, remove_device, post_inbound, fetch_inbound,
  fetch_inbounds, put_inbound, remove_inbound, fetch_device_inbounds, post_wire_guard,
  fetch_wire_guard, fetch_wire_guards, put_wire_guard, remove_wire_guard, fetch_peers, remove_peer,
  post_node_group, put_node_group, remove_node_group, fetch_node_groups, post_rule_set,
  put_rule_set, remove_rule_set, fetch_rule_set_by_tag, fetch_rule_sets,
}
use singboxconfig.Inventory.Linked.Steps.{linked_rules}

pub post_device-Keeps : (body : Option Device) → Keeps Linked (post_device body)
unfolding post_device
post_device-Keeps body = search (linked_rules)

pub fetch_device-Keeps : (code : Str) → Keeps Linked (fetch_device code)
unfolding fetch_device
fetch_device-Keeps code = search (linked_rules)

pub fetch_devices-Keeps : (sorting : Sorting Device) → Keeps Linked (fetch_devices sorting)
unfolding fetch_devices
fetch_devices-Keeps sorting = search (linked_rules)

pub put_device-Keeps : (path : Str) (body : Option Device) → Keeps Linked (put_device path body)
unfolding put_device
put_device-Keeps path body = search (linked_rules)

pub remove_device-Keeps : (code : Str) → Keeps Linked (remove_device code)
unfolding remove_device
remove_device-Keeps code = search (linked_rules)

pub post_inbound-Keeps : (body : Option Inbound) → Keeps Linked (post_inbound body)
unfolding post_inbound
post_inbound-Keeps body = search (linked_rules)

pub fetch_inbound-Keeps : (tag : Str) → Keeps Linked (fetch_inbound tag)
unfolding fetch_inbound
fetch_inbound-Keeps tag = search (linked_rules)

pub fetch_inbounds-Keeps : (sorting : Sorting Inbound) → Keeps Linked (fetch_inbounds sorting)
unfolding fetch_inbounds
fetch_inbounds-Keeps sorting = search (linked_rules)

pub put_inbound-Keeps : (path : Str) (body : Option Inbound) → Keeps Linked (put_inbound path body)
unfolding put_inbound
put_inbound-Keeps path body = search (linked_rules)

pub remove_inbound-Keeps : (tag : Str) → Keeps Linked (remove_inbound tag)
unfolding remove_inbound
remove_inbound-Keeps tag = search (linked_rules)

pub fetch_device_inbounds-Keeps :
    (sorting : Sorting DeviceInbound) (code : Str)
    → Keeps Linked (fetch_device_inbounds sorting code)
unfolding fetch_device_inbounds
fetch_device_inbounds-Keeps sorting code = search (linked_rules)

pub post_wire_guard-Keeps : (body : Option WireGuard) → Keeps Linked (post_wire_guard body)
unfolding post_wire_guard
post_wire_guard-Keeps body = search (linked_rules)

pub fetch_wire_guard-Keeps : (tag : Str) → Keeps Linked (fetch_wire_guard tag)
unfolding fetch_wire_guard
fetch_wire_guard-Keeps tag = search (linked_rules)

pub fetch_wire_guards-Keeps :
    (sorting : Sorting WireGuard) → Keeps Linked (fetch_wire_guards sorting)
unfolding fetch_wire_guards
fetch_wire_guards-Keeps sorting = search (linked_rules)

pub put_wire_guard-Keeps :
    (path : Str) (body : Option WireGuard) → Keeps Linked (put_wire_guard path body)
unfolding put_wire_guard
put_wire_guard-Keeps path body = search (linked_rules)

pub remove_wire_guard-Keeps : (tag : Str) → Keeps Linked (remove_wire_guard tag)
unfolding remove_wire_guard
remove_wire_guard-Keeps tag = search (linked_rules)

pub fetch_peers-Keeps :
    (sorting : Sorting WireGuardPeer) (tag : Str) → Keeps Linked (fetch_peers sorting tag)
unfolding fetch_peers
fetch_peers-Keeps sorting tag = search (linked_rules)

pub remove_peer-Keeps : (tag : Str) (id : Option ℤ) → Keeps Linked (remove_peer tag id)
unfolding remove_peer
remove_peer-Keeps tag id = search (linked_rules)

pub post_node_group-Keeps : (body : Option NodeGroup) → Keeps Linked (post_node_group body)
unfolding post_node_group
post_node_group-Keeps body = search (linked_rules)

pub put_node_group-Keeps : (body : Option NodeGroup) → Keeps Linked (put_node_group body)
unfolding put_node_group
put_node_group-Keeps body = search (linked_rules)

pub remove_node_group-Keeps : (tag : Str) → Keeps Linked (remove_node_group tag)
unfolding remove_node_group
remove_node_group-Keeps tag = search (linked_rules)

pub fetch_node_groups-Keeps : Keeps Linked fetch_node_groups
unfolding fetch_node_groups
fetch_node_groups-Keeps = search (linked_rules)

pub post_rule_set-Keeps : (body : Option RuleSet) → Keeps Linked (post_rule_set body)
unfolding post_rule_set
post_rule_set-Keeps body = search (linked_rules)

pub put_rule_set-Keeps : (body : Option RuleSet) → Keeps Linked (put_rule_set body)
unfolding put_rule_set
put_rule_set-Keeps body = search (linked_rules)

pub remove_rule_set-Keeps : (tag : Str) → Keeps Linked (remove_rule_set tag)
unfolding remove_rule_set
remove_rule_set-Keeps tag = search (linked_rules)

pub fetch_rule_set_by_tag-Keeps :
    (raw : Str → Option Str) (tag : Str) → Keeps Linked (fetch_rule_set_by_tag raw tag)
unfolding fetch_rule_set_by_tag
fetch_rule_set_by_tag-Keeps raw tag = search (linked_rules)

pub fetch_rule_sets-Keeps : (sorting : Sorting RuleSet) → Keeps Linked (fetch_rule_sets sorting)
unfolding fetch_rule_sets
fetch_rule_sets-Keeps sorting = search (linked_rules)
