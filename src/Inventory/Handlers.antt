-- ===== src/Inventory/Handlers.antt =====
-- service/device_management.go, and the handlers of service/service.go for node groups and rule
-- sets.
pub mod Answers
pub mod Devices
pub mod WireGuards
pub mod Groups
pub use singboxconfig.Inventory.Handlers.Answers.{Body, Status, Handler, answered}
unfoldable pub use singboxconfig.Inventory.Handlers.Answers.{
  status_of, missing_as, failed_as, new_as, existing_as, or_missing, or_failed, must_be_new,
  must_exist, bind, refuse_if, differs,
}
pub use singboxconfig.Inventory.Handlers.Devices.{device_less, inbound_before, binding_before}
unfoldable pub use singboxconfig.Inventory.Handlers.Devices.{
  post_device, fetch_device, fetch_devices, put_device, remove_device, post_inbound, fetch_inbound,
  fetch_inbounds, put_inbound, remove_inbound, check_bindings, put_device_inbounds,
  fetch_device_inbounds,
}
pub use singboxconfig.Inventory.Handlers.WireGuards.{wire_guard_before, peer_sorted_before}
unfoldable pub use singboxconfig.Inventory.Handlers.WireGuards.{
  post_wire_guard, fetch_wire_guard, fetch_wire_guards, put_wire_guard, remove_wire_guard,
  post_peer, fetch_peers, with_path_id, put_peer, remove_peer,
}
pub use singboxconfig.Inventory.Handlers.Groups.{rule_set_before}
unfoldable pub use singboxconfig.Inventory.Handlers.Groups.{
  post_node_group, put_node_group, remove_node_group, fetch_node_groups, post_rule_set,
  without_blanks, put_rule_set, remove_rule_set, answer_raw, content_of, fetch_rule_set_by_tag,
  fetch_rule_sets,
}
