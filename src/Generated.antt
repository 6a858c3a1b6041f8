-- ===== src/Generated.antt =====
-- service/generated.go: the sing-box configuration of a device, from its request on; with the rest
-- of service/outbound_cache.go, the outbounds of a device.
pub mod Server
pub mod Framed
pub mod Configured
pub mod Refused
pub mod Admitted
pub mod Reading
pub mod Total
pub mod Tests
use singboxconfig.Prelude.{
  Str, Bool, true, false, not, List, [], ◌∷◌, Option, none, some, codes, equal, if◌then◌else◌,
}
use singboxconfig.Prelude.Exec.{Result, ok, err, Exec, pure, raise, lift, attempt, ◌>>=◌, ◌>>◌}
use singboxconfig.Prelude.Map.{lookup, insert}
use singboxconfig.Prelude.Sort.{Sorting}
use singboxconfig.Strings.{is_empty}
use singboxconfig.Entity.{
  Device, Inbound, DeviceInbound, WireGuard, WireGuardPeer, Outbound, RuleSet, Subscribe,
}
use singboxconfig.Entity.SingBox.{
  SingBoxConfig, SingDns, SingInbound, SingBoxOut, SingEndpointWireguard,
}
use singboxconfig.Settings.{Url, resolve_system_host}
use singboxconfig.Auth.World.{get_global_setting}
use singboxconfig.Singbox.Outbounds.{get_outbounds}
use singboxconfig.Singbox.Templates.{get_inbounds, get_extra_outbounds}
use singboxconfig.Singbox.Endpoint.{get_wire_guard_endpoints}
use singboxconfig.Singbox.Defaults.{resolve_dns, get_experimental}
use singboxconfig.Singbox.Route.{Contents, get_route}
use singboxconfig.Singbox.DefaultTables.{
  get_default_devices, get_default_inbounds, get_default_device_inbounds, get_default_wire_guard,
  get_default_wire_guard_peers,
}
use singboxconfig.Cache.Offered.{
  Visits, resolve_items, resolve_manual_items, resolve_visible_subscribes,
}
use singboxconfig.Inventory.Methods.{
  list_devices, get_device, list_device_inbounds, list_inbounds, get_wire_guard,
  list_wire_guard_peers, list_node_groups, list_rule_sets,
}
use singboxconfig.Inventory.Handlers.{binding_before}
use singboxconfig.Generated.Server.{
  ServerState, GenerateError, row_missing, failed, Action, on_world, on_cache, on_db,
}

-- The external code: package json, `sort.Slice` on each type of row, `url.Parse`, what the route
-- uses, and the clock and the network at each subscription.
pub record External : Type 0 where
  pub unmarshal_dns : Str → Option SingDns
  pub unmarshal_inbound : Str → Option SingInbound
  pub unmarshal_outbound : Str → Option SingBoxOut
  pub must_json : SingInbound → Str
  pub inbounds : Sorting Inbound
  pub outbounds : Sorting Outbound
  pub bindings : Sorting DeviceInbound
  pub peers : Sorting WireGuardPeer
  pub rule_sets : Sorting RuleSet
  pub parse_url : Str → Option Url
  pub contents : Contents
  pub visits : Visits

pub data Status : Type 0 where
  bad_request not_found forbidden unauthorized internal_server_error : Status

abbrev pub Answer : Type 0 → Type 0
Answer A = Exec ServerState Status A

abbrev pub dns_config_setting_key : Str
dns_config_setting_key = codes "dns_config"

-- the loop over the default devices
unfoldable pub default_of : Str → List Device → Result GenerateError Device
default_of device_code [] = err row_missing
default_of device_code (device ∷ devices) =
    let rest = default_of device_code devices in
    if equal device.code device_code then ok device else rest

unfoldable pub stored_or_default : Str → List Device → Action Device
stored_or_default device_code [] = lift (default_of device_code get_default_devices)
stored_or_default device_code (device ∷ devices) = on_db (get_device device_code)

unfoldable pub resolve_generate_device : Str → Action Device
resolve_generate_device device_code = do
  devices ← on_db list_devices
  stored_or_default device_code devices

unfoldable pub or_blank : Result GenerateError Str → Action Str
or_blank (ok value) = pure value
or_blank (err row_missing) = pure []
or_blank (err failed) = raise failed

unfoldable pub resolve_dns_config_json : Action Str
resolve_dns_config_json = do
  value ← attempt (on_world (get_global_setting dns_config_setting_key))
  or_blank value

abbrev or_default_bindings : Str → List DeviceInbound → List DeviceInbound
or_default_bindings device_code [] = get_default_device_inbounds device_code
or_default_bindings device_code (binding ∷ bindings) = binding ∷ bindings

-- `inboundMap`
unfoldable pub inbound_map : List (Str × Inbound) → List Inbound → List (Str × Inbound)
inbound_map found [] = found
inbound_map found (inbound ∷ inbounds) =
    inbound_map (if is_empty inbound.tag then found else insert inbound.tag inbound found) inbounds

append_found : Option Inbound → List Inbound → List Inbound
append_found none rest = rest
append_found (some inbound) rest = inbound ∷ rest

-- the loop over the sorted bindings
unfoldable pub bound_inbounds : List (Str × Inbound) → List DeviceInbound → List Inbound
unfolding append_found
bound_inbounds found [] = []
bound_inbounds found (binding ∷ bindings) =
    append_found (lookup binding.inbound_tag found) (bound_inbounds found bindings)

-- A missing template is replaced by the default one.
unfoldable pub or_default_wire_guard :
    Str → Result GenerateError WireGuard → Action (Option WireGuard)
or_default_wire_guard tag (ok wg) = pure (some wg)
or_default_wire_guard tag (err row_missing) = pure (get_default_wire_guard tag)
or_default_wire_guard tag (err failed) = raise failed

abbrev or_default_peers : Str → List WireGuardPeer → List WireGuardPeer
or_default_peers tag [] = get_default_wire_guard_peers tag
or_default_peers tag (peer ∷ peers) = peer ∷ peers

-- an error that the handler answers with 500, and one of the device
unfoldable pub failed_as : {A : Type 0} → Result GenerateError A → Result Status A
failed_as (ok a) = ok a
failed_as (err e) = err internal_server_error

unfoldable pub missing_as : {A : Type 0} → Result GenerateError A → Result Status A
missing_as (ok a) = ok a
missing_as (err row_missing) = err not_found
missing_as (err failed) = err internal_server_error

unfoldable pub or_failed : {A : Type 0} → Action A → Answer A
or_failed m s = let (r, t) = m s in (failed_as r, t)

unfoldable pub or_missing : {A : Type 0} → Action A → Answer A
or_missing m s = let (r, t) = m s in (missing_as r, t)

-- the tests of the device
unfoldable pub admitted : Str → Device → Answer Device
admitted token device =
    if not device.enabled
    then raise forbidden
    else if not (equal token device.token)
    then raise unauthorized
    else pure device

-- the beginning of all handlers for a device
unfoldable pub authorized : Str → Str → Answer Device
authorized device_code token = do
  device ← or_missing (resolve_generate_device device_code)
  admitted token device

module _ (x : External) where
  abbrev or_default_inbounds : List Inbound → List Inbound
  or_default_inbounds [] = get_default_inbounds x.must_json
  or_default_inbounds (inbound ∷ inbounds) = inbound ∷ inbounds

  unfoldable pub resolve_generate_inbounds : Str → Action (List Inbound)
  resolve_generate_inbounds device_code = do
    bindings ← on_db (list_device_inbounds x.bindings device_code)
    inbounds ← on_db list_inbounds
    pure (
        bound_inbounds (inbound_map [] (or_default_inbounds inbounds))
          (x.bindings.sort_slice binding_before (or_default_bindings device_code bindings)))

  unfoldable pub resolve_generate_endpoints : Device → Action (List SingEndpointWireguard)
  resolve_generate_endpoints device = if is_empty device.wire_guard_tag then pure [] else (do
    found ← attempt (on_db (get_wire_guard device.wire_guard_tag))
    wg ← or_default_wire_guard device.wire_guard_tag found
    peers ← on_db (list_wire_guard_peers x.peers device.wire_guard_tag)
    pure (
        get_wire_guard_endpoints x.peers wg (or_default_peers device.wire_guard_tag peers)
          (some device)))

  unfoldable pub resolve_generate_outbounds : Str → Action (List SingBoxOut)
  resolve_generate_outbounds device_code = do
    items ← on_cache (resolve_items x.visits device_code)
    group_rules ← on_db list_node_groups
    pure (
        get_outbounds (get_extra_outbounds x.unmarshal_outbound x.outbounds device_code items)
          group_rules device_code)

  unfoldable pub resolve_manual_generate_outbounds : Str → Action (List SingBoxOut)
  resolve_manual_generate_outbounds device_code = do
    items ← on_cache (resolve_manual_items device_code)
    pure (get_extra_outbounds x.unmarshal_outbound x.outbounds device_code items)

  -- the parts of the configuration of a device, in the order of the handler
  unfoldable pub generate_for : Device → Answer SingBoxConfig
  generate_for device = do
    dns_config_json ← or_failed resolve_dns_config_json
    inbounds ← or_failed (resolve_generate_inbounds device.code)
    endpoints ← or_failed (resolve_generate_endpoints device)
    rule_sets ← or_failed (on_db list_rule_sets)
    outbounds ← or_failed (resolve_generate_outbounds device.code)
    system_host ← or_failed (on_world (resolve_system_host x.parse_url))
    pure (record {
      dns = resolve_dns x.unmarshal_dns dns_config_json;
      endpoints = endpoints;
      route =
          get_route x.contents x.rule_sets device.code device.token system_host rule_sets outbounds;
      experimental = get_experimental device.code;
      inbounds = get_inbounds x.unmarshal_inbound x.inbounds inbounds;
      outbounds = outbounds;
    })

  unfoldable pub generated : Str → Str → Answer SingBoxConfig
  generated device_code token = do device ← authorized device_code token; generate_for device
