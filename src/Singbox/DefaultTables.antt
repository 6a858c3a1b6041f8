-- ===== src/Singbox/DefaultTables.antt =====
-- convert/singbox/device_management_defaults.go: the rows that stand in for an empty storage.
use singboxconfig.Prelude.{
  Str, true, false, List, [], ◌∷◌, Option, none, codes, equal, if◌then◌else◌,
}
use singboxconfig.Prelude.Int.{ℤ, pos}
use singboxconfig.Entity.{Device, Inbound, DeviceInbound, Outbound, WireGuard, WireGuardPeer}
use singboxconfig.Entity.SingBox.{SingInbound}

abbrev pub default_generate_token : Str
default_generate_token = codes "996007"

-- a device of the list
abbrev default_device : Str → ℤ → Device
default_device code sort = record {
  code = code;
  name = code;
  description = [];
  token = default_generate_token;
  enabled = true;
  sort = sort;
  wire_guard_tag = [];
  wire_guard_client_addr = [];
  wire_guard_client_key = [];
}

unfoldable pub get_default_devices : List Device
get_default_devices =
    default_device (codes "default") (pos 0) ∷ default_device (codes "phone") (pos 10) ∷ []

abbrev zero_inbound : SingInbound
zero_inbound = record {
  type = [];
  tag = [];
  listen = [];
  listen_port = pos 0;
  address = [];
  inet4_address = [];
  auto_route = false;
  stack = [];
  sniff = false;
}

abbrev default_listener : Str → Str → ℤ → SingInbound
default_listener type tag port = record zero_inbound {
  type = type;
  tag = tag;
  listen = codes "::";
  listen_port = port;
}

-- `mustJSON` is external: it marshals a struct whose encoding does not fail.
module _ (must_json : SingInbound → Str) where
  abbrev default_inbound : Str → Str → Str → ℤ → SingInbound → Inbound
  default_inbound tag name type sort config = record {
    tag = tag;
    name = name;
    description = [];
    type = type;
    enabled = true;
    sort = sort;
    config_json = must_json config;
  }

  unfoldable pub get_default_inbounds : List Inbound
  get_default_inbounds =
      default_inbound (codes "tun-default") (codes "TUN Default") (codes "tun") (pos 0)
        (record zero_inbound {
          type = codes "tun";
          address = codes "198.18.0.1/16" ∷ [];
          auto_route = true;
          stack = codes "mixed";
          sniff = true;
        })
      ∷ default_inbound (codes "http-default") (codes "HTTP Default") (codes "http") (pos 10)
          (default_listener (codes "http") (codes "http-in") (pos 1082))
      ∷ default_inbound (codes "socks-default") (codes "SOCKS Default") (codes "socks") (pos 20)
          (default_listener (codes "socks") (codes "socks-in") (pos 1084))
      ∷ default_inbound (codes "mixed-default") (codes "Mixed Default") (codes "mixed") (pos 30)
          (default_listener (codes "mixed") (codes "mixed-in") (pos 5353))
      ∷ []

abbrev default_binding : Str → Str → ℤ → DeviceInbound
default_binding device_code inbound_tag sort = record {
  device_code = device_code;
  inbound_tag = inbound_tag;
  sort = sort;
}

unfoldable pub get_default_device_inbounds : Str → List DeviceInbound
get_default_device_inbounds device_code =
    if equal device_code (codes "phone")
    then default_binding device_code (codes "tun-default") (pos 0) ∷ []
    else default_binding device_code (codes "tun-default") (pos 0)
      ∷ default_binding device_code (codes "http-default") (pos 10)
      ∷ default_binding device_code (codes "socks-default") (pos 20)
      ∷ default_binding device_code (codes "mixed-default") (pos 30)
      ∷ []

unfoldable pub get_default_extra_outbounds : List Outbound
get_default_extra_outbounds = []

unfoldable pub get_default_wire_guard : Str → Option WireGuard
get_default_wire_guard tag = none

unfoldable pub get_default_wire_guard_peers : Str → List WireGuardPeer
get_default_wire_guard_peers tag = []
