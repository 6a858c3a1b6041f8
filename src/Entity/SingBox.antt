-- ===== src/Entity/SingBox.antt =====
-- entity/singbox.go: the configuration that a sing-box client receives, with the source's fields.
-- The two fields of an interface type, `Host` of a transport and `Rules` of a rule set, hold nil
-- or the texts that the program stores there. `zero_out` and `zero_rule` are Go's zero values.
use singboxconfig.Prelude.{ℕ, Str, Bool, false, List, [], Option, none}
use singboxconfig.Prelude.Int.{ℤ, pos}

pub record SingUtls : Type 0 where
  pub enabled : Bool
  pub fingerprint : Str

pub record SingReality : Type 0 where
  pub enabled : Bool
  pub public_key : Str
  pub short_id : Str

pub record SingTls : Type 0 where
  pub enabled : Bool
  pub server_name : Str
  pub alpn : List Str
  pub insecure : Bool
  pub utls : Option SingUtls
  pub reality : Option SingReality
  pub certificate : Str

pub record SingTransport : Type 0 where
  pub headers : List (Str × List Str)
  pub path : Str
  pub type : Str
  pub early_data_header_name : Str
  pub max_early_data : ℤ
  pub host : Option (List Str)
  pub method : Str
  pub service_name : Str

pub record SingMultiplex : Type 0 where
  pub enabled : Bool
  pub max_connections : ℤ
  pub min_streams : ℤ
  pub max_streams : ℤ
  pub padding : Bool
  pub protocol : Str

pub record SingWireguardMultiPeer : Type 0 where
  pub server : Str
  pub server_port : ℤ
  pub public_key : Str
  pub pre_shared_key : Str
  pub allowed_ips : List Str
  pub reserved : List ℤ

pub record SingObfs : Type 0 where
  pub value : Str
  pub type : Str

pub record SingUdpOverTcp : Type 0 where
  pub enabled : Bool

pub record SingBoxOut : Type 0 where
  pub username : Str
  pub password : Str
  pub server : Str
  pub server_port : ℤ
  pub tag : Str
  pub tls : Option SingTls
  pub transport : Option SingTransport
  pub type : Str
  pub method : Str
  pub alter_id : ℤ
  pub security : Str
  pub uuid : Str
  pub default : Str
  pub outbounds : List Str
  pub interval : Str
  pub tolerance : ℤ
  pub url : Str
  pub network : Str
  pub plugin : Str
  pub plugin_opts : Str
  pub obfs_param : Str
  pub protocol : Str
  pub protocol_param : Str
  pub flow : Str
  pub packet_encoding : Str
  pub auth_str : Str
  pub disable_mtu_discovery : Bool
  pub down : Str
  pub down_mbps : ℤ
  pub recv_window : ℤ
  pub recv_window_conn : ℤ
  pub up : Str
  pub up_mbps : ℤ
  pub detour : Str
  pub multiplex : Option SingMultiplex
  pub version : ℤ
  pub udp_over_tcp : Option SingUdpOverTcp
  pub system_interface : Bool
  pub interface_name : Str
  pub local_address : List Str
  pub private_key : Str
  pub peers : List (Option SingWireguardMultiPeer)
  pub peer_public_key : Str
  pub pre_shared_key : Str
  pub reserved : List ℤ
  pub mtu : ℕ
  pub congestion_controller : Str
  pub udp_relay_mode : Str
  pub zero_rtt_handshake : Bool
  pub heartbeat : Str
  pub obfs : Option SingObfs
  pub ignored : Bool
  pub tcp_fast_open : Bool
  pub tcp_multi_path : Bool
  pub visible : List Str

abbrev pub zero_out : SingBoxOut
zero_out = record {
  username = [];
  password = [];
  server = [];
  server_port = pos 0;
  tag = [];
  tls = none;
  transport = none;
  type = [];
  method = [];
  alter_id = pos 0;
  security = [];
  uuid = [];
  default = [];
  outbounds = [];
  interval = [];
  tolerance = pos 0;
  url = [];
  network = [];
  plugin = [];
  plugin_opts = [];
  obfs_param = [];
  protocol = [];
  protocol_param = [];
  flow = [];
  packet_encoding = [];
  auth_str = [];
  disable_mtu_discovery = false;
  down = [];
  down_mbps = pos 0;
  recv_window = pos 0;
  recv_window_conn = pos 0;
  up = [];
  up_mbps = pos 0;
  detour = [];
  multiplex = none;
  version = pos 0;
  udp_over_tcp = none;
  system_interface = false;
  interface_name = [];
  local_address = [];
  private_key = [];
  peers = [];
  peer_public_key = [];
  pre_shared_key = [];
  reserved = [];
  mtu = 0;
  congestion_controller = [];
  udp_relay_mode = [];
  zero_rtt_handshake = false;
  heartbeat = [];
  obfs = none;
  ignored = false;
  tcp_fast_open = false;
  tcp_multi_path = false;
  visible = [];
}

pub record SingDnsServer : Type 0 where
  pub tag : Str
  pub address : Str
  pub address_resolver : Str
  pub strategy : Str
  pub detour : Str

pub record SingDnsRule : Type 0 where
  pub outbound : Str
  pub server : Str
  pub clash_mode : Str
  pub rule_set : Str
  pub protocol : Str
  pub action : Str

pub record SingDns : Type 0 where
  pub servers : List SingDnsServer
  pub rules : List SingDnsRule
  pub final : Str

pub record SingEndpointWireguardPeer : Type 0 where
  pub address : Str
  pub port : ℤ
  pub public_key : Str
  pub pre_shared_key : Str
  pub allowed_ips : List Str
  pub persistent_keepalive_interval : ℤ

pub record SingEndpointWireguard : Type 0 where
  pub type : Str
  pub tag : Str
  pub mtu : ℤ
  pub address : List Str
  pub private_key : Str
  pub peers : List SingEndpointWireguardPeer

pub record SingRouteRule : Type 0 where
  pub protocol : Str
  pub action : Str
  pub clash_mode : Str
  pub outbound : Str
  pub port : List ℤ
  pub ip_is_private : Bool
  pub ip_cidr : List Str
  pub wifi_ssid : List Str
  pub domain_suffix : List Str
  pub rule_set : List Str

abbrev pub zero_rule : SingRouteRule
zero_rule = record {
  protocol = [];
  action = [];
  clash_mode = [];
  outbound = [];
  port = [];
  ip_is_private = false;
  ip_cidr = [];
  wifi_ssid = [];
  domain_suffix = [];
  rule_set = [];
}

pub record SingRuleSet : Type 0 where
  pub type : Str
  pub tag : Str
  pub rules : Option (List Str)
  pub format : Str
  pub url : Str
  pub download_detour : Str

pub record SingRoute : Type 0 where
  pub rules : List SingRouteRule
  pub rule_set : List SingRuleSet
  pub final : Str
  pub find_process : Bool
  pub auto_detect_interface : Bool

pub record SingCacheFile : Type 0 where
  pub enabled : Bool

pub record SingClashApi : Type 0 where
  pub external_controller : Str
  pub external_ui : Str
  pub external_ui_download_url : Str
  pub external_ui_download_detour : Str
  pub default_mode : Str

pub record SingExperimental : Type 0 where
  pub cache_file : SingCacheFile
  pub clash_api : SingClashApi

pub record SingInbound : Type 0 where
  pub type : Str
  pub tag : Str
  pub listen : Str
  pub listen_port : ℤ
  pub address : List Str
  pub inet4_address : Str
  pub auto_route : Bool
  pub stack : Str
  pub sniff : Bool

pub record SingBoxConfig : Type 0 where
  pub dns : SingDns
  pub endpoints : List SingEndpointWireguard
  pub route : SingRoute
  pub experimental : Option SingExperimental
  pub inbounds : List SingInbound
  pub outbounds : List SingBoxOut
