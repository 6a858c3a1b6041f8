-- ===== src/Entity.antt =====
-- entity/*.go: the records that the storage keeps, with the source's fields. A text field is a
-- list of code points, an `int` an integer, and a nil pointer is `none`.
pub mod SingBox
use singboxconfig.Prelude.{ℕ, Str, Bool, Option, codes}
use singboxconfig.Prelude.Int.{ℤ}

-- `time.Time` in nanoseconds since the zero time (January 1 of year 1), so that `t.IsZero()` is
-- `t == 0`.
abbrev pub Time : Type 0
Time = ℕ

pub record Device : Type 0 where
  pub code : Str
  pub name : Str
  pub description : Str
  pub token : Str
  pub enabled : Bool
  pub sort : ℤ
  pub wire_guard_tag : Str
  pub wire_guard_client_addr : Str
  pub wire_guard_client_key : Str

pub record Inbound : Type 0 where
  pub tag : Str
  pub name : Str
  pub description : Str
  pub type : Str
  pub enabled : Bool
  pub sort : ℤ
  pub config_json : Str

pub record DeviceInbound : Type 0 where
  pub device_code : Str
  pub inbound_tag : Str
  pub sort : ℤ

pub record WireGuard : Type 0 where
  pub tag : Str
  pub name : Str
  pub description : Str
  pub enabled : Bool
  pub sort : ℤ
  pub endpoint_tag : Str
  pub mtu : ℤ

pub record WireGuardPeer : Type 0 where
  pub id : ℤ
  pub wire_guard_tag : Str
  pub sort : ℤ
  pub address : Str
  pub port : ℤ
  pub public_key : Str
  pub pre_shared_key : Str
  pub allowed_ips : Str
  pub persistent_keepalive_interval : ℤ
  pub enabled : Bool

-- `OutboundSource` is a string type; these are its two constants.
abbrev pub OutboundSource : Type 0
OutboundSource = Str

abbrev pub outbound_source_manual : OutboundSource
outbound_source_manual = codes "MANUAL"

abbrev pub outbound_source_subscription : OutboundSource
outbound_source_subscription = codes "SUBSCRIPTION"

pub record Outbound : Type 0 where
  pub id : ℤ
  pub tag : Str
  pub name : Str
  pub description : Str
  pub type : Str
  pub enabled : Bool
  pub sort : ℤ
  pub visible_devices : Str
  pub config_json : Str
  pub source : OutboundSource
  pub subscribe_name : Str
  pub last_fetch_time : Option Time
  pub created_at : Time
  pub updated_at : Time

pub record NodeGroup : Type 0 where
  pub name : Str
  pub tag : Str
  pub group_type : Str
  pub test_url : Str
  pub include : Str
  pub exclude : Str
  pub device_type_overrides : Str

-- `NodeGroupType` is a string type with these constants.
abbrev pub NodeGroupType : Type 0
NodeGroupType = Str

abbrev pub node_group_type_selector : NodeGroupType
node_group_type_selector = codes "selector"

abbrev pub node_group_type_select : NodeGroupType
node_group_type_select = codes "select"

abbrev pub node_group_type_url_test : NodeGroupType
node_group_type_url_test = codes "urltest"

pub record Subscribe : Type 0 where
  pub name : Str
  pub url : Str
  pub user_agent : Str
  pub status : Bool
  pub visible_devices : Str
  pub outbound_last_fetch_time : Option Time
  pub outbound_cache_duration : ℤ
  pub outbound_last_fetch_status : Str
  pub outbound_last_fetch_error : Str

pub record RuleSet : Type 0 where
  pub name : Str
  pub tag : Str
  pub rule_set_type : Str
  pub format : Str
  pub content : Str
  pub url : Str
  pub outbound : Str
  pub download_detour : Str
  pub able_devices : Str
  pub sort : ℤ

abbrev pub rule_set_type_remote : Str
rule_set_type_remote = codes "remote"
