-- ===== src/Singbox/RouteTests.antt =====
-- A device with a template of each kind, and its route.
use singboxconfig.Prelude.{
  ℕ, Str, Bool, true, false, not, ◌&&◌, ◌||◌, List, [], ◌∷◌, Option, none, some, ◌≡◌, refl, codes,
  equal, any, ◌⊎◌, if◌then◌else◌, length,
}
use singboxconfig.Prelude.Int.{pos}
use singboxconfig.Prelude.Keys.{has}
use singboxconfig.Prelude.Sort.{insertion_sort, insertion}
use singboxconfig.Entity.{
  Device, WireGuard, WireGuardPeer, Inbound, Outbound, RuleSet, outbound_source_manual,
}
use singboxconfig.Entity.SingBox.{
  SingBoxOut, SingInbound, SingRoute, SingEndpointWireguard, zero_out,
}
use singboxconfig.Visibility.{
  is_device_visible_lem, is_device_visible, is_extra_outbound_visible_for_device,
}
use singboxconfig.Singbox.Outbounds.{get_tags_from_outbounds}
use singboxconfig.Singbox.Templates.{
  get_inbounds, get_extra_outbounds, any-get_inbounds, any-get_extra_outbounds, decodes_to,
}
use singboxconfig.Singbox.Endpoint.{
  get_wire_guard_endpoints, is_bound, IsEndpoint, get_wire_guard_endpoints_lem,
  normalize_wire_guard_client_addr, split_allowed_ips,
}
use singboxconfig.Singbox.Route.{Contents, get_route, build_rule_set_url}
use singboxconfig.Singbox.Route.Effective.{
  any-get_route_rules, any-get_route_rule_set, get_route-used, get_route-outbounds,
}

-- a decoder that knows one text
abbrev unmarshal_outbound : Str → Option SingBoxOut
unmarshal_outbound text =
    if equal text (codes "{}") then some (record zero_out { tag = codes "a" }) else none

abbrev outbound : Str → Str → Outbound
outbound tag visible_devices = record {
  id = pos 1;
  tag = tag;
  name = tag;
  description = [];
  type = codes "ss";
  enabled = true;
  sort = pos 0;
  visible_devices = visible_devices;
  config_json = codes "{}";
  source = outbound_source_manual;
  subscribe_name = [];
  last_fetch_time = none;
  created_at = 0;
  updated_at = 0;
}

abbrev is_a : SingBoxOut → Bool
is_a out = equal out.tag (codes "a")

-- `any-get_extra_outbounds` on an item for another device and one for this.
any-get_extra_outbounds_example :
    any is_a (
      get_extra_outbounds unmarshal_outbound insertion_sort
        (codes "tv")
        (outbound (codes "b") (codes "pc") ∷ outbound (codes "a") (codes "pc, tv") ∷ []))
    ≡ true
unfolding any is_extra_outbound_visible_for_device singboxconfig.Strings.trim_space
    singboxconfig.Strings.split equal decodes_to
any-get_extra_outbounds_example =
    any-get_extra_outbounds unmarshal_outbound insertion_sort is_a (codes "tv")
      (outbound (codes "b") (codes "pc") ∷ outbound (codes "a") (codes "pc, tv") ∷ [])

abbrev inbound : Inbound
inbound = record {
  tag = codes "tun";
  name = [];
  description = [];
  type = codes "tun";
  enabled = true;
  sort = pos 0;
  config_json = codes "{}";
}

abbrev sing_inbound : SingInbound
sing_inbound = record {
  type = codes "tun";
  tag = codes "tun-in";
  listen = [];
  listen_port = pos 0;
  address = [];
  inet4_address = [];
  auto_route = true;
  stack = [];
  sniff = true;
}

-- `any-get_inbounds` on one template that is on and one that is off.
any-get_inbounds_example :
    any
      (λ i. i.sniff)
      (get_inbounds
        (λ text. some sing_inbound)
        insertion_sort
        (record inbound { enabled = false } ∷ inbound ∷ []))
    ≡ true
unfolding any decodes_to
any-get_inbounds_example =
    any-get_inbounds (λ text. some sing_inbound) insertion_sort (λ i. i.sniff)
      (record inbound { enabled = false } ∷ inbound ∷ [])

abbrev wire_guard : WireGuard
wire_guard = record {
  tag = codes "home";
  name = [];
  description = [];
  enabled = true;
  sort = pos 0;
  endpoint_tag = codes "wg-home";
  mtu = pos 1408;
}

abbrev peer : WireGuardPeer
peer = record {
  id = pos 1;
  wire_guard_tag = codes "home";
  sort = pos 0;
  address = codes "10.0.0.1";
  port = pos 51820;
  public_key = codes "k";
  pre_shared_key = [];
  allowed_ips = codes "10.0.0.0/24, ";
  persistent_keepalive_interval = pos 25;
  enabled = true;
}

abbrev device : Device
device = record {
  code = codes "tv";
  name = [];
  description = [];
  token = codes "t";
  enabled = true;
  sort = pos 0;
  wire_guard_tag = codes "home";
  wire_guard_client_addr = codes "10.0.0.9";
  wire_guard_client_key = codes "key";
}

get_wire_guard_endpoints_lem_example :
    ((is_bound insertion_sort wire_guard device ≡ true)
      × (e : SingEndpointWireguard) × (get_wire_guard_endpoints insertion_sort
            (some wire_guard)
            (peer ∷ [])
            (some device)
          ≡ e ∷ [])
      × IsEndpoint insertion_sort wire_guard (peer ∷ []) device e)
    ⊎ ((is_bound insertion_sort wire_guard device ≡ false)
        × (get_wire_guard_endpoints insertion_sort (some wire_guard) (peer ∷ []) (some device)
            ≡ []))
get_wire_guard_endpoints_lem_example =
    get_wire_guard_endpoints_lem insertion_sort wire_guard (peer ∷ []) device

endpoint_tests :
    (normalize_wire_guard_client_addr (codes " 10.0.0.9 ") ≡ codes "10.0.0.9/32")
    × (split_allowed_ips (codes "10.0.0.0/24, ,::/0") ≡ codes "10.0.0.0/24" ∷ codes "::/0" ∷ [])
unfolding normalize_wire_guard_client_addr singboxconfig.Strings.trim_space
    singboxconfig.Strings.contains split_allowed_ips singboxconfig.Strings.split
endpoint_tests = (refl, refl)

-- contents of two lines, and of four
abbrev contents : Contents
contents = record {
  count_lines = λ content. some (if equal content (codes "long") then 4 else 2);
  inline_rules = λ content. if equal content (codes "bad") then none else some (content ∷ []);
  path_escape = λ text. text;
  query_escape = λ text. text;
}

abbrev rule_set : Str → Str → Str → RuleSet
rule_set tag outbound content = record {
  name = tag;
  tag = tag;
  rule_set_type = codes "local";
  format = [];
  content = content;
  url = [];
  outbound = outbound;
  download_detour = [];
  able_devices = [];
  sort = pos 0;
}

abbrev rule_sets : List RuleSet
rule_sets =
    rule_set (codes "r1") (codes "a") (codes "long")
    ∷ rule_set (codes "r2") (codes "nowhere") (codes "long")
    ∷ rule_set (codes "r3") [] (codes "bad")
    ∷ []

abbrev outbounds : List SingBoxOut
outbounds = record zero_out { tag = codes "a" } ∷ []

abbrev route : SingRoute
route =
    get_route contents insertion_sort (codes "tv") (codes "t") (codes "http://h/") rule_sets
      outbounds

url_test :
    build_rule_set_url contents
      (codes "http://h/")
      (codes "r1")
      (codes "singbox")
      (codes "tv")
      (codes "t")
    ≡ codes "http://h/open/rules/r1?device=tv&software=singbox&token=t"
unfolding build_rule_set_url singboxconfig.Strings.trim_right singboxconfig.Strings.trim_space
url_test = refl

-- `any-get_route_rules` on the rule of the last rule set.
any-get_route_rules_example : any (λ rule. has (codes "r3") rule.rule_set) route.rules ≡ true
unfolding any has equal
any-get_route_rules_example =
    any-get_route_rules contents insertion_sort (codes "tv") (codes "t") (codes "http://h/")
      rule_sets outbounds (λ rule. has (codes "r3") rule.rule_set)

-- `any-get_route_rule_set` on the last rule set, whose content is invalid.
any-get_route_rule_set_example : any (λ e. equal (codes "r3") e.tag) route.rule_set ≡ false
unfolding any equal singboxconfig.Singbox.Route.is_served singboxconfig.Strings.trim_space
any-get_route_rule_set_example =
    any-get_route_rule_set contents insertion_sort (codes "tv") (codes "t") (codes "http://h/")
      rule_sets outbounds (codes "r3")

-- `get_route-used` on the first rule set.
get_route-used_example : any (λ rule. has (codes "r1") rule.rule_set) route.rules ≡ true
unfolding any get_route insertion singboxconfig.Singbox.Route.rule_set_less has
    singboxconfig.Prelude.Keys.add equal singboxconfig.Strings.trim_space
get_route-used_example =
    get_route-used contents insertion_sort (codes "tv") (codes "t") (codes "http://h/") rule_sets
      outbounds (codes "r1") refl

-- `get_route-outbounds` on these rule sets, one of which has no outbound.
get_route-outbounds_example :
    any
      (λ rule.
        any (λ tag. true) rule.rule_set
        && not (equal rule.outbound [])
        && not (has rule.outbound (codes "a" ∷ [])))
      route.rules
    ≡ false
unfolding equal get_tags_from_outbounds any get_route insertion
    singboxconfig.Singbox.Route.rule_set_less has singboxconfig.Prelude.Keys.add
get_route-outbounds_example =
    get_route-outbounds contents insertion_sort (codes "tv") (codes "t") (codes "http://h/")
      rule_sets outbounds

-- `is_device_visible_lem` on a list with a blank before the code.
is_device_visible_lem_example :
    (is_device_visible (codes "tv") (codes "pc, tv") ≡ true)
    × (is_extra_outbound_visible_for_device (codes "pc, tv") (codes "tv")
        ≡ is_device_visible (codes "tv") (codes "pc, tv"))
unfolding singboxconfig.Strings.trim_space has singboxconfig.Strings.split equal
is_device_visible_lem_example = is_device_visible_lem (codes "tv") (codes "pc, tv")
