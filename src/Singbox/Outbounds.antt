-- ===== src/Singbox/Outbounds.antt =====
-- convert/singbox/outbound.go: group outbounds, and the final list of outbounds.
pub mod Closed
use singboxconfig.Prelude.{Str, List, [], ◌∷◌, ◌++◌, some, codes, equal, if◌then◌else◌}
use singboxconfig.Prelude.Int.{pos}
use singboxconfig.Strings.{is_empty}
use singboxconfig.Entity.{
  NodeGroup, NodeGroupType, node_group_type_selector, node_group_type_url_test,
}
use singboxconfig.Entity.SingBox.{SingBoxOut, zero_out}
use singboxconfig.Group.{filter_outbound_group_tags, resolve_group_type}

unfoldable pub outbound_group_rule_filter : NodeGroup → List Str → List Str
outbound_group_rule_filter group_rule tags = filter_outbound_group_tags (some group_rule) tags

abbrev pub default_test_url : Str
default_test_url = codes "https://www.gstatic.com/generate_204"

-- the outbound of one group, with the switch on its type
pub group_outbound : NodeGroup → NodeGroupType → Str → List Str → SingBoxOut
group_outbound group_rule group_type first rest =
    let item = record zero_out {
      tag = group_rule.tag;
      type = group_type;
      outbounds = first ∷ rest;
    } in
    if equal group_type node_group_type_url_test
    then record item {
      url = if is_empty group_rule.test_url then default_test_url else group_rule.test_url;
      interval = codes "10m";
      tolerance = pos 50;
    }
    else if equal group_type node_group_type_selector
    then record item { default = first }
    else item

-- `continue` where no member is left
add_group : NodeGroup → Str → List Str → List SingBoxOut → List SingBoxOut
unfolding group_outbound
add_group group_rule device_code [] groups = groups
add_group group_rule device_code (first ∷ rest) groups =
    group_outbound group_rule (resolve_group_type (some group_rule) device_code) first rest ∷ groups

unfoldable pub construct_outbound_group : List NodeGroup → List Str → Str → List SingBoxOut
unfolding add_group outbound_group_rule_filter
construct_outbound_group [] tags device_code = []
construct_outbound_group (group_rule ∷ group_rules) tags device_code =
    let rest = construct_outbound_group group_rules tags device_code in
    if is_empty group_rule.tag
    then rest
    else add_group group_rule device_code (outbound_group_rule_filter group_rule tags) rest

unfoldable pub get_tags_from_outbounds : List SingBoxOut → List Str
get_tags_from_outbounds [] = []
get_tags_from_outbounds (outbound ∷ outbounds) = outbound.tag ∷ get_tags_from_outbounds outbounds

abbrev pub direct_outbound : SingBoxOut
direct_outbound = record zero_out { type = codes "direct"; tag = codes "direct" }

unfoldable pub get_outbounds : List SingBoxOut → List NodeGroup → Str → List SingBoxOut
unfolding construct_outbound_group get_tags_from_outbounds
get_outbounds outbounds group_rules device_code =
    let groups =
      construct_outbound_group group_rules (get_tags_from_outbounds outbounds) device_code in
    outbounds ++ (groups ++ (direct_outbound ∷ []))
