-- ===== src/Singbox/Tests.antt =====
-- Outbounds at concrete inputs.
use singboxconfig.Prelude.{Str, ◌≡◌, ◌||◌, refl, List, [], ◌∷◌, any, All, codes, equal}
use singboxconfig.Prelude.Keys.{has}
use singboxconfig.Entity.{NodeGroup}
use singboxconfig.Entity.SingBox.{SingBoxOut, zero_out}
use singboxconfig.Group.{
  filter_outbound_group_tags, resolve_group_type, split_keywords, normalize_group_type,
  parse_device_type_overrides,
}
use singboxconfig.Strings.{trim_space, split, cut, contains}
use singboxconfig.Prelude.Map.{lookup}
use singboxconfig.Singbox.Outbounds.{
  construct_outbound_group, get_tags_from_outbounds, get_outbounds,
}
use singboxconfig.Singbox.Outbounds.Closed.{
  IsGroup, provides, has-get_outbounds, get_outbounds-IsGroup,
}

abbrev node : Str → SingBoxOut
node t = record zero_out { tag = t; type = codes "trojan" }

abbrev nodes : List SingBoxOut
nodes = node (codes "HK 01") ∷ node (codes "SG 01") ∷ []

abbrev group : Str → Str → NodeGroup
group t i = record {
  name = t;
  tag = t;
  group_type = codes "urltest";
  test_url = [];
  include = i;
  exclude = [];
  device_type_overrides = codes "phone:select";
}

abbrev groups : List NodeGroup
groups = group (codes "hk") (codes "HK") ∷ group (codes "us") (codes "US") ∷ group [] [] ∷ []

tags :
    get_tags_from_outbounds (get_outbounds nodes groups (codes "phone"))
    ≡ codes "HK 01" ∷ codes "SG 01" ∷ codes "hk" ∷ codes "direct" ∷ []
unfolding get_outbounds filter_outbound_group_tags resolve_group_type split_keywords
    normalize_group_type parse_device_type_overrides trim_space split cut contains lookup equal has
    singboxconfig.Prelude.Keys.add singboxconfig.Prelude.Map.insert
tags = refl

has-get_outbounds_example :
    has (codes "hk") (get_tags_from_outbounds (get_outbounds nodes groups (codes "tv"))) ≡ (
      has (codes "hk") (get_tags_from_outbounds nodes)
      || (any (provides (get_tags_from_outbounds nodes) (codes "hk")) groups
          || equal (codes "hk") (codes "direct")))
has-get_outbounds_example = has-get_outbounds nodes groups (codes "tv") (codes "hk")

get_outbounds-IsGroup_example :
    All
      (IsGroup (get_tags_from_outbounds (get_outbounds nodes groups (codes "phone"))))
      (construct_outbound_group groups (get_tags_from_outbounds nodes) (codes "phone"))
get_outbounds-IsGroup_example = get_outbounds-IsGroup nodes groups (codes "phone")
