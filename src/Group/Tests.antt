-- ===== src/Group/Tests.antt =====
-- Node groups at concrete inputs.
use singboxconfig.Prelude.{Str, ◌≡◌, refl, List, [], ◌∷◌, Option, none, some, codes}
use singboxconfig.Prelude.Map.{lookup}
use singboxconfig.Strings.{trim_space, split, cut, contains}
use singboxconfig.Entity.{NodeGroup, node_group_type_selector, node_group_type_url_test}
use singboxconfig.Group.{
  normalize_group_type, parse_device_type_overrides, filter_outbound_group_tags, resolve_group_type,
  split_keywords, or_selector,
}
use singboxconfig.Group.Members.{keywords, split_keywords-keywords}
use singboxconfig.Group.Overrides.{
  last_override, or_else, IsCanonical, lookup-parse_device_type_overrides, resolve_group_type_lem,
  resolve_group_type-IsCanonical,
}

abbrev hong_kong : NodeGroup
hong_kong = record {
  name = codes "HK";
  tag = codes "hk";
  group_type = codes "select";
  test_url = [];
  include = codes "HK, Hong";
  exclude = codes " site ,";
  device_type_overrides = codes "phone:bad, gateway : urltest,gateway:selector, tv:urltest,";
}

abbrev candidates : List Str
candidates = codes "HK 01" ∷ codes "SG 01" ∷ codes "HK site" ∷ codes "Hong 2" ∷ []

members :
    filter_outbound_group_tags (some hong_kong) candidates ≡ codes "HK 01" ∷ codes "Hong 2" ∷ []
unfolding filter_outbound_group_tags split_keywords trim_space split contains
    singboxconfig.Prelude.Keys.has singboxconfig.Prelude.Keys.add singboxconfig.Prelude.equal
    singboxconfig.Prelude.Keys.delete
members = refl

types :
    (resolve_group_type (some hong_kong) (codes "gateway") ≡ node_group_type_selector)
    × (resolve_group_type (some hong_kong) (codes "tv") ≡ node_group_type_url_test)
    × (resolve_group_type (some hong_kong) (codes "phone") ≡ node_group_type_selector)
unfolding resolve_group_type parse_device_type_overrides normalize_group_type trim_space split cut
    lookup singboxconfig.Prelude.equal singboxconfig.Prelude.Map.insert
types = (refl, refl, refl)

split_keywords-keywords_example : split_keywords (codes "a, ,b") ≡ keywords (codes "a, ,b")
split_keywords-keywords_example = split_keywords-keywords (codes "a, ,b")

lookup-parse_device_type_overrides_example :
    lookup (codes "gateway") (parse_device_type_overrides hong_kong.device_type_overrides)
    ≡ last_override (codes "gateway") (split b',' hong_kong.device_type_overrides)
lookup-parse_device_type_overrides_example =
    lookup-parse_device_type_overrides (codes "gateway") hong_kong.device_type_overrides

resolve_group_type_lem_example :
    resolve_group_type (some hong_kong) (codes "tv")
    ≡ or_selector (
        or_else
          (last_override (codes "tv") (split b',' hong_kong.device_type_overrides))
          (normalize_group_type hong_kong.group_type))
resolve_group_type_lem_example = resolve_group_type_lem hong_kong (codes "tv")

resolve_group_type-IsCanonical_example :
    IsCanonical (resolve_group_type (some hong_kong) (codes "phone"))
resolve_group_type-IsCanonical_example =
    resolve_group_type-IsCanonical (some hong_kong) (codes "phone")
