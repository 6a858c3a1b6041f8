-- ===== src/Group.antt =====
-- convert/common/group.go: the members of a node group and its type for a device.
pub mod Members
pub mod Overrides
pub mod Tests
use singboxconfig.Prelude.{
  Str, Bool, true, false, ◌&&◌, ◌||◌, not, List, [], ◌∷◌, Option, none, some, any, equal,
  if◌then◌else◌,
}
use singboxconfig.Prelude.Keys.{has, add, delete}
use singboxconfig.Prelude.Map.{lookup, insert}
use singboxconfig.Strings.{trim_space, is_empty, split, cut, contains}
use singboxconfig.Entity.{
  NodeGroup, NodeGroupType, node_group_type_selector, node_group_type_select,
  node_group_type_url_test,
}

-- the loop of `splitKeywords`
trim_parts : List Str → List Str
trim_parts [] = []
trim_parts (part ∷ parts) =
    let item = trim_space part in
    let rest = trim_parts parts in if is_empty item then rest else item ∷ rest

unfoldable pub split_keywords : Str → List Str
unfolding trim_parts
split_keywords raw = if is_empty (trim_space raw) then [] else trim_parts (split b',' raw)

-- the loop over keywords that stops at the first one that the tag contains
contains_any : Str → List Str → Bool
contains_any tag [] = false
contains_any tag (keyword ∷ keywords) =
    if contains tag keyword then true else contains_any tag keywords

-- `matchedTags` after the loops over `tags`
add_all : List Str → List Str → List Str
add_all matched [] = matched
add_all matched (tag ∷ tags) = add_all (add tag matched) tags

add_included : List Str → List Str → List Str → List Str
add_included includes matched [] = matched
add_included includes matched (tag ∷ tags) =
    add_included includes (if contains_any tag includes then add tag matched else matched) tags

-- `for tag := range matchedTags`: the first argument lists the keys that the loop visits.
delete_excluded : List Str → List Str → List Str → List Str
delete_excluded [] excludes matched = matched
delete_excluded (tag ∷ visited) excludes matched =
    delete_excluded visited excludes
      (if contains_any tag excludes then delete tag matched else matched)

-- the last loop, in the order of the candidates
collect : List Str → List Str → List Str
collect [] matched = []
collect (tag ∷ tags) matched =
    let rest = collect tags matched in if has tag matched then tag ∷ rest else rest

matched_tags : List Str → List Str → List Str
matched_tags [] tags = add_all [] tags
matched_tags (include ∷ includes) tags = add_included (include ∷ includes) [] tags

unfoldable pub filter_outbound_group_tags : Option NodeGroup → List Str → List Str
unfolding contains_any add_all add_included delete_excluded collect matched_tags
filter_outbound_group_tags none tags = []
filter_outbound_group_tags (some group_rule) [] = []
filter_outbound_group_tags (some group_rule) (tag ∷ tags) =
    let matched = matched_tags (split_keywords group_rule.include) (tag ∷ tags) in
    collect (tag ∷ tags) (delete_excluded matched (split_keywords group_rule.exclude) matched)

-- `none` is `valid == false`
unfoldable pub normalize_group_type : Str → Option NodeGroupType
normalize_group_type raw =
    let group_type = trim_space raw in
    if equal group_type node_group_type_selector || equal group_type node_group_type_select
    then some node_group_type_selector
    else if equal group_type node_group_type_url_test
    then some node_group_type_url_test
    else none

-- the assignment behind the guard on the device code and the type
set_override : Str → Option NodeGroupType → List (Str × NodeGroupType) → List (Str × NodeGroupType)
set_override device_code none overrides = overrides
set_override device_code (some group_type) overrides =
    if is_empty device_code then overrides else insert device_code group_type overrides

-- one round of the loop over the rules
add_override : Option (Str × Str) → List (Str × NodeGroupType) → List (Str × NodeGroupType)
unfolding set_override
add_override none overrides = overrides
add_override (some (device_code, raw_type)) overrides =
    set_override (trim_space device_code) (normalize_group_type raw_type) overrides

add_overrides : List Str → List (Str × NodeGroupType) → List (Str × NodeGroupType)
unfolding add_override
add_overrides [] overrides = overrides
add_overrides (rule ∷ rules) overrides =
    add_overrides rules (add_override (cut b':' rule) overrides)

unfoldable pub parse_device_type_overrides : Str → List (Str × NodeGroupType)
unfolding add_overrides
parse_device_type_overrides raw =
    if is_empty (trim_space raw) then [] else add_overrides (split b',' raw) []

pub or_selector : Option NodeGroupType → NodeGroupType
or_selector (some group_type) = group_type
or_selector none = node_group_type_selector

or_default : NodeGroup → Option NodeGroupType → NodeGroupType
unfolding or_selector
or_default group (some override) = override
or_default group none = or_selector (normalize_group_type group.group_type)

unfoldable pub resolve_group_type : Option NodeGroup → Str → NodeGroupType
unfolding or_default
resolve_group_type none device_code = node_group_type_selector
resolve_group_type (some group) device_code = or_default group (
    if is_empty device_code
    then none
    else lookup device_code (parse_device_type_overrides group.device_type_overrides))
