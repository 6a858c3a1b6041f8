-- ===== src/Singbox/Route.antt =====
-- convert/singbox/route.go: the route of a device, with its rules and its rule sets.
pub mod Effective
use singboxconfig.Prelude.{
  ℕ, leb, ◌==◌, Str, Bool, true, false, not, ◌&&◌, List, [], ◌∷◌, ◌++◌, Option, none, some, codes,
  equal, if◌then◌else◌,
}
use singboxconfig.Prelude.Int.{ltb_ℤ}
use singboxconfig.Prelude.Keys.{has, add}
use singboxconfig.Prelude.Sort.{Sorting}
use singboxconfig.Strings.{trim_space, trim_right, is_empty, contains}
use singboxconfig.Entity.{RuleSet, rule_set_type_remote}
use singboxconfig.Entity.SingBox.{SingBoxOut, SingRoute, SingRouteRule, SingRuleSet, zero_rule}

-- What the route uses of convert/ruleset, whose functions read JSON: the number of the lines of a
-- content and its rules, `none` where the content is invalid; and of package net/url.
pub record Contents : Type 0 where
  pub count_lines : Str → Option ℕ
  pub inline_rules : Str → Option (List Str)
  pub path_escape : Str → Str
  pub query_escape : Str → Str

abbrev pub inline_threshold : ℕ
inline_threshold = 3

abbrev pub software_singbox : Str
software_singbox = codes "singbox"

unfoldable pub rule_set_less : RuleSet → RuleSet → Bool
rule_set_less a b = ltb_ℤ a.sort b.sort

-- `outboundTags`
outbound_tags : List Str → List SingBoxOut → List Str
outbound_tags tags [] = tags
outbound_tags tags (outbound ∷ outbounds) =
    outbound_tags (if is_empty outbound.tag then tags else add outbound.tag tags) outbounds

effective : Str → List Str → List RuleSet → List RuleSet
effective device tags [] = []
effective device tags (rule_set ∷ rule_sets) =
    let rest = effective device tags rule_sets in
    if not (is_empty rule_set.able_devices) && not (contains rule_set.able_devices device)
    then rest
    else if not (is_empty rule_set.outbound) && not (has rule_set.outbound tags)
    then rest
    else rule_set ∷ rest

abbrev pub base_rules : List SingRouteRule
base_rules =
    record zero_rule { protocol = codes "dns"; action = codes "hijack-dns" }
    ∷ record zero_rule { clash_mode = codes "direct"; outbound = codes "direct" }
    ∷ record zero_rule { clash_mode = codes "global"; outbound = codes "select" }
    ∷ record zero_rule { protocol = codes "quic"; action = codes "reject" }
    ∷ []

-- the last loop of `GetRoute`
rules_of : List RuleSet → List SingRouteRule
rules_of [] = []
rules_of (rule_set ∷ rule_sets) =
    record zero_rule { rule_set = rule_set.tag ∷ []; outbound = rule_set.outbound }
    ∷ rules_of rule_sets

remote_entry : RuleSet → Str → Str → SingRuleSet
remote_entry rule_set format url = record {
  type = codes "remote";
  tag = rule_set.tag;
  rules = none;
  format = format;
  url = url;
  download_detour = rule_set.download_detour;
}

-- the fallback: the rules in the entry, or no entry
inline_entry : RuleSet → Option (List Str) → List SingRuleSet → List SingRuleSet
inline_entry rule_set none rest = rest
inline_entry rule_set (some rules) rest =
    record {
      type = codes "inline";
      tag = rule_set.tag;
      rules = some rules;
      format = [];
      url = [];
      download_detour = [];
    }
    ∷ rest

-- the host is set and the content has enough lines
unfoldable pub is_served : Str → Option ℕ → Bool
is_served system_host none = false
is_served system_host (some count) =
    not (is_empty (trim_space system_host)) && leb inline_threshold count

module _ (x : Contents) where
  -- `url.Values.Encode` sorts the keys.
  unfoldable pub build_rule_set_url : Str → Str → Str → Str → Str → Str
  build_rule_set_url system_host tag software device token =
      trim_right (λ c. c == b'/') (trim_space system_host)
      ++ codes "/open/rules/"
      ++ x.path_escape tag
      ++ codes "?device="
      ++ x.query_escape device
      ++ codes "&software="
      ++ x.query_escape software
      ++ codes "&token="
      ++ x.query_escape token

  unfoldable pub base_rule_sets : Str → Str → Str → List RuleSet → List SingRuleSet
  unfolding remote_entry inline_entry is_served build_rule_set_url
  base_rule_sets device device_token system_host [] = []
  base_rule_sets device device_token system_host (rule_set ∷ rule_sets) =
      let rest = base_rule_sets device device_token system_host rule_sets in
      if equal rule_set.rule_set_type rule_set_type_remote
      then remote_entry rule_set rule_set.format rule_set.url ∷ rest
      else if is_served system_host (x.count_lines rule_set.content)
      then remote_entry rule_set (codes "source")
          (build_rule_set_url system_host rule_set.tag software_singbox device device_token)
        ∷ rest
      else inline_entry rule_set (x.inline_rules rule_set.content) rest

  unfoldable pub get_route :
      Sorting RuleSet → Str → Str → Str → List RuleSet → List SingBoxOut → SingRoute
  unfolding base_rule_sets effective outbound_tags rules_of
  get_route sorting device device_token system_host rule_sets outbounds =
      let tags = outbound_tags [] outbounds in
      let chosen = effective device tags (sorting.sort_slice rule_set_less rule_sets) in
      record {
        rules = base_rules ++ rules_of chosen;
        rule_set = base_rule_sets device device_token system_host chosen;
        final = codes "general";
        find_process = false;
        auto_detect_interface = true;
      }
