-- ===== src/Rules/Endpoint.antt =====
-- service/rules_open.go: one rule set, for a device and in the format of a client.
use singboxconfig.Prelude.{
  Str, not, ◌&&◌, List, [], ◌∷◌, ◌++◌, Option, none, some, codes, equal, if◌then◌else◌,
}
use singboxconfig.Prelude.Exec.{pure, raise, ◌>>=◌}
use singboxconfig.Strings.{trim_space, is_empty, contains}
use singboxconfig.Entity.{RuleSet, rule_set_type_remote}
use singboxconfig.Inventory.Methods.{list_rule_sets}
use singboxconfig.Generated.Server.{on_db}
use singboxconfig.Generated.{Answer, Status, or_failed, authorized}
use singboxconfig.Rules.{Json, normalize_singbox, render_lines}

-- `Software` of entity/enums.go
pub data Software : Type 0 where
  singbox surge shadowrocket : Software

unfoldable pub parse_software : Str → Option Software
parse_software raw =
    if equal raw (codes "singbox")
    then some singbox
    else if equal raw (codes "surge")
    then some surge
    else if equal raw (codes "shadowrocket")
    then some shadowrocket
    else none

-- What is written with status 200: JSON or plain text.
pub data RulesBody : Type 0 where
  json_body text_body : Str → RulesBody

unfoldable pub find_visible_rule_set : List RuleSet → Str → Str → Option RuleSet
find_visible_rule_set [] tag device_code = none
find_visible_rule_set (rule_set ∷ rule_sets) tag device_code =
    let rest = find_visible_rule_set rule_sets tag device_code in
    if not (equal rule_set.tag tag)
    then rest
    else if not (is_empty rule_set.able_devices) && not (contains rule_set.able_devices device_code)
    then none
    else some rule_set

-- `strings.Join`
unfoldable pub join : Str → List Str → Str
join separator [] = []
join separator (line ∷ []) = line
join separator (line ∷ next ∷ lines) = line ++ separator ++ join separator (next ∷ lines)

unfoldable pub json_or_failed : Option Str → Answer RulesBody
json_or_failed none = raise Status.internal_server_error
json_or_failed (some normalized) = pure (json_body normalized)

unfoldable pub text_or_failed :
    (List Str → List Str) → Option (List Str × List Str) → Answer RulesBody
text_or_failed titled none = raise Status.internal_server_error
text_or_failed titled (some (lines, warnings)) = pure (text_body (join (codes "\n") (titled lines)))

-- the first line for Surge
unfoldable pub titled_by : RuleSet → List Str → List Str
titled_by rule_set lines =
    let name = trim_space rule_set.name in
    (codes "# " ++ (if is_empty name then rule_set.tag else name)) ∷ lines

module _ (x : Json) where
  unfoldable pub render_for : Software → RuleSet → Answer RulesBody
  unfolding json_or_failed text_or_failed titled_by
  render_for singbox rule_set = json_or_failed (normalize_singbox x rule_set.content)
  render_for surge rule_set = text_or_failed (titled_by rule_set) (render_lines x rule_set.content)
  render_for shadowrocket rule_set =
      text_or_failed (λ lines. lines) (render_lines x rule_set.content)

  unfoldable pub answer_rule_set : Software → Option RuleSet → Answer RulesBody
  unfolding render_for
  answer_rule_set software none = raise Status.not_found
  answer_rule_set software (some rule_set) =
      if equal rule_set.rule_set_type rule_set_type_remote
      then raise Status.bad_request
      else render_for software rule_set

  unfoldable pub rules_for : Str → Option Software → Str → Str → Answer RulesBody
  rules_for tag none device_code token = raise Status.bad_request
  rules_for tag (some software) device_code token = do
    device ← authorized device_code token
    rule_sets ← or_failed (on_db list_rule_sets)
    answer_rule_set software (find_visible_rule_set rule_sets tag device.code)

  unfoldable pub get_rules_by_software : Str → Str → Str → Str → Answer RulesBody
  get_rules_by_software tag software device_code token =
      rules_for tag (parse_software software) device_code token
