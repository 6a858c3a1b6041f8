-- ===== src/Inventory/Handlers/Groups.antt =====
-- service/service.go: node groups and rule sets.
use singboxconfig.Prelude.{
  ◌==◌, Str, Bool, not, List, [], ◌∷◌, Option, none, some, keep, equal, if◌then◌else◌,
}
use singboxconfig.Prelude.Int.{ltb_ℤ}
use singboxconfig.Prelude.Exec.{pure, raise, ◌>>=◌, ◌>>◌}
use singboxconfig.Prelude.Sort.{Sorting}
use singboxconfig.Entity.{NodeGroup, RuleSet}
use singboxconfig.Inventory.Methods.{
  create_node_group, get_node_group, list_node_groups, update_node_group, delete_node_group,
  create_rule_set, get_rule_set, list_rule_sets, update_rule_set, delete_rule_set,
}
use singboxconfig.Inventory.Handlers.Answers.{
  one_node_group, all_node_groups, one_rule_set, all_rule_sets, raw_json, deleted, missing,
  internal_server_error, Body, Handler, or_failed, must_be_new, bind,
}

unfoldable pub post_node_group : Option NodeGroup → Handler Body
post_node_group body = do
  group ← bind body
  must_be_new (get_node_group group.tag)
  or_failed (create_node_group group)
  pure (one_node_group group)

unfoldable pub put_node_group : Option NodeGroup → Handler Body
put_node_group body = do
  group ← bind body
  or_failed (update_node_group group)
  pure (one_node_group group)

unfoldable pub remove_node_group : Str → Handler Body
remove_node_group tag = do or_failed (delete_node_group tag); pure deleted

unfoldable pub fetch_node_groups : Handler Body
fetch_node_groups = do rows ← or_failed list_node_groups; pure (all_node_groups rows)

unfoldable pub post_rule_set : Option RuleSet → Handler Body
post_rule_set body = do
  rule_set ← bind body
  must_be_new (get_rule_set rule_set.tag)
  or_failed (create_rule_set rule_set)
  pure (one_rule_set rule_set)

-- the two `ReplaceAll` of `UpdateRuleSet`
unfoldable pub without_blanks : Str → Str
without_blanks content = keep (λ c. not (c == b' ')) (keep (λ c. not (c == b'\n')) content)

unfoldable pub put_rule_set : Option RuleSet → Handler Body
put_rule_set body = do
  rule_set ← bind body
  or_failed (update_rule_set (record rule_set { content = without_blanks rule_set.content }))
  pure (one_rule_set (record rule_set { content = without_blanks rule_set.content }))

unfoldable pub remove_rule_set : Str → Handler Body
remove_rule_set tag = do or_failed (delete_rule_set tag); pure deleted

-- a content, `none` where it is no JSON (`json.Unmarshal`)
unfoldable pub answer_raw : Option Str → Handler Body
answer_raw none = raise internal_server_error
answer_raw (some json) = pure (raw_json json)

-- the loop over the rule sets
unfoldable pub content_of : (Str → Option Str) → Str → List RuleSet → Handler Body
content_of raw tag [] = raise missing
content_of raw tag (row ∷ rows) =
    let rest = content_of raw tag rows in
    if equal row.tag tag then answer_raw (raw row.content) else rest

unfoldable pub fetch_rule_set_by_tag : (Str → Option Str) → Str → Handler Body
fetch_rule_set_by_tag raw tag = do rows ← or_failed list_rule_sets; content_of raw tag rows

abbrev pub rule_set_before : RuleSet → RuleSet → Bool
rule_set_before a b = ltb_ℤ a.sort b.sort

unfoldable pub fetch_rule_sets : Sorting RuleSet → Handler Body
fetch_rule_sets sorting = do
  rows ← or_failed list_rule_sets
  pure (all_rule_sets (sorting.sort_slice rule_set_before rows))
