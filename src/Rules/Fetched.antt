-- ===== src/Rules/Fetched.antt =====
-- What the endpoint of the rule sets answers, and that it serves what a route refers to.
use singboxconfig.Prelude.{
  Str, true, false, List, [], Option, none, some, ◌≡◌, refl, ◌∙◌, sym, ap, arith, equal,
}
use singboxconfig.Prelude.Exec.{ok, follow, follow_ok, ◌>>=◌}
use singboxconfig.Entity.{Device, RuleSet, rule_set_type_remote}
use singboxconfig.Inventory.Store.{rule_sets}
use singboxconfig.Inventory.Methods.{list_rule_sets}
use singboxconfig.Singbox.Route.{is_served, software_singbox}
use singboxconfig.Generated.Server.{ServerState, on_db}
use singboxconfig.Generated.{Answer, or_failed}
use singboxconfig.Generated.Admitted.{IsAdmitted, authorized_ok}
use singboxconfig.Rules.Marshalled.{Marshals, parse_raw_rules-Marshals}
use singboxconfig.Rules.{
  Json, parse_raw_rules, normalize_singbox, marshalled, count_lines, inline_rules, contents,
}
use singboxconfig.Rules.Counted.{total_of, count_lines_lem}
use singboxconfig.Rules.Endpoint.{
  singbox, parse_software, RulesBody, json_body, find_visible_rule_set, json_or_failed, render_for,
  answer_rule_set, rules_for, get_rules_by_software,
}
use singboxconfig.Rules.Shown.{IsShown, find_visible_rule_set_complete, list_rule_sets_ok}

module _ (x : Json) where
  -- the content of a rule set that has rules
  normalized :
      (content : Str) (rules : Option (List Str)) (host : Str)
      → parse_raw_rules x content ≡ rules
      → Marshals x
      → is_served host (total_of x rules) ≡ true
      → (text : Str) × (marshalled x rules ≡ some text)
  unfolding is_served marshalled
  normalized content none host e m h = absurd (cc)
  normalized content (some rules) host e m h = parse_raw_rules-Marshals x m content rules e

  rendered :
      (r : RuleSet) (text : Str) (s : ServerState)
      → equal r.rule_set_type rule_set_type_remote ≡ false
      → normalize_singbox x r.content ≡ some text
      → (answer_rule_set x singbox (some r) s).0 ≡ ok (json_body text)
  unfolding answer_rule_set render_for json_or_failed
  rendered r text s l n = ground arith

  -- the count is that of the rules which are normalized
  counted_lines : (content : Str) → count_lines x content ≡ total_of x (parse_raw_rules x content)
  unfolding inline_rules
  counted_lines content = count_lines_lem x content

  answered :
      (tag code token : Str) (s : ServerState) (device : Device) (r : RuleSet) (text : Str)
      → s.db.faults ≡ []
      → IsAdmitted code token s.db.tables.devices device
      → IsShown tag device s.db.tables.rule_sets r
      → normalize_singbox x r.content ≡ some text
      → (get_rules_by_software x tag software_singbox code token s).0 ≡ ok (json_body text)
  unfolding get_rules_by_software rules_for parse_software equal
  answered tag code token s device r text f a h n =
      let rest : Device → Answer RulesBody = λ d. or_failed (on_db list_rule_sets) >>= λ rows.
      answer_rule_set x singbox (find_visible_rule_set rows tag d.code) in
      let rows = s.db.tables.rule_sets in
      let found = find_visible_rule_set_complete rows rows tag device r refl h in
      ap (λ q. (follow q rest).0) (authorized_ok code token s device f a)
      ∙ follow_ok (or_failed (on_db list_rule_sets) s) _ (list_rule_sets_ok s f) (
          ap (λ q. (answer_rule_set x singbox q (or_failed (on_db list_rule_sets) s).1).0) found
          ∙ rendered r text (or_failed (on_db list_rule_sets) s).1 h.local n)

  -- Where no storage call fails and marshalling raw messages that were unmarshalled succeeds:
  -- sing-box, with the code and the token of an enabled device, is answered with the normalized
  -- content of the first rule set of the tag, where the device may see it, it is not remote, and it
  -- has the host and the number of lines for which a route refers to this service.
  pub get_rules_by_software-served :
      (tag code token host : Str) (s : ServerState) (device : Device) (r : RuleSet)
      → Marshals x
      → s.db.faults ≡ []
      → IsAdmitted code token s.db.tables.devices device
      → IsShown tag device s.db.tables.rule_sets r
      → is_served host ((contents x).count_lines r.content) ≡ true
      → (text : Str) × (normalize_singbox x r.content ≡ some text)
        × ((get_rules_by_software x tag software_singbox code token s).0 ≡ ok (json_body text))
  unfolding contents normalize_singbox
  get_rules_by_software-served tag code token host s device r m f a h served =
      let (text, n) =
        normalized r.content (parse_raw_rules x r.content) host refl m
          (ap (is_served host) (sym (counted_lines r.content)) ∙ served) in
      (text, n, answered tag code token s device r text f a h n)
