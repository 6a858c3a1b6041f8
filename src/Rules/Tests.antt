-- ===== src/Rules/Tests.antt =====
-- A rule set of two domains and one address, and the requests for it.
use singboxconfig.Prelude.{
  ℕ, Str, Bool, true, false, List, [], ◌∷◌, Option, none, some, ◌≡◌, refl, codes, equal,
  if◌then◌else◌,
}
use singboxconfig.Prelude.Int.{pos}
use singboxconfig.Prelude.Exec.{ok, err}
use singboxconfig.Entity.{Device, RuleSet}
use singboxconfig.Generated.Server.{ServerState}
use singboxconfig.Generated.{Status}
use singboxconfig.Generated.Admitted.{IsAdmitted}
use singboxconfig.Singbox.Route.{software_singbox, is_served}
use singboxconfig.Rules.{Json, render_lines, count_lines, normalize_singbox, contents, inline_rules}
use singboxconfig.Rules.Counted.{total_of, count_lines_lem}
use singboxconfig.Rules.Endpoint.{parse_software, RulesBody, json_body, get_rules_by_software}
use singboxconfig.Rules.Marshalled.{Marshals}
use singboxconfig.Rules.Shown.{IsShown}
use singboxconfig.Rules.Fetched.{get_rules_by_software-served}

abbrev content : Str
content = codes " [rule] "

-- it knows this content, its rule and the two fields of the rule
abbrev json : Json
json = record {
  unmarshal_array = λ text. if equal text (codes "[rule]") then some (codes "rule" ∷ []) else none;
  unmarshal_object =
      λ text. some ((codes "domain", codes "domains") ∷ (codes "ip_cidr", codes "cidrs") ∷ []);
  unmarshal_texts = λ text.
      if equal text (codes "domains")
      then some (codes "a.com " ∷ [] ∷ codes "b.com" ∷ [])
      else some (codes "::/0" ∷ []);
  marshal_source = λ version rules. some (codes "source");
  parse_cidr = λ cidr. some false;
  to_upper = λ text. text;
  path_escape = λ text. text;
  query_escape = λ text. text;
}

lines_test :
    render_lines json content
    ≡ some (codes "DOMAIN,a.com" ∷ codes "DOMAIN,b.com" ∷ codes "IP-CIDR6,::/0" ∷ [], [])
unfolding singboxconfig.Rules.parse_raw_rules singboxconfig.Rules.normalize_singbox
    singboxconfig.Rules.inline_rules singboxconfig.Rules.string_values
    singboxconfig.Rules.append_domain_lines singboxconfig.Rules.append_ip_cidr_lines
    singboxconfig.Rules.append_geoip_lines singboxconfig.Rules.append_process_lines
    singboxconfig.Rules.append_rule_lines singboxconfig.Rules.render_rules
    singboxconfig.Rules.render_lines singboxconfig.Rules.count_lines singboxconfig.Rules.contents
    singboxconfig.Rules.ip_rule_type singboxconfig.Rules.quote_value
    singboxconfig.Rules.field_warnings singboxconfig.Prelude.any singboxconfig.Prelude.equal
    singboxconfig.Prelude.Keys.has singboxconfig.Prelude.Map.lookup singboxconfig.Strings.trim_space
    singboxconfig.Strings.trim_left singboxconfig.Strings.trim_right singboxconfig.Strings.trim_step
    singboxconfig.Strings.is_space
lines_test = refl

abbrev rule_set : RuleSet
rule_set = record {
  name = codes "R";
  tag = codes "r";
  rule_set_type = codes "inline";
  format = [];
  content = content;
  url = [];
  outbound = [];
  download_detour = [];
  able_devices = codes "tv";
  sort = pos 0;
}

abbrev device : Str → Device
device code = record {
  code = code;
  name = [];
  description = [];
  token = codes "t";
  enabled = true;
  sort = pos 0;
  wire_guard_tag = [];
  wire_guard_client_addr = [];
  wire_guard_client_key = [];
}

abbrev server : ServerState
server = record {
  world = record {
    settings = [];
    cache = record { ttl = 0; config = none; expires_at = 0 };
    now = 0;
    faults = [];
    entropy = [];
    delays = [];
  };
  cache = record { subscribes = []; outbounds = []; next_id = 1; faults = [] };
  db = record {
    tables = record {
      devices = device (codes "pc") ∷ device (codes "tv") ∷ [];
      inbounds = [];
      device_inbounds = [];
      wire_guards = [];
      wire_guard_peers = [];
      next_peer_id = 1;
      node_groups = [];
      rule_sets = rule_set ∷ [];
    };
    faults = [];
  };
}

abbrev tv : Str
tv = codes "tv"

abbrev pc : Str
pc = codes "pc"

abbrev t : Str
t = codes "t"

abbrev r : Str
r = codes "r"

admitting : IsAdmitted tv t server.db.tables.devices (device tv)
unfolding singboxconfig.Inventory.Table.find singboxconfig.Prelude.equal
admitting = record { known = refl; enabled = refl; same_token = refl }

-- each content here is marshalled
marshals : Marshals json
marshals = record {
  elements = λ text rules h. (codes "source", refl);
  object = λ text fields h. (codes "source", refl);
}

shown : IsShown r (device tv) server.db.tables.rule_sets rule_set
unfolding singboxconfig.Generated.default_of singboxconfig.Generated.stored_or_default
    singboxconfig.Generated.failed_as singboxconfig.Generated.missing_as
    singboxconfig.Generated.or_failed singboxconfig.Generated.or_missing
    singboxconfig.Generated.admitted singboxconfig.Generated.authorized
    singboxconfig.Generated.resolve_generate_device singboxconfig.Generated.Server.db_error
    singboxconfig.Inventory.Store.storage_call singboxconfig.Inventory.Store.query
    singboxconfig.Inventory.Store.first singboxconfig.Inventory.Store.get_row
    singboxconfig.Inventory.Store.list_rows singboxconfig.Inventory.Methods.list_devices
    singboxconfig.Inventory.Methods.get_device singboxconfig.Inventory.Methods.list_rule_sets
    singboxconfig.Inventory.Table.find singboxconfig.Prelude.equal
    singboxconfig.Rules.Endpoint.parse_software singboxconfig.Rules.Endpoint.find_visible_rule_set
    singboxconfig.Rules.Endpoint.join singboxconfig.Rules.Endpoint.json_or_failed
    singboxconfig.Rules.Endpoint.text_or_failed singboxconfig.Rules.Endpoint.titled_by
    singboxconfig.Rules.Endpoint.render_for singboxconfig.Rules.Endpoint.answer_rule_set
    singboxconfig.Rules.Endpoint.rules_for singboxconfig.Rules.Endpoint.get_rules_by_software
    singboxconfig.Strings.contains singboxconfig.Strings.has_prefix
shown = record { found = refl; able = refl; local = refl }

served : is_served (codes "http://h") ((contents json).count_lines content) ≡ true
unfolding singboxconfig.Rules.parse_raw_rules singboxconfig.Rules.normalize_singbox
    singboxconfig.Rules.inline_rules singboxconfig.Rules.string_values
    singboxconfig.Rules.append_domain_lines singboxconfig.Rules.append_ip_cidr_lines
    singboxconfig.Rules.append_geoip_lines singboxconfig.Rules.append_process_lines
    singboxconfig.Rules.append_rule_lines singboxconfig.Rules.render_rules
    singboxconfig.Rules.render_lines singboxconfig.Rules.count_lines singboxconfig.Rules.contents
    singboxconfig.Rules.ip_rule_type singboxconfig.Rules.quote_value
    singboxconfig.Rules.field_warnings singboxconfig.Prelude.any singboxconfig.Prelude.equal
    singboxconfig.Prelude.Keys.has singboxconfig.Prelude.Map.lookup singboxconfig.Strings.trim_space
    singboxconfig.Strings.trim_left singboxconfig.Strings.trim_right singboxconfig.Strings.trim_step
    singboxconfig.Strings.is_space singboxconfig.Singbox.Route.is_served
served = refl

get_rules_by_software-served_example :
    (text : Str) × (normalize_singbox json content ≡ some text)
    × ((get_rules_by_software json r software_singbox tv t server).0 ≡ ok (json_body text))
get_rules_by_software-served_example =
    get_rules_by_software-served json r tv t (codes "http://h") server (device tv) rule_set marshals
      refl admitting shown served

-- the other device may not see it
hidden_test : (get_rules_by_software json r (codes "surge") pc t server).0 ≡ err Status.not_found
unfolding singboxconfig.Generated.default_of singboxconfig.Generated.stored_or_default
    singboxconfig.Generated.failed_as singboxconfig.Generated.missing_as
    singboxconfig.Generated.or_failed singboxconfig.Generated.or_missing
    singboxconfig.Generated.admitted singboxconfig.Generated.authorized
    singboxconfig.Generated.resolve_generate_device singboxconfig.Generated.Server.db_error
    singboxconfig.Inventory.Store.storage_call singboxconfig.Inventory.Store.query
    singboxconfig.Inventory.Store.first singboxconfig.Inventory.Store.get_row
    singboxconfig.Inventory.Store.list_rows singboxconfig.Inventory.Methods.list_devices
    singboxconfig.Inventory.Methods.get_device singboxconfig.Inventory.Methods.list_rule_sets
    singboxconfig.Inventory.Table.find singboxconfig.Prelude.equal
    singboxconfig.Rules.parse_raw_rules singboxconfig.Rules.normalize_singbox
    singboxconfig.Rules.inline_rules singboxconfig.Rules.string_values
    singboxconfig.Rules.append_domain_lines singboxconfig.Rules.append_ip_cidr_lines
    singboxconfig.Rules.append_geoip_lines singboxconfig.Rules.append_process_lines
    singboxconfig.Rules.append_rule_lines singboxconfig.Rules.render_rules
    singboxconfig.Rules.render_lines singboxconfig.Rules.count_lines singboxconfig.Rules.contents
    singboxconfig.Rules.ip_rule_type singboxconfig.Rules.quote_value
    singboxconfig.Rules.field_warnings singboxconfig.Prelude.any singboxconfig.Prelude.Keys.has
    singboxconfig.Prelude.Map.lookup singboxconfig.Strings.trim_space
    singboxconfig.Strings.trim_left singboxconfig.Strings.trim_right singboxconfig.Strings.trim_step
    singboxconfig.Strings.is_space singboxconfig.Rules.Endpoint.parse_software
    singboxconfig.Rules.Endpoint.find_visible_rule_set singboxconfig.Rules.Endpoint.join
    singboxconfig.Rules.Endpoint.json_or_failed singboxconfig.Rules.Endpoint.text_or_failed
    singboxconfig.Rules.Endpoint.titled_by singboxconfig.Rules.Endpoint.render_for
    singboxconfig.Rules.Endpoint.answer_rule_set singboxconfig.Rules.Endpoint.rules_for
    singboxconfig.Rules.Endpoint.get_rules_by_software singboxconfig.Strings.contains
    singboxconfig.Strings.has_prefix
hidden_test = refl

count_lines_lem_example : count_lines json content ≡ total_of json (inline_rules json content)
count_lines_lem_example = count_lines_lem json content
