-- ===== src/Rules.antt =====
-- convert/ruleset/ruleset.go: the content of a rule set, as JSON text, and the lines that it is
-- rendered to. BuildRuleSetURL is in Singbox/Route.
pub mod Counted
pub mod Endpoint
pub mod Marshalled
pub mod Shown
pub mod Answered
pub mod Fetched
pub mod Tests
use singboxconfig.Prelude.{
  ℕ, ◌==◌, Str, Bool, true, false, not, ◌||◌, List, [], ◌∷◌, ◌++◌, Option, none, some, codes, map,
  any, length, if◌then◌else◌,
}
use singboxconfig.Prelude.Keys.{has}
use singboxconfig.Prelude.Map.{lookup}
use singboxconfig.Strings.{trim_space, is_empty}
use singboxconfig.Singbox.Route.{Contents}

-- The external code: `json.Unmarshal` into an array of raw messages (`null` gives none of them),
-- into an object (its entries, in the order in which a range visits them) and into an array of
-- strings; `json.Marshal` of a source rule set with its version and rules; `net.ParseCIDR`, with
-- `ip.To4() != nil` of its result; `strings.ToUpper`; and the escapes of net/url.
pub record Json : Type 0 where
  pub unmarshal_array : Str → Option (List Str)
  pub unmarshal_object : Str → Option (List (Str × Str))
  pub unmarshal_texts : Str → Option (List Str)
  pub marshal_source : ℕ → List Str → Option Str
  pub parse_cidr : Str → Option Bool
  pub to_upper : Str → Str
  pub path_escape : Str → Str
  pub query_escape : Str → Str

-- `LineRuleType`
abbrev pub line_rule_domain : Str
line_rule_domain = codes "DOMAIN"

abbrev pub line_rule_domain_suffix : Str
line_rule_domain_suffix = codes "DOMAIN-SUFFIX"

abbrev pub line_rule_domain_keyword : Str
line_rule_domain_keyword = codes "DOMAIN-KEYWORD"

abbrev pub line_rule_domain_regex : Str
line_rule_domain_regex = codes "DOMAIN-REGEX"

abbrev pub line_rule_ip_cidr : Str
line_rule_ip_cidr = codes "IP-CIDR"

abbrev pub line_rule_ip_cidr6 : Str
line_rule_ip_cidr6 = codes "IP-CIDR6"

abbrev pub line_rule_geoip : Str
line_rule_geoip = codes "GEOIP"

abbrev pub line_rule_process_name : Str
line_rule_process_name = codes "PROCESS-NAME"

abbrev pub geoip_no_resolve : Str
geoip_no_resolve = codes "no-resolve"

abbrev pub supported_fields : List Str
supported_fields =
    codes "domain"
    ∷ codes "domain_suffix"
    ∷ codes "domain_keyword"
    ∷ codes "domain_regex"
    ∷ codes "ip_cidr"
    ∷ codes "geoip"
    ∷ codes "process_name"
    ∷ codes "process_path"
    ∷ []

-- `ContainsAny(value, " \t/\\")`
unfoldable pub quote_value : Str → Str
quote_value value =
    if any (λ c. c == b' ' || c == b'\t' || c == b'/' || c == b'\\') value
    then codes "\"" ++ value ++ codes "\""
    else value

-- the loop of `stringValues`
trim_values : List Str → List Str
trim_values [] = []
trim_values (raw ∷ values) =
    let value = trim_space raw in
    let rest = trim_values values in if is_empty value then rest else value ∷ rest

unfoldable pub ip_rule_type : Option Bool → Str
ip_rule_type none = line_rule_ip_cidr
ip_rule_type (some is_v4) = if is_v4 then line_rule_ip_cidr else line_rule_ip_cidr6

-- the loop over the fields of a rule
unfoldable pub field_warnings : List (Str × Str) → List Str
field_warnings [] = []
field_warnings ((key, value) ∷ fields) =
    let rest = field_warnings fields in
    if has key supported_fields
    then rest
    else (codes "ruleset: unsupported field skipped: " ++ key) ∷ rest

module _ (x : Json) where
  rules_of_field : Str → Option Str → Option (List Str)
  rules_of_field trimmed none = some (trimmed ∷ [])
  rules_of_field trimmed (some raw) = x.unmarshal_array raw

  rules_of_object : Str → Option (List (Str × Str)) → Option (List Str)
  unfolding rules_of_field
  rules_of_object trimmed none = none
  rules_of_object trimmed (some fields) = rules_of_field trimmed (lookup (codes "rules") fields)

  -- the switch on the first byte
  rules_of_trimmed : Str → Option (List Str)
  unfolding rules_of_object
  rules_of_trimmed [] = none
  rules_of_trimmed (c ∷ rest) =
      if c == b'['
      then x.unmarshal_array (c ∷ rest)
      else if c == b'{'
      then rules_of_object (c ∷ rest) (x.unmarshal_object (c ∷ rest))
      else none

  -- `none` is an error; no caller asks which.
  unfoldable pub parse_raw_rules : Str → Option (List Str)
  unfolding rules_of_trimmed
  parse_raw_rules content = rules_of_trimmed (trim_space content)

  marshalled : Option (List Str) → Option Str
  marshalled none = none
  marshalled (some rules) = x.marshal_source 1 rules

  unfoldable pub normalize_singbox : Str → Option Str
  unfolding marshalled parse_raw_rules
  normalize_singbox content = marshalled (parse_raw_rules content)

  unfoldable pub inline_rules : Str → Option (List Str)
  unfolding parse_raw_rules
  inline_rules content = parse_raw_rules content

  texts_or_none : Option (List Str) → List Str
  unfolding trim_values
  texts_or_none none = []
  texts_or_none (some values) = trim_values values

  values_of : Option Str → List Str
  unfolding texts_or_none
  values_of none = []
  values_of (some raw) = texts_or_none (x.unmarshal_texts raw)

  unfoldable pub string_values : List (Str × Str) → Str → List Str
  unfolding values_of
  string_values fields field = values_of (lookup field fields)

  unfoldable pub append_domain_lines : List Str → List (Str × Str) → Str → Str → List Str
  unfolding string_values
  append_domain_lines lines fields field rule_type =
      lines ++ map (λ value. rule_type ++ codes "," ++ value) (string_values fields field)

  unfoldable pub append_ip_cidr_lines : List Str → List (Str × Str) → List Str
  unfolding string_values
  append_ip_cidr_lines lines fields =
      lines
      ++ map (λ cidr. ip_rule_type (x.parse_cidr cidr) ++ codes "," ++ cidr)
          (string_values fields (codes "ip_cidr"))

  unfoldable pub append_geoip_lines : List Str → List (Str × Str) → List Str
  unfolding string_values
  append_geoip_lines lines fields =
      lines
      ++ map
          (λ value.
            line_rule_geoip ++ codes "," ++ x.to_upper value ++ codes "," ++ geoip_no_resolve)
          (string_values fields (codes "geoip"))

  unfoldable pub append_process_lines : List Str → List (Str × Str) → Str → List Str
  unfolding string_values
  append_process_lines lines fields field =
      lines
      ++ map (λ value. line_rule_process_name ++ codes "," ++ quote_value value)
          (string_values fields field)

  -- the lines of one rule that is an object
  unfoldable pub append_rule_lines : List Str → List (Str × Str) → List Str
  append_rule_lines lines fields =
      let a = append_domain_lines lines fields (codes "domain") line_rule_domain in
      let b = append_domain_lines a fields (codes "domain_suffix") line_rule_domain_suffix in
      let c = append_domain_lines b fields (codes "domain_keyword") line_rule_domain_keyword in
      let d = append_domain_lines c fields (codes "domain_regex") line_rule_domain_regex in
      let e = append_ip_cidr_lines d fields in
      let f = append_geoip_lines e fields in
      let g = append_process_lines f fields (codes "process_name") in
      append_process_lines g fields (codes "process_path")

  -- one turn of the loop over the rules, on the lines and the warnings so far
  append_rule : Option (List (Str × Str)) → List Str × List Str → List Str × List Str
  append_rule none (lines, warnings) =
      (lines, warnings ++ (codes "ruleset: skip non-object rule item" ∷ []))
  append_rule (some fields) (lines, warnings) =
      (append_rule_lines lines fields, warnings ++ field_warnings fields)

  unfoldable pub render_rules : List Str → List Str × List Str → List Str × List Str
  unfolding append_rule
  render_rules [] rendered = rendered
  render_rules (raw ∷ rules) rendered =
      render_rules rules (append_rule (x.unmarshal_object raw) rendered)

  rendered_of : Option (List Str) → Option (List Str × List Str)
  unfolding render_rules
  rendered_of none = none
  rendered_of (some rules) = some (render_rules rules ([], []))

  -- the lines and the warnings
  unfoldable pub render_lines : Str → Option (List Str × List Str)
  unfolding rendered_of parse_raw_rules
  render_lines content = rendered_of (parse_raw_rules content)

  line_count : Option (List Str × List Str) → Option ℕ
  line_count none = none
  line_count (some (lines, warnings)) = some (length lines)

  unfoldable pub count_lines : Str → Option ℕ
  unfolding line_count render_lines
  count_lines content = line_count (render_lines content)

  -- what the route of a device takes of this file
  unfoldable pub contents : Contents
  contents = record {
    count_lines = count_lines;
    inline_rules = inline_rules;
    path_escape = x.path_escape;
    query_escape = x.query_escape;
  }
