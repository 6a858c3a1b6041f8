-- ===== src/Rules/Counted.antt =====
-- How many lines a content is rendered to.
use singboxconfig.Prelude.{
  ℕ, ◌+◌, Str, List, [], ◌∷◌, ◌++◌, Option, none, some, codes, map, length, ◌≡◌, refl, ap, arith,
}
use singboxconfig.Rules.{
  Json, supported_fields, string_values, append_domain_lines, append_ip_cidr_lines,
  append_geoip_lines, append_process_lines, append_rule_lines, append_rule, render_rules,
  rendered_of, render_lines, line_count, count_lines, inline_rules, parse_raw_rules,
}

module _ {A B : Type 0} where
  length-append_map :
      (f : A → B) (ys : List B) (xs : List A) → length (ys ++ map f xs) ≡ length ys + length xs
  length-append_map f [] [] = refl
  length-append_map f [] (x ∷ xs) = ground (arith, length-append_map f [] xs)
  length-append_map f (y ∷ ys) xs = ground (arith, length-append_map f ys xs)

module _ (x : Json) where
  abbrev field_count : List (Str × Str) → List Str → ℕ
  field_count fields [] = 0
  field_count fields (field ∷ names) =
      length (string_values x fields field) + field_count fields names

  -- the values of the supported fields of a rule, none where it is no object
  abbrev pub rule_count : Option (List (Str × Str)) → ℕ
  rule_count none = 0
  rule_count (some fields) = field_count fields supported_fields

  abbrev pub total : List Str → ℕ
  total [] = 0
  total (raw ∷ rules) = rule_count (x.unmarshal_object raw) + total rules

  abbrev pub total_of : Option (List Str) → Option ℕ
  total_of none = none
  total_of (some rules) = some (total rules)

  length-append_domain_lines :
      (lines : List Str) (fields : List (Str × Str)) (field rule_type : Str)
      → length (append_domain_lines x lines fields field rule_type)
        ≡ length lines + length (string_values x fields field)
  unfolding append_domain_lines
  length-append_domain_lines lines fields field rule_type = length-append_map _ lines _

  length-append_process_lines :
      (lines : List Str) (fields : List (Str × Str)) (field : Str)
      → length (append_process_lines x lines fields field)
        ≡ length lines + length (string_values x fields field)
  unfolding append_process_lines
  length-append_process_lines lines fields field = length-append_map _ lines _

  length-append_ip_cidr_lines :
      (lines : List Str) (fields : List (Str × Str))
      → length (append_ip_cidr_lines x lines fields)
        ≡ length lines + length (string_values x fields (codes "ip_cidr"))
  unfolding append_ip_cidr_lines
  length-append_ip_cidr_lines lines fields = length-append_map _ lines _

  length-append_geoip_lines :
      (lines : List Str) (fields : List (Str × Str))
      → length (append_geoip_lines x lines fields)
        ≡ length lines + length (string_values x fields (codes "geoip"))
  unfolding append_geoip_lines
  length-append_geoip_lines lines fields = length-append_map _ lines _

  length-append_rule_lines :
      (lines : List Str) (fields : List (Str × Str))
      → length (append_rule_lines x lines fields)
        ≡ length lines + field_count fields supported_fields
  unfolding append_rule_lines
  length-append_rule_lines lines fields =
      let a = append_domain_lines x lines fields (codes "domain") (codes "DOMAIN") in
      let b = append_domain_lines x a fields (codes "domain_suffix") (codes "DOMAIN-SUFFIX") in
      let c = append_domain_lines x b fields (codes "domain_keyword") (codes "DOMAIN-KEYWORD") in
      let d = append_domain_lines x c fields (codes "domain_regex") (codes "DOMAIN-REGEX") in
      let e = append_ip_cidr_lines x d fields in
      let f = append_geoip_lines x e fields in
      let g = append_process_lines x f fields (codes "process_name") in
      omega (
        arith,
        length-append_domain_lines lines fields (codes "domain") (codes "DOMAIN"),
        length-append_domain_lines a fields (codes "domain_suffix") (codes "DOMAIN-SUFFIX"),
        length-append_domain_lines b fields (codes "domain_keyword") (codes "DOMAIN-KEYWORD"),
        length-append_domain_lines c fields (codes "domain_regex") (codes "DOMAIN-REGEX"),
        length-append_ip_cidr_lines d fields,
        length-append_geoip_lines e fields,
        length-append_process_lines f fields (codes "process_name"),
        length-append_process_lines g fields (codes "process_path"),
      )

  length-append_rule :
      (fields : Option (List (Str × Str))) (lines warnings : List Str)
      → length (append_rule x fields (lines, warnings)).0 ≡ length lines + rule_count fields
  unfolding append_rule
  length-append_rule none lines warnings = ground arith
  length-append_rule (some fields) lines warnings = length-append_rule_lines lines fields

  length-render_rules :
      (rules : List Str) (rendered : List Str × List Str)
      → length (render_rules x rules rendered).0 ≡ length rendered.0 + total rules
  unfolding render_rules
  length-render_rules [] rendered = ground arith
  length-render_rules (raw ∷ rules) (lines, warnings) = omega (
    arith,
    length-render_rules rules (append_rule x (x.unmarshal_object raw) (lines, warnings)),
    length-append_rule (x.unmarshal_object raw) lines warnings,
  )

  line_count-rendered_of :
      (rules : Option (List Str)) → line_count x (rendered_of x rules) ≡ total_of rules
  unfolding line_count rendered_of
  line_count-rendered_of none = refl
  line_count-rendered_of (some rules) = ap some (omega (arith, length-render_rules rules ([], [])))

  -- A content has a number of lines exactly where it has inline rules, and the number is that of
  -- the values of the supported fields of those rules that are objects.
  pub count_lines_lem : (content : Str) → count_lines x content ≡ total_of (inline_rules x content)
  unfolding count_lines render_lines inline_rules
  count_lines_lem content = line_count-rendered_of (parse_raw_rules x content)
