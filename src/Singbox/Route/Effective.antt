-- ===== src/Singbox/Route/Effective.antt =====
-- The rules and the rule sets of a route: which there are, and to what they refer.
use singboxconfig.Prelude.{
  Str, Bool, true, false, not, ◌&&◌, ◌||◌, List, [], ◌∷◌, none, some, ◌≡◌, refl, ◌∙◌, ap, arith,
  equal, equal_iff, if◌then◌else◌, any, any-append, any-keep_list, any-implies, any-never, keep,
}
use singboxconfig.Prelude.Keys.{has, has-add, add}
use singboxconfig.Prelude.Sort.{Sorting, any-sort_slice}
use singboxconfig.Strings.{is_empty, contains}
use singboxconfig.Entity.{RuleSet, rule_set_type_remote}
use singboxconfig.Entity.SingBox.{SingBoxOut, SingRouteRule, zero_rule}
use singboxconfig.Singbox.Outbounds.{get_tags_from_outbounds}
use singboxconfig.Singbox.Route.{
  Contents, rule_set_less, outbound_tags, effective, base_rules, rules_of, remote_entry,
  inline_entry, is_served, base_rule_sets, get_route,
}

has-outbound_tags :
    (tag : Str) (tags : List Str) (outbounds : List SingBoxOut)
    → is_empty tag ≡ false
    → has tag (outbound_tags tags outbounds)
      ≡ (has tag tags || has tag (get_tags_from_outbounds outbounds))
unfolding outbound_tags get_tags_from_outbounds has any
has-outbound_tags tag tags [] h = ground arith
has-outbound_tags tag tags (outbound ∷ outbounds) h =
    has-outbound_tags tag (if is_empty outbound.tag then tags else add outbound.tag tags) outbounds
      h
    ∙ ground (arith, has-add outbound.tag tag tags, equal_iff tag outbound.tag)

-- A rule set counts for a device: it is open to it, and its outbound is empty or exists.
abbrev pub is_effective : Str → List SingBoxOut → RuleSet → Bool
is_effective device outbounds rule_set =
    (is_empty rule_set.able_devices || contains rule_set.able_devices device)
    && (is_empty rule_set.outbound || has rule_set.outbound (get_tags_from_outbounds outbounds))

effective-keep :
    (device : Str) (outbounds : List SingBoxOut) (rule_sets : List RuleSet)
    → effective device (outbound_tags [] outbounds) rule_sets
      ≡ keep (is_effective device outbounds) rule_sets
unfolding effective keep has any
effective-keep device outbounds [] = refl
effective-keep device outbounds (rule_set ∷ rule_sets) = ground (
  arith,
  has-outbound_tags rule_set.outbound [] outbounds,
  effective-keep device outbounds rule_sets,
)

any-rules_of :
    (p : SingRouteRule → Bool) (rule_sets : List RuleSet)
    → any p (rules_of rule_sets)
      ≡ any (λ r. p (record zero_rule { rule_set = r.tag ∷ []; outbound = r.outbound })) rule_sets
unfolding rules_of any
any-rules_of p [] = refl
any-rules_of p (rule_set ∷ rule_sets) = ground (arith, any-rules_of p rule_sets)

-- The entry of a rule set can be output.
module _ (x : Contents) where
  abbrev pub has_entry : Str → RuleSet → Bool
  has_entry system_host rule_set =
      equal rule_set.rule_set_type rule_set_type_remote
      || is_served system_host (x.count_lines rule_set.content)
      || elim (x.inline_rules rule_set.content) [ none ↦ false | some rules ↦ true ]

  any-base_rule_sets :
      (tag device device_token system_host : Str) (rule_sets : List RuleSet)
      → any (λ e. equal tag e.tag) (base_rule_sets x device device_token system_host rule_sets)
        ≡ any (λ r. equal tag r.tag && has_entry system_host r) rule_sets
  unfolding base_rule_sets remote_entry inline_entry any
  any-base_rule_sets tag device device_token system_host [] = refl
  any-base_rule_sets tag device device_token system_host (rule_set ∷ rule_sets) =
      ground (arith, any-base_rule_sets tag device device_token system_host rule_sets)

  module _ (sorting : Sorting RuleSet) (device device_token system_host : Str)
      (rule_sets : List RuleSet) (outbounds : List SingBoxOut) where
    any-chosen :
        (q : RuleSet → Bool)
        → any q (
            effective device
              (outbound_tags [] outbounds)
              (sorting.sort_slice rule_set_less rule_sets))
          ≡ any (λ r. q r && is_effective device outbounds r) rule_sets
    any-chosen q =
        let sorted = sorting.sort_slice rule_set_less rule_sets in
        ap (any q) (effective-keep device outbounds sorted)
        ∙ any-keep_list q (is_effective device outbounds) sorted
        ∙ any-sort_slice sorting (λ r. q r && is_effective device outbounds r) rule_set_less
            rule_sets

    -- The rules of a route are the base rules and one rule for each rule set that counts for the
    -- device, whatever the order of the rule sets.
    pub any-get_route_rules :
        (p : SingRouteRule → Bool)
        → any p (get_route x sorting device device_token system_host rule_sets outbounds).rules ≡ (
            any p base_rules
            || any
                (λ r.
                  p (record zero_rule { rule_set = r.tag ∷ []; outbound = r.outbound })
                  && is_effective device outbounds r)
                rule_sets)
    unfolding get_route
    any-get_route_rules p =
        let q : RuleSet → Bool =
          λ r. p (record zero_rule { rule_set = r.tag ∷ []; outbound = r.outbound }) in
        let sorted = sorting.sort_slice rule_set_less rule_sets in
        any-append p base_rules (rules_of (effective device (outbound_tags [] outbounds) sorted))
        ∙ ap (λ b. any p base_rules || b)
            (any-rules_of p (effective device (outbound_tags [] outbounds) sorted) ∙ any-chosen q)

    -- A tag has an entry in the route's rule sets exactly where a rule set of that tag counts for
    -- the device and is remote, is served by this service or has a valid content.
    pub any-get_route_rule_set :
        (tag : Str)
        → any
            (λ e. equal tag e.tag)
            (get_route x sorting device device_token system_host rule_sets outbounds).rule_set
          ≡ any
              (λ r. equal tag r.tag && has_entry system_host r && is_effective device outbounds r)
              rule_sets
    unfolding get_route
    any-get_route_rule_set tag =
        any-base_rule_sets tag device device_token system_host (
          effective device (outbound_tags [] outbounds)
            (sorting.sort_slice rule_set_less rule_sets))
        ∙ any-chosen (λ r. equal tag r.tag && has_entry system_host r)

    -- Every rule set of a route is used by one of its rules.
    pub get_route-used :
        (tag : Str)
        → any
            (λ e. equal tag e.tag)
            (get_route x sorting device device_token system_host rule_sets outbounds).rule_set
          ≡ true
        → any
            (λ rule. has tag rule.rule_set)
            (get_route x sorting device device_token system_host rule_sets outbounds).rules
          ≡ true
    unfolding has any
    get_route-used tag h = ground (
      arith,
      any-get_route_rule_set tag,
      any-get_route_rules (λ rule. has tag rule.rule_set),
      any-implies
          (λ r. equal tag r.tag && has_entry system_host r && is_effective device outbounds r)
          (λ r. has tag (r.tag ∷ []) && is_effective device outbounds r) (λ r e. ground arith)
          rule_sets,
    )

    -- No rule for a rule set of a route refers to an outbound that does not exist.
    pub get_route-outbounds :
        any
          (λ rule.
            any (λ tag. true) rule.rule_set
            && not (is_empty rule.outbound)
            && not (has rule.outbound (get_tags_from_outbounds outbounds)))
          (get_route x sorting device device_token system_host rule_sets outbounds).rules
        ≡ false
    unfolding any
    get_route-outbounds =
        let dangles : SingRouteRule → Bool = λ rule.
          any (λ tag. true) rule.rule_set
          && not (is_empty rule.outbound)
          && not (has rule.outbound (get_tags_from_outbounds outbounds)) in
        any-get_route_rules dangles
        ∙ any-never
            (λ r.
              dangles (record zero_rule { rule_set = r.tag ∷ []; outbound = r.outbound })
              && is_effective device outbounds r)
            (λ r. ground arith) rule_sets
