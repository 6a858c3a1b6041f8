-- ===== src/Singbox/Defaults.antt =====
-- convert/singbox/dns.go and experimental.go: the DNS configuration and the experimental options.
use singboxconfig.Prelude.{
  Str, true, List, [], ◌∷◌, Option, none, some, ◌≡◌, refl, codes, equal, if◌then◌else◌,
}
use singboxconfig.Strings.{is_empty}
use singboxconfig.Entity.SingBox.{SingDns, SingDnsServer, SingDnsRule, SingExperimental}

abbrev dns_rule : SingDnsRule
dns_rule = record {
  outbound = [];
  server = [];
  clash_mode = [];
  rule_set = [];
  protocol = [];
  action = [];
}

abbrev dns_servers : List SingDnsServer
dns_servers =
    record {
      tag = codes "dns_proxy";
      address = codes "https://1.1.1.1/dns-query";
      address_resolver = codes "dns_resolver";
      strategy = codes "ipv4_only";
      detour = codes "general";
    }
    ∷ record {
      tag = codes "dns_direct";
      address = codes "h3://dns.alidns.com/dns-query";
      address_resolver = codes "dns_resolver";
      strategy = codes "ipv4_only";
      detour = codes "direct";
    }
    ∷ record {
      tag = codes "dns_block";
      address = codes "rcode://refused";
      address_resolver = [];
      strategy = [];
      detour = [];
    }
    ∷ record {
      tag = codes "dns_resolver";
      address = codes "223.5.5.5";
      address_resolver = [];
      strategy = codes "ipv4_only";
      detour = codes "direct";
    }
    ∷ []

abbrev dns_rules : List SingDnsRule
dns_rules =
    record dns_rule { outbound = codes "any"; server = codes "dns_resolver" }
    ∷ record dns_rule { clash_mode = codes "direct"; server = codes "dns_direct" }
    ∷ record dns_rule { clash_mode = codes "global"; server = codes "dns_proxy" }
    ∷ record dns_rule { rule_set = codes "cnip"; server = codes "dns_direct" }
    ∷ record dns_rule { rule_set = codes "cnsite"; server = codes "dns_direct" }
    ∷ []

unfoldable pub get_default_dns : SingDns
get_default_dns = record { servers = dns_servers; rules = dns_rules; final = codes "dns_proxy" }

or_default_dns : Option SingDns → SingDns
or_default_dns none = get_default_dns
or_default_dns (some dns) = dns

-- `json.Unmarshal` is external.
unfoldable pub resolve_dns : (Str → Option SingDns) → Str → SingDns
unfolding or_default_dns
resolve_dns unmarshal config_json =
    if is_empty config_json then get_default_dns else or_default_dns (unmarshal config_json)

abbrev device_phone : Str
device_phone = codes "phone"

abbrev device_tv : Str
device_tv = codes "tv"

unfoldable pub get_experimental : Str → Option SingExperimental
get_experimental device =
    if equal device device_phone
    then none
    else some (record {
      cache_file = record { enabled = true };
      clash_api = record {
        external_controller =
            (if equal device device_tv then codes "192.168.10.66:9090" else codes "127.0.0.1:9090");
        external_ui = codes "ui";
        external_ui_download_url = codes "https://file.xsdhy.com/files/Yacd-meta-gh-pages.zip";
        external_ui_download_detour = codes "direct";
        default_mode = codes "rule";
      };
    })

defaults_tests :
    ((resolve_dns (λ s. none) (codes "{")).final ≡ codes "dns_proxy")
    × (get_experimental (codes "phone") ≡ none)
unfolding resolve_dns get_default_dns get_experimental equal
defaults_tests = (refl, refl)
