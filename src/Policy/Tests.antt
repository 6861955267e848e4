-- ===== src/Policy/Tests.antt =====
-- Targets under the policy of the fixtures.
use enterprise_netsec_iac.Common.{
  ◌≡◌, refl, ◌↔◌, ok, err, error, policy_error, true, none, ◌∷◌, [], some,
}
use enterprise_netsec_iac.Policy.Protection.{
  block_ip, ip, Target, assert_target_allowed, address_allowed,
}
use enterprise_netsec_iac.Platform.{ipv6}
use enterprise_netsec_iac.Policy.Eligible.{IsEligible, assert_target_allowed_iff}
use enterprise_netsec_iac.Value.{Value, text, int, bool, dict, list, cons, nil, end, field}
use enterprise_netsec_iac.Value.Number.{pos}
use enterprise_netsec_iac.Policy.Rules.{requirements_from, requirement_from_mapping}
use enterprise_netsec_iac.Policy.Catalog.{PolicyCatalog, catalog_from_mapping, rules_from}
use enterprise_netsec_iac.Policy.Loaded.{IsLoaded, catalog_from_mapping-IsLoaded}
use enterprise_netsec_iac.Fixtures.{toy_platform, toy_protections, toy_catalog}

abbrev address : Target
address = record { type = ip; value = "203.0.113.9" }

protected_resolver :
    assert_target_allowed toy_platform toy_protections block_ip
      (record { type = ip; value = "203.0.113.53" })
    ≡ error policy_error "target is protected DNS, NTP, RADIUS, SOC, or management infrastructure"
unfolding assert_target_allowed
protected_resolver = refl

assert_target_allowed_iff_example :
    (assert_target_allowed toy_platform toy_protections block_ip address ≡ ok tt)
    ↔ IsEligible toy_platform toy_protections block_ip address
assert_target_allowed_iff_example =
    assert_target_allowed_iff toy_platform toy_protections block_ip address

-- A document with one rule and no protections.
abbrev rule : Value
rule = dict (
    field "id" (text "contain-ip") (
      field "version" (text "1") (
        field "enabled" (bool true) (
          field "action" (text "block_ip") (
            field "ttl_seconds" (int (pos 300)) (
              field "when"
                (dict (
                  field "ai_score_gte" (int (pos 1)) (
                    field "require_any"
                      (list (cons (dict (field "type" (text "suricata") end)) nil)) end)))
                end))))))

abbrev defaults : Value
defaults = dict (
    field "protections" (dict end) (
      field "rate_limit"
        (dict (field "max_actions" (int (pos 1)) (field "window_seconds" (int (pos 60)) end)))
        (field "dedup_seconds" (int (pos 600)) (
          field "command_valid_for_seconds" (int (pos 120))
            (field "evidence_max_age_seconds" (int (pos 600)) end)))))

abbrev document : Value
document = dict (
    field "schema_version" (text "response-policy-set-v1")
      (field "defaults" defaults (field "policies" (list (cons rule nil)) end)))

abbrev loaded : PolicyCatalog
loaded = elim (catalog_from_mapping toy_platform document "in-memory") [
  | ok c ↦ c
  | err e ↦ toy_catalog
]

catalog_from_mapping-IsLoaded_example : IsLoaded loaded
unfolding catalog_from_mapping requirements_from requirement_from_mapping rules_from
catalog_from_mapping-IsLoaded_example =
    catalog_from_mapping-IsLoaded toy_platform document "in-memory" {c = loaded} refl

-- An address with a zone is not the protected address without one.
zone_passes :
    address_allowed toy_platform
      (record toy_protections { protected_ips = ipv6 53 none ∷ [] })
      (ipv6 53 (some "eth0"))
    ≡ ok tt
unfolding address_allowed
zone_passes = refl
