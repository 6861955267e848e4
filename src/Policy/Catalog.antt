-- ===== src/Policy/Catalog.antt =====
-- response/policy.py, `PolicyCatalog`: the whole policy document, and the digests that bind each rule to
-- the safeguards it was loaded with.
use enterprise_netsec_iac.Common.{
  ℕ, ltb, String, Bool, false, Option, none, some, List, [], ◌∷◌, map, str_eq, if◌then◌else◌,
  Result, ok, error, policy_error,
}
use enterprise_netsec_iac.Common.Pure.{◌>>=◌, ◌>>◌, require, refuse}
use enterprise_netsec_iac.Value.{
  Value, Items, Fields, get, has_exactly, bool, int, text, list, dict, nil, cons, end, field,
  as_text,
}
use enterprise_netsec_iac.Value.Number.{pos}
use enterprise_netsec_iac.Platform.{Platform, sha256_hex}
use enterprise_netsec_iac.Policy.Fields.{
  require_mapping, require_positive_int, sorted, texts, all_distinct,
}
use enterprise_netsec_iac.Policy.Protection.{ProtectionPolicy, protections_from_mapping}
use enterprise_netsec_iac.Policy.Rules.{
  RateLimit, ResponsePolicy, rate_limit_from_mapping, policy_from_mapping,
}

pub record PolicyCatalog : Type 0 where
  pub protections : ProtectionPolicy
  pub rate_limit : RateLimit
  pub dedup_seconds : ℕ
  pub command_valid_for_seconds : ℕ
  pub evidence_max_age_seconds : ℕ
  pub policies : List ResponsePolicy
  pub source_sha256 : String

-- `self.policies[policy_id]`; the identifiers are unique in a loaded catalog.
unfoldable pub find_policy : String → List ResponsePolicy → Option ResponsePolicy
find_policy i [] = none
find_policy i (p ∷ ps) = if str_eq p.id i then some p else find_policy i ps

unfoldable pub policy : PolicyCatalog → String → Result ResponsePolicy
unfolding find_policy
policy c i = elim (find_policy i c.policies) [
  | none ↦ error policy_error "unknown response policy"
  | some p ↦ ok p
]

module _ (lib : Platform) where
  abbrev sorted_list : List String → Value
  sorted_list names = list (texts (sorted names))

  unfoldable pub safeguard_material : ProtectionPolicy → RateLimit → ℕ → ℕ → ℕ → Value
  unfolding sorted
  safeguard_material p r dedup valid age = dict (
      field "protections"
        (dict (
          field "allowlisted_ips" (sorted_list (map lib.address_text p.allowlisted_ips)) (
            field "allowlisted_networks" (sorted_list (map lib.network_text p.allowlisted_networks))
              (field "protected_ips" (sorted_list (map lib.address_text p.protected_ips)) (
                field "protected_networks" (sorted_list (map lib.network_text p.protected_networks))
                  (field "protected_hosts" (sorted_list p.protected_hosts) (
                    field "allowed_isolation_hosts" (sorted_list p.allowed_isolation_hosts)
                      end)))))))
        (field "block_private_ip_targets" (bool p.block_private_ip_targets) (
          field "rate_limit"
            (dict (
              field "max_actions" (int (pos r.max_actions))
                (field "window_seconds" (int (pos r.window_seconds)) end)))
            (field "dedup_seconds" (int (pos dedup)) (
              field "command_valid_for_seconds" (int (pos valid))
                (field "evidence_max_age_seconds" (int (pos age)) end))))))

  -- `replace(rule, sha256=…)`
  abbrev pub bind_safeguards : Value → ResponsePolicy → ResponsePolicy
  bind_safeguards safeguards rule = record rule {
    sha256 =
        sha256_hex lib
          (dict (field "rule_sha256" (text rule.sha256) (field "safeguards" safeguards end)));
  }

  unfoldable pub rules_from : Items → Result (List ResponsePolicy)
  unfolding policy_from_mapping
  rules_from nil = ok []
  rules_from (cons v vs) = do
    rule ← policy_from_mapping lib v
    rules ← rules_from vs
    ok (rule ∷ rules)

  unfoldable pub policies_from : Value → Result (List ResponsePolicy)
  unfolding rules_from
  policies_from (list (cons v vs)) = rules_from (cons v vs)
  policies_from _ = error policy_error "policies must be a non-empty list"

  abbrev pub is_schema : Value → String → Bool
  is_schema v name = elim (as_text v) [ none ↦ false | some s ↦ str_eq s name ]

  -- The three durations of the defaults.
  unfoldable pub read_limits : Fields → Result (ℕ × ℕ × ℕ)
  unfolding require_positive_int
  read_limits defaults = do
    dedup ← require_positive_int (get "dedup_seconds" defaults) 60
    valid ← require_positive_int (get "command_valid_for_seconds" defaults) 30
    refuse (ltb 900 valid) policy_error "command_valid_for_seconds must be <= 900"
    age ← require_positive_int (get "evidence_max_age_seconds" defaults) 30
    refuse (ltb 86400 age) policy_error "evidence_max_age_seconds must be <= 86400"
    ok (dedup, valid, age)

  -- The rules under the digests of their safeguards, each identifier once.
  unfoldable pub bind_rules : Value → List ResponsePolicy → Result (List ResponsePolicy)
  bind_rules safeguards rules = do
    let policies = map (bind_safeguards safeguards) rules
    require (all_distinct (map (λ p. p.id) policies)) policy_error
        "policy identifiers must be unique"
    ok policies

  unfoldable pub catalog_from_mapping : Value → String → Result PolicyCatalog
  unfolding require_mapping read_limits bind_rules protections_from_mapping rate_limit_from_mapping
      policies_from safeguard_material
  catalog_from_mapping v source = do
    mapping ← require_mapping v
    require (has_exactly ("schema_version" ∷ "defaults" ∷ "policies" ∷ []) mapping) policy_error
        "policy document must contain only schema_version, defaults, and policies"
    require (is_schema (get "schema_version" mapping) "response-policy-set-v1") policy_error
        "unsupported response policy schema version"
    defaults ← require_mapping (get "defaults" mapping)
    require
        (has_exactly
          ("protections" ∷ "rate_limit" ∷ "dedup_seconds" ∷ "command_valid_for_seconds"
            ∷ "evidence_max_age_seconds" ∷ [])
          defaults)
        policy_error "defaults has unsupported or missing fields"
    (dedup, valid, age) ← read_limits defaults
    protections ← protections_from_mapping lib (get "protections" defaults)
    rate ← rate_limit_from_mapping (get "rate_limit" defaults)
    rules ← policies_from (get "policies" mapping)
    policies ← bind_rules (safeguard_material protections rate dedup valid age) rules
    ok (record {
      protections = protections;
      rate_limit = rate;
      dedup_seconds = dedup;
      command_valid_for_seconds = valid;
      evidence_max_age_seconds = age;
      policies = policies;
      source_sha256 = source;
    })
