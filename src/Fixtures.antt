-- ===== src/Fixtures.antt =====
-- A concrete platform, catalog and command, for the tests.
use Prim.Native.String.{◌++◌ as concat}
use enterprise_netsec_iac.Common.{
  ◌==◌, ◌*◌, String, true, false, none, some, [], ◌∷◌, str_eq, if◌then◌else◌, ok, Option,
}
use enterprise_netsec_iac.Value.{Value, int, text, dict, bool, end, field}
use enterprise_netsec_iac.Value.Number.{pos, nine_tenths}
use enterprise_netsec_iac.Platform.{Platform, Address, ipv4, AddressClass, second}
use enterprise_netsec_iac.Policy.Protection.{ProtectionPolicy, block_ip}
use enterprise_netsec_iac.Policy.Rules.{ResponsePolicy}
use enterprise_netsec_iac.Policy.Catalog.{PolicyCatalog}
use enterprise_netsec_iac.Orchestrator.Machine.{Environment, Reply, returned}

abbrev public_class : AddressClass
public_class = record {
  is_unspecified = false;
  is_loopback = false;
  is_link_local = false;
  is_multicast = false;
  is_reserved = false;
  is_private = false;
}

abbrev read_address : String → Option Address
read_address s =
    if str_eq s "203.0.113.9"
    then some (ipv4 3405803785)
    else if str_eq s "203.0.113.53"
    then some (ipv4 3405803829)
    else none

-- Addresses and instants are read from a table, and a digest marks the text.
abbrev pub toy_platform : Platform
toy_platform = record {
  ip_address = read_address;
  address_text = λ a. "203.0.113.9";
  ip_network = λ s. none;
  network_text = λ n. "";
  address_class = λ a. public_class;
  fromisoformat = λ s.
      if str_eq s "T0"
      then some (record { micros = 1000 * second; aware = true })
      else if str_eq s "T120"
      then some (record { micros = 1120 * second; aware = true })
      else if str_eq s "T60"
      then some (record { micros = 1060 * second; aware = true })
      else none;
  isoformat = λ t. if t == 1000 * second then "T0" else "T120";
  strip = λ s. s;
  lower = λ s. s;
  text_prefix = λ s n. s;
  text_length = λ s. 11;
  sha256 = λ s. concat "#" s;
  canonical_json = λ v. "json";
}

abbrev pub toy_protections : ProtectionPolicy
toy_protections = record {
  allowlisted_ips = [];
  allowlisted_networks = [];
  protected_ips = ipv4 3405803829 ∷ [];
  protected_networks = [];
  protected_hosts = [];
  allowed_isolation_hosts = [];
  block_private_ip_targets = true;
}

abbrev pub toy_rule : ResponsePolicy
toy_rule = record {
  id = "contain-ip";
  version = "1";
  action = block_ip;
  ttl_seconds = 300;
  min_ai_score = nine_tenths;
  require_any = record { kind = "suricata"; min_severity = some 3; min_count = none } ∷ [];
  sha256 = "#json";
}

abbrev pub toy_catalog : PolicyCatalog
toy_catalog = record {
  protections = toy_protections;
  rate_limit = record { max_actions = 1; window_seconds = 60 };
  dedup_seconds = 600;
  command_valid_for_seconds = 120;
  evidence_max_age_seconds = 600;
  policies = toy_rule ∷ [];
  source_sha256 = "#policy";
}

abbrev pub command_at : String → String → Value
command_at key address = dict (
    field "schema_version" (text "response-command-v1") (
      field "request_id" (text "request-1") (
        field "decision_event_id" (text "event-1") (
          field "correlation_id" (text "correlation-1") (
            field "policy"
              (dict (
                field "id" (text "contain-ip")
                  (field "version" (text "1") (field "sha256" (text "#json") end))))
              (field "target" (dict (field "type" (text "ip") (field "value" (text address) end))) (
                field "action" (text "block_ip") (
                  field "ttl_seconds" (int (pos 300)) (
                    field "allowlist_checked" (bool true) (
                      field "rollback_required" (bool true) (
                        field "idempotency_key" (text key) (
                          field "authorization"
                            (dict (
                              field "issuer" (text "decision_engine") (
                                field "key_id" (text "key-1") (
                                  field "signature" (text "sig") (
                                    field "issued_at" (text "T0")
                                      (field "expires_at" (text "T60") end))))))
                            end))))))))))))

abbrev pub toy_command : Value
toy_command = command_at "key-1" "203.0.113.9"

abbrev pub toy_environment : Environment
toy_environment = record {
  lib = toy_platform;
  catalog = toy_catalog;
  authenticate = λ v now. ok tt;
  recovery_reference = λ c. ok "reference-1";
}

abbrev pub success : Reply
success = returned (record {
  ok = true;
  adapter_reference = some "reference-1";
  evidence_refs = "evidence-1" ∷ [];
  code = none;
  message = none;
})
