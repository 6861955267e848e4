-- ===== src/Adapters/Tests.antt =====
-- The adapters on two firewalls and an endpoint, and each theorem at one run.
use enterprise_netsec_iac.Adapters.Apply.{apply}
use enterprise_netsec_iac.Adapters.Release.{verify, revert}
use enterprise_netsec_iac.Adapters.Applied.{
  Confirmed, Compensated, apply_confirms, apply_compensates,
}
use enterprise_netsec_iac.Adapters.Reverted.{Reports, IsReleased, verify_iff, revert_releases}
use enterprise_netsec_iac.Value.{Fields, end, field, text, int, dict}
use enterprise_netsec_iac.Adapters.Wazuh
use enterprise_netsec_iac.Value.Number.{pos}
use enterprise_netsec_iac.Adapters.{success, failure}
use enterprise_netsec_iac.Adapters.Wazuh.{WazuhClient, isolation_outcome_iff}
use enterprise_netsec_iac.Adapters.Blocklist.{
  BlocklistPeer, Firewall, check_peers, lifetime, command_address, idempotency_key,
}
use enterprise_netsec_iac.Common.{
  String, List, ◌≡◌, ok, some, refl, [], ◌∷◌, err, All, true, Bool, false, ◌↔◌, contains, not,
  Result, map,
}
use enterprise_netsec_iac.Ownership.{
  Peer, Weather, calm, lost_after, owned, add_soc_blocklist_address, soc_blocklist_contains,
  remove_soc_blocklist_address,
}
use enterprise_netsec_iac.Adapters.Spared.{
  Task, apply_task, verify_task, revert_task, do_tasks, foreign_entry_spared,
}
use enterprise_netsec_iac.Fixtures.{toy_platform}
use enterprise_netsec_iac.Value.{Fields, field, text, dict, end}
use enterprise_netsec_iac.Adapters.Owned.{
  owned_client, owned_firewall, owned_client-IsOwnershipAware, no_row-IsUnclaimed, at_normal, norm,
}
use enterprise_netsec_iac.Orchestrator.Machine.{AdapterOutcome}
use enterprise_netsec_iac.Adapters.Endpoint.{command_host}

abbrev ending : String → String
ending k = k

abbrev firewall : Firewall Peer
firewall = owned_firewall toy_platform ending "nftables" (λ s. "NFTABLES")

abbrev peer : String → List Weather → List String → BlocklistPeer Peer
peer name sky on = record {
  name = name;
  state = record { rows = []; foreign_entries = []; members = on; weather = sky };
}

abbrev two_peers : List (BlocklistPeer Peer)
two_peers = peer "fw-core" [] [] ∷ peer "fw-dmz" [] [] ∷ []

-- The second firewall takes the address and does not answer.
abbrev lossy_peers : List (BlocklistPeer Peer)
lossy_peers = peer "fw-core" [] [] ∷ peer "fw-dmz" (calm ∷ lost_after ∷ []) [] ∷ []

abbrev block : Fields
block = field "action" (text "block_ip") (
    field "target" (dict (field "type" (text "ip") (field "value" (text "203.0.113.9") end)))
      (field "idempotency_key" (text "idemp-1") (field "ttl_seconds" (int (pos 900)) end)))

peers_checked : check_peers firewall two_peers ≡ ok two_peers
unfolding check_peers
peers_checked = refl

backstop_after_ttl : lifetime block ≡ some 1200
backstop_after_ttl = refl

applied_outcome :
    (apply firewall toy_platform block two_peers).0
    ≡ ok (
        success "nftables-ha:SOC_BLOCKLIST:idemp-1" (
          "nftables:fw-core:SOC_BLOCKLIST:add:added:idemp-1"
          ∷ "nftables:fw-core:SOC_BLOCKLIST:membership:SOC_BLOCKLIST"
          ∷ "nftables:fw-dmz:SOC_BLOCKLIST:add:added:idemp-1"
          ∷ "nftables:fw-dmz:SOC_BLOCKLIST:membership:SOC_BLOCKLIST" ∷ []))
unfolding apply at_normal norm owned_client add_soc_blocklist_address remove_soc_blocklist_address
    soc_blocklist_contains command_address idempotency_key
applied_outcome = refl

lossy_outcome :
    (elim (apply firewall toy_platform block lossy_peers).0 [ ok o ↦ o.ok | err e ↦ true ]) ≡ false
unfolding apply at_normal norm owned_client add_soc_blocklist_address remove_soc_blocklist_address
    soc_blocklist_contains command_address idempotency_key
lossy_outcome = refl

apply_confirms_example :
    All
      (Confirmed firewall
        (owned_client-IsOwnershipAware toy_platform ending)
        "203.0.113.9"
        "idemp-1")
      (apply firewall toy_platform block two_peers).1
    × (map (λ p. p.name) (apply firewall toy_platform block two_peers).1
        ≡ map (λ p. p.name) two_peers)
unfolding apply at_normal norm owned_client add_soc_blocklist_address remove_soc_blocklist_address
    soc_blocklist_contains command_address idempotency_key
apply_confirms_example =
    apply_confirms firewall (owned_client-IsOwnershipAware toy_platform ending) toy_platform block
      {a = "203.0.113.9"} {k = "idemp-1"} refl refl two_peers refl refl

abbrev lossy_answer : AdapterOutcome
lossy_answer =
    failure "NFTABLES_HA_APPLY_FAILED"
      "SOC_BLOCKLIST apply failed; applied peers were reverted where possible"
      ("nftables:fw-core:SOC_BLOCKLIST:add:added:idemp-1"
        ∷ "nftables:fw-core:SOC_BLOCKLIST:membership:SOC_BLOCKLIST"
        ∷ "nftables:fw-dmz:SOC_BLOCKLIST:compensate:removed:idemp-1"
        ∷ "nftables:fw-core:SOC_BLOCKLIST:compensate:removed:idemp-1" ∷ [])

apply_compensates_example :
    All
      (Compensated firewall
        (owned_client-IsOwnershipAware toy_platform ending)
        "203.0.113.9"
        "idemp-1"
        lossy_answer.evidence_refs)
      (apply firewall toy_platform block lossy_peers).1
unfolding apply at_normal norm owned_client add_soc_blocklist_address remove_soc_blocklist_address
    soc_blocklist_contains command_address idempotency_key
apply_compensates_example =
    apply_compensates firewall (owned_client-IsOwnershipAware toy_platform ending) toy_platform
      block {a = "203.0.113.9"} {k = "idemp-1"} refl refl lossy_peers {o = lossy_answer}
      (
        no_row-IsUnclaimed toy_platform ending "nftables" (λ s. "NFTABLES") "203.0.113.9" "idemp-1"
            (peer "fw-core" [] []) refl,
        (
          no_row-IsUnclaimed toy_platform ending "nftables" (λ s. "NFTABLES") "203.0.113.9"
              "idemp-1" (peer "fw-dmz" (calm ∷ lost_after ∷ []) []) refl,
          tt,
        ),
      )
      refl refl

abbrev applied_peers : List (BlocklistPeer Peer)
applied_peers = (apply firewall toy_platform block two_peers).1

-- On one firewall an analyst has blocked the address.
abbrev analyst_peers : List (BlocklistPeer Peer)
analyst_peers = peer "fw-core" [] ("203.0.113.9" ∷ []) ∷ peer "fw-dmz" [] ("203.0.113.9" ∷ []) ∷ []

abbrev holder : String → BlocklistPeer Peer
holder name = record {
  name = name;
  state = record {
    rows = record { address = "203.0.113.9"; owner = "idemp-1"; mode = owned } ∷ [];
    foreign_entries = [];
    members = "203.0.113.9" ∷ [];
    weather = [];
  };
}

abbrev blocked_peers : List (BlocklistPeer Peer)
blocked_peers = holder "fw-core" ∷ holder "fw-dmz" ∷ []

abbrev block_and_revert : List Task
block_and_revert = apply_task block ∷ verify_task block "ref" ∷ revert_task block "ref" ∷ []

abbrev seen_answer : AdapterOutcome
seen_answer = success "ref" (
    "nftables:fw-core:SOC_BLOCKLIST:verify:SOC_BLOCKLIST"
    ∷ "nftables:fw-dmz:SOC_BLOCKLIST:verify:SOC_BLOCKLIST" ∷ [])

abbrev released_answer : AdapterOutcome
released_answer = success "ref" (
    "nftables:fw-core:SOC_BLOCKLIST:remove:removed:idemp-1"
    ∷ "nftables:fw-core:SOC_BLOCKLIST:absence:SOC_BLOCKLIST"
    ∷ "nftables:fw-dmz:SOC_BLOCKLIST:remove:removed:idemp-1"
    ∷ "nftables:fw-dmz:SOC_BLOCKLIST:absence:SOC_BLOCKLIST" ∷ [])

verify_iff_example :
    (true ≡ true)
    ↔ All
        (Reports firewall
          (owned_client-IsOwnershipAware toy_platform ending)
          "203.0.113.9"
          "idemp-1")
        blocked_peers
unfolding verify owned_client soc_blocklist_contains command_address idempotency_key
verify_iff_example =
    verify_iff firewall (owned_client-IsOwnershipAware toy_platform ending) toy_platform block
      {a = "203.0.113.9"} {k = "idemp-1"} refl refl "ref" blocked_peers {o = seen_answer} refl

revert_releases_example :
    All
      (IsReleased firewall
        (owned_client-IsOwnershipAware toy_platform ending)
        "203.0.113.9"
        "idemp-1"
        released_answer.evidence_refs)
      (revert firewall toy_platform block "ref" blocked_peers).1
unfolding revert owned_client remove_soc_blocklist_address soc_blocklist_contains command_address
    idempotency_key
revert_releases_example =
    revert_releases firewall (owned_client-IsOwnershipAware toy_platform ending) toy_platform block
      {a = "203.0.113.9"} {k = "idemp-1"} refl refl "ref" blocked_peers {o = released_answer} refl
      refl

foreign_entry_spared_example :
    All
      (λ p. contains "203.0.113.9" p.state.members ≡ true)
      (do_tasks firewall toy_platform block_and_revert analyst_peers)
foreign_entry_spared_example =
    foreign_entry_spared "nftables" (λ s. "NFTABLES") toy_platform ending "203.0.113.9"
      block_and_revert analyst_peers ((refl, refl), ((refl, refl), tt))

abbrev isolate : Fields
isolate = field "action" (text "isolate_host") (
    field "target" (dict (field "type" (text "host") (field "value" (text "pc-7") end)))
      (field "idempotency_key" (text "idemp-2") end))

-- A client whose state says whether the endpoint is isolated.
abbrev toy_wazuh : WazuhClient Bool
toy_wazuh = record {
  start_isolation = λ h i s. (ok "job-1", true);
  isolation_is_enforced = λ h i s. (ok s, s);
  restore_isolation = λ h i s. (ok "job-2", false);
  isolation_is_removed = λ h i s. (ok (not s), s);
}

isolation_outcome_iff_example :
    ((true ≡ true) ↔ (Result.ok true ≡ ok true))
    × ((true ≡ true) ↔ ((true ≡ true) × (Result.ok true ≡ ok true)))
unfolding Wazuh.verify Wazuh.revert command_host
isolation_outcome_iff_example =
    isolation_outcome_iff toy_wazuh isolate "pc-7" "idemp-2" refl "own" true
      {v = success "own" ("wazuh:cxyz-isolate-endpoint:verified" ∷ [])}
      {r = success "own"
        ("wazuh:cxyz-restore-endpoint:job-2" ∷ "wazuh:cxyz-restore-endpoint:verified" ∷ [])}
      refl refl
