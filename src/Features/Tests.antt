-- ===== src/Features/Tests.antt =====
-- A window of three events, and each theorem at it.
use enterprise_netsec_iac.Common.{
  ℕ, String, List, [], ◌∷◌, ◌≡◌, refl, ok, some, none, str_eq, if◌then◌else◌, All, length, ◌≤◌, ◌*◌,
  last?,
}
use enterprise_netsec_iac.Value.{Value, text, int, dict, field, end, Fields, as_dict}
use enterprise_netsec_iac.Value.Number.{pos}
use enterprise_netsec_iac.Platform.{second}
use enterprise_netsec_iac.Fixtures.{toy_platform}
use enterprise_netsec_iac.Features.Contract
use enterprise_netsec_iac.Features.Contract.{expected_feature_names}
use enterprise_netsec_iac.Features.Bounds.{network_features_bounds}
use enterprise_netsec_iac.Features.Selected.{IsSelected, validate_and_select-IsSelected}
use enterprise_netsec_iac.Features.Sequences.{sequence_matrix, sequence_matrix-rectangular, numbers}
use enterprise_netsec_iac.Features.Events.{Python, validate_and_select}
use enterprise_netsec_iac.Features.Network.{NetworkFeatures, network_features}

abbrev python : Python
python = record {
  int_of_text = λ s. if str_eq s "443" then some (pos 443) else none;
  isdigit = λ s. str_eq s "443";
  rstrip_dots = λ s. s;
  has_part = λ part s. str_eq part s;
  text_of = λ v. "text";
  isoformat = λ t. "T";
}

abbrev event_of : String → String → String → Value
event_of id time action = dict (
    field "cxyz" (dict (field "schema_version" (text "soc-event-v1") end)) (
      field "@timestamp" (text time) (
        field "event"
          (dict (
            field "id" (text id)
              (field "dataset" (text "firewall.syslog") (field "action" (text action) end))))
          (field "source" (dict (field "ip" (text "203.0.113.9") end)) (
            field "destination"
              (dict (field "ip" (text "203.0.113.53") (field "port" (text "443") end)))
              (field "network" (dict (field "bytes" (int (pos 60)) end)) end))))))

abbrev two_events : List Value
two_events = event_of "b" "T60" "pass" ∷ event_of "a" "T0" "block" ∷ []

selected_by_id :
    validate_and_select toy_platform (1000 * second) (1300 * second) two_events
    ≡ ok (event_of "a" "T0" "block" ∷ event_of "b" "T60" "pass" ∷ [])
unfolding validate_and_select
selected_by_id = refl

abbrev counted : NetworkFeatures
counted = record {
  connection_count = 2;
  unique_dst_ip = 1;
  unique_dst_port = 1;
  bytes_out = 120;
  bytes_in = 0;
  blocked = 1;
  dns_query_count = 0;
  unique_domain_count = 0;
  tls_count = 0;
  suricata_alert_count = 0;
  failed_auth_count = 0;
}

two_connections : network_features toy_platform python two_events ≡ ok counted
unfolding network_features
two_connections = refl

network_features_bounds_example :
    (1 ≤ 2) × (1 ≤ 2) × (1 ≤ 2) × (0 ≤ 0) × (2 ≤ 2) × (0 ≤ 2) × (0 ≤ 2) × (0 ≤ 2) × (0 ≤ 2)
network_features_bounds_example =
    network_features_bounds toy_platform python two_events {f = counted} two_connections

validate_and_select-IsSelected_example :
    All
      (IsSelected toy_platform (1000 * second) (1300 * second))
      (event_of "a" "T0" "block" ∷ event_of "b" "T60" "pass" ∷ [])
validate_and_select-IsSelected_example =
    validate_and_select-IsSelected toy_platform (1000 * second) (1300 * second) two_events
      selected_by_id

abbrev zero_counts : Value
zero_counts = dict (
    field "process_count" (int (pos 0)) (
      field "rare_process_count" (int (pos 0)) (
        field "powershell_count" (int (pos 0)) (
          field "failed_login_count" (int (pos 0)) (
            field "fim_change_count" (int (pos 0)) (
              field "account_change_count" (int (pos 0))
                (field "privilege_change_count" (int (pos 0)) end)))))))

abbrev number : Value → ℕ
number v = 7

abbrev sevens : List ℕ
sevens = 7 ∷ 7 ∷ 7 ∷ 7 ∷ 7 ∷ 7 ∷ 7 ∷ []

two_rows :
    sequence_matrix number 0 "endpoint-window-v1" (none ∷ []) zero_counts
    ≡ ok ((0 ∷ 0 ∷ 0 ∷ 0 ∷ 0 ∷ 0 ∷ 0 ∷ []) ∷ sevens ∷ [])
unfolding sequence_matrix
two_rows = refl

abbrev matrix : List (List ℕ)
matrix = (0 ∷ 0 ∷ 0 ∷ 0 ∷ 0 ∷ 0 ∷ 0 ∷ []) ∷ sevens ∷ []

sequence_matrix-rectangular_example :
    (length matrix ≡ 2)
    × All (λ (row : List ℕ). length row ≡ 7) matrix
    × (fs : Fields) × (as_dict zero_counts ≡ some fs)
    × (last? matrix ≡ some (numbers number 0 Contract.endpoint_features fs))
unfolding expected_feature_names
sequence_matrix-rectangular_example =
    sequence_matrix-rectangular number 0 "endpoint-window-v1" (none ∷ []) zero_counts
      {names = Contract.endpoint_features} refl two_rows
