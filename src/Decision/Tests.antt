-- ===== src/Decision/Tests.antt =====
-- A decision on one anomaly and one signal, and each theorem at it.
use enterprise_netsec_iac.Common.{
  arith, ℕ, ◌*◌, ◌≡◌, refl, ◌↔◌, none, true, some, [], ◌∷◌, Result, ok, String,
}
use enterprise_netsec_iac.Value.{Value, text, dict, list, bool, int, float, nil, cons, end, field}
use enterprise_netsec_iac.Value.Number.{pos, finite}
use enterprise_netsec_iac.Platform.{second}
use enterprise_netsec_iac.Policy.Protection.{block_ip, ip, Target, assert_target_allowed}
use enterprise_netsec_iac.Policy.Rules.{Signal, matches}
use enterprise_netsec_iac.Fixtures.{toy_platform, toy_catalog, toy_rule}
use enterprise_netsec_iac.Decision.Evidence.{Anomaly, signals_from, validate_signal}
use enterprise_netsec_iac.Decision.Engine.{Decision, rejection_reason, evaluate, signed_command}
use enterprise_netsec_iac.Validation.{parse_rfc3339, check_action_target, validate_command}
use enterprise_netsec_iac.Policy.Catalog.{find_policy}
use enterprise_netsec_iac.Decision.Contract.{signed_command-accepted}
use enterprise_netsec_iac.Decision.Issued.{evaluate-issues}
use enterprise_netsec_iac.Decision.Gate.{
  IsWarranted, IsGrounded, rejection_reason_iff, evaluate-IsGrounded,
}

abbrev now : ℕ
now = 1001 * second

abbrev target : Value
target = dict (field "type" (text "ip") (field "value" (text "203.0.113.9") end))

abbrev anomaly : Value
anomaly = dict (
    field "event_id" (text "ai-1") (
      field "model_id" (text "forest") (
        field "score" (float (finite (pos 31) 5)) (
          field "threshold" (float (finite (pos 1) 1)) (
            field "is_anomaly" (bool true)
              (field "observed_at" (text "T0") (field "target" target end)))))))

abbrev signals : Value
signals = list (
    cons
      (dict (
        field "type" (text "suricata") (
          field "reference" (text "alert-1") (
            field "severity" (int (pos 4))
              (field "observed_at" (text "T0") (field "target" target end))))))
      nil)

abbrev the_anomaly : Anomaly
the_anomaly = record {
  event_id = "ai-1";
  model_id = "forest";
  score = record { numerator = pos 31; exponent = 5 };
  threshold = record { numerator = pos 1; exponent = 1 };
  is_anomaly = true;
  observed_at = 1000 * second;
  target = record { type = ip; value = "203.0.113.9" };
}

abbrev the_signal : Signal
the_signal = record {
  type = "suricata";
  reference = "alert-1";
  observed_at = 1000 * second;
  target = record { type = ip; value = "203.0.113.9" };
  severity = some 4;
  count = none;
  confidence = none;
}

abbrev the_target : Target
the_target = record { type = ip; value = "203.0.113.9" }

abbrev answer : Result Decision
answer =
    evaluate toy_platform toy_catalog (λ v. "sig") "key-1" "contain-ip" anomaly signals target now
      none

rejection_reason_iff_example :
    (rejection_reason toy_platform toy_catalog toy_rule the_anomaly (the_signal ∷ []) the_target now
      ≡ none)
    ↔ IsWarranted toy_platform toy_catalog toy_rule the_anomaly (the_signal ∷ []) the_target now
rejection_reason_iff_example =
    rejection_reason_iff toy_platform toy_catalog toy_rule the_anomaly (the_signal ∷ []) the_target
      now

warranted :
    IsWarranted toy_platform toy_catalog toy_rule the_anomaly (the_signal ∷ []) the_target now
unfolding rejection_reason matches assert_target_allowed
warranted = rejection_reason_iff_example.0 refl

evaluate-IsGrounded_example :
    IsGrounded toy_platform toy_catalog "contain-ip" anomaly signals target now
unfolding evaluate signals_from validate_signal matches assert_target_allowed
evaluate-IsGrounded_example =
    evaluate-IsGrounded toy_platform toy_catalog (λ v. "sig") "key-1" "contain-ip" anomaly signals
      target now none refl refl

first_containment :
    IsWarranted toy_platform toy_catalog toy_rule the_anomaly
      (the_signal ∷ [])
      the_target
      (1000 * second)
unfolding rejection_reason matches assert_target_allowed
first_containment =
    (rejection_reason_iff toy_platform toy_catalog toy_rule the_anomaly (the_signal ∷ []) the_target
        (1000 * second)).0
      refl

evaluate-issues_example :
    (d : Decision) × (command : Value) × (key : String) × (evaluate toy_platform toy_catalog
        (λ v. "sig")
        "key-1"
        "contain-ip"
        anomaly
        signals
        target
        (1000 * second)
        none
      ≡ ok d)
    × (d.eligible ≡ true)
    × (d.command ≡ some command)
    × (validate_command toy_platform toy_catalog (λ v t. ok tt) command (1000 * second)
        ≡ ok (record {
          raw = command;
          idempotency_key = key;
          policy_id = "contain-ip";
          target = the_target;
          action = block_ip;
          ttl_seconds = 300;
        }))
unfolding evaluate signals_from validate_signal parse_rfc3339
evaluate-issues_example =
    evaluate-issues toy_platform toy_catalog (λ v. "sig") "key-1" (λ v t. ok tt) "contain-ip"
      anomaly signals target (1000 * second) none refl refl refl refl refl refl refl
      first_containment refl (omega arith) (omega arith) refl refl
      (λ request decision correlation key. refl)

-- The command that the engine signs for the signal.
abbrev the_command : Value
the_command =
    signed_command toy_platform (λ v. "sig") "key-1" 120 (1000 * second) "req-1" "dec-1" "cor-1"
      toy_rule the_target "idemp-1"

signed_command-accepted_example :
    validate_command toy_platform toy_catalog (λ v t. ok tt) the_command (1000 * second)
    ≡ ok (record {
      raw = the_command;
      idempotency_key = "idemp-1";
      policy_id = "contain-ip";
      target = the_target;
      action = block_ip;
      ttl_seconds = 300;
    })
unfolding parse_rfc3339 find_policy check_action_target
signed_command-accepted_example =
    signed_command-accepted toy_platform toy_catalog (λ v t. ok tt) (λ v. "sig") "key-1"
      (1000 * second) "req-1" "dec-1" "cor-1" "idemp-1" toy_rule the_target refl refl refl refl refl
      refl (omega arith) refl (omega arith) refl refl refl
