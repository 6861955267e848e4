-- ===== src/Audit/Tests.antt =====
-- A history of two events, and each theorem at it.
use enterprise_netsec_iac.Common.{
  ℕ, ◌≢◌, refl, inr, Option, none, some, [], ◌∷◌, ◌++◌, arith, eq_iff,
}
use enterprise_netsec_iac.Policy.Protection.{block_ip, ip}
use enterprise_netsec_iac.Audit.{State, requested, applied, AuditEvent, validate_transition}
use enterprise_netsec_iac.Audit.Lifecycle.{
  IsHistory, begun, IsProven, validate_transition-IsHistory,
}
use enterprise_netsec_iac.Audit.Proven.{IsChecked, recorded, IsChecked-IsProven, nothing_yet}

abbrev event : State → Option State → ℕ → AuditEvent
event s p n = record {
  timestamp = 0;
  response_id = "resp-1";
  transition_number = n;
  policy_id = "contain-ip";
  idempotency_key = "key-1";
  target = record { type = ip; value = "203.0.113.9" };
  action = block_ip;
  state = s;
  previous_state = p;
  expires_at = 0;
  application = none;
  verification = none;
  rollback = none;
  failure = none;
  action_intent = none;
}

abbrev first_event : AuditEvent
first_event = event requested none 1

abbrev second_event : AuditEvent
second_event = event applied (some requested) 2

named : first_event.response_id ≢ ""
named = ground (arith, eq_iff first_event.response_id "")

one_event : IsHistory (first_event ∷ [])
one_event = begun first_event named refl refl refl

validate_transition-IsHistory_example : IsHistory (first_event ∷ [] ++ second_event ∷ [])
unfolding validate_transition
validate_transition-IsHistory_example =
    validate_transition-IsHistory second_event (first_event ∷ []) (inr one_event) refl

both_events : IsChecked (first_event ∷ second_event ∷ [])
unfolding validate_transition
both_events =
    recorded (first_event ∷ []) _ second_event (recorded [] _ first_event nothing_yet refl refl)
      refl refl

IsChecked-IsProven_example : IsProven applied (first_event ∷ second_event ∷ [])
IsChecked-IsProven_example = IsChecked-IsProven both_events refl
