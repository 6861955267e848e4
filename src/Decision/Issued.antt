-- ===== src/Decision/Issued.antt =====
-- What the decision engine issues for a warranted containment, up to its acceptance by the orchestrator.
use enterprise_netsec_iac.Common.{
  ℕ, ◌+◌, ◌*◌, ◌≤◌, ◌<◌, String, ◌≡◌, refl, ap, ◌∙◌, true, false, Option, none, some, List, ◌∷◌,
  arith, str_eq, Result, ok, concat-nonempty,
}
use enterprise_netsec_iac.Value.{Value, text}
use enterprise_netsec_iac.Platform.{Platform, second, to_millis}
use enterprise_netsec_iac.Policy.Protection.{
  Target, Action, block_ip, isolate_host, ProtectionPolicy,
}
use enterprise_netsec_iac.Policy.Eligible.{IsEligible, assert_target_allowed_iff}
use enterprise_netsec_iac.Policy.Rules.{Signal, ResponsePolicy}
use enterprise_netsec_iac.Policy.Catalog.{PolicyCatalog, policy, find_policy}
use enterprise_netsec_iac.Audit.{same_target}
use enterprise_netsec_iac.Validation.{parse_rfc3339, check_action_target, validate_command}
use enterprise_netsec_iac.Validation.Named.{find_policy-Some}
use enterprise_netsec_iac.Decision.Evidence.{
  Anomaly, validate_anomaly, validate_target, validate_signals,
}
use enterprise_netsec_iac.Decision.Engine.{
  Decision, Rejection, check_signals, weigh, evaluate, decide, issue, decision_material,
  request_material, correlation_of, identifier, idempotency_key, signed_command,
}
use enterprise_netsec_iac.Decision.Gate.{IsWarranted, rejection_reason_iff}
use enterprise_netsec_iac.Decision.Contract.{signed_command-accepted}

correlation_of-nonempty :
    (lib : Platform) (label : Option String) (material : Value) {correlation : String}
    → correlation_of lib label material ≡ ok correlation
    → str_eq correlation "" ≡ false
unfolding correlation_of
correlation_of-nonempty lib label material h = ground arith

check_action_target-allowed :
    (lib : Platform) (p : ProtectionPolicy) (a : Action) (t : Target)
    → IsEligible lib p a t
    → check_action_target lib a t ≡ ok tt
unfolding check_action_target
check_action_target-allowed lib p block_ip t (typed, address, parsed, open_) =
    ground (arith, typed, parsed)
check_action_target-allowed lib p isolate_host t (typed, name, given, open_) = ground (arith, typed)

module _ (lib : Platform) (catalog : PolicyCatalog) (sign : Value → String) (key_id : String) where
  decided :
      (p : ResponsePolicy) (a : Anomaly) (ss : List Signal) (t : Target) (now : ℕ)
      → (decision correlation : String) (o : Option Rejection) → o ≡ none
      → decide lib catalog sign key_id p a ss t now decision correlation o
        ≡ issue lib catalog sign key_id p a ss t now decision correlation
  unfolding decide
  decided p a ss t now decision correlation none e = refl
  decided p a ss t now decision correlation (some r) e = cc

  -- Whenever the checks pass on at least one signal, the label of the correlation is usable and the
  -- containment is warranted, the engine answers that it is eligible, with a command that the orchestrator
  -- accepts at that moment as one for the policy and the target, if the normal form of the target is a text
  -- of at most 255 characters, commands are valid for some time, the platform reads the two timestamps as
  -- they were written, and the authenticator accepts what is signed for the policy and the target.
  pub evaluate-issues :
      (verify : Value → ℕ → Result (Unit {0})) (policy_id : String)
      (anomaly independent_signals target : Value) (now : ℕ)
      → (label : Option String)
      → {p : ResponsePolicy} {a : Anomaly} {t : Target} {s : Signal} {ss : List Signal}
      → {correlation : String} → policy catalog policy_id ≡ ok p
      → validate_anomaly lib anomaly ≡ ok a
      → validate_target lib target ≡ ok t
      → validate_signals lib independent_signals ≡ ok (s ∷ ss)
      → same_target a.target t ≡ true
      → check_signals lib catalog sign key_id a t (s ∷ ss) ≡ ok tt
      → correlation_of lib label (decision_material lib p a (s ∷ ss) t) ≡ ok correlation
      → IsWarranted lib catalog p a (s ∷ ss) t now
      → str_eq t.value "" ≡ false
      → lib.text_length t.value ≤ 255
      → 0 < catalog.command_valid_for_seconds
      → parse_rfc3339 lib (text (lib.isoformat (to_millis now))) ≡ ok (to_millis now)
      → parse_rfc3339 lib
          (text (lib.isoformat (to_millis (now + catalog.command_valid_for_seconds * second))))
        ≡ ok (to_millis (now + catalog.command_valid_for_seconds * second))
      → ((request decision correlation key : String)
          → verify
              (signed_command lib sign key_id catalog.command_valid_for_seconds now request decision
                correlation p t key)
              now
            ≡ ok tt)
      → (d : Decision) × (command : Value) × (key : String) × (evaluate lib catalog sign key_id
            policy_id anomaly independent_signals target now label
          ≡ ok d)
        × (d.eligible ≡ true)
        × (d.command ≡ some command)
        × (validate_command lib catalog verify command now
            ≡ ok (record {
              raw = command;
              idempotency_key = key;
              policy_id = p.id;
              target = t;
              action = p.action;
              ttl_seconds = p.ttl_seconds;
            }))
  unfolding evaluate weigh issue policy identifier idempotency_key
  evaluate-issues verify policy_id anomaly independent_signals target now label {p} {a} {t} {s} {ss}
        {correlation} named read aimed seen same checked labelled w is_text short some_time issued
        expires authentic =
      let none_ = (rejection_reason_iff lib catalog p a (s ∷ ss) t now).1 w in
      let decision = identifier lib "dec" (decision_material lib p a (s ∷ ss) t) in
      let material = request_material lib decision p a (s ∷ ss) t in
      let request = identifier lib "req" material in
      let key = idempotency_key lib material in
      let found : find_policy policy_id catalog.policies ≡ some p = ground (arith, named) in
      let same_id : p.id ≡ policy_id = (find_policy-Some policy_id catalog.policies found).1 in
      let suits =
        check_action_target-allowed lib catalog.protections p.action t
          ((assert_target_allowed_iff lib catalog.protections p.action t).0 w.allowed) in
      (
        issue lib catalog sign key_id p a (s ∷ ss) t now decision correlation,
        signed_command lib sign key_id catalog.command_valid_for_seconds now request decision
            correlation p t key,
        key,
        simp (
          named,
          read,
          aimed,
          seen,
          same,
          checked,
          labelled,
          decided p a (s ∷ ss) t now decision correlation _ none_,
        ),
        refl,
        refl,
        signed_command-accepted lib catalog verify sign key_id now request decision correlation key
            p t (concat-nonempty _ _ refl) (concat-nonempty _ _ refl)
            (correlation_of-nonempty lib label _ labelled) (concat-nonempty _ _ refl)
            (ap (λ i. find_policy i catalog.policies) same_id ∙ found) is_text short suits some_time
            issued expires (authentic request decision correlation key),
      )
