-- ===== src/Decision/Engine.antt =====
-- response/decision.py, `DecisionEngine`: why a decision is refused, the command that is issued, and the
-- record of the decision. The text of a refusal leaves out the threshold's digits.
use Prim.Native.String.{◌++◌ as concat}
use enterprise_netsec_iac.Common.{
  ℕ, ◌+◌, ◌*◌, String, Bool, true, false, not, ◌||◌, Option, none, some, List, [], ◌∷◌, str_eq,
  if◌then◌else◌, ltb, any, map, Result, ok, err, error, correlation_rejected,
}
use enterprise_netsec_iac.Common.Pure.{◌>>=◌, ◌>>◌, require, refuse}
use enterprise_netsec_iac.Value.{
  Value, Items, Fields, bool, int, float, text, list, dict, nil, cons, end, field,
}
use enterprise_netsec_iac.Value.Number.{pos, finite, Rational, leq}
use enterprise_netsec_iac.Platform.{Platform, second, to_millis, sha256_hex}
use enterprise_netsec_iac.Policy.Protection.{TargetType, ip, host, Target, assert_target_allowed}
use enterprise_netsec_iac.Policy.Rules.{Signal, matches, ResponsePolicy, action_text}
use enterprise_netsec_iac.Policy.Catalog.{PolicyCatalog, policy}
use enterprise_netsec_iac.Audit.{same_target}
use enterprise_netsec_iac.Decision.Evidence.{
  Anomaly, validate_anomaly, validate_target, validate_signals,
}

-- What `_rejection_reason` says; the last one begins with `target protection`.
pub data Rejection : Type 0 where
  stale from_future not_anomalous below_threshold uncorroborated : Rejection
  protected : String → Rejection

abbrev pub rejection_text : Rejection → String
rejection_text stale = "evidence is older than the active correlation freshness limit"
rejection_text from_future = "evidence timestamp exceeds the allowed future clock skew"
rejection_text not_anomalous = "AI event is not marked anomalous"
rejection_text below_threshold = "AI score below policy threshold"
rejection_text uncorroborated = "no independent corroborating signal satisfied the policy"
rejection_text (protected m) = concat "target protection rejected the response: " m

-- The loop over the evidence: too old, or too far ahead.
unfoldable pub freshness : ℕ → ℕ → List ℕ → Option Rejection
freshness age now [] = none
freshness age now (t ∷ ts) =
    let rest = freshness age now ts in
    if ltb (t + age * second) now
    then some stale
    else if ltb (now + 60 * second) t
    then some from_future
    else rest

abbrev pub corroborates : ResponsePolicy → List Signal → Bool
corroborates p signals = any (λ r. any (matches r) signals) p.require_any

abbrev protection : Result (Unit {0}) → Option Rejection
protection (ok u) = none
protection (err e) = some (protected e.message)

unfoldable pub rejection_reason :
    Platform
    → PolicyCatalog
    → ResponsePolicy
    → Anomaly
    → List Signal
    → Target
    → ℕ
    → Option Rejection
unfolding freshness
rejection_reason lib catalog p anomaly signals target now =
    elim (freshness catalog.evidence_max_age_seconds now
      (anomaly.observed_at ∷ map (λ s. s.observed_at) signals)) [
        | some r ↦ some r
        | none ↦
            if not anomaly.is_anomaly
            then some not_anomalous
            else if not (leq p.min_ai_score anomaly.score)
            then some below_threshold
            else if not (corroborates p signals)
            then some uncorroborated
            else protection (assert_target_allowed lib catalog.protections p.action target)
      ]

abbrev type_text : TargetType → String
type_text ip = "ip"
type_text host = "host"

abbrev pub target_value : Target → Value
target_value t = dict (field "type" (text (type_text t.type)) (field "value" (text t.value) end))

abbrev number : Rational → Value
number q = float (finite q.numerator q.exponent)

abbrev optional {ℓ} : {A : Type ℓ} → String → (A → Value) → Option A → Fields → Fields
optional k f none fs = fs
optional k f (some a) fs = field k (f a) fs

abbrev items {ℓ} : {A : Type ℓ} → (A → Value) → List A → Items
items f [] = nil
items f (x ∷ xs) = cons (f x) (items f xs)

abbrev pub policy_value : ResponsePolicy → Value
policy_value p =
    dict (
      field "id" (text p.id)
        (field "version" (text p.version) (field "sha256" (text p.sha256) end)))

abbrev pub command_fields_of :
    String → String → String → ResponsePolicy → Target → String → Value → Fields
command_fields_of request decision correlation p target key auth =
    field "schema_version" (text "response-command-v1") (
      field "request_id" (text request) (
        field "decision_event_id" (text decision) (
          field "correlation_id" (text correlation) (
            field "policy" (policy_value p) (
              field "target" (target_value target) (
                field "action" (text (action_text p.action)) (
                  field "ttl_seconds" (int (pos p.ttl_seconds)) (
                    field "allowlist_checked" (bool true) (
                      field "rollback_required" (bool true) (
                        field "idempotency_key" (text key)
                          (field "authorization" auth end)))))))))))

abbrev pub command_value :
    String → String → String → ResponsePolicy → Target → String → Value → Value
command_value request decision correlation p target key auth =
    dict (command_fields_of request decision correlation p target key auth)

module _ (lib : Platform) where
  abbrev signal_value : Signal → Value
  signal_value s = dict (
      field "type" (text s.type) (
        field "reference" (text s.reference) (
          field "observed_at" (text (lib.isoformat s.observed_at)) (
            field "target" (target_value s.target) (
              optional "severity" (λ n. int (pos n)) s.severity
                (optional "count" (λ n. int (pos n)) s.count
                  (optional "confidence" number s.confidence end)))))))

  -- `_identifier`
  unfoldable pub identifier : String → Value → String
  identifier prefix v =
      concat (concat prefix "-") (lib.text_prefix (lib.sha256 (lib.canonical_json v)) 24)

  unfoldable pub decision_material : ResponsePolicy → Anomaly → List Signal → Target → Value
  decision_material p a signals target = dict (
      field "policy_id" (text p.id) (
        field "policy_sha256" (text p.sha256) (
          field "anomaly_event_id" (text a.event_id) (
            field "target" (target_value target)
              (field "signals" (list (items signal_value signals)) end)))))

  unfoldable pub request_material : String → ResponsePolicy → Anomaly → List Signal → Target → Value
  request_material decision p a signals target = dict (
      field "decision_event_id" (text decision) (
        field "policy_sha256" (text p.sha256) (
          field "target" (target_value target) (
            field "anomaly_event_id" (text a.event_id)
              (field "signals" (list (items signal_value signals)) end)))))

  unfoldable pub idempotency_key : Value → String
  idempotency_key v = concat "idemp-" (sha256_hex lib v)

  -- `correlation_id`, the caller's or the digest of the material.
  unfoldable pub correlation_of : Option String → Value → Result String
  unfolding identifier
  correlation_of given material =
      let label : String = elim given [ none ↦ identifier "cor" material | some s ↦ s ] in
      if str_eq (lib.strip label) "" || ltb 256 (lib.text_length (lib.strip label))
      then error correlation_rejected
          "correlation_id must be a non-empty string up to 256 characters"
      else ok (lib.strip label)

  -- The authorization, with the signature as the list of fields at its end.
  abbrev pub authorization : String → ℕ → ℕ → Fields → Value
  authorization key_id valid now signature = dict (
      field "issuer" (text "decision_engine") (
        field "key_id" (text key_id) (
          field "issued_at" (text (lib.isoformat (to_millis now))) (
            field "expires_at" (text (lib.isoformat (to_millis (now + valid * second))))
              signature))))

  -- The command under the signature over the command without one.
  unfoldable pub signed_command :
      (Value → String)
      → String
      → ℕ
      → ℕ
      → String
      → String
      → String
      → ResponsePolicy
      → Target
      → String
      → Value
  signed_command sign key_id valid now request decision correlation p target key =
      command_value request decision correlation p target key (
        authorization key_id valid now (
          field "signature"
            (text (
              sign (
                command_value request decision correlation p target key
                  (authorization key_id valid now end))))
            end))

-- `DecisionResult`, with the outcome in place of its text, and of the record of the decision the parts
-- that depend on the outcome.
pub data Outcome : Type 0 where
  alert_only : Outcome
  refused : Rejection → Outcome
  requested : Outcome

pub record Decision : Type 0 where
  pub eligible : Bool
  pub outcome : Outcome
  pub decision_event_id : Option String
  pub event_outcome : Option String
  pub request_id : Option String
  pub command : Option Value

abbrev no_decision : Decision
no_decision = record {
  eligible = false;
  outcome = alert_only;
  decision_event_id = none;
  event_outcome = none;
  request_id = none;
  command = none;
}

-- The outcome that the record of a refusal names.
abbrev pub outcome_text : Anomaly → Rejection → String
outcome_text a (protected m) = "denied"
outcome_text a r = if a.is_anomaly then "alert" else "store_only"

abbrev pub is_about : Target → Signal → Bool
is_about target s = same_target s.target target

abbrev pub is_the_anomaly : Anomaly → Signal → Bool
is_the_anomaly a s = str_eq s.reference a.event_id

module _ (lib : Platform) (catalog : PolicyCatalog) (sign : Value → String) (key_id : String) where
  unfoldable pub check_signals : Anomaly → Target → List Signal → Result (Unit {0})
  check_signals a target [] = ok tt
  check_signals a target (s ∷ ss) = do
    require (is_about target s) correlation_rejected
        "corroborating signal target differs from the response target"
    refuse (is_the_anomaly a s) correlation_rejected
        "AI output cannot corroborate itself under another signal type"
    check_signals a target ss

  unfoldable pub issue :
      ResponsePolicy → Anomaly → List Signal → Target → ℕ → String → String → Decision
  unfolding request_material identifier idempotency_key signed_command
  issue p a signals target now decision correlation =
      let material = request_material lib decision p a signals target in
      let request = identifier lib "req" material in
      record {
        eligible = true;
        outcome = requested;
        decision_event_id = some decision;
        event_outcome = some "response_requested";
        request_id = some request;
        command = some (
            signed_command lib sign key_id catalog.command_valid_for_seconds now request decision
              correlation p target (idempotency_key lib material));
      }

  unfoldable pub decide :
      ResponsePolicy
      → Anomaly
      → List Signal
      → Target
      → ℕ
      → String
      → String
      → Option Rejection
      → Decision
  unfolding issue
  decide p a signals target now decision correlation (some r) = record {
    eligible = false;
    outcome = refused r;
    decision_event_id = some decision;
    event_outcome = some (outcome_text a r);
    request_id = none;
    command = none;
  }
  decide p a signals target now decision correlation none =
      issue p a signals target now decision correlation

  -- `evaluate` on evidence that has been checked, and on signals: none is an alert only.
  unfoldable pub weigh :
      ResponsePolicy → Anomaly → List Signal → Target → ℕ → Option String → Result Decision
  unfolding decision_material identifier correlation_of rejection_reason decide
  weigh p a [] target now label = ok no_decision
  weigh p a (s ∷ ss) target now label = do
    let material = decision_material lib p a (s ∷ ss) target
    correlation ← correlation_of lib label material
    ok (
        decide p a (s ∷ ss) target now (identifier lib "dec" material) correlation
          (rejection_reason lib catalog p a (s ∷ ss) target now))

  unfoldable pub evaluate : String → Value → Value → Value → ℕ → Option String → Result Decision
  unfolding policy validate_anomaly validate_target validate_signals check_signals weigh
  evaluate policy_id anomaly independent_signals target now label = do
    p ← policy catalog policy_id
    a ← validate_anomaly lib anomaly
    t ← validate_target lib target
    signals ← validate_signals lib independent_signals
    require (same_target a.target t) correlation_rejected
        "anomaly target differs from the requested response target"
    check_signals a t signals
    weigh p a signals t now label
