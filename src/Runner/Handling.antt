-- ===== src/Runner/Handling.antt =====
-- response/service/decision_runner.py, `DecisionRunner.handle` and the loop of `run_once`: what becomes of an
-- anomaly.
use enterprise_netsec_iac.Common.{
  ℕ, String, Bool, true, false, ◌&&◌, Option, none, some, List, [], ◌∷◌, if◌then◌else◌, Result, ok,
  err, correlation_rejected, policy_error, Method, pure, lift, gets, ◌>>=◌, ◌>>◌, ◌+◌,
}
use enterprise_netsec_iac.Value.{Value, Fields, text, dict, field, end, get}
use enterprise_netsec_iac.Features.Events.{nested}
use enterprise_netsec_iac.Decision.Engine.{Decision}
use enterprise_netsec_iac.Runner.{
  RunnerMode, observe, enforce, Runner, Surroundings, DeliveryError, answered, undelivered,
  record_outcome, set_cursor, write_decision, send_command, target_of, target_value, object_of,
}

abbrev is_enforce : RunnerMode → Bool
is_enforce observe = false
is_enforce enforce = true

abbrev or_text : Option String → String
or_text none = ""
or_text (some s) = s

module _ (env : Surroundings) where
  -- The `anomaly` that the engine is given.
  unfoldable pub anomaly_value : String → Fields → ℕ → Value → Value
  anomaly_value anomaly_id ai window_end target = dict (
      field "event_id" (text anomaly_id) (
        field "model_id" (get "model_id" ai) (
          field "score" (get "score" ai) (
            field "threshold" (get "threshold" ai) (
              field "is_anomaly" (get "is_anomaly" ai) (
                field "observed_at" (text (env.rfc3339 window_end))
                  (field "target" target end)))))))

  -- The end of the `try` around the deliveries: a retryable error says "later", another is recorded.
  unfoldable pub settle_delivery :
      String → Option DeliveryError → Method Runner Bool → Method Runner Bool
  unfolding record_outcome
  settle_delivery anomaly_id none rest = rest
  settle_delivery anomaly_id (some e) rest =
      if e.retryable
      then pure false
      else (do record_outcome anomaly_id "delivery_failed" none; pure true)

  -- A request that the engine made eligible, in enforce mode: the decision is written, then the command
  -- is sent, then the outcome recorded.
  unfoldable pub request_response : String → String → Decision → Method Runner Bool
  unfolding write_decision send_command settle_delivery record_outcome
  request_response anomaly_id event_id d = do
    failure ← write_decision (record { event_id = event_id; outcome = or_text d.event_outcome })
    settle_delivery anomaly_id failure (do
      refused ← send_command d.command
      settle_delivery anomaly_id refused
          (do record_outcome anomaly_id "response_requested" (some event_id); pure true))

  -- Every other decision is written, an eligible one as an alert.
  unfoldable pub note_decision : String → String → Decision → Method Runner Bool
  unfolding write_decision settle_delivery record_outcome
  note_decision anomaly_id event_id d =
      let outcome = if d.eligible then "alert" else or_text d.event_outcome in
      do
        failure ← write_decision (record { event_id = event_id; outcome = outcome })
        settle_delivery anomaly_id failure
            (do record_outcome anomaly_id outcome (some event_id); pure true)

  unfoldable pub act_on : String → Decision → RunnerMode → Method Runner Bool
  unfolding request_response note_decision record_outcome
  act_on anomaly_id d mode = elim d.decision_event_id [
    | none ↦ do record_outcome anomaly_id "anomaly_only" none; pure true
    | some event_id ↦
        if d.eligible && is_enforce mode
        then request_response anomaly_id event_id d
        else note_decision anomaly_id event_id d
  ]

  -- What the engine answers: a rejection is recorded, any other exception is raised.
  unfoldable pub act_on_answer : String → Result Decision → Method Runner Bool
  unfolding act_on record_outcome
  act_on_answer anomaly_id (ok d) = do mode ← gets (λ r. r.mode); act_on anomaly_id d mode
  act_on_answer anomaly_id (err e) = elim e.kind [
    | correlation_rejected ↦ (do record_outcome anomaly_id "rejected" none; pure true)
    | policy_error ↦ (do record_outcome anomaly_id "rejected" none; pure true)
    | _ ↦ lift (err e)
  ]

  -- The part of `handle` after the policy was found.
  unfoldable pub handle_target :
      String → Fields → Value → String → String → String → ℕ → Method Runner Bool
  unfolding act_on_answer anomaly_value record_outcome object_of
  handle_target anomaly_id vector scores kind entity policy_id now = do
    start ← lift (env.parse_rfc3339 (get "window_start" vector))
    stop ← lift (env.parse_rfc3339 (get "window_end" vector))
    ai ← lift (object_of scores)
    found ← lift (env.evidence (target_value kind entity) start stop)
    elim found [
      | answered signals ↦ act_on_answer anomaly_id (
          env.decide policy_id (anomaly_value anomaly_id ai stop (target_value kind entity)) signals
            (target_value kind entity) now)
      | undelivered e ↦
          if e.retryable
          then pure false
          else (do record_outcome anomaly_id "evidence_error" none; pure true)
    ]

  -- `handle`: `False` means "later".
  unfoldable pub handle : Value → ℕ → Method Runner Bool
  unfolding target_of handle_target record_outcome object_of
  handle doc now =
      let anomaly_id = env.py.text_of (nested ("event" ∷ "id" ∷ []) doc) in
      let scores = nested ("ai" ∷ []) doc in
      do
        vector ← lift (object_of (nested ("feature_vector" ∷ []) doc))
        elim (target_of env.py vector) [
          | none ↦ do record_outcome anomaly_id "unsupported_entity" none; pure true
          | some who ↦ elim (env.policy_for who.0) [
            | none ↦ do record_outcome anomaly_id "no_policy" none; pure true
            | some policy_id ↦ handle_target anomaly_id vector scores who.0 who.1 policy_id now
          ]
        ]

  -- The loop of `run_once` over the hits, each a document and its sort key, with the two counts.
  unfoldable pub handle_hits : List (Value × Value) → ℕ → ℕ → Method Runner (ℕ × ℕ)
  unfolding handle set_cursor
  handle_hits [] processed now = pure (processed, 0)
  handle_hits ((doc, sort) ∷ hits) processed now = do
    finished ← handle doc now
    if finished
        then (do set_cursor sort; handle_hits hits (processed + 1) now)
        else pure (processed, 1)
