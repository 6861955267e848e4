-- ===== src/Runner/Kept.antt =====
-- response/service/decision_runner.py: a predicate that the outcomes, the deliveries and the actions keep is
-- kept by the whole handling of an anomaly.
use enterprise_netsec_iac.Common.{
  String, Bool, true, false, Option, none, some, [], ◌∷◌, Result, ok, err, Error, Method, Kind,
  correlation_rejected, policy_error, pure, lift, ◌>>◌, ℕ, List,
}
use enterprise_netsec_iac.Common.Keeps.{
  Keeps, Keeps-pure, Keeps-lift, Keeps-bind, Keeps-then, Keeps-if, Keeps-option, keeps_rules,
}
use enterprise_netsec_iac.Value.{Value, Fields, get}
use enterprise_netsec_iac.Features.Events.{nested}
use enterprise_netsec_iac.Decision.Engine.{Decision}
use enterprise_netsec_iac.Runner.{
  Runner, Surroundings, Document, DeliveryError, Answer, answered, undelivered, record_outcome,
  write_decision, object_of, target_of, target_value, send_command,
}
use enterprise_netsec_iac.Runner.Handling.{
  settle_delivery, note_decision, act_on, act_on_answer, handle_target, handle,
}

module _ {P : Runner → Type 0} where
  pub write_decision-Keeps :
      ((r : Runner) (answers : List (Answer (Unit {0}))) (written : List Document)
        → P r
        → P (record r { answers = answers; written = written }))
      → (d : Document) → Keeps P (write_decision d)
  unfolding write_decision
  write_decision-Keeps k d = record { at = λ r h. wrote r.answers r h }
    where
      wrote :
          (answers : List (Answer (Unit {0}))) (r : Runner)
          → P r
          → P (write_decision d (record r { answers = answers })).1
      wrote [] r h = k r _ _ h
      wrote (answered u ∷ rest) r h = k r _ _ h
      wrote (undelivered e ∷ rest) r h = k r _ _ h

  pub send_command-Keeps :
      ((r : Runner) (answers : List (Answer (Unit {0}))) (sent : List Value)
        → P r
        → P (record r { answers = answers; sent = sent }))
      → (command : Option Value) → Keeps P (send_command command)
  unfolding send_command
  send_command-Keeps k none = record { at = λ r h. h }
  send_command-Keeps k (some command) = record { at = λ r h. sent r.answers r h }
    where
      sent :
          (answers : List (Answer (Unit {0}))) (r : Runner)
          → P r
          → P (send_command (some command) (record r { answers = answers })).1
      sent [] r h = k r _ _ h
      sent (answered u ∷ rest) r h = k r _ _ h
      sent (undelivered e ∷ rest) r h = k r _ _ h

module _ (env : Surroundings) {P : Runner → Type 0}
    (recorded : (anomaly_id outcome : String) (event_id : Option String)
      → Keeps P (record_outcome anomaly_id outcome event_id)) where
  -- An outcome is recorded and the anomaly is finished.
  pub finish-Keeps :
      (anomaly_id outcome : String) (event_id : Option String)
      → Keeps P (record_outcome anomaly_id outcome event_id >> pure true)
  finish-Keeps anomaly_id outcome event_id =
      Keeps-then (record_outcome anomaly_id outcome event_id) (pure true)
        (recorded anomaly_id outcome event_id) (Keeps-pure true)

  pub settle_delivery-Keeps :
      (anomaly_id : String) (failure : Option DeliveryError) (rest : Method Runner Bool)
      → Keeps P rest
      → Keeps P (settle_delivery env anomaly_id failure rest)
  unfolding settle_delivery
  settle_delivery-Keeps anomaly_id none rest k = k
  settle_delivery-Keeps anomaly_id (some e) rest k = search (keeps_rules, recorded)

  module _ (wrote : (d : Document) → Keeps P (write_decision d)) where
    pub note_decision-Keeps :
        (anomaly_id event_id : String) (d : Decision)
        → Keeps P (note_decision env anomaly_id event_id d)
    unfolding note_decision
    note_decision-Keeps anomaly_id event_id d =
        search (keeps_rules, recorded, wrote, settle_delivery-Keeps)

  Keeps-answer :
      {A B : Type 0} (answer : Answer A) (f : A → Method Runner B)
      (g : DeliveryError → Method Runner B)
      → ((a : A) → Keeps P (f a))
      → ((e : DeliveryError) → Keeps P (g e))
      → Keeps P (elim answer [ answered a ↦ f a | undelivered e ↦ g e ])
  Keeps-answer (answered a) f g kf kg = kf a
  Keeps-answer (undelivered e) f g kf kg = kg e

  module _
      (acted : (anomaly_id : String) (d : Decision) (r : Runner)
        → P r
        → P (act_on env anomaly_id d r.mode r).1) where
    act_on_answer-Keeps :
        (anomaly_id : String) (answer : Result Decision)
        → Keeps P (act_on_answer env anomaly_id answer)
    unfolding act_on_answer
    act_on_answer-Keeps anomaly_id (ok d) = record { at = acted anomaly_id d }
    act_on_answer-Keeps anomaly_id (err e) = refused e e.kind
      where
        refused :
            (e : Error) (k : Kind)
            → Keeps P (act_on_answer env anomaly_id (err (record e { kind = k })))
        refused e correlation_rejected = finish-Keeps anomaly_id "rejected" none
        refused e policy_error = finish-Keeps anomaly_id "rejected" none
        refused e _ = Keeps-lift _

    handle_target-Keeps :
        (anomaly_id : String) (vector : Fields) (scores : Value) (kind entity policy_id : String)
        (now : ℕ)
        → Keeps P (handle_target env anomaly_id vector scores kind entity policy_id now)
    unfolding handle_target
    handle_target-Keeps anomaly_id vector scores kind entity policy_id now =
        Keeps-bind (lift (env.parse_rfc3339 (get "window_start" vector))) _ (Keeps-lift _) (λ start.
          Keeps-bind (lift (env.parse_rfc3339 (get "window_end" vector))) _ (Keeps-lift _) (λ stop.
            Keeps-bind (lift (object_of scores)) _ (Keeps-lift _) (λ ai.
              Keeps-bind (lift (env.evidence (target_value kind entity) start stop)) _
                (Keeps-lift _)
                (λ found.
                  Keeps-answer found _ _ (λ signals. act_on_answer-Keeps anomaly_id _)
                    (λ e.
                      Keeps-if e.retryable _ _ (λ _. Keeps-pure false)
                        (λ _. finish-Keeps anomaly_id "evidence_error" none))))))

    pub handle-Keeps : (doc : Value) (now : ℕ) → Keeps P (handle env doc now)
    unfolding handle
    handle-Keeps doc now =
        let anomaly_id = env.py.text_of (nested ("event" ∷ "id" ∷ []) doc) in
        Keeps-bind (lift (object_of (nested ("feature_vector" ∷ []) doc))) _ (Keeps-lift _)
          (λ vector.
            Keeps-option (target_of env.py vector) _ _
              (finish-Keeps anomaly_id "unsupported_entity" none)
              (λ who.
                Keeps-option (env.policy_for who.0) _ _ (finish-Keeps anomaly_id "no_policy" none)
                  (λ policy_id.
                    handle_target-Keeps anomaly_id vector (nested ("ai" ∷ []) doc) who.0 who.1
                      policy_id now)))
