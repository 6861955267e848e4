-- ===== src/Runner/Quiet.antt =====
-- response/service/decision_runner.py: which commands leave the runner in observe mode.
use enterprise_netsec_iac.Common.{
  String, Bool, true, false, Option, none, some, List, [], ◌∷◌, ◌≡◌, refl, ℕ, ◌+◌,
}
use enterprise_netsec_iac.Common.Keeps.{Keeps, Keeps-pure, Keeps-bind, Keeps-then, Keeps-if}
use enterprise_netsec_iac.Value.{Value}
use enterprise_netsec_iac.Decision.Engine.{Decision}
use enterprise_netsec_iac.Runner.{
  RunnerMode, observe, Runner, Surroundings, Document, record_outcome, set_cursor, write_decision,
}
use enterprise_netsec_iac.Runner.Handling.{act_on, handle, handle_hits}
use enterprise_netsec_iac.Runner.Kept.{
  finish-Keeps, note_decision-Keeps, handle-Keeps, write_decision-Keeps,
}

-- The runner observes, and has sent `commands`.
record IsQuiet (commands : List Value) (r : Runner) : Type 0 where
  observing : r.mode ≡ observe
  unsent : r.sent ≡ commands

module _ (env : Surroundings) {commands : List Value} where
  record_outcome-Keeps :
      (anomaly_id outcome : String) (event_id : Option String)
      → Keeps (IsQuiet commands) (record_outcome anomaly_id outcome event_id)
  unfolding record_outcome
  record_outcome-Keeps anomaly_id outcome event_id = record {
    at = λ r h. record { observing = h.observing; unsent = h.unsent };
  }

  set_cursor-Keeps : (v : Value) → Keeps (IsQuiet commands) (set_cursor v)
  unfolding set_cursor
  set_cursor-Keeps v = record { at = λ r h. record { observing = h.observing; unsent = h.unsent } }

  wrote : (d : Document) → Keeps (IsQuiet commands) (write_decision d)
  wrote =
      write_decision-Keeps
        (λ r answers written h. record { observing = h.observing; unsent = h.unsent })

  act_on-Keeps :
      (anomaly_id : String) (d : Decision) (mode : RunnerMode)
      → mode ≡ observe
      → Keeps (IsQuiet commands) (act_on env anomaly_id d mode)
  unfolding act_on
  act_on-Keeps anomaly_id d mode observing = rw observing (decided d.decision_event_id d.eligible)
    where
      decided :
          (event : Option String) (eligible : Bool)
          → Keeps (IsQuiet commands) (
              act_on env anomaly_id
                (record d { decision_event_id = event; eligible = eligible })
                observe)
      decided none eligible = finish-Keeps env record_outcome-Keeps anomaly_id "anomaly_only" none
      decided (some event_id) true =
          note_decision-Keeps env record_outcome-Keeps wrote anomaly_id event_id
            (record d { decision_event_id = some event_id; eligible = true })
      decided (some event_id) false =
          note_decision-Keeps env record_outcome-Keeps wrote anomaly_id event_id
            (record d { decision_event_id = some event_id; eligible = false })

  handle_hits-Keeps :
      (hits : List (Value × Value)) (processed now : ℕ)
      → Keeps (IsQuiet commands) (handle_hits env hits processed now)
  unfolding handle_hits
  handle_hits-Keeps [] processed now = Keeps-pure (processed, 0)
  handle_hits-Keeps ((doc, sort) ∷ hits) processed now =
      Keeps-bind (handle env doc now) _
        (handle-Keeps env record_outcome-Keeps
          (λ id d r h. (act_on-Keeps id d r.mode h.observing).at r h) doc now)
        (λ finished.
          Keeps-if finished _ _
            (λ _.
              Keeps-then (set_cursor sort) _ (set_cursor-Keeps sort)
                (handle_hits-Keeps hits (processed + 1) now))
            (λ _. Keeps-pure (processed, 1)))

-- A runner in observe mode sends no command, whatever the anomalies are, whatever the engine decides, and
-- whether or not its documents are delivered.
pub observe_sends_nothing :
    (env : Surroundings) (hits : List (Value × Value)) (processed now : ℕ) (r : Runner)
    → r.mode ≡ observe
    → (handle_hits env hits processed now r).1.sent ≡ r.sent
observe_sends_nothing env hits processed now r observing =
    ((handle_hits-Keeps env hits processed now).at r
      (record { observing = observing; unsent = refl })).unsent
