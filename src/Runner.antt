-- ===== src/Runner.antt =====
-- response/service/decision_runner.py, `DecisionState` and `DecisionRunner`: the database, the deliveries and
-- the target. The queries of `_signals` and of `run_once` are arguments, as are the answers of Elasticsearch
-- and of the orchestrator to the documents and commands sent to them.
pub mod Handling
pub mod Kept
pub mod Cursor
pub mod Quiet
mod Tests
use enterprise_netsec_iac.Common.{
  ℕ, String, Bool, true, false, ◌&&◌, Option, none, some, List, [], ◌∷◌, ◌++◌, str_eq,
  if◌then◌else◌, Result, ok, err, correlation_rejected, policy_error, Method, pure, lift, gets,
  modify, ◌>>=◌, ◌>>◌, ◌+◌, error, attribute_error,
}
use enterprise_netsec_iac.Value.{
  Value, Fields, text, dict, field, end, get, nonempty_text, is_truthy,
}
use enterprise_netsec_iac.Platform.{Platform}
use enterprise_netsec_iac.Features.Events.{Python, nested}
use enterprise_netsec_iac.Decision.Engine.{Decision}

pub data RunnerMode : Type 0 where
  observe enforce : RunnerMode

-- A row of the table `decisions`, without its time.
pub record DecisionRow : Type 0 where
  pub anomaly_id : String
  pub outcome : String
  pub decision_event_id : Option String

-- The private database: the cursor and the outcomes.
pub record DecisionState : Type 0 where
  pub cursor : Option Value
  pub decisions : List DecisionRow

-- `DeliveryError`
pub record DeliveryError : Type 0 where
  pub code : String
  pub retryable : Bool

-- What a request over the network comes to.
pub data Answer (A : Type 0) : Type 0 where
  answered : A → Answer A
  undelivered : DeliveryError → Answer A

-- A document that was written: the identifier of the decision's event and its outcome.
pub record Document : Type 0 where
  pub event_id : String
  pub outcome : String

pub record Runner : Type 0 where
  pub mode : RunnerMode
  pub state : DecisionState
  pub answers : List (Answer (Unit {0}))
  pub written : List Document
  pub sent : List Value

-- What the runner is given; `decide` is `DecisionEngine.evaluate` on a policy, an anomaly, the signals and
-- a target, `evidence` is `_signals`, which may also raise.
pub record Surroundings : Type 0 where
  pub lib : Platform
  pub py : Python
  pub policy_for : String → Option String
  pub parse_rfc3339 : Value → Result ℕ
  pub rfc3339 : ℕ → String
  pub evidence : Value → ℕ → ℕ → Result (Answer Value)
  pub decide : String → Value → Value → Value → ℕ → Result Decision

-- `INSERT … ON CONFLICT(anomaly_event_id) DO UPDATE`
abbrev pub put_decision : DecisionRow → List DecisionRow → List DecisionRow
put_decision d [] = d ∷ []
put_decision d (e ∷ es) =
    let rest = put_decision d es in if str_eq e.anomaly_id d.anomaly_id then d ∷ es else e ∷ rest

-- `DecisionState.record`
unfoldable pub record_outcome : String → String → Option String → Method Runner (Unit {0})
record_outcome anomaly_id outcome event_id = modify (λ r. record r {
  state = record r.state {
    decisions =
        put_decision
          (record { anomaly_id = anomaly_id; outcome = outcome; decision_event_id = event_id })
          r.state.decisions;
  };
})

-- `DecisionState.set_cursor`
unfoldable pub set_cursor : Value → Method Runner (Unit {0})
set_cursor v = modify (λ r. record r { state = record r.state { cursor = some v } })

abbrev pub next : List (Answer (Unit {0})) → Answer (Unit {0})
next [] = answered tt
next (a ∷ as') = a

abbrev pub later : List (Answer (Unit {0})) → List (Answer (Unit {0}))
later [] = []
later (a ∷ as') = as'

-- `_write_decision`, which answers with the error of the delivery, if there is one.
unfoldable pub write_decision : Document → Method Runner (Option DeliveryError)
write_decision d r =
    let r' = record r { answers = later r.answers } in
    elim (next r.answers) [
      | answered u ↦ (ok none, record r' { written = r'.written ++ d ∷ [] })
      | undelivered e ↦ (ok (some e), r')
    ]

-- `self._send(result.command)`; the orchestrator may have taken a command whose answer was lost.
unfoldable pub send_command : Option Value → Method Runner (Option DeliveryError)
send_command none r = (ok none, r)
send_command (some command) r =
    let r' = record r { answers = later r.answers; sent = r.sent ++ command ∷ [] } in
    elim (next r.answers) [ answered u ↦ (ok none, r') | undelivered e ↦ (ok (some e), r') ]

-- `_target`: the kind and the value of the entity.
abbrev pub kind_of : String → Option String
kind_of s = if str_eq s "src_ip" then some "ip" else if str_eq s "host" then some "host" else none

unfoldable pub target_of : Python → Fields → Option (String × String)
target_of py vector = elim (kind_of (py.text_of (get "entity_type" vector))) [
  | none ↦ none
  | some kind ↦ elim (nonempty_text (get "entity" vector)) [
    | none ↦ none
    | some entity ↦ some (kind, entity)
  ]
]

abbrev pub target_value : String → String → Value
target_value kind entity = dict (field "type" (text kind) (field "value" (text entity) end))

-- `value or {}` where `.get` is called: a value that is neither empty nor an object has no such method.
unfoldable pub object_of : Value → Result Fields
object_of (dict fs) = ok fs
object_of v = if is_truthy v then error attribute_error "object has no attribute 'get'" else ok end
