-- ===== src/Runner/Tests.antt =====
-- A run of response/service/decision_runner.py on one anomaly.
use enterprise_netsec_iac.Common.{true, List, [], ◌∷◌, none, some, ok, ◌≡◌, refl, ◌*◌, str_eq}
use enterprise_netsec_iac.Value.{Value, text, dict, list, field, end, nil}
use enterprise_netsec_iac.Platform.{second}
use enterprise_netsec_iac.Fixtures.{toy_platform}
use enterprise_netsec_iac.Decision.Engine.{Decision, requested}
use enterprise_netsec_iac.Runner.{RunnerMode, observe, enforce, Runner, Surroundings, answered}
use enterprise_netsec_iac.Runner.Handling.{handle_hits}
use enterprise_netsec_iac.Runner.Cursor.{IsConsumed, handle_hits-IsConsumed}
use enterprise_netsec_iac.Runner.Quiet.{observe_sends_nothing}

abbrev eligible : Decision
eligible = record {
  eligible = true;
  outcome = requested;
  decision_event_id = some "decision-1";
  event_outcome = some "request_response";
  request_id = some "request-1";
  command = some (text "command");
}

-- The engine finds every anomaly of an address eligible.
abbrev surroundings : Surroundings
surroundings = record {
  lib = toy_platform;
  py = record {
    int_of_text = λ s. none;
    isdigit = λ s. true;
    rstrip_dots = λ s. s;
    has_part = λ part s. str_eq part s;
    text_of = λ v. "src_ip";
    isoformat = λ t. "T";
  };
  policy_for = λ kind. some "COR-001";
  parse_rfc3339 = λ v. ok (1000 * second);
  rfc3339 = λ t. "T0";
  evidence = λ target start stop. ok (answered (list nil));
  decide = λ policy anomaly signals target now. ok eligible;
}

abbrev runner : RunnerMode → Runner
runner mode = record {
  mode = mode;
  state = record { cursor = none; decisions = [] };
  answers = [];
  written = [];
  sent = [];
}

abbrev hits : List (Value × Value)
hits =
    (
      dict (
          field "feature_vector"
            (dict (field "entity_type" (text "src_ip") (field "entity" (text "203.0.113.9") end)))
            end),
      text "1",
    )
    ∷ []

-- The same anomaly makes a runner in enforce mode send its command.
enforce_sends :
    (handle_hits surroundings hits 0 (1001 * second) (runner enforce)).1.sent ≡ text "command" ∷ []
unfolding handle_hits
enforce_sends = refl

observe_sends_nothing_example :
    (handle_hits surroundings hits 0 (1001 * second) (runner observe)).1.sent ≡ []
observe_sends_nothing_example =
    observe_sends_nothing surroundings hits 0 (1001 * second) (runner observe) refl

handle_hits-IsConsumed_example :
    IsConsumed surroundings
      (1001 * second)
      hits
      (runner enforce)
      0
      (handle_hits surroundings hits 0 (1001 * second) (runner enforce)).0
      (handle_hits surroundings hits 0 (1001 * second) (runner enforce)).1
handle_hits-IsConsumed_example =
    handle_hits-IsConsumed surroundings hits 0 (1001 * second) (runner enforce)
